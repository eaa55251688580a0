-- ===== src/Drawdown/Examples.antt =====
-- A refresh of drawdown.py that is redirected, and its theorem at that input.
use lode.Prelude.{
  Text, codes, false, [], ◌∷◌, ◌++◌, Option, none, some, refl, str_eq, skip_spaces, any,
}
use lode.Fixtures.{toy_hash, hashers, settings}
use lode.Hashing.{
  encode_char, encode, big_endian, to_bytes, framed, frame_fields, digest, content_snapshot_id,
}
use lode.Schema.{EdgeRow, user, fresh}
use lode.Versions.{empty_db}
use lode.Store.{Store}
use lode.Externals.{find_external, find_snapshot}
use lode.Externals.Fetch.{FetchResult, fetched_ok}
use lode.Externals.Mirror.{IsMirror}
use lode.Drawdown.Urls.{
  SplitResult, UrlLib, LinkSettings, canonicalize_url, canonical_path, sort_pairs, without_tracking,
}
use lode.Drawdown.Refresh.{Fetchers, refresh_external}
use lode.Drawdown.Handled.{Refreshes, from_web, refresh_external_lem}

abbrev parts : SplitResult
parts = record {
  scheme = codes "https";
  hostname = some (codes "b.io");
  port = some none;
  path = codes "/";
  query = [];
}

abbrev urls : UrlLib
urls = record {
  urlsplit = λ url. some parts;
  parse_qsl = λ query. [];
  urlencode = λ pairs. [];
  urlunsplit = λ scheme netloc path query. scheme ++ (codes "://" ++ (netloc ++ path));
  lower = λ s. s;
  is_digit = λ c. false;
}

abbrev links : LinkSettings
links = record {
  jira_active = false;
  jira_base_url = [];
  jira_projects = [];
  confluence_active = false;
  confluence_base_url = [];
  url_tracking_param_blocklist = [];
}

abbrev old_url : Text
old_url = codes "https://a.io/"

abbrev new_url : Text
new_url = codes "https://b.io/"

abbrev page : FetchResult
page = record {
  status = fetched_ok;
  final_url = new_url;
  clean_text = some (codes "text");
  raw_html = none;
  tombstone_reason = none;
}

abbrev fetchers : Fetchers
fetchers = record {
  fetch_and_extract = λ url. some page;
  fetch_jira_issue = λ key base. none;
  fetch_confluence_page = λ id base. none;
}

abbrev edge : EdgeRow
edge = record {
  id = 1;
  from_id = codes "n1";
  to_id = old_url;
  source = user;
  source_version = none;
  quoted_text = some old_url;
  status = fresh;
}

abbrev linked_store : Store
linked_store = record {
  db = record empty_db { edges = edge ∷ [] };
  jobs = [];
  externals = [];
  snapshots = [];
  cache = [];
}

linked_store-IsMirror : IsMirror hashers settings.content_hash linked_store
unfolding find_external find_snapshot
linked_store-IsMirror = record { headed = λ k. tt; addressed = λ i. tt; embedded = λ i. tt }

abbrev id_or_nil : Option Text → Text
id_or_nil none = []
id_or_nil (some i) = i

abbrev page_id : Text
page_id = id_or_nil (content_snapshot_id hashers settings.content_hash new_url (codes "text"))

refresh_external_lem_example :
    Refreshes hashers settings [] urls links 1 2 old_url new_url page_id linked_store
      (refresh_external hashers settings [] urls links 1 2 fetchers old_url linked_store)
unfolding content_snapshot_id toy_hash digest frame_fields framed encode encode_char to_bytes
    big_endian str_eq find_external canonicalize_url canonical_path sort_pairs without_tracking
    skip_spaces any
refresh_external_lem_example =
    refresh_external_lem hashers settings [] urls links 1 2 fetchers old_url page_id linked_store
      page new_url linked_store-IsMirror (from_web page new_url refl refl refl) refl
