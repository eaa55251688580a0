-- ===== src/Repository/Examples.antt =====
-- Saves of repository.py on small stores, and its theorems at inputs that meet their hypotheses.
use lode.Prelude.{
  Text, codes, false, [], ◌∷◌, ◌++◌, Option, none, some, ◌≡◌, refl, str_eq, any, inl, skip_spaces,
  if◌then◌else◌, ◌==◌, is_space, leb, ◌&&◌,
}
use lode.Fixtures.{toy_hash, hashers, settings}
use lode.Hashing.{
  encode_char, encode, big_endian, to_bytes, framed, frame_fields, digest, content_version_id,
}
use lode.Versions.{err, value_error, created, save_core, head, empty_db, create_root}
use lode.Versions.Sql.{find_note, find_version}
use lode.Versions.Chain.{IsSound}
use lode.Versions.Outcomes.{result, rooted}
use lode.Store.{Store}
use lode.Faithfulness.{strip_prefix}
use lode.Drawdown.{
  extract_urls, iter_url_spans, spans_from, match_url, take_while, strip_reversed, occurrences,
  unseen,
}
use lode.Drawdown.Urls.{SplitResult, UrlLib, LinkSettings, classify_atlassian}
use lode.Drawdown.Links.{url_link}
use lode.Repository.{Context, repository_save}
use lode.Repository.Save.{IsSaved}
use lode.Repository.Atomic.{repository_save_lem, repository_save_raises}

-- A stand-in for `urllib`: a bracket with no partner is refused, as it is there.
abbrev split : Text → Option SplitResult
split url =
    if any (λ c. c == 91) url
    then none
    else some (record {
      scheme = codes "https";
      hostname = some (codes "a.io");
      port = some none;
      path = codes "/";
      query = [];
    })

abbrev urls : UrlLib
urls = record {
  urlsplit = split;
  parse_qsl = λ query. [];
  urlencode = λ pairs. [];
  urlunsplit = λ scheme netloc path query. scheme ++ (codes "://" ++ (netloc ++ path));
  lower = λ s. s;
  is_digit = λ c. leb 48 c && leb c 57;
}

abbrev links : LinkSettings
links = record {
  jira_active = false;
  jira_base_url = [];
  jira_projects = [];
  confluence_active = false;
  confluence_base_url = [];
  url_tracking_param_blocklist = [];
}

abbrev context : Context
context = record {
  hashers = hashers;
  settings = settings;
  links = links;
  urls = urls;
  redact_before_index_patterns = [];
  now = 1;
  clock = λ k. 2;
}

abbrev empty_store : Store
empty_store = record { db = empty_db; jobs = []; externals = []; snapshots = []; cache = [] }

empty_store-IsSound : IsSound hashers settings.content_hash empty_db
unfolding find_note find_version
empty_store-IsSound = record {
  keyed = tt;
  chain = tt;
  headed = λ k. tt;
  owned = λ j v e. absurd (cc e);
}

abbrev bracket : Text
bracket = codes "see http://[x"

-- The trailing period is no part of the link, and a link is taken once.
found :
    extract_urls (codes "see https://a.io/x. and (https://a.io/x)") ≡ codes "https://a.io/x" ∷ []
unfolding extract_urls iter_url_spans spans_from match_url take_while strip_reversed occurrences
    unseen strip_prefix is_space str_eq any
found = refl

repository_save_lem_example :
    IsSaved context
      (codes "n1")
      (codes "see https://a.io/x.")
      empty_store
      (repository_save context (codes "n1") (codes "see https://a.io/x.") [] none empty_store)
repository_save_lem_example =
    repository_save_lem context (codes "n1") (codes "see https://a.io/x.") [] none empty_store
      empty_store-IsSound

abbrev id_or_nil : Option Text → Text
id_or_nil none = []
id_or_nil (some i) = i

abbrev new_id : Text
new_id = id_or_nil (content_version_id hashers settings.content_hash (codes "n1") [] bracket)

repository_save_raises_example :
    repository_save context (codes "n1") bracket [] none empty_store
    ≡ (err value_error, empty_store)
unfolding save_core head create_root find_note find_version content_version_id toy_hash digest
    frame_fields framed encode encode_char to_bytes big_endian str_eq extract_urls iter_url_spans
    spans_from match_url take_while strip_reversed occurrences unseen strip_prefix is_space any
    url_link classify_atlassian skip_spaces
repository_save_raises_example =
    repository_save_raises context (codes "n1") bracket [] none empty_store
      (result (codes "n1") new_id created false) (rooted empty_db (codes "n1") bracket false new_id)
      refl refl (inl refl)
