-- ===== src/Drawdown/Links.antt =====
-- drawdown.py: what a save writes for the links of a note, all in the transaction of the save. `clock k`
-- is the reading of `now_iso()` for the link that follows `k` others.
use Prim.Native.Nat.{max}
use lode.Prelude.{
  ℕ, suc, Text, codes, Bool, true, false, List, [], ◌∷◌, ◌++◌, Option, none, some, str_eq, not,
  ◌&&◌, if◌then◌else◌, any, length,
}
use lode.Schema.{user, fresh, EdgeRow}
use lode.Jobs.{refresh, enqueue_derive_jobs}
use lode.Versions.{Settings}
use lode.Versions.Sql.{is_ai}
use lode.Externals.{insert_external}
use lode.Store.{Store}
use lode.Drawdown.{extract_urls, iter_bare_jira_key_spans, iter_url_spans, outside}
use lode.Drawdown.Urls.{
  UrlLib, LinkSettings, is_empty_text, classify_atlassian, canonicalize_url, rstrip_slashes,
}

pub record Link : Type 0 where
  pub source_type : Option Text
  pub external_id : Text
  pub api_base : Option Text
  pub quoted_text : Text

-- `SELECT 1 FROM edges WHERE from_id = ? AND to_id = ? AND source = 'user'`
abbrev pub is_user_edge : Text → Text → EdgeRow → Bool
is_user_edge note_id external_id e =
    str_eq e.from_id note_id && (str_eq e.to_id external_id && not (is_ai e.source))

unfoldable pub next_edge_id : List EdgeRow → ℕ
next_edge_id [] = 1
next_edge_id (e ∷ es) = max (suc e.id) (next_edge_id es)

abbrev pub user_edge : ℕ → Text → Text → Link → EdgeRow
user_edge id note_id version_id link = record {
  id = id;
  from_id = note_id;
  to_id = link.external_id;
  source = user;
  source_version = some version_id;
  quoted_text = some link.quoted_text;
  status = fresh;
}

-- The external is created where the source type is known.
unfoldable pub with_external : Settings → Link → Option Text → Store → Store
unfolding insert_external
with_external settings link none st = st
with_external settings link (some t) st = record st {
  externals = (insert_external settings link.external_id t link.api_base st.externals).0;
}

module _ (settings : Settings) (clock : ℕ → ℕ) (note_id version_id : Text) where
  -- The three writes of a new link.
  unfoldable pub write_link : ℕ → Link → Store → Store
  unfolding with_external next_edge_id enqueue_derive_jobs
  write_link now link st0 =
      let st = with_external settings link link.source_type st0 in
      record st {
        db = record (st.db) {
          edges = user_edge (next_edge_id st.db.edges) note_id version_id link ∷ st.db.edges;
        };
        jobs = enqueue_derive_jobs now link.external_id (refresh ∷ []) st.jobs;
      }

  -- The list holds the ids that the save has linked so far.
  unfoldable pub link_and_enqueue : Link → List Text × Store → List Text × Store
  unfolding any write_link
  link_and_enqueue link (external_ids, st) =
      if any (str_eq link.external_id) external_ids
      then (external_ids, st)
      else if any (is_user_edge note_id link.external_id) st.db.edges
      then (external_ids ++ link.external_id ∷ [], st)
      else (external_ids ++ link.external_id ∷ [], write_link (clock (length external_ids)) link st)

  abbrev pub atlassian_link : Text → Text × Text × Text → Link
  atlassian_link url (source_type, external_id, api_base) = record {
    source_type = some source_type;
    external_id = external_id;
    api_base = some api_base;
    quoted_text = url;
  }

  abbrev pub web_link : Text → Text → Link
  web_link url external_id = record {
    source_type = none;
    external_id = external_id;
    api_base = none;
    quoted_text = url;
  }

  abbrev pub key_link : LinkSettings → Text → Link
  key_link links key = record {
    source_type = some (codes "jira");
    external_id = key;
    api_base = some (rstrip_slashes links.jira_base_url);
    quoted_text = key;
  }

  module _ (u : UrlLib) (links : LinkSettings) where
    -- The link of a URL: `none` where it has no canonical form and is skipped, and outside of it
    -- where the classification raises.
    abbrev pub web_or_skipped : Text → Option Text → Option Link
    web_or_skipped url none = none
    web_or_skipped url (some external_id) = some (web_link url external_id)

    abbrev pub link_of : Text → Option (Option (Text × Text × Text)) → Option (Option Link)
    link_of url none = none
    link_of url (some (some c)) = some (some (atlassian_link url c))
    link_of url (some none) = some (web_or_skipped url (canonicalize_url u links url))

    unfoldable pub url_link : Text → Option (Option Link)
    unfolding classify_atlassian canonicalize_url
    url_link url = link_of url (classify_atlassian u links url)

    abbrev pub linked : Option Link → List Text × Store → List Text × Store
    linked none s = s
    linked (some link) s = link_and_enqueue link s

    -- The loop over the URLs; `none` is the `ValueError` that ends it.
    unfoldable pub link_urls : List Text → List Text × Store → Option (List Text × Store)
    unfolding url_link link_and_enqueue
    link_urls [] s = some s
    link_urls (url ∷ urls) s = elim (url_link url) [
      | none ↦ none
      | some link ↦ link_urls urls (linked link s)
    ]

    unfoldable pub link_keys : List Text → List Text × Store → List Text × Store
    unfolding link_and_enqueue
    link_keys [] s = s
    link_keys (key ∷ keys) s = link_keys keys (link_and_enqueue (key_link links key) s)

    abbrev pub has_projects : List Text → Bool
    has_projects [] = false
    has_projects (p ∷ ps) = true

    -- `iter_bare_jira_keys`
    unfoldable pub bare_jira_keys : Text → List Text
    unfolding iter_url_spans iter_bare_jira_key_spans outside
    bare_jira_keys body =
        if links.jira_active
          && (has_projects links.jira_projects && not (is_empty_text links.jira_base_url))
        then outside (iter_url_spans body)
            (iter_bare_jira_key_spans u.is_digit body links.jira_projects)
        else []

    abbrev pub then_keys : Text → Option (List Text × Store) → Option (List Text × Store)
    then_keys body none = none
    then_keys body (some s) = some (link_keys (bare_jira_keys body) s)

    unfoldable pub detect_and_enqueue_drawdown : Text → Store → Option (List Text × Store)
    unfolding extract_urls link_urls link_keys bare_jira_keys
    detect_and_enqueue_drawdown body st = then_keys body (link_urls (extract_urls body) ([], st))
