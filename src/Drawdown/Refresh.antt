-- ===== src/Drawdown/Refresh.antt =====
-- drawdown.py: `refresh_external`, the handler of a refresh job. A fetch is an argument: `none` is the
-- exception of a transient failure, which ends the job. The result is the line of the outcome with the
-- store, or `none` where the handler raises, which it does before it writes.
use lode.Prelude.{
  ℕ, suc, Text, codes, Bool, List, [], ◌∷◌, ◌++◌, Option, none, some, str_eq, not, ◌&&◌,
  if◌then◌else◌,
}
use lode.Hashing.{Hashers, ◌>>=◌}
use lode.Schema.{EdgeRow, ExternalRow, SnapshotStatus, live, tombstone}
use lode.Versions.{Settings}
use lode.Versions.Sql.{is_ai}
use lode.Egress.{Pattern}
use lode.Store.{Store}
use lode.Chunking.{decimal}
use lode.Externals.{Ingest, value_error, skipped, ingested, find_external}
use lode.Externals.Fetch.{FetchResult, ingest_fetch_result, source_type_web, source_type_or_web}
use lode.Drawdown.Urls.{UrlLib, LinkSettings, canonicalize_url}

abbrev pub points_at : Text → EdgeRow → Bool
points_at k e = str_eq e.to_id k && not (is_ai e.source)

-- `_repoint_edges`, with the number of rows.
unfoldable pub repoint_edges : Text → Text → List EdgeRow → List EdgeRow × ℕ
repoint_edges old_external_id new_external_id [] = ([], 0)
repoint_edges old_external_id new_external_id (e ∷ es) =
    let (rest, rowcount) = repoint_edges old_external_id new_external_id es in
    if points_at old_external_id e
    then (record e { to_id = new_external_id } ∷ rest, suc rowcount)
    else (e ∷ rest, rowcount)

abbrev pub status_text : SnapshotStatus → Text
status_text live = codes "ok"
status_text tombstone = codes "tombstone"

abbrev pub reason_suffix : Option Text → Text
reason_suffix none = []
reason_suffix (some []) = []
reason_suffix (some (c ∷ reason)) = codes " (" ++ ((c ∷ reason) ++ codes ")")

abbrev pub outcome : Text → SnapshotStatus → Option Text → Text
outcome external_id status reason =
    codes "refreshed "
    ++ (external_id ++ (codes ": " ++ (status_text status ++ reason_suffix reason)))

abbrev pub redirect_suffix : Text → ℕ → Text
redirect_suffix final_external_id repointed =
    codes " -> "
    ++ (final_external_id ++ (codes " (repointed " ++ (decimal repointed ++ codes " edge(s))")))

-- The last lines of `_refresh_web`, after the ingest.
unfoldable pub after_web_ingest : Text → Text → Option Text → SnapshotStatus → Store → Text × Store
unfolding repoint_edges
after_web_ingest target_external_id final_external_id reason status st =
    if str_eq final_external_id target_external_id
    then (outcome target_external_id status reason, st)
    else let (edges, repointed) = repoint_edges target_external_id final_external_id st.db.edges in
      (
        outcome target_external_id status reason ++ redirect_suffix final_external_id repointed,
        record st { db = record (st.db) { edges = edges } },
      )

abbrev pub web_ingested : Text → Text → Option Text → Ingest × Store → Option (Text × Store)
web_ingested target final reason (value_error, st) = none
web_ingested target final reason (skipped, st) = none
web_ingested target final reason (ingested r, st) =
    some (after_web_ingest target final reason r.status st)

abbrev pub atlassian_ingested : Text → Option Text → Ingest × Store → Option (Text × Store)
atlassian_ingested external_id reason (value_error, st) = none
atlassian_ingested external_id reason (skipped, st) = none
atlassian_ingested external_id reason (ingested r, st) =
    some (outcome external_id r.status reason, st)

abbrev pub api_base_of : Option ExternalRow → Option Text
api_base_of none = none
api_base_of (some e) = e.api_base

-- The functions that go over the network.
pub record Fetchers : Type 0 where
  pub fetch_and_extract : Text → Option FetchResult
  pub fetch_jira_issue : Text → Text → Option FetchResult
  pub fetch_confluence_page : Text → Text → Option FetchResult

module _ (h : Hashers) (settings : Settings) (patterns : List Pattern) (u : UrlLib)
    (links : LinkSettings) (fetched_at enqueued_at : ℕ) where
  abbrev pub refresh_web_with : Text → FetchResult → Text → Store → Option (Text × Store)
  refresh_web_with target result final_external_id st =
      web_ingested target final_external_id result.tombstone_reason (
        ingest_fetch_result h settings patterns final_external_id source_type_web result fetched_at
          enqueued_at st)

  unfoldable pub refresh_web : (Text → Option FetchResult) → Text → Store → Option (Text × Store)
  unfolding canonicalize_url ingest_fetch_result after_web_ingest
  refresh_web fetch target_external_id st = do
    result ← fetch target_external_id
    final_external_id ← canonicalize_url u links result.final_url
    refresh_web_with target_external_id result final_external_id st

  -- An `api_base` that is not there or is empty is the `RuntimeError`.
  abbrev pub fetch_from :
      (Text → Text → Option FetchResult) → Text → Option Text → Option FetchResult
  fetch_from fetch_fn external_id none = none
  fetch_from fetch_fn external_id (some []) = none
  fetch_from fetch_fn external_id (some (c ∷ api_base)) = fetch_fn external_id (c ∷ api_base)

  unfoldable pub refresh_atlassian :
      (Text → Text → Option FetchResult) → Text → Text → Store → Option (Text × Store)
  unfolding ingest_fetch_result find_external
  refresh_atlassian fetch_fn source_type external_id st = do
    result ← fetch_from fetch_fn external_id (api_base_of (find_external external_id st.externals))
    atlassian_ingested external_id result.tombstone_reason (
        ingest_fetch_result h settings patterns external_id source_type result fetched_at
          enqueued_at st)

  unfoldable pub refresh_external : Fetchers → Text → Store → Option (Text × Store)
  refresh_external fetchers target_external_id st =
      let source_type = source_type_or_web (find_external target_external_id st.externals) in
      if str_eq source_type source_type_web
      then refresh_web fetchers.fetch_and_extract target_external_id st
      else if str_eq source_type (codes "jira")
      then refresh_atlassian fetchers.fetch_jira_issue source_type target_external_id st
      else if str_eq source_type (codes "confluence")
      then refresh_atlassian fetchers.fetch_confluence_page source_type target_external_id st
      else none
