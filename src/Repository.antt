-- ===== src/Repository.antt =====
-- repository.py: the entry points of a save, a delete, a recovery and a purge, which keep the version
-- store, the job queue, the links and the cache together. The cache's calls are recorded. The clock,
-- the hash libraries, the patterns of the redaction and the functions of `urllib` are arguments.
pub mod Core
pub mod Save
pub mod Atomic
pub mod Examples
use lode.Prelude.{
  ℕ, Text, Bool, true, false, List, [], ◌∷◌, ◌++◌, map, Option, none, some, str_eq, not, ◌&&◌, leb,
  ltb, if◌then◌else◌, length, take, ◌==◌, ◌||◌,
}
use lode.Hashing.{Hashers}
use lode.Schema.{Op, create, update, delete, NoteRow, VersionRow, Db}
use lode.Jobs.{JobRow, derive_job_types, enqueue_derive_jobs}
use lode.Versions.{
  Result, ok, err, Err, key_error, value_error, SaveResult, SavedOp, created, updated, deleted,
  recovered, PurgeResult, Settings, save_core, delete_note, recover, purge,
}
use lode.Versions.Sql.{find_version}
use lode.Egress.{Pattern, redact_counting}
use lode.Staleness.{reanchor_annotations, reanchor_edges}
use lode.Store.{Store, CacheCall, index_call, evict_call}
use lode.Drawdown.Urls.{UrlLib, LinkSettings, text_before}
use lode.Drawdown.Links.{detect_and_enqueue_drawdown}

-- What the calls read beside the store.
pub record Context : Type 0 where
  pub hashers : Hashers
  pub settings : Settings
  pub links : LinkSettings
  pub urls : UrlLib
  pub redact_before_index_patterns : List Pattern
  pub now : ℕ
  pub clock : ℕ → ℕ

abbrev pub redacted_body : Context → Text → Text
redacted_body c body = (redact_counting body c.redact_before_index_patterns).0

abbrev pub is_update : SavedOp → Bool
is_update created = false
is_update updated = true
is_update deleted = false
is_update recovered = false

unfoldable pub reanchor_both : Text → Text → Text → Store → Store
unfolding reanchor_annotations reanchor_edges
reanchor_both note_id version_id body st = record st {
  db = record (st.db) {
    annotations = (reanchor_annotations note_id version_id body st.db.annotations).1;
    edges = (reanchor_edges note_id version_id body st.db.edges).1;
  };
}

-- After the links: an update re-anchors, and the cache is called when all has been committed.
unfoldable pub finish_save : Context → Text → Text → SaveResult → Store → Store
unfolding reanchor_both redact_counting
finish_save c note_id body r st0 =
    let st = if is_update r.op then reanchor_both note_id r.version_id body st0 else st0 in
    record st { cache = st.cache ++ index_call note_id r.version_id (redacted_body c body) ∷ [] }

abbrev pub with_links :
    Context
    → Text
    → Text
    → SaveResult
    → Store
    → Option (List Text × Store)
    → Result SaveResult × Store
with_links c note_id body r before none = (err value_error, before)
with_links c note_id body r before (some (external_ids, st)) =
    (ok r, finish_save c note_id body r st)

abbrev pub with_jobs : Context → Text → Db → Store → Store
with_jobs c version_id db st = record st {
  db = db;
  jobs = enqueue_derive_jobs c.now version_id derive_job_types st.jobs;
}

-- The transaction, and the call of the cache after it; `before` is what a rollback restores.
abbrev pub after_core :
    Context → Text → Text → Store → Result (SaveResult × Db) → Result SaveResult × Store
after_core c note_id body before (err e) = (err e, before)
after_core c note_id body before (ok (r, db)) =
    if r.deduped
    then (ok r, record before { db = db })
    else with_links c note_id body r before (
        detect_and_enqueue_drawdown c.settings c.clock note_id r.version_id c.urls c.links body
          (with_jobs c r.version_id db before))

unfoldable pub repository_save :
    Context → Text → Text → Text → Option Bool → Store → Result SaveResult × Store
unfolding save_core enqueue_derive_jobs detect_and_enqueue_drawdown finish_save
repository_save c note_id body parent no_egress st =
    after_core c note_id body st
      (save_core c.hashers c.settings note_id body parent no_egress st.db)

abbrev pub evicted : Text → Result SaveResult → List CacheCall → List CacheCall
evicted note_id (err e) calls = calls
evicted note_id (ok r) calls = calls ++ evict_call note_id r.version_id ∷ []

unfoldable pub repository_delete : Context → Text → Text → Store → Result SaveResult × Store
unfolding delete_note
repository_delete c note_id parent st =
    let (result, db) = delete_note c.hashers c.settings note_id parent st.db in
    (result, record st { db = db; cache = evicted note_id result st.cache })

-- `_body`
abbrev pub body_column : Option VersionRow → Text
body_column none = []
body_column (some v) = v.body

abbrev pub reindexed : Context → Text → Db → Result SaveResult → List CacheCall → List CacheCall
reindexed c note_id db (err e) calls = calls
reindexed c note_id db (ok r) calls =
    calls
    ++ index_call note_id r.version_id
        (redacted_body c (body_column (find_version r.version_id db.versions)))
      ∷ []

unfoldable pub repository_recover : Context → Text → Text → Store → Result SaveResult × Store
unfolding recover find_version redact_counting
repository_recover c note_id target_version st =
    let (result, db) = recover note_id target_version st.db in
    (result, record st { db = db; cache = reindexed c note_id db result st.cache })

abbrev pub is_delete_op : Op → Bool
is_delete_op create = false
is_delete_op update = false
is_delete_op delete = true

-- Each version is evicted; the marker of a live head is indexed as it stands.
abbrev pub purged : Text → Result PurgeResult → List CacheCall → List CacheCall
purged note_id (err e) calls = calls
purged note_id (ok r) calls =
    calls
    ++ (map (evict_call note_id) r.purged_versions
        ++ (if is_delete_op r.head_op
            then []
            else index_call note_id r.head_version_id r.marker_body ∷ []))

unfoldable pub repository_purge : Text → ℕ → Text → Store → Result PurgeResult × Store
unfolding purge
repository_purge day now note_id st =
    let (result, db) = purge day now note_id st.db in
    (result, record st { db = db; cache = purged note_id result st.cache })

-- `AmbiguousNoteIdError` carries the candidates.
pub data Resolved : Type 0 where
  resolved : Text → Resolved
  unknown : Text → Resolved
  ambiguous : (prefix : Text) → List Text → Resolved

abbrev pub note_id_length : ℕ
note_id_length = 36

abbrev pub is_candidate : Bool → Text → Option VersionRow → NoteRow → Bool
is_candidate include_deleted prefix none n = false
is_candidate include_deleted prefix (some v) n =
    str_eq (take (length prefix) n.note_id) prefix && (include_deleted || not (is_delete_op v.op))

unfoldable pub insert_text : Text → List Text → List Text
insert_text i [] = i ∷ []
insert_text i (j ∷ is) =
    let rest = insert_text i is in if text_before i j then i ∷ (j ∷ is) else j ∷ rest

-- `WHERE … ORDER BY n.note_id`
unfoldable pub candidates : Bool → Text → List VersionRow → List NoteRow → List Text
unfolding insert_text find_version text_before
candidates include_deleted prefix vs [] = []
candidates include_deleted prefix vs (n ∷ ns) =
    let rest = candidates include_deleted prefix vs ns in
    if is_candidate include_deleted prefix (find_version n.head_version_id vs) n
    then insert_text n.note_id rest
    else rest

abbrev pub only_one : Text → List Text → Resolved
only_one prefix [] = unknown prefix
only_one prefix (i ∷ []) = resolved i
only_one prefix (i ∷ (j ∷ is)) = ambiguous prefix (i ∷ (j ∷ is))

unfoldable pub resolve_note_prefix : Bool → Text → Db → Resolved
unfolding candidates
resolve_note_prefix include_deleted prefix db =
    if length prefix == 0
    then unknown prefix
    else if leb note_id_length (length prefix)
    then resolved prefix
    else only_one prefix (candidates include_deleted prefix db.versions db.notes)
