-- ===== src/Externals.antt =====
-- externals.py: the mirror of the external sources, with the hook of worker.py for a dead `refresh`
-- job. A timestamp is a number of milliseconds, `fetched_at` and `enqueued_at` are the readings of
-- `now_iso()` that a call makes. The hash libraries, the patterns of the redaction and the vectors
-- of the passages are arguments; log calls and the sentences that a handler returns are left out.
pub mod Fetch
pub mod Reenrich
pub mod Tables
pub mod Ends
pub mod Mirror
pub mod Keeps
pub mod Moved
pub mod Requests
pub mod Settled
pub mod Guard
pub mod DeadLetter
pub mod LateSuccess
pub mod Examples
pub mod Tombstones
use lode.Prelude.{
  ℕ, Text, codes, Bool, true, false, List, [], ◌∷◌, ◌++◌, Option, none, some, str_eq, not, ◌&&◌,
  leb, if◌then◌else◌,
}
use lode.Hashing.{Hashers, content_snapshot_id}
use lode.Schema.{ExternalRow, SnapshotRow, SnapshotStatus, live, tombstone}
use lode.Jobs.{JobRow, embed, enqueue_derive_jobs}
use lode.Versions.{Settings}
use lode.Egress.{Pattern, redact_counting}
use lode.Store.{Store, CacheCall, index_call}

unfoldable pub find_external : Text → List ExternalRow → Option ExternalRow
find_external k [] = none
find_external k (e ∷ es) = if str_eq e.external_id k then some e else find_external k es

unfoldable pub find_snapshot : Text → List SnapshotRow → Option SnapshotRow
find_snapshot k [] = none
find_snapshot k (s ∷ ss) = if str_eq s.snapshot_id k then some s else find_snapshot k ss

abbrev pub is_tombstone : SnapshotStatus → Bool
is_tombstone live = false
is_tombstone tombstone = true

unfoldable pub tombstone_body : Text → Text
tombstone_body reason = codes "[tombstone: " ++ reason ++ codes "]"

-- `INSERT INTO externals … ON CONFLICT DO NOTHING`, and whether it inserted a row.
unfoldable pub insert_external :
    Settings → Text → Text → Option Text → List ExternalRow → List ExternalRow × Bool
unfolding find_external
insert_external settings external_id source_type api_base es = elim (find_external external_id es) [
  | some taken ↦ (es, false)
  | none ↦ (
    record {
      external_id = external_id;
      source_type = source_type;
      head_snapshot_id = none;
      no_egress = settings.no_egress_default;
      api_base = api_base;
    }
        ∷ es,
    true,
  )
]

-- The head's snapshot: the join of `externals` and `snapshots` on `head_snapshot_id`.
abbrev pub head_column : Option ExternalRow → Option Text
head_column none = none
head_column (some e) = e.head_snapshot_id

abbrev pub snapshot_at : Option Text → List SnapshotRow → Option SnapshotRow
snapshot_at none ss = none
snapshot_at (some i) ss = find_snapshot i ss

unfoldable pub head_snapshot : Text → Store → Option SnapshotRow
unfolding find_external find_snapshot
head_snapshot external_id st =
    snapshot_at (head_column (find_external external_id st.externals)) st.snapshots

-- The guard `skip_if_head_at_or_after` on the head.
abbrev pub is_beaten : Option ℕ → Option SnapshotRow → Bool
is_beaten none head = false
is_beaten (some claim) none = false
is_beaten (some claim) (some s) = not (is_tombstone s.status) && leb claim s.fetched_at

-- `UPDATE snapshots SET fetched_at = ? WHERE snapshot_id = ?`
unfoldable pub set_fetched_at : ℕ → Text → List SnapshotRow → List SnapshotRow
set_fetched_at at_time k [] = []
set_fetched_at at_time k (s ∷ ss) =
    (if str_eq s.snapshot_id k then record s { fetched_at = at_time } else s)
    ∷ set_fetched_at at_time k ss

-- `UPDATE externals SET head_snapshot_id = ? WHERE external_id = ?`
unfoldable pub move_head : Text → Text → List ExternalRow → List ExternalRow
move_head snapshot_id k [] = []
move_head snapshot_id k (e ∷ es) =
    (if str_eq e.external_id k then record e { head_snapshot_id = some snapshot_id } else e)
    ∷ move_head snapshot_id k es

-- `INSERT INTO snapshots … ON CONFLICT DO NOTHING`
unfoldable pub insert_snapshot : SnapshotRow → List SnapshotRow → List SnapshotRow
unfolding find_snapshot
insert_snapshot row ss = elim (find_snapshot row.snapshot_id ss) [
  | some taken ↦ ss
  | none ↦ row ∷ ss
]

pub record IngestResult : Type 0 where
  pub external_id : Text
  pub snapshot_id : Text
  pub status : SnapshotStatus
  pub deduped : Bool

-- How a call ends: the `ValueError` of a failed hash, the `None` of the guard, or a result.
pub data Ingest : Type 0 where
  value_error : Ingest
  skipped : Ingest
  ingested : IngestResult → Ingest

abbrev pub is_head : Text → Option SnapshotRow → Bool
is_head snapshot_id none = false
is_head snapshot_id (some s) = str_eq snapshot_id s.snapshot_id

-- One call's arguments.
pub record Fetched : Type 0 where
  pub external_id : Text
  pub source_type : Text
  pub body : Text
  pub raw_payload : Option Text
  pub status : SnapshotStatus
  pub skip_if_head_at_or_after : Option ℕ
  pub fetched_at : ℕ
  pub enqueued_at : ℕ

abbrev pub snapshot_row : Fetched → Text → SnapshotRow
snapshot_row f snapshot_id = record {
  snapshot_id = snapshot_id;
  external_id = f.external_id;
  body = f.body;
  raw_payload = f.raw_payload;
  fetched_at = f.fetched_at;
  status = f.status;
}

-- The branch of a snapshot that is the head already.
unfoldable pub dedup : Fetched → Text → Store → Store
unfolding set_fetched_at
dedup f snapshot_id st =
    if is_tombstone f.status
    then st
    else record st { snapshots = set_fetched_at f.fetched_at snapshot_id st.snapshots }

abbrev pub enqueued : Fetched → Text → List JobRow → List JobRow
enqueued f snapshot_id js =
    if is_tombstone f.status
    then js
    else enqueue_derive_jobs f.enqueued_at snapshot_id (embed ∷ []) js

-- `_index_snapshot_fts`, after the commit.
unfoldable pub index_snapshot_fts :
    List Pattern → Text → Text → Text → List CacheCall → List CacheCall
unfolding redact_counting
index_snapshot_fts patterns external_id snapshot_id body calls =
    calls ++ index_call external_id snapshot_id (redact_counting body patterns).0 ∷ []

abbrev pub indexed : List Pattern → Fetched → Text → List CacheCall → List CacheCall
indexed patterns f snapshot_id calls =
    if is_tombstone f.status
    then calls
    else index_snapshot_fts patterns f.external_id snapshot_id f.body calls

-- The branch of another snapshot.
unfoldable pub move_to_snapshot : List Pattern → Fetched → Text → Store → Store
unfolding insert_snapshot move_head enqueue_derive_jobs index_snapshot_fts
move_to_snapshot patterns f snapshot_id st = record st {
  jobs = enqueued f snapshot_id st.jobs;
  externals = move_head snapshot_id f.external_id st.externals;
  snapshots = insert_snapshot (snapshot_row f snapshot_id) st.snapshots;
  cache = indexed patterns f snapshot_id st.cache;
}

abbrev pub result_of : Fetched → Text → Bool → Ingest
result_of f snapshot_id deduped = ingested (record {
  external_id = f.external_id;
  snapshot_id = snapshot_id;
  status = f.status;
  deduped = deduped;
})

-- After the upsert and the guard, with the head that the join gave.
abbrev pub write_ingest :
    List Pattern → Fetched → Option SnapshotRow → Option Text → Store → Store → Ingest × Store
write_ingest patterns f head none before st = (value_error, before)
write_ingest patterns f head (some snapshot_id) before st =
    if is_head snapshot_id head
    then (result_of f snapshot_id true, dedup f snapshot_id st)
    else (result_of f snapshot_id false, move_to_snapshot patterns f snapshot_id st)

module _ (h : Hashers) (settings : Settings) (patterns : List Pattern) where
  unfoldable pub ingest_snapshot : Fetched → Store → Ingest × Store
  unfolding insert_external head_snapshot dedup move_to_snapshot content_snapshot_id
  ingest_snapshot f before =
      let upserted =
        (insert_external settings f.external_id f.source_type none before.externals).0 in
      let st = record before { externals = upserted } in
      let head = head_snapshot f.external_id st in
      if is_beaten f.skip_if_head_at_or_after head
      then (skipped, st)
      else write_ingest patterns f head
          (content_snapshot_id h settings.content_hash f.external_id f.body) before st
