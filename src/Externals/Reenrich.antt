-- ===== src/Externals/Reenrich.antt =====
-- externals.py: `gate_reenrich`, which decides after the embedding of a snapshot whether its change is
-- material. `vectors_for` of the vector store is an argument, and so is the cosine's distance of two
-- mean vectors, on one scale of numbers with the threshold: the floating-point arithmetic is not
-- modelled.
use lode.Prelude.{
  ℕ, Text, Bool, true, List, [], ◌∷◌, Option, none, some, str_eq, not, ◌&&◌, ltb, leb,
  if◌then◌else◌,
}
use lode.Schema.{SnapshotRow}
use lode.Jobs.{enrich, enqueue_derive_jobs}
use lode.Staleness.{Counts, reanchor_annotations, reanchor_edges}
use lode.Store.{Store}
use lode.Externals.{find_snapshot, is_tombstone}

-- The later of two rows by `fetched_at`; the rows stand newest first, so a tie is won by the first.
abbrev pub latest_of : SnapshotRow → Option SnapshotRow → SnapshotRow
latest_of s none = s
latest_of s (some t) = if ltb s.fetched_at t.fetched_at then t else s

-- `WHERE external_id = ? AND snapshot_id != ? ORDER BY fetched_at DESC, rowid DESC LIMIT 1`
unfoldable pub predecessor_row : Text → Text → List SnapshotRow → Option SnapshotRow
predecessor_row external_id snapshot_id [] = none
predecessor_row external_id snapshot_id (s ∷ ss) =
    let rest = predecessor_row external_id snapshot_id ss in
    if str_eq s.external_id external_id && not (str_eq s.snapshot_id snapshot_id)
    then some (latest_of s rest)
    else rest

abbrev pub Vector : Type 0
Vector = List ℕ

pub record Embeddings : Type 0 where
  pub vectors_for : Text → List Vector
  pub mean_distance : List Vector → List Vector → ℕ
  pub reenrichment_materiality_threshold : ℕ

-- No baseline where either side has no vectors.
abbrev pub delta_of : Embeddings → List Vector → List Vector → Option ℕ
delta_of m [] old = none
delta_of m (v ∷ new) [] = none
delta_of m (v ∷ new) (w ∷ old) = some (m.mean_distance (v ∷ new) (w ∷ old))

abbrev pub is_material : Embeddings → Option ℕ → Bool
is_material m none = true
is_material m (some delta) = leb m.reenrichment_materiality_threshold delta

abbrev pub predecessor_vectors : Embeddings → Option SnapshotRow → List Vector
predecessor_vectors m none = []
predecessor_vectors m (some s) = m.vectors_for s.snapshot_id

pub data Gated : Type 0 where
  material : Gated
  immaterial : (annotations edges : Counts) → Gated

abbrev pub carry_forward : Text → Text → Text → Store → Option Gated × Store
carry_forward external_id snapshot_id body st =
    let (ann_counts, annotations) =
      reanchor_annotations external_id snapshot_id body st.db.annotations in
    let (edge_counts, edges) = reanchor_edges external_id snapshot_id body st.db.edges in
    (
      some (immaterial ann_counts edge_counts),
      record st { db = record (st.db) { annotations = annotations; edges = edges } },
    )

unfoldable pub gate_live : Embeddings → ℕ → SnapshotRow → Store → Option Gated × Store
unfolding predecessor_row enqueue_derive_jobs reanchor_annotations reanchor_edges
gate_live m now s st =
    let predecessor = predecessor_row s.external_id s.snapshot_id st.snapshots in
    let delta = delta_of m (m.vectors_for s.snapshot_id) (predecessor_vectors m predecessor) in
    if is_material m delta
    then (
      some material,
      record st { jobs = enqueue_derive_jobs now s.snapshot_id (enrich ∷ []) st.jobs },
    )
    else carry_forward s.external_id s.snapshot_id s.body st

unfoldable pub gate_reenrich : Embeddings → ℕ → Text → Store → Option Gated × Store
unfolding find_snapshot gate_live
gate_reenrich m now snapshot_id st = elim (find_snapshot snapshot_id st.snapshots) [
  | none ↦ (none, st)
  | some s ↦ if is_tombstone s.status then (none, st) else gate_live m now s st
]
