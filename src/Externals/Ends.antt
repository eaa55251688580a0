-- ===== src/Externals/Ends.antt =====
-- How the calls of `ingest_snapshot` and `gate_reenrich` of externals.py can end.
use lode.Prelude.{
  ℕ, [], ◌∷◌, Text, true, false, List, Option, none, some, ◌≡◌, refl, Bool-cases, Option-cases, inl,
  inr,
}
use lode.Hashing.{Hashers, content_snapshot_id}
use lode.Versions.{Settings}
use lode.Egress.{Pattern}
use lode.Schema.{SnapshotRow, AnnotationRow, EdgeRow}
use lode.Jobs.{enrich, enqueue_derive_jobs}
use lode.Store.{Store}
use lode.Externals.Reenrich.{
  Embeddings, gate_reenrich, gate_live, is_material, delta_of, predecessor_row, predecessor_vectors,
}
use lode.Externals.{
  find_snapshot, is_tombstone, insert_external, head_snapshot, is_beaten, is_head, Ingest,
  value_error, skipped, result_of, Fetched, dedup, move_to_snapshot, write_ingest, ingest_snapshot,
}

module _ (h : Hashers) (settings : Settings) (patterns : List Pattern) where
  -- The store after the statement that takes the write lock.
  abbrev pub upserted : Fetched → Store → Store
  upserted f st = record st {
    externals = (insert_external settings f.external_id f.source_type none st.externals).0;
  }

  abbrev pub snapshot_id_of : Fetched → Option Text
  snapshot_id_of f = content_snapshot_id h settings.content_hash f.external_id f.body

  -- What holds at each of the four ends holds of the call.
  pub ingest-elim :
      (P : Ingest × Store → Type 0) (f : Fetched) (st : Store)
      → (is_beaten f.skip_if_head_at_or_after (head_snapshot f.external_id (upserted f st)) ≡ true
          → P (skipped, upserted f st))
      → (is_beaten f.skip_if_head_at_or_after (head_snapshot f.external_id (upserted f st)) ≡ false
          → snapshot_id_of f ≡ none
          → P (value_error, st))
      → ((i : Text)
          → is_beaten f.skip_if_head_at_or_after (head_snapshot f.external_id (upserted f st))
            ≡ false
          → snapshot_id_of f ≡ some i
          → is_head i (head_snapshot f.external_id (upserted f st)) ≡ true
          → P (result_of f i true, dedup f i (upserted f st)))
      → ((i : Text)
          → is_beaten f.skip_if_head_at_or_after (head_snapshot f.external_id (upserted f st))
            ≡ false
          → snapshot_id_of f ≡ some i
          → is_head i (head_snapshot f.external_id (upserted f st)) ≡ false
          → P (result_of f i false, move_to_snapshot patterns f i (upserted f st)))
      → P (ingest_snapshot h settings patterns f st)
  unfolding ingest_snapshot
  ingest-elim P f st beaten fails same moves =
      elim (Bool-cases
        (is_beaten f.skip_if_head_at_or_after (head_snapshot f.external_id (upserted f st)))) [
          | inl beat ↦ rw (beat, ingest_snapshot) (beaten beat)
          | inr unbeaten ↦ rw (unbeaten, ingest_snapshot) (written unbeaten)
        ]
    where
      written :
          is_beaten f.skip_if_head_at_or_after (head_snapshot f.external_id (upserted f st)) ≡ false
          → P (
              write_ingest patterns f
                (head_snapshot f.external_id (upserted f st))
                (snapshot_id_of f)
                st
                (upserted f st))
      written unbeaten = elim (Option-cases (snapshot_id_of f)) [
        | inl failed ↦ rw failed (fails unbeaten failed)
        | inr (i, hashed) ↦
            elim (Bool-cases (is_head i (head_snapshot f.external_id (upserted f st)))) [
              | inl head ↦ rw (hashed, head) (same i unbeaten hashed head)
              | inr other ↦ rw (hashed, other) (moves i unbeaten hashed other)
            ]
      ]

-- What holds of the store at each of the three ends of `gate_reenrich` holds of its result.
pub gate-elim :
    (P : Store → Type 0) (m : Embeddings) (now : ℕ) (i : Text) (st : Store)
    → P st
    → ((s : SnapshotRow)
        → find_snapshot i st.snapshots ≡ some s
        → P (record st { jobs = enqueue_derive_jobs now s.snapshot_id (enrich ∷ []) st.jobs }))
    → ((annotations : List AnnotationRow) (edges : List EdgeRow)
        → P (record st { db = record (st.db) { annotations = annotations; edges = edges } }))
    → P (gate_reenrich m now i st).1
unfolding gate_reenrich gate_live
gate-elim P m now i st idle enriches carries = elim (Option-cases (find_snapshot i st.snapshots)) [
  | inl absent ↦ rw (absent, gate_reenrich) idle
  | inr (s, found) ↦ elim (Bool-cases (is_tombstone s.status)) [
    | inl gone ↦ rw (found, gate_reenrich, gone) idle
    | inr there ↦ rw (found, gate_reenrich, there) (gated s found)
  ]
]
  where
    delta : SnapshotRow → Option ℕ
    delta s =
        delta_of m (m.vectors_for s.snapshot_id)
          (predecessor_vectors m (predecessor_row s.external_id s.snapshot_id st.snapshots))

    gated : (s : SnapshotRow) → find_snapshot i st.snapshots ≡ some s → P (gate_live m now s st).1
    gated s found = elim (Bool-cases (is_material m (delta s))) [
      | inl big ↦ rw (big, gate_live) (enriches s found)
      | inr small ↦ rw (small, gate_live) (carries _ _)
    ]

-- The branch of the head itself touches one column of one table.
pub externals-dedup :
    (f : Fetched) (i : Text) (st : Store) → (dedup f i st).externals ≡ st.externals
unfolding dedup
externals-dedup f i st = elim (Bool-cases (is_tombstone f.status)) [
  | inl gone ↦ rw gone refl
  | inr there ↦ rw there refl
]
