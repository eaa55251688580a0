-- ===== src/Externals/Guard.antt =====
-- The guard of a late success in externals.py, and its calls by the hook of worker.py.
use lode.Prelude.{
  ℕ, ◌≤◌, Text, codes, Bool, true, false, List, ◌++◌, Option, none, some, ◌≡◌, inl, inr, refl, sym,
  ap, ◌∙◌, subst, str_eq_iff, str_eq_refl, arith, Option-cases,
}
use lode.Hashing.{Hashers, content_snapshot_id}
use lode.Schema.{ExternalRow, SnapshotRow, live, tombstone}
use lode.Versions.{Settings}
use lode.Egress.{Pattern}
use lode.Store.{Store}
use lode.Externals.{
  find_external, find_snapshot, snapshot_at, head_snapshot, tombstone_body, is_beaten, is_head,
  skipped, Fetched, snapshot_row, dedup, move_to_snapshot, ingest_snapshot, set_fetched_at,
}
use lode.Externals.Tables.{
  find_external-move_head, find_snapshot-insert_snapshot_here, find_snapshot-set_fetched_at,
  find_snapshot_key, with_time, or_new, insert_external-present, find_external-insert_external_here,
}
use lode.Externals.Ends.{upserted, ingest-elim, snapshot_id_of}
use lode.Externals.Keeps.{head_column-insert_external}

-- The head's snapshot is there to see only where the source is.
head_snapshot-absent :
    (k : Text) (st : Store) → find_external k st.externals ≡ none → head_snapshot k st ≡ none
unfolding head_snapshot
head_snapshot-absent k st absent = rw absent refl

module _ (h : Hashers) (settings : Settings) (patterns : List Pattern) where
  pub upserted-present :
      (f : Fetched) (st : Store) (s : SnapshotRow)
      → head_snapshot f.external_id st ≡ some s
      → upserted h settings patterns f st ≡ st
  upserted-present f st s head = elim (Option-cases (find_external f.external_id st.externals)) [
    | inl absent ↦ absurd (cc (head, head_snapshot-absent f.external_id st absent))
    | inr (e, found) ↦
        ap (λ (r : List ExternalRow × Bool). record st { externals = r.0 })
          (insert_external-present settings f.external_id f.source_type none st.externals e found)
  ]

  pub head_snapshot-upserted :
      (f : Fetched) (st : Store) (j : Text)
      → head_snapshot j (upserted h settings patterns f st) ≡ head_snapshot j st
  unfolding head_snapshot
  head_snapshot-upserted f st j =
      ap (λ o. snapshot_at o st.snapshots)
        (head_column-insert_external j settings f.external_id f.source_type none st.externals)

  -- The head after a call that moves it.
  pub head_snapshot-move :
      (f : Fetched) (i : Text) (st : Store)
      → head_snapshot f.external_id
          (move_to_snapshot patterns f i (upserted h settings patterns f st))
        ≡ some (or_new (snapshot_row f i) (find_snapshot i st.snapshots))
  unfolding head_snapshot move_to_snapshot
  head_snapshot-move f i st =
      rw
        (
          find_external-move_head f.external_id i f.external_id
              (upserted h settings patterns f st).externals,
          str_eq_refl f.external_id,
          find_external-insert_external_here settings f.external_id f.source_type none st.externals,
        )
        (find_snapshot-insert_snapshot_here (snapshot_row f i) st.snapshots)

  -- A call whose guard holds changes nothing.
  pub ingest-beaten :
      (f : Fetched) (st : Store) (s : SnapshotRow)
      → head_snapshot f.external_id st ≡ some s
      → is_beaten f.skip_if_head_at_or_after (some s) ≡ true
      → ingest_snapshot h settings patterns f st ≡ (skipped, st)
  ingest-beaten f st s head beat =
      ingest-elim h settings patterns (λ r. r ≡ (skipped, st)) f st
        (λ b. ap (λ x. (skipped, x)) (upserted-present f st s head))
        (λ unbeaten failed. absurd (cc (unbeaten, beat, same_head)))
        (λ i unbeaten hashed same. absurd (cc (unbeaten, beat, same_head)))
        (λ i unbeaten hashed other. absurd (cc (unbeaten, beat, same_head)))
    where
      same_head :
          is_beaten f.skip_if_head_at_or_after
            (head_snapshot f.external_id (upserted h settings patterns f st))
          ≡ is_beaten f.skip_if_head_at_or_after (some s)
      same_head =
          ap (is_beaten f.skip_if_head_at_or_after)
            (head_snapshot-upserted f st f.external_id ∙ head)

  pub ingest-moves :
      (f : Fetched) (st : Store) (i : Text)
      → is_beaten f.skip_if_head_at_or_after (head_snapshot f.external_id st) ≡ false
      → snapshot_id_of h settings patterns f ≡ some i
      → is_head i (head_snapshot f.external_id st) ≡ false
      → (ingest_snapshot h settings patterns f st).1
        ≡ move_to_snapshot patterns f i (upserted h settings patterns f st)
  ingest-moves f st i unbeaten hashed other =
      ingest-elim h settings patterns
        (λ r. r.1 ≡ move_to_snapshot patterns f i (upserted h settings patterns f st)) f st
        (λ beat. absurd (cc (beat, unbeaten, head_snapshot-upserted f st f.external_id)))
        (λ u failed. absurd (cc (failed, hashed)))
        (λ j u hashed' same.
          absurd (cc (same, other, hashed, hashed', head_snapshot-upserted f st f.external_id)))
        (λ j u hashed' other'. cc (hashed, hashed'))

  pub ingest-dedups :
      (f : Fetched) (st : Store) (i : Text)
      → is_beaten f.skip_if_head_at_or_after (head_snapshot f.external_id st) ≡ false
      → snapshot_id_of h settings patterns f ≡ some i
      → is_head i (head_snapshot f.external_id st) ≡ true
      → (ingest_snapshot h settings patterns f st).1 ≡ dedup f i (upserted h settings patterns f st)
  ingest-dedups f st i unbeaten hashed same =
      ingest-elim h settings patterns (λ r. r.1 ≡ dedup f i (upserted h settings patterns f st)) f
        st (λ beat. absurd (cc (beat, unbeaten, head_snapshot-upserted f st f.external_id)))
        (λ u failed. absurd (cc (failed, hashed))) (λ j u hashed' same'. cc (hashed, hashed'))
        (λ j u hashed' other.
          absurd (cc (same, other, hashed, hashed', head_snapshot-upserted f st f.external_id)))

  pub head_snapshot-dedup :
      (f : Fetched) (st : Store) (s : SnapshotRow)
      → f.status ≡ live
      → head_snapshot f.external_id st ≡ some s
      → head_snapshot f.external_id (dedup f s.snapshot_id st) ≡ some (with_time f.fetched_at s)
  unfolding head_snapshot dedup
  head_snapshot-dedup f st s fetched head = rw fetched (at_head _ head)
    where
      at_head :
          (o : Option Text)
          → snapshot_at o st.snapshots ≡ some s
          → snapshot_at o (set_fetched_at f.fetched_at s.snapshot_id st.snapshots)
            ≡ some (with_time f.fetched_at s)
      at_head none e = absurd (cc e)
      at_head (some j) e =
          rw (find_snapshot-set_fetched_at j f.fetched_at s.snapshot_id st.snapshots, e)
            (rw ((str_eq_iff s.snapshot_id j).1 (find_snapshot_key j st.snapshots s e)) refl)

-- The head is a snapshot that was fetched no earlier than the claim.
abbrev pub Beats : Option ℕ → Option SnapshotRow → Type 0
Beats none head = ⊥
Beats (some claim) none = ⊥
Beats (some claim) (some s) = (s.status ≡ live) × (claim ≤ s.fetched_at)

pub is_beaten-Beats :
    (claim : Option ℕ) (head : Option SnapshotRow) → Beats claim head → is_beaten claim head ≡ true
is_beaten-Beats none head b = absurd b
is_beaten-Beats (some claim) none b = absurd b
is_beaten-Beats (some claim) (some s) b = rw b.0 (ground (arith, b.1))

pub Beats-is_beaten :
    (claim : Option ℕ) (head : Option SnapshotRow) → is_beaten claim head ≡ true → Beats claim head
Beats-is_beaten none head b = absurd (cc b)
Beats-is_beaten (some claim) none b = absurd (cc b)
Beats-is_beaten (some claim) (some s) b = ground arith

abbrev pub id_of_dead : Hashers → Text → Text → Text → Option Text
id_of_dead h c k last_error =
    content_snapshot_id h c k (tombstone_body (codes "dead: " ++ last_error))

abbrev pub IsHeadId : Text → Option SnapshotRow → Type 0
IsHeadId i none = ⊥
IsHeadId i (some s) = s.snapshot_id ≡ i

pub is_head-IsHeadId : (i : Text) (o : Option SnapshotRow) → is_head i o ≡ true → IsHeadId i o
is_head-IsHeadId i none b = absurd (cc b)
is_head-IsHeadId i (some s) b = sym ((str_eq_iff i s.snapshot_id).0 b)

module _ (h : Hashers) (settings : Settings) (patterns : List Pattern) where
  -- What a tombstone leaves alone, and where it leaves the head.
  pub record IsBuried (k i : Text) (st st' : Store) : Type 0 where
    pub head : IsHeadId i (head_snapshot k st')
    pub same_db : st'.db ≡ st.db
    pub same_jobs : st'.jobs ≡ st.jobs
    pub same_cache : st'.cache ≡ st.cache

  -- The head after a call that moves it has the new id.
  pub IsHeadId-move :
      (f : Fetched) (i : Text) (st : Store)
      → IsHeadId i (
          head_snapshot f.external_id
            (move_to_snapshot patterns f i (upserted h settings patterns f st)))
  IsHeadId-move f i st =
      subst (IsHeadId i) (sym (head_snapshot-move h settings patterns f i st))
        (named (find_snapshot i st.snapshots) refl)
    where
      named :
          (o : Option SnapshotRow)
          → find_snapshot i st.snapshots ≡ o
          → (or_new (snapshot_row f i) o).snapshot_id ≡ i
      named none e = refl
      named (some s) e = find_snapshot_key i st.snapshots s e

  pub IsBuried-move :
      (f : Fetched) (i : Text) (st : Store)
      → f.status ≡ tombstone
      → IsBuried f.external_id i st
          (move_to_snapshot patterns f i (upserted h settings patterns f st))
  IsBuried-move f i st dead = record {
    head = IsHeadId-move f i st;
    same_db = unfold move_to_snapshot in refl;
    same_jobs = unfold move_to_snapshot in rw dead refl;
    same_cache = unfold move_to_snapshot in rw dead refl;
  }
