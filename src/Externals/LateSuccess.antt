-- ===== src/Externals/LateSuccess.antt =====
-- The hook of worker.py for a dead `refresh` job, after a fetch of externals.py that succeeds when the
-- job has been claimed.
use lode.Prelude.{
  ℕ, ◌≤◌, ◌<◌, Text, false, List, Option, none, some, ◌≡◌, ◌≢◌, ◌⊎◌, inl, inr, refl, sym, ap, ◌∙◌,
  subst, str_eq_iff, str_eq_refl, arith,
}
use lode.Hashing.{Hashers}
use lode.Schema.{SnapshotRow, live}
use lode.Versions.{Settings}
use lode.Egress.{Pattern}
use lode.Store.{Store}
use lode.Externals.{
  find_external, head_column, snapshot_at, find_snapshot, head_snapshot, is_head, skipped, Fetched,
  snapshot_row, dedup, ingest_snapshot,
}
use lode.Externals.Fetch.{dead_letter, refresh_dead_letter_hook}
use lode.Externals.Tables.{with_time, or_new, find_snapshot_key}
use lode.Externals.Ends.{upserted, snapshot_id_of}
use lode.Externals.Guard.{
  head_snapshot-upserted, head_snapshot-move, ingest-moves, ingest-dedups, head_snapshot-dedup,
  Beats, id_of_dead, IsHeadId,
}
use mathlib.Core.Option
use lode.Externals.DeadLetter.{beaten_head, refresh_dead_letter_hook_lem}

head_snapshot-find_snapshot :
    (k : Text) (st : Store) (s : SnapshotRow)
    → head_snapshot k st ≡ some s
    → find_snapshot s.snapshot_id st.snapshots ≡ some s
unfolding head_snapshot
head_snapshot-find_snapshot k st s head =
    at_column (head_column (find_external k st.externals)) head
  where
    at_column :
        (o : Option Text)
        → snapshot_at o st.snapshots ≡ some s
        → find_snapshot s.snapshot_id st.snapshots ≡ some s
    at_column none e = absurd (cc e)
    at_column (some j) e =
        subst (λ l. find_snapshot l st.snapshots ≡ some s)
          (sym (find_snapshot_key j st.snapshots s e)) e

-- A snapshot that is not in the table is no head.
is_head-absent :
    (k i : Text) (st : Store) (o : Option SnapshotRow)
    → head_snapshot k st ≡ o
    → find_snapshot i st.snapshots ≡ none
    → is_head i o ≡ false
is_head-absent k i st none head absent = refl
is_head-absent k i st (some s) head absent = ground (arith, str_eq_iff i s.snapshot_id, cc_absent)
  where
    cc_absent : i ≡ s.snapshot_id → ⊥
    cc_absent e =
        cc (
          absent,
          head_snapshot-find_snapshot k st s head,
          ap (λ l. find_snapshot l st.snapshots) e,
        )

-- The head is the snapshot of the id, and was fetched.
abbrev pub IsLiveHead : Text → Option SnapshotRow → Type 0
IsLiveHead i none = ⊥
IsLiveHead i (some s) = (s.snapshot_id ≡ i) × (s.status ≡ live)

module _ (h : Hashers) (settings : Settings) (patterns : List Pattern) where
  head_after :
      (f : Fetched) (i : Text) (st : Store) (o : Option SnapshotRow)
      → f.skip_if_head_at_or_after ≡ none
      → f.status ≡ live
      → snapshot_id_of h settings patterns f ≡ some i
      → head_snapshot f.external_id st ≡ o
      → IsLiveHead i o
      → head_snapshot f.external_id (ingest_snapshot h settings patterns f st).1
        ≡ Option.map (with_time f.fetched_at) o
  head_after f i st none free fetched hashed head l = absurd l
  head_after f i st (some s) free fetched hashed head l =
      ap (head_snapshot f.external_id) (
        ingest-dedups h settings patterns f st i (rw free refl) hashed
          (rw (head, l.0) (str_eq_refl i)))
      ∙ dedup_head s i l.0 head
    where
      dedup_head :
          (s : SnapshotRow) (i : Text)
          → s.snapshot_id ≡ i
          → head_snapshot f.external_id st ≡ some s
          → head_snapshot f.external_id (dedup f i (upserted h settings patterns f st))
            ≡ some (with_time f.fetched_at s)
      dedup_head s i same head =
          subst
            (λ j.
              head_snapshot f.external_id (dedup f j (upserted h settings patterns f st))
              ≡ some (with_time f.fetched_at s))
            same
            (head_snapshot-dedup h settings patterns f (upserted h settings patterns f st) s fetched
              (head_snapshot-upserted h settings patterns f st f.external_id ∙ head))

  new_head :
      (f : Fetched) (i : Text) (st : Store) (o : Option SnapshotRow)
      → f.skip_if_head_at_or_after ≡ none
      → snapshot_id_of h settings patterns f ≡ some i
      → is_head i (head_snapshot f.external_id st) ≡ false
      → find_snapshot i st.snapshots ≡ o
      → head_snapshot f.external_id (ingest_snapshot h settings patterns f st).1
        ≡ some (or_new (snapshot_row f i) o)
  new_head f i st o free hashed other found =
      ap (head_snapshot f.external_id)
        (ingest-moves h settings patterns f st i (rw free refl) hashed other)
      ∙ head_snapshot-move h settings patterns f i st
      ∙ ap (λ q. some (or_new (snapshot_row f i) q)) found

  -- A fetch that succeeds at a job's claim or later, with a body that the mirror has not seen or
  -- with the body of the source's head, wins over the dead letter of that job: the hook that runs
  -- next changes nothing.
  pub late_success_lem :
      (f : Fetched) (i last_error : Text) (claim later : ℕ) (st : Store)
      → f.skip_if_head_at_or_after ≡ none
      → f.status ≡ live
      → snapshot_id_of h settings patterns f ≡ some i
      → claim ≤ f.fetched_at
      → (find_snapshot i st.snapshots ≡ none) ⊎ IsLiveHead i (head_snapshot f.external_id st)
      → refresh_dead_letter_hook h settings patterns f.external_id last_error
          (some claim)
          later
          (ingest_snapshot h settings patterns f st).1
        ≡ (skipped, (ingest_snapshot h settings patterns f st).1)
  unfolding refresh_dead_letter_hook
  late_success_lem f i last_error claim later st free fetched hashed late seen = elim seen [
    | inl absent ↦
        beaten_head h settings patterns
          (dead_letter f.external_id last_error (some claim) later
            (ingest_snapshot h settings patterns f st).1)
          (ingest_snapshot h settings patterns f st).1 (some (snapshot_row f i))
          (new_head f i st none free hashed
            (is_head-absent f.external_id i st (head_snapshot f.external_id st) refl absent) absent)
          (fetched, late)
    | inr there ↦
        beaten_head h settings patterns
          (dead_letter f.external_id last_error (some claim) later
            (ingest_snapshot h settings patterns f st).1)
          (ingest_snapshot h settings patterns f st).1
          (Option.map (with_time f.fetched_at) (head_snapshot f.external_id st))
          (head_after f i st (head_snapshot f.external_id st) free fetched hashed refl there)
          (timed (head_snapshot f.external_id st) there)
  ]
    where
      timed :
          (o : Option SnapshotRow)
          → IsLiveHead i o
          → Beats (some claim) (Option.map (with_time f.fetched_at) o)
      timed none l = absurd l
      timed (some s) l = (l.1, late)

  -- Where the body of a successful fetch is one that the mirror holds from before the job's claim,
  -- but not as the head, its row keeps its old time: the hook of that job does not see the fetch,
  -- however late it was, and where the id of the tombstone is another one, the head is then the
  -- tombstone and not the snapshot that was fetched.
  pub revert_lem :
      (f : Fetched) (old : SnapshotRow) (i j last_error : Text) (claim later : ℕ) (st : Store)
      → f.skip_if_head_at_or_after ≡ none
      → snapshot_id_of h settings patterns f ≡ some i
      → find_snapshot i st.snapshots ≡ some old
      → is_head i (head_snapshot f.external_id st) ≡ false
      → old.fetched_at < claim
      → id_of_dead h settings.content_hash f.external_id last_error ≡ some j
      → j ≢ i
      → IsHeadId j (
          head_snapshot f.external_id
            (refresh_dead_letter_hook h settings patterns f.external_id last_error
              (some claim)
              later
              (ingest_snapshot h settings patterns f st).1).1)
        × (¬ IsHeadId i (
            head_snapshot f.external_id
              (refresh_dead_letter_hook h settings patterns f.external_id last_error
                (some claim)
                later
                (ingest_snapshot h settings patterns f st).1).1))
  revert_lem f old i j last_error claim later st free hashed found other before dead ne =
      elim (refresh_dead_letter_hook_lem h settings patterns f.external_id last_error j (some claim)
        later (ingest_snapshot h settings patterns f st).1 dead) [
          | inl (beats, same) ↦ absurd (
              too_old (
                subst (Beats (some claim)) (new_head f i st (some old) free hashed other found)
                  beats))
          | inr (unbeaten, b) ↦ (b.head, λ there. ne (one_id _ b.head there))
        ]
    where
      too_old : Beats (some claim) (some old) → ⊥
      too_old b = omega arith

      one_id : (o : Option SnapshotRow) → IsHeadId j o → IsHeadId i o → j ≡ i
      one_id none a b = absurd a
      one_id (some s) a b = sym a ∙ b
