-- ===== src/Externals/DeadLetter.antt =====
-- The hook of worker.py for a dead `refresh` job.
use lode.Prelude.{
  ℕ, Text, true, false, List, Option, none, some, ◌≡◌, ◌⊎◌, inl, inr, refl, sym, subst, Bool-cases,
}
use lode.Hashing.{Hashers}
use lode.Schema.{SnapshotRow, tombstone}
use lode.Versions.{Settings}
use lode.Egress.{Pattern}
use lode.Store.{Store}
use lode.Externals.{head_snapshot, is_beaten, is_head, skipped, Fetched, dedup, ingest_snapshot}
use lode.Externals.Fetch.{dead_letter, refresh_dead_letter_hook}
use lode.Externals.Ends.{upserted, snapshot_id_of}
use lode.Externals.Guard.{
  head_snapshot-upserted, ingest-beaten, ingest-moves, ingest-dedups, Beats, is_beaten-Beats,
  Beats-is_beaten, id_of_dead, IsHeadId, is_head-IsHeadId, IsBuried, IsBuried-move,
}

module _ (h : Hashers) (settings : Settings) (patterns : List Pattern) where
  IsBuried-again :
      (f : Fetched) (i : Text) (st : Store)
      → f.status ≡ tombstone
      → is_head i (head_snapshot f.external_id st) ≡ true
      → IsBuried h settings patterns f.external_id i st
          (dedup f i (upserted h settings patterns f st))
  unfolding dedup
  IsBuried-again f i st dead same = rw dead (record {
    head =
        subst (IsHeadId i) (sym (head_snapshot-upserted h settings patterns f st f.external_id))
          (is_head-IsHeadId i (head_snapshot f.external_id st) same);
    same_db = refl;
    same_jobs = refl;
    same_cache = refl;
  })

  buried :
      (f : Fetched) (i : Text) (st : Store)
      → f.status ≡ tombstone
      → is_beaten f.skip_if_head_at_or_after (head_snapshot f.external_id st) ≡ false
      → snapshot_id_of h settings patterns f ≡ some i
      → IsBuried h settings patterns f.external_id i st (ingest_snapshot h settings patterns f st).1
  buried f i st dead unbeaten hashed =
      elim (Bool-cases (is_head i (head_snapshot f.external_id st))) [
        | inl same ↦
            subst (IsBuried h settings patterns f.external_id i st)
              (sym (ingest-dedups h settings patterns f st i unbeaten hashed same))
              (IsBuried-again f i st dead same)
        | inr other ↦
            subst (IsBuried h settings patterns f.external_id i st)
              (sym (ingest-moves h settings patterns f st i unbeaten hashed other))
              (IsBuried-move h settings patterns f i st dead)
      ]

  pub beaten_head :
      (f : Fetched) (st : Store) (o : Option SnapshotRow)
      → head_snapshot f.external_id st ≡ o
      → Beats f.skip_if_head_at_or_after o
      → ingest_snapshot h settings patterns f st ≡ (skipped, st)
  beaten_head f st none head b = absurd (none_beats f.skip_if_head_at_or_after b)
    where
      none_beats : (c : Option ℕ) → Beats c none → ⊥
      none_beats none b = b
      none_beats (some c) b = b
  beaten_head f st (some s) head b =
      ingest-beaten h settings patterns f st s head
        (is_beaten-Beats f.skip_if_head_at_or_after (some s) b)

  -- The hook changes nothing where the source's head is a successful snapshot that was fetched at the
  -- job's claim or later. Otherwise, where the id of its tombstone can be computed, the head becomes
  -- the snapshot of that id, no job is enqueued, and neither the notes' tables nor the cache change.
  pub refresh_dead_letter_hook_lem :
      (k last_error i : Text) (claimed_at : Option ℕ) (fetched_at : ℕ) (st : Store)
      → id_of_dead h settings.content_hash k last_error ≡ some i
      → (Beats claimed_at (head_snapshot k st)
          × (refresh_dead_letter_hook h settings patterns k last_error claimed_at fetched_at st
              ≡ (skipped, st)))
        ⊎ (¬ Beats claimed_at (head_snapshot k st)
            × IsBuried h settings patterns k i st
                (refresh_dead_letter_hook h settings patterns k last_error claimed_at fetched_at
                  st).1)
  unfolding refresh_dead_letter_hook
  refresh_dead_letter_hook_lem k last_error i claimed_at fetched_at st hashed =
      let f = dead_letter k last_error claimed_at fetched_at st in
      elim (Bool-cases (is_beaten claimed_at (head_snapshot k st))) [
        | inl beat ↦
            let b = Beats-is_beaten claimed_at (head_snapshot k st) beat in
            inl (b, beaten_head f st (head_snapshot k st) refl b)
        | inr unbeaten ↦ inr (
          λ b. cc (unbeaten, is_beaten-Beats claimed_at (head_snapshot k st) b),
          buried f i st refl unbeaten hashed,
        )
      ]
