-- ===== src/Externals/Requests.antt =====
-- Runs of the calls of externals.py on the mirror, in the order in which their transactions commit.
use lode.Prelude.{ℕ, Text, Bool, List, [], ◌∷◌, Option, none, some, ◌≡◌, Bool-cases, inl, inr}
use lode.Hashing.{Hashers}
use lode.Schema.{SnapshotRow}
use lode.Jobs.{enrich, embed, enqueue_derive_jobs}
use lode.Jobs.Grow.{is_job_for, enqueue-grows}
use lode.Versions.{Settings}
use lode.Egress.{Pattern}
use lode.Store.{Store}
use lode.Externals.{
  find_snapshot, is_tombstone, Fetched, dedup, move_to_snapshot, ingest_snapshot, snapshot_row,
}
use lode.Externals.Fetch.{refresh_dead_letter_hook, dead_letter, set_no_egress}
use lode.Externals.Reenrich.{Embeddings, gate_reenrich}
use lode.Externals.Ends.{upserted, ingest-elim, gate-elim}
use lode.Externals.Mirror.{
  IsMirror, Grows, Grows-refl, IsKept, IsKept-trans, set_fetched_at-Grows, insert_snapshot-Grows,
}
use lode.Externals.Keeps.{
  insert_external-IsMirror, flag_external-IsMirror, dedup-IsMirror, jobs-IsMirror,
}
use lode.Externals.Moved.{move_to_snapshot-IsMirror}

pub data Request : Type 0 where
  ingests : Fetched → Request
  dies : (external_id last_error : Text) (claimed_at : Option ℕ) (fetched_at : ℕ) → Request
  flags : (external_id : Text) (no_egress : Bool) → Request
  gates : Embeddings → (now : ℕ) → (snapshot_id : Text) → Request

module _ (h : Hashers) (settings : Settings) (patterns : List Pattern) where
  unfoldable pub step : Store → Request → Store
  unfolding ingest_snapshot refresh_dead_letter_hook set_no_egress gate_reenrich
  step st (ingests f) = (ingest_snapshot h settings patterns f st).1
  step st (dies k error claim t) =
      (refresh_dead_letter_hook h settings patterns k error claim t st).1
  step st (flags k b) = (set_no_egress k b st).1
  step st (gates m now i) = (gate_reenrich m now i st).1

  unfoldable pub run : Store → List Request → Store
  run st [] = st
  run st (r ∷ rs) = run (step st r) rs

  pub ingest-IsMirror :
      (f : Fetched) (st : Store)
      → IsMirror h settings.content_hash st
      → IsMirror h settings.content_hash (ingest_snapshot h settings patterns f st).1
  ingest-IsMirror f st m =
      ingest-elim h settings patterns (λ r. IsMirror h settings.content_hash r.1) f st (λ beat. up)
        (λ unbeaten failed. m)
        (λ i unbeaten hashed same. dedup-IsMirror h settings.content_hash f i _ up)
        (λ i unbeaten hashed other.
          move_to_snapshot-IsMirror h settings.content_hash patterns f i _ hashed up)
    where
      up : IsMirror h settings.content_hash (upserted h settings patterns f st)
      up =
          insert_external-IsMirror h settings.content_hash settings f.external_id f.source_type none
            st m

  step-IsMirror :
      (st : Store) (r : Request)
      → IsMirror h settings.content_hash st
      → IsMirror h settings.content_hash (step st r)
  unfolding step set_no_egress refresh_dead_letter_hook
  step-IsMirror st (ingests f) m = ingest-IsMirror f st m
  step-IsMirror st (dies k error claim t) m = ingest-IsMirror (dead_letter k error claim t st) st m
  step-IsMirror st (flags k b) m = flag_external-IsMirror h settings.content_hash k b st m
  step-IsMirror st (gates e now i) m =
      gate-elim (IsMirror h settings.content_hash) e now i st m
        (λ s found.
          jobs-IsMirror h settings.content_hash st
            (enqueue_derive_jobs now s.snapshot_id (enrich ∷ []) st.jobs)
            (λ j there.
              enqueue-grows (is_job_for embed j) now s.snapshot_id (enrich ∷ []) st.jobs there)
            m)
        (λ annotations edges. record {
          headed = m.headed;
          addressed = m.addressed;
          embedded = m.embedded;
        })

  -- Through any sequence of ingests, dead letters, flags and gates, whatever raises: the head of
  -- each source is a snapshot of that source, unless two sources have one snapshot id; the id of
  -- each snapshot is the content address of its row; and each snapshot that was fetched has a job
  -- of embedding.
  pub run-IsMirror :
      (st : Store) (rs : List Request)
      → IsMirror h settings.content_hash st
      → IsMirror h settings.content_hash (run st rs)
  unfolding run
  run-IsMirror st [] m = m
  run-IsMirror st (r ∷ rs) m = run-IsMirror (step st r) rs (step-IsMirror st r m)

  ingest-Grows :
      (f : Fetched) (st : Store)
      → Grows st.snapshots (ingest_snapshot h settings patterns f st).1.snapshots
  unfolding dedup
  ingest-Grows f st =
      ingest-elim h settings patterns (λ r. Grows st.snapshots r.1.snapshots) f st
        (λ beat. Grows-refl st.snapshots) (λ unbeaten failed. Grows-refl st.snapshots)
        (λ i unbeaten hashed same. again i)
        (λ i unbeaten hashed other.
          unfold move_to_snapshot in insert_snapshot-Grows (snapshot_row f i) st.snapshots)
    where
      again :
          (i : Text) → Grows st.snapshots (dedup f i (upserted h settings patterns f st)).snapshots
      again i = elim (Bool-cases (is_tombstone f.status)) [
        | inl gone ↦ rw gone (Grows-refl st.snapshots)
        | inr there ↦ rw there (set_fetched_at-Grows f.fetched_at i st.snapshots)
      ]

  step-Grows : (st : Store) (r : Request) → Grows st.snapshots (step st r).snapshots
  unfolding step set_no_egress refresh_dead_letter_hook
  step-Grows st (ingests f) = ingest-Grows f st
  step-Grows st (dies k error claim t) = ingest-Grows (dead_letter k error claim t st) st
  step-Grows st (flags k b) = Grows-refl st.snapshots
  step-Grows st (gates e now i) =
      gate-elim (λ r. Grows st.snapshots r.snapshots) e now i st (Grows-refl st.snapshots)
        (λ s found. Grows-refl st.snapshots) (λ annotations edges. Grows-refl st.snapshots)

  -- A snapshot stays in the table through any sequence of requests, with its source, its body, its
  -- raw payload and its status.
  pub run-Grows :
      (st : Store) (rs : List Request) (i : Text) (s : SnapshotRow)
      → find_snapshot i st.snapshots ≡ some s
      → IsKept s (find_snapshot i (run st rs).snapshots)
  unfolding run
  run-Grows st [] i s found = Grows-refl st.snapshots i s found
  run-Grows st (r ∷ rs) i s found =
      IsKept-trans s (find_snapshot i (step st r).snapshots)
        (find_snapshot i (run (step st r) rs).snapshots) (step-Grows st r i s found)
        (run-Grows (step st r) rs i)
