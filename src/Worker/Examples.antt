-- ===== src/Worker/Examples.antt =====
-- Runs of the job queue, and its theorems at inputs that meet their hypotheses.
use lode.Prelude.{
  inr, ℕ, Text, codes, Bool, true, false, List, [], ◌∷◌, none, some, ◌≡◌, ◌≢◌, ◌≤◌, ◌<◌, ◌⊎◌, refl,
  str_eq, All, any, arith,
}
use lode.Jobs.{
  JobType, embed, enrich, JobRow, RetrySettings, running, find_job, enqueue_derive_jobs, insert_job,
  holds_key, next_id, update_where, to_dead, to_failed, backoff_next_attempt_at, iso,
}
use lode.Jobs.Table.{IsNumbered}
use lode.Jobs.Queue.{IsQueue, HasLive, enqueue_idem}
use lode.Worker.{
  returned, raised, raises, auth_error, finish, claim_one, first_of_order, select, is_ready,
}
use lode.Worker.Queue.{
  Event, enqueues, resets, reclaims, claims, finishes, batch_claims, collect_raises, after,
  after_all, after_all-IsQueue,
}
use lode.Jobs.Backoff.{backoff_lem}
use lode.Worker.Ready.{IsReady}
use lode.Worker.Claiming.{Takes, claim_one_lem}
use lode.Worker.Claims.{Lost, late_failure_inert, held_failure, failing, hook_of}

abbrev retry : RetrySettings
retry = record {
  retry_max_attempts = 2;
  retry_backoff_base = 2000000;
  retry_backoff_cap = 60000000;
  stale_running_timeout = 600000000;
}

abbrev hooked : JobType → Bool
hooked enrich = true
hooked _ = false

abbrev version : Text
version = codes "v1"

abbrev prompt : Text
prompt = codes "enrich-v2"

abbrev claimed : JobRow
claimed = record {
  id = 2;
  type = enrich;
  target_version = version;
  prompt_ver = none;
  status = running;
  attempts = 1;
  last_error = none;
  batch_handle = none;
  batch_collect_failures = 0;
  claimed_at = some 40;
  next_attempt_at = 10;
}

abbrev claimed_again : JobRow
claimed_again = record claimed { claimed_at = some 900 }

enqueue_idem_example :
    All
      (HasLive version (enqueue_derive_jobs 5000 version (embed ∷ enrich ∷ []) []))
      (embed ∷ enrich ∷ [])
    × (enqueue_derive_jobs 9000 version
          (embed ∷ enrich ∷ [])
          (enqueue_derive_jobs 5000 version (embed ∷ enrich ∷ []) [])
        ≡ enqueue_derive_jobs 5000 version (embed ∷ enrich ∷ []) [])
enqueue_idem_example = enqueue_idem 5000 9000 version (embed ∷ enrich ∷ []) []

abbrev events : List Event
events =
    enqueues 5000 version (embed ∷ enrich ∷ [])
    ∷ claims (embed ∷ enrich ∷ []) 6000 none
    ∷ finishes 7000 claimed (raises (codes "boom"))
    ∷ reclaims 900000000 (λ k. 900000000)
    ∷ resets 950000000
    ∷ batch_claims 960000000 (claimed ∷ [])
    ∷ collect_raises 5 (codes "b1") (codes "timeout")
    ∷ []

empty-IsQueue : IsQueue 2 []
empty-IsQueue = record { numbered = tt; live_keyed = tt; charged = tt }

after_all-IsQueue_example : IsQueue 2 (after_all retry prompt hooked [] events)
after_all-IsQueue_example =
    after_all-IsQueue retry prompt hooked [] events (omega arith) empty-IsQueue

claimed_again-IsNumbered : IsNumbered (claimed_again ∷ [])
unfolding find_job
claimed_again-IsNumbered = (refl, tt)

lost : Lost claimed (claimed_again ∷ [])
lost = (inr (inr (λ e. absurd (cc e))), tt)

late_failure_inert_example :
    (finish retry prompt hooked 999000 claimed (raises (codes "boom")) (claimed_again ∷ [])
      ≡ record { result = returned false; jobs = claimed_again ∷ []; hooks = []; outcomes = [] })
    × (finish retry prompt hooked 999000 claimed (auth_error (codes "boom")) (claimed_again ∷ [])
        ≡ record {
          result = raised (codes "boom");
          jobs = claimed_again ∷ [];
          hooks = [];
          outcomes = [];
        })
late_failure_inert_example =
    late_failure_inert retry prompt hooked 999000 claimed (codes "boom") (claimed_again ∷ [])
      claimed_again-IsNumbered lost

claimed-IsNumbered : IsNumbered (claimed ∷ [])
unfolding find_job
claimed-IsNumbered = (refl, tt)

held_failure_example :
    (((2 ≤ 2)
        × (find_job 2
              (failing retry prompt hooked 999000 claimed (codes "boom") (claimed ∷ [])).jobs
            ≡ some (to_dead 2 (codes "boom") claimed))
        × ((failing retry prompt hooked 999000 claimed (codes "boom") (claimed ∷ [])).hooks
            ≡ hook_of hooked claimed (codes "boom")))
      ⊎ ((2 < 2)
          × (find_job 2
                (failing retry prompt hooked 999000 claimed (codes "boom") (claimed ∷ [])).jobs
              ≡ some (to_failed 2 (codes "boom") (backoff_next_attempt_at retry 999000 2) claimed))
          × ((failing retry prompt hooked 999000 claimed (codes "boom") (claimed ∷ [])).hooks
              ≡ [])))
    × ((i : ℕ)
        → i ≢ 2
        → find_job i (failing retry prompt hooked 999000 claimed (codes "boom") (claimed ∷ [])).jobs
          ≡ find_job i (claimed ∷ []))
held_failure_example =
    held_failure retry prompt hooked 999000 claimed claimed (codes "boom") (claimed ∷ [])
      claimed-IsNumbered (unfold find_job in refl) refl refl

backoff_lem_example :
    (iso 2005000 ≤ backoff_next_attempt_at retry 5000 1)
    × (backoff_next_attempt_at retry 5000 1 ≤ iso 60005000)
    × (backoff_next_attempt_at retry 5000 1 ≤ backoff_next_attempt_at retry 8000 4)
    × ((2000000 < 1000) ⊎ (iso 5000 < backoff_next_attempt_at retry 5000 1))
backoff_lem_example = backoff_lem retry 5000 8000 0 3 (omega arith) (omega arith)

-- An enrichment and an embedding that both wait.
abbrev waiting : List JobRow
waiting = enqueue_derive_jobs 5000 version (enrich ∷ embed ∷ []) []

waiting-IsQueue : IsQueue 2 waiting
unfolding enqueue_derive_jobs after_all any after
waiting-IsQueue =
    after_all-IsQueue retry prompt hooked [] (enqueues 5000 version (enrich ∷ embed ∷ []) ∷ [])
      (omega arith) empty-IsQueue

claim_one_lem_example :
    ((j : JobRow) × Takes (embed ∷ enrich ∷ []) 6000 none waiting j)
    ⊎ (All (λ w. ¬ IsReady (embed ∷ enrich ∷ []) 6000 none w) waiting
        × (claim_one (embed ∷ enrich ∷ []) 6000 none waiting ≡ (none, waiting)))
claim_one_lem_example =
    claim_one_lem (embed ∷ enrich ∷ []) 6000 none waiting waiting-IsQueue.numbered

-- The embedding is the second row, and is claimed first.
waiting_claim : (claim_one (embed ∷ enrich ∷ []) 6000 none waiting).0 ≡ some 2
unfolding claim_one select is_ready first_of_order update_where enqueue_derive_jobs insert_job
    holds_key next_id any str_eq
waiting_claim = refl

abbrev given_up : JobRow
given_up = to_dead 2 (codes "boom") claimed
