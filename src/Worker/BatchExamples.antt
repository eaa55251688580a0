-- ===== src/Worker/BatchExamples.antt =====
-- The batch lane of worker.py on small tables, and its theorems at inputs that meet their hypotheses.
use lode.Prelude.{
  ◌+◌, ◌==◌, if◌then◌else◌, true, All, Bool-cases, inl, inr, ◌≤◌, ◌<◌, Text, codes, Bool, false,
  List, [], ◌∷◌, map, none, some, ◌≡◌, refl, any, all, keep, length, str_eq, arith, ◌⊎◌,
}
use lode.Jobs.{
  JobType, embed, enrich, refresh, JobRow, running, pending, done, RetrySettings,
  enqueue_derive_jobs, find_job,
}
use lode.Jobs.Queue.{enqueue-IsNumbered}
use lode.Worker.{Handled, succeeds, reset_retryable, reclaim_stale_running, select}
use lode.Worker.Drain.{Drained}
use lode.Worker.Weight.{weight, pending_weight, IsHandler, enqueue-pending_weight}
use lode.Jobs.Table.{IsNumbered}
use lode.Worker.Batch.{
  Polled, poll_raises, on_handle, Submitted, submit_raises, batch_collect_enrich,
  batch_submit_enrich, record_batch_collect_failure,
}
use lode.Worker.Budget.{RaisedPoll, IsSettling, fail_all, tolerated, fail_all_lem}
use lode.Worker.Passes.{Readings, failure_of, swept, drain, IsStopped, IsServed, drain_lem}

abbrev in_flight : JobRow
in_flight = record {
  id = 1;
  type = enrich;
  target_version = codes "v1";
  prompt_ver = none;
  status = running;
  attempts = 0;
  last_error = none;
  batch_handle = some (codes "b1");
  batch_collect_failures = 0;
  claimed_at = some 1;
  next_attempt_at = 0;
}

abbrev waiting : JobRow
waiting = record in_flight { id = 2; type = embed; status = pending; batch_handle = none }

-- The first poll commits the result of the job 3 before it raises.
abbrev done_three : JobRow → JobRow
done_three j = if j.id == 3 then record j { status = done } else j

abbrev polls : List RaisedPoll
polls =
    record { error = codes "timeout"; settles = done_three }
    ∷ record { error = codes "reset"; settles = λ j. j }
    ∷ []

polls-Settle : All (IsSettling (codes "b1")) polls
polls-Settle = ((λ j on. settled j on), ((λ j on. refl), tt))
  where
    settled : (j : JobRow) → on_handle (codes "b1") (done_three j) ≡ true → done_three j ≡ j
    settled j on = elim (Bool-cases (j.id == 3)) [
      | inl three ↦ absurd (cc (rw three at on))
      | inr other ↦ rw other refl
    ]

abbrev table : List JobRow
table = waiting ∷ in_flight ∷ record in_flight { id = 3 } ∷ []

fail_all_lem_example :
    ((length polls < 2)
      × (fail_all 2 (codes "b1") polls table ≡ map (tolerated (codes "b1") polls) table))
    ⊎ ((2 ≤ length polls)
        × (any (on_handle (codes "b1")) (fail_all 2 (codes "b1") polls table) ≡ false))
unfolding all str_eq
fail_all_lem_example = fail_all_lem (codes "b1") 2 polls table (omega arith) polls-Settle refl

abbrev retry : RetrySettings
retry = record {
  retry_max_attempts = 2;
  retry_backoff_base = 2000000;
  retry_backoff_cap = 60000000;
  stale_running_timeout = 600000000;
}

-- No hook, a provider that is down, and a handler that succeeds.
abbrev hooked : JobType → Bool
hooked t = false

abbrev collect : Text → List JobRow → Polled
collect b js = record { poll = poll_raises (codes "timeout"); jobs = js; outcomes = [] }

abbrev submit : List JobRow → List JobRow → Submitted
submit rows js = record { submit = submit_raises (codes "timeout"); jobs = js }

-- A refresh leaves an embedding, an embedding an enrichment, and an enrichment nothing.
abbrev follow_up : JobType → List JobRow → List JobRow
follow_up refresh js = enqueue_derive_jobs 30 (codes "s1") (embed ∷ []) js
follow_up embed js = enqueue_derive_jobs 31 (codes "s1") (enrich ∷ []) js
follow_up enrich js = js

abbrev handler : JobRow → List JobRow → Handled
handler row js = record { outcome = succeeds none; jobs = follow_up row.type js }

handler-IsHandler : IsHandler handler
handler-IsHandler = record {
  numbered = λ row js u. numbered row.type js u;
  bounded = λ row js. bounded row.type js;
}
  where
    numbered : (t : JobType) (js : List JobRow) → IsNumbered js → IsNumbered (follow_up t js)
    numbered refresh js u = enqueue-IsNumbered 30 (codes "s1") (embed ∷ []) js u
    numbered embed js u = enqueue-IsNumbered 31 (codes "s1") (enrich ∷ []) js u
    numbered enrich js u = u

    bounded :
        (t : JobType) (js : List JobRow)
        → pending_weight (follow_up t js) < pending_weight js + weight t
    bounded refresh js = omega (arith, enqueue-pending_weight 30 (codes "s1") embed js)
    bounded embed js = omega (arith, enqueue-pending_weight 31 (codes "s1") enrich js)
    bounded enrich js = omega arith

abbrev readings : Readings
readings = record {
  due = 10;
  claimed = 11;
  backoff = 12;
  stale = 13;
  reclaimed = λ k. 14;
  reset = 15;
}

abbrev due : JobRow
due = record waiting { type = refresh; target_version = codes "https://a.io/" }

abbrev jobs : List JobRow
jobs = due ∷ in_flight ∷ []

abbrev start : Drained
start =
    swept retry 50 2 (codes "enrich-v2") hooked collect submit handler (λ k. 20) (λ k. 21)
      (embed ∷ enrich ∷ refresh ∷ []) readings jobs

start-IsNumbered : IsNumbered start.jobs
unfolding swept batch_collect_enrich batch_submit_enrich reclaim_stale_running reset_retryable
    select record_batch_collect_failure str_eq keep find_job
start-IsNumbered = (refl, (refl, tt))

few : pending_weight start.jobs < 4
unfolding swept pending_weight batch_collect_enrich batch_submit_enrich reclaim_stale_running
    reset_retryable select record_batch_collect_failure str_eq keep
few = omega arith

drain_lem_example :
    (e : Drained) × (drain retry 50 2
        (codes "enrich-v2")
        hooked
        collect
        submit
        handler
        (λ k. 20)
        (λ k. 21)
        (embed ∷ enrich ∷ refresh ∷ [])
        readings
        4
        jobs
      ≡ some e)
    × (IsStopped retry 50 2
          (codes "enrich-v2")
          hooked
          collect
          submit
          handler
          (λ k. 20)
          (λ k. 21)
          (embed ∷ enrich ∷ refresh ∷ [])
          start
          e
        ⊎ (IsServed retry 50 2
              (codes "enrich-v2")
              hooked
              collect
              submit
              handler
              (λ k. 20)
              (λ k. 21)
              (embed ∷ enrich ∷ refresh ∷ [])
              start
              e
            × (e.result
                ≡ failure_of
                    (batch_collect_enrich collect 2 jobs).result
                    (batch_submit_enrich submit retry 50 10 11 12
                      (batch_collect_enrich collect 2 jobs).jobs).result)))
drain_lem_example =
    drain_lem retry 50 2 (codes "enrich-v2") hooked collect submit handler (λ k. 20) (λ k. 21)
      (embed ∷ enrich ∷ refresh ∷ []) readings 4 jobs handler-IsHandler start-IsNumbered few
