-- ===== src/Worker/Passes.antt =====
-- worker.py: a whole pass of `drain`: the two pre-steps of the batch lane, the two sweeps, and the main
-- loop. The first exception of a pre-step is kept, and raised where the loop has come to its end.
use lode.Prelude.{
  ℕ, zero, suc, ◌+◌, ◌<◌, Text, Bool, subst, All, arith, List, Option, none, some, ◌≡◌, refl, sym,
  ◌∙◌, ap, ◌⊎◌, inl, inr,
}
use lode.Jobs.{JobType, JobRow, RetrySettings}
use lode.Worker.{
  reset_retryable, reclaim_stale_running, claim_one, Handled, RunResult, returned, raised, run_one,
}
use lode.Worker.Drain.{Drained, after_run, after_claim, run_jobs, ran_with}
use lode.Worker.Batch.{
  PreStep, counted, step_raises, Polled, batch_collect_enrich, Submitted, batch_submit_enrich,
}
use lode.Jobs.Table.{IsNumbered}
use lode.Worker.Ready.{IsReady}
use lode.Worker.Claiming.{claim_one_lem}
use lode.Worker.Weight.{pending_weight, Claims, claim_one-Claims, IsHandler, Leaves, run_one-Leaves}

-- The readings of the clock before the main loop, in their order.
pub record Readings : Type 0 where
  pub due : ℕ
  pub claimed : ℕ
  pub backoff : ℕ
  pub stale : ℕ
  pub reclaimed : ℕ → ℕ
  pub reset : ℕ

-- `pre_step_failure`
abbrev pub failure_of : PreStep → PreStep → Option Text
failure_of (step_raises error) submitted = some error
failure_of (counted n) (step_raises error) = some error
failure_of (counted n) (counted m) = none

module _ (settings : RetrySettings) (flush_size budget : ℕ) (enrich_prompt_ver : Text)
    (hooked : JobType → Bool) (collect : Text → List JobRow → Polled)
    (submit : List JobRow → List JobRow → Submitted) (handler : JobRow → List JobRow → Handled)
    (now clock : ℕ → ℕ) (types : List JobType) where
  -- The state in which the main loop starts.
  unfoldable pub swept : Readings → List JobRow → Drained
  swept r js =
      let c = batch_collect_enrich collect budget js in
      let s = batch_submit_enrich submit settings flush_size r.due r.claimed r.backoff c.jobs in
      let (reclaimed, hooks, rows) =
        reclaim_stale_running settings hooked r.stale r.reclaimed s.jobs in
      record {
        result = failure_of c.result s.result;
        processed = 0;
        jobs = (reset_retryable r.reset rows).0;
        hooks = hooks;
        outcomes = c.outcomes;
      }

  unfoldable pub drain : Readings → ℕ → List JobRow → Option Drained
  drain r rounds js =
      run_jobs settings enrich_prompt_ver hooked handler now clock types rounds (swept r js)

  -- The states that the main loop goes through, from the state `d0` on: in each round a claim, and a
  -- run of the claimed job that returns.
  pub data Steps (d0 : Drained) : Drained → Type 0 where
    at_start : Steps d0 d0
    one_more :
        (round job_id : ℕ) (rows : List JobRow) (b : Bool) (d : Drained)
        → Steps d0 d
        → claim_one types (now round) none d.jobs ≡ (some job_id, rows)
        → (run_one settings enrich_prompt_ver hooked handler (clock round) job_id rows).result
          ≡ returned b
        → Steps d0 (
            ran_with d
              (run_one settings enrich_prompt_ver hooked handler (clock round) job_id rows)
              d.result
              (d.processed + 1))

  -- After such steps a job is claimed that ends in a permanent error, which is the loop's.
  pub record IsStopped (d0 e : Drained) : Type 0 where
    pub last : Drained
    pub reached : Steps d0 last
    pub round : ℕ
    pub job_id : ℕ
    pub rows : List JobRow
    pub error : Text
    pub claimed : claim_one types (now round) none last.jobs ≡ (some job_id, rows)
    pub stops :
        (run_one settings enrich_prompt_ver hooked handler (clock round) job_id rows).result
        ≡ raised error
    pub ended :
        e
        ≡ ran_with last
            (run_one settings enrich_prompt_ver hooked handler (clock round) job_id rows)
            (some error)
            last.processed

  -- After such steps no job is ready at the reading of the last round, and the exception is the one
  -- that was kept at the start.
  pub record IsServed (d0 e : Drained) : Type 0 where
    pub reached : Steps d0 e
    pub round : ℕ
    pub idle : All (λ j. ¬ IsReady types (now round) none j) e.jobs
    pub result : e.result ≡ d0.result

  Steps-result : (d0 d : Drained) → Steps d0 d → d.result ≡ d0.result
  Steps-result d0 _ at_start = refl
  Steps-result d0 _ (one_more round job_id rows b d steps claim done) = Steps-result d0 d steps

  abbrev Ends : Drained → Option Drained → Type 0
  Ends d0 o = (e : Drained) × (o ≡ some e) × (IsStopped d0 e ⊎ IsServed d0 e)

  idle-IsServed :
      (d0 d : Drained) (round : ℕ) (rows : List JobRow)
      → Steps d0 d
      → IsNumbered d.jobs
      → claim_one types (now round) none d.jobs ≡ (none, rows)
      → IsServed d0 (record d { jobs = rows })
  idle-IsServed d0 d round rows steps u claim =
      elim (claim_one_lem types (now round) none d.jobs u) [
        | inl (j, t) ↦ absurd (cc (ap (λ c. c.0) claim, t.claimed))
        | inr (idle, same) ↦
            subst (λ rs. IsServed d0 (record d { jobs = rs })) (ap (λ c. c.1) (sym same ∙ claim))
              (record {
                reached = steps;
                round = round;
                idle = idle;
                result = Steps-result d0 d steps;
              })
      ]

  run_jobs-Ends :
      (d0 : Drained)
      → IsHandler handler
      → (rounds : ℕ) (d : Drained) → Steps d0 d
      → IsNumbered d.jobs
      → pending_weight d.jobs < rounds
      → Ends d0 (run_jobs settings enrich_prompt_ver hooked handler now clock types rounds d)
  unfolding run_jobs
  run_jobs-Ends d0 good zero d steps u few = absurd (omega arith)
  run_jobs-Ends d0 good (suc rounds) d steps u few =
      claimed (λ d' s' u' few'. run_jobs-Ends d0 good rounds d' s' u' few')
        (claim_one types (now rounds) none d.jobs).0 (claim_one types (now rounds) none d.jobs).1
        refl (claim_one-Claims types (now rounds) d.jobs u)
    where
      Goes : Type 0
      Goes =
          (d' : Drained)
          → Steps d0 d'
          → IsNumbered d'.jobs
          → pending_weight d'.jobs < rounds
          → Ends d0 (run_jobs settings enrich_prompt_ver hooked handler now clock types rounds d')

      ran_to :
          Goes
          → (job_id : ℕ) (rows : List JobRow) (r : RunResult)
          → claim_one types (now rounds) none d.jobs ≡ (some job_id, rows)
          → (run_one settings enrich_prompt_ver hooked handler (clock rounds) job_id rows).result
            ≡ r
          → Leaves rounds
              (run_one settings enrich_prompt_ver hooked handler (clock rounds) job_id rows).jobs
              r
          → Ends d0 (
              after_run
                (run_jobs settings enrich_prompt_ver hooked handler now clock types rounds)
                d
                (run_one settings enrich_prompt_ver hooked handler (clock rounds) job_id rows)
                r)
      ran_to go job_id rows (raised error) claim stops leaves = (
        _,
        refl,
        inl (record {
          last = d;
          reached = steps;
          round = rounds;
          job_id = job_id;
          rows = rows;
          error = error;
          claimed = claim;
          stops = stops;
          ended = refl;
        }),
      )
      ran_to go job_id rows (returned b) claim done leaves =
          go _ (one_more rounds job_id rows b d steps claim done) leaves.1 leaves.0

      claimed :
          Goes
          → (o : Option ℕ) (rows : List JobRow)
          → claim_one types (now rounds) none d.jobs ≡ (o, rows)
          → Claims d.jobs rows o
          → Ends d0 (
              after_claim
                (run_jobs settings enrich_prompt_ver hooked handler now clock types rounds)
                (run_one settings enrich_prompt_ver hooked handler (clock rounds))
                d
                (o, rows))
      claimed go none rows claim c = (_, refl, inr (idle-IsServed d0 d rounds rows steps u claim))
      claimed go (some job_id) rows claim c = ran_to go job_id rows _ claim refl (
          run_one-Leaves settings enrich_prompt_ver hooked handler (clock rounds) rounds job_id
            d.jobs rows good c (omega (arith, few)))

  -- Whatever the polls and the submission of batches end in, a pass ends, within one round more than
  -- the weight of the jobs that are pending after its sweeps, where these leave job ids unique. The
  -- weight of a refresh is 3, of an embedding 2 and of an enrichment 1, and a handler may leave
  -- pending jobs of less weight than it finds with its own: a refresh may enqueue an embedding, and an
  -- embedding an enrichment; it keeps job ids unique. Where the pass is not ended by a job that it
  -- claimed and that ended in a permanent error, it goes on until no job of its types is pending and
  -- due, and then raises the first exception of the pre-steps, or none.
  pub drain_lem :
      (r : Readings) (rounds : ℕ) (js : List JobRow)
      → IsHandler handler
      → IsNumbered (swept r js).jobs
      → pending_weight (swept r js).jobs < rounds
      → (e : Drained) × (drain r rounds js ≡ some e)
        × (IsStopped (swept r js) e
            ⊎ (IsServed (swept r js) e
                × (e.result
                    ≡ failure_of
                        (batch_collect_enrich collect budget js).result
                        (batch_submit_enrich submit settings flush_size r.due r.claimed r.backoff
                          (batch_collect_enrich collect budget js).jobs).result)))
  unfolding drain swept
  drain_lem r rounds js good u few =
      let ends = run_jobs-Ends (swept r js) good rounds (swept r js) at_start u few in
      (
        ends.0,
        ends.1,
        elim ends.2 [ inl stopped ↦ inl stopped | inr served ↦ inr (served, served.result) ],
      )
