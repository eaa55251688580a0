-- ===== src/Worker/Drain.antt =====
-- The main loop of `drain` in worker.py, after its sweeps: claim a job and run it, until none is
-- ready. `now` and `clock` give the clock's readings of a round, counted down.
use lode.Prelude.{ℕ, zero, suc, ◌+◌, Text, Bool, List, ◌++◌, Option, none, some}
use lode.Jobs.{JobType, JobRow, RetrySettings}
use lode.Worker.{claim_one, Handled, HookCall, RunResult, returned, raised, Ran, run_one}

-- How the loop ended, with the number of jobs that it ran.
pub record Drained : Type 0 where
  pub result : Option Text
  pub processed : ℕ
  pub jobs : List JobRow
  pub hooks : List HookCall
  pub outcomes : List Text

-- The rest of a round, after its job has run. A re-raised permanent error ends the loop; its text is
-- the result.
abbrev pub ran_with : Drained → Ran → Option Text → ℕ → Drained
ran_with d ran result processed = record {
  result = result;
  processed = processed;
  jobs = ran.jobs;
  hooks = d.hooks ++ ran.hooks;
  outcomes = d.outcomes ++ ran.outcomes;
}

abbrev pub after_run : (Drained → Option Drained) → Drained → Ran → RunResult → Option Drained
after_run continue d ran (raised error) = some (ran_with d ran (some error) d.processed)
after_run continue d ran (returned b) = continue (ran_with d ran d.result (d.processed + 1))

-- A round after its claim: without a job the loop breaks.
abbrev pub after_claim :
    (Drained → Option Drained)
    → (ℕ → List JobRow → Ran)
    → Drained
    → Option ℕ × List JobRow
    → Option Drained
after_claim continue run d (none, rows) = some (record d { jobs = rows })
after_claim continue run d (some job_id, rows) =
    let ran = run job_id rows in after_run continue d ran ran.result

module _ (settings : RetrySettings) (enrich_prompt_ver : Text) (hooked : JobType → Bool)
    (handler : JobRow → List JobRow → Handled) (now clock : ℕ → ℕ) (types : List JobType) where
  unfoldable pub run_jobs : ℕ → Drained → Option Drained
  run_jobs zero d = none
  run_jobs (suc rounds) d =
      after_claim (run_jobs rounds)
        (run_one settings enrich_prompt_ver hooked handler (clock rounds)) d
        (claim_one types (now rounds) none d.jobs)
