-- ===== src/Worker.antt =====
-- worker.py: the transitions of the job queue. A handler runs between two statements on the table,
-- and other processes may write in the meantime, so it returns its outcome with the table that it
-- leaves. A dead-letter hook is recorded as a call; its own effect is not modelled.
pub mod Single
pub mod Lane
pub mod Queue
pub mod Claims
pub mod Ready
pub mod Claiming
pub mod Dead
pub mod Drain
pub mod Weight
pub mod Batch
pub mod Budget
pub mod Passes
pub mod BatchExamples
pub mod Examples
use Prim.Native.Nat.{min}
use lode.Prelude.{
  ℕ, zero, suc, ◌+◌, ◌-◌, Text, codes, Bool, true, false, List, [], ◌∷◌, ◌++◌, Option, none, some,
  str_eq, not, ◌&&◌, ◌||◌, ◌==◌, leb, ltb, if◌then◌else◌, any,
}
use lode.Jobs.{
  JobType, embed, enrich, refresh, Status, pending, running, done, failed, dead, JobRow,
  RetrySettings, type_eq, is_running, iso, next_failure_state, FailureState, failure_clause,
  update_where, has_id, find_job, cas_update_running, Failure, record_job_failure,
}

abbrev pub is_failed : Status → Bool
is_failed failed = true
is_failed _ = false

abbrev pub is_pending : Status → Bool
is_pending pending = true
is_pending _ = false

abbrev pub to_pending : JobRow → JobRow
to_pending j = record j { status = pending }

unfoldable pub is_retryable : ℕ → JobRow → Bool
is_retryable now j = is_failed j.status && leb j.next_attempt_at now

-- `_reset_retryable`
unfoldable pub reset_retryable : ℕ → List JobRow → List JobRow × ℕ
unfolding is_retryable update_where
reset_retryable now js = update_where (is_retryable now) to_pending js

-- A call of a dead-letter hook.
pub record HookCall : Type 0 where
  pub type : JobType
  pub target_version : Text
  pub error : Text
  pub claimed_at : Option ℕ

-- `_run_dead_letter_hook`: `hooked` says which job types have a hook registered.
unfoldable pub run_dead_letter_hook : (JobType → Bool) → HookCall → List HookCall
run_dead_letter_hook hooked call = if hooked call.type then call ∷ [] else []

abbrev pub claimed_by : ℕ → Option ℕ → Bool
claimed_by cutoff none = true
claimed_by cutoff (some t) = leb t cutoff

abbrev pub no_batch : Option Text → Bool
no_batch none = true
no_batch (some b) = false

-- The selection of `_reclaim_stale_running`.
unfoldable pub is_stale : ℕ → JobRow → Bool
is_stale cutoff j =
    is_running j.status && (no_batch j.batch_handle && claimed_by cutoff j.claimed_at)

unfoldable pub select : (JobRow → Bool) → List JobRow → List JobRow
select test [] = []
select test (j ∷ js) = let rest = select test js in if test j then j ∷ rest else rest

abbrev pub reclaim_error : Text
reclaim_error = codes "reclaimed: stuck in 'running' past staleness timeout (possible crash)"

pub record Reclaimed : Type 0 where
  pub count : ℕ
  pub newly_dead : List HookCall
  pub jobs : List JobRow

-- One round of the loop, on a selected row. `clock` is the clock's reading in that round.
unfoldable pub reclaim_one : RetrySettings → ℕ → JobRow → Reclaimed → Reclaimed
reclaim_one settings clock row r =
    let f = next_failure_state settings clock row.attempts in
    let (rows, held) =
      cas_update_running row.id row.claimed_at (failure_clause f reclaim_error) r.jobs in
    let call : HookCall = record {
      type = row.type;
      target_version = row.target_version;
      error = reclaim_error;
      claimed_at = row.claimed_at;
    } in
    record {
      count = if held then suc r.count else r.count;
      newly_dead = if f.dead_lettered && held then r.newly_dead ++ call ∷ [] else r.newly_dead;
      jobs = rows;
    }

-- `clock` gives the reading in the round of each job id.
unfoldable pub reclaim_rows : RetrySettings → (ℕ → ℕ) → List JobRow → Reclaimed → Reclaimed
unfolding reclaim_one
reclaim_rows settings clock [] r = r
reclaim_rows settings clock (row ∷ rows) r =
    reclaim_rows settings clock rows (reclaim_one settings (clock row.id) row r)

unfoldable pub call_hooks : (JobType → Bool) → List HookCall → List HookCall
unfolding run_dead_letter_hook
call_hooks hooked [] = []
call_hooks hooked (call ∷ calls) = run_dead_letter_hook hooked call ++ call_hooks hooked calls

-- `_reclaim_stale_running`: the count, the hooks called, and the table.
unfoldable pub reclaim_stale_running :
    RetrySettings → (JobType → Bool) → ℕ → (ℕ → ℕ) → List JobRow → ℕ × List HookCall × List JobRow
unfolding is_stale select reclaim_rows call_hooks
reclaim_stale_running settings hooked now clock js =
    let cutoff = iso (now - settings.stale_running_timeout) in
    let r =
      reclaim_rows settings clock (select (is_stale cutoff) js)
        (record { count = 0; newly_dead = []; jobs = js }) in
    (r.count, call_hooks hooked r.newly_dead, r.jobs)

-- `CASE type WHEN 'embed' THEN 0 WHEN 'enrich' THEN 1 ELSE 2 END`
abbrev pub priority : JobType → ℕ
priority embed = 0
priority enrich = 1
priority refresh = 2

abbrev pub targets : Option Text → JobRow → Bool
targets none j = true
targets (some v) j = str_eq j.target_version v

unfoldable pub is_ready : List JobType → ℕ → Option Text → JobRow → Bool
unfolding any
is_ready types now target j =
    is_pending j.status
    && (leb j.next_attempt_at now && (any (type_eq j.type) types && targets target j))

-- `ORDER BY priority, id`
abbrev pub before : JobRow → JobRow → Bool
before a b =
    ltb (priority a.type) (priority b.type) || (priority a.type == priority b.type && leb a.id b.id)

-- The first row of that order: `LIMIT 1`.
unfoldable pub first_of_order : List JobRow → Option JobRow
first_of_order [] = none
first_of_order (j ∷ js) = elim (first_of_order js) [
  | none ↦ some j
  | some best ↦ if before j best then some j else some best
]

abbrev pub is_pending_id : ℕ → JobRow → Bool
is_pending_id job_id j = j.id == job_id && is_pending j.status

abbrev pub to_running : ℕ → JobRow → JobRow
to_running now j = record j { status = running; claimed_at = some now }

-- `_claim_one`: the id of the claimed job, and the table.
unfoldable pub claim_one : List JobType → ℕ → Option Text → List JobRow → Option ℕ × List JobRow
claim_one [] now target js = (none, js)
claim_one (t ∷ types) now target js =
    elim (first_of_order (select (is_ready (t ∷ types) now target) js)) [
      | none ↦ (none, js)
      | some j ↦
          let (rows, rowcount) = update_where (is_pending_id j.id) (to_running now) js in
          (if rowcount == 1 then some j.id else none, rows)
    ]

-- What a handler ends with: an outcome line or none, a permanent `AuthError` or `LLMAuthError`, or
-- any other exception, each with its text.
pub data Outcome : Type 0 where
  succeeds : Option Text → Outcome
  auth_error : Text → Outcome
  raises : Text → Outcome

pub record Handled : Type 0 where
  pub outcome : Outcome
  pub jobs : List JobRow

-- What `run_one` ends with: its Boolean result, or the re-raised permanent error.
pub data RunResult : Type 0 where
  returned : Bool → RunResult
  raised : Text → RunResult

pub record Ran : Type 0 where
  pub result : RunResult
  pub jobs : List JobRow
  pub hooks : List HookCall
  pub outcomes : List Text

-- The set clause of a success; the `enrich` job is stamped with the prompt's version.
abbrev pub to_done : Text → JobType → JobRow → JobRow
to_done enrich_prompt_ver enrich j = record j { status = done; prompt_ver = some enrich_prompt_ver }
to_done enrich_prompt_ver _ j = record j { status = done }

abbrev pub to_uncharged : Text → JobRow → JobRow
to_uncharged error j = record j { status = pending; last_error = some error }

abbrev pub line : Option Text → List Text
line none = []
line (some text) = text ∷ []

module _ (settings : RetrySettings) (enrich_prompt_ver : Text) (hooked : JobType → Bool) where
  -- What `run_one` does after the handler; `row` is the job as it was read before it, and `clock`
  -- the clock's reading on a failure.
  unfoldable pub finish : ℕ → JobRow → Outcome → List JobRow → Ran
  unfolding record_job_failure
  finish clock row (succeeds text) js = record {
    result = returned true;
    jobs = (update_where (has_id row.id) (to_done enrich_prompt_ver row.type) js).0;
    hooks = [];
    outcomes = line text;
  }
  finish clock row (auth_error error) js = record {
    result = raised error;
    jobs = (cas_update_running row.id row.claimed_at (to_uncharged error) js).0;
    hooks = [];
    outcomes = [];
  }
  finish clock row (raises error) js =
      let (failure, rows) =
        record_job_failure settings clock row.id row.attempts row.claimed_at error js in
      let call : HookCall = record {
        type = row.type;
        target_version = row.target_version;
        error = error;
        claimed_at = row.claimed_at;
      } in
      record {
        result = returned false;
        jobs = rows;
        hooks =
            if not failure.claim_lost && failure.dead_lettered
            then run_dead_letter_hook hooked call
            else [];
        outcomes = [];
      }

  unfoldable pub run_one : (JobRow → List JobRow → Handled) → ℕ → ℕ → List JobRow → Ran
  unfolding find_job finish
  run_one handler clock job_id js = elim (find_job job_id js) [
    | none ↦ record { result = returned false; jobs = js; hooks = []; outcomes = [] }
    | some row ↦ let h = handler row js in finish clock row h.outcome h.jobs
  ]

  -- `now` is the reading of `now_iso()` for the claim.
  unfoldable pub claim_and_run_one :
      (JobRow → List JobRow → Handled)
      → ℕ
      → ℕ
      → List JobType
      → Option Text
      → List JobRow
      → Bool × Ran
  unfolding claim_one run_one
  claim_and_run_one handler now clock types target js =
      let (claimed, rows) = claim_one types now target js in
      elim claimed [
        | none ↦ (false, record { result = returned false; jobs = rows; hooks = []; outcomes = [] })
        | some job_id ↦ (true, run_one handler clock job_id rows)
      ]
