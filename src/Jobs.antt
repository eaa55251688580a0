-- ===== src/Jobs.antt =====
-- jobs.py: the derive-job queue, its retry policy and its clock. The table is the list of its rows in
-- `id` order. A `datetime` is a number of microseconds, and `iso` truncates it to the millisecond
-- that the stored text shows; the fixed-width texts sort as these numbers do. The settings' backoff
-- seconds are given in microseconds.
pub mod Clock
pub mod Backoff
pub mod Table
pub mod Live
pub mod Queue
pub mod Grow
use Prim.Native.Nat.{min, max}
use lode.Prelude.{
  ℕ, zero, suc, ◌+◌, ◌-◌, ◌*◌, ◌/◌, ◌^◌, Text, Bool, true, false, List, [], ◌∷◌, ◌++◌, Option, none,
  some, str_eq, not, ◌&&◌, ◌||◌, ◌==◌, leb, ltb, if◌then◌else◌, any,
}

pub data JobType : Type 0 where
  embed enrich refresh : JobType

pub data Status : Type 0 where
  pending running done failed dead : Status

pub record JobRow : Type 0 where
  pub id : ℕ
  pub type : JobType
  pub target_version : Text
  pub prompt_ver : Option Text
  pub status : Status
  pub attempts : ℕ
  pub last_error : Option Text
  pub batch_handle : Option Text
  pub batch_collect_failures : ℕ
  pub claimed_at : Option ℕ
  pub next_attempt_at : ℕ

pub record RetrySettings : Type 0 where
  pub retry_max_attempts : ℕ
  pub retry_backoff_base : ℕ
  pub retry_backoff_cap : ℕ
  pub stale_running_timeout : ℕ

abbrev pub has_id : ℕ → JobRow → Bool
has_id k j = j.id == k

-- `SELECT … FROM jobs WHERE id = ?`
unfoldable pub find_job : ℕ → List JobRow → Option JobRow
find_job k [] = none
find_job k (j ∷ js) = if j.id == k then some j else find_job k js

abbrev pub derive_job_types : List JobType
derive_job_types = embed ∷ enrich ∷ []

-- `LIVE_JOB_STATUSES`
abbrev pub is_live : Status → Bool
is_live pending = true
is_live running = true
is_live failed = true
is_live done = false
is_live dead = false

abbrev pub type_eq : JobType → JobType → Bool
type_eq embed embed = true
type_eq enrich enrich = true
type_eq refresh refresh = true
type_eq _ _ = false

-- `COALESCE(prompt_ver, '')`
abbrev pub coalesce : Option Text → Text
coalesce none = []
coalesce (some p) = p

-- The row is live and has the key, so that the index `idx_jobs_live` holds the key.
unfoldable pub holds_key : JobType → Text → Text → JobRow → Bool
holds_key t target prompt j =
    is_live j.status
    && (type_eq j.type t
        && (str_eq j.target_version target && str_eq (coalesce j.prompt_ver) prompt))

-- `INTEGER PRIMARY KEY`: one more than the greatest id.
unfoldable pub next_id : List JobRow → ℕ
next_id [] = 1
next_id (j ∷ js) = max (suc j.id) (next_id js)

abbrev pub new_job : ℕ → JobType → Text → ℕ → JobRow
new_job id t target next_attempt = record {
  id = id;
  type = t;
  target_version = target;
  prompt_ver = none;
  status = pending;
  attempts = 0;
  last_error = none;
  batch_handle = none;
  batch_collect_failures = 0;
  claimed_at = none;
  next_attempt_at = next_attempt;
}

-- `INSERT … ON CONFLICT DO NOTHING`
unfoldable pub insert_job : ℕ → Text → List JobRow → JobType → List JobRow
insert_job next_attempt target js t =
    if any (holds_key t target []) js
    then js
    else js ++ new_job (next_id js) t target next_attempt ∷ []

-- `now` is the reading of `now_iso()`.
unfoldable pub enqueue_derive_jobs : ℕ → Text → List JobType → List JobRow → List JobRow
unfolding insert_job
enqueue_derive_jobs now target [] js = js
enqueue_derive_jobs now target (t ∷ types) js =
    enqueue_derive_jobs now target types (insert_job now target js t)

unfoldable pub iso : ℕ → ℕ
iso t = t / 1000

-- `min(base * 2 ** (new_attempts - 1), cap)` after `now`; it is called with 1 ≤ new_attempts.
unfoldable pub backoff_next_attempt_at : RetrySettings → ℕ → ℕ → ℕ
unfolding iso
backoff_next_attempt_at settings now new_attempts =
    iso
      (now + min (settings.retry_backoff_base * 2 ^ (new_attempts - 1)) settings.retry_backoff_cap)

pub record FailureState : Type 0 where
  pub new_attempts : ℕ
  pub dead_lettered : Bool
  pub next_attempt_at : Option ℕ

unfoldable pub next_failure_state : RetrySettings → ℕ → ℕ → FailureState
unfolding backoff_next_attempt_at
next_failure_state settings now current_attempts =
    let new_attempts = current_attempts + 1 in
    if leb settings.retry_max_attempts new_attempts
    then record { new_attempts = new_attempts; dead_lettered = true; next_attempt_at = none }
    else record {
      new_attempts = new_attempts;
      dead_lettered = false;
      next_attempt_at = some (backoff_next_attempt_at settings now new_attempts);
    }

abbrev pub is_running : Status → Bool
is_running running = true
is_running _ = false

-- SQLite's `IS`, which holds of two NULLs.
abbrev pub same_claim : Option ℕ → Option ℕ → Bool
same_claim none none = true
same_claim (some a) (some b) = a == b
same_claim _ _ = false

-- The row is the claim `claimed_at` of the job `job_id`.
unfoldable pub is_claim : ℕ → Option ℕ → JobRow → Bool
is_claim job_id claimed_at j =
    j.id == job_id && (is_running j.status && same_claim j.claimed_at claimed_at)

-- `UPDATE jobs SET … WHERE …`, with the number of rows that it changed.
unfoldable pub update_where : (JobRow → Bool) → (JobRow → JobRow) → List JobRow → List JobRow × ℕ
update_where test set [] = ([], 0)
update_where test set (j ∷ js) =
    let (rest, count) = update_where test set js in
    if test j then (set j ∷ rest, suc count) else (j ∷ rest, count)

-- The set clause is a function on the row.
unfoldable pub cas_update_running :
    ℕ → Option ℕ → (JobRow → JobRow) → List JobRow → List JobRow × Bool
unfolding update_where is_claim
cas_update_running job_id claimed_at set js =
    let (rows, rowcount) = update_where (is_claim job_id claimed_at) set js in (rows, rowcount == 1)

-- The two set clauses of a failure.
abbrev pub to_dead : ℕ → Text → JobRow → JobRow
to_dead new_attempts error j = record j {
  status = dead;
  attempts = new_attempts;
  last_error = some error;
}

abbrev pub to_failed : ℕ → Text → ℕ → JobRow → JobRow
to_failed new_attempts error next j = record j {
  status = failed;
  attempts = new_attempts;
  last_error = some error;
  next_attempt_at = next;
}

-- A dead-lettered state has no next attempt, and any other has one.
abbrev pub failure_clause : FailureState → Text → JobRow → JobRow
failure_clause f error j = elim f.next_attempt_at [
  | none ↦ to_dead f.new_attempts error j
  | some next ↦ to_failed f.new_attempts error next j
]

pub record Failure : Type 0 where
  pub new_attempts : ℕ
  pub dead_lettered : Bool
  pub claim_lost : Bool

unfoldable pub record_job_failure :
    RetrySettings → ℕ → ℕ → ℕ → Option ℕ → Text → List JobRow → Failure × List JobRow
record_job_failure settings now job_id current_attempts claimed_at error js =
    let f = next_failure_state settings now current_attempts in
    let (rows, held) = cas_update_running job_id claimed_at (failure_clause f error) js in
    (
      record {
        new_attempts = f.new_attempts;
        dead_lettered = f.dead_lettered;
        claim_lost = not held;
      },
      rows,
    )
