-- ===== src/Worker/Queue.antt =====
-- The transactions on the job table, in any order, and its invariant.
use lode.Prelude.{ℕ, ◌<◌, Text, Bool, List, [], ◌∷◌, Option}
use lode.Jobs.{JobType, JobRow, RetrySettings, enqueue_derive_jobs}
use lode.Jobs.Queue.{IsQueue, enqueue-IsQueue}
use lode.Worker.{reset_retryable, reclaim_stale_running, claim_one, Outcome, finish}
use lode.Worker.Batch.{
  reset_batch_collect_failures, record_batch_collect_failure, claim_rows, Submit, after_submit,
}
use lode.Worker.Single.{reset_retryable-IsQueue, reclaim-IsQueue, claim_one-IsQueue, finish-IsQueue}
use lode.Worker.Lane.{
  claim_rows-IsQueue, after_submit-IsQueue, record_failure-IsQueue, reset_failures-IsQueue,
}

-- One transaction of jobs.py or worker.py on the queue, by a save or a worker. `now` and `clock` are
-- readings of the clock; a `finishes` event is the end of a handler that was started on the row
-- `row`, whenever that was, and the result of a batch for a job ends it in the same way. The events of
-- the batch lane are its claims, the end of a submission, a poll that returned and a poll that
-- raised; the two UPDATEs of enrich.py by which a submission writes the handle of its batch and marks
-- the jobs that it leaves out as done are not among them.
pub data Event : Type 0 where
  enqueues : (now : ℕ) (target : Text) (types : List JobType) → Event
  resets : (now : ℕ) → Event
  reclaims : (now : ℕ) (clock : ℕ → ℕ) → Event
  claims : (types : List JobType) (now : ℕ) (target : Option Text) → Event
  finishes : (clock : ℕ) (row : JobRow) (outcome : Outcome) → Event
  batch_claims : (now : ℕ) (rows : List JobRow) → Event
  submit_ends : (clock : ℕ) (rows : List JobRow) (submit : Submit) → Event
  collects : (batch_id : Text) → Event
  collect_raises : (budget : ℕ) (batch_id error : Text) → Event

module _ (settings : RetrySettings) (ver : Text) (hooked : JobType → Bool) where
  unfoldable pub after : List JobRow → Event → List JobRow
  after js (enqueues now target types) = enqueue_derive_jobs now target types js
  after js (resets now) = (reset_retryable now js).0
  after js (reclaims now clock) = (reclaim_stale_running settings hooked now clock js).2
  after js (claims types now target) = (claim_one types now target js).1
  after js (finishes clock row outcome) = (finish settings ver hooked clock row outcome js).jobs
  after js (batch_claims now rows) = (claim_rows now rows js).1
  after js (submit_ends clock rows submit) = (after_submit settings clock rows submit js).jobs
  after js (collects batch_id) = reset_batch_collect_failures batch_id js
  after js (collect_raises budget batch_id error) =
      record_batch_collect_failure budget batch_id error js

  unfoldable pub after_all : List JobRow → List Event → List JobRow
  after_all js [] = js
  after_all js (e ∷ es) = after_all (after js e) es

  -- With at least one attempt allowed, the following holds after any list of events, those of the
  -- batch lane included, if it holds before, in whatever order and however late a handler ends: job
  -- ids are unique; no two live jobs have one type, version and prompt version, so no update can hit
  -- the unique index; a live job has attempts left; and a dead one has used them up, or has the
  -- handle of a batch, whose budget of failed polls ends jobs with attempts left.
  pub after_all-IsQueue :
      (js : List JobRow) (es : List Event)
      → 0 < settings.retry_max_attempts
      → IsQueue settings.retry_max_attempts js
      → IsQueue settings.retry_max_attempts (after_all js es)
  unfolding after_all after
  after_all-IsQueue js [] pos q = q
  after_all-IsQueue js (e ∷ es) pos q = after_all-IsQueue (after js e) es pos (one e)
    where
      one : (e : Event) → IsQueue settings.retry_max_attempts (after js e)
      one (enqueues now target types) =
          enqueue-IsQueue settings.retry_max_attempts now target types js pos q
      one (resets now) = reset_retryable-IsQueue settings now js q
      one (reclaims now clock) = reclaim-IsQueue settings hooked now clock js q
      one (claims types now target) = claim_one-IsQueue settings types now target js q
      one (finishes clock row outcome) = finish-IsQueue settings ver hooked clock row outcome js q
      one (batch_claims now rows) = claim_rows-IsQueue settings.retry_max_attempts now rows js q
      one (submit_ends clock rows submit) =
          after_submit-IsQueue settings.retry_max_attempts settings clock rows submit js q
      one (collects batch_id) = reset_failures-IsQueue settings.retry_max_attempts batch_id js q
      one (collect_raises budget batch_id error) =
          record_failure-IsQueue settings.retry_max_attempts budget batch_id error js q
