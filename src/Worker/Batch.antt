-- ===== src/Worker/Batch.antt =====
-- worker.py: the batch lane of `drain`. The two calls that reach the provider, `collect_enrich_batch`
-- and `submit_enrich_batch` of enrich.py, are arguments: they end in a result or in an exception, with
-- the table that they leave.
use Prim.Native.Nat.{max}
use lode.Prelude.{
  ℕ, suc, Text, codes, Bool, false, List, [], ◌∷◌, ◌++◌, Option, none, some, str_eq, not, ◌&&◌,
  ◌==◌, leb, if◌then◌else◌, any, take, length,
}
use lode.Jobs.{
  enrich, JobRow, pending, failed, dead, RetrySettings, type_eq, is_running, has_id, update_where,
  backoff_next_attempt_at,
}
use lode.Chunking.{decimal}
use lode.Reconcile.{distinct}
use lode.Worker.{is_pending, is_pending_id, to_running, no_batch, select}

pub data Poll : Type 0 where
  in_progress ended : Poll
  auth_raises poll_raises : Text → Poll

pub record Polled : Type 0 where
  pub poll : Poll
  pub jobs : List JobRow
  pub outcomes : List Text

abbrev pub is_handle : Text → Option Text → Bool
is_handle b none = false
is_handle b (some c) = str_eq b c

abbrev pub on_handle : Text → JobRow → Bool
on_handle b j = is_running j.status && is_handle b j.batch_handle

abbrev pub handle_of : Option Text → List Text
handle_of none = []
handle_of (some b) = b ∷ []

-- The `SELECT DISTINCT` of `_batch_collect_enrich`.
unfoldable pub batch_handles : List JobRow → List Text
batch_handles [] = []
batch_handles (j ∷ js) =
    let rest = batch_handles js in
    if type_eq j.type enrich && is_running j.status then handle_of j.batch_handle ++ rest else rest

abbrev pub to_reset : JobRow → JobRow
to_reset j = record j { batch_collect_failures = 0 }

abbrev pub has_failures : Text → JobRow → Bool
has_failures b j = on_handle b j && not (j.batch_collect_failures == 0)

unfoldable pub reset_batch_collect_failures : Text → List JobRow → List JobRow
unfolding update_where
reset_batch_collect_failures b js = (update_where (has_failures b) to_reset js).0

abbrev pub bumped : JobRow → JobRow
bumped j = record j { batch_collect_failures = suc j.batch_collect_failures }

abbrev pub to_batch_dead : Text → JobRow → JobRow
to_batch_dead error j = record j { status = dead; last_error = some error }

-- `max` over the rows that the first UPDATE returns.
unfoldable pub most_failures : Text → List JobRow → ℕ
most_failures b [] = 0
most_failures b (j ∷ js) =
    let rest = most_failures b js in
    if on_handle b j then max j.batch_collect_failures rest else rest

abbrev pub collect_error : ℕ → Text → Text
collect_error failures error =
    codes "batch collect failed " ++ (decimal failures ++ (codes " time(s) in a row: " ++ error))

unfoldable pub record_batch_collect_failure : ℕ → Text → Text → List JobRow → List JobRow
unfolding update_where most_failures
record_batch_collect_failure budget b error js =
    let rows = (update_where (on_handle b) bumped js).0 in
    let failures = most_failures b rows in
    if leb budget failures
    then (update_where (on_handle b) (to_batch_dead (collect_error failures error)) rows).0
    else rows

-- How a pre-step of `drain` ends: with a count, or with an exception.
pub data PreStep : Type 0 where
  counted : ℕ → PreStep
  step_raises : Text → PreStep

pub record Collected : Type 0 where
  pub result : PreStep
  pub jobs : List JobRow
  pub outcomes : List Text

abbrev pub first_error : Option Text → Text → Option Text
first_error none error = some error
first_error (some deferred) error = some deferred

abbrev pub collect_result : ℕ → Option Text → PreStep
collect_result n none = counted n
collect_result n (some deferred) = step_raises deferred

-- One round of the loop over the handles, before the rest of it.
abbrev pub after_poll :
    (ℕ → Option Text → List JobRow → List Text → Collected)
    → ℕ
    → Text
    → ℕ
    → Option Text
    → List Text
    → Poll
    → List JobRow
    → Collected
after_poll continue budget b n deferred outcomes in_progress js =
    continue n deferred (reset_batch_collect_failures b js) outcomes
after_poll continue budget b n deferred outcomes ended js =
    continue (suc n) deferred (reset_batch_collect_failures b js) outcomes
after_poll continue budget b n deferred outcomes (auth_raises error) js = record {
  result = step_raises error;
  jobs = js;
  outcomes = outcomes;
}
after_poll continue budget b n deferred outcomes (poll_raises error) js =
    continue n (first_error deferred error) (record_batch_collect_failure budget b error js)
      outcomes

module _ (collect : Text → List JobRow → Polled) (budget : ℕ) where
  unfoldable pub collect_handles : List Text → ℕ → Option Text → List JobRow → List Text → Collected
  collect_handles [] n deferred js outcomes = record {
    result = collect_result n deferred;
    jobs = js;
    outcomes = outcomes;
  }
  collect_handles (b ∷ bs) n deferred js outcomes =
      let p = collect b js in
      after_poll (collect_handles bs) budget b n deferred (outcomes ++ p.outcomes) p.poll p.jobs

  unfoldable pub batch_collect_enrich : List JobRow → Collected
  unfolding batch_handles distinct collect_handles
  batch_collect_enrich js = collect_handles (distinct (batch_handles js)) 0 none js []

-- `submit_enrich_batch`
pub data Submit : Type 0 where
  submits : Submit
  submit_auth_raises submit_raises : Text → Submit

pub record Submitted : Type 0 where
  pub submit : Submit
  pub jobs : List JobRow

pub record SubmitStep : Type 0 where
  pub result : PreStep
  pub jobs : List JobRow

unfoldable pub insert_by_id : JobRow → List JobRow → List JobRow
insert_by_id j [] = j ∷ []
insert_by_id j (k ∷ ks) =
    let rest = insert_by_id j ks in if leb j.id k.id then j ∷ (k ∷ ks) else k ∷ rest

unfoldable pub sort_by_id : List JobRow → List JobRow
unfolding insert_by_id
sort_by_id [] = []
sort_by_id (j ∷ js) = insert_by_id j (sort_by_id js)

abbrev pub is_due_enrich : ℕ → JobRow → Bool
is_due_enrich now j = type_eq j.type enrich && (is_pending j.status && leb j.next_attempt_at now)

-- The claims of the selected rows, and the rows that were claimed.
unfoldable pub claim_rows : ℕ → List JobRow → List JobRow → List JobRow × List JobRow
unfolding update_where
claim_rows now [] js = ([], js)
claim_rows now (row ∷ rows) js =
    let (js', rowcount) = update_where (is_pending_id row.id) (to_running now) js in
    let (claimed, js'') = claim_rows now rows js' in
    (if rowcount == 1 then row ∷ claimed else claimed, js'')

abbrev pub is_one_of : List JobRow → JobRow → Bool
is_one_of rows j = any (λ (r : JobRow). has_id r.id j) rows

abbrev pub is_running_of : List JobRow → JobRow → Bool
is_running_of rows j = is_one_of rows j && is_running j.status

abbrev pub to_unsubmitted : Text → JobRow → JobRow
to_unsubmitted error j = record j { status = pending; last_error = some error }

abbrev pub to_submit_failed : Text → ℕ → JobRow → JobRow
to_submit_failed error next_at j = record j {
  status = failed;
  last_error = some error;
  next_attempt_at = next_at;
}

abbrev pub is_submitted : List JobRow → JobRow → Bool
is_submitted rows j = is_one_of rows j && not (no_batch j.batch_handle)

-- What `_batch_submit_enrich` does after the submission.
module _ (settings : RetrySettings) where
  abbrev pub after_submit : ℕ → List JobRow → Submit → List JobRow → SubmitStep
  after_submit clock rows submits js = record {
    result = counted (length (select (is_submitted rows) js));
    jobs = js;
  }
  after_submit clock rows (submit_auth_raises error) js = record {
    result = step_raises error;
    jobs = (update_where (is_running_of rows) (to_unsubmitted error) js).0;
  }
  after_submit clock rows (submit_raises error) js = record {
    result = counted 0;
    jobs =
        (update_where (is_running_of rows)
          (to_submit_failed error (backoff_next_attempt_at settings clock 1)) js).0;
  }

module _ (submit : List JobRow → List JobRow → Submitted) (settings : RetrySettings)
    (flush_size : ℕ) where
  abbrev pub submit_claimed : ℕ → List JobRow × List JobRow → SubmitStep
  submit_claimed clock ([], js) = record { result = counted 0; jobs = js }
  submit_claimed clock (row ∷ rows, js) =
      let s = submit (row ∷ rows) js in after_submit settings clock (row ∷ rows) s.submit s.jobs

  -- The clock is read for the SELECT, for the claims, and for the backoff.
  unfoldable pub batch_submit_enrich : ℕ → ℕ → ℕ → List JobRow → SubmitStep
  unfolding sort_by_id claim_rows
  batch_submit_enrich due now clock js =
      submit_claimed clock
        (claim_rows now (take flush_size (sort_by_id (select (is_due_enrich due) js))) js)
