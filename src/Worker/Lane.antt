-- ===== src/Worker/Lane.antt =====
-- The transitions of the batch lane of worker.py keep the invariant of the job table.
use lode.Prelude.{
  ℕ, ◌<◌, Text, ◌≡◌, ◌≢◌, refl, ap, sym, ◌∙◌, subst, Bool, true, List, [], ◌∷◌, none, leb, arith,
  Bool-cases, inl, inr,
}
use lode.Jobs.{dead, JobRow, RetrySettings, coalesce, backoff_next_attempt_at, update_where}
use lode.Jobs.Table.{KeepsId}
use lode.Jobs.Live.{IsQuiet}
use lode.Jobs.Queue.{IsQueue, update_where-IsQueue}
use lode.Worker.{is_pending_id, to_running}
use lode.Worker.Batch.{
  on_handle, reset_batch_collect_failures, has_failures, to_reset, bumped, to_batch_dead,
  most_failures, collect_error, record_batch_collect_failure, claim_rows, Submit, submits,
  submit_auth_raises, submit_raises, is_running_of, to_unsubmitted, to_submit_failed, after_submit,
}

-- An update that keeps the id, the key and the count of attempts of each row it hits, and leaves it
-- live; or one that ends the rows of a batch.
batch_update-IsQueue :
    (limit : ℕ) (test : JobRow → Bool) (set : JobRow → JobRow) (js : List JobRow)
    → KeepsId set
    → IsQuiet test set
    → ((j : JobRow) → (set j).attempts ≡ j.attempts)
    → ((j : JobRow) → (set j).status ≡ dead → test j ≡ true → (set j).batch_handle ≢ none)
    → IsQueue limit js
    → IsQueue limit (update_where test set js).0
batch_update-IsQueue limit test set js same quiet kept ends =
    update_where-IsQueue limit test set js same quiet (λ j hit c. record {
      left = λ live. subst (λ n. n < limit) (sym (kept j)) (c.left (quiet.not_revived j hit live));
      spent = λ e. inr (ends j e hit);
    })

on_handle-batch : (b : Text) (j : JobRow) → on_handle b j ≡ true → j.batch_handle ≢ none
on_handle-batch b j h e = ground (arith, rw e at h)

pub claim_rows-IsQueue :
    (limit now : ℕ) (rows js : List JobRow)
    → IsQueue limit js
    → IsQueue limit (claim_rows now rows js).1
unfolding claim_rows
claim_rows-IsQueue limit now [] js q = q
claim_rows-IsQueue limit now (row ∷ rows) js q =
    claim_rows-IsQueue limit now rows (update_where (is_pending_id row.id) (to_running now) js).0 (
      batch_update-IsQueue limit (is_pending_id row.id) (to_running now) js (λ j. refl)
        (record {
          not_revived = λ j hit e. ground arith;
          same_type = λ j. refl;
          same_target = λ j. refl;
          same_prompt = λ j e. refl;
        })
        (λ j. refl) (λ j e hit. absurd (cc e)) q)

pub after_submit-IsQueue :
    (limit : ℕ) (settings : RetrySettings) (clock : ℕ) (rows : List JobRow) (s : Submit)
    (js : List JobRow)
    → IsQueue limit js
    → IsQueue limit (after_submit settings clock rows s js).jobs
after_submit-IsQueue limit settings clock rows submits js q = q
after_submit-IsQueue limit settings clock rows (submit_auth_raises error) js q =
    batch_update-IsQueue limit (is_running_of rows) (to_unsubmitted error) js (λ j. refl)
      (record {
        not_revived = λ j hit e. ground arith;
        same_type = λ j. refl;
        same_target = λ j. refl;
        same_prompt = λ j e. refl;
      })
      (λ j. refl) (λ j e hit. absurd (cc e)) q
after_submit-IsQueue limit settings clock rows (submit_raises error) js q =
    batch_update-IsQueue limit (is_running_of rows)
      (to_submit_failed error (backoff_next_attempt_at settings clock 1)) js (λ j. refl)
      (record {
        not_revived = λ j hit e. ground arith;
        same_type = λ j. refl;
        same_target = λ j. refl;
        same_prompt = λ j e. refl;
      })
      (λ j. refl) (λ j e hit. absurd (cc e)) q

-- An update of the rows on a handle.
handle-IsQueue :
    (limit : ℕ) (b : Text) (test : JobRow → Bool) (set : JobRow → JobRow) (js : List JobRow)
    → ((j : JobRow) → test j ≡ true → on_handle b j ≡ true)
    → KeepsId set
    → ((j : JobRow) → (set j).type ≡ j.type)
    → ((j : JobRow) → (set j).target_version ≡ j.target_version)
    → ((j : JobRow) → (set j).prompt_ver ≡ j.prompt_ver)
    → ((j : JobRow) → (set j).attempts ≡ j.attempts)
    → ((j : JobRow) → (set j).batch_handle ≡ j.batch_handle)
    → IsQueue limit js
    → IsQueue limit (update_where test set js).0
handle-IsQueue limit b test set js on same type target prompt kept batch =
    batch_update-IsQueue limit test set js same
      (record {
        not_revived = λ j hit e. ground (arith, on j hit);
        same_type = type;
        same_target = target;
        same_prompt = λ j e. ap coalesce (prompt j);
      })
      kept (λ j e hit no. on_handle-batch b j (on j hit) (sym (batch j) ∙ no))

pub record_failure-IsQueue :
    (limit budget : ℕ) (b error : Text) (js : List JobRow)
    → IsQueue limit js
    → IsQueue limit (record_batch_collect_failure budget b error js)
unfolding record_batch_collect_failure
record_failure-IsQueue limit budget b error js q =
    elim (Bool-cases (leb budget (most_failures b counted))) [
      | inr left ↦ rw left q'
      | inl spent ↦ rw spent (
          handle-IsQueue limit b (on_handle b)
            (to_batch_dead (collect_error (most_failures b counted) error)) counted (λ j h. h)
            (λ j. refl) (λ j. refl) (λ j. refl) (λ j. refl) (λ j. refl) (λ j. refl) q')
    ]
  where
    counted : List JobRow
    counted = (update_where (on_handle b) bumped js).0

    q' : IsQueue limit counted
    q' =
        handle-IsQueue limit b (on_handle b) bumped js (λ j h. h) (λ j. refl) (λ j. refl)
          (λ j. refl) (λ j. refl) (λ j. refl) (λ j. refl) q

pub reset_failures-IsQueue :
    (limit : ℕ) (b : Text) (js : List JobRow)
    → IsQueue limit js
    → IsQueue limit (reset_batch_collect_failures b js)
unfolding reset_batch_collect_failures
reset_failures-IsQueue limit b js =
    handle-IsQueue limit b (has_failures b) to_reset js (λ j h. ground arith) (λ j. refl)
      (λ j. refl) (λ j. refl) (λ j. refl) (λ j. refl) (λ j. refl)
