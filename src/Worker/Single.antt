-- ===== src/Worker/Single.antt =====
-- The transitions of worker.py on one job keep the invariant of the job table.
use lode.Prelude.{
  ℕ, ◌+◌, ◌-◌, ◌≤◌, ◌<◌, Text, ◌≡◌, refl, ap, Bool, true, false, List, [], ◌∷◌, Option, none, some,
  leb, arith, Bool-cases, Option-cases, inl, inr, ◌⊎◌,
}
use lode.Jobs.{
  JobType, JobRow, RetrySettings, has_id, coalesce, is_running, is_claim, next_failure_state,
  failure_clause, to_dead, to_failed, iso, backoff_next_attempt_at, update_where,
  cas_update_running,
}
use lode.Jobs.Table.{KeepsId}
use lode.Jobs.Queue.{IsCharged, IsQueue, update_where-IsQueue}
use lode.Worker.{
  is_retryable, to_pending, reset_retryable, Reclaimed, reclaim_error, reclaim_one, reclaim_rows,
  is_stale, select, reclaim_stale_running, first_of_order, is_ready, is_pending_id, to_running,
  claim_one, Outcome, succeeds, auth_error, raises, to_done, to_uncharged, finish,
}

module _ (settings : RetrySettings) where
  abbrev limit : ℕ
  limit = settings.retry_max_attempts

  pub reset_retryable-IsQueue :
      (now : ℕ) (js : List JobRow) → IsQueue limit js → IsQueue limit (reset_retryable now js).0
  unfolding reset_retryable
  reset_retryable-IsQueue now js =
      update_where-IsQueue limit (is_retryable now) to_pending js (λ j. refl)
        (record {
          not_revived = λ j hit e. ground arith;
          same_type = λ j. refl;
          same_target = λ j. refl;
          same_prompt = λ j e. refl;
        })
        (λ j hit c. record { left = λ e. c.left (ground arith); spent = λ e. cc e })

  -- A compare-and-swap on a claim.
  cas-IsQueue :
      (id : ℕ) (claimed : Option ℕ) (set : JobRow → JobRow) (js : List JobRow)
      → KeepsId set
      → ((j : JobRow) → (set j).type ≡ j.type)
      → ((j : JobRow) → (set j).target_version ≡ j.target_version)
      → ((j : JobRow) → (set j).prompt_ver ≡ j.prompt_ver)
      → ((j : JobRow) → is_running j.status ≡ true → IsCharged limit j → IsCharged limit (set j))
      → IsQueue limit js
      → IsQueue limit (cas_update_running id claimed set js).0
  unfolding cas_update_running
  cas-IsQueue id claimed set js same type target prompt charge =
      update_where-IsQueue limit (is_claim id claimed) set js same
        (record {
          not_revived = λ j hit e. ground arith;
          same_type = type;
          same_target = target;
          same_prompt = λ j e. ap coalesce (prompt j);
        })
        (λ j hit c. charge j (ground arith) c)

  -- The two outcomes of the retry policy.
  pub policy :
      (clock a : ℕ)
      → ((limit ≤ a + 1)
          × (next_failure_state settings clock a
              ≡ record { new_attempts = a + 1; dead_lettered = true; next_attempt_at = none }))
        ⊎ ((a + 1 < limit)
            × (next_failure_state settings clock a ≡ record {
              new_attempts = a + 1;
              dead_lettered = false;
              next_attempt_at = some (backoff_next_attempt_at settings clock (a + 1));
            }))
  unfolding next_failure_state
  policy clock a = elim (Bool-cases (leb limit (a + 1))) [
    | inl over ↦ inl (ground arith, rw over)
    | inr under ↦ inr (ground arith, rw under)
  ]

  failure-IsQueue :
      (clock a id : ℕ) (claimed : Option ℕ) (error : Text) (js : List JobRow)
      → IsQueue limit js
      → IsQueue limit
          (cas_update_running id claimed
            (failure_clause (next_failure_state settings clock a) error)
            js).0
  failure-IsQueue clock a id claimed error js q = elim (policy clock a) [
    | inl (over, e) ↦ rw e (
        cas-IsQueue id claimed (to_dead (a + 1) error) js (λ j. refl) (λ j. refl) (λ j. refl)
          (λ j. refl) (λ j running c. record { left = λ x. cc x; spent = λ x. inl over }) q)
    | inr (under, e) ↦ rw e (
        cas-IsQueue id claimed
          (to_failed (a + 1) error (backoff_next_attempt_at settings clock (a + 1))) js (λ j. refl)
          (λ j. refl) (λ j. refl) (λ j. refl)
          (λ j running c. record { left = λ x. under; spent = λ x. cc x }) q)
  ]

  reclaim_rows-IsQueue :
      (clock : ℕ → ℕ) (rows : List JobRow) (r : Reclaimed)
      → IsQueue limit r.jobs
      → IsQueue limit (reclaim_rows settings clock rows r).jobs
  unfolding reclaim_rows
  reclaim_rows-IsQueue clock [] r q = q
  reclaim_rows-IsQueue clock (row ∷ rows) r q =
      reclaim_rows-IsQueue clock rows (reclaim_one settings (clock row.id) row r)
        (failure-IsQueue (clock row.id) row.attempts row.id row.claimed_at reclaim_error r.jobs q)

  pub reclaim-IsQueue :
      (hooked : JobType → Bool) (now : ℕ) (clock : ℕ → ℕ) (js : List JobRow)
      → IsQueue limit js
      → IsQueue limit (reclaim_stale_running settings hooked now clock js).2
  unfolding reclaim_stale_running
  reclaim-IsQueue hooked now clock js q =
      reclaim_rows-IsQueue clock (select (is_stale (iso (now - settings.stale_running_timeout))) js)
        (record { count = 0; newly_dead = []; jobs = js }) q

  claim_update-IsQueue :
      (id now : ℕ) (js : List JobRow)
      → IsQueue limit js
      → IsQueue limit (update_where (is_pending_id id) (to_running now) js).0
  claim_update-IsQueue id now js =
      update_where-IsQueue limit (is_pending_id id) (to_running now) js (λ j. refl)
        (record {
          not_revived = λ j hit e. ground arith;
          same_type = λ j. refl;
          same_target = λ j. refl;
          same_prompt = λ j e. refl;
        })
        (λ j hit c. record { left = λ e. c.left (ground arith); spent = λ e. cc e })

  pub claim_one-IsQueue :
      (types : List JobType) (now : ℕ) (target : Option Text) (js : List JobRow)
      → IsQueue limit js
      → IsQueue limit (claim_one types now target js).1
  unfolding claim_one
  claim_one-IsQueue [] now target js q = q
  claim_one-IsQueue (t ∷ types) now target js q =
      elim (Option-cases (first_of_order (select (is_ready (t ∷ types) now target) js))) [
        | inl nothing ↦ rw (nothing, claim_one) q
        | inr (j, first) ↦ rw (first, claim_one) (claim_update-IsQueue j.id now js q)
      ]

  done-IsQueue :
      (ver : Text) (row : JobRow) (js : List JobRow)
      → IsQueue limit js
      → IsQueue limit (update_where (has_id row.id) (to_done ver row.type) js).0
  done-IsQueue ver row js =
      update_where-IsQueue limit (has_id row.id) (to_done ver row.type) js (λ j. ground arith)
        (record {
          not_revived = λ j hit e. ground arith;
          same_type = λ j. ground arith;
          same_target = λ j. ground arith;
          same_prompt = λ j e. ground arith;
        })
        (λ j hit c. record { left = λ e. ground arith; spent = λ e. ground arith })

  pub finish-IsQueue :
      (ver : Text) (hooked : JobType → Bool) (clock : ℕ) (row : JobRow) (o : Outcome)
      (js : List JobRow)
      → IsQueue limit js
      → IsQueue limit (finish settings ver hooked clock row o js).jobs
  unfolding finish
  finish-IsQueue ver hooked clock row (succeeds text) js q = done-IsQueue ver row js q
  finish-IsQueue ver hooked clock row (auth_error error) js q =
      cas-IsQueue row.id row.claimed_at (to_uncharged error) js (λ j. refl) (λ j. refl) (λ j. refl)
        (λ j. refl) (λ j running c. record { left = λ x. c.left (ground arith); spent = λ x. cc x })
        q
  finish-IsQueue ver hooked clock row (raises error) js q =
      failure-IsQueue clock row.attempts row.id row.claimed_at error js q
