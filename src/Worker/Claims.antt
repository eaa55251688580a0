-- ===== src/Worker/Claims.antt =====
-- The compare-and-swap on a claim (jobs.py, worker.py), for a handler that ends while it holds its
-- claim and for one that ends late.
use lode.Prelude.{
  ℕ, ◌+◌, ◌≤◌, ◌<◌, Text, ◌≡◌, ◌≢◌, refl, ap, ◌∙◌, All, Bool, true, false, List, [], ◌∷◌, Option,
  none, some, if◌then◌else◌, arith, inl, inr, ◌⊎◌,
}
use lode.Jobs.{
  same_claim, is_running, Status, running, JobType, JobRow, RetrySettings, find_job, is_claim,
  next_failure_state, failure_clause, to_dead, to_failed, backoff_next_attempt_at, FailureState,
  cas_update_running,
}
use lode.Jobs.Table.{
  IsNumbered, KeepsId, find_job-update_where, updated, find_job_id, Picks, passes,
  count-update_where, update_where-miss,
}
use lode.Worker.{
  HookCall, auth_error, raises, returned, raised, Ran, run_dead_letter_hook, to_uncharged, finish,
}
use lode.Worker.Single.{policy}

is_claim-Picks : (k : ℕ) (c : Option ℕ) → Picks (is_claim k c) k
unfolding is_claim
is_claim-Picks k c j hit = ground arith

-- A compare-and-swap on a claim that is not there.
cas-lost :
    (k : ℕ) (c : Option ℕ) (set : JobRow → JobRow) (js : List JobRow)
    → IsNumbered js
    → passes (is_claim k c) (find_job k js) ≡ false
    → cas_update_running k c set js ≡ (js, false)
unfolding cas_update_running
cas-lost k c set js u lost = ground (
  arith,
  update_where-miss (is_claim k c) set k js (is_claim-Picks k c) lost u,
  count-update_where (is_claim k c) set k js (is_claim-Picks k c) u,
)

cas-held :
    (k : ℕ) (c : Option ℕ) (set : JobRow → JobRow) (js : List JobRow)
    → IsNumbered js
    → passes (is_claim k c) (find_job k js) ≡ true
    → (cas_update_running k c set js).1 ≡ true
unfolding cas_update_running
cas-held k c set js u held =
    ground (arith, count-update_where (is_claim k c) set k js (is_claim-Picks k c) u)

-- The claim of `row` is no longer there: each row of the job has ended its run, or was claimed at
-- another time.
abbrev pub Lost : JobRow → List JobRow → Type 0
Lost row = All (λ j. (j.id ≢ row.id) ⊎ ((j.status ≢ running) ⊎ (j.claimed_at ≢ row.claimed_at)))

same_claim-eq : (a b : Option ℕ) → same_claim a b ≡ true → a ≡ b
same_claim-eq none none h = refl
same_claim-eq none (some b) h = cc h
same_claim-eq (some a) none h = cc h
same_claim-eq (some a) (some b) h = ground arith

same_claim_refl : (a : Option ℕ) → same_claim a a ≡ true
same_claim_refl none = refl
same_claim_refl (some a) = ground arith

is_running-eq : (s : Status) → is_running s ≡ true → s ≡ running
is_running-eq s h = ground arith

Lost-passes :
    (row : JobRow) (js : List JobRow)
    → Lost row js
    → passes (is_claim row.id row.claimed_at) (find_job row.id js) ≡ false
unfolding find_job is_claim
Lost-passes row [] l = refl
Lost-passes row (j ∷ js) (l, ls) = ground (
  arith,
  Lost-passes row js ls,
  same_claim-eq j.claimed_at row.claimed_at,
  is_running-eq j.status,
)

module _ (settings : RetrySettings) (ver : Text) (hooked : JobType → Bool) where
  -- A handler that fails, or ends in a permanent error, after its claim was lost (the job was
  -- reclaimed, finished, or claimed again at another time) leaves every row as it is and calls no
  -- dead-letter hook; the permanent error is still raised.
  pub late_failure_inert :
      (clock : ℕ) (row : JobRow) (error : Text) (js : List JobRow)
      → IsNumbered js
      → Lost row js
      → (finish settings ver hooked clock row (raises error) js
          ≡ record { result = returned false; jobs = js; hooks = []; outcomes = [] })
        × (finish settings ver hooked clock row (auth_error error) js
            ≡ record { result = raised error; jobs = js; hooks = []; outcomes = [] })
  late_failure_inert clock row error js u gone =
      let lost = Lost-passes row js gone in
      let failure = failure_clause (next_failure_state settings clock row.attempts) error in
      (
        unfold finish in rw (cas-lost row.id row.claimed_at failure js u lost),
        unfold finish in rw (cas-lost row.id row.claimed_at (to_uncharged error) js u lost),
      )

is_claim-of :
    (row j : JobRow)
    → j.id ≡ row.id
    → j.status ≡ running
    → j.claimed_at ≡ row.claimed_at
    → is_claim row.id row.claimed_at j ≡ true
unfolding is_claim
is_claim-of row j e runs claimed =
    ground
      (arith, runs, same_claim_refl row.claimed_at, ap (λ c. same_claim c row.claimed_at) claimed)

-- A row after a compare-and-swap, whoever holds the claim.
find_job-cas :
    (i k : ℕ) (c : Option ℕ) (set : JobRow → JobRow) (js : List JobRow)
    → KeepsId set
    → find_job i (cas_update_running k c set js).0 ≡ updated (is_claim k c) set (find_job i js)
unfolding cas_update_running
find_job-cas i k c set js same = find_job-update_where (is_claim k c) set i js same

other-not-claim :
    (i k : ℕ) (c : Option ℕ) (set : JobRow → JobRow) (o : Option JobRow)
    → i ≢ k
    → ((j : JobRow) → o ≡ some j → j.id ≡ i)
    → updated (is_claim k c) set o ≡ o
unfolding is_claim
other-not-claim i k c set none ne ids = refl
other-not-claim i k c set (some j) ne ids = ground (arith, ids j refl)

abbrev pub hook_of : (JobType → Bool) → JobRow → Text → List HookCall
hook_of hooked row error =
    if hooked row.type
    then record {
      type = row.type;
      target_version = row.target_version;
      error = error;
      claimed_at = row.claimed_at;
    }
      ∷ []
    else []

module _ (settings : RetrySettings) (ver : Text) (hooked : JobType → Bool) where
  abbrev pub failing : ℕ → JobRow → Text → List JobRow → Ran
  failing clock row error js = finish settings ver hooked clock row (raises error) js

  module _ (clock : ℕ) (row j : JobRow) (error : Text) (js : List JobRow) (u : IsNumbered js)
      (found : find_job row.id js ≡ some j) (held : is_claim row.id row.claimed_at j ≡ true) where
    swapped : (set : JobRow → JobRow) → (cas_update_running row.id row.claimed_at set js).1 ≡ true
    swapped set = cas-held row.id row.claimed_at set js u (rw found held)

    at_row :
        (set : JobRow → JobRow)
        → KeepsId set
        → find_job row.id (cas_update_running row.id row.claimed_at set js).0 ≡ some (set j)
    at_row set keeps = find_job-cas row.id row.id row.claimed_at set js keeps ∙ rw (found, held)

    abbrev over : FailureState
    over = record { new_attempts = row.attempts + 1; dead_lettered = true; next_attempt_at = none }

    abbrev under : FailureState
    under = record {
      new_attempts = row.attempts + 1;
      dead_lettered = false;
      next_attempt_at = some (backoff_next_attempt_at settings clock (row.attempts + 1));
    }

    failing-over :
        next_failure_state settings clock row.attempts ≡ over
        → (find_job row.id (failing clock row error js).jobs
            ≡ some (to_dead (row.attempts + 1) error j))
          × ((failing clock row error js).hooks ≡ hook_of hooked row error)
    unfolding finish run_dead_letter_hook
    failing-over e =
        let set = to_dead (row.attempts + 1) error in
        rw e (at_row set (λ i. refl), rw (swapped set))

    failing-under :
        next_failure_state settings clock row.attempts ≡ under
        → (find_job row.id (failing clock row error js).jobs
            ≡ some (
                to_failed
                  (row.attempts + 1)
                  error
                  (backoff_next_attempt_at settings clock (row.attempts + 1))
                  j))
          × ((failing clock row error js).hooks ≡ [])
    unfolding finish
    failing-under e =
        let next = backoff_next_attempt_at settings clock (row.attempts + 1) in
        let set = to_failed (row.attempts + 1) error next in
        rw e (at_row set (λ i. refl), rw (swapped set))

    failing_others :
        (i : ℕ) → i ≢ row.id → find_job i (failing clock row error js).jobs ≡ find_job i js
    unfolding finish
    failing_others i ne = elim (policy settings clock row.attempts) [
      | inl (h, e) ↦ rw e (other (to_dead (row.attempts + 1) error) (λ k. refl))
      | inr (h, e) ↦ rw e (
          other
            (to_failed (row.attempts + 1) error
              (backoff_next_attempt_at settings clock (row.attempts + 1)))
            (λ k. refl))
    ]
      where
        other :
            (set : JobRow → JobRow)
            → KeepsId set
            → find_job i (cas_update_running row.id row.claimed_at set js).0 ≡ find_job i js
        other set keeps =
            find_job-cas i row.id row.claimed_at set js keeps
            ∙ other-not-claim i row.id row.claimed_at set (find_job i js) ne (find_job_id i js)

  -- A handler that fails while it holds its claim: with no attempt left the job is dead and the hook
  -- of its type, if there is one, is called; otherwise the job waits out its backoff and no hook is
  -- called. Either way the attempt is charged, the error is kept, and every other job stays.
  pub held_failure :
      (clock : ℕ) (row j : JobRow) (error : Text) (js : List JobRow)
      → IsNumbered js
      → find_job row.id js ≡ some j
      → j.status ≡ running
      → j.claimed_at ≡ row.claimed_at
      → (((settings.retry_max_attempts ≤ row.attempts + 1)
            × (find_job row.id (failing clock row error js).jobs
                ≡ some (to_dead (row.attempts + 1) error j))
            × ((failing clock row error js).hooks ≡ hook_of hooked row error))
          ⊎ ((row.attempts + 1 < settings.retry_max_attempts)
              × (find_job row.id (failing clock row error js).jobs
                  ≡ some (
                      to_failed
                        (row.attempts + 1)
                        error
                        (backoff_next_attempt_at settings clock (row.attempts + 1))
                        j))
              × ((failing clock row error js).hooks ≡ [])))
        × ((i : ℕ) → i ≢ row.id → find_job i (failing clock row error js).jobs ≡ find_job i js)
  held_failure clock row j error js u found runs claimed =
      let held : is_claim row.id row.claimed_at j ≡ true =
        is_claim-of row j (find_job_id row.id js j found) runs claimed in
      (
        elim (policy settings clock row.attempts) [
          | inl (o, e) ↦
              (let (at, hook) = failing-over clock row j error js u found held e in
                inl (o, at, hook))
          | inr (o, e) ↦
              (let (at, hook) = failing-under clock row j error js u found held e in
                inr (o, at, hook))
        ],
        failing_others clock row j error js u found held,
      )
