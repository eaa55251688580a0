-- ===== src/Worker/Weight.antt =====
-- A measure of the work that is left to a pass of `drain` in worker.py. A job counts for its handler and
-- for the jobs that its handler may enqueue: a refresh enqueues an embedding, an embedding of a
-- snapshot an enrichment, and an enrichment none.
use lode.Prelude.{
  ℕ, suc, ◌+◌, ◌≤◌, ◌<◌, Text, ◌≡◌, refl, sym, ◌∙◌, subst, Bool, true, false, List, [], ◌∷◌, ◌++◌,
  Option, none, some, ◌==◌, if◌then◌else◌, any, arith, Bool-cases, Option-cases, inl, inr,
}
use lode.Jobs.{
  JobType, embed, enrich, refresh, JobRow, RetrySettings, has_id, find_job, update_where,
  cas_update_running, is_claim, to_dead, to_failed, backoff_next_attempt_at, new_job, next_id,
  holds_key, enqueue_derive_jobs,
}
use lode.Jobs.Table.{
  IsNumbered, KeepsId, find_job_id, find_job-update_where, update_where-IsNumbered,
  update_where-absent, count-update_where, passes,
}
use lode.Jobs.Live.{insert_job-held, insert_job-free}
use lode.Worker.{
  select, is_ready, first_of_order, is_pending, is_pending_id, to_running, claim_one, Handled,
  Outcome, succeeds, auth_error, raises, RunResult, returned, raised, to_done, finish, run_one,
}
use lode.Worker.Single.{policy}
use mathlib.Core.Option.{some-injective}

abbrev pub weight : JobType → ℕ
weight enrich = 1
weight embed = 2
weight refresh = 3

unfoldable pub pending_weight : List JobRow → ℕ
pending_weight [] = 0
pending_weight (j ∷ js) =
    let n = pending_weight js in if is_pending j.status then weight j.type + n else n

update_where-pending_weight :
    (test : JobRow → Bool) (set : JobRow → JobRow) (js : List JobRow)
    → ((j : JobRow) → is_pending (set j).status ≡ false)
    → pending_weight (update_where test set js).0 ≤ pending_weight js
unfolding pending_weight update_where
update_where-pending_weight test set [] h = omega arith
update_where-pending_weight test set (j ∷ js) h = elim (Bool-cases (test j)) [
  | inl hit ↦ rw (hit, h j) (ground (arith, update_where-pending_weight test set js h))
  | inr miss ↦ rw miss (ground (arith, update_where-pending_weight test set js h))
]

claim-pending_weight :
    (k now : ℕ) (js : List JobRow) (j : JobRow)
    → IsNumbered js
    → find_job k js ≡ some j
    → is_pending j.status ≡ true
    → pending_weight (update_where (is_pending_id k) (to_running now) js).0 + weight j.type
      ≡ pending_weight js
unfolding pending_weight update_where find_job
claim-pending_weight k now [] j u found waits = absurd (cc found)
claim-pending_weight k now (x ∷ js) j u found waits = elim (Bool-cases (x.id == k)) [
  | inl here ↦
      let same : x ≡ j = some-injective x j (rw here at found) in
      let alone : find_job k js ≡ none =
        subst (λ i. find_job i js ≡ none) (ground (arith, here)) u.0 in
      let rest =
        update_where-absent (is_pending_id k) (to_running now) k js (λ i h. ground (arith, h))
          alone in
      let waits' : is_pending x.status ≡ true =
        subst (λ y. is_pending y.status ≡ true) (sym same) waits in
      rw (here, waits', rest)
        (subst (λ y. pending_weight js + weight y.type ≡ weight x.type + pending_weight js) same
          (omega arith))
  | inr other ↦
      rw other (ground (arith, claim-pending_weight k now js j u.1 (rw other at found) waits))
]

-- What a claim of the job `k` leaves.
abbrev pub Claims : List JobRow → List JobRow → Option ℕ → Type 0
Claims js rows none = Unit
Claims js rows (some k) =
    (j : JobRow) × (find_job k rows ≡ some j)
    × (pending_weight rows + weight j.type ≡ pending_weight js)
    × IsNumbered rows

update-Claims :
    (k now : ℕ) (js : List JobRow)
    → IsNumbered js
    → Claims js
        (update_where (is_pending_id k) (to_running now) js).0
        (if (update_where (is_pending_id k) (to_running now) js).1 == 1 then some k else none)
update-Claims k now js u = rw count (elim (Option-cases (find_job k js)) [
  | inl absent ↦ rw absent tt
  | inr (j, found) ↦
      let here : (j.id == k) ≡ true = ground (arith, find_job_id k js j found) in
      elim (Bool-cases (is_pending j.status)) [
        | inr runs ↦ rw (found, here, runs) tt
        | inl waits ↦
            rw (found, here, waits)
              (
                to_running now j,
                find_job-update_where (is_pending_id k) (to_running now) k js (λ x. refl)
                    ∙ rw (found, here, waits) refl,
                claim-pending_weight k now js j u found waits,
                update_where-IsNumbered (is_pending_id k) (to_running now) js (λ x. refl) u,
              )
      ]
])
  where
    count :
        (update_where (is_pending_id k) (to_running now) js).1
        ≡ (if passes (is_pending_id k) (find_job k js) then 1 else 0)
    count = count-update_where (is_pending_id k) (to_running now) k js (λ i h. ground (arith, h)) u

pub claim_one-Claims :
    (types : List JobType) (now : ℕ) (js : List JobRow)
    → IsNumbered js
    → Claims js (claim_one types now none js).1 (claim_one types now none js).0
unfolding claim_one
claim_one-Claims [] now js u = tt
claim_one-Claims (t ∷ types) now js u =
    elim (Option-cases (first_of_order (select (is_ready (t ∷ types) now none) js))) [
      | inl nothing ↦ rw (nothing, claim_one) tt
      | inr (j, best) ↦ rw (best, claim_one) (update-Claims j.id now js u)
    ]

-- What is known of a handler's writes: an id is a primary key, and the jobs that a handler leaves
-- pending weigh less than those that it finds together with its own.
pub record IsHandler (handler : JobRow → List JobRow → Handled) : Type 0 where
  pub numbered :
      (row : JobRow) (js : List JobRow) → IsNumbered js → IsNumbered (handler row js).jobs
  pub bounded :
      (row : JobRow) (js : List JobRow)
      → pending_weight (handler row js).jobs < pending_weight js + weight row.type

-- A run that returns keeps the ids, and leaves less than this.
abbrev pub Leaves : ℕ → List JobRow → RunResult → Type 0
Leaves n js (raised error) = Unit
Leaves n js (returned b) = (pending_weight js < n) × IsNumbered js

cas-Leaves :
    (k : ℕ) (c : Option ℕ) (set : JobRow → JobRow) (b : Bool) (js : List JobRow)
    → KeepsId set
    → ((j : JobRow) → is_pending (set j).status ≡ false)
    → IsNumbered js
    → Leaves (suc (pending_weight js)) (cas_update_running k c set js).0 (returned b)
unfolding cas_update_running
cas-Leaves k c set b js same h u = (
  omega (arith, update_where-pending_weight (is_claim k c) set js h),
  update_where-IsNumbered (is_claim k c) set js same u,
)

module _ (settings : RetrySettings) (ver : Text) (hooked : JobType → Bool) where
  finish-Leaves :
      (clock : ℕ) (row : JobRow) (o : Outcome) (js : List JobRow)
      → IsNumbered js
      → Leaves
          (suc (pending_weight js))
          (finish settings ver hooked clock row o js).jobs
          (finish settings ver hooked clock row o js).result
  unfolding finish
  finish-Leaves clock row (succeeds text) js u = (
    omega (
      arith,
      update_where-pending_weight (has_id row.id) (to_done ver row.type) js (λ j. ground arith),
    ),
    update_where-IsNumbered (has_id row.id) (to_done ver row.type) js (λ j. ground arith) u,
  )
  finish-Leaves clock row (auth_error error) js u = tt
  finish-Leaves clock row (raises error) js u = elim (policy settings clock row.attempts) [
    | inl (over, e) ↦ rw e (
        cas-Leaves row.id row.claimed_at (to_dead (row.attempts + 1) error) false js (λ j. refl)
          (λ j. refl) u)
    | inr (under, e) ↦ rw e (
        cas-Leaves row.id row.claimed_at
          (to_failed (row.attempts + 1) error
            (backoff_next_attempt_at settings clock (row.attempts + 1)))
          false js (λ j. refl) (λ j. refl) u)
  ]

  Leaves-raise :
      (a b : ℕ) (js : List JobRow) (r : RunResult) → a ≤ b → Leaves a js r → Leaves b js r
  Leaves-raise a b js (raised error) h l = tt
  Leaves-raise a b js (returned x) h l = (omega (arith, h, l.0), l.1)

  -- A run of a claimed job leaves less than there was before the claim.
  pub run_one-Leaves :
      (handler : JobRow → List JobRow → Handled) (clock n k : ℕ) (js rows : List JobRow)
      → IsHandler handler
      → Claims js rows (some k)
      → pending_weight js ≤ n
      → Leaves n
          (run_one settings ver hooked handler clock k rows).jobs
          (run_one settings ver hooked handler clock k rows).result
  unfolding run_one
  run_one-Leaves handler clock n k js rows good (row, found, weighs, u) below =
      rw (found, run_one)
        (Leaves-raise (suc (pending_weight (handler row rows).jobs)) n
          (finish settings ver hooked clock row (handler row rows).outcome
            (handler row rows).jobs).jobs
          (finish settings ver hooked clock row (handler row rows).outcome
            (handler row rows).jobs).result
          (omega (arith, good.bounded row rows, weighs, below))
          (finish-Leaves clock row (handler row rows).outcome (handler row rows).jobs
            (good.numbered row rows u)))

-- An enqueue of one job adds no more than its weight.
pub enqueue-pending_weight :
    (now : ℕ) (target : Text) (t : JobType) (js : List JobRow)
    → pending_weight (enqueue_derive_jobs now target (t ∷ []) js) ≤ pending_weight js + weight t
unfolding enqueue_derive_jobs pending_weight
enqueue-pending_weight now target t js = elim (Bool-cases (any (holds_key t target []) js)) [
  | inl held ↦ rw (insert_job-held now target t js held) (omega arith)
  | inr free ↦
      rw (insert_job-free now target t js free) (appended js (new_job (next_id js) t target now))
]
  where
    appended :
        (js : List JobRow) (w : JobRow)
        → pending_weight (js ++ w ∷ []) ≤ pending_weight js + weight w.type
    appended [] w = ground arith
    appended (j ∷ js) w = ground (arith, appended js w)
