-- ===== src/Worker/Claiming.antt =====
-- `_claim_one` of worker.py: which job a claim takes, and what it leaves of the table.
use lode.Prelude.{
  ℕ, Text, ◌≡◌, ◌≢◌, refl, sym, ap, ◌∙◌, Bool, true, false, List, [], ◌∷◌, Option, none, some, ◌==◌,
  if◌then◌else◌, All, arith, Bool-cases, Option-cases, inl, inr, ◌⊎◌, subst,
}
use lode.Jobs.{JobType, JobRow, find_job, update_where}
use lode.Jobs.Table.{
  IsNumbered, find_job-update_where, updated, find_job_id, Picks, count-update_where,
}
use lode.Worker.{
  select, is_ready, before, first_of_order, is_pending, is_pending_id, to_running, claim_one,
}
use lode.Worker.Ready.{
  NotBefore, IsReady, PassedOver, is_ready-IsReady, All-PassedOver, None-IsReady,
}

before_self : (j : JobRow) → before j j ≡ true
before_self j = ground arith

before_trans : (a b c : JobRow) → before a b ≡ true → before b c ≡ true → before a c ≡ true
before_trans a b c h k = ground arith

before_total : (a b : JobRow) → before a b ≡ false → before b a ≡ true
before_total a b h = ground arith

All-NotBefore :
    (test : JobRow → Bool) (a b : JobRow) (js : List JobRow)
    → before a b ≡ true
    → All (NotBefore test b) js
    → All (NotBefore test a) js
All-NotBefore test a b [] h k = tt
All-NotBefore test a b (j ∷ js) h (k, ks) = (
  elim k [ inl skipped ↦ inl skipped | inr b-j ↦ inr (before_trans a b j h b-j) ],
  All-NotBefore test a b js h ks,
)

-- What `first_of_order` finds among the selected rows.
abbrev Best : (JobRow → Bool) → List JobRow → Option JobRow → Type 0
Best test js none = All (λ w. test w ≡ false) js
Best test js (some j) = (test j ≡ true) × (find_job j.id js ≡ some j) × All (NotBefore test j) js

-- A row behind a new first row keeps its place.
find_job-behind :
    (j w : JobRow) (js : List JobRow)
    → find_job j.id js ≡ none
    → find_job w.id js ≡ some w
    → find_job w.id (j ∷ js) ≡ some w
unfolding find_job
find_job-behind j w js fresh found = elim (Bool-cases (j.id == w.id)) [
  | inl same ↦
      let e : j.id ≡ w.id = ground arith in
      let clash : none ≡ some w = sym fresh ∙ ap (λ i. find_job i js) e ∙ found in absurd (cc clash)
  | inr other ↦ rw other found
]

find_job-front : (j : JobRow) (js : List JobRow) → find_job j.id (j ∷ js) ≡ some j
unfolding find_job
find_job-front j js = ground arith

Best-skip :
    (test : JobRow → Bool) (j : JobRow) (js : List JobRow) (o : Option JobRow)
    → find_job j.id js ≡ none
    → test j ≡ false
    → Best test js o
    → Best test (j ∷ js) o
Best-skip test j js none fresh misses b = (misses, b)
Best-skip test j js (some w) fresh misses (hit, found, rest) =
    (hit, find_job-behind j w js fresh found, (inl misses, rest))

abbrev better : JobRow → Option JobRow → Option JobRow
better j none = some j
better j (some best) = if before j best then some j else some best

NotBefore-none :
    (test : JobRow → Bool) (j : JobRow) (js : List JobRow)
    → All (λ w. test w ≡ false) js
    → All (NotBefore test j) js
NotBefore-none test j [] h = tt
NotBefore-none test j (w ∷ js) (h, hs) = (inl h, NotBefore-none test j js hs)

Best-take :
    (test : JobRow → Bool) (j : JobRow) (js : List JobRow) (o : Option JobRow)
    → find_job j.id js ≡ none
    → test j ≡ true
    → Best test js o
    → Best test (j ∷ js) (better j o)
Best-take test j js none fresh hits b =
    (hits, find_job-front j js, (inr (before_self j), NotBefore-none test j js b))
Best-take test j js (some w) fresh hits (hit, found, rest) = elim (Bool-cases (before j w)) [
  | inl first ↦
      rw first
        (hits, find_job-front j js, (inr (before_self j), All-NotBefore test j w js first rest))
  | inr second ↦
      rw second (hit, find_job-behind j w js fresh found, (inr (before_total j w second), rest))
]

first_of_order_lem :
    (test : JobRow → Bool) (js : List JobRow)
    → IsNumbered js
    → Best test js (first_of_order (select test js))
unfolding first_of_order select
first_of_order_lem test [] u = tt
first_of_order_lem test (j ∷ js) (fresh, u) =
    let best = first_of_order (select test js) in
    let b = first_of_order_lem test js u in
    elim (Bool-cases (test j)) [
      | inl hits ↦
          rw hits
            (subst (Best test (j ∷ js)) (better_lem j best) (Best-take test j js best fresh hits b))
      | inr misses ↦ rw misses (Best-skip test j js best fresh misses b)
    ]
  where
    better_lem :
        (j : JobRow) (o : Option JobRow)
        → better j o
          ≡ elim o [ none ↦ some j | some best ↦ if before j best then some j else some best ]
    better_lem j none = refl
    better_lem j (some best) = refl

is_pending_id-Picks : (k : ℕ) → Picks (is_pending_id k) k
is_pending_id-Picks k j hit = ground arith

-- The update of a claim, on the table where its row is pending.
module _ (now : ℕ) (j : JobRow) (js : List JobRow) (u : IsNumbered js)
    (found : find_job j.id js ≡ some j) (waits : is_pending j.status ≡ true) where
  claim_count : (update_where (is_pending_id j.id) (to_running now) js).1 ≡ 1
  claim_count =
      count-update_where (is_pending_id j.id) (to_running now) j.id js (is_pending_id-Picks j.id) u
      ∙ rw found (ground arith)

  claim_row :
      find_job j.id (update_where (is_pending_id j.id) (to_running now) js).0
      ≡ some (to_running now j)
  claim_row =
      find_job-update_where (is_pending_id j.id) (to_running now) j.id js (λ w. refl)
      ∙ rw found (ground arith)

  claim_other :
      (i : ℕ)
      → i ≢ j.id
      → find_job i (update_where (is_pending_id j.id) (to_running now) js).0 ≡ find_job i js
  claim_other i ne =
      find_job-update_where (is_pending_id j.id) (to_running now) i js (λ w. refl)
      ∙ same (find_job i js) (find_job_id i js)
    where
      same :
          (o : Option JobRow)
          → ((w : JobRow) → o ≡ some w → w.id ≡ i)
          → updated (is_pending_id j.id) (to_running now) o ≡ o
      same none ids = refl
      same (some w) ids = ground (arith, ids w refl)

-- A claim and the row that it takes.
pub record Takes (types : List JobType) (now : ℕ) (target : Option Text) (js : List JobRow)
    (j : JobRow) : Type 0 where
  pub found : find_job j.id js ≡ some j
  pub ready : IsReady types now target j
  pub first : All (PassedOver types now target j) js
  pub claimed : (claim_one types now target js).0 ≡ some j.id
  pub runs : find_job j.id (claim_one types now target js).1 ≡ some (to_running now j)
  pub others : (i : ℕ) → i ≢ j.id → find_job i (claim_one types now target js).1 ≡ find_job i js

none_ready :
    (now : ℕ) (target : Option Text) (js : List JobRow)
    → All (λ w. is_ready [] now target w ≡ false) js
unfolding is_ready
none_ready now target [] = tt
none_ready now target (j ∷ js) = (ground arith, none_ready now target js)

-- A claim takes a job exactly when one is pending, due, of an allowed type and for the version asked
-- for: the first of those by type priority and then by id. That job alone is changed, to running
-- with the time of the claim; with no such job the table stays as it is.
pub claim_one_lem :
    (types : List JobType) (now : ℕ) (target : Option Text) (js : List JobRow)
    → IsNumbered js
    → ((j : JobRow) × Takes types now target js j)
      ⊎ (All (λ w. ¬ IsReady types now target w) js × (claim_one types now target js ≡ (none, js)))
unfolding claim_one
claim_one_lem [] now target js u =
    inr (None-IsReady [] now target js (none_ready now target js), refl)
claim_one_lem (t ∷ types) now target js u =
    elim (Option-cases (first_of_order (select (is_ready (t ∷ types) now target) js))) [
      | inl nothing ↦
          let b =
            subst (Best (is_ready (t ∷ types) now target) js) nothing
              (first_of_order_lem (is_ready (t ∷ types) now target) js u) in
          inr (None-IsReady (t ∷ types) now target js b, rw (nothing, claim_one) refl)
      | inr (j, best) ↦
          let (ready, found, first) =
            subst (Best (is_ready (t ∷ types) now target) js) best
              (first_of_order_lem (is_ready (t ∷ types) now target) js u) in
          let waits : is_pending j.status ≡ true = unfold is_ready in ground arith in
          inl (
            j,
            record {
              found = found;
              ready = is_ready-IsReady (t ∷ types) now target j ready;
              first = All-PassedOver (t ∷ types) now target j js first;
              claimed = rw (best, claim_one) (rw (claim_count now j js u found waits) refl);
              runs = rw (best, claim_one) (claim_row now j js u found waits);
              others = λ i ne. rw (best, claim_one) (claim_other now j js u found waits i ne);
            },
          )
    ]
