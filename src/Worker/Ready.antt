-- ===== src/Worker/Ready.antt =====
-- The selection of `_claim_one` of worker.py: the query's tests, and what they mean.
use lode.Prelude.{
  any, str_eq_iff, &&-left, &&-right, leb→le, ◌↔◌, ◌||◌, ◌&&◌, ◌≤◌, ◌<◌, leb, ℕ, Text, ◌≡◌, refl,
  sym, ap, ◌∙◌, Bool, true, false, List, [], ◌∷◌, Option, none, some, All, arith, Bool-cases, inl,
  inr, ◌⊎◌,
}
use lode.Jobs.{type_eq, pending, Status, JobType, JobRow}
use lode.Worker.{targets, priority, is_ready, before, is_pending}

-- A row that a claim passes over, by the tests of the query and by what they mean.
abbrev pub NotBefore : (JobRow → Bool) → JobRow → JobRow → Type 0
NotBefore test j w = (test w ≡ false) ⊎ (before j w ≡ true)

abbrev pub TypeIn : JobType → List JobType → Type 0
TypeIn t [] = ⊥
TypeIn t (u ∷ types) = (t ≡ u) ⊎ TypeIn t types

abbrev pub Targets : Option Text → JobRow → Type 0
Targets none j = Unit
Targets (some v) j = j.target_version ≡ v

-- The job waits, is due, and is of a type and for a version that the claim is about.
abbrev pub IsReady : List JobType → ℕ → Option Text → JobRow → Type 0
IsReady types now target j =
    (j.status ≡ pending) × (j.next_attempt_at ≤ now) × TypeIn j.type types × Targets target j

-- The order of claims: by priority, then by id.
abbrev pub IsBefore : JobRow → JobRow → Type 0
IsBefore a b =
    (priority a.type < priority b.type) ⊎ ((priority a.type ≡ priority b.type) × (a.id ≤ b.id))

type_eq-TypeIn : (t u : JobType) → type_eq t u ≡ true → t ≡ u
type_eq-TypeIn t u h = ground arith

type_eq_refl : (t : JobType) → type_eq t t ≡ true
type_eq_refl t = ground arith

any-TypeIn : (t : JobType) (types : List JobType) → any (type_eq t) types ≡ true → TypeIn t types
unfolding any
any-TypeIn t [] h = cc h
any-TypeIn t (u ∷ types) h = elim (Bool-cases (type_eq t u)) [
  | inl same ↦ inl (type_eq-TypeIn t u same)
  | inr other ↦ inr (any-TypeIn t types (sym (ap (λ b. b || any (type_eq t) types) other) ∙ h))
]

TypeIn-any : (t : JobType) (types : List JobType) → TypeIn t types → any (type_eq t) types ≡ true
unfolding any
TypeIn-any t [] h = absurd h
TypeIn-any t (u ∷ types) (inl same) =
    let e : type_eq t u ≡ true = ap (type_eq t) (sym same) ∙ type_eq_refl t in rw (e, any) refl
TypeIn-any t (u ∷ types) (inr later) = elim (Bool-cases (type_eq t u)) [
  | inl same ↦ rw (same, any) refl
  | inr other ↦ rw (other, any) (TypeIn-any t types later)
]

targets-Targets : (target : Option Text) (j : JobRow) → (targets target j ≡ true) ↔ Targets target j
targets-Targets none j = (λ h. tt, λ h. refl)
targets-Targets (some v) j = str_eq_iff j.target_version v

is_pending-eq : (s : Status) → is_pending s ≡ true → s ≡ pending
is_pending-eq s h = ground arith

pub is_ready-IsReady :
    (types : List JobType) (now : ℕ) (target : Option Text) (j : JobRow)
    → is_ready types now target j ≡ true
    → IsReady types now target j
unfolding is_ready
is_ready-IsReady types now target j h =
    let waits = is_pending j.status in
    let due = leb j.next_attempt_at now in
    let allowed = any (type_eq j.type) types in
    let wanted = targets target j in
    let h' = &&-right waits (due && (allowed && wanted)) h in
    let h'' = &&-right due (allowed && wanted) h' in
    (
      is_pending-eq j.status (&&-left waits (due && (allowed && wanted)) h),
      leb→le j.next_attempt_at now (&&-left due (allowed && wanted) h'),
      any-TypeIn j.type types (&&-left allowed wanted h''),
      (targets-Targets target j).0 (&&-right allowed wanted h''),
    )

IsReady-is_ready :
    (types : List JobType) (now : ℕ) (target : Option Text) (j : JobRow)
    → IsReady types now target j
    → is_ready types now target j ≡ true
unfolding is_ready
IsReady-is_ready types now target j (waits, due, allowed, wanted) =
    let a : is_pending j.status ≡ true = ap is_pending waits in
    let b : leb j.next_attempt_at now ≡ true = ground (arith, due) in
    rw (a, b, TypeIn-any j.type types allowed, (targets-Targets target j).1 wanted) refl

not-IsReady :
    (types : List JobType) (now : ℕ) (target : Option Text) (j : JobRow)
    → is_ready types now target j ≡ false
    → ¬ IsReady types now target j
not-IsReady types now target j off ready = cc (off, IsReady-is_ready types now target j ready)

abbrev pub PassedOver : List JobType → ℕ → Option Text → JobRow → JobRow → Type 0
PassedOver types now target j w = (¬ IsReady types now target w) ⊎ IsBefore j w

before-IsBefore : (a b : JobRow) → before a b ≡ true → IsBefore a b
before-IsBefore a b h = ground arith

pub All-PassedOver :
    (types : List JobType) (now : ℕ) (target : Option Text) (j : JobRow) (js : List JobRow)
    → All (NotBefore (is_ready types now target) j) js
    → All (PassedOver types now target j) js
All-PassedOver types now target j [] h = tt
All-PassedOver types now target j (w ∷ js) (h, hs) = (
  elim h [
    | inl off ↦ inl (not-IsReady types now target w off)
    | inr first ↦ inr (before-IsBefore j w first)
  ],
  All-PassedOver types now target j js hs,
)

pub None-IsReady :
    (types : List JobType) (now : ℕ) (target : Option Text) (js : List JobRow)
    → All (λ w. is_ready types now target w ≡ false) js
    → All (λ w. ¬ IsReady types now target w) js
None-IsReady types now target [] h = tt
None-IsReady types now target (w ∷ js) (h, hs) =
    (not-IsReady types now target w h, None-IsReady types now target js hs)
