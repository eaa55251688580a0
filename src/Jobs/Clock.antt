-- ===== src/Jobs/Clock.antt =====
-- The clock of jobs.py: `now()` ratchets the epoch of the monotonic clock forward.
use Prim.Native.Nat.{max}
use lode.Prelude.{
  ℕ, ◌+◌, ◌-◌, ◌≤◌, ◌≡◌, List, [], ◌∷◌, Option, none, some, ltb, if◌then◌else◌, arith, refl, subst,
}

-- One reading of the two clocks of the system: `time.monotonic()` and `datetime.now(UTC)`, the
-- latter as microseconds after `datetime.min`.
pub record Reading : Type 0 where
  pub monotonic : ℕ
  pub wall : ℕ

-- The new epoch and the time returned; `none` is Python's `OverflowError` on a date before year 1.
unfoldable pub now : ℕ → Reading → Option (ℕ × ℕ)
now epoch r =
    if ltb r.wall r.monotonic
    then none
    else let epoch' = max epoch (r.wall - r.monotonic) in some (epoch', epoch' + r.monotonic)

-- The readings of a process, one after the other.
abbrev pub readings : ℕ → List Reading → Option (List ℕ)
readings epoch [] = some []
readings epoch (r ∷ rs) = elim (now epoch r) [
  | none ↦ none
  | some (epoch', t) ↦ elim (readings epoch' rs) [ none ↦ none | some ts ↦ some (t ∷ ts) ]
]

-- `time.monotonic()` never goes back, and is not greater than the age of `datetime.min`.
abbrev pub IsMonotonic : ℕ → List Reading → Type 0
IsMonotonic m [] = Unit
IsMonotonic m (r ∷ rs) = (m ≤ r.monotonic) × (r.monotonic ≤ r.wall) × IsMonotonic r.monotonic rs

-- The times never go back, from `low` on, and none is behind the wall clock of its reading.
abbrev pub IsAhead : ℕ → List Reading → List ℕ → Type 0
IsAhead low [] [] = Unit
IsAhead low (r ∷ rs) (t ∷ ts) = (low ≤ t) × (r.wall ≤ t) × IsAhead t rs ts
IsAhead low _ _ = ⊥

now_lem :
    (epoch m : ℕ) (r : Reading)
    → m ≤ r.monotonic
    → r.monotonic ≤ r.wall
    → (e t : ℕ) × (now epoch r ≡ some (e, t))
      × (epoch + m ≤ t)
      × (r.wall ≤ t)
      × (e + r.monotonic ≡ t)
unfolding now
now_lem epoch m r h k =
    let e = max epoch (r.wall - r.monotonic) in
    (e, e + r.monotonic, ground arith, omega arith, omega arith, refl)

readings-cons :
    (epoch e : ℕ) (r : Reading) (rs : List Reading) (t : ℕ) (ts : List ℕ)
    → now epoch r ≡ some (e, t)
    → readings e rs ≡ some ts
    → readings epoch (r ∷ rs) ≡ some (t ∷ ts)
readings-cons epoch e r rs t ts now_e read = rw (now_e, readings) (rw read refl)

-- However the wall clock is set back or forward between two readings, the times that a process
-- reads never go back, and none is behind the wall clock at its reading.
pub readings_lem :
    (epoch m : ℕ) (rs : List Reading)
    → IsMonotonic m rs
    → (ts : List ℕ) × (readings epoch rs ≡ some ts) × IsAhead (epoch + m) rs ts
readings_lem epoch m [] h = ([], refl, tt)
readings_lem epoch m (r ∷ rs) (h, k, mono) =
    let (e, t, now_e, low, ahead, sum) = now_lem epoch m r h k in
    let (ts, read, rest) = readings_lem e r.monotonic rs mono in
    (
      t ∷ ts,
      readings-cons epoch e r rs t ts now_e read,
      (low, ahead, subst (λ x. IsAhead x rs ts) sum rest),
    )
