-- ===== src/Jobs/Table.antt =====
-- Updates of the job table that keep the ids of its rows.
use lode.Prelude.{
  ℕ, ◌≤◌, ◌≡◌, ◌≢◌, refl, ◌∙◌, Bool, true, false, List, [], ◌∷◌, ◌++◌, Option, none, some,
  if◌then◌else◌, arith,
}
use lode.Jobs.{JobRow, update_where, next_id, find_job}

-- `id` is a primary key.
abbrev pub IsNumbered : List JobRow → Type 0
IsNumbered [] = Unit
IsNumbered (j ∷ js) = (find_job j.id js ≡ none) × IsNumbered js

abbrev pub KeepsId : (JobRow → JobRow) → Type 0
KeepsId set = (j : JobRow) → (set j).id ≡ j.id

abbrev pub updated : (JobRow → Bool) → (JobRow → JobRow) → Option JobRow → Option JobRow
updated test set none = none
updated test set (some j) = if test j then some (set j) else some j

pub find_job_id : (k : ℕ) (js : List JobRow) (j : JobRow) → find_job k js ≡ some j → j.id ≡ k
unfolding find_job
find_job_id k [] j h = cc
find_job_id k (i ∷ js) j h = ground (arith, find_job_id k js j)

pub find_job-update_where :
    (test : JobRow → Bool) (set : JobRow → JobRow) (k : ℕ) (js : List JobRow)
    → KeepsId set
    → find_job k (update_where test set js).0 ≡ updated test set (find_job k js)
unfolding find_job update_where
find_job-update_where test set k [] same = refl
find_job-update_where test set k (j ∷ js) same =
    ground (arith, find_job-update_where test set k js same, same j)

pub update_where-IsNumbered :
    (test : JobRow → Bool) (set : JobRow → JobRow) (js : List JobRow)
    → KeepsId set
    → IsNumbered js
    → IsNumbered (update_where test set js).0
unfolding update_where
update_where-IsNumbered test set [] same u = tt
update_where-IsNumbered test set (j ∷ js) same u = ground (
  arith,
  update_where-IsNumbered test set js same u.1,
  find_job-update_where test set j.id js same,
  same j,
)

-- A test that only the row with one id can pass changes at most one row, and says so.
abbrev pub Picks : (JobRow → Bool) → ℕ → Type 0
Picks test k = (j : JobRow) → test j ≡ true → j.id ≡ k

pub update_where-absent :
    (test : JobRow → Bool) (set : JobRow → JobRow) (k : ℕ) (js : List JobRow)
    → Picks test k
    → find_job k js ≡ none
    → update_where test set js ≡ (js, 0)
unfolding find_job update_where
update_where-absent test set k [] pick absent = refl
update_where-absent test set k (j ∷ js) pick absent =
    ground (arith, update_where-absent test set k js pick, pick j)

abbrev pub passes : (JobRow → Bool) → Option JobRow → Bool
passes test none = false
passes test (some j) = test j

pub count-update_where :
    (test : JobRow → Bool) (set : JobRow → JobRow) (k : ℕ) (js : List JobRow)
    → Picks test k
    → IsNumbered js
    → (update_where test set js).1 ≡ (if passes test (find_job k js) then 1 else 0)
unfolding find_job update_where
count-update_where test set k [] pick u = refl
count-update_where test set k (j ∷ js) pick u = ground (
  arith,
  count-update_where test set k js pick u.1,
  update_where-absent test set k js pick,
  pick j,
)

-- An update that no row passes changes nothing.
pub update_where-miss :
    (test : JobRow → Bool) (set : JobRow → JobRow) (k : ℕ) (js : List JobRow)
    → Picks test k
    → passes test (find_job k js) ≡ false
    → IsNumbered js
    → (update_where test set js).0 ≡ js
unfolding find_job update_where
update_where-miss test set k [] pick miss u = refl
update_where-miss test set k (j ∷ js) pick miss u =
    ground
      (arith, update_where-miss test set k js pick, update_where-absent test set k js pick, pick j)

-- A new id is free, and stays so for the rows above.
next_id-above : (k : ℕ) (js : List JobRow) → next_id js ≤ k → find_job k js ≡ none
unfolding next_id find_job
next_id-above k [] h = refl
next_id-above k (j ∷ js) h = ground (arith, next_id-above k js)

find_job-append :
    (k : ℕ) (js : List JobRow) (w : JobRow) → w.id ≢ k → find_job k (js ++ w ∷ []) ≡ find_job k js
unfolding find_job
find_job-append k [] w ne = ground arith
find_job-append k (j ∷ js) w ne = ground (arith, find_job-append k js w ne)

append_above-IsNumbered :
    (n : ℕ) (js : List JobRow) (w : JobRow)
    → next_id js ≤ w.id
    → IsNumbered js
    → IsNumbered (js ++ w ∷ [])
unfolding next_id
append_above-IsNumbered n [] w h u = (unfold find_job in refl, tt)
append_above-IsNumbered n (j ∷ js) w h u = (
  find_job-append j.id js w (λ e. omega arith) ∙ u.0,
  append_above-IsNumbered n js w (omega arith) u.1,
)

pub append-IsNumbered :
    (js : List JobRow) (w : JobRow) → w.id ≡ next_id js → IsNumbered js → IsNumbered (js ++ w ∷ [])
append-IsNumbered js w e u = append_above-IsNumbered 0 js w (omega arith) u
