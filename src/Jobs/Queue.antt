-- ===== src/Jobs/Queue.antt =====
-- The invariant of the job table, and the enqueue of jobs.py.
use lode.Prelude.{
  any-append, ℕ, ◌≤◌, ◌<◌, Text, ◌≡◌, refl, Bool, true, List, [], ◌∷◌, ◌++◌, str_eq, any, All,
  arith, Bool-cases, none, inl, inr, ◌⊎◌, ◌≢◌, str_eq_refl,
}
use lode.Jobs.{
  JobType, dead, JobRow, is_live, type_eq, holds_key, new_job, next_id, insert_job,
  enqueue_derive_jobs, update_where,
}
use lode.Jobs.Table.{IsNumbered, KeepsId, update_where-IsNumbered, append-IsNumbered}
use lode.Jobs.Live.{
  IsLiveKeyed, IsQuiet, update_where-IsLiveKeyed, insert_job-IsLiveKeyed, insert_job-held,
  insert_job-free,
}

-- A live job has attempts left, and a dead one has none, or is of a batch.
pub record IsCharged (limit : ℕ) (j : JobRow) : Type 0 where
  pub left : is_live j.status ≡ true → j.attempts < limit
  pub spent : j.status ≡ dead → (limit ≤ j.attempts) ⊎ (j.batch_handle ≢ none)

pub record IsQueue (limit : ℕ) (js : List JobRow) : Type 0 where
  pub numbered : IsNumbered js
  pub live_keyed : IsLiveKeyed js
  pub charged : All (IsCharged limit) js

All-update_where :
    {P : JobRow → Type 0} (test : JobRow → Bool) (set : JobRow → JobRow) (js : List JobRow)
    → ((j : JobRow) → test j ≡ true → P j → P (set j))
    → All P js
    → All P (update_where test set js).0
unfolding update_where
All-update_where test set [] keep h = tt
All-update_where test set (j ∷ js) keep h = elim (Bool-cases (test j)) [
  | inr miss ↦ rw miss (h.0, All-update_where test set js keep h.1)
  | inl hit ↦ rw hit (keep j hit h.0, All-update_where test set js keep h.1)
]

pub update_where-IsQueue :
    (limit : ℕ) (test : JobRow → Bool) (set : JobRow → JobRow) (js : List JobRow)
    → KeepsId set
    → IsQuiet test set
    → ((j : JobRow) → test j ≡ true → IsCharged limit j → IsCharged limit (set j))
    → IsQueue limit js
    → IsQueue limit (update_where test set js).0
update_where-IsQueue limit test set js same quiet keep q = record {
  numbered = update_where-IsNumbered test set js same q.numbered;
  live_keyed = update_where-IsLiveKeyed test set js quiet q.live_keyed;
  charged = All-update_where test set js keep q.charged;
}

All-append_one :
    (P : JobRow → Type 0) (js : List JobRow) (w : JobRow) → All P js → P w → All P (js ++ w ∷ [])
All-append_one P [] w h p = (p, tt)
All-append_one P (j ∷ js) w h p = (h.0, All-append_one P js w h.1 p)

insert_job-IsNumbered :
    (now : ℕ) (v : Text) (t : JobType) (js : List JobRow)
    → IsNumbered js
    → IsNumbered (insert_job now v js t)
insert_job-IsNumbered now v t js u = elim (Bool-cases (any (holds_key t v []) js)) [
  | inl held ↦ rw (insert_job-held now v t js held) u
  | inr free ↦
      rw (insert_job-free now v t js free)
        (append-IsNumbered js (new_job (next_id js) t v now) refl u)
]

pub enqueue-IsNumbered :
    (now : ℕ) (v : Text) (types : List JobType) (js : List JobRow)
    → IsNumbered js
    → IsNumbered (enqueue_derive_jobs now v types js)
unfolding enqueue_derive_jobs
enqueue-IsNumbered now v [] js u = u
enqueue-IsNumbered now v (t ∷ types) js u =
    enqueue-IsNumbered now v types (insert_job now v js t) (insert_job-IsNumbered now v t js u)

insert_job-IsQueue :
    (limit now : ℕ) (v : Text) (t : JobType) (js : List JobRow)
    → 0 < limit
    → IsQueue limit js
    → IsQueue limit (insert_job now v js t)
insert_job-IsQueue limit now v t js pos q = record {
  numbered = insert_job-IsNumbered now v t js q.numbered;
  live_keyed = insert_job-IsLiveKeyed now v t js q.live_keyed;
  charged = charged;
}
  where
    charged : All (IsCharged limit) (insert_job now v js t)
    charged = elim (Bool-cases (any (holds_key t v []) js)) [
      | inl held ↦ rw (insert_job-held now v t js held) q.charged
      | inr free ↦ rw (insert_job-free now v t js free) (
          All-append_one (IsCharged limit) js (new_job (next_id js) t v now) q.charged
            (record { left = λ e. pos; spent = λ e. cc e }))
    ]

pub enqueue-IsQueue :
    (limit now : ℕ) (v : Text) (types : List JobType) (js : List JobRow)
    → 0 < limit
    → IsQueue limit js
    → IsQueue limit (enqueue_derive_jobs now v types js)
unfolding enqueue_derive_jobs
enqueue-IsQueue limit now v [] js pos q = q
enqueue-IsQueue limit now v (t ∷ types) js pos q =
    enqueue-IsQueue limit now v types (insert_job now v js t) pos
      (insert_job-IsQueue limit now v t js pos q)

-- There is a live job of the type for the version, with no prompt version.
abbrev pub HasLive : Text → List JobRow → JobType → Type 0
HasLive v js t = any (holds_key t v []) js ≡ true

any-one : (p : JobRow → Bool) (w : JobRow) → any p (w ∷ []) ≡ p w
unfolding any
any-one p w = ground arith

type_eq_refl : (t : JobType) → type_eq t t ≡ true
type_eq_refl t = ground arith

new_job-holds : (n now : ℕ) (t : JobType) (v : Text) → holds_key t v [] (new_job n t v now) ≡ true
unfolding holds_key str_eq
new_job-holds n now t v = rw (type_eq_refl t, str_eq_refl v)

insert_job-HasLive :
    (now : ℕ) (v : Text) (t : JobType) (js : List JobRow) → HasLive v (insert_job now v js t) t
insert_job-HasLive now v t js = elim (Bool-cases (any (holds_key t v []) js)) [
  | inl held ↦ rw (insert_job-held now v t js held) held
  | inr free ↦ rw (insert_job-free now v t js free) (
      ground (
        arith,
        any-append (holds_key t v []) js (new_job (next_id js) t v now ∷ []),
        any-one (holds_key t v []) (new_job (next_id js) t v now),
        new_job-holds (next_id js) now t v,
      ))
]

-- A live job stays through the enqueues of others.
insert_job-keeps :
    (now : ℕ) (v : Text) (t u : JobType) (js : List JobRow)
    → HasLive v js u
    → HasLive v (insert_job now v js t) u
insert_job-keeps now v t u js there = elim (Bool-cases (any (holds_key t v []) js)) [
  | inl held ↦ rw (insert_job-held now v t js held) there
  | inr free ↦
      rw (insert_job-free now v t js free)
        (ground (arith, any-append (holds_key u v []) js (new_job (next_id js) t v now ∷ [])))
]

enqueue-keeps :
    (now : ℕ) (v : Text) (types : List JobType) (u : JobType) (js : List JobRow)
    → HasLive v js u
    → HasLive v (enqueue_derive_jobs now v types js) u
unfolding enqueue_derive_jobs
enqueue-keeps now v [] u js there = there
enqueue-keeps now v (t ∷ types) u js there =
    enqueue-keeps now v types u (insert_job now v js t) (insert_job-keeps now v t u js there)

pub enqueue-HasLive :
    (now : ℕ) (v : Text) (types : List JobType) (js : List JobRow)
    → All (HasLive v (enqueue_derive_jobs now v types js)) types
unfolding enqueue_derive_jobs
enqueue-HasLive now v [] js = tt
enqueue-HasLive now v (t ∷ types) js = (
  enqueue-keeps now v types t (insert_job now v js t) (insert_job-HasLive now v t js),
  enqueue-HasLive now v types (insert_job now v js t),
)

enqueue-held :
    (now : ℕ) (v : Text) (types : List JobType) (js : List JobRow)
    → All (HasLive v js) types
    → enqueue_derive_jobs now v types js ≡ js
unfolding enqueue_derive_jobs
enqueue-held now v [] js held = refl
enqueue-held now v (t ∷ types) js held =
    rw (insert_job-held now v t js held.0) (enqueue-held now v types js held.1)

-- After an enqueue each of its types has a live job for the version, and a second enqueue, at any
-- later time, changes nothing.
pub enqueue_idem :
    (now later : ℕ) (v : Text) (types : List JobType) (js : List JobRow)
    → All (HasLive v (enqueue_derive_jobs now v types js)) types
      × (enqueue_derive_jobs later v types (enqueue_derive_jobs now v types js)
          ≡ enqueue_derive_jobs now v types js)
enqueue_idem now later v types js = (
  enqueue-HasLive now v types js,
  enqueue-held later v types (enqueue_derive_jobs now v types js) (enqueue-HasLive now v types js),
)
