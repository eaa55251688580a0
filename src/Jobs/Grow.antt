-- ===== src/Jobs/Grow.antt =====
-- The enqueue of jobs.py only adds rows: what some row of the table shows, some row goes on to show.
use lode.Prelude.{
  any-append, any-imply, ℕ, Text, ◌≡◌, refl, Bool, true, List, [], ◌∷◌, str_eq, ◌&&◌, any, arith,
  Bool-cases, inl, inr,
}
use lode.Jobs.{
  JobType, JobRow, type_eq, holds_key, new_job, next_id, insert_job, enqueue_derive_jobs,
}
use lode.Jobs.Live.{insert_job-held, insert_job-free, Holds-of}
use lode.Jobs.Queue.{enqueue-HasLive}

-- A row of the type for the target, in any status.
unfoldable pub is_job_for : JobType → Text → JobRow → Bool
is_job_for t target j = type_eq j.type t && str_eq j.target_version target

insert_job-grows :
    (p : JobRow → Bool) (now : ℕ) (v : Text) (t : JobType) (js : List JobRow)
    → any p js ≡ true
    → any p (insert_job now v js t) ≡ true
insert_job-grows p now v t js there = elim (Bool-cases (any (holds_key t v []) js)) [
  | inl held ↦ rw (insert_job-held now v t js held) there
  | inr free ↦
      rw (insert_job-free now v t js free)
        (ground (arith, any-append p js (new_job (next_id js) t v now ∷ [])))
]

pub enqueue-grows :
    (p : JobRow → Bool) (now : ℕ) (v : Text) (types : List JobType) (js : List JobRow)
    → any p js ≡ true
    → any p (enqueue_derive_jobs now v types js) ≡ true
unfolding enqueue_derive_jobs
enqueue-grows p now v [] js there = there
enqueue-grows p now v (t ∷ types) js there =
    enqueue-grows p now v types (insert_job now v js t) (insert_job-grows p now v t js there)

holds_key-is_job_for :
    (t : JobType) (v p : Text) (j : JobRow) → holds_key t v p j ≡ true → is_job_for t v j ≡ true
unfolding is_job_for
holds_key-is_job_for t v p j h =
    let held = Holds-of t v p j h in rw (held.of_type, held.of_target) refl

-- After an enqueue of one type there is a job of it for the version.
pub enqueue-is_job_for :
    (now : ℕ) (v : Text) (t : JobType) (js : List JobRow)
    → any (is_job_for t v) (enqueue_derive_jobs now v (t ∷ []) js) ≡ true
enqueue-is_job_for now v t js =
    any-imply (holds_key t v []) (is_job_for t v) (enqueue_derive_jobs now v (t ∷ []) js)
      (holds_key-is_job_for t v []) (enqueue-HasLive now v (t ∷ []) js).0
