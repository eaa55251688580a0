-- ===== src/Jobs/Live.antt =====
-- The partial unique index `idx_jobs_live` of schema.sql.
use lode.Prelude.{
  ℕ, Text, ◌≡◌, refl, sym, ap, ◌∙◌, Bool, true, false, List, [], ◌∷◌, ◌++◌, ◌↔◌, str_eq, str_eq_iff,
  ◌&&◌, any, arith, Bool-cases, inl, inr,
}
use lode.Jobs.{
  JobType, JobRow, is_live, type_eq, coalesce, holds_key, new_job, next_id, insert_job,
  update_where,
}

abbrev pub holder : JobRow → JobRow → Bool
holder j = holds_key j.type j.target_version (coalesce j.prompt_ver)

abbrev pub IsLiveKeyed : List JobRow → Type 0
IsLiveKeyed [] = Unit
IsLiveKeyed (j ∷ js) = (is_live j.status ≡ true → any (holder j) js ≡ false) × IsLiveKeyed js

-- A change of a row that makes no job live, and keeps the key of a live one.
pub record IsQuiet (test : JobRow → Bool) (set : JobRow → JobRow) : Type 0 where
  pub not_revived :
      (j : JobRow) → test j ≡ true → is_live (set j).status ≡ true → is_live j.status ≡ true
  pub same_type : (j : JobRow) → (set j).type ≡ j.type
  pub same_target : (j : JobRow) → (set j).target_version ≡ j.target_version
  pub same_prompt :
      (j : JobRow)
      → is_live (set j).status ≡ true
      → coalesce (set j).prompt_ver ≡ coalesce j.prompt_ver

pub record Holds (t : JobType) (v p : Text) (j : JobRow) : Type 0 where
  pub live : is_live j.status ≡ true
  pub of_type : type_eq j.type t ≡ true
  pub of_target : str_eq j.target_version v ≡ true
  pub of_prompt : str_eq (coalesce j.prompt_ver) p ≡ true

&&_parts : (a b : Bool) → (a && b) ≡ true → (a ≡ true) × (b ≡ true)
&&_parts a b h = ground arith

pub Holds-of : (t : JobType) (v p : Text) (j : JobRow) → holds_key t v p j ≡ true → Holds t v p j
unfolding holds_key
Holds-of t v p j h =
    let (a, r) = &&_parts (is_live j.status) _ h in
    let (b, r') = &&_parts (type_eq j.type t) _ r in
    let (c, d) = &&_parts (str_eq j.target_version v) _ r' in
    record { live = a; of_type = b; of_target = c; of_prompt = d }

pub holds_key-of :
    (t : JobType) (v p : Text) (j : JobRow) → Holds t v p j → holds_key t v p j ≡ true
unfolding holds_key
holds_key-of t v p j h = rw (h.live, h.of_type, h.of_target, h.of_prompt)

-- Then a key that is held after the change was held before it.
holds_key-quiet :
    (test : JobRow → Bool) (set : JobRow → JobRow) (t : JobType) (v p : Text) (j : JobRow)
    → IsQuiet test set
    → test j ≡ true
    → holds_key t v p (set j) ≡ true
    → holds_key t v p j ≡ true
holds_key-quiet test set t v p j q hit h =
    let held = Holds-of t v p (set j) h in
    holds_key-of t v p j (record {
      live = q.not_revived j hit held.live;
      of_type = ap (λ a. type_eq a t) (sym (q.same_type j)) ∙ held.of_type;
      of_target = ap (λ a. str_eq a v) (sym (q.same_target j)) ∙ held.of_target;
      of_prompt = ap (λ a. str_eq a p) (sym (q.same_prompt j held.live)) ∙ held.of_prompt;
    })

any-update_where :
    (test : JobRow → Bool) (set : JobRow → JobRow) (t : JobType) (v p : Text) (js : List JobRow)
    → IsQuiet test set
    → any (holds_key t v p) js ≡ false
    → any (holds_key t v p) (update_where test set js).0 ≡ false
unfolding any update_where
any-update_where test set t v p [] q free = refl
any-update_where test set t v p (j ∷ js) q free =
    ground (arith, any-update_where test set t v p js q, holds_key-quiet test set t v p j q)

-- The key of a live row that has been changed is the key that it had.
holder-quiet :
    (test : JobRow → Bool) (set : JobRow → JobRow) (j : JobRow)
    → IsQuiet test set
    → is_live (set j).status ≡ true
    → holder (set j) ≡ holder j
holder-quiet test set j q live = cc (q.same_type j, q.same_target j, q.same_prompt j live)

pub update_where-IsLiveKeyed :
    (test : JobRow → Bool) (set : JobRow → JobRow) (js : List JobRow)
    → IsQuiet test set
    → IsLiveKeyed js
    → IsLiveKeyed (update_where test set js).0
unfolding update_where
update_where-IsLiveKeyed test set [] q u = tt
update_where-IsLiveKeyed test set (j ∷ js) q u = elim (Bool-cases (test j)) [
  | inr miss ↦ rw miss (
    λ live. any-update_where test set _ _ _ js q (u.0 live),
    update_where-IsLiveKeyed test set js q u.1,
  )
  | inl hit ↦ rw hit (
    λ live.
        rw (holder-quiet test set j q live)
          (any-update_where test set _ _ _ js q (u.0 (q.not_revived j hit live))),
    update_where-IsLiveKeyed test set js q u.1,
  )
]

-- Equal keys are held by the same rows, so a live row holds the keys of all who hold its key.
pub type_eq_iff : (a b : JobType) → (type_eq a b ≡ true) ↔ (a ≡ b)
type_eq_iff a b = ground arith

holds_key_swap : (j w : JobRow) → is_live j.status ≡ true → holder j w ≡ true → holder w j ≡ true
holds_key_swap j w live h =
    let held = Holds-of j.type j.target_version (coalesce j.prompt_ver) w h in
    holds_key-of w.type w.target_version (coalesce w.prompt_ver) j (record {
      live = live;
      of_type = (type_eq_iff j.type w.type).1 (sym ((type_eq_iff w.type j.type).0 held.of_type));
      of_target =
          (str_eq_iff j.target_version w.target_version).1
            (sym ((str_eq_iff w.target_version j.target_version).0 held.of_target));
      of_prompt =
          (str_eq_iff (coalesce j.prompt_ver) (coalesce w.prompt_ver)).1
            (sym ((str_eq_iff (coalesce w.prompt_ver) (coalesce j.prompt_ver)).0 held.of_prompt));
    })

any-append_one :
    {A : Type 0} (p : A → Bool) (xs : List A) (x : A)
    → any p xs ≡ false
    → p x ≡ false
    → any p (xs ++ x ∷ []) ≡ false
unfolding any
any-append_one p [] x h k = ground arith
any-append_one p (y ∷ xs) x h k = ground (arith, any-append_one p xs x)

append-IsLiveKeyed :
    (js : List JobRow) (w : JobRow)
    → any (holder w) js ≡ false
    → IsLiveKeyed js
    → IsLiveKeyed (js ++ w ∷ [])
unfolding any
append-IsLiveKeyed [] w free u = (λ live. refl, tt)
append-IsLiveKeyed (j ∷ js) w free u = (
  λ live. any-append_one (holder j) js w (u.0 live) (ground (arith, holds_key_swap j w live)),
  append-IsLiveKeyed js w (ground arith) u.1,
)

pub insert_job-held :
    (now : ℕ) (v : Text) (t : JobType) (js : List JobRow)
    → any (holds_key t v []) js ≡ true
    → insert_job now v js t ≡ js
unfolding insert_job
insert_job-held now v t js held = rw held

pub insert_job-free :
    (now : ℕ) (v : Text) (t : JobType) (js : List JobRow)
    → any (holds_key t v []) js ≡ false
    → insert_job now v js t ≡ js ++ new_job (next_id js) t v now ∷ []
unfolding insert_job
insert_job-free now v t js free = rw free

pub insert_job-IsLiveKeyed :
    (now : ℕ) (v : Text) (t : JobType) (js : List JobRow)
    → IsLiveKeyed js
    → IsLiveKeyed (insert_job now v js t)
insert_job-IsLiveKeyed now v t js u = elim (Bool-cases (any (holds_key t v []) js)) [
  | inl held ↦ rw (insert_job-held now v t js held) u
  | inr free ↦
      rw (insert_job-free now v t js free)
        (append-IsLiveKeyed js (new_job (next_id js) t v now) free u)
]
