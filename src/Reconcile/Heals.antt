-- ===== src/Reconcile/Heals.antt =====
-- What the scan of reconcile.py leaves in the job table for the heads that it looks at.
use lode.Prelude.{
  ℕ, suc, Text, Bool, true, List, [], ◌∷◌, some, ◌≡◌, inl, inr, refl, sym, ap, ◌∙◌, subst, str_eq,
  str_eq_iff, not, ◌&&◌, any, keep, any-imply, arith, Bool-cases,
}
use lode.Schema.{NoteRow, ExternalRow, SnapshotRow}
use lode.Jobs.{JobType, JobRow, is_live, holds_key, enqueue_derive_jobs}
use lode.Jobs.Grow.{is_job_for, enqueue-grows}
use lode.Jobs.Live.{Holds-of}
use lode.Jobs.Queue.{enqueue-HasLive}
use lode.Versions.Sql.{find_note}
use lode.Externals.{find_external}
use lode.Reconcile.{
  is_dead, note_heads, passes_snapshot, snapshot_of, external_heads, distinct, has_job_not_dead,
  has_live_job, enqueue_each,
}

-- Membership of an id.
abbrev pub has : Text → List Text → Bool
has i xs = any (str_eq i) xs

pub any-keep :
    (i : Text) (p : Text → Bool) (xs : List Text)
    → p i ≡ true
    → has i xs ≡ true
    → has i (keep p xs) ≡ true
unfolding any keep
any-keep i p [] pass h = h
any-keep i p (x ∷ xs) pass h = elim (Bool-cases (str_eq i x)) [
  | inl same ↦
      let e : p x ≡ true = ap p (sym ((str_eq_iff i x).0 same)) ∙ pass in rw (e, keep, same) refl
  | inr other ↦ elim (Bool-cases (p x)) [
    | inl hit ↦ rw (hit, keep, other) (any-keep i p xs pass (rw other at h))
    | inr miss ↦ rw (miss, keep) (any-keep i p xs pass (rw other at h))
  ]
]

pub any-distinct : (i : Text) (xs : List Text) → has i xs ≡ true → has i (distinct xs) ≡ true
unfolding any distinct
any-distinct i [] h = h
any-distinct i (x ∷ xs) h = elim (Bool-cases (str_eq i x)) [
  | inl same ↦ rw same refl
  | inr other ↦ rw other (
      any-keep i (λ j. not (str_eq x j)) (distinct xs)
        (ground (arith, str_eq_iff i x, str_eq_iff x i)) (any-distinct i xs (rw other at h)))
]

pub note_heads-has :
    (test : NoteRow → Bool) (k : Text) (ns : List NoteRow) (n : NoteRow)
    → find_note k ns ≡ some n
    → test n ≡ true
    → has n.head_version_id (note_heads test ns) ≡ true
unfolding find_note note_heads any
note_heads-has test k [] n found pass = absurd (cc found)
note_heads-has test k (m ∷ ns) n found pass =
    ground (arith, note_heads-has test k ns n, str_eq_iff n.head_version_id n.head_version_id)

pub external_heads-has :
    (column : ExternalRow → Text) (test : SnapshotRow → Bool) (ss : List SnapshotRow) (k : Text)
    (es : List ExternalRow) (e : ExternalRow)
    → find_external k es ≡ some e
    → passes_snapshot test (snapshot_of ss e.head_snapshot_id) ≡ true
    → has (column e) (external_heads column test ss es) ≡ true
unfolding find_external external_heads any
external_heads-has column test ss k [] e found pass = absurd (cc found)
external_heads-has column test ss k (x ∷ es) e found pass =
    elim (Bool-cases (str_eq x.external_id k)) [
      | inl same ↦
          let eq : x ≡ e = ground (arith, same, found) in
          subst (λ y. has (column e) (external_heads column test ss (y ∷ es)) ≡ true) (sym eq)
            (rw pass (ground (arith, str_eq_iff (column e) (column e))))
      | inr other ↦
          ground
            (arith, external_heads-has column test ss k es e (ground (arith, other, found)) pass)
    ]

-- Enqueues for a list of targets: what the table shows stays, and each target has a live job.
pub enqueue_each-grows :
    (p : JobRow → Bool) (clock : ℕ → ℕ) (k : ℕ) (t : JobType) (is : List Text) (js : List JobRow)
    → any p js ≡ true
    → any p (enqueue_each clock k t is js) ≡ true
unfolding enqueue_each
enqueue_each-grows p clock k t [] js there = there
enqueue_each-grows p clock k t (i ∷ is) js there =
    enqueue_each-grows p clock (suc k) t is (enqueue_derive_jobs (clock k) i (t ∷ []) js)
      (enqueue-grows p (clock k) i (t ∷ []) js there)

holds_key-live :
    (t : JobType) (v p : Text) (j : JobRow)
    → holds_key t v p j ≡ true
    → (is_job_for t v j && is_live j.status) ≡ true
unfolding is_job_for
holds_key-live t v p j h =
    let held = Holds-of t v p j h in rw (held.of_type, held.of_target, held.live) refl

enqueue-has_live_job :
    (now : ℕ) (v : Text) (t : JobType) (js : List JobRow)
    → has_live_job t (enqueue_derive_jobs now v (t ∷ []) js) v ≡ true
unfolding has_live_job
enqueue-has_live_job now v t js =
    any-imply (holds_key t v []) (λ j. is_job_for t v j && is_live j.status)
      (enqueue_derive_jobs now v (t ∷ []) js) (holds_key-live t v [])
      (enqueue-HasLive now v (t ∷ []) js).0

pub enqueue_each-has_live_job :
    (clock : ℕ → ℕ) (k : ℕ) (t : JobType) (i : Text) (is : List Text) (js : List JobRow)
    → has i is ≡ true
    → has_live_job t (enqueue_each clock k t is js) i ≡ true
unfolding enqueue_each any
enqueue_each-has_live_job clock k t i [] js h = absurd (cc h)
enqueue_each-has_live_job clock k t i (x ∷ is) js h = elim (Bool-cases (str_eq i x)) [
  | inl same ↦
      subst
        (λ y.
          has_live_job t
            (enqueue_each clock (suc k) t is (enqueue_derive_jobs (clock k) x (t ∷ []) js)) y
          ≡ true)
        (sym ((str_eq_iff i x).0 same))
        (unfold has_live_job in
          enqueue_each-grows (λ j. is_job_for t x j && is_live j.status) clock (suc k) t is
            (enqueue_derive_jobs (clock k) x (t ∷ []) js) (enqueue-has_live_job (clock k) x t js))
  | inr other ↦
      enqueue_each-has_live_job clock (suc k) t i is (enqueue_derive_jobs (clock k) x (t ∷ []) js)
        (rw other at h)
]

live_not_dead :
    (t : JobType) (i : Text) (j : JobRow)
    → (is_job_for t i j && is_live j.status) ≡ true
    → (is_job_for t i j && not (is_dead j.status)) ≡ true
live_not_dead t i j h = ground arith

pub has_live_job-not_dead :
    (t : JobType) (js : List JobRow) (i : Text)
    → has_live_job t js i ≡ true
    → has_job_not_dead t js i ≡ true
unfolding has_live_job has_job_not_dead
has_live_job-not_dead t js i h =
    any-imply (λ j. is_job_for t i j && is_live j.status)
      (λ j. is_job_for t i j && not (is_dead j.status)) js (live_not_dead t i) h
