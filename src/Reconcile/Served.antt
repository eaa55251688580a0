-- ===== src/Reconcile/Served.antt =====
-- What a scan of reconcile.py achieves for the heads of notes and of external sources.
use lode.Prelude.{
  ◌≤◌, suc, Text, Bool, true, false, List, [], ◌∷◌, ◌++◌, Option, none, some, ◌≡◌, ◌≢◌, ◌⊎◌, inl,
  inr, refl, ap, subst, str_eq, str_eq_iff, not, ◌&&◌, ◌||◌, leb, any, any-append, arith,
  Bool-cases, Some,
}
use lode.Schema.{delete, NoteRow, VersionRow, ExternalRow, SnapshotRow, live}
use lode.Jobs.{JobType, embed, enrich, refresh, Status, dead, done, JobRow, is_live}
use lode.Jobs.Grow.{is_job_for}
use lode.Jobs.Live.{type_eq_iff}
use lode.Versions.Sql.{find_note, find_version}
use lode.Externals.{find_external, find_snapshot}
use lode.Store.{Store}
use lode.Reconcile.{
  is_dead, is_done, is_version, has_live_head, has_job_not_dead, has_live_job, has_current_job,
  note_heads, external_heads, head_of_external, id_of_external, head_text, embed_candidates,
  enrich_candidates, refresh_candidates, Scan, reconcile,
}
use lode.Reconcile.Heals.{has, note_heads-has, external_heads-has}
use lode.Reconcile.Steps.{is_enriched, reconcile-embeds, reconcile-enriches, reconcile-refreshes}

any-Some :
    (p : JobRow → Bool) (P : JobRow → Type 0) (js : List JobRow)
    → ((j : JobRow) → p j ≡ true → P j)
    → any p js ≡ true
    → Some P js
unfolding any
any-Some p P [] sound h = cc h
any-Some p P (j ∷ js) sound h = elim (Bool-cases (p j)) [
  | inl hit ↦ inl (sound j hit)
  | inr miss ↦ inr (any-Some p P js sound (rw miss at h))
]

-- A job of the type for the target.
pub record IsJobOf (t : JobType) (target : Text) (j : JobRow) : Type 0 where
  pub of_type : j.type ≡ t
  pub of_target : j.target_version ≡ target

IsJobOf-of : (t : JobType) (i : Text) (j : JobRow) → is_job_for t i j ≡ true → IsJobOf t i j
unfolding is_job_for
IsJobOf-of t i j h = record {
  of_type = ground (arith, h, type_eq_iff j.type t);
  of_target = ground (arith, h, str_eq_iff j.target_version i);
}

-- The vectors of the target are there, or a job will make them: a job of embedding that is not dead.
abbrev pub IsEmbedding : Text → JobRow → Type 0
IsEmbedding i j = IsJobOf embed i j × (j.status ≢ dead)

-- A live job of enrichment, or one that ended well under the prompt.
abbrev pub IsEnrichment : Text → Text → JobRow → Type 0
IsEnrichment prompt i j =
    IsJobOf enrich i j
    × ((is_live j.status ≡ true) ⊎ ((j.status ≡ done) × (j.prompt_ver ≡ some prompt)))

abbrev pub IsRefresh : Text → JobRow → Type 0
IsRefresh i j = IsJobOf refresh i j × (is_live j.status ≡ true)

&&_both : (a b : Bool) → (a && b) ≡ true → (a ≡ true) × (b ≡ true)
&&_both a b h = ground arith

IsEmbedding-of :
    (i : Text) (j : JobRow)
    → (is_job_for embed i j && not (is_dead j.status)) ≡ true
    → IsEmbedding i j
IsEmbedding-of i j h =
    let (of_job, alive) = &&_both (is_job_for embed i j) (not (is_dead j.status)) h in
    (IsJobOf-of embed i j of_job, λ e. absurd (cc (alive, ap is_dead e)))

is_done_iff : (s : Status) → is_done s ≡ true → s ≡ done
is_done_iff s h = ground arith

is_version_iff : (p : Option Text) (prompt : Text) → is_version p prompt ≡ true → p ≡ some prompt
is_version_iff none prompt h = absurd (cc h)
is_version_iff (some q) prompt h = ap some ((str_eq_iff q prompt).0 h)

or_split : (a b : Bool) → (a || b) ≡ true → (a ≡ true) ⊎ (b ≡ true)
or_split true b h = inl refl
or_split false b h = inr h

enriched_live :
    (prompt i : Text) (j : JobRow)
    → (is_job_for enrich i j && is_live j.status) ≡ true
    → IsEnrichment prompt i j
enriched_live prompt i j h =
    let (of_job, alive) = &&_both (is_job_for enrich i j) (is_live j.status) h in
    (IsJobOf-of enrich i j of_job, inl alive)

enriched_done :
    (prompt i : Text) (j : JobRow)
    → (is_job_for enrich i j && (is_done j.status && is_version j.prompt_ver prompt)) ≡ true
    → IsEnrichment prompt i j
enriched_done prompt i j h =
    let (of_job, ended) =
      &&_both (is_job_for enrich i j) (is_done j.status && is_version j.prompt_ver prompt) h in
    let (is_over, current) = &&_both (is_done j.status) (is_version j.prompt_ver prompt) ended in
    (
      IsJobOf-of enrich i j of_job,
      inr (is_done_iff j.status is_over, is_version_iff j.prompt_ver prompt current),
    )

IsEnrichment-of :
    (prompt i : Text) (js : List JobRow)
    → is_enriched prompt js i ≡ true
    → Some (IsEnrichment prompt i) js
unfolding has_live_job has_current_job
IsEnrichment-of prompt i js h =
    elim (or_split (has_live_job enrich js i) (has_current_job prompt js i) h) [
      | inl alive ↦
          any-Some (λ j. is_job_for enrich i j && is_live j.status) (IsEnrichment prompt i) js
            (enriched_live prompt i) alive
      | inr ended ↦
          any-Some
            (λ j. is_job_for enrich i j && (is_done j.status && is_version j.prompt_ver prompt))
            (IsEnrichment prompt i) js (enriched_done prompt i) ended
    ]

has-append_left : (i : Text) (xs ys : List Text) → has i xs ≡ true → has i (xs ++ ys) ≡ true
has-append_left i xs ys h = ground (arith, any-append (str_eq i) xs ys)

has-append_right : (i : Text) (xs ys : List Text) → has i ys ≡ true → has i (xs ++ ys) ≡ true
has-append_right i xs ys h = ground (arith, any-append (str_eq i) xs ys)

module _ (scan : Scan) (st : Store) where
  IsEmbedding-after :
      (i : Text)
      → has i (embed_candidates st) ≡ true
      → Some (IsEmbedding i) (reconcile scan st).1.jobs
  unfolding has_job_not_dead
  IsEmbedding-after i h =
      any-Some (λ j. is_job_for embed i j && not (is_dead j.status)) (IsEmbedding i)
        (reconcile scan st).1.jobs (IsEmbedding-of i) (reconcile-embeds scan st i h)

  live_head :
      (n : NoteRow) (v : VersionRow)
      → find_version n.head_version_id st.db.versions ≡ some v
      → v.op ≢ delete
      → v.purged_at ≡ none
      → has_live_head st.db.versions n ≡ true
  unfolding has_live_head
  live_head n v at_head kept whole = rw (at_head, whole) (ground arith)

  -- After a scan, whatever the jobs were before, the head of each note that is neither deleted nor
  -- purged has a job of embedding that is not dead; and unless the note is kept from egress, it has
  -- a job of enrichment that is live, or one that ended well under the current prompt.
  pub reconcile_notes :
      (k : Text) (n : NoteRow) (v : VersionRow)
      → find_note k st.db.notes ≡ some n
      → find_version n.head_version_id st.db.versions ≡ some v
      → v.op ≢ delete
      → v.purged_at ≡ none
      → Some (IsEmbedding n.head_version_id) (reconcile scan st).1.jobs
        × ((n.no_egress ≡ true)
            ⊎ Some (IsEnrichment scan.prompt_ver n.head_version_id) (reconcile scan st).1.jobs)
  reconcile_notes k n v found at_head kept whole = (
    IsEmbedding-after n.head_version_id (
        unfold embed_candidates in
        has-append_left n.head_version_id (note_heads (has_live_head st.db.versions) st.db.notes)
          (external_heads head_of_external (λ s. true) st.snapshots st.externals)
          (note_heads-has (has_live_head st.db.versions) k st.db.notes n found
            (live_head n v at_head kept whole))),
    elim (Bool-cases n.no_egress) [
      | inl withheld ↦ inl withheld
      | inr shared ↦ inr (
          IsEnrichment-of scan.prompt_ver n.head_version_id (reconcile scan st).1.jobs (
            reconcile-enriches scan st n.head_version_id (
              unfold enrich_candidates in
              note_heads-has (λ m. has_live_head st.db.versions m && not m.no_egress) k st.db.notes
                n found (rw (live_head n v at_head kept whole, shared) refl))))
    ],
  )

  -- After a scan, the head of each external source, where it is a successful snapshot, has a job of
  -- embedding that is not dead; and where the snapshot was fetched at the cutoff or before, the
  -- source has a live job of refreshing.
  pub reconcile_externals :
      (k i : Text) (e : ExternalRow) (s : SnapshotRow)
      → find_external k st.externals ≡ some e
      → e.head_snapshot_id ≡ some i
      → find_snapshot i st.snapshots ≡ some s
      → s.status ≡ live
      → Some (IsEmbedding i) (reconcile scan st).1.jobs
        × ((suc scan.cutoff ≤ s.fetched_at)
            ⊎ Some (IsRefresh e.external_id) (reconcile scan st).1.jobs)
  reconcile_externals k i e s found at_head there fetched = (
    subst (λ j. Some (IsEmbedding j) (reconcile scan st).1.jobs) (ap head_text at_head)
        (IsEmbedding-after (head_of_external e) (
          unfold embed_candidates in
          has-append_right (head_of_external e)
            (note_heads (has_live_head st.db.versions) st.db.notes)
            (external_heads head_of_external (λ s. true) st.snapshots st.externals)
            (external_heads-has head_of_external (λ s. true) st.snapshots k st.externals e found
              (rw (at_head, there, fetched) refl)))),
    elim (Bool-cases (leb s.fetched_at scan.cutoff)) [
      | inr recent ↦ inl (ground (arith, recent))
      | inl old ↦ inr (
          unfold has_live_job in
          any-Some (λ j. is_job_for refresh e.external_id j && is_live j.status)
            (IsRefresh e.external_id) (reconcile scan st).1.jobs (refreshing e.external_id)
            (reconcile-refreshes scan st e.external_id (
              unfold refresh_candidates in
              external_heads-has id_of_external (λ t. leb t.fetched_at scan.cutoff) st.snapshots k
                st.externals e found (rw (at_head, there, fetched, old) refl))))
    ],
  )
    where
      refreshing :
          (x : Text) (j : JobRow)
          → (is_job_for refresh x j && is_live j.status) ≡ true
          → IsRefresh x j
      refreshing x j h =
          let (of_job, alive) = &&_both (is_job_for refresh x j) (is_live j.status) h in
          (IsJobOf-of refresh x j of_job, alive)
