-- ===== src/Reconcile/Steps.antt =====
-- The scan of reconcile.py, step by step: each head that a step looks at is served after it.
use lode.Prelude.{
  ℕ, Text, Bool, true, false, List, ◌≡◌, inl, inr, refl, not, ◌&&◌, ◌||◌, keep, arith, Bool-cases,
}
use lode.Jobs.{JobType, embed, enrich, refresh, JobRow, is_live}
use lode.Jobs.Grow.{is_job_for}
use lode.Store.{Store}
use lode.Reconcile.{
  is_dead, is_done, is_version, has_job_not_dead, has_live_job, has_current_job, enqueue_each,
  embed_candidates, embed_gap, enrich_candidates, enrich_gap, refresh_candidates, stale_externals,
  embed_gap_step, enrich_gap_step, refresh_stale_step, lexical_gap_step, Scan, reconcile,
}
use lode.Reconcile.Heals.{
  has, any-keep, any-distinct, enqueue_each-grows, enqueue_each-has_live_job, has_live_job-not_dead,
}

-- Each candidate of a step is served after it.
embed_gap_step-serves :
    (clock : ℕ → ℕ) (st : Store) (i : Text)
    → has i (embed_candidates st) ≡ true
    → has_job_not_dead embed (embed_gap_step clock st).1.jobs i ≡ true
unfolding embed_gap_step
embed_gap_step-serves clock st i h = elim (Bool-cases (has_job_not_dead embed st.jobs i)) [
  | inl served ↦
      unfold has_job_not_dead in
      enqueue_each-grows (λ j. is_job_for embed i j && not (is_dead j.status)) clock 0 embed
        (embed_gap st) st.jobs served
  | inr missing ↦
      has_live_job-not_dead embed (enqueue_each clock 0 embed (embed_gap st) st.jobs) i (
        enqueue_each-has_live_job clock 0 embed i (embed_gap st) st.jobs (
          unfold embed_gap in
          any-distinct i (keep (λ j. not (has_job_not_dead embed st.jobs j)) (embed_candidates st))
            (any-keep i (λ j. not (has_job_not_dead embed st.jobs j)) (embed_candidates st)
              (rw missing refl) h)))
]

abbrev pub is_enriched : Text → List JobRow → Text → Bool
is_enriched prompt js i = has_live_job enrich js i || has_current_job prompt js i

neither : (a b : Bool) → (a || b) ≡ false → (not a && not b) ≡ true
neither a b h = ground arith

is_enriched-grows :
    (prompt : Text) (i : Text) (clock : ℕ → ℕ) (t : JobType) (is : List Text) (js : List JobRow)
    → is_enriched prompt js i ≡ true
    → is_enriched prompt (enqueue_each clock 0 t is js) i ≡ true
unfolding has_live_job has_current_job
is_enriched-grows prompt i clock t is js h = ground (
  arith,
  enqueue_each-grows (λ (j : JobRow). is_job_for enrich i j && is_live j.status) clock 0 t is js,
  enqueue_each-grows
      (λ (j : JobRow).
        is_job_for enrich i j && (is_done j.status && is_version j.prompt_ver prompt))
      clock 0 t is js,
)

enrich_gap_step-serves :
    (prompt : Text) (clock : ℕ → ℕ) (st : Store) (i : Text)
    → has i (enrich_candidates st) ≡ true
    → is_enriched prompt (enrich_gap_step prompt clock st).1.jobs i ≡ true
unfolding enrich_gap_step
enrich_gap_step-serves prompt clock st i h = elim (Bool-cases (is_enriched prompt st.jobs i)) [
  | inl served ↦ is_enriched-grows prompt i clock enrich (enrich_gap prompt st) st.jobs served
  | inr missing ↦
      rw
        (enqueue_each-has_live_job clock 0 enrich i (enrich_gap prompt st) st.jobs (
          unfold enrich_gap in
          any-keep i
            (λ j. not (has_live_job enrich st.jobs j) && not (has_current_job prompt st.jobs j))
            (enrich_candidates st)
            (neither (has_live_job enrich st.jobs i) (has_current_job prompt st.jobs i) missing) h))
        refl
]

refresh_stale_step-serves :
    (cutoff : ℕ) (clock : ℕ → ℕ) (st : Store) (i : Text)
    → has i (refresh_candidates cutoff st) ≡ true
    → has_live_job refresh (refresh_stale_step cutoff clock st).1.jobs i ≡ true
unfolding refresh_stale_step
refresh_stale_step-serves cutoff clock st i h = elim (Bool-cases (has_live_job refresh st.jobs i)) [
  | inl served ↦
      unfold has_live_job in
      enqueue_each-grows (λ j. is_job_for refresh i j && is_live j.status) clock 0 refresh
        (stale_externals cutoff st) st.jobs served
  | inr missing ↦ enqueue_each-has_live_job clock 0 refresh i (stale_externals cutoff st) st.jobs (
      unfold stale_externals in
      any-keep i (λ j. not (has_live_job refresh st.jobs j)) (refresh_candidates cutoff st)
        (rw missing refl) h)
]

module _ (scan : Scan) (st : Store) where
  -- The stores between the steps.
  abbrev pub after_embed : Store
  after_embed = (embed_gap_step scan.clock st).1

  abbrev pub after_enrich : Store
  after_enrich = (enrich_gap_step scan.prompt_ver scan.clock after_embed).1

  pub reconcile-embeds :
      (i : Text)
      → has i (embed_candidates st) ≡ true
      → has_job_not_dead embed (reconcile scan st).1.jobs i ≡ true
  unfolding reconcile lexical_gap_step refresh_stale_step enrich_gap_step has_job_not_dead
  reconcile-embeds i h =
      enqueue_each-grows (λ j. is_job_for embed i j && not (is_dead j.status)) scan.clock 0 refresh
        (stale_externals scan.cutoff after_enrich) after_enrich.jobs
        (enqueue_each-grows (λ j. is_job_for embed i j && not (is_dead j.status)) scan.clock 0
          enrich (enrich_gap scan.prompt_ver after_embed) after_embed.jobs
          (embed_gap_step-serves scan.clock st i h))

  pub reconcile-enriches :
      (i : Text)
      → has i (enrich_candidates st) ≡ true
      → is_enriched scan.prompt_ver (reconcile scan st).1.jobs i ≡ true
  unfolding reconcile lexical_gap_step refresh_stale_step
  reconcile-enriches i h =
      is_enriched-grows scan.prompt_ver i scan.clock refresh
        (stale_externals scan.cutoff after_enrich) after_enrich.jobs
        (enrich_gap_step-serves scan.prompt_ver scan.clock after_embed i
          (unfold embed_gap_step enrich_candidates in h))

  pub reconcile-refreshes :
      (i : Text)
      → has i (refresh_candidates scan.cutoff st) ≡ true
      → has_live_job refresh (reconcile scan st).1.jobs i ≡ true
  unfolding reconcile lexical_gap_step
  reconcile-refreshes i h =
      refresh_stale_step-serves scan.cutoff scan.clock after_enrich i
        (unfold embed_gap_step enrich_gap_step refresh_candidates in h)
