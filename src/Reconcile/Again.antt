-- ===== src/Reconcile/Again.antt =====
-- A second scan of reconcile.py.
use lode.Prelude.{
  ◌+◌, ℕ, Text, Bool, true, false, List, [], ◌∷◌, ◌≡◌, refl, ap, ◌∙◌, str_eq_refl, not, ◌&&◌, ◌||◌,
  any, keep, arith,
}
use lode.Jobs.{embed, enrich, refresh}
use lode.Store.{Store}
use lode.Reconcile.{
  distinct, has_job_not_dead, has_live_job, has_current_job, embed_candidates, embed_gap,
  enrich_candidates, enrich_gap, refresh_candidates, stale_externals, enqueue_each, embed_gap_step,
  enrich_gap_step, refresh_stale_step, lexical_gap_step, Scan, reconcile,
}
use lode.Reconcile.Heals.{has}
use lode.Reconcile.Steps.{reconcile-embeds, reconcile-enriches, reconcile-refreshes}

keep-none :
    (p : Text → Bool) (xs : List Text)
    → ((i : Text) → has i xs ≡ true → p i ≡ false)
    → keep p xs ≡ []
unfolding any keep
keep-none p [] nowhere = refl
keep-none p (x ∷ xs) nowhere =
    rw (nowhere x (rw (str_eq_refl x) refl), keep)
      (keep-none p xs (λ i h. nowhere i (ground (arith, h))))

not_neither : (a b : Bool) → (a || b) ≡ true → (not a && not b) ≡ false
not_neither a b h = ground arith

-- A scan whose three enqueueing steps find nothing is its lexical step.
reconcile_quiet :
    (scan : Scan) (st : Store)
    → embed_gap_step scan.clock st ≡ (0, st)
    → enrich_gap_step scan.prompt_ver scan.clock st ≡ (0, st)
    → refresh_stale_step scan.cutoff scan.clock st ≡ (0, st)
    → reconcile scan st ≡ lexical_gap_step scan.fts st
unfolding reconcile
reconcile_quiet scan st no_embed no_enrich no_refresh =
    let found = lexical_gap_step scan.fts st in
    let e : 0 + 0 + 0 + found.0 ≡ found.0 = omega arith in
    rw (no_embed, no_enrich, no_refresh) (ap (λ (k : ℕ). (k, found.1)) e)

module _ (scan : Scan) (st : Store) where
  abbrev after : Store
  after = (reconcile scan st).1

  embed_gap-after : embed_gap after ≡ []
  unfolding embed_gap
  embed_gap-after =
      ap distinct (
        keep-none (λ i. not (has_job_not_dead embed after.jobs i)) (embed_candidates after)
          (λ i h.
            rw
              (reconcile-embeds scan st i (
                unfold reconcile embed_gap_step enrich_gap_step refresh_stale_step lexical_gap_step
                  embed_candidates in
                h))
              refl))
      ∙ unfold distinct in refl

  enrich_gap-after : enrich_gap scan.prompt_ver after ≡ []
  unfolding enrich_gap
  enrich_gap-after =
      keep-none
        (λ i.
          not (has_live_job enrich after.jobs i)
          && not (has_current_job scan.prompt_ver after.jobs i))
        (enrich_candidates after)
        (λ i h.
          not_neither (has_live_job enrich after.jobs i)
            (has_current_job scan.prompt_ver after.jobs i)
            (reconcile-enriches scan st i (
              unfold reconcile embed_gap_step enrich_gap_step refresh_stale_step lexical_gap_step
                enrich_candidates in
              h)))

  stale_externals-after : stale_externals scan.cutoff after ≡ []
  unfolding stale_externals
  stale_externals-after =
      keep-none (λ i. not (has_live_job refresh after.jobs i))
        (refresh_candidates scan.cutoff after)
        (λ i h.
          rw
            (reconcile-refreshes scan st i (
              unfold reconcile embed_gap_step enrich_gap_step refresh_stale_step lexical_gap_step
                refresh_candidates in
              h))
            refl)

  embed_gap_step-after : (clock : ℕ → ℕ) → embed_gap_step clock after ≡ (0, after)
  unfolding embed_gap_step enqueue_each
  embed_gap_step-after clock = rw embed_gap-after refl

  enrich_gap_step-after : (clock : ℕ → ℕ) → enrich_gap_step scan.prompt_ver clock after ≡ (0, after)
  unfolding enrich_gap_step enqueue_each
  enrich_gap_step-after clock = rw enrich_gap-after refl

  refresh_stale_step-after :
      (clock : ℕ → ℕ) → refresh_stale_step scan.cutoff clock after ≡ (0, after)
  unfolding refresh_stale_step enqueue_each
  refresh_stale_step-after clock = rw stale_externals-after refl

  -- A second scan, with the same prompt and the same cutoff, at any later time, enqueues nothing: what
  -- it counts and what it changes is the work of the lexical step alone.
  pub reconcile_again :
      (clock : ℕ → ℕ) (fts : List Text)
      → reconcile
          (record { clock = clock; prompt_ver = scan.prompt_ver; cutoff = scan.cutoff; fts = fts })
          (reconcile scan st).1
        ≡ lexical_gap_step fts (reconcile scan st).1
  reconcile_again clock fts =
      reconcile_quiet
        (record { clock = clock; prompt_ver = scan.prompt_ver; cutoff = scan.cutoff; fts = fts })
        after (embed_gap_step-after clock) (enrich_gap_step-after clock)
        (refresh_stale_step-after clock)
