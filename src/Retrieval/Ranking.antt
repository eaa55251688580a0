-- ===== src/Retrieval/Ranking.antt =====
-- The order that `trust_rank` of retrieval.py gives to the passages.
use lode.Prelude.{
  ℕ, ◌≤◌, Bool, true, false, List, [], ◌∷◌, map, Option, none, some, ◌≡◌, refl, ap, ◌∙◌, leb,
  leb→le, ◌==◌, if◌then◌else◌, keep, arith, Bool-cases, Option-cases, inl, inr, All,
}
use lode.Store.{Store}
use lode.Retrieval.{Floats, ExpandedHit}
use lode.Retrieval.Trust.{
  TrustTier, tier_value, tier_of, ContextItem, context_item, insert_item, sort_items, place_hits,
  withheld_hit, trust_rank,
}
use lode.Retrieval.Tiers.{NoLess, NoLess-of, IsPlaced, tier_of-IsPlaced}

abbrev pub is_tier : TrustTier → TrustTier → Bool
is_tier t s = tier_value t == tier_value s

module _ (fl : Floats) where
  abbrev pub at_tier : TrustTier → ContextItem fl → Bool
  at_tier t x = is_tier x.tier t

  -- No item stands before one of a higher trust.
  abbrev pub IsRanked : List (ContextItem fl) → Type 0
  IsRanked [] = Unit
  IsRanked (x ∷ xs) =
      All (λ (y : ContextItem fl). tier_value x.tier ≤ tier_value y.tier) xs × IsRanked xs

  All-insert_item :
      (n : ℕ) (x : ContextItem fl) (xs : List (ContextItem fl))
      → n ≤ tier_value x.tier
      → All (λ (y : ContextItem fl). n ≤ tier_value y.tier) xs
      → All (λ (y : ContextItem fl). n ≤ tier_value y.tier) (insert_item fl x xs)
  unfolding insert_item
  All-insert_item n x [] below h = (below, tt)
  All-insert_item n x (y ∷ ys) below h =
      elim (Bool-cases (leb (tier_value x.tier) (tier_value y.tier))) [
        | inl first ↦ rw first (below, h)
        | inr later ↦ rw later (h.0, All-insert_item n x ys below h.1)
      ]

  All-below :
      (n m : ℕ) (xs : List (ContextItem fl))
      → n ≤ m
      → All (λ (y : ContextItem fl). m ≤ tier_value y.tier) xs
      → All (λ (y : ContextItem fl). n ≤ tier_value y.tier) xs
  All-below n m [] below h = tt
  All-below n m (x ∷ xs) below h = (omega (arith, h.0), All-below n m xs below h.1)

  insert_item-IsRanked :
      (x : ContextItem fl) (xs : List (ContextItem fl))
      → IsRanked xs
      → IsRanked (insert_item fl x xs)
  unfolding insert_item
  insert_item-IsRanked x [] r = (tt, tt)
  insert_item-IsRanked x (y ∷ ys) r =
      elim (Bool-cases (leb (tier_value x.tier) (tier_value y.tier))) [
        | inl first ↦
            let below = leb→le (tier_value x.tier) (tier_value y.tier) first in
            rw first ((below, All-below (tier_value x.tier) (tier_value y.tier) ys below r.0), r)
        | inr later ↦ rw later (
          All-insert_item (tier_value y.tier) x ys (ground (arith, later)) r.0,
          insert_item-IsRanked x ys r.1,
        )
      ]

  sort_items-IsRanked : (xs : List (ContextItem fl)) → IsRanked (sort_items fl xs)
  unfolding sort_items
  sort_items-IsRanked [] = tt
  sort_items-IsRanked (x ∷ xs) = insert_item-IsRanked x (sort_items fl xs) (sort_items-IsRanked xs)

  keep-insert_item :
      (t : TrustTier) (x : ContextItem fl) (xs : List (ContextItem fl))
      → keep (at_tier t) (insert_item fl x xs) ≡ keep (at_tier t) (x ∷ xs)
  unfolding insert_item keep
  keep-insert_item t x [] = refl
  keep-insert_item t x (y ∷ ys) = elim (Bool-cases (leb (tier_value x.tier) (tier_value y.tier))) [
    | inl first ↦ rw first refl
    | inr later ↦ rw later (ground (arith, later, keep-insert_item t x ys))
  ]

  keep-cons :
      (t : TrustTier) (x : ContextItem fl) (xs ys : List (ContextItem fl))
      → keep (at_tier t) xs ≡ keep (at_tier t) ys
      → keep (at_tier t) (x ∷ xs) ≡ keep (at_tier t) (x ∷ ys)
  unfolding keep
  keep-cons t x xs ys same = ground (arith, same)

  keep-sort_items :
      (t : TrustTier) (xs : List (ContextItem fl))
      → keep (at_tier t) (sort_items fl xs) ≡ keep (at_tier t) xs
  unfolding sort_items
  keep-sort_items t [] = refl
  keep-sort_items t (x ∷ xs) =
      keep-insert_item t x (sort_items fl xs)
      ∙ keep-cons t x (sort_items fl xs) xs (keep-sort_items t xs)

  -- The items of one tier that the hits call for, in the order of the hits.
  abbrev pub has_tier : TrustTier → Option TrustTier → Bool
  has_tier t none = false
  has_tier t (some s) = is_tier s t

  abbrev pub has_no_tier : Option TrustTier → Bool
  has_no_tier none = true
  has_no_tier (some t) = false

  abbrev pub tier_of_hit : Store → ExpandedHit fl → Option TrustTier
  tier_of_hit st hit = tier_of st hit.target_version hit.edge_source

  unfoldable pub items_at : Store → TrustTier → List (ExpandedHit fl) → List (ContextItem fl)
  items_at st t [] = []
  items_at st t (hit ∷ hits) =
      let rest = items_at st t hits in
      if has_tier t (tier_of_hit st hit) then context_item fl t hit ∷ rest else rest

  is_tier_iff : (s t : TrustTier) → is_tier s t ≡ true → s ≡ t
  is_tier_iff s t h = ground arith

  place_hits_context :
      (st : Store) (t : TrustTier) (hits : List (ExpandedHit fl))
      → keep (at_tier t) (place_hits fl st hits).context ≡ items_at st t hits
  unfolding place_hits keep items_at
  place_hits_context st t [] = refl
  place_hits_context st t (hit ∷ hits) = elim (Option-cases (tier_of_hit st hit)) [
    | inl absent ↦ rw (absent, place_hits) (place_hits_context st t hits)
    | inr (s, placed) ↦ elim (Bool-cases (is_tier s t)) [
      | inl same ↦
          rw (placed, place_hits, same, keep)
            (rw (is_tier_iff s t same, place_hits_context st t hits) refl)
      | inr other ↦ rw (placed, place_hits, other, keep) (place_hits_context st t hits)
    ]
  ]

  place_hits_withheld :
      (st : Store) (hits : List (ExpandedHit fl))
      → (place_hits fl st hits).withheld
        ≡ map (withheld_hit fl) (keep (λ hit. has_no_tier (tier_of_hit st hit)) hits)
  unfolding place_hits keep
  place_hits_withheld st [] = refl
  place_hits_withheld st (hit ∷ hits) = elim (Option-cases (tier_of_hit st hit)) [
    | inl absent ↦
        rw (absent, place_hits, keep)
          (ap (λ hs. withheld_hit fl hit ∷ hs) (place_hits_withheld st hits))
    | inr (s, placed) ↦ rw (placed, place_hits, keep) (place_hits_withheld st hits)
  ]

  all-IsPlaced :
      (st : Store) (hits : List (ExpandedHit fl))
      → All
          (λ (hit : ExpandedHit fl).
            IsPlaced st hit.target_version hit.edge_source (tier_of_hit st hit))
          hits
  all-IsPlaced st [] = tt
  all-IsPlaced st (hit ∷ hits) =
      (tier_of-IsPlaced st hit.target_version hit.edge_source, all-IsPlaced st hits)

  -- No item stands before one that is trusted more.
  abbrev pub IsOrdered : List (ContextItem fl) → Type 0
  IsOrdered [] = Unit
  IsOrdered (x ∷ xs) = All (λ (y : ContextItem fl). NoLess x.tier y.tier) xs × IsOrdered xs

  IsRanked-IsOrdered : (xs : List (ContextItem fl)) → IsRanked xs → IsOrdered xs
  IsRanked-IsOrdered [] r = tt
  IsRanked-IsOrdered (x ∷ xs) r = (each xs r.0, IsRanked-IsOrdered xs r.1)
    where
      each :
          (ys : List (ContextItem fl))
          → All (λ (y : ContextItem fl). tier_value x.tier ≤ tier_value y.tier) ys
          → All (λ (y : ContextItem fl). NoLess x.tier y.tier) ys
      each [] h = tt
      each (y ∷ ys) h = (NoLess-of x.tier y.tier h.0, each ys h.1)

  -- The context stands in the order of trust: the user's notes, then notes that the user linked,
  -- current snapshots, stale snapshots, and notes that only the AI linked. The items of each tier are
  -- those of the hits in that tier, in the order of the hits; the hits without a tier are withheld
  -- with a reason, in their order; and the tier of each hit is as follows. A direct hit on a version
  -- is the user's note; a direct hit on a snapshot of a known source is current where it is the
  -- source's head, and stale where it is not; a hit by a link is current on such a snapshot, and
  -- else goes by who made the link; and a direct hit on neither has none.
  pub trust_rank_lem :
      (st : Store) (t : TrustTier) (hits : List (ExpandedHit fl))
      → IsOrdered (trust_rank fl st hits).context
        × (keep (at_tier t) (trust_rank fl st hits).context ≡ items_at st t hits)
        × ((trust_rank fl st hits).withheld
            ≡ map (withheld_hit fl) (keep (λ hit. has_no_tier (tier_of_hit st hit)) hits))
        × All
            (λ (hit : ExpandedHit fl).
              IsPlaced st hit.target_version hit.edge_source (tier_of_hit st hit))
            hits
  unfolding trust_rank
  trust_rank_lem st t hits = (
    IsRanked-IsOrdered (trust_rank fl st hits).context
        (sort_items-IsRanked (place_hits fl st hits).context),
    keep-sort_items t (place_hits fl st hits).context ∙ place_hits_context st t hits,
    place_hits_withheld st hits,
    all-IsPlaced st hits,
  )
