-- ===== src/Retrieval/Fusion.antt =====
-- The scores of `reciprocal_rank_fusion` of retrieval.py.
use lode.Prelude.{
  ℕ, suc, ◌+◌, Text, List, [], ◌∷◌, Option, none, some, ◌≡◌, refl, ap, ◌∙◌, subst, str_eq,
  str_eq_iff, if◌then◌else◌, arith, Bool-cases, inl, inr,
}
use lode.Retrieval.{
  Hit, Floats, FusedHit, add_score, fuse_leg, insert_hit, sort_hits, reciprocal_rank_fusion,
}

-- The first rank of a passage in a leg, counted from `rank`.
unfoldable pub rank_from : ℕ → Text → List Hit → Option ℕ
rank_from rank pid [] = none
rank_from rank pid (hit ∷ hits) =
    let later = rank_from (suc rank) pid hits in
    if str_eq hit.passage_id pid then some rank else later

-- A leg has each passage once.
abbrev pub AreDistinct : List Hit → Type 0
AreDistinct [] = Unit
AreDistinct (hit ∷ hits) = (rank_from 1 hit.passage_id hits ≡ none) × AreDistinct hits

module _ (fl : Floats) where
  unfoldable pub score_of : Text → List (FusedHit fl) → Option fl.Float
  score_of pid [] = none
  score_of pid (f ∷ fs) =
      let later = score_of pid fs in if str_eq f.passage_id pid then some f.score else later

  abbrev pub or_zero : Option fl.Float → fl.Float
  or_zero none = fl.zero_float
  or_zero (some s) = s

  -- One more contribution, where there is one.
  abbrev pub plus : ℕ → Option fl.Float → Option ℕ → Option fl.Float
  plus k o none = o
  plus k o (some rank) = some (fl.add (or_zero o) (fl.reciprocal (k + rank)))

  score_of-add_score :
      (pid : Text) (hit : Hit) (c : fl.Float) (fs : List (FusedHit fl))
      → score_of pid (add_score fl hit c fs) ≡ (
          if str_eq hit.passage_id pid
          then some (fl.add (or_zero (score_of pid fs)) c)
          else score_of pid fs)
  unfolding score_of add_score
  score_of-add_score pid hit c [] = ground arith
  score_of-add_score pid hit c (f ∷ fs) = ground (
    arith,
    score_of-add_score pid hit c fs,
    str_eq_iff f.passage_id hit.passage_id,
    str_eq_iff f.passage_id pid,
    str_eq_iff hit.passage_id pid,
  )

  -- The rank that a count from elsewhere gives to an absent passage.
  rank_from-absent :
      (r q : ℕ) (pid : Text) (hits : List Hit)
      → rank_from r pid hits ≡ none
      → rank_from q pid hits ≡ none
  unfolding rank_from
  rank_from-absent r q pid [] h = refl
  rank_from-absent r q pid (hit ∷ hits) h =
      ground (arith, h, rank_from-absent (suc r) (suc q) pid hits)

  score_of-fuse_leg :
      (k rank : ℕ) (pid : Text) (hits : List Hit) (fs : List (FusedHit fl))
      → AreDistinct hits
      → score_of pid (fuse_leg fl k rank hits fs)
        ≡ plus k (score_of pid fs) (rank_from rank pid hits)
  unfolding fuse_leg rank_from
  score_of-fuse_leg k rank pid [] fs d = refl
  score_of-fuse_leg k rank pid (hit ∷ hits) fs d =
      let fs' = add_score fl hit (fl.reciprocal (k + rank)) fs in
      elim (Bool-cases (str_eq hit.passage_id pid)) [
        | inr other ↦
            score_of-fuse_leg k (suc rank) pid hits fs' d.1
            ∙ rw (score_of-add_score pid hit (fl.reciprocal (k + rank)) fs, other) refl
        | inl same ↦
            let gone : rank_from (suc rank) pid hits ≡ none =
              rank_from-absent 1 (suc rank) pid hits (
                subst (λ p. rank_from 1 p hits ≡ none) ((str_eq_iff hit.passage_id pid).0 same)
                  d.0) in
            score_of-fuse_leg k (suc rank) pid hits fs' d.1
            ∙ rw (score_of-add_score pid hit (fl.reciprocal (k + rank)) fs, same, gone) refl
      ]

  -- The dict has each key once, and a sort of such a list moves no score.
  abbrev pub AreKeyed : List (FusedHit fl) → Type 0
  AreKeyed [] = Unit
  AreKeyed (f ∷ fs) = (score_of f.passage_id fs ≡ none) × AreKeyed fs

  add_score-AreKeyed :
      (hit : Hit) (c : fl.Float) (fs : List (FusedHit fl))
      → AreKeyed fs
      → AreKeyed (add_score fl hit c fs)
  unfolding add_score
  add_score-AreKeyed hit c [] u = (unfold score_of in refl, tt)
  add_score-AreKeyed hit c (f ∷ fs) u = elim (Bool-cases (str_eq f.passage_id hit.passage_id)) [
    | inl same ↦ rw same (u.0, u.1)
    | inr other ↦ rw other (
      score_of-add_score f.passage_id hit c fs
          ∙ ground (
            arith,
            other,
            u.0,
            str_eq_iff f.passage_id hit.passage_id,
            str_eq_iff hit.passage_id f.passage_id,
          ),
      add_score-AreKeyed hit c fs u.1,
    )
  ]

  fuse_leg-AreKeyed :
      (k rank : ℕ) (hits : List Hit) (fs : List (FusedHit fl))
      → AreKeyed fs
      → AreKeyed (fuse_leg fl k rank hits fs)
  unfolding fuse_leg
  fuse_leg-AreKeyed k rank [] fs u = u
  fuse_leg-AreKeyed k rank (hit ∷ hits) fs u =
      fuse_leg-AreKeyed k (suc rank) hits (add_score fl hit (fl.reciprocal (k + rank)) fs)
        (add_score-AreKeyed hit (fl.reciprocal (k + rank)) fs u)

  score_of-insert_hit :
      (pid : Text) (f : FusedHit fl) (fs : List (FusedHit fl))
      → score_of f.passage_id fs ≡ none
      → score_of pid (insert_hit fl f fs)
        ≡ (if str_eq f.passage_id pid then some f.score else score_of pid fs)
  unfolding score_of insert_hit
  score_of-insert_hit pid f [] u = refl
  score_of-insert_hit pid f (g ∷ gs) u = ground (
    arith,
    score_of-insert_hit pid f gs,
    str_eq_iff g.passage_id f.passage_id,
    str_eq_iff g.passage_id pid,
    str_eq_iff f.passage_id pid,
  )

  score_of-sort_hits :
      (pid : Text) (fs : List (FusedHit fl))
      → AreKeyed fs
      → score_of pid (sort_hits fl fs) ≡ score_of pid fs
  unfolding sort_hits score_of
  score_of-sort_hits pid [] u = refl
  score_of-sort_hits pid (f ∷ fs) u =
      score_of-insert_hit pid f (sort_hits fl fs) (score_of-sort_hits f.passage_id fs u.1 ∙ u.0)
      ∙ rw (score_of-sort_hits pid fs u.1) refl

  -- The fused score of a passage, by a formula: the reciprocal of `k` plus its rank in the first leg,
  -- if it is there, plus the same for the second; a passage of neither leg is not in the result.
  abbrev pub formula : ℕ → Text → List Hit → List Hit → Option fl.Float
  formula k pid lexical vector =
      plus k (plus k none (rank_from 1 pid lexical)) (rank_from 1 pid vector)

  -- Where each leg has each passage at most once, the loop of `reciprocal_rank_fusion` over two dicts,
  -- and its sort, give each passage the score of the formula, and no other passage a score.
  pub reciprocal_rank_fusion_lem :
      (k : ℕ) (pid : Text) (lexical vector : List Hit)
      → AreDistinct lexical
      → AreDistinct vector
      → score_of pid (reciprocal_rank_fusion fl k lexical vector) ≡ formula k pid lexical vector
  unfolding reciprocal_rank_fusion
  reciprocal_rank_fusion_lem k pid lexical vector d e =
      let first = fuse_leg fl k 1 lexical [] in
      score_of-sort_hits pid (fuse_leg fl k 1 vector first)
        (fuse_leg-AreKeyed k 1 vector first (fuse_leg-AreKeyed k 1 lexical [] tt))
      ∙ score_of-fuse_leg k 1 pid vector first e
      ∙ ap (λ o. plus k o (rank_from 1 pid vector))
          (score_of-fuse_leg k 1 pid lexical [] d ∙ unfold score_of in refl)
