-- ===== src/Gate/Survivors.antt =====
-- What the gate of gate.py lets through, and what it keeps.
use lode.Prelude.{
  Some, ℕ, ◌≤◌, Text, codes, ◌≡◌, refl, sym, ap, ◌∙◌, Bool, true, false, List, [], ◌∷◌, Option,
  none, some, if◌then◌else◌, All, any, all, keep, leb, arith, Bool-cases, inl, inr, ◌⊎◌, ◌||◌,
  &&-left, &&-right, str_eq, str_eq_iff, Occurs, leb→le,
}
use lode.Answer.{Support, target_id, Claim, Answer}
use lode.Faithfulness.{
  locate_span, is_some, span_occurs, support_verified, support_in, body_of, claim_spans_verified,
  in_set, is_subset, minus, is_empty, stopwords, word_tokens, negation_cues, support_couples,
  claim_extractively_coupled, spans_of, join, claim_entailed,
}
use lode.Faithfulness.Spans.{At}
use lode.Faithfulness.Locate.{Quotes, locate_span_lem, span_occurs-Occurs}
use lode.Gate.{claim_survives, apply_gate}

abbrev pub In : Text → List Text → Type 0
In t ts = Some (λ u. t ≡ u) ts

or_cases : (a b : Bool) → (a || b) ≡ true → (a ≡ true) ⊎ (b ≡ true)
or_cases true b h = inl refl
or_cases false b h = inr h

any-Some {ℓ} :
    {A : Type ℓ} (p : A → Bool) (xs : List A) → any p xs ≡ true → Some (λ x. p x ≡ true) xs
unfolding any
any-Some p [] h = cc h
any-Some p (x ∷ xs) h = elim (or_cases (p x) (any p xs) h) [
  | inl here ↦ inl here
  | inr later ↦ inr (any-Some p xs later)
]

all-All {ℓ} : {A : Type ℓ} (p : A → Bool) (xs : List A) → all p xs ≡ true → All (λ x. p x ≡ true) xs
unfolding all
all-All p [] h = tt
all-All p (x ∷ xs) h = (&&-left (p x) (all p xs) h, all-All p xs (&&-right (p x) (all p xs) h))

All-all {ℓ} : {A : Type ℓ} (p : A → Bool) (xs : List A) → All (λ x. p x ≡ true) xs → all p xs ≡ true
unfolding all
All-all p [] h = refl
All-all p (x ∷ xs) (h, hs) = rw (h, All-all p xs hs) refl

All-keep {ℓ} : {A : Type ℓ} (p : A → Bool) (xs : List A) → All (λ x. p x ≡ true) (keep p xs)
unfolding keep
All-keep p [] = tt
All-keep p (x ∷ xs) = elim (Bool-cases (p x)) [
  | inl hit ↦ rw (hit, keep, All) (hit, All-keep p xs)
  | inr miss ↦ rw (miss, keep, All) (All-keep p xs)
]

All-map {ℓ} :
    {A : Type ℓ} (P Q : A → Type 0) (xs : List A) → ((x : A) → P x → Q x) → All P xs → All Q xs
All-map P Q [] f h = tt
All-map P Q (x ∷ xs) f (h, hs) = (f x h, All-map P Q xs f hs)

Some-map {ℓ} :
    {A : Type ℓ} (P Q : A → Type 0) (xs : List A) → ((x : A) → P x → Q x) → Some P xs → Some Q xs
Some-map P Q [] f h = h
Some-map P Q (x ∷ xs) f (inl h) = inl (f x h)
Some-map P Q (x ∷ xs) f (inr h) = inr (Some-map P Q xs f h)

in_set-In : (ts : List Text) (t : Text) → in_set ts t ≡ true → In t ts
in_set-In ts t h =
    Some-map (λ u. str_eq t u ≡ true) (λ u. t ≡ u) ts (λ u e. (str_eq_iff t u).0 e)
      (any-Some (str_eq t) ts h)

subset-In : (a b : List Text) → is_subset a b ≡ true → All (λ t. In t b) a
unfolding is_subset
subset-In a b h =
    All-map (λ t. in_set b t ≡ true) (λ t. In t b) a (in_set-In b) (all-All (in_set b) a h)

minus-In : (a b : List Text) → is_empty (minus a b) ≡ true → All (λ t. In t b) a
unfolding minus
minus-In [] b h = tt
minus-In (t ∷ a) b h = elim (Bool-cases (in_set b t)) [
  | inl there ↦ (
    in_set-In b t there,
    minus-In a b (sym (ap (λ x. is_empty (if x then minus a b else t ∷ minus a b)) there) ∙ h),
  )
  | inr gone ↦
      let no : false ≡ true =
        sym (ap (λ x. is_empty (if x then minus a b else t ∷ minus a b)) gone) ∙ h in
      absurd (cc no)
]

-- The span of a support is quoted in the body that it cites, at some offsets.
abbrev pub IsQuoted : List (Text × Text) → Support → Type 0
IsQuoted bodies s = (r : ℕ × ℕ) × At (Quotes s.quoted_span) 0 (body_of bodies (target_id s)) r

support_in-IsQuoted :
    (bodies : List (Text × Text)) (s : Support) → support_in bodies s ≡ true → IsQuoted bodies s
unfolding support_verified span_occurs
support_in-IsQuoted bodies s h =
    located (locate_span s.quoted_span (body_of bodies (target_id s)) none)
      (λ r e. locate_span_lem s.quoted_span (body_of bodies (target_id s)) none r e) h
  where
    located :
        (o : Option (ℕ × ℕ))
        → ((r : ℕ × ℕ) → o ≡ some r → At (Quotes s.quoted_span) 0 (body_of bodies (target_id s)) r)
        → is_some o ≡ true
        → IsQuoted bodies s
    located none f h = absurd (cc h)
    located (some r) f h = (r, f r refl)

staged :
    (a b c : Bool)
    → (if a then (if b then true else c) else false) ≡ true
    → (a ≡ true) × ((b ≡ true) ⊎ (c ≡ true))
staged true true c h = (refl, inl refl)
staged true false c h = (refl, inr h)
staged false b c h = cc h

passes :
    (a b c : Bool) → a ≡ true → c ≡ true → (if a then (if b then true else c) else false) ≡ true
passes true true c h k = refl
passes true false c h k = k
passes false b c h k = h

module _ (casefold : Text → Text) (is_w : ℕ → Bool) where
  -- The claim's words that carry its content.
  abbrev pub payload : Claim → List Text
  payload claim = minus (word_tokens casefold is_w claim.text) stopwords

  -- One span of the claim has all of them, and negates nothing that the claim does not.
  abbrev pub Couples : Claim → Support → Type 0
  Couples claim s =
      All (λ t. In t (word_tokens casefold is_w s.quoted_span)) (payload claim)
      × All (λ cue. In cue (negation_cues casefold is_w claim.text))
          (negation_cues casefold is_w s.quoted_span)

  support_couples-Couples :
      (claim : Claim) (s : Support)
      → support_couples casefold is_w (payload claim) (negation_cues casefold is_w claim.text) s
        ≡ true
      → Couples claim s
  unfolding support_couples
  support_couples-Couples claim s h =
      let subset = is_subset (payload claim) (word_tokens casefold is_w s.quoted_span) in
      let calm = is_empty (
        minus (negation_cues casefold is_w s.quoted_span)
          (negation_cues casefold is_w claim.text)) in
      (
        subset-In (payload claim) (word_tokens casefold is_w s.quoted_span) (&&-left subset calm h),
        minus-In (negation_cues casefold is_w s.quoted_span)
            (negation_cues casefold is_w claim.text) (&&-right subset calm h),
      )

  coupled-Some :
      (claim : Claim)
      → claim_extractively_coupled casefold is_w claim ≡ true
      → (is_empty (payload claim) ≡ false) × Some (Couples claim) claim.support
  unfolding claim_extractively_coupled
  coupled-Some claim h = elim (Bool-cases (is_empty (payload claim))) [
    | inl empty ↦
        let no : false ≡ true =
          sym (
            ap
              (λ b.
                if b
                then false
                else any
                    (support_couples casefold is_w (payload claim)
                      (negation_cues casefold is_w claim.text))
                    claim.support)
              empty)
          ∙ h in
        absurd (cc no)
    | inr full ↦
        let any_couples =
          sym (
            ap
              (λ b.
                if b
                then false
                else any
                    (support_couples casefold is_w (payload claim)
                      (negation_cues casefold is_w claim.text))
                    claim.support)
              full)
          ∙ h in
        (
          full,
          Some-map
              (λ s.
                support_couples casefold is_w (payload claim)
                  (negation_cues casefold is_w claim.text) s
                ≡ true)
              (Couples claim) claim.support (support_couples-Couples claim)
              (any-Some
                (support_couples casefold is_w (payload claim)
                  (negation_cues casefold is_w claim.text))
                claim.support any_couples),
        )
  ]

  module _ (entailment : Text → Text → ℕ) (threshold : ℕ) where
    -- What a claim that is shown rests on.
    pub record IsSupported (bodies : List (Text × Text)) (claim : Claim) : Type 0 where
      pub quoted : All (IsQuoted bodies) claim.support
      pub borne_out :
          ((is_empty (payload claim) ≡ false) × Some (Couples claim) claim.support)
          ⊎ (threshold ≤ entailment (join (codes " ") (spans_of claim.support)) claim.text)

    survives-IsSupported :
        (bodies : List (Text × Text)) (claim : Claim)
        → claim_survives casefold is_w entailment threshold bodies claim ≡ true
        → IsSupported bodies claim
    unfolding claim_survives claim_spans_verified claim_entailed
    survives-IsSupported bodies claim h =
        let verified = all (support_in bodies) claim.support in
        let coupled = claim_extractively_coupled casefold is_w claim in
        let score = entailment (join (codes " ") (spans_of claim.support)) claim.text in
        let (spans, rest) = staged verified coupled (leb threshold score) h in
        record {
          quoted =
              All-map (λ s. support_in bodies s ≡ true) (IsQuoted bodies) claim.support
                (support_in-IsQuoted bodies) (all-All (support_in bodies) claim.support spans);
          borne_out = elim rest [
            | inl couples ↦ inl (coupled-Some claim couples)
            | inr entails ↦ inr (leb→le threshold score entails)
          ];
        }

    -- Every claim that the gate shows has each of its spans quoted in the body that the span cites,
    -- and is borne out: one span holds all of the claim's content words and no negation that the
    -- claim lacks, or the scorer gives the joined spans at least the threshold.
    pub apply_gate_lem :
        (answer : Answer) (bodies : List (Text × Text))
        → All
            (IsSupported bodies)
            (apply_gate casefold is_w entailment threshold answer bodies).surviving_claims
    unfolding apply_gate
    apply_gate_lem answer bodies =
        All-map (λ claim. claim_survives casefold is_w entailment threshold bodies claim ≡ true)
          (IsSupported bodies)
          (keep (claim_survives casefold is_w entailment threshold bodies) answer)
          (survives-IsSupported bodies)
          (All-keep (claim_survives casefold is_w entailment threshold bodies) answer)

    abbrev pub Verbatim : List (Text × Text) → Claim → Type 0
    Verbatim bodies claim =
        All (λ s. Occurs s.quoted_span (body_of bodies (target_id s))) claim.support

    Verbatim-verified :
        (bodies : List (Text × Text)) (claim : Claim)
        → Verbatim bodies claim
        → all (support_in bodies) claim.support ≡ true
    unfolding support_verified
    Verbatim-verified bodies claim v = All-all (support_in bodies) claim.support (
        All-map (λ s. Occurs s.quoted_span (body_of bodies (target_id s)))
          (λ s. support_in bodies s ≡ true) claim.support
          (λ s o. span_occurs-Occurs s.quoted_span (body_of bodies (target_id s)) o) v)

    -- An answer passes the gate whole, in its order, if each span of each claim stands verbatim in
    -- the body that it cites and the scorer gives each claim's joined spans at least the threshold.
    pub apply_gate_passes :
        (answer : Answer) (bodies : List (Text × Text))
        → All (Verbatim bodies) answer
        → All
            (λ claim. threshold ≤ entailment (join (codes " ") (spans_of claim.support)) claim.text)
            answer
        → (apply_gate casefold is_w entailment threshold answer bodies).surviving_claims ≡ answer
    unfolding apply_gate claim_survives claim_spans_verified claim_entailed
    apply_gate_passes [] bodies v e = refl
    apply_gate_passes (claim ∷ answer) bodies (v, vs) (e, es) =
        let verified = Verbatim-verified bodies claim v in
        let score = entailment (join (codes " ") (spans_of claim.support)) claim.text in
        let entails : leb threshold score ≡ true = ground (arith, e) in
        let survives =
          passes (all (support_in bodies) claim.support)
            (claim_extractively_coupled casefold is_w claim) (leb threshold score) verified
            entails in
        rw (survives, keep) (ap (λ rest. claim ∷ rest) (apply_gate_passes answer bodies vs es))
