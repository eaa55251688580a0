-- ===== src/Faithfulness/Locate.antt =====
-- `locate_span` of faithfulness.py, with a hint and without.
use lode.Prelude.{
  ℕ, ◌+◌, Text, ◌≡◌, refl, sym, ap, ◌∙◌, subst, true, false, List, [], ◌∷◌, ◌++◌, Option, none,
  some, All, ltb, arith, Bool-cases, Option-cases, inl, inr, ◌⊎◌, words, AreWords, words-AreWords,
  Occurs, ◌==◌,
}
use lode.Faithfulness.{
  strip_prefix, match_tokens, search, find_all, nearest, distance, flexible, nearest_of,
  all_flexible, locate_span, span_occurs, is_some,
}
use lode.Faithfulness.Spans.{
  At, Found, search_lem, find_all_lem, strip_prefix-sound, match_tokens-sound,
}

-- A piece of text that quotes the span: the span itself, or the same words in other white space.
abbrev pub Quotes : Text → Text → Type 0
Quotes span piece = (piece ≡ span) ⊎ (words piece ≡ words span)

At-Quotes :
    (P : Text → Type 0) (span body : Text) (r : ℕ × ℕ)
    → ((piece : Text) → P piece → Quotes span piece)
    → At P 0 body r
    → At (Quotes span) 0 body r
At-Quotes P span body r f a = record {
  before = a.before;
  piece = a.piece;
  after = a.after;
  split = a.split;
  start = a.start;
  end_at = a.end_at;
  holds = f a.piece a.holds;
}

Found-Quotes :
    (P : Text → Type 0) (span body : Text) (o : Option (ℕ × ℕ))
    → ((piece : Text) → P piece → Quotes span piece)
    → Found P 0 body o
    → Found (Quotes span) 0 body o
Found-Quotes P span body none f h = tt
Found-Quotes P span body (some r) f h = At-Quotes P span body r f h

All-Quotes :
    (P : Text → Type 0) (span body : Text) (rs : List (ℕ × ℕ))
    → ((piece : Text) → P piece → Quotes span piece)
    → All (At P 0 body) rs
    → All (At (Quotes span) 0 body) rs
All-Quotes P span body [] f h = tt
All-Quotes P span body (r ∷ rs) f (h, hs) =
    (At-Quotes P span body r f h, All-Quotes P span body rs f hs)

All-append : (P : ℕ × ℕ → Type 0) (rs qs : List (ℕ × ℕ)) → All P rs → All P qs → All P (rs ++ qs)
All-append P [] qs h k = k
All-append P (r ∷ rs) qs (h, hs) k = (h, All-append P rs qs hs k)

nearest-All :
    (P : ℕ × ℕ → Type 0) (hint : ℕ) (best : ℕ × ℕ) (rs : List (ℕ × ℕ))
    → P best
    → All P rs
    → P (nearest hint best rs)
unfolding nearest
nearest-All P hint best [] h k = h
nearest-All P hint best (r ∷ rs) h (k, ks) =
    elim (Bool-cases (ltb (distance hint r) (distance hint best))) [
      | inl closer ↦ rw closer (nearest-All P hint r rs k ks)
      | inr farther ↦ rw farther (nearest-All P hint best rs h ks)
    ]

nearest_of-Found :
    (P : Text → Type 0) (hint : ℕ) (body : Text) (rs : List (ℕ × ℕ))
    → All (At P 0 body) rs
    → Found P 0 body (nearest_of hint rs)
nearest_of-Found P hint body [] h = tt
nearest_of-Found P hint body (r ∷ rs) (h, hs) = nearest-All (At P 0 body) hint r rs h hs

module _ (span body : Text) where
  exact : Found (Quotes span) 0 body (search (strip_prefix span) 0 body)
  exact =
      Found-Quotes (λ piece. piece ≡ span) span body (search (strip_prefix span) 0 body)
        (λ piece e. inl e)
        (search_lem (strip_prefix span) (λ piece. piece ≡ span) (strip_prefix-sound span) 0 body)

  loose :
      (ws : List Text)
      → words span ≡ ws
      → AreWords ws
      → Found (Quotes span) 0 body (flexible ws (search (match_tokens ws) 0) body)
  loose [] e are = tt
  loose (w ∷ ws) e (is_word, are) =
      Found-Quotes (λ piece. words piece ≡ w ∷ ws) span body (search (match_tokens (w ∷ ws)) 0 body)
        (λ piece p. inr (cc (e, p)))
        (search_lem (match_tokens (w ∷ ws)) (λ piece. words piece ≡ w ∷ ws)
          (match_tokens-sound w ws is_word are) 0 body)

  each_loose :
      (ws : List Text)
      → words span ≡ ws
      → AreWords ws
      → All (At (Quotes span) 0 body) (all_flexible ws body)
  each_loose [] e are = tt
  each_loose (w ∷ ws) e (is_word, are) =
      All-Quotes (λ piece. words piece ≡ w ∷ ws) span body
        (find_all (match_tokens (w ∷ ws)) 0 0 body) (λ piece p. inr (cc (e, p)))
        (find_all_lem (match_tokens (w ∷ ws)) (λ piece. words piece ≡ w ∷ ws)
          (match_tokens-sound w ws is_word are) 0 0 body)

  locate_span-Found : (hint : Option ℕ) → Found (Quotes span) 0 body (locate_span span body hint)
  unfolding locate_span
  locate_span-Found none = elim (Option-cases (search (strip_prefix span) 0 body)) [
    | inl miss ↦ rw (miss, locate_span, Found) (loose (words span) refl (words-AreWords span))
    | inr (r, hit) ↦ rw (hit, locate_span, Found) (subst (Found (Quotes span) 0 body) hit exact)
  ]
  locate_span-Found (some hint) =
      nearest_of-Found (Quotes span) hint body
        (find_all (strip_prefix span) 0 0 body ++ all_flexible (words span) body)
        (All-append (At (Quotes span) 0 body) (find_all (strip_prefix span) 0 0 body)
          (all_flexible (words span) body)
          (All-Quotes (λ piece. piece ≡ span) span body (find_all (strip_prefix span) 0 0 body)
            (λ piece e. inl e)
            (find_all_lem (strip_prefix span) (λ piece. piece ≡ span) (strip_prefix-sound span) 0 0
              body))
          (each_loose (words span) refl (words-AreWords span)))

-- Where `locate_span` returns offsets, with a hint or without, they are offsets into the body, and
-- the text between them is the span itself, or has the same words in other white space.
pub locate_span_lem :
    (span body : Text) (hint : Option ℕ) (r : ℕ × ℕ)
    → locate_span span body hint ≡ some r
    → At (Quotes span) 0 body r
locate_span_lem span body hint r h =
    subst (Found (Quotes span) 0 body) h (locate_span-Found span body hint)

strip_prefix-append : (s after : Text) → strip_prefix s (s ++ after) ≡ some after
unfolding strip_prefix
strip_prefix-append [] after = refl
strip_prefix-append (c ∷ s) after =
    let same : (c == c) ≡ true = ground arith in rw (same, strip_prefix-append s after) refl

search-hits :
    (match : Text → Option Text) (pos : ℕ) (before t rest : Text)
    → match t ≡ some rest
    → is_some (search match pos (before ++ t)) ≡ true
unfolding search
search-hits match pos [] [] rest hit = rw (hit, search) refl
search-hits match pos [] (c ∷ t) rest hit = rw (hit, search) refl
search-hits match pos (c ∷ before) t rest hit = elim (Option-cases (match (c ∷ (before ++ t)))) [
  | inl miss ↦ rw (miss, search) (search-hits match (pos + 1) before t rest hit)
  | inr (r, here) ↦ rw (here, search) refl
]

-- A span that stands in the body as it is passes the verbatim check.
pub span_occurs-Occurs : (span body : Text) → Occurs span body → span_occurs span body ≡ true
unfolding span_occurs locate_span
span_occurs-Occurs span body (before, after, e) =
    let hit : is_some (search (strip_prefix span) 0 body) ≡ true =
      ap (λ b. is_some (search (strip_prefix span) 0 b)) e
      ∙ search-hits (strip_prefix span) 0 before (span ++ after) after
          (strip_prefix-append span after) in
    elim (Option-cases (search (strip_prefix span) 0 body)) [
      | inl miss ↦ let no_hit : false ≡ true = sym (ap is_some miss) ∙ hit in absurd (cc no_hit)
      | inr (r, found) ↦ rw (found, locate_span) refl
    ]
