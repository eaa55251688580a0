-- ===== src/Faithfulness.antt =====
-- faithfulness.py: whether a claim is borne out by the spans that it quotes. `casefold` of a
-- character and the character class `[^\W_]` stand on the Unicode tables, and are parameters, as is
-- the scorer of entailment, a model.
pub mod Spans
pub mod Locate
use lode.Prelude.{
  ℕ, zero, suc, ◌+◌, ◌-◌, Text, codes, Bool, true, false, List, [], ◌∷◌, ◌++◌, Option, none, some,
  str_eq, not, ◌&&◌, ◌||◌, ◌==◌, ltb, leb, if◌then◌else◌, length, any, all, keep, is_space, words,
  skip_spaces,
}
use lode.Answer.{Support, target_id, Claim}

-- `normalize_whitespace`: one space between the words.
unfoldable pub join : Text → List Text → Text
join sep [] = []
join sep (w ∷ []) = w
join sep (w ∷ (v ∷ ws)) = w ++ (sep ++ join sep (v ∷ ws))

unfoldable pub normalize_whitespace : Text → Text
unfolding words join
normalize_whitespace text = join (codes " ") (words text)

-- A literal pattern at the start of a text: what follows the match.
unfoldable pub strip_prefix : Text → Text → Option Text
strip_prefix [] t = some t
strip_prefix (c ∷ s) [] = none
strip_prefix (c ∷ s) (d ∷ t) = let rest = strip_prefix s t in if c == d then rest else none

-- `\s+` before the rest of a pattern that starts with no space.
abbrev pub after_gap : Text → Option Text
after_gap [] = none
after_gap (c ∷ t) = if is_space c then some (skip_spaces t) else none

-- The tokens joined by `\s+`.
unfoldable pub match_tokens : List Text → Text → Option Text
unfolding strip_prefix is_space skip_spaces
match_tokens [] t = some t
match_tokens (w ∷ []) t = strip_prefix w t
match_tokens (w ∷ (v ∷ ws)) t = elim (strip_prefix w t) [
  | none ↦ none
  | some rest ↦ elim (after_gap rest) [ none ↦ none | some next ↦ match_tokens (v ∷ ws) next ]
]

module _ (match : Text → Option Text) where
  -- `re.search`, or `str.find`: the offsets of the leftmost match.
  unfoldable pub search : ℕ → Text → Option (ℕ × ℕ)
  search pos [] = elim (match []) [ none ↦ none | some rest ↦ some (pos, pos) ]
  search pos (c ∷ t) =
      let later = search (pos + 1) t in
      elim (match (c ∷ t)) [
        | none ↦ later
        | some rest ↦ some (pos, pos + (length (c ∷ t) - length rest))
      ]

  -- `re.finditer`: the matches that do not overlap. `skip` characters are still in the last match.
  unfoldable pub find_all : ℕ → ℕ → Text → List (ℕ × ℕ)
  find_all skip pos [] =
      if skip == 0 then elim (match []) [ none ↦ [] | some rest ↦ (pos, pos) ∷ [] ] else []
  find_all skip pos (c ∷ t) = elim skip [
    | suc k ↦ find_all k (pos + 1) t
    | zero ↦ elim (match (c ∷ t)) [
      | none ↦ find_all 0 (pos + 1) t
      | some rest ↦
          let n = length (c ∷ t) - length rest in (pos, pos + n) ∷ find_all (n - 1) (pos + 1) t
    ]
  ]

abbrev pub distance : ℕ → ℕ × ℕ → ℕ
distance hint r = (r.0 - hint) + (hint - r.0)

-- `min(…, key=…)`: the first of the nearest.
unfoldable pub nearest : ℕ → ℕ × ℕ → List (ℕ × ℕ) → ℕ × ℕ
nearest hint best [] = best
nearest hint best (r ∷ rs) =
    nearest hint (if ltb (distance hint r) (distance hint best) then r else best) rs

abbrev pub flexible : List Text → (Text → Option (ℕ × ℕ)) → Text → Option (ℕ × ℕ)
flexible [] find body = none
flexible (w ∷ ws) find body = find body

abbrev pub nearest_of : ℕ → List (ℕ × ℕ) → Option (ℕ × ℕ)
nearest_of hint [] = none
nearest_of hint (r ∷ rs) = some (nearest hint r rs)

abbrev pub all_flexible : List Text → Text → List (ℕ × ℕ)
all_flexible [] body = []
all_flexible (w ∷ ws) body = find_all (match_tokens (w ∷ ws)) 0 0 body

unfoldable pub locate_span : Text → Text → Option ℕ → Option (ℕ × ℕ)
unfolding search find_all nearest words match_tokens strip_prefix
locate_span span body none = elim (search (strip_prefix span) 0 body) [
  | some found ↦ some found
  | none ↦ flexible (words span) (search (match_tokens (words span)) 0) body
]
locate_span span body (some hint) =
    nearest_of hint (find_all (strip_prefix span) 0 0 body ++ all_flexible (words span) body)

abbrev pub is_some : Option (ℕ × ℕ) → Bool
is_some none = false
is_some (some r) = true

unfoldable pub span_occurs : Text → Text → Bool
unfolding locate_span
span_occurs span body = is_some (locate_span span body none)

unfoldable pub support_verified : Support → Text → Bool
unfolding span_occurs
support_verified s body = span_occurs s.quoted_span body

-- `bodies.get(target_id, "")`
unfoldable pub body_of : List (Text × Text) → Text → Text
body_of [] target = []
body_of ((k, body) ∷ bodies) target = if str_eq k target then body else body_of bodies target

abbrev pub support_in : List (Text × Text) → Support → Bool
support_in bodies s = support_verified s (body_of bodies (target_id s))

unfoldable pub claim_spans_verified : Claim → List (Text × Text) → Bool
unfolding all body_of
claim_spans_verified claim bodies = all (support_in bodies) claim.support

-- The member test of a set of tokens.
abbrev pub in_set : List Text → Text → Bool
in_set set t = any (str_eq t) set

-- `a <= b` and `a - b` on sets.
unfoldable pub is_subset : List Text → List Text → Bool
unfolding all any
is_subset a b = all (in_set b) a

unfoldable pub minus : List Text → List Text → List Text
unfolding any
minus [] b = []
minus (t ∷ a) b = let rest = minus a b in if in_set b t then rest else t ∷ rest

abbrev pub stopwords : List Text
stopwords =
    codes "a"
    ∷ codes "an"
    ∷ codes "the"
    ∷ codes "is"
    ∷ codes "are"
    ∷ codes "was"
    ∷ codes "were"
    ∷ codes "be"
    ∷ codes "been"
    ∷ codes "being"
    ∷ codes "am"
    ∷ []

abbrev pub is_empty : List Text → Bool
is_empty [] = true
is_empty (t ∷ ts) = false

abbrev pub negation_words : List Text
negation_words =
    codes "not"
    ∷ codes "no"
    ∷ codes "never"
    ∷ codes "cannot"
    ∷ codes "nothing"
    ∷ codes "nobody"
    ∷ codes "none"
    ∷ codes "neither"
    ∷ codes "nor"
    ∷ codes "without"
    ∷ []

-- The longest run of characters of a class, and what follows it.
unfoldable pub run_of : (ℕ → Bool) → Text → Text × Text
run_of is_in [] = ([], [])
run_of is_in (c ∷ s) =
    let (taken, rest) = run_of is_in s in if is_in c then (c ∷ taken, rest) else ([], c ∷ s)

-- `re.findall` of a class's longest runs; `inside` says that the last character was of the class.
unfoldable pub runs : (ℕ → Bool) → Bool → Text → List Text
unfolding run_of
runs is_in inside [] = []
runs is_in inside (c ∷ s) =
    let later = runs is_in (is_in c) s in
    if is_in c && not inside then (run_of is_in (c ∷ s)).0 ∷ later else later

abbrev pub ends_in_n : Text → Bool
ends_in_n [] = false
ends_in_n (c ∷ []) = c == 110
ends_in_n (c ∷ (d ∷ s)) = ends_in_n (d ∷ s)

-- `casefold` is `str.casefold`, and `is_w` the class `\w`.
module _ (casefold : Text → Text) (is_w : ℕ → Bool) where
  abbrev pub is_letter : ℕ → Bool
  is_letter c = is_w c && not (c == 95)

  -- `_word_tokens`, with a token once for each of its places.
  unfoldable pub word_tokens : Text → List Text
  unfolding runs
  word_tokens text = runs is_letter false (casefold text)

  abbrev pub at_boundary : Text → Bool
  at_boundary [] = true
  at_boundary (c ∷ s) = not (is_w c)

  -- What follows a run in `\w+n['’]t\b`, where the run ends in `n`.
  abbrev pub contraction : Text → Text → Option Text
  contraction run (a ∷ (t ∷ rest)) =
      if leb 2 (length run)
        && (ends_in_n run && (((a == 39) || (a == 8217)) && ((t == 116) && at_boundary rest)))
      then some (run ++ (a ∷ (t ∷ [])))
      else none
  contraction run _ = none

  -- `_CONTRACTED_NOT.findall`: a match starts with its run, since no later start can do better.
  unfoldable pub contracted_not : Bool → Text → List Text
  unfolding run_of
  contracted_not inside [] = []
  contracted_not inside (c ∷ s) =
      let later = contracted_not (is_w c) s in
      let (run, rest) = run_of is_w (c ∷ s) in
      if is_w c && not inside
      then elim (contraction run rest) [ none ↦ later | some cue ↦ cue ∷ later ]
      else later

  -- `_negation_cues`
  unfoldable pub negation_cues : Text → List Text
  unfolding word_tokens contracted_not keep any
  negation_cues text =
      let folded = casefold text in
      keep (in_set negation_words) (word_tokens folded) ++ contracted_not false folded

  unfoldable pub support_couples : List Text → List Text → Support → Bool
  unfolding is_subset minus word_tokens negation_cues
  support_couples payload claim_cues s =
      is_subset payload (word_tokens s.quoted_span)
      && is_empty (minus (negation_cues s.quoted_span) claim_cues)

  unfoldable pub claim_extractively_coupled : Claim → Bool
  unfolding any minus support_couples
  claim_extractively_coupled claim =
      let payload = minus (word_tokens claim.text) stopwords in
      if is_empty payload
      then false
      else any (support_couples payload (negation_cues claim.text)) claim.support

unfoldable pub spans_of : List Support → List Text
spans_of [] = []
spans_of (s ∷ rest) = s.quoted_span ∷ spans_of rest

-- Scores and the threshold are numbers on one scale, which is all that the comparison needs.
unfoldable pub claim_entailed : Claim → (Text → Text → ℕ) → ℕ → Bool
unfolding join spans_of
claim_entailed claim entailment threshold =
    leb threshold (entailment (join (codes " ") (spans_of claim.support)) claim.text)
