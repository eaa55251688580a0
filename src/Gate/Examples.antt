-- ===== src/Gate/Examples.antt =====
-- A small answer at the gate, with the ASCII part of the Unicode tables and a scorer that is never
-- convinced.
use lode.Prelude.{
  ℕ, ◌+◌, Text, codes, Bool, List, [], ◌∷◌, none, some, ◌≡◌, refl, map, if◌then◌else◌, leb, ◌&&◌,
  ◌||◌, ◌==◌, All, str_eq, any, all, keep, words, is_space, skip_spaces, arith,
}
use lode.Answer.{Support, version, Claim}
use lode.Faithfulness.{
  locate_span, search, find_all, nearest, strip_prefix, match_tokens, span_occurs, support_verified,
  body_of, claim_spans_verified, claim_extractively_coupled, claim_entailed, runs, run_of,
  word_tokens, contracted_not, negation_cues, is_subset, minus, support_couples, join, spans_of,
}
use lode.Faithfulness.Spans.{At}
use lode.Faithfulness.Locate.{Quotes, locate_span_lem}
use lode.Gate.{claim_survives, apply_gate}
use lode.Gate.Survivors.{IsSupported, apply_gate_lem, apply_gate_passes}

abbrev lower : ℕ → ℕ
lower c = if leb 65 c && leb c 90 then c + 32 else c

abbrev casefold : Text → Text
casefold text = map lower text

abbrev is_w : ℕ → Bool
is_w c =
    (leb 48 c && leb c 57) || ((leb 65 c && leb c 90) || ((leb 97 c && leb c 122) || (c == 95)))

abbrev no_score : Text → Text → ℕ
no_score premise hypothesis = 0

abbrev bodies : List (Text × Text)
bodies = (codes "v1", codes "We set rerank  OFF today.") ∷ []

abbrev cite : Text → Support
cite span = record { cited = version (codes "v1"); quoted_span = span; body_offset = none }

-- The quote differs from the body in its white space.
abbrev coupled_claim : Claim
coupled_claim = record { text = codes "rerank is off"; support = cite (codes "rerank OFF") ∷ [] }

abbrev made_up : Claim
made_up = record { text = codes "rerank is on"; support = cite (codes "rerank ON") ∷ [] }

gate_run :
    (apply_gate casefold is_w no_score 90 (coupled_claim ∷ made_up ∷ []) bodies).surviving_claims
    ≡ coupled_claim ∷ []
unfolding apply_gate claim_survives claim_spans_verified claim_extractively_coupled claim_entailed
    support_verified span_occurs locate_span search strip_prefix match_tokens words is_space
    skip_spaces body_of all keep any str_eq word_tokens runs run_of negation_cues contracted_not
    is_subset minus support_couples join spans_of
gate_run = refl

apply_gate_lem_example :
    All
      (IsSupported casefold is_w no_score 90 bodies)
      (apply_gate casefold is_w no_score 90 (coupled_claim ∷ made_up ∷ []) bodies).surviving_claims
apply_gate_lem_example =
    apply_gate_lem casefold is_w no_score 90 (coupled_claim ∷ made_up ∷ []) bodies

abbrev verbatim_claim : Claim
verbatim_claim = record { text = codes "it was set"; support = cite (codes "We set") ∷ [] }

apply_gate_passes_example :
    (apply_gate casefold is_w
      (λ premise hypothesis. 95)
      90
      (verbatim_claim ∷ [])
      bodies).surviving_claims
    ≡ verbatim_claim ∷ []
unfolding body_of str_eq
apply_gate_passes_example =
    apply_gate_passes casefold is_w (λ premise hypothesis. 95) 90 (verbatim_claim ∷ []) bodies
      ((([], codes " rerank  OFF today.", refl), tt), tt) (omega arith, tt)

located : locate_span (codes "b  c") (codes "a b c b  c") none ≡ some (6, 10)
unfolding locate_span search strip_prefix
located = refl

located_near : locate_span (codes "b c") (codes "a b c b  c") (some 7) ≡ some (6, 10)
unfolding locate_span search find_all nearest strip_prefix match_tokens words is_space skip_spaces
located_near = refl

locate_span_lem_example : At (Quotes (codes "b c")) 0 (codes "a b c b  c") (6, 10)
locate_span_lem_example =
    locate_span_lem (codes "b c") (codes "a b c b  c") (some 7) (6, 10) located_near
