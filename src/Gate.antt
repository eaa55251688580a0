-- ===== src/Gate.antt =====
-- gate.py: the staged decision on each claim of an answer, and the abstention.
pub mod Survivors
pub mod Examples
use lode.Prelude.{ℕ, Text, Bool, true, false, List, [], ◌∷◌, keep, if◌then◌else◌}
use lode.Answer.{Claim, Answer}
use lode.Faithfulness.{claim_spans_verified, claim_extractively_coupled, claim_entailed}

pub record GateResult : Type 0 where
  pub surviving_claims : List Claim

abbrev pub abstained : GateResult → Bool
abstained r = elim r.surviving_claims [ [] ↦ true | c ∷ cs ↦ false ]

module _ (casefold : Text → Text) (is_w : ℕ → Bool) (entailment : Text → Text → ℕ)
    (threshold : ℕ) where
  unfoldable pub claim_survives : List (Text × Text) → Claim → Bool
  unfolding claim_spans_verified claim_extractively_coupled claim_entailed
  claim_survives bodies claim =
      if claim_spans_verified claim bodies
      then (if claim_extractively_coupled casefold is_w claim
          then true
          else claim_entailed claim entailment threshold)
      else false

  unfoldable pub apply_gate : Answer → List (Text × Text) → GateResult
  unfolding claim_survives keep
  apply_gate answer bodies = record { surviving_claims = keep (claim_survives bodies) answer }
