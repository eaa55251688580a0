-- ===== src/Answer.antt =====
-- answer.py: an answer as its claims, with the evidence that each rests on.
use lode.Prelude.{ℕ, Text, List, Option}

-- Exactly one of `version_id` and `snapshot_id` is set.
pub data Cited : Type 0 where
  version : Text → Cited
  snapshot : Text → Cited

pub record Support : Type 0 where
  pub cited : Cited
  pub quoted_span : Text
  pub body_offset : Option ℕ

abbrev pub id_of : Cited → Text
id_of (version i) = i
id_of (snapshot i) = i

abbrev pub target_id : Support → Text
target_id s = id_of s.cited

pub record Claim : Type 0 where
  pub text : Text
  pub support : List Support

abbrev pub Answer : Type 0
Answer = List Claim
