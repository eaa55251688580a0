-- ===== src/Egress/Examples.antt =====
-- A question over two passages, one of which may not leave.
use lode.Prelude.{
  Text, codes, true, false, [], ◌∷◌, some, ◌≡◌, refl, All, Some, inl, inr, str_eq, if◌then◌else◌,
}
use lode.Egress.{
  Pattern, redact_from, redact_counting, PassageItem, partition_egress, redact_all, targets_of,
  summary, or_none, qa, gate_qa_egress,
}
use lode.Egress.Private.{gate_qa_egress_private, Sent, Placed, gate_qa_egress_lem}

-- A pattern for one secret text.
abbrev hide : Pattern
hide text = if str_eq text (codes "key=1") then (codes "[redacted]", 1) else (text, 0)

abbrev open_one : PassageItem
open_one = record { target_id = codes "v1"; text = codes "key=1"; no_egress = false }

abbrev private_one : PassageItem
private_one = record { target_id = codes "v2"; text = codes "diary"; no_egress = true }

abbrev rewritten : PassageItem
rewritten = record private_one { text = codes "other" }

abbrev model : Text
model = codes "m"

sent_run :
    (gate_qa_egress model (open_one ∷ private_one ∷ []) (hide ∷ []) []).0.sent
    ≡ record { target_id = codes "v1"; text = codes "[redacted]"; redactions = 1 } ∷ []
unfolding gate_qa_egress partition_egress redact_all redact_counting redact_from str_eq
sent_run = refl

gate_qa_egress_private_example :
    gate_qa_egress model (open_one ∷ private_one ∷ []) (hide ∷ []) []
    ≡ gate_qa_egress model (open_one ∷ rewritten ∷ []) (hide ∷ []) []
gate_qa_egress_private_example =
    gate_qa_egress_private model (open_one ∷ private_one ∷ []) (open_one ∷ rewritten ∷ [])
      (hide ∷ []) [] (inl refl, (inr (refl, refl, refl), tt))

gate_qa_egress_lem_example :
    let (out, log') = gate_qa_egress model (open_one ∷ private_one ∷ []) (hide ∷ []) [] in
    All (λ s. Some (λ p. Sent (hide ∷ []) p s) (open_one ∷ private_one ∷ [])) out.sent
    × All (Placed (hide ∷ []) out.sent out.withheld) (open_one ∷ private_one ∷ [])
    × (log'
        ≡ record {
          id = out.egress_log_id;
          purpose = qa;
          model = some model;
          sent_targets = targets_of out.sent;
          redactions = or_none (summary out.sent []);
        }
          ∷ [])
gate_qa_egress_lem_example = gate_qa_egress_lem model (open_one ∷ private_one ∷ []) (hide ∷ []) []
