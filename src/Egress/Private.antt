-- ===== src/Egress/Private.antt =====
-- What leaves the machine through the gate of egress.py.
use lode.Prelude.{
  Some, subst, Text, ◌≡◌, refl, sym, ap, ◌∙◌, true, false, List, [], ◌∷◌, some, All, Bool-cases,
  inl, inr, ◌⊎◌,
}
use lode.Egress.{
  Pattern, PassageItem, WithheldCitation, withheld_citation, EgressDecision, partition_egress,
  withheld_citations, RedactedSend, redacted_send, redact_all, targets_of, summary, or_none, qa,
  EgressRow, log_egress, gate_qa_egress,
}

abbrev cited : Text → WithheldCitation
cited t = record { target_id = t; note = withheld_citation }

abbrev pub citation : PassageItem → WithheldCitation
citation p = record { target_id = p.target_id; note = withheld_citation }

-- Two lists of passages that differ in the texts of withheld passages at most.
abbrev pub SameOutside : List PassageItem → List PassageItem → Type 0
SameOutside [] [] = Unit
SameOutside (p ∷ ps) (q ∷ qs) =
    ((p ≡ q) ⊎ ((p.target_id ≡ q.target_id) × (p.no_egress ≡ true) × (q.no_egress ≡ true)))
    × SameOutside ps qs
SameOutside _ _ = ⊥

cons_withheld :
    (p : PassageItem) (ps : List PassageItem)
    → p.no_egress ≡ true
    → partition_egress (p ∷ ps) ≡ record {
      sendable = (partition_egress ps).sendable;
      withheld = p ∷ (partition_egress ps).withheld;
    }
unfolding partition_egress
cons_withheld p ps kept = rw kept refl

cons_sendable :
    (p : PassageItem) (ps : List PassageItem)
    → p.no_egress ≡ false
    → partition_egress (p ∷ ps) ≡ record {
      sendable = p ∷ (partition_egress ps).sendable;
      withheld = (partition_egress ps).withheld;
    }
unfolding partition_egress
cons_sendable p ps free = rw free refl

partition-same :
    (p : PassageItem) (ps qs : List PassageItem)
    → (partition_egress ps).sendable ≡ (partition_egress qs).sendable
    → withheld_citations (partition_egress ps).withheld
      ≡ withheld_citations (partition_egress qs).withheld
    → ((partition_egress (p ∷ ps)).sendable ≡ (partition_egress (p ∷ qs)).sendable)
      × (withheld_citations (partition_egress (p ∷ ps)).withheld
          ≡ withheld_citations (partition_egress (p ∷ qs)).withheld)
unfolding withheld_citations
partition-same p ps qs a b = elim (Bool-cases p.no_egress) [
  | inl kept ↦
      rw (cons_withheld p ps kept, cons_withheld p qs kept) (a, ap (λ cs. citation p ∷ cs) b)
  | inr free ↦ rw (cons_sendable p ps free, cons_sendable p qs free) (ap (λ rs. p ∷ rs) a, b)
]

partition-SameOutside :
    (ps qs : List PassageItem)
    → SameOutside ps qs
    → ((partition_egress ps).sendable ≡ (partition_egress qs).sendable)
      × (withheld_citations (partition_egress ps).withheld
          ≡ withheld_citations (partition_egress qs).withheld)
unfolding partition_egress withheld_citations
partition-SameOutside [] [] h = (refl, refl)
partition-SameOutside [] (q ∷ qs) h = absurd h
partition-SameOutside (p ∷ ps) [] h = absurd h
partition-SameOutside (p ∷ ps) (q ∷ qs) (h, hs) =
    let (a, b) = partition-SameOutside ps qs hs in
    elim h [
      | inl same ↦
          subst
            (λ r.
              ((partition_egress (p ∷ ps)).sendable ≡ (partition_egress (r ∷ qs)).sendable)
              × (withheld_citations (partition_egress (p ∷ ps)).withheld
                  ≡ withheld_citations (partition_egress (r ∷ qs)).withheld))
            same (partition-same p ps qs a b)
      | inr (target, p_kept, q_kept) ↦
          rw (p_kept, q_kept)
            (
              a,
              ap (λ t. cited t ∷ withheld_citations (partition_egress ps).withheld) target
                  ∙ ap (λ cs. cited q.target_id ∷ cs) b,
            )
    ]

-- The texts of withheld passages have no influence on anything that leaves the machine: two runs of
-- the gate whose passages differ in such texts at most send the same, cite the same as withheld, and
-- write the same row of the audit log.
pub gate_qa_egress_private :
    (model : Text) (ps qs : List PassageItem) (patterns : List Pattern) (log : List EgressRow)
    → SameOutside ps qs
    → gate_qa_egress model ps patterns log ≡ gate_qa_egress model qs patterns log
unfolding gate_qa_egress
gate_qa_egress_private model ps qs patterns log h =
    let (same_sent, same_withheld) = partition-SameOutside ps qs h in
    rw (same_sent, same_withheld) refl

abbrev pub Sent : List Pattern → PassageItem → RedactedSend → Type 0
Sent patterns p s = (p.no_egress ≡ false) × (s ≡ redacted_send patterns p)

-- Where a passage goes: to the citations if it is withheld, and redacted to the provider if not.
abbrev pub Placed : List Pattern → List RedactedSend → List WithheldCitation → PassageItem → Type 0
Placed patterns sent withheld p =
    ((p.no_egress ≡ true) × Some (λ c. c ≡ citation p) withheld)
    ⊎ ((p.no_egress ≡ false) × Some (λ s. s ≡ redacted_send patterns p) sent)

All-later :
    (patterns : List Pattern) (p : PassageItem) (ps : List PassageItem) (sent : List RedactedSend)
    → All (λ s. Some (λ q. Sent patterns q s) ps) sent
    → All (λ s. Some (λ q. Sent patterns q s) (p ∷ ps)) sent
All-later patterns p ps [] h = tt
All-later patterns p ps (s ∷ sent) (h, hs) = (inr h, All-later patterns p ps sent hs)

Placed-sent :
    (patterns : List Pattern) (s : RedactedSend) (sent : List RedactedSend)
    (ws : List WithheldCitation) (ps : List PassageItem)
    → All (Placed patterns sent ws) ps
    → All (Placed patterns (s ∷ sent) ws) ps
Placed-sent patterns s sent ws [] h = tt
Placed-sent patterns s sent ws (p ∷ ps) (inl h, hs) = (inl h, Placed-sent patterns s sent ws ps hs)
Placed-sent patterns s sent ws (p ∷ ps) (inr (e, h), hs) =
    (inr (e, inr h), Placed-sent patterns s sent ws ps hs)

Placed-withheld :
    (patterns : List Pattern) (c : WithheldCitation) (sent : List RedactedSend)
    (ws : List WithheldCitation) (ps : List PassageItem)
    → All (Placed patterns sent ws) ps
    → All (Placed patterns sent (c ∷ ws)) ps
Placed-withheld patterns c sent ws [] h = tt
Placed-withheld patterns c sent ws (p ∷ ps) (inl (e, h), hs) =
    (inl (e, inr h), Placed-withheld patterns c sent ws ps hs)
Placed-withheld patterns c sent ws (p ∷ ps) (inr h, hs) =
    (inr h, Placed-withheld patterns c sent ws ps hs)

abbrev Splits : List Pattern → List PassageItem → EgressDecision → Type 0
Splits patterns ps d =
    All (λ s. Some (λ p. Sent patterns p s) ps) (redact_all patterns d.sendable)
    × All (Placed patterns (redact_all patterns d.sendable) (withheld_citations d.withheld)) ps

partition_egress-Splits :
    (patterns : List Pattern) (ps : List PassageItem) → Splits patterns ps (partition_egress ps)
unfolding redact_all withheld_citations
partition_egress-Splits patterns [] = unfold partition_egress in (tt, tt)
partition_egress-Splits patterns (p ∷ ps) =
    let d = partition_egress ps in
    let sent = redact_all patterns d.sendable in
    let ws = withheld_citations d.withheld in
    let (from, placed) = partition_egress-Splits patterns ps in
    elim (Bool-cases p.no_egress) [
      | inl kept ↦ subst (Splits patterns (p ∷ ps)) (sym (cons_withheld p ps kept)) (
        All-later patterns p ps sent from,
        (inl (kept, inl refl), Placed-withheld patterns (citation p) sent ws ps placed),
      )
      | inr free ↦ subst (Splits patterns (p ∷ ps)) (sym (cons_sendable p ps free)) (
        (inl (free, refl), All-later patterns p ps sent from),
        (inr (free, inl refl), Placed-sent patterns (redacted_send patterns p) sent ws ps placed),
      )
    ]

-- All that the gate sends is the redacted text of passages that may leave, and each passage is placed:
-- redacted among the sent ones, or cited as withheld where it may not leave. The audit log gets one
-- row in front, for a question, with the targets of what was sent and the id that is returned.
pub gate_qa_egress_lem :
    (model : Text) (ps : List PassageItem) (patterns : List Pattern) (log : List EgressRow)
    → let (out, log') = gate_qa_egress model ps patterns log in
      All (λ s. Some (λ p. Sent patterns p s) ps) out.sent
      × All (Placed patterns out.sent out.withheld) ps
      × (log'
          ≡ record {
            id = out.egress_log_id;
            purpose = qa;
            model = some model;
            sent_targets = targets_of out.sent;
            redactions = or_none (summary out.sent []);
          }
            ∷ log)
unfolding gate_qa_egress log_egress
gate_qa_egress_lem model ps patterns log =
    let (from, placed) = partition_egress-Splits patterns ps in (from, placed, refl)
