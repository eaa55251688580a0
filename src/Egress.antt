-- ===== src/Egress.antt =====
-- egress.py, with the substitution of redact.py that it calls: what a question sends to the model's
-- provider, what is withheld, and the row of the audit log. A compiled pattern is a parameter: what
-- its `subn` with the marker does to a text. The log is the list of its rows, the newest first, and
-- its JSON columns hold the values that they print.
pub mod Private
pub mod Examples
use Prim.Native.Nat.{max}
use lode.Prelude.{
  ℕ, suc, ◌+◌, Text, codes, Bool, true, false, List, [], ◌∷◌, Option, none, some, str_eq, ◌==◌,
  if◌then◌else◌,
}

-- `regex.subn(REDACTION_MARKER, text)`
abbrev pub Pattern : Type 0
Pattern = Text → Text × ℕ

unfoldable pub redact_from : ℕ → Text → List Pattern → Text × ℕ
redact_from count text [] = (text, count)
redact_from count text (subn ∷ patterns) =
    let (text', replaced) = subn text in redact_from (count + replaced) text' patterns

unfoldable pub redact_counting : Text → List Pattern → Text × ℕ
unfolding redact_from
redact_counting text patterns = redact_from 0 text patterns

pub record PassageItem : Type 0 where
  pub target_id : Text
  pub text : Text
  pub no_egress : Bool

abbrev pub withheld_citation : Text
withheld_citation = codes "present, withheld from cloud synthesis"

pub record WithheldCitation : Type 0 where
  pub target_id : Text
  pub note : Text

pub record EgressDecision : Type 0 where
  pub sendable : List PassageItem
  pub withheld : List PassageItem

unfoldable pub partition_egress : List PassageItem → EgressDecision
partition_egress [] = record { sendable = []; withheld = [] }
partition_egress (p ∷ items) =
    let d = partition_egress items in
    if p.no_egress
    then record { sendable = d.sendable; withheld = p ∷ d.withheld }
    else record { sendable = p ∷ d.sendable; withheld = d.withheld }

unfoldable pub withheld_citations : List PassageItem → List WithheldCitation
withheld_citations [] = []
withheld_citations (p ∷ withheld) =
    record { target_id = p.target_id; note = withheld_citation } ∷ withheld_citations withheld

pub record RedactedSend : Type 0 where
  pub target_id : Text
  pub text : Text
  pub redactions : ℕ

abbrev pub redacted_send : List Pattern → PassageItem → RedactedSend
redacted_send patterns p =
    let (text, count) = redact_counting p.text patterns in
    record { target_id = p.target_id; text = text; redactions = count }

unfoldable pub redact_all : List Pattern → List PassageItem → List RedactedSend
unfolding redact_counting
redact_all patterns [] = []
redact_all patterns (p ∷ ps) = redacted_send patterns p ∷ redact_all patterns ps

unfoldable pub targets_of : List RedactedSend → List Text
targets_of [] = []
targets_of (s ∷ sent) = s.target_id ∷ targets_of sent

-- The items of a dict, in the order of their first insertion.
unfoldable pub put : Text → ℕ → List (Text × ℕ) → List (Text × ℕ)
put k n [] = (k, n) ∷ []
put k n ((j, m) ∷ items) = if str_eq j k then (j, n) ∷ items else (j, m) ∷ put k n items

-- `{s.target_id: s.redactions for s in sent if s.redactions}`, onto a dict.
unfoldable pub summary : List RedactedSend → List (Text × ℕ) → List (Text × ℕ)
unfolding put
summary [] items = items
summary (s ∷ sent) items =
    summary sent (if s.redactions == 0 then items else put s.target_id s.redactions items)

-- `redactions or None`
abbrev pub or_none : List (Text × ℕ) → Option (List (Text × ℕ))
or_none [] = none
or_none (r ∷ rs) = some (r ∷ rs)

pub data Purpose : Type 0 where
  enrich qa tool : Purpose

pub record EgressRow : Type 0 where
  pub id : ℕ
  pub purpose : Purpose
  pub model : Option Text
  pub sent_targets : List Text
  pub redactions : Option (List (Text × ℕ))

unfoldable pub next_log_id : List EgressRow → ℕ
next_log_id [] = 1
next_log_id (r ∷ rows) = max (suc r.id) (next_log_id rows)

-- `log_egress`, for a caller that gives neither provider, destination nor arguments.
unfoldable pub log_egress :
    Purpose
    → Option Text
    → List Text
    → Option (List (Text × ℕ))
    → List EgressRow
    → ℕ × List EgressRow
unfolding next_log_id
log_egress purpose model sent_targets redactions log =
    let id = next_log_id log in
    (
      id,
      record {
        id = id;
        purpose = purpose;
        model = model;
        sent_targets = sent_targets;
        redactions = redactions;
      }
          ∷ log,
    )

pub record QaEgress : Type 0 where
  pub sent : List RedactedSend
  pub withheld : List WithheldCitation
  pub egress_log_id : ℕ

unfoldable pub gate_qa_egress :
    Text → List PassageItem → List Pattern → List EgressRow → QaEgress × List EgressRow
unfolding partition_egress redact_all summary targets_of withheld_citations log_egress
gate_qa_egress model passages patterns log =
    let decision = partition_egress passages in
    let sent = redact_all patterns decision.sendable in
    let (id, log') = log_egress qa (some model) (targets_of sent) (or_none (summary sent [])) log in
    (
      record { sent = sent; withheld = withheld_citations decision.withheld; egress_log_id = id },
      log',
    )
