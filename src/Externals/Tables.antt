-- ===== src/Externals/Tables.antt =====
-- What the statements of externals.py do to the rows that a later statement finds.
use lode.Prelude.{
  ℕ, Text, Bool, false, List, [], ◌∷◌, Option, none, some, ◌≡◌, refl, ◌∙◌, str_eq, str_eq_iff,
  str_eq_refl, arith, if◌then◌else◌, Option-cases, inl, inr,
}
use lode.Schema.{ExternalRow, SnapshotRow}
use lode.Versions.{Settings}
use lode.Externals.{
  find_external, find_snapshot, insert_external, set_fetched_at, move_head, insert_snapshot,
}
use lode.Externals.Fetch.{flag_external}
use mathlib.Core.Option

pub find_external_key :
    (k : Text) (es : List ExternalRow) (e : ExternalRow)
    → find_external k es ≡ some e
    → e.external_id ≡ k
unfolding find_external
find_external_key k [] e h = cc
find_external_key k (x ∷ es) e h =
    ground (arith, str_eq_iff x.external_id k, find_external_key k es e)

pub find_snapshot_key :
    (k : Text) (ss : List SnapshotRow) (s : SnapshotRow)
    → find_snapshot k ss ≡ some s
    → s.snapshot_id ≡ k
unfolding find_snapshot
find_snapshot_key k [] s h = cc
find_snapshot_key k (x ∷ ss) s h =
    ground (arith, str_eq_iff x.snapshot_id k, find_snapshot_key k ss s)

abbrev pub or_new {ℓ} : {A : Type ℓ} → A → Option A → A
or_new new none = new
or_new new (some a) = a

abbrev pub new_external : Settings → Text → Text → Option Text → ExternalRow
new_external settings external_id source_type api_base = record {
  external_id = external_id;
  source_type = source_type;
  head_snapshot_id = none;
  no_egress = settings.no_egress_default;
  api_base = api_base;
}

insert_external-absent :
    (settings : Settings) (k t : Text) (a : Option Text) (es : List ExternalRow)
    → find_external k es ≡ none
    → (insert_external settings k t a es).0 ≡ new_external settings k t a ∷ es
unfolding insert_external
insert_external-absent settings k t a es absent = rw (absent, insert_external) refl

pub insert_external-present :
    (settings : Settings) (k t : Text) (a : Option Text) (es : List ExternalRow) (e : ExternalRow)
    → find_external k es ≡ some e
    → insert_external settings k t a es ≡ (es, false)
unfolding insert_external
insert_external-present settings k t a es e found = rw (found, insert_external) refl

pub find_external-insert_external :
    (j : Text) (settings : Settings) (k t : Text) (a : Option Text) (es : List ExternalRow)
    → find_external j (insert_external settings k t a es).0 ≡ (
        if str_eq k j
        then some (or_new (new_external settings k t a) (find_external j es))
        else find_external j es)
find_external-insert_external j settings k t a es = elim (Option-cases (find_external k es)) [
  | inl absent ↦
      rw (insert_external-absent settings k t a es absent)
        (unfold find_external in ground (arith, str_eq_iff k j))
  | inr (e, found) ↦
      rw (insert_external-present settings k t a es e found) (ground (arith, str_eq_iff k j))
]

abbrev pub with_head : Text → ExternalRow → ExternalRow
with_head i e = record e { head_snapshot_id = some i }

pub find_external-move_head :
    (j i k : Text) (es : List ExternalRow)
    → find_external j (move_head i k es)
      ≡ (if str_eq k j then Option.map (with_head i) (find_external j es) else find_external j es)
unfolding find_external move_head
find_external-move_head j i k [] = ground arith
find_external-move_head j i k (e ∷ es) = ground (
  arith,
  find_external-move_head j i k es,
  str_eq_iff e.external_id k,
  str_eq_iff e.external_id j,
  str_eq_iff k j,
)

abbrev pub with_flag : Bool → ExternalRow → ExternalRow
with_flag b e = record e { no_egress = b }

pub find_external-flag_external :
    (j k : Text) (b : Bool) (es : List ExternalRow)
    → find_external j (flag_external k b es).0
      ≡ (if str_eq k j then Option.map (with_flag b) (find_external j es) else find_external j es)
unfolding find_external flag_external
find_external-flag_external j k b [] = ground arith
find_external-flag_external j k b (e ∷ es) = ground (
  arith,
  find_external-flag_external j k b es,
  str_eq_iff e.external_id k,
  str_eq_iff e.external_id j,
  str_eq_iff k j,
)

abbrev pub with_time : ℕ → SnapshotRow → SnapshotRow
with_time t s = record s { fetched_at = t }

pub find_snapshot-set_fetched_at :
    (j : Text) (t : ℕ) (k : Text) (ss : List SnapshotRow)
    → find_snapshot j (set_fetched_at t k ss)
      ≡ (if str_eq k j then Option.map (with_time t) (find_snapshot j ss) else find_snapshot j ss)
unfolding find_snapshot set_fetched_at
find_snapshot-set_fetched_at j t k [] = ground arith
find_snapshot-set_fetched_at j t k (s ∷ ss) = ground (
  arith,
  find_snapshot-set_fetched_at j t k ss,
  str_eq_iff s.snapshot_id k,
  str_eq_iff s.snapshot_id j,
  str_eq_iff k j,
)

insert_snapshot-absent :
    (row : SnapshotRow) (ss : List SnapshotRow)
    → find_snapshot row.snapshot_id ss ≡ none
    → insert_snapshot row ss ≡ row ∷ ss
unfolding insert_snapshot
insert_snapshot-absent row ss absent = rw (absent, insert_snapshot) refl

pub insert_snapshot-present :
    (row : SnapshotRow) (ss : List SnapshotRow) (s : SnapshotRow)
    → find_snapshot row.snapshot_id ss ≡ some s
    → insert_snapshot row ss ≡ ss
unfolding insert_snapshot
insert_snapshot-present row ss s found = rw (found, insert_snapshot) refl

pub find_snapshot-insert_snapshot :
    (j : Text) (row : SnapshotRow) (ss : List SnapshotRow)
    → find_snapshot j (insert_snapshot row ss) ≡ (
        if str_eq row.snapshot_id j
        then some (or_new row (find_snapshot j ss))
        else find_snapshot j ss)
find_snapshot-insert_snapshot j row ss = elim (Option-cases (find_snapshot row.snapshot_id ss)) [
  | inl absent ↦
      rw (insert_snapshot-absent row ss absent)
        (unfold find_snapshot in ground (arith, str_eq_iff row.snapshot_id j))
  | inr (s, found) ↦
      rw (insert_snapshot-present row ss s found) (ground (arith, str_eq_iff row.snapshot_id j))
]

-- At the key itself.
pub find_external-insert_external_here :
    (settings : Settings) (k t : Text) (a : Option Text) (es : List ExternalRow)
    → find_external k (insert_external settings k t a es).0
      ≡ some (or_new (new_external settings k t a) (find_external k es))
find_external-insert_external_here settings k t a es =
    find_external-insert_external k settings k t a es ∙ rw (str_eq_refl k)

pub find_snapshot-insert_snapshot_here :
    (row : SnapshotRow) (ss : List SnapshotRow)
    → find_snapshot row.snapshot_id (insert_snapshot row ss)
      ≡ some (or_new row (find_snapshot row.snapshot_id ss))
find_snapshot-insert_snapshot_here row ss =
    find_snapshot-insert_snapshot row.snapshot_id row ss ∙ rw (str_eq_refl row.snapshot_id)
