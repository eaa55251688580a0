-- ===== src/Versions/Rows.antt =====
-- What the statements of versions.py do to the rows that a later statement finds.
use lode.Prelude.{
  ℕ, Text, Bool, true, false, List, [], ◌∷◌, map, Option, none, some, ◌≡◌, refl, str_eq, str_eq_iff,
  str_eq_refl, arith, if◌then◌else◌,
}
use lode.Schema.{NoteRow, VersionRow}
use lode.Versions.Sql.{find_note, find_version, set_head_if, set_head, set_flag, redact_row}

-- A row that is found has the key that was looked for.
pub find_note_key :
    (k : Text) (ns : List NoteRow) (n : NoteRow) → find_note k ns ≡ some n → n.note_id ≡ k
unfolding find_note
find_note_key k [] n h = cc
find_note_key k (m ∷ ns) n h = ground (arith, str_eq_iff m.note_id k, find_note_key k ns n)

pub find_version_key :
    (k : Text) (vs : List VersionRow) (v : VersionRow)
    → find_version k vs ≡ some v
    → v.version_id ≡ k
unfolding find_version
find_version_key k [] v h = cc
find_version_key k (w ∷ vs) v h = ground (arith, str_eq_iff w.version_id k, find_version_key k vs v)

-- Note ids are a primary key: no row's id occurs further down.
abbrev pub IsKeyed : List NoteRow → Type 0
IsKeyed [] = Unit
IsKeyed (n ∷ ns) = (find_note n.note_id ns ≡ none) × IsKeyed ns

-- An older row is found below a new row whose id was free.
pub find_version-cons_old :
    (w v : VersionRow) (j : Text) (vs : List VersionRow)
    → find_version w.version_id vs ≡ none
    → find_version j vs ≡ some v
    → find_version j (w ∷ vs) ≡ some v
unfolding find_version
find_version-cons_old w v j vs free found = ground (arith, str_eq_iff w.version_id j)

pub find_version-cons_self :
    (w : VersionRow) (vs : List VersionRow) → find_version w.version_id (w ∷ vs) ≡ some w
unfolding find_version
find_version-cons_self w vs = rw (str_eq_refl w.version_id)

pub find_note-cons_self : (n : NoteRow) (ns : List NoteRow) → find_note n.note_id (n ∷ ns) ≡ some n
unfolding find_note
find_note-cons_self n ns = rw (str_eq_refl n.note_id)

-- Repointing a head that no row has, or that the one row has.
abbrev pub repoint : Text → Option NoteRow → Option NoteRow
repoint new none = none
repoint new (some n) = some (record n { head_version_id = new })

pub find_note-set_head :
    (j k new : Text) (ns : List NoteRow)
    → find_note j (set_head k new ns)
      ≡ (if str_eq j k then repoint new (find_note j ns) else find_note j ns)
unfolding find_note set_head
find_note-set_head j k new [] = ground arith
find_note-set_head j k new (n ∷ ns) = ground (
  arith,
  find_note-set_head j k new ns,
  str_eq_iff n.note_id k,
  str_eq_iff n.note_id j,
  str_eq_iff j k,
)

pub set_head-IsKeyed : (k new : Text) (ns : List NoteRow) → IsKeyed ns → IsKeyed (set_head k new ns)
unfolding set_head
set_head-IsKeyed k new [] h = tt
set_head-IsKeyed k new (n ∷ ns) h =
    ground (arith, set_head-IsKeyed k new ns h.1, find_note-set_head n.note_id k new ns)

set_head-absent :
    (k new : Text) (ns : List NoteRow) → find_note k ns ≡ none → set_head k new ns ≡ ns
unfolding set_head find_note
set_head-absent k new [] h = refl
set_head-absent k new (n ∷ ns) h = ground (arith, set_head-absent k new ns)

set_head_if-absent :
    (k new expected : Text) (ns : List NoteRow)
    → find_note k ns ≡ none
    → set_head_if k new expected ns ≡ (ns, 0)
unfolding set_head_if find_note
set_head_if-absent k new expected [] h = refl
set_head_if-absent k new expected (n ∷ ns) h = ground (arith, set_head_if-absent k new expected ns)

-- The compare-and-swap on a keyed table repoints the one row whose head is the expected one.
pub set_head_if_held :
    (k new : Text) (ns : List NoteRow) (n : NoteRow)
    → IsKeyed ns
    → find_note k ns ≡ some n
    → set_head_if k new n.head_version_id ns ≡ (set_head k new ns, 1)
unfolding set_head_if set_head find_note
set_head_if_held k new [] n u h = cc
set_head_if_held k new (m ∷ ns) n u h = ground (
  arith,
  set_head_if_held k new ns n,
  set_head_if-absent k new n.head_version_id ns,
  set_head-absent k new ns,
  str_eq_iff m.note_id k,
  str_eq_refl n.head_version_id,
)

find_note-set_flag-absent :
    (j k : Text) (flag : Bool) (ns : List NoteRow)
    → find_note j ns ≡ none
    → find_note j (set_flag k flag ns).0 ≡ none
unfolding find_note set_flag
find_note-set_flag-absent j k flag [] h = refl
find_note-set_flag-absent j k flag (n ∷ ns) h =
    ground (arith, find_note-set_flag-absent j k flag ns)

pub set_flag-IsKeyed :
    (k : Text) (flag : Bool) (ns : List NoteRow) → IsKeyed ns → IsKeyed (set_flag k flag ns).0
unfolding set_flag
set_flag-IsKeyed k flag [] h = tt
set_flag-IsKeyed k flag (n ∷ ns) h =
    ground
      (arith, set_flag-IsKeyed k flag ns h.1, find_note-set_flag-absent n.note_id k flag ns h.0)

-- Setting a flag keeps every row's id and head.
abbrev pub head_column : Option NoteRow → Option Text
head_column none = none
head_column (some n) = some n.head_version_id

pub head_column-set_flag :
    (j k : Text) (flag : Bool) (ns : List NoteRow)
    → head_column (find_note j (set_flag k flag ns).0) ≡ head_column (find_note j ns)
unfolding find_note set_flag
head_column-set_flag j k flag [] = refl
head_column-set_flag j k flag (n ∷ ns) = ground (arith, head_column-set_flag j k flag ns)

-- A purge rewrites rows in place.
abbrev pub redacted : Text → ℕ → Text → Option VersionRow → Option VersionRow
redacted marker now k none = none
redacted marker now k (some v) = some (redact_row marker now k v)

pub version_id-redact_row :
    (marker : Text) (now : ℕ) (k : Text) (v : VersionRow)
    → (redact_row marker now k v).version_id ≡ v.version_id
unfolding redact_row
version_id-redact_row marker now k v = ground arith

pub note_id-redact_row :
    (marker : Text) (now : ℕ) (k : Text) (v : VersionRow)
    → (redact_row marker now k v).note_id ≡ v.note_id
unfolding redact_row
note_id-redact_row marker now k v = ground arith

pub find_version-map-redact_row :
    (marker : Text) (now : ℕ) (k j : Text) (vs : List VersionRow)
    → find_version j (map (redact_row marker now k) vs) ≡ redacted marker now k (find_version j vs)
unfolding find_version
find_version-map-redact_row marker now k j [] = refl
find_version-map-redact_row marker now k j (v ∷ vs) =
    ground
      (arith, find_version-map-redact_row marker now k j vs, version_id-redact_row marker now k v)

pub redact_row_hit :
    (marker : Text) (now : ℕ) (k : Text) (v : VersionRow)
    → str_eq v.note_id k ≡ true
    → redact_row marker now k v ≡ record v { body = marker; purged_at = some now }
unfolding redact_row
redact_row_hit marker now k v same = rw same

pub redact_row_miss :
    (marker : Text) (now : ℕ) (k : Text) (v : VersionRow)
    → str_eq v.note_id k ≡ false
    → redact_row marker now k v ≡ v
unfolding redact_row
redact_row_miss marker now k v other = rw other
