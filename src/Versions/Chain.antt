-- ===== src/Versions/Chain.antt =====
-- The invariant of the version store of versions.py.
pub mod Push
pub mod Redact
use lode.Prelude.{
  ℕ, Text, Bool, true, false, List, [], ◌∷◌, map, Option, none, some, ◌≡◌, ◌≢◌, ◌⊎◌, inl, inr, refl,
  sym, ap, ◌∙◌, str_eq, str_eq_iff, str_eq_refl, arith, if◌then◌else◌, Bool-cases, Option-cases,
}
use lode.Hashing.{Hashers, no_parent, content_version_id}
use lode.Schema.{Op, create, update, delete, NoteRow, VersionRow, Db}
use lode.Versions.Sql.{find_note, find_version, set_head, set_flag, redact_row, set_head_if}
use lode.Versions.Rows.{
  find_note_key, find_version_key, IsKeyed, find_version-cons_old, find_version-cons_self,
  find_note-cons_self, find_note-set_head, repoint, set_head-IsKeyed, set_head_if_held,
  set_flag-IsKeyed, head_column, head_column-set_flag, find_version-map-redact_row, redacted,
  version_id-redact_row, note_id-redact_row,
}
use lode.Versions.{Settings, parent_column, head_row, head}

-- The parent of a version is an older version of the same note.
abbrev pub IsParent : List VersionRow → Text → Option Text → Type 0
IsParent older note_id none = Unit
IsParent older note_id (some p) =
    (w : VersionRow) × (find_version p older ≡ some w) × (w.note_id ≡ note_id)

abbrev pub parent_text : Option Text → Text
parent_text none = no_parent
parent_text (some p) = p

abbrev pub IsRooted : Op → Option Text → Type 0
IsRooted create parent = parent ≡ none
IsRooted update parent = (p : Text) × (parent ≡ some p)
IsRooted delete parent = (p : Text) × (parent ≡ some p)

-- A row against the older rows: a new id that is not empty, a parent in the chain exactly where it is no root, and an
-- id that is the content address of the row until a purge.
pub record IsLinked (h : Hashers) (content_hash : Text) (v : VersionRow) (older : List VersionRow)
    : Type 0 where
  pub fresh : find_version v.version_id older ≡ none
  pub parent : IsParent older v.note_id v.parent_version_id
  pub named : v.version_id ≢ []
  pub rooted : IsRooted v.op v.parent_version_id
  pub address :
      v.purged_at ≡ none
      → content_version_id h content_hash v.note_id (parent_text v.parent_version_id) v.body
        ≡ some v.version_id

abbrev pub IsChain : Hashers → Text → List VersionRow → Type 0
IsChain h c [] = Unit
IsChain h c (v ∷ older) = IsLinked h c v older × IsChain h c older

-- A head is a version of its own note, so the deferred foreign key holds at every commit.
abbrev pub IsHeaded : List VersionRow → Text → Option Text → Type 0
IsHeaded vs note_id none = Unit
IsHeaded vs note_id (some i) =
    (v : VersionRow) × (find_version i vs ≡ some v) × (v.note_id ≡ note_id)

pub record IsSound (h : Hashers) (content_hash : Text) (db : Db) : Type 0 where
  pub keyed : IsKeyed db.notes
  pub chain : IsChain h content_hash db.versions
  pub headed : (k : Text) → IsHeaded db.versions k (head_column (find_note k db.notes))
  pub owned :
      (j : Text) (v : VersionRow)
      → find_version j db.versions ≡ some v
      → find_note v.note_id db.notes ≢ none
