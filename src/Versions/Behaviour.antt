-- ===== src/Versions/Behaviour.antt =====
-- The transactions of versions.py on a sound store as equations, and the heads that they leave.
use lode.Prelude.{
  Text, Bool, true, ◌∷◌, Option, none, some, ◌≡◌, inl, inr, str_eq, str_eq_refl, if◌then◌else◌,
  Option-cases, not,
}
use lode.Hashing.{Hashers, no_parent, content_version_id}
use lode.Schema.{Op, NoteRow, VersionRow, Db}
use lode.Versions.Sql.{find_note, find_version, set_head}
use lode.Versions.Rows.{find_version_key, find_version-cons_self, repoint, find_note-set_head}
use lode.Versions.Chain.{IsSound}
use lode.Versions.Outcomes.{
  new_row, appended, result, update_outcome, tombstone_outcome, create_outcome, append_update_lem,
  append_tombstone_lem, create_root_lem,
}
use lode.Versions.Keeps.{head_parts}
use lode.Versions.{
  Result, ok, err, head_conflict, SaveResult, Settings, head, updated, save_core, delete_core,
  or_default,
}

-- The outcome of `_save_core` by cases on the head.
abbrev pub save_outcome :
    Hashers
    → Settings
    → Db
    → Text
    → Text
    → Text
    → Option Bool
    → Option (Text × Text)
    → Result (SaveResult × Db)
save_outcome h settings db k b p flag none =
    if not (str_eq p no_parent)
    then err (head_conflict k p none none (some b))
    else create_outcome db k b (or_default flag settings.no_egress_default)
        (content_version_id h settings.content_hash k no_parent b)
save_outcome h settings db k b p flag (some (live, lb)) =
    if not (str_eq p live)
    then err (head_conflict k p (some live) (some lb) (some b))
    else if str_eq b lb
    then ok (result k live updated true, db)
    else update_outcome db k b live (content_version_id h settings.content_hash k live b)

module _ (h : Hashers) (settings : Settings) (db : Db)
    (s : IsSound h settings.content_hash db) where
  -- On a sound store `_save_core` is `save_outcome`, which has no swap that can fail and no nested
  -- statements: an absent note is created, unless the caller names a parent; a stale parent is a
  -- conflict with the live head, its body and the rejected text; an unchanged body writes nothing;
  -- and any other body is one new version at the head, or `IntegrityError` where its id is taken.
  pub save_core_lem :
      (k b p : Text) (flag : Option Bool)
      → save_core h settings k b p flag db ≡ save_outcome h settings db k b p flag (head db k)
  unfolding save_core
  save_core_lem k b p flag = elim (Option-cases (head db k)) [
    | inl absent ↦
        rw (absent, save_core, save_outcome) (create_root_lem h settings db s.keyed k b p flag)
    | inr ((live, lb), at) ↦
        let (n, v, rows) = head_parts h settings.content_hash db s k live lb at in
        rw (at, save_core, save_outcome)
          (append_update_lem h settings db s.keyed k b p live lb n rows.note_found rows.at_head)
  ]

  pub delete_core_lem :
      (k p live lb : Text)
      → head db k ≡ some (live, lb)
      → delete_core h settings k p db ≡ (
          if not (str_eq p live)
          then err (head_conflict k p (some live) (some lb) none)
          else tombstone_outcome db k lb live
              (content_version_id h settings.content_hash k live lb))
  unfolding delete_core
  delete_core_lem k p live lb at =
      let (n, v, rows) = head_parts h settings.content_hash db s k live lb at in
      rw (at, delete_core)
        (append_tombstone_lem h settings db s.keyed k p live lb n rows.note_found rows.at_head)

-- The head after a repointing to a row that is there.
pub head-set_head :
    (db : Db) (k i : Text) (n : NoteRow) (v : VersionRow)
    → find_note k db.notes ≡ some n
    → find_version i db.versions ≡ some v
    → head (record db { notes = set_head k i db.notes }) k ≡ some (i, v.body)
unfolding head
head-set_head db k i n v found at =
    rw (find_note-set_head k k i db.notes, str_eq_refl k, found, repoint)
      (rw at (cc (find_version_key i db.versions v at)))

pub head-appended :
    (db : Db) (k p b i : Text) (op : Op) (n : NoteRow)
    → find_note k db.notes ≡ some n
    → head (appended db k p b op i) k ≡ some (i, b)
head-appended db k p b i op n found =
    head-set_head (record db { versions = new_row i k p b op ∷ db.versions }) k i n
      (new_row i k p b op) found (find_version-cons_self (new_row i k p b op) db.versions)
