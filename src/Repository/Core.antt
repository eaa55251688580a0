-- ===== src/Repository/Core.antt =====
-- The part of a save of repository.py that versions.py does: how it can end on a sound store.
use lode.Prelude.{
  Text, Bool, Option, none, some, ◌≡◌, refl, sym, subst, str_eq, if◌then◌else◌, Bool-cases,
  Option-cases, inl, inr,
}
use lode.Hashing.{Hashers, no_parent, content_version_id}
use lode.Schema.{update, create, NoteRow, Db}
use lode.Versions.{Result, ok, err, SaveResult, Settings, head, save_core, or_default}
use lode.Versions.Sql.{find_note, find_version}
use lode.Versions.Rows.{find_note-cons_self, find_version-cons_self}
use lode.Versions.Chain.{IsSound}
use lode.Versions.Outcomes.{update_outcome, create_outcome, rooted, new_row}
use lode.Versions.Keeps.{head_parts}
use lode.Versions.Behaviour.{save_outcome, save_core_lem, head-appended}

-- A save that is not a repetition leaves its version at the note's head, and a repetition nothing.
abbrev pub IsCore : Text → Text → Db → Result (SaveResult × Db) → Type 0
IsCore k b db (err e) = Unit
IsCore k b db (ok (r, db')) =
    if r.deduped then (db' ≡ db) else (head db' k ≡ some (r.version_id, b))

head-rooted :
    (db : Db) (k b : Text) (flag : Bool) (i : Text) → head (rooted db k b flag i) k ≡ some (i, b)
unfolding head
head-rooted db k b flag i =
    rw
      (find_note-cons_self (record { note_id = k; head_version_id = i; no_egress = flag }) db.notes)
      (rw (find_version-cons_self (new_row i k no_parent b create) db.versions) refl)

create-IsCore :
    (db : Db) (k b : Text) (flag : Bool) (o : Option Text)
    → IsCore k b db (create_outcome db k b flag o)
create-IsCore db k b flag none = tt
create-IsCore db k b flag (some i) = elim (Option-cases (find_note k db.notes)) [
  | inr (n, taken) ↦ rw (taken, create_outcome) tt
  | inl free ↦ elim (Option-cases (find_version i db.versions)) [
    | inr (v, taken) ↦ rw (free, create_outcome, taken) tt
    | inl new ↦ rw (free, create_outcome, new) (head-rooted db k b flag i)
  ]
]

update-IsCore :
    (db : Db) (k b live : Text) (n : NoteRow) (o : Option Text)
    → find_note k db.notes ≡ some n
    → IsCore k b db (update_outcome db k b live o)
update-IsCore db k b live n none found = tt
update-IsCore db k b live n (some i) found = elim (Option-cases (find_version i db.versions)) [
  | inr (v, taken) ↦ rw (taken, update_outcome) tt
  | inl new ↦ rw (new, update_outcome) (head-appended db k live b i update n found)
]

pub save_core-IsCore :
    (h : Hashers) (settings : Settings) (db : Db) (k b p : Text) (flag : Option Bool)
    → IsSound h settings.content_hash db
    → IsCore k b db (save_core h settings k b p flag db)
save_core-IsCore h settings db k b p flag s =
    subst (IsCore k b db) (sym (save_core_lem h settings db s k b p flag))
      (at_head (head db k) refl)
  where
    at_head :
        (o : Option (Text × Text))
        → head db k ≡ o
        → IsCore k b db (save_outcome h settings db k b p flag o)
    at_head none at = elim (Bool-cases (str_eq p no_parent)) [
      | inr named ↦ rw (named, save_outcome) tt
      | inl root ↦
          rw (root, save_outcome)
            (create-IsCore db k b (or_default flag settings.no_egress_default)
              (content_version_id h settings.content_hash k no_parent b))
    ]
    at_head (some (live, lb)) at = elim (Bool-cases (str_eq p live)) [
      | inr stale ↦ rw (stale, save_outcome) tt
      | inl held ↦ elim (Bool-cases (str_eq b lb)) [
        | inl same ↦ rw (held, save_outcome, same) refl
        | inr other ↦
            let (n, v, rows) = head_parts h settings.content_hash db s k live lb at in
            rw (held, save_outcome, other)
              (update-IsCore db k b live n (content_version_id h settings.content_hash k live b)
                rows.note_found)
      ]
    ]
