-- ===== src/Versions/Frame.antt =====
-- What the requests of versions.py leave alone: the rows that are written already, and the heads of
-- other notes.
use lode.Prelude.{
  Text, Bool, List, ◌∷◌, Option, none, some, ◌≡◌, ◌≢◌, ◌⊎◌, inl, inr, refl, sym, str_eq, str_eq_iff,
  str_eq_ne, arith, Bool-cases, Option-cases,
}
use lode.Hashing.{Hashers, no_parent}
use lode.Schema.{Op, create, update, delete, NoteRow, VersionRow, Db}
use lode.Versions.Sql.{find_note, find_version, set_head}
use lode.Versions.Rows.{find_version-cons_old, find_note-set_head, head_column}
use lode.Versions.Chain.{IsSound, IsHeaded}
use lode.Versions.Outcomes.{
  new_row, appended, rooted, update_outcome, tombstone_outcome, create_outcome,
}
use lode.Versions.Behaviour.{save_outcome, save_core_lem, delete_core_lem}
use lode.Versions.{
  Result, ok, err, Settings, head, head_of, id_and_body, committed, save_core, delete_core,
  recover_core, belongs,
}

-- At most one row more, in front of the old rows.
abbrev pub Extends : List VersionRow → List VersionRow → Type 0
Extends vs vs' = (vs' ≡ vs) ⊎ ((w : VersionRow) × (vs' ≡ w ∷ vs))

-- A request on the note `k` has left the rows and the other notes' heads alone.
pub record IsFramed (db : Db) (k : Text) (db' : Db) : Type 0 where
  pub rows : Extends db.versions db'.versions
  pub heads : (j : Text) → j ≢ k → head db' j ≡ head db j

abbrev pub Frames {ℓ} : {A : Type ℓ} → Db → Text → Result (A × Db) → Type 0
Frames db k (ok (a, db')) = IsFramed db k db'
Frames db k (err e) = Unit

pub IsFramed-refl : (db : Db) (k : Text) → IsFramed db k db
IsFramed-refl db k = record { rows = inl refl; heads = λ j ne. refl }

pub Frames-committed {ℓ} :
    {A : Type ℓ} (db : Db) (k : Text) (r : Result (A × Db))
    → Frames db k r
    → IsFramed db k (committed db r).1
Frames-committed db k (ok (a, db')) f = f
Frames-committed db k (err e) f = IsFramed-refl db k

find_note-set_head_ne :
    (j k i : Text) (ns : List NoteRow) → j ≢ k → find_note j (set_head k i ns) ≡ find_note j ns
find_note-set_head_ne j k i ns ne = ground (arith, find_note-set_head j k i ns, str_eq_iff j k)

set_head-IsFramed :
    (db : Db) (k i : Text) → IsFramed db k (record db { notes = set_head k i db.notes })
unfolding head
set_head-IsFramed db k i = record {
  rows = inl refl;
  heads = λ j ne. rw (find_note-set_head_ne j k i db.notes ne);
}

-- A head that is found below one more row.
head-push :
    (db : Db) (w : VersionRow) (o : Option NoteRow) (k : Text)
    → find_version w.version_id db.versions ≡ none
    → IsHeaded db.versions k (head_column o)
    → id_and_body (head_of (w ∷ db.versions) o) ≡ id_and_body (head_of db.versions o)
head-push db w none k free t = refl
head-push db w (some n) k free (v, found, mine) =
    rw (found, find_version-cons_old w v n.head_version_id db.versions free found)

module _ (h : Hashers) (c : Text) (db : Db) (s : IsSound h c db) where
  appended-IsFramed :
      (k p b i : Text) (op : Op)
      → find_version i db.versions ≡ none
      → IsFramed db k (appended db k p b op i)
  unfolding head
  appended-IsFramed k p b i op free = record {
    rows = inr (new_row i k p b op, refl);
    heads = λ j ne.
        rw (find_note-set_head_ne j k i db.notes ne)
          (head-push db (new_row i k p b op) (find_note j db.notes) j free (s.headed j));
  }

  rooted-IsFramed :
      (k b i : Text) (flag : Bool)
      → find_version i db.versions ≡ none
      → IsFramed db k (rooted db k b flag i)
  unfolding head find_note
  rooted-IsFramed k b i flag free = record {
    rows = inr (new_row i k no_parent b create, refl);
    heads = λ j ne.
        rw (str_eq_ne k j (λ e. ne (sym e))) (
          head-push db (new_row i k no_parent b create) (find_note j db.notes) j free (s.headed j));
  }

  update_outcome-Frames :
      (k b live : Text) (o : Option Text) → Frames db k (update_outcome db k b live o)
  update_outcome-Frames k b live none = tt
  update_outcome-Frames k b live (some i) = elim (Option-cases (find_version i db.versions)) [
    | inr (w, taken) ↦ rw (taken, update_outcome) tt
    | inl free ↦ rw (free, update_outcome) (appended-IsFramed k live b i update free)
  ]

  tombstone_outcome-Frames :
      (k lb live : Text) (o : Option Text) → Frames db k (tombstone_outcome db k lb live o)
  tombstone_outcome-Frames k lb live none = tt
  tombstone_outcome-Frames k lb live (some i) = elim (Option-cases (find_version i db.versions)) [
    | inl free ↦ rw (free, tombstone_outcome) (appended-IsFramed k live lb i delete free)
    | inr (w, taken) ↦
        rw (taken, tombstone_outcome)
          (elim (Bool-cases (str_eq w.note_id k)) [
            | inr other ↦ rw other tt
            | inl mine ↦ rw mine (set_head-IsFramed db k i)
          ])
  ]

  create_outcome-Frames :
      (k b : Text) (flag : Bool) (o : Option Text) → Frames db k (create_outcome db k b flag o)
  create_outcome-Frames k b flag none = tt
  create_outcome-Frames k b flag (some i) = elim (Option-cases (find_note k db.notes)) [
    | inr (n, there) ↦ rw (there, create_outcome) tt
    | inl absent ↦ elim (Option-cases (find_version i db.versions)) [
      | inr (w, taken) ↦ rw (absent, taken, create_outcome) tt
      | inl free ↦ rw (absent, free, create_outcome) (rooted-IsFramed k b i flag free)
    ]
  ]

module _ (h : Hashers) (settings : Settings) (db : Db)
    (s : IsSound h settings.content_hash db) where
  save_outcome-Frames :
      (k b p : Text) (flag : Option Bool) (o : Option (Text × Text))
      → Frames db k (save_outcome h settings db k b p flag o)
  save_outcome-Frames k b p flag none = elim (Bool-cases (str_eq p no_parent)) [
    | inr stale ↦ rw (stale, save_outcome) tt
    | inl fresh ↦
        rw (fresh, save_outcome) (create_outcome-Frames h settings.content_hash db s k b _ _)
  ]
  save_outcome-Frames k b p flag (some (live, lb)) = elim (Bool-cases (str_eq p live)) [
    | inr stale ↦ rw (stale, save_outcome) tt
    | inl held ↦ elim (Bool-cases (str_eq b lb)) [
      | inl same ↦ rw (held, same, save_outcome) (IsFramed-refl db k)
      | inr changed ↦
          rw (held, changed, save_outcome)
            (update_outcome-Frames h settings.content_hash db s k b live _)
    ]
  ]

  pub save_core-Frames :
      (k b p : Text) (flag : Option Bool) → Frames db k (save_core h settings k b p flag db)
  save_core-Frames k b p flag =
      rw (save_core_lem h settings db s k b p flag) (save_outcome-Frames k b p flag (head db k))

  pub delete_core-Frames : (k p : Text) → Frames db k (delete_core h settings k p db)
  delete_core-Frames k p = elim (Option-cases (head db k)) [
    | inl absent ↦ unfold delete_core in rw (absent, Frames) tt
    | inr ((live, lb), at) ↦
        rw (delete_core_lem h settings db s k p live lb at) (elim (Bool-cases (str_eq p live)) [
          | inr stale ↦ rw stale tt
          | inl held ↦ rw held (tombstone_outcome-Frames h settings.content_hash db s k lb live _)
        ])
  ]

pub recover_core-Frames : (db : Db) (k i : Text) → Frames db k (recover_core k i db)
unfolding recover_core
recover_core-Frames db k i = elim (Bool-cases (belongs k (find_version i db.versions))) [
  | inr other ↦ rw other tt
  | inl mine ↦ rw mine (set_head-IsFramed db k i)
]
