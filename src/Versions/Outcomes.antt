-- ===== src/Versions/Outcomes.antt =====
-- What a successful operation of versions.py has done to a sound store: the ways in which each of
-- its transactions can end well.
use lode.Prelude.{
  Text, Bool, true, false, ◌∷◌, Option, none, some, ◌≡◌, inl, inr, refl, str_eq, arith,
  if◌then◌else◌, Bool-cases, not,
}
use lode.Hashing.{Hashers, no_parent, content_version_id}
use lode.Schema.{Op, create, update, delete, NoteRow, VersionRow, Db}
use lode.Versions.Sql.{find_note, find_version, set_head, set_head_if}
use lode.Versions.Rows.{IsKeyed, set_head_if_held}
use lode.Versions.{
  Result, ok, err, pure, ◌>>=◌, ◌>>◌, SaveResult, SavedOp, created, updated, deleted, head_conflict,
  value_error, integrity_error, Settings, parent_column, write_version, insert_note, cas_head,
  or_value_error, or_default, create_root, append_update, write_tombstone, append_tombstone,
}

abbrev pub new_row : Text → Text → Text → Text → Op → VersionRow
new_row version_id note_id parent body op = record {
  version_id = version_id;
  note_id = note_id;
  parent_version_id = parent_column parent;
  body = body;
  op = op;
  purged_at = none;
}

-- On a keyed table the compare-and-swap from the live head succeeds.
cas_head_held :
    (k new live : Text) (rejected : Option Text) (db : Db) (n : NoteRow)
    → IsKeyed db.notes
    → find_note k db.notes ≡ some n
    → n.head_version_id ≡ live
    → cas_head k new live rejected db ≡ ok (tt, record db { notes = set_head k new db.notes })
unfolding cas_head
cas_head_held k new live rejected db n u found at =
    let swap : set_head_if k new live db.notes ≡ (set_head k new db.notes, 1) =
      rw (← at) (set_head_if_held k new db.notes n u found) in
    rw swap

-- The rows behind a head that `_head` returns.
pub record IsHeadOf (db : Db) (k live body : Text) (n : NoteRow) (v : VersionRow) : Type 0 where
  pub note_found : find_note k db.notes ≡ some n
  pub at_head : n.head_version_id ≡ live
  pub version_found : find_version live db.versions ≡ some v
  pub owner : v.note_id ≡ k
  pub content : v.body ≡ body

-- The store with one more version of `k`, which is its head.
abbrev pub appended : Db → Text → Text → Text → Op → Text → Db
appended db k parent body op i = record db {
  notes = set_head k i db.notes;
  versions = new_row i k parent body op ∷ db.versions;
}

abbrev pub result : Text → Text → SavedOp → Bool → SaveResult
result k i op deduped = record { note_id = k; version_id = i; op = op; deduped = deduped }

-- The outcome of an update from the live head, once its id is known.
abbrev pub update_outcome : Db → Text → Text → Text → Option Text → Result (SaveResult × Db)
update_outcome db k body live none = err value_error
update_outcome db k body live (some i) = elim (find_version i db.versions) [
  | some taken ↦ err integrity_error
  | none ↦ ok (result k i updated false, appended db k live body update i)
]

-- The outcome of a delete of the live head.
abbrev pub tombstone_outcome : Db → Text → Text → Text → Option Text → Result (SaveResult × Db)
tombstone_outcome db k lb live none = err value_error
tombstone_outcome db k lb live (some i) = elim (find_version i db.versions) [
  | none ↦ ok (result k i deleted false, appended db k live lb delete i)
  | some v ↦
      if str_eq v.note_id k
      then ok (result k i deleted false, record db { notes = set_head k i db.notes })
      else err integrity_error
]

-- The store with a new note and its root.
abbrev pub rooted : Db → Text → Text → Bool → Text → Db
rooted db k body flag i = record db {
  notes = record { note_id = k; head_version_id = i; no_egress = flag } ∷ db.notes;
  versions = new_row i k no_parent body create ∷ db.versions;
}

-- The outcome of a create.
abbrev pub create_outcome : Db → Text → Text → Bool → Option Text → Result (SaveResult × Db)
create_outcome db k body flag none = err value_error
create_outcome db k body flag (some i) = elim (find_note k db.notes) [
  | some taken ↦ err integrity_error
  | none ↦ elim (find_version i db.versions) [
    | some taken ↦ err integrity_error
    | none ↦ ok (result k i created false, rooted db k body flag i)
  ]
]

module _ (h : Hashers) (settings : Settings) (db : Db) (u : IsKeyed db.notes) where
  -- The last three statements of an update, once its id is known.
  update_tail :
      (k b live : Text) (n : NoteRow) (o : Option Text)
      → find_note k db.notes ≡ some n
      → n.head_version_id ≡ live
      → (do
        i ← or_value_error o
        write_version i k live b update
        cas_head k i live (some b)
        pure (result k i updated false))
          db
        ≡ update_outcome db k b live o
  unfolding write_version
  update_tail k b live n none found at = refl
  update_tail k b live n (some i) found at =
      let db' = record db { versions = new_row i k live b update ∷ db.versions } in
      ground (arith, cas_head_held k i live (some b) db' n u found at)

  -- An update of the note `k` from the head `live`, on every branch: a stale parent is a conflict
  -- that hands the body back, an unchanged body writes nothing, and the swap of the head never fails.
  pub append_update_lem :
      (k b p live lb : Text) (n : NoteRow)
      → find_note k db.notes ≡ some n
      → n.head_version_id ≡ live
      → append_update h settings k b p live lb db ≡ (
          if not (str_eq p live)
          then err (head_conflict k p (some live) (some lb) (some b))
          else if str_eq b lb
          then ok (result k live updated true, db)
          else update_outcome db k b live (content_version_id h settings.content_hash k live b))
  unfolding append_update
  append_update_lem k b p live lb n found at = elim (Bool-cases (str_eq p live)) [
    | inr stale ↦ rw stale
    | inl held ↦ rw held (elim (Bool-cases (str_eq b lb)) [
      | inl same ↦ rw same
      | inr changed ↦
          rw changed
            (update_tail k b live n (content_version_id h settings.content_hash k live b) found at)
    ])
  ]

  tombstone_tail :
      (k lb live : Text) (n : NoteRow) (o : Option Text)
      → find_note k db.notes ≡ some n
      → n.head_version_id ≡ live
      → (do
        i ← or_value_error o
        existing ← λ db. ok (find_version i db.versions, db)
        write_tombstone existing i k live lb
        cas_head k i live none
        pure (result k i deleted false))
          db
        ≡ tombstone_outcome db k lb live o
  unfolding write_version
  tombstone_tail k lb live n none found at = refl
  tombstone_tail k lb live n (some i) found at =
      let db' = record db { versions = new_row i k live lb delete ∷ db.versions } in
      ground (
        arith,
        cas_head_held k i live none db' n u found at,
        cas_head_held k i live none db n u found at,
      )

  -- A delete of the note `k` at the head `live`, on every branch: the tombstone carries the head's
  -- body, and one that the chain holds already is used again.
  pub append_tombstone_lem :
      (k p live lb : Text) (n : NoteRow)
      → find_note k db.notes ≡ some n
      → n.head_version_id ≡ live
      → append_tombstone h settings k p live lb db ≡ (
          if not (str_eq p live)
          then err (head_conflict k p (some live) (some lb) none)
          else tombstone_outcome db k lb live
              (content_version_id h settings.content_hash k live lb))
  unfolding append_tombstone
  append_tombstone_lem k p live lb n found at = elim (Bool-cases (str_eq p live)) [
    | inr stale ↦ rw stale
    | inl held ↦
        rw held (
          tombstone_tail k lb live n (content_version_id h settings.content_hash k live lb) found
            at)
  ]

  create_tail :
      (k b : Text) (flag : Bool) (o : Option Text)
      → (do
        i ← or_value_error o
        insert_note k i flag
        write_version i k no_parent b create
        pure (result k i created false))
          db
        ≡ create_outcome db k b flag o
  unfolding write_version insert_note
  create_tail k b flag none = refl
  create_tail k b flag (some i) = ground arith

  -- A save of an absent note, on every branch: a caller that names a parent has a conflict with no
  -- head, and any other creates the note with its root version and its flag.
  pub create_root_lem :
      (k b p : Text) (no_egress : Option Bool)
      → create_root h settings k b p no_egress db ≡ (
          if not (str_eq p no_parent)
          then err (head_conflict k p none none (some b))
          else create_outcome db k b
              (or_default no_egress settings.no_egress_default)
              (content_version_id h settings.content_hash k no_parent b))
  unfolding create_root
  create_root_lem k b p no_egress = elim (Bool-cases (str_eq p no_parent)) [
    | inr stale ↦ rw stale
    | inl fresh ↦ rw fresh (
        create_tail k b (or_default no_egress settings.no_egress_default)
          (content_version_id h settings.content_hash k no_parent b))
  ]
