-- ===== src/Versions.antt =====
-- versions.py: the version-save path. A statement on the connection is an action of `Txn`; what
-- raises ends the action with an error, and `with_conn` (Python's `with conn:`) then rolls back.
-- The hash libraries and the clock are arguments.
pub mod Sql
pub mod Rows
pub mod Chain
pub mod Outcomes
pub mod Keeps
pub mod Step
pub mod Behaviour
pub mod Conflicts
pub mod Frame
pub mod Requests
pub mod Purge
pub mod Redelete
pub mod Resave
pub mod Examples
use lode.Prelude.{
  ℕ, Text, Bool, true, false, List, [], ◌∷◌, ◌++◌, map, Option, none, some, str_eq, codes, not,
  ◌&&◌, ◌==◌, if◌then◌else◌, any,
}
use lode.Hashing.{Hashers, no_parent, content_version_id}
use lode.Schema.{
  Op, create, update, delete, NoteRow, VersionRow, Source, ai, user, AnnotationRow, Db,
}
use Sql.{find_note, find_version, redact_row, ids_of, drop_ai, set_head_if, set_head, set_flag}
use mathlib.Core.List.{reverse}

-- What the module raises: `HeadConflictError`, `KeyError`, sqlite3's `IntegrityError` on a primary
-- key that is taken, and the `ValueError` of a failed hash.
pub data Err : Type 0 where
  head_conflict :
      (note_id expected_parent : Text) (actual_head actual_head_body rejected_buffer : Option Text)
      → Err
  key_error : Text → Err
  integrity_error : Err
  value_error : Err

pub data Result {ℓ} (A : Type ℓ) : Type ℓ where
  ok : A → Result A
  err : Err → Result A

abbrev pub Txn {ℓ} : Type ℓ → Type ℓ
Txn A = Db → Result (A × Db)

infixl 5 ◌>>=◌ ◌>>◌
abbrev pub ◌>>=◌ {ℓ κ} : {A : Type ℓ} {B : Type κ} → Txn A → (A → Txn B) → Txn B
◌>>=◌ m f db = elim (m db) [ ok (a, db') ↦ f a db' | err e ↦ err e ]

abbrev pub ◌>>◌ {ℓ κ} : {A : Type ℓ} {B : Type κ} → Txn A → Txn B → Txn B
m >> k = m >>= λ _. k

abbrev pub pure {ℓ} : {A : Type ℓ} → A → Txn A
pure a db = ok (a, db)

abbrev pub raise {ℓ} : {A : Type ℓ} → Err → Txn A
raise e db = err e

-- `with conn:`
abbrev pub committed {ℓ} : {A : Type ℓ} → Db → Result (A × Db) → Result A × Db
committed db (ok (a, db')) = (ok a, db')
committed db (err e) = (err e, db)

unfoldable pub with_conn {ℓ} : {A : Type ℓ} → Txn A → Db → Result A × Db
with_conn m db = committed db (m db)

pub data SavedOp : Type 0 where
  created updated deleted recovered : SavedOp

pub record SaveResult : Type 0 where
  pub note_id : Text
  pub version_id : Text
  pub op : SavedOp
  pub deduped : Bool

pub record PurgeResult : Type 0 where
  pub note_id : Text
  pub head_version_id : Text
  pub head_op : Op
  pub marker_body : Text
  pub purged_versions : List Text

pub record Settings : Type 0 where
  pub content_hash : Text
  pub no_egress_default : Bool

-- The `notes` row joined to its head's `versions` row.
abbrev head_of : List VersionRow → Option NoteRow → Option VersionRow
head_of vs none = none
head_of vs (some n) = find_version n.head_version_id vs

unfoldable pub head_row : Db → Text → Option VersionRow
unfolding find_note find_version
head_row db note_id = head_of db.versions (find_note note_id db.notes)

abbrev pub id_and_body : Option VersionRow → Option (Text × Text)
id_and_body none = none
id_and_body (some v) = some (v.version_id, v.body)

-- `_head`: the two columns, or nothing where the note is absent.
unfoldable pub head : Db → Text → Option (Text × Text)
unfolding head_row
head db note_id = id_and_body (head_row db note_id)

-- `parent or None`
abbrev pub parent_column : Text → Option Text
parent_column [] = none
parent_column (c ∷ s) = some (c ∷ s)

-- The primary key of `versions` refuses an id that is taken.
unfoldable pub write_version : Text → Text → Text → Text → Op → Txn (Unit {0})
unfolding find_version
write_version version_id note_id parent body op db = elim (find_version version_id db.versions) [
  | some taken ↦ err integrity_error
  | none ↦ ok (
    tt,
    record db {
      versions =
          record {
            version_id = version_id;
            note_id = note_id;
            parent_version_id = parent_column parent;
            body = body;
            op = op;
            purged_at = none;
          }
          ∷ db.versions;
    },
  )
]

unfoldable pub insert_note : Text → Text → Bool → Txn (Unit {0})
unfolding find_note
insert_note note_id version_id no_egress db = elim (find_note note_id db.notes) [
  | some taken ↦ err integrity_error
  | none ↦ ok (
    tt,
    record db {
      notes =
          record { note_id = note_id; head_version_id = version_id; no_egress = no_egress }
          ∷ db.notes;
    },
  )
]

abbrev pub conflict : Text → Text → Option (Text × Text) → Option Text → Err
conflict note_id expected none rejected = head_conflict note_id expected none none rejected
conflict note_id expected (some (h, b)) rejected =
    head_conflict note_id expected (some h) (some b) rejected

-- `_cas_head`: on a lost race the live head is read again for the error.
unfoldable pub cas_head : Text → Text → Text → Option Text → Txn (Unit {0})
unfolding set_head_if head
cas_head note_id new_head expected_parent rejected_buffer db =
    let (rows, rowcount) = set_head_if note_id new_head expected_parent db.notes in
    let db' = record db { notes = rows } in
    if rowcount == 1
    then ok (tt, db')
    else err (conflict note_id expected_parent (head db' note_id) rejected_buffer)

abbrev pub or_value_error : Option Text → Txn Text
or_value_error none db = err value_error
or_value_error (some i) db = ok (i, db)

abbrev pub or_default : Option Bool → Bool → Bool
or_default none d = d
or_default (some b) d = b

-- The tombstone's row is written only where the chain does not hold it already.
abbrev pub write_tombstone : Option VersionRow → Text → Text → Text → Text → Txn (Unit {0})
write_tombstone (some v) version_id note_id live body =
    if str_eq v.note_id note_id then pure tt else write_version version_id note_id live body delete
write_tombstone none version_id note_id live body =
    write_version version_id note_id live body delete

module _ (h : Hashers) (settings : Settings) where
  unfoldable pub version_id_of : Text → Text → Text → Txn Text
  version_id_of note_id parent body =
      or_value_error (content_version_id h settings.content_hash note_id parent body)

  -- The note is absent: a root version, or a conflict where the caller names a parent.
  unfoldable pub create_root : Text → Text → Text → Option Bool → Txn SaveResult
  unfolding version_id_of insert_note write_version
  create_root note_id body parent no_egress =
      if not (str_eq parent no_parent)
      then raise (head_conflict note_id parent none none (some body))
      else do
        version_id ← version_id_of note_id no_parent body
        insert_note note_id version_id (or_default no_egress settings.no_egress_default)
        write_version version_id note_id no_parent body create
        pure (record { note_id = note_id; version_id = version_id; op = created; deduped = false })

  -- The note is present, at the head `live` with the body `live_body`.
  unfoldable pub append_update : Text → Text → Text → Text → Text → Txn SaveResult
  unfolding version_id_of write_version cas_head
  append_update note_id body parent live live_body =
      if not (str_eq parent live)
      then raise (head_conflict note_id parent (some live) (some live_body) (some body))
      else if str_eq body live_body
      then pure (record { note_id = note_id; version_id = live; op = updated; deduped = true })
      else do
        version_id ← version_id_of note_id live body
        write_version version_id note_id live body update
        cas_head note_id version_id live (some body)
        pure (record { note_id = note_id; version_id = version_id; op = updated; deduped = false })

  unfoldable pub save_core : Text → Text → Text → Option Bool → Txn SaveResult
  unfolding create_root append_update
  save_core note_id body parent no_egress db = elim (head db note_id) [
    | none ↦ create_root note_id body parent no_egress db
    | some (live, live_body) ↦ append_update note_id body parent live live_body db
  ]

  unfoldable pub save : Text → Text → Text → Db → Result SaveResult × Db
  unfolding with_conn save_core
  save note_id body parent = with_conn (save_core note_id body parent none)

  unfoldable pub append_tombstone : Text → Text → Text → Text → Txn SaveResult
  unfolding version_id_of write_version cas_head find_version
  append_tombstone note_id parent live live_body =
      if not (str_eq parent live)
      then raise (head_conflict note_id parent (some live) (some live_body) none)
      else do
        version_id ← version_id_of note_id live live_body
        existing ← λ db. ok (find_version version_id db.versions, db)
        write_tombstone existing version_id note_id live live_body
        cas_head note_id version_id live none
        pure (record { note_id = note_id; version_id = version_id; op = deleted; deduped = false })

  unfoldable pub delete_core : Text → Text → Txn SaveResult
  unfolding append_tombstone
  delete_core note_id parent db = elim (head db note_id) [
    | none ↦ err (key_error note_id)
    | some (live, live_body) ↦ append_tombstone note_id parent live live_body db
  ]

  unfoldable pub delete_note : Text → Text → Db → Result SaveResult × Db
  unfolding with_conn delete_core
  delete_note note_id parent = with_conn (delete_core note_id parent)

abbrev pub belongs : Text → Option VersionRow → Bool
belongs note_id none = false
belongs note_id (some v) = str_eq v.note_id note_id

unfoldable pub recover_core : Text → Text → Txn SaveResult
unfolding find_version set_head
recover_core note_id target_version db =
    if belongs note_id (find_version target_version db.versions)
    then ok (
      record { note_id = note_id; version_id = target_version; op = recovered; deduped = false },
      record db { notes = set_head note_id target_version db.notes },
    )
    else err (key_error target_version)

unfoldable pub recover : Text → Text → Db → Result SaveResult × Db
unfolding with_conn recover_core
recover note_id target_version = with_conn (recover_core note_id target_version)

-- `f"[purged {now:%Y-%m-%d}]"`, where `day` is the formatted date.
unfoldable pub purge_marker : Text → Text
purge_marker day = codes "[purged " ++ day ++ codes "]"

-- `day` and `now` are the clock's reading, as a date and as a timestamp.
unfoldable pub purge_core : Text → ℕ → Text → Txn PurgeResult
unfolding redact_row ids_of drop_ai purge_marker
purge_core day now note_id db = elim (head_row db note_id) [
  | none ↦ err (key_error note_id)
  | some v ↦
      let version_ids = ids_of note_id db.versions in
      let marker = purge_marker day in
      ok (
        record {
          note_id = note_id;
          head_version_id = v.version_id;
          head_op = v.op;
          marker_body = marker;
          purged_versions = reverse version_ids;
        },
        record db {
          versions = map (redact_row marker now note_id) db.versions;
          annotations = drop_ai version_ids db.annotations;
        },
      )
]

unfoldable pub purge : Text → ℕ → Text → Db → Result PurgeResult × Db
unfolding with_conn purge_core
purge day now note_id = with_conn (purge_core day now note_id)

-- The result says whether there was a row to flip.
unfoldable pub set_no_egress : Text → Bool → Db → Bool × Db
unfolding set_flag
set_no_egress note_id no_egress db =
    let (rows, rowcount) = set_flag note_id no_egress db.notes in
    (not (rowcount == 0), record db { notes = rows })

-- A request to the store, and the store after it, whether it ended well or raised.
pub data Request : Type 0 where
  saves : (note_id body parent : Text) → Option Bool → Request
  deletes : (note_id parent : Text) → Request
  recovers : (note_id target_version : Text) → Request
  purges : (day : Text) → ℕ → (note_id : Text) → Request
  flags : (note_id : Text) → Bool → Request

module _ (h : Hashers) (settings : Settings) where
  unfoldable pub step : Db → Request → Db
  step db (saves k b p flag) = (with_conn (save_core h settings k b p flag) db).1
  step db (deletes k p) = (delete_note h settings k p db).1
  step db (recovers k i) = (recover k i db).1
  step db (purges day now k) = (purge day now k db).1
  step db (flags k flag) = (set_no_egress k flag db).1

  unfoldable pub run : Db → List Request → Db
  run db [] = db
  run db (r ∷ rs) = run (step db r) rs

abbrev pub empty_db : Db
empty_db = record { notes = []; versions = []; annotations = []; edges = [] }
