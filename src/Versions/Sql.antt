-- ===== src/Versions/Sql.antt =====
-- The single statements of versions.py on the tables, as functions on lists of rows.
use lode.Prelude.{
  ℕ, suc, Text, Bool, true, false, List, [], ◌∷◌, Option, none, some, str_eq, ◌&&◌, any,
  if◌then◌else◌,
}
use lode.Schema.{NoteRow, VersionRow, Source, ai, user, AnnotationRow}

-- `SELECT … WHERE note_id = ?`; the column is the primary key.
unfoldable pub find_note : Text → List NoteRow → Option NoteRow
find_note k [] = none
find_note k (n ∷ ns) = if str_eq n.note_id k then some n else find_note k ns

unfoldable pub find_version : Text → List VersionRow → Option VersionRow
find_version k [] = none
find_version k (v ∷ vs) = if str_eq v.version_id k then some v else find_version k vs

-- `UPDATE notes SET head_version_id = ? WHERE note_id = ? AND head_version_id = ?`, with the
-- number of rows that it changed.
unfoldable pub set_head_if : Text → Text → Text → List NoteRow → List NoteRow × ℕ
set_head_if k new expected [] = ([], 0)
set_head_if k new expected (n ∷ ns) =
    let (rest, count) = set_head_if k new expected ns in
    if str_eq n.note_id k && str_eq n.head_version_id expected
    then (record n { head_version_id = new } ∷ rest, suc count)
    else (n ∷ rest, count)

-- `UPDATE notes SET head_version_id = ? WHERE note_id = ?`
unfoldable pub set_head : Text → Text → List NoteRow → List NoteRow
set_head k new [] = []
set_head k new (n ∷ ns) =
    (if str_eq n.note_id k then record n { head_version_id = new } else n) ∷ set_head k new ns

-- `UPDATE notes SET no_egress = ? WHERE note_id = ?`
unfoldable pub set_flag : Text → Bool → List NoteRow → List NoteRow × ℕ
set_flag k flag [] = ([], 0)
set_flag k flag (n ∷ ns) =
    let (rest, count) = set_flag k flag ns in
    if str_eq n.note_id k
    then (record n { no_egress = flag } ∷ rest, suc count)
    else (n ∷ rest, count)

-- `SELECT version_id FROM versions WHERE note_id = ?`, newest first.
unfoldable pub ids_of : Text → List VersionRow → List Text
ids_of k [] = []
ids_of k (v ∷ vs) =
    let rest = ids_of k vs in if str_eq v.note_id k then v.version_id ∷ rest else rest

-- `UPDATE versions SET body = ?, purged_at = ? WHERE note_id = ?`, on one row.
unfoldable pub redact_row : Text → ℕ → Text → VersionRow → VersionRow
redact_row marker now k v =
    if str_eq v.note_id k then record v { body = marker; purged_at = some now } else v

abbrev pub is_ai : Source → Bool
is_ai ai = true
is_ai user = false

abbrev pub among : List Text → Option Text → Bool
among ids none = false
among ids (some i) = any (str_eq i) ids

-- `DELETE FROM annotations WHERE source = 'ai' AND source_version IN (…)`
unfoldable pub drop_ai : List Text → List AnnotationRow → List AnnotationRow
unfolding any
drop_ai ids [] = []
drop_ai ids (a ∷ rows) =
    let rest = drop_ai ids rows in
    if is_ai a.source && among ids a.source_version then rest else a ∷ rest
