-- ===== src/Staleness.antt =====
-- staleness.py: how a save re-anchors the AI's annotations and edges of a note. The rows that a
-- SELECT returns are written back one by one, by their id; log calls are left out.
pub mod Rows
pub mod Verdicts
pub mod Rules
pub mod Examples
use lode.Prelude.{
  ℕ, suc, ◌+◌, Text, Bool, true, false, List, [], ◌∷◌, Option, none, some, str_eq, ◌&&◌, ◌==◌,
  if◌then◌else◌, contains,
}
use lode.Schema.{Source, ai, user, AnchorStatus, fresh, stale, orphaned, AnnotationRow, EdgeRow}
use lode.Versions.Sql.{is_ai}

-- `_classify`
unfoldable pub classify : Text → Option Text → Text → AnchorStatus
classify anchor_value (some quoted_text) new_body =
    if contains quoted_text new_body
    then fresh
    else if contains anchor_value new_body
    then stale
    else orphaned
classify anchor_value none new_body = if contains anchor_value new_body then fresh else orphaned

pub record Counts : Type 0 where
  pub fresh_count : ℕ
  pub stale_count : ℕ
  pub orphaned_count : ℕ

-- `counts[new_status] += 1`
abbrev pub counted : AnchorStatus → Counts → Counts
counted fresh c = record c { fresh_count = c.fresh_count + 1 }
counted stale c = record c { stale_count = c.stale_count + 1 }
counted orphaned c = record c { orphaned_count = c.orphaned_count + 1 }

abbrev pub no_counts : Counts
no_counts = record { fresh_count = 0; stale_count = 0; orphaned_count = 0 }

abbrev pub total : Counts → ℕ
total c = c.fresh_count + c.stale_count + c.orphaned_count

-- The parts that the two tables share: a SELECT, an UPDATE by id, and the loop over the rows.
module _ {Row : Type 0} (row_id : Row → ℕ) where
  unfoldable pub select_rows : (Row → Bool) → List Row → List Row
  select_rows test [] = []
  select_rows test (r ∷ rows) =
      let rest = select_rows test rows in if test r then r ∷ rest else rest

  unfoldable pub update_by_id : ℕ → (Row → Row) → List Row → List Row
  update_by_id k set [] = []
  update_by_id k set (r ∷ rows) = (if row_id r == k then set r else r) ∷ update_by_id k set rows

  -- `status` is the new status of a selected row, and `write` its UPDATE.
  unfoldable pub reanchor_rows :
      (Row → AnchorStatus)
      → (AnchorStatus → Row → Row)
      → List Row
      → Counts
      → List Row
      → Counts × List Row
  unfolding update_by_id
  reanchor_rows status write [] counts table = (counts, table)
  reanchor_rows status write (r ∷ selected) counts table =
      reanchor_rows status write selected (counted (status r) counts)
        (update_by_id (row_id r) (write (status r)) table)

abbrev pub annotation_id : AnnotationRow → ℕ
annotation_id a = a.id

abbrev pub edge_id : EdgeRow → ℕ
edge_id e = e.id

-- `WHERE target = ? AND source = 'ai'`
abbrev pub is_annotation_of : Text → AnnotationRow → Bool
is_annotation_of note_id a = str_eq a.target note_id && is_ai a.source

abbrev pub annotation_status : Text → AnnotationRow → AnchorStatus
annotation_status new_body a = classify a.anchor_value a.quoted_text new_body

-- The two UPDATEs: a fresh row also advances to the new version.
abbrev pub write_annotation : Text → AnchorStatus → AnnotationRow → AnnotationRow
write_annotation new_version_id fresh a = record a {
  status = fresh;
  source_version = some new_version_id;
}
write_annotation new_version_id stale a = record a { status = stale }
write_annotation new_version_id orphaned a = record a { status = orphaned }

unfoldable pub reanchor_annotations :
    Text → Text → Text → List AnnotationRow → Counts × List AnnotationRow
unfolding select_rows reanchor_rows classify
reanchor_annotations note_id new_version_id new_body table =
    reanchor_rows annotation_id (annotation_status new_body) (write_annotation new_version_id)
      (select_rows annotation_id (is_annotation_of note_id) table) no_counts table

-- `WHERE from_id = ? AND source = 'ai'`
abbrev pub is_edge_of : Text → EdgeRow → Bool
is_edge_of note_id e = str_eq e.from_id note_id && is_ai e.source

abbrev pub edge_status : Text → EdgeRow → AnchorStatus
edge_status new_body e = classify e.to_id e.quoted_text new_body

abbrev pub write_edge : Text → AnchorStatus → EdgeRow → EdgeRow
write_edge new_version_id fresh e = record e {
  status = fresh;
  source_version = some new_version_id;
}
write_edge new_version_id stale e = record e { status = stale }
write_edge new_version_id orphaned e = record e { status = orphaned }

unfoldable pub reanchor_edges : Text → Text → Text → List EdgeRow → Counts × List EdgeRow
unfolding select_rows reanchor_rows classify
reanchor_edges note_id new_version_id new_body table =
    reanchor_rows edge_id (edge_status new_body) (write_edge new_version_id)
      (select_rows edge_id (is_edge_of note_id) table) no_counts table
