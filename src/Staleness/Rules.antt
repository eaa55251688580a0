-- ===== src/Staleness/Rules.antt =====
-- The re-anchoring of staleness.py on the whole tables.
use lode.Prelude.{
  Text, ◌≡◌, refl, sym, subst, ◌∙◌, List, map, length, if◌then◌else◌, arith, Bool-cases, inl, inr,
}
use lode.Schema.{AnchorStatus, fresh, stale, orphaned, AnnotationRow, EdgeRow}
use lode.Staleness.{
  total, no_counts, select_rows, annotation_id, is_annotation_of, annotation_status,
  write_annotation, reanchor_annotations, edge_id, is_edge_of, edge_status, write_edge,
  reanchor_edges,
}
use lode.Staleness.Verdicts.{AreReanchored, map-AreReanchored, reanchored, write_annotation_id}
use lode.Staleness.Rows.{HasIds, reanchor_rows_lem, total-reanchor_rows, map-HasIds, map_twice}

reanchor_annotations-map :
    (note_id new_version_id new_body : Text) (table : List AnnotationRow)
    → HasIds annotation_id table
    → (reanchor_annotations note_id new_version_id new_body table).1
      ≡ map (reanchored note_id new_version_id new_body) table
unfolding reanchor_annotations
reanchor_annotations-map note_id v body table u =
    reanchor_rows_lem annotation_id (annotation_status body) (write_annotation v)
      (is_annotation_of note_id) no_counts table (write_annotation_id v) u

-- Where annotation ids are unique, the loop of updates by id leaves each row of the table in its
-- place. An AI annotation of the note is fresh, and of the new version, where its quote, or its value
-- if it has no quote, occurs in the new body; stale, where it has a quote that does not occur, and
-- its value does; and orphaned, where neither occurs; a stale or orphaned one keeps its version.
-- Every other row, so each annotation of the user, is as it was. The counts add up to the number of
-- the AI annotations of the note.
pub reanchor_annotations_lem :
    (note_id new_version_id new_body : Text) (table : List AnnotationRow)
    → HasIds annotation_id table
    → AreReanchored note_id new_version_id new_body table
        (reanchor_annotations note_id new_version_id new_body table).1
      × (total (reanchor_annotations note_id new_version_id new_body table).0
          ≡ length (select_rows annotation_id (is_annotation_of note_id) table))
unfolding reanchor_annotations
reanchor_annotations_lem note_id v body table u = (
  subst (AreReanchored note_id v body table) (sym (reanchor_annotations-map note_id v body table u))
      (map-AreReanchored note_id v body table),
  omega (
    arith,
    total-reanchor_rows annotation_id (annotation_status body) (write_annotation v)
        (select_rows annotation_id (is_annotation_of note_id) table) no_counts table,
  ),
)

same_write :
    (v : Text) (s : AnchorStatus) (a : AnnotationRow)
    → write_annotation v s (write_annotation v s a) ≡ write_annotation v s a
same_write v fresh a = refl
same_write v stale a = refl
same_write v orphaned a = refl

same_kind :
    (note_id v : Text) (s : AnchorStatus) (a : AnnotationRow)
    → is_annotation_of note_id (write_annotation v s a) ≡ is_annotation_of note_id a
same_kind note_id v fresh a = refl
same_kind note_id v stale a = refl
same_kind note_id v orphaned a = refl

same_status :
    (body v : Text) (s : AnchorStatus) (a : AnnotationRow)
    → annotation_status body (write_annotation v s a) ≡ annotation_status body a
same_status body v fresh a = refl
same_status body v stale a = refl
same_status body v orphaned a = refl

reanchored_id :
    (note_id v body : Text) (a : AnnotationRow) → (reanchored note_id v body a).id ≡ a.id
reanchored_id note_id v body a = elim (Bool-cases (is_annotation_of note_id a)) [
  | inl mine ↦ rw mine (write_annotation_id v (annotation_status body a) a)
  | inr other ↦ rw other refl
]

reanchored_twice :
    (note_id v body : Text) (a : AnnotationRow)
    → reanchored note_id v body (reanchored note_id v body a) ≡ reanchored note_id v body a
reanchored_twice note_id v body a = elim (Bool-cases (is_annotation_of note_id a)) [
  | inl mine ↦ rw mine (
      rw
        (
          same_kind note_id v (annotation_status body a) a,
          mine,
          same_status body v (annotation_status body a) a,
        )
        (same_write v (annotation_status body a) a))
  | inr other ↦ rw (other, other) refl
]

-- Where annotation ids are unique, to re-anchor a second time against the same version and body
-- changes no annotation.
pub reanchor_annotations_idem :
    (note_id new_version_id new_body : Text) (table : List AnnotationRow)
    → HasIds annotation_id table
    → (reanchor_annotations note_id new_version_id new_body
        (reanchor_annotations note_id new_version_id new_body table).1).1
      ≡ (reanchor_annotations note_id new_version_id new_body table).1
reanchor_annotations_idem note_id v body table u =
    let f = reanchored note_id v body in
    let once = reanchor_annotations-map note_id v body table u in
    let ids = map-HasIds annotation_id f table (reanchored_id note_id v body) u in
    rw once (
      (reanchor_annotations-map note_id v body (map f table) ids)
      ∙ map_twice annotation_id f table (reanchored_twice note_id v body))

-- What a save of `note_id` makes of one edge.
abbrev pub reanchored_edge : Text → Text → Text → EdgeRow → EdgeRow
reanchored_edge note_id new_version_id new_body e =
    if is_edge_of note_id e then write_edge new_version_id (edge_status new_body e) e else e

write_edge_id : (v : Text) (s : AnchorStatus) (e : EdgeRow) → (write_edge v s e).id ≡ e.id
write_edge_id v fresh e = refl
write_edge_id v stale e = refl
write_edge_id v orphaned e = refl

-- Where edge ids are unique, the loop of updates by id changes each AI edge from the note by its own
-- classification, with the other end's id as its value, and no other row; the counts add up to the
-- number of those rows.
pub reanchor_edges_lem :
    (note_id new_version_id new_body : Text) (table : List EdgeRow)
    → HasIds edge_id table
    → ((reanchor_edges note_id new_version_id new_body table).1
        ≡ map (reanchored_edge note_id new_version_id new_body) table)
      × (total (reanchor_edges note_id new_version_id new_body table).0
          ≡ length (select_rows edge_id (is_edge_of note_id) table))
unfolding reanchor_edges
reanchor_edges_lem note_id v body table u = (
  reanchor_rows_lem edge_id (edge_status body) (write_edge v) (is_edge_of note_id) no_counts table
      (write_edge_id v) u,
  omega (
    arith,
    total-reanchor_rows edge_id (edge_status body) (write_edge v)
        (select_rows edge_id (is_edge_of note_id) table) no_counts table,
  ),
)
