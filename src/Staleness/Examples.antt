-- ===== src/Staleness/Examples.antt =====
-- A note that is re-anchored against a new body.
use lode.Prelude.{
  Text, codes, [], ◌∷◌, Option, some, ◌≡◌, refl, length, starts_with, contains, arith,
}
use lode.Schema.{fresh, stale, AnnotationRow, EdgeRow, ai, user}
use lode.Staleness.{
  classify, total, annotation_id, is_annotation_of, select_rows, reanchor_annotations,
}
use lode.Staleness.Verdicts.{AreReanchored}
use lode.Staleness.Rules.{reanchor_annotations_lem}
use lode.Staleness.Rows.{HasIds}

abbrev note : Text
note = codes "n1"

abbrev body : Text
body = codes "ship the beta"

abbrev tag : AnnotationRow
tag = record {
  id = 1;
  target = note;
  source_version = some (codes "v1");
  anchor_value = codes "beta";
  source = ai;
  status = fresh;
  quoted_text = some (codes "the alpha");
}

abbrev of_user : AnnotationRow
of_user = record tag { id = 2; source = user }

abbrev link : EdgeRow
link = record {
  id = 4;
  from_id = note;
  to_id = codes "n9";
  source = ai;
  source_version = some (codes "v1");
  quoted_text = some (codes "ship");
  status = stale;
}

classified : classify (codes "beta") (some (codes "the alpha")) body ≡ stale
unfolding classify contains starts_with
classified = refl

abbrev lost_quote : Option Text
lost_quote = some (codes "the alpha")

two-HasIds : HasIds annotation_id (tag ∷ of_user ∷ [])
two-HasIds = (((λ e. omega (arith, e)), tt), (tt, tt))

reanchor_annotations_lem_example :
    AreReanchored note
      (codes "v2")
      body
      (tag ∷ of_user ∷ [])
      (reanchor_annotations note (codes "v2") body (tag ∷ of_user ∷ [])).1
    × (total (reanchor_annotations note (codes "v2") body (tag ∷ of_user ∷ [])).0
        ≡ length (select_rows annotation_id (is_annotation_of note) (tag ∷ of_user ∷ [])))
reanchor_annotations_lem_example =
    reanchor_annotations_lem note (codes "v2") body (tag ∷ of_user ∷ []) two-HasIds
