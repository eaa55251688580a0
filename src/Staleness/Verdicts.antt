-- ===== src/Staleness/Verdicts.antt =====
-- The verdict of staleness.py on one annotation, as the module documents it.
use lode.Prelude.{
  Text, ◌≡◌, ◌≢◌, refl, str_eq, str_eq_refl, str_eq_iff, true, false, List, [], ◌∷◌, Option, none,
  some, map, if◌then◌else◌, arith, Bool-cases, inl, inr, ◌⊎◌, contains, Occurs, contains_iff,
}
use lode.Schema.{AnchorStatus, fresh, stale, orphaned, AnnotationRow, Source, ai}
use lode.Versions.Sql.{is_ai}
use lode.Staleness.{classify, is_annotation_of, annotation_status, write_annotation}

Occurs-cases :
    (needle text : Text)
    → ((contains needle text ≡ true) × Occurs needle text)
      ⊎ ((contains needle text ≡ false) × ¬ Occurs needle text)
Occurs-cases needle text = elim (Bool-cases (contains needle text)) [
  | inl found ↦ inl (found, (contains_iff needle text).0 found)
  | inr absent ↦ inr (absent, λ o. cc (absent, (contains_iff needle text).1 o))
]

-- The text that a row is anchored by: its quote if it has one, or else its anchor value.
abbrev pub anchor : Text → Option Text → Text
anchor value none = value
anchor value (some quote) = quote

-- A row is fresh exactly when the text that anchors it (its quote if it has one, or else its value)
-- occurs in the new body; stale when it has a quote that does not occur, and its value does;
-- and orphaned when neither occurs.
pub classify_lem :
    (value : Text) (quote : Option Text) (body : Text)
    → ((classify value quote body ≡ fresh) × Occurs (anchor value quote) body)
      ⊎ (((classify value quote body ≡ stale)
            × (quote ≢ none)
            × (¬ Occurs (anchor value quote) body)
            × Occurs value body)
          ⊎ ((classify value quote body ≡ orphaned)
              × (¬ Occurs (anchor value quote) body)
              × (¬ Occurs value body)))
unfolding classify
classify_lem value none body = elim (Occurs-cases value body) [
  | inl (found, here) ↦ inl (rw found refl, here)
  | inr (absent, gone) ↦ inr (inr (rw absent refl, gone, gone))
]
classify_lem value (some quote) body = elim (Occurs-cases quote body) [
  | inl (found, here) ↦ inl (rw found refl, here)
  | inr (absent, gone) ↦ elim (Occurs-cases value body) [
    | inl (found, here) ↦ inr (inl (rw (absent, found) refl, (λ e. cc e), gone, here))
    | inr (lost, away) ↦ inr (inr (rw (absent, lost) refl, gone, away))
  ]
]

-- What a save of `note_id` makes of one annotation.
abbrev pub reanchored : Text → Text → Text → AnnotationRow → AnnotationRow
reanchored note_id new_version_id new_body a =
    if is_annotation_of note_id a
    then write_annotation new_version_id (annotation_status new_body a) a
    else a

pub write_annotation_id :
    (v : Text) (s : AnchorStatus) (a : AnnotationRow) → (write_annotation v s a).id ≡ a.id
write_annotation_id v fresh a = refl
write_annotation_id v stale a = refl
write_annotation_id v orphaned a = refl

-- The verdict on an annotation, with what the row holds after it.
abbrev pub Verdict : Text → Text → AnnotationRow → AnnotationRow → Type 0
Verdict new_version_id new_body a b =
    ((b.status ≡ fresh)
      × (b.source_version ≡ some new_version_id)
      × Occurs (anchor a.anchor_value a.quoted_text) new_body)
    ⊎ (((b.status ≡ stale)
          × (b.source_version ≡ a.source_version)
          × (a.quoted_text ≢ none)
          × (¬ Occurs (anchor a.anchor_value a.quoted_text) new_body)
          × Occurs a.anchor_value new_body)
        ⊎ ((b.status ≡ orphaned)
            × (b.source_version ≡ a.source_version)
            × (¬ Occurs (anchor a.anchor_value a.quoted_text) new_body)
            × (¬ Occurs a.anchor_value new_body)))

-- A row of the table before a save, and what the table holds in its place after it.
pub record IsReanchored (note_id new_version_id new_body : Text) (a b : AnnotationRow)
    : Type 0 where
  pub same_id : b.id ≡ a.id
  pub same_target : b.target ≡ a.target
  pub same_value : b.anchor_value ≡ a.anchor_value
  pub same_source : b.source ≡ a.source
  pub same_quote : b.quoted_text ≡ a.quoted_text
  pub judged :
      ((a.target ≡ note_id) × (a.source ≡ ai) × Verdict new_version_id new_body a b)
      ⊎ ((¬ ((a.target ≡ note_id) × (a.source ≡ ai))) × (b ≡ a))

-- Two tables with as many rows, of which each is related to the one in its place.
abbrev pub AreReanchored : Text → Text → Text → List AnnotationRow → List AnnotationRow → Type 0
AreReanchored note_id v body [] [] = Unit
AreReanchored note_id v body (a ∷ rows) (b ∷ bs) =
    IsReanchored note_id v body a b × AreReanchored note_id v body rows bs
AreReanchored note_id v body _ _ = ⊥

write_annotation-Verdict :
    (v body : Text) (a : AnnotationRow)
    → Verdict v body a (write_annotation v (annotation_status body a) a)
write_annotation-Verdict v body a = elim (classify_lem a.anchor_value a.quoted_text body) [
  | inl (is_fresh, here) ↦ rw is_fresh (inl (refl, refl, here))
  | inr (inl (is_stale, quoted, gone, here)) ↦
      rw is_stale (inr (inl (refl, refl, quoted, gone, here)))
  | inr (inr (is_orphaned, gone, away)) ↦ rw is_orphaned (inr (inr (refl, refl, gone, away)))
]

is_ai_iff : (s : Source) → is_ai s ≡ true → s ≡ ai
is_ai_iff s h = ground arith

is_annotation_of-of :
    (note_id : Text) (a : AnnotationRow)
    → is_annotation_of note_id a ≡ true
    → (a.target ≡ note_id) × (a.source ≡ ai)
is_annotation_of-of note_id a h = elim (Bool-cases (str_eq a.target note_id)) [
  | inr other ↦ absurd (cc (rw other at h))
  | inl same ↦ ((str_eq_iff a.target note_id).0 same, is_ai_iff a.source (rw same at h))
]

of-is_annotation_of :
    (note_id : Text) (a : AnnotationRow)
    → (a.target ≡ note_id) × (a.source ≡ ai)
    → is_annotation_of note_id a ≡ true
of-is_annotation_of note_id a (e, s) = rw (e, s, str_eq_refl note_id) refl

written-IsReanchored :
    (note_id v body : Text) (a : AnnotationRow) (s : AnchorStatus)
    → (a.target ≡ note_id) × (a.source ≡ ai)
    → Verdict v body a (write_annotation v s a)
    → IsReanchored note_id v body a (write_annotation v s a)
written-IsReanchored note_id v body a s mine verdict = record {
  same_id = write_annotation_id v s a;
  same_target = ground arith;
  same_value = ground arith;
  same_source = ground arith;
  same_quote = ground arith;
  judged = inl (mine.0, mine.1, verdict);
}

pub reanchored-IsReanchored :
    (note_id v body : Text) (a : AnnotationRow)
    → IsReanchored note_id v body a (reanchored note_id v body a)
reanchored-IsReanchored note_id v body a = elim (Bool-cases (is_annotation_of note_id a)) [
  | inl mine ↦ rw mine (
      written-IsReanchored note_id v body a (annotation_status body a)
        (is_annotation_of-of note_id a mine) (write_annotation-Verdict v body a))
  | inr other ↦ rw other (record {
    same_id = refl;
    same_target = refl;
    same_value = refl;
    same_source = refl;
    same_quote = refl;
    judged = inr ((λ m. cc (other, of-is_annotation_of note_id a m)), refl);
  })
]

pub map-AreReanchored :
    (note_id v body : Text) (table : List AnnotationRow)
    → AreReanchored note_id v body table (map (reanchored note_id v body) table)
map-AreReanchored note_id v body [] = tt
map-AreReanchored note_id v body (a ∷ rows) =
    (reanchored-IsReanchored note_id v body a, map-AreReanchored note_id v body rows)
