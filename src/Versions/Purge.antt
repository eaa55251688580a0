-- ===== src/Versions/Purge.antt =====
-- `purge` of versions.py: what dies, and what survives.
use lode.Prelude.{
  ℕ, Text, true, false, List, [], ◌∷◌, Option, none, some, ◌≡◌, ◌≢◌, inl, inr, refl, sym, ap, ◌∙◌,
  str_eq, str_eq_iff, str_eq_ne, arith, if◌then◌else◌, Bool-cases, Option-cases, any, All, ◌&&◌,
}
use lode.Schema.{ai, VersionRow, AnnotationRow, Db}
use lode.Versions.Sql.{find_version, redact_row, ids_of, is_ai, among, drop_ai}
use lode.Versions.Rows.{
  find_version-map-redact_row, redacted, redact_row_hit, redact_row_miss, note_id-redact_row,
}
use lode.Versions.{head_row, purge, purge_core, purge_marker}

-- The user's own annotations.
abbrev pub users : List AnnotationRow → List AnnotationRow
users [] = []
users (a ∷ as') = let rest = users as' in if is_ai a.source then rest else a ∷ rest

-- An annotation that the AI derived from a version of the note `k`.
abbrev pub IsDerived : List VersionRow → Text → AnnotationRow → Type 0
IsDerived vs k a =
    (a.source ≡ ai)
    × (i : Text) × (v : VersionRow) × (a.source_version ≡ some i)
    × (find_version i vs ≡ some v)
    × (v.note_id ≡ k)

pub record IsPurged (db : Db) (k marker : Text) (now : ℕ) (db' : Db) : Type 0 where
  pub erased :
      (j : Text) (v : VersionRow)
      → find_version j db'.versions ≡ some v
      → v.note_id ≡ k
      → (v.body ≡ marker) × (v.purged_at ≡ some now)
  pub lineage :
      (j : Text) (v : VersionRow)
      → find_version j db.versions ≡ some v
      → (w : VersionRow) × (find_version j db'.versions ≡ some w)
        × (w.note_id ≡ v.note_id)
        × (w.parent_version_id ≡ v.parent_version_id)
        × (w.op ≡ v.op)
  pub others :
      (j : Text) (v : VersionRow)
      → find_version j db.versions ≡ some v
      → v.note_id ≢ k
      → find_version j db'.versions ≡ some v
  pub heads : db'.notes ≡ db.notes
  pub no_derived : All (λ a. ¬ (IsDerived db.versions k a)) db'.annotations
  pub users_kept : users db'.annotations ≡ users db.annotations

redact_row_mine :
    (marker : Text) (now : ℕ) (k : Text) (v : VersionRow)
    → v.note_id ≡ k
    → redact_row marker now k v ≡ record v { body = marker; purged_at = some now }
redact_row_mine marker now k v mine =
    redact_row_hit marker now k v ((str_eq_iff v.note_id k).1 mine)

erased_row :
    (marker : Text) (now : ℕ) (k : Text) (o : Option VersionRow) (w : VersionRow)
    → redacted marker now k o ≡ some w
    → w.note_id ≡ k
    → (w.body ≡ marker) × (w.purged_at ≡ some now)
erased_row marker now k none w e mine = cc
erased_row marker now k (some v) w e mine =
    let same : redact_row marker now k v ≡ w = cc e in
    let here =
      redact_row_mine marker now k v (
        sym (note_id-redact_row marker now k v) ∙ ap (λ (r : VersionRow). r.note_id) same ∙ mine) in
    let shape : record v { body = marker; purged_at = some now } ≡ w = sym here ∙ same in
    (ap (λ (r : VersionRow). r.body) (sym shape), ap (λ (r : VersionRow). r.purged_at) (sym shape))

lineage_row :
    (marker : Text) (now : ℕ) (k : Text) (v : VersionRow)
    → ((redact_row marker now k v).note_id ≡ v.note_id)
      × ((redact_row marker now k v).parent_version_id ≡ v.parent_version_id)
      × ((redact_row marker now k v).op ≡ v.op)
unfolding redact_row
lineage_row marker now k v = ground arith

any-ids_of :
    (i k : Text) (vs : List VersionRow) (v : VersionRow)
    → find_version i vs ≡ some v
    → v.note_id ≡ k
    → any (str_eq i) (ids_of k vs) ≡ true
unfolding find_version ids_of any
any-ids_of i k [] v found mine = cc
any-ids_of i k (w ∷ vs) v found mine = ground (
  arith,
  any-ids_of i k vs v,
  str_eq_iff w.version_id i,
  str_eq_iff i w.version_id,
  str_eq_iff w.note_id k,
)

not-IsDerived :
    (k : Text) (vs : List VersionRow) (a : AnnotationRow)
    → (is_ai a.source && among (ids_of k vs) a.source_version) ≡ false
    → ¬ (IsDerived vs k a)
not-IsDerived k vs a out (by_ai, i, v, at, found, mine) =
    ground (arith, any-ids_of i k vs v found mine)

drop_ai-All :
    (k : Text) (vs : List VersionRow) (rows : List AnnotationRow)
    → All (λ a. ¬ (IsDerived vs k a)) (drop_ai (ids_of k vs) rows)
unfolding drop_ai
drop_ai-All k vs [] = tt
drop_ai-All k vs (a ∷ rows) =
    elim (Bool-cases (is_ai a.source && among (ids_of k vs) a.source_version)) [
      | inl gone ↦ rw gone (drop_ai-All k vs rows)
      | inr kept ↦ rw kept (not-IsDerived k vs a kept, drop_ai-All k vs rows)
    ]

users-drop_ai :
    (ids : List Text) (rows : List AnnotationRow) → users (drop_ai ids rows) ≡ users rows
unfolding drop_ai
users-drop_ai ids [] = refl
users-drop_ai ids (a ∷ rows) = ground (arith, users-drop_ai ids rows)

-- A purge of a note that is there overwrites the body of every version of it, tombstones included,
-- and stamps it; keeps every id, parent and operation, all other notes' rows and all heads; drops
-- every AI annotation that was derived from the note, and keeps the user's annotations.
pub purge-IsPurged :
    (day : Text) (now : ℕ) (k : Text) (db : Db)
    → head_row db k ≢ none
    → IsPurged db k (purge_marker day) now (purge day now k db).1
purge-IsPurged day now k db there = elim (Option-cases (head_row db k)) [
  | inl absent ↦ absurd (there absent)
  | inr (head, found) ↦
      unfold purge in
      rw (found, purge_core)
        (record {
          erased = λ j v at mine.
              erased_row (purge_marker day) now k (find_version j db.versions) v
                (sym (find_version-map-redact_row (purge_marker day) now k j db.versions) ∙ at)
                mine;
          lineage = λ j v at.
              let (note, parent, op) = lineage_row (purge_marker day) now k v in
              (
                redact_row (purge_marker day) now k v,
                rw (find_version-map-redact_row, at),
                note,
                parent,
                op,
              );
          others = λ j v at other.
              rw (find_version-map-redact_row, at)
                (ap some (redact_row_miss _ now k v (str_eq_ne v.note_id k other)));
          heads = refl;
          no_derived = drop_ai-All k db.versions db.annotations;
          users_kept = users-drop_ai (ids_of k db.versions) db.annotations;
        })
]
