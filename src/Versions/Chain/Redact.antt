-- ===== src/Versions/Chain/Redact.antt =====
-- The invariant of the version store after the rewrite of a purge.
use lode.Prelude.{
  ℕ, Text, List, [], ◌∷◌, map, Option, none, some, ◌≡◌, ◌≢◌, inl, inr, refl, sym, ap, ◌∙◌, str_eq,
  Bool-cases,
}
use lode.Hashing.{Hashers}
use lode.Schema.{NoteRow, VersionRow, Db}
use lode.Versions.Sql.{find_note, find_version, redact_row}
use lode.Versions.Rows.{
  head_column, find_version-map-redact_row, redacted, redact_row_hit, redact_row_miss,
  note_id-redact_row,
}
use lode.Versions.Chain.{IsParent, IsLinked, IsChain, IsHeaded, IsSound}

map_free :
    (marker : Text) (now : ℕ) (k j : Text) (vs : List VersionRow)
    → find_version j vs ≡ none
    → find_version j (map (redact_row marker now k) vs) ≡ none
map_free marker now k j vs free = rw (find_version-map-redact_row, free)

-- A row that is found is found again, rewritten.
map_found :
    (marker : Text) (now : ℕ) (k j : Text) (vs : List VersionRow) (v : VersionRow) (note_id : Text)
    → find_version j vs ≡ some v
    → v.note_id ≡ note_id
    → (w : VersionRow) × (find_version j (map (redact_row marker now k) vs) ≡ some w)
      × (w.note_id ≡ note_id)
map_found marker now k j vs v note_id found mine = (
  redact_row marker now k v,
  rw (find_version-map-redact_row, found),
  note_id-redact_row marker now k v ∙ mine,
)

IsParent-map :
    (marker : Text) (now : ℕ) (k : Text) (vs : List VersionRow) (note_id : Text) (o : Option Text)
    → IsParent vs note_id o
    → IsParent (map (redact_row marker now k) vs) note_id o
IsParent-map marker now k vs note_id none t = tt
IsParent-map marker now k vs note_id (some p) (v, found, mine) =
    map_found marker now k p vs v note_id found mine

IsHeaded-map :
    (marker : Text) (now : ℕ) (k : Text) (vs : List VersionRow) (note_id : Text) (o : Option Text)
    → IsHeaded vs note_id o
    → IsHeaded (map (redact_row marker now k) vs) note_id o
IsHeaded-map marker now k vs note_id none t = tt
IsHeaded-map marker now k vs note_id (some i) (v, found, mine) =
    map_found marker now k i vs v note_id found mine

redacted-eq-some :
    (marker : Text) (now : ℕ) (k : Text) (o : Option VersionRow) (w : VersionRow)
    → redacted marker now k o ≡ some w
    → (v : VersionRow) × (o ≡ some v) × (w.note_id ≡ v.note_id)
redacted-eq-some marker now k none w e = cc
redacted-eq-some marker now k (some v) w e =
    let same : redact_row marker now k v ≡ w = cc e in
    (v, refl, ap (λ (r : VersionRow). r.note_id) (sym same) ∙ note_id-redact_row marker now k v)

owned-map :
    (marker : Text) (now : ℕ) (k : Text) (ns : List NoteRow) (vs : List VersionRow) (j : Text)
    (w : VersionRow)
    → ((v : VersionRow) → find_version j vs ≡ some v → find_note v.note_id ns ≢ none)
    → find_version j (map (redact_row marker now k) vs) ≡ some w
    → find_note w.note_id ns ≢ none
owned-map marker now k ns vs j w old at =
    let (v, found, same) =
      redacted-eq-some marker now k (find_version j vs) w
        (sym (find_version-map-redact_row marker now k j vs) ∙ at) in
    rw same (old v found)

module _ (h : Hashers) (c : Text) where
  -- A purge keeps ids, parents and operations; the addresses of the rewritten rows are given up.
  IsLinked-redact_row :
      (marker : Text) (now : ℕ) (k : Text) (v : VersionRow) (vs : List VersionRow)
      → IsLinked h c v vs
      → IsLinked h c (redact_row marker now k v) (map (redact_row marker now k) vs)
  IsLinked-redact_row marker now k v vs l = elim (Bool-cases (str_eq v.note_id k)) [
    | inl same ↦ rw (redact_row_hit marker now k v same) (record {
      fresh = map_free marker now k v.version_id vs l.fresh;
      parent = IsParent-map marker now k vs v.note_id v.parent_version_id l.parent;
      named = l.named;
      rooted = l.rooted;
      address = λ e. cc e;
    })
    | inr other ↦ rw (redact_row_miss marker now k v other) (record {
      fresh = map_free marker now k v.version_id vs l.fresh;
      parent = IsParent-map marker now k vs v.note_id v.parent_version_id l.parent;
      named = l.named;
      rooted = l.rooted;
      address = l.address;
    })
  ]

  redact-IsChain :
      (marker : Text) (now : ℕ) (k : Text) (vs : List VersionRow)
      → IsChain h c vs
      → IsChain h c (map (redact_row marker now k) vs)
  redact-IsChain marker now k [] s = tt
  redact-IsChain marker now k (v ∷ vs) s =
      (IsLinked-redact_row marker now k v vs s.0, redact-IsChain marker now k vs s.1)

  pub redact-IsSound :
      (marker : Text) (now : ℕ) (k : Text) (db db' : Db)
      → IsSound h c db
      → db'.notes ≡ db.notes
      → db'.versions ≡ map (redact_row marker now k) db.versions
      → IsSound h c db'
  redact-IsSound marker now k db db' s same_notes rewritten = record {
    keyed = rw same_notes s.keyed;
    chain = rw rewritten (redact-IsChain marker now k db.versions s.chain);
    headed = λ j.
        rw (same_notes, rewritten)
          (IsHeaded-map marker now k db.versions j (head_column (find_note j db.notes))
            (s.headed j));
    owned = λ j v at. rw same_notes (
        owned-map marker now k db.notes db.versions j v (s.owned j)
          (ap (find_version j) (sym rewritten) ∙ at));
  }
