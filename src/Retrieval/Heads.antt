-- ===== src/Retrieval/Heads.antt =====
-- The live heads and the notes of the direct hits that `graph_expand` of retrieval.py reads.
use lode.Prelude.{
  Text, true, List, [], ◌∷◌, Option, none, some, ◌≡◌, ◌≢◌, refl, sym, ap, ◌∙◌, str_eq, str_eq_iff,
  any, arith, Bool-cases, Option-cases, inl, inr, ◌⊎◌, Some, subst, str_eq_refl,
}
use lode.Schema.{NoteRow, VersionRow, ExternalRow, SnapshotRow, delete, tombstone}
use lode.Versions.Sql.{find_note, find_version}
use lode.Externals.{find_external, find_snapshot, head_column, snapshot_at, is_tombstone}
use lode.Externals.Tables.{find_snapshot_key}
use lode.Reconcile.{is_delete}
use lode.Store.{Store}
use lode.Retrieval.{Floats, ExpandedHit}
use lode.Retrieval.Graph.{is_head_of, kept_head, live_snapshot, heads_node, seeds}

-- The version is the live head of a note that is there, or the live snapshot that heads a source.
pub record HeadsNote (st : Store) (version node : Text) : Type 0 where
  pub note : NoteRow
  pub of_note : find_note node st.db.notes ≡ some note
  pub head : note.head_version_id ≡ version
  pub row : VersionRow
  pub written : find_version version st.db.versions ≡ some row
  pub kept : row.op ≢ delete

pub record HeadsSource (st : Store) (version node : Text) : Type 0 where
  pub source : ExternalRow
  pub of_source : find_external node st.externals ≡ some source
  pub head : source.head_snapshot_id ≡ some version
  pub row : SnapshotRow
  pub written : find_snapshot version st.snapshots ≡ some row
  pub fetched : row.status ≢ tombstone

abbrev pub IsHeadOf : Store → Text → Text → Type 0
IsHeadOf st version node = HeadsNote st version node ⊎ HeadsSource st version node

module _ (fl : Floats) (st : Store) (version node : Text) where
  HeadsNote-of :
      (o : Option NoteRow)
      → find_note node st.db.notes ≡ o
      → is_head_of fl version (kept_head fl o st.db.versions) ≡ true
      → HeadsNote st version node
  HeadsNote-of none found h = absurd (cc h)
  HeadsNote-of (some n) found h =
      elim (Option-cases (find_version n.head_version_id st.db.versions)) [
        | inl absent ↦ absurd (cc (rw absent at h))
        | inr (v, there) ↦ elim (Bool-cases (is_delete v.op)) [
          | inl gone ↦ absurd (cc (rw (there, gone) at h))
          | inr kept ↦
              let same : version ≡ n.head_version_id =
                (str_eq_iff version n.head_version_id).0 (rw (there, kept) at h) in
              record {
                note = n;
                of_note = found;
                head = sym same;
                row = v;
                written = subst (λ i. find_version i st.db.versions ≡ some v) (sym same) there;
                kept = λ e. ground (arith, kept, e);
              }
        ]
      ]

  HeadsSource-of :
      (o : Option ExternalRow)
      → find_external node st.externals ≡ o
      → is_head_of fl version (live_snapshot fl (snapshot_at (head_column o) st.snapshots)) ≡ true
      → HeadsSource st version node
  HeadsSource-of none found h = absurd (cc h)
  HeadsSource-of (some e) found h = elim (Option-cases e.head_snapshot_id) [
    | inl absent ↦ absurd (cc (rw absent at h))
    | inr (i, at) ↦ elim (Option-cases (find_snapshot i st.snapshots)) [
      | inl lost ↦ absurd (cc (rw (at, lost) at h))
      | inr (s, there) ↦ elim (Bool-cases (is_tombstone s.status)) [
        | inl gone ↦ absurd (cc (rw (at, there, gone) at h))
        | inr fetched ↦
            let same : version ≡ s.snapshot_id =
              (str_eq_iff version s.snapshot_id).0 (rw (at, there, fetched) at h) in
            let here : version ≡ i = same ∙ find_snapshot_key i st.snapshots s there in
            record {
              source = e;
              of_source = found;
              head = at ∙ ap some (sym here);
              row = s;
              written = subst (λ k. find_snapshot k st.snapshots ≡ some s) (sym here) there;
              fetched = λ x. ground (arith, fetched, x);
            }
      ]
    ]
  ]

  pub heads_node-IsHeadOf : heads_node fl st version node ≡ true → IsHeadOf st version node
  unfolding heads_node
  heads_node-IsHeadOf h =
      elim (Bool-cases
        (is_head_of fl version (kept_head fl (find_note node st.db.notes) st.db.versions))) [
          | inl of_note ↦ inl (HeadsNote-of (find_note node st.db.notes) refl of_note)
          | inr other ↦ inr (HeadsSource-of (find_external node st.externals) refl (rw other at h))
        ]

-- A direct hit is on a version of the note.
abbrev pub Owns : (fl : Floats) → Store → Text → ExpandedHit fl → Type 0
Owns fl st node hit =
    (hit.edge_source ≡ none)
    × ((v : VersionRow) × (find_version hit.target_version st.db.versions ≡ some v)
        × (v.note_id ≡ node))

-- One of the direct hits is.
abbrev pub IsSeed : (fl : Floats) → Store → List (ExpandedHit fl) → Text → Type 0
IsSeed fl st hits node = Some (Owns fl st node) hits

module _ (fl : Floats) (st : Store) (node : Text) where
  pub seeds-IsSeed :
      (hits : List (ExpandedHit fl))
      → any (str_eq node) (seeds fl st hits) ≡ true
      → IsSeed fl st hits node
  unfolding seeds any
  seeds-IsSeed [] h = absurd (cc h)
  seeds-IsSeed (hit ∷ hits) h = elim (Option-cases hit.edge_source) [
    | inr (link, linked) ↦ inr (seeds-IsSeed hits (rw linked at h))
    | inl direct ↦ elim (Option-cases (find_version hit.target_version st.db.versions)) [
      | inl absent ↦ inr (seeds-IsSeed hits (rw (direct, absent) at h))
      | inr (v, found) ↦ elim (Bool-cases (str_eq node v.note_id)) [
        | inl same ↦ inl (direct, (v, found, sym ((str_eq_iff node v.note_id).0 same)))
        | inr other ↦ inr (seeds-IsSeed hits (rw (direct, found, other) at h))
      ]
    ]
  ]

  pub IsSeed-seeds :
      (hits : List (ExpandedHit fl))
      → IsSeed fl st hits node
      → any (str_eq node) (seeds fl st hits) ≡ true
  unfolding seeds any
  IsSeed-seeds [] s = absurd s
  IsSeed-seeds (hit ∷ hits) (inl (direct, (v, found, same))) =
      rw (direct, found, same, str_eq_refl node) refl
  IsSeed-seeds (hit ∷ hits) (inr s) = elim (Option-cases hit.edge_source) [
    | inr (link, linked) ↦ rw linked (IsSeed-seeds hits s)
    | inl direct ↦ elim (Option-cases (find_version hit.target_version st.db.versions)) [
      | inl absent ↦ rw (direct, absent) (IsSeed-seeds hits s)
      | inr (v, found) ↦ rw (direct, found) (ground (arith, IsSeed-seeds hits s))
    ]
  ]
