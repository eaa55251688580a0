-- ===== src/Versions/Keeps.antt =====
-- The outcomes of the operations of versions.py and the invariant of the store.
use lode.Prelude.{
  Text, Bool, List, [], ◌∷◌, Option, none, some, ◌≡◌, ◌≢◌, inl, inr, refl, sym, ap, subst, ◌∙◌,
  str_eq, str_eq_iff, arith, Bool-cases, Option-cases, length,
}
use lode.Hashing.{Hashers, HexDigests, no_parent, content_version_id}
use lode.Hashing.Digests.{length-content_version_id}
use lode.Schema.{Op, create, update, delete, NoteRow, VersionRow, Db}
use lode.Versions.Sql.{find_note, find_version}
use lode.Versions.Rows.{find_version-cons_self, find_version_key, head_column}
use lode.Versions.Chain.{IsSound, IsHeaded, IsLinked, IsRooted, IsChain}
use lode.Versions.Chain.Push.{push-IsSound, set_head-IsSound, root-IsSound}
use lode.Versions.Outcomes.{
  new_row, IsHeadOf, appended, rooted, update_outcome, tombstone_outcome, create_outcome,
}
use lode.Versions.{Result, ok, err, Settings, parent_column, head_of, head, id_and_body, committed}

-- The rows behind a head, or no row at all.
IsHeadOf-parts :
    (db : Db) (k live lb : Text) (o : Option NoteRow)
    → find_note k db.notes ≡ o
    → IsHeaded db.versions k (head_column o)
    → id_and_body (head_of db.versions o) ≡ some (live, lb)
    → (n : NoteRow) × (v : VersionRow) × IsHeadOf db k live lb n v
IsHeadOf-parts db k live lb none found t e = cc
IsHeadOf-parts db k live lb (some n) found (v, at, mine) e =
    let e' : ◌≡◌ {A = Option (Text × Text)} (some (v.version_id, v.body)) (some (live, lb)) =
      ap id_and_body (sym at) ∙ e in
    let key = find_version_key n.head_version_id db.versions v at in
    (
      n,
      v,
      record {
        note_found = found;
        at_head = cc (key, e');
        version_found = subst (λ i. find_version i db.versions ≡ some v) (cc (key, e')) at;
        owner = mine;
        content = cc e';
      },
    )

not-IsHeaded-none :
    (db : Db) (k : Text) (n : NoteRow)
    → IsHeaded db.versions k (some n.head_version_id)
    → id_and_body (head_of db.versions (some n)) ≢ none
not-IsHeaded-none db k n (v, at, mine) e = cc (at, ap id_and_body at, e)

module _ (h : Hashers) (c : Text) (db : Db) (s : IsSound h c db) where
  pub head_parts :
      (k live lb : Text)
      → head db k ≡ some (live, lb)
      → (n : NoteRow) × (v : VersionRow) × IsHeadOf db k live lb n v
  unfolding head
  head_parts k live lb e = IsHeadOf-parts db k live lb (find_note k db.notes) refl (s.headed k) e

  pub head_absent : (k : Text) → head db k ≡ none → find_note k db.notes ≡ none
  unfolding head
  head_absent k e = elim (Option-cases (find_note k db.notes)) [
    | inl absent ↦ absent
    | inr (n, found) ↦ absurd (
        not-IsHeaded-none db k n
          (subst (λ o. IsHeaded db.versions k (head_column o)) found (s.headed k))
          (ap (λ o. id_and_body (head_of db.versions o)) (sym found) ∙ e))
  ]

-- An action that keeps the invariant, whether it ends well or raises.
abbrev pub Keeps {ℓ} : Hashers → Text → {A : Type ℓ} → Db → Result (A × Db) → Type 0
Keeps h c db (ok (a, db')) = IsSound h c db'
Keeps h c db (err e) = Unit

pub Keeps-committed {ℓ} :
    {A : Type ℓ} (h : Hashers) (c : Text) (db : Db) (r : Result (A × Db))
    → IsSound h c db
    → Keeps h c db r
    → IsSound h c (committed db r).1
Keeps-committed h c db (ok (a, db')) s k = k
Keeps-committed h c db (err e) s k = s

id-ne-nil :
    (h : Hashers) (c k p b i : Text) → HexDigests h → content_version_id h c k p b ≡ some i → i ≢ []
id-ne-nil h c k p b i hex address empty =
    omega (arith, length-content_version_id h c k p b i hex address, ap length empty)

parent_column-ne_nil : (p : Text) → p ≢ [] → parent_column p ≡ some p
parent_column-ne_nil [] e = absurd (e refl)
parent_column-ne_nil (c ∷ p) e = refl

found-ne-nil :
    (h : Hashers) (c j : Text) (vs : List VersionRow) (v : VersionRow)
    → IsChain h c vs
    → find_version j vs ≡ some v
    → v.version_id ≢ []
unfolding find_version
found-ne-nil h c j [] v s e = cc
found-ne-nil h c j (w ∷ vs) v s e = elim (Bool-cases (str_eq w.version_id j)) [
  | inl same ↦
      let here : w ≡ v = ground arith in
      subst (λ (r : VersionRow). r.version_id ≢ []) here s.0.named
  | inr other ↦ found-ne-nil h c j vs v s.1 (ground arith)
]

-- A child of the head is linked to the chain.
child-IsLinked :
    (h : Hashers) (c k live b i : Text) (op : Op) (vs : List VersionRow) (v : VersionRow)
    → find_version live vs ≡ some v
    → v.note_id ≡ k
    → live ≢ []
    → i ≢ []
    → content_version_id h c k live b ≡ some i
    → find_version i vs ≡ none
    → IsRooted op (some live)
    → IsLinked h c (new_row i k live b op) vs
child-IsLinked h c k live b i op vs v found mine named new_named address free rooted =
    let column = parent_column-ne_nil live named in
    record {
      fresh = free;
      parent = rw column (v, found, mine);
      named = new_named;
      rooted = rw column rooted;
      address = λ e. rw column address;
    }

module _ (h : Hashers) (settings : Settings) (hex : HexDigests h) (db : Db)
    (s : IsSound h settings.content_hash db) where
  -- A new version of a note, parented on its head.
  appended-IsSound :
      (k live lb b i : Text) (op : Op) (n : NoteRow) (v : VersionRow)
      → IsHeadOf db k live lb n v
      → content_version_id h settings.content_hash k live b ≡ some i
      → find_version i db.versions ≡ none
      → IsRooted op (some live)
      → IsSound h settings.content_hash (appended db k live b op i)
  appended-IsSound k live lb b i op n v at address free rooted =
      let c = settings.content_hash in
      let w = new_row i k live b op in
      let named =
        rw (find_version_key live db.versions v at.version_found) at
          (found-ne-nil h c live db.versions v s.chain at.version_found) in
      let linked =
        child-IsLinked h c k live b i op db.versions v at.version_found at.owner named
          (id-ne-nil h c k live b i hex address) address free rooted in
      let pushed = push-IsSound h c db w s linked (λ gone. cc (gone, at.note_found)) in
      set_head-IsSound h c (record db { versions = w ∷ db.versions }) k i w pushed
        (find_version-cons_self w db.versions) refl

  pub update_outcome-Keeps :
      (k b live lb : Text) (n : NoteRow) (v : VersionRow) (o : Option Text)
      → IsHeadOf db k live lb n v
      → content_version_id h settings.content_hash k live b ≡ o
      → Keeps h settings.content_hash db (update_outcome db k b live o)
  update_outcome-Keeps k b live lb n v none at address = tt
  update_outcome-Keeps k b live lb n v (some i) at address =
      elim (Option-cases (find_version i db.versions)) [
        | inr (w, taken) ↦ rw (taken, update_outcome) tt
        | inl free ↦
            rw (free, update_outcome)
              (appended-IsSound k live lb b i update n v at address free (live, refl))
      ]

  pub tombstone_outcome-Keeps :
      (k live lb : Text) (n : NoteRow) (v : VersionRow) (o : Option Text)
      → IsHeadOf db k live lb n v
      → content_version_id h settings.content_hash k live lb ≡ o
      → Keeps h settings.content_hash db (tombstone_outcome db k lb live o)
  tombstone_outcome-Keeps k live lb n v none at address = tt
  tombstone_outcome-Keeps k live lb n v (some i) at address =
      elim (Option-cases (find_version i db.versions)) [
        | inl free ↦
            rw (free, tombstone_outcome)
              (appended-IsSound k live lb lb i delete n v at address free (live, refl))
        | inr (w, taken) ↦
            rw (taken, tombstone_outcome)
              (elim (Bool-cases (str_eq w.note_id k)) [
                | inr other ↦ rw other tt
                | inl mine ↦ rw mine (
                    set_head-IsSound h settings.content_hash db k i w s taken
                      ((str_eq_iff w.note_id k).0 mine))
              ])
      ]

  pub create_outcome-Keeps :
      (k b : Text) (flag : Bool) (o : Option Text)
      → find_note k db.notes ≡ none
      → content_version_id h settings.content_hash k no_parent b ≡ o
      → Keeps h settings.content_hash db (create_outcome db k b flag o)
  create_outcome-Keeps k b flag none absent address = tt
  create_outcome-Keeps k b flag (some i) absent address =
      elim (Option-cases (find_version i db.versions)) [
        | inr (w, taken) ↦ rw (absent, taken, create_outcome) tt
        | inl free ↦
            rw (absent, free, create_outcome)
              (root-IsSound h settings.content_hash db (new_row i k no_parent b create) flag s
                (record {
                  fresh = free;
                  parent = tt;
                  named = id-ne-nil h settings.content_hash k no_parent b i hex address;
                  rooted = refl;
                  address = λ e. address;
                })
                absent)
      ]
