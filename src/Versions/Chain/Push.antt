-- ===== src/Versions/Chain/Push.antt =====
-- The invariant of the version store after a row is inserted or a note row is updated.
use lode.Prelude.{
  Text, Bool, List, ◌∷◌, Option, none, some, ◌≡◌, ◌≢◌, inl, inr, refl, sym, ap, ◌∙◌, str_eq,
  str_eq_iff, arith, Bool-cases,
}
use lode.Hashing.{Hashers}
use lode.Schema.{NoteRow, VersionRow, Db}
use lode.Versions.Sql.{find_note, find_version, set_head, set_flag}
use lode.Versions.Rows.{
  find_version-cons_old, find_version-cons_self, find_note-cons_self, find_note-set_head, repoint,
  set_head-IsKeyed, set_flag-IsKeyed, head_column, head_column-set_flag,
}
use lode.Versions.{head}
use lode.Versions.Chain.{IsLinked, IsHeaded, IsSound}

-- The same after one more row.
IsHeaded-cons :
    (w : VersionRow) (vs : List VersionRow) (k : Text) (o : Option Text)
    → find_version w.version_id vs ≡ none
    → IsHeaded vs k o
    → IsHeaded (w ∷ vs) k o
IsHeaded-cons w vs k none free t = tt
IsHeaded-cons w vs k (some i) free (v, found, mine) =
    (v, find_version-cons_old w v i vs free found, mine)

owned-cons :
    (ns : List NoteRow) (w v : VersionRow) (j : Text) (vs : List VersionRow)
    → find_note w.note_id ns ≢ none
    → (find_version j vs ≡ some v → find_note v.note_id ns ≢ none)
    → find_version j (w ∷ vs) ≡ some v
    → find_note v.note_id ns ≢ none
unfolding find_version
owned-cons ns w v j vs there old found none_there = ground (arith, old)

-- A repointed note is still there.
set_head-ne-none :
    (j k i : Text) (ns : List NoteRow)
    → find_note j ns ≢ none
    → find_note j (set_head k i ns) ≢ none
set_head-ne-none j k i ns there gone = ground (arith, find_note-set_head j k i ns)

-- Of the note `k` the head is now `i`.
IsHeaded-repoint :
    (vs : List VersionRow) (j k i : Text) (ns : List NoteRow) (v : VersionRow)
    → find_version i vs ≡ some v
    → v.note_id ≡ k
    → IsHeaded vs j (head_column (find_note j ns))
    → IsHeaded vs j (head_column (find_note j (set_head k i ns)))
IsHeaded-repoint vs j k i ns v found mine old =
    rw (find_note-set_head j k i ns) (elim (Bool-cases (str_eq j k)) [
      | inl same ↦ rw same (at_head (find_note j ns) (mine ∙ sym ((str_eq_iff j k).0 same)))
      | inr other ↦ rw other old
    ])
  where
    at_head : (o : Option NoteRow) → v.note_id ≡ j → IsHeaded vs j (head_column (repoint i o))
    at_head none e = tt
    at_head (some n) e = (v, found, e)

find_note-ne-none-cons :
    (j : Text) (n : NoteRow) (ns : List NoteRow)
    → find_note j ns ≢ none
    → find_note j (n ∷ ns) ≢ none
unfolding find_note
find_note-ne-none-cons j n ns there gone = ground arith

find_note-cons_self-ne-none :
    (n : NoteRow) (ns : List NoteRow) → find_note n.note_id (n ∷ ns) ≢ none
find_note-cons_self-ne-none n ns gone = cc (gone, find_note-cons_self n ns)

-- A new note is headed by its root.
IsHeaded-root :
    (n : NoteRow) (w : VersionRow) (vs : List VersionRow) (ns : List NoteRow) (j : Text)
    → n.note_id ≡ w.note_id
    → n.head_version_id ≡ w.version_id
    → find_version w.version_id vs ≡ none
    → IsHeaded vs j (head_column (find_note j ns))
    → IsHeaded (w ∷ vs) j (head_column (find_note j (n ∷ ns)))
unfolding find_note
IsHeaded-root n w vs ns j same_note head free old = elim (Bool-cases (str_eq n.note_id j)) [
  | inl same ↦
      rw (same, head)
        (w, find_version-cons_self w vs, sym same_note ∙ (str_eq_iff n.note_id j).0 same)
  | inr other ↦ rw other (IsHeaded-cons w vs j (head_column (find_note j ns)) free old)
]

head_column-eq-none : (o : Option NoteRow) → head_column o ≡ none → o ≡ none
head_column-eq-none none e = refl
head_column-eq-none (some n) e = cc

module _ (h : Hashers) (c : Text) where
  -- One more linked version of a note that is there.
  pub push-IsSound :
      (db : Db) (w : VersionRow)
      → IsSound h c db
      → IsLinked h c w db.versions
      → find_note w.note_id db.notes ≢ none
      → IsSound h c (record db { versions = w ∷ db.versions })
  push-IsSound db w s l there = record {
    keyed = s.keyed;
    chain = (l, s.chain);
    headed = λ k. IsHeaded-cons w db.versions k _ l.fresh (s.headed k);
    owned = λ j v. owned-cons db.notes w v j db.versions there (s.owned j v);
  }

  -- The head of a note moves to a version of that note.
  pub set_head-IsSound :
      (db : Db) (k i : Text) (v : VersionRow)
      → IsSound h c db
      → find_version i db.versions ≡ some v
      → v.note_id ≡ k
      → IsSound h c (record db { notes = set_head k i db.notes })
  set_head-IsSound db k i v s found mine = record {
    keyed = set_head-IsKeyed k i db.notes s.keyed;
    chain = s.chain;
    headed = λ j. IsHeaded-repoint db.versions j k i db.notes v found mine (s.headed j);
    owned = λ j w at. set_head-ne-none w.note_id k i db.notes (s.owned j w at);
  }

  -- A new note with its root version.
  pub root-IsSound :
      (db : Db) (w : VersionRow) (flag : Bool)
      → IsSound h c db
      → IsLinked h c w db.versions
      → find_note w.note_id db.notes ≡ none
      → IsSound h c (record db {
        notes =
            record { note_id = w.note_id; head_version_id = w.version_id; no_egress = flag }
            ∷ db.notes;
        versions = w ∷ db.versions;
      })
  root-IsSound db w flag s l absent = record {
    keyed = (absent, s.keyed);
    chain = (l, s.chain);
    headed = λ j. IsHeaded-root new w db.versions db.notes j refl refl l.fresh (s.headed j);
    owned = λ j v.
        owned-cons (new ∷ db.notes) w v j db.versions (find_note-cons_self-ne-none new db.notes)
          (λ at. find_note-ne-none-cons v.note_id new db.notes (s.owned j v at));
  }
    where
      new : NoteRow
      new = record { note_id = w.note_id; head_version_id = w.version_id; no_egress = flag }

  -- The flag of a note changes.
  pub set_flag-IsSound :
      (db : Db) (k : Text) (flag : Bool)
      → IsSound h c db
      → IsSound h c (record db { notes = (set_flag k flag db.notes).0 })
  set_flag-IsSound db k flag s = record {
    keyed = set_flag-IsKeyed k flag db.notes s.keyed;
    chain = s.chain;
    headed = λ j. rw (head_column-set_flag j k flag db.notes) (s.headed j);
    owned = λ j v at gone. s.owned j v at (
        head_column-eq-none (find_note v.note_id db.notes)
          (sym (head_column-set_flag v.note_id k flag db.notes) ∙ ap head_column gone));
  }
