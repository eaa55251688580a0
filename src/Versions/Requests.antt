-- ===== src/Versions/Requests.antt =====
-- What a request to the version store cannot change.
use lode.Prelude.{
  ℕ, Text, Bool, true, false, List, Option, none, some, ◌≡◌, ◌≢◌, inl, inr, refl, sym, ap, ◌∙◌,
  str_eq_ne, Option-cases, map,
}
use lode.Hashing.{Hashers}
use lode.Schema.{NoteRow, VersionRow, Db}
use lode.Versions.Sql.{find_note, find_version, set_flag, redact_row}
use lode.Versions.Rows.{
  head_column, head_column-set_flag, find_version-map-redact_row, redacted, redact_row_miss,
}
use lode.Versions.Chain.{IsSound, IsHeaded}
use lode.Versions.Frame.{
  Extends, IsFramed, Frames-committed, save_core-Frames, delete_core-Frames, recover_core-Frames,
}
use lode.Versions.{
  Settings, head, head_of, id_and_body, purge, purge_core, purge_marker, head_row, delete_note,
  recover, set_no_egress, Request, saves, deletes, recovers, purges, flags, step,
}

abbrev pub target : Request → Text
target (saves k b p flag) = k
target (deletes k p) = k
target (recovers k i) = k
target (purges day now k) = k
target (flags k flag) = k

abbrev pub is_purge : Request → Bool
is_purge (purges day now k) = true
is_purge _ = false

head_of_column :
    (vs : List VersionRow) (o o' : Option NoteRow)
    → head_column o ≡ head_column o'
    → head_of vs o ≡ head_of vs o'
head_of_column vs none none e = refl
head_of_column vs none (some n) e = cc
head_of_column vs (some n) none e = cc
head_of_column vs (some n) (some m) e = ap (λ i. find_version i vs) (cc e)

set_flag-IsFramed :
    (db : Db) (k : Text) (flag : Bool)
    → IsFramed db k (record db { notes = (set_flag k flag db.notes).0 })
unfolding head
set_flag-IsFramed db k flag = record {
  rows = inl refl;
  heads = λ j ne. ap id_and_body (
      head_of_column db.versions (find_note j (set_flag k flag db.notes).0) (find_note j db.notes)
        (head_column-set_flag j k flag db.notes));
}

module _ (h : Hashers) (settings : Settings) (db : Db)
    (s : IsSound h settings.content_hash db) where
  step-IsFramed : (r : Request) → is_purge r ≡ false → IsFramed db (target r) (step h settings db r)
  unfolding step delete_note recover set_no_egress
  step-IsFramed (saves k b p flag) e =
      Frames-committed db k _ (save_core-Frames h settings db s k b p flag)
  step-IsFramed (deletes k p) e = Frames-committed db k _ (delete_core-Frames h settings db s k p)
  step-IsFramed (recovers k i) e = Frames-committed db k _ (recover_core-Frames db k i)
  step-IsFramed (purges day now k) e = cc
  step-IsFramed (flags k flag) e = set_flag-IsFramed db k flag

  -- Every request but a purge leaves the written version rows as they are, in their order, and adds
  -- at most one row.
  pub step-Extends :
      (r : Request) → is_purge r ≡ false → Extends db.versions (step h settings db r).versions
  step-Extends r e = (step-IsFramed r e).rows

  redacted_other :
      (marker : Text) (now : ℕ) (j k : Text) (o : Option NoteRow)
      → j ≢ k
      → IsHeaded db.versions j (head_column o)
      → id_and_body (head_of (map (redact_row marker now k) db.versions) o)
        ≡ id_and_body (head_of db.versions o)
  redacted_other marker now j k none ne t = refl
  redacted_other marker now j k (some n) ne (v, found, mine) = rw (
    find_version-map-redact_row,
    found,
    redacted,
    redact_row_miss marker now k v (str_eq_ne v.note_id k (λ e. ne (sym mine ∙ e))),
  )

  purge_heads :
      (day : Text) (now : ℕ) (j k : Text) → j ≢ k → head (purge day now k db).1 j ≡ head db j
  purge_heads day now j k ne = elim (Option-cases (head_row db k)) [
    | inl absent ↦ unfold purge in rw (absent, purge_core)
    | inr (v, found) ↦
        unfold purge in
        rw (found, purge_core)
          (unfold head in
            redacted_other (purge_marker day) now j k (find_note j db.notes) ne (s.headed j))
  ]

  -- A request on one note leaves every other note's head, its id and its body, as it is.
  pub step_other_heads :
      (r : Request) (j : Text) → j ≢ target r → head (step h settings db r) j ≡ head db j
  step_other_heads (purges day now k) j ne = unfold step in purge_heads day now j k ne
  step_other_heads (saves k b p flag) j ne = (step-IsFramed (saves k b p flag) refl).heads j ne
  step_other_heads (deletes k p) j ne = (step-IsFramed (deletes k p) refl).heads j ne
  step_other_heads (recovers k i) j ne = (step-IsFramed (recovers k i) refl).heads j ne
  step_other_heads (flags k flag) j ne = (step-IsFramed (flags k flag) refl).heads j ne
