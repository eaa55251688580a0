-- ===== src/Versions/Resave.antt =====
-- The old text of a purged note (versions.py): `save` after a delete, a recovery and a purge.
use lode.Prelude.{ℕ, Text, none, some, ◌≡◌, ◌≢◌, ap, ◌∙◌, str_eq_refl, str_eq_ne}
use lode.Hashing.{Hashers, HexDigests, content_version_id}
use lode.Schema.{delete, NoteRow, VersionRow, Db}
use lode.Versions.Sql.{find_version}
use lode.Versions.Rows.{find_version_key, find_version-cons_self}
use lode.Versions.Chain.{IsSound}
use lode.Versions.Outcomes.{new_row, IsHeadOf, update_outcome}
use lode.Versions.Keeps.{head_parts}
use lode.Versions.Step.{step-IsSound}
use lode.Versions.Purge.{IsPurged, purge-IsPurged}
use lode.Versions.Conflicts.{save_lem}
use lode.Versions.{
  err, integrity_error, Settings, head, head_row, id_and_body, delete_note, recover, purge,
  purge_marker, save, purges, step,
}
use lode.Versions.Redelete.{IsLive, back, delete-IsLive, recover-back, head-back, back-IsSound}

-- A body whose content address is taken cannot be saved.
save_taken :
    (h : Hashers) (settings : Settings) (db : Db) (k live lb b i : Text) (v : VersionRow)
    → IsSound h settings.content_hash db
    → head db k ≡ some (live, lb)
    → b ≢ lb
    → content_version_id h settings.content_hash k live b ≡ some i
    → find_version i db.versions ≡ some v
    → save h settings k b live db ≡ (err integrity_error, db)
save_taken h settings db k live lb b i v s at changed address taken =
    save_lem h settings db s k b live (some (live, lb)) at
    ∙ rw (str_eq_refl live, str_eq_ne b lb changed, address, taken, update_outcome)

-- The head of a note after its purge.
head-purge :
    (day : Text) (now : ℕ) (k live lb : Text) (db : Db) (n : NoteRow) (v : VersionRow)
    → IsHeadOf db k live lb n v
    → IsPurged db k (purge_marker day) now (purge day now k db).1
    → head (purge day now k db).1 k ≡ some (live, purge_marker day)
unfolding head
head-purge day now k live lb db n v rows p =
    let (w, found, note, parent, op) = p.lineage live v rows.version_found in
    let (body, stamp) = p.erased live w found (note ∙ rows.owner) in
    rw (p.heads, rows.note_found)
      (rw (rows.at_head, found, body) (cc (find_version_key live _ w found)))

head_row-ne-none : (db : Db) (k live lb : Text) → head db k ≡ some (live, lb) → head_row db k ≢ none
unfolding head
head_row-ne-none db k live lb at absent = cc (at, ap id_and_body absent)

-- In a sound store with hashes of 32 characters, a note is deleted whose head has no tombstone yet,
-- is recovered, and is purged; its text is not the purge's marker. To save its old text on it again is then refused with
-- the database's `IntegrityError`, not with a result or a conflict: the tombstone that the recovery
-- left behind has the content address of that text, and the purge keeps ids.
pub resave_after_purge_fails :
    (h : Hashers) (settings : Settings) (db : Db) (k live lb i day : Text) (now : ℕ)
    → HexDigests h
    → IsLive h settings db k live lb i
    → lb ≢ purge_marker day
    → let restored = (recover k live (delete_note h settings k live db).1).1 in
      let purged = (purge day now k restored).1 in
      (head purged k ≡ some (live, purge_marker day))
      × (save h settings k lb live purged ≡ (err integrity_error, purged))
resave_after_purge_fails h settings db k live lb i day now hex l text =
    rw (delete-IsLive h settings db k live lb i l)
      (rw (recover-back h settings db k live lb i l) (at, refused))
  where
    start : Db
    start = back h settings db k live lb i l

    purged : Db
    purged = (purge day now k start).1

    sound : IsSound h settings.content_hash start
    sound = back-IsSound h settings db k live lb i l hex

    erased : IsPurged start k (purge_marker day) now purged
    erased =
        purge-IsPurged day now k start
          (head_row-ne-none start k live lb (head-back h settings db k live lb i l))

    at : head purged k ≡ some (live, purge_marker day)
    at =
        let (n, v, rows) =
          head_parts h settings.content_hash start sound k live lb
            (head-back h settings db k live lb i l) in
        head-purge day now k live lb start n v rows erased

    refused : save h settings k lb live purged ≡ (err integrity_error, purged)
    refused =
        let kept =
          erased.lineage i (new_row i k live lb delete)
            (find_version-cons_self (new_row i k live lb delete) db.versions) in
        save_taken h settings purged k live (purge_marker day) lb i kept.0
          (unfold step in step-IsSound h settings hex start sound (purges day now k)) at text
          l.address kept.1
