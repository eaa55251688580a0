-- ===== src/Versions/Redelete.antt =====
-- A note that is deleted, recovered and deleted or saved again (versions.py).
use lode.Prelude.{Text, false, none, some, ◌≡◌, refl, ap, subst, ◌∙◌, str_eq_iff, str_eq_refl}
use lode.Hashing.{Hashers, HexDigests, content_version_id}
use lode.Schema.{delete, VersionRow, Db}
use lode.Versions.Sql.{find_note, find_version, set_head}
use lode.Versions.Rows.{find_version-cons_self, find_version-cons_old, find_note-set_head}
use lode.Versions.Chain.{IsSound}
use lode.Versions.Outcomes.{new_row, appended, result, tombstone_outcome}
use lode.Versions.Keeps.{head_parts}
use lode.Versions.Step.{step-IsSound}
use lode.Versions.Behaviour.{delete_core_lem, head-set_head}
use lode.Versions.{
  Result, ok, SaveResult, Settings, deleted, recovered, head, committed, delete_note, recover,
  recover_core, deletes, recovers, step,
}

-- A note at the head `live`, whose tombstone `i` has not been written.
pub record IsLive (h : Hashers) (settings : Settings) (db : Db) (k live lb i : Text) : Type 0 where
  pub sound : IsSound h settings.content_hash db
  pub at_head : head db k ≡ some (live, lb)
  pub address : content_version_id h settings.content_hash k live lb ≡ some i
  pub free : find_version i db.versions ≡ none

module _ (h : Hashers) (settings : Settings) (db : Db) (k live lb i : Text)
    (l : IsLive h settings db k live lb i) where
  -- The delete of a live head writes the tombstone.
  pub delete-IsLive :
      delete_note h settings k live db
      ≡ (ok (result k i deleted false), appended db k live lb delete i)
  unfolding delete_note
  delete-IsLive =
      ap (committed db) (delete_core_lem h settings db l.sound k live live lb l.at_head)
      ∙ rw (str_eq_refl live, l.address, l.free, tombstone_outcome)

  abbrev pub tombstoned : Db
  tombstoned = appended db k live lb delete i

  abbrev pub back : Db
  back = record tombstoned { notes = set_head k live tombstoned.notes }

  pub recover-back : recover k live tombstoned ≡ (ok (result k live recovered false), back)
  unfolding recover recover_core
  recover-back =
      let (n, v, rows) = head_parts h settings.content_hash db l.sound k live lb l.at_head in
      let found =
        find_version-cons_old (new_row i k live lb delete) v live db.versions l.free
          rows.version_found in
      rw (found, (str_eq_iff v.note_id k).1 rows.owner)

  abbrev tombstone : VersionRow
  tombstone = new_row i k live lb delete

  pub head-back : head back k ≡ some (live, lb)
  head-back =
      let (n, v, rows) = head_parts h settings.content_hash db l.sound k live lb l.at_head in
      let found = find_version-cons_old tombstone v live db.versions l.free rows.version_found in
      let note : find_note k tombstoned.notes ≡ some (record n { head_version_id = i }) =
        rw (find_note-set_head k k i db.notes, str_eq_refl k, rows.note_found) in
      head-set_head tombstoned k live (record n { head_version_id = i }) v note found
      ∙ ap (λ b. some (live, b)) rows.content

  tombstoned-IsSound : HexDigests h → IsSound h settings.content_hash tombstoned
  tombstoned-IsSound hex =
      subst (λ (r : Result SaveResult × Db). IsSound h settings.content_hash r.1) delete-IsLive
        (unfold step in step-IsSound h settings hex db l.sound (deletes k live))

  pub back-IsSound : HexDigests h → IsSound h settings.content_hash back
  back-IsSound hex =
      subst (λ (r : Result SaveResult × Db). IsSound h settings.content_hash r.1) recover-back
        (unfold step in
          step-IsSound h settings hex tombstoned (tombstoned-IsSound hex) (recovers k live))

  delete-back :
      HexDigests h
      → delete_note h settings k live back
        ≡ (ok (result k i deleted false), record back { notes = set_head k i back.notes })
  unfolding delete_note
  delete-back hex =
      ap (committed back)
        (delete_core_lem h settings back (back-IsSound hex) k live live lb head-back)
      ∙ rw (
        str_eq_refl live,
        l.address,
        find_version-cons_self tombstone db.versions,
        str_eq_refl k,
        tombstone_outcome,
      )

  head-second : head (record back { notes = set_head k i back.notes }) k ≡ some (i, lb)
  head-second =
      let (n, v, rows) = head_parts h settings.content_hash db l.sound k live lb l.at_head in
      let note : find_note k back.notes ≡ some (record n { head_version_id = live }) = rw (
        find_note-set_head k k live tombstoned.notes,
        find_note-set_head k k i db.notes,
        str_eq_refl k,
        rows.note_found,
      ) in
      head-set_head back k i (record n { head_version_id = live }) tombstone note
        (find_version-cons_self tombstone db.versions)

-- In a sound store with hashes of 32 characters, a note is deleted whose head has no tombstone yet,
-- the deleted version is recovered, and it is deleted again: the recovery restores the head with its
-- body; the second delete returns what the first one returned, writes no version,
-- and leaves the tombstone at the head.
pub redelete_idem :
    (h : Hashers) (settings : Settings) (db : Db) (k live lb i : Text)
    → HexDigests h
    → IsLive h settings db k live lb i
    → let first = delete_note h settings k live db in
      let restored = recover k live first.1 in
      let second = delete_note h settings k live restored.1 in
      (first.0 ≡ ok (result k i deleted false))
      × (head restored.1 k ≡ some (live, lb))
      × (second.0 ≡ first.0)
      × (second.1.versions ≡ first.1.versions)
      × (head second.1 k ≡ some (i, lb))
redelete_idem h settings db k live lb i hex l = rw (delete-IsLive h settings db k live lb i l) (
    rw (recover-back h settings db k live lb i l) (
      rw (delete-back h settings db k live lb i l hex) (
        refl,
        head-back h settings db k live lb i l,
        refl,
        refl,
        head-second h settings db k live lb i l,
      )))
