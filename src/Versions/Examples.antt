-- ===== src/Versions/Examples.antt =====
-- Runs of versions.py on a small store, and its theorems at inputs that meet their hypotheses.
use lode.Prelude.{
  Text, codes, true, false, List, [], ◌∷◌, Option, none, some, ◌≡◌, ◌≢◌, refl, str_eq, ne_of_str_eq,
}
use lode.Fixtures.{toy_hash, hashers, hashers-HexDigests, settings}
use lode.Hashing.{
  encode_char, encode, big_endian, to_bytes, framed, frame_fields, digest, content_version_id,
}
use lode.Schema.{Db}
use lode.Versions.Sql.{find_note, find_version}
use lode.Versions.Chain.{IsSound}
use lode.Versions.Outcomes.{result}
use lode.Versions.Step.{run-IsSound}
use lode.Versions.Behaviour.{save_outcome, save_core_lem}
use lode.Versions.Conflicts.{second_save_conflicts}
use lode.Versions.Frame.{Extends}
use lode.Versions.Requests.{step-Extends}
use lode.Versions.Purge.{IsPurged, purge-IsPurged}
use lode.Versions.Redelete.{IsLive, redelete_idem}
use lode.Versions.Resave.{resave_after_purge_fails}
use lode.Versions.{
  ok, err, head_conflict, integrity_error, updated, deleted, head, head_row, save, save_core,
  delete_note, recover, purge, purge_marker, Request, saves, deletes, recovers, purges, flags, step,
  run, empty_db, with_conn,
}

empty_db-IsSound : IsSound hashers settings.content_hash empty_db
unfolding find_note find_version
empty_db-IsSound = record {
  keyed = tt;
  chain = tt;
  headed = λ k. tt;
  owned = λ j v e. absurd (cc e);
}

abbrev id_or_nil : Option Text → Text
id_or_nil none = []
id_or_nil (some i) = i

abbrev note : Text
note = codes "n1"

abbrev root_id : Text
root_id = id_or_nil (content_version_id hashers settings.content_hash note [] (codes "secret"))

abbrev tombstone_id : Text
tombstone_id =
    id_or_nil (content_version_id hashers settings.content_hash note root_id (codes "secret"))

abbrev one_note : Db
one_note = run hashers settings empty_db (saves note (codes "secret") [] none ∷ [])

one_note-IsSound : IsSound hashers settings.content_hash one_note
one_note-IsSound =
    run-IsSound hashers settings hashers-HexDigests empty_db
      (saves note (codes "secret") [] none ∷ []) empty_db-IsSound

one_note-IsLive : IsLive hashers settings one_note note root_id (codes "secret") tombstone_id
unfolding run step save_core head content_version_id toy_hash digest frame_fields framed encode
    encode_char to_bytes big_endian find_version with_conn str_eq
one_note-IsLive = record { sound = one_note-IsSound; at_head = refl; address = refl; free = refl }

abbrev history : List Request
history =
    saves note (codes "secret") [] none
    ∷ saves note (codes "more") root_id none
    ∷ saves note (codes "late") root_id none
    ∷ deletes note root_id
    ∷ recovers note root_id
    ∷ purges (codes "2026-07-01") 5 note
    ∷ flags note true
    ∷ []

run-IsSound_example : IsSound hashers settings.content_hash (run hashers settings empty_db history)
run-IsSound_example =
    run-IsSound hashers settings hashers-HexDigests empty_db history empty_db-IsSound

abbrev first_id : Text
first_id = id_or_nil (content_version_id hashers settings.content_hash note root_id (codes "first"))

first_saved :
    (save hashers settings note (codes "first") root_id one_note).0
    ≡ ok (result note first_id updated false)
unfolding run step save save_core head content_version_id toy_hash digest frame_fields framed encode
    encode_char to_bytes big_endian find_version with_conn str_eq
first_saved = refl

one_note-head : head one_note note ≡ some (root_id, codes "secret")
unfolding run step save_core head content_version_id toy_hash digest frame_fields framed encode
    encode_char to_bytes big_endian find_version with_conn str_eq
one_note-head = refl

second_save_conflicts_example :
    save hashers settings note
      (codes "second")
      root_id
      (save hashers settings note (codes "first") root_id one_note).1
    ≡ (
      err (
          head_conflict note root_id
            (some first_id)
            (some (codes "first"))
            (some (codes "second"))),
      (save hashers settings note (codes "first") root_id one_note).1,
    )
second_save_conflicts_example =
    second_save_conflicts hashers settings one_note note (codes "first") (codes "second") root_id
      root_id (codes "secret") (result note first_id updated false) hashers-HexDigests
      one_note-IsSound one_note-head first_saved refl

step-Extends_example :
    Extends one_note.versions
      (step hashers settings one_note (saves note (codes "first") root_id none)).versions
step-Extends_example =
    step-Extends hashers settings one_note one_note-IsSound
      (saves note (codes "first") root_id none) refl

one_note-there : head_row one_note note ≢ none
unfolding run step save_core head content_version_id toy_hash digest frame_fields framed encode
    encode_char to_bytes big_endian find_version with_conn str_eq
one_note-there e = cc e

purge-IsPurged_example :
    IsPurged one_note note
      (purge_marker (codes "2026-07-01"))
      5
      (purge (codes "2026-07-01") 5 note one_note).1
purge-IsPurged_example = purge-IsPurged (codes "2026-07-01") 5 note one_note one_note-there

redelete_idem_example :
    let first = delete_note hashers settings note root_id one_note in
    let restored = recover note root_id first.1 in
    let second = delete_note hashers settings note root_id restored.1 in
    (first.0 ≡ ok (result note tombstone_id deleted false))
    × (head restored.1 note ≡ some (root_id, codes "secret"))
    × (second.0 ≡ first.0)
    × (second.1.versions ≡ first.1.versions)
    × (head second.1 note ≡ some (tombstone_id, codes "secret"))
redelete_idem_example =
    redelete_idem hashers settings one_note note root_id (codes "secret") tombstone_id
      hashers-HexDigests one_note-IsLive

not_the_marker : ◌≢◌ {A = Text} (codes "secret") (purge_marker (codes "2026-07-01"))
unfolding purge_marker str_eq
not_the_marker = ne_of_str_eq (codes "secret") (purge_marker (codes "2026-07-01")) refl

resave_after_purge_fails_example :
    let restored =
      (recover note root_id (delete_note hashers settings note root_id one_note).1).1 in
    let purged = (purge (codes "2026-07-01") 5 note restored).1 in
    (head purged note ≡ some (root_id, purge_marker (codes "2026-07-01")))
    × (save hashers settings note (codes "secret") root_id purged ≡ (err integrity_error, purged))
resave_after_purge_fails_example =
    resave_after_purge_fails hashers settings one_note note root_id (codes "secret") tombstone_id
      (codes "2026-07-01") 5 hashers-HexDigests one_note-IsLive not_the_marker

save_core_lem_example :
    save_core hashers settings note (codes "x") [] none one_note
    ≡ save_outcome hashers settings one_note note (codes "x") [] none (head one_note note)
save_core_lem_example =
    save_core_lem hashers settings one_note one_note-IsSound note (codes "x") [] none
