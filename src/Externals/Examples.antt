-- ===== src/Externals/Examples.antt =====
-- Runs of externals.py on a small mirror, and its theorems at inputs that meet their hypotheses.
use lode.Prelude.{
  ℕ, Text, codes, true, false, List, [], ◌∷◌, Option, none, some, ◌≡◌, refl, str_eq, ne_of_str_eq,
  inl, arith, ◌⊎◌,
}
use lode.Fixtures.{toy_hash, hashers, settings}
use lode.Hashing.{
  encode_char, encode, big_endian, to_bytes, framed, frame_fields, digest, content_snapshot_id,
}
use lode.Schema.{ExternalRow, SnapshotRow, live}
use lode.Versions.{empty_db}
use lode.Store.{Store}
use lode.Externals.{
  find_external, find_snapshot, head_snapshot, insert_external, insert_snapshot, move_head, Fetched,
  ingest_snapshot, move_to_snapshot, tombstone_body, skipped,
}
use lode.Externals.Fetch.{refresh_dead_letter_hook}
use lode.Externals.Mirror.{IsMirror, IsKept}
use lode.Externals.Guard.{Beats, id_of_dead, IsHeadId, IsBuried}
use lode.Externals.DeadLetter.{refresh_dead_letter_hook_lem}
use lode.Externals.LateSuccess.{late_success_lem, revert_lem}
use lode.Externals.Requests.{Request, ingests, dies, flags, step, run, run-IsMirror, run-Grows}
use lode.Externals.Tombstones.{parse_tombstone_reason, parse_tombstone_reason-tombstone_body}

abbrev url : Text
url = codes "https://a.io/"

abbrev fetched : Text → ℕ → Fetched
fetched body t = record {
  external_id = url;
  source_type = codes "web";
  body = body;
  raw_payload = none;
  status = live;
  skip_if_head_at_or_after = none;
  fetched_at = t;
  enqueued_at = t;
}

abbrev empty_store : Store
empty_store = record { db = empty_db; jobs = []; externals = []; snapshots = []; cache = [] }

empty_store-IsMirror : IsMirror hashers settings.content_hash empty_store
unfolding find_external find_snapshot
empty_store-IsMirror = record { headed = λ k. tt; addressed = λ i. tt; embedded = λ i. tt }

abbrev history : List Request
history =
    ingests (fetched (codes "a") 1)
    ∷ flags url true
    ∷ ingests (fetched (codes "b") 2)
    ∷ dies url (codes "timeout") (some 3) 4
    ∷ []

run-IsMirror_example :
    IsMirror hashers settings.content_hash (run hashers settings [] empty_store history)
run-IsMirror_example = run-IsMirror hashers settings [] empty_store history empty_store-IsMirror

-- The mirror after the page has been `a` and then `b`.
abbrev two_pages : Store
two_pages =
    run hashers settings [] empty_store
      (ingests (fetched (codes "a") 1) ∷ ingests (fetched (codes "b") 2) ∷ [])

abbrev id_or_nil : Option Text → Text
id_or_nil none = []
id_or_nil (some i) = i

abbrev snapshot_id_for : Text → Text
snapshot_id_for body = id_or_nil (content_snapshot_id hashers settings.content_hash url body)

abbrev dead_id : Text
dead_id = id_or_nil (id_of_dead hashers settings.content_hash url (codes "timeout"))

abbrev source : ExternalRow
source = record {
  external_id = url;
  source_type = codes "web";
  head_snapshot_id = some (snapshot_id_for (codes "b"));
  no_egress = false;
  api_base = none;
}

abbrev page_a : SnapshotRow
page_a = record {
  snapshot_id = snapshot_id_for (codes "a");
  external_id = url;
  body = codes "a";
  raw_payload = none;
  fetched_at = 1;
  status = live;
}

run-Grows_example : IsKept page_a (
    find_snapshot
      (snapshot_id_for (codes "a"))
      (run hashers settings [] two_pages (dies url (codes "timeout") none 4 ∷ [])).snapshots)
unfolding run step ingest_snapshot content_snapshot_id toy_hash digest frame_fields framed encode
    encode_char to_bytes big_endian find_external find_snapshot str_eq insert_external
    insert_snapshot move_head move_to_snapshot head_snapshot
run-Grows_example =
    run-Grows hashers settings [] two_pages (dies url (codes "timeout") none 4 ∷ [])
      (snapshot_id_for (codes "a")) page_a refl

refresh_dead_letter_hook_lem_example :
    (Beats (some 3) (head_snapshot url two_pages)
      × (refresh_dead_letter_hook hashers settings [] url (codes "timeout") (some 3) 4 two_pages
          ≡ (skipped, two_pages)))
    ⊎ (¬ Beats (some 3) (head_snapshot url two_pages)
        × IsBuried hashers settings [] url dead_id two_pages
            (refresh_dead_letter_hook hashers settings [] url
              (codes "timeout")
              (some 3)
              4
              two_pages).1)
unfolding content_snapshot_id toy_hash digest frame_fields framed encode encode_char to_bytes
    big_endian tombstone_body str_eq
refresh_dead_letter_hook_lem_example =
    refresh_dead_letter_hook_lem hashers settings [] url (codes "timeout") dead_id (some 3) 4
      two_pages refl

late_success_lem_example :
    refresh_dead_letter_hook hashers settings [] url
      (codes "timeout")
      (some 3)
      8
      (ingest_snapshot hashers settings [] (fetched (codes "c") 7) two_pages).1
    ≡ (skipped, (ingest_snapshot hashers settings [] (fetched (codes "c") 7) two_pages).1)
unfolding run step ingest_snapshot content_snapshot_id toy_hash digest frame_fields framed encode
    encode_char to_bytes big_endian find_external find_snapshot str_eq insert_external
    insert_snapshot move_head move_to_snapshot head_snapshot
late_success_lem_example =
    late_success_lem hashers settings [] (fetched (codes "c") 7) (snapshot_id_for (codes "c"))
      (codes "timeout") 3 8 two_pages refl refl refl (omega arith) (inl refl)

revert_lem_example :
    IsHeadId dead_id (
      head_snapshot url
        (refresh_dead_letter_hook hashers settings [] url
          (codes "timeout")
          (some 3)
          8
          (ingest_snapshot hashers settings [] (fetched (codes "a") 7) two_pages).1).1)
    × (¬ IsHeadId (snapshot_id_for (codes "a")) (
        head_snapshot url
          (refresh_dead_letter_hook hashers settings [] url
            (codes "timeout")
            (some 3)
            8
            (ingest_snapshot hashers settings [] (fetched (codes "a") 7) two_pages).1).1))
unfolding run step ingest_snapshot content_snapshot_id toy_hash digest frame_fields framed encode
    encode_char to_bytes big_endian find_external find_snapshot str_eq insert_external
    insert_snapshot move_head move_to_snapshot head_snapshot tombstone_body
revert_lem_example =
    revert_lem hashers settings [] (fetched (codes "a") 7) page_a (snapshot_id_for (codes "a"))
      dead_id (codes "timeout") 3 8 two_pages refl refl refl refl (omega arith) refl
      (ne_of_str_eq dead_id (snapshot_id_for (codes "a")) refl)

parse_tombstone_reason-tombstone_body_example :
    parse_tombstone_reason (tombstone_body (codes "http_403")) ≡ codes "http_403"
parse_tombstone_reason-tombstone_body_example =
    parse_tombstone_reason-tombstone_body 104 (codes "ttp_403") (omega arith)
