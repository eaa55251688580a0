-- ===== src/Externals/Fetch.antt =====
-- externals.py: the callers of `ingest_snapshot` and the `no_egress` flag of an external source, and
-- `_refresh_dead_letter_hook` of worker.py. The page that was fetched is an argument.
use lode.Prelude.{
  ℕ, suc, Text, codes, Bool, List, [], ◌∷◌, ◌++◌, Option, none, some, str_eq, not, ◌==◌,
  if◌then◌else◌,
}
use lode.Hashing.{Hashers}
use lode.Schema.{ExternalRow, live, tombstone}
use lode.Versions.{Settings}
use lode.Egress.{Pattern}
use lode.Store.{Store}
use lode.Externals.{find_external, tombstone_body, Ingest, Fetched, ingest_snapshot}

-- webfetch.py: `FetchStatus` and the fields of `FetchResult` that the callers read.
pub data FetchStatus : Type 0 where
  fetched_ok fetch_tombstone : FetchStatus

pub record FetchResult : Type 0 where
  pub status : FetchStatus
  pub final_url : Text
  pub clean_text : Option Text
  pub raw_html : Option Text
  pub tombstone_reason : Option Text

-- `text or default`, where the text may be `None`.
abbrev pub or_text : Option Text → Text → Text
or_text none default = default
or_text (some []) default = default
or_text (some (c ∷ s)) default = c ∷ s

-- The arguments that `ingest_fetch_result` gives to `ingest_snapshot`.
abbrev pub fetched_of : FetchStatus → Text → Text → FetchResult → ℕ → ℕ → Fetched
fetched_of fetched_ok external_id source_type r fetched_at enqueued_at = record {
  external_id = external_id;
  source_type = source_type;
  body = or_text r.clean_text [];
  raw_payload = r.raw_html;
  status = live;
  skip_if_head_at_or_after = none;
  fetched_at = fetched_at;
  enqueued_at = enqueued_at;
}
fetched_of fetch_tombstone external_id source_type r fetched_at enqueued_at = record {
  external_id = external_id;
  source_type = source_type;
  body = tombstone_body (or_text r.tombstone_reason (codes "unknown"));
  raw_payload = r.raw_html;
  status = tombstone;
  skip_if_head_at_or_after = none;
  fetched_at = fetched_at;
  enqueued_at = enqueued_at;
}

abbrev pub source_type_web : Text
source_type_web = codes "web"

abbrev pub source_type_or_web : Option ExternalRow → Text
source_type_or_web none = source_type_web
source_type_or_web (some e) = e.source_type

-- The arguments that the hook gives to `ingest_snapshot`; `claimed_at` is the dead job's.
abbrev pub dead_letter : Text → Text → Option ℕ → ℕ → Store → Fetched
dead_letter external_id last_error claimed_at fetched_at st = record {
  external_id = external_id;
  source_type = source_type_or_web (find_external external_id st.externals);
  body = tombstone_body (codes "dead: " ++ last_error);
  raw_payload = none;
  status = tombstone;
  skip_if_head_at_or_after = claimed_at;
  fetched_at = fetched_at;
  enqueued_at = fetched_at;
}

-- `UPDATE externals SET no_egress = ? WHERE external_id = ?`, with the number of rows.
unfoldable pub flag_external : Text → Bool → List ExternalRow → List ExternalRow × ℕ
flag_external k flag [] = ([], 0)
flag_external k flag (e ∷ es) =
    let (rest, count) = flag_external k flag es in
    if str_eq e.external_id k
    then (record e { no_egress = flag } ∷ rest, suc count)
    else (e ∷ rest, count)

-- The result says whether there was a row to flip.
unfoldable pub set_no_egress : Text → Bool → Store → Bool × Store
unfolding flag_external
set_no_egress external_id no_egress st =
    let (rows, rowcount) = flag_external external_id no_egress st.externals in
    (not (rowcount == 0), record st { externals = rows })

module _ (h : Hashers) (settings : Settings) (patterns : List Pattern) where
  unfoldable pub ingest_fetch_result : Text → Text → FetchResult → ℕ → ℕ → Store → Ingest × Store
  unfolding ingest_snapshot tombstone_body
  ingest_fetch_result external_id source_type r fetched_at enqueued_at =
      ingest_snapshot h settings patterns
        (fetched_of r.status external_id source_type r fetched_at enqueued_at)

  unfoldable pub refresh_dead_letter_hook : Text → Text → Option ℕ → ℕ → Store → Ingest × Store
  unfolding ingest_snapshot tombstone_body find_external
  refresh_dead_letter_hook external_id last_error claimed_at fetched_at st =
      ingest_snapshot h settings patterns
        (dead_letter external_id last_error claimed_at fetched_at st) st
