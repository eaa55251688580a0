-- ===== src/Reconcile/Examples.antt =====
-- A scan of reconcile.py over a small store, and its theorems at inputs that meet their hypotheses.
use lode.Prelude.{
  codes, true, false, [], ◌∷◌, none, some, ◌≡◌, ◌⊎◌, refl, str_eq, Some, suc, ◌≤◌, any, keep,
}
use lode.Schema.{create, NoteRow, VersionRow, ExternalRow, SnapshotRow, live}
use lode.Jobs.{new_job, enrich, enqueue_derive_jobs, insert_job, holds_key, next_id}
use lode.Jobs.Grow.{is_job_for}
use lode.Versions.Sql.{find_note, find_version}
use lode.Externals.{find_external, find_snapshot}
use lode.Store.{Store}
use lode.Reconcile.{
  Scan, reconcile, embed_gap_step, enrich_gap_step, refresh_stale_step, lexical_gap_step, embed_gap,
  enrich_gap, stale_externals, embed_candidates, enrich_candidates, refresh_candidates, note_heads,
  external_heads, distinct, has_job_not_dead, has_live_job, has_current_job, enqueue_each,
  has_live_head, lexical_gap_heads,
}
use lode.Reconcile.Served.{
  IsEmbedding, IsEnrichment, IsRefresh, reconcile_notes, reconcile_externals,
}
use lode.Reconcile.Again.{reconcile_again}

abbrev note : NoteRow
note = record { note_id = codes "n1"; head_version_id = codes "v1"; no_egress = false }

abbrev version : VersionRow
version = record {
  version_id = codes "v1";
  note_id = codes "n1";
  parent_version_id = none;
  body = codes "hello";
  op = create;
  purged_at = none;
}

abbrev source : ExternalRow
source = record {
  external_id = codes "https://a.io/";
  source_type = codes "web";
  head_snapshot_id = some (codes "s1");
  no_egress = false;
  api_base = none;
}

abbrev snapshot : SnapshotRow
snapshot = record {
  snapshot_id = codes "s1";
  external_id = codes "https://a.io/";
  body = codes "page";
  raw_payload = none;
  fetched_at = 5;
  status = live;
}

abbrev store : Store
store = record {
  db = record { notes = note ∷ []; versions = version ∷ []; annotations = []; edges = [] };
  jobs = new_job 1 enrich (codes "v1") 0 ∷ [];
  externals = source ∷ [];
  snapshots = snapshot ∷ [];
  cache = [];
}

abbrev scan : Scan
scan = record { clock = λ k. 10; prompt_ver = codes "p2"; cutoff = 7; fts = [] }

-- Two heads want vectors, one source is stale, and one head has no lexical rows.
count : (reconcile scan store).0 ≡ 4
unfolding reconcile embed_gap_step enrich_gap_step refresh_stale_step lexical_gap_step embed_gap
    enrich_gap stale_externals embed_candidates enrich_candidates refresh_candidates note_heads
    external_heads distinct has_job_not_dead has_live_job has_current_job enqueue_each has_live_head
    lexical_gap_heads find_version find_snapshot str_eq any keep is_job_for enqueue_derive_jobs
    insert_job holds_key next_id
count = refl

reconcile_notes_example :
    Some (IsEmbedding (codes "v1")) (reconcile scan store).1.jobs
    × ((note.no_egress ≡ true)
        ⊎ Some (IsEnrichment (codes "p2") (codes "v1")) (reconcile scan store).1.jobs)
unfolding find_note find_version str_eq
reconcile_notes_example =
    reconcile_notes scan store (codes "n1") note version refl refl (λ e. cc e) refl

reconcile_externals_example :
    Some (IsEmbedding (codes "s1")) (reconcile scan store).1.jobs
    × ((suc 7 ≤ 5) ⊎ Some (IsRefresh (codes "https://a.io/")) (reconcile scan store).1.jobs)
unfolding find_external find_snapshot str_eq
reconcile_externals_example =
    reconcile_externals scan store (codes "https://a.io/") (codes "s1") source snapshot refl refl
      refl refl

reconcile_again_example :
    reconcile
      (record { clock = λ k. 20; prompt_ver = codes "p2"; cutoff = 7; fts = codes "v1" ∷ [] })
      (reconcile scan store).1
    ≡ lexical_gap_step (codes "v1" ∷ []) (reconcile scan store).1
reconcile_again_example = reconcile_again scan store (λ k. 20) (codes "v1" ∷ [])
