-- ===== src/Reconcile.antt =====
-- reconcile.py: the scan that finds what the derived layers miss. Each step is a query over the tables
-- and an enqueue, or an index call, for each row that it finds. `clock k` is the reading of `now_iso()`
-- in the k-th enqueue of a step, `cutoff` is `jobs.iso` of the wall clock less the time to live, and
-- `fts` lists the targets that have rows in `passages_fts`. The order of a UNION is taken to be that of
-- the first occurrences. The progress log is left out.
pub mod Heals
pub mod Steps
pub mod Served
pub mod Again
pub mod Examples
use lode.Prelude.{
  ℕ, zero, suc, ◌+◌, Text, Bool, true, false, List, [], ◌∷◌, ◌++◌, Option, none, some, str_eq, not,
  ◌&&◌, ◌||◌, leb, if◌then◌else◌, any, keep, length,
}
use lode.Schema.{Op, create, update, delete, NoteRow, VersionRow, Db, ExternalRow, SnapshotRow}
use lode.Jobs.{
  JobType, embed, enrich, refresh, Status, pending, running, done, failed, dead, JobRow, is_live,
  type_eq, enqueue_derive_jobs,
}
use lode.Jobs.Grow.{is_job_for}
use lode.Versions.Sql.{find_version}
use lode.Externals.{find_snapshot, is_tombstone}
use lode.Store.{Store, CacheCall, index_call}

abbrev pub is_delete : Op → Bool
is_delete create = false
is_delete update = false
is_delete delete = true

abbrev pub is_dead : Status → Bool
is_dead pending = false
is_dead running = false
is_dead done = false
is_dead failed = false
is_dead dead = true

abbrev pub is_done : Status → Bool
is_done pending = false
is_done running = false
is_done done = true
is_done failed = false
is_done dead = false

abbrev pub is_null : Option ℕ → Bool
is_null none = true
is_null (some t) = false

-- `JOIN versions … WHERE op != 'delete' AND purged_at IS NULL`
abbrev pub is_live_version : Option VersionRow → Bool
is_live_version none = false
is_live_version (some v) = not (is_delete v.op) && is_null v.purged_at

unfoldable pub has_live_head : List VersionRow → NoteRow → Bool
unfolding find_version
has_live_head vs n = is_live_version (find_version n.head_version_id vs)

-- `SELECT n.head_version_id FROM notes n JOIN versions v … WHERE …`
unfoldable pub note_heads : (NoteRow → Bool) → List NoteRow → List Text
note_heads test [] = []
note_heads test (n ∷ ns) =
    let rest = note_heads test ns in if test n then n.head_version_id ∷ rest else rest

-- The head's snapshot, where it is not a tombstone and the test holds of it.
abbrev pub passes_snapshot : (SnapshotRow → Bool) → Option SnapshotRow → Bool
passes_snapshot test none = false
passes_snapshot test (some s) = not (is_tombstone s.status) && test s

abbrev pub snapshot_of : List SnapshotRow → Option Text → Option SnapshotRow
snapshot_of ss none = none
snapshot_of ss (some i) = find_snapshot i ss

-- The externals whose head passes, by their head and by their id.
abbrev pub head_text : Option Text → Text
head_text none = []
head_text (some i) = i

unfoldable pub external_heads :
    (ExternalRow → Text) → (SnapshotRow → Bool) → List SnapshotRow → List ExternalRow → List Text
unfolding find_snapshot
external_heads column test ss [] = []
external_heads column test ss (e ∷ es) =
    let rest = external_heads column test ss es in
    if passes_snapshot test (snapshot_of ss e.head_snapshot_id) then column e ∷ rest else rest

-- `UNION` drops repeated rows.
unfoldable pub distinct : List Text → List Text
unfolding any
distinct [] = []
distinct (i ∷ is) = i ∷ keep (λ j. not (str_eq i j)) (distinct is)

-- The three `EXISTS` subqueries.
unfoldable pub has_job_not_dead : JobType → List JobRow → Text → Bool
unfolding is_job_for any
has_job_not_dead t js i = any (λ j. is_job_for t i j && not (is_dead j.status)) js

unfoldable pub has_live_job : JobType → List JobRow → Text → Bool
unfolding is_job_for any
has_live_job t js i = any (λ j. is_job_for t i j && is_live j.status) js

abbrev pub is_version : Option Text → Text → Bool
is_version none prompt = false
is_version (some p) prompt = str_eq p prompt

unfoldable pub has_current_job : Text → List JobRow → Text → Bool
unfolding is_job_for any
has_current_job prompt js i =
    any (λ j. is_job_for enrich i j && (is_done j.status && is_version j.prompt_ver prompt)) js

abbrev pub id_of_external : ExternalRow → Text
id_of_external e = e.external_id

abbrev pub head_of_external : ExternalRow → Text
head_of_external e = head_text e.head_snapshot_id

unfoldable pub embed_candidates : Store → List Text
unfolding note_heads external_heads has_live_head
embed_candidates st =
    note_heads (has_live_head st.db.versions) st.db.notes
    ++ external_heads head_of_external (λ s. true) st.snapshots st.externals

unfoldable pub embed_gap : Store → List Text
unfolding distinct keep has_job_not_dead embed_candidates
embed_gap st = distinct (keep (λ i. not (has_job_not_dead embed st.jobs i)) (embed_candidates st))

unfoldable pub enrich_candidates : Store → List Text
unfolding note_heads has_live_head
enrich_candidates st =
    note_heads (λ n. has_live_head st.db.versions n && not n.no_egress) st.db.notes

unfoldable pub enrich_gap : Text → Store → List Text
unfolding keep has_live_job has_current_job enrich_candidates
enrich_gap prompt st =
    keep (λ i. not (has_live_job enrich st.jobs i) && not (has_current_job prompt st.jobs i))
      (enrich_candidates st)

unfoldable pub refresh_candidates : ℕ → Store → List Text
unfolding external_heads
refresh_candidates cutoff st =
    external_heads id_of_external (λ s. leb s.fetched_at cutoff) st.snapshots st.externals

unfoldable pub stale_externals : ℕ → Store → List Text
unfolding keep has_live_job refresh_candidates
stale_externals cutoff st =
    keep (λ i. not (has_live_job refresh st.jobs i)) (refresh_candidates cutoff st)

-- One enqueue for each row that was found.
unfoldable pub enqueue_each : (ℕ → ℕ) → ℕ → JobType → List Text → List JobRow → List JobRow
unfolding enqueue_derive_jobs
enqueue_each clock k t [] js = js
enqueue_each clock k t (i ∷ is) js =
    enqueue_each clock (suc k) t is (enqueue_derive_jobs (clock k) i (t ∷ []) js)

abbrev pub enqueue_step : (ℕ → ℕ) → JobType → List Text → Store → ℕ × Store
enqueue_step clock t found st =
    (length found, record st { jobs = enqueue_each clock 0 t found st.jobs })

unfoldable pub embed_gap_step : (ℕ → ℕ) → Store → ℕ × Store
unfolding embed_gap enqueue_each
embed_gap_step clock st = enqueue_step clock embed (embed_gap st) st

unfoldable pub enrich_gap_step : Text → (ℕ → ℕ) → Store → ℕ × Store
unfolding enrich_gap enqueue_each
enrich_gap_step prompt clock st = enqueue_step clock enrich (enrich_gap prompt st) st

unfoldable pub refresh_stale_step : ℕ → (ℕ → ℕ) → Store → ℕ × Store
unfolding stale_externals enqueue_each
refresh_stale_step cutoff clock st = enqueue_step clock refresh (stale_externals cutoff st) st

-- `lexical_gap_heads`: the note, its head and the head's body.
abbrev pub body_of_head : Option VersionRow → Text
body_of_head none = []
body_of_head (some v) = v.body

unfoldable pub lexical_gap_heads : List Text → List VersionRow → List NoteRow → List CacheCall
unfolding has_live_head find_version any
lexical_gap_heads fts vs [] = []
lexical_gap_heads fts vs (n ∷ ns) =
    let rest = lexical_gap_heads fts vs ns in
    if has_live_head vs n && not (any (str_eq n.head_version_id) fts)
    then index_call n.note_id n.head_version_id (body_of_head (find_version n.head_version_id vs))
      ∷ rest
    else rest

unfoldable pub lexical_gap_step : List Text → Store → ℕ × Store
unfolding lexical_gap_heads
lexical_gap_step fts st =
    let found = lexical_gap_heads fts st.db.versions st.db.notes in
    (length found, record st { cache = st.cache ++ found })

-- What a scan reads beside the tables.
pub record Scan : Type 0 where
  pub clock : ℕ → ℕ
  pub prompt_ver : Text
  pub cutoff : ℕ
  pub fts : List Text

-- The registered steps, in the order of their registration.
unfoldable pub reconcile : Scan → Store → ℕ × Store
reconcile scan st =
    let (embeds, st1) = embed_gap_step scan.clock st in
    let (enriches, st2) = enrich_gap_step scan.prompt_ver scan.clock st1 in
    let (refreshes, st3) = refresh_stale_step scan.cutoff scan.clock st2 in
    let (indexes, st4) = lexical_gap_step scan.fts st3 in
    (embeds + enriches + refreshes + indexes, st4)
