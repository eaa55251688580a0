-- ===== src/Lib.antt =====
-- lode: a note store with an append-only version chain, a job queue that derives embeddings and
-- enrichments from the notes, and questions that are answered from them.
--
-- A save writes a version of a note and moves the note's head (src/lode/versions.py); ids are
-- content addresses (src/lode/hashing.py). In the same transaction it links the note to the pages
-- that its body names (src/lode/drawdown.py), re-anchors what the AI derived from the note
-- (src/lode/staleness.py) and enqueues derive jobs (src/lode/jobs.py), which workers claim, run,
-- retry and reclaim (src/lode/worker.py); src/lode/repository.py composes this. A refresh job
-- fetches a page into the mirror of external sources (src/lode/externals.py), and a scan enqueues
-- the jobs that are missing (src/lode/reconcile.py). A question is answered from the passages
-- that src/lode/retrieval.py finds, fuses, expands along the links and ranks by trust. An answer
-- to a question is shown only as far as its claims pass the gate (src/lode/gate.py).
--
-- Files:
--
-- Prelude: names from the libraries, Boolean tests, lists, and texts as lists of code points.
--
-- Hashing: src/lode/hashing.py. `encode` is UTF-8 and `framed`, `content_id` and the two ids are
--   the functions of those names. The hash functions are a parameter, `Hashers`; that they give
--   32 hexadecimal digits is the hypothesis `HexDigests`, which a small hash of Fixtures meets.
--
-- Schema: the rows of src/lode/schema.sql, and the database as one record of tables, the newest
--   row first.
--
-- Versions: src/lode/versions.py. A body inside `with conn:` is a function from the database to a
--   result or an error; `with_conn` keeps the old database on an error. `save_core`,
--   `delete_core`, `recover_core` and `purge_core` are the bodies, `save`, `delete_note`
--   (`delete`), `recover` and `purge` the calls; `step` is one request and `run` a list of them.
--
-- Jobs: src/lode/jobs.py. The table of jobs is a list of rows; `enqueue_derive_jobs`, `iso`,
--   `backoff_next_attempt_at`, `next_failure_state`, `cas_update_running` and
--   `record_job_failure` are the functions of those names, and `Clock.now` is `now`. Times are
--   numbers of microseconds; a fraction of one in the settings of the backoff is left out.
--
-- Worker: src/lode/worker.py. `reset_retryable`, `reclaim_stale_running`, `claim_one`, `run_one`
--   and `claim_and_run_one` are its functions and `run_jobs` the main loop of `drain`;
--   Worker.Batch has the batch lane, `_batch_collect_enrich` and `_batch_submit_enrich`, where
--   the two calls of src/lode/enrich.py that reach the provider are parameters, and Worker.Passes
--   has `drain` as a whole; a handler is a parameter that ends in an outcome and may change the
--   table. Worker.Single and Worker.Lane show that these keep the invariant of the job table, and
--   `Worker.Queue.Event` is one transaction of these on the table, those of the batch lane
--   included, so that any interleaving of them is a list, and a handler may end at any point of
--   it; left out are the two UPDATEs of src/lode/enrich.py by which a submission writes the
--   handle of its batch and marks the jobs that it leaves out as done. Worker.Budget has the
--   passes over a batch whose polls raise after commits of results, and Worker.Weight the measure
--   of the jobs that a pass has before it.
--
-- Staleness: src/lode/staleness.py. `classify` is `_classify` and `reanchor_annotations` and
--   `reanchor_edges` are the loops over the selected rows, each of which is written back by its
--   id.
--
-- Answer, Faithfulness, Gate: src/lode/answer.py, src/lode/faithfulness.py and src/lode/gate.py.
--   `locate_span` returns the offsets of a span, exactly or in other white space,
--   `claim_extractively_coupled` is the check on words, `claim_entailed` the one on the scorer,
--   and `apply_gate` keeps the claims that `claim_survives`. Case folding, the word class of
--   Unicode and the scorer are parameters.
--
-- Chunking: src/lode/chunking.py. `segment` is `_segment` with its loop over lines as a fold on a
--   state, `split_block` is `_split_block`, and `chunk` returns the passages; an `IndexError`
--   would be `none`.
--
-- Egress: src/lode/egress.py and the substitution of src/lode/redact.py. `gate_qa_egress`
--   partitions the passages of a question, redacts those that may leave, and writes a row of the
--   audit log; a compiled pattern is a parameter.
--
-- Store: the tables of src/lode/schema.sql and the record of the calls of the cache, as one state
--   for the parts that write several of them.
--
-- Externals: src/lode/externals.py. `ingest_snapshot` is the body of that function, with its
--   upsert, its guard, its deduplication and its move of the head; Externals.Fetch has
--   `ingest_fetch_result`, `set_no_egress` and the hook `_refresh_dead_letter_hook` of
--   src/lode/worker.py, Externals.Reenrich the gate on material changes, where the vectors and
--   their distance are parameters, and Externals.Requests makes any sequence of these calls a
--   list. `now_iso()` is an argument of each call.
--
-- Drawdown: src/lode/drawdown.py. `iter_url_spans` and `iter_bare_jira_key_spans` scan the text
--   by recursion in place of the regular expressions; Drawdown.Urls has `classify_atlassian` and
--   `canonicalize_url`, where the functions of `urllib.parse` are the record `UrlLib`;
--   Drawdown.Links has `link_and_enqueue` and `detect_and_enqueue_drawdown`; Drawdown.Refresh has
--   `refresh_external` with its legs, where the three fetches are the record `Fetchers`.
--
-- Repository: src/lode/repository.py. `repository_save`, `repository_delete`,
--   `repository_recover` and `repository_purge` are the methods, `resolve_note_prefix` the search
--   for a note by the start of its id, and `Context` is what the object holds. A save keeps the
--   whole old store where any part of it raises.
--
-- Reconcile: src/lode/reconcile.py. `embed_gap_step`, `enrich_gap_step`, `lexical_gap_step` and
--   `refresh_stale_step` are its four steps, `reconcile` the scan; a SELECT is a filter over the
--   lists.
--
-- Retrieval: src/lode/retrieval.py. `reciprocal_rank_fusion`, `rerank` and `expand_parents` are
--   the functions of those names, Retrieval.Graph has `graph_expand`, Retrieval.Trust has
--   `trust_rank` and `pinned_note_context`, and Retrieval.Pipeline has `retrieve` (`_retrieve`).
--   The indexes, the embedder and the cross-encoder are the record `Models`, and the
--   floating-point numbers the record `Floats`, of which no law is asked.
--
-- FenceParsing: src/lode/fence_parsing.py. `match_fence_marker`, `closes_fence` and `fence_flags`
--   are the functions of those names.
--
-- Fixtures and the modules named Examples: test data, runs, and the theorems at concrete inputs.
--
-- All definitions are total by recursion on lists, except for the loop of `drain`, which has a
-- number of rounds, the loop over the windows of a long block, which has one round for each token
-- and moves on by at least one token in each, the digits of a number, which have one more round
-- than the number, and the hops of `graph_expand`, which have the limit of the settings. Numbers
-- have no bound, as Python's integers have none; the length prefix of a field is the 8 bytes of
-- the source and a longer field is an error.
--
-- Not modelled: the three handlers of src/lode/worker.py, the prompts and the providers of models
-- (src/lode/enrich.py, src/lode/qa.py, src/lode/llm_provider.py), the vector and full-text
-- indexes (src/lode/vectorstore.py, src/lode/lexical.py), fetching over the network
-- (src/lode/webfetch.py and the clients of JIRA and Confluence), the read-only queries for
-- display, and the terminal and command-line interfaces. They are input and output, or calls of
-- services that are not in the repository.
pub mod Prelude
pub mod Hashing
pub mod Fixtures
pub mod Schema
pub mod Versions
pub mod Jobs
pub mod Worker
pub mod Staleness
pub mod Answer
pub mod Faithfulness
pub mod Gate
pub mod Chunking
pub mod Egress
pub mod FenceParsing
pub mod Store
pub mod Externals
pub mod Reconcile
pub mod Drawdown
pub mod Repository
pub mod Retrieval
