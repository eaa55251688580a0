-- ===== src/Drawdown/Handled.antt =====
-- The handler of a refresh job of drawdown.py, from the fetch to the tables.
use lode.Prelude.{
  ℕ, Text, codes, List, [], ◌∷◌, map, Option, none, some, ◌≡◌, refl, sym, ap, ◌∙◌, subst, str_eq,
  str_eq_iff, Bool-cases, inl, inr,
}
use lode.Hashing.{Hashers, content_snapshot_id}
use lode.Schema.{ExternalRow, SnapshotStatus}
use lode.Versions.{Settings}
use lode.Egress.{Pattern}
use lode.Store.{Store}
use lode.Externals.{
  find_external, head_snapshot, tombstone_body, ingest_snapshot, Fetched, Ingest, IngestResult,
  ingested,
}
use lode.Externals.Fetch.{
  FetchStatus, fetched_ok, fetch_tombstone, FetchResult, fetched_of, ingest_fetch_result, or_text,
  source_type_web, source_type_or_web,
}
use lode.Externals.Mirror.{IsMirror}
use lode.Externals.Guard.{IsHeadId}
use lode.Externals.Requests.{ingest-IsMirror}
use lode.Drawdown.Urls.{UrlLib, LinkSettings, canonicalize_url}
use lode.Drawdown.Refresh.{
  after_web_ingest, Fetchers, refresh_web, refresh_atlassian, refresh_external,
}
use lode.Drawdown.Refreshed.{ingest-Ends, repointed, repoint_edges-repointed, repointed-same}

-- The body of the snapshot that a fetch leads to.
abbrev pub body_fetched : FetchStatus → FetchResult → Text
body_fetched fetched_ok r = or_text r.clean_text []
body_fetched fetch_tombstone r = tombstone_body (or_text r.tombstone_reason (codes "unknown"))

module _ (h : Hashers) (settings : Settings) (patterns : List Pattern) (u : UrlLib)
    (links : LinkSettings) (fetched_at enqueued_at : ℕ) where
  -- What the fetch of a source gives, and the id under which it is kept.
  pub data Fetches (fetchers : Fetchers) (target : Text) (st : Store)
      : FetchResult → Text → Type 0 where
    from_web :
        (r : FetchResult) (final : Text)
        → source_type_or_web (find_external target st.externals) ≡ source_type_web
        → fetchers.fetch_and_extract target ≡ some r
        → canonicalize_url u links r.final_url ≡ some final
        → Fetches fetchers target st r final
    from_jira :
        (r : FetchResult) (c : ℕ) (base : Text) (e : ExternalRow)
        → find_external target st.externals ≡ some e
        → e.source_type ≡ codes "jira"
        → e.api_base ≡ some (c ∷ base)
        → fetchers.fetch_jira_issue target (c ∷ base) ≡ some r
        → Fetches fetchers target st r target
    from_confluence :
        (r : FetchResult) (c : ℕ) (base : Text) (e : ExternalRow)
        → find_external target st.externals ≡ some e
        → e.source_type ≡ codes "confluence"
        → e.api_base ≡ some (c ∷ base)
        → fetchers.fetch_confluence_page target (c ∷ base) ≡ some r
        → Fetches fetchers target st r target

  pub record IsRefreshed (target final i : Text) (st st' : Store) : Type 0 where
    pub mirror : IsMirror h settings.content_hash st'
    pub headed : IsHeadId i (head_snapshot final st')
    pub same_notes : st'.db.notes ≡ st.db.notes
    pub same_versions : st'.db.versions ≡ st.db.versions
    pub same_annotations : st'.db.annotations ≡ st.db.annotations
    pub edges : st'.db.edges ≡ map (repointed target final) st.db.edges

  -- A handler that ends well.
  abbrev pub Refreshes : Text → Text → Text → Store → Option (Text × Store) → Type 0
  Refreshes target final i st o =
      (line : Text) × (st' : Store) × (o ≡ some (line, st')) × IsRefreshed target final i st st'

  web-IsRefreshed :
      (target final i : Text) (reason : Option Text) (status : SnapshotStatus) (st st1 : Store)
      → IsMirror h settings.content_hash st1
      → IsHeadId i (head_snapshot final st1)
      → st1.db ≡ st.db
      → IsRefreshed target final i st (after_web_ingest target final reason status st1).1
  unfolding after_web_ingest head_snapshot
  web-IsRefreshed target final i reason status st st1 m e same =
      elim (Bool-cases (str_eq final target)) [
        | inl here ↦ rw here (record {
          mirror = m;
          headed = e;
          same_notes = ap (λ d. d.notes) same;
          same_versions = ap (λ d. d.versions) same;
          same_annotations = ap (λ d. d.annotations) same;
          edges =
              ap (λ d. d.edges) same
              ∙ subst (λ k. st.db.edges ≡ map (repointed target k) st.db.edges)
                  (sym ((str_eq_iff final target).0 here))
                  (sym (repointed-same target st.db.edges));
        })
        | inr moved ↦ rw moved (record {
          mirror = record { headed = m.headed; addressed = m.addressed; embedded = m.embedded };
          headed = e;
          same_notes = ap (λ d. d.notes) same;
          same_versions = ap (λ d. d.versions) same;
          same_annotations = ap (λ d. d.annotations) same;
          edges =
              repoint_edges-repointed target final st1.db.edges
              ∙ ap (λ d. map (repointed target final) d.edges) same;
        })
      ]

  -- The ingest of what was fetched ends well, with its head under the id.
  abbrev pub Lands : Text → Text → Store → Ingest × Store → Type 0
  Lands k i st x =
      (res : IngestResult) × (st1 : Store) × (x ≡ (ingested res, st1))
      × IsHeadId i (head_snapshot k st1)
      × (st1.db ≡ st.db)
      × IsMirror h settings.content_hash st1

  ingest-Lands :
      (f : Fetched) (i : Text) (st : Store)
      → f.skip_if_head_at_or_after ≡ none
      → content_snapshot_id h settings.content_hash f.external_id f.body ≡ some i
      → IsMirror h settings.content_hash st
      → Lands f.external_id i st (ingest_snapshot h settings patterns f st)
  ingest-Lands f i st free hashed m =
      let e = ingest-Ends h settings patterns f st i free hashed in
      (
        e.0,
        e.1,
        e.2,
        e.4,
        e.5,
        subst (λ x. IsMirror h settings.content_hash x.1) e.2
            (ingest-IsMirror h settings patterns f st m),
      )

  fetch_result-Lands :
      (k source i : Text) (r : FetchResult) (st : Store)
      → content_snapshot_id h settings.content_hash k (body_fetched r.status r) ≡ some i
      → IsMirror h settings.content_hash st
      → Lands k i st (ingest_fetch_result h settings patterns k source r fetched_at enqueued_at st)
  unfolding ingest_fetch_result
  fetch_result-Lands k source i r st hashed m = of_status r.status hashed
    where
      of_status :
          (s : FetchStatus)
          → content_snapshot_id h settings.content_hash k (body_fetched s r) ≡ some i
          → Lands k i st (
              ingest_snapshot h settings patterns
                (fetched_of s k source r fetched_at enqueued_at)
                st)
      of_status fetched_ok e =
          ingest-Lands (fetched_of fetched_ok k source r fetched_at enqueued_at) i st refl e m
      of_status fetch_tombstone e =
          ingest-Lands (fetched_of fetch_tombstone k source r fetched_at enqueued_at) i st refl e m

  web-Refreshes :
      (fetch : Text → Option FetchResult) (target final i : Text) (r : FetchResult) (st : Store)
      → fetch target ≡ some r
      → canonicalize_url u links r.final_url ≡ some final
      → content_snapshot_id h settings.content_hash final (body_fetched r.status r) ≡ some i
      → IsMirror h settings.content_hash st
      → Refreshes target final i st
          (refresh_web h settings patterns u links fetched_at enqueued_at fetch target st)
  unfolding refresh_web
  web-Refreshes fetch target final i r st got canon hashed m =
      let e = fetch_result-Lands final source_type_web i r st hashed m in
      let after = after_web_ingest target final r.tombstone_reason e.0.status e.1 in
      rw (got, canon, e.2)
        (
          after.0,
          after.1,
          refl,
          web-IsRefreshed target final i r.tombstone_reason e.0.status st e.1 e.5 e.3 e.4,
        )

  atlassian-Refreshes :
      (fetch_fn : Text → Text → Option FetchResult) (source target i : Text) (c : ℕ) (base : Text)
      (e : ExternalRow) (r : FetchResult) (st : Store)
      → find_external target st.externals ≡ some e
      → e.api_base ≡ some (c ∷ base)
      → fetch_fn target (c ∷ base) ≡ some r
      → content_snapshot_id h settings.content_hash target (body_fetched r.status r) ≡ some i
      → IsMirror h settings.content_hash st
      → Refreshes target target i st (
          refresh_atlassian h settings patterns u links fetched_at enqueued_at fetch_fn source
            target st)
  unfolding refresh_atlassian
  atlassian-Refreshes fetch_fn source target i c base e r st found at got hashed m =
      let l = fetch_result-Lands target source i r st hashed m in
      rw (found, at, got, l.2)
        (
          _,
          l.1,
          refl,
          record {
            mirror = l.5;
            headed = l.3;
            same_notes = ap (λ d. d.notes) l.4;
            same_versions = ap (λ d. d.versions) l.4;
            same_annotations = ap (λ d. d.annotations) l.4;
            edges = ap (λ d. d.edges) l.4 ∙ sym (repointed-same target st.db.edges);
          },
        )

  -- Where a source is fetched, by the leg of its type, and what was fetched has an id: the handler
  -- ends well; the mirror keeps its invariant; the head of the source under its final id is the
  -- snapshot with that id; and of the graph only the edges of users that pointed at the target
  -- change, which now point at the final id.
  pub refresh_external_lem :
      (fetchers : Fetchers) (target i : Text) (st : Store) (r : FetchResult) (final : Text)
      → IsMirror h settings.content_hash st
      → Fetches fetchers target st r final
      → content_snapshot_id h settings.content_hash final (body_fetched r.status r) ≡ some i
      → Refreshes target final i st
          (refresh_external h settings patterns u links fetched_at enqueued_at fetchers target st)
  unfolding refresh_external str_eq
  refresh_external_lem fetchers target i st _ _ m (from_web r final web got canon) hashed =
      rw web (web-Refreshes fetchers.fetch_and_extract target final i r st got canon hashed m)
  refresh_external_lem fetchers target i st _ _ m (from_jira r c base e found jira at got) hashed =
      rw (found, jira)
        (atlassian-Refreshes fetchers.fetch_jira_issue (codes "jira") target i c base e r st found
          at got hashed m)
  refresh_external_lem fetchers target i st _ _ m
        (from_confluence r c base e found confluence at got) hashed =
      rw (found, confluence)
        (atlassian-Refreshes fetchers.fetch_confluence_page (codes "confluence") target i c base e r
          st found at got hashed m)
