-- ===== src/Repository/Save.antt =====
-- The transaction of a save of repository.py.
use lode.Prelude.{
  ℕ, Text, Bool, List, [], ◌∷◌, ◌++◌, Option, none, some, ◌≡◌, refl, sym, ap, ◌∙◌, subst, All, any,
  if◌then◌else◌, Bool-cases, inl, inr, arith,
}
use lode.Schema.{EdgeRow, Db, AnchorStatus, fresh, stale, orphaned}
use lode.Jobs.{JobType, derive_job_types, enqueue_derive_jobs, holds_key}
use lode.Jobs.Queue.{HasLive, enqueue-HasLive}
use lode.Staleness.{
  update_by_id, reanchor_rows, reanchor_edges, edge_id, is_edge_of, edge_status, write_edge,
  no_counts, select_rows, counted, Counts,
}
use lode.Versions.{Result, ok, err, SaveResult, head}
use lode.Store.{Store, index_call}
use lode.Drawdown.{extract_urls}
use lode.Drawdown.Links.{Link, is_user_edge, url_link}
use lode.Drawdown.Linked.{IsEdge, Follows}
use lode.Drawdown.Detected.{IsLinked}
use lode.Repository.{Context, redacted_body, is_update, reanchor_both, finish_save, with_jobs}

-- Re-anchoring moves no edge of the user.
same_edge :
    (k i v : Text) (a : AnchorStatus) (e : EdgeRow)
    → is_user_edge k i (write_edge v a e) ≡ is_user_edge k i e
same_edge k i v fresh e = refl
same_edge k i v stale e = refl
same_edge k i v orphaned e = refl

any-update_by_id :
    (p : EdgeRow → Bool) (n : ℕ) (set : EdgeRow → EdgeRow) (es : List EdgeRow)
    → ((e : EdgeRow) → p (set e) ≡ p e)
    → any p (update_by_id edge_id n set es) ≡ any p es
unfolding any update_by_id
any-update_by_id p n set [] same = refl
any-update_by_id p n set (e ∷ es) same = ground (arith, any-update_by_id p n set es same, same e)

any-reanchor_rows :
    (k i v body : Text) (selected : List EdgeRow) (counts : Counts) (es : List EdgeRow)
    → any
        (is_user_edge k i)
        (reanchor_rows edge_id (edge_status body) (write_edge v) selected counts es).1
      ≡ any (is_user_edge k i) es
unfolding reanchor_rows
any-reanchor_rows k i v body [] counts es = refl
any-reanchor_rows k i v body (r ∷ selected) counts es =
    any-reanchor_rows k i v body selected (counted (edge_status body r) counts)
      (update_by_id edge_id (edge_id r) (write_edge v (edge_status body r)) es)
    ∙ any-update_by_id (is_user_edge k i) (edge_id r) (write_edge v (edge_status body r)) es
        (same_edge k i v (edge_status body r))

finish-edges :
    (c : Context) (k body : Text) (r : SaveResult) (st : Store) (i : Text)
    → IsEdge k st i
    → IsEdge k (finish_save c k body r st) i
unfolding finish_save reanchor_both reanchor_edges
finish-edges c k body r st i there = elim (Bool-cases (is_update r.op)) [
  | inr new ↦ rw new there
  | inl again ↦ rw again (
      any-reanchor_rows k i r.version_id body (select_rows edge_id (is_edge_of k) st.db.edges)
        no_counts st.db.edges
      ∙ there)
]

finish-rest :
    (c : Context) (k body : Text) (r : SaveResult) (st : Store)
    → ((finish_save c k body r st).db.notes ≡ st.db.notes)
      × ((finish_save c k body r st).db.versions ≡ st.db.versions)
      × ((finish_save c k body r st).jobs ≡ st.jobs)
      × ((finish_save c k body r st).cache
          ≡ st.cache ++ index_call k r.version_id (redacted_body c body) ∷ [])
unfolding finish_save reanchor_both
finish-rest c k body r st = elim (Bool-cases (is_update r.op)) [
  | inr new ↦ rw new (refl, refl, refl, refl)
  | inl again ↦ rw again (refl, refl, refl, refl)
]

-- What a save that is no repetition has done.
pub record IsWritten (c : Context) (note_id body : Text) (r : SaveResult) (st st' : Store)
    : Type 0 where
  pub at_head : head st'.db note_id ≡ some (r.version_id, body)
  pub enqueued : All (HasLive r.version_id st'.jobs) derive_job_types
  pub linked :
      All
        (λ url.
          IsLinked note_id st'
            (url_link c.settings c.clock note_id r.version_id c.urls c.links url))
        (extract_urls body)
  pub indexed : st'.cache ≡ st.cache ++ index_call note_id r.version_id (redacted_body c body) ∷ []

abbrev pub IsSaved : Context → Text → Text → Store → Result SaveResult × Store → Type 0
IsSaved c note_id body st (err e, st') = st' ≡ st
IsSaved c note_id body st (ok r, st') =
    if r.deduped then (st' ≡ st) else IsWritten c note_id body r st st'

head-same :
    (k : Text) (a b : Db) → a.notes ≡ b.notes → a.versions ≡ b.versions → head a k ≡ head b k
unfolding head
head-same k a b notes versions = cc (notes, versions)

linked-same :
    (k : Text) (st st' : Store) (c : Context) (v : Text) (urls : List Text)
    → ((i : Text) → IsEdge k st i → IsEdge k st' i)
    → All (λ url. IsLinked k st (url_link c.settings c.clock k v c.urls c.links url)) urls
    → All (λ url. IsLinked k st' (url_link c.settings c.clock k v c.urls c.links url)) urls
linked-same k st st' c v [] keep h = tt
linked-same k st st' c v (url ∷ urls) keep h = (
  one (url_link c.settings c.clock k v c.urls c.links url) h.0,
  linked-same k st st' c v urls keep h.1,
)
  where
    one : (o : Option (Option Link)) → IsLinked k st o → IsLinked k st' o
    one none u = u
    one (some none) u = tt
    one (some (some link)) u = keep link.external_id u

pub written :
    (c : Context) (k body : Text) (r : SaveResult) (db : Db) (st st' : Store)
    → head db k ≡ some (r.version_id, body)
    → Follows k (with_jobs c r.version_id db st) st'
    → All
        (λ url. IsLinked k st' (url_link c.settings c.clock k r.version_id c.urls c.links url))
        (extract_urls body)
    → IsWritten c k body r st (finish_save c k body r st')
written c k body r db st st' at f links =
    let (notes, versions, jobs, cache) = finish-rest c k body r st' in
    record {
      at_head =
          head-same k (finish_save c k body r st').db db (notes ∙ f.same_notes)
            (versions ∙ f.same_versions)
          ∙ at;
      enqueued =
          subst (λ js. All (HasLive r.version_id js) derive_job_types) (sym jobs)
            (grown derive_job_types (enqueue-HasLive c.now r.version_id derive_job_types st.jobs));
      linked =
          linked-same k st' (finish_save c k body r st') c r.version_id (extract_urls body)
            (finish-edges c k body r st') links;
      indexed =
          cache
          ∙ ap (λ calls. calls ++ index_call k r.version_id (redacted_body c body) ∷ [])
              f.same_cache;
    }
  where
    grown :
        (types : List JobType)
        → All
            (HasLive r.version_id (enqueue_derive_jobs c.now r.version_id derive_job_types st.jobs))
            types
        → All (HasLive r.version_id st'.jobs) types
    grown [] h = tt
    grown (t ∷ types) h = (f.jobs_grow (holds_key t r.version_id []) h.0, grown types h.1)
