-- ===== src/Repository/Atomic.antt =====
-- A save of repository.py on every branch.
use lode.Prelude.{
  Text, Bool, false, List, [], ◌∷◌, Option, none, some, ◌≡◌, refl, sym, ap, ◌∙◌, subst, Some,
  if◌then◌else◌, Bool-cases, inl, inr,
}
use lode.Schema.{Db}
use lode.Versions.{Result, ok, err, value_error, SaveResult, save_core, head}
use lode.Versions.Chain.{IsSound}
use lode.Store.{Store}
use lode.Chunking.{strip}
use lode.Drawdown.{extract_urls}
use lode.Drawdown.Urls.{classify_atlassian}
use lode.Drawdown.Links.{url_link, detect_and_enqueue_drawdown}
use lode.Drawdown.Detected.{IsDetected, detect-IsDetected, detect-raises}
use lode.Repository.{Context, finish_save, with_links, with_jobs, after_core, repository_save}
use lode.Repository.Core.{IsCore, save_core-IsCore}
use lode.Repository.Save.{IsWritten, IsSaved, written}

linked-IsWritten :
    (c : Context) (k body : Text) (r : SaveResult) (db : Db) (st : Store)
    (o : Option (List Text × Store))
    → r.deduped ≡ false
    → head db k ≡ some (r.version_id, body)
    → IsDetected c.settings c.clock k r.version_id c.urls c.links
        (extract_urls body)
        (with_jobs c r.version_id db st)
        o
    → IsSaved c k body st (with_links c k body r st o)
linked-IsWritten c k body r db st none new at d = refl
linked-IsWritten c k body r db st (some (ids, st')) new at d =
    subst
      (λ b.
        if b
        then (finish_save c k body r st' ≡ st)
        else IsWritten c k body r st (finish_save c k body r st'))
      (sym new) (written c k body r db st st' at d.0 d.1)

core-IsSaved :
    (c : Context) (k body : Text) (st : Store) (o : Result (SaveResult × Db))
    → IsCore k body st.db o
    → IsSaved c k body st (after_core c k body st o)
core-IsSaved c k body st (err e) u = refl
core-IsSaved c k body st (ok (r, db)) u = elim (Bool-cases r.deduped) [
  | inl again ↦
      subst (λ b. IsSaved c k body st (if b then (ok r, record st { db = db }) else next))
        (sym again)
        (subst
          (λ b.
            if b
            then (record st { db = db } ≡ st)
            else IsWritten c k body r st (record st { db = db }))
          (sym again)
          (ap (λ d. record st { db = d })
            (subst (λ b. if b then (db ≡ st.db) else (head db k ≡ some (r.version_id, body))) again
              u)))
  | inr new ↦
      subst (λ b. IsSaved c k body st (if b then (ok r, record st { db = db }) else next)) (sym new)
        (linked-IsWritten c k body r db st detected new
          (subst (λ b. if b then (db ≡ st.db) else (head db k ≡ some (r.version_id, body))) new u)
          (detect-IsDetected c.settings c.clock k r.version_id c.urls c.links body
            (with_jobs c r.version_id db st)))
]
  where
    detected : Option (List Text × Store)
    detected =
        detect_and_enqueue_drawdown c.settings c.clock k r.version_id c.urls c.links body
          (with_jobs c r.version_id db st)

    next : Result SaveResult × Store
    next = with_links c k body r st detected

-- A save on a sound store either raises, or repeats the head's body, and leaves the whole store as it
-- was; or it has written everything: the new version is the note's head with the given body, it has
-- live jobs of embedding and enrichment, each URL of the body that has an external id has its edge
-- from the note, and the cache has been called once, with the redacted_body body.
pub repository_save_lem :
    (c : Context) (note_id body parent : Text) (no_egress : Option Bool) (st : Store)
    → IsSound c.hashers c.settings.content_hash st.db
    → IsSaved c note_id body st (repository_save c note_id body parent no_egress st)
unfolding repository_save
repository_save_lem c note_id body parent no_egress st s =
    core-IsSaved c note_id body st
      (save_core c.hashers c.settings note_id body parent no_egress st.db)
      (save_core-IsCore c.hashers c.settings st.db note_id body parent no_egress s)

after-raises :
    (c : Context) (k body : Text) (st : Store) (r : SaveResult) (db : Db)
    → r.deduped ≡ false
    → Some
        (λ url. url_link c.settings c.clock k r.version_id c.urls c.links url ≡ none)
        (extract_urls body)
    → after_core c k body st (ok (r, db)) ≡ (err value_error, st)
after-raises c k body st r db new bad =
    ap (λ b. if b then (ok r, record st { db = db }) else next) new
    ∙ ap (with_links c k body r st) (
        detect-raises c.settings c.clock k r.version_id c.urls c.links body
          (with_jobs c r.version_id db st) bad)
  where
    next : Result SaveResult × Store
    next = with_links c k body r st (
        detect_and_enqueue_drawdown c.settings c.clock k r.version_id c.urls c.links body
          (with_jobs c r.version_id db st))

refused-raises :
    (c : Context) (k version : Text) (urls : List Text)
    → Some (λ url. c.urls.urlsplit (strip url) ≡ none) urls
    → Some (λ url. url_link c.settings c.clock k version c.urls c.links url ≡ none) urls
unfolding url_link classify_atlassian
refused-raises c k version [] bad = bad
refused-raises c k version (url ∷ urls) (inl refused) = inl (rw refused refl)
refused-raises c k version (url ∷ urls) (inr bad) = inr (refused-raises c k version urls bad)

-- Where versions.py would save a new version, and the body has a URL that `urlsplit` refuses, the
-- save raises and the note is not saved.
pub repository_save_raises :
    (c : Context) (note_id body parent : Text) (no_egress : Option Bool) (st : Store)
    (r : SaveResult) (db : Db)
    → save_core c.hashers c.settings note_id body parent no_egress st.db ≡ ok (r, db)
    → r.deduped ≡ false
    → Some (λ url. c.urls.urlsplit (strip url) ≡ none) (extract_urls body)
    → repository_save c note_id body parent no_egress st ≡ (err value_error, st)
unfolding repository_save
repository_save_raises c note_id body parent no_egress st r db core new bad =
    ap (after_core c note_id body st) core
    ∙ after-raises c note_id body st r db new
        (refused-raises c note_id r.version_id (extract_urls body) bad)
