-- ===== src/Drawdown/Detected.antt =====
-- The loops of drawdown.py over the links of a body: what they write, and when they raise.
use lode.Prelude.{
  ℕ, Text, List, [], ◌∷◌, Option, none, some, ◌≡◌, ◌⊎◌, refl, sym, ap, subst, All, Some, inl, inr,
  Option-cases,
}
use lode.Versions.{Settings}
use lode.Store.{Store}
use lode.Drawdown.{extract_urls}
use lode.Drawdown.Urls.{UrlLib, LinkSettings}
use lode.Drawdown.Links.{
  Link, link_and_enqueue, url_link, linked, link_urls, link_keys, bare_jira_keys, key_link,
  then_keys, detect_and_enqueue_drawdown,
}
use lode.Drawdown.Linked.{
  IsEdge, Follows, Follows-refl, Follows-trans, link-Follows, link-AreEdges, AreEdges,
}

-- The link of a URL, where it has one, has its edge.
abbrev pub IsLinked : Text → Store → Option (Option Link) → Type 0
IsLinked note_id st none = ⊥
IsLinked note_id st (some none) = Unit
IsLinked note_id st (some (some link)) = IsEdge note_id st link.external_id

IsLinked-Follows :
    (note_id : Text) (st st' : Store) (o : Option (Option Link))
    → Follows note_id st st'
    → IsLinked note_id st o
    → IsLinked note_id st' o
IsLinked-Follows note_id st st' none f u = u
IsLinked-Follows note_id st st' (some none) f u = tt
IsLinked-Follows note_id st st' (some (some link)) f u = f.edges_grow link.external_id u

module _ (settings : Settings) (clock : ℕ → ℕ) (note_id version_id : Text) (u : UrlLib)
    (links : LinkSettings) where
  -- The links are all there, or one of them could not be classified.
  abbrev pub AreLinked : List Text → Store → Option (List Text × Store) → Type 0
  AreLinked urls st none =
      Some (λ url. url_link settings clock note_id version_id u links url ≡ none) urls
  AreLinked urls st (some (ids, st')) =
      Follows note_id st st'
      × All (λ url. IsLinked note_id st' (url_link settings clock note_id version_id u links url))
          urls
      × AreEdges settings clock note_id version_id ids st'

  after_one :
      (link : Option Link) (s : List Text × Store)
      → AreEdges settings clock note_id version_id s.0 s.1
      → Follows note_id s.1 (linked settings clock note_id version_id u links link s).1
        × AreEdges settings clock note_id version_id
            (linked settings clock note_id version_id u links link s).0
            (linked settings clock note_id version_id u links link s).1
        × IsLinked note_id (linked settings clock note_id version_id u links link s).1 (some link)
  after_one none s a = (Follows-refl note_id s.1, a, tt)
  after_one (some link) s a =
      let (edges, here) = link-AreEdges settings clock note_id version_id link s a in
      (link-Follows settings clock note_id version_id link s, edges, here)

  link_urls-AreLinked :
      (urls : List Text) (s : List Text × Store)
      → AreEdges settings clock note_id version_id s.0 s.1
      → AreLinked urls s.1 (link_urls settings clock note_id version_id u links urls s)
  unfolding link_urls
  link_urls-AreLinked [] s a = (Follows-refl note_id s.1, tt, a)
  link_urls-AreLinked (url ∷ urls) s a =
      elim (Option-cases (url_link settings clock note_id version_id u links url)) [
        | inl raised ↦ rw (raised, link_urls) (inl raised)
        | inr (link, read) ↦
            let (f, edges, here) = after_one link s a in
            let s' = linked settings clock note_id version_id u links link s in
            rw (read, link_urls)
              (joined url urls link s.1 s'.1
                (link_urls settings clock note_id version_id u links urls s') read f here
                (link_urls-AreLinked urls s' edges))
      ]
    where
      joined :
          (url : Text) (urls : List Text) (link : Option Link) (st st' : Store)
          (o : Option (List Text × Store))
          → url_link settings clock note_id version_id u links url ≡ some link
          → Follows note_id st st'
          → IsLinked note_id st' (some link)
          → AreLinked urls st' o
          → AreLinked (url ∷ urls) st o
      joined url urls link st st' none read f here h = inr h
      joined url urls link st st' (some (ids, st'')) read f here (g, all', edges) = (
        Follows-trans note_id st st' st'' f g,
        (
          subst (IsLinked note_id st'') (sym read)
              (IsLinked-Follows note_id st' st'' (some link) g here),
          all',
        ),
        edges,
      )

  link_keys-Follows :
      (keys : List Text) (s : List Text × Store)
      → Follows note_id s.1 (link_keys settings clock note_id version_id u links keys s).1
  unfolding link_keys
  link_keys-Follows [] s = Follows-refl note_id s.1
  link_keys-Follows (key ∷ keys) s =
      let link = key_link settings clock note_id version_id links key in
      let s' = link_and_enqueue settings clock note_id version_id link s in
      Follows-trans note_id s.1 s'.1 (link_keys settings clock note_id version_id u links keys s').1
        (link-Follows settings clock note_id version_id link s) (link_keys-Follows keys s')

  -- The end of the detection: what it has written, or the URL that it could not classify.
  abbrev pub IsDetected : List Text → Store → Option (List Text × Store) → Type 0
  IsDetected urls st none =
      Some (λ url. url_link settings clock note_id version_id u links url ≡ none) urls
  IsDetected urls st (some (ids, st')) =
      Follows note_id st st'
      × All (λ url. IsLinked note_id st' (url_link settings clock note_id version_id u links url))
          urls

  All-Follows :
      (urls : List Text) (st st' : Store)
      → Follows note_id st st'
      → All
          (λ url. IsLinked note_id st (url_link settings clock note_id version_id u links url))
          urls
      → All
          (λ url. IsLinked note_id st' (url_link settings clock note_id version_id u links url))
          urls
  All-Follows [] st st' f h = tt
  All-Follows (url ∷ urls) st st' f h = (
    IsLinked-Follows note_id st st' (url_link settings clock note_id version_id u links url) f h.0,
    All-Follows urls st st' f h.1,
  )

  pub detect-IsDetected :
      (body : Text) (st : Store)
      → IsDetected
          (extract_urls body)
          st
          (detect_and_enqueue_drawdown settings clock note_id version_id u links body st)
  unfolding detect_and_enqueue_drawdown
  detect-IsDetected body st =
      keyed (extract_urls body)
        (link_urls settings clock note_id version_id u links (extract_urls body) ([], st))
        (link_urls-AreLinked (extract_urls body) ([], st) tt)
    where
      keyed :
          (urls : List Text) (o : Option (List Text × Store))
          → AreLinked urls st o
          → IsDetected urls st (then_keys settings clock note_id version_id u links body o)
      keyed urls none h = h
      keyed urls (some s) h =
          let keys = bare_jira_keys settings clock note_id version_id u links body in
          let f = link_keys-Follows keys s in
          (
            Follows-trans note_id st s.1
                (link_keys settings clock note_id version_id u links keys s).1 h.0 f,
            All-Follows urls s.1 (link_keys settings clock note_id version_id u links keys s).1 f
                h.1,
          )

  -- A URL that cannot be classified ends the detection.
  pub link_urls-raises :
      (urls : List Text) (s : List Text × Store)
      → Some (λ url. url_link settings clock note_id version_id u links url ≡ none) urls
      → link_urls settings clock note_id version_id u links urls s ≡ none
  unfolding link_urls
  link_urls-raises [] s h = absurd h
  link_urls-raises (url ∷ urls) s h =
      elim (Option-cases (url_link settings clock note_id version_id u links url)) [
        | inl raised ↦ rw (raised, link_urls) refl
        | inr (link, read) ↦
            rw (read, link_urls)
              (link_urls-raises urls (linked settings clock note_id version_id u links link s)
                (later read h))
      ]
    where
      later :
          {link : Option Link}
          → url_link settings clock note_id version_id u links url ≡ some link
          → (url_link settings clock note_id version_id u links url ≡ none)
            ⊎ Some (λ w. url_link settings clock note_id version_id u links w ≡ none) urls
          → Some (λ w. url_link settings clock note_id version_id u links w ≡ none) urls
      later read (inl raised) = absurd (cc (read, raised))
      later read (inr rest) = rest

  pub detect-raises :
      (body : Text) (st : Store)
      → Some
          (λ url. url_link settings clock note_id version_id u links url ≡ none)
          (extract_urls body)
      → detect_and_enqueue_drawdown settings clock note_id version_id u links body st ≡ none
  unfolding detect_and_enqueue_drawdown
  detect-raises body st h =
      ap (then_keys settings clock note_id version_id u links body)
        (link_urls-raises (extract_urls body) ([], st) h)
