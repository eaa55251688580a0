-- ===== src/Drawdown/Linked.antt =====
-- What the detection of links of drawdown.py leaves in the tables.
use lode.Prelude.{
  ℕ, Text, Bool, true, List, [], ◌∷◌, ◌++◌, Option, none, some, ◌≡◌, refl, sym, ◌∙◌, subst, str_eq,
  str_eq_iff, str_eq_refl, ◌||◌, any, arith, Bool-cases, inl, inr, length,
}
use lode.Jobs.{JobRow, refresh}
use lode.Jobs.Grow.{enqueue-grows}
use lode.Versions.{Settings}
use lode.Store.{Store}
use lode.Drawdown.Links.{Link, is_user_edge, with_external, write_link, link_and_enqueue}

abbrev pub IsEdge : Text → Store → Text → Type 0
IsEdge note_id st external_id = any (is_user_edge note_id external_id) st.db.edges ≡ true

-- What a later state of a save keeps of an earlier one.
pub record Follows (note_id : Text) (st st' : Store) : Type 0 where
  pub same_notes : st'.db.notes ≡ st.db.notes
  pub same_versions : st'.db.versions ≡ st.db.versions
  pub same_cache : st'.cache ≡ st.cache
  pub jobs_grow : (p : JobRow → Bool) → any p st.jobs ≡ true → any p st'.jobs ≡ true
  pub edges_grow : (i : Text) → IsEdge note_id st i → IsEdge note_id st' i

pub Follows-refl : (note_id : Text) (st : Store) → Follows note_id st st
Follows-refl note_id st = record {
  same_notes = refl;
  same_versions = refl;
  same_cache = refl;
  jobs_grow = λ p h. h;
  edges_grow = λ i h. h;
}

pub Follows-trans :
    (note_id : Text) (a b c : Store)
    → Follows note_id a b
    → Follows note_id b c
    → Follows note_id a c
Follows-trans note_id a b c f g = record {
  same_notes = g.same_notes ∙ f.same_notes;
  same_versions = g.same_versions ∙ f.same_versions;
  same_cache = g.same_cache ∙ f.same_cache;
  jobs_grow = λ p h. g.jobs_grow p (f.jobs_grow p h);
  edges_grow = λ i h. g.edges_grow i (f.edges_grow i h);
}

module _ (settings : Settings) (clock : ℕ → ℕ) (note_id version_id : Text) where
  with_external-Follows :
      (link : Link) (o : Option Text) (st : Store)
      → Follows note_id st (with_external settings link o st)
  unfolding with_external
  with_external-Follows link none st = Follows-refl note_id st
  with_external-Follows link (some t) st = record {
    same_notes = refl;
    same_versions = refl;
    same_cache = refl;
    jobs_grow = λ p h. h;
    edges_grow = λ i h. h;
  }

  or_right : (a b : Bool) → b ≡ true → (a || b) ≡ true
  or_right a b h = ground arith

  write_link-Follows :
      (now : ℕ) (link : Link) (st : Store)
      → Follows note_id st (write_link settings clock note_id version_id now link st)
  unfolding write_link any
  write_link-Follows now link st0 =
      let st = with_external settings link link.source_type st0 in
      Follows-trans note_id st0 st (write_link settings clock note_id version_id now link st0)
        (with_external-Follows link link.source_type st0)
        (record {
          same_notes = refl;
          same_versions = refl;
          same_cache = refl;
          jobs_grow = λ p h. enqueue-grows p now link.external_id (refresh ∷ []) st.jobs h;
          edges_grow = λ i h. or_right _ _ h;
        })

  write_link-IsEdge :
      (now : ℕ) (link : Link) (st : Store)
      → IsEdge note_id (write_link settings clock note_id version_id now link st) link.external_id
  unfolding write_link any
  write_link-IsEdge now link st = rw (str_eq_refl note_id, str_eq_refl link.external_id) refl

  -- The ids of the list have their edges, through each link.
  pub link-Follows :
      (link : Link) (s : List Text × Store)
      → Follows note_id s.1 (link_and_enqueue settings clock note_id version_id link s).1
  unfolding link_and_enqueue
  link-Follows link (ids, st) = elim (Bool-cases (any (str_eq link.external_id) ids)) [
    | inl seen ↦ rw seen (Follows-refl note_id st)
    | inr new ↦ elim (Bool-cases (any (is_user_edge note_id link.external_id) st.db.edges)) [
      | inl there ↦ rw (new, there) (Follows-refl note_id st)
      | inr free ↦ rw (new, free) (write_link-Follows (clock (length ids)) link st)
    ]
  ]

  abbrev pub AreEdges : List Text → Store → Type 0
  AreEdges [] st = Unit
  AreEdges (i ∷ is) st = IsEdge note_id st i × AreEdges is st

  AreEdges-Follows :
      (is : List Text) (st st' : Store) → Follows note_id st st' → AreEdges is st → AreEdges is st'
  AreEdges-Follows [] st st' f u = tt
  AreEdges-Follows (i ∷ is) st st' f u = (f.edges_grow i u.0, AreEdges-Follows is st st' f u.1)

  AreEdges-append_one :
      (is : List Text) (i : Text) (st : Store)
      → AreEdges is st
      → IsEdge note_id st i
      → AreEdges (is ++ i ∷ []) st
  AreEdges-append_one [] i st u e = (e, tt)
  AreEdges-append_one (j ∷ is) i st u e = (u.0, AreEdges-append_one is i st u.1 e)

  AreEdges-at :
      (is : List Text) (i : Text) (st : Store)
      → AreEdges is st
      → any (str_eq i) is ≡ true
      → IsEdge note_id st i
  unfolding any
  AreEdges-at [] i st u h = absurd (cc h)
  AreEdges-at (j ∷ is) i st u h = elim (Bool-cases (str_eq i j)) [
    | inl same ↦ subst (IsEdge note_id st) (sym ((str_eq_iff i j).0 same)) u.0
    | inr other ↦ AreEdges-at is i st u.1 (rw other at h)
  ]

  pub link-AreEdges :
      (link : Link) (s : List Text × Store)
      → AreEdges s.0 s.1
      → AreEdges
          (link_and_enqueue settings clock note_id version_id link s).0
          (link_and_enqueue settings clock note_id version_id link s).1
        × IsEdge note_id
            (link_and_enqueue settings clock note_id version_id link s).1
            link.external_id
  unfolding link_and_enqueue
  link-AreEdges link (ids, st) u = elim (Bool-cases (any (str_eq link.external_id) ids)) [
    | inl seen ↦ rw seen (u, AreEdges-at ids link.external_id st u seen)
    | inr new ↦ elim (Bool-cases (any (is_user_edge note_id link.external_id) st.db.edges)) [
      | inl there ↦ rw (new, there) (AreEdges-append_one ids link.external_id st u there, there)
      | inr free ↦
          let now = clock (length ids) in
          let st' = write_link settings clock note_id version_id now link st in
          let e = write_link-IsEdge now link st in
          rw (new, free)
            (
              AreEdges-append_one ids link.external_id st'
                  (AreEdges-Follows ids st st' (write_link-Follows now link st) u) e,
              e,
            )
    ]
  ]
