-- ===== src/Retrieval/Reach.antt =====
-- The hits that `graph_expand` of retrieval.py adds.
use lode.Prelude.{
  ℕ, zero, Text, Bool, true, false, List, [], ◌∷◌, ◌++◌, Option, none, some, ◌≡◌, refl, subst,
  str_eq, str_eq_refl, ◌||◌, any, All, arith, Bool-cases, inl, inr, keep, not,
}
use lode.Schema.{EdgeRow}
use lode.Chunking.{Passage}
use lode.Store.{Store}
use lode.Reconcile.{distinct}
use lode.Reconcile.Heals.{any-distinct}
use lode.Retrieval.{Floats, ExpandedHit, expanded_hit}
use lode.Retrieval.Heads.{IsHeadOf, heads_node-IsHeadOf, IsSeed, seeds-IsSeed, IsSeed-seeds}
use lode.Retrieval.Graph.{
  is_fresh, fresh_edges, Reached, hops, seeds, heads_node, node_of, label_text, has_passage,
  add_node, new_hits, graph_expand,
}
use lode.Retrieval.Walks.{Reaches, start, along, Within, add_to, add_to_sum, hops-IsWalk}

all_has :
    (xs ys : List Text)
    → ((i : Text) → any (str_eq i) xs ≡ true → any (str_eq i) ys ≡ true)
    → All (λ i. any (str_eq i) ys ≡ true) xs
unfolding any
all_has [] ys sub = tt
all_has (x ∷ xs) ys sub = (
  sub x (rw (str_eq_refl x) refl),
  all_has xs ys (λ i h. sub i (or_right (str_eq i x) (any (str_eq i) xs) h)),
)
  where
    or_right : (a b : Bool) → b ≡ true → (a || b) ≡ true
    or_right a b h = ground arith

fresh_edges-keep : (es : List EdgeRow) → fresh_edges es ≡ keep (λ e. is_fresh e.status) es
unfolding fresh_edges keep
fresh_edges-keep [] = refl
fresh_edges-keep (e ∷ es) = ground (arith, fresh_edges-keep es)

-- A walk from one of the seeds is a walk from that seed.
from_one :
    (edges : List EdgeRow) (seed_ids : List Text) (m : ℕ) (a : Text)
    → Reaches edges seed_ids m a
    → (origin : Text) × (any (str_eq origin) seed_ids ≡ true) × Reaches edges (origin ∷ []) m a
unfolding any
from_one edges seed_ids _ _ (start a h) = (a, h, start a (rw (str_eq_refl a) refl))
from_one edges seed_ids _ _ (along n a b r e) =
    let (origin, h, r') = from_one edges seed_ids n a r in (origin, h, along n a b r' e)

any-kept :
    (p : Text → Bool) (i : Text) (ys : List Text)
    → any (str_eq i) (keep p ys) ≡ true
    → any (str_eq i) ys ≡ true
unfolding keep any
any-kept p i [] h = h
any-kept p i (y ∷ ys) h = ground (arith, any-kept p i ys)

distinct-any :
    (i : Text) (xs : List Text) → any (str_eq i) (distinct xs) ≡ true → any (str_eq i) xs ≡ true
unfolding any distinct
distinct-any i [] h = h
distinct-any i (x ∷ xs) h = elim (Bool-cases (str_eq i x)) [
  | inl same ↦ rw same refl
  | inr other ↦
      rw other
        (distinct-any i xs (any-kept (λ j. not (str_eq x j)) i (distinct xs) (rw other at h)))
]

module _ (fl : Floats) (st : Store) (hits : List (ExpandedHit fl)) where
  abbrev seed_ids : List Text
  seed_ids = distinct (seeds fl st hits)

  seed_ids-IsSeed : (i : Text) → any (str_eq i) seed_ids ≡ true → IsSeed fl st hits i
  seed_ids-IsSeed i h = seeds-IsSeed fl st i hits (distinct-any i (seeds fl st hits) h)

  IsSeed-absent : (i : Text) → any (str_eq i) seed_ids ≡ false → ¬ IsSeed fl st hits i
  IsSeed-absent i h s = cc (h, any-distinct i (seeds fl st hits) (IsSeed-seeds fl st i hits s))

  -- The passage is new. Its version is the live head of a node, which is no seed and lies within so
  -- many fresh edges of one; the seeds are the notes of the direct hits.
  pub record IsNear (limit : ℕ) (h : ExpandedHit fl) : Type 0 where
    pub node : Text
    pub from_user : Bool
    pub of_head : IsHeadOf st h.target_version node
    pub no_seed : ¬ IsSeed fl st hits node
    pub origin : Text
    pub seed : IsSeed fl st hits origin
    pub near : Within (keep (λ e. is_fresh e.status) st.db.edges) (origin ∷ []) limit node
    pub labelled : h.edge_source ≡ some (label_text fl from_user)
    pub unscored : h.score ≡ fl.zero_float
    pub new : has_passage fl h.passage_id hits ≡ false

  abbrev pub IsNode : ℕ → Text → Option (Text × Bool) → Type 0
  IsNode limit version none = Unit
  IsNode limit version (some (node, b)) =
      (heads_node fl st version node ≡ true)
      × (any (str_eq node) seed_ids ≡ false)
      × Within (fresh_edges st.db.edges) seed_ids limit node

  node_of-IsNode :
      (limit : ℕ) (version : Text) (r : Reached)
      → All (λ (x : Text × Bool). Within (fresh_edges st.db.edges) seed_ids limit x.0) r
      → IsNode limit version (node_of fl st seed_ids version r)
  unfolding node_of
  node_of-IsNode limit version [] h = tt
  node_of-IsNode limit version ((node, b) ∷ r) h = elim (Bool-cases (any (str_eq node) seed_ids)) [
    | inl seed ↦ rw seed (node_of-IsNode limit version r h.1)
    | inr free ↦ elim (Bool-cases (heads_node fl st version node)) [
      | inl head ↦ rw (free, head) (head, free, h.0)
      | inr other ↦ rw (free, other) (node_of-IsNode limit version r h.1)
    ]
  ]

  new_hits-IsNear :
      (limit : ℕ) (r : Reached) (table : List Passage)
      → All (λ (x : Text × Bool). Within (fresh_edges st.db.edges) seed_ids limit x.0) r
      → All (IsNear limit) (new_hits fl st seed_ids r hits table)
  unfolding new_hits
  new_hits-IsNear limit r [] h = tt
  new_hits-IsNear limit r (p ∷ table) h = elim (Bool-cases (has_passage fl p.passage_id hits)) [
    | inl old ↦ rw old (new_hits-IsNear limit r table h)
    | inr new ↦ rw new (
        added (node_of fl st seed_ids p.target_version r) (new_hits fl st seed_ids r hits table) new
          (node_of-IsNode limit p.target_version r h) (new_hits-IsNear limit r table h))
  ]
    where
      near_hit :
          (node : Text) (b : Bool)
          → has_passage fl p.passage_id hits ≡ false
          → IsNode limit p.target_version (some (node, b))
          → IsNear limit (expanded_hit fl p.target_version fl.zero_float (some (label_text fl b)) p)
      near_hit node b new i =
          let edges = fresh_edges st.db.edges in
          let (origin, seed, walk) = from_one edges seed_ids i.2.0 node i.2.2 in
          record {
            node = node;
            from_user = b;
            of_head = heads_node-IsHeadOf fl st p.target_version node i.0;
            no_seed = IsSeed-absent node i.1;
            origin = origin;
            seed = seed_ids-IsSeed origin seed;
            near =
                subst (λ es. Within es (origin ∷ []) limit node) (fresh_edges-keep st.db.edges)
                  (i.2.0, i.2.1, walk);
            labelled = refl;
            unscored = refl;
            new = new;
          }

      added :
          (o : Option (Text × Bool)) (rest : List (ExpandedHit fl))
          → has_passage fl p.passage_id hits ≡ false
          → IsNode limit p.target_version o
          → All (IsNear limit) rest
          → All (IsNear limit) (add_node fl p o rest)
      added none rest new i all' = all'
      added (some (node, b)) rest new i all' = (near_hit node b new i, all')

-- The result is the given hits, in their order, and after them hits that are new: each is a passage
-- that was not among them. Its version is the head of a note, and no tombstone of a delete, or the
-- head of a source, and no tombstone of a fetch. The note or source is none of the notes of the
-- direct hits, and a walk leads there from one of these notes, along fresh edges, within the limit
-- of hops. The score of the hit is zero, and its edge is marked as a user's or the AI's.
pub graph_expand_lem :
    (fl : Floats) (limit : ℕ) (st : Store) (table : List Passage) (hits : List (ExpandedHit fl))
    → (added : List (ExpandedHit fl)) × (graph_expand fl limit st table hits ≡ hits ++ added)
      × All (IsNear fl st hits limit) added
unfolding graph_expand
graph_expand_lem fl limit st table hits =
    let seed_ids = distinct (seeds fl st hits) in
    let edges = fresh_edges st.db.edges in
    let w =
      hops limit edges seed_ids (record { reached = []; visited = seed_ids; next_frontier = [] }) in
    let within : All (λ (x : Text × Bool). Within edges seed_ids (add_to limit zero) x.0)
        w.reached =
      hops-IsWalk edges seed_ids limit zero seed_ids
        (record { reached = []; visited = seed_ids; next_frontier = [] })
        (starts edges seed_ids seed_ids (all_has seed_ids seed_ids (λ i h. h))) tt in
    (
      new_hits fl st seed_ids w.reached hits table,
      refl,
      new_hits-IsNear fl st hits limit w.reached table (
          subst (λ n. All (λ (x : Text × Bool). Within edges seed_ids n x.0) w.reached)
            (zero_more limit) within),
    )
  where
    zero_more : (n : ℕ) → add_to n zero ≡ n
    zero_more n = omega (arith, add_to_sum n zero)

    starts :
        (edges : List EdgeRow) (ids xs : List Text)
        → All (λ i. any (str_eq i) ids ≡ true) xs
        → All (Reaches edges ids zero) xs
    starts edges ids [] h = tt
    starts edges ids (x ∷ xs) h = (start x h.0, starts edges ids xs h.1)
