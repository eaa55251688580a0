-- ===== src/Retrieval/Walks.antt =====
-- Where the walk of `graph_expand` of retrieval.py can lead.
use lode.Prelude.{
  ℕ, zero, suc, ◌+◌, ◌≤◌, Text, Bool, true, List, [], ◌∷◌, ◌++◌, ◌≡◌, refl, str_eq, str_eq_refl,
  ◌||◌, not, any, keep, All, arith, Bool-cases, inl, inr,
}
use lode.Schema.{EdgeRow}
use lode.Reconcile.{distinct}
use lode.Retrieval.Graph.{
  joins, edge_label, neighbours, Reached, put_label, Walk, visit, visit_all, expand_frontier, hops,
}

-- So many hops more.
abbrev pub add_to : ℕ → ℕ → ℕ
add_to zero n = n
add_to (suc k) n = add_to k (suc n)

pub add_to_sum : (k n : ℕ) → add_to k n ≡ k + n
add_to_sum zero n = omega arith
add_to_sum (suc k) n = omega (arith, add_to_sum k (suc n))

All-keep : {A : Type 0} (P : A → Type 0) (p : A → Bool) (xs : List A) → All P xs → All P (keep p xs)
unfolding keep
All-keep P p [] h = tt
All-keep P p (x ∷ xs) h = elim (Bool-cases (p x)) [
  | inl hit ↦ rw (hit, keep) (h.0, All-keep P p xs h.1)
  | inr miss ↦ rw (miss, keep) (All-keep P p xs h.1)
]

pub All-distinct : (P : Text → Type 0) (xs : List Text) → All P xs → All P (distinct xs)
unfolding distinct
All-distinct P [] h = tt
All-distinct P (x ∷ xs) h =
    (h.0, All-keep P (λ j. not (str_eq x j)) (distinct xs) (All-distinct P xs h.1))

All-append_one :
    {A : Type 0} (P : A → Type 0) (xs : List A) (x : A) → All P xs → P x → All P (xs ++ x ∷ [])
All-append_one P [] x h p = (p, tt)
All-append_one P (y ∷ xs) x h p = (h.0, All-append_one P xs x h.1 p)

-- A node at the end of a path of so many edges from a seed.
pub data Reaches (edges : List EdgeRow) (seeds : List Text) : ℕ → Text → Type 0 where
  start : (a : Text) → any (str_eq a) seeds ≡ true → Reaches edges seeds zero a
  along :
      (n : ℕ) (a b : Text)
      → Reaches edges seeds n a
      → any (joins a b) edges ≡ true
      → Reaches edges seeds (suc n) b

abbrev pub Within : List EdgeRow → List Text → ℕ → Text → Type 0
Within edges seeds n a = (m : ℕ) × (m ≤ n) × Reaches edges seeds m a

neighbours-joined :
    (edges : List EdgeRow) (a : Text) (es : List EdgeRow)
    → ((b : Text) → any (joins a b) es ≡ true → any (joins a b) edges ≡ true)
    → All (λ b. any (joins a b) edges ≡ true) (neighbours a es)
unfolding neighbours any
neighbours-joined edges a [] sub = tt
neighbours-joined edges a (e ∷ es) sub = elim (Bool-cases (str_eq e.from_id a)) [
  | inl from ↦
      rw (from, neighbours)
        (
          sub e.to_id (rw (from, any, str_eq_refl e.to_id) refl),
          neighbours-joined edges a es
              (λ b h. sub b (or_right (joins a b e) (any (joins a b) es) h)),
        )
  | inr other ↦
      rw (other, neighbours)
        (neighbours-joined edges a es
          (λ b h. sub b (or_right (joins a b e) (any (joins a b) es) h)))
]
  where
    or_right : (x y : Bool) → y ≡ true → (x || y) ≡ true
    or_right x y h = ground arith

All-put_label :
    (P : Text → Type 0) (k : Text) (b : Bool) (r : Reached)
    → P k
    → All (λ (x : Text × Bool). P x.0) r
    → All (λ (x : Text × Bool). P x.0) (put_label k b r)
unfolding put_label
All-put_label P k b [] p h = (p, tt)
All-put_label P k b ((j, c) ∷ r) p h = elim (Bool-cases (str_eq j k)) [
  | inl same ↦ rw same (h.0, h.1)
  | inr other ↦ rw other (h.0, All-put_label P k b r p h.1)
]

module _ (edges : List EdgeRow) (seeds : List Text) where
  -- After some hops: the labelled nodes are within them, and the frontier is at their end.
  pub record IsWalk (n : ℕ) (w : Walk) : Type 0 where
    pub labelled : All (λ (x : Text × Bool). Within edges seeds n x.0) w.reached
    pub at_frontier : All (Reaches edges seeds n) w.next_frontier

  visit-IsWalk :
      (n : ℕ) (node neighbour : Text) (w : Walk)
      → Reaches edges seeds n node
      → any (joins node neighbour) edges ≡ true
      → IsWalk (suc n) w
      → IsWalk (suc n) (visit edges node neighbour w)
  unfolding visit
  visit-IsWalk n node neighbour w from edge i =
      let there : Reaches edges seeds (suc n) neighbour = along n node neighbour from edge in
      let labels =
        All-put_label (Within edges seeds (suc n)) neighbour (edge_label edges node neighbour)
          w.reached (suc n, omega arith, there) i.labelled in
      elim (Bool-cases (any (str_eq neighbour) w.visited)) [
        | inl old ↦ rw old (record { labelled = labels; at_frontier = i.at_frontier })
        | inr new ↦ rw new (record {
          labelled = labels;
          at_frontier =
              All-append_one (Reaches edges seeds (suc n)) w.next_frontier neighbour i.at_frontier
                there;
        })
      ]

  visit_all-IsWalk :
      (n : ℕ) (node : Text) (ns : List Text) (w : Walk)
      → Reaches edges seeds n node
      → All (λ b. any (joins node b) edges ≡ true) ns
      → IsWalk (suc n) w
      → IsWalk (suc n) (visit_all edges node ns w)
  unfolding visit_all
  visit_all-IsWalk n node [] w from joined i = i
  visit_all-IsWalk n node (b ∷ ns) w from joined i =
      visit_all-IsWalk n node ns (visit edges node b w) from joined.1
        (visit-IsWalk n node b w from joined.0 i)

  expand_frontier-IsWalk :
      (n : ℕ) (frontier : List Text) (w : Walk)
      → All (Reaches edges seeds n) frontier
      → IsWalk (suc n) w
      → IsWalk (suc n) (expand_frontier edges frontier w)
  unfolding expand_frontier
  expand_frontier-IsWalk n [] w at i = i
  expand_frontier-IsWalk n (node ∷ frontier) w at i =
      let ns = distinct (neighbours node edges) in
      expand_frontier-IsWalk n frontier (visit_all edges node ns w) at.1 (
        visit_all-IsWalk n node ns w at.0
          (All-distinct (λ b. any (joins node b) edges ≡ true) (neighbours node edges)
            (neighbours-joined edges node edges (λ b h. h)))
          i)

  Within-later :
      (n : ℕ) (r : Reached)
      → All (λ (x : Text × Bool). Within edges seeds n x.0) r
      → All (λ (x : Text × Bool). Within edges seeds (suc n) x.0) r
  Within-later n [] h = tt
  Within-later n (x ∷ r) ((m, below, there), hs) = ((m, omega arith, there), Within-later n r hs)

  pub hops-IsWalk :
      (k n : ℕ) (frontier : List Text) (w : Walk)
      → All (Reaches edges seeds n) frontier
      → All (λ (x : Text × Bool). Within edges seeds n x.0) w.reached
      → All
          (λ (x : Text × Bool). Within edges seeds (add_to k n) x.0)
          (hops k edges frontier w).reached
  unfolding hops
  hops-IsWalk zero n frontier w at labelled = labelled
  hops-IsWalk (suc k) n frontier w at labelled =
      let w' = expand_frontier edges frontier (record w { next_frontier = [] }) in
      let i : IsWalk (suc n) w' =
        expand_frontier-IsWalk n frontier (record w { next_frontier = [] }) at
          (record { labelled = Within-later n w.reached labelled; at_frontier = tt }) in
      hops-IsWalk k (suc n) w'.next_frontier w' i.at_frontier i.labelled
