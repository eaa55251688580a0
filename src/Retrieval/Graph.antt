-- ===== src/Retrieval/Graph.antt =====
-- retrieval.py: `graph_expand`, the walk along the fresh edges from the notes of the direct hits. The
-- graph of `networkx` is the list of the fresh edges; a set is a list without repetitions, in the
-- order of insertion.
use lode.Prelude.{
  ℕ, zero, suc, Text, codes, Bool, true, false, List, [], ◌∷◌, ◌++◌, Option, none, some, str_eq,
  not, ◌&&◌, ◌||◌, if◌then◌else◌, any,
}
use lode.Schema.{AnchorStatus, fresh, stale, orphaned, EdgeRow, VersionRow, NoteRow, SnapshotRow}
use lode.Versions.Sql.{find_note, find_version, is_ai}
use lode.Externals.{find_external, find_snapshot, is_tombstone, head_column, snapshot_at}
use lode.Chunking.{Passage}
use lode.Reconcile.{distinct}
use lode.Store.{Store}
use lode.Retrieval.{is_kept, Floats, ExpandedHit, expanded_hit}

abbrev pub is_fresh : AnchorStatus → Bool
is_fresh fresh = true
is_fresh stale = false
is_fresh orphaned = false

-- The edge of the graph between two nodes: the user's, where one of the rows is.
abbrev pub joins : Text → Text → EdgeRow → Bool
joins a b e = str_eq e.from_id a && str_eq e.to_id b

unfoldable pub fresh_edges : List EdgeRow → List EdgeRow
fresh_edges [] = []
fresh_edges (e ∷ es) = let rest = fresh_edges es in if is_fresh e.status then e ∷ rest else rest

abbrev pub edge_label : List EdgeRow → Text → Text → Bool
edge_label es a b = any (λ e. joins a b e && not (is_ai e.source)) es

-- `out_edges`, the neighbours of a node.
unfoldable pub neighbours : Text → List EdgeRow → List Text
neighbours a [] = []
neighbours a (e ∷ es) =
    let rest = neighbours a es in if str_eq e.from_id a then e.to_id ∷ rest else rest

-- `reached` says of a node whether a user's edge leads there.
abbrev pub Reached : Type 0
Reached = List (Text × Bool)

-- A label is written where there is none, and a user's over an AI's.
unfoldable pub put_label : Text → Bool → Reached → Reached
put_label k b [] = (k, b) ∷ []
put_label k b ((j, c) ∷ r) =
    let rest = put_label k b r in if str_eq j k then (j, c || b) ∷ r else (j, c) ∷ rest

pub record Walk : Type 0 where
  pub reached : Reached
  pub visited : List Text
  pub next_frontier : List Text

-- One edge of the inner loop.
unfoldable pub visit : List EdgeRow → Text → Text → Walk → Walk
unfolding put_label any
visit edges node neighbour w =
    let reached = put_label neighbour (edge_label edges node neighbour) w.reached in
    if any (str_eq neighbour) w.visited then record w { reached = reached } else record {
      reached = reached;
      visited = w.visited ++ neighbour ∷ [];
      next_frontier = w.next_frontier ++ neighbour ∷ [];
    }

unfoldable pub visit_all : List EdgeRow → Text → List Text → Walk → Walk
unfolding visit
visit_all edges node [] w = w
visit_all edges node (n ∷ ns) w = visit_all edges node ns (visit edges node n w)

unfoldable pub expand_frontier : List EdgeRow → List Text → Walk → Walk
unfolding visit_all neighbours distinct
expand_frontier edges [] w = w
expand_frontier edges (node ∷ frontier) w =
    expand_frontier edges frontier (visit_all edges node (distinct (neighbours node edges)) w)

-- The loop over the hops; the `break` on an empty frontier is left out.
unfoldable pub hops : ℕ → List EdgeRow → List Text → Walk → Walk
unfolding expand_frontier
hops zero edges frontier w = w
hops (suc n) edges frontier w =
    let w' = expand_frontier edges frontier (record w { next_frontier = [] }) in
    hops n edges w'.next_frontier w'

abbrev pub owner_of : Option VersionRow → List Text
owner_of none = []
owner_of (some v) = v.note_id ∷ []

module _ (fl : Floats) where
  abbrev pub is_direct : Option Text → Bool
  is_direct none = true
  is_direct (some source) = false

  -- The notes of the direct hits.
  unfoldable pub seeds : Store → List (ExpandedHit fl) → List Text
  unfolding find_version any
  seeds st [] = []
  seeds st (h ∷ hits) =
      let rest = seeds st hits in
      if is_direct h.edge_source
      then owner_of (find_version h.target_version st.db.versions) ++ rest
      else rest

  -- The live head of a node, a note or else an external source.
  abbrev pub kept_head : Option NoteRow → List VersionRow → Option Text
  kept_head none vs = none
  kept_head (some n) vs =
      if is_kept (find_version n.head_version_id vs) then some n.head_version_id else none

  abbrev pub live_snapshot : Option SnapshotRow → Option Text
  live_snapshot none = none
  live_snapshot (some s) = if is_tombstone s.status then none else some s.snapshot_id

  abbrev pub is_head_of : Text → Option Text → Bool
  is_head_of version none = false
  is_head_of version (some head) = str_eq version head

  -- The version is the live head of the node.
  unfoldable pub heads_node : Store → Text → Text → Bool
  unfolding find_note find_version find_external find_snapshot
  heads_node st version node =
      is_head_of version (kept_head (find_note node st.db.notes) st.db.versions)
      || is_head_of version
          (live_snapshot (snapshot_at (head_column (find_external node st.externals)) st.snapshots))

  -- The reached node, no seed, whose live head the version is; a head belongs to one node.
  unfoldable pub node_of : Store → List Text → Text → Reached → Option (Text × Bool)
  unfolding heads_node any
  node_of st seed_ids version [] = none
  node_of st seed_ids version ((node, b) ∷ r) =
      let rest = node_of st seed_ids version r in
      if not (any (str_eq node) seed_ids) && heads_node st version node
      then some (node, b)
      else rest

  abbrev pub label_text : Bool → Text
  label_text true = codes "user"
  label_text false = codes "ai"

  abbrev pub has_passage : Text → List (ExpandedHit fl) → Bool
  has_passage pid hits = any (λ (h : ExpandedHit fl). str_eq h.passage_id pid) hits

  abbrev pub add_node :
      Passage → Option (Text × Bool) → List (ExpandedHit fl) → List (ExpandedHit fl)
  add_node p none rest = rest
  add_node p (some (node, b)) rest =
      expanded_hit fl p.target_version fl.zero_float (some (label_text b)) p ∷ rest

  unfoldable pub new_hits :
      Store → List Text → Reached → List (ExpandedHit fl) → List Passage → List (ExpandedHit fl)
  unfolding node_of any
  new_hits st seed_ids reached hits [] = []
  new_hits st seed_ids reached hits (p ∷ table) =
      let rest = new_hits st seed_ids reached hits table in
      if has_passage p.passage_id hits
      then rest
      else add_node p (node_of st seed_ids p.target_version reached) rest

  unfoldable pub graph_expand :
      ℕ → Store → List Passage → List (ExpandedHit fl) → List (ExpandedHit fl)
  unfolding seeds hops fresh_edges new_hits distinct
  graph_expand drawdown_hop_limit st table hits =
      let seed_ids = distinct (seeds st hits) in
      let w =
        hops drawdown_hop_limit (fresh_edges st.db.edges) seed_ids
          (record { reached = []; visited = seed_ids; next_frontier = [] }) in
      hits ++ new_hits st seed_ids w.reached hits table
