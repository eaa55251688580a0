-- ===== src/Retrieval/Examples.antt =====
-- The stages of retrieval.py on a small store, and their theorems at inputs that meet their hypotheses.
use lode.Prelude.{
  ℕ, ◌+◌, ◌/◌, Text, codes, false, List, [], ◌∷◌, ◌++◌, none, some, ◌≡◌, refl, ltb, keep, All,
  str_eq, any, map,
}
use lode.Schema.{create, NoteRow, VersionRow, EdgeRow, ai, fresh}
use lode.Versions.Sql.{find_note, find_version}
use lode.Externals.{find_external, find_snapshot}
use lode.Chunking.{Passage}
use lode.Reconcile.{distinct}
use lode.Store.{Store}
use lode.Retrieval.{Hit, Floats, ExpandedHit, reciprocal_rank_fusion}
use lode.Retrieval.Fusion.{score_of, formula, rank_from, reciprocal_rank_fusion_lem}
use lode.Retrieval.Trust.{withheld_hit, owned_note, trust_rank}
use lode.Retrieval.Tiers.{IsPlaced}
use lode.Retrieval.Ranking.{IsOrdered, at_tier, items_at, has_no_tier, tier_of_hit, trust_rank_lem}
use lode.Retrieval.Graph.{
  graph_expand, seeds, hops, expand_frontier, visit_all, visit, neighbours, put_label, fresh_edges,
  new_hits, node_of, heads_node,
}
use lode.Retrieval.Reach.{IsNear, graph_expand_lem}

abbrev floats : Floats
floats = record {
  Float = ℕ;
  zero_float = 0;
  add = λ a b. a + b;
  reciprocal = λ n. 10000 / n;
  less = ltb;
}

abbrev hit : Text → Hit
hit pid = record { passage_id = pid; target_version = codes "v1" }

reciprocal_rank_fusion_lem_example :
    score_of floats (codes "p2") (
      reciprocal_rank_fusion floats 60
        (hit (codes "p1") ∷ hit (codes "p2") ∷ [])
        (hit (codes "p2") ∷ []))
    ≡ formula floats 60
        (codes "p2")
        (hit (codes "p1") ∷ hit (codes "p2") ∷ [])
        (hit (codes "p2") ∷ [])
unfolding rank_from str_eq
reciprocal_rank_fusion_lem_example =
    reciprocal_rank_fusion_lem floats 60 (codes "p2") (hit (codes "p1") ∷ hit (codes "p2") ∷ [])
      (hit (codes "p2") ∷ []) (refl, (refl, tt)) (refl, tt)

abbrev note : Text → Text → NoteRow
note id head = record { note_id = id; head_version_id = head; no_egress = false }

abbrev version : Text → Text → VersionRow
version id owner = record {
  version_id = id;
  note_id = owner;
  parent_version_id = none;
  body = codes "text";
  op = create;
  purged_at = none;
}

abbrev edge : EdgeRow
edge = record {
  id = 1;
  from_id = codes "n1";
  to_id = codes "n2";
  source = ai;
  source_version = none;
  quoted_text = none;
  status = fresh;
}

abbrev store : Store
store = record {
  db = record {
    notes = note (codes "n1") (codes "v1") ∷ note (codes "n2") (codes "v2") ∷ [];
    versions = version (codes "v1") (codes "n1") ∷ version (codes "v2") (codes "n2") ∷ [];
    annotations = [];
    edges = edge ∷ [];
  };
  jobs = [];
  externals = [];
  snapshots = [];
  cache = [];
}

abbrev passage : Text → Text → Passage
passage id target = record {
  passage_id = id;
  target_version = target;
  ord = 0;
  char_range = codes "0:4";
  text = codes "text";
  parent_block = codes "text";
}

abbrev table : List Passage
table = passage (codes "p1") (codes "v1") ∷ passage (codes "p2") (codes "v2") ∷ []

abbrev direct : ExpandedHit floats
direct = record {
  passage_id = codes "p1";
  target_version = codes "v1";
  char_range = codes "0:4";
  passage_text = codes "text";
  parent_block = codes "text";
  score = 3;
  edge_source = none;
}

abbrev by_edge_of_ai : ExpandedHit floats
by_edge_of_ai = record {
  passage_id = codes "p2";
  target_version = codes "v2";
  char_range = codes "0:4";
  passage_text = codes "text";
  parent_block = codes "text";
  score = 0;
  edge_source = some (codes "ai");
}

-- The neighbour's passage is added, behind the direct hit.
one_hop : graph_expand floats 1 store table (direct ∷ []) ≡ direct ∷ by_edge_of_ai ∷ []
unfolding graph_expand seeds hops expand_frontier visit_all visit neighbours put_label fresh_edges
    new_hits node_of heads_node find_note find_version find_external find_snapshot distinct keep any
    str_eq
one_hop = refl

graph_expand_lem_example :
    (added : List (ExpandedHit floats)) × (graph_expand floats 1 store table (direct ∷ [])
      ≡ (direct ∷ []) ++ added)
    × All (IsNear floats store (direct ∷ []) 1) added
graph_expand_lem_example = graph_expand_lem floats 1 store table (direct ∷ [])

trust_rank_lem_example :
    IsOrdered floats (trust_rank floats store (by_edge_of_ai ∷ direct ∷ [])).context
    × (keep
          (at_tier floats owned_note)
          (trust_rank floats store (by_edge_of_ai ∷ direct ∷ [])).context
        ≡ items_at floats store owned_note (by_edge_of_ai ∷ direct ∷ []))
    × ((trust_rank floats store (by_edge_of_ai ∷ direct ∷ [])).withheld
        ≡ map (withheld_hit floats) (
            keep
              (λ h. has_no_tier floats (tier_of_hit floats store h))
              (by_edge_of_ai ∷ direct ∷ [])))
    × All
        (λ (h : ExpandedHit floats).
          IsPlaced store h.target_version h.edge_source (tier_of_hit floats store h))
        (by_edge_of_ai ∷ direct ∷ [])
trust_rank_lem_example = trust_rank_lem floats store owned_note (by_edge_of_ai ∷ direct ∷ [])
