-- ===== src/Retrieval/Pipeline.antt =====
-- retrieval.py: `_retrieve`, which composes the stages.
use lode.Prelude.{ℕ, Text, Bool, List, [], ◌∷◌, Option, none, some, take}
use lode.Chunking.{Passage}
use lode.Store.{Store}
use lode.Retrieval.{
  Index, leg_search, build_match_query, Floats, FusedHit, reciprocal_rank_fusion, RetrievalSettings,
  rerank, expand_parents, Hit,
}
use lode.Retrieval.Graph.{graph_expand}
use lode.Retrieval.Trust.{ContextItem, trust_rank}

-- The parts outside of this code: the two indexes, the embedder and the cross-encoder.
pub record Models (fl : Floats) : Type 1 where
  pub Vector : Type 0
  pub is_word : ℕ → Bool
  pub lexical_index : Index Text
  pub vector_index : Index Vector
  pub embed_query : Text → Vector
  pub scorer : Text → List Text → List fl.Float

module _ (fl : Floats) (m : Models fl) (settings : RetrievalSettings fl) where
  -- A question with no word is not searched for in the lexical index.
  abbrev pub lexical_leg : Store → Text → List Hit
  lexical_leg st [] = []
  lexical_leg st (c ∷ match) = leg_search m.lexical_index st (c ∷ match) settings.retrieval_top_k

  abbrev pub ranked_context :
      Store → List Passage → Option (List (FusedHit fl)) → Option (List (ContextItem fl))
  ranked_context st table none = none
  ranked_context st table (some top) =
      some
        (trust_rank fl st (
          graph_expand fl settings.drawdown_hop_limit st table
            (expand_parents fl table top))).context

  -- `none` is the `ValueError` of a cross-encoder that gives too few or too many scores.
  unfoldable pub retrieve : Store → List Passage → Text → Option (List (ContextItem fl))
  unfolding leg_search build_match_query reciprocal_rank_fusion rerank expand_parents graph_expand
      trust_rank
  retrieve st table question =
      let lexical = lexical_leg st (build_match_query m.is_word question) in
      let vector = leg_search m.vector_index st (m.embed_query question) settings.retrieval_top_k in
      let fused = reciprocal_rank_fusion fl settings.rrf_k lexical vector in
      ranked_context st table
        (rerank fl settings m.scorer table question (take settings.retrieval_top_k fused))
