-- ===== src/Retrieval.antt =====
-- retrieval.py: from a question to the ranked context of its answer. The searches of the two indexes,
-- the scores of the cross-encoder, the word class of Unicode and Python's floating-point numbers are
-- arguments. A dict is the list of its items in the order of their insertion, and the rows that a
-- SELECT returns for a list of ids stand in the order of the table.
pub mod Trust
pub mod Tiers
pub mod Graph
pub mod Heads
pub mod Walks
pub mod Reach
pub mod Fusion
pub mod Ranking
pub mod Pipeline
pub mod Examples
use lode.Prelude.{
  ℕ, zero, suc, ◌+◌, Text, codes, Bool, true, false, List, [], ◌∷◌, ◌++◌, Option, none, some,
  str_eq, not, ◌&&◌, if◌then◌else◌, any, keep, take,
}
use lode.Schema.{VersionRow, NoteRow, SnapshotRow}
use lode.Versions.Sql.{find_version}
use lode.Chunking.{Passage}
use lode.Reconcile.{is_delete, note_heads, external_heads, head_of_external, distinct}
use lode.Store.{Store}

-- `v.op != 'delete'` of a head.
abbrev pub is_kept : Option VersionRow → Bool
is_kept none = false
is_kept (some v) = not (is_delete v.op)

unfoldable pub live_head_versions : Store → List Text
unfolding note_heads external_heads distinct find_version
live_head_versions st = distinct (
    note_heads (λ n. is_kept (find_version n.head_version_id st.db.versions)) st.db.notes
    ++ external_heads head_of_external (λ s. true) st.snapshots st.externals)

-- The fields of a hit of either index that the fusion reads.
pub record Hit : Type 0 where
  pub passage_id : Text
  pub target_version : Text

-- `search(query, k=k, target_versions=heads)`
abbrev pub Index : Type 0 → Type 0
Index Query = Query → ℕ → List Text → List Hit

-- Nothing is searched where no version is live.
abbrev pub search_heads : {Query : Type 0} → Index Query → Query → ℕ → List Text → List Hit
search_heads search query k [] = []
search_heads search query k (h ∷ heads) = search query k (h ∷ heads)

unfoldable pub leg_search : {Query : Type 0} → Index Query → Store → Query → ℕ → List Hit
unfolding live_head_versions
leg_search search st query k = search_heads search query k (live_head_versions st)

module _ (is_word : ℕ → Bool) where
  -- `\w+`, with the token that the characters before have begun.
  abbrev pub with_token : Text → List Text → List Text
  with_token [] tokens = tokens
  with_token (c ∷ token) tokens = (c ∷ token) ∷ tokens

  unfoldable pub query_tokens : Text → Text → List Text
  query_tokens token [] = with_token token []
  query_tokens token (c ∷ s) =
      let rest = query_tokens (if is_word c then token ++ c ∷ [] else []) s in
      if is_word c then rest else with_token token rest

  unfoldable pub or_joined : List Text → Text
  or_joined [] = []
  or_joined (t ∷ []) = codes "\"" ++ (t ++ codes "\"")
  or_joined (t ∷ (u ∷ ts)) = codes "\"" ++ (t ++ (codes "\" OR " ++ or_joined (u ∷ ts)))

  unfoldable pub build_match_query : Text → Text
  unfolding query_tokens or_joined
  build_match_query question = or_joined (query_tokens [] question)

-- The floating-point numbers, `1.0 / n` and `<` on them.
pub record Floats : Type 1 where
  pub Float : Type 0
  pub zero_float : Float
  pub add : Float → Float → Float
  pub reciprocal : ℕ → Float
  pub less : Float → Float → Bool

module _ (fl : Floats) where
  pub record FusedHit : Type 0 where
    pub passage_id : Text
    pub target_version : Text
    pub score : fl.Float

  -- `scores[pid] = scores.get(pid, 0.0) + c` and `versions[pid] = version`, as one dict.
  unfoldable pub add_score : Hit → fl.Float → List FusedHit → List FusedHit
  add_score hit c [] =
      record {
        passage_id = hit.passage_id;
        target_version = hit.target_version;
        score = fl.add fl.zero_float c;
      }
      ∷ []
  add_score hit c (f ∷ fs) =
      let rest = add_score hit c fs in
      if str_eq f.passage_id hit.passage_id
      then record {
        passage_id = f.passage_id;
        target_version = hit.target_version;
        score = fl.add f.score c;
      }
        ∷ fs
      else f ∷ rest

  -- The loop over one leg, from a rank.
  unfoldable pub fuse_leg : ℕ → ℕ → List Hit → List FusedHit → List FusedHit
  unfolding add_score
  fuse_leg k rank [] fused = fused
  fuse_leg k rank (hit ∷ hits) fused =
      fuse_leg k (suc rank) hits (add_score hit (fl.reciprocal (k + rank)) fused)

  -- A stable sort, the greatest score first.
  unfoldable pub insert_hit : FusedHit → List FusedHit → List FusedHit
  insert_hit f [] = f ∷ []
  insert_hit f (g ∷ gs) =
      let rest = insert_hit f gs in if fl.less f.score g.score then g ∷ rest else f ∷ (g ∷ gs)

  unfoldable pub sort_hits : List FusedHit → List FusedHit
  unfolding insert_hit
  sort_hits [] = []
  sort_hits (f ∷ fs) = insert_hit f (sort_hits fs)

  unfoldable pub reciprocal_rank_fusion : ℕ → List Hit → List Hit → List FusedHit
  unfolding fuse_leg sort_hits
  reciprocal_rank_fusion k lexical vector =
      sort_hits (fuse_leg k 1 vector (fuse_leg k 1 lexical []))

  unfoldable pub find_passage : Text → List Passage → Option Passage
  find_passage k [] = none
  find_passage k (p ∷ ps) = if str_eq p.passage_id k then some p else find_passage k ps

  -- The hits whose passage has a text, with the texts.
  unfoldable pub scorable : List Passage → List FusedHit → List (FusedHit × Text)
  unfolding find_passage
  scorable table [] = []
  scorable table (f ∷ fs) =
      let rest = scorable table fs in
      elim (find_passage f.passage_id table) [ none ↦ rest | some p ↦ (f, p.text) ∷ rest ]

  -- `zip(…, strict=True)` raises where the lengths differ.
  unfoldable pub rescored : List (FusedHit × Text) → List fl.Float → Option (List FusedHit)
  rescored [] [] = some []
  rescored [] (s ∷ ss) = none
  rescored (p ∷ ps) [] = none
  rescored ((f, text) ∷ ps) (s ∷ ss) = elim (rescored ps ss) [
    | none ↦ none
    | some fs ↦
        some
          (record { passage_id = f.passage_id; target_version = f.target_version; score = s } ∷ fs)
  ]

  unfoldable pub texts_of : List (FusedHit × Text) → List Text
  texts_of [] = []
  texts_of ((f, text) ∷ ps) = text ∷ texts_of ps

  pub record RetrievalSettings : Type 0 where
    pub retrieval_top_k : ℕ
    pub rrf_k : ℕ
    pub rerank_enabled : Bool
    pub rerank_keep_n : ℕ
    pub drawdown_hop_limit : ℕ

  abbrev pub kept_of : ℕ → Option (List FusedHit) → Option (List FusedHit)
  kept_of n none = none
  kept_of n (some fs) = some (take n (sort_hits fs))

  unfoldable pub rerank_scorable :
      RetrievalSettings
      → (Text → List Text → List fl.Float)
      → Text
      → List (FusedHit × Text)
      → Option (List FusedHit)
  unfolding rescored texts_of sort_hits
  rerank_scorable settings scorer query [] = some []
  rerank_scorable settings scorer query (p ∷ ps) =
      kept_of settings.rerank_keep_n (rescored (p ∷ ps) (scorer query (texts_of (p ∷ ps))))

  -- `none` is the `ValueError` of the zip.
  unfoldable pub rerank :
      RetrievalSettings
      → (Text → List Text → List fl.Float)
      → List Passage
      → Text
      → List FusedHit
      → Option (List FusedHit)
  unfolding rerank_scorable scorable
  rerank settings scorer table query [] = some []
  rerank settings scorer table query (f ∷ fs) =
      if not settings.rerank_enabled
      then some (f ∷ fs)
      else rerank_scorable settings scorer query
          (scorable table (take settings.retrieval_top_k (f ∷ fs)))

  -- `edge_source` says how a passage was reached in the graph.
  pub record ExpandedHit : Type 0 where
    pub passage_id : Text
    pub target_version : Text
    pub char_range : Text
    pub passage_text : Text
    pub parent_block : Text
    pub score : fl.Float
    pub edge_source : Option Text

  abbrev pub expanded_hit : Text → fl.Float → Option Text → Passage → ExpandedHit
  expanded_hit version score edge_source p = record {
    passage_id = p.passage_id;
    target_version = version;
    char_range = p.char_range;
    passage_text = p.text;
    parent_block = p.parent_block;
    score = score;
    edge_source = edge_source;
  }

  unfoldable pub expand_parents : List Passage → List FusedHit → List ExpandedHit
  unfolding find_passage
  expand_parents table [] = []
  expand_parents table (f ∷ fs) =
      let rest = expand_parents table fs in
      elim (find_passage f.passage_id table) [
        | none ↦ rest
        | some p ↦ expanded_hit f.target_version f.score none p ∷ rest
      ]
