-- ===== src/Retrieval/Trust.antt =====
-- retrieval.py: `trust_rank`, which orders the passages of an answer by the trust in their source, and
-- `pinned_note_context`.
use lode.Prelude.{
  ℕ, Text, codes, Bool, true, false, List, [], ◌∷◌, Option, none, some, str_eq, leb, if◌then◌else◌,
}
use lode.Schema.{VersionRow, NoteRow, SnapshotRow, ExternalRow}
use lode.Versions.Sql.{find_note, find_version}
use lode.Externals.{find_external, find_snapshot}
use lode.Chunking.{Passage}
use lode.Store.{Store}
use lode.Retrieval.{is_kept, Floats, ExpandedHit}

pub data TrustTier : Type 0 where
  owned_note user_annotation current_external stale_external ai_edge : TrustTier

-- The value of the `IntEnum`.
abbrev pub tier_value : TrustTier → ℕ
tier_value owned_note = 1
tier_value user_annotation = 2
tier_value current_external = 3
tier_value stale_external = 4
tier_value ai_edge = 5

-- The value of the dict `snapshots` at a key: whether the snapshot is its source's head.
abbrev pub is_at : Text → Option Text → Bool
is_at i none = false
is_at i (some j) = str_eq i j

abbrev pub head_flag : Text → Option ExternalRow → Option Bool
head_flag i none = none
head_flag i (some e) = some (is_at i e.head_snapshot_id)

abbrev pub flag_of : Text → List ExternalRow → Option SnapshotRow → Option Bool
flag_of i es none = none
flag_of i es (some s) = head_flag i (find_external s.external_id es)

unfoldable pub snapshot_flag : Store → Text → Option Bool
unfolding find_snapshot find_external
snapshot_flag st i = flag_of i st.externals (find_snapshot i st.snapshots)

abbrev pub by_flag : Option Bool → Option TrustTier
by_flag none = none
by_flag (some true) = some current_external
by_flag (some false) = some stale_external

-- `_classify`
unfoldable pub classify_target : Store → Text → Option TrustTier
unfolding find_version snapshot_flag
classify_target st i = elim (find_version i st.db.versions) [
  | some v ↦ some owned_note
  | none ↦ by_flag (snapshot_flag st i)
]

abbrev pub by_edge : Option Bool → Text → TrustTier
by_edge (some flag) source = current_external
by_edge none source = if str_eq source (codes "user") then user_annotation else ai_edge

unfoldable pub tier_of : Store → Text → Option Text → Option TrustTier
unfolding classify_target snapshot_flag
tier_of st target none = classify_target st target
tier_of st target (some source) = some (by_edge (snapshot_flag st target) source)

module _ (fl : Floats) where
  pub record ContextItem : Type 0 where
    pub tier : TrustTier
    pub passage_id : Text
    pub target_version : Text
    pub char_range : Text
    pub passage_text : Text
    pub parent_block : Text
    pub score : fl.Float

  abbrev pub context_item : TrustTier → ExpandedHit fl → ContextItem
  context_item tier hit = record {
    tier = tier;
    passage_id = hit.passage_id;
    target_version = hit.target_version;
    char_range = hit.char_range;
    passage_text = hit.passage_text;
    parent_block = hit.parent_block;
    score = hit.score;
  }

  -- A stable sort by the tier.
  unfoldable pub insert_item : ContextItem → List ContextItem → List ContextItem
  insert_item x [] = x ∷ []
  insert_item x (y ∷ ys) =
      let rest = insert_item x ys in
      if leb (tier_value x.tier) (tier_value y.tier) then x ∷ (y ∷ ys) else y ∷ rest

  pub record WithheldHit : Type 0 where
    pub passage_id : Text
    pub target_version : Text
    pub reason : Text

  abbrev pub withheld_hit : ExpandedHit fl → WithheldHit
  withheld_hit hit = record {
    passage_id = hit.passage_id;
    target_version = hit.target_version;
    reason =
        codes
          "target_version is neither a note version nor a known external snapshot; cannot place on the trust gradient";
  }

  pub record TrustRankedContext : Type 0 where
    pub context : List ContextItem
    pub withheld : List WithheldHit

  unfoldable pub sort_items : List ContextItem → List ContextItem
  unfolding insert_item
  sort_items [] = []
  sort_items (x ∷ xs) = insert_item x (sort_items xs)

  -- The loop over the hits.
  unfoldable pub place_hits : Store → List (ExpandedHit fl) → TrustRankedContext
  unfolding tier_of
  place_hits st [] = record { context = []; withheld = [] }
  place_hits st (hit ∷ hits) =
      let r = place_hits st hits in
      elim (tier_of st hit.target_version hit.edge_source) [
        | none ↦ record { context = r.context; withheld = withheld_hit hit ∷ r.withheld }
        | some tier ↦ record { context = context_item tier hit ∷ r.context; withheld = r.withheld }
      ]

  unfoldable pub trust_rank : Store → List (ExpandedHit fl) → TrustRankedContext
  unfolding place_hits sort_items
  trust_rank st hits =
      let r = place_hits st hits in record { context = sort_items r.context; withheld = r.withheld }

  unfoldable pub passages_at : Text → List Passage → List ContextItem
  passages_at version [] = []
  passages_at version (p ∷ ps) =
      let rest = passages_at version ps in
      if str_eq p.target_version version
      then record {
        tier = owned_note;
        passage_id = p.passage_id;
        target_version = version;
        char_range = p.char_range;
        passage_text = p.text;
        parent_block = p.parent_block;
        score = fl.zero_float;
      }
        ∷ rest
      else rest

  abbrev pub pinned_head : List VersionRow → List Passage → Option NoteRow → List ContextItem
  pinned_head vs table none = []
  pinned_head vs table (some n) =
      if is_kept (find_version n.head_version_id vs)
      then passages_at n.head_version_id table
      else []

  -- The table lists the passages of a version by `ord`.
  unfoldable pub pinned_note_context : Store → List Passage → Text → List ContextItem
  unfolding find_note find_version passages_at
  pinned_note_context st table note_id =
      pinned_head st.db.versions table (find_note note_id st.db.notes)
