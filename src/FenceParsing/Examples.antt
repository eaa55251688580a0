-- ===== src/FenceParsing/Examples.antt =====
-- A block of four backticks with a shorter fence in it.
use lode.Prelude.{
  Text, codes, true, false, List, [], ◌∷◌, ◌++◌, ◌≡◌, refl, all, is_space, skip_spaces,
}
use lode.FenceParsing.{marker_run, match_fence_marker, closes_fence, flags_from, fence_flags}
use lode.FenceParsing.Spans.{inside, fence_flags_lem}

abbrev content : List Text
content = codes "```" ∷ codes "~~~~" ∷ codes "````python" ∷ []

abbrev rest : List Text
rest = codes "after" ∷ []

block_flags :
    fence_flags (codes "  ````md" ∷ (content ++ (codes "`````" ∷ rest)))
    ≡ false ∷ true ∷ true ∷ true ∷ true ∷ false ∷ []
unfolding fence_flags flags_from closes_fence match_fence_marker marker_run all skip_spaces is_space
block_flags = refl

fence_flags_lem_example :
    (fence_flags (codes "  ````md" ∷ (content ++ (codes "`````" ∷ rest)))
      ≡ false ∷ (inside content ++ (true ∷ fence_flags rest)))
    × (fence_flags (codes "  ````md" ∷ content) ≡ false ∷ inside content)
unfolding closes_fence match_fence_marker marker_run all skip_spaces is_space
fence_flags_lem_example =
    fence_flags_lem (codes "  ````md") (codes "````") (codes "md") content (codes "`````") rest refl
      (refl, (refl, (refl, tt))) refl
