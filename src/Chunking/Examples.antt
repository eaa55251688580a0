-- ===== src/Chunking/Examples.antt =====
-- A small body in passages.
use lode.Prelude.{
  ℕ, Text, codes, Bool, true, false, List, [], ◌∷◌, some, ◌≡◌, refl, ◌&&◌, ◌++◌, leb, length, All,
  all, is_space, arith,
}
use lode.Chunking.{
  is_break, splitlines, content_length, count_hashes, is_heading_line, ends_number, is_list_item,
  Block, segment_line, segment_lines, segment, tokens, windows, split_block, Passage, chunk,
}
use lode.Chunking.Windows.{InWindow}
use lode.Chunking.Blocks.{IsBlocks, segment-IsBlocks}
use lode.Chunking.Passages.{tokens_of, split_block_lem, ArePassages, chunk_lem}

abbrev is_digit : ℕ → Bool
is_digit c = leb 48 c && leb c 57

abbrev lf : Text
lf = 10 ∷ []

abbrev note : Text
note =
    codes "# Run"
    ++ (lf
        ++ (codes "first line" ++ (lf ++ (codes "second" ++ (lf ++ (lf ++ codes "1. go now ok"))))))

segment_run :
    segment is_digit note
    ≡ record { start = 25; end_at = 37; is_heading = false }
      ∷ record { start = 6; end_at = 23; is_heading = false }
      ∷ record { start = 0; end_at = 5; is_heading = true }
      ∷ []
unfolding segment segment_lines segment_line splitlines is_break content_length is_space all
    is_heading_line count_hashes is_list_item ends_number
segment_run = refl

segment-IsBlocks_example : IsBlocks (length note) (segment is_digit note)
segment-IsBlocks_example = segment-IsBlocks is_digit note

abbrev item : Block
item = record { start = 25; end_at = 37; is_heading = false }

item_tokens : tokens_of note item ≡ (25, 27) ∷ (28, 30) ∷ (31, 34) ∷ (35, 37) ∷ []
unfolding tokens is_space
item_tokens = refl

item_windows : split_block note item 2 1 ≡ some ((25, 30) ∷ (28, 34) ∷ (31, 37) ∷ [])
unfolding split_block tokens windows is_space
item_windows = refl

split_block_lem_example :
    (ws : List (ℕ × ℕ)) × (split_block note item 2 1 ≡ some ws)
    × All (InWindow ws) (tokens_of note item)
unfolding tokens is_space
split_block_lem_example = split_block_lem note item 2 1 (omega arith) (omega arith) (omega arith)

chunk_lem_example :
    (ps : List Passage) × (chunk is_digit note (codes "v1") 2 1 ≡ some ps)
    × ArePassages note (codes "v1") 0 ps
chunk_lem_example = chunk_lem is_digit note (codes "v1") 2 1 (omega arith)
