-- ===== src/Chunking/Blocks.antt =====
-- `_segment` of chunking.py: where its blocks start and end.
use lode.Prelude.{
  ℕ, suc, ◌+◌, ◌≤◌, Text, ◌≡◌, refl, ap, ◌∙◌, Bool, List, [], ◌∷◌, Option, none, some, length, ◌&&◌,
  ◌==◌, not, arith, Bool-cases, inl, inr,
}
use lode.Chunking.{
  is_break, starts_with_lf, to_first, splitlines, content_length, is_blank, is_heading_line,
  is_list_item, Block, Segmenting, flush, para_from, segment_line, segment_lines, segment,
}

content_length-length : (line : Text) → content_length line ≤ length line
unfolding content_length
content_length-length [] = omega arith
content_length-length (c ∷ s) = ground (arith, content_length-length s)

-- The lengths of the lines add up to the length of the body.
abbrev total_length : List Text → ℕ
total_length [] = 0
total_length (l ∷ ls) = length l + total_length ls

to_first-total_length :
    (c : ℕ) (ls : List Text) → total_length (to_first c ls) ≡ suc (total_length ls)
to_first-total_length c [] = omega arith
to_first-total_length c (l ∷ ls) = omega arith

splitlines-total_length : (s : Text) → total_length (splitlines s) ≡ length s
unfolding splitlines
splitlines-total_length [] = refl
splitlines-total_length (c ∷ s) =
    elim (Bool-cases (is_break c && not ((c == 13) && starts_with_lf s))) [
      | inl breaks ↦
          rw (breaks, splitlines, total_length) (omega (arith, splitlines-total_length s))
      | inr goes_on ↦
          rw (goes_on, splitlines)
            (to_first-total_length c (splitlines s) ∙ ap (λ n. suc n) (splitlines-total_length s))
    ]

-- Newest first: each block starts no later than it ends, and ends no later than the next starts.
abbrev pub IsBlocks : ℕ → List Block → Type 0
IsBlocks bound [] = Unit
IsBlocks bound (b ∷ bs) = (b.end_at ≤ bound) × (b.start ≤ b.end_at) × IsBlocks b.start bs

IsBlocks-raise : (a b : ℕ) (bs : List Block) → a ≤ b → IsBlocks a bs → IsBlocks b bs
IsBlocks-raise a b [] h k = tt
IsBlocks-raise a b (x ∷ bs) h (p, q, r) = (omega arith, q, r)

-- The open paragraph starts after the blocks, and ends before the offset.
abbrev IsOpen : ℕ → Option (ℕ × ℕ) → List Block → Type 0
IsOpen offset none bs = IsBlocks offset bs
IsOpen offset (some (start, end_at)) bs = (end_at ≤ offset) × (start ≤ end_at) × IsBlocks start bs

abbrev IsSegmenting : Segmenting → Type 0
IsSegmenting st = IsOpen st.offset st.para st.blocks

IsOpen-para :
    (low n m : ℕ) (para : Option (ℕ × ℕ)) (bs : List Block)
    → n ≤ m
    → IsOpen low para bs
    → IsOpen (low + m) (para_from para low (low + n)) bs
IsOpen-para low n m none bs h k = (omega arith, omega arith, k)
IsOpen-para low n m (some (start, end_at)) bs h (p, q, r) = (omega arith, omega arith, r)

module _ (is_digit : ℕ → Bool) where
  segment_line-IsSegmenting :
      (line : Text) (offset : ℕ) (para : Option (ℕ × ℕ)) (bs : List Block)
      → IsOpen offset para bs
      → IsSegmenting
          (segment_line is_digit line (record { offset = offset; para = para; blocks = bs }))
        × ((segment_line is_digit line
              (record { offset = offset; para = para; blocks = bs })).offset
            ≡ offset + length line)
  unfolding segment_line
  segment_line-IsSegmenting line offset none bs o =
      let fits = content_length-length line in
      elim (Bool-cases (is_blank line)) [
        | inl blank ↦
            rw (blank, segment_line, flush)
              (IsBlocks-raise offset (offset + length line) bs (omega arith) o, refl)
        | inr text ↦ elim (Bool-cases (is_heading_line line)) [
          | inl heading ↦
              rw (text, heading, segment_line, flush) ((omega arith, omega arith, o), refl)
          | inr plain ↦ elim (Bool-cases (is_list_item is_digit line)) [
            | inl item ↦
                rw (text, plain, item, segment_line, flush) ((omega arith, omega arith, o), refl)
            | inr ordinary ↦
                rw (text, plain, ordinary, segment_line)
                  (IsOpen-para offset (content_length line) (length line) none bs fits o, refl)
          ]
        ]
      ]
  segment_line-IsSegmenting line offset (some (start, end_at)) bs (p, q, r) =
      let fits = content_length-length line in
      elim (Bool-cases (is_blank line)) [
        | inl blank ↦ rw (blank, segment_line, flush) ((omega arith, q, r), refl)
        | inr text ↦ elim (Bool-cases (is_heading_line line)) [
          | inl heading ↦
              rw (text, heading, segment_line, flush) ((omega arith, omega arith, (p, q, r)), refl)
          | inr plain ↦ elim (Bool-cases (is_list_item is_digit line)) [
            | inl item ↦
                rw (text, plain, item, segment_line, flush)
                  ((omega arith, omega arith, (p, q, r)), refl)
            | inr ordinary ↦
                rw (text, plain, ordinary, segment_line)
                  (
                    IsOpen-para offset (content_length line) (length line) (some (start, end_at)) bs
                        fits (p, q, r),
                    refl,
                  )
          ]
        ]
      ]

  segment_lines-IsBlocks :
      (lines : List Text) (st : Segmenting)
      → IsSegmenting st
      → IsBlocks (st.offset + total_length lines) (segment_lines is_digit lines st).blocks
  unfolding segment_lines
  segment_lines-IsBlocks [] st o = last st.offset st.para st.blocks o
    where
      last :
          (offset : ℕ) (para : Option (ℕ × ℕ)) (bs : List Block)
          → IsOpen offset para bs
          → IsBlocks
              (offset + 0)
              (flush (record { offset = offset; para = para; blocks = bs })).blocks
      last offset none bs o = IsBlocks-raise offset (offset + 0) bs (omega arith) o
      last offset (some (start, end_at)) bs (p, q, r) = (omega arith, q, r)
  segment_lines-IsBlocks (line ∷ lines) st o =
      let (o', moved) = segment_line-IsSegmenting line st.offset st.para st.blocks o in
      let rest = segment_lines-IsBlocks lines (segment_line is_digit line st) o' in
      IsBlocks-raise ((segment_line is_digit line st).offset + total_length lines)
        (st.offset + (length line + total_length lines))
        (segment_lines is_digit lines (segment_line is_digit line st)).blocks (omega (arith, moved))
        rest

  -- The blocks of a body, from the last to the first, are ranges within it, each ends no later than
  -- the block after it starts, and none ends before it starts.
  pub segment-IsBlocks : (body : Text) → IsBlocks (length body) (segment is_digit body)
  unfolding segment
  segment-IsBlocks body =
      IsBlocks-raise (0 + total_length (splitlines body)) (length body) (segment is_digit body)
        (omega (arith, splitlines-total_length body))
        (segment_lines-IsBlocks (splitlines body) (record { offset = 0; para = none; blocks = [] })
          tt)
