-- ===== src/Chunking.antt =====
-- chunking.py: a body is cut into passages at its headings, list items and paragraphs, and a block
-- that is too long into windows of tokens. `is_digit` is the class `\d`, which stands on the Unicode
-- tables. Offsets are those of code points, as in Python.
pub mod Windows
pub mod Blocks
pub mod Passages
pub mod Examples
use Prim.Native.Nat.{max}
use mathlib.Core.List.{reverse}
use lode.Prelude.{
  ℕ, zero, suc, ◌+◌, ◌-◌, Text, codes, Bool, true, false, List, [], ◌∷◌, ◌++◌, Option, none, some,
  not, ◌&&◌, ◌||◌, ◌==◌, ltb, leb, if◌then◌else◌, length, take, drop, all, is_space, starts_word,
  skip_spaces, ◌/◌, ◌%◌,
}

-- Where `str.splitlines` ends a line.
unfoldable pub is_break : ℕ → Bool
is_break c =
    (leb 10 c && leb c 13)
    || ((leb 28 c && leb c 30) || ((c == 133) || ((c == 8232) || (c == 8233))))

abbrev pub starts_with_lf : Text → Bool
starts_with_lf [] = false
starts_with_lf (c ∷ s) = c == 10

abbrev pub to_first : ℕ → List Text → List Text
to_first c [] = (c ∷ []) ∷ []
to_first c (l ∷ ls) = (c ∷ l) ∷ ls

-- `body.splitlines(keepends=True)`: CR LF is one end.
unfoldable pub splitlines : Text → List Text
unfolding is_break
splitlines [] = []
splitlines (c ∷ s) =
    let rest = splitlines s in
    if is_break c && not ((c == 13) && starts_with_lf s) then (c ∷ []) ∷ rest else to_first c rest

abbrev pub is_crlf : ℕ → Bool
is_crlf c = (c == 10) || (c == 13)

-- `len(line.rstrip("\r\n"))`
unfoldable pub content_length : Text → ℕ
content_length [] = 0
content_length (c ∷ s) = let n = content_length s in if (n == 0) && is_crlf c then 0 else suc n

-- `line.strip() == ""`
abbrev pub is_blank : Text → Bool
is_blank line = all is_space line

unfoldable pub count_hashes : Text → ℕ
count_hashes [] = 0
count_hashes (c ∷ s) = let n = count_hashes s in if c == 35 then suc n else 0

abbrev pub starts_space : Text → Bool
starts_space [] = false
starts_space (c ∷ s) = is_space c

-- `^#{1,6}\s`
unfoldable pub is_heading_line : Text → Bool
unfolding count_hashes is_space
is_heading_line line =
    let n = count_hashes line in leb 1 n && (leb n 6 && starts_space (drop n line))

abbrev pub is_bullet : ℕ → Bool
is_bullet c = (c == 45) || ((c == 42) || (c == 43))

abbrev pub is_mark : ℕ → Bool
is_mark c = (c == 46) || (c == 41)

pub record Block : Type 0 where
  pub start : ℕ
  pub end_at : ℕ
  pub is_heading : Bool

-- The state of `_segment`'s loop: the offset, the open paragraph, and the blocks, newest first.
pub record Segmenting : Type 0 where
  pub offset : ℕ
  pub para : Option (ℕ × ℕ)
  pub blocks : List Block

abbrev pub flush : Segmenting → Segmenting
flush st = elim st.para [
  | none ↦ st
  | some (start, end_at) ↦ record st {
    para = none;
    blocks = record { start = start; end_at = end_at; is_heading = false } ∷ st.blocks;
  }
]

abbrev pub add_block : ℕ → ℕ → Bool → Segmenting → Segmenting
add_block start end_at is_heading st = record st {
  blocks = record { start = start; end_at = end_at; is_heading = is_heading } ∷ st.blocks;
}

abbrev pub para_from : Option (ℕ × ℕ) → ℕ → ℕ → Option (ℕ × ℕ)
para_from none start content_end = some (start, content_end)
para_from (some (first, last)) start content_end = some (first, content_end)

module _ (is_digit : ℕ → Bool) where
  -- The digits of an ordered item were read, at least one where `some_read`.
  unfoldable pub ends_number : Bool → Text → Bool
  ends_number some_read [] = false
  ends_number some_read (c ∷ s) =
      let rest = ends_number true s in
      if is_digit c then rest else some_read && (is_mark c && starts_space s)

  -- `^\s*(?:[-*+]|\d+[.)])\s`
  unfoldable pub is_list_item : Text → Bool
  unfolding is_space ends_number
  is_list_item [] = false
  is_list_item (c ∷ s) =
      let rest = is_list_item s in
      if is_space c then rest else (is_bullet c && starts_space s) || ends_number false (c ∷ s)

  -- One round of the loop of `_segment`.
  unfoldable pub segment_line : Text → Segmenting → Segmenting
  unfolding content_length is_space all is_heading_line is_list_item
  segment_line line st =
      let start = st.offset in
      let content_end = start + content_length line in
      let next = record st { offset = st.offset + length line } in
      if is_blank line
      then flush next
      else if is_heading_line line
      then add_block start content_end true (flush next)
      else if is_list_item line
      then add_block start content_end false (flush next)
      else record next { para = para_from st.para start content_end }

  unfoldable pub segment_lines : List Text → Segmenting → Segmenting
  unfolding segment_line
  segment_lines [] st = flush st
  segment_lines (line ∷ lines) st = segment_lines lines (segment_line line st)

  -- `_segment`, newest first.
  unfoldable pub segment : Text → List Block
  unfolding segment_lines splitlines
  segment body =
      (segment_lines (splitlines body) (record { offset = 0; para = none; blocks = [] })).blocks

-- The tokens, `\S+`, with their offsets from `pos` on.
abbrev pub longer : ℕ → Bool → List (ℕ × ℕ) → List (ℕ × ℕ)
longer pos true ((start, end_at) ∷ ts) = (pos, end_at) ∷ ts
longer pos _ ts = (pos, pos + 1) ∷ ts

unfoldable pub tokens : ℕ → Text → List (ℕ × ℕ)
unfolding is_space
tokens pos [] = []
tokens pos (c ∷ s) =
    let rest = tokens (pos + 1) s in if is_space c then rest else longer pos (starts_word s) rest

-- `(window[0].start(), window[-1].end())`; Python's `IndexError` on an empty window is `none`.
abbrev pub window_end : ℕ × ℕ → List (ℕ × ℕ) → ℕ
window_end t [] = t.1
window_end t (u ∷ ts) = window_end u ts

abbrev pub window_span : List (ℕ × ℕ) → Option (ℕ × ℕ)
window_span [] = none
window_span (t ∷ ts) = some (t.0, window_end t ts)

abbrev pub with_first : Option (ℕ × ℕ) → Option (List (ℕ × ℕ)) → Option (List (ℕ × ℕ))
with_first (some w) (some ws) = some (w ∷ ws)
with_first _ _ = none

-- The loop over the tokens `tokens[i:]`. It has `fuel` rounds; none is left when the tokens are.
unfoldable pub windows : ℕ → ℕ → ℕ → List (ℕ × ℕ) → Option (List (ℕ × ℕ))
windows fuel n step [] = some []
windows zero n step (t ∷ ts) = none
windows (suc fuel) n step (t ∷ ts) =
    let rest = windows fuel n step (drop step (t ∷ ts)) in
    with_first (window_span (take n (t ∷ ts))) (if leb (length (t ∷ ts)) n then some [] else rest)

-- `_split_block`
unfoldable pub split_block : Text → Block → ℕ → ℕ → Option (List (ℕ × ℕ))
unfolding tokens windows
split_block body block n step =
    let ts = tokens block.start (take (block.end_at - block.start) (drop block.start body)) in
    if leb (length ts) n
    then some ((block.start, block.end_at) ∷ [])
    else windows (length ts) n step ts

abbrev pub slice : Text → ℕ → ℕ → Text
slice body start end_at = take (end_at - start) (drop start body)

unfoldable pub heading_starts : List Block → List ℕ
heading_starts [] = []
heading_starts (b ∷ bs) =
    let rest = heading_starts bs in if b.is_heading then b.start ∷ rest else rest

abbrev pub from_zero : List ℕ → List ℕ
from_zero [] = 0 ∷ []
from_zero (p ∷ ps) = if p == 0 then p ∷ ps else 0 ∷ (p ∷ ps)

abbrev pub between : List ℕ → List (ℕ × ℕ)
between [] = []
between (p ∷ []) = []
between (p ∷ (q ∷ ps)) = (p, q) ∷ between (q ∷ ps)

-- `_section_ranges`
unfoldable pub section_ranges : Text → List Block → List (ℕ × ℕ)
unfolding heading_starts
section_ranges body blocks = between (from_zero (heading_starts blocks) ++ (length body ∷ []))

-- `str.strip()`
abbrev pub strip : Text → Text
strip text = reverse (skip_spaces (reverse (skip_spaces text)))

-- `_parent_block`
unfoldable pub parent_block : Text → List (ℕ × ℕ) → ℕ → Text
unfolding skip_spaces
parent_block body [] pos = strip body
parent_block body ((start, end_at) ∷ sections) pos =
    if leb start pos && ltb pos end_at
    then strip (slice body start end_at)
    else parent_block body sections pos

-- `str(n)`, with one round for each digit, and `n + 1` rounds are enough.
unfoldable pub digits : ℕ → ℕ → Text → Text
digits zero n acc = acc
digits (suc fuel) n acc =
    let more = digits fuel (n / 10) ((48 + n % 10) ∷ acc) in
    if ltb n 10 then (48 + n % 10) ∷ acc else more

unfoldable pub decimal : ℕ → Text
unfolding digits
decimal n = digits (suc n) n []

pub record Passage : Type 0 where
  pub passage_id : Text
  pub target_version : Text
  pub ord : ℕ
  pub char_range : Text
  pub text : Text
  pub parent_block : Text

-- The inner loop of `chunk`, from the ordinal `ord` on.
unfoldable pub passages_of : Text → Text → Text → ℕ → List (ℕ × ℕ) → List Passage
unfolding decimal
passages_of body target parent ord [] = []
passages_of body target parent ord ((start, end_at) ∷ spans) =
    record {
      passage_id = target ++ (codes ":" ++ decimal ord);
      target_version = target;
      ord = ord;
      char_range = decimal start ++ (codes ":" ++ decimal end_at);
      text = slice body start end_at;
      parent_block = parent;
    }
    ∷ passages_of body target parent (ord + 1) spans

abbrev pub and_then : List Passage → Option (List Passage) → Option (List Passage)
and_then ps none = none
and_then ps (some qs) = some (ps ++ qs)

unfoldable pub chunk_blocks :
    Text → Text → ℕ → ℕ → List (ℕ × ℕ) → ℕ → List Block → Option (List Passage)
unfolding split_block passages_of parent_block
chunk_blocks body target n step sections ord [] = some []
chunk_blocks body target n step sections ord (b ∷ bs) = elim (split_block body b n step) [
  | none ↦ none
  | some spans ↦
      and_then (passages_of body target (parent_block body sections b.start) ord spans)
        (chunk_blocks body target n step sections (ord + length spans) bs)
]

-- The two knobs, `settings.chunk_threshold_tokens` and `settings.chunk_overlap_tokens`.
unfoldable pub chunk : (ℕ → Bool) → Text → Text → ℕ → ℕ → Option (List Passage)
unfolding segment section_ranges chunk_blocks
chunk is_digit body target threshold overlap =
    let blocks = reverse (segment is_digit body) in
    chunk_blocks body target threshold (max 1 (threshold - overlap)) (section_ranges body blocks) 0
      blocks
