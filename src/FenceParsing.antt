-- ===== src/FenceParsing.antt =====
-- fence_parsing.py: which lines of a Markdown text stand in a fenced code block. The lines have no
-- line ends.
pub mod Spans
pub mod Examples
use lode.Prelude.{
  ℕ, suc, Text, Bool, true, false, List, [], ◌∷◌, Option, none, some, ◌&&◌, ◌||◌, ◌==◌, leb,
  if◌then◌else◌, length, all, is_space, skip_spaces,
}
use lode.Chunking.{strip}

-- The run of the character `c` at the start, and what follows it.
unfoldable pub marker_run : ℕ → Text → Text × Text
marker_run c [] = ([], [])
marker_run c (d ∷ s) =
    let (run, info) = marker_run c s in if c == d then (d ∷ run, info) else ([], d ∷ s)

abbrev pub is_marker : ℕ → Bool
is_marker c = (c == 96) || (c == 126)

unfoldable pub match_fence_marker : Text → Option (Text × Text)
unfolding marker_run
match_fence_marker [] = none
match_fence_marker (c ∷ s) =
    let (run, info) = marker_run c (c ∷ s) in
    if is_marker c && leb 3 (length run) then some (run, info) else none

-- `len(stripped) >= len(fence) and set(stripped) == {fence[0]}`; a fence is not empty.
abbrev pub same_characters : Text → Text → Bool
same_characters [] fence = false
same_characters (c ∷ s) [] = false
same_characters (c ∷ s) (f ∷ fence) = all (λ d. f == d) (c ∷ s)

unfoldable pub closes_fence : Text → Text → Bool
unfolding all
closes_fence stripped fence = leb (length fence) (length stripped) && same_characters stripped fence

abbrev pub first_of : Option (Text × Text) → Option Text
first_of none = none
first_of (some (marker, info)) = some marker

-- The open marker after a line.
abbrev pub next_marker : Option Text → Text → Option Text
next_marker (some open_marker) line =
    if closes_fence (strip line) open_marker then none else some open_marker
next_marker none line = first_of (match_fence_marker (strip line))

abbrev pub is_open : Option Text → Bool
is_open none = false
is_open (some m) = true

unfoldable pub flags_from : Option Text → List Text → List Bool
unfolding closes_fence match_fence_marker skip_spaces
flags_from open_marker [] = []
flags_from open_marker (line ∷ lines) =
    is_open open_marker ∷ flags_from (next_marker open_marker line) lines

unfoldable pub fence_flags : List Text → List Bool
unfolding flags_from
fence_flags lines = flags_from none lines
