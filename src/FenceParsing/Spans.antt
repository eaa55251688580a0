-- ===== src/FenceParsing/Spans.antt =====
-- Fenced blocks and the flags of fence_parsing.py.
use lode.Prelude.{Text, ◌≡◌, refl, ap, ◌∙◌, Bool, true, false, List, [], ◌∷◌, ◌++◌, none, some, All}
use lode.Chunking.{strip}
use lode.FenceParsing.{match_fence_marker, closes_fence, flags_from, fence_flags}

-- As many flags that are set as there are lines.
abbrev pub inside : List Text → List Bool
inside [] = []
inside (l ∷ ls) = true ∷ inside ls

open-flags_from :
    (m : Text) (content rest : List Text)
    → All (λ line. closes_fence (strip line) m ≡ false) content
    → flags_from (some m) (content ++ rest) ≡ inside content ++ flags_from (some m) rest
unfolding flags_from
open-flags_from m [] rest h = refl
open-flags_from m (line ∷ content) rest (h, hs) =
    rw h (ap (λ fs. true ∷ fs) (open-flags_from m content rest hs))

open-flags_from_end :
    (m : Text) (content : List Text)
    → All (λ line. closes_fence (strip line) m ≡ false) content
    → flags_from (some m) content ≡ inside content
unfolding flags_from
open-flags_from_end m [] h = refl
open-flags_from_end m (line ∷ content) (h, hs) =
    rw h (ap (λ fs. true ∷ fs) (open-flags_from_end m content hs))

closing-flags_from :
    (m closer : Text) (rest : List Text)
    → closes_fence (strip closer) m ≡ true
    → flags_from (some m) (closer ∷ rest) ≡ true ∷ flags_from none rest
unfolding flags_from
closing-flags_from m closer rest closes = rw closes refl

-- A line that opens a fence is outside; each line after it up to one that closes that fence is
-- inside, the closing line too, whatever other fences the lines in between look like; and after it
-- the flags are those of the rest alone. A fence that no line closes goes on to the end.
pub fence_flags_lem :
    (opener : Text) (marker info : Text) (content : List Text) (closer : Text) (rest : List Text)
    → match_fence_marker (strip opener) ≡ some (marker, info)
    → All (λ line. closes_fence (strip line) marker ≡ false) content
    → closes_fence (strip closer) marker ≡ true
    → (fence_flags (opener ∷ (content ++ (closer ∷ rest)))
        ≡ false ∷ (inside content ++ (true ∷ fence_flags rest)))
      × (fence_flags (opener ∷ content) ≡ false ∷ inside content)
unfolding fence_flags flags_from
fence_flags_lem opener marker info content closer rest opens stays closes = rw opens (
  ap (λ fs. false ∷ fs)
      (open-flags_from marker content (closer ∷ rest) stays
        ∙ ap (λ fs. inside content ++ fs) (closing-flags_from marker closer rest closes)),
  ap (λ fs. false ∷ fs) (open-flags_from_end marker content stays),
)
