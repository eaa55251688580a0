-- ===== src/Chunking/Passages.antt =====
-- `_split_block` and `chunk` of chunking.py: the spans of a block and the passages of a body.
use Prim.Native.Nat.{max}
use mathlib.Core.List.{reverse}
use lode.Prelude.{
  ℕ, ◌+◌, ◌-◌, ◌≤◌, ◌<◌, Text, codes, ◌≡◌, refl, subst, Bool, true, false, List, [], ◌∷◌, ◌++◌,
  some, length, leb, is_space, starts_word, All, arith, Bool-cases, inl, inr,
}
use lode.Chunking.{
  Block, longer, tokens, split_block, slice, decimal, Passage, passages_of, parent_block,
  chunk_blocks, section_ranges, segment, chunk,
}
use lode.Chunking.Windows.{IsOrdered, InWindow, windows_lem, IsOrdered-lower}

longer-IsOrdered :
    (pos : ℕ) (inside : Bool) (ts : List (ℕ × ℕ))
    → IsOrdered (pos + 1) ts
    → IsOrdered pos (longer pos inside ts)
longer-IsOrdered pos true [] h = (omega arith, omega arith, tt)
longer-IsOrdered pos true ((start, end_at) ∷ ts) (a, b, c) = (omega arith, omega arith, c)
longer-IsOrdered pos false ts h = (omega arith, omega arith, h)

tokens-IsOrdered : (pos : ℕ) (s : Text) → IsOrdered pos (tokens pos s)
unfolding tokens
tokens-IsOrdered pos [] = tt
tokens-IsOrdered pos (c ∷ s) = elim (Bool-cases (is_space c)) [
  | inl space ↦
      rw (space, tokens, IsOrdered)
        (IsOrdered-lower (pos + 1) pos (tokens (pos + 1) s) (omega arith)
          (tokens-IsOrdered (pos + 1) s))
  | inr letter ↦
      rw (letter, tokens)
        (longer-IsOrdered pos (starts_word s) (tokens (pos + 1) s) (tokens-IsOrdered (pos + 1) s))
]

-- The tokens of a block, by their offsets in the body.
abbrev pub tokens_of : Text → Block → List (ℕ × ℕ)
tokens_of body b = tokens b.start (slice body b.start b.end_at)

-- A block of more than `n` tokens is cut into windows, where the step is at least one and at most
-- `n`: the loop ends within one round for each token, and each token of the block lies in one of the
-- windows whole.
pub split_block_lem :
    (body : Text) (b : Block) (n step : ℕ)
    → 1 ≤ step
    → step ≤ n
    → n < length (tokens_of body b)
    → (ws : List (ℕ × ℕ)) × (split_block body b n step ≡ some ws)
      × All (InWindow ws) (tokens_of body b)
unfolding split_block
split_block_lem body b n step pos le long =
    let ts = tokens_of body b in
    let over : leb (length ts) n ≡ false = ground (arith, long) in
    let (ws, done, covered) =
      windows_lem (length ts) n step b.start ts (omega arith) pos le
        (tokens-IsOrdered b.start (slice body b.start b.end_at)) in
    (ws, rw (over, split_block) done, covered)

split_block-returns :
    (body : Text) (b : Block) (n step : ℕ)
    → 1 ≤ step
    → step ≤ n
    → (ws : List (ℕ × ℕ)) × (split_block body b n step ≡ some ws)
unfolding split_block
split_block-returns body b n step pos le = elim (Bool-cases (leb (length (tokens_of body b)) n)) [
  | inl short ↦ ((b.start, b.end_at) ∷ [], rw (short, split_block) refl)
  | inr long ↦
      let (ws, done, covered) = split_block_lem body b n step pos le (ground (arith, long)) in
      (ws, done)
]

-- The passage is the range of the body that it names, under the ordinal `ord`.
pub record IsPassage (body target : Text) (ord : ℕ) (p : Passage) : Type 0 where
  pub start : ℕ
  pub end_at : ℕ
  pub same_ord : p.ord ≡ ord
  pub same_id : p.passage_id ≡ target ++ (codes ":" ++ decimal ord)
  pub same_target : p.target_version ≡ target
  pub range : p.char_range ≡ decimal start ++ (codes ":" ++ decimal end_at)
  pub exact : p.text ≡ slice body start end_at

abbrev pub ArePassages : Text → Text → ℕ → List Passage → Type 0
ArePassages body target ord [] = Unit
ArePassages body target ord (p ∷ ps) =
    IsPassage body target ord p × ArePassages body target (ord + 1) ps

passages_of-ArePassages :
    (body target parent : Text) (ord : ℕ) (spans : List (ℕ × ℕ)) (ps : List Passage)
    → ArePassages body target (ord + length spans) ps
    → ArePassages body target ord (passages_of body target parent ord spans ++ ps)
unfolding passages_of
passages_of-ArePassages body target parent ord [] ps h =
    subst (λ k. ArePassages body target k ps) (omega arith) h
passages_of-ArePassages body target parent ord ((start, end_at) ∷ spans) ps h = (
  record {
    start = start;
    end_at = end_at;
    same_ord = refl;
    same_id = refl;
    same_target = refl;
    range = refl;
    exact = refl;
  },
  passages_of-ArePassages body target parent (ord + 1) spans ps
      (subst (λ k. ArePassages body target k ps) (omega arith) h),
)

chunk_blocks-ArePassages :
    (body target : Text) (n step : ℕ) (sections : List (ℕ × ℕ)) (ord : ℕ) (bs : List Block)
    → 1 ≤ step
    → step ≤ n
    → (ps : List Passage) × (chunk_blocks body target n step sections ord bs ≡ some ps)
      × ArePassages body target ord ps
unfolding chunk_blocks
chunk_blocks-ArePassages body target n step sections ord [] pos le = ([], refl, tt)
chunk_blocks-ArePassages body target n step sections ord (b ∷ bs) pos le =
    let (spans, cut) = split_block-returns body b n step pos le in
    let (ps, rest, are) =
      chunk_blocks-ArePassages body target n step sections (ord + length spans) bs pos le in
    (
      passages_of body target (parent_block body sections b.start) ord spans ++ ps,
      rw (cut, chunk_blocks) (rw rest refl),
      passages_of-ArePassages body target (parent_block body sections b.start) ord spans ps are,
    )

-- Where the threshold is positive, as the settings demand, and whatever the overlap, `chunk` returns
-- on every body. Its passages have the ordinals 0, 1, 2 and so on with the ids made of them, and the
-- text of each is the range of the body that its `char_range` names.
pub chunk_lem :
    (is_digit : ℕ → Bool) (body target : Text) (threshold overlap : ℕ)
    → 1 ≤ threshold
    → (ps : List Passage) × (chunk is_digit body target threshold overlap ≡ some ps)
      × ArePassages body target 0 ps
unfolding chunk
chunk_lem is_digit body target threshold overlap pos =
    let blocks = reverse (segment is_digit body) in
    chunk_blocks-ArePassages body target threshold (max 1 (threshold - overlap))
      (section_ranges body blocks) 0 blocks (omega arith) (omega arith)
