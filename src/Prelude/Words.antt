-- ===== src/Prelude/Words.antt =====
-- Python's `str.split()`: the words of a text, by its white space.
use mathlib.Core.Path.{◌≡◌, refl, ◌∙◌}
use mathlib.Core.Logic.{inl, inr}
use mathlib.Core.Bool.{Bool, true, false, ◌&&◌, ◌||◌, not}
use mathlib.Core.List.{List, [], ◌∷◌, ◌++◌}
use Prim.Native.Nat.{ℕ}
use lode.Prelude.Tests.{◌==◌, leb, if◌then◌else◌, Bool-cases}
use lode.Prelude.Texts.{Text}

-- `str.isspace` of one code point, the `\s` of a pattern.
unfoldable pub is_space : ℕ → Bool
is_space c =
    (leb 9 c && leb c 13)
    || ((leb 28 c && leb c 32)
        || ((c == 133)
            || ((c == 160)
                || ((c == 5760)
                    || ((leb 8192 c && leb c 8202)
                        || ((leb 8232 c && leb c 8233)
                            || ((c == 8239) || ((c == 8287) || (c == 12288)))))))))

abbrev pub starts_word : Text → Bool
starts_word [] = false
starts_word (c ∷ s) = not (is_space c)

-- A character in front of the words of the text that follows it.
abbrev pub add_char : ℕ → Bool → List Text → List Text
add_char c true (w ∷ ws) = (c ∷ w) ∷ ws
add_char c true [] = (c ∷ []) ∷ []
add_char c false ws = (c ∷ []) ∷ ws

unfoldable pub words : Text → List Text
unfolding is_space
words [] = []
words (c ∷ s) = let ws = words s in if is_space c then ws else add_char c (starts_word s) ws

unfoldable pub skip_spaces : Text → Text
skip_spaces [] = []
skip_spaces (c ∷ s) = let rest = skip_spaces s in if is_space c then rest else c ∷ s

abbrev pub NoSpace : Text → Type 0
NoSpace [] = Unit
NoSpace (c ∷ s) = (is_space c ≡ false) × NoSpace s

abbrev pub IsWord : Text → Type 0
IsWord [] = ⊥
IsWord (c ∷ s) = NoSpace (c ∷ s)

abbrev pub AreWords : List Text → Type 0
AreWords [] = Unit
AreWords (w ∷ ws) = IsWord w × AreWords ws

add_char-AreWords :
    (c : ℕ) (b : Bool) (ws : List Text)
    → is_space c ≡ false
    → AreWords ws
    → AreWords (add_char c b ws)
add_char-AreWords c true [] h k = ((h, tt), tt)
add_char-AreWords c true ([] ∷ ws) h (k, ks) = absurd k
add_char-AreWords c true ((d ∷ w) ∷ ws) h (k, ks) = ((h, k), ks)
add_char-AreWords c false ws h k = ((h, tt), k)

pub words-AreWords : (s : Text) → AreWords (words s)
unfolding words
words-AreWords [] = tt
words-AreWords (c ∷ s) = elim (Bool-cases (is_space c)) [
  | inl space ↦ rw space (words-AreWords s)
  | inr letter ↦ rw letter (add_char-AreWords c (starts_word s) (words s) letter (words-AreWords s))
]

words-letter :
    (c : ℕ) (s : Text) → is_space c ≡ false → words (c ∷ s) ≡ add_char c (starts_word s) (words s)
unfolding words
words-letter c s h = rw h refl

pub words-space : (c : ℕ) (s : Text) → is_space c ≡ true → words (c ∷ s) ≡ words s
unfolding words
words-space c s h = rw h refl

words-last : (c : ℕ) → is_space c ≡ false → words (c ∷ []) ≡ (c ∷ []) ∷ []
unfolding words
words-last c h = rw h refl

pub words-one : (w : Text) → IsWord w → words w ≡ w ∷ []
words-one [] h = absurd h
words-one (c ∷ []) (h, k) = words-last c h
words-one (c ∷ (d ∷ w)) (h, k) = words-letter c (d ∷ w) h ∙ rw (k.0, words-one (d ∷ w) k) refl

-- A word, a space, and more text.
pub words-first :
    (w : Text) (c : ℕ) (s : Text)
    → IsWord w
    → is_space c ≡ true
    → words (w ++ (c ∷ s)) ≡ w ∷ words s
words-first [] c s h space = absurd h
words-first (a ∷ []) c s (h, k) space =
    words-letter a (c ∷ s) h ∙ rw (space, words-space c s space) refl
words-first (a ∷ (d ∷ w)) c s (h, k) space =
    words-letter a (d ∷ (w ++ (c ∷ s))) h ∙ rw (k.0, words-first (d ∷ w) c s k space) refl
