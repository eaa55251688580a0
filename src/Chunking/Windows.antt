-- ===== src/Chunking/Windows.antt =====
-- The windows of `_split_block` in chunking.py.
use lode.Prelude.{
  ℕ, zero, suc, ◌-◌, ◌≤◌, ◌<◌, ◌≡◌, refl, List, [], ◌∷◌, some, length, take, drop, leb, leb→le, All,
  arith, Bool-cases, inl, inr, ◌⊎◌,
}
use lode.Chunking.{window_end, windows}

-- Tokens in the order of the text, each not empty, and with no two overlapping.
abbrev pub IsOrdered : ℕ → List (ℕ × ℕ) → Type 0
IsOrdered low [] = Unit
IsOrdered low (t ∷ ts) = (low ≤ t.0) × (t.0 < t.1) × IsOrdered t.1 ts

-- The token lies in one of the windows.
abbrev pub InWindow : List (ℕ × ℕ) → ℕ × ℕ → Type 0
InWindow [] t = ⊥
InWindow (w ∷ ws) t = ((w.0 ≤ t.0) × (t.1 ≤ w.1)) ⊎ InWindow ws t

length-drop : {A : Type 0} (k : ℕ) (xs : List A) → length (drop k xs) ≡ length xs - k
length-drop zero xs = omega arith
length-drop (suc k) [] = omega arith
length-drop (suc k) (x ∷ xs) = omega (arith, length-drop k xs)

window_end-above : (t : ℕ × ℕ) (ts : List (ℕ × ℕ)) → IsOrdered t.1 ts → t.1 ≤ window_end t ts
window_end-above t [] h = omega arith
window_end-above t (u ∷ ts) (low, here, rest) = omega (arith, window_end-above u ts rest)

IsOrdered-take : (k low : ℕ) (ts : List (ℕ × ℕ)) → IsOrdered low ts → IsOrdered low (take k ts)
IsOrdered-take zero low ts h = tt
IsOrdered-take (suc k) low [] h = tt
IsOrdered-take (suc k) low (t ∷ ts) (a, b, c) = (a, b, IsOrdered-take k t.1 ts c)

pub IsOrdered-lower :
    (low low' : ℕ) (ts : List (ℕ × ℕ)) → low' ≤ low → IsOrdered low ts → IsOrdered low' ts
IsOrdered-lower low low' [] h k = tt
IsOrdered-lower low low' (t ∷ ts) h (a, b, c) = (omega arith, b, c)

IsOrdered-drop : (k low : ℕ) (ts : List (ℕ × ℕ)) → IsOrdered low ts → IsOrdered low (drop k ts)
IsOrdered-drop zero low ts h = h
IsOrdered-drop (suc k) low [] h = tt
IsOrdered-drop (suc k) low (t ∷ ts) (a, b, c) =
    IsOrdered-lower t.1 low (drop k ts) (omega arith) (IsOrdered-drop k t.1 ts c)

-- The tokens of a window lie in it.
window-covers :
    (first low : ℕ) (t : ℕ × ℕ) (ts : List (ℕ × ℕ))
    → first ≤ t.0
    → IsOrdered low (t ∷ ts)
    → All (λ u. (first ≤ u.0) × (u.1 ≤ window_end t ts)) (t ∷ ts)
window-covers first low t [] h (a, b, c) = ((h, omega arith), tt)
window-covers first low t (u ∷ ts) h (a, b, (d, e, f)) = (
  (h, omega (arith, window_end-above u ts f)),
  window-covers first t.1 u ts (omega arith) (d, e, f),
)

All-InWindow-later :
    (w : ℕ × ℕ) (ws ts : List (ℕ × ℕ)) → All (InWindow ws) ts → All (InWindow (w ∷ ws)) ts
All-InWindow-later w ws [] h = tt
All-InWindow-later w ws (t ∷ ts) (h, hs) = (inr h, All-InWindow-later w ws ts hs)

-- The first `n` tokens are in the window, and those from `step` on in the later ones.
All-split :
    (n step : ℕ) (w : ℕ × ℕ) (ws ts : List (ℕ × ℕ))
    → step ≤ n
    → All (λ u. (w.0 ≤ u.0) × (u.1 ≤ w.1)) (take n ts)
    → All (InWindow ws) (drop step ts)
    → All (InWindow (w ∷ ws)) ts
All-split n zero w ws ts h near far = All-InWindow-later w ws ts far
All-split n (suc step) w ws [] h near far = tt
All-split zero (suc step) w ws (t ∷ ts) h near far = absurd (omega arith)
All-split (suc n) (suc step) w ws (t ∷ ts) h (near, nears) far =
    (inl near, All-split n step w ws ts (omega arith) nears far)

-- A window that has all the tokens.
All-last :
    (n : ℕ) (w : ℕ × ℕ) (ts : List (ℕ × ℕ))
    → length ts ≤ n
    → All (λ u. (w.0 ≤ u.0) × (u.1 ≤ w.1)) (take n ts)
    → All (InWindow (w ∷ [])) ts
All-last n w [] h near = tt
All-last zero w (t ∷ ts) h near = absurd (omega arith)
All-last (suc n) w (t ∷ ts) h (near, nears) = (inl near, All-last n w ts (omega arith) nears)

-- Where windows have at least one token, the steps are no longer than a window, and there are as
-- many rounds as tokens, the loop ends with its windows, and each token lies in one of them.
pub windows_lem :
    (fuel n step low : ℕ) (ts : List (ℕ × ℕ))
    → length ts ≤ fuel
    → 1 ≤ step
    → step ≤ n
    → IsOrdered low ts
    → (ws : List (ℕ × ℕ)) × (windows fuel n step ts ≡ some ws) × All (InWindow ws) ts
unfolding windows
windows_lem fuel n step low [] enough pos le o = ([], refl, tt)
windows_lem zero n step low (t ∷ ts) enough pos le o = absurd (omega arith)
windows_lem (suc fuel) zero step low (t ∷ ts) enough pos le o = absurd (omega arith)
windows_lem (suc fuel) (suc n) step low (t ∷ ts) enough pos le (a, b, c) =
    let near =
      window-covers t.0 low t (take n ts) (omega arith) (a, b, IsOrdered-take n t.1 ts c) in
    let (ws, done, far) =
      windows_lem fuel (suc n) step low (drop step (t ∷ ts))
        (omega (arith, length-drop step (t ∷ ts))) pos le
        (IsOrdered-drop step low (t ∷ ts) (a, b, c)) in
    let w : ℕ × ℕ = (t.0, window_end t (take n ts)) in
    elim (Bool-cases (leb (length (t ∷ ts)) (suc n))) [
      | inl last ↦ (
        w ∷ [],
        rw last refl,
        All-last (suc n) w (t ∷ ts) (leb→le (length (t ∷ ts)) (suc n) last) near,
      )
      | inr more ↦ (w ∷ ws, rw (more, done) refl, All-split (suc n) step w ws (t ∷ ts) le near far)
    ]
