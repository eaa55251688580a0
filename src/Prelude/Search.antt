-- ===== src/Prelude/Search.antt =====
-- Python's `needle in text` on strings.
use mathlib.Core.Path.{◌≡◌, refl, ap, ◌∙◌}
use mathlib.Core.Logic.{◌↔◌, ◌⊎◌, inl, inr}
use mathlib.Core.Bool.{Bool, true, false, ◌&&◌, ◌||◌}
use mathlib.Core.List.{[], ◌∷◌, ◌++◌}
use native.Mathlib.Omega.{arith}
use lode.Prelude.Tests.{◌==◌, ==_iff, &&-left, &&-right}
use lode.Prelude.Texts.{Text}

unfoldable pub starts_with : Text → Text → Bool
starts_with [] text = true
starts_with (c ∷ s) [] = false
starts_with (c ∷ s) (d ∷ text) = c == d && starts_with s text

unfoldable pub contains : Text → Text → Bool
unfolding starts_with
contains needle [] = starts_with needle []
contains needle (d ∷ text) = starts_with needle (d ∷ text) || contains needle text

-- The needle occurs in the text as it stands.
abbrev pub Occurs : Text → Text → Type 0
Occurs needle text = (before after : Text) × (text ≡ before ++ (needle ++ after))

starts_with-elim : (s t : Text) → starts_with s t ≡ true → (after : Text) × (t ≡ s ++ after)
unfolding starts_with
starts_with-elim [] t h = (t, refl)
starts_with-elim (c ∷ s) [] h = absurd (cc h)
starts_with-elim (c ∷ s) (d ∷ t) h =
    let same : c ≡ d = (==_iff c d).0 (&&-left (c == d) (starts_with s t) h) in
    let (after, e) = starts_with-elim s t (&&-right (c == d) (starts_with s t) h) in
    (after, cc (same, e))

starts_with-intro : (s after : Text) → starts_with s (s ++ after) ≡ true
unfolding starts_with
starts_with-intro [] after = refl
starts_with-intro (c ∷ s) after = ground (arith, starts_with-intro s after)

or_cases : (a b : Bool) → (a || b) ≡ true → (a ≡ true) ⊎ (b ≡ true)
or_cases true b h = inl refl
or_cases false b h = inr h

contains-elim : (needle text : Text) → contains needle text ≡ true → Occurs needle text
unfolding contains
contains-elim needle [] h = let (after, e) = starts_with-elim needle [] h in ([], after, e)
contains-elim needle (d ∷ text) h =
    elim (or_cases (starts_with needle (d ∷ text)) (contains needle text) h) [
      | inl here ↦ let (after, e) = starts_with-elim needle (d ∷ text) here in ([], after, e)
      | inr later ↦
          let (before, after, e) = contains-elim needle text later in
          (d ∷ before, after, ap (λ t. d ∷ t) e)
    ]

contains-here : (needle after : Text) → contains needle (needle ++ after) ≡ true
unfolding contains
contains-here [] [] = unfold starts_with in refl
contains-here [] (c ∷ after) = unfold starts_with in refl
contains-here (c ∷ needle) after = rw (starts_with-intro (c ∷ needle) after) refl

contains-intro : (needle before after : Text) → contains needle (before ++ (needle ++ after)) ≡ true
unfolding contains
contains-intro needle [] after = contains-here needle after
contains-intro needle (c ∷ before) after = ground (arith, contains-intro needle before after)

pub contains_iff : (needle text : Text) → (contains needle text ≡ true) ↔ Occurs needle text
contains_iff needle text = (
  contains-elim needle text,
  λ (before, after, e). ap (contains needle) e ∙ contains-intro needle before after,
)
