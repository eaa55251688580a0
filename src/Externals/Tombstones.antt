-- ===== src/Externals/Tombstones.antt =====
-- externals.py: `parse_tombstone_reason`, the inverse of `tombstone_body`.
use lode.Prelude.{
  ℕ, Text, codes, Bool, false, [], ◌∷◌, ◌++◌, Option, none, some, ◌≡◌, ◌≢◌, refl, ap, ◌∙◌, ◌==◌,
  ◌||◌, if◌then◌else◌, str_eq, arith,
}
use lode.Externals.{tombstone_body}
use lode.Faithfulness.{strip_prefix}

-- `\]$`, which a final line feed may follow.
abbrev pub closes : Text → Bool
closes s = str_eq s (codes "]") || str_eq s (93 ∷ 10 ∷ [])

abbrev pub with_char : ℕ → Option Text → Option Text
with_char c none = none
with_char c (some s) = some (c ∷ s)

-- `(.+)\]$`, but for the `+`: the dot matches anything but a line feed.
unfoldable pub reason_from : Text → Option Text
unfolding str_eq
reason_from [] = none
reason_from (c ∷ s) =
    let rest = reason_from s in
    if closes (c ∷ s) then some [] else if c == 10 then none else with_char c rest

abbrev pub reason_or_other : Option Text → Text
reason_or_other none = codes "other"
reason_or_other (some []) = codes "other"
reason_or_other (some (c ∷ s)) = c ∷ s

abbrev pub after_prefix : Option Text → Option Text
after_prefix none = none
after_prefix (some s) = reason_from s

unfoldable pub parse_tombstone_reason : Text → Text
unfolding reason_from strip_prefix
parse_tombstone_reason body =
    reason_or_other (after_prefix (strip_prefix (codes "[tombstone: ") body))

abbrev pub IsLine : Text → Type 0
IsLine [] = Unit
IsLine (c ∷ s) = (c ≢ 10) × IsLine s

not_closed : (c : ℕ) (s : Text) → closes (c ∷ (s ++ codes "]")) ≡ false
unfolding str_eq
not_closed c [] = ground arith
not_closed c (d ∷ []) = ground arith
not_closed c (d ∷ (e ∷ s)) = ground arith

reason_from-append : (s : Text) → IsLine s → reason_from (s ++ codes "]") ≡ some s
unfolding reason_from
reason_from-append [] u = unfold str_eq in refl
reason_from-append (c ∷ s) u = rw (not_closed c s, reason_from-append s u.1) (ground arith)

strip_prefix-append : (p s : Text) → strip_prefix p (p ++ s) ≡ some s
unfolding strip_prefix
strip_prefix-append [] s = refl
strip_prefix-append (c ∷ p) s = ground (arith, strip_prefix-append p s)

-- The reason of a tombstone is read back from its body, where the reason is not empty and has no
-- line feed.
pub parse_tombstone_reason-tombstone_body :
    (c : ℕ) (s : Text) → IsLine (c ∷ s) → parse_tombstone_reason (tombstone_body (c ∷ s)) ≡ c ∷ s
unfolding parse_tombstone_reason tombstone_body
parse_tombstone_reason-tombstone_body c s u =
    ap (λ o. reason_or_other (after_prefix o))
      (strip_prefix-append (codes "[tombstone: ") ((c ∷ s) ++ codes "]"))
    ∙ ap reason_or_other (reason_from-append (c ∷ s) u)
