-- ===== src/Faithfulness/Spans.antt =====
-- The patterns and searches of `locate_span` in faithfulness.py.
use lode.Prelude.{
  ℕ, zero, suc, ◌+◌, ◌-◌, Text, ◌≡◌, refl, sym, ap, ◌∙◌, subst, true, false, List, [], ◌∷◌, ◌++◌,
  Option, none, some, ◌==◌, if◌then◌else◌, length, length-append, All, arith, Bool-cases,
  Option-cases, inl, inr, is_space, words, skip_spaces, ==_iff, IsWord, AreWords, words-one,
  words-space, words-first,
}
use lode.Faithfulness.{strip_prefix, after_gap, match_tokens, search, find_all}

-- The text has a piece with the property at the two offsets, where it starts at the offset `pos`.
pub record At (P : Text → Type 0) (pos : ℕ) (text : Text) (r : ℕ × ℕ) : Type 0 where
  pub before : Text
  pub piece : Text
  pub after : Text
  pub split : text ≡ before ++ (piece ++ after)
  pub start : r.0 ≡ pos + length before
  pub end_at : r.1 ≡ r.0 + length piece
  pub holds : P piece

-- A match is a piece with the property.
abbrev pub Sound : (Text → Option Text) → (Text → Type 0) → Type 0
Sound match P =
    (t rest : Text) → match t ≡ some rest → (piece : Text) × (t ≡ piece ++ rest) × P piece

At-later :
    (P : Text → Type 0) (pos c : ℕ) (t : Text) (r : ℕ × ℕ) → At P (pos + 1) t r → At P pos (c ∷ t) r
At-later P pos c t r a = record {
  before = c ∷ a.before;
  piece = a.piece;
  after = a.after;
  split = ap (λ s. c ∷ s) a.split;
  start = omega (arith, a.start);
  end_at = a.end_at;
  holds = a.holds;
}

-- What a search may return: nothing, or the offsets of a piece.
abbrev pub Found : (Text → Type 0) → ℕ → Text → Option (ℕ × ℕ) → Type 0
Found P pos t none = Unit
Found P pos t (some r) = At P pos t r

Found-later :
    (P : Text → Type 0) (pos c : ℕ) (t : Text) (o : Option (ℕ × ℕ))
    → Found P (pos + 1) t o
    → Found P pos (c ∷ t) o
Found-later P pos c t none h = tt
Found-later P pos c t (some r) h = At-later P pos c t r h

All-later :
    (P : Text → Type 0) (pos c : ℕ) (t : Text) (rs : List (ℕ × ℕ))
    → All (At P (pos + 1) t) rs
    → All (At P pos (c ∷ t)) rs
All-later P pos c t [] h = tt
All-later P pos c t (r ∷ rs) (h, hs) = (At-later P pos c t r h, All-later P pos c t rs hs)

module _ (match : Text → Option Text) (P : Text → Type 0) (sound : Sound match P) where
  At-here :
      (pos : ℕ) (t rest : Text)
      → match t ≡ some rest
      → At P pos t (pos, pos + (length t - length rest))
  At-here pos t rest hit =
      let (piece, split, holds) = sound t rest hit in
      record {
        before = [];
        piece = piece;
        after = rest;
        split = split;
        start = omega arith;
        end_at = omega (arith, ap length split, length-append piece rest);
        holds = holds;
      }

  At-end : (pos : ℕ) (rest : Text) → match [] ≡ some rest → At P pos [] (pos, pos)
  At-end pos rest hit = subst (λ n. At P pos [] (pos, n)) (omega arith) (At-here pos [] rest hit)

  pub search_lem : (pos : ℕ) (t : Text) → Found P pos t (search match pos t)
  unfolding search
  search_lem pos [] = elim (Option-cases (match [])) [
    | inl miss ↦ rw (miss, search, Found) tt
    | inr (rest, hit) ↦ rw (hit, search, Found) (At-end pos rest hit)
  ]
  search_lem pos (c ∷ t) = elim (Option-cases (match (c ∷ t))) [
    | inl miss ↦
        rw (miss, search, Found)
          (Found-later P pos c t (search match (pos + 1) t) (search_lem (pos + 1) t))
    | inr (rest, hit) ↦ rw (hit, search, Found) (At-here pos (c ∷ t) rest hit)
  ]

  pub find_all_lem : (skip pos : ℕ) (t : Text) → All (At P pos t) (find_all match skip pos t)
  unfolding find_all
  find_all_lem zero pos [] = elim (Option-cases (match [])) [
    | inl miss ↦ rw (miss, find_all, All) tt
    | inr (rest, hit) ↦ rw (hit, find_all, All) (At-end pos rest hit, tt)
  ]
  find_all_lem (suc k) pos [] =
      let busy : (suc k == 0) ≡ false = ground arith in rw (busy, find_all, All) tt
  find_all_lem (suc k) pos (c ∷ t) =
      All-later P pos c t (find_all match k (pos + 1) t) (find_all_lem k (pos + 1) t)
  find_all_lem zero pos (c ∷ t) = elim (Option-cases (match (c ∷ t))) [
    | inl miss ↦
        rw (miss, find_all, All)
          (All-later P pos c t (find_all match 0 (pos + 1) t) (find_all_lem 0 (pos + 1) t))
    | inr (rest, hit) ↦
        rw (hit, find_all, All)
          (
            At-here pos (c ∷ t) rest hit,
            All-later P pos c t (find_all match (length (c ∷ t) - length rest - 1) (pos + 1) t)
                (find_all_lem (length (c ∷ t) - length rest - 1) (pos + 1) t),
          )
  ]

pub strip_prefix-sound : (s : Text) → Sound (strip_prefix s) (λ piece. piece ≡ s)
unfolding strip_prefix
strip_prefix-sound [] t rest h = ([], cc h, refl)
strip_prefix-sound (c ∷ s) [] rest h = absurd (cc h)
strip_prefix-sound (c ∷ s) (d ∷ t) rest h = elim (Bool-cases (c == d)) [
  | inl same ↦
      let here : strip_prefix s t ≡ some rest =
        sym (ap (λ b. if b then strip_prefix s t else none) same) ∙ h in
      let (piece, split, e) = strip_prefix-sound s t rest here in
      let cd : c ≡ d = (==_iff c d).0 same in (d ∷ piece, ap (λ u. d ∷ u) split, cc (cd, e))
  | inr other ↦
      let none_some : none ≡ some rest =
        sym (ap (λ b. if b then strip_prefix s t else none) other) ∙ h in
      absurd (cc none_some)
]

skip_spaces_sound :
    (t : Text)
    → (gap : Text) × (t ≡ gap ++ skip_spaces t) × ((s : Text) → words (gap ++ s) ≡ words s)
unfolding skip_spaces
skip_spaces_sound [] = ([], refl, λ s. refl)
skip_spaces_sound (c ∷ t) = elim (Bool-cases (is_space c)) [
  | inl space ↦
      let (gap, split, same) = skip_spaces_sound t in
      rw space (c ∷ gap, ap (λ u. c ∷ u) split, λ s. words-space c (gap ++ s) space ∙ same s)
  | inr letter ↦ rw letter ([], refl, λ s. refl)
]

-- A gap of white space, and what is left of the text.
after_gap_sound :
    (t next : Text)
    → after_gap t ≡ some next
    → (c : ℕ) × (gap : Text) × (is_space c ≡ true)
      × (t ≡ c ∷ (gap ++ next))
      × ((s : Text) → words (gap ++ s) ≡ words s)
after_gap_sound [] next h = absurd (cc h)
after_gap_sound (c ∷ t) next h = elim (Bool-cases (is_space c)) [
  | inl space ↦
      let is_next : some (skip_spaces t) ≡ some next =
        sym (ap (λ b. if b then some (skip_spaces t) else none) space) ∙ h in
      let (gap, split, same) = skip_spaces_sound t in
      let at : skip_spaces t ≡ next = cc is_next in
      (c, gap, space, ap (λ u. c ∷ u) (split ∙ ap (λ u. gap ++ u) at), same)
  | inr letter ↦
      let none_some : none ≡ some next =
        sym (ap (λ b. if b then some (skip_spaces t) else none) letter) ∙ h in
      absurd (cc none_some)
]

append_assoc : (a b c : Text) → (a ++ b) ++ c ≡ a ++ (b ++ c)
append_assoc [] b c = refl
append_assoc (x ∷ a) b c = ap (λ u. x ∷ u) (append_assoc a b c)

-- The rest of the pattern after its first token, on what follows that token.
abbrev rest_of : List Text → Text → Option Text
rest_of ws t = elim (after_gap t) [ none ↦ none | some next ↦ match_tokens ws next ]

pub match_tokens-sound :
    (w : Text) (ws : List Text)
    → IsWord w
    → AreWords ws
    → Sound (match_tokens (w ∷ ws)) (λ piece. words piece ≡ w ∷ ws)
unfolding match_tokens
match_tokens-sound w [] is_word are t rest h =
    let (piece, split, e) = strip_prefix-sound w t rest h in
    (piece, split, ap words e ∙ words-one w is_word)
match_tokens-sound w (v ∷ ws) is_word (v_word, are) t rest h =
    elim (Option-cases (strip_prefix w t)) [
      | inl miss ↦
          let none_some : none ≡ some rest =
            sym (ap (λ o. elim o [ none ↦ none | some r ↦ rest_of (v ∷ ws) r ]) miss) ∙ h in
          absurd (cc none_some)
      | inr (r, hit) ↦
          let h' : rest_of (v ∷ ws) r ≡ some rest =
            sym (ap (λ o. elim o [ none ↦ none | some r ↦ rest_of (v ∷ ws) r ]) hit) ∙ h in
          let (piece, split, e) = strip_prefix-sound w t r hit in
          elim (Option-cases (after_gap r)) [
            | inl miss ↦
                let none_some : none ≡ some rest =
                  sym
                    (ap (λ o. elim o [ none ↦ none | some next ↦ match_tokens (v ∷ ws) next ]) miss)
                  ∙ h' in
                absurd (cc none_some)
            | inr (next, gapped) ↦
                let h'' : match_tokens (v ∷ ws) next ≡ some rest =
                  sym (
                    ap (λ o. elim o [ none ↦ none | some next ↦ match_tokens (v ∷ ws) next ])
                      gapped)
                  ∙ h' in
                let (c, gap, space, r_split, same) = after_gap_sound r next gapped in
                let (tail, next_split, tail_words) =
                  match_tokens-sound v ws v_word are next rest h'' in
                (
                  w ++ (c ∷ (gap ++ tail)),
                  split
                      ∙ ap (λ u. u ++ r) e
                      ∙ ap (λ u. w ++ u) r_split
                      ∙ ap (λ u. w ++ (c ∷ (gap ++ u))) next_split
                      ∙ ap (λ u. w ++ (c ∷ u)) (sym (append_assoc gap tail rest))
                      ∙ sym (append_assoc w (c ∷ (gap ++ tail)) rest),
                  words-first w c (gap ++ tail) is_word space
                      ∙ ap (λ u. w ∷ u) (same tail ∙ tail_words),
                )
          ]
    ]
