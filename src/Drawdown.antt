-- ===== src/Drawdown.antt =====
-- drawdown.py: how a save finds the links in a note, and what it writes for them. The regular
-- expressions are written out; the digit class of Unicode is an argument.
pub mod Urls
pub mod Links
pub mod Linked
pub mod Detected
pub mod Refresh
pub mod Refreshed
pub mod Handled
pub mod Examples
use lode.Prelude.{
  ℕ, zero, suc, ◌+◌, ◌-◌, Text, codes, Bool, true, false, List, [], ◌∷◌, ◌++◌, Option, none, some,
  str_eq, not, ◌&&◌, ◌||◌, ◌==◌, leb, ltb, if◌then◌else◌, any, length, is_space,
}
use lode.Faithfulness.{strip_prefix}
use mathlib.Core.List.{reverse}

-- `[^\s<>"']`
abbrev pub is_url_char : ℕ → Bool
is_url_char c = not (is_space c || (c == 60 || (c == 62 || (c == 34 || c == 39))))

unfoldable pub take_while : (ℕ → Bool) → Text → Text
take_while p [] = []
take_while p (c ∷ s) = let rest = take_while p s in if p c then c ∷ rest else []

-- The `+` of a pattern: nothing matches where the run is empty.
abbrev pub nonempty : Text → Text → Option Text
nonempty scheme [] = none
nonempty scheme (c ∷ s) = some (scheme ++ (c ∷ s))

abbrev pub after_scheme : Text → Option Text → Option Text
after_scheme scheme none = none
after_scheme scheme (some s) = nonempty scheme (take_while is_url_char s)

abbrev pub or_else : Option Text → Option Text → Option Text
or_else none b = b
or_else (some a) b = some a

-- `_URL_RE` at the start of the text.
unfoldable pub match_url : Text → Option Text
unfolding strip_prefix take_while is_space
match_url s =
    or_else (after_scheme (codes "https://") (strip_prefix (codes "https://") s))
      (after_scheme (codes "http://") (strip_prefix (codes "http://") s))

-- `_TRAILING_STRIP`
abbrev pub is_trailing : ℕ → Bool
is_trailing c =
    c == 46
    || (c == 44
        || (c == 59
            || (c == 58
                || (c == 33
                    || (c == 63
                        || (c == 41
                            || (c == 93
                                || (c == 125 || (c == 8221 || (c == 8217 || c == 187))))))))))

unfoldable pub occurrences : ℕ → Text → ℕ
occurrences c [] = 0
occurrences c (d ∷ s) = let n = occurrences c s in if d == c then suc n else n

-- A closing parenthesis stays where an opening one answers it.
abbrev pub is_balanced : ℕ → Text → Bool
is_balanced c url = c == 41 && leb (occurrences 41 url) (occurrences 40 url)

-- The loop over `url[-1]`, on the reversed text.
unfoldable pub strip_reversed : Text → Text
unfolding occurrences
strip_reversed [] = []
strip_reversed (c ∷ url) =
    let rest = strip_reversed url in
    if is_trailing c && not (is_balanced c (c ∷ url)) then rest else c ∷ url

abbrev pub strip_trailing : Text → Text
strip_trailing url = reverse (strip_reversed (reverse url))

-- How much of the text a match has used, besides its first character.
abbrev pub used : ℕ → Option Text → ℕ
used (suc k) m = k
used zero none = 0
used zero (some u) = length u - 1

-- `start, end, url`, where something is left of the match.
abbrev pub add_span : ℕ → Option Text → List (ℕ × ℕ × Text) → List (ℕ × ℕ × Text)
add_span start none rest = rest
add_span start (some []) rest = rest
add_span start (some (c ∷ s)) rest = (start, start + length (c ∷ s), c ∷ s) ∷ rest

abbrev pub stripped : Option Text → Option Text
stripped none = none
stripped (some u) = some (strip_trailing u)

-- A match starts only behind the last one.
abbrev pub match_if_free : ℕ → Text → Option Text
match_if_free zero s = match_url s
match_if_free (suc k) s = none

-- `finditer`, from a position, with the number of characters that a match still covers.
unfoldable pub spans_from : ℕ → ℕ → Text → List (ℕ × ℕ × Text)
unfolding match_url strip_reversed
spans_from pos covered [] = []
spans_from pos covered (c ∷ s) =
    let m = match_if_free covered (c ∷ s) in
    let rest = spans_from (pos + 1) (used covered m) s in add_span pos (stripped m) rest

unfoldable pub iter_url_spans : Text → List (ℕ × ℕ × Text)
unfolding spans_from
iter_url_spans text = spans_from 0 0 text

-- The loop of `extract_urls` with its set `seen`.
unfoldable pub unseen : List Text → List (ℕ × ℕ × Text) → List Text
unfolding any
unseen seen [] = []
unseen seen ((start, stop, url) ∷ spans) =
    let is_seen = any (str_eq url) seen in
    let rest = unseen (if is_seen then seen else url ∷ seen) spans in
    if is_seen then rest else url ∷ rest

unfoldable pub extract_urls : Text → List Text
unfolding iter_url_spans unseen
extract_urls body = unseen [] (iter_url_spans body)

-- `[A-Za-z0-9-]`, which may stand on neither side of a bare key.
abbrev pub is_key_char : ℕ → Bool
is_key_char c =
    (leb 65 c && leb c 90) || ((leb 97 c && leb c 122) || ((leb 48 c && leb c 57) || c == 45))

abbrev pub starts_key_char : Text → Bool
starts_key_char [] = false
starts_key_char (c ∷ s) = is_key_char c

module _ (is_digit : ℕ → Bool) where
  -- `\d+(?![A-Za-z0-9-])`: the longest run of digits that the next character allows to end.
  unfoldable pub number_end : Text → Option Text
  number_end [] = none
  number_end (c ∷ s) =
      let more = number_end s in
      if not (is_digit c) then none else elim more [
        | some r ↦ some (c ∷ r)
        | none ↦ if starts_key_char s then none else some (c ∷ [])
      ]

  abbrev pub with_number : Text → Option Text → Option Text
  with_number project none = none
  with_number project (some s) = elim (number_end s) [
    | none ↦ none
    | some digits ↦ some (project ++ (codes "-" ++ digits))
  ]

  -- The alternatives in their order, at the start of the text.
  unfoldable pub match_key : List Text → Text → Option Text
  unfolding strip_prefix number_end
  match_key [] s = none
  match_key (project ∷ projects) s =
      or_else (with_number project (strip_prefix (project ++ codes "-") s)) (match_key projects s)

  abbrev pub key_if_free : Bool → ℕ → List Text → Text → Option Text
  key_if_free behind_key_char (suc k) projects s = none
  key_if_free true zero projects s = none
  key_if_free false zero projects s = match_key projects s

  unfoldable pub key_spans_from : List Text → Bool → ℕ → ℕ → Text → List (ℕ × ℕ × Text)
  unfolding match_key
  key_spans_from projects behind pos covered [] = []
  key_spans_from projects behind pos covered (c ∷ s) =
      let m = key_if_free behind covered projects (c ∷ s) in
      let rest = key_spans_from projects (is_key_char c) (pos + 1) (used covered m) s in
      add_span pos m rest

  unfoldable pub iter_bare_jira_key_spans : Text → List Text → List (ℕ × ℕ × Text)
  unfolding key_spans_from
  iter_bare_jira_key_spans text projects = key_spans_from projects false 0 0 text

-- `key_start < url_end and key_end > url_start`
abbrev pub overlaps : ℕ → ℕ → ℕ × ℕ × Text → Bool
overlaps start stop (url_start, url_end, url) = ltb start url_end && ltb url_start stop

unfoldable pub outside : List (ℕ × ℕ × Text) → List (ℕ × ℕ × Text) → List Text
unfolding any
outside urls [] = []
outside urls ((start, stop, key) ∷ keys) =
    let rest = outside urls keys in if any (overlaps start stop) urls then rest else key ∷ rest
