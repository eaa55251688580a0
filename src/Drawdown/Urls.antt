-- ===== src/Drawdown/Urls.antt =====
-- drawdown.py: which links are Atlassian's, and the canonical form of the others. The functions of
-- `urllib.parse` and `str.lower` are arguments; `none` of `urlsplit`, and of the port that it returns,
-- is the `ValueError` that Python raises.
use lode.Prelude.{
  ℕ, Text, codes, Bool, true, false, List, [], ◌∷◌, ◌++◌, Option, none, some, str_eq, not, ◌&&◌,
  ◌||◌, ◌==◌, leb, ltb, if◌then◌else◌, any, starts_with,
}
use lode.Chunking.{decimal, strip}
use lode.Faithfulness.{strip_prefix}
use lode.Hashing.{◌>>=◌}
use mathlib.Core.List.{reverse}

-- `port` is `none` where reading it raises.
pub record SplitResult : Type 0 where
  pub scheme : Text
  pub hostname : Option Text
  pub port : Option (Option ℕ)
  pub path : Text
  pub query : Text

pub record UrlLib : Type 0 where
  pub urlsplit : Text → Option SplitResult
  pub parse_qsl : Text → List (Text × Text)
  pub urlencode : List (Text × Text) → Text
  pub urlunsplit : Text → Text → Text → Text → Text
  pub lower : Text → Text
  pub is_digit : ℕ → Bool

-- The fields of the settings; the two flags are `jira_active` and `confluence_active`.
pub record LinkSettings : Type 0 where
  pub jira_active : Bool
  pub jira_base_url : Text
  pub jira_projects : List Text
  pub confluence_active : Bool
  pub confluence_base_url : Text
  pub url_tracking_param_blocklist : List Text

abbrev pub is_empty_text : Text → Bool
is_empty_text [] = true
is_empty_text (c ∷ s) = false

unfoldable pub drop_slashes : Text → Text
drop_slashes [] = []
drop_slashes (c ∷ s) = let rest = drop_slashes s in if c == 47 then rest else c ∷ s

-- `rstrip("/")` and `endswith`.
unfoldable pub rstrip_slashes : Text → Text
unfolding drop_slashes
rstrip_slashes s = reverse (drop_slashes (reverse s))

abbrev pub ends_with : Text → Text → Bool
ends_with suffix s = starts_with (reverse suffix) (reverse s)

-- `$`, at the end or before a final line feed.
abbrev pub at_end : Text → Bool
at_end [] = true
at_end (c ∷ []) = c == 10
at_end (c ∷ (d ∷ s)) = false

abbrev pub slash_end : Text → Bool
slash_end [] = true
slash_end (c ∷ s) = at_end (c ∷ s) || (c == 47 && at_end s)

abbrev pub is_ascii_letter : ℕ → Bool
is_ascii_letter c = (leb 65 c && leb c 90) || (leb 97 c && leb c 122)

abbrev pub is_alnum : ℕ → Bool
is_alnum c = is_ascii_letter c || (leb 48 c && leb c 57)

-- `/.*` before the end: only a final line feed may follow the slash.
unfoldable pub is_tail : Text → Bool
is_tail [] = true
is_tail (c ∷ s) = at_end (c ∷ s) || (not (c == 10) && is_tail s)

abbrev pub page_end : Text → Bool
page_end [] = true
page_end (c ∷ s) = at_end (c ∷ s) || (c == 47 && is_tail s)

abbrev pub cons_to : ℕ → Option Text → Option Text
cons_to c none = none
cons_to c (some s) = some (c ∷ s)

abbrev pub drop_first : Text → Text
drop_first [] = []
drop_first (c ∷ s) = s

abbrev pub slash_if_empty : Text → Text
slash_if_empty [] = codes "/"
slash_if_empty (c ∷ s) = c ∷ s

-- Python's order of texts, and of pairs of them.
unfoldable pub text_before : Text → Text → Bool
text_before [] t = true
text_before (c ∷ s) [] = false
text_before (c ∷ s) (d ∷ t) = ltb c d || (c == d && text_before s t)

abbrev pub pair_before : Text × Text → Text × Text → Bool
pair_before (k, v) (l, w) = if str_eq k l then text_before v w else text_before k l

-- `sorted`, which is stable.
unfoldable pub insert_pair : Text × Text → List (Text × Text) → List (Text × Text)
unfolding text_before
insert_pair p [] = p ∷ []
insert_pair p (q ∷ qs) =
    let rest = insert_pair p qs in if pair_before p q then p ∷ (q ∷ qs) else q ∷ rest

unfoldable pub sort_pairs : List (Text × Text) → List (Text × Text)
unfolding insert_pair
sort_pairs [] = []
sort_pairs (p ∷ ps) = insert_pair p (sort_pairs ps)

module _ (u : UrlLib) (settings : LinkSettings) where
  -- `\d+` up to an end.
  unfoldable pub digits_to : (Text → Bool) → Text → Option Text
  digits_to ends [] = none
  digits_to ends (c ∷ s) =
      let rest = digits_to ends s in
      if not (u.is_digit c) then none else if ends s then some (c ∷ []) else cons_to c rest

  -- `[A-Za-z0-9]*-\d+/?$`
  unfoldable pub key_to : Text → Option Text
  unfolding digits_to
  key_to [] = none
  key_to (c ∷ s) =
      let rest = key_to s in
      if c == 45
      then cons_to c (digits_to slash_end s)
      else if is_alnum c
      then cons_to c rest
      else none

  abbrev pub from_letter : Text → Option Text
  from_letter [] = none
  from_letter (c ∷ s) = if is_ascii_letter c then cons_to c (key_to s) else none

  -- `_JIRA_ISSUE_RE`
  unfoldable pub jira_issue : Text → Option Text
  unfolding strip_prefix key_to
  jira_issue path = do rest ← strip_prefix (codes "/browse/") path; from_letter rest

  -- `[^/]+/`
  unfoldable pub after_segment : Bool → Text → Option Text
  after_segment some_read [] = none
  after_segment some_read (c ∷ s) =
      let rest = after_segment true s in
      if c == 47 then (if some_read then some s else none) else rest

  -- `_CONFLUENCE_PAGE_RE`
  unfoldable pub confluence_page : Text → Option Text
  unfolding strip_prefix after_segment digits_to is_tail
  confluence_page path = do
    rest ← strip_prefix (codes "/wiki/spaces/") path
    pages ← after_segment false rest
    page ← strip_prefix (codes "pages/") pages
    digits_to page_end page

  abbrev pub or_empty : Option Text → Text
  or_empty none = []
  or_empty (some s) = s

  unfoldable pub host_matches : Text → Text → Option Bool
  host_matches hostname base =
      if is_empty_text base
      then some (ends_with (codes ".atlassian.net") hostname)
      else (do parts ← u.urlsplit base; some (str_eq hostname (u.lower (or_empty parts.hostname))))

  abbrev pub resolve_api_base : SplitResult → Text → Text
  resolve_api_base parts base =
      if is_empty_text base
      then u.lower parts.scheme ++ (codes "://" ++ u.lower (or_empty parts.hostname))
      else rstrip_slashes base

  abbrev pub classified : Text → Option Text → Text → Option (Text × Text × Text)
  classified source_type none base = none
  classified source_type (some id) base = some (source_type, id, base)

  -- One of the two products: a link of its own host whose path matches.
  unfoldable pub classify_as :
      Text
      → Bool
      → Text
      → (Text → Option Text)
      → SplitResult
      → Text
      → Option (Option (Text × Text × Text))
  unfolding host_matches rstrip_slashes
  classify_as source_type active base match parts hostname = if not active then some none else (do
    matches ← host_matches hostname base
    some (
        if matches
        then classified source_type (match parts.path) (resolve_api_base parts base)
        else none))

  abbrev pub first_class :
      Option (Text × Text × Text)
      → Option (Option (Text × Text × Text))
      → Option (Option (Text × Text × Text))
  first_class (some c) rest = some (some c)
  first_class none rest = rest

  abbrev pub is_web : Text → Bool
  is_web scheme = str_eq scheme (codes "http") || str_eq scheme (codes "https")

  unfoldable pub classify_parts : SplitResult → Option (Option (Text × Text × Text))
  unfolding classify_as jira_issue confluence_page
  classify_parts parts =
      let hostname = u.lower (or_empty parts.hostname) in
      if not (is_web parts.scheme) || is_empty_text hostname then some none else (do
        jira ←
            classify_as (codes "jira") settings.jira_active settings.jira_base_url jira_issue parts
              hostname
        first_class jira (
            classify_as (codes "confluence") settings.confluence_active settings.confluence_base_url
              confluence_page parts hostname))

  -- `none` is the `ValueError` of a link that `urlsplit` refuses.
  unfoldable pub classify_atlassian : Text → Option (Option (Text × Text × Text))
  unfolding classify_parts
  classify_atlassian url = do parts ← u.urlsplit (strip url); classify_parts parts

  unfoldable pub is_tracking_param : Text → Bool
  unfolding any starts_with
  is_tracking_param name =
      any
        (λ pattern.
          if ends_with (codes "*") pattern
          then starts_with (u.lower (reverse (drop_first (reverse pattern)))) (u.lower name)
          else str_eq (u.lower name) (u.lower pattern))
        settings.url_tracking_param_blocklist

  unfoldable pub without_tracking : List (Text × Text) → List (Text × Text)
  unfolding is_tracking_param
  without_tracking [] = []
  without_tracking ((key, value) ∷ pairs) =
      let rest = without_tracking pairs in
      if is_tracking_param key then rest else (key, value) ∷ rest

  -- `_DEFAULT_PORTS.get(scheme)`
  abbrev pub is_default_port : Text → ℕ → Bool
  is_default_port scheme port =
      (str_eq scheme (codes "http") && port == 80) || (str_eq scheme (codes "https") && port == 443)

  abbrev pub with_port : Text → Text → Option ℕ → Text
  with_port scheme netloc none = netloc
  with_port scheme netloc (some port) =
      if is_default_port scheme port then netloc else netloc ++ (codes ":" ++ decimal port)

  -- An IPv6 host gets its brackets back.
  abbrev pub bracketed : Text → Text
  bracketed host = if any (λ c. c == 58) host then codes "[" ++ (host ++ codes "]") else host

  unfoldable pub canonical_path : Text → Text
  unfolding rstrip_slashes
  canonical_path path =
      if is_empty_text path || str_eq path (codes "/")
      then codes "/"
      else if ends_with (codes "/") path
      then slash_if_empty (rstrip_slashes path)
      else path

  unfoldable pub canonicalize_parts : SplitResult → Option ℕ → Text
  unfolding canonical_path sort_pairs without_tracking decimal
  canonicalize_parts parts port =
      let scheme = u.lower parts.scheme in
      u.urlunsplit scheme (with_port scheme (bracketed (u.lower (or_empty parts.hostname))) port)
        (canonical_path parts.path)
        (u.urlencode (sort_pairs (without_tracking (u.parse_qsl parts.query))))

  -- `none` is the `ValueError` of `urlsplit` or of the port.
  unfoldable pub canonicalize_url : Text → Option Text
  unfolding canonicalize_parts
  canonicalize_url url = do
    parts ← u.urlsplit (strip url)
    port ← parts.port
    some (canonicalize_parts parts port)
