-- ===== src/Hashing.antt =====
-- hashing.py: the framed content-address ids of note versions and external snapshots.
-- `xxhash` and `hashlib` are parameters. Python's `encode("utf-8")` is written out: it raises on a
-- lone surrogate, and `to_bytes(8, "big")` raises on a length of 2^64 or more. Any of these errors,
-- and the `ValueError` on an unknown hash name, is `none`.
pub mod Framing
pub mod Digests
pub mod Examples
use lode.Prelude.{
  ℕ, zero, suc, ◌+◌, ◌/◌, ◌%◌, ◌^◌, Text, codes, str_eq, List, [], ◌∷◌, ◌++◌, Option, none, some,
  ltb, leb, ◌&&◌, if◌then◌else◌, length, ◌≡◌,
}

infixl 5 ◌>>=◌
abbrev pub ◌>>=◌ {ℓ κ} : {A : Type ℓ} {B : Type κ} → Option A → (A → Option B) → Option B
none >>= f = none
some a >>= f = f a

-- One code point in UTF-8.
unfoldable pub encode_char : ℕ → Option (List ℕ)
encode_char c =
    if ltb c 128
    then some (c ∷ [])
    else if ltb c 2048
    then some ((192 + c / 64) ∷ (128 + c % 64) ∷ [])
    else if leb 55296 c && leb c 57343
    then none
    else if ltb c 65536
    then some ((224 + c / 4096) ∷ (128 + c / 64 % 64) ∷ (128 + c % 64) ∷ [])
    else some
        ((240 + c / 262144) ∷ (128 + c / 4096 % 64) ∷ (128 + c / 64 % 64) ∷ (128 + c % 64) ∷ [])

-- `field.encode("utf-8")`.
unfoldable pub encode : Text → Option (List ℕ)
encode [] = some []
encode (c ∷ s) = do b ← encode_char c; r ← encode s; some (b ++ r)

-- The `k` low bytes of `n`, most significant first.
unfoldable pub big_endian : ℕ → ℕ → List ℕ
big_endian zero n = []
big_endian (suc k) n = big_endian k (n / 256) ++ (n % 256) ∷ []

abbrev pub frame_len_bytes : ℕ
frame_len_bytes = 8

-- `n.to_bytes(8, "big")`
unfoldable pub to_bytes : ℕ → Option (List ℕ)
to_bytes n = if ltb n (256 ^ frame_len_bytes) then some (big_endian frame_len_bytes n) else none

abbrev pub no_parent : Text
no_parent = []

unfoldable pub framed : Text → Option (List ℕ)
framed field = do encoded ← encode field; size ← to_bytes (length encoded); some (size ++ encoded)

-- `b"".join(_framed(field) for field in fields)`
unfoldable pub frame_fields : List Text → Option (List ℕ)
frame_fields [] = some []
frame_fields (field ∷ fields) = do b ← framed field; rest ← frame_fields fields; some (b ++ rest)

-- The two hash libraries.
pub record Hashers : Type 0 where
  pub xxh3_128_hexdigest : List ℕ → Text
  pub blake2b_128_hexdigest : List ℕ → Text

-- Both libraries return 32 hexadecimal digits: 128 bits.
pub record HexDigests (h : Hashers) : Type 0 where
  pub xxh3_128_length : (b : List ℕ) → length (h.xxh3_128_hexdigest b) ≡ 32
  pub blake2b_128_length : (b : List ℕ) → length (h.blake2b_128_hexdigest b) ≡ 32

unfoldable pub digest : Hashers → List ℕ → Text → Option Text
digest h bytes content_hash =
    if str_eq content_hash (codes "xxh3-128")
    then some (h.xxh3_128_hexdigest bytes)
    else if str_eq content_hash (codes "blake2b-128")
    then some (h.blake2b_128_hexdigest bytes)
    else none

module _ (h : Hashers) (content_hash : Text) where
  unfoldable pub content_id : List Text → Option Text
  content_id fields = do bytes ← frame_fields fields; digest h bytes content_hash

  unfoldable pub content_version_id : Text → Text → Text → Option Text
  unfolding content_id
  content_version_id note_id parent_version_id body =
      content_id (note_id ∷ parent_version_id ∷ body ∷ [])

  unfoldable pub content_snapshot_id : Text → Text → Option Text
  unfolding content_id
  content_snapshot_id external_id body = content_id (external_id ∷ body ∷ [])
