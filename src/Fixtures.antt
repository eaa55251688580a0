-- ===== src/Fixtures.antt =====
-- Test data: a small hash with 32 digits in the place of the two hash libraries.
use lode.Prelude.{
  ℕ, zero, suc, ◌+◌, ◌*◌, ◌/◌, ◌%◌, Text, codes, List, [], ◌∷◌, ◌≡◌, refl, ap, length, false,
}
use lode.Hashing.{Hashers, HexDigests}
use lode.Versions.{Settings}

mix : ℕ → List ℕ → ℕ
mix acc [] = acc
mix acc (b ∷ bs) = mix ((acc * 257 + b + 1) % 340282366920938463463374607431768211297) bs

hex_digits : ℕ → ℕ → Text
hex_digits zero n = []
hex_digits (suc k) n = (48 + n % 16) ∷ hex_digits k (n / 16)

length-hex_digits : (k n : ℕ) → length (hex_digits k n) ≡ k
unfolding hex_digits
length-hex_digits zero n = refl
length-hex_digits (suc k) n = ap suc (length-hex_digits k (n / 16))

unfoldable pub toy_hash : List ℕ → Text
unfolding mix hex_digits
toy_hash bytes = hex_digits 32 (mix 7 bytes)

abbrev pub hashers : Hashers
hashers = record { xxh3_128_hexdigest = toy_hash; blake2b_128_hexdigest = toy_hash }

pub hashers-HexDigests : HexDigests hashers
unfolding toy_hash
hashers-HexDigests = record {
  xxh3_128_length = λ b. length-hex_digits 32 (mix 7 b);
  blake2b_128_length = λ b. length-hex_digits 32 (mix 7 b);
}

abbrev pub settings : Settings
settings = record { content_hash = codes "xxh3-128"; no_egress_default = false }
