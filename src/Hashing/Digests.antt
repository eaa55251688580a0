-- ===== src/Hashing/Digests.antt =====
-- The length of the ids that hashing.py returns.
use lode.Prelude.{Text, List, [], ◌∷◌, Option, none, some, ◌≡◌, ℕ, length, arith}
use lode.Hashing.{◌>>=◌, frame_fields, Hashers, HexDigests, digest, content_version_id}

length-digest :
    (h : Hashers) (c : Text) (b : List ℕ) (i : Text)
    → HexDigests h
    → digest h b c ≡ some i
    → length i ≡ 32
unfolding digest
length-digest h c b i hex e = ground (arith, hex.xxh3_128_length b, hex.blake2b_128_length b)

length-hashed :
    (h : Hashers) (c : Text) (m : Option (List ℕ)) (i : Text)
    → HexDigests h
    → (m >>= λ b. digest h b c) ≡ some i
    → length i ≡ 32
length-hashed h c none i hex e = absurd (cc e)
length-hashed h c (some b) i hex e = length-digest h c b i hex e

-- Where each hash gives 32 characters, every version id that can be computed has 32 characters.
pub length-content_version_id :
    (h : Hashers) (c note_id parent body i : Text)
    → HexDigests h
    → content_version_id h c note_id parent body ≡ some i
    → length i ≡ 32
unfolding content_version_id
length-content_version_id h c note_id parent body i hex e =
    length-hashed h c (frame_fields (note_id ∷ parent ∷ body ∷ [])) i hex e
