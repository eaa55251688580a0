-- ===== src/Hashing/Examples.antt =====
-- The content address of a small tuple, and the theorem on it at that tuple.
use lode.Prelude.{Text, codes, List, [], ◌∷◌, Option, none, some, ◌≡◌, ◌⊎◌, refl, str_eq}
use lode.Fixtures.{toy_hash, hashers}
use lode.Hashing.{
  encode_char, encode, big_endian, to_bytes, framed, frame_fields, digest, content_id,
}
use lode.Hashing.Framing.{Collision, content_id-injective}

abbrev fields : List Text
fields = codes "n1" ∷ codes "" ∷ codes "héllo" ∷ []

abbrev id_or_nil : Option Text → Text
id_or_nil none = []
id_or_nil (some i) = i

abbrev fields_id : Text
fields_id = id_or_nil (content_id hashers (codes "xxh3-128") fields)

fields_have : content_id hashers (codes "xxh3-128") fields ≡ some fields_id
unfolding content_id toy_hash digest frame_fields framed encode encode_char to_bytes big_endian
    str_eq
fields_have = refl

content_id-injective_example : (fields ≡ fields) ⊎ Collision hashers (codes "xxh3-128")
content_id-injective_example =
    content_id-injective hashers (codes "xxh3-128") fields fields fields_id fields_have fields_have
