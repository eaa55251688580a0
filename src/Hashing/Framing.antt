-- ===== src/Hashing/Framing.antt =====
-- The framing of fields in hashing.py, and the ids of tuples.
use native.Mathlib.Nat.{pow-suc}
use mathlib.Core.List.{append_assoc}
use lode.Prelude.{
  ℕ, zero, suc, ◌+◌, ◌-◌, ◌*◌, ◌/◌, ◌%◌, ◌^◌, ◌≤◌, ◌<◌, ◌≡◌, ◌≢◌, refl, sym, ap, ◌∙◌, Text, List,
  [], ◌∷◌, ◌++◌, Option, none, some, inl, inr, ltb, if◌then◌else◌, length, take, drop, arith,
  length-append, Bool-cases, str_eq, str_eq_iff, ◌⊎◌,
}
use lode.Hashing.{
  ◌>>=◌, encode_char, encode, big_endian, frame_len_bytes, to_bytes, framed, frame_fields, Hashers,
  digest, content_id,
}

bind-eq-some {ℓ κ} :
    {A : Type ℓ} {B : Type κ} (m : Option A) (f : A → Option B) {b : B}
    → (m >>= f) ≡ some b
    → (a : A) × (m ≡ some a) × (f a ≡ some b)
bind-eq-some none f h = cc
bind-eq-some (some a) f h = (a, refl, h)

-- Reading a big-endian number.
from_bytes : ℕ → List ℕ → ℕ
from_bytes acc [] = acc
from_bytes acc (b ∷ bs) = from_bytes (acc * 256 + b) bs

from_bytes-snoc :
    (acc b : ℕ) (bs : List ℕ) → from_bytes acc (bs ++ b ∷ []) ≡ from_bytes acc bs * 256 + b
unfolding from_bytes
from_bytes-snoc acc b [] = refl
from_bytes-snoc acc b (c ∷ bs) = from_bytes-snoc (acc * 256 + c) b bs

from_bytes-big_endian : (k n : ℕ) → n < 256 ^ k → from_bytes 0 (big_endian k n) ≡ n
unfolding big_endian from_bytes
from_bytes-big_endian zero n h = omega arith
from_bytes-big_endian (suc k) n h =
    from_bytes-snoc 0 (n % 256) (big_endian k (n / 256))
    ∙ omega (arith, from_bytes-big_endian k (n / 256) (omega (arith, pow-suc 256 k)))

length-snoc : (bs : List ℕ) (b : ℕ) → length (bs ++ b ∷ []) ≡ suc (length bs)
length-snoc [] b = refl
length-snoc (c ∷ bs) b = ap suc (length-snoc bs b)

length-big_endian : (k n : ℕ) → length (big_endian k n) ≡ k
unfolding big_endian
length-big_endian zero n = refl
length-big_endian (suc k) n =
    length-snoc (big_endian k (n / 256)) (n % 256) ∙ ap suc (length-big_endian k (n / 256))

take-append : (k : ℕ) (xs ys : List ℕ) → length xs ≡ k → take k (xs ++ ys) ≡ xs
take-append zero [] ys h = refl
take-append zero (x ∷ xs) ys h = absurd (omega arith)
take-append (suc k) [] ys h = absurd (omega arith)
take-append (suc k) (x ∷ xs) ys h = ap (λ t. x ∷ t) (take-append k xs ys (omega arith))

drop-append : (k : ℕ) (xs ys : List ℕ) → length xs ≡ k → drop k (xs ++ ys) ≡ ys
drop-append zero [] ys h = refl
drop-append zero (x ∷ xs) ys h = absurd (omega arith)
drop-append (suc k) [] ys h = absurd (omega arith)
drop-append (suc k) (x ∷ xs) ys h = drop-append k xs ys (omega arith)

-- A code point is read back from the front of its bytes.
continue : ℕ → List ℕ → ℕ × List ℕ
continue acc [] = (acc, [])
continue acc (b ∷ bs) = (acc * 64 + (b - 128), bs)

more : ℕ → ℕ × List ℕ → ℕ × List ℕ
unfolding continue
more zero (acc, bs) = (acc, bs)
more (suc k) (acc, bs) = more k (continue acc bs)

decode_char : List ℕ → ℕ × List ℕ
unfolding more
decode_char [] = (0, [])
decode_char (b ∷ bs) =
    if ltb b 128
    then (b, bs)
    else if ltb b 224
    then more 1 (b - 192, bs)
    else if ltb b 240
    then more 2 (b - 224, bs)
    else more 3 (b - 240, bs)

decode_char_one : (c : ℕ) (r : List ℕ) → c < 128 → decode_char (c ∷ r) ≡ (c, r)
unfolding decode_char
decode_char_one c r h = ground arith

decode_char_two :
    (c : ℕ) (r : List ℕ)
    → 128 ≤ c
    → c < 2048
    → decode_char ((192 + c / 64) ∷ (128 + c % 64) ∷ r) ≡ (c, r)
unfolding decode_char
decode_char_two c r h k = ground arith

decode_char_three :
    (c : ℕ) (r : List ℕ)
    → 2048 ≤ c
    → c < 65536
    → decode_char ((224 + c / 4096) ∷ (128 + c / 64 % 64) ∷ (128 + c % 64) ∷ r) ≡ (c, r)
unfolding decode_char
decode_char_three c r h k = ground arith

decode_char_four :
    (c : ℕ) (r : List ℕ)
    → 65536 ≤ c
    → decode_char
        ((240 + c / 262144) ∷ (128 + c / 4096 % 64) ∷ (128 + c / 64 % 64) ∷ (128 + c % 64) ∷ r)
      ≡ (c, r)
unfolding decode_char
decode_char_four c r h = ground arith

decode_char-encode_char :
    (c : ℕ) (b r : List ℕ) → encode_char c ≡ some b → decode_char (b ++ r) ≡ (c, r)
unfolding encode_char
decode_char-encode_char c b r h =
    ground
      (arith, decode_char_one c r, decode_char_two c r, decode_char_three c r, decode_char_four c r)

-- The parts of a text's bytes.
encode_parts :
    (c : ℕ) (s : Text) (b : List ℕ)
    → encode (c ∷ s) ≡ some b
    → (u v : List ℕ) × (encode_char c ≡ some u) × (encode s ≡ some v) × (b ≡ u ++ v)
unfolding encode
encode_parts c s b h =
    let (u, hu, k) = bind-eq-some (encode_char c) _ h in
    let (v, hv, e) = bind-eq-some (encode s) _ k in (u, v, hu, hv, cc)

encode_char-ne-nil : (c : ℕ) → encode_char c ≢ some []
unfolding encode_char
encode_char-ne-nil c h = ground arith

encode-eq-nil : (s : Text) → encode s ≡ some [] → s ≡ []
encode-eq-nil [] h = refl
encode-eq-nil (c ∷ s) h =
    let (u, v, hu, hv, e) = encode_parts c s [] h in absurd (none_left u v hu e)
  where
    none_left : (u v : List ℕ) → encode_char c ≡ some u → [] ≡ u ++ v → ⊥
    none_left [] v hu e = encode_char-ne-nil c hu
    none_left (x ∷ u) v hu e = cc e

-- UTF-8 is injective.
pub encode-injective : (s t : Text) (b : List ℕ) → encode s ≡ some b → encode t ≡ some b → s ≡ t
encode-injective [] t b h k = sym (encode-eq-nil t (k ∙ (unfold encode in sym h)))
encode-injective (c ∷ s) [] b h k = encode-eq-nil (c ∷ s) (h ∙ (unfold encode in sym k))
encode-injective (c ∷ s) (d ∷ t) b h k =
    let (u, v, hu, hv, e) = encode_parts c s b h in
    let (u', v', hu', hv', e') = encode_parts d t b k in
    let heads : (c, v) ≡ (d, v') =
      sym (decode_char-encode_char c u v hu)
      ∙ ap decode_char (sym e ∙ e')
      ∙ decode_char-encode_char d u' v' hu' in
    let tails : s ≡ t = encode-injective s t v hv (hv' ∙ cc heads) in cc (heads, tails)

-- Reading a framed field back from the front of a sequence of bytes.
unframe : List ℕ → List ℕ × List ℕ
unframe bs =
    let n = from_bytes 0 (take frame_len_bytes bs) in
    let rest = drop frame_len_bytes bs in (take n rest, drop n rest)

to_bytes_parts :
    (n : ℕ) (b : List ℕ)
    → to_bytes n ≡ some b
    → (n < 256 ^ frame_len_bytes) × (b ≡ big_endian frame_len_bytes n)
unfolding to_bytes
to_bytes_parts n b h = ground arith

framed_parts :
    (field : Text) (b : List ℕ)
    → framed field ≡ some b
    → (e : List ℕ) × (encode field ≡ some e)
      × (length e < 256 ^ frame_len_bytes)
      × (b ≡ big_endian frame_len_bytes (length e) ++ e)
unfolding framed
framed_parts field b h =
    let (e, he, k) = bind-eq-some (encode field) _ h in
    let (size, hs, q) = bind-eq-some (to_bytes (length e)) _ k in
    let (small, shape) = to_bytes_parts (length e) size hs in (e, he, small, cc)

unframe-big_endian :
    (e r : List ℕ)
    → length e < 256 ^ frame_len_bytes
    → unframe (big_endian frame_len_bytes (length e) ++ (e ++ r)) ≡ (e, r)
unfolding unframe
unframe-big_endian e r small =
    let size = big_endian frame_len_bytes (length e) in
    let long : length size ≡ frame_len_bytes = length-big_endian frame_len_bytes (length e) in
    rw (
      take-append frame_len_bytes size (e ++ r) long,
      drop-append frame_len_bytes size (e ++ r) long,
      from_bytes-big_endian frame_len_bytes (length e) small,
      take-append (length e) e r refl,
      drop-append (length e) e r refl,
    )

-- The first field's bytes, and what follows them, can be read back.
unframe-framed :
    (field : Text) (b r : List ℕ)
    → framed field ≡ some b
    → (e : List ℕ) × (encode field ≡ some e) × (unframe (b ++ r) ≡ (e, r))
unframe-framed field b r h =
    let (e, he, small, shape) = framed_parts field b h in
    let size = big_endian frame_len_bytes (length e) in
    (e, he, rw shape (rw append_assoc (unframe-big_endian e r small)))

frame_fields_parts :
    (field : Text) (fields : List Text) (b : List ℕ)
    → frame_fields (field ∷ fields) ≡ some b
    → (u v : List ℕ) × (framed field ≡ some u) × (frame_fields fields ≡ some v) × (b ≡ u ++ v)
unfolding frame_fields
frame_fields_parts field fields b h =
    let (u, hu, k) = bind-eq-some (framed field) _ h in
    let (v, hv, e) = bind-eq-some (frame_fields fields) _ k in (u, v, hu, hv, cc)

-- A framed field is never empty: its length prefix has eight bytes.
framed-ne-nil : (field : Text) (r : List ℕ) (b : List ℕ) → framed field ≡ some b → b ++ r ≢ []
framed-ne-nil field r b h none_left =
    let (e, he, small, shape) = framed_parts field b h in
    let size = big_endian frame_len_bytes (length e) in
    omega (
      arith,
      ap length (ap (λ t. t ++ r) (sym shape) ∙ none_left),
      length-append (size ++ e) r,
      length-append size e,
      length-big_endian frame_len_bytes (length e),
    )

-- Two tuples of fields whose framed bytes are the same are the same tuple, whatever the fields
-- hold and however many there are.
pub frame_fields-injective :
    (xs ys : List Text) (b : List ℕ) → frame_fields xs ≡ some b → frame_fields ys ≡ some b → xs ≡ ys
frame_fields-injective [] [] b h k = refl
frame_fields-injective [] (y ∷ ys) b h k =
    let (u, v, hu, hv, e) = frame_fields_parts y ys b k in
    absurd (framed-ne-nil y v u hu (sym e ∙ unfold frame_fields in cc h))
frame_fields-injective (x ∷ xs) [] b h k =
    let (u, v, hu, hv, e) = frame_fields_parts x xs b h in
    absurd (framed-ne-nil x v u hu (sym e ∙ unfold frame_fields in cc k))
frame_fields-injective (x ∷ xs) (y ∷ ys) b h k =
    let (u, v, hu, hv, e) = frame_fields_parts x xs b h in
    let (u', v', hu', hv', e') = frame_fields_parts y ys b k in
    let (c, hc, p) = unframe-framed x u v hu in
    let (d, hd, q) = unframe-framed y u' v' hu' in
    let same : (c, v) ≡ (d, v') = sym p ∙ ap unframe (sym e ∙ e') ∙ q in
    let heads : x ≡ y = encode-injective x y c hc (hd ∙ cc same) in
    let tails : xs ≡ ys = frame_fields-injective xs ys v hv (hv' ∙ cc same) in cc (heads, tails)

-- Two different byte sequences with one digest.
abbrev pub Collision : Hashers → Text → Type 0
Collision h content_hash =
    (a b : List ℕ) × (a ≢ b)
    × (i : Text) × (digest h a content_hash ≡ some i)
    × (digest h b content_hash ≡ some i)

Text-cases : (a b : Text) → (a ≡ b) ⊎ (a ≢ b)
Text-cases a b = elim (Bool-cases (str_eq a b)) [
  | inl same ↦ inl ((str_eq_iff a b).0 same)
  | inr other ↦ inr (λ e. cc (other, (str_eq_iff a b).1 e))
]

-- Two tuples of fields get one id only if they are the same tuple, or if the hash itself collides:
-- the encoding adds no aliasing of its own, within one kind of id or between the two kinds.
pub content_id-injective :
    (h : Hashers) (content_hash : Text) (xs ys : List Text) (i : Text)
    → content_id h content_hash xs ≡ some i
    → content_id h content_hash ys ≡ some i
    → (xs ≡ ys) ⊎ Collision h content_hash
unfolding content_id
content_id-injective h content_hash xs ys i p q =
    let (a, ha, da) = bind-eq-some (frame_fields xs) _ p in
    let (b, hb, db) = bind-eq-some (frame_fields ys) _ q in
    elim (Text-cases a b) [
      | inl same ↦ inl (frame_fields-injective xs ys a ha (hb ∙ cc same))
      | inr other ↦ inr (a, b, other, i, da, db)
    ]
