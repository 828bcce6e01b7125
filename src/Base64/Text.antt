-- ===== src/Base64/Text.antt =====
-- What `Base64::Encode` writes, as a plain recursion over the bytes.
use Prim.Native.Nat.{bit_and, bit_or}
use footstone.Base.{
  ℕ, ◌+◌, ◌-◌, ◌*◌, ◌/◌, ◌%◌, ◌^◌, ◌≤◌, ◌<◌, ◌≡◌, refl, List, [], ◌∷◌, ◌++◌, append-nil, length, ok,
  arith, lt→ltb, le→ltb_false, ne→==_false, eq→==,
}
use footstone.Base64.{
  size_mod, pad, encoding_char, encode_group, encode_rest, encode_from, encode, filled,
}

abbrev pub AllBytes : List ℕ → Type 0
AllBytes [] = Unit {0}
AllBytes (x ∷ xs) = (x < 256) × AllBytes xs

-- the characters of a final group of one byte, and of two
unfoldable pub one_byte : ℕ → List ℕ
one_byte x =
    encoding_char (bit_and (x / 2 ^ 2) 0x3F)
    ∷ encoding_char (bit_and x 0x3 * 2 ^ 4)
    ∷ pad
    ∷ pad
    ∷ []

unfoldable pub two_bytes : ℕ → ℕ → List ℕ
two_bytes x y =
    encoding_char (bit_and (x / 2 ^ 2) 0x3F)
    ∷ encoding_char (bit_or (bit_and x 0x3 * 2 ^ 4) (bit_and y 0xF0 / 2 ^ 4))
    ∷ encoding_char (bit_and y 0xF * 2 ^ 2)
    ∷ pad
    ∷ []

unfoldable pub text : List ℕ → List ℕ
text (x ∷ y ∷ z ∷ bytes) = encode_group x y z ++ text bytes
text (x ∷ y ∷ []) = two_bytes x y
text (x ∷ []) = one_byte x
text [] = []

loop_bound : (len : ℕ) → 2 ≤ len → len < 2 ^ 62 → (len + size_mod - 2) % size_mod ≡ len - 2
loop_bound len two small = omega arith

last_index : (len : ℕ) → 2 ≤ len → len < 2 ^ 62 → (len + size_mod - 1) % size_mod ≡ len - 1
last_index len two small = omega arith

encode_from-text :
    (len i : ℕ) (bytes : List ℕ)
    → i + length bytes ≡ len
    → 2 ≤ len
    → len < 2 ^ 62
    → encode_from len i bytes ≡ ok (text bytes)
unfolding encode_from encode_rest text one_byte two_bytes
encode_from-text len i (x ∷ y ∷ z ∷ bytes) e two small = rw (
  loop_bound len two small,
  lt→ltb i (len - 2) (omega arith),
  encode_from-text len (i + 3) bytes (omega arith) two small,
)
encode_from-text len i (x ∷ y ∷ []) e two small = rw (
  loop_bound len two small,
  le→ltb_false i (len - 2) (omega arith),
  lt→ltb i len (omega arith),
  last_index len two small,
  ne→==_false i (len - 1) (omega arith),
)
encode_from-text len i (x ∷ []) e two small = rw (
  loop_bound len two small,
  le→ltb_false i (len - 2) (omega arith),
  lt→ltb i len (omega arith),
  last_index len two small,
  eq→== i (len - 1) (omega arith),
)
encode_from-text len i [] e two small = rw (
  loop_bound len two small,
  le→ltb_false i (len - 2) (omega arith),
  le→ltb_false i len (omega arith),
)

pub length-text : (bytes : List ℕ) → length (text bytes) ≡ 4 * ((length bytes + 2) / 3)
unfolding text one_byte two_bytes encode_group
length-text (x ∷ y ∷ z ∷ bytes) = omega (arith, length-text bytes)
length-text (x ∷ y ∷ []) = refl
length-text (x ∷ []) = refl
length-text [] = refl

-- `Encode` on two bytes and more.
pub encode-text : (bin : List ℕ) → 2 ≤ length bin → length bin < 2 ^ 62 → encode bin ≡ ok (text bin)
unfolding encode filled
encode-text bin two small =
    rw (encode_from-text (length bin) 0 bin (omega arith) two small)
      (ground (arith, length-text bin, append-nil (text bin)))
