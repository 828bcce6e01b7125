-- ===== src/Base64/Digits.antt =====
-- The two tables of base64.cc against one another, and what the masks and shifts of one round
-- compute on bytes.
use Prim.Native.Nat.{bit_and, bit_or}
use footstone.Base.{
  ℕ, ◌+◌, ◌*◌, ◌/◌, ◌%◌, ◌^◌, ◌<◌, ◌≡◌, ◌≢◌, refl, Bool, true, false, not, ◌&&◌, get_or, ok, arith,
  ltb, ◌==◌, ==_iff,
}
use footstone.Base.Bits.{
  every_below, every_below_sound, bit_and_two_bits, bit_and_four_bits, bit_and_six_bits,
  bit_and_eight_bits,
}
use footstone.Base64.{encoding_table, encoding_char, decoding_table, decode_char, byte_of, pad}

is_digit : ℕ → Bool
is_digit c = not (c == pad) && ltb c 128

digit_table :
    every_below 64
      (λ i. is_digit (encoding_char i) && (get_or decoding_table (encoding_char i) 0 == i))
    ≡ true
unfolding every_below encoding_char encoding_table decoding_table is_digit
digit_table = refl

digit_facts :
    (i : ℕ)
    → i < 64
    → (is_digit (encoding_char i) ≡ true) × (get_or decoding_table (encoding_char i) 0 ≡ i)
digit_facts i h = split (is_digit (encoding_char i)) (every_below_sound 64 _ i digit_table h)
  where
    split :
        (b : Bool)
        → (b && (get_or decoding_table (encoding_char i) 0 == i)) ≡ true
        → (b ≡ true) × (get_or decoding_table (encoding_char i) 0 ≡ i)
    split true e = (refl, (==_iff _ i).0 e)
    split false e = absurd (cc)

decode_char_digit :
    (s : Bool) (c : ℕ) → is_digit c ≡ true → decode_char s c ≡ ok (get_or decoding_table c 0)
unfolding decode_char is_digit
decode_char_digit s c h = ground arith

module _ (i : ℕ) (small : i < 64) where
  pub encoding_char-ne-pad : encoding_char i ≢ pad
  unfolding is_digit
  encoding_char-ne-pad = ground (arith, digit_facts i small)

  -- Each digit is decoded to its value, signed `char` or not.
  pub decode_char-encoding_char : (s : Bool) → decode_char s (encoding_char i) ≡ ok i
  decode_char-encoding_char s =
      let (digit, value) = digit_facts i small in
      rw (decode_char_digit s (encoding_char i) digit, value)

or_table : every_below 64 (λ n. bit_or (n / 16 * 16) (n % 16) == n) ≡ true
unfolding every_below
or_table = refl

or_table_four : every_below 64 (λ n. bit_or (n / 4 * 4) (n % 4) == n) ≡ true
unfolding every_below
or_table_four = refl

high_nibble_table : every_below 256 (λ y. (bit_and y 0xF0 / 16) == (y / 16)) ≡ true
unfolding every_below
high_nibble_table = refl

high_pair_table : every_below 256 (λ z. (bit_and z 0xC0 / 64) == (z / 64)) ≡ true
unfolding every_below
high_pair_table = refl

high_nibble : (y : ℕ) → y < 256 → bit_and y 0xF0 / 16 ≡ y / 16
high_nibble y h = (==_iff _ _).0 (every_below_sound 256 _ y high_nibble_table h)

high_pair : (z : ℕ) → z < 256 → bit_and z 0xC0 / 64 ≡ z / 64
high_pair z h = (==_iff _ _).0 (every_below_sound 256 _ z high_pair_table h)

or_disjoint : (a b : ℕ) → a < 4 → b < 16 → bit_or (a * 16) b ≡ a * 16 + b
or_disjoint a b ha hb =
    let e : bit_or ((a * 16 + b) / 16 * 16) ((a * 16 + b) % 16) ≡ a * 16 + b =
      (==_iff _ _).0 (every_below_sound 64 _ (a * 16 + b) or_table (omega arith)) in
    let p : (a * 16 + b) / 16 * 16 ≡ a * 16 = omega arith in
    let q : (a * 16 + b) % 16 ≡ b = omega arith in rw (p, q) at e

or_disjoint_four : (a b : ℕ) → a < 16 → b < 4 → bit_or (a * 4) b ≡ a * 4 + b
or_disjoint_four a b ha hb =
    let e : bit_or ((a * 4 + b) / 4 * 4) ((a * 4 + b) % 4) ≡ a * 4 + b =
      (==_iff _ _).0 (every_below_sound 64 _ (a * 4 + b) or_table_four (omega arith)) in
    let p : (a * 4 + b) / 4 * 4 ≡ a * 4 = omega arith in
    let q : (a * 4 + b) % 4 ≡ b = omega arith in rw (p, q) at e

-- The indices of the four characters, for bytes.
pub first_index : (x : ℕ) → x < 256 → bit_and (x / 2 ^ 2) 0x3F ≡ x / 4
first_index x h = omega (arith, bit_and_six_bits (x / 4))

pub second_index :
    (x y : ℕ)
    → y < 256
    → bit_or (bit_and x 0x3 * 2 ^ 4) (bit_and y 0xF0 / 2 ^ 4) ≡ x % 4 * 16 + y / 16
second_index x y h =
    rw (bit_and_two_bits x, high_nibble y h)
      (or_disjoint (x % 4) (y / 16) (omega arith) (omega arith))

pub third_index :
    (y z : ℕ)
    → z < 256
    → bit_or (bit_and y 0xF * 2 ^ 2) (bit_and z 0xC0 / 2 ^ 6) ≡ y % 16 * 4 + z / 64
third_index y z h =
    rw (bit_and_four_bits y, high_pair z h)
      (or_disjoint_four (y % 16) (z / 64) (omega arith) (omega arith))

-- The bytes of a triple.
pub bytes_of :
    (x y z : ℕ)
    → x < 256
    → y < 256
    → z < 256
    → let t = x * 65536 + y * 256 + z in (byte_of t 2 ≡ x) × (byte_of t 1 ≡ y) × (byte_of t 0 ≡ z)
unfolding byte_of
bytes_of x y z hx hy hz = (
  omega (arith, bit_and_eight_bits ((x * 65536 + y * 256 + z) / 2 ^ 16)),
  omega (arith, bit_and_eight_bits ((x * 65536 + y * 256 + z) / 2 ^ 8)),
  omega (arith, bit_and_eight_bits ((x * 65536 + y * 256 + z) / 2 ^ 0)),
)
