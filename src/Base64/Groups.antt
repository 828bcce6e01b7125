-- ===== src/Base64/Groups.antt =====
-- What four characters of the encoding stand for.
use Prim.Native.Nat.{bit_and, bit_or}
use footstone.Base.{ℕ, ◌+◌, ◌*◌, ◌/◌, ◌%◌, ◌^◌, ◌<◌, ◌≡◌, ap, ◌∙◌, Bool, ok, arith}
use footstone.Base.Bits.{bit_and_two_bits, bit_and_four_bits, bit_and_six_bits}
use footstone.Base64.{pad, encoding_char, decode_group}
use footstone.Base64.Digits.{decode_char-encoding_char, first_index, second_index, third_index}

module _ (s : Bool) where
  -- Four digits make one number of 24 bits.
  decode_group-digits :
      (a b c d : ℕ)
      → a < 64
      → b < 64
      → c < 64
      → d < 64
      → decode_group s (encoding_char a) (encoding_char b) (encoding_char c) (encoding_char d)
        ≡ ok (a * 2 ^ 18 + b * 2 ^ 12 + c * 2 ^ 6 + d)
  unfolding decode_group
  decode_group-digits a b c d ha hb hc hd =
      rw
        (
          decode_char-encoding_char a ha s,
          decode_char-encoding_char b hb s,
          decode_char-encoding_char c hc s,
          decode_char-encoding_char d hd s,
        )
        (ap ok (omega arith))

  decode_group-three :
      (a b c : ℕ)
      → a < 64
      → b < 64
      → c < 64
      → decode_group s (encoding_char a) (encoding_char b) (encoding_char c) pad
        ≡ ok (a * 2 ^ 18 + b * 2 ^ 12 + c * 2 ^ 6)
  unfolding decode_group
  decode_group-three a b c ha hb hc =
      rw
        (
          decode_char-encoding_char a ha s,
          decode_char-encoding_char b hb s,
          decode_char-encoding_char c hc s,
        )
        (ap ok (omega arith))

  decode_group-two :
      (a b : ℕ)
      → a < 64
      → b < 64
      → decode_group s (encoding_char a) (encoding_char b) pad pad ≡ ok (a * 2 ^ 18 + b * 2 ^ 12)
  unfolding decode_group
  decode_group-two a b ha hb =
      rw (decode_char-encoding_char a ha s, decode_char-encoding_char b hb s) (ap ok (omega arith))

module _ (s : Bool) (x y z : ℕ) (hx : x < 256) (hy : y < 256) (hz : z < 256) where
  -- What the characters of a whole group, of two bytes and of one byte stand for.
  pub group_triple :
      decode_group s
        (encoding_char (bit_and (x / 2 ^ 2) 0x3F))
        (encoding_char (bit_or (bit_and x 0x3 * 2 ^ 4) (bit_and y 0xF0 / 2 ^ 4)))
        (encoding_char (bit_or (bit_and y 0xF * 2 ^ 2) (bit_and z 0xC0 / 2 ^ 6)))
        (encoding_char (bit_and z 0x3F))
      ≡ ok (x * 65536 + y * 256 + z)
  group_triple =
      rw (first_index x hx, second_index x y hy, third_index y z hz, bit_and_six_bits z)
        (decode_group-digits s (x / 4) (x % 4 * 16 + y / 16) (y % 16 * 4 + z / 64) (z % 64)
            (omega arith) (omega arith) (omega arith) (omega arith)
          ∙ ap ok (omega arith))

module _ (s : Bool) (x y : ℕ) (hx : x < 256) (hy : y < 256) where
  pub group_two :
      decode_group s
        (encoding_char (bit_and (x / 2 ^ 2) 0x3F))
        (encoding_char (bit_or (bit_and x 0x3 * 2 ^ 4) (bit_and y 0xF0 / 2 ^ 4)))
        (encoding_char (bit_and y 0xF * 2 ^ 2))
        pad
      ≡ ok (x * 65536 + y * 256 + 0)
  group_two =
      rw (first_index x hx, second_index x y hy, bit_and_four_bits y)
        (decode_group-three s (x / 4) (x % 4 * 16 + y / 16) (y % 16 * 4) (omega arith) (omega arith)
            (omega arith)
          ∙ ap ok (omega arith))

pub group_one :
    (s : Bool) (x : ℕ)
    → x < 256
    → decode_group s
        (encoding_char (bit_and (x / 2 ^ 2) 0x3F))
        (encoding_char (bit_and x 0x3 * 2 ^ 4))
        pad
        pad
      ≡ ok (x * 65536 + 0 * 256 + 0)
group_one s x hx =
    rw (first_index x hx, bit_and_two_bits x)
      (decode_group-two s (x / 4) (x % 4 * 16) (omega arith) (omega arith) ∙ ap ok (omega arith))
