-- ===== src/Base64.antt =====
-- src/footstone/base64.cc: `Base64::Encode` and `Base64::Decode` over bytes. `size_t` has 64 bits.
-- The output string is what the loop has written so far; `filled` adds the NUL bytes that the string
-- is created with, and faults on a write past its end.
mod Digits
mod Text
mod Output
mod Groups
pub mod RoundTrip
mod Tests
use Prim.Native.Char.{code}
use Prim.Native.String.{String}
use Prim.Native.Nat.{bit_and, bit_or}
use footstone.Base.{
  ℕ, zero, suc, ◌+◌, ◌-◌, ◌*◌, ◌/◌, ◌%◌, ◌^◌, Bool, true, false, ◌&&◌, List, [], ◌∷◌, ◌++◌, length,
  get_or, replicate, Outcome, ok, fault, out_of_range, ◌>>=◌, ltb, leb, ◌==◌, if◌then◌else◌,
}

abbrev pub codes : String → List ℕ
codes String.[] = []
codes (String.◌∷◌ c s) = code c ∷ codes s

abbrev pub size_mod : ℕ
size_mod = 2 ^ 64

abbrev pub pad : ℕ
pad = b'='

pub encoding_table : List ℕ
encoding_table = codes "ABCDEFGHIJKLMNOPQRSTUVWXYZabcdefghijklmnopqrstuvwxyz0123456789+/"

-- `kEncodingTable[i]`; every index is masked below 64.
pub encoding_char : ℕ → ℕ
encoding_char i = get_or encoding_table i 0

-- the string of `size` NUL bytes after the writes of `out`, in order from index 0
filled : ℕ → List ℕ → Outcome (List ℕ)
filled size out =
    if leb (length out) size
    then ok (out ++ replicate (size - length out) 0)
    else fault out_of_range

-- the four characters of one round of the loop
pub encode_group : ℕ → ℕ → ℕ → List ℕ
encode_group x y z =
    encoding_char (bit_and (x / 2 ^ 2) 0x3F)
    ∷ encoding_char (bit_or (bit_and x 0x3 * 2 ^ 4) (bit_and y 0xF0 / 2 ^ 4))
    ∷ encoding_char (bit_or (bit_and y 0xF * 2 ^ 2) (bit_and z 0xC0 / 2 ^ 6))
    ∷ encoding_char (bit_and z 0x3F)
    ∷ []

-- `if (i < len) …` behind the loop, with the bytes from index `i` on; the second is read only if
-- `i` is not the last index, and a list that ends too soon is a read past the array.
encode_rest : ℕ → ℕ → List ℕ → Outcome (List ℕ)
encode_rest len i bytes =
    if ltb i len
    then elim bytes [
      | [] ↦ fault out_of_range
      | x ∷ more ↦
          if i == (len + size_mod - 1) % size_mod
          then ok (
              encoding_char (bit_and (x / 2 ^ 2) 0x3F)
              ∷ encoding_char (bit_and x 0x3 * 2 ^ 4)
              ∷ pad
              ∷ pad
              ∷ [])
          else elim more [
            | [] ↦ fault out_of_range
            | y ∷ _ ↦ ok (
                encoding_char (bit_and (x / 2 ^ 2) 0x3F)
                ∷ encoding_char (bit_or (bit_and x 0x3 * 2 ^ 4) (bit_and y 0xF0 / 2 ^ 4))
                ∷ encoding_char (bit_and y 0xF * 2 ^ 2)
                ∷ pad
                ∷ [])
          ]
    ]
    else ok []

-- `for (i = 0; i < len - 2; i += 3)`, and what follows it: the list is `bin[i..]`.
pub encode_from : ℕ → ℕ → List ℕ → Outcome (List ℕ)
encode_from len i (x ∷ y ∷ z ∷ bytes) =
    let rest = encode_from len (i + 3) bytes in
    if ltb i ((len + size_mod - 2) % size_mod)
    then rest >>= (λ out. ok (encode_group x y z ++ out))
    else encode_rest len i (x ∷ y ∷ z ∷ bytes)
encode_from len i bytes =
    if ltb i ((len + size_mod - 2) % size_mod) then fault out_of_range else encode_rest len i bytes

unfoldable pub encode : List ℕ → Outcome (List ℕ)
unfolding encode_from encode_rest encode_group encoding_char encoding_table filled
encode bin =
    let len = length bin in
    encode_from len 0 bin >>= filled (4 * ((len + 2) % size_mod / 3) % size_mod)

-- `kDecodingTable`: 64 marks a character that is no digit.
pub decoding_table : List ℕ
decoding_table =
    replicate 43 64
    ++ (62 ∷ 64 ∷ 64 ∷ 64 ∷ 63 ∷ 52 ∷ 53 ∷ 54 ∷ 55 ∷ 56 ∷ 57 ∷ 58 ∷ 59 ∷ 60 ∷ 61 ∷ replicate 7 64)
    ++ (0 ∷ 1 ∷ 2 ∷ 3 ∷ 4 ∷ 5 ∷ 6 ∷ 7 ∷ 8 ∷ 9 ∷ 10 ∷ 11 ∷ 12 ∷ 13 ∷ 14 ∷ 15 ∷ 16 ∷ 17 ∷ 18 ∷ 19
        ∷ [])
    ++ (20 ∷ 21 ∷ 22 ∷ 23 ∷ 24 ∷ 25 ∷ replicate 6 64)
    ++ (26 ∷ 27 ∷ 28 ∷ 29 ∷ 30 ∷ 31 ∷ 32 ∷ 33 ∷ 34 ∷ 35 ∷ 36 ∷ 37 ∷ 38 ∷ 39 ∷ 40 ∷ 41 ∷ 42 ∷ 43
        ∷ [])
    ++ (44 ∷ 45 ∷ 46 ∷ 47 ∷ 48 ∷ 49 ∷ 50 ∷ 51 ∷ replicate 133 64)

-- `c == '=' ? 0 & i++ : kDecodingTable[static_cast<int>(c)]`. Whether `char` is signed is up to the
-- platform; where it is, a character from 128 on is a negative index.
pub decode_char : Bool → ℕ → Outcome ℕ
decode_char is_signed c =
    if c == pad
    then ok 0
    else if is_signed && leb 128 c
    then fault out_of_range
    else if ltb c 256
    then ok (get_or decoding_table c 0)
    else fault out_of_range

-- `if (j < out_len) out[j++] = b`, where `j` is the number of bytes written
put : ℕ → ℕ → List ℕ → List ℕ
put out_len b out = if ltb (length out) out_len then out ++ (b ∷ []) else out

-- `(triple >> 8 * k) & 0xFF`
pub byte_of : ℕ → ℕ → ℕ
byte_of triple k = bit_and (triple / 2 ^ (8 * k)) 0xFF

pub put_triple : ℕ → ℕ → List ℕ → List ℕ
unfolding put byte_of
put_triple out_len triple out =
    put out_len (byte_of triple 0)
      (put out_len (byte_of triple 1) (put out_len (byte_of triple 2) out))

pub decode_group : Bool → ℕ → ℕ → ℕ → ℕ → Outcome ℕ
unfolding decode_char
decode_group is_signed p q r s = do
  a ← decode_char is_signed p
  b ← decode_char is_signed q
  c ← decode_char is_signed r
  d ← decode_char is_signed s
  ok ((a * 2 ^ 18 + b * 2 ^ 12 + c * 2 ^ 6 + d) % 2 ^ 32)

-- the loop over the characters that are left
pub decode_from : Bool → ℕ → List ℕ → List ℕ → Outcome (List ℕ)
decode_from is_signed out_len out (p ∷ q ∷ r ∷ s ∷ input) =
    decode_group is_signed p q r s
    >>= (λ triple. decode_from is_signed out_len (put_triple out_len triple out) input)
decode_from is_signed out_len out [] = ok out
decode_from is_signed out_len out input = fault out_of_range

-- `input[in_len - k] == '='`, as a number to take off `out_len`
pub pad_at : List ℕ → ℕ → ℕ
pad_at input k = if get_or input (length input - k) 0 == pad then 1 else 0

-- At the empty string `input[in_len - 1]` is a read far out of range.
unfoldable pub decode : Bool → List ℕ → Outcome (List ℕ)
unfolding decode_from decode_group decoding_table put_triple pad_at filled
decode is_signed input =
    let in_len = length input in
    if (in_len % 4) == 0
    then (if in_len == 0
        then fault out_of_range
        else (let out_len = in_len / 4 * 3 - pad_at input 1 - pad_at input 2 in
            decode_from is_signed out_len [] input >>= filled out_len))
    else ok []
