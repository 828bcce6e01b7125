-- ===== src/Base64/RoundTrip.antt =====
-- Decoding what `Base64::Encode` writes, and the length of the encoding.
use footstone.Base.{
  ℕ, suc, ◌+◌, ◌-◌, ◌*◌, ◌/◌, ◌%◌, ◌^◌, ◌≤◌, ◌<◌, ◌≡◌, refl, ap, ◌∙◌, Bool, List, [], ◌∷◌, ◌++◌,
  append-nil, append_assoc, length, length-append, ok, fault, out_of_range, ◌>>=◌, arith,
  ne→==_false, eq→==, le→leb,
}
use footstone.Base.Bits.{bit_and_four_bits, bit_and_six_bits}
use footstone.Base64.{
  pad, encoding_char, encode_group, encode_from, encode, filled, decode_group, put_triple,
  decode_from, pad_at, decode,
}
use footstone.Base64.Digits.{encoding_char-ne-pad, third_index}
use footstone.Base64.Text.{AllBytes, text, one_byte, two_bytes, length-text, encode-text}
use footstone.Base64.Output.{put_triple_three, put_triple_two, put_triple_one}
use footstone.Base64.Groups.{group_triple, group_two, group_one}

decode_from-step :
    (s : Bool) (n p q r t v : ℕ) (out input : List ℕ)
    → decode_group s p q r t ≡ ok v
    → decode_from s n out (p ∷ q ∷ r ∷ t ∷ input) ≡ decode_from s n (put_triple n v out) input
unfolding decode_from
decode_from-step s n p q r t v out input e = rw e

decode_from-text :
    (s : Bool) (n : ℕ) (out bytes : List ℕ)
    → AllBytes bytes
    → n ≡ length out + length bytes
    → decode_from s n out (text bytes) ≡ ok (out ++ bytes)
unfolding decode_from text one_byte two_bytes encode_group
decode_from-text s n out (x ∷ y ∷ z ∷ bytes) (hx, (hy, (hz, h))) e =
    decode_from-step s n _ _ _ _ _ out (text bytes) (group_triple s x y z hx hy hz)
    ∙ rw (put_triple_three n x y z out hx hy hz (omega arith)) (
        decode_from-text s n (out ++ (x ∷ y ∷ z ∷ [])) bytes h
          (omega (arith, length-append out (x ∷ y ∷ z ∷ [])))
        ∙ ap ok (append_assoc out (x ∷ y ∷ z ∷ []) bytes))
decode_from-text s n out (x ∷ y ∷ []) (hx, (hy, h)) e =
    decode_from-step s n _ _ _ _ _ out [] (group_two s x y hx hy)
    ∙ ap ok (put_triple_two n x y 0 out hx hy (omega arith) (omega arith))
decode_from-text s n out (x ∷ []) (hx, h) e =
    decode_from-step s n _ _ _ _ _ out [] (group_one s x hx)
    ∙ ap ok (put_triple_one n x 0 0 out hx (omega arith) (omega arith) (omega arith))
decode_from-text s n out [] h e = rw (append-nil out)

-- A group in front does not change how the text ends.
pad_at-group :
    (p q r t : ℕ) (input : List ℕ) (k : ℕ)
    → k ≤ length input
    → pad_at (p ∷ q ∷ r ∷ t ∷ input) k ≡ pad_at input k
unfolding pad_at
pad_at-group p q r t input k h =
    let e : length (p ∷ q ∷ r ∷ t ∷ input) - k ≡ suc (suc (suc (suc (length input - k)))) =
      omega arith in
    rw e refl

module _ (p q : ℕ) where
  pads_none :
      (c d : ℕ)
      → c < 64
      → d < 64
      → let t = p ∷ q ∷ encoding_char c ∷ encoding_char d ∷ [] in
        (pad_at t 1 ≡ 0) × (pad_at t 2 ≡ 0)
  unfolding pad_at
  pads_none c d hc hd = (
    rw (ne→==_false (encoding_char d) pad (encoding_char-ne-pad d hd)),
    rw (ne→==_false (encoding_char c) pad (encoding_char-ne-pad c hc)),
  )

  pads_one :
      (c : ℕ)
      → c < 64
      → let t = p ∷ q ∷ encoding_char c ∷ pad ∷ [] in (pad_at t 1 ≡ 1) × (pad_at t 2 ≡ 0)
  unfolding pad_at
  pads_one c hc = (refl, rw (ne→==_false (encoding_char c) pad (encoding_char-ne-pad c hc)))

  pads_two : let t = p ∷ q ∷ pad ∷ pad ∷ [] in (pad_at t 1 ≡ 1) × (pad_at t 2 ≡ 1)
  unfolding pad_at
  pads_two = (refl, refl)

-- The `=` at the end make up for the bytes that the last group lacks.
pads-text :
    (bytes : List ℕ)
    → AllBytes bytes
    → 1 ≤ length bytes
    → length (text bytes) / 4 * 3 - pad_at (text bytes) 1 - pad_at (text bytes) 2 ≡ length bytes
unfolding text one_byte two_bytes encode_group
pads-text (x ∷ y ∷ z ∷ w ∷ bytes) (hx, (hy, (hz, h))) pos = omega (
  arith,
  pads-text (w ∷ bytes) h (omega arith),
  length-text (w ∷ bytes),
  pad_at-group _ _ _ _ (text (w ∷ bytes)) 1 (omega (arith, length-text (w ∷ bytes))),
  pad_at-group _ _ _ _ (text (w ∷ bytes)) 2 (omega (arith, length-text (w ∷ bytes))),
)
pads-text (x ∷ y ∷ z ∷ []) (hx, (hy, (hz, h))) pos =
    rw (third_index y z hz, bit_and_six_bits z)
      (omega (arith, pads_none _ _ (y % 16 * 4 + z / 64) (z % 64) (omega arith) (omega arith)))
pads-text (x ∷ y ∷ []) (hx, (hy, h)) pos =
    rw (bit_and_four_bits y) (omega (arith, pads_one _ _ (y % 16 * 4) (omega arith)))
pads-text (x ∷ []) (hx, h) pos = omega (arith, pads_two _ _)
pads-text [] h pos = absurd (omega arith)

filled_exact : (n : ℕ) (out : List ℕ) → n ≡ length out → filled n out ≡ ok out
unfolding filled
filled_exact n out e = rw (le→leb (length out) n (omega arith), zero_left) (ap ok (append-nil out))
  where
    zero_left : n - length out ≡ 0
    zero_left = omega arith

-- `Decode` undoes `Encode` on every array of two bytes and more, whether `char` is signed or not.
-- The bound on the length keeps the size of the encoding within `size_t`.
pub decode-encode :
    (is_signed : Bool) (bin : List ℕ)
    → AllBytes bin
    → 2 ≤ length bin
    → length bin < 2 ^ 62
    → (encode bin >>= decode is_signed) ≡ ok bin
unfolding decode
decode-encode is_signed bin bytes two small =
    rw
      (
        encode-text bin two small,
        eq→== (length (text bin) % 4) 0 (omega (arith, length-text bin)),
        ne→==_false (length (text bin)) 0 (omega (arith, length-text bin)),
        pads-text bin bytes (omega arith),
        decode_from-text is_signed (length bin) [] bin bytes (omega arith),
      )
      (filled_exact (length bin) bin refl)

-- `Encode` reads past the array exactly when it has fewer than two bytes: there `len - 2` wraps.
-- Otherwise it writes four characters for each group of three bytes begun.
encode_outcomes :
    (bin : List ℕ)
    → length bin < 2 ^ 62
    → (length bin < 2 → encode bin ≡ fault out_of_range)
      × (2 ≤ length bin
          → (out : List ℕ) × (encode bin ≡ ok out) × (length out ≡ 4 * ((length bin + 2) / 3)))
unfolding encode encode_from
encode_outcomes bin small =
    (short bin, λ two. (text bin, encode-text bin two small, length-text bin))
  where
    short : (bin : List ℕ) → length bin < 2 → encode bin ≡ fault out_of_range
    short [] h = refl
    short (x ∷ []) h = refl
    short (x ∷ y ∷ bin) h = absurd (omega arith)
