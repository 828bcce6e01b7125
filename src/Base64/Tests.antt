-- ===== src/Base64/Tests.antt =====
-- Runs of base64.cc on small inputs, and instances of its theorems.
use footstone.Base.{ℕ, ◌>>=◌, true, List, [], ◌∷◌, ◌≡◌, refl, ok, fault, out_of_range, arith}
use footstone.Base64.{codes, encode, decode}
use footstone.Base64.RoundTrip.{decode-encode}

encode_man : encode (codes "Man") ≡ ok (codes "TWFu")
unfolding encode
encode_man = refl

encode_many : encode (codes "light work.") ≡ ok (codes "bGlnaHQgd29yay4=")
unfolding encode
encode_many = refl

encode_one : encode (77 ∷ []) ≡ fault out_of_range
unfolding encode
encode_one = refl

decode_man : decode true (codes "bGlnaHQgd29yay4=") ≡ ok (codes "light work.")
unfolding decode
decode_man = refl

decode_bad_length : decode true (codes "bGl") ≡ ok []
unfolding decode
decode_bad_length = refl

abbrev three : List ℕ
three = 0 ∷ 255 ∷ 17 ∷ 200 ∷ []

decode-encode_example : (encode three >>= decode true) ≡ ok three
decode-encode_example = decode-encode true three (omega arith) (omega arith) (omega arith)
