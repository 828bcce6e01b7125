-- ===== src/Base64/Output.antt =====
-- What `Base64::Decode` writes for one triple.
use footstone.Base.{
  ℕ, ◌+◌, ◌*◌, ◌≤◌, ◌<◌, ◌≡◌, ◌∙◌, List, [], ◌∷◌, ◌++◌, append_assoc, length, length-append, arith,
  lt→ltb, le→ltb_false,
}
use footstone.Base64.{put_triple, put, byte_of}
use footstone.Base64.Digits.{bytes_of}

put-room : (n b : ℕ) (out : List ℕ) → length out < n → put n b out ≡ out ++ (b ∷ [])
unfolding put
put-room n b out h = rw (lt→ltb (length out) n h)

put-full : (n b : ℕ) (out : List ℕ) → n ≤ length out → put n b out ≡ out
unfolding put
put-full n b out h = rw (le→ltb_false (length out) n h)

module _ (n x y z : ℕ) (out : List ℕ) (hx : x < 256) (hy : y < 256) (hz : z < 256) where
  put_first : length out < n → put n (byte_of (x * 65536 + y * 256 + z) 2) out ≡ out ++ (x ∷ [])
  put_first h = rw ((bytes_of x y z hx hy hz).0) (put-room n x out h)

  put_second :
      length out + 1 < n
      → put n (byte_of (x * 65536 + y * 256 + z) 1) (out ++ (x ∷ [])) ≡ out ++ (x ∷ y ∷ [])
  put_second h = rw ((bytes_of x y z hx hy hz).1) (
      put-room n y (out ++ (x ∷ [])) (omega (arith, length-append out (x ∷ [])))
      ∙ append_assoc out (x ∷ []) (y ∷ []))

  put_third :
      length out + 2 < n
      → put n (byte_of (x * 65536 + y * 256 + z) 0) (out ++ (x ∷ y ∷ [])) ≡ out ++ (x ∷ y ∷ z ∷ [])
  put_third h = rw ((bytes_of x y z hx hy hz).2) (
      put-room n z (out ++ (x ∷ y ∷ [])) (omega (arith, length-append out (x ∷ y ∷ [])))
      ∙ append_assoc out (x ∷ y ∷ []) (z ∷ []))

  -- The bytes of a triple go behind what is there, as far as the output has room.
  pub put_triple_three :
      length out + 2 < n → put_triple n (x * 65536 + y * 256 + z) out ≡ out ++ (x ∷ y ∷ z ∷ [])
  unfolding put_triple
  put_triple_three h = rw (put_first (omega arith), put_second (omega arith), put_third h)

  pub put_triple_two :
      length out + 2 ≡ n → put_triple n (x * 65536 + y * 256 + z) out ≡ out ++ (x ∷ y ∷ [])
  unfolding put_triple
  put_triple_two h =
      rw (put_first (omega arith), put_second (omega arith))
        (put-full n _ (out ++ (x ∷ y ∷ [])) (omega (arith, length-append out (x ∷ y ∷ []))))

  pub put_triple_one :
      length out + 1 ≡ n → put_triple n (x * 65536 + y * 256 + z) out ≡ out ++ (x ∷ [])
  unfolding put_triple
  put_triple_one h =
      let full : n ≤ length (out ++ (x ∷ [])) = omega (arith, length-append out (x ∷ [])) in
      rw (put_first (omega arith), put-full n (byte_of (x * 65536 + y * 256 + z) 1) _ full)
        (put-full n _ (out ++ (x ∷ [])) full)
