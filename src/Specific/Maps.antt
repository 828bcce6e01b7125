-- ===== src/Specific/Maps.antt =====
-- The laws of `std::map`, as the thread-specific values use it: ascending keys, each of them once.
use footstone.Base.{ℕ, ◌<◌, ◌≡◌, ◌≢◌, refl, sym, List, [], ◌∷◌, none, some, arith}
use footstone.Specific.{find, erase, insert_or_assign}

module _ {ℓ} {A : Type ℓ} where
  abbrev pub Above : ℕ → List (ℕ × A) → Type 0
  Above b [] = Unit {0}
  Above b ((k, _) ∷ m) = (b < k) × Above b m

  abbrev pub IsMap : List (ℕ × A) → Type 0
  IsMap [] = Unit {0}
  IsMap ((k, _) ∷ m) = Above k m × IsMap m

module _ {ℓ} {A : Type ℓ} where
  Above-lower : (a b : ℕ) (m : List (ℕ × A)) → a < b → Above b m → Above a m
  Above-lower a b [] h above = tt
  Above-lower a b ((k, _) ∷ m) h (l, above) = (omega arith, Above-lower a b m h above)

  Above-same : (a b : ℕ) (m : List (ℕ × A)) → a ≡ b → Above a m → Above b m
  Above-same a b m e above = rw (sym e) above

  Above-find : (id : ℕ) (m : List (ℕ × A)) → Above id m → find id m ≡ none
  unfolding find
  Above-find id [] above = refl
  Above-find id ((k, v) ∷ m) (l, above) = ground (arith, Above-find id m above)

  pub find-insert_same :
      (id : ℕ) (a : A) (m : List (ℕ × A)) → find id (insert_or_assign id a m) ≡ some a
  unfolding find insert_or_assign
  find-insert_same id a [] = ground arith
  find-insert_same id a ((k, v) ∷ m) = ground (arith, find-insert_same id a m)

  pub find-insert_ne :
      (id : ℕ) (a : A) (m : List (ℕ × A)) (j : ℕ)
      → j ≢ id
      → find j (insert_or_assign id a m) ≡ find j m
  unfolding find insert_or_assign
  find-insert_ne id a [] j ne = ground arith
  find-insert_ne id a ((k, v) ∷ m) j ne = ground (arith, find-insert_ne id a m j ne)

  pub find-erase_ne : (id : ℕ) (m : List (ℕ × A)) (j : ℕ) → j ≢ id → find j (erase id m) ≡ find j m
  unfolding find erase
  find-erase_ne id [] j ne = refl
  find-erase_ne id ((k, v) ∷ m) j ne = ground (arith, find-erase_ne id m j ne)

  pub find-erase_same : (id : ℕ) (m : List (ℕ × A)) → IsMap m → find id (erase id m) ≡ none
  unfolding find erase
  find-erase_same id [] s = refl
  find-erase_same id ((k, v) ∷ m) (above, s) =
      ground (arith, find-erase_same id m s, Above-find k m above)

  Above-erase : (b id : ℕ) (m : List (ℕ × A)) → Above b m → Above b (erase id m)
  unfolding erase
  Above-erase b id [] above = tt
  Above-erase b id ((k, v) ∷ m) (l, above) = ground (arith, Above-erase b id m above)

  Above-insert :
      (b id : ℕ) (a : A) (m : List (ℕ × A)) → b < id → Above b m → Above b (insert_or_assign id a m)
  unfolding insert_or_assign
  Above-insert b id a [] h above = (h, tt)
  Above-insert b id a ((k, v) ∷ m) h (l, above) = ground (arith, Above-insert b id a m h above)

  pub erase-IsMap : (id : ℕ) (m : List (ℕ × A)) → IsMap m → IsMap (erase id m)
  unfolding erase
  erase-IsMap id [] s = tt
  erase-IsMap id ((k, v) ∷ m) (above, s) =
      ground (arith, erase-IsMap id m s, Above-erase k id m above)

  pub insert-IsMap : (id : ℕ) (a : A) (m : List (ℕ × A)) → IsMap m → IsMap (insert_or_assign id a m)
  unfolding insert_or_assign
  insert-IsMap id a [] s = (tt, tt)
  insert-IsMap id a ((k, v) ∷ m) (above, s) = ground (
    arith,
    insert-IsMap id a m s,
    λ (l : k < id). Above-insert k id a m l above,
    λ (l : id < k). Above-lower id k m l above,
    λ (e : k ≡ id). Above-same k id m e above,
  )
