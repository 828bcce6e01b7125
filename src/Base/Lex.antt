-- ===== src/Base/Lex.antt =====
-- Strings of code units: equality, and the lexicographic order of `std::basic_string`.
use footstone.Base.{
  ℕ, ◌≡◌, refl, ◌↔◌, ap, ◌∙◌, Bool, true, false, not, ◌&&◌, ◌||◌, List, [], ◌∷◌, arith, ltb, ◌==◌,
}

infix 50 ◌=ˢ◌ ◌<ˢ◌
unfoldable pub ◌=ˢ◌ : List ℕ → List ℕ → Bool
[] =ˢ [] = true
[] =ˢ (y ∷ t) = false
(x ∷ s) =ˢ [] = false
(x ∷ s) =ˢ (y ∷ t) = (x == y) && (s =ˢ t)

unfoldable pub ◌<ˢ◌ : List ℕ → List ℕ → Bool
[] <ˢ [] = false
[] <ˢ (y ∷ t) = true
(x ∷ s) <ˢ [] = false
(x ∷ s) <ˢ (y ∷ t) = ltb x y || ((x == y) && (s <ˢ t))

pub =ˢ_iff : (s t : List ℕ) → ((s =ˢ t) ≡ true) ↔ (s ≡ t)
unfolding ◌=ˢ◌
=ˢ_iff [] [] = (λ _. refl, λ _. refl)
=ˢ_iff [] (y ∷ t) = (λ e. cc, λ e. cc)
=ˢ_iff (x ∷ s) [] = (λ e. cc, λ e. cc)
=ˢ_iff (x ∷ s) (y ∷ t) = (λ e. ground (arith, =ˢ_iff s t), λ e. ground (arith, =ˢ_iff s t))

-- Of two strings exactly one of "less", "equal" and "greater" holds.
pub <ˢ_total : (s t : List ℕ) → not (t <ˢ s) ≡ ((s <ˢ t) || (s =ˢ t))
unfolding ◌=ˢ◌ ◌<ˢ◌
<ˢ_total [] [] = refl
<ˢ_total [] (y ∷ t) = refl
<ˢ_total (x ∷ s) [] = refl
<ˢ_total (x ∷ s) (y ∷ t) = ground (arith, <ˢ_total s t)

<ˢ_irrefl : (s : List ℕ) → (s <ˢ s) ≡ false
unfolding ◌<ˢ◌
<ˢ_irrefl [] = refl
<ˢ_irrefl (x ∷ s) = ground (arith, <ˢ_irrefl s)

pub <ˢ_asymm : (s t : List ℕ) → (s <ˢ t) ≡ true → (t <ˢ s) ≡ false
unfolding ◌<ˢ◌
<ˢ_asymm [] [] h = refl
<ˢ_asymm [] (y ∷ t) h = refl
<ˢ_asymm (x ∷ s) [] h = cc
<ˢ_asymm (x ∷ s) (y ∷ t) h = ground (arith, <ˢ_asymm s t)

pub <ˢ_trans : (s t u : List ℕ) → (s <ˢ t) ≡ true → (t <ˢ u) ≡ true → (s <ˢ u) ≡ true
unfolding ◌<ˢ◌
<ˢ_trans [] [] u h k = cc
<ˢ_trans [] (y ∷ t) [] h k = cc
<ˢ_trans [] (y ∷ t) (z ∷ u) h k = refl
<ˢ_trans (x ∷ s) [] u h k = cc
<ˢ_trans (x ∷ s) (y ∷ t) [] h k = cc
<ˢ_trans (x ∷ s) (y ∷ t) (z ∷ u) h k = ground (arith, <ˢ_trans s t u)

=ˢ_comm : (s t : List ℕ) → (s =ˢ t) ≡ (t =ˢ s)
unfolding ◌=ˢ◌
=ˢ_comm [] [] = refl
=ˢ_comm [] (y ∷ t) = refl
=ˢ_comm (x ∷ s) [] = refl
=ˢ_comm (x ∷ s) (y ∷ t) = ground (arith, =ˢ_comm s t)

pub >ˢ_total : (s t : List ℕ) → not (s <ˢ t) ≡ ((t <ˢ s) || (s =ˢ t))
>ˢ_total s t = <ˢ_total t s ∙ ap (λ (b : Bool). (t <ˢ s) || b) (=ˢ_comm t s)
