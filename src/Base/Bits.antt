-- ===== src/Base/Bits.antt =====
-- Bit masks. A mask of k ones is a remainder by 2 ^ k, from the binary digits by which the native
-- `bit_and` is defined; facts about a few bits are checked at every value.
use Prim.Native.Nat.{bit_and, digits, bit_and-bitwise}
use footstone.Base.{
  ℕ, zero, suc, ◌+◌, ◌*◌, ◌/◌, ◌%◌, ◌≤◌, ◌<◌, min, ◌≡◌, refl, Bool, true, ◌&&◌, arith,
}

-- The test holds at every number below the bound.
unfoldable pub every_below : ℕ → (ℕ → Bool) → Bool
every_below zero test = true
every_below (suc n) test = test n && every_below n test

pub every_below_sound :
    (n : ℕ) (test : ℕ → Bool) (x : ℕ) → every_below n test ≡ true → x < n → test x ≡ true
unfolding every_below
every_below_sound zero test x all lt = absurd (omega arith)
every_below_sound (suc n) test x all lt = ground (arith, every_below_sound n test x)

abbrev common_digits : ℕ → ℕ → ℕ → ℕ
common_digits fuel a b = digits (λ _. zero) min fuel a b

common_digits_fuel : (a b f g : ℕ) → a ≤ f → a ≤ g → common_digits f a b ≡ common_digits g a b
common_digits_fuel zero b zero zero p q = refl
common_digits_fuel zero b zero (suc g) p q = refl
common_digits_fuel zero b (suc f) zero p q = refl
common_digits_fuel zero b (suc f) (suc g) p q = refl
common_digits_fuel (suc a) b zero g p q = absurd (omega arith)
common_digits_fuel (suc a) b (suc f) zero p q = absurd (omega arith)
common_digits_fuel (suc a) b (suc f) (suc g) p q =
    omega (arith, common_digits_fuel (suc a / 2) (b / 2) f g (omega arith) (omega arith))

none-bit_and : (b : ℕ) → bit_and 0 b ≡ 0
none-bit_and b = bit_and-bitwise 0 b

bit_and_halves : (a b : ℕ) → bit_and a b ≡ 2 * bit_and (a / 2) (b / 2) + min (a % 2) (b % 2)
bit_and_halves zero b = omega (arith, none-bit_and b, none-bit_and (b / 2))
bit_and_halves (suc a) b =
    let half = suc a / 2 in
    let enough = common_digits_fuel half (b / 2) a half (omega arith) (omega arith) in
    omega (arith, enough, bit_and-bitwise half (b / 2), bit_and-bitwise (suc a) b)

bit_and-none : (n a : ℕ) → a ≤ n → bit_and a 0 ≡ 0
bit_and-none n zero h = refl
bit_and-none zero (suc a) h = absurd (omega arith)
bit_and-none (suc n) (suc a) h =
    omega (arith, bit_and_halves (suc a) 0, bit_and-none n (suc a / 2) (omega arith))

pub bit_and_two_bits : (a : ℕ) → bit_and a 3 ≡ a % 4
bit_and_two_bits a = omega (
  arith,
  bit_and_halves a 3,
  bit_and_halves (a / 2) 1,
  bit_and-none (a / 2 / 2) (a / 2 / 2) (omega arith),
)

pub bit_and_four_bits : (a : ℕ) → bit_and a 0xF ≡ a % 16
bit_and_four_bits a =
    omega (arith, bit_and_halves a 15, bit_and_halves (a / 2) 7, bit_and_two_bits (a / 2 / 2))

pub bit_and_six_bits : (a : ℕ) → bit_and a 0x3F ≡ a % 64
bit_and_six_bits a =
    omega (arith, bit_and_halves a 63, bit_and_halves (a / 2) 31, bit_and_four_bits (a / 2 / 2))

pub bit_and_eight_bits : (a : ℕ) → bit_and a 0xFF ≡ a % 256
bit_and_eight_bits a =
    omega (arith, bit_and_halves a 255, bit_and_halves (a / 2) 127, bit_and_six_bits (a / 2 / 2))
