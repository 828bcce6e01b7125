-- ===== src/Base/Count.antt =====
-- How often a number stands in a list: two lists with the same counts hold the same, in some order.
use footstone.Base.{ℕ, ◌+◌, ◌≡◌, List, [], ◌∷◌, ◌++◌, ◌==◌, if◌then◌else◌, arith}

abbrev pub count : ℕ → List ℕ → ℕ
count x [] = 0
count x (y ∷ l) = (if y == x then 1 else 0) + count x l

pub count-append : (x : ℕ) (l k : List ℕ) → count x (l ++ k) ≡ count x l + count x k
count-append x [] k = omega arith
count-append x (y ∷ l) k = omega (arith, count-append x l k)
