-- ===== src/StringView/Tests.antt =====
-- Runs of unicode_string_view on short strings, and instances of its theorems.
use footstone.Base.{ℕ, false, ◌≡◌, refl, List, [], ◌∷◌, ok, fault, dead_object}
use footstone.StringView.{
  Encoding, latin1, utf8, raw, latin1_string, u8_string, View, assign, assign_unicode, copy,
}
use footstone.StringView.Assign.{copy-assign}

abbrev hi : View
hi = record { encoding = utf8; member = u8_string (104 ∷ 105 ∷ []); lost = 0 }

abbrev ho : View
ho = record { encoding = utf8; member = u8_string (104 ∷ 111 ∷ []); lost = 0 }

abbrev hu : View
hu = record { encoding = utf8; member = u8_string (104 ∷ 117 ∷ []); lost = 0 }

abbrev latin : View
latin = record { encoding = latin1; member = latin1_string (104 ∷ []); lost = 0 }

assign-latin : assign false latin hi ≡ ok hi
unfolding assign
assign-latin = refl

second_assign_lost : assign_unicode utf8 hi (1 ∷ []) ≡ ok hi
unfolding assign_unicode
second_assign_lost = refl

broken_view : copy (record { encoding = utf8; member = raw; lost = 0 }) ≡ fault dead_object
unfolding copy
broken_view = refl

copy-assign_example : (copy hi ≡ ok hi) × (assign false latin hi ≡ ok hi)
copy-assign_example = copy-assign latin hi tt tt (λ e. cc)

abbrev sum_hash : Encoding → List ℕ → ℕ
sum_hash e s = 0
