-- ===== src/StringView.antt =====
-- src/footstone/unicode_string_view.cc and include/footstone/unicode_string_view.h: a string in one of
-- four encodings, kept in a union beside a tag. `Member` is the union's live member. A use of a
-- member that is not live is a fault, and `lost` counts the live members whose place another string has
-- taken before their destructor ran.
pub mod Assign
pub mod Order
mod Tests
use footstone.Base.{
  ℕ, ◌+◌, Bool, true, false, not, ◌≡◌, refl, List, [], ◌∷◌, Outcome, ok, fault, dead_object,
  failed_check, require, ◌>>=◌, ◌>>◌, ◌==◌, if◌then◌else◌,
}
use footstone.Base.Lex.{◌=ˢ◌, ◌<ˢ◌}

pub data Encoding : Type 0 where
  unkown latin1 utf8 utf16 utf32 : Encoding

-- The code units of the live string, or nothing constructed yet.
pub data Member : Type 0 where
  raw : Member
  latin1_string u8_string u16_string u32_string : List ℕ → Member

pub record View : Type 0 where
  pub encoding : Encoding
  pub member : Member
  pub lost : ℕ

unfoldable pub tag : Encoding → ℕ
tag unkown = 0
tag latin1 = 1
tag utf8 = 2
tag utf16 = 3
tag utf32 = 4

unfoldable pub same : Encoding → Encoding → Bool
unfolding tag
same a b = tag a == tag b

-- The union's member that belongs to an encoding, read and constructed.
unfoldable pub read_as : Encoding → Member → Outcome (List ℕ)
read_as latin1 (latin1_string s) = ok s
read_as utf8 (u8_string s) = ok s
read_as utf16 (u16_string s) = ok s
read_as utf32 (u32_string s) = ok s
read_as _ _ = fault dead_object

unfoldable pub make_as : Encoding → List ℕ → Member
make_as unkown s = raw
make_as latin1 s = latin1_string s
make_as utf8 s = u8_string s
make_as utf16 s = u16_string s
make_as utf32 s = u32_string s

-- `unicode_string_view()` and the constructors from a string of one encoding
unfoldable pub new_empty : View
new_empty = record { encoding = unkown; member = raw; lost = 0 }

unfoldable pub new_from : Encoding → List ℕ → View
unfolding make_as
new_from e s = record { encoding = e; member = make_as e s; lost = 0 }

copy_at : Encoding → View → Outcome View
unfolding read_as make_as
copy_at unkown source = ok (record { encoding = unkown; member = raw; lost = 0 })
copy_at e source = do
  s ← read_as e source.member
  ok (record { encoding = e; member = make_as e s; lost = 0 })

-- the copy constructor
unfoldable pub copy : View → Outcome View
unfolding copy_at
copy source = copy_at source.encoding source

-- Runs the destructor of the live member.
deallocate_at : Encoding → View → Outcome View
unfolding read_as
deallocate_at unkown v = ok (record v { encoding = unkown })
deallocate_at e v = read_as e v.member >>= (λ _. ok (record v { encoding = unkown; member = raw }))

unfoldable pub deallocate : View → Outcome View
unfolding deallocate_at
deallocate v = deallocate_at v.encoding v

-- Placement `new` of a string, after which the tag is that of its encoding.
abbrev pub in_the_way : Member → ℕ
in_the_way raw = 0
in_the_way (latin1_string _) = 1
in_the_way (u8_string _) = 1
in_the_way (u16_string _) = 1
in_the_way (u32_string _) = 1

unfoldable pub construct : Encoding → List ℕ → View → View
unfolding make_as
construct e s v = record { encoding = e; member = make_as e s; lost = v.lost + in_the_way v.member }

-- One branch of the copy assignment, for an encoding that the right side has.
pub assign_at : Encoding → View → View → Outcome View
unfolding same read_as make_as deallocate construct
assign_at unkown v rhs = ok (record v { encoding = unkown })
assign_at e v rhs =
    if same v.encoding e
    then (do
      s ← read_as e rhs.member
      _ ← read_as e v.member
      ok (record v { member = make_as e s }))
    else (do v' ← deallocate v; s ← read_as e rhs.member; ok (construct e s v'))

-- `operator=(const unicode_string_view&)`; `is_self` is the test `this == &rhs`.
unfoldable pub assign : Bool → View → View → Outcome View
unfolding assign_at
assign is_self v rhs = if is_self then ok v else assign_at rhs.encoding v rhs

-- `operator=(const char*)` and `operator=(const string&)`
unfoldable pub assign_latin1 : View → List ℕ → Outcome View
unfolding same read_as deallocate construct
assign_latin1 v s =
    if same v.encoding latin1
    then read_as latin1 v.member >>= (λ _. ok (record v { member = latin1_string s }))
    else deallocate v >>= (λ v'. ok (construct latin1 s v'))

-- `operator=` from a UTF-8, UTF-16 or UTF-32 string or pointer: they share one text, which stores
-- the string only where the encoding changes.
unfoldable pub assign_unicode : Encoding → View → List ℕ → Outcome View
unfolding same deallocate construct
assign_unicode e v s =
    if same v.encoding e then ok v else deallocate v >>= (λ v'. ok (construct e s v'))

-- The comparisons read the members only where the encodings agree.
pub compare_at : (List ℕ → List ℕ → Bool) → Encoding → View → View → Outcome Bool
unfolding read_as
compare_at test unkown v rhs = ok false
compare_at test e v rhs = do s ← read_as e v.member; t ← read_as e rhs.member; ok (test s t)

pub compared : (List ℕ → List ℕ → Bool) → View → View → Outcome Bool
unfolding same compare_at
compared test v rhs =
    if same v.encoding rhs.encoding then compare_at test v.encoding v rhs else ok false

unfoldable pub equal : View → View → Outcome Bool
unfolding compared
equal v rhs = compared ◌=ˢ◌ v rhs

unfoldable pub not_equal : View → View → Outcome Bool
unfolding equal
not_equal v rhs = equal v rhs >>= (λ b. ok (not b))

unfoldable pub less : View → View → Outcome Bool
unfolding compared
less v rhs = compared ◌<ˢ◌ v rhs

unfoldable pub greater : View → View → Outcome Bool
unfolding compared
greater v rhs = compared (λ s t. t <ˢ s) v rhs

unfoldable pub less_equal : View → View → Outcome Bool
unfolding same greater
less_equal v rhs =
    if same v.encoding rhs.encoding then greater v rhs >>= (λ b. ok (not b)) else ok false

unfoldable pub greater_equal : View → View → Outcome Bool
unfolding same less
greater_equal v rhs =
    if same v.encoding rhs.encoding then less v rhs >>= (λ b. ok (not b)) else ok false

unfoldable pub is_latin1 : View → Bool
unfolding same
is_latin1 v = same v.encoding latin1

unfoldable pub is_utf8 : View → Bool
unfolding same
is_utf8 v = same v.encoding utf8

unfoldable pub is_utf16 : View → Bool
unfolding same
is_utf16 v = same v.encoding utf16

unfoldable pub is_utf32 : View → Bool
unfolding same
is_utf32 v = same v.encoding utf32

-- `latin1_value`, `utf8_value`, `utf16_value` and `utf32_value`, each behind its `assert`
unfoldable pub value : Encoding → View → Outcome (List ℕ)
unfolding same read_as
value e v = require (same v.encoding e) failed_check >> read_as e v.member

-- `std::hash` of the four string types is the library's: a parameter.
module _ (hash_string : Encoding → List ℕ → ℕ) where
  hash_at : Encoding → View → Outcome ℕ
  unfolding read_as
  hash_at unkown v = ok 0
  hash_at e v = read_as e v.member >>= (λ s. ok (hash_string e s))

  unfoldable pub hash : View → Outcome ℕ
  unfolding hash_at
  hash v = hash_at v.encoding v
