-- ===== src/StringView/Assign.antt =====
-- Construction, copies and assignments of unicode_string_view: which member is live, and what a view
-- holds afterwards.
use footstone.Base.{
  ℕ, ◌+◌, true, false, ◌≡◌, ◌≢◌, refl, inl, inr, List, ok, ◌>>=◌, arith, Bool-cases,
}
use footstone.StringView.{
  Encoding, unkown, latin1, utf8, utf16, utf32, Member, raw, latin1_string, u8_string, u16_string,
  u32_string, View, same, read_as, make_as, new_from, copy, deallocate, assign, assign_latin1,
  assign_unicode, value, assign_at, in_the_way, construct,
}

-- The live member is the one that the tag names. Under `unkown` nothing is read.
abbrev pub Live : Encoding → Member → Type 0
Live unkown m = Unit {0}
Live latin1 (latin1_string s) = Unit {0}
Live utf8 (u8_string s) = Unit {0}
Live utf16 (u16_string s) = Unit {0}
Live utf32 (u32_string s) = Unit {0}
Live _ _ = ⊥

abbrev pub IsValid : View → Type 0
IsValid v = Live v.encoding v.member

same_iff : (a b : Encoding) → same a b ≡ true → a ≡ b
unfolding same
same_iff a b h = ground arith

pub same_ne : (a b : Encoding) → a ≢ b → same a b ≡ false
same_ne a b h = elim (Bool-cases (same a b)) [ inl e ↦ absurd (h (same_iff a b e)) | inr e ↦ e ]

same_refl : (a : Encoding) → same a a ≡ true
unfolding same
same_refl a = ground arith

pub same_iff_refl : (a b : Encoding) → a ≡ b → same a b ≡ true
same_iff_refl a b e = rw e (same_refl b)

-- A live member is that of its tag, and is read without fault.
Live-read :
    (e : Encoding) (m : Member)
    → e ≢ unkown
    → Live e m
    → (s : List ℕ) × (read_as e m ≡ ok s) × (m ≡ make_as e s)
unfolding read_as make_as
Live-read unkown m known l = absurd (known refl)
Live-read latin1 (latin1_string s) known l = (s, refl, refl)
Live-read utf8 (u8_string s) known l = (s, refl, refl)
Live-read utf16 (u16_string s) known l = (s, refl, refl)
Live-read utf32 (u32_string s) known l = (s, refl, refl)
Live-read _ _ known l = elim l [ ]

Live-make : (e : Encoding) (s : List ℕ) → Live e (make_as e s)
unfolding make_as
Live-make unkown s = tt
Live-make latin1 s = tt
Live-make utf8 s = tt
Live-make utf16 s = tt
Live-make utf32 s = tt

-- The live string of a view without encoding, which only such an assignment can have left there: no
-- destructor will run for it.
abbrev pub abandoned : Encoding → Member → ℕ
abandoned unkown m = in_the_way m
abandoned latin1 m = 0
abandoned utf8 m = 0
abandoned utf16 m = 0
abandoned utf32 m = 0

-- A valid view is destroyed without fault, and only an abandoned string stays in its place.
deallocate-ok :
    (e : Encoding) (m : Member) (n : ℕ)
    → Live e m
    → (m' : Member) × (deallocate (record { encoding = e; member = m; lost = n })
        ≡ ok (record { encoding = unkown; member = m'; lost = n }))
      × (in_the_way m' ≡ abandoned e m)
unfolding deallocate
deallocate-ok unkown m n l = (m, refl, refl)
deallocate-ok latin1 (latin1_string s) n l = (raw, refl, refl)
deallocate-ok utf8 (u8_string s) n l = (raw, refl, refl)
deallocate-ok utf16 (u16_string s) n l = (raw, refl, refl)
deallocate-ok utf32 (u32_string s) n l = (raw, refl, refl)
deallocate-ok _ _ n l = elim l [ ]

assign_at-Live :
    (e : Encoding) (m : Member) (n : ℕ) (e' : Encoding) (m' : Member) (n' : ℕ)
    → Live e m
    → Live e' m'
    → e' ≢ unkown
    → assign_at e'
        (record { encoding = e; member = m; lost = n })
        (record { encoding = e'; member = m'; lost = n' })
      ≡ ok (record { encoding = e'; member = m'; lost = n + abandoned e m })
unfolding assign_at
assign_at-Live e m n unkown m' n' lv lr known = absurd (known refl)
assign_at-Live e m n latin1 (latin1_string s) n' lv lr known = ground arith
assign_at-Live e m n utf8 (u8_string s) n' lv lr known = ground arith
assign_at-Live e m n utf16 (u16_string s) n' lv lr known = ground arith
assign_at-Live e m n utf32 (u32_string s) n' lv lr known = ground arith
assign_at-Live _ _ _ _ _ _ lv lr known = elim lr [ ]

copy-Live :
    (e : Encoding) (m : Member) (n : ℕ)
    → Live e m
    → e ≢ unkown
    → copy (record { encoding = e; member = m; lost = n })
      ≡ ok (record { encoding = e; member = m; lost = 0 })
unfolding copy
copy-Live unkown m n l known = absurd (known refl)
copy-Live latin1 (latin1_string s) n l known = refl
copy-Live utf8 (u8_string s) n l known = refl
copy-Live utf16 (u16_string s) n l known = refl
copy-Live utf32 (u32_string s) n l known = refl
copy-Live _ _ n l known = elim l [ ]

latin1_stored :
    (e : Encoding) (m : Member) (n : ℕ)
    → Live e m
    → (s : List ℕ)
    → assign_latin1 (record { encoding = e; member = m; lost = n }) s
      ≡ ok (record { encoding = latin1; member = latin1_string s; lost = n + abandoned e m })
unfolding assign_latin1
latin1_stored unkown m n l s = refl
latin1_stored latin1 (latin1_string t) n l s = ground arith
latin1_stored utf8 (u8_string t) n l s = ground arith
latin1_stored utf16 (u16_string t) n l s = ground arith
latin1_stored utf32 (u32_string t) n l s = ground arith
latin1_stored _ _ n l s = elim l [ ]

-- Where the view to be copied has an encoding and both are valid, the copy has its encoding and its text, and
-- so has any other view to which it is assigned. No member is read dead, and none is lost: the string that was
-- there is assigned to or destroyed, except for one that the left side, without an encoding, no longer knew of.
pub copy-assign :
    (v rhs : View)
    → IsValid v
    → IsValid rhs
    → rhs.encoding ≢ unkown
    → (copy rhs ≡ ok (record rhs { lost = 0 }))
      × (assign false v rhs ≡ ok (record rhs { lost = v.lost + abandoned v.encoding v.member }))
unfolding assign
copy-assign v rhs lv lr known = (
  copy-Live rhs.encoding rhs.member rhs.lost lr known,
  assign_at-Live v.encoding v.member v.lost rhs.encoding rhs.member rhs.lost lv lr known,
)

-- Assigning a view with no encoding only takes the tag away: the string that was live before is not
-- destroyed, and the next string that is assigned takes its place.
assign-unkown_leaks :
    (v rhs : View)
    → rhs.encoding ≡ unkown
    → assign false v rhs ≡ ok (record v { encoding = unkown })
unfolding assign assign_at
assign-unkown_leaks v rhs e = rw e

-- `operator=` from a Latin-1 string always stores it; from a UTF-8, UTF-16 or UTF-32 string it stores
-- it exactly where the view had another encoding, and else changes nothing. No valid view faults.
assign_strings :
    (v : View) (s : List ℕ)
    → IsValid v
    → let lost = v.lost + abandoned v.encoding v.member in
      (assign_latin1 v s ≡ ok (record (new_from latin1 s) { lost = lost }))
      × ((e : Encoding)
          → e ≢ unkown
          → e ≢ latin1
          → (v.encoding ≢ e → assign_unicode e v s ≡ ok (record (new_from e s) { lost = lost }))
            × (v.encoding ≡ e → assign_unicode e v s ≡ ok v))
unfolding assign_unicode new_from
assign_strings v s l = (
  latin1_stored v.encoding v.member v.lost l s,
  λ e known wide. (
    λ ne.
        let (m', gone, same_count) = deallocate-ok v.encoding v.member v.lost l in
        rw (same_ne v.encoding e ne, gone, construct, same_count) refl,
    λ eq. rw (eq, same_refl e),
  ),
)

-- So a view never takes a second string of a Unicode encoding that it already has.
assign_unicode_keeps_old :
    (e : Encoding) (old s : List ℕ)
    → e ≢ unkown
    → e ≢ latin1
    → old ≢ s
    → (assign_unicode e (new_from e old) s >>= value e) ≢ ok s
unfolding assign_unicode new_from value
assign_unicode_keeps_old unkown old s known wide ne = absurd (known refl)
assign_unicode_keeps_old latin1 old s known wide ne = absurd (wide refl)
assign_unicode_keeps_old utf8 old s known wide ne = ground arith
assign_unicode_keeps_old utf16 old s known wide ne = ground arith
assign_unicode_keeps_old utf32 old s known wide ne = ground arith
