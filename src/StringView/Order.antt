-- ===== src/StringView/Order.antt =====
-- The comparisons and the hash of unicode_string_view.
use footstone.Base.{
  ℕ, Bool, true, false, not, ◌&&◌, ◌||◌, ◌≡◌, ◌≢◌, ◌↔◌, refl, ap, ◌∙◌, sym, ◌⊎◌, inl, inr, List, [],
  ok, arith,
}
use footstone.Base.Lex.{◌=ˢ◌, ◌<ˢ◌, =ˢ_iff, <ˢ_total, >ˢ_total, <ˢ_asymm, <ˢ_trans}
use footstone.StringView.{
  Encoding, unkown, latin1, utf8, utf16, utf32, Member, raw, latin1_string, u8_string, u16_string,
  u32_string, View, read_as, make_as, compared, equal, not_equal, less, greater, less_equal,
  greater_equal, hash, compare_at,
}
use footstone.StringView.Assign.{Live, IsValid, same_iff_refl, same_ne}

-- The code units of the live member.
abbrev pub units : Member → List ℕ
units raw = []
units (latin1_string s) = s
units (u8_string s) = s
units (u16_string s) = s
units (u32_string s) = s

Live-units :
    (e : Encoding) (m : Member)
    → e ≢ unkown
    → Live e m
    → (m ≡ make_as e (units m)) × (read_as e m ≡ ok (units m))
unfolding read_as make_as
Live-units unkown m known l = absurd (known refl)
Live-units latin1 (latin1_string s) known l = (refl, refl)
Live-units utf8 (u8_string s) known l = (refl, refl)
Live-units utf16 (u16_string s) known l = (refl, refl)
Live-units utf32 (u32_string s) known l = (refl, refl)
Live-units _ _ known l = elim l [ ]

compare_at-known :
    (test : List ℕ → List ℕ → Bool) (e : Encoding) (v w : View) (s t : List ℕ)
    → e ≢ unkown
    → read_as e v.member ≡ ok s
    → read_as e w.member ≡ ok t
    → compare_at test e v w ≡ ok (test s t)
unfolding compare_at
compare_at-known test unkown v w s t known p q = absurd (known refl)
compare_at-known test latin1 v w s t known p q = rw (p, q)
compare_at-known test utf8 v w s t known p q = rw (p, q)
compare_at-known test utf16 v w s t known p q = rw (p, q)
compare_at-known test utf32 v w s t known p q = rw (p, q)

-- Two views with the same string in the same encoding.
abbrev pub IsSame : View → View → Type 0
IsSame v w = (v.encoding ≡ w.encoding) × (v.member ≡ w.member)

hash-IsSame :
    (hash_string : Encoding → List ℕ → ℕ) (e : Encoding) (v w : View)
    → v.encoding ≡ e
    → IsSame v w
    → hash hash_string v ≡ hash hash_string w
unfolding hash
hash-IsSame hash_string unkown v w p (e, m) = rw (sym e, p) refl
hash-IsSame hash_string latin1 v w p (e, m) = rw (sym e, p, m) refl
hash-IsSame hash_string utf8 v w p (e, m) = rw (sym e, p, m) refl
hash-IsSame hash_string utf16 v w p (e, m) = rw (sym e, p, m) refl
hash-IsSame hash_string utf32 v w p (e, m) = rw (sym e, p, m) refl

module _ (v w : View) (lv : IsValid v) (lw : IsValid w) where
  -- With one encoding on both sides a comparison is that of the code units.
  compared-known :
      (test : List ℕ → List ℕ → Bool)
      → v.encoding ≡ w.encoding
      → v.encoding ≢ unkown
      → compared test v w ≡ ok (test (units v.member) (units w.member))
  unfolding compared
  compared-known test e known =
      let l : Live v.encoding w.member = rw e lw in
      rw (same_iff_refl v.encoding w.encoding e) (
        compare_at-known test v.encoding v w (units v.member) (units w.member) known
          (Live-units v.encoding v.member known lv).1 (Live-units v.encoding w.member known l).1)

  units-IsSame :
      v.encoding ≡ w.encoding → v.encoding ≢ unkown → units v.member ≡ units w.member → IsSame v w
  units-IsSame e known h =
      let l : Live v.encoding w.member = rw e lw in
      (
        e,
        (Live-units v.encoding v.member known lv).0
            ∙ ap (make_as v.encoding) h
            ∙ sym ((Live-units v.encoding w.member known l).0),
      )

compared-other :
    (test : List ℕ → List ℕ → Bool) (v w : View)
    → (v.encoding ≢ w.encoding) ⊎ (v.encoding ≡ unkown)
    → compared test v w ≡ ok false
unfolding compared compare_at
compared-other test v w (inl ne) = rw (same_ne v.encoding w.encoding ne)
compared-other test v w (inr e) = rw e (ground arith)

Encoding-discrete : Discrete Encoding
Encoding-discrete = hlevel

-- Whether two views can be compared at all.
comparable :
    (v w : View)
    → ((v.encoding ≡ w.encoding) × (v.encoding ≢ unkown))
      ⊎ ((v.encoding ≢ w.encoding) ⊎ (v.encoding ≡ unkown))
comparable v w = elim (Encoding-discrete v.encoding w.encoding) [
  | no ne ↦ inr (inl ne)
  | yes e ↦ elim (Encoding-discrete v.encoding unkown) [
    | yes u ↦ inr (inr u)
    | no known ↦ inl (e, known)
  ]
]

not-IsSame :
    (v w : View)
    → (v.encoding ≢ w.encoding) ⊎ (v.encoding ≡ unkown)
    → ¬ (IsSame v w × (v.encoding ≢ unkown))
not-IsSame v w (inl ne) (e, known) = ne e.0
not-IsSame v w (inr u) (e, known) = known u

-- On valid views `==` answers, and answers true exactly for views of one string in one encoding; then
-- `std::hash` gives them one value. `!=` is its negation.
equal_iff :
    (hash_string : Encoding → List ℕ → ℕ) (v w : View)
    → IsValid v
    → IsValid w
    → (b : Bool) × (equal v w ≡ ok b)
      × (not_equal v w ≡ ok (not b))
      × ((b ≡ true) ↔ (IsSame v w × (v.encoding ≢ unkown)))
      × (b ≡ true → hash hash_string v ≡ hash hash_string w)
unfolding equal not_equal
equal_iff hash_string v w lv lw = elim (comparable v w) [
  | inl (e, known) ↦
      let same_text = =ˢ_iff (units v.member) (units w.member) in
      let answer = compared-known v w lv lw ◌=ˢ◌ e known in
      (
        units v.member =ˢ units w.member,
        answer,
        rw answer,
        (
          λ h. (units-IsSame v w lv lw e known (same_text.0 h), known),
          λ h. same_text.1 (ap units h.0.1),
        ),
        λ h.
            hash-IsSame hash_string v.encoding v w refl
              (units-IsSame v w lv lw e known (same_text.0 h)),
      )
  | inr other ↦
      let answer = compared-other ◌=ˢ◌ v w other in
      (false, answer, rw answer, (λ h. cc, λ h. absurd (not-IsSame v w other h)), λ h. cc)
]

one_of_three :
    (lt eq gt : Bool)
    → not gt ≡ (lt || eq)
    → not lt ≡ (gt || eq)
    → ((lt || eq || gt) ≡ true) × (((lt && eq) || (lt && gt) || (eq && gt)) ≡ false)
one_of_three lt eq gt p q = ground arith

-- Views of one encoding are ordered as their code units: exactly one of `<`, `==` and `>` holds, `<=`
-- is `<` or `==`, and `>=` is `>` or `==`.
order_total :
    (v w : View)
    → IsValid v
    → IsValid w
    → v.encoding ≡ w.encoding
    → v.encoding ≢ unkown
    → (lt eq gt : Bool) × (less v w ≡ ok lt)
      × (equal v w ≡ ok eq)
      × (greater v w ≡ ok gt)
      × (less_equal v w ≡ ok (lt || eq))
      × (greater_equal v w ≡ ok (gt || eq))
      × ((lt || eq || gt) ≡ true)
      × (((lt && eq) || (lt && gt) || (eq && gt)) ≡ false)
unfolding equal less greater less_equal greater_equal
order_total v w lv lw e known =
    let s = units v.member in
    let t = units w.member in
    let is_lt = compared-known v w lv lw ◌<ˢ◌ e known in
    let is_gt = compared-known v w lv lw (λ s t. t <ˢ s) e known in
    let (some_one, only_one) =
      one_of_three (s <ˢ t) (s =ˢ t) (t <ˢ s) (<ˢ_total s t) (>ˢ_total s t) in
    (
      s <ˢ t,
      s =ˢ t,
      t <ˢ s,
      is_lt,
      compared-known v w lv lw ◌=ˢ◌ e known,
      is_gt,
      rw (is_gt, same_iff_refl v.encoding w.encoding e) (ap ok (<ˢ_total s t)),
      rw (is_lt, same_iff_refl v.encoding w.encoding e) (ap ok (>ˢ_total s t)),
      some_one,
      only_one,
    )

-- Views of two encodings are neither equal nor ordered, whatever they hold. Two views without an
-- encoding are not equal, but answer both `<=` and `>=`.
order_partial :
    (v w : View)
    → (v.encoding ≢ w.encoding
        → (equal v w ≡ ok false)
          × (not_equal v w ≡ ok true)
          × (less v w ≡ ok false)
          × (greater v w ≡ ok false)
          × (less_equal v w ≡ ok false)
          × (greater_equal v w ≡ ok false))
      × (v.encoding ≡ unkown
          → w.encoding ≡ unkown
          → (equal v w ≡ ok false) × (less_equal v w ≡ ok true) × (greater_equal v w ≡ ok true))
unfolding equal not_equal less greater less_equal greater_equal
order_partial v w = (
  λ ne.
      let answer = λ (test : List ℕ → List ℕ → Bool). compared-other test v w (inl ne) in
      let differ = same_ne v.encoding w.encoding ne in
      (answer _, rw (answer ◌=ˢ◌), answer _, answer _, rw differ, rw differ),
  λ e f.
      let answer = λ (test : List ℕ → List ℕ → Bool). compared-other test v w (inr e) in
      let agree = same_iff_refl v.encoding w.encoding (e ∙ sym f) in
      (answer _, rw (answer (λ s t. t <ˢ s), agree), rw (answer ◌<ˢ◌, agree)),
)

-- What a true `<` says.
less-true :
    (v w : View)
    → IsValid v
    → IsValid w
    → less v w ≡ ok true
    → (v.encoding ≡ w.encoding)
      × (v.encoding ≢ unkown)
      × ((units v.member <ˢ units w.member) ≡ true)
unfolding less
less-true v w lv lw h = elim (comparable v w) [
  | inl (e, known) ↦ (e, known, cc (compared-known v w lv lw ◌<ˢ◌ e known))
  | inr other ↦ cc (compared-other ◌<ˢ◌ v w other)
]

-- `<` is a strict partial order on valid views.
less_trans :
    (u v w : View)
    → IsValid u
    → IsValid v
    → IsValid w
    → less u v ≡ ok true
    → less v w ≡ ok true
    → (less u w ≡ ok true) × (less w u ≡ ok false)
unfolding less
less_trans u v w lu lv lw p q =
    let (e, known, below) = less-true u v lu lv p in
    let (f, _, below') = less-true v w lv lw q in
    let through = <ˢ_trans (units u.member) (units v.member) (units w.member) below below' in
    let ends : u.encoding ≡ w.encoding = e ∙ f in
    (
      compared-known u w lu lw ◌<ˢ◌ ends known ∙ ap ok through,
      compared-known w u lw lu ◌<ˢ◌ (sym ends) (λ h. known (ends ∙ h))
          ∙ ap ok (<ˢ_asymm (units u.member) (units w.member) through),
    )
