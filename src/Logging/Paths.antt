-- ===== src/Logging/Paths.antt =====
-- How the head of a message shows its severity and its file: StripDots, StripPath and the constructor of
-- LogMessage in the logging.cc files of src/platform.
use footstone.Base.{
  ◌⊎◌, get_or, ℕ, zero, suc, Bool, true, false, ◌&&◌, List, [], ◌∷◌, ◌++◌, Option, none, some, ◌≡◌,
  refl, ap, ◌==◌, inl, inr, if◌then◌else◌, arith, Bool-cases, Option-cases, ==_iff,
}
use footstone.Base.Int.{ℤ, pos, pos_part, ◌-ℤ◌, ◌≤ℤ◌, leb_ℤ, ltb_ℤ}
use footstone.Logging.{
  words, chars, number, fatal, info, num_severities, severity_names, strip_dots, after_slash,
  strip_path, message_head, get_name_for_log_severity,
}

abbrev pub starts_with_dots : List ℕ → Bool
starts_with_dots (a ∷ b ∷ c ∷ path) = (a == b'.') && ((b == b'.') && (c == b'/'))
starts_with_dots _ = false

-- `k` times "../", and then `path`.
abbrev pub dots_before : ℕ → List ℕ → List ℕ
dots_before zero path = path
dots_before (suc k) path = b'.' ∷ b'.' ∷ b'/' ∷ dots_before k path

abbrev pub has_slash : List ℕ → Bool
has_slash [] = false
has_slash (c ∷ path) = if c == b'/' then true else has_slash path

three_equal :
    (a b c x y z : ℕ) → ((a == x) && ((b == y) && (c == z))) ≡ true → (a ≡ x) × (b ≡ y) × (c ≡ z)
three_equal a b c x y z h = ground arith

-- StripDots takes away all of the leading "../", and nothing else.
strip_dots_lem :
    (path : List ℕ)
    → ((k : ℕ) × (path ≡ dots_before k (strip_dots path)))
      × (starts_with_dots (strip_dots path) ≡ false)
unfolding strip_dots
strip_dots_lem [] = ((0, refl), refl)
strip_dots_lem (a ∷ []) = ((0, refl), refl)
strip_dots_lem (a ∷ b ∷ []) = ((0, refl), refl)
strip_dots_lem (a ∷ b ∷ c ∷ path) = elim (Bool-cases (starts_with_dots (a ∷ b ∷ c ∷ path))) [
  | inl h ↦
      let ((k, e), free) = strip_dots_lem path in
      let (ea, eb, ec) = three_equal a b c b'.' b'.' b'/' h in rw h ((suc k, cc), free)
  | inr h ↦ rw h ((0, refl), h)
]

-- `rest` is what is behind the last slash, if there is one.
abbrev pub SplitAt : List ℕ → Option (List ℕ) → Type 0
SplitAt path none = has_slash path ≡ false
SplitAt path (some rest) =
    ((dir : List ℕ) × (path ≡ dir ++ (b'/' ∷ rest))) × (has_slash rest ≡ false)

after_slash-SplitAt : (path : List ℕ) → SplitAt path (after_slash path)
unfolding after_slash
after_slash-SplitAt [] = refl
after_slash-SplitAt (c ∷ path) = elim (Option-cases (after_slash path)) [
  | inl e ↦
      let free : has_slash path ≡ false = rw e at (after_slash-SplitAt path) in
      elim (Bool-cases (c == b'/')) [
        | inl slash ↦ rw (e, slash) (([], ap (λ x. x ∷ path) ((==_iff c b'/').0 slash)), free)
        | inr other ↦ rw (e, other) (rw other free)
      ]
  | inr (rest, e) ↦
      let here : SplitAt path (some rest) = rw e at (after_slash-SplitAt path) in
      let ((dir, split), free) = here in rw e ((c ∷ dir, ap (◌∷◌ c) split), free)
]

strip_path_eq :
    (path : List ℕ) (o : Option (List ℕ))
    → after_slash path ≡ o
    → strip_path path ≡ elim o [ none ↦ path | some rest ↦ rest ]
unfolding strip_path
strip_path_eq path o e = ap (λ x. elim x [ none ↦ path | some rest ↦ rest ]) e

-- StripPath leaves what is behind the last slash of a path, or the whole of a path without one.
strip_path_lem :
    (path : List ℕ)
    → (has_slash (strip_path path) ≡ false)
      × ((strip_path path ≡ path) ⊎ ((dir : List ℕ) × (path ≡ dir ++ (b'/' ∷ strip_path path))))
strip_path_lem path = elim (Option-cases (after_slash path)) [
  | inl e ↦
      let free : has_slash path ≡ false = rw e at (after_slash-SplitAt path) in
      rw (strip_path_eq path none e) (free, inl refl)
  | inr (rest, e) ↦
      let here : SplitAt path (some rest) = rw e at (after_slash-SplitAt path) in
      rw (strip_path_eq path (some rest) e) (here.1, inr here.0)
]

not_above : (severity : ℤ) → severity ≤ℤ fatal → leb_ℤ (pos 6) severity ≡ false
not_above severity h = ground arith

not_at : (severity : ℤ) → severity ≤ℤ fatal → ltb_ℤ (pos 6) severity ≡ false
not_at severity h = ground arith

named :
    (severity : ℤ)
    → info ≤ℤ severity
    → severity ≤ℤ fatal
    → (leb_ℤ info severity ≡ true) × (ltb_ℤ severity num_severities ≡ true)
named severity h k = (ground arith, ground arith)

-- A message of a severity from INFO to FATAL: where LOG_INFO is TDF_LOG_INFO, its head has the severity's name,
-- and the directories of the file unless the severity is INFO; where it is 6, as in syslog.h, the head calls the
-- message verbose, with the negated number of the severity, and never has the directories.
head_by_platform :
    (severity : ℤ) (file : List ℕ) (line : ℤ)
    → info ≤ℤ severity
    → severity ≤ℤ fatal
    → (message_head info severity file line none
        ≡ words "["
          ∷ words (get_or severity_names (pos_part severity) "UNKNOWN")
          ∷ words ":"
          ∷ chars (if ltb_ℤ info severity then strip_dots file else strip_path file)
          ∷ words "("
          ∷ number line
          ∷ words ")] "
          ∷ [])
      × (message_head (pos 6) severity file line none
          ≡ words "["
            ∷ words "VERBOSE"
            ∷ number (pos 0 -ℤ severity)
            ∷ words ":"
            ∷ chars (strip_path file)
            ∷ words "("
            ∷ number line
            ∷ words ")] "
            ∷ [])
unfolding message_head get_name_for_log_severity
head_by_platform severity file line h k =
    let (above, below) = named severity h k in
    (rw (above, below), rw (not_above severity k, not_at severity k))
