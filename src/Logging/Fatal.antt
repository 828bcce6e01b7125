-- ===== src/Logging/Fatal.antt =====
-- Which messages are written and which abort the program, on the five platforms of src/platform.
use Prim.Native.String.{String}
use footstone.Base.{
  ℕ, suc, Bool, true, false, not, ◌&&◌, List, [], ◌∷◌, ◌++◌, none, some, ◌≡◌, refl, ◌∙◌, inl, inr,
  if◌then◌else◌, arith, Bool-cases,
}
use footstone.Base.Int.{ℤ, pos, negsuc, ◌-ℤ◌, ◌≤ℤ◌, leb_ℤ}
use footstone.Logging.{
  Piece, fatal, LogSettings, min_ℤ, max_ℤ, get_min_log_level, should_create_log_message,
  get_vlog_verbosity, message_head,
}
use footstone.Logging.Sinks.{
  Event, to_syslog, to_cerr, to_android, to_delegate, aborted, Platform, linux, mac, windows, ios,
  android, ios_delegate, android_delegate, end_linux, end_mac, end_windows, end_delegated,
  abort_if_fatal, message, log, check, dcheck, dlog, not_reached, vlog_is_on,
}

-- How much is written before the program ends, and whether it aborts.
abbrev pub outcome : List Event → ℕ × Bool
outcome [] = (0, false)
outcome (aborted ∷ events) = (0, true)
outcome (_ ∷ events) = (suc (outcome events).0, (outcome events).1)

-- The platforms as they start, with the delegates of the files.
pub data Stock : Platform → Type 0 where
  on_linux : (n : ℤ) → Stock (linux n)
  on_mac : (n : ℤ) → Stock (mac n)
  on_windows : Stock windows
  on_ios : (n : ℤ) → Stock (ios n (some ios_delegate))
  on_android : Stock (android (some android_delegate))

outcome-abort_if_fatal :
    (severity : ℤ) → outcome (abort_if_fatal severity) ≡ (0, leb_ℤ fatal severity)
unfolding abort_if_fatal
outcome-abort_if_fatal severity = elim (Bool-cases (leb_ℤ fatal severity)) [
  | inl h ↦ rw h
  | inr h ↦ rw h
]

outcome-append_aborted :
    (events : List Event) → outcome (events ++ (aborted ∷ [])) ≡ ((outcome events).0, true)
outcome-append_aborted [] = refl
outcome-append_aborted (aborted ∷ events) = refl
outcome-append_aborted (to_syslog s ∷ events) = rw (outcome-append_aborted events)
outcome-append_aborted (to_cerr s ∷ events) = rw (outcome-append_aborted events)
outcome-append_aborted (to_android p s ∷ events) = rw (outcome-append_aborted events)
outcome-append_aborted (to_delegate s n ∷ events) = rw (outcome-append_aborted events)

outcome-end :
    (platform : Platform)
    → Stock platform
    → (stream : List Piece) (severity : ℤ)
    → outcome (platform.end stream severity) ≡ (1, leb_ℤ fatal severity)
unfolding linux mac windows ios android end_linux end_mac end_windows end_delegated ios_delegate
    android_delegate
outcome-end _ (on_linux n) stream severity = rw (outcome-abort_if_fatal severity)
outcome-end _ (on_mac n) stream severity = rw (outcome-abort_if_fatal severity)
outcome-end _ on_windows stream severity = rw (outcome-abort_if_fatal severity)
outcome-end _ (on_ios n) stream severity = rw (outcome-abort_if_fatal severity)
outcome-end _ on_android stream severity = rw (outcome-abort_if_fatal severity)

min_log_level_le : (global : LogSettings) → get_min_log_level global ≤ℤ fatal
unfolding get_min_log_level min_ℤ
min_log_level_le global = ground arith

module _ (platform : Platform) (stock : Stock platform) (global : LogSettings) where
  -- On a platform with the delegate that its own file sets, where it has one, and none put in its place by
  -- `SetDelegate`: what is logged below the minimum level is not written, and anything else is written once;
  -- exactly the messages of level FATAL and above abort, and no setting of the minimum level keeps these back.
  pub outcome-log :
      (severity : ℤ) (file : List ℕ) (line : ℤ) (text : List Piece)
      → (outcome (log platform global severity file line text) ≡ (
          if leb_ℤ (get_min_log_level global) severity
          then (1, leb_ℤ fatal severity)
          else (0, false)))
        × (get_min_log_level global ≤ℤ fatal)
  unfolding log message should_create_log_message
  outcome-log severity file line text = (
    elim (Bool-cases (leb_ℤ (get_min_log_level global) severity)) [
      | inl h ↦ rw (
        h,
        outcome-end platform stock (message_head platform.log_info severity file line none ++ text)
            severity,
      )
      | inr h ↦ rw h
    ],
    min_log_level_le global,
  )

  outcome-check :
      (holds : Bool) (condition : String) (file : List ℕ) (line : ℤ) (text : List Piece)
      → outcome (check platform global holds condition file line text)
        ≡ (if holds then (0, false) else (1, true))
  unfolding check message
  outcome-check true condition file line text = refl
  outcome-check false condition file line text = outcome-end platform stock _ fatal

  outcome-dcheck :
      (debug holds : Bool) (condition : String) (file : List ℕ) (line : ℤ) (text : List Piece)
      → outcome (dcheck platform global debug holds condition file line text)
        ≡ (if debug && not holds then (1, true) else (0, false))
  unfolding dcheck
  outcome-dcheck false holds condition file line text = refl
  outcome-dcheck true true condition file line text = outcome-check true condition file line text
  outcome-dcheck true false condition file line text = outcome-check false condition file line text

  outcome-dlog_release :
      (severity : ℤ) (file : List ℕ) (line : ℤ) (text : List Piece)
      → outcome (dlog platform global false severity file line text) ≡ (0, false)
  unfolding dlog
  outcome-dlog_release severity file line text = refl

  outcome-not_reached :
      (debug : Bool) (file : List ℕ) (line : ℤ)
      → outcome (not_reached platform global debug file line) ≡ ((if debug then 1 else 0), true)
  unfolding not_reached dcheck
  outcome-not_reached false file line = refl
  outcome-not_reached true file line =
      outcome-append_aborted (check platform global false "false" file line [])
      ∙ rw (outcome-check false "false" file line [])

  -- On a platform with the delegate that its own file sets, where it has one, and none put in its place by
  -- `SetDelegate`: a check that holds writes nothing, and one that fails writes one message and aborts, whatever the minimum
  -- level is; a debug check does the same in a debug build, and nothing in a release build; and code that must
  -- not be reached aborts in both, with a message in a debug build only.
  pub outcome_of_checks :
      (debug holds : Bool) (condition : String) (file : List ℕ) (line : ℤ) (text : List Piece)
      → (outcome (check platform global holds condition file line text)
          ≡ (if holds then (0, false) else (1, true)))
        × (outcome (dcheck platform global debug holds condition file line text)
            ≡ (if debug && not holds then (1, true) else (0, false)))
        × (outcome (not_reached platform global debug file line) ≡ ((if debug then 1 else 0), true))
  outcome_of_checks debug holds condition file line text = (
    outcome-check holds condition file line text,
    outcome-dcheck debug holds condition file line text,
    outcome-not_reached debug file line,
  )

leb_ℤ-max_ℤ : (v n m : ℤ) → pos 0 ≤ℤ v → leb_ℤ v (max_ℤ (negsuc 0) (n -ℤ m)) ≡ leb_ℤ m (n -ℤ v)
unfolding max_ℤ ◌-ℤ◌
leb_ℤ-max_ℤ v n m h = ground arith

-- A verbose message of a level that is not negative is on exactly if a message of a severity as far below the
-- platform's LOG_INFO would be created.
vlog_is_on-should_create_log_message :
    (platform : Platform) (global : LogSettings) (verbose_level : ℤ)
    → pos 0 ≤ℤ verbose_level
    → vlog_is_on platform global verbose_level
      ≡ should_create_log_message global (platform.log_info -ℤ verbose_level)
unfolding vlog_is_on should_create_log_message get_vlog_verbosity
vlog_is_on-should_create_log_message platform global verbose_level h =
    leb_ℤ-max_ℤ verbose_level platform.log_info (get_min_log_level global) h
