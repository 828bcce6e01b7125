-- ===== src/Logging/Tests.antt =====
-- Runs of the log on small messages.
use footstone.Base.{ℕ, List, [], ◌∷◌, true, false, none, ◌≡◌, refl}
use footstone.Base.Int.{◌≤ℤ◌, pos, negsuc, ◌-ℤ◌}
use footstone.Logging.{
  words, chars, number, error, fatal, LogSettings, default_settings, should_create_log_message,
  set_log_settings, strip_dots, strip_path, after_slash, message_head, get_vlog_verbosity,
  get_min_log_level, min_ℤ, max_ℤ,
}
use footstone.Logging.Sinks.{
  dcheck, not_reached, linux, windows, ios, android, log, check, message, end_windows,
  end_delegated, abort_if_fatal, to_cerr, vlog_is_on,
}
use footstone.Logging.Fatal.{on_linux, on_windows, outcome, outcome-log, outcome_of_checks}

abbrev path : List ℕ
path = b'.' ∷ b'.' ∷ b'/' ∷ b'a' ∷ b'/' ∷ b'b' ∷ []

abbrev quiet : LogSettings
unfolding set_log_settings min_ℤ
quiet = set_log_settings (record { min_log_level = pos 9 })

-- An error as Windows shows it.
error_shown_as_verbose :
    log windows default_settings error path (pos 7) (words "no" ∷ [])
    ≡ to_cerr (
        words "["
        ∷ words "VERBOSE"
        ∷ number (negsuc 1)
        ∷ words ":"
        ∷ chars (b'b' ∷ [])
        ∷ words "("
        ∷ number (pos 7)
        ∷ words ")] "
        ∷ words "no"
        ∷ words "\n"
        ∷ [])
      ∷ []
unfolding windows log message should_create_log_message get_min_log_level min_ℤ message_head
    strip_path after_slash end_windows abort_if_fatal ◌-ℤ◌
error_shown_as_verbose = refl

-- Without a delegate a fatal message neither aborts nor is written.
no_delegate : log (ios (pos 6) none) default_settings fatal path (pos 7) [] ≡ []
unfolding ios log message should_create_log_message get_min_log_level min_ℤ end_delegated
no_delegate = refl

dots : strip_dots path ≡ b'a' ∷ b'/' ∷ b'b' ∷ []
unfolding strip_dots
dots = refl

verbose_default :
    (vlog_is_on windows default_settings (pos 6) ≡ true)
    × (vlog_is_on (android none) default_settings (pos 1) ≡ false)
unfolding windows android vlog_is_on get_vlog_verbosity get_min_log_level min_ℤ max_ℤ ◌-ℤ◌
verbose_default = (refl, refl)

outcome-log_example :
    (outcome (log windows quiet fatal path (pos 7) []) ≡ (1, true))
    × (get_min_log_level quiet ≤ℤ fatal)
unfolding get_min_log_level min_ℤ quiet
outcome-log_example = outcome-log windows on_windows quiet fatal path (pos 7) []

outcome_of_checks_example :
    (outcome (check (linux (pos 6)) quiet false "x" path (pos 7) []) ≡ (1, true))
    × (outcome (dcheck (linux (pos 6)) quiet false false "x" path (pos 7) []) ≡ (0, false))
    × (outcome (not_reached (linux (pos 6)) quiet false path (pos 7)) ≡ (0, true))
outcome_of_checks_example =
    outcome_of_checks (linux (pos 6)) (on_linux (pos 6)) quiet false false "x" path (pos 7) []
