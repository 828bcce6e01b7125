-- ===== src/Logging/Sinks.antt =====
-- The ends of a message in the logging.cc files of src/platform, and the macros of logging.h. What happens is
-- a list of events.
use Prim.Native.String.{String}
use footstone.Base.{ℕ, Bool, false, not, List, [], ◌∷◌, ◌++◌, Option, none, some, if◌then◌else◌}
use footstone.Base.Int.{ℤ, pos, ltb_ℤ, leb_ℤ, eqb_ℤ}
use footstone.Logging.{
  Piece, words, info, warning, error, fatal, LogSettings, message_head, should_create_log_message,
  get_vlog_verbosity,
}

-- `android_LogPriority`
pub data Priority : Type 0 where
  verbose_priority unknown_priority info_priority warn_priority error_priority fatal_priority :
      Priority

pub data Event : Type 0 where
  to_syslog : List Piece → Event
  to_cerr : List Piece → Event
  to_android : Priority → List Piece → Event
  to_delegate : List Piece → ℤ → Event
  aborted : Event

abbrev pub endl : Piece
endl = words "\n"

unfoldable pub abort_if_fatal : ℤ → List Event
abort_if_fatal severity = if leb_ℤ fatal severity then aborted ∷ [] else []

-- `~LogMessage` on Linux and macOS.
unfoldable pub end_linux : List Piece → ℤ → List Event
unfolding abort_if_fatal
end_linux stream severity = to_syslog (stream ++ (endl ∷ [])) ∷ abort_if_fatal severity

unfoldable pub end_mac : List Piece → ℤ → List Event
unfolding abort_if_fatal
end_mac stream severity = to_syslog (stream ++ (endl ∷ [])) ∷ abort_if_fatal severity

unfoldable pub end_windows : List Piece → ℤ → List Event
unfolding abort_if_fatal
end_windows stream severity = to_cerr (stream ++ (endl ∷ [])) ∷ abort_if_fatal severity

-- The value that `delegate_` has at the start.
unfoldable pub ios_delegate : List Piece → ℤ → List Event
unfolding abort_if_fatal
ios_delegate stream severity = to_syslog (words "tdf: " ∷ stream) ∷ abort_if_fatal severity

unfoldable pub priority_of : ℤ → Priority
priority_of severity =
    if eqb_ℤ severity info
    then info_priority
    else if eqb_ℤ severity warning
    then warn_priority
    else if eqb_ℤ severity error
    then error_priority
    else if eqb_ℤ severity fatal
    then fatal_priority
    else if ltb_ℤ severity (pos 0)
    then verbose_priority
    else unknown_priority

unfoldable pub android_delegate : List Piece → ℤ → List Event
unfolding priority_of abort_if_fatal
android_delegate stream severity =
    to_android (priority_of severity) stream ∷ abort_if_fatal severity

-- `~LogMessage` on iOS and Android; `none` is an empty function.
unfoldable pub end_delegated : Option (List Piece → ℤ → List Event) → List Piece → ℤ → List Event
end_delegated none stream severity = []
end_delegated (some delegate) stream severity = delegate (stream ++ (endl ∷ [])) severity

-- A platform: its macro and what `~LogMessage` does there.
pub record Platform : Type 0 where
  pub log_info : ℤ
  pub end : List Piece → ℤ → List Event

unfoldable pub linux : ℤ → Platform
unfolding end_linux
linux log_info = record { log_info = log_info; end = end_linux }

unfoldable pub mac : ℤ → Platform
unfolding end_mac
mac log_info = record { log_info = log_info; end = end_mac }

-- The file defines LOG_INFO as 6.
unfoldable pub windows : Platform
unfolding end_windows
windows = record { log_info = pos 6; end = end_windows }

unfoldable pub ios : ℤ → Option (List Piece → ℤ → List Event) → Platform
unfolding end_delegated
ios log_info delegate = record { log_info = log_info; end = end_delegated delegate }

unfoldable pub android : Option (List Piece → ℤ → List Event) → Platform
unfolding end_delegated
android delegate = record { log_info = info; end = end_delegated delegate }

module _ (platform : Platform) (global : LogSettings) where
  -- A temporary `LogMessage` lives until the statement that streams `text` into it ends.
  unfoldable pub message : ℤ → List ℕ → ℤ → Option String → List Piece → List Event
  unfolding message_head
  message severity file line condition text =
      platform.end (message_head platform.log_info severity file line condition ++ text) severity

  -- TDF_BASE_LOG
  unfoldable pub log : ℤ → List ℕ → ℤ → List Piece → List Event
  unfolding message should_create_log_message
  log severity file line text =
      if should_create_log_message global severity then message severity file line none text else []

  -- TDF_BASE_CHECK
  unfoldable pub check : Bool → String → List ℕ → ℤ → List Piece → List Event
  unfolding message
  check holds condition file line text =
      if not holds then message fatal file line (some condition) text else []

  -- TDF_BASE_DCHECK; in a release build it streams nothing.
  unfoldable pub dcheck : Bool → Bool → String → List ℕ → ℤ → List Piece → List Event
  unfolding check
  dcheck debug holds condition file line text =
      if debug then check holds condition file line text else []

  -- TDF_BASE_DLOG
  unfoldable pub dlog : Bool → ℤ → List ℕ → ℤ → List Piece → List Event
  unfolding log
  dlog debug severity file line text = if debug then log severity file line text else []

  -- TDF_BASE_NOTREACHED
  unfoldable pub not_reached : Bool → List ℕ → ℤ → List Event
  unfolding dcheck
  not_reached debug file line = dcheck debug false "false" file line [] ++ (aborted ∷ [])

  -- TDF_BASE_VLOG_IS_ON
  unfoldable pub vlog_is_on : ℤ → Bool
  unfolding get_vlog_verbosity
  vlog_is_on verbose_level = leb_ℤ verbose_level (get_vlog_verbosity platform.log_info global)
