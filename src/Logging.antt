-- ===== src/Logging.antt =====
-- src/footstone/log_settings.cc and include/footstone/logging.h, with what the logging.cc files of the
-- platforms have in common: the settings, and the head of a message. They differ in the macro that they
-- compare severities with, here `log_info`: TDF_LOG_INFO on Android, and elsewhere LOG_INFO of syslog.h,
-- which the file for Windows defines itself. What is streamed is a list of pieces; the printing of numbers
-- is the stream's.
pub mod Sinks
pub mod Paths
pub mod Fatal
mod Tests
use Prim.Native.String.{String}
use footstone.Base.{
  ℕ, suc, ◌+◌, Bool, true, false, not, ◌&&◌, List, [], ◌∷◌, ◌++◌, Option, none, some, get_or, ◌==◌,
  if◌then◌else◌, Outcome, ok, fault, failed_check, ◌>>=◌,
}
use footstone.Base.Int.{ℤ, pos, negsuc, ◌-ℤ◌, pos_part, ltb_ℤ, leb_ℤ}
use footstone.StringView.{View, latin1, utf8, utf16, utf32, unkown, value}

pub data Piece : Type 0 where
  words : String → Piece
  chars : List ℕ → Piece
  number : ℤ → Piece

-- `LogSeverity`; TDF_LOG_DEBUG is 0 too.
abbrev pub info : ℤ
info = pos 0

abbrev pub warning : ℤ
warning = pos 1

abbrev pub error : ℤ
error = pos 2

abbrev pub fatal : ℤ
fatal = pos 3

abbrev pub num_severities : ℤ
num_severities = pos 4

abbrev pub severity_names : List String
severity_names = "INFO" ∷ "WARNING" ∷ "ERROR" ∷ "FATAL" ∷ []

-- `std::min` and `std::max`
unfoldable pub min_ℤ : ℤ → ℤ → ℤ
min_ℤ a b = if ltb_ℤ b a then b else a

unfoldable pub max_ℤ : ℤ → ℤ → ℤ
max_ℤ a b = if ltb_ℤ a b then b else a

pub record LogSettings : Type 0 where
  pub min_log_level : ℤ

-- `global_log_settings` at the start.
abbrev pub default_settings : LogSettings
default_settings = record { min_log_level = info }

unfoldable pub set_log_settings : LogSettings → LogSettings
unfolding min_ℤ
set_log_settings settings = record { min_log_level = min_ℤ fatal settings.min_log_level }

unfoldable pub get_min_log_level : LogSettings → ℤ
unfolding min_ℤ
get_min_log_level global = min_ℤ global.min_log_level fatal

unfoldable pub should_create_log_message : LogSettings → ℤ → Bool
unfolding get_min_log_level
should_create_log_message global severity = leb_ℤ (get_min_log_level global) severity

-- `GetNameForLogSeverity`
unfoldable pub get_name_for_log_severity : ℤ → ℤ → String
get_name_for_log_severity log_info severity =
    if leb_ℤ log_info severity && ltb_ℤ severity num_severities
    then get_or severity_names (pos_part severity) "UNKNOWN"
    else "UNKNOWN"

-- `while (strncmp(path, "../", 3) == 0) path += 3;`
unfoldable pub strip_dots : List ℕ → List ℕ
strip_dots (a ∷ b ∷ c ∷ path) =
    let rest = strip_dots path in
    if (a == b'.') && ((b == b'.') && (c == b'/')) then rest else a ∷ b ∷ c ∷ path
strip_dots path = path

-- What is behind the last slash, as `strrchr` finds it.
unfoldable pub after_slash : List ℕ → Option (List ℕ)
after_slash [] = none
after_slash (c ∷ path) = elim (after_slash path) [
  | some rest ↦ some rest
  | none ↦ if c == b'/' then some path else none
]

unfoldable pub strip_path : List ℕ → List ℕ
unfolding after_slash
strip_path path = elim (after_slash path) [ none ↦ path | some rest ↦ rest ]

-- The constructor of `LogMessage` streams this; `condition` is that of a failed check.
unfoldable pub message_head : ℤ → ℤ → List ℕ → ℤ → Option String → List Piece
unfolding get_name_for_log_severity strip_dots strip_path
message_head log_info severity file line condition =
    let name =
      if leb_ℤ log_info severity
      then words (get_name_for_log_severity log_info severity) ∷ []
      else words "VERBOSE" ∷ number (pos 0 -ℤ severity) ∷ [] in
    let path = if ltb_ℤ log_info severity then strip_dots file else strip_path file in
    let check : List Piece = elim condition [
      | none ↦ []
      | some c ↦ words "Check failed: " ∷ words c ∷ words ". " ∷ []
    ] in
    (words "[" ∷ [])
    ++ (name ++ (words ":" ∷ chars path ∷ words "(" ∷ number line ∷ words ")] " ∷ check))

unfoldable pub get_vlog_verbosity : ℤ → LogSettings → ℤ
unfolding max_ℤ get_min_log_level
get_vlog_verbosity log_info global = max_ℤ (negsuc 0) (log_info -ℤ get_min_log_level global)

-- `operator<<` for string views. The conversions are those of std::wstring_convert, which may throw; `debug`
-- says whether `assert` is compiled in.
unfoldable pub stream_view :
    (List ℕ → Outcome (List ℕ)) → (List ℕ → Outcome (List ℕ)) → Bool → View → Outcome (List Piece)
unfolding value
stream_view from_utf16 from_utf32 debug v = elim v.encoding [
  | latin1 ↦ do s ← value latin1 v; ok (chars s ∷ [])
  | utf16 ↦ do s ← value utf16 v; bytes ← from_utf16 s; ok (chars bytes ∷ [])
  | utf32 ↦ do s ← value utf32 v; bytes ← from_utf32 s; ok (chars bytes ∷ [])
  | utf8 ↦ do s ← value utf8 v; ok (chars s ∷ [])
  | unkown ↦ if debug then fault failed_check else ok []
]
