-- ===== src/Time.antt =====
-- include/footstone/time_delta.h and include/footstone/time_point.h. Both classes hold one int64_t
-- of nanoseconds, an integer here; arithmetic that leaves the range of int64_t is a fault, as signed
-- overflow is undefined. The conversions from and to `double` are left out.
pub mod Units
pub mod Timespec
mod Tests
use footstone.Base.{
  ℕ, ◌+◌, ◌-◌, ◌^◌, Bool, true, false, not, ◌&&◌, Outcome, ok, fault, signed_overflow, require,
  ◌>>=◌, ◌>>◌, if◌then◌else◌,
}
use footstone.Base.Int.{ℤ, pos, negsuc, ◌+ℤ◌, ◌-ℤ◌, ◌*ℤ◌, quot_ℤ, rem_ℤ, eqb_ℤ, leb_ℤ, ltb_ℤ}

abbrev pub int64_min : ℤ
int64_min = negsuc (2 ^ 63 - 1)

abbrev pub int64_max : ℤ
int64_max = pos (2 ^ 63 - 1)

unfoldable pub in_int64 : ℤ → Bool
in_int64 n = leb_ℤ int64_min n && leb_ℤ n int64_max

-- The value of an int64_t expression.
unfoldable pub int64 : ℤ → Outcome ℤ
unfolding in_int64
int64 n = require (in_int64 n) signed_overflow >> ok n

-- A `TimeDelta`, by its `delta_`.
abbrev pub Delta : Type 0
Delta = ℤ

-- A `TimePoint`, by its `ticks_`.
abbrev pub Point : Type 0
Point = ℤ

abbrev pub zero_delta : Delta
zero_delta = pos 0

abbrev pub min_delta : Delta
min_delta = int64_min

abbrev pub max_delta : Delta
max_delta = int64_max

abbrev pub max_point : Point
max_point = int64_max

abbrev pub from_nanoseconds : ℤ → Delta
from_nanoseconds nanos = nanos

unfoldable pub from_microseconds : ℤ → Outcome Delta
unfolding int64 ◌*ℤ◌
from_microseconds micros = int64 (micros *ℤ pos 1000) >>= (λ n. ok (from_nanoseconds n))

unfoldable pub from_milliseconds : ℤ → Outcome Delta
unfolding from_microseconds
from_milliseconds millis = int64 (millis *ℤ pos 1000) >>= from_microseconds

unfoldable pub from_seconds : ℤ → Outcome Delta
unfolding from_milliseconds
from_seconds seconds = int64 (seconds *ℤ pos 1000) >>= from_milliseconds

abbrev pub to_nanoseconds : Delta → ℤ
to_nanoseconds d = d

unfoldable pub to_microseconds : Delta → ℤ
to_microseconds d = quot_ℤ (to_nanoseconds d) (pos 1000)

unfoldable pub to_milliseconds : Delta → ℤ
to_milliseconds d = quot_ℤ (to_microseconds d) (pos 1000)

unfoldable pub to_seconds : Delta → ℤ
to_seconds d = quot_ℤ (to_milliseconds d) (pos 1000)

-- The operators of `TimeDelta`.
unfoldable pub delta_minus : Delta → Delta → Outcome Delta
delta_minus d other = int64 (d -ℤ other)

unfoldable pub delta_plus : Delta → Delta → Outcome Delta
delta_plus d other = int64 (d +ℤ other)

unfoldable pub delta_times : Delta → ℤ → Outcome Delta
delta_times d multiplier = int64 (d *ℤ multiplier)

-- Both divisions. The quotient of the least value by -1 does not fit.
unfoldable pub delta_divide : Delta → ℤ → Outcome ℤ
delta_divide d divisor = do
  require (not (eqb_ℤ divisor (pos 0))) signed_overflow
  int64 (quot_ℤ d divisor)

unfoldable pub delta_rem : Delta → Delta → Outcome Delta
delta_rem d other = do
  require (not (eqb_ℤ other (pos 0))) signed_overflow
  _ ← int64 (quot_ℤ d other)
  ok (rem_ℤ d other)

-- The operators of `TimePoint`.
unfoldable pub point_minus : Point → Point → Outcome Delta
point_minus p other = int64 (p -ℤ other)

unfoldable pub point_plus_delta : Point → Delta → Outcome Point
point_plus_delta p d = int64 (p +ℤ d)

unfoldable pub point_minus_delta : Point → Delta → Outcome Point
point_minus_delta p d = int64 (p -ℤ d)

-- The comparisons of both classes.
abbrev pub time_lt : ℤ → ℤ → Bool
time_lt a b = ltb_ℤ a b

abbrev pub time_le : ℤ → ℤ → Bool
time_le a b = leb_ℤ a b

abbrev pub time_eq : ℤ → ℤ → Bool
time_eq a b = eqb_ℤ a b

-- `struct timespec`
pub record Spec : Type 0 where
  pub tv_sec : ℤ
  pub tv_nsec : ℤ

unfoldable pub from_timespec : Spec → Outcome Delta
from_timespec ts = do s ← from_seconds ts.tv_sec; delta_plus s (from_nanoseconds ts.tv_nsec)

unfoldable pub to_timespec : Delta → Spec
to_timespec d = record { tv_sec = to_seconds d; tv_nsec = rem_ℤ d (pos 1000000000) }
