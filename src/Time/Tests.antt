-- ===== src/Time/Tests.antt =====
-- Runs of the time classes, and instances of their theorems.
use footstone.Base.{◌≡◌, ◌↔◌, refl, ok, fault, signed_overflow, arith}
use footstone.Base.Int.{pos, negsuc, ◌*ℤ◌, ◌+ℤ◌, quot_ℤ, rem_ℤ}
use footstone.Time.{
  int64, max_delta, from_microseconds, from_milliseconds, from_seconds, to_microseconds,
  to_milliseconds, to_seconds, point_plus_delta, from_timespec, to_timespec,
}
use footstone.Time.Units.{InRange, units-ok}
use footstone.Time.Timespec.{from_timespec-to_timespec}

seconds_too_many : from_seconds (pos 9223372037) ≡ fault signed_overflow
unfolding from_seconds
seconds_too_many = refl

half_a_second_back :
    to_timespec (negsuc 499999999) ≡ record { tv_sec = pos 0; tv_nsec = negsuc 499999999 }
unfolding to_timespec to_seconds to_milliseconds to_microseconds quot_ℤ rem_ℤ
half_a_second_back = refl

-- A delay of `TimeDelta::Max()` behind any later moment than the epoch overflows.
longest_delay : point_plus_delta (pos 1) max_delta ≡ fault signed_overflow
unfolding point_plus_delta int64 ◌+ℤ◌
longest_delay = refl

units-ok_example :
    ((from_microseconds (pos 7) ≡ ok (pos 7000))
      ↔ (InRange (pos 7 *ℤ pos 1000) × (pos 7000 ≡ pos 7 *ℤ pos 1000)))
    × ((from_milliseconds (pos 7) ≡ ok (pos 7000))
        ↔ (InRange (pos 7 *ℤ pos 1000000) × (pos 7000 ≡ pos 7 *ℤ pos 1000000)))
    × ((from_seconds (pos 7) ≡ ok (pos 7000))
        ↔ (InRange (pos 7 *ℤ pos 1000000000) × (pos 7000 ≡ pos 7 *ℤ pos 1000000000)))
units-ok_example = units-ok (pos 7) (pos 7000)

from_timespec-to_timespec_example :
    from_timespec (to_timespec (negsuc 1499999999)) ≡ ok (negsuc 1499999999)
from_timespec-to_timespec_example = from_timespec-to_timespec (negsuc 1499999999) (omega arith)
