-- ===== src/Time/Timespec.antt =====
-- `struct timespec` and points in time: conversions and arithmetic that undo one another.
use footstone.Base.{◌+◌, ◌*◌, ◌/◌, ◌%◌, ◌<◌, ◌≡◌, ◌↔◌, refl, sym, ok, arith}
use footstone.Base.Int.{
  ℤ, pos, pos_part, neg_part, ◌+ℤ◌, ◌-ℤ◌, ◌*ℤ◌, ◌≤ℤ◌, quot_ℤ, eq_of_parts, +ℤ_parts, +ℤ_cancel,
  +ℤ_comm, quot_ℤ_parts, rem_ℤ_parts, one_sign,
}
use footstone.Time.{
  Delta, from_seconds, to_seconds, to_milliseconds, to_microseconds, delta_plus, point_plus_delta,
  point_minus_delta, point_minus, from_timespec, to_timespec,
}
use footstone.Time.Units.{InRange, int64-ok, *ℤ_pos_parts, units-ok}

-- The seconds of a delta and what is left over, for its two parts.
module _ (d : ℤ) where
  seconds_parts :
      (pos_part (to_seconds d) ≡ pos_part d / 1000 / 1000 / 1000)
      × (neg_part (to_seconds d) ≡ neg_part d / 1000 / 1000 / 1000)
  unfolding to_seconds to_milliseconds to_microseconds
  seconds_parts =
      let micros = quot_ℤ d (pos 1000) in
      let millis = quot_ℤ micros (pos 1000) in
      let (a, b) = quot_ℤ_parts d 1000 in
      let (a', b') = quot_ℤ_parts micros 1000 in
      let (a'', b'') = quot_ℤ_parts millis 1000 in (rw (← a, ← a') a'', rw (← b, ← b') b'')

  split_parts :
      let ts = to_timespec d in
      (pos_part ts.tv_sec * 1000000000 + pos_part ts.tv_nsec ≡ pos_part d)
      × (neg_part ts.tv_sec * 1000000000 + neg_part ts.tv_nsec ≡ neg_part d)
  unfolding to_timespec
  split_parts = omega (arith, seconds_parts, rem_ℤ_parts d 1000000000 (omega arith))

-- `FromTimespec` undoes `ToTimespec` for every TimeDelta, the negative ones included, and nothing
-- overflows on the way.
pub from_timespec-to_timespec : (d : Delta) → InRange d → from_timespec (to_timespec d) ≡ ok d
unfolding from_timespec delta_plus
from_timespec-to_timespec d r =
    let ts = to_timespec d in
    let parts = *ℤ_pos_parts ts.tv_sec 1000000000 in
    let seconds : from_seconds ts.tv_sec ≡ ok (ts.tv_sec *ℤ pos 1000000000) =
      ((units-ok ts.tv_sec (ts.tv_sec *ℤ pos 1000000000)).2).1
        (omega (arith, split_parts d, parts, one_sign d), refl) in
    let whole : ts.tv_sec *ℤ pos 1000000000 +ℤ ts.tv_nsec ≡ d =
      eq_of_parts _ _
        (omega (arith, split_parts d, parts, +ℤ_parts (ts.tv_sec *ℤ pos 1000000000) ts.tv_nsec)) in
    rw seconds ((int64-ok _ d).1 (rw whole r, sym whole))

-- `tv_nsec` stays below a second in absolute value, and has the sign of the delta: a negative delta
-- that is no whole number of seconds gets a negative `tv_nsec`, which POSIX does not allow.
to_timespec_sign :
    (d : Delta)
    → let ts = to_timespec d in
      (pos_part ts.tv_nsec < 1000000000)
      × (neg_part ts.tv_nsec < 1000000000)
      × ((pos 0 ≤ℤ ts.tv_nsec) ↔ (neg_part d % 1000000000 ≡ 0))
unfolding to_timespec
to_timespec_sign d =
    let (a, b) = rem_ℤ_parts d 1000000000 (omega arith) in
    (
      omega (arith, a),
      omega (arith, b),
      (λ h. omega (arith, a, b, one_sign d), λ h. omega (arith, a, b)),
    )

-- If a point can be moved by a delta at all, moving back gives the point, and the difference of the
-- two points is the delta.
point_moves :
    (p d q : ℤ)
    → InRange p
    → InRange d
    → point_plus_delta p d ≡ ok q
    → (point_minus_delta q d ≡ ok p) × (point_minus q p ≡ ok d)
unfolding point_plus_delta point_minus_delta point_minus
point_moves p d q rp rd e =
    let (r, same) = (int64-ok (p +ℤ d) q).0 e in
    let back : q -ℤ d ≡ p = rw same (+ℤ_cancel p d) in
    let step : q -ℤ p ≡ d = rw (same, +ℤ_comm p d) (+ℤ_cancel d p) in
    ((int64-ok (q -ℤ d) p).1 (rw back rp, sym back), (int64-ok (q -ℤ p) d).1 (rw step rd, sym step))
