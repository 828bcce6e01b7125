-- ===== src/Time/Units.antt =====
-- Units of `TimeDelta`, and the arithmetic of times that stays in range.
use footstone.Base.{ℕ, ◌*◌, ◌≡◌, ◌↔◌, refl, sym, ap, stages, Outcome, ok, ◌>>=◌, arith}
use footstone.Base.Int.{ℤ, pos, negsuc, pos_part, neg_part, ◌*ℤ◌, ◌≤ℤ◌, quot_ℤ, eq_of_parts}
use footstone.Time.{
  int64_min, int64_max, int64, from_microseconds, from_milliseconds, from_seconds, to_microseconds,
  to_milliseconds, to_seconds,
}

abbrev pub InRange : ℤ → Type 0
InRange n = (int64_min ≤ℤ n) × (n ≤ℤ int64_max)

-- An int64_t expression has its value exactly if that is in range.
pub int64-ok : (n m : ℤ) → (int64 n ≡ ok m) ↔ (InRange n × (m ≡ n))
unfolding int64
int64-ok n m = (λ e. ground arith, λ h. ground arith)

pub *ℤ_pos_parts :
    (a : ℤ) (k : ℕ)
    → (pos_part (a *ℤ pos k) ≡ pos_part a * k) × (neg_part (a *ℤ pos k) ≡ neg_part a * k)
unfolding ◌*ℤ◌
*ℤ_pos_parts (pos n) k = ground arith
*ℤ_pos_parts (negsuc n) k = ground arith

quot-1000 : (a : ℤ) → quot_ℤ (a *ℤ pos 1000) (pos 1000) ≡ a
unfolding quot_ℤ
quot-1000 (pos n) = ground (arith, *ℤ_pos_parts (pos n) 1000)
quot-1000 (negsuc n) = ground (arith, *ℤ_pos_parts (negsuc n) 1000)

million : (a : ℤ) → a *ℤ pos 1000 *ℤ pos 1000 ≡ a *ℤ pos 1000000
million a =
    eq_of_parts _ _ (
      omega (arith, *ℤ_pos_parts a 1000, *ℤ_pos_parts (a *ℤ pos 1000) 1000, *ℤ_pos_parts a 1000000))

milliard : (a : ℤ) → a *ℤ pos 1000 *ℤ pos 1000000 ≡ a *ℤ pos 1000000000
milliard a = eq_of_parts _ _ (
    omega
      (arith, *ℤ_pos_parts a 1000, *ℤ_pos_parts (a *ℤ pos 1000) 1000000, *ℤ_pos_parts a 1000000000))

million-InRange : (a : ℤ) → InRange (a *ℤ pos 1000000) → InRange (a *ℤ pos 1000)
million-InRange a h = omega (arith, *ℤ_pos_parts a 1000, *ℤ_pos_parts a 1000000)

milliard-InRange : (a : ℤ) → InRange (a *ℤ pos 1000000000) → InRange (a *ℤ pos 1000)
milliard-InRange a h = omega (arith, *ℤ_pos_parts a 1000, *ℤ_pos_parts a 1000000000)

int64_then :
    (n : ℤ) (f : ℤ → Outcome ℤ) (d : ℤ) → ((int64 n >>= f) ≡ ok d) ↔ (InRange n × (f n ≡ ok d))
int64_then n f d = (
  λ e.
      let (m, q, p) = stages f (int64 n) e in
      let (r, same) = (int64-ok n m).0 p in (r, rw (← same) q),
  λ (r, e). rw ((int64-ok n n).1 (r, refl)) e,
)

-- Each conversion returns exactly if the number of nanoseconds fits into int64_t; the products on the
-- way never overflow alone.
pub units-ok :
    (n d : ℤ)
    → ((from_microseconds n ≡ ok d) ↔ (InRange (n *ℤ pos 1000) × (d ≡ n *ℤ pos 1000)))
      × ((from_milliseconds n ≡ ok d) ↔ (InRange (n *ℤ pos 1000000) × (d ≡ n *ℤ pos 1000000)))
      × ((from_seconds n ≡ ok d) ↔ (InRange (n *ℤ pos 1000000000) × (d ≡ n *ℤ pos 1000000000)))
unfolding from_microseconds from_milliseconds from_seconds
units-ok n d = (
  micros n,
  millis n,
  (
    λ e.
        let (_, f) = (int64_then (n *ℤ pos 1000) from_milliseconds d).0 e in
        rw (milliard n) at ((millis (n *ℤ pos 1000)).0 f),
    λ (r, e).
        (int64_then (n *ℤ pos 1000) from_milliseconds d).1
          (milliard-InRange n r, (millis (n *ℤ pos 1000)).1 (rw (milliard n) (r, e))),
  ),
)
  where
    micros :
        (n : ℤ) → (from_microseconds n ≡ ok d) ↔ (InRange (n *ℤ pos 1000) × (d ≡ n *ℤ pos 1000))
    micros n = (
      λ e. let (r, f) = (int64_then (n *ℤ pos 1000) (λ m. ok m) d).0 e in (r, ground arith),
      λ (r, e). (int64_then (n *ℤ pos 1000) (λ m. ok m) d).1 (r, ap ok (sym e)),
    )

    millis :
        (n : ℤ)
        → (from_milliseconds n ≡ ok d) ↔ (InRange (n *ℤ pos 1000000) × (d ≡ n *ℤ pos 1000000))
    millis n = (
      λ e.
          let (_, f) = (int64_then (n *ℤ pos 1000) from_microseconds d).0 e in
          rw (million n) at ((micros (n *ℤ pos 1000)).0 f),
      λ (r, e).
          (int64_then (n *ℤ pos 1000) from_microseconds d).1
            (million-InRange n r, (micros (n *ℤ pos 1000)).1 (rw (million n) (r, e))),
    )

-- What is built from seconds, milliseconds or microseconds reads back as the same number of them.
units_round_trip :
    (n d : ℤ)
    → (from_microseconds n ≡ ok d → to_microseconds d ≡ n)
      × (from_milliseconds n ≡ ok d → to_milliseconds d ≡ n)
      × (from_seconds n ≡ ok d → to_seconds d ≡ n)
unfolding to_microseconds to_milliseconds to_seconds
units_round_trip n d = (
  λ e. rw (((units-ok n d).0.0 e).1) (quot-1000 n),
  λ e. rw (((units-ok n d).1.0 e).1, ← million n, quot-1000 (n *ℤ pos 1000)) (quot-1000 n),
  λ e.
      rw
        (
          ((units-ok n d).2.0 e).1,
          ← milliard n,
          ← million (n *ℤ pos 1000),
          quot-1000 (n *ℤ pos 1000 *ℤ pos 1000),
          quot-1000 (n *ℤ pos 1000),
        )
        (quot-1000 n),
)
