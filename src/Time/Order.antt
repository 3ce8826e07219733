-- ===== src/Time/Order.antt =====
-- The comparison operators order values as the nanoseconds that they stand for.
use se_navi_common.Common.{◌+◌, ◌*◌, ◌≤◌, ◌<◌, ◌≡◌, ◌↔◌, ap, true, arith}
use se_navi_common.Common.Int.{pos_part, neg_part, ◌+ℤ◌, ◌·ℤ◌, ◌≤ℤ◌, ◌<ℤ◌, eq_of_parts, sum_laws}
use se_navi_common.Time.{
  Time, Duration, giga, time_total, duration_total, IsValidTime, IsValidDuration,
}
use se_navi_common.Time.Stamp
use se_navi_common.Time.Span

-- Well-formed values that stand for the same nanoseconds are equal.
pub time_total-injective :
    (t u : Time) → IsValidTime t → IsValidTime u → time_total t ≡ time_total u → t ≡ u
unfolding time_total
time_total-injective t u ht hu e i = record { sec = secs i; nsec = nsecs i }
  where
    secs : t.sec ≡ u.sec
    secs = omega arith

    nsecs : t.nsec ≡ u.nsec
    nsecs = omega arith

pub duration_total-injective :
    (d e : Duration)
    → IsValidDuration d
    → IsValidDuration e
    → duration_total d ≡ duration_total e
    → d ≡ e
unfolding duration_total
duration_total-injective d e hd he h i = record { sec = secs i; nsec = nsecs i }
  where
    pos_eq : pos_part (giga ·ℤ d.sec +ℤ d.nsec) ≡ pos_part (giga ·ℤ e.sec +ℤ e.nsec)
    pos_eq = ap pos_part h

    neg_eq : neg_part (giga ·ℤ d.sec +ℤ d.nsec) ≡ neg_part (giga ·ℤ e.sec +ℤ e.nsec)
    neg_eq = ap neg_part h

    secs : d.sec ≡ e.sec
    secs = eq_of_parts d.sec e.sec (omega (sum_laws, pos_eq, neg_eq))

    nsecs : d.nsec ≡ e.nsec
    nsecs = eq_of_parts d.nsec e.nsec (omega (sum_laws, pos_eq, neg_eq))

duration_parts :
    (d : Duration)
    → pos_part (duration_total d) + giga * neg_part d.sec + neg_part d.nsec
      ≡ neg_part (duration_total d) + giga * pos_part d.sec + pos_part d.nsec
unfolding duration_total
duration_parts d = omega sum_laws

duration_eq : (d e : Duration) → d.sec ≡ e.sec → d.nsec ≡ e.nsec → d ≡ e
duration_eq d e hs hn i = record { sec = hs i; nsec = hn i }

-- On well-formed Times, the operators <, <=, > and >= compare the nanoseconds that the values
-- stand for, and == holds exactly of equal values.
pub time_order :
    (t u : Time)
    → IsValidTime t
    → IsValidTime u
    → ((Stamp.less t u ≡ true) ↔ (time_total t < time_total u))
      × ((Stamp.less_equal t u ≡ true) ↔ (time_total t ≤ time_total u))
      × ((Stamp.greater t u ≡ true) ↔ (time_total u < time_total t))
      × ((Stamp.greater_equal t u ≡ true) ↔ (time_total u ≤ time_total t))
      × ((Stamp.equals t u ≡ true) ↔ (t ≡ u))
unfolding time_total Stamp.less Stamp.less_equal Stamp.greater Stamp.greater_equal Stamp.equals
time_order t u ht hu = (ground arith, ground arith, ground arith, ground arith, ground arith)

-- On well-formed Durations, the operators <, <=, > and >= compare the signed nanoseconds that
-- the values stand for, and == holds exactly of equal values.
pub duration_order :
    (d e : Duration)
    → IsValidDuration d
    → IsValidDuration e
    → ((Span.less d e ≡ true) ↔ (duration_total d <ℤ duration_total e))
      × ((Span.less_equal d e ≡ true) ↔ (duration_total d ≤ℤ duration_total e))
      × ((Span.greater d e ≡ true) ↔ (duration_total e <ℤ duration_total d))
      × ((Span.greater_equal d e ≡ true) ↔ (duration_total e ≤ℤ duration_total d))
      × ((Span.equals d e ≡ true) ↔ (d ≡ e))
unfolding duration_total Span.less Span.less_equal Span.greater Span.greater_equal Span.equals
duration_order d e hd he =
    let td = duration_parts d in
    let te = duration_parts e in
    (
      ground (arith, td, te),
      ground (arith, td, te),
      ground (arith, td, te),
      ground (arith, td, te),
      (λ h. duration_eq d e (ground arith) (ground arith), λ h. ground arith),
    )
