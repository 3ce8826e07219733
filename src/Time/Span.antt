-- ===== src/Time/Span.antt =====
-- The members of `DurationBase` (Source/Time/Duration.h, Source/Time/Implement/Duration.h). A sum
-- or a negation of `int32_t` numbers that leaves their range wraps around.
use se_navi_common.Common.{Bool, true, false, ◌&&◌, if◌then◌else◌, Result, and_then}
use se_navi_common.Common.Int.{ℤ, pos, ◌+ℤ◌, ◌-ℤ◌, ◌·ℤ◌, ltb_ℤ, leb_ℤ, eqb_ℤ, tdiv, tmod, i32, i64}
use se_navi_common.Time.{Duration, TimeError, giga, make_duration}

-- `operator+`, and `operator+=`.
unfoldable pub add : Duration → Duration → Result TimeError Duration
add d rhs = make_duration (i32 (d.sec +ℤ rhs.sec)) (i32 (d.nsec +ℤ rhs.nsec))

-- `operator-(const T&)`.
unfoldable pub sub : Duration → Duration → Result TimeError Duration
sub d rhs = make_duration (i32 (d.sec -ℤ rhs.sec)) (i32 (d.nsec -ℤ rhs.nsec))

-- `operator-()`.
unfoldable pub neg : Duration → Result TimeError Duration
neg d = make_duration (i32 (pos 0 -ℤ d.sec)) (i32 (pos 0 -ℤ d.nsec))

-- `operator-=`, which adds the negation.
unfoldable pub sub_assign : Duration → Duration → Result TimeError Duration
sub_assign d rhs = and_then (neg rhs) (add d)

-- `operator==`.
unfoldable pub equals : Duration → Duration → Bool
equals d rhs = eqb_ℤ d.sec rhs.sec && eqb_ℤ d.nsec rhs.nsec

-- `operator<`.
unfoldable pub less : Duration → Duration → Bool
less d rhs =
    if ltb_ℤ d.sec rhs.sec
    then true
    else if eqb_ℤ d.sec rhs.sec && ltb_ℤ d.nsec rhs.nsec
    then true
    else false

-- `operator<=`.
unfoldable pub less_equal : Duration → Duration → Bool
less_equal d rhs =
    if ltb_ℤ d.sec rhs.sec
    then true
    else if eqb_ℤ d.sec rhs.sec && leb_ℤ d.nsec rhs.nsec
    then true
    else false

-- `operator>` and `operator>=`.
unfoldable pub greater : Duration → Duration → Bool
greater d rhs =
    if ltb_ℤ rhs.sec d.sec
    then true
    else if eqb_ℤ d.sec rhs.sec && ltb_ℤ rhs.nsec d.nsec
    then true
    else false

unfoldable pub greater_equal : Duration → Duration → Bool
greater_equal d rhs =
    if ltb_ℤ rhs.sec d.sec
    then true
    else if eqb_ℤ d.sec rhs.sec && leb_ℤ rhs.nsec d.nsec
    then true
    else false

unfoldable pub is_zero : Duration → Bool
is_zero d = eqb_ℤ d.sec (pos 0) && eqb_ℤ d.nsec (pos 0)

-- `toNSec` and `fromNSec`, on `int64_t`.
unfoldable pub to_nsec : Duration → ℤ
to_nsec d = i64 (i64 (giga ·ℤ d.sec) +ℤ d.nsec)

unfoldable pub from_nsec : ℤ → Result TimeError Duration
from_nsec t = make_duration (i32 (tdiv t giga)) (i32 (tmod t giga))
