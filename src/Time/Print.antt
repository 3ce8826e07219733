-- ===== src/Time/Print.antt =====
-- `operator<<` of `Time` and `Duration` (Source/Time/Time.cpp); those of the wall clock are the same.
use se_navi_common.Common.{
  ℕ, zero, suc, ◌+◌, ◌-◌, ◌*◌, ◌/◌, ◌%◌, ◌≡◌, false, ◌==◌, if◌then◌else◌, List, [], ◌∷◌, ◌++◌,
  length, All,
}
use se_navi_common.Common.Int.{ℤ, pos, negsuc, pos_part}
use se_navi_common.Time.{Time, Duration, giga}
use se_navi_common.Config.AutoVal.{digits, number}

-- `std::setw(width) << std::setfill('0')`, where the number has no more digits than that.
unfoldable pub padded : ℕ → ℕ → List ℕ
padded zero n = []
padded (suc width) n = padded width (n / 10) ++ ((b'0' + n % 10) ∷ [])

unfoldable pub print_time : Time → List ℕ
print_time t = digits (suc t.sec) t.sec ++ (b'.' ∷ padded 9 t.nsec)

-- A number of seconds.
abbrev pub print_int : ℤ → List ℕ
print_int (pos n) = digits (suc n) n
print_int (negsuc n) = b'-' ∷ digits (n + 2) (n + 1)

-- With `sec` below zero and `nsec` above: the sign of `sec + 1`, or one where that is zero.
abbrev pub print_below : ℕ → ℕ → List ℕ
print_below zero nsec = b'-' ∷ digits 1 0 ++ (b'.' ∷ padded 9 (giga - nsec))
print_below (suc n) nsec = b'-' ∷ digits (n + 2) (n + 1) ++ (b'.' ∷ padded 9 (giga - nsec))

abbrev pub print_parts : ℤ → ℕ → List ℕ
print_parts (pos n) nsec = print_int (pos n) ++ (b'.' ∷ padded 9 nsec)
print_parts (negsuc n) nsec =
    if nsec == 0 then print_int (negsuc n) ++ (b'.' ∷ padded 9 nsec) else print_below n nsec

unfoldable pub print_duration : Duration → List ℕ
print_duration d = print_parts d.sec (pos_part d.nsec)

-- A decimal number as its nanoseconds: the digits up to the point, and those behind it.
unfoldable pub after_point : List ℕ → List ℕ
after_point [] = []
after_point (c ∷ cs) = let rest = after_point cs in if c == b'.' then cs else rest

-- 10 ^ width.
abbrev pub ten_to : ℕ → ℕ
ten_to zero = 1
ten_to (suc width) = 10 * ten_to width

-- The first digit behind the point stands for tenths, the ninth for nanoseconds.
abbrev pub nanos : List ℕ → ℕ
nanos s = number 0 s * ten_to (9 - length s)

abbrev pub decimal : List ℕ → ℕ
decimal s = giga * number 0 s + nanos (after_point s)

abbrev negative : ℕ → ℤ
negative zero = pos zero
negative (suc n) = negsuc n

abbrev pub reading : List ℕ → ℤ
reading [] = pos 0
reading (c ∷ cs) = if c == b'-' then negative (decimal cs) else pos (decimal (c ∷ cs))

abbrev Pointless : List ℕ → Type 0
Pointless s = All (λ c. (c == b'.') ≡ false) s
