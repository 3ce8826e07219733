-- ===== src/Console/Bounds.antt =====
-- When a line fits into the buffer of Source/Console/Console.h.
use se_navi_common.Common.{
  ℕ, zero, suc, ◌+◌, ◌*◌, ◌/◌, ◌%◌, ◌≤◌, ◌<◌, ◌≡◌, refl, ap, sym, ◌∙◌, true, false, Bool-cases, inl,
  inr, if◌then◌else◌, leb, leb→le, ltb, ltb→lt, lt→ltb, ltb→ge, List, [], ◌∷◌, ◌++◌, append_assoc,
  append-nil, length, length-append, take, ok, err, arith,
}
use se_navi_common.Common.Int.{ℤ, pos, negsuc, pos_part, neg_part, ◌+ℤ◌, int_laws}
use se_navi_common.Config.{String}
use se_navi_common.Config.AutoVal.{digits, of_int}
use se_navi_common.Time.Utils.{Tm, get_time_string}
use se_navi_common.Console.{
  Console, buffer_overrun, strcat, strcats, output, printed, line, put_line,
}

abbrev pub concat : List String → String
concat [] = []
concat (s ∷ ss) = s ++ concat ss

not_le : (a b : ℕ) → b < a → leb a b ≡ false
not_le a b h = ground arith

le_leb : (a b : ℕ) → a ≤ b → leb a b ≡ true
le_leb a b h = ground arith

-- The calls of `strcat` succeed exactly if all of the line fits.
strcats_fit :
    (size : ℕ) (out : String) (texts : List String)
    → length out + length (concat texts) + 1 ≤ size
    → strcats size out texts ≡ ok (out ++ concat texts)
unfolding strcats strcat
strcats_fit size out [] h = ap ok (sym (append-nil out))
strcats_fit size out (s ∷ ss) h =
    let rest = length-append s (concat ss) in
    rw (le_leb (length (out ++ s) + 1) size (omega (arith, rest, length-append out s))) (
      strcats_fit size (out ++ s) ss (omega (arith, rest, length-append out s))
      ∙ ap ok (append_assoc out s (concat ss)))

strcats_overrun :
    (size : ℕ) (out : String) (texts : List String)
    → length out + 1 ≤ size
    → size < length out + length (concat texts) + 1
    → strcats size out texts ≡ err buffer_overrun
unfolding strcats strcat
strcats_overrun size out [] h k = absurd (omega (arith, h, k))
strcats_overrun size out (s ∷ ss) h k =
    let rest = length-append s (concat ss) in
    let more = length-append out s in
    elim (Bool-cases (leb (length (out ++ s) + 1) size)) [
      | inl e ↦ rw e (
          strcats_overrun size (out ++ s) ss (leb→le (length (out ++ s) + 1) size e)
            (omega (arith, rest, more, k)))
      | inr e ↦ rw e refl
    ]

-- Numbers below a bound have so many digits.
abbrev Short : ℕ → ℕ → Type 0
Short b k = (fuel n : ℕ) → n < b → length (digits fuel n) ≤ k

ten-Short : Short 10 1
unfolding digits
ten-Short zero n h = omega arith
ten-Short (suc fuel) n h = rw (lt→ltb n 10 h) (omega arith)

times_ten-Short : (b k : ℕ) → 1 ≤ k → Short b k → Short (10 * b) (suc k)
unfolding digits
times_ten-Short b k one short zero n h = omega arith
times_ten-Short b k one short (suc fuel) n h = elim (Bool-cases (ltb n 10)) [
  | inl e ↦ rw e (omega (arith, one))
  | inr e ↦ rw e (
      omega (
        arith,
        short fuel (n / 10) (omega (arith, h)),
        length-append (digits fuel (n / 10)) ((b'0' + n % 10) ∷ []),
      ))
]

two-Short : Short 100 2
two-Short = times_ten-Short 10 1 (omega arith) ten-Short

four-Short : Short 10_000 4
four-Short = times_ten-Short 1000 3 (omega arith) (times_ten-Short 100 2 (omega arith) two-Short)

-- An integer from 0 up to n.
abbrev pub Upto : ℕ → ℤ → Type 0
Upto n z = (neg_part z ≡ 0) × (pos_part z ≤ n)

length-of_int : (b k : ℕ) (z : ℤ) → Short (suc b) k → Upto b z → length (of_int z) ≤ k
unfolding of_int
length-of_int b k (pos n) short h = short (suc n) n (omega (arith, h.1))
length-of_int b k (negsuc n) short h = absurd (omega (arith, h.0))

-- A time between the years 1900 and 9999.
pub record IsTm (t : Tm) : Type 0 where
  pub year : Upto 8099 t.tm_year
  pub mon : Upto 11 t.tm_mon
  pub mday : Upto 31 t.tm_mday
  pub hour : Upto 23 t.tm_hour
  pub min : Upto 59 t.tm_min
  pub sec : Upto 60 t.tm_sec

more-Upto : (n k : ℕ) (z : ℤ) → Upto n z → Upto (n + k) (z +ℤ pos k)
more-Upto n k z h = (omega (int_laws, h.0, h.1), omega (int_laws, h.0, h.1))

wider-Upto : (n m : ℕ) (z : ℤ) → n ≤ m → Upto n z → Upto m z
wider-Upto n m z h u = (u.0, omega (arith, h, u.1))

two_digits : (n : ℕ) (z : ℤ) → n ≤ 99 → Upto n z → length (of_int z) ≤ 2
two_digits n z h u = length-of_int 99 2 z two-Short (wider-Upto n 99 z h u)

joined :
    (k m : ℕ) (s rest : String) (c : ℕ)
    → length s ≤ k
    → length rest ≤ m
    → length (s ++ (c ∷ rest)) ≤ k + 1 + m
joined k m s rest c h l = omega (arith, length-append s (c ∷ rest), h, l)

pub length-get_time_string : (t : Tm) → IsTm t → length (get_time_string t) ≤ 19
unfolding get_time_string
length-get_time_string t h =
    let year =
      length-of_int 9999 4 (t.tm_year +ℤ pos 1900) four-Short
        (more-Upto 8099 1900 t.tm_year h.year) in
    let mon = two_digits 12 (t.tm_mon +ℤ pos 1) (omega arith) (more-Upto 11 1 t.tm_mon h.mon) in
    let mday = two_digits 31 t.tm_mday (omega arith) h.mday in
    let hour = two_digits 23 t.tm_hour (omega arith) h.hour in
    let min = two_digits 59 t.tm_min (omega arith) h.min in
    let sec = two_digits 60 t.tm_sec (omega arith) h.sec in
    joined 4 14 _ _ b'-' year (
      joined 2 11 _ _ b'-' mon
        (joined 2 8 _ _ b' ' mday (joined 2 5 _ _ b':' hour (joined 2 2 _ _ b':' min sec))))

length-take : (n : ℕ) (s : String) → length (take n s) ≤ n
length-take zero s = omega arith
length-take (suc n) [] = omega arith
length-take (suc n) (c ∷ s) = omega (arith, length-take n s)

-- The whole line.
abbrev pub whole : ℕ → Console → Tm → String → String
whole level c now text = concat (line level c now text)

length-whole :
    (level : ℕ) (c : Console) (now : Tm) (text : String)
    → IsTm now
    → length (whole level c now text) ≤ 927 + length c.app_name
length-whole level c now text h =
    let tail = printed 900 text ++ (b'\n' ∷ []) in
    omega (
      arith,
      length-get_time_string now h,
      length-append (get_time_string now)
          (b']' ∷ b'[' ∷ (c.app_name ++ (b']' ∷ b'[' ∷ level ∷ b']' ∷ b':' ∷ tail))),
      length-append c.app_name (b']' ∷ b'[' ∷ level ∷ b']' ∷ b':' ∷ tail),
      length-append (printed 900 text) (b'\n' ∷ []),
      length-take 899 text,
    )

-- For a time of which all fields are in their ranges and the year has four digits: a line of the
-- log is put out whole if it has less than 1000 characters, and overruns the buffer otherwise;
-- and it has at most 927 characters and those of the application's name, so it fits for each
-- name of up to 72 characters.
pub put_line_lem :
    (level : ℕ) (c : Console) (now : Tm) (text : String)
    → IsTm now
    → (put_line level c now text ≡ (
        if ltb (length (whole level c now text)) 1000
        then ok (output c (whole level c now text))
        else err buffer_overrun))
      × (length (whole level c now text) ≤ 927 + length c.app_name)
unfolding put_line
put_line_lem level c now text h =
    let out = whole level c now text in
    (
      elim (Bool-cases (ltb (length out) 1000)) [
        | inl e ↦
            rw
              (
                e,
                strcats_fit 1000 [] (line level c now text)
                    (omega (arith, ltb→lt (length out) 1000 e)),
              )
              refl
        | inr e ↦
            rw
              (
                e,
                strcats_overrun 1000 [] (line level c now text) (omega arith)
                    (omega (arith, ltb→ge (length out) 1000 e)),
              )
              refl
      ],
      length-whole level c now text h,
    )
