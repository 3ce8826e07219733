-- ===== src/Config/AutoVal.antt =====
-- The conversions of `AutoVal` of Source/ConfigFile/ConfigFile.cpp between texts and integers or
-- truth values.
use se_navi_common.Common.{
  ℕ, zero, suc, ◌+◌, ◌-◌, ◌*◌, ◌/◌, ◌%◌, ◌<◌, ◌≤◌, ◌≡◌, refl, ap, sym, ◌∙◌, Bool-cases, ltb→lt,
  ltb→ge, inl, inr, Bool, true, false, ◌&&◌, ◌||◌, ◌==◌, leb, ltb, if◌then◌else◌, [], ◌∷◌, ◌++◌,
  Option, none, some, append_assoc, append-nil, arith,
}
use se_navi_common.Common.Int.{ℤ, pos, negsuc, eqb_ℤ, ltb_ℤ, IsInt32}
use se_navi_common.Config.{String, lower, equals, to_lower, is_space, skip_space}

-- How a stream writes a number.
unfoldable pub digits : ℕ → ℕ → String
digits zero n = []
digits (suc fuel) n =
    let rest = digits fuel (n / 10) in
    if ltb n 10 then (b'0' + n) ∷ [] else rest ++ ((b'0' + n % 10) ∷ [])

-- `AutoVal(int)`.
unfoldable pub of_int : ℤ → String
of_int (pos n) = digits (suc n) n
of_int (negsuc n) = b'-' ∷ digits (n + 2) (n + 1)

-- `AutoVal(bool)`.
pub of_bool : Bool → String
of_bool true = b'o' ∷ b'n' ∷ []
of_bool false = b'o' ∷ b'f' ∷ b'f' ∷ []

unfoldable pub number : ℕ → String → ℕ
number n [] = n
number n (c ∷ cs) =
    let rest = number (n * 10 + (c - b'0')) cs in if leb b'0' c && leb c b'9' then rest else n

abbrev negative : ℕ → ℤ
negative zero = pos zero
negative (suc n) = negsuc n

abbrev signed : String → ℤ
signed [] = pos 0
signed (c ∷ cs) =
    if c == b'-'
    then negative (number 0 cs)
    else if c == b'+'
    then pos (number 0 cs)
    else pos (number 0 (c ∷ cs))

-- A number that an `int` can hold.
abbrev pub in_int : ℤ → Option ℤ
in_int z = if ltb_ℤ z (negsuc 2_147_483_647) || ltb_ℤ (pos 2_147_483_647) z then none else some z

-- The number that a text begins with.
unfoldable pub leading_number : String → ℤ
leading_number s = signed (skip_space s)

-- `operator int`, which is `atoi`. None: the number is out of the range of an `int`, where `atoi` is
-- undefined.
unfoldable pub to_int : String → Option ℤ
to_int s = in_int (leading_number s)

abbrev pub is_one : ℤ → Bool
is_one (pos n) = n == 1
is_one (negsuc n) = false

abbrev pub is_one_of : Option ℤ → Option Bool
is_one_of none = none
is_one_of (some z) = some (is_one z)

-- `operator bool`. None: it is undefined, as `atoi` is.
unfoldable pub to_bool : String → Option Bool
unfolding to_int
to_bool s = if equals (to_lower s) (b'o' ∷ b'n' ∷ []) then some true else is_one_of (to_int s)

no_space : (k : ℕ) → k < 10 → is_space (b'0' + k) ≡ false
no_space k h = ground arith

pub no_minus : (k : ℕ) → k < 10 → ((b'0' + k) == b'-') ≡ false
no_minus k h = ground arith

no_plus : (k : ℕ) → k < 10 → ((b'0' + k) == b'+') ≡ false
no_plus k h = ground arith

no_letter : (k : ℕ) → k < 10 → (lower (b'0' + k) == b'o') ≡ false
no_letter k h = ground arith

add_one : (n : ℕ) → n + 1 ≡ suc n
add_one n = omega arith

pub tenth_less : (n fuel : ℕ) → n < suc fuel → 10 ≤ n → n / 10 < fuel
tenth_less n fuel h k = omega arith

is_digit : (k : ℕ) → k < 10 → leb b'0' (b'0' + k) && leb (b'0' + k) b'9' ≡ true
is_digit k h = ground arith

pub number-digit :
    (m k : ℕ) (rest : String) → k < 10 → number m ((b'0' + k) ∷ rest) ≡ number (m * 10 + k) rest
unfolding number
number-digit m k rest h = rw (is_digit k h) (ap (λ d. number d rest) (omega arith))

pub number-digits :
    (fuel n : ℕ) (rest : String) → n < fuel → number 0 (digits fuel n ++ rest) ≡ number n rest
unfolding digits
number-digits zero n rest h = absurd (omega arith)
number-digits (suc fuel) n rest h = elim (Bool-cases (ltb n 10)) [
  | inl e ↦ rw e (number-digit 0 n rest (ltb→lt n 10 e) ∙ ap (λ d. number d rest) (omega arith))
  | inr e ↦ rw e (
      ap (number 0) (append_assoc (digits fuel (n / 10)) ((b'0' + n % 10) ∷ []) rest)
      ∙ number-digits fuel (n / 10) ((b'0' + n % 10) ∷ rest) (tenth_less n fuel h (ltb→ge n 10 e))
      ∙ number-digit (n / 10) (n % 10) rest (omega arith)
      ∙ ap (λ d. number d rest) (omega arith))
]

-- The characters of a number begin with a digit.
abbrev pub Begins : String → Type 0
Begins s = (k : ℕ) × ((cs : String) × ((s ≡ (b'0' + k) ∷ cs) × (k < 10)))

pub head_digit : (fuel n : ℕ) → n < fuel → Begins (digits fuel n)
unfolding digits
head_digit zero n h = absurd (omega arith)
head_digit (suc fuel) n h = elim (Bool-cases (ltb n 10)) [
  | inl e ↦ rw e (n, ([], (refl, ltb→lt n 10 e)))
  | inr e ↦
      let (k, (cs, (q, l))) = head_digit fuel (n / 10) (tenth_less n fuel h (ltb→ge n 10 e)) in
      rw e (k, (cs ++ ((b'0' + n % 10) ∷ []), (ap (λ s. s ++ ((b'0' + n % 10) ∷ [])) q, l)))
]

skip_digit :
    (k : ℕ) (cs : String)
    → k < 10
    → signed (skip_space ((b'0' + k) ∷ cs)) ≡ pos (number 0 ((b'0' + k) ∷ cs))
unfolding skip_space
skip_digit k cs h = rw (no_space k h, no_minus k h, no_plus k h) refl

reads_number : (n : ℕ) → leading_number (digits (suc n) n) ≡ pos n
unfolding leading_number number
reads_number n =
    let (k, (cs, (q, l))) = head_digit (suc n) n (omega arith) in
    ap (λ s. signed (skip_space s)) q
    ∙ skip_digit k cs l
    ∙ ap (λ s. pos (number 0 s)) (sym q)
    ∙ ap (λ s. pos (number 0 s)) (sym (append-nil (digits (suc n) n)))
    ∙ ap pos (number-digits (suc n) n [] (omega arith))

pub leading_number-of_int : (z : ℤ) → leading_number (of_int z) ≡ z
unfolding of_int leading_number skip_space number
leading_number-of_int (pos n) = reads_number n
leading_number-of_int (negsuc n) =
    ap (λ s. negative (number 0 s)) (sym (append-nil (digits (n + 2) (n + 1))))
    ∙ ap negative (number-digits (n + 2) (n + 1) [] (omega arith))
    ∙ ap negative (add_one n)

below_int : (z : ℤ) → IsInt32 z → ltb_ℤ z (negsuc 2_147_483_647) ≡ false
below_int z h = ground arith

above_int : (z : ℤ) → IsInt32 z → ltb_ℤ (pos 2_147_483_647) z ≡ false
above_int z h = ground arith

in_int_id : (z : ℤ) → IsInt32 z → in_int z ≡ some z
in_int_id z h = rw (below_int z h, above_int z h) refl

-- An `int` comes back from its text.
pub to_int-of_int : (z : ℤ) → IsInt32 z → to_int (of_int z) ≡ some z
unfolding to_int
to_int-of_int z h = ap in_int (leading_number-of_int z) ∙ in_int_id z h

not_on_digit :
    (k : ℕ) (cs : String) → k < 10 → equals (to_lower ((b'0' + k) ∷ cs)) (b'o' ∷ b'n' ∷ []) ≡ false
unfolding to_lower equals
not_on_digit k cs h = rw (no_letter k h) refl

is_one_lem : (z : ℤ) → is_one z ≡ eqb_ℤ z (pos 1)
is_one_lem (pos n) = ground arith
is_one_lem (negsuc n) = ground arith

-- A word of digits, and one that begins with a '-', is not "on".
not_on : (z : ℤ) → equals (to_lower (of_int z)) (b'o' ∷ b'n' ∷ []) ≡ false
unfolding of_int to_lower equals
not_on (pos n) =
    let (k, (cs, (q, l))) = head_digit (suc n) n (omega arith) in
    ap (λ s. equals (to_lower s) (b'o' ∷ b'n' ∷ [])) q ∙ not_on_digit k cs l
not_on (negsuc n) = refl

bool_back : (b : Bool) → to_bool (of_bool b) ≡ some b
unfolding to_bool to_int leading_number of_bool to_lower equals skip_space number
bool_back true = refl
bool_back false = refl

-- The int of the AutoVal of an int is the int, its bool is true only for 1, and the bool of the
-- AutoVal of a truth value is that truth value.
pub auto_val_round_trip :
    (z : ℤ) (b : Bool)
    → IsInt32 z
    → (to_int (of_int z) ≡ some z)
      × ((to_bool (of_int z) ≡ some (eqb_ℤ z (pos 1))) × (to_bool (of_bool b) ≡ some b))
unfolding to_bool
auto_val_round_trip z b h =
    (to_int-of_int z h, (rw (not_on z, to_int-of_int z h) (ap some (is_one_lem z)), bool_back b))
