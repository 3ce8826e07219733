-- ===== src/Common/Double.antt =====
-- The operations of the type `double`, as an interface, and what IEEE 754 says of them that angles
-- rely on. A type that has both is the integers, in degrees.
use se_navi_common.Common.Int.{
  ℤ, pos, negsuc, pos_part, neg_part, ◌+ℤ◌, ◌-ℤ◌, ◌·ℤ◌, ltb_ℤ, leb_ℤ, eqb_ℤ, tmod, tdiv,
}
use Prim.Native.Nat.{ℕ, suc, ◌+◌}
use mathlib.Core.Path.{◌≡◌, refl}
use mathlib.Core.Bool.{Bool, true, false}
use native.Mathlib.Omega.{arith}

pub record Double (F : Type 0) : Type 0 where
  pub number : ℕ → F
  pub pi : F
  pub add : F → F → F
  pub sub : F → F → F
  pub mul : F → F → F
  pub div : F → F → F
  pub neg : F → F
  pub fmod : F → F → F
  pub fabs : F → F
  pub lt : F → F → Bool
  pub le : F → F → Bool
  pub eq : F → F → Bool
  pub is_finite : F → Bool

module _ {F : Type 0} (d : Double F) where
  -- 2.0 * M_PI and -2.0 * M_PI.
  abbrev pub two_pi : F
  two_pi = d.mul (d.number 2) d.pi

  abbrev pub minus_two_pi : F
  minus_two_pi = d.mul (d.neg (d.number 2)) d.pi

  -- Comparisons and rounding of finite numbers: the order, the monotony of sums and differences,
  -- the exact results that angles meet, and the range of `fmod`, which has the sign of its first
  -- argument.
  pub record IsIeee : Type 0 where
    pub le_refl : (x : F) → d.is_finite x ≡ true → d.le x x ≡ true
    pub le_trans : (x y z : F) → d.le x y ≡ true → d.le y z ≡ true → d.le x z ≡ true
    pub lt-le : (x y : F) → d.lt x y ≡ true → d.le x y ≡ true
    pub le-lt : (x y z : F) → d.le x y ≡ true → d.lt y z ≡ true → d.lt x z ≡ true
    pub lt-le-trans : (x y z : F) → d.lt x y ≡ true → d.le y z ≡ true → d.lt x z ≡ true
    pub not_lt :
        (x y : F) → d.is_finite x ≡ true → d.is_finite y ≡ true → d.lt y x ≡ false → d.le x y ≡ true
    pub lt_not : (x y : F) → d.le x y ≡ true → d.lt y x ≡ false
    pub eq-le : (x y : F) → d.eq x y ≡ true → (d.le x y ≡ true) × (d.le y x ≡ true)
    pub finite_between :
        (a x b : F)
        → d.is_finite a ≡ true
        → d.is_finite b ≡ true
        → d.le a x ≡ true
        → d.le x b ≡ true
        → d.is_finite x ≡ true
    pub finite_zero : d.is_finite (d.number 0) ≡ true
    pub finite_two_pi : d.is_finite two_pi ≡ true
    pub finite_minus : d.is_finite minus_two_pi ≡ true
    pub finite_twice : d.is_finite (d.add two_pi two_pi) ≡ true
    pub minus_pi : d.le minus_two_pi (d.neg d.pi) ≡ true
    pub minus_zero : d.le (d.neg d.pi) (d.number 0) ≡ true
    pub zero_pi : d.le (d.number 0) d.pi ≡ true
    pub pi_two_pi : d.le d.pi two_pi ≡ true
    pub less_two_pi : d.lt (d.number 0) two_pi ≡ true
    pub add_comm : (x y : F) → d.add x y ≡ d.add y x
    pub add_le :
        (x y z : F)
        → d.is_finite x ≡ true
        → d.is_finite y ≡ true
        → d.is_finite z ≡ true
        → d.le x y ≡ true
        → d.le (d.add x z) (d.add y z) ≡ true
    pub sub_le :
        (x y z : F)
        → d.is_finite x ≡ true
        → d.is_finite y ≡ true
        → d.is_finite z ≡ true
        → d.le x y ≡ true
        → d.le (d.sub x z) (d.sub y z) ≡ true
    pub add_minus : d.add minus_two_pi two_pi ≡ d.number 0
    pub add_zero : d.add (d.number 0) two_pi ≡ two_pi
    pub add_zero_minus : d.add (d.number 0) minus_two_pi ≡ minus_two_pi
    pub sub_two_pi : d.sub two_pi two_pi ≡ d.number 0
    pub sub_pi : d.sub d.pi two_pi ≡ d.neg d.pi
    pub fmod_less : (x : F) → d.is_finite x ≡ true → d.lt (d.fmod x two_pi) two_pi ≡ true
    pub fmod_minus : (x : F) → d.is_finite x ≡ true → d.le minus_two_pi (d.fmod x two_pi) ≡ true
    pub fmod_zero :
        (x : F)
        → d.is_finite x ≡ true
        → d.le (d.number 0) x ≡ true
        → d.le (d.number 0) (d.fmod x two_pi) ≡ true

-- Whole degrees.
abbrev negated : ℤ → ℤ
negated z = pos 0 -ℤ z

abbrev times : ℤ → ℤ → ℤ
times (pos n) z = n ·ℤ z
times (negsuc n) z = negated (suc n ·ℤ z)

abbrev size : ℤ → ℕ
size z = pos_part z + neg_part z

abbrev pub degrees : Double ℤ
degrees = record {
  number = pos;
  pi = pos 180;
  add = ◌+ℤ◌;
  sub = ◌-ℤ◌;
  mul = times;
  div = λ x y. tdiv x (size y);
  neg = negated;
  fmod = λ x y. tmod x (size y);
  fabs = λ x. pos (size x);
  lt = ltb_ℤ;
  le = leb_ℤ;
  eq = eqb_ℤ;
  is_finite = λ x. true;
}

tmod_turn :
    (z : ℤ) → (ltb_ℤ (tmod z 360) (pos 360) ≡ true) × (leb_ℤ (negsuc 359) (tmod z 360) ≡ true)
tmod_turn (pos n) = ground arith
tmod_turn (negsuc n) = ground arith

tmod_nonneg : (z : ℤ) → leb_ℤ (pos 0) z ≡ true → leb_ℤ (pos 0) (tmod z 360) ≡ true
tmod_nonneg (pos n) h = ground arith
tmod_nonneg (negsuc n) h = ground arith

pub degrees-IsIeee : IsIeee degrees
unfolding ◌+ℤ◌ ◌-ℤ◌ ◌·ℤ◌
degrees-IsIeee = record {
  le_refl = λ x h. ground arith;
  le_trans = λ x y z h k. ground arith;
  lt-le = λ x y h. ground arith;
  le-lt = λ x y z h k. ground arith;
  lt-le-trans = λ x y z h k. ground arith;
  not_lt = λ x y a b h. ground arith;
  lt_not = λ x y h. ground arith;
  eq-le = λ x y h. ground arith;
  finite_between = λ a x b h k p q. refl;
  finite_zero = refl;
  finite_two_pi = refl;
  finite_minus = refl;
  finite_twice = refl;
  minus_pi = refl;
  minus_zero = refl;
  zero_pi = refl;
  pi_two_pi = refl;
  less_two_pi = refl;
  add_comm = λ x y. ground arith;
  add_le = λ x y z a b c h. ground arith;
  sub_le = λ x y z a b c h. ground arith;
  add_minus = refl;
  add_zero = refl;
  add_zero_minus = refl;
  sub_two_pi = refl;
  sub_pi = refl;
  fmod_less = λ x h. (tmod_turn x).0;
  fmod_minus = λ x h. (tmod_turn x).1;
  fmod_zero = λ x h k. tmod_nonneg x k;
}
