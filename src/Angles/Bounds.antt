-- ===== src/Angles/Bounds.antt =====
-- The ranges of the results of Source/Geometry/Angles.h, for finite numbers.
use se_navi_common.Common.{◌≡◌, refl, subst, ◌∙◌, true, Bool-cases, ◌⊎◌, inl, inr, if◌then◌else◌}
use se_navi_common.Common.Double.{Double, IsIeee, two_pi, minus_two_pi}
use se_navi_common.Angles.{normalize_angle_positive, normalize_angle, other_way, two_pi_complement}

module _ {F : Type 0} (d : Double F) (laws : IsIeee d) where
  -- At most, and both numbers comparable.
  abbrev pub Within : F → F → F → Type 0
  Within low x high = (d.le low x ≡ true) × (d.le x high ≡ true)

  abbrev pub IsFinite : F → Type 0
  IsFinite x = d.is_finite x ≡ true

  pub zero_two_pi : d.le (d.number 0) (two_pi d) ≡ true
  zero_two_pi = laws.le_trans _ _ _ laws.zero_pi laws.pi_two_pi

  pub minus_zero : d.le (minus_two_pi d) (d.number 0) ≡ true
  minus_zero = laws.le_trans _ _ _ laws.minus_pi laws.minus_zero

  -- A number in the full range is finite.
  pub in_turn : (x : F) → Within (minus_two_pi d) x (two_pi d) → IsFinite x
  in_turn x h =
      laws.finite_between (minus_two_pi d) x (two_pi d) laws.finite_minus laws.finite_two_pi h.0 h.1

  positive_turn : (x : F) → Within (d.number 0) x (two_pi d) → IsFinite x
  positive_turn x h = in_turn x (laws.le_trans _ _ _ minus_zero h.0, h.1)

  -- Adding a turn to what `fmod` gave.
  turned :
      (x : F)
      → IsFinite x
      → Within (d.number 0) (d.add (d.fmod x (two_pi d)) (two_pi d)) (d.add (two_pi d) (two_pi d))
  turned x h =
      let low = laws.fmod_minus x h in
      let high = laws.lt-le _ _ (laws.fmod_less x h) in
      let f = in_turn (d.fmod x (two_pi d)) (low, high) in
      (
        subst (λ z. d.le z (d.add (d.fmod x (two_pi d)) (two_pi d)) ≡ true) laws.add_minus
            (laws.add_le _ _ _ laws.finite_minus f laws.finite_two_pi low),
        laws.add_le _ _ _ f laws.finite_two_pi laws.finite_two_pi high,
      )

  turned-IsFinite : (x : F) → IsFinite x → IsFinite (d.add (d.fmod x (two_pi d)) (two_pi d))
  turned-IsFinite x h =
      laws.finite_between _ _ _ laws.finite_zero laws.finite_twice (turned x h).0 (turned x h).1

  pub positive_bounds :
      (angle : F)
      → IsFinite angle
      → (d.le (d.number 0) (normalize_angle_positive d angle) ≡ true)
        × (d.lt (normalize_angle_positive d angle) (two_pi d) ≡ true)
  unfolding normalize_angle_positive
  positive_bounds angle h = (
    laws.fmod_zero _ (turned-IsFinite angle h) (turned angle h).0,
    laws.fmod_less _ (turned-IsFinite angle h),
  )

  pi-IsFinite : IsFinite d.pi
  pi-IsFinite = positive_turn d.pi (laws.zero_pi, laws.pi_two_pi)

  over_pi :
      (a : F)
      → d.le (d.number 0) a ≡ true
      → d.lt a (two_pi d) ≡ true
      → d.lt d.pi a ≡ true
      → Within (d.neg d.pi) (d.sub a (two_pi d)) d.pi
  over_pi a low high e =
      let f = positive_turn a (low, laws.lt-le _ _ high) in
      (
        subst (λ z. d.le z (d.sub a (two_pi d)) ≡ true) laws.sub_pi
            (laws.sub_le _ _ _ pi-IsFinite f laws.finite_two_pi (laws.lt-le _ _ e)),
        laws.le_trans _ _ _
            (subst (λ z. d.le (d.sub a (two_pi d)) z ≡ true) laws.sub_two_pi
              (laws.sub_le _ _ _ f laws.finite_two_pi laws.finite_two_pi (laws.lt-le _ _ high)))
            laws.zero_pi,
      )

  normalized :
      (a : F)
      → d.le (d.number 0) a ≡ true
      → d.lt a (two_pi d) ≡ true
      → Within (d.neg d.pi) (if d.lt d.pi a then d.sub a (two_pi d) else a) d.pi
  normalized a low high = elim (Bool-cases (d.lt d.pi a)) [
    | inl e ↦ rw e (over_pi a low high e)
    | inr e ↦ rw e (
      laws.le_trans _ _ _ laws.minus_zero low,
      laws.not_lt a d.pi (positive_turn a (low, laws.lt-le _ _ high)) pi-IsFinite e,
    )
  ]

  -- normalize_angle of a finite angle is at least -pi and at most pi, for floating-point
  -- operations that are monotone and in which fmod stays within its divisor, keeps a number that
  -- is not negative so, and is exact on the multiples of pi that the code adds.
  pub normalize_bounds :
      (angle : F) → IsFinite angle → Within (d.neg d.pi) (normalize_angle d angle) d.pi
  unfolding normalize_angle
  normalize_bounds angle h =
      let (low, high) = positive_bounds angle h in
      normalized (normalize_angle_positive d angle) low high

  -- The range [-2 pi, 2 pi], below and above zero.
  abbrev pub Below : F → Type 0
  Below x = Within (minus_two_pi d) x (d.number 0)

  abbrev pub Above : F → Type 0
  Above x = Within (d.number 0) x (two_pi d)

  abbrev pub InTurn : F → Type 0
  InTurn x = Within (minus_two_pi d) x (two_pi d)

  -- The other way has the other sign.
  abbrev pub Opposite : F → F → Type 0
  Opposite x c = ((d.le x (d.number 0) ≡ true) × Above c) ⊎ ((d.lt (d.number 0) x ≡ true) × Below c)

  pub up_lem : (x : F) → InTurn x → d.lt x (d.number 0) ≡ true → Above (d.add (two_pi d) x)
  up_lem x h e =
      let f = in_turn x h in
      subst Above (laws.add_comm x (two_pi d)) (
        subst (λ z. d.le z (d.add x (two_pi d)) ≡ true) laws.add_minus
            (laws.add_le _ _ _ laws.finite_minus f laws.finite_two_pi h.0),
        subst (λ z. d.le (d.add x (two_pi d)) z ≡ true) laws.add_zero
            (laws.add_le _ _ _ f laws.finite_zero laws.finite_two_pi (laws.lt-le _ _ e)),
      )

  pub down_lem : (x : F) → InTurn x → d.lt (d.number 0) x ≡ true → Below (d.add (minus_two_pi d) x)
  down_lem x h e =
      let f = in_turn x h in
      subst Below (laws.add_comm x (minus_two_pi d)) (
        subst (λ z. d.le z (d.add x (minus_two_pi d)) ≡ true) laws.add_zero_minus
            (laws.add_le _ _ _ laws.finite_zero f laws.finite_minus (laws.lt-le _ _ e)),
        subst (λ z. d.le (d.add x (minus_two_pi d)) z ≡ true) (laws.add_comm _ _ ∙ laws.add_minus)
            (laws.add_le _ _ _ f laws.finite_two_pi laws.finite_minus h.1),
      )

  other_way_lem : (x : F) → InTurn x → Opposite x (other_way d x)
  unfolding other_way
  other_way_lem x h = elim (Bool-cases (d.lt x (d.number 0))) [
    | inl e ↦ rw e (inl (laws.lt-le _ _ e, up_lem x h e))
    | inr e ↦ elim (Bool-cases (d.lt (d.number 0) x)) [
      | inl p ↦ rw (e, p) (inr (refl, down_lem x h p))
      | inr p ↦
          rw (e, p)
            (inl (
              laws.not_lt x (d.number 0) (in_turn x h) laws.finite_zero p,
              (zero_two_pi, laws.le_refl _ laws.finite_two_pi),
            ))
    ]
  ]

  pub complement_lem : (x : F) → InTurn x → Opposite x (two_pi_complement d x)
  unfolding two_pi_complement
  complement_lem x h =
      rw (laws.lt_not x (two_pi d) h.1, laws.lt_not (minus_two_pi d) x h.0) (other_way_lem x h)
