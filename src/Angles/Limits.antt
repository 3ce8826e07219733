-- ===== src/Angles/Limits.antt =====
-- The two results of `find_min_max_delta`, and the turns that `greater_of`, `lesser_of` and `nearer`
-- give (Source/Geometry/Angles.h).
use se_navi_common.Common.{
  ◌≡◌, refl, subst, sym, Bool, true, false, Bool-cases, ◌⊎◌, inl, inr, ◌||◌, if◌then◌else◌,
}
use se_navi_common.Common.Double.{Double, IsIeee}
use se_navi_common.Angles.{
  shortest_angular_distance, two_pi_complement, greater_of, lesser_of, lower_delta, upper_delta,
  limits, limits_of, find_min_max_delta, nearer, to_outside, from_outside,
}
use se_navi_common.Angles.Bounds.{
  Within, IsFinite, Below, Above, InTurn, Opposite, zero_two_pi, minus_zero, in_turn,
  normalize_bounds, complement_lem,
}

module _ {F : Type 0} (d : Double F) (laws : IsIeee d) where
  pub Below-turn : (x : F) → Below d laws x → InTurn d laws x
  Below-turn x h = (h.0, laws.le_trans _ _ _ h.1 (zero_two_pi d laws))

  pub Above-turn : (x : F) → Above d laws x → InTurn d laws x
  Above-turn x h = (laws.le_trans _ _ _ (minus_zero d laws) h.0, h.1)

  -- The distance is in [-pi, pi].
  pub distance_bounds :
      (from to : F)
      → IsFinite d laws (d.sub to from)
      → Within d laws (d.neg d.pi) (shortest_angular_distance d from to) d.pi
  unfolding shortest_angular_distance
  distance_bounds from to h = normalize_bounds d laws (d.sub to from) h

  pub distance_turn :
      (from to : F)
      → IsFinite d laws (d.sub to from)
      → InTurn d laws (shortest_angular_distance d from to)
  distance_turn from to h =
      let (low, high) = distance_bounds from to h in
      (laws.le_trans _ _ _ laws.minus_pi low, laws.le_trans _ _ _ high laws.pi_two_pi)

  abbrev pub Spread : F × F → Type 0
  Spread p = Below d laws p.0 × Above d laws p.1

  pub lesser_at : (x c : F) → InTurn d laws x → Opposite d laws x c → Spread (lower_delta d x c)
  lesser_at x c h (inl (low, up)) =
      rw (laws.lt_not x c (laws.le_trans _ _ _ low up.0)) ((h.0, low), up)
  lesser_at x c h (inr (pos, down)) =
      rw (laws.le-lt c (d.number 0) x down.1 pos) (down, (laws.lt-le _ _ pos, h.1))

  pub greater_at :
      (x c : F)
      → InTurn d laws x
      → Opposite d laws x c
      → Above d laws (upper_delta d x c).0 × Below d laws (upper_delta d x c).1
  greater_at x c h (inl (low, up)) = elim (Bool-cases (d.lt x c)) [
    | inl e ↦ rw e (up, (h.0, low))
    | inr e ↦
        let le = laws.not_lt c x (in_turn d laws c (Above-turn c up)) (in_turn d laws x h) e in
        rw e ((laws.le_trans _ _ _ up.0 le, h.1), ((Above-turn c up).0, laws.le_trans _ _ _ le low))
  ]
  greater_at x c h (inr (pos, down)) =
      rw (laws.lt_not c x (laws.le_trans _ _ _ down.1 (laws.lt-le _ _ pos)))
        ((laws.lt-le _ _ pos, h.1), down)

  limits-Spread :
      (left right : F) (l g : F × F)
      → Spread l
      → Above d laws g.0 × Below d laws g.1
      → Spread (limits d left right l g).1
  unfolding limits
  limits-Spread left right l g hl hg = elim (Bool-cases (d.le l.0 g.1 || d.le l.1 g.0)) [
    | inl e ↦ rw e (hg.1, hl.1)
    | inr e ↦ rw e (hl.0, hg.0)
  ]

  at_zero : (x : F) → InTurn d laws x → d.eq x (d.number 0) ≡ true → Below d laws x × Above d laws x
  at_zero x h e = let (low, high) = laws.eq-le x (d.number 0) e in ((h.0, low), (high, h.1))

  pub greater_of-upper_delta : (a b : F) → greater_of d a b ≡ (upper_delta d a b).0
  greater_of-upper_delta a b = elim (Bool-cases (d.lt a b)) [
    | inl e ↦ rw e refl
    | inr e ↦ rw e refl
  ]

  pub lesser_of-lower_delta : (a b : F) → lesser_of d a b ≡ (lower_delta d a b).0
  lesser_of-lower_delta a b = elim (Bool-cases (d.lt b a)) [ inl e ↦ rw e refl | inr e ↦ rw e refl ]

  limits_of-Spread :
      (left right x y : F)
      → InTurn d laws x
      → InTurn d laws y
      → Spread (limits_of d left right x y).1
  unfolding limits_of
  limits_of-Spread left right x y hx hy =
      let lo = lesser_at x (two_pi_complement d x) hx (complement_lem d laws x hx) in
      let hi = greater_at y (two_pi_complement d y) hy (complement_lem d laws y hy) in
      elim (Bool-cases (d.eq x (d.number 0))) [
        | inl e ↦ rw e (
          (at_zero x hx e).0,
          subst (Above d laws) (sym (greater_of-upper_delta y (two_pi_complement d y))) hi.0,
        )
        | inr e ↦ elim (Bool-cases (d.eq y (d.number 0))) [
          | inl k ↦
              rw (e, k)
                (
                  subst (Below d laws) (sym (lesser_of-lower_delta x (two_pi_complement d x))) lo.0,
                  (at_zero y hy k).1,
                )
          | inr k ↦ rw (e, k) (limits-Spread left right _ _ lo hi)
        ]
      ]

  -- With the same laws of the floating-point operations: if the differences of the two limits
  -- and the angle are finite, the least distance that find_min_max_delta gives is in [-2 pi, 0]
  -- and the greatest in [0, 2 pi], on each of its returns.
  pub find_bounds :
      (from left_limit right_limit : F)
      → IsFinite d laws (d.sub left_limit from)
      → IsFinite d laws (d.sub right_limit from)
      → Spread (find_min_max_delta d from left_limit right_limit).1
  unfolding find_min_max_delta
  find_bounds from left_limit right_limit h k =
      limits_of-Spread left_limit right_limit _ _ (distance_turn from left_limit h)
        (distance_turn from right_limit k)

  -- One of two numbers.
  abbrev pub OneOf : F → F → F → Type 0
  OneOf a b x = (x ≡ a) ⊎ (x ≡ b)

  OneOf-if : (c : Bool) (a b x y : F) → OneOf a b x → OneOf a b y → OneOf a b (if c then x else y)
  OneOf-if true a b x y hx hy = hx
  OneOf-if false a b x y hx hy = hy

  pub greater_of-OneOf : (a b : F) → OneOf a b (greater_of d a b)
  greater_of-OneOf a b = OneOf-if (d.lt a b) a b b a (inr refl) (inl refl)

  pub lesser_of-OneOf : (a b : F) → OneOf a b (lesser_of d a b)
  lesser_of-OneOf a b = OneOf-if (d.lt b a) a b b a (inr refl) (inl refl)

  pub nearer-OneOf : (a b : F) → OneOf a b (nearer d a b)
  nearer-OneOf a b = OneOf-if (d.lt (d.fabs a) (d.fabs b)) a b a b (inl refl) (inr refl)

  outside-OneOf :
      (c k : Bool) (a b x y : F)
      → OneOf a b x
      → OneOf a b y
      → OneOf a b (if c then x else if k then y else nearer d a b)
  outside-OneOf c k a b x y hx hy =
      OneOf-if c a b x (if k then y else nearer d a b) hx
        (OneOf-if k a b y (nearer d a b) hy (nearer-OneOf a b))

  pub to_outside-OneOf : (r : F × F) (a b : F) → OneOf a b (to_outside d r a b)
  to_outside-OneOf (low, high) a b =
      outside-OneOf (d.lt (d.fabs low) (d.fabs high)) (d.lt (d.fabs high) (d.fabs low)) a b
        (greater_of d a b) (lesser_of d a b) (greater_of-OneOf a b) (lesser_of-OneOf a b)

  pub from_outside-OneOf : (r : F × F) (a b : F) → OneOf a b (from_outside d r a b)
  from_outside-OneOf (low, high) a b =
      outside-OneOf (d.lt (d.fabs low) (d.fabs high)) (d.lt (d.fabs high) (d.fabs low)) a b
        (lesser_of d a b) (greater_of d a b) (lesser_of-OneOf a b) (greater_of-OneOf a b)

  pub Opposite-turn : (x c : F) → Opposite d laws x c → InTurn d laws c
  Opposite-turn x c (inl h) = Above-turn c h.1
  Opposite-turn x c (inr h) = Below-turn c h.1

  pub one_turn : (a b x : F) → InTurn d laws a → InTurn d laws b → OneOf a b x → InTurn d laws x
  one_turn a b x ha hb (inl e) = subst (InTurn d laws) (sym e) ha
  one_turn a b x ha hb (inr e) = subst (InTurn d laws) (sym e) hb
