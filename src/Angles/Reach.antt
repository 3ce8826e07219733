-- ===== src/Angles/Reach.antt =====
-- How far an angle can be turned before a limit, without the complements that
-- Source/Geometry/Angles.h computes.
use se_navi_common.Common.{
  ◌≡◌, refl, ap, ap₂, ◌∙◌, Bool, true, false, Bool-cases, inl, inr, ◌&&◌, ◌||◌, if◌then◌else◌,
}
use se_navi_common.Common.Double.{Double, IsIeee, two_pi, minus_two_pi}
use se_navi_common.Angles.{
  shortest_angular_distance, two_pi_complement, other_way, lower_delta, upper_delta, limits,
  limits_of, find_min_max_delta,
}
use se_navi_common.Angles.Bounds.{IsFinite, InTurn, in_turn, up_lem, down_lem}
use se_navi_common.Angles.Limits.{greater_of-upper_delta, lesser_of-lower_delta, distance_turn}

module _ {F : Type 0} (d : Double F) where
  -- Where the shortest turn to a limit is `x`: the turn to it clockwise, and counterclockwise. At
  -- the limit itself, clockwise is no turn, and counterclockwise a full one.
  abbrev pub clockwise : F → F
  clockwise x = if d.lt (d.number 0) x then d.add (minus_two_pi d) x else x

  abbrev pub counterclockwise : F → F
  counterclockwise x =
      if d.lt (d.number 0) x
      then x
      else if d.lt x (d.number 0)
      then d.add (two_pi d) x
      else two_pi d

  -- The turn in the other direction.
  abbrev pub turn_back : F → F
  turn_back x =
      if d.lt (d.number 0) x
      then d.add (minus_two_pi d) x
      else if d.lt x (d.number 0)
      then d.add (two_pi d) x
      else two_pi d

  -- Between limits to which the shortest turns are `a` and `b`: at a limit there is no turn over it.
  -- Elsewhere the left limit has to come first clockwise, and the right one counterclockwise;
  -- otherwise the angle is outside, but for limits of a full turn, and the turns are those to the
  -- limits that come first.
  abbrev pub first_limits : F → F → F → F → Bool × (F × F)
  first_limits left right a b =
      if d.eq a (d.number 0)
      then (true, (a, counterclockwise b))
      else if d.eq b (d.number 0)
      then (true, (clockwise a, b))
      else if d.le (clockwise a) (clockwise b) || d.le (counterclockwise a) (counterclockwise b)
      then (d.eq left (d.neg d.pi) && d.eq right d.pi, (clockwise b, counterclockwise a))
      else (true, (clockwise a, counterclockwise b))

module _ {F : Type 0} (d : Double F) (laws : IsIeee d) where
  not_above : (x : F) → d.lt x (d.number 0) ≡ true → d.lt (d.number 0) x ≡ false
  not_above x e = laws.lt_not x (d.number 0) (laws.lt-le _ _ e)

  pub complement-turn_back : (x : F) → InTurn d laws x → two_pi_complement d x ≡ turn_back d x
  unfolding two_pi_complement other_way
  complement-turn_back x h = elim (Bool-cases (d.lt x (d.number 0))) [
    | inl e ↦
        rw (laws.lt_not x (two_pi d) h.1, laws.lt_not (minus_two_pi d) x h.0, not_above x e, e) refl
    | inr e ↦ rw (laws.lt_not x (two_pi d) h.1, laws.lt_not (minus_two_pi d) x h.0, e) refl
  ]

  lower_reach :
      (x : F)
      → InTurn d laws x
      → lower_delta d x (turn_back d x) ≡ (clockwise d x, counterclockwise d x)
  lower_reach x h = elim (Bool-cases (d.lt (d.number 0) x)) [
    | inl p ↦
        rw (p, laws.le-lt (d.add (minus_two_pi d) x) (d.number 0) x (down_lem d laws x h p).1 p)
          refl
    | inr p ↦ elim (Bool-cases (d.lt x (d.number 0))) [
      | inl e ↦
          rw
            (
              p,
              e,
              laws.lt_not x (d.add (two_pi d) x)
                  (laws.le_trans _ _ _ (laws.lt-le _ _ e) (up_lem d laws x h e).0),
            )
            refl
      | inr e ↦ rw (p, e, laws.lt_not x (two_pi d) h.1) refl
    ]
  ]

  upper_reach :
      (x : F)
      → InTurn d laws x
      → upper_delta d x (turn_back d x) ≡ (counterclockwise d x, clockwise d x)
  upper_reach x h = elim (Bool-cases (d.lt (d.number 0) x)) [
    | inl p ↦
        rw
          (
            p,
            laws.lt_not (d.add (minus_two_pi d) x) x
                (laws.le_trans _ _ _ (down_lem d laws x h p).1 (laws.lt-le _ _ p)),
          )
          refl
    | inr p ↦ elim (Bool-cases (d.lt x (d.number 0))) [
      | inl e ↦
          rw (p, e, laws.lt-le-trans x (d.number 0) (d.add (two_pi d) x) e (up_lem d laws x h e).0)
            refl
      | inr e ↦
          rw
            (
              p,
              e,
              laws.le-lt x (d.number 0) (two_pi d)
                  (laws.not_lt x (d.number 0) (in_turn d laws x h) laws.finite_zero p)
                  laws.less_two_pi,
            )
            refl
    ]
  ]

  limits_of-first :
      (left right a b : F)
      → InTurn d laws a
      → InTurn d laws b
      → limits_of d left right a b ≡ first_limits d left right a b
  unfolding limits_of limits
  limits_of-first left right a b ha hb =
      let ca = complement-turn_back a ha in
      let cb = complement-turn_back b hb in
      let lo = ap (lower_delta d a) ca ∙ lower_reach a ha in
      let hi = ap (upper_delta d b) cb ∙ upper_reach b hb in
      elim (Bool-cases (d.eq a (d.number 0))) [
        | inl e ↦ rw e (
            ap (λ x. (true, (a, x)))
              (greater_of-upper_delta d laws b (two_pi_complement d b) ∙ ap (λ p. p.0) hi))
        | inr e ↦ elim (Bool-cases (d.eq b (d.number 0))) [
          | inl k ↦
              rw (e, k)
                (ap (λ x. (true, (x, b)))
                  (lesser_of-lower_delta d laws a (two_pi_complement d a) ∙ ap (λ p. p.0) lo))
          | inr k ↦ rw (e, k) (ap₂ (limits d left right) lo hi)
        ]
      ]

  pub find-first_limits :
      (from left right : F)
      → IsFinite d laws (d.sub left from)
      → IsFinite d laws (d.sub right from)
      → find_min_max_delta d from left right
        ≡ first_limits d left right
            (shortest_angular_distance d from left)
            (shortest_angular_distance d from right)
  unfolding find_min_max_delta
  find-first_limits from left right h k =
      limits_of-first left right _ _ (distance_turn d laws from left h)
        (distance_turn d laws from right k)
