-- ===== src/Angles/Choice.antt =====
-- The angle that `shortest_angular_distance_with_limits` chooses (Source/Geometry/Angles.h).
use se_navi_common.Common.{
  ◌≡◌, refl, subst, sym, ap, Bool, true, false, not, Bool-cases, ◌⊎◌, inl, inr, ◌&&◌, ◌||◌,
  if◌then◌else◌,
}
use se_navi_common.Common.Double.{Double, IsIeee}
use se_navi_common.Angles.{
  shortest_angular_distance, two_pi_complement, greater_of, lesser_of, find_min_max_delta,
  to_outside, from_outside, with_limits, shortest_angular_distance_with_limits,
}
use se_navi_common.Angles.Bounds.{IsFinite, Below, Above, InTurn, complement_lem}
use se_navi_common.Angles.Limits.{
  lesser_at, greater_at, greater_of-upper_delta, lesser_of-lower_delta, greater_of-OneOf,
  lesser_of-OneOf, nearer-OneOf, OneOf, Opposite-turn, one_turn, distance_turn,
}
use se_navi_common.Angles.Reach.{turn_back, first_limits, complement-turn_back, find-first_limits}

module _ {F : Type 0} (d : Double F) (laws : IsIeee d) where
  -- An angle is at least the first and at most the second.
  abbrev pub lies_in : F × F → F → Bool
  lies_in range angle = d.le range.0 angle && d.le angle range.1

  -- The lower end of a range is the one with the smaller number, or the upper one.
  abbrev pub is_lower_near : F × F → Bool
  is_lower_near range = d.lt (d.fabs range.0) (d.fabs range.1)

  abbrev pub is_upper_near : F × F → Bool
  is_upper_near range = d.lt (d.fabs range.1) (d.fabs range.0)

  -- One of two turns: not below zero where the first test says so, not above zero where the second
  -- one does, and otherwise the first one if it is the shorter.
  abbrev pub IsTurned : Bool → Bool → F → F → F → Type 0
  IsTurned upward downward a c x =
      OneOf d laws a c x
      × (((upward ≡ true) × Above d laws x)
          ⊎ (((upward ≡ false) × ((downward ≡ true) × Below d laws x))
              ⊎ ((upward ≡ false)
                  × ((downward ≡ false) × (x ≡ (if d.lt (d.fabs a) (d.fabs c) then a else c))))))

  -- Where the turn is not allowed: away from the nearer end of `to`, if the first angle is within the
  -- limits, and towards the nearer end of the range, if it is not.
  abbrev pub IsOutside : Bool → F × F → F × F → F → F → F → Type 0
  IsOutside true range to a c x = IsTurned (is_lower_near to) (is_upper_near to) a c x
  IsOutside false range to a c x = IsTurned (is_upper_near range) (is_lower_near range) a c x

  -- The shortest turn if it is in the range, otherwise the other one if that is.
  abbrev pub IsChosen : Bool × (F × F) → F × F → F → F → Bool × F → Type 0
  IsChosen found to a c r =
      (((found.0 && lies_in found.1 a) ≡ true) × (r ≡ (true, a)))
      ⊎ ((((found.0 && (not (lies_in found.1 a) && lies_in found.1 c)) ≡ true) × (r ≡ (true, c)))
          ⊎ (((found.0 && (lies_in found.1 a || lies_in found.1 c)) ≡ false)
              × ((r.0 ≡ false) × IsOutside found.0 found.1 to a c r.1)))

  -- The limits that come first from an angle.
  abbrev pub limits_at : F → F → F → Bool × (F × F)
  limits_at left_limit right_limit x =
      first_limits d left_limit right_limit (shortest_angular_distance d x left_limit)
        (shortest_angular_distance d x right_limit)

  near_once : (x y : F) → d.lt x y ≡ true → d.lt y x ≡ false
  near_once x y e = laws.lt_not x y (laws.lt-le x y e)

  module _ (a c : F) (above : Above d laws (greater_of d a c))
      (below : Below d laws (lesser_of d a c)) where
    to_outside-IsTurned :
        (to : F × F) → IsTurned (is_lower_near to) (is_upper_near to) a c (to_outside d to a c)
    to_outside-IsTurned to = elim (Bool-cases (is_lower_near to)) [
      | inl e ↦ rw e (greater_of-OneOf d laws a c, inl (refl, above))
      | inr e ↦ elim (Bool-cases (is_upper_near to)) [
        | inl k ↦ rw (e, k) (lesser_of-OneOf d laws a c, inr (inl (refl, (refl, below))))
        | inr k ↦ rw (e, k) (nearer-OneOf d laws a c, inr (inr (refl, (refl, refl))))
      ]
    ]

    from_outside-IsTurned :
        (range : F × F)
        → IsTurned (is_upper_near range) (is_lower_near range) a c (from_outside d range a c)
    from_outside-IsTurned range = elim (Bool-cases (is_lower_near range)) [
      | inl e ↦
          rw (e, near_once _ _ e) (lesser_of-OneOf d laws a c, inr (inl (refl, (refl, below))))
      | inr e ↦ elim (Bool-cases (is_upper_near range)) [
        | inl k ↦ rw (e, k) (greater_of-OneOf d laws a c, inl (refl, above))
        | inr k ↦ rw (e, k) (nearer-OneOf d laws a c, inr (inr (refl, (refl, refl))))
      ]
    ]

    with_limits-IsChosen :
        (flag : Bool) (range to : F × F)
        → IsChosen (flag, range) to a c (with_limits d (flag, range) to a c)
    unfolding with_limits
    with_limits-IsChosen false range to = inr (inr (refl, (refl, from_outside-IsTurned range)))
    with_limits-IsChosen true range to = elim (Bool-cases (lies_in range a)) [
      | inl e ↦ rw e (inl (refl, refl))
      | inr e ↦ elim (Bool-cases (lies_in range c)) [
        | inl k ↦ rw (e, k) (inr (inl (refl, refl)))
        | inr k ↦ rw (e, k) (inr (inr (refl, (refl, to_outside-IsTurned to))))
      ]
    ]

  greater_of-Above :
      (x : F) → InTurn d laws x → Above d laws (greater_of d x (two_pi_complement d x))
  greater_of-Above x h =
      subst (Above d laws) (sym (greater_of-upper_delta d laws x (two_pi_complement d x)))
        (greater_at d laws x (two_pi_complement d x) h (complement_lem d laws x h)).0

  lesser_of-Below : (x : F) → InTurn d laws x → Below d laws (lesser_of d x (two_pi_complement d x))
  lesser_of-Below x h =
      subst (Below d laws) (sym (lesser_of-lower_delta d laws x (two_pi_complement d x)))
        (lesser_at d laws x (two_pi_complement d x) h (complement_lem d laws x h)).0

  chosen_turn :
      (found : Bool × (F × F)) (to : F × F) (a c : F) (r : Bool × F)
      → InTurn d laws a
      → InTurn d laws c
      → IsChosen found to a c r
      → InTurn d laws r.1
  chosen_turn found to a c r ha hc (inl h) = one_turn d laws a c r.1 ha hc (inl (ap (λ p. p.1) h.1))
  chosen_turn found to a c r ha hc (inr (inl h)) =
      one_turn d laws a c r.1 ha hc (inr (ap (λ p. p.1) h.1))
  chosen_turn (true, range) to a c r ha hc (inr (inr h)) = one_turn d laws a c r.1 ha hc h.1.1.0
  chosen_turn (false, range) to a c r ha hc (inr (inr h)) = one_turn d laws a c r.1 ha hc h.1.1.0

  -- With the same laws, where the differences of the two angles and of each limit and each angle
  -- are finite: the range of an angle is that between the turns to the limits that come first,
  -- clockwise and counterclockwise (`first_limits`). The code gives the shortest distance and
  -- true if the first angle is within the limits and that distance is in its range; otherwise
  -- the turn in the other direction and true, if that one is; and otherwise false and one of
  -- these two turns. If the first angle is within the limits, this is one away from the nearer
  -- end of the range of the second angle, and if it is not, one towards the nearer end of its
  -- own range; where the ends are equally near, it is the shorter one of the two. The angle is
  -- in [-2 pi, 2 pi].
  pub with_limits_lem :
      (from to left_limit right_limit : F)
      → IsFinite d laws (d.sub to from)
      → IsFinite d laws (d.sub left_limit from)
      → IsFinite d laws (d.sub right_limit from)
      → IsFinite d laws (d.sub left_limit to)
      → IsFinite d laws (d.sub right_limit to)
      → let delta = shortest_angular_distance d from to in
        let r = shortest_angular_distance_with_limits d from to left_limit right_limit in
        IsChosen
          (limits_at left_limit right_limit from)
          (limits_at left_limit right_limit to).1
          delta
          (turn_back d delta)
          r
        × InTurn d laws r.1
  unfolding shortest_angular_distance_with_limits
  with_limits_lem from to left_limit right_limit h left_from right_from left_to right_to =
      let delta = shortest_angular_distance d from to in
      let found = find_min_max_delta d from left_limit right_limit in
      let found_to = find_min_max_delta d to left_limit right_limit in
      let turn = distance_turn d laws from to h in
      let chosen =
        with_limits-IsChosen delta (two_pi_complement d delta) (greater_of-Above delta turn)
          (lesser_of-Below delta turn) found.0 found.1 found_to.1 in
      let r = with_limits d found found_to.1 delta (two_pi_complement d delta) in
      (
        subst
            (λ c.
              IsChosen (limits_at left_limit right_limit from)
                (limits_at left_limit right_limit to).1 delta c r)
            (complement-turn_back d laws delta turn)
            (subst
              (λ x.
                IsChosen x (limits_at left_limit right_limit to).1 delta (two_pi_complement d delta)
                  r)
              (find-first_limits d laws from left_limit right_limit left_from right_from)
              (subst (λ x. IsChosen found x.1 delta (two_pi_complement d delta) r)
                (find-first_limits d laws to left_limit right_limit left_to right_to) chosen)),
        chosen_turn found found_to.1 delta (two_pi_complement d delta) r turn
            (Opposite-turn d laws delta (two_pi_complement d delta)
              (complement_lem d laws delta turn))
            chosen,
      )
