-- ===== src/Angles.antt =====
-- Source/Geometry/Angles.h, over the operations of `double`.
pub mod Bounds
pub mod Limits
pub mod Reach
pub mod Choice
pub mod Examples
use se_navi_common.Common.{Bool, true, false, ◌&&◌, ◌||◌, if◌then◌else◌}
use se_navi_common.Common.Double.{Double, two_pi, minus_two_pi}

module _ {F : Type 0} (d : Double F) where
  abbrev pub from_degrees : F → F
  from_degrees degrees = d.div (d.mul degrees d.pi) (d.number 180)

  abbrev pub to_degrees : F → F
  to_degrees radians = d.div (d.mul radians (d.number 180)) d.pi

  unfoldable pub normalize_angle_positive : F → F
  normalize_angle_positive angle = d.fmod (d.add (d.fmod angle (two_pi d)) (two_pi d)) (two_pi d)

  unfoldable pub normalize_angle : F → F
  normalize_angle angle =
      let a = normalize_angle_positive angle in if d.lt d.pi a then d.sub a (two_pi d) else a

  unfoldable pub shortest_angular_distance : F → F → F
  shortest_angular_distance from to = normalize_angle (d.sub to from)

  -- The end of `two_pi_complement`.
  unfoldable pub other_way : F → F
  other_way angle =
      if d.lt angle (d.number 0)
      then d.add (two_pi d) angle
      else if d.lt (d.number 0) angle
      then d.add (minus_two_pi d) angle
      else two_pi d

  unfoldable pub two_pi_complement : F → F
  two_pi_complement angle =
      if d.lt (two_pi d) angle || d.lt angle (minus_two_pi d)
      then other_way (d.fmod angle (two_pi d))
      else other_way angle

  -- `std::max` and `std::min`.
  abbrev pub greater_of : F → F → F
  greater_of a b = if d.lt a b then b else a

  abbrev pub lesser_of : F → F → F
  lesser_of a b = if d.lt b a then b else a

  -- `delta_min` and `delta_min_2pi`.
  abbrev pub lower_delta : F → F → F × F
  lower_delta delta complement =
      if d.lt complement delta then (complement, delta) else (delta, complement)

  -- `delta_max` and `delta_max_2pi`.
  abbrev pub upper_delta : F → F → F × F
  upper_delta delta complement =
      if d.lt delta complement then (complement, delta) else (delta, complement)

  -- The end of `find_min_max_delta`, behind its early returns.
  unfoldable pub limits : F → F → F × F → F × F → Bool × (F × F)
  limits left_limit right_limit (delta_min, delta_min_2pi) (delta_max, delta_max_2pi) =
      if d.le delta_min delta_max_2pi || d.le delta_min_2pi delta_max
      then (d.eq left_limit (d.neg d.pi) && d.eq right_limit d.pi, (delta_max_2pi, delta_min_2pi))
      else (true, (delta_min, delta_max))

  unfoldable pub limits_of : F → F → F → F → Bool × (F × F)
  limits_of left_limit right_limit delta0 delta1 =
      let delta2 = two_pi_complement delta0 in
      let delta3 = two_pi_complement delta1 in
      if d.eq delta0 (d.number 0)
      then (true, (delta0, greater_of delta1 delta3))
      else if d.eq delta1 (d.number 0)
      then (true, (lesser_of delta0 delta2, delta1))
      else limits left_limit right_limit (lower_delta delta0 delta2) (upper_delta delta1 delta3)

  -- `find_min_max_delta`: what it returns, and its two results.
  unfoldable pub find_min_max_delta : F → F → F → Bool × (F × F)
  find_min_max_delta from left_limit right_limit =
      limits_of left_limit right_limit (shortest_angular_distance from left_limit)
        (shortest_angular_distance from right_limit)

  abbrev pub nearer : F → F → F
  nearer delta delta_mod_2pi =
      if d.lt (d.fabs delta) (d.fabs delta_mod_2pi) then delta else delta_mod_2pi

  -- Where `from` is within the limits and `to` is not.
  abbrev pub to_outside : F × F → F → F → F
  to_outside (min_delta_to, max_delta_to) delta delta_mod_2pi =
      if d.lt (d.fabs min_delta_to) (d.fabs max_delta_to)
      then greater_of delta delta_mod_2pi
      else if d.lt (d.fabs max_delta_to) (d.fabs min_delta_to)
      then lesser_of delta delta_mod_2pi
      else nearer delta delta_mod_2pi

  abbrev pub from_outside : F × F → F → F → F
  from_outside (min_delta, max_delta) delta delta_mod_2pi =
      if d.lt (d.fabs min_delta) (d.fabs max_delta)
      then lesser_of delta delta_mod_2pi
      else if d.lt (d.fabs max_delta) (d.fabs min_delta)
      then greater_of delta delta_mod_2pi
      else nearer delta delta_mod_2pi

  abbrev pub is_between : F × F → F → Bool
  is_between (min_delta, max_delta) delta = d.le min_delta delta && d.le delta max_delta

  unfoldable pub with_limits : Bool × (F × F) → F × F → F → F → Bool × F
  with_limits (true, range) range_to delta delta_mod_2pi =
      if is_between range delta
      then (true, delta)
      else if is_between range delta_mod_2pi
      then (true, delta_mod_2pi)
      else (false, to_outside range_to delta delta_mod_2pi)
  with_limits (false, range) range_to delta delta_mod_2pi =
      (false, from_outside range delta delta_mod_2pi)

  -- `shortest_angular_distance_with_limits`: what it returns, and `shortest_angle`.
  unfoldable pub shortest_angular_distance_with_limits : F → F → F → F → Bool × F
  shortest_angular_distance_with_limits from to left_limit right_limit =
      let delta = shortest_angular_distance from to in
      with_limits (find_min_max_delta from left_limit right_limit)
        (find_min_max_delta to left_limit right_limit).1 delta (two_pi_complement delta)
