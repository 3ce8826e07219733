-- ===== src/Angles/Examples.antt =====
-- Angles of Source/Geometry/Angles.h in whole degrees.
use se_navi_common.Common.{◌≡◌, refl, true}
use se_navi_common.Common.Int.{pos, negsuc, ◌+ℤ◌, ◌-ℤ◌, ◌·ℤ◌}
use se_navi_common.Common.Double.{degrees, degrees-IsIeee}
use se_navi_common.Angles.{
  normalize_angle, normalize_angle_positive, shortest_angular_distance, two_pi_complement,
  find_min_max_delta, shortest_angular_distance_with_limits, other_way, limits_of, limits,
  with_limits,
}
use se_navi_common.Angles.Bounds.{Within, InTurn, normalize_bounds}
use se_navi_common.Angles.Choice.{IsChosen, limits_at, with_limits_lem}

-- -190 degrees are 170.
normalize_example : Within degrees degrees-IsIeee (negsuc 179) (pos 170) (pos 180)
unfolding normalize_angle normalize_angle_positive ◌+ℤ◌ ◌-ℤ◌ ◌·ℤ◌
normalize_example = normalize_bounds degrees degrees-IsIeee (negsuc 189) refl

-- From 100 to -100 degrees within [90, -90], which is over 180 degrees: the shortest turn.
limits_example :
    IsChosen degrees degrees-IsIeee
      (limits_at degrees degrees-IsIeee (pos 90) (negsuc 89) (pos 100))
      (limits_at degrees degrees-IsIeee (pos 90) (negsuc 89) (negsuc 99)).1
      (pos 160)
      (negsuc 199)
      (true, pos 160)
    × InTurn degrees degrees-IsIeee (pos 160)
unfolding shortest_angular_distance_with_limits with_limits find_min_max_delta limits_of limits
    shortest_angular_distance normalize_angle normalize_angle_positive two_pi_complement other_way
    ◌+ℤ◌ ◌-ℤ◌ ◌·ℤ◌
limits_example =
    with_limits_lem degrees degrees-IsIeee (pos 100) (negsuc 99) (pos 90) (negsuc 89) refl refl refl
      refl refl

-- From -30 to 30 degrees within [15, -15], over 180 degrees: the other turn.
other_turn :
    shortest_angular_distance_with_limits degrees (negsuc 29) (pos 30) (pos 15) (negsuc 14)
    ≡ (true, negsuc 299)
unfolding shortest_angular_distance_with_limits with_limits find_min_max_delta limits_of limits
    shortest_angular_distance normalize_angle normalize_angle_positive two_pi_complement other_way
    ◌+ℤ◌ ◌-ℤ◌ ◌·ℤ◌
other_turn = refl
