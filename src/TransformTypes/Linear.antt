-- ===== src/TransformTypes/Linear.antt =====
-- What Source/Transform/DataTypes.h uses of the linear math library, and what it relies on.
use se_navi_common.Common.{ℕ, ◌≡◌}

-- `Vector3`, `Quaternion` and `Transform`. `of_rpy` is `setRPY`, and `yaw` that of the rotation matrix
-- of a quaternion.
pub record LinearMath : Type 1 where
  pub Vect : Type 0
  pub vector : ℕ → ℕ → ℕ → Vect
  pub vx : Vect → ℕ
  pub vy : Vect → ℕ
  pub vz : Vect → ℕ
  pub Quat : Type 0
  pub quaternion : ℕ → ℕ → ℕ → ℕ → Quat
  pub qx : Quat → ℕ
  pub qy : Quat → ℕ
  pub qz : Quat → ℕ
  pub qw : Quat → ℕ
  pub length2 : Quat → ℕ
  pub normalize : Quat → Quat
  pub of_rpy : ℕ → ℕ → ℕ → Quat
  pub yaw : Quat → ℕ
  pub Trans : Type 0
  pub transform : Quat → Vect → Trans
  pub get_origin : Trans → Vect
  pub get_rotation : Trans → Quat

-- The accessors give what the constructors were given.
pub record Accessors (linear : LinearMath) : Type 0 where
  pub vector_x : (x y z : ℕ) → linear.vx (linear.vector x y z) ≡ x
  pub vector_y : (x y z : ℕ) → linear.vy (linear.vector x y z) ≡ y
  pub vector_z : (x y z : ℕ) → linear.vz (linear.vector x y z) ≡ z
  pub quaternion_x : (x y z w : ℕ) → linear.qx (linear.quaternion x y z w) ≡ x
  pub quaternion_y : (x y z w : ℕ) → linear.qy (linear.quaternion x y z w) ≡ y
  pub quaternion_z : (x y z w : ℕ) → linear.qz (linear.quaternion x y z w) ≡ z
  pub quaternion_w : (x y z w : ℕ) → linear.qw (linear.quaternion x y z w) ≡ w
  pub origin : (q : linear.Quat) (v : linear.Vect) → linear.get_origin (linear.transform q v) ≡ v
