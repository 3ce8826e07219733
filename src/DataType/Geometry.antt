-- ===== src/DataType/Geometry.antt =====
-- Point.h, Point32.h, Vector3.h, Quaternion.h, Pose.h, Transform.h and Twist.h of
-- Source/DataSet/DataType.
pub mod Soundness
use se_navi_common.Common.{ℕ}
use se_navi_common.Serialization.Serializer.{Serializer, next, ◌⨾◌, all_in_one}
use se_navi_common.Serialization.Scalars.{float32, float64}

pub record Point : Type 0 where
  pub x : ℕ
  pub y : ℕ
  pub z : ℕ

unfoldable pub point : Serializer Point
point =
    all_in_one (next float64 ⨾ next float64 ⨾ next float64) (λ m. (m.x, (m.y, m.z)))
      (λ p. record { x = p.0; y = p.1.0; z = p.1.1 })

pub record Point32 : Type 0 where
  pub x : ℕ
  pub y : ℕ
  pub z : ℕ

unfoldable pub point32 : Serializer Point32
point32 =
    all_in_one (next float32 ⨾ next float32 ⨾ next float32) (λ m. (m.x, (m.y, m.z)))
      (λ p. record { x = p.0; y = p.1.0; z = p.1.1 })

pub record Vector3 : Type 0 where
  pub x : ℕ
  pub y : ℕ
  pub z : ℕ

unfoldable pub vector3 : Serializer Vector3
vector3 =
    all_in_one (next float64 ⨾ next float64 ⨾ next float64) (λ m. (m.x, (m.y, m.z)))
      (λ p. record { x = p.0; y = p.1.0; z = p.1.1 })

pub record Quaternion : Type 0 where
  pub x : ℕ
  pub y : ℕ
  pub z : ℕ
  pub w : ℕ

unfoldable pub quaternion : Serializer Quaternion
quaternion =
    all_in_one (next float64 ⨾ next float64 ⨾ next float64 ⨾ next float64)
      (λ m. (m.x, (m.y, (m.z, m.w)))) (λ p. record { x = p.0; y = p.1.0; z = p.1.1.0; w = p.1.1.1 })

pub record Pose : Type 0 where
  pub position : Point
  pub orientation : Quaternion

unfoldable pub pose : Serializer Pose
pose =
    all_in_one (next point ⨾ next quaternion) (λ m. (m.position, m.orientation))
      (λ p. record { position = p.0; orientation = p.1 })

pub record Transform : Type 0 where
  pub translation : Vector3
  pub rotation : Quaternion

unfoldable pub transform : Serializer Transform
transform =
    all_in_one (next vector3 ⨾ next quaternion) (λ m. (m.translation, m.rotation))
      (λ p. record { translation = p.0; rotation = p.1 })

pub record Twist : Type 0 where
  pub linear : Vector3
  pub angular : Vector3

unfoldable pub twist : Serializer Twist
twist =
    all_in_one (next vector3 ⨾ next vector3) (λ m. (m.linear, m.angular))
      (λ p. record { linear = p.0; angular = p.1 })
