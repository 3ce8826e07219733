-- ===== src/DataType/Geometry/Soundness.antt =====
-- The encodings of the geometry messages, with their lengths.
use se_navi_common.Common.{ℕ, ◌+◌, ◌^◌, ◌<◌, ◌≡◌, refl, List, ◌++◌, length, length-append, arith}
use se_navi_common.Serialization.Serializer.Soundness.{IsSound}
use se_navi_common.Serialization.Serializer.Compose.{
  next-IsSoundVisitor, ⨾-IsSoundVisitor, all_in_one-IsSound,
}
use se_navi_common.Serialization.Scalars.{float32, float64}
use se_navi_common.Serialization.Scalars.Bytes.{le_bytes, length-le_bytes}
use se_navi_common.Serialization.Scalars.Soundness.{scalar-IsSound}
use se_navi_common.DataType.Geometry.{
  Point, point, Point32, point32, Vector3, vector3, Quaternion, quaternion, Pose, pose, Transform,
  transform, Twist, twist,
}

-- Two encodings of known length, one behind the other.
pub length-both : (a b : List ℕ) {m n : ℕ} → length a ≡ m → length b ≡ n → length (a ++ b) ≡ m + n
length-both a b h k = omega (arith, length-append a b)

pub float64-IsSound : IsSound (λ v. v < 256 ^ 8) (le_bytes 8) float64
float64-IsSound = scalar-IsSound 8 (omega arith)

pub float32-IsSound : IsSound (λ v. v < 256 ^ 4) (le_bytes 4) float32
float32-IsSound = scalar-IsSound 4 (omega arith)

abbrev pub FitsPoint : Point → Type 0
FitsPoint m = (m.x < 256 ^ 8) × ((m.y < 256 ^ 8) × (m.z < 256 ^ 8))

abbrev pub encode_point : Point → List ℕ
encode_point m = le_bytes 8 m.x ++ (le_bytes 8 m.y ++ le_bytes 8 m.z)

pub point-IsSound : IsSound FitsPoint encode_point point
unfolding point
point-IsSound =
    all_in_one-IsSound (λ (m : Point). (m.x, (m.y, m.z)))
      (λ p. record { x = p.0; y = p.1.0; z = p.1.1 }) (λ m. refl)
      (⨾-IsSoundVisitor (next-IsSoundVisitor float64-IsSound) (
        ⨾-IsSoundVisitor (next-IsSoundVisitor float64-IsSound)
          (next-IsSoundVisitor float64-IsSound)))

pub length-encode_point : (m : Point) → length (encode_point m) ≡ 24
length-encode_point m = simp (length-append, length-le_bytes)

abbrev pub FitsPoint32 : Point32 → Type 0
FitsPoint32 m = (m.x < 256 ^ 4) × ((m.y < 256 ^ 4) × (m.z < 256 ^ 4))

abbrev pub encode_point32 : Point32 → List ℕ
encode_point32 m = le_bytes 4 m.x ++ (le_bytes 4 m.y ++ le_bytes 4 m.z)

pub point32-IsSound : IsSound FitsPoint32 encode_point32 point32
unfolding point32
point32-IsSound =
    all_in_one-IsSound (λ (m : Point32). (m.x, (m.y, m.z)))
      (λ p. record { x = p.0; y = p.1.0; z = p.1.1 }) (λ m. refl)
      (⨾-IsSoundVisitor (next-IsSoundVisitor float32-IsSound) (
        ⨾-IsSoundVisitor (next-IsSoundVisitor float32-IsSound)
          (next-IsSoundVisitor float32-IsSound)))

pub length-encode_point32 : (m : Point32) → length (encode_point32 m) ≡ 12
length-encode_point32 m = simp (length-append, length-le_bytes)

abbrev pub FitsVector3 : Vector3 → Type 0
FitsVector3 m = (m.x < 256 ^ 8) × ((m.y < 256 ^ 8) × (m.z < 256 ^ 8))

abbrev pub encode_vector3 : Vector3 → List ℕ
encode_vector3 m = le_bytes 8 m.x ++ (le_bytes 8 m.y ++ le_bytes 8 m.z)

pub vector3-IsSound : IsSound FitsVector3 encode_vector3 vector3
unfolding vector3
vector3-IsSound =
    all_in_one-IsSound (λ (m : Vector3). (m.x, (m.y, m.z)))
      (λ p. record { x = p.0; y = p.1.0; z = p.1.1 }) (λ m. refl)
      (⨾-IsSoundVisitor (next-IsSoundVisitor float64-IsSound) (
        ⨾-IsSoundVisitor (next-IsSoundVisitor float64-IsSound)
          (next-IsSoundVisitor float64-IsSound)))

pub length-encode_vector3 : (m : Vector3) → length (encode_vector3 m) ≡ 24
length-encode_vector3 m = simp (length-append, length-le_bytes)

abbrev pub FitsQuaternion : Quaternion → Type 0
FitsQuaternion m = (m.x < 256 ^ 8) × ((m.y < 256 ^ 8) × ((m.z < 256 ^ 8) × (m.w < 256 ^ 8)))

abbrev pub encode_quaternion : Quaternion → List ℕ
encode_quaternion m = le_bytes 8 m.x ++ (le_bytes 8 m.y ++ (le_bytes 8 m.z ++ le_bytes 8 m.w))

pub quaternion-IsSound : IsSound FitsQuaternion encode_quaternion quaternion
unfolding quaternion
quaternion-IsSound =
    all_in_one-IsSound (λ (m : Quaternion). (m.x, (m.y, (m.z, m.w))))
      (λ p. record { x = p.0; y = p.1.0; z = p.1.1.0; w = p.1.1.1 }) (λ m. refl)
      (⨾-IsSoundVisitor (next-IsSoundVisitor float64-IsSound) (
        ⨾-IsSoundVisitor (next-IsSoundVisitor float64-IsSound) (
          ⨾-IsSoundVisitor (next-IsSoundVisitor float64-IsSound)
            (next-IsSoundVisitor float64-IsSound))))

pub length-encode_quaternion : (m : Quaternion) → length (encode_quaternion m) ≡ 32
length-encode_quaternion m = simp (length-append, length-le_bytes)

abbrev pub FitsPose : Pose → Type 0
FitsPose m = (FitsPoint m.position) × (FitsQuaternion m.orientation)

abbrev pub encode_pose : Pose → List ℕ
encode_pose m = encode_point m.position ++ encode_quaternion m.orientation

pub pose-IsSound : IsSound FitsPose encode_pose pose
unfolding pose
pose-IsSound =
    all_in_one-IsSound (λ (m : Pose). (m.position, m.orientation))
      (λ p. record { position = p.0; orientation = p.1 }) (λ m. refl)
      (⨾-IsSoundVisitor (next-IsSoundVisitor point-IsSound)
        (next-IsSoundVisitor quaternion-IsSound))

pub length-encode_pose : (m : Pose) → length (encode_pose m) ≡ 56
length-encode_pose m = simp (length-append, length-le_bytes)

abbrev pub FitsTransform : Transform → Type 0
FitsTransform m = (FitsVector3 m.translation) × (FitsQuaternion m.rotation)

abbrev pub encode_transform : Transform → List ℕ
encode_transform m = encode_vector3 m.translation ++ encode_quaternion m.rotation

pub transform-IsSound : IsSound FitsTransform encode_transform transform
unfolding transform
transform-IsSound =
    all_in_one-IsSound (λ (m : Transform). (m.translation, m.rotation))
      (λ p. record { translation = p.0; rotation = p.1 }) (λ m. refl)
      (⨾-IsSoundVisitor (next-IsSoundVisitor vector3-IsSound)
        (next-IsSoundVisitor quaternion-IsSound))

pub length-encode_transform : (m : Transform) → length (encode_transform m) ≡ 56
length-encode_transform m = simp (length-append, length-le_bytes)

abbrev pub FitsTwist : Twist → Type 0
FitsTwist m = (FitsVector3 m.linear) × (FitsVector3 m.angular)

abbrev pub encode_twist : Twist → List ℕ
encode_twist m = encode_vector3 m.linear ++ encode_vector3 m.angular

pub twist-IsSound : IsSound FitsTwist encode_twist twist
unfolding twist
twist-IsSound =
    all_in_one-IsSound (λ (m : Twist). (m.linear, m.angular))
      (λ p. record { linear = p.0; angular = p.1 }) (λ m. refl)
      (⨾-IsSoundVisitor (next-IsSoundVisitor vector3-IsSound) (next-IsSoundVisitor vector3-IsSound))

pub length-encode_twist : (m : Twist) → length (encode_twist m) ≡ 48
length-encode_twist m = simp (length-append, length-le_bytes)
