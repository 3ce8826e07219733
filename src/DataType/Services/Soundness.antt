-- ===== src/DataType/Services/Soundness.antt =====
-- The encodings of the service messages.
use se_navi_common.Common.{ℕ, ◌^◌, ◌<◌, ◌≡◌, refl, List, [], ◌∷◌, ◌++◌, length, length-append}
use se_navi_common.Serialization.Serializer.Soundness.{IsSound}
use se_navi_common.Serialization.Serializer.Compose.{
  next-IsSoundVisitor, ⨾-IsSoundVisitor, all_in_one-IsSound,
}
use se_navi_common.Serialization.Scalars.{bool_byte}
use se_navi_common.Serialization.Scalars.Bytes.{length-le_bytes}
use se_navi_common.Serialization.Scalars.Soundness.{boolean-IsSound}
use se_navi_common.Serialization.Containers.Soundness.{encode_text, text-IsSound}
use se_navi_common.DataType.Geometry.Soundness.{FitsTransform, encode_transform, transform-IsSound}
use se_navi_common.DataType.Navigation.Soundness.{
  FitsOccupancyGrid, encode_occupancy_grid, occupancy_grid-IsSound, FitsOdometry, encode_odometry,
  odometry-IsSound,
}
use se_navi_common.DataType.Services.{
  ServiceString, service_string, ServiceMap, service_map, ServiceOdometry, service_odometry,
  ServiceTransform, service_transform,
}

abbrev pub FitsServiceString : ServiceString → Type 0
FitsServiceString m = (Unit {0}) × (length m.text < 2 ^ 32)

abbrev pub encode_service_string : ServiceString → List ℕ
encode_service_string m = (bool_byte m.result ∷ []) ++ encode_text m.text

pub service_string-IsSound : IsSound FitsServiceString encode_service_string service_string
unfolding service_string
service_string-IsSound =
    all_in_one-IsSound (λ (m : ServiceString). (m.result, m.text))
      (λ p. record { result = p.0; text = p.1 }) (λ m. refl)
      (⨾-IsSoundVisitor (next-IsSoundVisitor boolean-IsSound) (next-IsSoundVisitor text-IsSound))

abbrev pub FitsServiceMap : ServiceMap → Type 0
FitsServiceMap m = (Unit {0}) × (FitsOccupancyGrid m.map)

abbrev pub encode_service_map : ServiceMap → List ℕ
encode_service_map m = (bool_byte m.result ∷ []) ++ encode_occupancy_grid m.map

pub service_map-IsSound : IsSound FitsServiceMap encode_service_map service_map
unfolding service_map
service_map-IsSound =
    all_in_one-IsSound (λ (m : ServiceMap). (m.result, m.map))
      (λ p. record { result = p.0; map = p.1 }) (λ m. refl)
      (⨾-IsSoundVisitor (next-IsSoundVisitor boolean-IsSound)
        (next-IsSoundVisitor occupancy_grid-IsSound))

abbrev pub FitsServiceOdometry : ServiceOdometry → Type 0
FitsServiceOdometry m = (Unit {0}) × (FitsOdometry m.odom)

abbrev pub encode_service_odometry : ServiceOdometry → List ℕ
encode_service_odometry m = (bool_byte m.result ∷ []) ++ encode_odometry m.odom

pub service_odometry-IsSound : IsSound FitsServiceOdometry encode_service_odometry service_odometry
unfolding service_odometry
service_odometry-IsSound =
    all_in_one-IsSound (λ (m : ServiceOdometry). (m.result, m.odom))
      (λ p. record { result = p.0; odom = p.1 }) (λ m. refl)
      (⨾-IsSoundVisitor (next-IsSoundVisitor boolean-IsSound)
        (next-IsSoundVisitor odometry-IsSound))

abbrev pub FitsServiceTransform : ServiceTransform → Type 0
FitsServiceTransform m = (Unit {0}) × (FitsTransform m.transform)

abbrev pub encode_service_transform : ServiceTransform → List ℕ
encode_service_transform m = (bool_byte m.result ∷ []) ++ encode_transform m.transform

pub service_transform-IsSound :
    IsSound FitsServiceTransform encode_service_transform service_transform
unfolding service_transform
service_transform-IsSound =
    all_in_one-IsSound (λ (m : ServiceTransform). (m.result, m.transform))
      (λ p. record { result = p.0; transform = p.1 }) (λ m. refl)
      (⨾-IsSoundVisitor (next-IsSoundVisitor boolean-IsSound)
        (next-IsSoundVisitor transform-IsSound))

pub length-encode_service_transform :
    (m : ServiceTransform) → length (encode_service_transform m) ≡ 57
length-encode_service_transform m = simp (length-append, length-le_bytes)
