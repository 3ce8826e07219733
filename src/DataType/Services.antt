-- ===== src/DataType/Services.antt =====
-- ServiceString.h, ServiceMap.h, ServiceOdometry.h and ServiceTransform.h of
-- Source/Service/ServiceType.
pub mod Soundness
use se_navi_common.Common.{ℕ, List, Bool}
use se_navi_common.Common.Int.{ℤ}
use se_navi_common.Time.{Time}
use se_navi_common.Serialization.Serializer.{Serializer, next, ◌⨾◌, all_in_one}
use se_navi_common.Serialization.Scalars.{uint8, uint64, float32, int16, boolean}
use se_navi_common.Serialization.Times.{time}
use se_navi_common.Serialization.Containers.{text, vector}
use se_navi_common.DataType.Geometry.{Pose, pose, Transform, transform, Twist, twist}
use se_navi_common.DataType.Stamped.{DataHeader, data_header, PoseStamped, pose_stamped}
use se_navi_common.DataType.Navigation.{OccupancyGrid, occupancy_grid, Odometry, odometry}

pub record ServiceString : Type 0 where
  pub result : Bool
  pub text : List ℕ

unfoldable pub service_string : Serializer ServiceString
service_string =
    all_in_one (next boolean ⨾ next text) (λ m. (m.result, m.text))
      (λ p. record { result = p.0; text = p.1 })

pub record ServiceMap : Type 0 where
  pub result : Bool
  pub map : OccupancyGrid

unfoldable pub service_map : Serializer ServiceMap
service_map =
    all_in_one (next boolean ⨾ next occupancy_grid) (λ m. (m.result, m.map))
      (λ p. record { result = p.0; map = p.1 })

pub record ServiceOdometry : Type 0 where
  pub result : Bool
  pub odom : Odometry

unfoldable pub service_odometry : Serializer ServiceOdometry
service_odometry =
    all_in_one (next boolean ⨾ next odometry) (λ m. (m.result, m.odom))
      (λ p. record { result = p.0; odom = p.1 })

pub record ServiceTransform : Type 0 where
  pub result : Bool
  pub transform : Transform

unfoldable pub service_transform : Serializer ServiceTransform
service_transform =
    all_in_one (next boolean ⨾ next transform) (λ m. (m.result, m.transform))
      (λ p. record { result = p.0; transform = p.1 })
