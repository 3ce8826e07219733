-- ===== src/DataType/Navigation.antt =====
-- MapMetaData.h, OccupancyGrid.h, Odometry.h and Path.h of Source/DataSet/DataType.
-- The field `data` of an `OccupancyGrid` is `cells` here, each a `char` as its byte.
pub mod Soundness
use se_navi_common.Common.{ℕ, List, Bool}
use se_navi_common.Common.Int.{ℤ}
use se_navi_common.Time.{Time}
use se_navi_common.Serialization.Serializer.{Serializer, next, ◌⨾◌, all_in_one}
use se_navi_common.Serialization.Scalars.{uint8, uint64, float32, int16, boolean}
use se_navi_common.Serialization.Times.{time}
use se_navi_common.Serialization.Containers.{text, vector}
use se_navi_common.DataType.Geometry.{Pose, pose, Transform, transform, Twist, twist}
use se_navi_common.DataType.Stamped.{DataHeader, data_header, PoseStamped, pose_stamped}

pub record MapMetaData : Type 0 where
  pub map_load_time : Time
  pub resolution : ℕ
  pub width : ℤ
  pub height : ℤ
  pub origin : Pose

unfoldable pub map_meta_data : Serializer MapMetaData
map_meta_data =
    all_in_one (next time ⨾ next float32 ⨾ next int16 ⨾ next int16 ⨾ next pose)
      (λ m. (m.map_load_time, (m.resolution, (m.width, (m.height, m.origin)))))
      (λ p. record {
        map_load_time = p.0;
        resolution = p.1.0;
        width = p.1.1.0;
        height = p.1.1.1.0;
        origin = p.1.1.1.1;
      })

pub record OccupancyGrid : Type 0 where
  pub header : DataHeader
  pub info : MapMetaData
  pub cells : List ℕ

unfoldable pub occupancy_grid : Serializer OccupancyGrid
occupancy_grid =
    all_in_one (next data_header ⨾ next map_meta_data ⨾ next (vector uint8))
      (λ m. (m.header, (m.info, m.cells)))
      (λ p. record { header = p.0; info = p.1.0; cells = p.1.1 })

pub record Odometry : Type 0 where
  pub header : DataHeader
  pub child_frame_id : List ℕ
  pub pose : Pose
  pub twist : Twist

unfoldable pub odometry : Serializer Odometry
odometry =
    all_in_one (next data_header ⨾ next text ⨾ next pose ⨾ next twist)
      (λ m. (m.header, (m.child_frame_id, (m.pose, m.twist))))
      (λ p. record { header = p.0; child_frame_id = p.1.0; pose = p.1.1.0; twist = p.1.1.1 })

pub record PathMessage : Type 0 where
  pub header : DataHeader
  pub poses : List PoseStamped

unfoldable pub path : Serializer PathMessage
path =
    all_in_one (next data_header ⨾ next (vector pose_stamped)) (λ m. (m.header, m.poses))
      (λ p. record { header = p.0; poses = p.1 })
