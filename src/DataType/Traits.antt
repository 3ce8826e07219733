-- ===== src/DataType/Traits.antt =====
-- The header traits of Source/Common/MessageTraits.h: where the header, the frame and the time stamp
-- of a message are found.
pub mod Checks
use se_navi_common.Common.{ℕ, List, Option, none, some}
use se_navi_common.Time.{Time}
use se_navi_common.DataType.Stamped.{DataHeader}
use se_navi_common.DataType.Kinds.{
  Kind, Value, channel_float32_kind, data_header_kind, laser_scan_kind, map_meta_data_kind,
  occupancy_grid_kind, odometry_kind, path_kind, point_kind, point32_kind, pose_kind,
  pose_stamped_kind, quaternion_kind, transform_kind, twist_kind, vector3_kind, service_map_kind,
  service_odometry_kind, service_string_kind, service_transform_kind,
}

-- `&m.header`, where there is a header; none is the null pointer.
unfoldable pub header : (k : Kind) → Value k → Option DataHeader
header channel_float32_kind m = none
header data_header_kind m = none
header laser_scan_kind m = some m.header
header map_meta_data_kind m = none
header occupancy_grid_kind m = some m.header
header odometry_kind m = some m.header
header path_kind m = some m.header
header point_kind m = none
header point32_kind m = none
header pose_kind m = none
header pose_stamped_kind m = some m.header
header quaternion_kind m = none
header transform_kind m = none
header twist_kind m = none
header vector3_kind m = none
header service_map_kind m = none
header service_odometry_kind m = none
header service_string_kind m = none
header service_transform_kind m = none

-- `FrameId` and `TimeStamp`.
abbrev frame_in : Option DataHeader → Option (List ℕ)
frame_in none = none
frame_in (some h) = some h.frame_id

abbrev stamp_in : Option DataHeader → Option Time
stamp_in none = none
stamp_in (some h) = some h.stamp

unfoldable pub frame_id : (k : Kind) → Value k → Option (List ℕ)
frame_id k m = frame_in (header k m)

unfoldable pub time_stamp : (k : Kind) → Value k → Option Time
time_stamp k m = stamp_in (header k m)
