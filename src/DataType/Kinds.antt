-- ===== src/DataType/Kinds.antt =====
-- The message types of Source/DataSet/DataType and Source/Service/ServiceType that have a
-- serializer, as one family: what a template over the message type takes for it.
use se_navi_common.Common.{ℕ, ◌+◌, ◌^◌, ◌<◌, ◌≡◌, List, length, and_then, ok, err}
use se_navi_common.Serialization.Stream.{overrun}
use se_navi_common.Serialization.Serializer.{Serializer}
use se_navi_common.Serialization.Serializer.Soundness.{IsSound}
use se_navi_common.Serialization.Message.{serialize_message, deserialize_message}
use se_navi_common.Serialization.Message.RoundTrip.{
  framed_message, deserialize-serialize, deserialize_truncated,
}
use se_navi_common.DataType.Geometry.{
  Point, point, Point32, point32, Pose, pose, Quaternion, quaternion, Transform, transform, Twist,
  twist, Vector3, vector3,
}
use se_navi_common.DataType.Geometry.Soundness.{
  FitsPoint, encode_point, point-IsSound, FitsPoint32, encode_point32, point32-IsSound, FitsPose,
  encode_pose, pose-IsSound, FitsQuaternion, encode_quaternion, quaternion-IsSound, FitsTransform,
  encode_transform, transform-IsSound, FitsTwist, encode_twist, twist-IsSound, FitsVector3,
  encode_vector3, vector3-IsSound,
}
use se_navi_common.DataType.Stamped.{
  ChannelFloat32, channel_float32, DataHeader, data_header, LaserScan, laser_scan, PoseStamped,
  pose_stamped,
}
use se_navi_common.DataType.Stamped.Soundness.{
  FitsChannelFloat32, encode_channel_float32, channel_float32-IsSound, FitsDataHeader,
  encode_data_header, data_header-IsSound, FitsLaserScan, encode_laser_scan, laser_scan-IsSound,
  FitsPoseStamped, encode_pose_stamped, pose_stamped-IsSound,
}
use se_navi_common.DataType.Navigation.{
  MapMetaData, map_meta_data, OccupancyGrid, occupancy_grid, Odometry, odometry, PathMessage, path,
}
use se_navi_common.DataType.Navigation.Soundness.{
  FitsMapMetaData, encode_map_meta_data, map_meta_data-IsSound, FitsOccupancyGrid,
  encode_occupancy_grid, occupancy_grid-IsSound, FitsOdometry, encode_odometry, odometry-IsSound,
  FitsPathMessage, encode_path, path-IsSound,
}
use se_navi_common.DataType.Services.{
  ServiceMap, service_map, ServiceOdometry, service_odometry, ServiceString, service_string,
  ServiceTransform, service_transform,
}
use se_navi_common.DataType.Services.Soundness.{
  FitsServiceMap, encode_service_map, service_map-IsSound, FitsServiceOdometry,
  encode_service_odometry, service_odometry-IsSound, FitsServiceString, encode_service_string,
  service_string-IsSound, FitsServiceTransform, encode_service_transform, service_transform-IsSound,
}

pub data Kind : Type 0 where
  channel_float32_kind data_header_kind laser_scan_kind map_meta_data_kind occupancy_grid_kind
        odometry_kind path_kind point_kind point32_kind pose_kind pose_stamped_kind quaternion_kind
        transform_kind twist_kind vector3_kind service_map_kind service_odometry_kind
        service_string_kind service_transform_kind :
      Kind

abbrev pub Value : Kind → Type 0
Value channel_float32_kind = ChannelFloat32
Value data_header_kind = DataHeader
Value laser_scan_kind = LaserScan
Value map_meta_data_kind = MapMetaData
Value occupancy_grid_kind = OccupancyGrid
Value odometry_kind = Odometry
Value path_kind = PathMessage
Value point_kind = Point
Value point32_kind = Point32
Value pose_kind = Pose
Value pose_stamped_kind = PoseStamped
Value quaternion_kind = Quaternion
Value transform_kind = Transform
Value twist_kind = Twist
Value vector3_kind = Vector3
Value service_map_kind = ServiceMap
Value service_odometry_kind = ServiceOdometry
Value service_string_kind = ServiceString
Value service_transform_kind = ServiceTransform

abbrev pub serializer_of : (k : Kind) → Serializer (Value k)
serializer_of channel_float32_kind = channel_float32
serializer_of data_header_kind = data_header
serializer_of laser_scan_kind = laser_scan
serializer_of map_meta_data_kind = map_meta_data
serializer_of occupancy_grid_kind = occupancy_grid
serializer_of odometry_kind = odometry
serializer_of path_kind = path
serializer_of point_kind = point
serializer_of point32_kind = point32
serializer_of pose_kind = pose
serializer_of pose_stamped_kind = pose_stamped
serializer_of quaternion_kind = quaternion
serializer_of transform_kind = transform
serializer_of twist_kind = twist
serializer_of vector3_kind = vector3
serializer_of service_map_kind = service_map
serializer_of service_odometry_kind = service_odometry
serializer_of service_string_kind = service_string
serializer_of service_transform_kind = service_transform

-- The values whose fields are in range, and their encodings.
abbrev pub Fits : (k : Kind) → Value k → Type 0
Fits channel_float32_kind = FitsChannelFloat32
Fits data_header_kind = FitsDataHeader
Fits laser_scan_kind = FitsLaserScan
Fits map_meta_data_kind = FitsMapMetaData
Fits occupancy_grid_kind = FitsOccupancyGrid
Fits odometry_kind = FitsOdometry
Fits path_kind = FitsPathMessage
Fits point_kind = FitsPoint
Fits point32_kind = FitsPoint32
Fits pose_kind = FitsPose
Fits pose_stamped_kind = FitsPoseStamped
Fits quaternion_kind = FitsQuaternion
Fits transform_kind = FitsTransform
Fits twist_kind = FitsTwist
Fits vector3_kind = FitsVector3
Fits service_map_kind = FitsServiceMap
Fits service_odometry_kind = FitsServiceOdometry
Fits service_string_kind = FitsServiceString
Fits service_transform_kind = FitsServiceTransform

abbrev pub encode : (k : Kind) → Value k → List ℕ
encode channel_float32_kind = encode_channel_float32
encode data_header_kind = encode_data_header
encode laser_scan_kind = encode_laser_scan
encode map_meta_data_kind = encode_map_meta_data
encode occupancy_grid_kind = encode_occupancy_grid
encode odometry_kind = encode_odometry
encode path_kind = encode_path
encode point_kind = encode_point
encode point32_kind = encode_point32
encode pose_kind = encode_pose
encode pose_stamped_kind = encode_pose_stamped
encode quaternion_kind = encode_quaternion
encode transform_kind = encode_transform
encode twist_kind = encode_twist
encode vector3_kind = encode_vector3
encode service_map_kind = encode_service_map
encode service_odometry_kind = encode_service_odometry
encode service_string_kind = encode_service_string
encode service_transform_kind = encode_service_transform

-- Each type's serializer is sound for its encoding.
pub serializer_of-IsSound : (k : Kind) → IsSound (Fits k) (encode k) (serializer_of k)
serializer_of-IsSound channel_float32_kind = channel_float32-IsSound
serializer_of-IsSound data_header_kind = data_header-IsSound
serializer_of-IsSound laser_scan_kind = laser_scan-IsSound
serializer_of-IsSound map_meta_data_kind = map_meta_data-IsSound
serializer_of-IsSound occupancy_grid_kind = occupancy_grid-IsSound
serializer_of-IsSound odometry_kind = odometry-IsSound
serializer_of-IsSound path_kind = path-IsSound
serializer_of-IsSound point_kind = point-IsSound
serializer_of-IsSound point32_kind = point32-IsSound
serializer_of-IsSound pose_kind = pose-IsSound
serializer_of-IsSound pose_stamped_kind = pose_stamped-IsSound
serializer_of-IsSound quaternion_kind = quaternion-IsSound
serializer_of-IsSound transform_kind = transform-IsSound
serializer_of-IsSound twist_kind = twist-IsSound
serializer_of-IsSound vector3_kind = vector3-IsSound
serializer_of-IsSound service_map_kind = service_map-IsSound
serializer_of-IsSound service_odometry_kind = service_odometry-IsSound
serializer_of-IsSound service_string_kind = service_string-IsSound
serializer_of-IsSound service_transform_kind = service_transform-IsSound

-- For a message of any of the 19 types that have a serializer, whose fields are in range:
-- deserializing its framed encoding with the last bytes cut off, so that n bytes, less than the
-- encoding has and less than 2 ^ 32, remain behind the length, throws StreamOverrunException.
pub message_truncated :
    (k : Kind) (m : Value k) (n : ℕ)
    → Fits k m
    → n < length (encode k m)
    → n < 2 ^ 32
    → deserialize_message
        (serializer_of k)
        (record (framed_message (encode k m)) { num_bytes = n + 4 })
      ≡ err overrun
message_truncated k m n fits short small =
    deserialize_truncated (serializer_of-IsSound k) m n fits short small

module _ (new_bytes : ℕ → List ℕ) (new_length : (n : ℕ) → length (new_bytes n) ≡ n) where
  -- A message of any of the 19 types that have a serializer, whose fields are in range and whose
  -- encoding, with the four bytes of the length, is below 2 ^ 32 bytes, is serialized without an
  -- exception and deserialized to the same message, whatever the new array of the requested size
  -- holds.
  pub message_round_trip :
      (k : Kind) (m : Value k)
      → Fits k m
      → length (encode k m) + 4 < 2 ^ 32
      → and_then
          (serialize_message new_bytes (serializer_of k) m)
          (deserialize_message (serializer_of k))
        ≡ ok m
  message_round_trip k m fits small =
      deserialize-serialize (serializer_of-IsSound k) new_bytes m new_length fits small
