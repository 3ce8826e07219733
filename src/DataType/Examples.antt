-- ===== src/DataType/Examples.antt =====
-- The laws of the messages at concrete values.
use se_navi_common.Common.{
  ℕ, ◌≡◌, refl, true, List, [], ◌∷◌, replicate, length-replicate, ok, and_then, arith, err,
}
use se_navi_common.Common.Int.{pos}
use se_navi_common.Time.{Time}
use se_navi_common.Serialization.Scalars.Bytes.{le_bytes}
use se_navi_common.Serialization.Message.{serialize_message, deserialize_message}
use se_navi_common.Serialization.Stream.{overrun}
use se_navi_common.Serialization.Message.RoundTrip.{framed_message}
use se_navi_common.DataType.Geometry.{
  point, Point, Point32, Vector3, Quaternion, Pose, Transform, Twist,
}
use se_navi_common.DataType.Stamped.{DataHeader, LaserScan}
use se_navi_common.DataType.Navigation.{MapMetaData, OccupancyGrid, Odometry, PathMessage, path}
use se_navi_common.DataType.Services.{ServiceMap, ServiceOdometry, ServiceTransform}
use se_navi_common.DataType.Kinds.{
  encode, serializer_of, message_truncated, message_round_trip, path_kind, point_kind,
}
use se_navi_common.DataType.TraitTable.{traits}
use se_navi_common.DataType.Traits.Checks.{fixed_length}

abbrev zeros : ℕ → List ℕ
zeros n = replicate n 0

abbrev place : Point
place = record { x = 1; y = 2; z = 3 }

abbrev place32 : Point32
place32 = record { x = 1; y = 2; z = 3 }

abbrev speed : Vector3
speed = record { x = 4; y = 5; z = 6 }

abbrev orientation_turn : Quaternion
orientation_turn = record { x = 0; y = 0; z = 0; w = 1 }

abbrev stand : Pose
stand = record { position = place; orientation = orientation_turn }

abbrev shift : Transform
shift = record { translation = speed; rotation = orientation_turn }

abbrev motion : Twist
motion = record { linear = speed; angular = speed }

abbrev start_time : Time
start_time = record { sec = 7; nsec = 8 }

-- With the frame "map".
abbrev first : DataHeader
first = record { seq = 1; stamp = start_time; frame_id = 109 ∷ 97 ∷ 112 ∷ [] }

abbrev scan : LaserScan
scan = record {
  header = first;
  angle_min = 1;
  angle_max = 2;
  angle_increment = 3;
  time_increment = 4;
  scan_time = 5;
  range_min = 6;
  range_max = 7;
  ranges = 10 ∷ 11 ∷ [];
  intensities = 12 ∷ [];
}

abbrev route : PathMessage
route = record { header = first; poses = record { header = first; pose = stand } ∷ [] }

abbrev moved : Odometry
moved = record { header = first; child_frame_id = 98 ∷ []; pose = stand; twist = motion }

abbrev info : MapMetaData
info = record {
  map_load_time = start_time;
  resolution = 5;
  width = pos 2;
  height = pos 1;
  origin = stand;
}

abbrev grid : OccupancyGrid
grid = record { header = first; info = info; cells = 0 ∷ 100 ∷ [] }

abbrev answer : ServiceMap
answer = record { result = true; map = grid }

abbrev odom_answer : ServiceOdometry
odom_answer = record { result = true; odom = moved }

abbrev shift_answer : ServiceTransform
shift_answer = record { result = true; transform = shift }

message_example :
    and_then (serialize_message zeros path route) (deserialize_message path) ≡ ok route
unfolding le_bytes
message_example =
    message_round_trip zeros (λ n. length-replicate n 0) path_kind route (omega arith) (omega arith)

-- Five of the bytes of a point.
truncated_example :
    deserialize_message point (record (framed_message (encode point_kind place)) { num_bytes = 9 })
    ≡ err overrun
unfolding le_bytes
truncated_example = message_truncated point_kind place 5 (omega arith) (omega arith) (omega arith)

-- Another point than `place`.
fixed_length_example :
    (serializer_of point_kind).serialized_length place
    ≡ (serializer_of point_kind).serialized_length (record { x = 7; y = 0; z = 0 })
unfolding traits
fixed_length_example =
    fixed_length point_kind place (record { x = 7; y = 0; z = 0 }) refl (λ e. cc e)
