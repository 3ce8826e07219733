-- ===== src/DataType/Navigation/Soundness.antt =====
-- The encodings of the navigation messages.
use se_navi_common.Common.{ℕ, ◌^◌, ◌<◌, ◌≡◌, refl, List, ◌++◌, length, length-append, arith}
use se_navi_common.Common.Int.{u16, IsInt16}
use se_navi_common.Serialization.Serializer.Soundness.{IsSound}
use se_navi_common.Serialization.Serializer.Compose.{
  next-IsSoundVisitor, ⨾-IsSoundVisitor, all_in_one-IsSound,
}
use se_navi_common.Serialization.Scalars.{uint8}
use se_navi_common.Serialization.Scalars.Bytes.{le_bytes, length-le_bytes}
use se_navi_common.Serialization.Scalars.Soundness.{scalar-IsSound, int16-IsSound}
use se_navi_common.Serialization.Times.{FitsTime, encode_time, time-IsSound}
use se_navi_common.Serialization.Containers.Soundness.{
  encode_text, text-IsSound, FitsVector, encode_vector, vector-IsSound,
}
use se_navi_common.DataType.Geometry.Soundness.{
  float32-IsSound, FitsPose, encode_pose, pose-IsSound, FitsTwist, encode_twist, twist-IsSound,
}
use se_navi_common.DataType.Stamped.Soundness.{
  FitsDataHeader, encode_data_header, data_header-IsSound, FitsPoseStamped, encode_pose_stamped,
  pose_stamped-IsSound,
}
use se_navi_common.DataType.Navigation.{
  MapMetaData, map_meta_data, OccupancyGrid, occupancy_grid, Odometry, odometry, PathMessage, path,
}

uint8-IsSound : IsSound (λ v. v < 256 ^ 1) (le_bytes 1) uint8
uint8-IsSound = scalar-IsSound 1 (omega arith)

abbrev pub FitsMapMetaData : MapMetaData → Type 0
FitsMapMetaData m =
    (FitsTime m.map_load_time)
    × ((m.resolution < 256 ^ 4) × ((IsInt16 m.width) × ((IsInt16 m.height) × (FitsPose m.origin))))

abbrev pub encode_map_meta_data : MapMetaData → List ℕ
encode_map_meta_data m =
    encode_time m.map_load_time
    ++ (le_bytes 4 m.resolution
        ++ (le_bytes 2 (u16 m.width) ++ (le_bytes 2 (u16 m.height) ++ encode_pose m.origin)))

pub map_meta_data-IsSound : IsSound FitsMapMetaData encode_map_meta_data map_meta_data
unfolding map_meta_data
map_meta_data-IsSound =
    all_in_one-IsSound
      (λ (m : MapMetaData). (m.map_load_time, (m.resolution, (m.width, (m.height, m.origin)))))
      (λ p. record {
        map_load_time = p.0;
        resolution = p.1.0;
        width = p.1.1.0;
        height = p.1.1.1.0;
        origin = p.1.1.1.1;
      })
      (λ m. refl)
      (⨾-IsSoundVisitor (next-IsSoundVisitor time-IsSound) (
        ⨾-IsSoundVisitor (next-IsSoundVisitor float32-IsSound) (
          ⨾-IsSoundVisitor (next-IsSoundVisitor int16-IsSound) (
            ⨾-IsSoundVisitor (next-IsSoundVisitor int16-IsSound)
              (next-IsSoundVisitor pose-IsSound)))))

pub length-encode_map_meta_data : (m : MapMetaData) → length (encode_map_meta_data m) ≡ 72
length-encode_map_meta_data m = simp (length-append, length-le_bytes)

abbrev pub FitsOccupancyGrid : OccupancyGrid → Type 0
FitsOccupancyGrid m =
    (FitsDataHeader m.header) × ((FitsMapMetaData m.info) × (FitsVector (λ v. v < 256 ^ 1) m.cells))

abbrev pub encode_occupancy_grid : OccupancyGrid → List ℕ
encode_occupancy_grid m =
    encode_data_header m.header
    ++ (encode_map_meta_data m.info ++ encode_vector (le_bytes 1) m.cells)

pub occupancy_grid-IsSound : IsSound FitsOccupancyGrid encode_occupancy_grid occupancy_grid
unfolding occupancy_grid
occupancy_grid-IsSound =
    all_in_one-IsSound (λ (m : OccupancyGrid). (m.header, (m.info, m.cells)))
      (λ p. record { header = p.0; info = p.1.0; cells = p.1.1 }) (λ m. refl)
      (⨾-IsSoundVisitor (next-IsSoundVisitor data_header-IsSound) (
        ⨾-IsSoundVisitor (next-IsSoundVisitor map_meta_data-IsSound)
          (next-IsSoundVisitor (vector-IsSound uint8-IsSound))))

abbrev pub FitsOdometry : Odometry → Type 0
FitsOdometry m =
    (FitsDataHeader m.header)
    × ((length m.child_frame_id < 2 ^ 32) × ((FitsPose m.pose) × (FitsTwist m.twist)))

abbrev pub encode_odometry : Odometry → List ℕ
encode_odometry m =
    encode_data_header m.header
    ++ (encode_text m.child_frame_id ++ (encode_pose m.pose ++ encode_twist m.twist))

pub odometry-IsSound : IsSound FitsOdometry encode_odometry odometry
unfolding odometry
odometry-IsSound =
    all_in_one-IsSound (λ (m : Odometry). (m.header, (m.child_frame_id, (m.pose, m.twist))))
      (λ p. record { header = p.0; child_frame_id = p.1.0; pose = p.1.1.0; twist = p.1.1.1 })
      (λ m. refl)
      (⨾-IsSoundVisitor (next-IsSoundVisitor data_header-IsSound) (
        ⨾-IsSoundVisitor (next-IsSoundVisitor text-IsSound) (
          ⨾-IsSoundVisitor (next-IsSoundVisitor pose-IsSound) (next-IsSoundVisitor twist-IsSound))))

abbrev pub FitsPathMessage : PathMessage → Type 0
FitsPathMessage m = (FitsDataHeader m.header) × (FitsVector (FitsPoseStamped) m.poses)

abbrev pub encode_path : PathMessage → List ℕ
encode_path m = encode_data_header m.header ++ encode_vector (encode_pose_stamped) m.poses

pub path-IsSound : IsSound FitsPathMessage encode_path path
unfolding path
path-IsSound =
    all_in_one-IsSound (λ (m : PathMessage). (m.header, m.poses))
      (λ p. record { header = p.0; poses = p.1 }) (λ m. refl)
      (⨾-IsSoundVisitor (next-IsSoundVisitor data_header-IsSound)
        (next-IsSoundVisitor (vector-IsSound pose_stamped-IsSound)))
