-- ===== src/DataType/Transport.antt =====
-- Whole messages through `serializeMessage` and `deserializeMessage`.
use se_navi_common.Common.{ℕ, ◌+◌, ◌^◌, ◌<◌, ◌≡◌, List, length, and_then, ok}
use se_navi_common.Serialization.Message.{serialize_message, deserialize_message}
use se_navi_common.Serialization.Message.RoundTrip.{deserialize-serialize}
use se_navi_common.DataType.Stamped.{LaserScan, laser_scan}
use se_navi_common.DataType.Stamped.Soundness.{FitsLaserScan, encode_laser_scan, laser_scan-IsSound}
use se_navi_common.DataType.Navigation.{Odometry, odometry, PathMessage, path}
use se_navi_common.DataType.Navigation.Soundness.{
  FitsOdometry, encode_odometry, odometry-IsSound, FitsPathMessage, encode_path, path-IsSound,
}
use se_navi_common.DataType.Services.{ServiceMap, service_map}
use se_navi_common.DataType.Services.Soundness.{
  FitsServiceMap, encode_service_map, service_map-IsSound,
}

module _ (new_bytes : ℕ → List ℕ) (new_length : (n : ℕ) → length (new_bytes n) ≡ n) where
  -- A LaserScan whose fields are in range and whose encoding, with the four bytes of the length,
  -- is below 2 ^ 32 bytes is serialized without an exception and deserialized to the same
  -- message, whatever the new array of the requested size holds.
  pub laser_scan_round_trip :
      (m : LaserScan)
      → FitsLaserScan m
      → length (encode_laser_scan m) + 4 < 2 ^ 32
      → and_then (serialize_message new_bytes laser_scan m) (deserialize_message laser_scan) ≡ ok m
  laser_scan_round_trip m fits small =
      deserialize-serialize laser_scan-IsSound new_bytes m new_length fits small

  -- A Path whose fields are in range and whose encoding, with the four bytes of the length, is
  -- below 2 ^ 32 bytes is serialized without an exception and deserialized to the same message,
  -- whatever the new array of the requested size holds.
  pub path_round_trip :
      (m : PathMessage)
      → FitsPathMessage m
      → length (encode_path m) + 4 < 2 ^ 32
      → and_then (serialize_message new_bytes path m) (deserialize_message path) ≡ ok m
  path_round_trip m fits small =
      deserialize-serialize path-IsSound new_bytes m new_length fits small

  -- An Odometry whose fields are in range and whose encoding, with the four bytes of the length,
  -- is below 2 ^ 32 bytes is serialized without an exception and deserialized to the same
  -- message, whatever the new array of the requested size holds.
  pub odometry_round_trip :
      (m : Odometry)
      → FitsOdometry m
      → length (encode_odometry m) + 4 < 2 ^ 32
      → and_then (serialize_message new_bytes odometry m) (deserialize_message odometry) ≡ ok m
  odometry_round_trip m fits small =
      deserialize-serialize odometry-IsSound new_bytes m new_length fits small

  -- A ServiceMap whose fields are in range and whose encoding, with the four bytes of the
  -- length, is below 2 ^ 32 bytes is serialized without an exception and deserialized to the
  -- same message, whatever the new array of the requested size holds.
  pub service_map_round_trip :
      (m : ServiceMap)
      → FitsServiceMap m
      → length (encode_service_map m) + 4 < 2 ^ 32
      → and_then (serialize_message new_bytes service_map m) (deserialize_message service_map)
        ≡ ok m
  service_map_round_trip m fits small =
      deserialize-serialize service_map-IsSound new_bytes m new_length fits small
