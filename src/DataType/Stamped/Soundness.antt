-- ===== src/DataType/Stamped/Soundness.antt =====
-- The encodings of the stamped messages.
use se_navi_common.Common.{ℕ, ◌^◌, ◌<◌, refl, List, ◌++◌, length, arith}
use se_navi_common.Serialization.Serializer.Soundness.{IsSound}
use se_navi_common.Serialization.Serializer.Compose.{
  next-IsSoundVisitor, ⨾-IsSoundVisitor, all_in_one-IsSound,
}
use se_navi_common.Serialization.Scalars.{uint64}
use se_navi_common.Serialization.Scalars.Bytes.{le_bytes}
use se_navi_common.Serialization.Scalars.Soundness.{scalar-IsSound}
use se_navi_common.Serialization.Times.{FitsTime, encode_time, time-IsSound}
use se_navi_common.Serialization.Containers.Soundness.{
  encode_text, text-IsSound, FitsVector, encode_vector, vector-IsSound,
}
use se_navi_common.DataType.Geometry.Soundness.{
  float32-IsSound, FitsPose, encode_pose, pose-IsSound,
}
use se_navi_common.DataType.Stamped.{
  DataHeader, data_header, PoseStamped, pose_stamped, ChannelFloat32, channel_float32, LaserScan,
  laser_scan,
}

uint64-IsSound : IsSound (λ v. v < 256 ^ 8) (le_bytes 8) uint64
uint64-IsSound = scalar-IsSound 8 (omega arith)

abbrev pub FitsDataHeader : DataHeader → Type 0
FitsDataHeader m = (m.seq < 256 ^ 8) × ((FitsTime m.stamp) × (length m.frame_id < 2 ^ 32))

abbrev pub encode_data_header : DataHeader → List ℕ
encode_data_header m = le_bytes 8 m.seq ++ (encode_time m.stamp ++ encode_text m.frame_id)

pub data_header-IsSound : IsSound FitsDataHeader encode_data_header data_header
unfolding data_header
data_header-IsSound =
    all_in_one-IsSound (λ (m : DataHeader). (m.seq, (m.stamp, m.frame_id)))
      (λ p. record { seq = p.0; stamp = p.1.0; frame_id = p.1.1 }) (λ m. refl)
      (⨾-IsSoundVisitor (next-IsSoundVisitor uint64-IsSound)
        (⨾-IsSoundVisitor (next-IsSoundVisitor time-IsSound) (next-IsSoundVisitor text-IsSound)))

abbrev pub FitsPoseStamped : PoseStamped → Type 0
FitsPoseStamped m = (FitsDataHeader m.header) × (FitsPose m.pose)

abbrev pub encode_pose_stamped : PoseStamped → List ℕ
encode_pose_stamped m = encode_data_header m.header ++ encode_pose m.pose

pub pose_stamped-IsSound : IsSound FitsPoseStamped encode_pose_stamped pose_stamped
unfolding pose_stamped
pose_stamped-IsSound =
    all_in_one-IsSound (λ (m : PoseStamped). (m.header, m.pose))
      (λ p. record { header = p.0; pose = p.1 }) (λ m. refl)
      (⨾-IsSoundVisitor (next-IsSoundVisitor data_header-IsSound)
        (next-IsSoundVisitor pose-IsSound))

abbrev pub FitsChannelFloat32 : ChannelFloat32 → Type 0
FitsChannelFloat32 m = (length m.name < 2 ^ 32) × (length m.values < 2 ^ 32)

abbrev pub encode_channel_float32 : ChannelFloat32 → List ℕ
encode_channel_float32 m = encode_text m.name ++ encode_text m.values

pub channel_float32-IsSound : IsSound FitsChannelFloat32 encode_channel_float32 channel_float32
unfolding channel_float32
channel_float32-IsSound =
    all_in_one-IsSound (λ (m : ChannelFloat32). (m.name, m.values))
      (λ p. record { name = p.0; values = p.1 }) (λ m. refl)
      (⨾-IsSoundVisitor (next-IsSoundVisitor text-IsSound) (next-IsSoundVisitor text-IsSound))

abbrev pub FitsLaserScan : LaserScan → Type 0
FitsLaserScan m =
    (FitsDataHeader m.header)
    × ((m.angle_min < 256 ^ 4)
        × ((m.angle_max < 256 ^ 4)
            × ((m.angle_increment < 256 ^ 4)
                × ((m.time_increment < 256 ^ 4)
                    × ((m.scan_time < 256 ^ 4)
                        × ((m.range_min < 256 ^ 4)
                            × ((m.range_max < 256 ^ 4)
                                × ((FitsVector (λ v. v < 256 ^ 4) m.ranges)
                                    × (FitsVector (λ v. v < 256 ^ 4) m.intensities)))))))))

abbrev pub encode_laser_scan : LaserScan → List ℕ
encode_laser_scan m =
    encode_data_header m.header
    ++ (le_bytes 4 m.angle_min
        ++ (le_bytes 4 m.angle_max
            ++ (le_bytes 4 m.angle_increment
                ++ (le_bytes 4 m.time_increment
                    ++ (le_bytes 4 m.scan_time
                        ++ (le_bytes 4 m.range_min
                            ++ (le_bytes 4 m.range_max
                                ++ (encode_vector (le_bytes 4) m.ranges
                                    ++ encode_vector (le_bytes 4) m.intensities))))))))

pub laser_scan-IsSound : IsSound FitsLaserScan encode_laser_scan laser_scan
unfolding laser_scan
laser_scan-IsSound =
    all_in_one-IsSound
      (λ (m : LaserScan). (
        m.header,
        (
          m.angle_min,
          (
            m.angle_max,
            (
              m.angle_increment,
              (
                m.time_increment,
                (m.scan_time, (m.range_min, (m.range_max, (m.ranges, m.intensities)))),
              ),
            ),
          ),
        ),
      ))
      (λ p. record {
        header = p.0;
        angle_min = p.1.0;
        angle_max = p.1.1.0;
        angle_increment = p.1.1.1.0;
        time_increment = p.1.1.1.1.0;
        scan_time = p.1.1.1.1.1.0;
        range_min = p.1.1.1.1.1.1.0;
        range_max = p.1.1.1.1.1.1.1.0;
        ranges = p.1.1.1.1.1.1.1.1.0;
        intensities = p.1.1.1.1.1.1.1.1.1;
      })
      (λ m. refl)
      (⨾-IsSoundVisitor (next-IsSoundVisitor data_header-IsSound) (
        ⨾-IsSoundVisitor (next-IsSoundVisitor float32-IsSound) (
          ⨾-IsSoundVisitor (next-IsSoundVisitor float32-IsSound) (
            ⨾-IsSoundVisitor (next-IsSoundVisitor float32-IsSound) (
              ⨾-IsSoundVisitor (next-IsSoundVisitor float32-IsSound) (
                ⨾-IsSoundVisitor (next-IsSoundVisitor float32-IsSound) (
                  ⨾-IsSoundVisitor (next-IsSoundVisitor float32-IsSound) (
                    ⨾-IsSoundVisitor (next-IsSoundVisitor float32-IsSound) (
                      ⨾-IsSoundVisitor (next-IsSoundVisitor (vector-IsSound float32-IsSound))
                        (next-IsSoundVisitor (vector-IsSound float32-IsSound)))))))))))
