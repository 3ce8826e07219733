-- ===== src/DataType/Stamped.antt =====
-- DataHeader.h, PoseStamped.h, ChannelFloat32.h and LaserScan.h of Source/DataSet/DataType.
pub mod Soundness
use se_navi_common.Common.{ℕ, List, Bool}
use se_navi_common.Common.Int.{ℤ}
use se_navi_common.Time.{Time}
use se_navi_common.Serialization.Serializer.{Serializer, next, ◌⨾◌, all_in_one}
use se_navi_common.Serialization.Scalars.{uint8, uint64, float32, int16, boolean}
use se_navi_common.Serialization.Times.{time}
use se_navi_common.Serialization.Containers.{text, vector}
use se_navi_common.DataType.Geometry.{Pose, pose, Transform, transform, Twist, twist}

pub record DataHeader : Type 0 where
  pub seq : ℕ
  pub stamp : Time
  pub frame_id : List ℕ

unfoldable pub data_header : Serializer DataHeader
data_header =
    all_in_one (next uint64 ⨾ next time ⨾ next text) (λ m. (m.seq, (m.stamp, m.frame_id)))
      (λ p. record { seq = p.0; stamp = p.1.0; frame_id = p.1.1 })

pub record PoseStamped : Type 0 where
  pub header : DataHeader
  pub pose : Pose

unfoldable pub pose_stamped : Serializer PoseStamped
pose_stamped =
    all_in_one (next data_header ⨾ next pose) (λ m. (m.header, m.pose))
      (λ p. record { header = p.0; pose = p.1 })

pub record ChannelFloat32 : Type 0 where
  pub name : List ℕ
  pub values : List ℕ

unfoldable pub channel_float32 : Serializer ChannelFloat32
channel_float32 =
    all_in_one (next text ⨾ next text) (λ m. (m.name, m.values))
      (λ p. record { name = p.0; values = p.1 })

pub record LaserScan : Type 0 where
  pub header : DataHeader
  pub angle_min : ℕ
  pub angle_max : ℕ
  pub angle_increment : ℕ
  pub time_increment : ℕ
  pub scan_time : ℕ
  pub range_min : ℕ
  pub range_max : ℕ
  pub ranges : List ℕ
  pub intensities : List ℕ

unfoldable pub laser_scan : Serializer LaserScan
laser_scan =
    all_in_one
      (next data_header
        ⨾ next float32
        ⨾ next float32
        ⨾ next float32
        ⨾ next float32
        ⨾ next float32
        ⨾ next float32
        ⨾ next float32
        ⨾ next (vector float32)
        ⨾ next (vector float32))
      (λ m. (
        m.header,
        (
          m.angle_min,
          (
            m.angle_max,
            (
              m.angle_increment,
              (
                m.time_increment,
                (m.scan_time, (m.range_min, (m.range_max, (m.ranges, m.intensities)))),
              ),
            ),
          ),
        ),
      ))
      (λ p. record {
        header = p.0;
        angle_min = p.1.0;
        angle_max = p.1.1.0;
        angle_increment = p.1.1.1.0;
        time_increment = p.1.1.1.1.0;
        scan_time = p.1.1.1.1.1.0;
        range_min = p.1.1.1.1.1.1.0;
        range_max = p.1.1.1.1.1.1.1.0;
        ranges = p.1.1.1.1.1.1.1.1.0;
        intensities = p.1.1.1.1.1.1.1.1.1;
      })
