-- ===== src/DataType/Sizes.antt =====
-- The trait IsFixedSize of the messages: which lengths depend on the value.
use se_navi_common.Common.{◌+◌, ◌^◌, ◌<◌, ◌≡◌, refl, ◌∙◌, length, length-append, arith}
use se_navi_common.Serialization.Serializer.{next, ◌⨾◌, all_in_one}
use se_navi_common.Serialization.Scalars.{scalar, int16, boolean}
use se_navi_common.Serialization.Scalars.Bytes.{length-le_bytes}
use se_navi_common.Serialization.Times.{time}
use se_navi_common.DataType.Geometry.{
  Point, point, Point32, point32, Vector3, vector3, Quaternion, quaternion, Pose, pose, Transform,
  transform, Twist, twist,
}
use se_navi_common.DataType.Navigation.{MapMetaData, map_meta_data}
use se_navi_common.DataType.Services.{
  ServiceOdometry, service_odometry, ServiceTransform, service_transform,
}
use se_navi_common.DataType.Services.Soundness.{
  FitsServiceOdometry, encode_service_odometry, service_odometry-IsSound,
}

-- The seven geometry messages, which declare IsFixedSize, announce one length each: 24 bytes for
-- a Point, 12 for a Point32, 24 for a Vector3, 32 for a Quaternion, 56 for a Pose, 56 for a
-- Transform and 48 for a Twist.
pub geometry_sizes :
    (a : Point) (b : Point32) (c : Vector3) (d : Quaternion) (e : Pose) (f : Transform) (g : Twist)
    → (point.serialized_length a ≡ 24)
      × (point32.serialized_length b ≡ 12)
      × (vector3.serialized_length c ≡ 24)
      × (quaternion.serialized_length d ≡ 32)
      × (pose.serialized_length e ≡ 56)
      × (transform.serialized_length f ≡ 56)
      × (twist.serialized_length g ≡ 48)
unfolding point point32 vector3 quaternion pose transform twist all_in_one next ◌⨾◌ scalar
geometry_sizes a b c d e f g = (refl, refl, refl, refl, refl, refl, refl)

-- MapMetaData and ServiceTransform, which declare IsFixedSize, announce one length each: 72 and
-- 57 bytes.
pub fixed_message_sizes :
    (a : MapMetaData) (b : ServiceTransform)
    → (map_meta_data.serialized_length a ≡ 72) × (service_transform.serialized_length b ≡ 57)
unfolding map_meta_data service_transform point vector3 quaternion pose transform all_in_one next
    ◌⨾◌ scalar int16 boolean time
fixed_message_sizes a b = (refl, refl)

-- The announced length of a ServiceOdometry whose fields are in range, and whose strings leave
-- the length below 2 ^ 32, is 129 bytes and the bytes of its two strings, so it is not one
-- length for all values.
pub service_odometry_size :
    (m : ServiceOdometry)
    → FitsServiceOdometry m
    → length m.odom.header.frame_id + length m.odom.child_frame_id + 129 < 2 ^ 32
    → service_odometry.serialized_length m
      ≡ length m.odom.header.frame_id + length m.odom.child_frame_id + 129
service_odometry_size m fits small = service_odometry-IsSound.measures m fits ∙ omega (arith, bytes)
  where
    bytes :
        length (encode_service_odometry m)
        ≡ length m.odom.header.frame_id + length m.odom.child_frame_id + 129
    bytes = simp (length-append, length-le_bytes) (omega arith)
