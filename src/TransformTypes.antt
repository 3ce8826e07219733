-- ===== src/TransformTypes.antt =====
-- Source/Transform/DataTypes.h: the conversions between messages and the types of the linear math
-- library, which is a copy of another project's and a parameter here. A number of type `double` is
-- its bit pattern, as in the messages.
pub mod Linear
pub mod RoundTrip
pub mod Examples
use se_navi_common.Common.{ℕ, Bool, true, false, ◌&&◌, if◌then◌else◌, List}
use se_navi_common.Common.Double.{Double}
use se_navi_common.Time.{Time}
use se_navi_common.Time.Stamp
use se_navi_common.Config.{equals}
use se_navi_common.DataType.Geometry.{Point, Vector3, Quaternion, Pose, Transform}
use se_navi_common.DataType.Stamped.{DataHeader, PoseStamped}
use se_navi_common.DataType.Plain.{
  PointStamped, QuaternionStamped, TransformStamped, Vector3Stamped,
}
use se_navi_common.TransformTypes.Linear.{LinearMath}

-- `Stamped`, which is its `T`, and `StampedTransform`.
pub record Stamped (T : Type 0) : Type 0 where
  pub value : T
  pub stamp : Time
  pub frame_id : List ℕ

pub record StampedTransform (T : Type 0) : Type 0 where
  pub value : T
  pub stamp : Time
  pub frame_id : List ℕ
  pub child_frame_id : List ℕ

-- `setData`.
abbrev pub set_data : {T : Type 0} → T → Stamped T → Stamped T
set_data input s = record s { value = input }

abbrev pub set_transform : {T : Type 0} → T → StampedTransform T → StampedTransform T
set_transform input s = record s { value = input }

-- `operator==`, given that of `T`.
pub equals_stamped : {T : Type 0} → (T → T → Bool) → Stamped T → Stamped T → Bool
equals_stamped same a b =
    equals a.frame_id b.frame_id && Stamp.equals a.stamp b.stamp && same a.value b.value

pub equals_transform :
    {T : Type 0} → (T → T → Bool) → StampedTransform T → StampedTransform T → Bool
equals_transform same a b =
    equals a.frame_id b.frame_id
    && equals a.child_frame_id b.child_frame_id
    && Stamp.equals a.stamp b.stamp
    && same a.value b.value

-- The stamp and the frame of a message whose header is overwritten.
abbrev pub stamped_header : Time → List ℕ → DataHeader → DataHeader
stamped_header stamp frame_id header = record header { stamp = stamp; frame_id = frame_id }

module _ (d : Double ℕ) (quaternion_tolerance : ℕ) (linear : LinearMath) where
  -- `fabs(bt.length2() - 1) > QUATERNION_TOLERANCE`.
  abbrev pub is_far : linear.Quat → Bool
  is_far bt = d.lt quaternion_tolerance (d.fabs (d.sub (linear.length2 bt) (d.number 1)))

  unfoldable pub quaternion_msg_to_tf : Quaternion → linear.Quat
  quaternion_msg_to_tf msg =
      let bt = linear.quaternion msg.x msg.y msg.z msg.w in
      if is_far bt then linear.normalize bt else bt

  abbrev pub quaternion_of : linear.Quat → Quaternion
  quaternion_of bt = record {
    x = linear.qx bt;
    y = linear.qy bt;
    z = linear.qz bt;
    w = linear.qw bt;
  }

  unfoldable pub quaternion_tf_to_msg : linear.Quat → Quaternion
  quaternion_tf_to_msg bt =
      if is_far bt then quaternion_of (linear.normalize bt) else quaternion_of bt

  -- `getYaw` of a quaternion, and of a message.
  pub get_yaw : linear.Quat → ℕ
  get_yaw bt = linear.yaw bt

  pub get_yaw_msg : Quaternion → ℕ
  unfolding get_yaw quaternion_msg_to_tf
  get_yaw_msg msg = get_yaw (quaternion_msg_to_tf msg)

  pub create_quaternion_from_rpy : ℕ → ℕ → ℕ → linear.Quat
  create_quaternion_from_rpy roll pitch yaw = linear.of_rpy roll pitch yaw

  pub create_quaternion_from_yaw : ℕ → linear.Quat
  create_quaternion_from_yaw yaw = linear.of_rpy (d.number 0) (d.number 0) yaw

  pub create_quaternion_msg_from_yaw : ℕ → Quaternion
  create_quaternion_msg_from_yaw yaw =
      quaternion_tf_to_msg (linear.of_rpy (d.number 0) (d.number 0) yaw)

  pub create_quaternion_msg_from_roll_pitch_yaw : ℕ → ℕ → ℕ → Quaternion
  create_quaternion_msg_from_roll_pitch_yaw roll pitch yaw =
      quaternion_tf_to_msg (create_quaternion_from_rpy roll pitch yaw)

  pub create_identity_quaternion : linear.Quat
  create_identity_quaternion = linear.of_rpy (d.number 0) (d.number 0) (d.number 0)

  unfoldable pub quaternion_stamped_msg_to_tf : QuaternionStamped → Stamped linear.Quat
  quaternion_stamped_msg_to_tf msg = record {
    value = quaternion_msg_to_tf msg.quaternion;
    stamp = msg.header.stamp;
    frame_id = msg.header.frame_id;
  }

  -- Into a message, whose `seq` stays.
  unfoldable pub quaternion_stamped_tf_to_msg :
      Stamped linear.Quat → QuaternionStamped → QuaternionStamped
  quaternion_stamped_tf_to_msg bt msg = record {
    header = stamped_header bt.stamp bt.frame_id msg.header;
    quaternion = quaternion_tf_to_msg bt.value;
  }

  unfoldable pub vector3_msg_to_tf : Vector3 → linear.Vect
  vector3_msg_to_tf msg = linear.vector msg.x msg.y msg.z

  unfoldable pub vector3_tf_to_msg : linear.Vect → Vector3
  vector3_tf_to_msg bt = record { x = linear.vx bt; y = linear.vy bt; z = linear.vz bt }

  unfoldable pub vector3_stamped_msg_to_tf : Vector3Stamped → Stamped linear.Vect
  vector3_stamped_msg_to_tf msg = record {
    value = vector3_msg_to_tf msg.vector;
    stamp = msg.header.stamp;
    frame_id = msg.header.frame_id;
  }

  unfoldable pub vector3_stamped_tf_to_msg : Stamped linear.Vect → Vector3Stamped → Vector3Stamped
  vector3_stamped_tf_to_msg bt msg = record {
    header = stamped_header bt.stamp bt.frame_id msg.header;
    vector = vector3_tf_to_msg bt.value;
  }

  unfoldable pub point_msg_to_tf : Point → linear.Vect
  point_msg_to_tf msg = linear.vector msg.x msg.y msg.z

  unfoldable pub point_tf_to_msg : linear.Vect → Point
  point_tf_to_msg bt = record { x = linear.vx bt; y = linear.vy bt; z = linear.vz bt }

  unfoldable pub point_stamped_msg_to_tf : PointStamped → Stamped linear.Vect
  point_stamped_msg_to_tf msg = record {
    value = point_msg_to_tf msg.point;
    stamp = msg.header.stamp;
    frame_id = msg.header.frame_id;
  }

  unfoldable pub point_stamped_tf_to_msg : Stamped linear.Vect → PointStamped → PointStamped
  point_stamped_tf_to_msg bt msg = record {
    header = stamped_header bt.stamp bt.frame_id msg.header;
    point = point_tf_to_msg bt.value;
  }

  -- The quaternion of a transform is not normalized here.
  unfoldable pub transform_msg_to_tf : Transform → linear.Trans
  transform_msg_to_tf msg =
      linear.transform
        (linear.quaternion msg.rotation.x msg.rotation.y msg.rotation.z msg.rotation.w)
        (linear.vector msg.translation.x msg.translation.y msg.translation.z)

  unfoldable pub transform_tf_to_msg : linear.Trans → Transform
  transform_tf_to_msg bt = record {
    translation = vector3_tf_to_msg (linear.get_origin bt);
    rotation = quaternion_tf_to_msg (linear.get_rotation bt);
  }

  unfoldable pub transform_stamped_msg_to_tf : TransformStamped → StampedTransform linear.Trans
  transform_stamped_msg_to_tf msg = record {
    value = transform_msg_to_tf msg.transform;
    stamp = msg.header.stamp;
    frame_id = msg.header.frame_id;
    child_frame_id = msg.child_frame_id;
  }

  unfoldable pub transform_stamped_tf_to_msg :
      StampedTransform linear.Trans → TransformStamped → TransformStamped
  transform_stamped_tf_to_msg bt msg = record {
    header = stamped_header bt.stamp bt.frame_id msg.header;
    child_frame_id = bt.child_frame_id;
    transform = transform_tf_to_msg bt.value;
  }

  unfoldable pub pose_msg_to_tf : Pose → linear.Trans
  pose_msg_to_tf msg =
      linear.transform
        (linear.quaternion msg.orientation.x msg.orientation.y msg.orientation.z msg.orientation.w)
        (linear.vector msg.position.x msg.position.y msg.position.z)

  unfoldable pub pose_tf_to_msg : linear.Trans → Pose
  pose_tf_to_msg bt = record {
    position = point_tf_to_msg (linear.get_origin bt);
    orientation = quaternion_tf_to_msg (linear.get_rotation bt);
  }

  unfoldable pub pose_stamped_msg_to_tf : PoseStamped → Stamped linear.Trans
  pose_stamped_msg_to_tf msg = record {
    value = pose_msg_to_tf msg.pose;
    stamp = msg.header.stamp;
    frame_id = msg.header.frame_id;
  }

  unfoldable pub pose_stamped_tf_to_msg : Stamped linear.Trans → PoseStamped → PoseStamped
  pose_stamped_tf_to_msg bt msg = record {
    header = stamped_header bt.stamp bt.frame_id msg.header;
    pose = pose_tf_to_msg bt.value;
  }
