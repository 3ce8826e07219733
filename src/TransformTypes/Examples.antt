-- ===== src/TransformTypes/Examples.antt =====
-- Conversions of Source/Transform/DataTypes.h over tuples of numbers.
use se_navi_common.Common.{ℕ, ◌+◌, ◌-◌, ◌*◌, ◌≡◌, refl, true, ltb, leb, ◌==◌, [], ◌∷◌}
use se_navi_common.Common.Double.{Double}
use se_navi_common.DataType.Geometry.{Quaternion}
use se_navi_common.DataType.Stamped.{DataHeader, PoseStamped}
use se_navi_common.DataType.Plain.{PointStamped, TransformStamped, Vector3Stamped}
use se_navi_common.TransformTypes.Linear.{LinearMath, Accessors}
use se_navi_common.TransformTypes.{
  quaternion_stamped_msg_to_tf, quaternion_stamped_tf_to_msg, vector3_msg_to_tf,
  vector3_stamped_msg_to_tf, vector3_stamped_tf_to_msg, point_msg_to_tf, point_stamped_msg_to_tf,
  point_stamped_tf_to_msg, transform_stamped_msg_to_tf, transform_stamped_tf_to_msg,
  pose_stamped_msg_to_tf, pose_stamped_tf_to_msg,
}
use se_navi_common.TransformTypes.RoundTrip.{
  rotation_back, quaternion_round_trip, stamped_round_trip,
}

-- Natural numbers, where a difference stops at zero.
abbrev numbers : Double ℕ
numbers = record {
  number = λ n. n;
  pi = 180;
  add = ◌+◌;
  sub = ◌-◌;
  mul = ◌*◌;
  div = λ x y. x;
  neg = λ x. 0;
  fmod = λ x y. x;
  fabs = λ x. x;
  lt = ltb;
  le = leb;
  eq = ◌==◌;
  is_finite = λ x. true;
}

abbrev tuples : LinearMath
tuples = record {
  Vect = ℕ × (ℕ × ℕ);
  vector = λ x y z. (x, (y, z));
  vx = λ v. v.0;
  vy = λ v. v.1.0;
  vz = λ v. v.1.1;
  Quat = Quaternion;
  quaternion = λ x y z w. record { x = x; y = y; z = z; w = w };
  qx = λ q. q.x;
  qy = λ q. q.y;
  qz = λ q. q.z;
  qw = λ q. q.w;
  length2 = λ q. q.x * q.x + q.y * q.y + q.z * q.z + q.w * q.w;
  normalize = λ q. record { x = 0; y = 0; z = 0; w = 1 };
  of_rpy = λ roll pitch yaw. record { x = 0; y = 0; z = 0; w = 1 };
  yaw = λ q. 0;
  Trans = Quaternion × (ℕ × (ℕ × ℕ));
  transform = λ q v. (q, v);
  get_origin = λ t. t.1;
  get_rotation = λ t. t.0;
}

abbrev tuples_accessors : Accessors tuples
tuples_accessors = record {
  vector_x = λ x y z. refl;
  vector_y = λ x y z. refl;
  vector_z = λ x y z. refl;
  quaternion_x = λ x y z w. refl;
  quaternion_y = λ x y z w. refl;
  quaternion_z = λ x y z w. refl;
  quaternion_w = λ x y z w. refl;
  origin = λ q v. refl;
}

abbrev header_at : ℕ → ℕ → DataHeader
header_at seq sec = record {
  seq = seq;
  stamp = record { sec = sec; nsec = 0 };
  frame_id = 109 ∷ [];
}

abbrev a_quaternion : ℕ → Quaternion
a_quaternion w = record { x = 0; y = 0; z = 0; w = w }

abbrev a_point : PointStamped
a_point = record { header = header_at 1 5; point = record { x = 1; y = 2; z = 3 } }

abbrev a_vector : Vector3Stamped
a_vector = record { header = header_at 1 6; vector = record { x = 1; y = 2; z = 3 } }

abbrev a_transform : TransformStamped
a_transform = record {
  header = header_at 1 7;
  child_frame_id = 98 ∷ [];
  transform = record { translation = record { x = 1; y = 2; z = 3 }; rotation = a_quaternion 1 };
}

abbrev a_pose : PoseStamped
a_pose = record {
  header = header_at 1 8;
  pose = record { position = record { x = 1; y = 2; z = 3 }; orientation = a_quaternion 1 };
}

-- A quaternion of length 2 is normalized.
quaternion_example :
    quaternion_stamped_tf_to_msg numbers 0 tuples
      (quaternion_stamped_msg_to_tf numbers 0 tuples
        (record { header = header_at 1 5; quaternion = a_quaternion 2 }))
      (record { header = header_at 4 0; quaternion = a_quaternion 0 })
    ≡ record { header = header_at 4 5; quaternion = a_quaternion 1 }
quaternion_example =
    quaternion_round_trip numbers 0 tuples tuples_accessors
      (record { header = header_at 1 5; quaternion = a_quaternion 2 })
      (record { header = header_at 4 0; quaternion = a_quaternion 0 }) (λ q. refl)

stamped_example :
    (point_stamped_tf_to_msg numbers 0 tuples
        (point_stamped_msg_to_tf numbers 0 tuples a_point)
        a_point
      ≡ a_point)
    × ((vector3_stamped_tf_to_msg numbers 0 tuples
            (vector3_stamped_msg_to_tf numbers 0 tuples a_vector)
            a_vector
          ≡ a_vector)
        × ((transform_stamped_tf_to_msg numbers 0 tuples
                (transform_stamped_msg_to_tf numbers 0 tuples a_transform)
                a_transform
              ≡ record a_transform {
                transform = record a_transform.transform {
                  rotation =
                      rotation_back numbers 0 tuples tuples_accessors
                        (a_quaternion 1)
                        (vector3_msg_to_tf numbers 0 tuples (record { x = 1; y = 2; z = 3 }));
                };
              })
            × (pose_stamped_tf_to_msg numbers 0 tuples
                  (pose_stamped_msg_to_tf numbers 0 tuples a_pose)
                  a_pose
                ≡ record a_pose {
                  pose = record a_pose.pose {
                    orientation =
                        rotation_back numbers 0 tuples tuples_accessors
                          (a_quaternion 1)
                          (point_msg_to_tf numbers 0 tuples (record { x = 1; y = 2; z = 3 }));
                  };
                })))
stamped_example =
    stamped_round_trip numbers 0 tuples tuples_accessors a_point a_point a_vector a_vector
      a_transform a_transform a_pose a_pose
