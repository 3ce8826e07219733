-- ===== src/TransformTypes/RoundTrip.antt =====
-- Messages through the types of the linear math and back (Source/Transform/DataTypes.h).
use se_navi_common.Common.{ℕ, ◌≡◌, refl, ap, ◌∙◌, false, Bool-cases, inl, inr, if◌then◌else◌}
use se_navi_common.Common.Double.{Double}
use se_navi_common.DataType.Geometry.{Point, Vector3, Quaternion, Pose, Transform}
use se_navi_common.DataType.Stamped.{DataHeader, PoseStamped}
use se_navi_common.DataType.Plain.{
  PointStamped, QuaternionStamped, TransformStamped, Vector3Stamped,
}
use se_navi_common.TransformTypes.Linear.{LinearMath, Accessors}
use se_navi_common.TransformTypes.{
  is_far, quaternion_of, quaternion_msg_to_tf, quaternion_tf_to_msg, quaternion_stamped_msg_to_tf,
  quaternion_stamped_tf_to_msg, vector3_msg_to_tf, vector3_tf_to_msg, vector3_stamped_msg_to_tf,
  vector3_stamped_tf_to_msg, point_msg_to_tf, point_tf_to_msg, point_stamped_msg_to_tf,
  point_stamped_tf_to_msg, transform_msg_to_tf, transform_tf_to_msg, transform_stamped_msg_to_tf,
  transform_stamped_tf_to_msg, pose_msg_to_tf, pose_tf_to_msg, pose_stamped_msg_to_tf,
  pose_stamped_tf_to_msg,
}

-- A header with the `seq` of another.
abbrev pub with_seq : DataHeader → DataHeader → DataHeader
with_seq header into = record header { seq = into.seq }

module _ (d : Double ℕ) (tolerance : ℕ) (linear : LinearMath) (laws : Accessors linear) where
  pub vector3_back :
      (m : Vector3)
      → vector3_tf_to_msg d tolerance linear (vector3_msg_to_tf d tolerance linear m) ≡ m
  unfolding vector3_tf_to_msg vector3_msg_to_tf
  vector3_back m =
      rw (laws.vector_x m.x m.y m.z, laws.vector_y m.x m.y m.z, laws.vector_z m.x m.y m.z) refl

  pub point_back :
      (m : Point) → point_tf_to_msg d tolerance linear (point_msg_to_tf d tolerance linear m) ≡ m
  unfolding point_tf_to_msg point_msg_to_tf
  point_back m =
      rw (laws.vector_x m.x m.y m.z, laws.vector_y m.x m.y m.z, laws.vector_z m.x m.y m.z) refl

  -- The linear quaternion of a message.
  abbrev pub linear_of : Quaternion → linear.Quat
  linear_of m = linear.quaternion m.x m.y m.z m.w

  quaternion_of_lem : (m : Quaternion) → quaternion_of d tolerance linear (linear_of m) ≡ m
  quaternion_of_lem m =
      rw
        (
          laws.quaternion_x m.x m.y m.z m.w,
          laws.quaternion_y m.x m.y m.z m.w,
          laws.quaternion_z m.x m.y m.z m.w,
          laws.quaternion_w m.x m.y m.z m.w,
        )
        refl

  -- A stamped quaternion message through quaternionStampedMsgToTF and quaternionStampedTFToMsg:
  -- where a normalized quaternion is never too far from length one and the accessors give what
  -- the constructors took, the quaternion is the same, or the normalized one if it was too far
  -- from length one; stamp and frame are kept, and seq is that of the message that is
  -- overwritten.
  pub quaternion_round_trip :
      (m into : QuaternionStamped)
      → ((q : linear.Quat) → is_far d tolerance linear (linear.normalize q) ≡ false)
      → quaternion_stamped_tf_to_msg d tolerance linear
          (quaternion_stamped_msg_to_tf d tolerance linear m)
          into
        ≡ record {
          header = with_seq m.header into.header;
          quaternion =
              if is_far d tolerance linear (linear_of m.quaternion)
              then quaternion_of d tolerance linear (linear.normalize (linear_of m.quaternion))
              else m.quaternion;
        }
  unfolding quaternion_stamped_tf_to_msg quaternion_stamped_msg_to_tf quaternion_tf_to_msg
      quaternion_msg_to_tf
  quaternion_round_trip m into normal =
      elim (Bool-cases (is_far d tolerance linear (linear_of m.quaternion))) [
        | inl e ↦ rw (e, normal (linear_of m.quaternion)) refl
        | inr e ↦
            rw (e, e)
              (ap (λ q. record { header = with_seq m.header into.header; quaternion = q })
                (quaternion_of_lem m.quaternion))
      ]

  -- What the library gives back as the rotation of a transform that is made of these.
  abbrev pub rotation_back : Quaternion → linear.Vect → Quaternion
  rotation_back q v =
      quaternion_tf_to_msg d tolerance linear
        (linear.get_rotation (linear.transform (linear_of q) v))

  transform_back :
      (m : Transform)
      → transform_tf_to_msg d tolerance linear (transform_msg_to_tf d tolerance linear m)
        ≡ record m {
          rotation = rotation_back m.rotation (vector3_msg_to_tf d tolerance linear m.translation);
        }
  unfolding transform_tf_to_msg transform_msg_to_tf vector3_msg_to_tf
  transform_back m =
      let v = linear.vector m.translation.x m.translation.y m.translation.z in
      ap (λ t. record { translation = t; rotation = rotation_back m.rotation v })
        (ap (vector3_tf_to_msg d tolerance linear) (laws.origin (linear_of m.rotation) v)
          ∙ vector3_back m.translation)

  pose_back :
      (m : Pose)
      → pose_tf_to_msg d tolerance linear (pose_msg_to_tf d tolerance linear m) ≡ record m {
        orientation = rotation_back m.orientation (point_msg_to_tf d tolerance linear m.position);
      }
  unfolding pose_tf_to_msg pose_msg_to_tf point_msg_to_tf
  pose_back m =
      let v = linear.vector m.position.x m.position.y m.position.z in
      ap (λ t. record { position = t; orientation = rotation_back m.orientation v })
        (ap (point_tf_to_msg d tolerance linear) (laws.origin (linear_of m.orientation) v)
          ∙ point_back m.position)

  -- Where the accessors of the linear math give what the constructors took: stamped points,
  -- vectors, transforms and poses come back from the conversion to the linear types and into
  -- another message with the same content, stamp, frame and child frame, but for seq, which is
  -- that of the other message, and the rotation of a transform or pose, which is the conversion
  -- of what getRotation gives.
  pub stamped_round_trip :
      (point into_point : PointStamped) (vector into_vector : Vector3Stamped)
      (transform into_transform : TransformStamped) (pose into_pose : PoseStamped)
      → (point_stamped_tf_to_msg d tolerance linear
            (point_stamped_msg_to_tf d tolerance linear point)
            into_point
          ≡ record point { header = with_seq point.header into_point.header })
        × ((vector3_stamped_tf_to_msg d tolerance linear
                (vector3_stamped_msg_to_tf d tolerance linear vector)
                into_vector
              ≡ record vector { header = with_seq vector.header into_vector.header })
            × ((transform_stamped_tf_to_msg d tolerance linear
                    (transform_stamped_msg_to_tf d tolerance linear transform)
                    into_transform
                  ≡ record {
                    header = with_seq transform.header into_transform.header;
                    child_frame_id = transform.child_frame_id;
                    transform = record transform.transform {
                      rotation =
                          rotation_back transform.transform.rotation
                            (vector3_msg_to_tf d tolerance linear transform.transform.translation);
                    };
                  })
                × (pose_stamped_tf_to_msg d tolerance linear
                      (pose_stamped_msg_to_tf d tolerance linear pose)
                      into_pose
                    ≡ record {
                      header = with_seq pose.header into_pose.header;
                      pose = record pose.pose {
                        orientation =
                            rotation_back pose.pose.orientation
                              (point_msg_to_tf d tolerance linear pose.pose.position);
                      };
                    })))
  unfolding point_stamped_tf_to_msg point_stamped_msg_to_tf vector3_stamped_tf_to_msg
      vector3_stamped_msg_to_tf transform_stamped_tf_to_msg transform_stamped_msg_to_tf
      pose_stamped_tf_to_msg pose_stamped_msg_to_tf
  stamped_round_trip point into_point vector into_vector transform into_transform pose into_pose = (
    ap (λ p. record { header = with_seq point.header into_point.header; point = p })
        (point_back point.point),
    (
      ap (λ v. record { header = with_seq vector.header into_vector.header; vector = v })
          (vector3_back vector.vector),
      (
        ap
            (λ t. record {
              header = with_seq transform.header into_transform.header;
              child_frame_id = transform.child_frame_id;
              transform = t;
            })
            (transform_back transform.transform),
        ap (λ t. record { header = with_seq pose.header into_pose.header; pose = t })
            (pose_back pose.pose),
      ),
    ),
  )
