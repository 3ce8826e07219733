-- ===== src/DataType/Plain.antt =====
-- The messages of Source/DataSet/DataType that have no serializer: OccupancyGridUpdate.h,
-- PointCloud.h, PointStamped.h, Polygon.h, PolygonStamped.h, PoseWithCovarianceStamped.h,
-- Position2DInt.h, QuaternionStamped.h, TransformData.h, TransformStamped.h, TwistStamped.h and
-- Vector3Stamped.h. A number of type `double` is its bit pattern.
use se_navi_common.Common.{ℕ, List}
use se_navi_common.Common.Int.{ℤ}
use se_navi_common.DataType.Geometry.{Point, Point32, Vector3, Quaternion, Pose, Transform, Twist}
use se_navi_common.DataType.Stamped.{DataHeader, ChannelFloat32}

-- Its `data` are `cells` here.
pub record OccupancyGridUpdate : Type 0 where
  pub header : DataHeader
  pub x : ℤ
  pub y : ℤ
  pub width : ℤ
  pub height : ℤ
  pub cells : List ℕ

pub record PointCloud : Type 0 where
  pub header : DataHeader
  pub points : List Point32
  pub channels : List ChannelFloat32

pub record PointStamped : Type 0 where
  pub header : DataHeader
  pub point : Point

pub record Polygon : Type 0 where
  pub points : List Point32

pub record PolygonStamped : Type 0 where
  pub header : DataHeader
  pub polygon : Polygon

-- `covariance` has 36 elements.
pub record PoseWithCovarianceStamped : Type 0 where
  pub header : DataHeader
  pub pose : Pose
  pub covariance : List ℕ

pub record Position2DInt : Type 0 where
  pub x : ℤ
  pub y : ℤ

pub record QuaternionStamped : Type 0 where
  pub header : DataHeader
  pub quaternion : Quaternion

pub record TransformStamped : Type 0 where
  pub header : DataHeader
  pub child_frame_id : List ℕ
  pub transform : Transform

pub record TransformData : Type 0 where
  pub transforms : List TransformStamped

pub record TwistStamped : Type 0 where
  pub header : DataHeader
  pub twist : Twist

pub record Vector3Stamped : Type 0 where
  pub header : DataHeader
  pub vector : Vector3
