-- ===== src/DataType/TraitTable.antt =====
-- What each header of Source/DataSet/DataType and Source/Service/ServiceType specializes of the
-- traits of Source/Common/MessageTraits.h for its message type; the text of `Definition` is left out.
use Prim.Native.String.{String}
use se_navi_common.Common.{ℕ, Bool, true, false}
use se_navi_common.DataType.Kinds.{
  Kind, channel_float32_kind, data_header_kind, laser_scan_kind, map_meta_data_kind,
  occupancy_grid_kind, odometry_kind, path_kind, point_kind, point32_kind, pose_kind,
  pose_stamped_kind, quaternion_kind, transform_kind, twist_kind, vector3_kind, service_map_kind,
  service_odometry_kind, service_string_kind, service_transform_kind,
}

-- `IsFixedSize`, `IsMessage`, `HasHeader`, `MD5Sum` with its two words, and `DataType`.
pub record Traits : Type 0 where
  pub is_fixed_size : Bool
  pub is_message : Bool
  pub has_header : Bool
  pub md5sum : String
  pub static_value1 : ℕ
  pub static_value2 : ℕ
  pub datatype : String

abbrev pub channel_float32_traits : Traits
channel_float32_traits = record {
  is_fixed_size = false;
  is_message = true;
  has_header = false;
  md5sum = "3d40139cdd33dfedcb71ffeeeb42ae7f";
  static_value1 = 4413549199270076397;
  static_value2 = 14659779663681990271;
  datatype = "sensor_msgs/ChannelFloat32";
}

abbrev pub data_header_traits : Traits
data_header_traits = record {
  is_fixed_size = false;
  is_message = true;
  has_header = false;
  md5sum = "2176decaecbce78abc3b96ef049fabed";
  static_value1 = 2411359613640042378;
  static_value2 = 13563600656075303917;
  datatype = "std_msgs/Header";
}

abbrev pub laser_scan_traits : Traits
laser_scan_traits = record {
  is_fixed_size = false;
  is_message = true;
  has_header = true;
  md5sum = "90c7ef2dc6895d81024acba2ac42f369";
  static_value1 = 10432570041710501249;
  static_value2 = 165168235887653737;
  datatype = "sensor_msgs/LaserScan";
}

abbrev pub map_meta_data_traits : Traits
map_meta_data_traits = record {
  is_fixed_size = true;
  is_message = true;
  has_header = false;
  md5sum = "10cfc8a2818024d3248802c00c95f11b";
  static_value1 = 1211407425068868819;
  static_value2 = 2632357006066184475;
  datatype = "nav_msgs/MapMetaData";
}

abbrev pub occupancy_grid_traits : Traits
occupancy_grid_traits = record {
  is_fixed_size = false;
  is_message = true;
  has_header = true;
  md5sum = "3381f2d731d4076ec5c71b0759edbe4e";
  static_value1 = 3711514573997868910;
  static_value2 = 14251389264224697934;
  datatype = "nav_msgs/OccupancyGrid";
}

abbrev pub odometry_traits : Traits
odometry_traits = record {
  is_fixed_size = false;
  is_message = true;
  has_header = true;
  md5sum = "cd5e73d190d741a2f92e81eda573aca7";
  static_value1 = 14798392769501413794;
  static_value2 = 17955431622055799975;
  datatype = "nav_msgs/Odometry";
}

abbrev pub path_traits : Traits
path_traits = record {
  is_fixed_size = false;
  is_message = true;
  has_header = true;
  md5sum = "6227e2b7e9cce15051f669a5e197bbf7";
  static_value1 = 7072871019338064208;
  static_value2 = 5906024122518322167;
  datatype = "nav_msgs/Path";
}

abbrev pub point_traits : Traits
point_traits = record {
  is_fixed_size = true;
  is_message = true;
  has_header = false;
  md5sum = "4a842b65f413084dc2b10fb484ea7f17";
  static_value1 = 5369464372619053133;
  static_value2 = 14029011582234296087;
  datatype = "geometry_msgs/Point";
}

abbrev pub point32_traits : Traits
point32_traits = record {
  is_fixed_size = true;
  is_message = true;
  has_header = false;
  md5sum = "cc153912f1453b708d221682bc23d9ac";
  static_value1 = 14705722911768263536;
  static_value2 = 10169715659314026924;
  datatype = "geometry_msgs/Point32";
}

abbrev pub pose_traits : Traits
pose_traits = record {
  is_fixed_size = true;
  is_message = true;
  has_header = false;
  md5sum = "e45d45a5a1ce597b249e23fb30fc871f";
  static_value1 = 16455385191168235899;
  static_value2 = 2638585993451308831;
  datatype = "geometry_msgs/Pose";
}

abbrev pub pose_stamped_traits : Traits
pose_stamped_traits = record {
  is_fixed_size = false;
  is_message = true;
  has_header = true;
  md5sum = "d3812c3cbc69362b77dc0b19b345f8f5";
  static_value1 = 15240511253369140779;
  static_value2 = 8636790390399564021;
  datatype = "geometry_msgs/PoseStamped";
}

abbrev pub quaternion_traits : Traits
quaternion_traits = record {
  is_fixed_size = true;
  is_message = true;
  has_header = false;
  md5sum = "a779879fadf0160734f906b8c19c7004";
  static_value1 = 12067825796403697159;
  static_value2 = 3817089549765210116;
  datatype = "geometry_msgs/Quaternion";
}

abbrev pub transform_traits : Traits
transform_traits = record {
  is_fixed_size = true;
  is_message = true;
  has_header = false;
  md5sum = "ac9eff44abf714214112b05d54a3cf9b";
  static_value1 = 12438659891251844129;
  static_value2 = 4689004076944576411;
  datatype = "geometry_msgs/Transform";
}

abbrev pub twist_traits : Traits
twist_traits = record {
  is_fixed_size = true;
  is_message = true;
  has_header = false;
  md5sum = "9f195f881246fdfa2798d1d3eebca84a";
  static_value1 = 11464299364475141626;
  static_value2 = 2853261072112855114;
  datatype = "geometry_msgs/Twist";
}

abbrev pub vector3_traits : Traits
vector3_traits = record {
  is_fixed_size = true;
  is_message = true;
  has_header = false;
  md5sum = "4a842b65f413084dc2b10fb484ea7f17";
  static_value1 = 5369464372619053133;
  static_value2 = 14029011582234296087;
  datatype = "geometry_msgs/Vector3";
}

abbrev pub service_map_traits : Traits
service_map_traits = record {
  is_fixed_size = false;
  is_message = true;
  has_header = false;
  md5sum = "";
  static_value1 = 0;
  static_value2 = 0;
  datatype = "ServiceMap";
}

abbrev pub service_odometry_traits : Traits
service_odometry_traits = record {
  is_fixed_size = true;
  is_message = true;
  has_header = false;
  md5sum = "";
  static_value1 = 0;
  static_value2 = 0;
  datatype = "ServiceOdometry";
}

abbrev pub service_string_traits : Traits
service_string_traits = record {
  is_fixed_size = false;
  is_message = true;
  has_header = false;
  md5sum = "";
  static_value1 = 0;
  static_value2 = 0;
  datatype = "ServiceString";
}

abbrev pub service_transform_traits : Traits
service_transform_traits = record {
  is_fixed_size = true;
  is_message = true;
  has_header = false;
  md5sum = "";
  static_value1 = 0;
  static_value2 = 0;
  datatype = "ServiceTransform";
}

unfoldable pub traits : Kind → Traits
traits channel_float32_kind = channel_float32_traits
traits data_header_kind = data_header_traits
traits laser_scan_kind = laser_scan_traits
traits map_meta_data_kind = map_meta_data_traits
traits occupancy_grid_kind = occupancy_grid_traits
traits odometry_kind = odometry_traits
traits path_kind = path_traits
traits point_kind = point_traits
traits point32_kind = point32_traits
traits pose_kind = pose_traits
traits pose_stamped_kind = pose_stamped_traits
traits quaternion_kind = quaternion_traits
traits transform_kind = transform_traits
traits twist_kind = twist_traits
traits vector3_kind = vector3_traits
traits service_map_kind = service_map_traits
traits service_odometry_kind = service_odometry_traits
traits service_string_kind = service_string_traits
traits service_transform_kind = service_transform_traits
