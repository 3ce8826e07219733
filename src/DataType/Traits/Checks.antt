-- ===== src/DataType/Traits/Checks.antt =====
-- What the traits say of the encodings and of the checksums of the messages.
use Prim.Native.Char.{code}
use Prim.Native.String.{String}
use se_navi_common.Common.{
  ℕ, zero, suc, ◌+◌, ◌-◌, ◌/◌, ◌%◌, ◌≡◌, ◌≢◌, refl, Bool, true, false, List, [], ◌∷◌, ◌++◌, Option,
  none, some, ltb, if◌then◌else◌,
}
use se_navi_common.Serialization.Serializer.{next, ◌⨾◌, all_in_one}
use se_navi_common.Serialization.Scalars.{scalar, int16, boolean}
use se_navi_common.Serialization.Times.{time}
use se_navi_common.DataType.Geometry.{point, point32, vector3, quaternion, pose, transform, twist}
use se_navi_common.DataType.Navigation.{map_meta_data}
use se_navi_common.DataType.Services.{service_transform}
use se_navi_common.DataType.Stamped.{DataHeader}
use se_navi_common.DataType.Stamped.Soundness.{encode_data_header}
use se_navi_common.DataType.Kinds.{
  Kind, Value, serializer_of, encode, channel_float32_kind, data_header_kind, laser_scan_kind,
  map_meta_data_kind, occupancy_grid_kind, odometry_kind, path_kind, point_kind, point32_kind,
  pose_kind, pose_stamped_kind, quaternion_kind, transform_kind, twist_kind, vector3_kind,
  service_map_kind, service_odometry_kind, service_string_kind, service_transform_kind,
}
use se_navi_common.DataType.TraitTable.{traits}
use se_navi_common.DataType.Traits.{header}

-- If the traits of a message type other than ServiceOdometry declare a fixed size, the
-- serialized lengths of any two messages of the type are the same.
pub fixed_length :
    (k : Kind) (a b : Value k)
    → (traits k).is_fixed_size ≡ true
    → k ≢ service_odometry_kind
    → (serializer_of k).serialized_length a ≡ (serializer_of k).serialized_length b
unfolding traits map_meta_data service_transform point point32 vector3 quaternion pose transform
    twist all_in_one next ◌⨾◌ scalar int16 boolean time
fixed_length channel_float32_kind a b h n = cc h
fixed_length data_header_kind a b h n = cc h
fixed_length laser_scan_kind a b h n = cc h
fixed_length map_meta_data_kind a b h n = refl
fixed_length occupancy_grid_kind a b h n = cc h
fixed_length odometry_kind a b h n = cc h
fixed_length path_kind a b h n = cc h
fixed_length point_kind a b h n = refl
fixed_length point32_kind a b h n = refl
fixed_length pose_kind a b h n = refl
fixed_length pose_stamped_kind a b h n = cc h
fixed_length quaternion_kind a b h n = refl
fixed_length transform_kind a b h n = refl
fixed_length twist_kind a b h n = refl
fixed_length vector3_kind a b h n = refl
fixed_length service_map_kind a b h n = cc h
fixed_length service_odometry_kind a b h n = absurd (n refl)
fixed_length service_string_kind a b h n = cc h
fixed_length service_transform_kind a b h n = refl

-- A message without a header, or one whose encoding begins with that of its header.
abbrev pub HeaderFirst : Option DataHeader → Bool → List ℕ → Type 0
HeaderFirst none has_header bytes = has_header ≡ false
HeaderFirst (some h) has_header bytes =
    (has_header ≡ true) × ((rest : List ℕ) × (bytes ≡ encode_data_header h ++ rest))

-- The traits declare a header exactly for the message types in which the Header trait finds one,
-- and the encoding of such a message begins with the encoding of that header.
pub header_first :
    (k : Kind) (m : Value k) → HeaderFirst (header k m) (traits k).has_header (encode k m)
unfolding header traits
header_first channel_float32_kind m = refl
header_first data_header_kind m = refl
header_first laser_scan_kind m = (refl, (_, refl))
header_first map_meta_data_kind m = refl
header_first occupancy_grid_kind m = (refl, (_, refl))
header_first odometry_kind m = (refl, (_, refl))
header_first path_kind m = (refl, (_, refl))
header_first point_kind m = refl
header_first point32_kind m = refl
header_first pose_kind m = refl
header_first pose_stamped_kind m = (refl, (_, refl))
header_first quaternion_kind m = refl
header_first transform_kind m = refl
header_first twist_kind m = refl
header_first vector3_kind m = refl
header_first service_map_kind m = refl
header_first service_odometry_kind m = refl
header_first service_string_kind m = refl
header_first service_transform_kind m = refl

abbrev pub codes : String → List ℕ
codes String.[] = []
codes (String.◌∷◌ c s) = code c ∷ codes s

-- The lower-case hexadecimal digits of a word.
abbrev pub hex_digit : ℕ → ℕ
hex_digit d = if ltb d 10 then b'0' + d else b'a' + d - 10

unfoldable pub hex : ℕ → ℕ → List ℕ
hex zero n = []
hex (suc width) n = hex width (n / 16) ++ (hex_digit (n % 16) ∷ [])

abbrev pub is_service : Kind → Bool
is_service service_map_kind = true
is_service service_odometry_kind = true
is_service service_string_kind = true
is_service service_transform_kind = true
is_service _ = false

-- The two static values in the traits of a message type give, as 16 lower-case hexadecimal
-- digits each, the MD5 sum that the traits tell as a text; the traits of the four service types
-- tell none.
pub md5_words :
    (k : Kind)
    → codes (traits k).md5sum ≡ (
        if is_service k
        then []
        else hex 16 (traits k).static_value1 ++ hex 16 (traits k).static_value2)
unfolding traits hex
md5_words channel_float32_kind = refl
md5_words data_header_kind = refl
md5_words laser_scan_kind = refl
md5_words map_meta_data_kind = refl
md5_words occupancy_grid_kind = refl
md5_words odometry_kind = refl
md5_words path_kind = refl
md5_words point_kind = refl
md5_words point32_kind = refl
md5_words pose_kind = refl
md5_words pose_stamped_kind = refl
md5_words quaternion_kind = refl
md5_words transform_kind = refl
md5_words twist_kind = refl
md5_words vector3_kind = refl
md5_words service_map_kind = refl
md5_words service_odometry_kind = refl
md5_words service_string_kind = refl
md5_words service_transform_kind = refl
