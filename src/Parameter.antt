-- ===== src/Parameter.antt =====
-- `Parameter` of Source/Parameter/Parameter.cpp: the values of a configuration file. The XML parser, a
-- library of its own, and the access to files are parameters.
pub mod Lookup
pub mod Examples
use se_navi_common.Common.{
  ℕ, Bool, true, false, not, if◌then◌else◌, ltb, List, [], ◌∷◌, ◌++◌, length, Option, none, some,
}
use se_navi_common.Common.Int.{ℤ}
use se_navi_common.Config.{String}
use se_navi_common.Config.AutoVal.{of_int, to_int}

-- CONFIGURATION_PATH, "/etc/SeNavigation/".
abbrev pub configuration_path : String
configuration_path =
    b'/' ∷ b'e' ∷ b't' ∷ b'c' ∷ b'/' ∷ b'S' ∷ b'e' ∷ b'N' ∷ b'a' ∷ b'v' ∷ b'i' ∷ b'g' ∷ b'a' ∷ b't'
    ∷ b'i' ∷ b'o' ∷ b'n' ∷ b'/' ∷ []

-- CONFIGURATION_COMMON_NODE_NAME, "configuration".
abbrev pub common_node_name : String
common_node_name =
    b'c' ∷ b'o' ∷ b'n' ∷ b'f' ∷ b'i' ∷ b'g' ∷ b'u' ∷ b'r' ∷ b'a' ∷ b't' ∷ b'i' ∷ b'o' ∷ b'n' ∷ []

-- CONFIGURATION_COMMON_ATTRIBUTE_NAME, "value".
abbrev pub common_attribute_name : String
common_attribute_name = b'v' ∷ b'a' ∷ b'l' ∷ b'u' ∷ b'e' ∷ []

-- What `XMLNode` offers, and the access to files; `open_file_helper` ends the program where it cannot
-- parse the file, and this is about the runs in which it returns. `get_attribute` is
-- none where it returns a null pointer.
pub record XmlParser : Type 1 where
  pub XmlNode : Type 0
  pub empty_xml_node : XmlNode
  pub is_empty_node : XmlNode → Bool
  pub get_child_node : XmlNode → String → XmlNode
  pub get_attribute : XmlNode → String → Option String
  pub open_file_helper : String → String → XmlNode
  pub is_readable : String → Bool

-- `int` of a text that may be missing.
abbrev pub int_of : Option String → Option ℤ
int_of none = none
int_of (some value) = to_int value

module _ (xml : XmlParser) where
  pub record Parameter : Type 0 where
    pub main_node : xml.XmlNode

  abbrev pub new_parameter : Parameter
  new_parameter = record { main_node = xml.empty_xml_node }

  unfoldable pub load_configuration_file : String → Parameter → Bool × Parameter
  load_configuration_file file_name p =
      let full_name = configuration_path ++ file_name in
      let node = xml.open_file_helper full_name common_node_name in
      if not (xml.is_readable full_name)
      then (false, p)
      else if xml.is_empty_node node
      then (false, record { main_node = node })
      else (true, record { main_node = node })

  -- `getParameter`. None: the code assigns a null pointer to a string, which is undefined.
  unfoldable pub get_parameter : String → String → Parameter → Option String
  get_parameter node_name default_value p =
      let node = xml.get_child_node p.main_node node_name in
      if xml.is_empty_node p.main_node
      then some default_value
      else if xml.is_empty_node node
      then some default_value
      else xml.get_attribute node common_attribute_name

  -- `getParameter` of an int, through its text. None: the code is undefined, as `get_parameter` or
  -- `atoi` is.
  unfoldable pub get_parameter_int : String → ℤ → Parameter → Option ℤ
  get_parameter_int node_name default_value p =
      int_of (get_parameter node_name (of_int default_value) p)

  -- `sprintf` into the array of 16 characters: none where the text and its end do not fit.
  abbrev pub in_buffer : String → Option String
  in_buffer text = if ltb (length text) 16 then some text else none

  module _ {F : Type 0} (print_float : F → String) (atof : String → F) where
    abbrev pub float_of : Option String → Option F
    float_of none = none
    float_of (some text) = some (atof text)

    abbrev pub float_with : String → Option String → Parameter → Option F
    float_with node_name none p = none
    float_with node_name (some text) p = float_of (get_parameter node_name text p)

    -- `getParameter` of a float, through its text with `%f`, given that and `atof`.
    unfoldable pub get_parameter_float : String → F → Parameter → Option F
    get_parameter_float node_name default_value p =
        float_with node_name (in_buffer (print_float default_value)) p
