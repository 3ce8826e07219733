-- ===== src/Parameter/Lookup.antt =====
-- What lookups give after a file was loaded (Source/Parameter/Parameter.cpp).
use se_navi_common.Common.{
  ◌≡◌, refl, Bool, true, Bool-cases, inl, inr, not, ◌&&◌, if◌then◌else◌, ◌++◌, some,
}
use se_navi_common.Common.Int.{ℤ, IsInt32}
use se_navi_common.Config.{String}
use se_navi_common.Config.AutoVal.{to_int-of_int}
use se_navi_common.Parameter.{
  XmlParser, new_parameter, configuration_path, common_node_name, common_attribute_name,
  load_configuration_file, get_parameter, get_parameter_int, int_of,
}

module _ (xml : XmlParser) where
  -- The configuration node of a file.
  abbrev pub root : String → xml.XmlNode
  root file_name = xml.open_file_helper (configuration_path ++ file_name) common_node_name

  -- The file can be read and has a configuration node.
  abbrev pub is_loadable : String → Bool
  is_loadable file_name =
      xml.is_readable (configuration_path ++ file_name) && not (xml.is_empty_node (root file_name))

  -- The node of a name below the configuration node.
  abbrev pub entry_node : String → String → xml.XmlNode
  entry_node file_name node_name = xml.get_child_node (root file_name) node_name

  -- After loadConfigurationFile on a new Parameter, whose empty node is empty: it returns true
  -- exactly if the file can be read and has a configuration node; and the integer that
  -- getParameter gives is that of the value attribute of the node, if this is so and the
  -- configuration node has a child of the name, and otherwise the default that was given, for
  -- every default that an int can hold and exactly, although it goes through a text. Without the
  -- attribute, or with a number that an int cannot hold, the code's result is undefined, which
  -- is none.
  pub load-get_parameter :
      (file_name node_name : String) (default_value : ℤ)
      → IsInt32 default_value
      → xml.is_empty_node xml.empty_xml_node ≡ true
      → ((load_configuration_file xml file_name (new_parameter xml)).0 ≡ is_loadable file_name)
        × (get_parameter_int xml node_name default_value
              (load_configuration_file xml file_name (new_parameter xml)).1
            ≡ (if is_loadable file_name && not (xml.is_empty_node (entry_node file_name node_name))
                then int_of
                    (xml.get_attribute (entry_node file_name node_name) common_attribute_name)
                else some default_value))
  unfolding load_configuration_file get_parameter get_parameter_int
  load-get_parameter file_name node_name default_value range none_there =
      elim (Bool-cases (xml.is_readable (configuration_path ++ file_name))) [
        | inl r ↦ elim (Bool-cases (xml.is_empty_node (root file_name))) [
          | inl e ↦ rw (r, e, e) (refl, to_int-of_int default_value range)
          | inr e ↦ elim (Bool-cases (xml.is_empty_node (entry_node file_name node_name))) [
            | inl c ↦ rw (r, e, e, c) (refl, to_int-of_int default_value range)
            | inr c ↦ rw (r, e, e, c) (refl, refl)
          ]
        ]
        | inr r ↦ rw (r, none_there) (refl, to_int-of_int default_value range)
      ]
