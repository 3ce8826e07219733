-- ===== src/Parameter/Examples.antt =====
-- Lookups of Source/Parameter/Parameter.cpp in a file with one entry.
use se_navi_common.Common.{◌≡◌, refl, Bool, true, false, [], ◌∷◌, Option, none, some, arith}
use se_navi_common.Common.Int.{pos}
use se_navi_common.Config.{String}
use se_navi_common.Parameter.{
  XmlParser, new_parameter, load_configuration_file, get_parameter_int, int_of,
}
use se_navi_common.Parameter.Lookup.{load-get_parameter}

-- No node, the configuration node, and a node below it with its value.
data Node : Type 0 where
  nothing top : Node
  child : String → Node

abbrev is_nothing : Node → Bool
is_nothing nothing = true
is_nothing top = false
is_nothing (child s) = false

-- A child of any name, which has the value 12.
abbrev child_of : Node → String → Node
child_of top name = child (b'1' ∷ b'2' ∷ [])
child_of nothing name = nothing
child_of (child s) name = nothing

abbrev value_of : Node → String → Option String
value_of (child s) name = some s
value_of nothing name = none
value_of top name = none

abbrev xml : XmlParser
xml = record {
  XmlNode = Node;
  empty_xml_node = nothing;
  is_empty_node = is_nothing;
  get_child_node = child_of;
  get_attribute = value_of;
  open_file_helper = λ file name. top;
  is_readable = λ file. true;
}

load_example :
    ((load_configuration_file xml (b'a' ∷ []) (new_parameter xml)).0 ≡ true)
    × (get_parameter_int xml
          (b'x' ∷ [])
          (pos 7)
          (load_configuration_file xml (b'a' ∷ []) (new_parameter xml)).1
        ≡ int_of (some (b'1' ∷ b'2' ∷ [])))
load_example =
    load-get_parameter xml (b'a' ∷ []) (b'x' ∷ []) (pos 7) (omega arith, omega arith) refl
