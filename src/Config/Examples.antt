-- ===== src/Config/Examples.antt =====
-- Files and values of Source/ConfigFile/ConfigFile.cpp.
use se_navi_common.Common.{◌≡◌, refl, true, List, [], ◌∷◌, some}
use se_navi_common.Config.{
  Entry, Reader, to_lower, has, trim, truncate, insert_value, value_default, read, read_line,
  assign, read_lines, lines_of, skip_space, word, behind_word, find_first, find_last,
}
use se_navi_common.Config.Keys.{WellKeyed, content-WellKeyed}
use se_navi_common.Config.Reading.{Item, section, entry, print_items, store_items, read-print_items}

-- "a/b" is on, and no other value is there.
abbrev one_value : List Entry
one_value = record { key = b'a' ∷ b'/' ∷ b'b' ∷ []; value = b'o' ∷ b'n' ∷ [] } ∷ []

content_example :
    WellKeyed (insert_value (b'A' ∷ []) (b'C' ∷ []) (b'1' ∷ []) one_value)
    × (WellKeyed (value_default (b'a' ∷ []) (b'c' ∷ []) (b'1' ∷ []) one_value).1
        × WellKeyed (read (some (b'x' ∷ b' ' ∷ b'1' ∷ [])) one_value).1)
unfolding to_lower has
content_example =
    content-WellKeyed (b'A' ∷ []) (b'C' ∷ []) (b'1' ∷ []) (b'a' ∷ []) (b'c' ∷ [])
      (some (b'x' ∷ b' ' ∷ b'1' ∷ [])) one_value refl refl ((tt, tt), ((refl, refl), tt))

abbrev reader : Reader
reader = record { name = b'x' ∷ []; val = b'1' ∷ []; in_section = b'a' ∷ []; content = one_value }

abbrev items : List Item
items = section (b'a' ∷ []) ∷ entry b'x' [] b'1' (b'2' ∷ []) ∷ entry b'b' [] b'0' [] ∷ []

read_example : read (some (print_items items)) one_value ≡ (true, store_items items [] one_value)
unfolding has trim find_first find_last
read_example = read-print_items items one_value (
  ((refl, tt), refl),
  ((refl, ((refl, tt), (refl, (refl, tt)))), ((refl, ((refl, tt), (refl, tt))), tt)),
)

-- Comments, blanks and a section's blanks are not read.
read_run :
    read
      (some (
        b'#' ∷ b'\n' ∷ b'[' ∷ b' ' ∷ b'A' ∷ b']' ∷ b'\n' ∷ b' ' ∷ b'B' ∷ b'\t' ∷ b'1' ∷ b'#' ∷ b'2'
        ∷ []))
      []
    ≡ (true, record { key = b'a' ∷ b'/' ∷ b'b' ∷ []; value = b'1' ∷ [] } ∷ [])
unfolding read read_lines lines_of read_line trim find_first find_last truncate has insert_value
    assign to_lower skip_space word behind_word
read_run = refl
