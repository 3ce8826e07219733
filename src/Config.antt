-- ===== src/Config.antt =====
-- `ConfigFile` of Source/ConfigFile/ConfigFile.{h,cpp}: its operations on strings, its map of values
-- and the reading of a file. A string is the list of its characters' codes, and the map is the list
-- of its entries in the order of the keys.
pub mod Text
pub mod Values
pub mod Keys
pub mod Reading
pub mod AutoVal
pub mod Assignment
mod Examples
use se_navi_common.Common.{
  ℕ, zero, suc, ◌+◌, ◌-◌, Bool, true, false, not, ◌&&◌, ◌||◌, ◌==◌, ltb, leb, if◌then◌else◌, List,
  [], ◌∷◌, ◌++◌, Option, none, some, take, drop,
}

abbrev pub String : Type 0
String = List ℕ

-- `::tolower`, in the C locale.
abbrev pub lower : ℕ → ℕ
lower c = if leb b'A' c && leb c b'Z' then c + 32 else c

-- `toLower`.
unfoldable pub to_lower : String → String
to_lower [] = []
to_lower (c ∷ cs) = lower c ∷ to_lower cs

unfoldable pub has : ℕ → String → Bool
has c [] = false
has c (d ∷ ds) = c == d || has c ds

-- " \t\r\n", the delimiters of `trim` where none are given.
abbrev pub blanks : String
blanks = b' ' ∷ b'\t' ∷ b'\r' ∷ b'\n' ∷ []

abbrev pub moved : Option ℕ → Option ℕ
moved none = none
moved (some i) = some (suc i)

-- The index of the first character that passes a test; none is npos.
unfoldable pub find_first : (ℕ → Bool) → String → Option ℕ
find_first test [] = none
find_first test (c ∷ cs) = let rest = find_first test cs in if test c then some 0 else moved rest

abbrev pub found_or : Option ℕ → Bool → Option ℕ
found_or (some i) here = some (suc i)
found_or none true = some 0
found_or none false = none

unfoldable pub find_last : (ℕ → Bool) → String → Option ℕ
find_last test [] = none
find_last test (c ∷ cs) = found_or (find_last test cs) (test c)

-- `result.erase(++index)`, where there is an index.
abbrev pub erase_behind : Option ℕ → String → String
erase_behind none s = s
erase_behind (some i) s = take (i + 1) s

-- `result.erase(0, index)`, and `result.erase()` where there is none.
abbrev pub erase_before : Option ℕ → String → String
erase_before none s = []
erase_before (some i) s = drop i s

unfoldable pub trim : String → String → String
trim source delims =
    let wanted : ℕ → Bool = λ c. not (has c delims) in
    let result = erase_behind (find_last wanted source) source in
    erase_before (find_first wanted result) result

abbrev pub cut_at : Option ℕ → String → String
cut_at none source = source
cut_at (some zero) source = []
cut_at (some (suc i)) source = take (suc i) source

unfoldable pub truncate : String → String → String
truncate source at_char = cut_at (find_first (λ c. has c at_char) source) source

unfoldable pub equals : String → String → Bool
equals [] [] = true
equals [] (d ∷ ds) = false
equals (c ∷ cs) [] = false
equals (c ∷ cs) (d ∷ ds) = c == d && equals cs ds

-- The order of the keys of a `std::map< std::string, … >`.
unfoldable pub less : String → String → Bool
less s [] = false
less [] (d ∷ ds) = true
less (c ∷ cs) (d ∷ ds) = ltb c d || c == d && less cs ds

-- `m_content`.
pub record Entry : Type 0 where
  pub key : String
  pub value : String

-- `m_content[key] = value`.
unfoldable pub assign : String → String → List Entry → List Entry
assign key value [] = record { key = key; value = value } ∷ []
assign key value (e ∷ es) =
    let rest = assign key value es in
    if equals key e.key
    then record { key = key; value = value } ∷ es
    else if less key e.key
    then record { key = key; value = value } ∷ e ∷ es
    else e ∷ rest

-- `m_content.find(key)`.
unfoldable pub find : String → List Entry → Option String
find key [] = none
find key (e ∷ es) = let rest = find key es in if equals key e.key then some e.value else rest

-- `toLower(section) + '/' + toLower(entry)`.
abbrev pub key_of : String → String → String
key_of section entry = to_lower section ++ (b'/' ∷ to_lower entry)

-- `insertValue`.
unfoldable pub insert_value : String → String → String → List Entry → List Entry
insert_value section entry value content = assign (key_of section entry) value content

-- `value`; none is the exception.
unfoldable pub value : String → String → List Entry → Option String
value section entry content = find (key_of section entry) content

-- `m_content.insert(…).first->second`: an entry that is there stays.
abbrev pub insert_new : Option String → String → String → List Entry → String × List Entry
insert_new (some old) key def content = (old, content)
insert_new none key def content = (def, assign key def content)

abbrev pub value_or : Option String → String → String → String → List Entry → String × List Entry
value_or (some v) section entry def content = (v, content)
value_or none section entry def content =
    let key = section ++ (b'/' ∷ entry) in insert_new (find key content) key def content

-- `value` with a default; the default is the text of the `AutoVal` that is made of it.
unfoldable pub value_default : String → String → String → List Entry → String × List Entry
value_default section entry def content =
    value_or (value section entry content) section entry def content

-- The lines of `dumpValues`, each with its end.
unfoldable pub dump_values : List Entry → String
dump_values [] = []
dump_values (e ∷ es) = e.key ++ (b' ' ∷ e.value ++ (b'\n' ∷ dump_values es))

-- The variables of `read` that outlive a line, and the values.
pub record Reader : Type 0 where
  pub name : String
  pub val : String
  pub in_section : String
  pub content : List Entry

-- `isspace`, in the C locale.
abbrev pub is_space : ℕ → Bool
is_space c = c == b' ' || leb 9 c && leb c 13

unfoldable pub skip_space : String → String
skip_space [] = []
skip_space (c ∷ cs) = let rest = skip_space cs in if is_space c then rest else c ∷ cs

unfoldable pub word : String → String
word [] = []
word (c ∷ cs) = let rest = word cs in if is_space c then [] else c ∷ rest

unfoldable pub behind_word : String → String
behind_word [] = []
behind_word (c ∷ cs) = let rest = behind_word cs in if is_space c then c ∷ cs else rest

-- `stream >> variable`: at the end of the stream the variable keeps its value.
abbrev pub extracted : String → String → String × String
extracted [] variable = (variable, [])
extracted (c ∷ cs) variable = (word (c ∷ cs), behind_word (c ∷ cs))

abbrev pub extract : String → String → String × String
extract stream variable = extracted (skip_space stream) variable

-- `line.substr(1, line.find(']') - 1)`; without a ']' the number is npos - 1.
abbrev pub section_of : Option ℕ → String → String
section_of none line = drop 1 line
section_of (some i) line = take (i - 1) (drop 1 line)

abbrev pub read_entry : String → Reader → Reader
read_entry line r =
    let (name, rest) = extract line r.name in
    let (val, rest') = extract rest r.val in
    record {
      name = name;
      val = val;
      in_section = r.in_section;
      content = insert_value r.in_section name val r.content;
    }

-- A line that was cut and trimmed.
abbrev pub read_trimmed : String → Reader → Reader
read_trimmed [] r = r
read_trimmed (c ∷ cs) r =
    if c == b'['
    then record r {
      in_section = trim (section_of (find_first (λ d. d == b']') (c ∷ cs)) (c ∷ cs)) blanks;
    }
    else read_entry (c ∷ cs) r

unfoldable pub read_line : String → Reader → Reader
read_line [] r = r
read_line (c ∷ cs) r =
    if c == b'#' then r else read_trimmed (trim (truncate (c ∷ cs) (b'#' ∷ [])) blanks) r

unfoldable pub read_lines : List String → Reader → Reader
read_lines [] r = r
read_lines (line ∷ lines) r = read_lines lines (read_line line r)

abbrev pub onto : ℕ → List String → List String
onto c [] = (c ∷ []) ∷ []
onto c (line ∷ lines) = (c ∷ line) ∷ lines

-- What `std::getline` reads.
unfoldable pub lines_of : String → List String
lines_of [] = []
lines_of (c ∷ cs) = let rest = lines_of cs in if c == b'\n' then [] ∷ rest else onto c rest

-- `read`; none is a file that cannot be opened. The values that were there stay.
unfoldable pub read : Option String → List Entry → Bool × List Entry
read none content = (false, content)
read (some file) content = (
  true,
  (read_lines (lines_of file)
      (record { name = []; val = []; in_section = []; content = content })).content,
)
