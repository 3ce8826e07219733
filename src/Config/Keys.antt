-- ===== src/Config/Keys.antt =====
-- The keys in the map of Source/ConfigFile/ConfigFile.cpp.
use se_navi_common.Common.{
  ℕ, ◌≡◌, refl, ap, ap₂, ◌∙◌, subst, sym, true, false, ◌==◌, Bool-cases, inl, inr, List, [], ◌∷◌,
  ◌++◌, Option, none, some, All, arith,
}
use se_navi_common.Config.{
  String, lower, to_lower, has, equals, less, Entry, assign, find, key_of, insert_value, value,
  insert_new, value_or, value_default, read, read_lines, read_line, read_trimmed, read_entry,
  Reader, trim, truncate, blanks, lines_of,
}
use se_navi_common.Config.Values.{equals→≡}

less_trans : (a b c : String) → less a b ≡ true → less b c ≡ true → less a c ≡ true
unfolding less
less_trans [] [] c h k = k
less_trans [] (y ∷ b) [] h k = k
less_trans [] (y ∷ b) (z ∷ c) h k = refl
less_trans (x ∷ a) [] c h k = cc h
less_trans (x ∷ a) (y ∷ b) [] h k = cc k
less_trans (x ∷ a) (y ∷ b) (z ∷ c) h k = let rest = less_trans a b c in ground arith

less_total : (a b : String) → equals a b ≡ false → less a b ≡ false → less b a ≡ true
unfolding less equals
less_total [] [] h k = cc h
less_total [] (y ∷ b) h k = cc k
less_total (x ∷ a) [] h k = refl
less_total (x ∷ a) (y ∷ b) h k = let rest = less_total a b in ground arith

abbrev pub Below : String → List Entry → Type 0
Below key m = All (λ (e : Entry). less key e.key ≡ true) m

abbrev pub Sorted : List Entry → Type 0
Sorted [] = Unit
Sorted (e ∷ m) = Below e.key m × Sorted m

Below-less : (j k : String) (m : List Entry) → less j k ≡ true → Below k m → Below j m
Below-less j k [] h all = tt
Below-less j k (e ∷ m) h all = (less_trans j k e.key h all.0, Below-less j k m h all.1)

Below-assign :
    (j k v : String) (m : List Entry) → less j k ≡ true → Below j m → Below j (assign k v m)
unfolding assign
Below-assign j k v [] h all = (h, tt)
Below-assign j k v (e ∷ m) h all = elim (Bool-cases (equals k e.key)) [
  | inl q ↦ rw q (h, all.1)
  | inr q ↦ elim (Bool-cases (less k e.key)) [
    | inl l ↦ rw (q, l) (h, all)
    | inr l ↦ rw (q, l) (all.0, Below-assign j k v m h all.1)
  ]
]

assign-Sorted : (k v : String) (m : List Entry) → Sorted m → Sorted (assign k v m)
unfolding assign
assign-Sorted k v [] wf = (tt, tt)
assign-Sorted k v (e ∷ m) wf = elim (Bool-cases (equals k e.key)) [
  | inl q ↦ rw q (subst (λ i. Below i m) (sym (equals→≡ k e.key q)) wf.0, wf.1)
  | inr q ↦ elim (Bool-cases (less k e.key)) [
    | inl l ↦ rw (q, l) ((l, Below-less k e.key m l wf.0), wf)
    | inr l ↦
        rw (q, l) (Below-assign e.key k v m (less_total k e.key q l) wf.0, assign-Sorted k v m wf.1)
  ]
]

insert_new-Sorted :
    (o : Option String) (k d : String) (m : List Entry) → Sorted m → Sorted (insert_new o k d m).1
insert_new-Sorted none k d m wf = assign-Sorted k d m wf
insert_new-Sorted (some old) k d m wf = wf

value_or-Sorted :
    (o : Option String) (s e d : String) (m : List Entry) → Sorted m → Sorted (value_or o s e d m).1
value_or-Sorted none s e d m wf =
    insert_new-Sorted (find (s ++ (b'/' ∷ e)) m) (s ++ (b'/' ∷ e)) d m wf
value_or-Sorted (some v) s e d m wf = wf

-- What every `insertValue` keeps of the map, the reading of a file keeps.
module _ (Kept : List Entry → Type 0)
    (inserted : (s e v : String) (m : List Entry) → Kept m → Kept (insert_value s e v m)) where
  read_trimmed-Kept :
      (line : String) (r : Reader) → Kept r.content → Kept (read_trimmed line r).content
  read_trimmed-Kept [] r wf = wf
  read_trimmed-Kept (c ∷ cs) r wf = elim (Bool-cases (c == b'[')) [
    | inl q ↦ rw q wf
    | inr q ↦ rw q (
        inserted r.in_section (read_entry (c ∷ cs) r).name (read_entry (c ∷ cs) r).val r.content wf)
  ]

  read_line-Kept : (line : String) (r : Reader) → Kept r.content → Kept (read_line line r).content
  unfolding read_line
  read_line-Kept [] r wf = wf
  read_line-Kept (c ∷ cs) r wf = elim (Bool-cases (c == b'#')) [
    | inl q ↦ rw q wf
    | inr q ↦ rw q (read_trimmed-Kept (trim (truncate (c ∷ cs) (b'#' ∷ [])) blanks) r wf)
  ]

  read_lines-Kept :
      (lines : List String) (r : Reader) → Kept r.content → Kept (read_lines lines r).content
  unfolding read_lines
  read_lines-Kept [] r wf = wf
  read_lines-Kept (line ∷ lines) r wf =
      read_lines-Kept lines (read_line line r) (read_line-Kept line r wf)

  read-Kept : (file : Option String) (m : List Entry) → Kept m → Kept (read file m).1
  unfolding read
  read-Kept none m wf = wf
  read-Kept (some file) m wf =
      read_lines-Kept (lines_of file) (record { name = []; val = []; in_section = []; content = m })
        wf

-- A key is in lower case and has a slash.
abbrev pub IsKey : String → Type 0
IsKey key = (to_lower key ≡ key) × (has b'/' key ≡ true)

-- The entries are in the strict order of their keys, which are all keys in this sense.
abbrev pub WellKeyed : List Entry → Type 0
WellKeyed m = Sorted m × All (λ (e : Entry). IsKey e.key) m

assign-IsKey :
    (k v : String) (m : List Entry)
    → IsKey k
    → All (λ (e : Entry). IsKey e.key) m
    → All (λ (e : Entry). IsKey e.key) (assign k v m)
unfolding assign
assign-IsKey k v [] good all = (good, tt)
assign-IsKey k v (e ∷ m) good all = elim (Bool-cases (equals k e.key)) [
  | inl q ↦ rw q (good, all.1)
  | inr q ↦ elim (Bool-cases (less k e.key)) [
    | inl l ↦ rw (q, l) (good, all)
    | inr l ↦ rw (q, l) (all.0, assign-IsKey k v m good all.1)
  ]
]

lower_again : (c : ℕ) → lower (lower c) ≡ lower c
lower_again c = ground arith

to_lower_again : (s : String) → to_lower (to_lower s) ≡ to_lower s
unfolding to_lower
to_lower_again [] = refl
to_lower_again (c ∷ cs) = ap₂ (λ x xs. x ∷ xs) (lower_again c) (to_lower_again cs)

to_lower-append : (s t : String) → to_lower (s ++ t) ≡ to_lower s ++ to_lower t
unfolding to_lower
to_lower-append [] t = refl
to_lower-append (c ∷ s) t = ap (λ x. lower c ∷ x) (to_lower-append s t)

has_behind : (s t : String) → has b'/' (s ++ (b'/' ∷ t)) ≡ true
unfolding has
has_behind [] t = refl
has_behind (c ∷ s) t = elim (Bool-cases (b'/' == c)) [
  | inl q ↦ rw q refl
  | inr q ↦ rw q (has_behind s t)
]

-- A section and an entry in lower case make a key.
joined-IsKey : (s e : String) → to_lower s ≡ s → to_lower e ≡ e → IsKey (s ++ (b'/' ∷ e))
unfolding to_lower
joined-IsKey s e ls le =
    (to_lower-append s (b'/' ∷ e) ∙ ap₂ (λ x y. x ++ (b'/' ∷ y)) ls le, has_behind s e)

insert_value-WellKeyed :
    (s e v : String) (m : List Entry) → WellKeyed m → WellKeyed (insert_value s e v m)
unfolding insert_value
insert_value-WellKeyed s e v m wf = (
  assign-Sorted (key_of s e) v m wf.0,
  assign-IsKey (key_of s e) v m
      (joined-IsKey (to_lower s) (to_lower e) (to_lower_again s) (to_lower_again e)) wf.1,
)

insert_new-IsKey :
    (o : Option String) (k d : String) (m : List Entry)
    → IsKey k
    → All (λ (x : Entry). IsKey x.key) m
    → All (λ (x : Entry). IsKey x.key) (insert_new o k d m).1
insert_new-IsKey none k d m good all = assign-IsKey k d m good all
insert_new-IsKey (some old) k d m good all = all

value_or-IsKey :
    (o : Option String) (s e d : String) (m : List Entry)
    → IsKey (s ++ (b'/' ∷ e))
    → All (λ (x : Entry). IsKey x.key) m
    → All (λ (x : Entry). IsKey x.key) (value_or o s e d m).1
value_or-IsKey (some v) s e d m good all = all
value_or-IsKey none s e d m good all =
    insert_new-IsKey (find (s ++ (b'/' ∷ e)) m) (s ++ (b'/' ∷ e)) d m good all

-- If the values are in the strict order of their keys, so that no key is there twice, and every
-- key is in lower case and has a '/', this holds after insertValue with any section and entry,
-- after the reading of any file, and after a lookup with a default of which the section and the
-- entry are in lower case.
pub content-WellKeyed :
    (s e v low_s low_e : String) (file : Option String) (m : List Entry)
    → to_lower low_s ≡ low_s
    → to_lower low_e ≡ low_e
    → WellKeyed m
    → WellKeyed (insert_value s e v m)
      × (WellKeyed (value_default low_s low_e v m).1 × WellKeyed (read file m).1)
unfolding value_default
content-WellKeyed s e v low_s low_e file m ls le wf = (
  insert_value-WellKeyed s e v m wf,
  (
    (
      value_or-Sorted (value low_s low_e m) low_s low_e v m wf.0,
      value_or-IsKey (value low_s low_e m) low_s low_e v m (joined-IsKey low_s low_e ls le) wf.1,
    ),
    read-Kept WellKeyed insert_value-WellKeyed file m wf,
  ),
)
