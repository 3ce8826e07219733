-- ===== src/Config/Reading.antt =====
-- Reading a file with `read` of Source/ConfigFile/ConfigFile.cpp.
use se_navi_common.Common.{
  ℕ, suc, ◌≡◌, refl, ap, ap₂, sym, ◌∙◌, Bool, true, false, not, ◌||◌, ◌==◌, List, [], ◌∷◌, ◌++◌,
  append_assoc, some, take, length, All, arith, take-append_length,
}
use se_navi_common.Config.{
  String, Entry, Reader, has, blanks, find_first, trim, insert_value, is_space, skip_space, word,
  behind_word, extract, section_of, read_entry, read_trimmed, read_line, read_lines, lines_of, read,
}
use se_navi_common.Config.Values.{or-false}
use se_navi_common.Config.Text.{Outside, find_first_here, trim_lem, truncate_lem}

-- A character of a word: neither white space nor the beginning of a comment.
abbrev pub plain : ℕ → Bool
plain c = not (is_space c || c == b'#')

abbrev pub Plain : String → Type 0
Plain s = All (λ c. plain c ≡ true) s

-- A line that sets the section, or a line with the first characters of two words and the rest of them.
pub data Item : Type 0 where
  section : String → Item
  entry : ℕ → String → ℕ → String → Item

unfoldable pub print_item : Item → String
print_item (section s) = b'[' ∷ s ++ (b']' ∷ [])
print_item (entry c cs d ds) = (c ∷ cs) ++ (b' ' ∷ d ∷ ds)

unfoldable pub print_items : List Item → String
print_items [] = []
print_items (i ∷ items) = print_item i ++ (b'\n' ∷ print_items items)

-- What can be read back: a section's name without the characters ']', '#' and '\n' and without
-- blanks at its ends, or two words, of which the first does not begin with '['.
abbrev pub Readable : Item → Type 0
Readable (section s) = Outside (b']' ∷ b'#' ∷ b'\n' ∷ []) s × (trim s blanks ≡ s)
Readable (entry c cs d ds) = ((c == b'[') ≡ false) × (Plain (c ∷ cs) × Plain (d ∷ ds))

-- What the items store.
unfoldable pub store_items : List Item → String → List Entry → List Entry
store_items [] s m = m
store_items (section s ∷ items) old m = store_items items s m
store_items (entry c cs d ds ∷ items) s m = store_items items s (insert_value s (c ∷ cs) (d ∷ ds) m)

plain_blank : (c : ℕ) → plain c ≡ true → has c blanks ≡ false
unfolding has
plain_blank c h = ground arith

plain_hash : (c : ℕ) → plain c ≡ true → (c == b'#') ≡ false
plain_hash c h = ground arith

plain_space : (c : ℕ) → plain c ≡ true → is_space c ≡ false
plain_space c h = ground arith

plain_line : (c : ℕ) → plain c ≡ true → (c == b'\n') ≡ false
plain_line c h = ground arith

whole_word : (s : String) → Plain s → word s ≡ s
unfolding word
whole_word [] p = refl
whole_word (c ∷ cs) p = rw (plain_space c p.0, whole_word cs p.1) refl

nothing_behind : (s : String) → Plain s → behind_word s ≡ []
unfolding behind_word
nothing_behind [] p = refl
nothing_behind (c ∷ cs) p = rw (plain_space c p.0, nothing_behind cs p.1) refl

word-append : (s rest : String) → Plain s → word (s ++ (b' ' ∷ rest)) ≡ s
unfolding word
word-append [] rest p = refl
word-append (c ∷ cs) rest p = rw (plain_space c p.0, word-append cs rest p.1) refl

behind-append : (s rest : String) → Plain s → behind_word (s ++ (b' ' ∷ rest)) ≡ b' ' ∷ rest
unfolding behind_word
behind-append [] rest p = refl
behind-append (c ∷ cs) rest p = rw (plain_space c p.0, behind-append cs rest p.1) refl

skip_plain : (c : ℕ) (cs : String) → plain c ≡ true → skip_space (c ∷ cs) ≡ c ∷ cs
unfolding skip_space
skip_plain c cs p = rw (plain_space c p) refl

extract_last : (c : ℕ) (cs old : String) → Plain (c ∷ cs) → extract (c ∷ cs) old ≡ (c ∷ cs, [])
extract_last c cs old p =
    rw (skip_plain c cs p.0)
      (ap₂ (λ a b. (a, b)) (whole_word (c ∷ cs) p) (nothing_behind (c ∷ cs) p))

extract_first :
    (c : ℕ) (cs rest old : String)
    → Plain (c ∷ cs)
    → extract ((c ∷ cs) ++ (b' ' ∷ rest)) old ≡ (c ∷ cs, b' ' ∷ rest)
extract_first c cs rest old p =
    rw (skip_plain c (cs ++ (b' ' ∷ rest)) p.0)
      (ap₂ (λ a b. (a, b)) (word-append (c ∷ cs) rest p) (behind-append (c ∷ cs) rest p))

lines_of_line :
    (line rest : String)
    → All (λ c. (c == b'\n') ≡ false) line
    → lines_of (line ++ (b'\n' ∷ rest)) ≡ line ∷ lines_of rest
unfolding lines_of
lines_of_line [] rest all = refl
lines_of_line (c ∷ line) rest all = rw (all.0, lines_of_line line rest all.1) refl

lines_of_append :
    (s t rest : String)
    → All (λ c. (c == b'\n') ≡ false) s
    → All (λ c. (c == b'\n') ≡ false) t
    → All (λ c. (c == b'\n') ≡ false) (s ++ t)
lines_of_append [] t rest a b = b
lines_of_append (c ∷ s) t rest a b = (a.0, lines_of_append s t rest a.1 b)

both_Outside : (delims s t : String) → Outside delims s → Outside delims t → Outside delims (s ++ t)
both_Outside delims [] t a b = b
both_Outside delims (c ∷ s) t a b = (a.0, both_Outside delims s t a.1 b)

word_Outside : (s : String) → Plain s → Outside (b'#' ∷ []) s
unfolding has
word_Outside [] p = tt
word_Outside (c ∷ s) p = (rw (plain_hash c p.0) refl, word_Outside s p.1)

word_lines : (s : String) → Plain s → All (λ c. (c == b'\n') ≡ false) s
word_lines [] p = tt
word_lines (c ∷ s) p = (plain_line c p.0, word_lines s p.1)

-- The last character of a word.
last_plain :
    (c : ℕ) (cs : String)
    → Plain (c ∷ cs)
    → (init : String) × ((d : ℕ) × ((c ∷ cs ≡ init ++ (d ∷ [])) × (plain d ≡ true)))
last_plain c [] p = ([], (c, (refl, p.0)))
last_plain c (x ∷ cs) p =
    let (init, (d, (e, q))) = last_plain x cs p.1 in (c ∷ init, (d, (ap (λ s. c ∷ s) e, q)))

read_line_clean :
    (c : ℕ) (cs init : String) (d : ℕ) (r : Reader)
    → Outside (b'#' ∷ []) (c ∷ cs)
    → has c blanks ≡ false
    → has d blanks ≡ false
    → c ∷ cs ≡ init ++ (d ∷ [])
    → read_line (c ∷ cs) r ≡ read_trimmed (c ∷ cs) r
unfolding read_line has
read_line_clean c cs init d r out hc hd e = rw (or-false (c == b'#') false out.0).0 (
    ap (λ s. read_trimmed (trim s blanks) r) (truncate_lem (b'#' ∷ []) (c ∷ cs) b'#' [] out refl).0
    ∙ ap (λ s. read_trimmed s r) (trim_lem blanks [] c cs init d [] tt tt hc hd e).1.0)

-- What `read` has after an entry, given the rest of the line behind the name.
abbrev with_val : Reader → String × String → Reader
with_val r x =
    let (val, rest) = extract x.1 r.val in
    record {
      name = x.0;
      val = val;
      in_section = r.in_section;
      content = insert_value r.in_section x.0 val r.content;
    }

abbrev with_both : Reader → String → String × String → Reader
with_both r name y = record {
  name = name;
  val = y.0;
  in_section = r.in_section;
  content = insert_value r.in_section name y.0 r.content;
}

read_two :
    (c : ℕ) (cs : String) (d : ℕ) (ds : String) (r : Reader)
    → Plain (c ∷ cs)
    → Plain (d ∷ ds)
    → read_entry ((c ∷ cs) ++ (b' ' ∷ d ∷ ds)) r ≡ record {
      name = c ∷ cs;
      val = d ∷ ds;
      in_section = r.in_section;
      content = insert_value r.in_section (c ∷ cs) (d ∷ ds) r.content;
    }
unfolding skip_space
read_two c cs d ds r p q =
    ap (with_val r) (extract_first c cs (d ∷ ds) r.name p)
    ∙ ap (with_both r (c ∷ cs)) (extract_last d ds r.val q)

-- A line that is one word, without white space and without '#', and that does not begin with a
-- bracket, stores for that entry the value of the line before it, in the section.
pub read_line_stale :
    (c : ℕ) (cs : String) (r : Reader)
    → (c == b'[') ≡ false
    → Plain (c ∷ cs)
    → read_line (c ∷ cs) r ≡ record {
      name = c ∷ cs;
      val = r.val;
      in_section = r.in_section;
      content = insert_value r.in_section (c ∷ cs) r.val r.content;
    }
unfolding skip_space
read_line_stale c cs r h p =
    let (init, (d, (e, q))) = last_plain c cs p in
    read_line_clean c cs init d r (word_Outside (c ∷ cs) p) (plain_blank c p.0) (plain_blank d q) e
    ∙ rw h (ap (with_val r) (extract_last c cs r.name p))

read_line_entry :
    (c : ℕ) (cs : String) (d : ℕ) (ds : String) (r : Reader)
    → Readable (entry c cs d ds)
    → read_line (print_item (entry c cs d ds)) r ≡ record {
      name = c ∷ cs;
      val = d ∷ ds;
      in_section = r.in_section;
      content = insert_value r.in_section (c ∷ cs) (d ∷ ds) r.content;
    }
unfolding print_item has
read_line_entry c cs d ds r (h, (p, q)) =
    let (init, (l, (e, z))) = last_plain d ds q in
    read_line_clean c (cs ++ (b' ' ∷ d ∷ ds)) ((c ∷ cs) ++ (b' ' ∷ init)) l r
      (both_Outside (b'#' ∷ []) (c ∷ cs) (b' ' ∷ d ∷ ds) (word_Outside (c ∷ cs) p)
        (refl, word_Outside (d ∷ ds) q))
      (plain_blank c p.0) (plain_blank l z)
      (ap (λ s. (c ∷ cs) ++ (b' ' ∷ s)) e ∙ sym (append_assoc (c ∷ cs) (b' ' ∷ init) (l ∷ [])))
    ∙ rw h (read_two c cs d ds r p q)

no_bracket : (s : String) → Outside (b']' ∷ b'#' ∷ b'\n' ∷ []) s → All (λ c. (c == b']') ≡ false) s
unfolding has
no_bracket [] out = tt
no_bracket (c ∷ s) out = ((or-false (c == b']') _ out.0).0, no_bracket s out.1)

no_hash : (s : String) → Outside (b']' ∷ b'#' ∷ b'\n' ∷ []) s → Outside (b'#' ∷ []) s
unfolding has
no_hash [] out = tt
no_hash (c ∷ s) out =
    let h = or-false (c == b'#') _ (or-false (c == b']') _ out.0).1 in
    (rw h.0 refl, no_hash s out.1)

no_line : (s : String) → Outside (b']' ∷ b'#' ∷ b'\n' ∷ []) s → All (λ c. (c == b'\n') ≡ false) s
unfolding has
no_line [] out = tt
no_line (c ∷ s) out =
    let h = or-false (c == b'#') _ (or-false (c == b']') _ out.0).1 in
    ((or-false (c == b'\n') false h.1).0, no_line s out.1)

section_of_line :
    (s : String)
    → Outside (b']' ∷ b'#' ∷ b'\n' ∷ []) s
    → find_first (λ d. d == b']') (b'[' ∷ s ++ (b']' ∷ [])) ≡ some (suc (length s))
unfolding has
section_of_line s out =
    find_first_here (λ d. d == b']') (b'[' ∷ s) b']' [] (refl, no_bracket s out) refl

read_line_section :
    (s : String) (r : Reader)
    → Readable (section s)
    → read_line (print_item (section s)) r ≡ record r { in_section = s }
unfolding print_item has
read_line_section s r (out, t) =
    read_line_clean b'[' (s ++ (b']' ∷ [])) (b'[' ∷ s) b']' r
      (refl, both_Outside (b'#' ∷ []) s (b']' ∷ []) (no_hash s out) (refl, tt)) refl refl refl
    ∙ ap (λ i. record r { in_section = trim (section_of i (b'[' ∷ s ++ (b']' ∷ []))) blanks })
        (section_of_line s out)
    ∙ ap (λ n. record r { in_section = trim (take n (s ++ (b']' ∷ []))) blanks }) (omega arith)
    ∙ ap (λ n. record r { in_section = trim n blanks }) (take-append_length s (b']' ∷ []))
    ∙ ap (λ n. record r { in_section = n }) t

item_line : (i : Item) → Readable i → All (λ c. (c == b'\n') ≡ false) (print_item i)
unfolding print_item
item_line (section s) (out, t) = (refl, lines_of_append s (b']' ∷ []) [] (no_line s out) (refl, tt))
item_line (entry c cs d ds) (h, (p, q)) =
    lines_of_append (c ∷ cs) (b' ' ∷ d ∷ ds) [] (word_lines (c ∷ cs) p)
      (refl, word_lines (d ∷ ds) q)

abbrev after_item : Item → Reader → Reader
after_item (section s) r = record r { in_section = s }
after_item (entry c cs d ds) r = with_both r (c ∷ cs) (d ∷ ds, [])

read_item : (i : Item) (r : Reader) → Readable i → read_line (print_item i) r ≡ after_item i r
read_item (section s) r h = read_line_section s r h
read_item (entry c cs d ds) r h = read_line_entry c cs d ds r h

store_item :
    (i : Item) (items : List Item) (r : Reader)
    → store_items items (after_item i r).in_section (after_item i r).content
      ≡ store_items (i ∷ items) r.in_section r.content
unfolding store_items
store_item (section s) items r = refl
store_item (entry c cs d ds) items r = refl

reads_items :
    (items : List Item) (r : Reader)
    → All Readable items
    → (read_lines (lines_of (print_items items)) r).content
      ≡ store_items items r.in_section r.content
unfolding print_items lines_of read_lines store_items
reads_items [] r all = refl
reads_items (i ∷ items) r all =
    ap (λ ls. (read_lines ls r).content)
      (lines_of_line (print_item i) (print_items items) (item_line i all.0))
    ∙ ap (λ r'. (read_lines (lines_of (print_items items)) r').content) (read_item i r all.0)
    ∙ reads_items items (after_item i r) all.1
    ∙ store_item i items r

-- A file of lines that each give a section in brackets, or an entry and its value, is read
-- completely: read returns true, and the values are those that insertValue stores for the
-- entries, in the order of the lines and each in the section of the last section line above it.
-- A section's name has no bracket that closes, no '#', no line end and no blank at its ends; an
-- entry and its value have no white space and no '#', and an entry does not begin with a
-- bracket.
pub read-print_items :
    (items : List Item) (m : List Entry)
    → All Readable items
    → read (some (print_items items)) m ≡ (true, store_items items [] m)
unfolding read
read-print_items items m all =
    ap (λ c. (true, c))
      (reads_items items (record { name = []; val = []; in_section = []; content = m }) all)
