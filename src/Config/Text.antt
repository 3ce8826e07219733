-- ===== src/Config/Text.antt =====
-- `trim` and `truncate` of Source/ConfigFile/ConfigFile.cpp.
use se_navi_common.Common.{
  ℕ, ◌+◌, ◌≡◌, refl, ap, sym, ◌∙◌, Bool, true, false, not, [], ◌∷◌, ◌++◌, append_assoc, append-nil,
  none, some, take, length, All, drop-append_length, take-append_length, length-append,
}
use se_navi_common.Config.{
  String, has, find_first, find_last, erase_behind, erase_before, cut_at, trim, truncate,
}

-- Every character is one of the list, or none is.
abbrev pub Inside : String → String → Type 0
Inside delims s = All (λ c. has c delims ≡ true) s

abbrev pub Outside : String → String → Type 0
Outside delims s = All (λ c. has c delims ≡ false) s

pub find_first_here :
    (test : ℕ → Bool) (front : String) (c : ℕ) (rest : String)
    → All (λ d. test d ≡ false) front
    → test c ≡ true
    → find_first test (front ++ (c ∷ rest)) ≡ some (length front)
unfolding find_first
find_first_here test [] c rest all e = rw e refl
find_first_here test (x ∷ front) c rest all e =
    rw (all.0, find_first_here test front c rest all.1 e) refl

nothing_first :
    (test : ℕ → Bool) (s : String) → All (λ d. test d ≡ false) s → find_first test s ≡ none
unfolding find_first
nothing_first test [] all = refl
nothing_first test (x ∷ s) all = rw (all.0, nothing_first test s all.1) refl

nothing_last :
    (test : ℕ → Bool) (s : String) → All (λ d. test d ≡ false) s → find_last test s ≡ none
unfolding find_last
nothing_last test [] all = refl
nothing_last test (x ∷ s) all = rw (all.0, nothing_last test s all.1) refl

find_last_here :
    (test : ℕ → Bool) (init : String) (c : ℕ) (back : String)
    → All (λ d. test d ≡ false) back
    → test c ≡ true
    → find_last test (init ++ (c ∷ back)) ≡ some (length init)
unfolding find_last
find_last_here test [] c back all e = rw (e, nothing_last test back all) refl
find_last_here test (x ∷ init) c back all e = rw (find_last_here test init c back all e) refl

take-append_suc :
    (xs : String) (c : ℕ) (ys : String) → take (length xs + 1) (xs ++ (c ∷ ys)) ≡ xs ++ (c ∷ [])
take-append_suc xs c ys =
    ap (take (length xs + 1)) (sym (append_assoc xs (c ∷ []) ys))
    ∙ ap (λ n. take n ((xs ++ (c ∷ [])) ++ ys)) (sym (length-append xs (c ∷ [])))
    ∙ take-append_length (xs ++ (c ∷ [])) ys

wanted_none : (delims s : String) → Inside delims s → All (λ c. not (has c delims) ≡ false) s
wanted_none delims [] all = tt
wanted_none delims (c ∷ s) all = (ap not all.0, wanted_none delims s all.1)

trims_all : (delims s : String) → Inside delims s → trim s delims ≡ []
unfolding trim
trims_all delims s all =
    let wanted : ℕ → Bool = λ c. not (has c delims) in
    rw
      (
        nothing_last wanted s (wanted_none delims s all),
        nothing_first wanted s (wanted_none delims s all),
      )
      refl

trim_core :
    (delims front : String) (c : ℕ) (cs init : String) (d : ℕ) (back : String)
    → Inside delims front
    → Inside delims back
    → has c delims ≡ false
    → has d delims ≡ false
    → c ∷ cs ≡ init ++ (d ∷ [])
    → trim (front ++ ((c ∷ cs) ++ back)) delims ≡ c ∷ cs
unfolding trim
trim_core delims front c cs init d back fs bs hc hd e =
    let wanted : ℕ → Bool = λ c. not (has c delims) in
    let cut : erase_behind (find_last wanted (front ++ ((c ∷ cs) ++ back)))
          (front ++ ((c ∷ cs) ++ back))
        ≡ front ++ (c ∷ cs) =
      ap (λ s. erase_behind (find_last wanted s) s)
        (ap (λ s. front ++ (s ++ back)) e
          ∙ ap (λ s. front ++ s) (append_assoc init (d ∷ []) back)
          ∙ sym (append_assoc front init (d ∷ back)))
      ∙ ap (λ i. erase_behind i ((front ++ init) ++ (d ∷ back)))
          (find_last_here wanted (front ++ init) d back (wanted_none delims back bs) (ap not hd))
      ∙ take-append_suc (front ++ init) d back
      ∙ append_assoc front init (d ∷ [])
      ∙ ap (λ s. front ++ s) (sym e) in
    ap (λ s. erase_before (find_first wanted s) s) cut
    ∙ ap (λ i. erase_before i (front ++ (c ∷ cs)))
        (find_first_here wanted front c cs (wanted_none delims front fs) (ap not hc))
    ∙ drop-append_length front (c ∷ cs)

both_Inside : (delims s t : String) → Inside delims s → Inside delims t → Inside delims (s ++ t)
both_Inside delims [] t a b = b
both_Inside delims (c ∷ s) t a b = (a.0, both_Inside delims s t a.1 b)

-- Of a text with delimiters in front and behind, trim leaves what begins and ends with other
-- characters; of that alone it leaves all, and of delimiters alone it leaves nothing.
pub trim_lem :
    (delims front : String) (c : ℕ) (cs init : String) (d : ℕ) (back : String)
    → Inside delims front
    → Inside delims back
    → has c delims ≡ false
    → has d delims ≡ false
    → c ∷ cs ≡ init ++ (d ∷ [])
    → (trim (front ++ ((c ∷ cs) ++ back)) delims ≡ c ∷ cs)
      × ((trim (c ∷ cs) delims ≡ c ∷ cs) × (trim (front ++ back) delims ≡ []))
trim_lem delims front c cs init d back fs bs hc hd e = (
  trim_core delims front c cs init d back fs bs hc hd e,
  (
    ap (λ s. trim (c ∷ s) delims) (sym (append-nil cs))
        ∙ trim_core delims [] c cs init d [] tt tt hc hd e,
    trims_all delims (front ++ back) (both_Inside delims front back fs bs),
  ),
)

cuts_here : (s : String) (c : ℕ) (rest : String) → cut_at (some (length s)) (s ++ (c ∷ rest)) ≡ s
cuts_here [] c rest = refl
cuts_here (x ∷ s) c rest = take-append_length (x ∷ s) (c ∷ rest)

-- A text is cut at its first delimiter, and left where it has none.
pub truncate_lem :
    (at_char s : String) (c : ℕ) (rest : String)
    → Outside at_char s
    → has c at_char ≡ true
    → (truncate s at_char ≡ s) × (truncate (s ++ (c ∷ rest)) at_char ≡ s)
unfolding truncate
truncate_lem at_char s c rest out e =
    let test : ℕ → Bool = λ d. has d at_char in
    (
      ap (λ i. cut_at i s) (nothing_first test s out),
      ap (λ i. cut_at i (s ++ (c ∷ rest))) (find_first_here test s c rest out e)
          ∙ cuts_here s c rest,
    )
