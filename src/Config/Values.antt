-- ===== src/Config/Values.antt =====
-- The map of values of Source/ConfigFile/ConfigFile.cpp.
use se_navi_common.Common.{
  ℕ, ◌≡◌, refl, ap, ap₂, sym, ◌∙◌, Bool, true, false, ◌&&◌, ◌||◌, ◌==◌, ==_refl, ==_iff, Bool-cases,
  inl, inr, if◌then◌else◌, List, [], ◌∷◌, ◌++◌, Option, none, some, arith,
}
use se_navi_common.Config.{
  String, lower, to_lower, has, equals, less, Entry, assign, find, key_of, insert_value, value,
  insert_new, value_or, value_default,
}

pub or-false : (a b : Bool) → a || b ≡ false → (a ≡ false) × (b ≡ false)
or-false true b h = cc h
or-false false b h = (refl, h)

and-true : (a b : Bool) → a && b ≡ true → (a ≡ true) × (b ≡ true)
and-true true b h = (refl, h)
and-true false b h = cc h

and_assoc : (a b c : Bool) → a && (b && c) ≡ (a && b) && c
and_assoc true b c = refl
and_assoc false b c = refl

==_comm : (a b : ℕ) → (a == b) ≡ (b == a)
==_comm a b = ground arith

equals_refl : (s : String) → equals s s ≡ true
unfolding equals
equals_refl [] = refl
equals_refl (c ∷ s) = rw (==_refl c, equals_refl s) refl

pub equals→≡ : (s t : String) → equals s t ≡ true → s ≡ t
unfolding equals
equals→≡ [] [] h = refl
equals→≡ [] (d ∷ t) h = cc h
equals→≡ (c ∷ s) [] h = cc h
equals→≡ (c ∷ s) (d ∷ t) h =
    let both = and-true (c == d) (equals s t) h in
    ap₂ (λ x y. x ∷ y) ((==_iff c d).0 both.0) (equals→≡ s t both.1)

find-assign : (k v : String) (m : List Entry) → find k (assign k v m) ≡ some v
unfolding find assign
find-assign k v [] = rw (equals_refl k) refl
find-assign k v (e ∷ m) = elim (Bool-cases (equals k e.key)) [
  | inl h ↦ rw (h, equals_refl k) refl
  | inr h ↦ elim (Bool-cases (less k e.key)) [
    | inl l ↦ rw (h, l, equals_refl k) refl
    | inr l ↦ rw (h, l, h) (find-assign k v m)
  ]
]

find-assign_other :
    (j k v : String) (m : List Entry) → equals j k ≡ false → find j (assign k v m) ≡ find j m
unfolding find assign
find-assign_other j k v [] n = rw n refl
find-assign_other j k v (e ∷ m) n = elim (Bool-cases (equals k e.key)) [
  | inl h ↦ rw (h, n, sym (ap (equals j) (equals→≡ k e.key h)), n) refl
  | inr h ↦ elim (Bool-cases (less k e.key)) [
    | inl l ↦ rw (h, l, n) refl
    | inr l ↦ rw (h, l, find-assign_other j k v m n) refl
  ]
]

lower_slash : (c : ℕ) → (b'/' == lower c) ≡ (b'/' == c)
lower_slash c = ground arith

has_slash : (s : String) → has b'/' (to_lower s) ≡ has b'/' s
unfolding has to_lower
has_slash [] = refl
has_slash (c ∷ s) = rw (lower_slash c, has_slash s) refl

equals-append :
    (c : ℕ) (a b a' b' : String)
    → has c a ≡ false
    → has c a' ≡ false
    → equals (a ++ (c ∷ b)) (a' ++ (c ∷ b')) ≡ equals a a' && equals b b'
unfolding equals has
equals-append c [] b [] b' h h' = rw (==_refl c) refl
equals-append c [] b (d ∷ a') b' h h' = rw (or-false (c == d) (has c a') h').0 refl
equals-append c (x ∷ a) b [] b' h h' = rw (==_comm x c, (or-false (c == x) (has c a) h).0) refl
equals-append c (x ∷ a) b (d ∷ a') b' h h' =
    rw
      (equals-append c a b a' b' (or-false (c == x) (has c a) h).1
        (or-false (c == d) (has c a') h').1)
      (and_assoc (x == d) (equals a a') (equals b b'))

equals-key_of :
    (s e s' e' : String)
    → has b'/' s ≡ false
    → has b'/' s' ≡ false
    → equals (key_of s e) (key_of s' e')
      ≡ equals (to_lower s) (to_lower s') && equals (to_lower e) (to_lower e')
equals-key_of s e s' e' h h' =
    equals-append b'/' (to_lower s) (to_lower e) (to_lower s') (to_lower e') (has_slash s ∙ h)
      (has_slash s' ∙ h')

value_if :
    (j k v : String) (m : List Entry) (b : Bool)
    → equals j k ≡ b
    → find j (assign k v m) ≡ (if b then some v else find j m)
value_if j k v m true h = ap (λ i. find i (assign k v m)) (equals→≡ j k h) ∙ find-assign k v m
value_if j k v m false h = find-assign_other j k v m h

-- After insertValue, where both sections have no '/', value gives the stored value for a section
-- and an entry that are, but for upper and lower case, the same, and what it gave before for
-- every other.
pub value-insert_value :
    (s e s' e' v : String) (m : List Entry)
    → has b'/' s ≡ false
    → has b'/' s' ≡ false
    → value s' e' (insert_value s e v m) ≡ (
        if equals (to_lower s') (to_lower s) && equals (to_lower e') (to_lower e)
        then some v
        else value s' e' m)
unfolding value insert_value
value-insert_value s e s' e' v m h h' =
    value_if (key_of s' e') (key_of s e) v m _ (equals-key_of s' e' s e h' h)

abbrev raw_key : String → String → String
raw_key s e = s ++ (b'/' ∷ e)

stored :
    (key s e d d' : String) (m : List Entry) (o : Option String) (b : Bool)
    → find key m ≡ none
    → find (raw_key s e) m ≡ o
    → equals key (raw_key s e) ≡ b
    → (find key (insert_new o (raw_key s e) d m).1 ≡ (if b then some d else none))
      × (value_or
            (find key (insert_new o (raw_key s e) d m).1)
            s
            e
            d'
            (insert_new o (raw_key s e) d m).1
          ≡ insert_new o (raw_key s e) d m)
stored key s e d d' m (some old) true h o b =
    cc (h, o, ap (λ k. find k m) (equals→≡ key (raw_key s e) b))
stored key s e d d' m (some old) false h o b = (h, rw (h, o) refl)
stored key s e d d' m none true h o b =
    let first = value_if key (raw_key s e) d m true b in
    (first, ap (λ f. value_or f s e d' (assign (raw_key s e) d m)) first)
stored key s e d d' m none false h o b =
    let first = value_if key (raw_key s e) d m false b ∙ h in
    (first, rw (first, find-assign (raw_key s e) d m) refl)

-- A lookup with a default of a value that is not there stores a value that later lookups without
-- a default find, and it is the default then, only if the section and the entry have no upper
-- case letters; otherwise these still find nothing. A second lookup with another default gives
-- what the first gave and changes nothing.
pub value_default_lem :
    (s e d d' : String) (m : List Entry)
    → value s e m ≡ none
    → (value s e (value_default s e d m).1
        ≡ (if equals (key_of s e) (s ++ (b'/' ∷ e)) then some d else none))
      × (value_default s e d' (value_default s e d m).1 ≡ value_default s e d m)
unfolding value value_default
value_default_lem s e d d' m h = rw h (
    stored (key_of s e) s e d d' m (find (raw_key s e) m) (equals (key_of s e) (raw_key s e)) h refl
      refl)
