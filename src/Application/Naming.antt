-- ===== src/Application/Naming.antt =====
-- The name of the program (Source/Application/Application.h).
use se_navi_common.Common.{
  ℕ, zero, suc, ◌≤◌, ◌<◌, ◌==◌, ==_iff, ◌≡◌, refl, ap, ◌⊎◌, Bool, false, Bool-cases, inl, inr,
  if◌then◌else◌, ltb, lt→ltb, ltb→lt, ltb→ge, [], ◌∷◌, ◌++◌, length, take, drop, Option, none, some,
  ok, err, arith,
}
use se_navi_common.Config.{String, has, find_last, found_or}
use se_navi_common.Console.{buffer_overrun}
use se_navi_common.Application.{behind_slash, get_self_name}

abbrev is_slash : ℕ → Bool
is_slash c = c == b'/'

-- What the last slash splits.
abbrev Split : Option ℕ → String → Type 0
Split none path = has b'/' path ≡ false
Split (some i) path =
    (parent : String) × ((path ≡ parent ++ (b'/' ∷ drop (suc i) path))
      × (has b'/' (drop (suc i) path) ≡ false))

other_character : (c : ℕ) → is_slash c ≡ false → (b'/' == c) ≡ false
other_character c e = ground arith

Split-cons :
    (found : Option ℕ) (c : ℕ) (cs : String)
    → Split found cs
    → Split (found_or found (is_slash c)) (c ∷ cs)
unfolding has
Split-cons (some i) c cs (parent, (e, h)) = (c ∷ parent, (ap (λ s. c ∷ s) e, h))
Split-cons none c cs h = elim (Bool-cases (is_slash c)) [
  | inl e ↦ rw e ([], (ap (λ x. x ∷ cs) ((==_iff c b'/').0 e), h))
  | inr e ↦ rw (e, other_character c e) h
]

find_last-Split : (path : String) → Split (find_last is_slash path) path
unfolding find_last has
find_last-Split [] = refl
find_last-Split (c ∷ cs) = Split-cons (find_last is_slash cs) c cs (find_last-Split cs)

-- The name behind the last slash, in front of which there may be a directory.
abbrev pub IsNameOf : String → String → Type 0
IsNameOf path name =
    (has b'/' name ≡ false)
    × ((path ≡ name) ⊎ ((parent : String) × (path ≡ parent ++ (b'/' ∷ name))))

behind_slash-IsNameOf :
    (found : Option ℕ) (path : String) → Split found path → IsNameOf path (behind_slash found path)
behind_slash-IsNameOf none path h = (h, inl refl)
behind_slash-IsNameOf (some i) path (parent, (e, h)) = (h, inr (parent, e))

take_whole : (n : ℕ) (s : String) → length s ≤ n → take n s ≡ s
take_whole zero [] h = refl
take_whole zero (c ∷ s) h = absurd (omega (arith, h))
take_whole (suc n) [] h = refl
take_whole (suc n) (c ∷ s) h = ap (λ t. c ∷ t) (take_whole n s (omega (arith, h)))

length-take : (n : ℕ) (s : String) → n ≤ length s → length (take n s) ≡ n
length-take zero s h = refl
length-take (suc n) [] h = absurd (omega (arith, h))
length-take (suc n) (c ∷ s) h = ap suc (length-take n s (omega (arith, h)))

not_zero : (n : ℕ) → 0 < n → (n == 0) ≡ false
not_zero n h = ground arith

short_path :
    (target : String)
    → 0 < length target
    → length target < 1024
    → get_self_name (some target) ≡ ok (behind_slash (find_last is_slash target) target)
unfolding get_self_name
short_path target h k =
    rw
      (
        take_whole 1024 target (omega (arith, k)),
        not_zero (length target) h,
        lt→ltb (length target) 1024 k,
      )
      refl

long_path :
    (target : String) → 1024 ≤ length target → get_self_name (some target) ≡ err buffer_overrun
unfolding get_self_name
long_path target h = rw (length-take 1024 target h) refl

-- For a link with a target that is not empty: getSelfName gives the part of the target behind
-- its last slash, which has no slash, or all of it if it has none, exactly if the target has
-- less than 1024 characters; otherwise it reads beyond the array.
pub get_self_name_lem :
    (target : String)
    → 0 < length target
    → (name : String) × ((get_self_name (some target)
          ≡ (if ltb (length target) 1024 then ok name else err buffer_overrun))
        × IsNameOf target name)
get_self_name_lem target h = (
  behind_slash (find_last is_slash target) target,
  (
    elim (Bool-cases (ltb (length target) 1024)) [
      | inl e ↦ rw e (short_path target h (ltb→lt (length target) 1024 e))
      | inr e ↦ rw e (long_path target (ltb→ge (length target) 1024 e))
    ],
    behind_slash-IsNameOf (find_last is_slash target) target (find_last-Split target),
  ),
)
