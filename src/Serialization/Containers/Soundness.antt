-- ===== src/Serialization/Containers/Soundness.antt =====
-- Strings and vectors are sound where their elements are and their size fits 32 bits.
use se_navi_common.Common.{
  ℕ, suc, ◌+◌, ◌%◌, ◌^◌, ◌<◌, ◌≡◌, refl, ap, ◌∙◌, subst, sym, List, [], ◌∷◌, ◌++◌, All, length,
  length-append, arith, if◌then◌else◌, ltb, lt→ltb,
}
use native.Mathlib.Nat.{mod-eq_of_lt}
use se_navi_common.Serialization.Stream.{Action, pure, ◌>>=◌, ◌>>◌}
use se_navi_common.Serialization.Serializer.{Serializer}
use se_navi_common.Serialization.Serializer.Soundness.{Sends, Receives, IsSound}
use se_navi_common.Serialization.Serializer.Compose.{
  Sends-pure, Sends-bind, Receives-pure, Receives-bind, Receives-map,
}
use se_navi_common.Serialization.Scalars.{uint32, write_bytes, read_bytes}
use se_navi_common.Serialization.Scalars.Bytes.{le_bytes, length-le_bytes}
use se_navi_common.Serialization.Scalars.Soundness.{
  scalar-IsSound, Sends-write_bytes, Receives-read_bytes,
}
use se_navi_common.Serialization.Containers.{
  text, vector, write_items, read_items, sum_lengths, write_vector, read_vector, array,
}

uint32-IsSound : IsSound (λ v. v < 256 ^ 4) (le_bytes 4) uint32
uint32-IsSound = scalar-IsSound 4 (omega arith)

-- A body behind the 32 bit count of its parts.
pub Sends-counted :
    (n : ℕ) (bs : List ℕ) (m : Action (Unit {0}))
    → n < 2 ^ 32
    → Sends bs m
    → Sends (le_bytes 4 n ++ bs) (uint32.write (n % 2 ^ 32) >> m)
Sends-counted n bs m h hm =
    rw (mod-eq_of_lt h)
      (Sends-bind (le_bytes 4 n) bs (uint32.write n) m (uint32-IsSound.sends n (omega arith)) hm)

pub Receives-counted :
    {A : Type 0} (n : ℕ) (bs : List ℕ) {x : A} (f : ℕ → Action A)
    → n < 2 ^ 32
    → Receives bs x (f n)
    → Receives (le_bytes 4 n ++ bs) x (uint32.read >>= f)
Receives-counted n bs f h hf =
    Receives-bind (le_bytes 4 n) bs uint32.read f (uint32-IsSound.receives n (omega arith)) hf

-- A block that is left out where it is empty.
Sends-block :
    (bs : List ℕ)
    → length bs < 2 ^ 32
    → Sends bs (if ltb 0 (length bs) then write_bytes (length bs % 2 ^ 32) bs else pure tt)
Sends-block [] h = Sends-pure
Sends-block (b ∷ bs) h =
    rw (mod-eq_of_lt h, lt→ltb 0 (suc (length bs)) (omega arith))
      (Sends-write_bytes (length (b ∷ bs)) (b ∷ bs) refl)

Receives-block :
    (bs : List ℕ) → Receives bs bs (if ltb 0 (length bs) then read_bytes (length bs) else pure [])
Receives-block [] = Receives-pure []
Receives-block (b ∷ bs) =
    rw (lt→ltb 0 (suc (length bs)) (omega arith))
      (Receives-read_bytes (length (b ∷ bs)) (b ∷ bs) refl)

abbrev pub encode_text : List ℕ → List ℕ
encode_text str = le_bytes 4 (length str) ++ str

pub text-IsSound : IsSound (λ str. length str < 2 ^ 32) encode_text text
unfolding text
text-IsSound = record {
  sends = λ str fits. Sends-counted (length str) str _ fits (Sends-block str fits);
  receives = λ str fits. Receives-counted (length str) str _ fits (Receives-block str);
  measures = λ str fits.
      omega (arith, length-append (le_bytes 4 (length str)) str, length-le_bytes 4 (length str));
}

-- The encodings of the elements, one behind the other.
abbrev pub encode_items : {A : Type 0} → (A → List ℕ) → List A → List ℕ
encode_items encode [] = []
encode_items encode (x ∷ xs) = encode x ++ encode_items encode xs

-- What a vector carries and how: its size must fit the 32 bit count.
abbrev pub FitsVector : {A : Type 0} → (A → Type 0) → List A → Type 0
FitsVector Fits v = (length v < 2 ^ 32) × All Fits v

abbrev pub encode_vector : {A : Type 0} → (A → List ℕ) → List A → List ℕ
encode_vector encode v = le_bytes 4 (length v) ++ encode_items encode v

module _ {A : Type 0} {Fits : A → Type 0} {encode : A → List ℕ} {c : Serializer A}
    (h : IsSound Fits encode c) where
  pub Sends-write_items :
      (v : List A) → All Fits v → Sends (encode_items encode v) (write_items c v)
  unfolding write_items
  Sends-write_items [] fits = Sends-pure
  Sends-write_items (x ∷ xs) fits =
      Sends-bind (encode x) (encode_items encode xs) (c.write x) (write_items c xs)
        (h.sends x fits.0) (Sends-write_items xs fits.1)

  pub Receives-read_items :
      (v : List A) → All Fits v → Receives (encode_items encode v) v (read_items c (length v))
  unfolding read_items
  Receives-read_items [] fits = Receives-pure []
  Receives-read_items (x ∷ xs) fits =
      Receives-bind (encode x) (encode_items encode xs) c.read
        (λ y. read_items c (length xs) >>= λ ys. pure (y ∷ ys)) (h.receives x fits.0)
        (Receives-map (encode_items encode xs) (read_items c (length xs)) (λ ys. x ∷ ys)
          (Receives-read_items xs fits.1) refl)

  pub sum_lengths_lem :
      (v : List A) (size : ℕ)
      → All Fits v
      → size < 2 ^ 32
      → sum_lengths c v size ≡ (size + length (encode_items encode v)) % 2 ^ 32
  unfolding sum_lengths
  sum_lengths_lem [] size fits small = omega arith
  sum_lengths_lem (x ∷ xs) size fits small =
      sum_lengths_lem xs ((size + c.serialized_length x) % 2 ^ 32) fits.1 (omega arith)
      ∙ omega (arith, h.measures x fits.0, length-append (encode x) (encode_items encode xs))

  pub Sends-write_vector :
      (v : List A) → FitsVector Fits v → Sends (encode_vector encode v) (write_vector c v)
  unfolding write_vector
  Sends-write_vector v fits =
      Sends-counted (length v) (encode_items encode v) (write_items c v) fits.0
        (Sends-write_items v fits.1)

  pub Receives-read_vector :
      (v : List A) → FitsVector Fits v → Receives (encode_vector encode v) v (read_vector c)
  unfolding read_vector
  Receives-read_vector v fits =
      Receives-counted (length v) (encode_items encode v) (read_items c) fits.0
        (Receives-read_items v fits.1)

  pub length-encode_vector :
      (v : List A) → length (encode_vector encode v) ≡ 4 + length (encode_items encode v)
  length-encode_vector v = omega (
    arith,
    length-append (le_bytes 4 (length v)) (encode_items encode v),
    length-le_bytes 4 (length v),
  )

  -- A vector of sound elements, of any size below 2 ^ 32, is sound.
  pub vector-IsSound : IsSound (FitsVector Fits) (encode_vector encode) (vector c)
  unfolding vector
  vector-IsSound = record {
    sends = Sends-write_vector;
    receives = Receives-read_vector;
    measures = λ v fits.
        sum_lengths_lem v 4 fits.1 (omega arith)
        ∙ ap (λ k. k % 2 ^ 32) (sym (length-encode_vector v));
  }

  pub array-IsSound :
      (n : ℕ) → IsSound (λ v. (length v ≡ n) × All Fits v) (encode_items encode) (array c n)
  unfolding array
  array-IsSound n = record {
    sends = λ v fits. Sends-write_items v fits.1;
    receives = λ v fits.
        subst (λ k. Receives (encode_items encode v) v (read_items c k)) fits.0
          (Receives-read_items v fits.1);
    measures =
        λ v fits. sum_lengths_lem v 0 fits.1 (omega arith) ∙ ap (λ k. k % 2 ^ 32) (omega arith);
  }
