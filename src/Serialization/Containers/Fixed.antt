-- ===== src/Serialization/Containers/Fixed.antt =====
-- The variants for element types of fixed size and for simple element types.
use se_navi_common.Common.{
  ℕ, suc, ◌*◌, ◌%◌, ◌^◌, ◌<◌, ◌≡◌, refl, ap, ◌∙◌, sym, subst, List, [], ◌∷◌, ◌++◌, All, length,
  length-append, take, drop, take-append_length, drop-append_length, ltb, lt→ltb, if◌then◌else◌,
  arith,
}
use native.Mathlib.Nat.{mod-eq_of_lt, mul_comm}
use se_navi_common.Serialization.Stream.{pure}
use se_navi_common.Serialization.Serializer.{Serializer}
use se_navi_common.Serialization.Serializer.Soundness.{Sends, Receives, IsSound}
use se_navi_common.Serialization.Serializer.Compose.{Sends-pure, Receives-pure, Receives-map}
use se_navi_common.Serialization.Scalars.{write_bytes, read_bytes}
use se_navi_common.Serialization.Scalars.Bytes.{le_bytes, length-le_bytes, le_value-le_bytes}
use se_navi_common.Serialization.Scalars.Soundness.{Sends-write_bytes, Receives-read_bytes}
use se_navi_common.Serialization.Containers.{
  vector_fixed, array_fixed, front_length, flat_bytes, flat_values, write_simple, read_items,
  read_block, vector_simple, array_simple,
}
use se_navi_common.Serialization.Containers.Soundness.{
  Sends-counted, Receives-counted, Sends-write_items, Receives-read_items, Sends-write_vector,
  Receives-read_vector, length-encode_vector, encode_items, FitsVector, encode_vector,
}

module _ {A : Type 0} {Fits : A → Type 0} {encode : A → List ℕ} {c : Serializer A}
    (h : IsSound Fits encode c) (k : ℕ) (small : k < 2 ^ 32)
    (same : (a : A) → Fits a → length (encode a) ≡ k) where
  length-encode_items : (v : List A) → All Fits v → length (encode_items encode v) ≡ length v * k
  length-encode_items [] fits = omega arith
  length-encode_items (x ∷ xs) fits =
      length-append (encode x) (encode_items encode xs)
      ∙ omega (arith, same x fits.0, length-encode_items xs fits.1)

  front_length_lem :
      (v : List A) → FitsVector Fits v → front_length c v ≡ length (encode_items encode v) % 2 ^ 32
  unfolding front_length
  front_length_lem [] fits = refl
  front_length_lem (x ∷ xs) fits = rw (
    h.measures x fits.1.0,
    same x fits.1.0,
    mod-eq_of_lt small,
    mod-eq_of_lt fits.0,
    length-encode_items (x ∷ xs) fits.1,
    mul_comm k (length (x ∷ xs)),
  )

  -- One length for all elements is right exactly because their encodings are equally long.
  pub vector_fixed-IsSound : IsSound (FitsVector Fits) (encode_vector encode) (vector_fixed c)
  unfolding vector_fixed
  vector_fixed-IsSound = record {
    sends = Sends-write_vector h;
    receives = Receives-read_vector h;
    measures = λ v fits. omega (arith, front_length_lem v fits, length-encode_vector h v);
  }

  pub array_fixed-IsSound :
      (n : ℕ)
      → n < 2 ^ 32
      → IsSound (λ v. (length v ≡ n) × All Fits v) (encode_items encode) (array_fixed c n)
  unfolding array_fixed
  array_fixed-IsSound n bound = record {
    sends = λ v fits. Sends-write_items h v fits.1;
    receives = λ v fits.
        subst (λ m. Receives (encode_items encode v) v (read_items c m)) fits.0
          (Receives-read_items h v fits.1);
    measures = λ v fits. front_length_lem v (omega arith, fits.1);
  }

module _ (n : ℕ) where
  length-flat_bytes : (v : List ℕ) → length (flat_bytes n v) ≡ length v * n
  unfolding flat_bytes
  length-flat_bytes [] = omega arith
  length-flat_bytes (x ∷ xs) =
      length-append (le_bytes n x) (flat_bytes n xs)
      ∙ omega (arith, length-le_bytes n x, length-flat_bytes xs)

  take_first : (x : ℕ) (bs : List ℕ) → take n (le_bytes n x ++ bs) ≡ le_bytes n x
  take_first x bs =
      ap (λ m. take m (le_bytes n x ++ bs)) (sym (length-le_bytes n x))
      ∙ take-append_length (le_bytes n x) bs

  drop_first : (x : ℕ) (bs : List ℕ) → drop n (le_bytes n x ++ bs) ≡ bs
  drop_first x bs =
      ap (λ m. drop m (le_bytes n x ++ bs)) (sym (length-le_bytes n x))
      ∙ drop-append_length (le_bytes n x) bs

  flat_values-flat_bytes :
      (v : List ℕ) → All (λ x. x < 256 ^ n) v → flat_values n (length v) (flat_bytes n v) ≡ v
  unfolding flat_values flat_bytes
  flat_values-flat_bytes [] fits = refl
  flat_values-flat_bytes (x ∷ xs) fits = rw (
    take_first x (flat_bytes n xs),
    drop_first x (flat_bytes n xs),
    le_value-le_bytes n x fits.0,
    flat_values-flat_bytes xs fits.1,
  )

  abbrev pub FitsSimple : List ℕ → Type 0
  FitsSimple v = (length v < 2 ^ 32) × (length v * n < 2 ^ 32) × All (λ x. x < 256 ^ n) v

  Sends-flat :
      (v : List ℕ) (len : ℕ)
      → length v ≡ len
      → length v * n < 2 ^ 32
      → Sends (flat_bytes n v) (write_bytes ((len * n) % 2 ^ 32) (flat_bytes n v))
  Sends-flat v len e h =
      Sends-write_bytes ((len * n) % 2 ^ 32) (flat_bytes n v)
        (length-flat_bytes v ∙ rw (← e, mod-eq_of_lt h))

  Receives-flat :
      (v : List ℕ) (len : ℕ)
      → length v ≡ len
      → length v * n < 2 ^ 32
      → All (λ x. x < 256 ^ n) v
      → Receives (flat_bytes n v) v (read_block n len)
  unfolding read_block
  Receives-flat v len e h fits =
      Receives-map (flat_bytes n v) (read_bytes ((n * len) % 2 ^ 32)) (flat_values n len)
        (Receives-read_bytes ((n * len) % 2 ^ 32) (flat_bytes n v)
          (length-flat_bytes v ∙ rw (← e, mul_comm n (length v), mod-eq_of_lt h)))
        (rw (← e) (flat_values-flat_bytes v fits))

  Sends-simple :
      (v : List ℕ)
      → FitsSimple v
      → Sends (le_bytes 4 (length v) ++ flat_bytes n v) (write_simple n v)
  unfolding write_simple flat_bytes
  Sends-simple [] fits = Sends-counted 0 [] (pure tt) (omega arith) Sends-pure
  Sends-simple (x ∷ xs) fits = Sends-counted (length (x ∷ xs)) (flat_bytes n (x ∷ xs)) _ fits.0 (
      rw (lt→ltb 0 (suc (length xs)) (omega arith), mod-eq_of_lt fits.0)
        (Sends-flat (x ∷ xs) (length (x ∷ xs)) refl fits.1))

  Receives-simple :
      (v : List ℕ)
      → FitsSimple v
      → Receives (flat_bytes n v) v (if ltb 0 (length v) then read_block n (length v) else pure [])
  unfolding flat_bytes
  Receives-simple [] fits = Receives-pure []
  Receives-simple (x ∷ xs) fits =
      rw (lt→ltb 0 (suc (length xs)) (omega arith))
        (Receives-flat (x ∷ xs) (length (x ∷ xs)) refl fits.1 fits.2)

  -- A block copy of little-endian elements carries the same bytes as a loop over them.
  pub vector_simple-IsSound :
      IsSound FitsSimple (λ v. le_bytes 4 (length v) ++ flat_bytes n v) (vector_simple n)
  unfolding vector_simple
  vector_simple-IsSound = record {
    sends = Sends-simple;
    receives =
        λ v fits. Receives-counted (length v) (flat_bytes n v) _ fits.0 (Receives-simple v fits);
    measures = λ v fits. omega (
      arith,
      length-append (le_bytes 4 (length v)) (flat_bytes n v),
      length-le_bytes 4 (length v),
      length-flat_bytes v,
    );
  }

  pub array_simple-IsSound :
      (len : ℕ)
      → len * n < 2 ^ 32
      → IsSound
          (λ v. (length v ≡ len) × All (λ x. x < 256 ^ n) v)
          (flat_bytes n)
          (array_simple n len)
  unfolding array_simple
  array_simple-IsSound len bound = record {
    sends = λ v fits. Sends-flat v len fits.0 (rw fits.0 bound);
    receives = λ v fits. Receives-flat v len fits.0 (rw fits.0 bound) fits.1;
    measures = λ v fits. rw (length-flat_bytes v, fits.0);
  }
