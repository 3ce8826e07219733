-- ===== src/Serialization/Stream/Memory.antt =====
-- Byte arrays: a run of bytes stored into an array, and what can be read back.
use se_navi_common.Common.{
  ℕ, zero, suc, ◌+◌, ◌≤◌, ◌≡◌, refl, ap, List, [], ◌∷◌, ◌++◌, arith, length, take, drop,
}

-- Bytes stored from an index on; what falls outside the array is lost.
unfoldable pub splice : ℕ → List ℕ → List ℕ → List ℕ
splice p [] mem = mem
splice p (b ∷ bs) [] = []
splice zero (b ∷ bs) (x ∷ mem) = b ∷ splice zero bs mem
splice (suc p) (b ∷ bs) (x ∷ mem) = x ∷ splice p (b ∷ bs) mem

pub length-splice : (p : ℕ) (bs mem : List ℕ) → length (splice p bs mem) ≡ length mem
unfolding splice
length-splice p [] mem = refl
length-splice p (b ∷ bs) [] = refl
length-splice zero (b ∷ bs) (x ∷ mem) = ap suc (length-splice zero bs mem)
length-splice (suc p) (b ∷ bs) (x ∷ mem) = ap suc (length-splice p (b ∷ bs) mem)

splice-nil_memory : (p : ℕ) (bs : List ℕ) → splice p bs [] ≡ []
unfolding splice
splice-nil_memory p [] = refl
splice-nil_memory p (b ∷ bs) = refl

splice_past : (p : ℕ) (bs mem : List ℕ) (x : ℕ) → splice (suc p) bs (x ∷ mem) ≡ x ∷ splice p bs mem
unfolding splice
splice_past p [] mem x = refl
splice_past p (b ∷ bs) mem x = refl

index-zero : (n : ℕ) → 0 + suc n ≡ suc (0 + n)
index-zero n = omega arith

index-suc : (p n : ℕ) → suc p + n ≡ suc (p + n)
index-suc p n = omega arith

-- Two runs stored one behind the other are one longer run.
pub splice-append :
    (p : ℕ) (a b mem : List ℕ) → splice (p + length a) b (splice p a mem) ≡ splice p (a ++ b) mem
unfolding splice
splice-append p [] b mem = ap (λ k. splice k b mem) (omega arith)
splice-append p (x ∷ a) b [] = splice-nil_memory _ b
splice-append zero (x ∷ a) b (y ∷ mem) =
    rw (index-zero (length a), splice_past (0 + length a) b (splice zero a mem) x)
      (ap (λ l. x ∷ l) (splice-append zero a b mem))
splice-append (suc p) (x ∷ a) b (y ∷ mem) =
    rw (index-suc p (suc (length a)), splice_past (p + suc (length a)) b (splice p (x ∷ a) mem) y)
      (ap (λ l. y ∷ l) (splice-append p (x ∷ a) b mem))

-- A run that fits is found where it was stored, before what stood behind it.
pub drop-splice :
    (p : ℕ) (bs mem : List ℕ)
    → p + length bs ≤ length mem
    → drop p (splice p bs mem) ≡ bs ++ drop (p + length bs) mem
unfolding splice
drop-splice p [] mem h = ap (λ k. drop k mem) (omega arith)
drop-splice p (b ∷ bs) [] h = absurd (omega arith)
drop-splice zero (b ∷ bs) (x ∷ mem) h =
    rw index-zero (ap (λ l. b ∷ l) (drop-splice zero bs mem (omega arith)))
drop-splice (suc p) (b ∷ bs) (x ∷ mem) h =
    rw (index-suc p (suc (length bs))) (drop-splice p (b ∷ bs) mem (omega arith))

-- What stands before the run is kept.
pub take-splice : (p : ℕ) (bs mem : List ℕ) → take p (splice p bs mem) ≡ take p mem
unfolding splice
take-splice p [] mem = refl
take-splice p (b ∷ bs) [] = refl
take-splice zero (b ∷ bs) (x ∷ mem) = refl
take-splice (suc p) (b ∷ bs) (x ∷ mem) = ap (λ l. x ∷ l) (take-splice p (b ∷ bs) mem)
