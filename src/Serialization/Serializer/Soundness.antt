-- ===== src/Serialization/Serializer/Soundness.antt =====
-- What a serializer promises: a contract against a plain encoding of the values as lists of bytes.
use se_navi_common.Common.{ℕ, ◌+◌, ◌%◌, ◌^◌, ◌≤◌, ◌<◌, ◌≡◌, List, length, ok, err}
use se_navi_common.Serialization.Stream.{Stream, Action, overrun, HasRoom, Holds, wrote, skipped}
use se_navi_common.Serialization.Serializer.{Serializer, Visitor}

-- `n` more bytes would end behind the stream's end.
abbrev pub IsShort : ℕ → Stream → Type 0
IsShort n s = (s.data_ptr ≤ s.end_ptr) × (s.end_ptr < s.data_ptr + n)

-- The action stores `bs` and moves behind it, or throws where there is no room for it.
pub record Sends (bs : List ℕ) (m : Action (Unit {0})) : Type 0 where
  pub sent : (s : Stream) → HasRoom (length bs) s → m s ≡ (ok tt, wrote bs s)
  pub unsent : (s : Stream) → IsShort (length bs) s → (m s).0 ≡ err overrun

-- Where `bs` stands next, the action returns `a` and moves behind it, or throws where the stream
-- ends within it.
pub record Receives {A : Type 0} (bs : List ℕ) (a : A) (m : Action A) : Type 0 where
  pub received :
      (rest : List ℕ) (s : Stream)
      → Holds bs rest s
      → HasRoom (length bs) s
      → m s ≡ (ok a, skipped (length bs) s)
  pub cut_off :
      (rest : List ℕ) (s : Stream) → Holds bs rest s → IsShort (length bs) s → (m s).0 ≡ err overrun

-- The encoding of each value that `Fits` admits is what is written, is read back as that value, and
-- has the announced length.
pub record IsSound {A : Type 0} (Fits : A → Type 0) (encode : A → List ℕ) (c : Serializer A)
    : Type 0 where
  pub sends : (a : A) → Fits a → Sends (encode a) (c.write a)
  pub receives : (a : A) → Fits a → Receives (encode a) a c.read
  pub measures : (a : A) → Fits a → c.serialized_length a ≡ length (encode a) % 2 ^ 32

pub record IsSoundVisitor {A : Type 0} (Fits : A → Type 0) (encode : A → List ℕ) (v : Visitor A)
    : Type 0 where
  pub sends : (a : A) → Fits a → Sends (encode a) (v.write a)
  pub receives : (a : A) → Fits a → Receives (encode a) a v.read
  pub counts : (a : A) (n : ℕ) → Fits a → v.count a n ≡ (n + length (encode a)) % 2 ^ 32
