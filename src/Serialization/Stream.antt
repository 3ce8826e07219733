-- ===== src/Serialization/Stream.antt =====
-- `Stream` of Source/Serialization/Serialization.h: two pointers into a byte array, which move as
-- values are read or written, and the exception that a move past the end throws.
mod Memory
pub use Memory.*
use se_navi_common.Common.{
  ℕ, ◌+◌, ◌≤◌, ◌<◌, ◌≡◌, refl, List, [], ◌++◌, ltb, lt→ltb, le→ltb, arith, length-append, drop-add,
  drop-append_length, if◌then◌else◌, length, take, drop, Result, ok, err,
}
use se_navi_common.Common.Int.{pos, ◌-ℤ◌, u32}

-- `data_` and `end_` are indices into `memory`, the array that the stream was made over.
pub record Stream : Type 0 where
  pub memory : List ℕ
  pub data_ptr : ℕ
  pub end_ptr : ℕ

-- `StreamOverrunException`.
pub data StreamError : Type 0 where
  overrun : StreamError

-- Code on a stream. A throw leaves the stream as it was when it was thrown.
abbrev pub Action {ℓ} : Type ℓ → Type ℓ
Action A = Stream → Result StreamError A × Stream

abbrev resume {ℓ κ} :
    {A : Type ℓ} {B : Type κ}
    → (A → Stream → Result StreamError B × Stream)
    → Result StreamError A
    → Stream
    → Result StreamError B × Stream
resume f (ok a) s = f a s
resume f (err e) s = (err e, s)

infixl 5 ◌>>=◌ ◌>>◌
unfoldable pub ◌>>=◌ {ℓ κ} :
    {A : Type ℓ} {B : Type κ}
    → (Stream → Result StreamError A × Stream)
    → (A → Stream → Result StreamError B × Stream)
    → Stream
    → Result StreamError B × Stream
◌>>=◌ m f s = let (r, s') = m s in resume f r s'

abbrev pub ◌>>◌ {ℓ} : {B : Type ℓ} → Action (Unit {0}) → Action B → Action B
m >> k = m >>= λ _. k

abbrev pub pure {ℓ} : {A : Type ℓ} → A → Action A
pure a s = (ok a, s)

-- `Stream::advance`: the pointer moves before the check.
unfoldable pub advance : ℕ → Action ℕ
advance len s =
    let moved = s.data_ptr + len in
    (if ltb s.end_ptr moved then err overrun else ok s.data_ptr, record s { data_ptr = moved })

-- `Stream::getLength`.
unfoldable pub get_length : Stream → ℕ
get_length s = u32 (pos s.end_ptr -ℤ pos s.data_ptr)

-- The constructors of `IStream` and `OStream` over a whole array.
abbrev pub stream_over : List ℕ → ℕ → ℕ → Stream
stream_over memory first count = record {
  memory = memory;
  data_ptr = first;
  end_ptr = first + count;
}

-- A store through a pointer, and `memcpy` to it.
unfoldable pub poke : ℕ → List ℕ → Action (Unit {0})
poke p bs s = (ok tt, record s { memory = splice p bs s.memory })

-- A load through a pointer, and `memcpy` from it.
unfoldable pub peek : ℕ → ℕ → Action (List ℕ)
peek p n s = (ok (take n (drop p s.memory)), s)

-- The stream after `bs` was written at its pointer, or after `n` bytes were read.
unfoldable pub wrote : List ℕ → Stream → Stream
wrote bs s = record s { memory = splice s.data_ptr bs s.memory; data_ptr = s.data_ptr + length bs }

abbrev pub skipped : ℕ → Stream → Stream
skipped n s = record s { data_ptr = s.data_ptr + n }

-- `n` more bytes fit before the end.
abbrev pub HasRoom : ℕ → Stream → Type 0
HasRoom n s = s.data_ptr + n ≤ s.end_ptr

abbrev pub Holds : List ℕ → List ℕ → Stream → Type 0
Holds bs rest s = drop s.data_ptr s.memory ≡ bs ++ rest

module _ {ℓ κ} {A : Type ℓ} {B : Type κ} where
  pub bind_ok :
      (m : Action A) (f : A → Action B) {s s' : Stream} {a : A}
      → m s ≡ (ok a, s')
      → (m >>= f) s ≡ f a s'
  unfolding ◌>>=◌
  bind_ok m f h = rw h

  pub bind_err :
      (m : Action A) (f : A → Action B) {s s' : Stream} {e : StreamError}
      → m s ≡ (err e, s')
      → (m >>= f) s ≡ (err e, s')
  unfolding ◌>>=◌
  bind_err m f h = rw h

pub advance_ok : (n : ℕ) (s : Stream) → HasRoom n s → advance n s ≡ (ok s.data_ptr, skipped n s)
unfolding advance
advance_ok n s h = rw (le→ltb s.end_ptr (s.data_ptr + n) h)

pub advance_overrun :
    (n : ℕ) (s : Stream) → s.end_ptr < s.data_ptr + n → advance n s ≡ (err overrun, skipped n s)
unfolding advance
advance_overrun n s h = rw (lt→ltb s.end_ptr (s.data_ptr + n) h)

pub wrote-wrote : (a b : List ℕ) (s : Stream) → wrote b (wrote a s) ≡ wrote (a ++ b) s
unfolding wrote
wrote-wrote a b s i = record {
  memory = splice-append s.data_ptr a b s.memory i;
  data_ptr = shift i;
  end_ptr = s.end_ptr;
}
  where
    shift : s.data_ptr + length a + length b ≡ s.data_ptr + length (a ++ b)
    shift = omega (arith, length-append a b)

-- What was written can be read back from where the writing began.
pub Holds-wrote :
    (bs : List ℕ) (s : Stream)
    → s.data_ptr + length bs ≤ length s.memory
    → Holds bs
        (drop (s.data_ptr + length bs) s.memory)
        (record (wrote bs s) { data_ptr = s.data_ptr })
unfolding wrote
Holds-wrote bs s h = drop-splice s.data_ptr bs s.memory h

-- The read pointer moves on to the bytes that follow.
pub Holds-skipped :
    (a rest : List ℕ) (s : Stream)
    → Holds a rest s
    → drop (skipped (length a) s).data_ptr (skipped (length a) s).memory ≡ rest
Holds-skipped a rest s h =
    rw (drop-add s.data_ptr (length a) s.memory, h) (drop-append_length a rest)

pub HasRoom-wrote :
    (n : ℕ) (bs : List ℕ) (s : Stream) → HasRoom (length bs + n) s → HasRoom n (wrote bs s)
unfolding wrote
HasRoom-wrote n bs s h = omega arith

pub end-wrote : (bs : List ℕ) (s : Stream) → (wrote bs s).end_ptr ≡ s.end_ptr
unfolding wrote
end-wrote bs s = refl

pub data-wrote : (bs : List ℕ) (s : Stream) → (wrote bs s).data_ptr ≡ s.data_ptr + length bs
unfolding wrote
data-wrote bs s = refl

pub memory-wrote : (bs : List ℕ) (s : Stream) → (wrote bs s).memory ≡ splice s.data_ptr bs s.memory
unfolding wrote
memory-wrote bs s = refl

pub wrote-nil : (s : Stream) → s ≡ wrote [] s
unfolding wrote splice
wrote-nil s i = record { memory = s.memory; data_ptr = stays i; end_ptr = s.end_ptr }
  where
    stays : s.data_ptr ≡ s.data_ptr + 0
    stays = omega arith
