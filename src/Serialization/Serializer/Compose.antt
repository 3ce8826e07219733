-- ===== src/Serialization/Serializer/Compose.antt =====
-- Sound parts make a sound whole: one lemma for each way to put actions on a stream together.
use se_navi_common.Common.{
  ℕ, ◌+◌, ◌%◌, ◌^◌, ◌≤◌, ◌<◌, ◌≡◌, refl, ap, ◌∙◌, List, [], ◌++◌, append_assoc, append-nil, subst,
  length, length-append, arith, ok, err,
}
use native.Mathlib.Decide.{dec_le}
use se_navi_common.Serialization.Stream.{
  Stream, StreamError, Action, pure, overrun, Holds, wrote, skipped, ◌>>=◌, ◌>>◌, bind_ok,
  wrote-nil, wrote-wrote, HasRoom-wrote, Holds-skipped, end-wrote, data-wrote,
}
use se_navi_common.Serialization.Serializer.{Serializer, Visitor, next, ◌⨾◌, all_in_one}
use se_navi_common.Serialization.Serializer.Soundness.{Sends, Receives, IsSound, IsSoundVisitor}

-- A part that throws makes the whole throw.
bind_throws {ℓ κ} :
    {A : Type ℓ} {B : Type κ} (m : Action A) (f : A → Action B) (s : Stream) {e : StreamError}
    → (m s).0 ≡ err e
    → ((m >>= f) s).0 ≡ err e
unfolding ◌>>=◌
bind_throws m f s h = rw h

pub Sends-pure : Sends [] (pure tt)
Sends-pure = record {
  sent = λ s room. ap (λ t. (ok tt, t)) (wrote-nil s);
  unsent = λ s short. absurd (omega arith);
}

pub Sends-bind :
    (a b : List ℕ) (m n : Action (Unit {0})) → Sends a m → Sends b n → Sends (a ++ b) (m >> n)
Sends-bind a b m n hm hn = record {
  sent = λ s room.
      bind_ok m (λ _. n) (hm.sent s (omega (arith, length-append a b)))
      ∙ hn.sent (wrote a s) (HasRoom-wrote (length b) a s (omega (arith, length-append a b)))
      ∙ ap (λ t. (ok tt, t)) (wrote-wrote a b s);
  unsent = λ s short. elim (dec_le (s.data_ptr + length a) s.end_ptr) [
    | yes room ↦ rw (bind_ok m (λ _. n) (hm.sent s room)) (
        hn.unsent (wrote a s)
          (rw (end-wrote a s, data-wrote a s) (omega (arith, length-append a b))))
    | no cut ↦ bind_throws m (λ _. n) s (hm.unsent s (omega arith))
  ];
}

pub Receives-pure : {A : Type 0} (a : A) → Receives [] a (pure a)
Receives-pure a = record {
  received = λ rest s holds room. ap (λ k. (ok a, record s { data_ptr = k })) (omega arith);
  cut_off = λ rest s holds short. absurd (omega arith);
}

module _ {A B : Type 0} (a b : List ℕ) {x : A} {y : B} (m : Action A) (f : A → Action B)
    (hm : Receives a x m) (hf : Receives b y (f x)) (rest : List ℕ) (s : Stream)
    (holds : Holds (a ++ b) rest s) where
  first-Holds : Holds a (b ++ rest) s
  first-Holds = holds ∙ append_assoc a b rest

  second-Holds : Holds b rest (skipped (length a) s)
  second-Holds = Holds-skipped a (b ++ rest) s first-Holds

  bind_received :
      s.data_ptr + length (a ++ b) ≤ s.end_ptr → (m >>= f) s ≡ (ok y, skipped (length (a ++ b)) s)
  bind_received room =
      bind_ok m f (hm.received (b ++ rest) s first-Holds (omega (arith, length-append a b)))
      ∙ hf.received rest (skipped (length a) s) second-Holds (omega (arith, length-append a b))
      ∙ ap (λ k. (ok y, record s { data_ptr = k })) (omega (arith, length-append a b))

  bind_cut_off :
      s.data_ptr ≤ s.end_ptr
      → s.end_ptr < s.data_ptr + length (a ++ b)
      → ((m >>= f) s).0 ≡ err overrun
  bind_cut_off within short = elim (dec_le (s.data_ptr + length a) s.end_ptr) [
    | yes room ↦
        rw (bind_ok m f (hm.received (b ++ rest) s first-Holds room))
          (hf.cut_off rest (skipped (length a) s) second-Holds (omega (arith, length-append a b)))
    | no cut ↦ bind_throws m f s (hm.cut_off (b ++ rest) s first-Holds (omega arith))
  ]

pub Receives-bind :
    {A B : Type 0} (a b : List ℕ) {x : A} {y : B} (m : Action A) (f : A → Action B)
    → Receives a x m
    → Receives b y (f x)
    → Receives (a ++ b) y (m >>= f)
Receives-bind a b m f hm hf = record {
  received = bind_received a b m f hm hf;
  cut_off = λ rest s holds short. bind_cut_off a b m f hm hf rest s holds short.0 short.1;
}

-- The value that was read is only passed through a function.
pub Receives-map :
    {A B : Type 0} (a : List ℕ) {x : A} {y : B} (m : Action A) (f : A → B)
    → Receives a x m
    → f x ≡ y
    → Receives a y (m >>= λ z. pure (f z))
Receives-map a {x} {y} m f hm e =
    subst (λ bs. Receives bs y (m >>= λ z. pure (f z))) (append-nil a)
      (subst (λ v. Receives (a ++ []) v (m >>= λ z. pure (f z))) e
        (Receives-bind a [] m (λ z. pure (f z)) hm (Receives-pure (f x))))

pub next-IsSoundVisitor :
    {A : Type 0} {Fits : A → Type 0} {encode : A → List ℕ} {c : Serializer A}
    → IsSound Fits encode c
    → IsSoundVisitor Fits encode (next c)
unfolding next
next-IsSoundVisitor h = record {
  sends = h.sends;
  receives = h.receives;
  counts = λ a n fits. rw (h.measures a fits) (omega arith);
}

pub ⨾-IsSoundVisitor :
    {A B : Type 0} {FitsA : A → Type 0} {FitsB : B → Type 0} {encode_a : A → List ℕ}
    {encode_b : B → List ℕ} {v : Visitor A} {w : Visitor B}
    → IsSoundVisitor FitsA encode_a v
    → IsSoundVisitor FitsB encode_b w
    → IsSoundVisitor (λ p. FitsA p.0 × FitsB p.1) (λ p. encode_a p.0 ++ encode_b p.1) (v ⨾ w)
unfolding ◌⨾◌
⨾-IsSoundVisitor {A} {B} {encode_a} {encode_b} {v} {w} hv hw = record {
  sends = λ p fits.
      Sends-bind (encode_a p.0) (encode_b p.1) (v.write p.0) (w.write p.1) (hv.sends p.0 fits.0)
        (hw.sends p.1 fits.1);
  receives = λ p fits.
      Receives-bind {B = A × B} (encode_a p.0) (encode_b p.1) v.read
        (λ x. w.read >>= λ y. pure (x, y)) (hv.receives p.0 fits.0)
        (Receives-map {B = A × B} (encode_b p.1) w.read (λ y. (p.0, y)) (hw.receives p.1 fits.1)
          refl);
  counts = λ p n fits.
      rw (hv.counts p.0 n fits.0, hw.counts p.1 ((n + length (encode_a p.0)) % 2 ^ 32) fits.1)
        (omega (arith, length-append (encode_a p.0) (encode_b p.1)));
}

-- A struct is sound if its fields are, and if it is rebuilt from them.
pub all_in_one-IsSound :
    {A M : Type 0} {Fits : A → Type 0} {encode : A → List ℕ} {v : Visitor A} (fields : M → A)
    (build : A → M)
    → ((m : M) → build (fields m) ≡ m)
    → IsSoundVisitor Fits encode v
    → IsSound (λ m. Fits (fields m)) (λ m. encode (fields m)) (all_in_one v fields build)
unfolding all_in_one
all_in_one-IsSound {encode} {v} fields build rebuild h = record {
  sends = λ m fits. h.sends (fields m) fits;
  receives = λ m fits.
      Receives-map (encode (fields m)) v.read build (h.receives (fields m) fits) (rebuild m);
  measures = λ m fits. h.counts (fields m) 0 fits ∙ ap (λ k. k % 2 ^ 32) (omega arith);
}
