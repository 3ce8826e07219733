-- ===== src/Serialization/Serializer.antt =====
-- The interface `Serializer< T >` of Source/Serialization/Serialization.h, the length stream, and
-- the functions that DECLARE_ALLINONE_SERIALIZER derives from one `allInOne`.
pub mod Soundness
pub mod Compose
use se_navi_common.Common.{ℕ, ◌+◌, ◌%◌, ◌^◌}
use se_navi_common.Serialization.Stream.{Action, pure, ◌>>=◌, ◌>>◌}

-- `write` and `read` are `serialize` to an `OStream` and `deserialize` from an `IStream`;
-- `serialized_length` is the `uint32_t` that `serializationLength` returns.
pub record Serializer (A : Type 0) : Type 0 where
  pub write : A → Action (Unit {0})
  pub read : Action A
  pub serialized_length : A → ℕ

-- What one `allInOne` does on the three kinds of stream. `count` takes the `count_` of an `LStream`
-- to its next value.
pub record Visitor (A : Type 0) : Type 0 where
  pub write : A → Action (Unit {0})
  pub read : Action A
  pub count : A → ℕ → ℕ

-- `stream.next(m.field)`; on an `LStream` it adds the length of the field.
unfoldable pub next : {A : Type 0} → Serializer A → Visitor A
next c = record {
  write = c.write;
  read = c.read;
  count = λ a n. (n + c.serialized_length a) % 2 ^ 32;
}

-- Two reads, one after the other.
abbrev pub read_both : {A B : Type 0} → Action A → Action B → Action (A × B)
read_both get_a get_b = do a ← get_a; b ← get_b; pure (a, b)

-- One `stream.next` after another.
infixr 20 ◌⨾◌
unfoldable pub ◌⨾◌ : {A B : Type 0} → Visitor A → Visitor B → Visitor (A × B)
v ⨾ w = record {
  write = λ p. v.write p.0 >> w.write p.1;
  read = read_both v.read w.read;
  count = λ p n. w.count p.1 (v.count p.0 n);
}

-- DECLARE_ALLINONE_SERIALIZER, for a struct `M` with the fields that `v` visits.
unfoldable pub all_in_one : {A M : Type 0} → Visitor A → (M → A) → (A → M) → Serializer M
all_in_one v fields build = record {
  write = λ m. v.write (fields m);
  read = (do a ← v.read; pure (build a));
  serialized_length = λ m. v.count (fields m) 0;
}
