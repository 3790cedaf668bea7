-- ===== src/Serde/De/Visitor.antt =====
-- rmpv/src/ext/de.rs: the visitor by which a `Value` is deserialized.
use msgpack_rust.Common.{ℕ, zero, suc, inr, Option, none, some, List}
use msgpack_rust.Common.Int.{ℤ}
use msgpack_rust.Common.Outcome.{M, ◌>>=◌, pure, fail, panic}
use msgpack_rust.Value.{
  Value, Values, Pairs, text, nil, boolean, integer, f32, f64, string, binary, array, map, ext,
  no_values, value, no_pairs, pair,
}
use msgpack_rust.Value.Ints.{from_signed, from_unsigned}
use msgpack_rust.Serde.De.{borrowed, copied}
use msgpack_rust.Serde.De.Any
use msgpack_rust.Serde.De.Any.{Access, ExtDeserializer, ExtElement, Visitor}

module _ {U R X : Type 0} where
  -- `while let Some(elem) = visitor.next_element()? { vec.push(elem) }`, for so many rounds.
  unfoldable pub collect : ℕ → M (Access R) X (Option (Value U)) → M (Access R) X (Values U)
  collect zero next = panic
  collect (suc rounds) next = do
    elem ← next
    elim elem [ none ↦ pure no_values | some v ↦ (do vs ← collect rounds next; pure (value v vs)) ]

  unfoldable pub collect_pairs :
      ℕ → M (Access R) X (Option (Value U)) → M (Access R) X (Value U) → M (Access R) X (Pairs U)
  collect_pairs zero next_key next_value = panic
  collect_pairs (suc rounds) next_key next_value = do
    key ← next_key
    elim key [
      | none ↦ pure no_pairs
      | some k ↦ (do
        v ← next_value
        ps ← collect_pairs rounds next_key next_value
        pure (pair k v ps))
    ]

-- The errors that serde makes of a missing element and of one of another type.
pub record Refusals (X : Type 0) : Type 0 where
  pub invalid_length : ℕ → X
  pub invalid_type : X

module _ {R X : Type 0} (refusals : Refusals X) where
  -- `seq.next_element()?.ok_or_else(..)?`, as an i8 and as bytes.
  unfoldable pub as_tag : Option ExtElement → M (ExtDeserializer R) X ℤ
  as_tag none = fail (refusals.invalid_length 0)
  as_tag (some (Any.tag z)) = pure z
  as_tag (some (Any.binary buf)) = fail refusals.invalid_type

  unfoldable pub as_bytes : Option ExtElement → M (ExtDeserializer R) X (List ℕ)
  as_bytes none = fail (refusals.invalid_length 1)
  as_bytes (some (Any.tag z)) = fail refusals.invalid_type
  as_bytes (some (Any.binary (borrowed buf))) = pure buf
  as_bytes (some (Any.binary (copied buf))) = pure buf

module _ {U R X : Type 0} (refusals : Refusals X) where
  -- `ExtValueVisitor::visit_seq`
  unfoldable pub visit_ext :
      M (ExtDeserializer R) X (Option ExtElement) → M (ExtDeserializer R) X (Value U)
  unfolding as_tag as_bytes
  visit_ext next = do
    first ← next
    tag ← as_tag refusals first
    second ← next
    buf ← as_bytes refusals second
    pure (ext tag buf)

  -- `ValueVisitor`. The methods that it leaves out go on to the wider one, as serde's defaults do.
  unfoldable pub value_visitor : Visitor R X (Value U)
  unfolding collect collect_pairs visit_ext
  value_visitor = record {
    visit_unit = inr nil;
    visit_bool = λ b. inr (boolean b);
    visit_u8 = λ n. inr (integer (from_unsigned n));
    visit_u16 = λ n. inr (integer (from_unsigned n));
    visit_u32 = λ n. inr (integer (from_unsigned n));
    visit_u64 = λ n. inr (integer (from_unsigned n));
    visit_i8 = λ z. inr (integer (from_signed z));
    visit_i16 = λ z. inr (integer (from_signed z));
    visit_i32 = λ z. inr (integer (from_signed z));
    visit_i64 = λ z. inr (integer (from_signed z));
    visit_f32 = λ bits. inr (f32 bits);
    visit_f64 = λ bits. inr (f64 bits);
    visit_str = λ s. inr (string (text s));
    visit_borrowed_str = λ s. inr (string (text s));
    visit_bytes = λ buf. inr (binary buf);
    visit_borrowed_bytes = λ buf. inr (binary buf);
    visit_seq = λ rounds next. (do vs ← collect rounds next; pure (array vs));
    visit_map = λ rounds next_key next_value. (do
      ps ← collect_pairs rounds next_key next_value
      pure (map ps));
    visit_newtype_struct = visit_ext;
  }
