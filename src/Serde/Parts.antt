-- ===== src/Serde/Parts.antt =====
-- rmp-serde/src/encode.rs: what the calls of a serializer append for one part of a value.
use msgpack_rust.Common.{
  ℕ, ◌%◌, ◌^◌, ◌<◌, ◌≡◌, refl, sym, ap, subst, Bool, true, false, if◌then◌else◌, inl, List, [],
  ◌++◌, append-nil, append_assoc, length, le→ltb, arith,
}
use msgpack_rust.Common.Int.{ℤ, pos, negsuc, as_unsigned_pos, IsSigned}
use msgpack_rust.Common.Outcome.{M, ◌>>◌}
use msgpack_rust.ByteOrder.{ByteOrder, IsBigEndian}
use msgpack_rust.Format.{header, int_bytes, IntForm, ArrayForm, MapForm}
use msgpack_rust.Encode.{invalid_marker_write, invalid_data_write, io_write}
use msgpack_rust.Encode.Logic.{IsSink}
use msgpack_rust.Encode.Wire.{write_nil-Writes, write_bool-Writes}
use msgpack_rust.Encode.Shortest.{write_uint-WritesShortestInt, write_sint-WritesShortestInt}
use msgpack_rust.Encode.Headers.{
  write_array_len-WritesShortest, write_map_len-WritesShortest, write_bin_len-WritesShortest,
}
use msgpack_rust.Encode.Ext.{write_str-Writes}
use msgpack_rust.Decode.Str.{Utf8}
use msgpack_rust.Value.{
  Value, Values, Pairs, text, nil, boolean, integer, string, binary, array, map, value, pair,
  no_pairs, no_values, count_values, count_pairs,
}
use msgpack_rust.Value.Ints.{IsIntPriv, to_ℤ, from_signed, from_unsigned}
use msgpack_rust.Value.Encoding.{Encoding, EncodingAll, EncodingPairs}
use msgpack_rust.Serde.{Error}
use msgpack_rust.Serde.Config.{Config, serialize_str, write_variant_ident, write_variant_ident_lem}
use msgpack_rust.Serde.Serializer.{
  serialize_i64, serialize_u64, serialize_bytes, serialize_unit, serialize_bool, array_len, map_len,
}
use msgpack_rust.Serde.Logic.{Sends, Sends-try, Sends->>=, Sends->>, Sends-pure}
use msgpack_rust.Serde.Meaning.{IsText, variant_value}

-- `m` appends an encoding of `v`.
abbrev pub Represents :
    {U W E : Type 0} → Utf8 U → (W → List ℕ) → M W (Error E) (Unit {0}) → Value U → Type 0
Represents utf8 sent m v = (bs : List ℕ) × Encoding utf8 v bs × Sends sent m bs tt

module _ {U : Type 0} (utf8 : Utf8 U) where
  -- The parts of a struct, as pairs or as values.
  abbrev pub EncodingFields : Bool → Pairs U → Values U → List ℕ → Type 0
  EncodingFields true ps vs bs = EncodingPairs utf8 ps bs
  EncodingFields false ps vs bs = EncodingAll utf8 vs bs

  pub no_fields_sent : (named : Bool) → EncodingFields named no_pairs no_values []
  no_fields_sent true = refl
  no_fields_sent false = refl

from_signed_lem :
    (z : ℤ)
    → IsSigned 9223372036854775808 z
    → IsIntPriv (from_signed z).n × (to_ℤ (from_signed z).n ≡ z)
unfolding from_signed
from_signed_lem (pos n) h =
    rw (le→ltb n 0 (omega arith), as_unsigned_pos 18446744073709551616 n (omega arith))
      (omega arith, refl)
from_signed_lem (negsuc n) h = (h, refl)

module _ {bo : ByteOrder} (big : IsBigEndian bo) {U : Type 0} (utf8 : Utf8 U) {W E : Type 0}
    (write_all : List ℕ → M W E (Unit {0})) {sent : W → List ℕ}
    (sink : IsSink (io_write write_all) sent) where
  pub signed_sent :
      (z : ℤ)
      → IsSigned 9223372036854775808 z
      → Represents utf8 sent (serialize_i64 bo write_all z) (integer (from_signed z))
  unfolding serialize_i64
  signed_sent z h =
      let (stored, same) = from_signed_lem z h in
      let (mk, form, short, writes) = write_sint-WritesShortestInt big sink z h in
      (
        int_bytes mk z,
        (mk, stored, subst (IntForm mk) (sym same) form, ap (int_bytes mk) (sym same)),
        Sends-pure (Sends-try (λ e. e) writes),
      )

  pub unsigned_sent :
      (n : ℕ)
      → n < 18446744073709551616
      → Represents utf8 sent (serialize_u64 bo write_all n) (integer (from_unsigned n))
  unfolding serialize_u64 from_unsigned
  unsigned_sent n h =
      let (mk, form, short, writes) = write_uint-WritesShortestInt big sink n (omega arith) in
      (int_bytes mk (pos n), (mk, h, form, refl), Sends-pure (Sends-try (λ e. e) writes))

  pub text_sent :
      (t : List ℕ)
      → IsText utf8 t
      → Represents utf8 sent (serialize_str bo write_all t) (string (text t))
  unfolding serialize_str
  text_sent t (valid, h) =
      let (mk, form, short, writes) = write_str-Writes big sink t h in
      (_, (mk, valid, form, refl), Sends-try (λ e. e) writes)

  pub bytes_sent :
      (b : List ℕ)
      → length b < 2 ^ 32
      → Represents utf8 sent (serialize_bytes bo write_all b) (binary b)
  unfolding serialize_bytes io_write
  bytes_sent b h =
      let (mk, form, short, writes) = write_bin_len-WritesShortest big sink (length b) h in
      let whole : length b % 2 ^ 32 ≡ length b = omega arith in
      (
        _,
        (mk, form, refl),
        rw whole
            (Sends->>= _ (Sends-try (λ e. e) writes) (Sends-try invalid_data_write (sink.bytes b))),
      )

  pub unit_sent : Represents utf8 sent (serialize_unit bo write_all) nil
  unfolding serialize_unit
  unit_sent = (_, inl refl, Sends-try invalid_marker_write (write_nil-Writes sink))

  pub bool_sent : (b : Bool) → Represents utf8 sent (serialize_bool bo write_all b) (boolean b)
  unfolding serialize_bool
  bool_sent b = (_, refl, Sends-try invalid_marker_write (write_bool-Writes sink b))

  -- A length of an array or of a map, and the parts behind it.
  pub array_sent :
      (n : ℕ) (vs : Values U) (cs : List ℕ) (m : M W (Error E) (Unit {0}))
      → count_values vs ≡ n
      → n < 2 ^ 32
      → EncodingAll utf8 vs cs
      → Sends sent m cs tt
      → Represents utf8 sent (array_len bo write_all n >> m) (array vs)
  array_sent n vs cs m same h all rest =
      let (mk, form, short, writes) = write_array_len-WritesShortest big sink n h in
      (
        header mk n ++ cs,
        (mk, cs, subst (ArrayForm mk) (sym same) form, all, ap (λ k. header mk k ++ cs) (sym same)),
        Sends->> (Sends-pure (Sends-try (λ e. e) writes)) rest,
      )

  pub no_items_sent : Represents utf8 sent (array_len bo write_all 0) (array no_values)
  no_items_sent =
      let (mk, form, short, writes) = write_array_len-WritesShortest big sink 0 (omega arith) in
      (
        header mk 0,
        (mk, [], form, refl, sym (append-nil (header mk 0))),
        Sends-pure (Sends-try (λ e. e) writes),
      )

  pub map_sent :
      (n : ℕ) (ps : Pairs U) (cs : List ℕ) (m : M W (Error E) (Unit {0}))
      → count_pairs ps ≡ n
      → n < 2 ^ 32
      → EncodingPairs utf8 ps cs
      → Sends sent m cs tt
      → Represents utf8 sent (map_len bo write_all n >> m) (map ps)
  map_sent n ps cs m same h all rest =
      let (mk, form, short, writes) = write_map_len-WritesShortest big sink n h in
      (
        header mk n ++ cs,
        (mk, cs, subst (MapForm mk) (sym same) form, all, ap (λ k. header mk k ++ cs) (sym same)),
        Sends->> (Sends-pure (Sends-try (λ e. e) writes)) rest,
      )

  pub ident_sent :
      (config : Config) (idx : ℕ) (variant : List ℕ)
      → IsText utf8 variant
      → Represents utf8 sent
          (write_variant_ident bo write_all config idx variant)
          (string (text variant))
  ident_sent config idx variant h =
      rw (write_variant_ident_lem bo write_all config idx variant) (text_sent variant h)

  -- A map from a variant's name to what stands in it.
  pub variant_sent :
      (config : Config) (idx : ℕ) (variant : List ℕ) (v : Value U) (m : M W (Error E) (Unit {0}))
      → IsText utf8 variant
      → Represents utf8 sent m v
      → Represents utf8 sent
          (map_len bo write_all 1 >> (write_variant_ident bo write_all config idx variant >> m))
          (variant_value variant v)
  variant_sent config idx variant v m h (bs, encoded, sends) =
      let (key, name, first) = ident_sent config idx variant h in
      map_sent 1 (pair (string (text variant)) v no_pairs) (key ++ bs) _ refl (omega arith)
        (key, bs, [], name, encoded, refl, ap (λ l. key ++ l) (sym (append-nil bs)))
        (Sends->> first sends)

  pub field_sent :
      (named : Bool) (key : List ℕ) (v : Value U) (ps : Pairs U) (vs : Values U) (cs : List ℕ)
      (m : M W (Error E) (Unit {0})) (k : M W (Error E) (Unit {0}))
      → IsText utf8 key
      → Represents utf8 sent m v
      → EncodingFields utf8 named ps vs cs
      → Sends sent k cs tt
      → (bs : List ℕ) × EncodingFields utf8 named (pair (string (text key)) v ps) (value v vs) bs
        × Sends sent ((if named then serialize_str bo write_all key >> m else m) >> k) bs tt
  field_sent true key v ps vs cs m k h (b, encoded, sends) all rest =
      let (a, name, first) = text_sent key h in
      (
        (a ++ b) ++ cs,
        (a, b, cs, name, encoded, all, append_assoc a b cs),
        Sends->> (Sends->> first sends) rest,
      )
  field_sent false key v ps vs cs m k h (b, encoded, sends) all rest =
      (b ++ cs, (b, cs, encoded, all, refl), Sends->> sends rest)

  pub struct_sent :
      (named : Bool) (n : ℕ) (ps : Pairs U) (vs : Values U) (cs : List ℕ)
      (m : M W (Error E) (Unit {0}))
      → count_pairs ps ≡ n
      → count_values vs ≡ n
      → n < 2 ^ 32
      → EncodingFields utf8 named ps vs cs
      → Sends sent m cs tt
      → Represents utf8 sent
          ((if named then map_len bo write_all n else array_len bo write_all n) >> m)
          (if named then map ps else array vs)
  struct_sent true n ps vs cs m p q h all rest = map_sent n ps cs m p h all rest
  struct_sent false n ps vs cs m p q h all rest = array_sent n vs cs m q h all rest

module _ {U : Type 0} (utf8 : Utf8 U) {W E : Type 0} (sent : W → List ℕ) where
  -- A choice that the code and what is written make by the same test.
  pub either_sent :
      (b : Bool) {P Q : Type 0} (m k : M W (Error E) (Unit {0})) (v w : Value U)
      → (if b then P else Q)
      → (P → Represents utf8 sent m v)
      → (Q → Represents utf8 sent k w)
      → Represents utf8 sent (if b then m else k) (if b then v else w)
  either_sent true m k v w h f g = f h
  either_sent false m k v w h f g = g h
