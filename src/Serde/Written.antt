-- ===== src/Serde/Written.antt =====
-- rmp-serde/src/encode.rs: `Serializer`, and the encodings of what it serializes.
use msgpack_rust.Common.{
  ℕ, suc, ◌+◌, ◌^◌, ◌<◌, ◌≡◌, refl, none, some, if◌then◌else◌, List, [], ◌++◌, arith,
}
use msgpack_rust.Common.Int.{as_unsigned}
use msgpack_rust.Common.Outcome.{M}
use msgpack_rust.ByteOrder.{ByteOrder, IsBigEndian}
use msgpack_rust.ByteOrder.Laws.{length-be_bytes}
use msgpack_rust.Encode.{io_write}
use msgpack_rust.Encode.Logic.{IsSink}
use msgpack_rust.Encode.Wire.{write_f32-Writes, write_f64-Writes}
use msgpack_rust.Decode.Str.{Utf8}
use msgpack_rust.Value.{Value}
use msgpack_rust.Value.Lookup.{same_bytes}
use msgpack_rust.Value.Encoding.{Encoding, EncodingAll, EncodingPairs}
use msgpack_rust.Serde.{
  Data, Items, Entries, Fields, no_items, item, no_entries, entry, no_fields, field, bool, i8, i16,
  i32, i64, i128, u8, u16, u32, u64, u128, f32, f64, char, str, bytes, unit, unit_struct,
  unit_variant, newtype_struct, newtype_variant, seq, tuple, tuple_struct, tuple_variant, map,
  struct, struct_variant, by_format, custom, count_items, count_entries,
}
use msgpack_rust.Serde.Config.{Config, is_human_readable, names_fields, write_struct_field_lem}
use msgpack_rust.Serde.Serializer.{
  serialize, serialize_items, serialize_entries, serialize_fields, serialize_counted,
  serialize_counted_entries, end_seq, end_map, vec_write_all, msgpack_ext_struct_name,
}
use msgpack_rust.Serde.Logic.{
  Sends, Sends-try, Sends->>, Sends-nothing, counted, vec_write_all-IsSink,
}
use msgpack_rust.Serde.Meaning.{
  IsData, AreItems, AreEntries, AreFields, ext_value, value_of, values_of, pairs_of, named_of,
  unnamed_of,
}
use msgpack_rust.Serde.Parts.{
  Represents, EncodingFields, signed_sent, unsigned_sent, text_sent, bytes_sent, unit_sent,
  bool_sent, no_items_sent, no_fields_sent, ident_sent, variant_sent, field_sent, either_sent,
}
use msgpack_rust.Serde.Compound.{
  widen, ext_sent, array_of, map_of, struct_of, counted_seq, counted_map,
}

module _ {bo : ByteOrder} (big : IsBigEndian bo) {U : Type 0} (utf8 : Utf8 U)
    (config : Config) where
  mutual
    unfolding serialize serialize_items serialize_entries serialize_fields serialize_counted
        serialize_counted_entries end_seq end_map io_write

    data_sent :
        (d : Data)
        → IsData utf8 config d
        → (W E : Type 0) (write_all : List ℕ → M W E (Unit {0})) (sent : W → List ℕ)
        → IsSink (io_write write_all) sent
        → Represents utf8 sent (serialize bo config d W E write_all) (value_of config d)
    data_sent (bool v) h W E write_all sent sink = bool_sent big utf8 write_all sink v
    data_sent (i8 v) h W E write_all sent sink =
        signed_sent big utf8 write_all sink v (widen 128 v h (omega arith))
    data_sent (i16 v) h W E write_all sent sink =
        signed_sent big utf8 write_all sink v (widen 32768 v h (omega arith))
    data_sent (i32 v) h W E write_all sent sink =
        signed_sent big utf8 write_all sink v (widen 2147483648 v h (omega arith))
    data_sent (i64 v) h W E write_all sent sink = signed_sent big utf8 write_all sink v h
    data_sent (i128 v) h W E write_all sent sink =
        bytes_sent big utf8 write_all sink _
          (omega (arith, length-be_bytes 16 (as_unsigned (2 ^ 128) v)))
    data_sent (u8 v) h W E write_all sent sink =
        unsigned_sent big utf8 write_all sink v (omega arith)
    data_sent (u16 v) h W E write_all sent sink =
        unsigned_sent big utf8 write_all sink v (omega arith)
    data_sent (u32 v) h W E write_all sent sink =
        unsigned_sent big utf8 write_all sink v (omega arith)
    data_sent (u64 v) h W E write_all sent sink = unsigned_sent big utf8 write_all sink v h
    data_sent (u128 v) h W E write_all sent sink =
        bytes_sent big utf8 write_all sink _ (omega (arith, length-be_bytes 16 v))
    data_sent (f32 v) h W E write_all sent sink =
        (_, (h, refl), Sends-try (λ e. e) (write_f32-Writes big sink v))
    data_sent (f64 v) h W E write_all sent sink =
        (_, (h, refl), Sends-try (λ e. e) (write_f64-Writes big sink v))
    data_sent (char v) h W E write_all sent sink = text_sent big utf8 write_all sink v h
    data_sent (str v) h W E write_all sent sink = text_sent big utf8 write_all sink v h
    data_sent (bytes v) h W E write_all sent sink = bytes_sent big utf8 write_all sink v h
    data_sent Data.none h W E write_all sent sink = unit_sent big utf8 write_all sink
    data_sent (Data.some v) h W E write_all sent sink = data_sent v h W E write_all sent sink
    data_sent unit h W E write_all sent sink = unit_sent big utf8 write_all sink
    data_sent (unit_struct name) h W E write_all sent sink = no_items_sent big utf8 write_all sink
    data_sent (unit_variant name idx variant) h W E write_all sent sink =
        ident_sent big utf8 write_all sink config idx variant h
    data_sent (newtype_struct name v) h W E write_all sent sink =
        either_sent utf8 sent (same_bytes name msgpack_ext_struct_name) _ _ (ext_value v)
          (value_of config v) h (ext_sent big utf8 write_all sink v)
          (λ k. data_sent v k W E write_all sent sink)
    data_sent (newtype_variant name idx variant v) (t, h) W E write_all sent sink =
        variant_sent big utf8 write_all sink config idx variant (value_of config v) _ t
          (data_sent v h W E write_all sent sink)
    data_sent (seq (some len) ds) (same, few, all) W E write_all sent sink =
        array_of big utf8 config write_all sink len ds _ same few
          (items_sent ds all W E write_all sent sink)
    data_sent (seq none ds) (few, all) W E write_all sent sink =
        counted_seq big utf8 config write_all sink ds _ few (
          counted_sent ds 0 all (omega arith) (List ℕ) ⊥ vec_write_all (λ buf. buf)
            vec_write_all-IsSink)
    data_sent (tuple len ds) (same, few, all) W E write_all sent sink =
        array_of big utf8 config write_all sink len ds _ same few
          (items_sent ds all W E write_all sent sink)
    data_sent (tuple_struct name len ds) (same, few, all) W E write_all sent sink =
        array_of big utf8 config write_all sink len ds _ same few
          (items_sent ds all W E write_all sent sink)
    data_sent (tuple_variant name idx variant len ds) (t, same, few, all) W E write_all sent sink =
        variant_sent big utf8 write_all sink config idx variant (Value.array (values_of config ds))
          _ t
          (array_of big utf8 config write_all sink len ds _ same few
            (items_sent ds all W E write_all sent sink))
    data_sent (map (some len) es) (same, few, all) W E write_all sent sink =
        map_of big utf8 config write_all sink len es _ same few
          (entries_sent es all W E write_all sent sink)
    data_sent (map none es) (few, all) W E write_all sent sink =
        counted_map big utf8 config write_all sink es _ few (
          counted_entries_sent es 0 all (omega arith) (List ℕ) ⊥ vec_write_all (λ buf. buf)
            vec_write_all-IsSink)
    data_sent (struct name len fs) (same, few, all) W E write_all sent sink =
        struct_of big utf8 config write_all sink len fs _ same few
          (fields_sent fs all W E write_all sent sink)
    data_sent (struct_variant name idx variant len fs) (t, same, few, all) W E write_all sent sink =
        variant_sent big utf8 write_all sink config idx variant
          (if names_fields config
            then Value.map (named_of config fs)
            else Value.array (unnamed_of config fs))
          _ t
          (struct_of big utf8 config write_all sink len fs _ same few
            (fields_sent fs all W E write_all sent sink))
    data_sent (by_format r b) h W E write_all sent sink =
        either_sent utf8 sent (is_human_readable config) _ _ (value_of config r) (value_of config b)
          h (λ k. data_sent r k W E write_all sent sink)
          (λ k. data_sent b k W E write_all sent sink)
    data_sent (custom msg) h W E write_all sent sink = absurd h

    items_sent :
        (ds : Items)
        → AreItems utf8 config ds
        → (W E : Type 0) (write_all : List ℕ → M W E (Unit {0})) (sent : W → List ℕ)
        → IsSink (io_write write_all) sent
        → (bs : List ℕ) × EncodingAll utf8 (values_of config ds) bs
          × Sends sent (serialize_items bo config ds W E write_all) bs tt
    items_sent no_items h W E write_all sent sink = ([], refl, Sends-nothing tt)
    items_sent (item d ds) (h, all) W E write_all sent sink =
        let (b, e, sends) = data_sent d h W E write_all sent sink in
        let (c, encoded, rest) = items_sent ds all W E write_all sent sink in
        (b ++ c, (b, c, e, encoded, refl), Sends->> sends rest)

    entries_sent :
        (es : Entries)
        → AreEntries utf8 config es
        → (W E : Type 0) (write_all : List ℕ → M W E (Unit {0})) (sent : W → List ℕ)
        → IsSink (io_write write_all) sent
        → (bs : List ℕ) × EncodingPairs utf8 (pairs_of config es) bs
          × Sends sent (serialize_entries bo config es W E write_all) bs tt
    entries_sent no_entries h W E write_all sent sink = ([], refl, Sends-nothing tt)
    entries_sent (entry k v es) (h, g, all) W E write_all sent sink =
        let (a, d, first) = data_sent k h W E write_all sent sink in
        let (b, e, sends) = data_sent v g W E write_all sent sink in
        let (c, encoded, rest) = entries_sent es all W E write_all sent sink in
        (a ++ (b ++ c), (a, b, c, d, e, encoded, refl), Sends->> first (Sends->> sends rest))

    fields_sent :
        (fs : Fields)
        → AreFields utf8 config fs
        → (W E : Type 0) (write_all : List ℕ → M W E (Unit {0})) (sent : W → List ℕ)
        → IsSink (io_write write_all) sent
        → (bs : List ℕ) × EncodingFields utf8
            (names_fields config)
            (named_of config fs)
            (unnamed_of config fs)
            bs
          × Sends sent (serialize_fields bo config fs W E write_all) bs tt
    fields_sent no_fields h W E write_all sent sink =
        ([], no_fields_sent utf8 (names_fields config), Sends-nothing tt)
    fields_sent (field key v fs) (t, h, all) W E write_all sent sink =
        let (cs, encoded, rest) = fields_sent fs all W E write_all sent sink in
        rw (write_struct_field_lem bo write_all config key (serialize bo config v W E write_all)) (
          field_sent big utf8 write_all sink (names_fields config) key (value_of config v)
            (named_of config fs) (unnamed_of config fs) cs _ _ t
            (data_sent v h W E write_all sent sink) encoded rest)

    counted_sent :
        (ds : Items) (n : ℕ)
        → AreItems utf8 config ds
        → n + count_items ds < 2 ^ 32
        → (W E : Type 0) (write_all : List ℕ → M W E (Unit {0})) (sent : W → List ℕ)
        → IsSink (io_write write_all) sent
        → (bs : List ℕ) × EncodingAll utf8 (values_of config ds) bs
          × Sends sent (serialize_counted bo config ds n W E write_all) bs (n + count_items ds)
    counted_sent no_items n h few W E write_all sent sink =
        let same : n + 0 ≡ n = omega arith in rw same ([], refl, Sends-nothing n)
    counted_sent (item d ds) n (h, all) few W E write_all sent sink =
        let (b, e, sends) = data_sent d h W E write_all sent sink in
        let (c, encoded, rest) =
          counted_sent ds (n + 1) all (omega arith) W E write_all sent sink in
        let same : n + suc (count_items ds) ≡ n + 1 + count_items ds = omega arith in
        rw same (b ++ c, (b, c, e, encoded, refl), Sends->> sends (counted n _ (omega arith) rest))

    counted_entries_sent :
        (es : Entries) (n : ℕ)
        → AreEntries utf8 config es
        → n + (count_entries es + count_entries es) < 2 ^ 32
        → (W E : Type 0) (write_all : List ℕ → M W E (Unit {0})) (sent : W → List ℕ)
        → IsSink (io_write write_all) sent
        → (bs : List ℕ) × EncodingPairs utf8 (pairs_of config es) bs
          × Sends sent
              (serialize_counted_entries bo config es n W E write_all)
              bs
              (n + (count_entries es + count_entries es))
    counted_entries_sent no_entries n h few W E write_all sent sink =
        let same : n + (0 + 0) ≡ n = omega arith in rw same ([], refl, Sends-nothing n)
    counted_entries_sent (entry k v es) n (h, g, all) few W E write_all sent sink =
        let (a, d, first) = data_sent k h W E write_all sent sink in
        let (b, e, sends) = data_sent v g W E write_all sent sink in
        let (c, encoded, rest) =
          counted_entries_sent es (n + 1 + 1) all (omega arith) W E write_all sent sink in
        let same : n + (suc (count_entries es) + suc (count_entries es))
            ≡ n + 1 + 1 + (count_entries es + count_entries es) =
          omega arith in
        rw same (
          a ++ (b ++ c),
          (a, b, c, d, e, encoded, refl),
          Sends->> first
              (counted n _ (omega arith) (Sends->> sends (counted (n + 1) _ (omega arith) rest))),
        )

  -- Under every configuration and on every writer that takes what is written to it or fails, for a
  -- `Serialize` implementation none of whose calls fails by itself, whose numbers are within their
  -- types and whose strings are UTF-8, whose lengths and counts are below 2^32 and are the number
  -- of parts where they are announced, and which passes a pair of an i8 and bytes, as a tuple, and
  -- nothing else, under the name `_ExtStruct` (where the length of a map is not announced, its keys
  -- and its values are counted together): serializing it appends an encoding of the value that it
  -- stands for under that configuration; it fails only with an error of the writer, with a prefix
  -- of the encoding sent.
  pub serialize-Sends :
      (d : Data)
      → IsData utf8 config d
      → {W E : Type 0} (write_all : List ℕ → M W E (Unit {0})) {sent : W → List ℕ}
      → IsSink (io_write write_all) sent
      → (bs : List ℕ) × Encoding utf8 (value_of config d) bs
        × Sends sent (serialize bo config d W E write_all) bs tt
  serialize-Sends d h {W} {E} write_all {sent} sink = data_sent d h W E write_all sent sink

  -- The same of the elements of a compound.
  pub serialize_items-Sends :
      (ds : Items)
      → AreItems utf8 config ds
      → {W E : Type 0} (write_all : List ℕ → M W E (Unit {0})) {sent : W → List ℕ}
      → IsSink (io_write write_all) sent
      → (bs : List ℕ) × EncodingAll utf8 (values_of config ds) bs
        × Sends sent (serialize_items bo config ds W E write_all) bs tt
  serialize_items-Sends ds h {W} {E} write_all {sent} sink = items_sent ds h W E write_all sent sink
