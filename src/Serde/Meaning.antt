-- ===== src/Serde/Meaning.antt =====
-- rmp-serde/src/encode.rs: which value a `Serialize` implementation stands for under a
-- configuration, and which implementations can be stored.
use msgpack_rust.Common.{
  ℕ, suc, ◌+◌, ◌<◌, ◌^◌, ◌≡◌, refl, ap, none, some, if◌then◌else◌, List, length,
}
use msgpack_rust.Common.Int.{as_unsigned, IsSigned, ℤ}
use msgpack_rust.ByteOrder.{be_bytes}
use msgpack_rust.Decode.Str.{Utf8}
use msgpack_rust.Value
use msgpack_rust.Value.{Value, Values, Pairs, count_values, count_pairs}
use msgpack_rust.Value.Ints.{from_signed, from_unsigned}
use msgpack_rust.Value.Lookup.{same_bytes}
use msgpack_rust.Serde.{
  Data, Items, Entries, Fields, no_items, item, no_entries, entry, no_fields, field, bool, i8, i16,
  i32, i64, i128, u8, u16, u32, u64, u128, f32, f64, char, str, bytes, unit, unit_struct,
  unit_variant, newtype_struct, newtype_variant, seq, tuple, tuple_struct, tuple_variant, map,
  struct, struct_variant, by_format, custom, count_items, count_entries, count_fields,
}
use msgpack_rust.Serde.Config.{Config, is_human_readable, names_fields}
use msgpack_rust.Serde.Serializer.{msgpack_ext_struct_name}

-- What stands under the name of an extension: a pair of its type and its bytes.
pub data IsExt : Data → Type 0 where
  ext_pair :
      {len : ℕ} {ty : ℤ} {buf : List ℕ}
      → IsSigned 128 ty
      → length buf < 2 ^ 32
      → IsExt (tuple len (item (i8 ty) (item (bytes buf) no_items)))
  ext_format : {h b : Data} → IsExt h → IsExt (by_format h b)

module _ {U : Type 0} where
  abbrev pub ext_value : Data → Value U
  ext_value (tuple len (item (i8 ty) (item (bytes buf) no_items))) = Value.ext ty buf
  ext_value (by_format h b) = ext_value h
  ext_value _ = Value.nil

  -- A variant is a map of one pair, from its name.
  abbrev pub variant_value : List ℕ → Value U → Value U
  variant_value variant v =
      Value.map (Value.pair (Value.string (Value.text variant)) v Value.no_pairs)

module _ {U : Type 0} (config : Config) where
  abbrev mutual
    pub value_of : Data → Value U
    value_of (bool v) = Value.boolean v
    value_of (i8 v) = Value.integer (from_signed v)
    value_of (i16 v) = Value.integer (from_signed v)
    value_of (i32 v) = Value.integer (from_signed v)
    value_of (i64 v) = Value.integer (from_signed v)
    value_of (i128 v) = Value.binary (be_bytes 16 (as_unsigned (2 ^ 128) v))
    value_of (u8 v) = Value.integer (from_unsigned v)
    value_of (u16 v) = Value.integer (from_unsigned v)
    value_of (u32 v) = Value.integer (from_unsigned v)
    value_of (u64 v) = Value.integer (from_unsigned v)
    value_of (u128 v) = Value.binary (be_bytes 16 v)
    value_of (f32 v) = Value.f32 v
    value_of (f64 v) = Value.f64 v
    value_of (char v) = Value.string (Value.text v)
    value_of (str v) = Value.string (Value.text v)
    value_of (bytes v) = Value.binary v
    value_of Data.none = Value.nil
    value_of (Data.some v) = value_of v
    value_of unit = Value.nil
    value_of (unit_struct name) = Value.array Value.no_values
    value_of (unit_variant name idx variant) = Value.string (Value.text variant)
    value_of (newtype_struct name v) =
        if same_bytes name msgpack_ext_struct_name then ext_value v else value_of v
    value_of (newtype_variant name idx variant v) = variant_value variant (value_of v)
    value_of (seq len ds) = Value.array (values_of ds)
    value_of (tuple len ds) = Value.array (values_of ds)
    value_of (tuple_struct name len ds) = Value.array (values_of ds)
    value_of (tuple_variant name idx variant len ds) =
        variant_value variant (Value.array (values_of ds))
    value_of (map len es) = Value.map (pairs_of es)
    value_of (struct name len fs) =
        if names_fields config then Value.map (named_of fs) else Value.array (unnamed_of fs)
    value_of (struct_variant name idx variant len fs) =
        variant_value variant
          (if names_fields config then Value.map (named_of fs) else Value.array (unnamed_of fs))
    value_of (by_format h b) = if is_human_readable config then value_of h else value_of b
    value_of (custom msg) = Value.nil

    pub values_of : Items → Values U
    values_of no_items = Value.no_values
    values_of (item d ds) = Value.value (value_of d) (values_of ds)

    pub pairs_of : Entries → Pairs U
    pairs_of no_entries = Value.no_pairs
    pairs_of (entry k v es) = Value.pair (value_of k) (value_of v) (pairs_of es)

    -- The fields of a struct, with their names and without.
    pub named_of : Fields → Pairs U
    named_of no_fields = Value.no_pairs
    named_of (field key v fs) =
        Value.pair (Value.string (Value.text key)) (value_of v) (named_of fs)

    pub unnamed_of : Fields → Values U
    unnamed_of no_fields = Value.no_values
    unnamed_of (field key v fs) = Value.value (value_of v) (unnamed_of fs)

module _ (U : Type 0) (config : Config) where
  pub count-values_of : (ds : Items) → count_values (values_of {U = U} config ds) ≡ count_items ds
  count-values_of no_items = refl
  count-values_of (item d ds) = ap suc (count-values_of ds)

  pub count-pairs_of : (es : Entries) → count_pairs (pairs_of {U = U} config es) ≡ count_entries es
  count-pairs_of no_entries = refl
  count-pairs_of (entry k v es) = ap suc (count-pairs_of es)

  pub count-named_of : (fs : Fields) → count_pairs (named_of {U = U} config fs) ≡ count_fields fs
  count-named_of no_fields = refl
  count-named_of (field key v fs) = ap suc (count-named_of fs)

  pub count-unnamed_of :
      (fs : Fields) → count_values (unnamed_of {U = U} config fs) ≡ count_fields fs
  count-unnamed_of no_fields = refl
  count-unnamed_of (field key v fs) = ap suc (count-unnamed_of fs)

module _ {U : Type 0} (utf8 : Utf8 U) where
  abbrev pub IsText : List ℕ → Type 0
  IsText t = (utf8.error t ≡ none) × (length t < 2 ^ 32)

module _ {U : Type 0} (utf8 : Utf8 U) (config : Config) where
  -- Numbers are within their types, strings are UTF-8, lengths fit in 32 bits and are the number of
  -- parts where they are announced, no call fails by itself, and under the name of an extension stands
  -- a pair of its type and its bytes. Where the length of a map is not announced, its keys and values
  -- together are counted in 32 bits.
  abbrev mutual
    pub IsData : Data → Type 0
    IsData (bool v) = Unit {0}
    IsData (i8 v) = IsSigned 128 v
    IsData (i16 v) = IsSigned 32768 v
    IsData (i32 v) = IsSigned 2147483648 v
    IsData (i64 v) = IsSigned 9223372036854775808 v
    IsData (i128 v) = Unit {0}
    IsData (u8 v) = v < 256
    IsData (u16 v) = v < 65536
    IsData (u32 v) = v < 4294967296
    IsData (u64 v) = v < 18446744073709551616
    IsData (u128 v) = Unit {0}
    IsData (f32 v) = v < 4294967296
    IsData (f64 v) = v < 18446744073709551616
    IsData (char v) = IsText utf8 v
    IsData (str v) = IsText utf8 v
    IsData (bytes v) = length v < 2 ^ 32
    IsData Data.none = Unit {0}
    IsData (Data.some v) = IsData v
    IsData unit = Unit {0}
    IsData (unit_struct name) = Unit {0}
    IsData (unit_variant name idx variant) = IsText utf8 variant
    IsData (newtype_struct name v) =
        if same_bytes name msgpack_ext_struct_name then IsExt v else IsData v
    IsData (newtype_variant name idx variant v) = IsText utf8 variant × IsData v
    IsData (seq (some len) ds) = (len ≡ count_items ds) × (len < 2 ^ 32) × AreItems ds
    IsData (seq none ds) = (count_items ds < 2 ^ 32) × AreItems ds
    IsData (tuple len ds) = (len ≡ count_items ds) × (len < 2 ^ 32) × AreItems ds
    IsData (tuple_struct name len ds) = (len ≡ count_items ds) × (len < 2 ^ 32) × AreItems ds
    IsData (tuple_variant name idx variant len ds) =
        IsText utf8 variant × (len ≡ count_items ds) × (len < 2 ^ 32) × AreItems ds
    IsData (map (some len) es) = (len ≡ count_entries es) × (len < 2 ^ 32) × AreEntries es
    IsData (map none es) = (count_entries es + count_entries es < 2 ^ 32) × AreEntries es
    IsData (struct name len fs) = (len ≡ count_fields fs) × (len < 2 ^ 32) × AreFields fs
    IsData (struct_variant name idx variant len fs) =
        IsText utf8 variant × (len ≡ count_fields fs) × (len < 2 ^ 32) × AreFields fs
    IsData (by_format h b) = if is_human_readable config then IsData h else IsData b
    IsData (custom msg) = ⊥

    pub AreItems : Items → Type 0
    AreItems no_items = Unit {0}
    AreItems (item d ds) = IsData d × AreItems ds

    pub AreEntries : Entries → Type 0
    AreEntries no_entries = Unit {0}
    AreEntries (entry k v es) = IsData k × IsData v × AreEntries es

    pub AreFields : Fields → Type 0
    AreFields no_fields = Unit {0}
    AreFields (field key v fs) = IsText utf8 key × IsData v × AreFields fs
