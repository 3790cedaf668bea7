-- ===== src/Serde/Serializer.antt =====
-- rmp-serde/src/encode.rs: `Serializer` and the functions that serialize with it.
use msgpack_rust.Common.{
  ℕ, ◌+◌, ◌/◌, ◌%◌, ◌^◌, Bool, ltb, if◌then◌else◌, Option, none, some, List, [], ◌∷◌, ◌++◌, length,
}
use msgpack_rust.Common.Int.{ℤ, as_unsigned}
use msgpack_rust.Common.Outcome.{
  Outcome, ok, err, panicked, M, ◌>>=◌, ◌>>◌, map_err, pure, fail, panic,
}
use msgpack_rust.ByteOrder.{ByteOrder, be_bytes}
use msgpack_rust.Encode.{
  ValueWriteError, invalid_marker_write, invalid_data_write, io_write, write_nil, write_bool,
}
use msgpack_rust.Encode.Uint.{write_uint}
use msgpack_rust.Encode.Sint.{write_sint}
use msgpack_rust.Encode.Dec.{write_f32, write_f64}
use msgpack_rust.Encode.Len.{write_array_len, write_map_len, write_bin_len}
use msgpack_rust.Value.Lookup.{same_bytes}
use msgpack_rust.Serde.{
  Data, Items, Entries, Fields, no_items, item, no_entries, entry, no_fields, field, Error,
  invalid_value_write, unknown_length, invalid_data_model, depth_limit_exceeded, syntax, bool, i8,
  i16, i32, i64, i128, u8, u16, u32, u64, u128, f32, f64, char, str, bytes, unit, unit_struct,
  unit_variant, newtype_struct, newtype_variant, seq, tuple, tuple_struct, tuple_variant, map,
  struct, struct_variant, by_format, custom,
}
use msgpack_rust.Serde.Config.{
  Config, is_human_readable, try_write, serialize_str, write_struct_len, write_struct_field,
  write_variant_ident,
}
use msgpack_rust.Serde.Ext
use msgpack_rust.Serde.Ext.{ExtSerializer, serialize_ext}

-- "_ExtStruct"
abbrev pub msgpack_ext_struct_name : List ℕ
msgpack_ext_struct_name =
    95 ∷ (69 ∷ (120 ∷ (116 ∷ (83 ∷ (116 ∷ (114 ∷ (117 ∷ (99 ∷ (116 ∷ [])))))))))

-- `Vec<u8>` as a writer, which does not fail.
unfoldable pub vec_write_all : List ℕ → M (List ℕ) ⊥ (Unit {0})
vec_write_all chunk buf = ok tt (buf ++ chunk)

abbrev pub no_value_write : {E : Type 0} → ValueWriteError ⊥ → Error E
no_value_write (invalid_marker_write e) = absurd e
no_value_write (invalid_data_write e) = absurd e

-- An error of a serializer into a `Vec<u8>`, passed on by `?`.
abbrev pub from_buffer : {E : Type 0} → Error ⊥ → Error E
from_buffer (invalid_value_write e) = no_value_write e
from_buffer unknown_length = unknown_length
from_buffer (invalid_data_model msg) = invalid_data_model msg
from_buffer depth_limit_exceeded = depth_limit_exceeded
from_buffer (syntax msg) = syntax msg

module _ {W E A B : Type 0} where
  abbrev pub after_buffer :
      Outcome (List ℕ) (Error ⊥) A → (A → List ℕ → M W (Error E) B) → M W (Error E) B
  after_buffer (ok a buf) k = k a buf
  after_buffer (err e buf) k = fail (from_buffer e)
  after_buffer panicked k = panic

  -- `m` runs on a new `Vec<u8>`, and `k` has what it gives and the vector's bytes.
  unfoldable pub buffered :
      M (List ℕ) (Error ⊥) A → (A → List ℕ → M W (Error E) B) → M W (Error E) B
  buffered m k = after_buffer (m []) k

-- `elem_count += 1` on 32 bits, which panics where it overflows.
unfoldable pub add_elem : {W E : Type 0} → ℕ → M W (Error E) ℕ
add_elem elem_count = if ltb (elem_count + 1) (2 ^ 32) then pure (elem_count + 1) else panic

module _ (bo : ByteOrder) {W E : Type 0} (write_all : List ℕ → M W E (Unit {0})) where
  unfoldable pub serialize_i64 : ℤ → M W (Error E) (Unit {0})
  serialize_i64 v = do _ ← try_write bo write_all (write_sint bo (io_write write_all) v); pure tt

  unfoldable pub serialize_u64 : ℕ → M W (Error E) (Unit {0})
  serialize_u64 v = do _ ← try_write bo write_all (write_uint bo (io_write write_all) v); pure tt

  unfoldable pub serialize_bytes : List ℕ → M W (Error E) (Unit {0})
  serialize_bytes value = do
    _ ← try_write bo write_all (write_bin_len bo (io_write write_all) (length value % 2 ^ 32))
    map_err (λ e. invalid_value_write (invalid_data_write e)) (write_all value)

  unfoldable pub serialize_unit : M W (Error E) (Unit {0})
  serialize_unit =
      map_err (λ e. invalid_value_write (invalid_marker_write e)) (write_nil (io_write write_all))

  unfoldable pub serialize_bool : Bool → M W (Error E) (Unit {0})
  serialize_bool v =
      map_err (λ e. invalid_value_write (invalid_marker_write e))
        (write_bool (io_write write_all) v)

  -- `encode::write_array_len(..)?` and `encode::write_map_len(..)?` of a length in 32 bits.
  abbrev pub array_len : ℕ → M W (Error E) (Unit {0})
  array_len len = do
    _ ← try_write bo write_all (write_array_len bo (io_write write_all) len)
    pure tt

  abbrev pub map_len : ℕ → M W (Error E) (Unit {0})
  map_len len = do _ ← try_write bo write_all (write_map_len bo (io_write write_all) len); pure tt

  -- `end` of a sequence and of a map whose length was not known.
  unfoldable pub end_seq : ℕ → List ℕ → M W (Error E) (Unit {0})
  end_seq elem_count buf = do
    array_len elem_count
    map_err (λ e. invalid_value_write (invalid_data_write e)) (write_all buf)

  unfoldable pub end_map : ℕ → List ℕ → M W (Error E) (Unit {0})
  end_map elem_count buf = do
    map_len (elem_count / 2)
    map_err (λ e. invalid_value_write (invalid_data_write e)) (write_all buf)

module _ {W E : Type 0} where
  abbrev pub finished : Option (Error E) → W → Outcome W (Error E) (Unit {0})
  finished none wr = ok tt wr
  finished (some e) wr = err e wr

  abbrev pub ended : Outcome (ExtSerializer W) (Error E) (Unit {0}) → Outcome W (Error E) (Unit {0})
  ended (ok a s) = finished (Ext.end s) s.fields_se.wr
  ended (err e s) = err e s.fields_se.wr
  ended panicked = panicked

-- The branch of `serialize_newtype_struct` for the name that stands for an extension.
unfoldable pub serialize_ext_struct :
    ByteOrder → {W E : Type 0} → (List ℕ → M W E (Unit {0})) → Data → M W (Error E) (Unit {0})
unfolding serialize_ext Ext.end Ext.new
serialize_ext_struct bo write_all value wr = ended (serialize_ext bo write_all value (Ext.new wr))

module _ (bo : ByteOrder) (config : Config) where
  unfoldable mutual
    unfolding serialize_i64 serialize_u64 serialize_bytes serialize_unit serialize_bool end_seq
        end_map buffered add_elem vec_write_all serialize_ext_struct serialize_str write_struct_len
        write_struct_field write_variant_ident is_human_readable same_bytes be_bytes

    -- `value.serialize(&mut se)`, where `se` writes by `write_all` under `config`.
    pub serialize : Data → (W E : Type 0) → (List ℕ → M W E (Unit {0})) → M W (Error E) (Unit {0})
    serialize (bool v) W E write_all = serialize_bool bo write_all v
    serialize (i8 v) W E write_all = serialize_i64 bo write_all v
    serialize (i16 v) W E write_all = serialize_i64 bo write_all v
    serialize (i32 v) W E write_all = serialize_i64 bo write_all v
    serialize (i64 v) W E write_all = serialize_i64 bo write_all v
    serialize (i128 v) W E write_all =
        serialize_bytes bo write_all (be_bytes 16 (as_unsigned (2 ^ 128) v))
    serialize (u8 v) W E write_all = serialize_u64 bo write_all v
    serialize (u16 v) W E write_all = serialize_u64 bo write_all v
    serialize (u32 v) W E write_all = serialize_u64 bo write_all v
    serialize (u64 v) W E write_all = serialize_u64 bo write_all v
    serialize (u128 v) W E write_all = serialize_bytes bo write_all (be_bytes 16 v)
    serialize (f32 v) W E write_all = try_write bo write_all (write_f32 bo (io_write write_all) v)
    serialize (f64 v) W E write_all = try_write bo write_all (write_f64 bo (io_write write_all) v)
    serialize (char v) W E write_all = serialize_str bo write_all v
    serialize (str v) W E write_all = serialize_str bo write_all v
    serialize (bytes v) W E write_all = serialize_bytes bo write_all v
    serialize Data.none W E write_all = serialize_unit bo write_all
    serialize (Data.some v) W E write_all = serialize v W E write_all
    serialize unit W E write_all = serialize_unit bo write_all
    serialize (unit_struct name) W E write_all = array_len bo write_all 0
    serialize (unit_variant name idx variant) W E write_all =
        write_variant_ident bo write_all config idx variant
    serialize (newtype_struct name v) W E write_all =
        let inner = serialize v W E write_all in
        if same_bytes name msgpack_ext_struct_name
        then serialize_ext_struct bo write_all v
        else inner
    serialize (newtype_variant name idx variant v) W E write_all = do
      map_len bo write_all 1
      write_variant_ident bo write_all config idx variant
      serialize v W E write_all
    serialize (seq (some len) ds) W E write_all = do
      array_len bo write_all (len % 2 ^ 32)
      serialize_items ds W E write_all
    serialize (seq none ds) W E write_all =
        buffered (serialize_counted ds 0 (List ℕ) ⊥ vec_write_all) (end_seq bo write_all)
    serialize (tuple len ds) W E write_all = do
      array_len bo write_all (len % 2 ^ 32)
      serialize_items ds W E write_all
    serialize (tuple_struct name len ds) W E write_all = do
      array_len bo write_all (len % 2 ^ 32)
      serialize_items ds W E write_all
    serialize (tuple_variant name idx variant len ds) W E write_all = do
      map_len bo write_all 1
      write_variant_ident bo write_all config idx variant
      array_len bo write_all (len % 2 ^ 32)
      serialize_items ds W E write_all
    serialize (map (some len) es) W E write_all = do
      map_len bo write_all (len % 2 ^ 32)
      serialize_entries es W E write_all
    serialize (map none es) W E write_all =
        buffered (serialize_counted_entries es 0 (List ℕ) ⊥ vec_write_all) (end_map bo write_all)
    serialize (struct name len fs) W E write_all = do
      write_struct_len bo write_all config len
      serialize_fields fs W E write_all
    serialize (struct_variant name idx variant len fs) W E write_all = do
      map_len bo write_all 1
      write_variant_ident bo write_all config idx variant
      write_struct_len bo write_all config len
      serialize_fields fs W E write_all
    serialize (by_format h b) W E write_all =
        let readable = serialize h W E write_all in
        let compact = serialize b W E write_all in
        if is_human_readable config then readable else compact
    serialize (custom msg) W E write_all = fail (syntax msg)

    -- The elements, one by one, where the length is known.
    pub serialize_items :
        Items → (W E : Type 0) → (List ℕ → M W E (Unit {0})) → M W (Error E) (Unit {0})
    serialize_items no_items W E write_all = pure tt
    serialize_items (item d ds) W E write_all =
        serialize d W E write_all >> serialize_items ds W E write_all

    pub serialize_entries :
        Entries → (W E : Type 0) → (List ℕ → M W E (Unit {0})) → M W (Error E) (Unit {0})
    serialize_entries no_entries W E write_all = pure tt
    serialize_entries (entry k v es) W E write_all =
        serialize k W E write_all
        >> (serialize v W E write_all >> serialize_entries es W E write_all)

    pub serialize_fields :
        Fields → (W E : Type 0) → (List ℕ → M W E (Unit {0})) → M W (Error E) (Unit {0})
    serialize_fields no_fields W E write_all = pure tt
    serialize_fields (field key v fs) W E write_all =
        write_struct_field bo write_all config key (serialize v W E write_all)
        >> serialize_fields fs W E write_all

    -- The elements where the length is not known, counted: `W` is the buffer of the compound.
    pub serialize_counted :
        Items → ℕ → (W E : Type 0) → (List ℕ → M W E (Unit {0})) → M W (Error E) ℕ
    serialize_counted no_items elem_count W E write_all = pure elem_count
    serialize_counted (item d ds) elem_count W E write_all =
        serialize d W E write_all
        >> (add_elem elem_count >>= λ elem_count'. serialize_counted ds elem_count' W E write_all)

    pub serialize_counted_entries :
        Entries → ℕ → (W E : Type 0) → (List ℕ → M W E (Unit {0})) → M W (Error E) ℕ
    serialize_counted_entries no_entries elem_count W E write_all = pure elem_count
    serialize_counted_entries (entry k v es) elem_count W E write_all =
        serialize k W E write_all
        >> (add_elem elem_count >>= λ after_key.
            serialize v W E write_all
            >> (add_elem after_key >>= λ after_value.
                serialize_counted_entries es after_value W E write_all))
