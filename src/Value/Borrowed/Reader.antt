-- ===== src/Value/Borrowed/Reader.antt =====
-- rmpv/src/decode/value_ref.rs: `read_value_ref`, which borrows from the reader's buffer.
use msgpack_rust.Common.{
  Bool, ℕ, zero, suc, ltb, if◌then◌else◌, Option, none, some, List, length, take,
}
use msgpack_rust.Common.Int.{ℤ}
use msgpack_rust.Common.Outcome.{Outcome, ok, panicked, M, ◌>>=◌, ◌>>◌, map_err, pure, fail, panic}
use msgpack_rust.ByteOrder.{ByteOrder}
use msgpack_rust.Marker.{
  Marker, fix_pos, fix_neg, null, u8, u16, u32, u64, i8, i16, i32, i64, fix_str, str8, str16, str32,
  bin8, bin16, bin32, fix_array, array16, array32, fix_map, map16, map32, fix_ext1, fix_ext2,
  fix_ext4, fix_ext8, fix_ext16, ext8, ext16, ext32, reserved,
}
use msgpack_rust.Decode.{
  RmpRead, ValueReadError, read_marker, read_data_u8, read_data_i8, read_data_u16, read_data_u32,
  read_data_u64, read_data_i16, read_data_i32, read_data_i64, read_data_f32, read_data_f64,
}
use msgpack_rust.Decode.Str.{Utf8}
use msgpack_rust.Value.Ints.{from_unsigned, from_signed}
use msgpack_rust.Value.Read
use msgpack_rust.Value.Read.{
  Read, Error, invalid_marker_read, invalid_data_read, unexpected_eof, decrement_depth, max_depth,
}
use msgpack_rust.Value.Borrowed.{
  ValueRef, ValueRefs, PairRefs, Utf8StringRef, text, raw, nil, boolean, integer, string, binary,
  array, map, ext, no_values, value, no_pairs, pair,
}

-- The trait `BorrowRead`: a `Read` with a buffer. `consume` gives no reader where it panics.
pub record BorrowRead (R E : Type 0) : Type 0 where
  pub read : Read R E
  pub fill_buf : R → List ℕ
  pub consume : ℕ → R → Option R

-- `rd.fill_buf()` and `rd.consume(len)` as calls.
abbrev pub filled : {R E : Type 0} → BorrowRead R E → M R (Error E) (List ℕ)
filled br r = ok (br.fill_buf r) r

abbrev pub moved : {R E : Type 0} → Option R → Outcome R (Error E) (Unit {0})
moved none = panicked
moved (some r) = ok tt r

abbrev pub consumed : {R E : Type 0} → BorrowRead R E → ℕ → M R (Error E) (Unit {0})
consumed br len r = moved (br.consume len r)

module _ (bo : ByteOrder) {U : Type 0} (utf8 : Utf8 U) {R E : Type 0} (br : BorrowRead R E) where
  -- `impl From<ValueReadError> for Error`, and rmp's calls on the reader.
  abbrev try_data : {A : Type 0} → M R (ValueReadError E) A → M R (Error E) A
  try_data = map_err (Read.from_value_error bo utf8 br.read)

  abbrev rmp : RmpRead R E
  rmp = Read.rmp bo utf8 br.read

  unfoldable pub read_bin_data : ℕ → ℕ → M R (Error E) (List ℕ)
  unfolding decrement_depth
  read_bin_data len depth = do
    _ ← decrement_depth depth
    buf ← filled br
    (if ltb (length buf) len
        then fail (invalid_data_read (br.read.new_error unexpected_eof))
        else (do consumed br len; pure (take len buf)))

  -- `str::from_utf8` of the bytes, both results wrapped.
  unfoldable pub to_utf8_string_ref : List ℕ → Utf8StringRef U
  to_utf8_string_ref buf = elim (utf8.error buf) [ none ↦ text buf | some e ↦ raw buf e ]

  unfoldable pub read_str_data : ℕ → ℕ → M R (Error E) (Utf8StringRef U)
  unfolding decrement_depth read_bin_data
  read_str_data len depth = do
    depth' ← decrement_depth depth
    buf ← read_bin_data len depth'
    pure (to_utf8_string_ref buf)

  unfoldable pub read_ext_body : ℕ → ℕ → M R (Error E) (ℤ × List ℕ)
  unfolding decrement_depth read_bin_data
  read_ext_body len depth = do
    depth' ← decrement_depth depth
    ty ← try_data (read_data_i8 rmp)
    buf ← read_bin_data len depth'
    pure (ty, buf)

  -- The loops push `len` values, or pairs, in the order in which they are read.
  unfoldable pub read_values : M R (Error E) (ValueRef U) → ℕ → M R (Error E) (ValueRefs U)
  read_values inner zero = pure no_values
  read_values inner (suc len) = do v ← inner; vs ← read_values inner len; pure (value v vs)

  unfoldable pub read_pairs : M R (Error E) (ValueRef U) → ℕ → M R (Error E) (PairRefs U)
  read_pairs inner zero = pure no_pairs
  read_pairs inner (suc len) = do
    k ← inner
    v ← inner
    ps ← read_pairs inner len
    pure (pair k v ps)

  -- `inner depth` is the recursive call `read_value_ref_inner(rd, depth)`.
  unfoldable pub read_array_data :
      (ℕ → M R (Error E) (ValueRef U)) → ℕ → ℕ → M R (Error E) (ValueRefs U)
  unfolding decrement_depth read_values
  read_array_data inner len depth = do
    depth' ← decrement_depth depth
    read_values (inner depth') len

  unfoldable pub read_map_data :
      (ℕ → M R (Error E) (ValueRef U)) → ℕ → ℕ → M R (Error E) (PairRefs U)
  unfolding decrement_depth read_pairs
  read_map_data inner len depth = do depth' ← decrement_depth depth; read_pairs (inner depth') len

  -- The match of `read_value_ref_inner`.
  unfoldable pub read_marked :
      (ℕ → M R (Error E) (ValueRef U)) → ℕ → Marker → M R (Error E) (ValueRef U)
  unfolding read_array_data read_map_data read_str_data read_bin_data read_ext_body
  read_marked inner depth null = pure nil
  read_marked inner depth Marker.true = pure (boolean Bool.true)
  read_marked inner depth Marker.false = pure (boolean Bool.false)
  read_marked inner depth (fix_pos val) = pure (integer (from_unsigned val))
  read_marked inner depth (fix_neg val) = pure (integer (from_signed val))
  read_marked inner depth u8 = do n ← try_data (read_data_u8 rmp); pure (integer (from_unsigned n))
  read_marked inner depth u16 = do
    n ← try_data (read_data_u16 bo rmp)
    pure (integer (from_unsigned n))
  read_marked inner depth u32 = do
    n ← try_data (read_data_u32 bo rmp)
    pure (integer (from_unsigned n))
  read_marked inner depth u64 = do
    n ← try_data (read_data_u64 bo rmp)
    pure (integer (from_unsigned n))
  read_marked inner depth i8 = do z ← try_data (read_data_i8 rmp); pure (integer (from_signed z))
  read_marked inner depth i16 = do
    z ← try_data (read_data_i16 bo rmp)
    pure (integer (from_signed z))
  read_marked inner depth i32 = do
    z ← try_data (read_data_i32 bo rmp)
    pure (integer (from_signed z))
  read_marked inner depth i64 = do
    z ← try_data (read_data_i64 bo rmp)
    pure (integer (from_signed z))
  read_marked inner depth Marker.f32 = do
    bits ← try_data (read_data_f32 bo rmp)
    pure (ValueRef.f32 bits)
  read_marked inner depth Marker.f64 = do
    bits ← try_data (read_data_f64 bo rmp)
    pure (ValueRef.f64 bits)
  read_marked inner depth (fix_str len) = do res ← read_str_data len depth; pure (string res)
  read_marked inner depth str8 = do
    len ← try_data (read_data_u8 rmp)
    res ← read_str_data len depth
    pure (string res)
  read_marked inner depth str16 = do
    len ← try_data (read_data_u16 bo rmp)
    res ← read_str_data len depth
    pure (string res)
  read_marked inner depth str32 = do
    len ← try_data (read_data_u32 bo rmp)
    res ← read_str_data len depth
    pure (string res)
  read_marked inner depth (fix_array len) = do
    vec ← read_array_data inner len depth
    pure (array vec)
  read_marked inner depth array16 = do
    len ← try_data (read_data_u16 bo rmp)
    vec ← read_array_data inner len depth
    pure (array vec)
  read_marked inner depth array32 = do
    len ← try_data (read_data_u32 bo rmp)
    vec ← read_array_data inner len depth
    pure (array vec)
  read_marked inner depth (fix_map len) = do map' ← read_map_data inner len depth; pure (map map')
  read_marked inner depth map16 = do
    len ← try_data (read_data_u16 bo rmp)
    map' ← read_map_data inner len depth
    pure (map map')
  read_marked inner depth map32 = do
    len ← try_data (read_data_u32 bo rmp)
    map' ← read_map_data inner len depth
    pure (map map')
  read_marked inner depth bin8 = do
    len ← try_data (read_data_u8 rmp)
    vec ← read_bin_data len depth
    pure (binary vec)
  read_marked inner depth bin16 = do
    len ← try_data (read_data_u16 bo rmp)
    vec ← read_bin_data len depth
    pure (binary vec)
  read_marked inner depth bin32 = do
    len ← try_data (read_data_u32 bo rmp)
    vec ← read_bin_data len depth
    pure (binary vec)
  read_marked inner depth fix_ext1 = do body ← read_ext_body 1 depth; pure (ext body.0 body.1)
  read_marked inner depth fix_ext2 = do body ← read_ext_body 2 depth; pure (ext body.0 body.1)
  read_marked inner depth fix_ext4 = do body ← read_ext_body 4 depth; pure (ext body.0 body.1)
  read_marked inner depth fix_ext8 = do body ← read_ext_body 8 depth; pure (ext body.0 body.1)
  read_marked inner depth fix_ext16 = do body ← read_ext_body 16 depth; pure (ext body.0 body.1)
  read_marked inner depth ext8 = do
    len ← try_data (read_data_u8 rmp)
    body ← read_ext_body len depth
    pure (ext body.0 body.1)
  read_marked inner depth ext16 = do
    len ← try_data (read_data_u16 bo rmp)
    body ← read_ext_body len depth
    pure (ext body.0 body.1)
  read_marked inner depth ext32 = do
    len ← try_data (read_data_u32 bo rmp)
    body ← read_ext_body len depth
    pure (ext body.0 body.1)
  read_marked inner depth reserved = pure nil

  -- `read_value_ref_inner`, with a bound on the number of nested calls. Each takes one off the depth.
  unfoldable pub read_value_ref_fuel : ℕ → ℕ → M R (Error E) (ValueRef U)
  unfolding read_marked decrement_depth
  read_value_ref_fuel zero depth = panic
  read_value_ref_fuel (suc fuel) depth = do
    depth' ← decrement_depth depth
    mk ← map_err invalid_marker_read (read_marker rmp)
    read_marked (read_value_ref_fuel fuel) depth' mk

  unfoldable pub read_value_ref_inner : ℕ → M R (Error E) (ValueRef U)
  unfolding read_value_ref_fuel
  read_value_ref_inner depth = read_value_ref_fuel (suc depth) depth

  unfoldable pub read_value_ref : M R (Error E) (ValueRef U)
  unfolding read_value_ref_inner
  read_value_ref = read_value_ref_inner max_depth

  unfoldable pub read_value_ref_with_max_depth : ℕ → M R (Error E) (ValueRef U)
  unfolding read_value_ref_inner
  read_value_ref_with_max_depth limit = read_value_ref_inner limit
