-- ===== src/Value/Read.antt =====
-- rmpv/src/decode/mod.rs and value.rs: `read_value`, with a limit on the depth.
use msgpack_rust.Common.{Bool, ℕ, zero, suc, ◌==◌, if◌then◌else◌, none, some, List, length}
use msgpack_rust.Common.Int.{ℤ}
use msgpack_rust.Common.Outcome.{M, ◌>>=◌, map_err, pure, fail, panic}
use msgpack_rust.ByteOrder.{ByteOrder}
use msgpack_rust.Marker.{
  Marker, fix_pos, fix_neg, null, u8, u16, u32, u64, i8, i16, i32, i64, fix_str, str8, str16, str32,
  bin8, bin16, bin32, fix_array, array16, array32, fix_map, map16, map32, fix_ext1, fix_ext2,
  fix_ext4, fix_ext8, fix_ext16, ext8, ext16, ext32, reserved,
}
use msgpack_rust.Decode
use msgpack_rust.Decode.{
  RmpRead, ValueReadError, io_read, read_marker, read_data_u8, read_data_i8, read_data_u16,
  read_data_u32, read_data_u64, read_data_i16, read_data_i32, read_data_i64, read_data_f32,
  read_data_f64,
}
use msgpack_rust.Decode.Str.{Utf8}
use msgpack_rust.Value.{
  Value, Values, Pairs, Utf8String, text, raw, nil, boolean, integer, string, binary, array, map,
  ext, no_values, value, no_pairs, pair,
}
use msgpack_rust.Value.Ints.{from_unsigned, from_signed}

-- The kinds of `io::Error` that the code makes itself.
pub data ErrorKind : Type 0 where
  unexpected_eof other : ErrorKind

-- The `std::io::Read` that is read from. `take_to_end n` is `rd.take(n).read_to_end(&mut buf)`, and
-- gives the bytes that it appends to the buffer.
pub record Read (R E : Type 0) : Type 0 where
  pub read_exact : ℕ → M R E (List ℕ)
  pub take_to_end : ℕ → M R E (List ℕ)
  pub new_error : ErrorKind → E

pub data Error (E : Type 0) : Type 0 where
  invalid_marker_read : E → Error E
  invalid_data_read : E → Error E
  depth_limit_exceeded : Error E

abbrev pub max_depth : ℕ
max_depth = 1024

unfoldable pub decrement_depth : {R E : Type 0} → ℕ → M R (Error E) ℕ
decrement_depth zero = fail depth_limit_exceeded
decrement_depth (suc depth) = pure depth

module _ (bo : ByteOrder) {U : Type 0} (utf8 : Utf8 U) {R E : Type 0} (rd : Read R E) where
  -- `impl From<ValueReadError> for Error`
  unfoldable pub from_value_error : ValueReadError E → Error E
  from_value_error (Decode.invalid_marker_read e) = invalid_marker_read e
  from_value_error (Decode.invalid_data_read e) = invalid_data_read e
  from_value_error (Decode.type_mismatch mk) = invalid_marker_read (rd.new_error other)

  unfoldable pub rmp : RmpRead R E
  rmp = io_read rd.read_exact

  unfoldable pub read_bin_data : ℕ → ℕ → M R (Error E) (List ℕ)
  unfolding decrement_depth
  read_bin_data len depth = do
    _ ← decrement_depth depth
    buf ← map_err invalid_data_read (rd.take_to_end len)
    if length buf == len then pure buf else fail (invalid_data_read (rd.new_error unexpected_eof))

  -- `String::from_utf8` of the bytes, both results wrapped.
  unfoldable pub to_utf8_string : List ℕ → Utf8String U
  to_utf8_string buf = elim (utf8.error buf) [ none ↦ text buf | some e ↦ raw buf e ]

  unfoldable pub read_str_data : ℕ → ℕ → M R (Error E) (Utf8String U)
  unfolding decrement_depth read_bin_data
  read_str_data len depth = do
    depth' ← decrement_depth depth
    buf ← read_bin_data len depth'
    pure (to_utf8_string buf)

  unfoldable pub read_ext_body : ℕ → ℕ → M R (Error E) (ℤ × List ℕ)
  unfolding decrement_depth read_bin_data
  read_ext_body len depth = do
    depth' ← decrement_depth depth
    ty ← map_err from_value_error (read_data_i8 rmp)
    vec ← read_bin_data len depth'
    pure (ty, vec)

  -- The loops push `len` values, or pairs, in the order in which they are read.
  unfoldable pub read_values : M R (Error E) (Value U) → ℕ → M R (Error E) (Values U)
  read_values inner zero = pure no_values
  read_values inner (suc len) = do v ← inner; vs ← read_values inner len; pure (value v vs)

  unfoldable pub read_pairs : M R (Error E) (Value U) → ℕ → M R (Error E) (Pairs U)
  read_pairs inner zero = pure no_pairs
  read_pairs inner (suc len) = do
    k ← inner
    v ← inner
    ps ← read_pairs inner len
    pure (pair k v ps)

  -- `inner depth` is the recursive call `read_value_inner(rd, depth)`.
  unfoldable pub read_array_data : (ℕ → M R (Error E) (Value U)) → ℕ → ℕ → M R (Error E) (Values U)
  unfolding decrement_depth read_values
  read_array_data inner len depth = do
    depth' ← decrement_depth depth
    read_values (inner depth') len

  unfoldable pub read_map_data : (ℕ → M R (Error E) (Value U)) → ℕ → ℕ → M R (Error E) (Pairs U)
  unfolding decrement_depth read_pairs
  read_map_data inner len depth = do depth' ← decrement_depth depth; read_pairs (inner depth') len

  -- The match of `read_value_inner`.
  unfoldable pub read_marked : (ℕ → M R (Error E) (Value U)) → ℕ → Marker → M R (Error E) (Value U)
  unfolding read_array_data read_map_data read_str_data read_bin_data read_ext_body
  read_marked inner depth null = pure nil
  read_marked inner depth Marker.true = pure (boolean Bool.true)
  read_marked inner depth Marker.false = pure (boolean Bool.false)
  read_marked inner depth (fix_pos val) = pure (integer (from_unsigned val))
  read_marked inner depth (fix_neg val) = pure (integer (from_signed val))
  read_marked inner depth u8 = do
    n ← map_err from_value_error (read_data_u8 rmp)
    pure (integer (from_unsigned n))
  read_marked inner depth u16 = do
    n ← map_err from_value_error (read_data_u16 bo rmp)
    pure (integer (from_unsigned n))
  read_marked inner depth u32 = do
    n ← map_err from_value_error (read_data_u32 bo rmp)
    pure (integer (from_unsigned n))
  read_marked inner depth u64 = do
    n ← map_err from_value_error (read_data_u64 bo rmp)
    pure (integer (from_unsigned n))
  read_marked inner depth i8 = do
    z ← map_err from_value_error (read_data_i8 rmp)
    pure (integer (from_signed z))
  read_marked inner depth i16 = do
    z ← map_err from_value_error (read_data_i16 bo rmp)
    pure (integer (from_signed z))
  read_marked inner depth i32 = do
    z ← map_err from_value_error (read_data_i32 bo rmp)
    pure (integer (from_signed z))
  read_marked inner depth i64 = do
    z ← map_err from_value_error (read_data_i64 bo rmp)
    pure (integer (from_signed z))
  read_marked inner depth Marker.f32 = do
    bits ← map_err from_value_error (read_data_f32 bo rmp)
    pure (Value.f32 bits)
  read_marked inner depth Marker.f64 = do
    bits ← map_err from_value_error (read_data_f64 bo rmp)
    pure (Value.f64 bits)
  read_marked inner depth (fix_str len) = do res ← read_str_data len depth; pure (string res)
  read_marked inner depth str8 = do
    len ← map_err from_value_error (read_data_u8 rmp)
    res ← read_str_data len depth
    pure (string res)
  read_marked inner depth str16 = do
    len ← map_err from_value_error (read_data_u16 bo rmp)
    res ← read_str_data len depth
    pure (string res)
  read_marked inner depth str32 = do
    len ← map_err from_value_error (read_data_u32 bo rmp)
    res ← read_str_data len depth
    pure (string res)
  read_marked inner depth (fix_array len) = do
    vec ← read_array_data inner len depth
    pure (array vec)
  read_marked inner depth array16 = do
    len ← map_err from_value_error (read_data_u16 bo rmp)
    vec ← read_array_data inner len depth
    pure (array vec)
  read_marked inner depth array32 = do
    len ← map_err from_value_error (read_data_u32 bo rmp)
    vec ← read_array_data inner len depth
    pure (array vec)
  read_marked inner depth (fix_map len) = do map' ← read_map_data inner len depth; pure (map map')
  read_marked inner depth map16 = do
    len ← map_err from_value_error (read_data_u16 bo rmp)
    map' ← read_map_data inner len depth
    pure (map map')
  read_marked inner depth map32 = do
    len ← map_err from_value_error (read_data_u32 bo rmp)
    map' ← read_map_data inner len depth
    pure (map map')
  read_marked inner depth bin8 = do
    len ← map_err from_value_error (read_data_u8 rmp)
    vec ← read_bin_data len depth
    pure (binary vec)
  read_marked inner depth bin16 = do
    len ← map_err from_value_error (read_data_u16 bo rmp)
    vec ← read_bin_data len depth
    pure (binary vec)
  read_marked inner depth bin32 = do
    len ← map_err from_value_error (read_data_u32 bo rmp)
    vec ← read_bin_data len depth
    pure (binary vec)
  read_marked inner depth fix_ext1 = do body ← read_ext_body 1 depth; pure (ext body.0 body.1)
  read_marked inner depth fix_ext2 = do body ← read_ext_body 2 depth; pure (ext body.0 body.1)
  read_marked inner depth fix_ext4 = do body ← read_ext_body 4 depth; pure (ext body.0 body.1)
  read_marked inner depth fix_ext8 = do body ← read_ext_body 8 depth; pure (ext body.0 body.1)
  read_marked inner depth fix_ext16 = do body ← read_ext_body 16 depth; pure (ext body.0 body.1)
  read_marked inner depth ext8 = do
    len ← map_err from_value_error (read_data_u8 rmp)
    body ← read_ext_body len depth
    pure (ext body.0 body.1)
  read_marked inner depth ext16 = do
    len ← map_err from_value_error (read_data_u16 bo rmp)
    body ← read_ext_body len depth
    pure (ext body.0 body.1)
  read_marked inner depth ext32 = do
    len ← map_err from_value_error (read_data_u32 bo rmp)
    body ← read_ext_body len depth
    pure (ext body.0 body.1)
  read_marked inner depth reserved = pure nil

  -- `read_value_inner`, with a bound on the number of nested calls. Each takes one off the depth.
  unfoldable pub read_value_fuel : ℕ → ℕ → M R (Error E) (Value U)
  unfolding read_marked decrement_depth
  read_value_fuel zero depth = panic
  read_value_fuel (suc fuel) depth = do
    depth' ← decrement_depth depth
    mk ← map_err invalid_marker_read (read_marker rmp)
    read_marked (read_value_fuel fuel) depth' mk

  unfoldable pub read_value_inner : ℕ → M R (Error E) (Value U)
  unfolding read_value_fuel
  read_value_inner depth = read_value_fuel (suc depth) depth

  unfoldable pub read_value : M R (Error E) (Value U)
  unfolding read_value_inner
  read_value = read_value_inner max_depth

  unfoldable pub read_value_with_max_depth : ℕ → M R (Error E) (Value U)
  unfolding read_value_inner
  read_value_with_max_depth limit = read_value_inner limit
