-- ===== src/Decode/Len.antt =====
-- The headers of arrays, maps, byte arrays and strings: rmp/src/decode/mod.rs, and
-- `read_str_len` of rmp/src/decode/str.rs.
use msgpack_rust.Common.{ℕ}
use msgpack_rust.Common.Outcome.{M, ◌>>=◌, pure, fail}
use msgpack_rust.ByteOrder.{ByteOrder}
use msgpack_rust.Marker.{
  Marker, fix_array, array16, array32, fix_map, map16, map32, fix_str, str8, str16, str32, bin8,
  bin16, bin32,
}
use msgpack_rust.Decode.{
  RmpRead, ValueReadError, type_mismatch, try_marker, read_marker, read_data_u8, read_data_u16,
  read_data_u32,
}

module _ (bo : ByteOrder) {R E : Type 0} (rd : RmpRead R E) where
  unfoldable pub read_array_len : M R (ValueReadError E) ℕ
  read_array_len = do
    mk ← try_marker (read_marker rd)
    elim mk [
      | fix_array size ↦ pure size
      | array16 ↦ read_data_u16 bo rd
      | array32 ↦ read_data_u32 bo rd
      | other ↦ fail (type_mismatch other)
    ]

  unfoldable pub marker_to_len : Marker → M R (ValueReadError E) ℕ
  marker_to_len (fix_map size) = pure size
  marker_to_len map16 = read_data_u16 bo rd
  marker_to_len map32 = read_data_u32 bo rd
  marker_to_len other = fail (type_mismatch other)

  unfoldable pub read_map_len : M R (ValueReadError E) ℕ
  unfolding marker_to_len
  read_map_len = do mk ← try_marker (read_marker rd); marker_to_len mk

  unfoldable pub read_bin_len : M R (ValueReadError E) ℕ
  read_bin_len = do
    mk ← try_marker (read_marker rd)
    elim mk [
      | bin8 ↦ read_data_u8 rd
      | bin16 ↦ read_data_u16 bo rd
      | bin32 ↦ read_data_u32 bo rd
      | other ↦ fail (type_mismatch other)
    ]

  -- The length, and the number of bytes that the header takes.
  unfoldable pub read_str_len_with_nread : M R (ValueReadError E) (ℕ × ℕ)
  read_str_len_with_nread = do
    mk ← try_marker (read_marker rd)
    elim mk [
      | fix_str size ↦ pure (size, 1)
      | str8 ↦ do len ← read_data_u8 rd; pure (len, 2)
      | str16 ↦ do len ← read_data_u16 bo rd; pure (len, 3)
      | str32 ↦ do len ← read_data_u32 bo rd; pure (len, 5)
      | other ↦ fail (type_mismatch other)
    ]

  unfoldable pub read_str_len : M R (ValueReadError E) ℕ
  unfolding read_str_len_with_nread
  read_str_len = do header ← read_str_len_with_nread; pure header.0
