-- ===== src/Encode/Len.antt =====
-- The headers of strings, byte arrays, arrays, maps and extensions: rmp/src/encode/str.rs,
-- rmp/src/encode/bin.rs and the end of rmp/src/encode/mod.rs.
use msgpack_rust.Common.{ℕ, ◌%◌, ltb, leb, ◌==◌, if◌then◌else◌}
use msgpack_rust.Common.Int.{ℤ}
use msgpack_rust.Common.Outcome.{M, ◌>>=◌, ◌>>◌, pure}
use msgpack_rust.ByteOrder.{ByteOrder}
use msgpack_rust.Marker.{
  Marker, fix_array, array16, array32, fix_map, map16, map32, fix_ext1, fix_ext2, fix_ext4,
  fix_ext8, fix_ext16, ext8, ext16, ext32, fix_str, str8, str16, str32, bin8, bin16, bin32,
}
use msgpack_rust.Encode.{
  RmpWrite, ValueWriteError, try_marker, try_data, write_marker, write_data_u8, write_data_i8,
  write_data_u16, write_data_u32,
}

module _ (bo : ByteOrder) {W E : Type 0} (io : RmpWrite W E) where
  unfoldable pub write_str_len : ℕ → M W (ValueWriteError E) Marker
  write_str_len len =
      if ltb len 32
      then try_marker (write_marker io (fix_str (len % 256))) >> pure (fix_str (len % 256))
      else if ltb len 256
      then (do
        try_marker (write_marker io str8)
        try_data (write_data_u8 io (len % 256))
        pure str8)
      else if leb len 65535
      then (do
        try_marker (write_marker io str16)
        try_data (write_data_u16 bo io (len % 65536))
        pure str16)
      else (do try_marker (write_marker io str32); try_data (write_data_u32 bo io len); pure str32)

  unfoldable pub write_bin_len : ℕ → M W (ValueWriteError E) Marker
  write_bin_len len =
      if ltb len 256
      then (do
        try_marker (write_marker io bin8)
        try_data (write_data_u8 io (len % 256))
        pure bin8)
      else if leb len 65535
      then (do
        try_marker (write_marker io bin16)
        try_data (write_data_u16 bo io (len % 65536))
        pure bin16)
      else (do try_marker (write_marker io bin32); try_data (write_data_u32 bo io len); pure bin32)

  unfoldable pub write_array_len : ℕ → M W (ValueWriteError E) Marker
  write_array_len len =
      if ltb len 16
      then try_marker (write_marker io (fix_array (len % 256))) >> pure (fix_array (len % 256))
      else if leb len 65535
      then (do
        try_marker (write_marker io array16)
        try_data (write_data_u16 bo io (len % 65536))
        pure array16)
      else (do
        try_marker (write_marker io array32)
        try_data (write_data_u32 bo io len)
        pure array32)

  unfoldable pub write_map_len : ℕ → M W (ValueWriteError E) Marker
  write_map_len len =
      if ltb len 16
      then try_marker (write_marker io (fix_map (len % 256))) >> pure (fix_map (len % 256))
      else if leb len 65535
      then (do
        try_marker (write_marker io map16)
        try_data (write_data_u16 bo io (len % 65536))
        pure map16)
      else (do try_marker (write_marker io map32); try_data (write_data_u32 bo io len); pure map32)

  -- The match on the length, which gives the marker.
  unfoldable pub write_ext_size : ℕ → M W (ValueWriteError E) Marker
  write_ext_size len =
      if len == 1
      then try_marker (write_marker io fix_ext1) >> pure fix_ext1
      else if len == 2
      then try_marker (write_marker io fix_ext2) >> pure fix_ext2
      else if len == 4
      then try_marker (write_marker io fix_ext4) >> pure fix_ext4
      else if len == 8
      then try_marker (write_marker io fix_ext8) >> pure fix_ext8
      else if len == 16
      then try_marker (write_marker io fix_ext16) >> pure fix_ext16
      else if ltb len 256
      then (do
        try_marker (write_marker io ext8)
        try_data (write_data_u8 io (len % 256))
        pure ext8)
      else if ltb len 65536
      then (do
        try_marker (write_marker io ext16)
        try_data (write_data_u16 bo io (len % 65536))
        pure ext16)
      else (do try_marker (write_marker io ext32); try_data (write_data_u32 bo io len); pure ext32)

  unfoldable pub write_ext_meta : ℕ → ℤ → M W (ValueWriteError E) Marker
  unfolding write_ext_size
  write_ext_meta len ty = do
    marker ← write_ext_size len
    try_data (write_data_i8 io ty)
    pure marker
