-- ===== src/Encode/Sint.antt =====
-- rmp/src/encode/sint.rs: signed integers, of a given width or as short as possible.
use msgpack_rust.Common.{◌&&◌, if◌then◌else◌}
use msgpack_rust.Common.Int.{ℤ, pos, negsuc, ltb_ℤ, leb_ℤ, as_unsigned, cast_signed}
use msgpack_rust.Common.Outcome.{M, ◌>>◌, map_err, pure, panic}
use msgpack_rust.ByteOrder.{ByteOrder}
use msgpack_rust.Marker.{Marker, fix_pos, fix_neg, u8, u16, u32, u64, i8, i16, i32, i64}
use msgpack_rust.Encode.{
  RmpWrite, ValueWriteError, invalid_marker_write, try_marker, try_data, write_marker,
  write_data_i8, write_data_i16, write_data_i32, write_data_i64,
}
use msgpack_rust.Encode.Uint.{write_pfix, write_u8, write_u16, write_u32, write_u64}

module _ {W E : Type 0} (io : RmpWrite W E) where
  -- Panics by its assertion outside of -32 to -1.
  unfoldable pub write_nfix : ℤ → M W E (Unit {0})
  write_nfix val =
      if leb_ℤ (negsuc 31) val && ltb_ℤ val (pos 0) then write_marker io (fix_neg val) else panic

  unfoldable pub write_i8 : ℤ → M W (ValueWriteError E) (Unit {0})
  write_i8 val = do try_marker (write_marker io i8); try_data (write_data_i8 io val)

module _ (bo : ByteOrder) {W E : Type 0} (io : RmpWrite W E) where
  unfoldable pub write_i16 : ℤ → M W (ValueWriteError E) (Unit {0})
  write_i16 val = do try_marker (write_marker io i16); try_data (write_data_i16 bo io val)

  unfoldable pub write_i32 : ℤ → M W (ValueWriteError E) (Unit {0})
  write_i32 val = do try_marker (write_marker io i32); try_data (write_data_i32 bo io val)

  unfoldable pub write_i64 : ℤ → M W (ValueWriteError E) (Unit {0})
  write_i64 val = do try_marker (write_marker io i64); try_data (write_data_i64 bo io val)

  unfoldable pub write_sint : ℤ → M W (ValueWriteError E) Marker
  write_sint val =
      if leb_ℤ (negsuc 31) val && ltb_ℤ val (pos 0)
      then map_err invalid_marker_write
          (write_nfix io (cast_signed 128 val) >> pure (fix_neg (cast_signed 128 val)))
      else if leb_ℤ (negsuc 127) val && ltb_ℤ val (negsuc 31)
      then write_i8 io (cast_signed 128 val) >> pure i8
      else if leb_ℤ (negsuc 32767) val && ltb_ℤ val (negsuc 127)
      then write_i16 (cast_signed 32768 val) >> pure i16
      else if leb_ℤ (negsuc 2147483647) val && ltb_ℤ val (negsuc 32767)
      then write_i32 (cast_signed 2147483648 val) >> pure i32
      else if ltb_ℤ val (negsuc 2147483647)
      then write_i64 val >> pure i64
      else if leb_ℤ (pos 0) val && ltb_ℤ val (pos 128)
      then map_err invalid_marker_write
          (write_pfix io (as_unsigned 256 val) >> pure (fix_pos (as_unsigned 256 val)))
      else if ltb_ℤ val (pos 256)
      then write_u8 io (as_unsigned 256 val) >> pure u8
      else if ltb_ℤ val (pos 65536)
      then write_u16 bo io (as_unsigned 65536 val) >> pure u16
      else if ltb_ℤ val (pos 4294967296)
      then write_u32 bo io (as_unsigned 4294967296 val) >> pure u32
      else write_u64 bo io (as_unsigned 18446744073709551616 val) >> pure u64
