-- ===== src/Encode/Uint.antt =====
-- rmp/src/encode/uint.rs: unsigned integers, of a given width or as short as possible.
use msgpack_rust.Common.{ℕ, ◌%◌, ltb, if◌then◌else◌}
use msgpack_rust.Common.Outcome.{M, ◌>>◌, map_err, pure, panic}
use msgpack_rust.ByteOrder.{ByteOrder}
use msgpack_rust.Marker.{Marker, fix_pos, u8, u16, u32, u64}
use msgpack_rust.Encode.{
  RmpWrite, ValueWriteError, invalid_marker_write, try_marker, try_data, write_marker,
  write_data_u8, write_data_u16, write_data_u32, write_data_u64,
}

module _ {W E : Type 0} (io : RmpWrite W E) where
  -- Panics by its assertion on a value of eight bits.
  unfoldable pub write_pfix : ℕ → M W E (Unit {0})
  write_pfix val = if ltb val 128 then write_marker io (fix_pos val) else panic

  unfoldable pub write_u8 : ℕ → M W (ValueWriteError E) (Unit {0})
  write_u8 val = do try_marker (write_marker io u8); try_data (write_data_u8 io val)

module _ (bo : ByteOrder) {W E : Type 0} (io : RmpWrite W E) where
  unfoldable pub write_u16 : ℕ → M W (ValueWriteError E) (Unit {0})
  write_u16 val = do try_marker (write_marker io u16); try_data (write_data_u16 bo io val)

  unfoldable pub write_u32 : ℕ → M W (ValueWriteError E) (Unit {0})
  write_u32 val = do try_marker (write_marker io u32); try_data (write_data_u32 bo io val)

  unfoldable pub write_u64 : ℕ → M W (ValueWriteError E) (Unit {0})
  write_u64 val = do try_marker (write_marker io u64); try_data (write_data_u64 bo io val)

  unfoldable pub write_uint : ℕ → M W (ValueWriteError E) Marker
  write_uint val =
      if ltb val 128
      then map_err invalid_marker_write (write_pfix io (val % 256) >> pure (fix_pos (val % 256)))
      else if ltb val 256
      then write_u8 io (val % 256) >> pure u8
      else if ltb val 65536
      then write_u16 (val % 65536) >> pure u16
      else if ltb val 4294967296
      then write_u32 (val % 4294967296) >> pure u32
      else write_u64 val >> pure u64
