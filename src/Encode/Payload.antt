-- ===== src/Encode/Payload.antt =====
-- rmp/src/encode/str.rs and rmp/src/encode/bin.rs: strings and byte arrays with their header.
use msgpack_rust.Common.{ℕ, ◌%◌, ◌^◌, List, length}
use msgpack_rust.Common.Outcome.{M, ◌>>=◌, map_err}
use msgpack_rust.ByteOrder.{ByteOrder}
use msgpack_rust.Encode.{RmpWrite, ValueWriteError, invalid_data_write}
use msgpack_rust.Encode.Len.{write_str_len, write_bin_len}

module _ (bo : ByteOrder) {W E : Type 0} (io : RmpWrite W E) where
  -- A `&str` is its bytes. The length is cast to 32 bits.
  unfoldable pub write_str : List ℕ → M W (ValueWriteError E) (Unit {0})
  write_str text = do
    _ ← write_str_len bo io (length text % 2 ^ 32)
    map_err invalid_data_write (io.write_bytes text)

  unfoldable pub write_bin : List ℕ → M W (ValueWriteError E) (Unit {0})
  write_bin bytes = do
    _ ← write_bin_len bo io (length bytes % 2 ^ 32)
    map_err invalid_data_write (io.write_bytes bytes)
