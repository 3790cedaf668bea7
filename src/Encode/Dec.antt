-- ===== src/Encode/Dec.antt =====
-- rmp/src/encode/dec.rs: floating point numbers, as their IEEE 754 bit patterns.
use msgpack_rust.Common.{ℕ}
use msgpack_rust.Common.Outcome.{M, ◌>>◌}
use msgpack_rust.ByteOrder.{ByteOrder}
use msgpack_rust.Marker.{f32, f64}
use msgpack_rust.Encode.{
  RmpWrite, ValueWriteError, try_marker, try_data, write_marker, write_data_f32, write_data_f64,
}

module _ (bo : ByteOrder) {W E : Type 0} (io : RmpWrite W E) where
  unfoldable pub write_f32 : ℕ → M W (ValueWriteError E) (Unit {0})
  write_f32 bits = do try_marker (write_marker io f32); try_data (write_data_f32 bo io bits)

  unfoldable pub write_f64 : ℕ → M W (ValueWriteError E) (Unit {0})
  write_f64 bits = do try_marker (write_marker io f64); try_data (write_data_f64 bo io bits)
