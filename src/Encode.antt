-- ===== src/Encode.antt =====
-- rmp/src/encode/mod.rs: the trait `RmpWrite`, the errors and the calls that write one marker.
pub mod Logic
pub mod Wire
pub mod Ints
pub mod Headers
pub mod Ext
pub mod Shortest
pub mod Buffer
pub mod Uint
pub mod Sint
pub mod Dec
pub mod Len
pub mod Payload
use msgpack_rust.Common.{ℕ, ◌%◌, List, [], ◌∷◌, Bool, if◌then◌else◌}
use msgpack_rust.Common.Int.{ℤ, as_unsigned}
use msgpack_rust.Common.Outcome.{M, map_err}
use msgpack_rust.ByteOrder.{ByteOrder}
use msgpack_rust.Marker.{Marker, to_u8}

-- The trait `RmpWrite`: `W` is the writer behind `&mut self`, `E` its associated error type.
pub record RmpWrite (W E : Type 0) : Type 0 where
  pub write_u8 : ℕ → M W E (Unit {0})
  pub write_bytes : List ℕ → M W E (Unit {0})

-- The body that the trait gives for `write_u8`.
unfoldable pub default_write_u8 :
    {W E : Type 0} → (List ℕ → M W E (Unit {0})) → ℕ → M W E (Unit {0})
default_write_u8 write_bytes val = write_bytes (val ∷ [])

-- `impl RmpWrite for T: std::io::Write`, over the `write_all` of the writer.
unfoldable pub io_write : {W E : Type 0} → (List ℕ → M W E (Unit {0})) → RmpWrite W E
unfolding default_write_u8
io_write write_all = record { write_u8 = default_write_u8 write_all; write_bytes = write_all }

pub data ValueWriteError (E : Type 0) : Type 0 where
  invalid_marker_write : E → ValueWriteError E
  invalid_data_write : E → ValueWriteError E

-- `?` on a `MarkerWriteError` and on a `DataWriteError` where a `ValueWriteError` is returned.
module _ {W E A : Type 0} where
  abbrev pub try_marker : M W E A → M W (ValueWriteError E) A
  try_marker = map_err invalid_marker_write

  abbrev pub try_data : M W E A → M W (ValueWriteError E) A
  try_data = map_err invalid_data_write

module _ {W E : Type 0} (io : RmpWrite W E) where
  unfoldable pub write_marker : Marker → M W E (Unit {0})
  write_marker marker = io.write_u8 (to_u8 marker)

  unfoldable pub write_nil : M W E (Unit {0})
  write_nil = write_marker Marker.null

  unfoldable pub write_bool : Bool → M W E (Unit {0})
  write_bool val = write_marker (if val then Marker.true else Marker.false)

  unfoldable pub write_data_u8 : ℕ → M W E (Unit {0})
  write_data_u8 val = io.write_u8 val

  unfoldable pub write_data_i8 : ℤ → M W E (Unit {0})
  write_data_i8 val = write_data_u8 (as_unsigned 256 val)

-- What the macro `write_byteorder_utils` generates: the number's bytes in one `write_bytes`.
-- A float is its bit pattern.
module _ (bo : ByteOrder) {W E : Type 0} (io : RmpWrite W E) where
  unfoldable pub write_data_u16 : ℕ → M W E (Unit {0})
  write_data_u16 val = io.write_bytes (bo.put_u 2 val)

  unfoldable pub write_data_u32 : ℕ → M W E (Unit {0})
  write_data_u32 val = io.write_bytes (bo.put_u 4 val)

  unfoldable pub write_data_u64 : ℕ → M W E (Unit {0})
  write_data_u64 val = io.write_bytes (bo.put_u 8 val)

  unfoldable pub write_data_i16 : ℤ → M W E (Unit {0})
  write_data_i16 val = io.write_bytes (bo.put_i 2 val)

  unfoldable pub write_data_i32 : ℤ → M W E (Unit {0})
  write_data_i32 val = io.write_bytes (bo.put_i 4 val)

  unfoldable pub write_data_i64 : ℤ → M W E (Unit {0})
  write_data_i64 val = io.write_bytes (bo.put_i 8 val)

  unfoldable pub write_data_f32 : ℕ → M W E (Unit {0})
  write_data_f32 bits = io.write_bytes (bo.put_u 4 bits)

  unfoldable pub write_data_f64 : ℕ → M W E (Unit {0})
  write_data_f64 bits = io.write_bytes (bo.put_u 8 bits)
