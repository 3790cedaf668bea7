-- ===== src/Decode.antt =====
-- rmp/src/decode/mod.rs: the trait `RmpRead`, the errors, and the reading of a marker and of the
-- number behind it.
pub mod Logic
pub mod Answers
pub mod Bytes
pub mod Readers
pub mod Wire
pub mod Ints
pub mod Headers
pub mod Strings
pub mod Slices
pub mod Simple
pub mod Single
pub mod Int
pub mod Len
pub mod Ext
pub mod Str
use msgpack_rust.Common.{ℕ, List, [], ◌∷◌}
use msgpack_rust.Common.Int.{ℤ, as_signed}
use msgpack_rust.Common.Outcome.{M, ◌>>=◌, map_err, pure, panic}
use msgpack_rust.ByteOrder.{ByteOrder}
use msgpack_rust.Marker.{Marker, from_u8}

-- The trait `RmpRead`: `R` is the reader behind `&mut self`, `E` its associated error type.
-- `read_exact_buf n` fills a buffer of `n` bytes and gives what stands in it.
pub record RmpRead (R E : Type 0) : Type 0 where
  pub read_u8 : M R E ℕ
  pub read_exact_buf : ℕ → M R E (List ℕ)

-- `buf[0]`
unfoldable pub first_byte : {R E : Type 0} → List ℕ → M R E ℕ
first_byte [] = panic
first_byte (b ∷ _) = pure b

-- The body that the trait gives for `read_u8`.
unfoldable pub default_read_u8 : {R E : Type 0} → (ℕ → M R E (List ℕ)) → M R E ℕ
default_read_u8 read_exact_buf = do buf ← read_exact_buf 1; first_byte buf

-- `impl RmpRead for T: std::io::Read`, over the `read_exact` of the reader.
unfoldable pub io_read : {R E : Type 0} → (ℕ → M R E (List ℕ)) → RmpRead R E
unfolding default_read_u8
io_read read_exact = record { read_u8 = default_read_u8 read_exact; read_exact_buf = read_exact }

pub data ValueReadError (E : Type 0) : Type 0 where
  invalid_marker_read : E → ValueReadError E
  invalid_data_read : E → ValueReadError E
  type_mismatch : Marker → ValueReadError E

-- `?` on a `MarkerReadError` where a `ValueReadError` is returned.
abbrev pub try_marker : {R E A : Type 0} → M R E A → M R (ValueReadError E) A
try_marker = map_err invalid_marker_read

abbrev pub try_data : {R E A : Type 0} → M R E A → M R (ValueReadError E) A
try_data = map_err invalid_data_read

module _ {R E : Type 0} (rd : RmpRead R E) where
  unfoldable pub read_marker : M R E Marker
  read_marker = do n ← rd.read_u8; pure (from_u8 n)

  unfoldable pub read_data_u8 : M R (ValueReadError E) ℕ
  read_data_u8 = try_data rd.read_u8

  unfoldable pub read_data_i8 : M R (ValueReadError E) ℤ
  read_data_i8 = do b ← read_data_u8; pure (as_signed 128 b)

-- What the macro `read_byteorder_utils` generates. A float is its bit pattern.
module _ (bo : ByteOrder) {R E : Type 0} (rd : RmpRead R E) where
  unfoldable pub read_data_u16 : M R (ValueReadError E) ℕ
  read_data_u16 = do buf ← try_data (rd.read_exact_buf 2); pure (bo.get_u 2 buf)

  unfoldable pub read_data_u32 : M R (ValueReadError E) ℕ
  read_data_u32 = do buf ← try_data (rd.read_exact_buf 4); pure (bo.get_u 4 buf)

  unfoldable pub read_data_u64 : M R (ValueReadError E) ℕ
  read_data_u64 = do buf ← try_data (rd.read_exact_buf 8); pure (bo.get_u 8 buf)

  unfoldable pub read_data_i16 : M R (ValueReadError E) ℤ
  read_data_i16 = do buf ← try_data (rd.read_exact_buf 2); pure (bo.get_i 2 buf)

  unfoldable pub read_data_i32 : M R (ValueReadError E) ℤ
  read_data_i32 = do buf ← try_data (rd.read_exact_buf 4); pure (bo.get_i 4 buf)

  unfoldable pub read_data_i64 : M R (ValueReadError E) ℤ
  read_data_i64 = do buf ← try_data (rd.read_exact_buf 8); pure (bo.get_i 8 buf)

  unfoldable pub read_data_f32 : M R (ValueReadError E) ℕ
  read_data_f32 = do buf ← try_data (rd.read_exact_buf 4); pure (bo.get_u 4 buf)

  unfoldable pub read_data_f64 : M R (ValueReadError E) ℕ
  read_data_f64 = do buf ← try_data (rd.read_exact_buf 8); pure (bo.get_u 8 buf)
