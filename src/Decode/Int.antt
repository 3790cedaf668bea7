-- ===== src/Decode/Int.antt =====
-- rmp/src/decode/mod.rs: `read_int`, which reads an integer of any form into a type chosen by the
-- caller.
use msgpack_rust.Common.{ℕ, ◌≡◌, Option, none, some}
use msgpack_rust.Common.Int.{ℤ, pos}
use msgpack_rust.Common.Outcome.{M, ◌>>=◌, map_err, pure, fail}
use msgpack_rust.ByteOrder.{ByteOrder}
use msgpack_rust.Marker.{Marker, fix_pos, fix_neg, u8, u16, u32, u64, i8, i16, i32, i64}
use msgpack_rust.Decode.{
  RmpRead, ValueReadError, read_marker, read_data_u8, read_data_i8, read_data_u16, read_data_u32,
  read_data_u64, read_data_i16, read_data_i32, read_data_i64,
}
use msgpack_rust.Decode

pub data NumValueReadError (E : Type 0) : Type 0 where
  invalid_marker_read : E → NumValueReadError E
  invalid_data_read : E → NumValueReadError E
  type_mismatch : Marker → NumValueReadError E
  out_of_range : NumValueReadError E

-- `impl From<ValueReadError> for NumValueReadError`
unfoldable pub from_value_error : {E : Type 0} → ValueReadError E → NumValueReadError E
from_value_error (Decode.invalid_marker_read e) = invalid_marker_read e
from_value_error (Decode.invalid_data_read e) = invalid_data_read e
from_value_error (Decode.type_mismatch mk) = type_mismatch mk

-- The trait `FromPrimitive` of the num_traits crate at the type `T`.
pub record FromPrimitive (T : Type 0) : Type 0 where
  pub from_u8 : ℕ → Option T
  pub from_u16 : ℕ → Option T
  pub from_u32 : ℕ → Option T
  pub from_u64 : ℕ → Option T
  pub from_i8 : ℤ → Option T
  pub from_i16 : ℤ → Option T
  pub from_i32 : ℤ → Option T
  pub from_i64 : ℤ → Option T

-- Its documented behaviour: a number is converted if `T` can represent it, else there is `None`;
-- the type that the number comes from plays no part.
pub record IsConversion {T : Type 0} (fp : FromPrimitive T) (convert : ℤ → Option T) : Type 0 where
  pub u8_lem : (n : ℕ) → fp.from_u8 n ≡ convert (pos n)
  pub u16_lem : (n : ℕ) → fp.from_u16 n ≡ convert (pos n)
  pub u32_lem : (n : ℕ) → fp.from_u32 n ≡ convert (pos n)
  pub u64_lem : (n : ℕ) → fp.from_u64 n ≡ convert (pos n)
  pub i8_lem : (z : ℤ) → fp.from_i8 z ≡ convert z
  pub i16_lem : (z : ℤ) → fp.from_i16 z ≡ convert z
  pub i32_lem : (z : ℤ) → fp.from_i32 z ≡ convert z
  pub i64_lem : (z : ℤ) → fp.from_i64 z ≡ convert z

abbrev pub try_value : {R E A : Type 0} → M R (ValueReadError E) A → M R (NumValueReadError E) A
try_value = map_err from_value_error

-- `val.ok_or(NumValueReadError::OutOfRange)`
unfoldable pub ok_or_out_of_range : {R E T : Type 0} → Option T → M R (NumValueReadError E) T
ok_or_out_of_range none = fail out_of_range
ok_or_out_of_range (some val) = pure val

module _ (bo : ByteOrder) {T : Type 0} (fp : FromPrimitive T) {R E : Type 0}
    (rd : RmpRead R E) where
  -- The match of `read_int`.
  unfoldable pub read_int_data : Marker → M R (NumValueReadError E) (Option T)
  read_int_data (fix_pos val) = pure (fp.from_u8 val)
  read_int_data (fix_neg val) = pure (fp.from_i8 val)
  read_int_data u8 = do n ← try_value (read_data_u8 rd); pure (fp.from_u8 n)
  read_int_data u16 = do n ← try_value (read_data_u16 bo rd); pure (fp.from_u16 n)
  read_int_data u32 = do n ← try_value (read_data_u32 bo rd); pure (fp.from_u32 n)
  read_int_data u64 = do n ← try_value (read_data_u64 bo rd); pure (fp.from_u64 n)
  read_int_data i8 = do z ← try_value (read_data_i8 rd); pure (fp.from_i8 z)
  read_int_data i16 = do z ← try_value (read_data_i16 bo rd); pure (fp.from_i16 z)
  read_int_data i32 = do z ← try_value (read_data_i32 bo rd); pure (fp.from_i32 z)
  read_int_data i64 = do z ← try_value (read_data_i64 bo rd); pure (fp.from_i64 z)
  read_int_data mk = fail (type_mismatch mk)

  unfoldable pub read_int : M R (NumValueReadError E) T
  unfolding read_int_data
  read_int = do
    mk ← map_err invalid_marker_read (read_marker rd)
    val ← read_int_data mk
    ok_or_out_of_range val
