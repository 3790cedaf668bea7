-- ===== src/Decode/Simple.antt =====
-- rmp/src/decode/mod.rs, uint.rs, sint.rs and dec.rs: reads that accept one form of value.
use msgpack_rust.Common.{ℕ, Bool}
use msgpack_rust.Common.Int.{ℤ}
use msgpack_rust.Common.Outcome.{M, ◌>>=◌, pure, fail}
use msgpack_rust.ByteOrder.{ByteOrder}
use msgpack_rust.Marker.{
  Marker, fix_pos, fix_neg, u8, u16, u32, u64, i8, i16, i32, i64, f32, f64, null,
}
use msgpack_rust.Decode.{
  RmpRead, ValueReadError, type_mismatch, try_marker, read_marker, read_data_u8, read_data_i8,
  read_data_u16, read_data_u32, read_data_u64, read_data_i16, read_data_i32, read_data_i64,
  read_data_f32, read_data_f64,
}

module _ {R E : Type 0} (rd : RmpRead R E) where
  unfoldable pub read_nil : M R (ValueReadError E) (Unit {0})
  read_nil = do
    mk ← try_marker (read_marker rd)
    elim mk [ null ↦ pure tt | other ↦ fail (type_mismatch other) ]

  unfoldable pub read_bool : M R (ValueReadError E) Bool
  read_bool = do
    mk ← try_marker (read_marker rd)
    elim mk [
      | Marker.true ↦ pure Bool.true
      | Marker.false ↦ pure Bool.false
      | other ↦ fail (type_mismatch other)
    ]

  unfoldable pub read_pfix : M R (ValueReadError E) ℕ
  read_pfix = do
    mk ← try_marker (read_marker rd)
    elim mk [ fix_pos val ↦ pure val | other ↦ fail (type_mismatch other) ]

  unfoldable pub read_nfix : M R (ValueReadError E) ℤ
  read_nfix = do
    mk ← try_marker (read_marker rd)
    elim mk [ fix_neg val ↦ pure val | other ↦ fail (type_mismatch other) ]

  unfoldable pub read_u8 : M R (ValueReadError E) ℕ
  read_u8 = do
    mk ← try_marker (read_marker rd)
    elim mk [ u8 ↦ read_data_u8 rd | other ↦ fail (type_mismatch other) ]

  unfoldable pub read_i8 : M R (ValueReadError E) ℤ
  read_i8 = do
    mk ← try_marker (read_marker rd)
    elim mk [ i8 ↦ read_data_i8 rd | other ↦ fail (type_mismatch other) ]

module _ (bo : ByteOrder) {R E : Type 0} (rd : RmpRead R E) where
  unfoldable pub read_u16 : M R (ValueReadError E) ℕ
  read_u16 = do
    mk ← try_marker (read_marker rd)
    elim mk [ u16 ↦ read_data_u16 bo rd | other ↦ fail (type_mismatch other) ]

  unfoldable pub read_u32 : M R (ValueReadError E) ℕ
  read_u32 = do
    mk ← try_marker (read_marker rd)
    elim mk [ u32 ↦ read_data_u32 bo rd | other ↦ fail (type_mismatch other) ]

  unfoldable pub read_u64 : M R (ValueReadError E) ℕ
  read_u64 = do
    mk ← try_marker (read_marker rd)
    elim mk [ u64 ↦ read_data_u64 bo rd | other ↦ fail (type_mismatch other) ]

  unfoldable pub read_i16 : M R (ValueReadError E) ℤ
  read_i16 = do
    mk ← try_marker (read_marker rd)
    elim mk [ i16 ↦ read_data_i16 bo rd | other ↦ fail (type_mismatch other) ]

  unfoldable pub read_i32 : M R (ValueReadError E) ℤ
  read_i32 = do
    mk ← try_marker (read_marker rd)
    elim mk [ i32 ↦ read_data_i32 bo rd | other ↦ fail (type_mismatch other) ]

  unfoldable pub read_i64 : M R (ValueReadError E) ℤ
  read_i64 = do
    mk ← try_marker (read_marker rd)
    elim mk [ i64 ↦ read_data_i64 bo rd | other ↦ fail (type_mismatch other) ]

  unfoldable pub read_f32 : M R (ValueReadError E) ℕ
  read_f32 = do
    mk ← try_marker (read_marker rd)
    elim mk [ f32 ↦ read_data_f32 bo rd | other ↦ fail (type_mismatch other) ]

  unfoldable pub read_f64 : M R (ValueReadError E) ℕ
  read_f64 = do
    mk ← try_marker (read_marker rd)
    elim mk [ f64 ↦ read_data_f64 bo rd | other ↦ fail (type_mismatch other) ]
