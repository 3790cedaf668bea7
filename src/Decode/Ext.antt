-- ===== src/Decode/Ext.antt =====
-- rmp/src/decode/ext.rs: extensions, whole in the five fixed sizes, and their header.
use msgpack_rust.Common.{ℕ, List}
use msgpack_rust.Common.Int.{ℤ}
use msgpack_rust.Common.Outcome.{M, ◌>>=◌, map_err, pure, fail}
use msgpack_rust.ByteOrder.{ByteOrder}
use msgpack_rust.Marker.{
  Marker, fix_ext1, fix_ext2, fix_ext4, fix_ext8, fix_ext16, ext8, ext16, ext32,
}
use msgpack_rust.Decode.{
  RmpRead, ValueReadError, invalid_data_read, type_mismatch, try_marker, read_marker, read_data_u8,
  read_data_i8, read_data_u16, read_data_u32,
}

pub record ExtMeta : Type 0 where
  pub typeid : ℤ
  pub size : ℕ

module _ {R E : Type 0} (rd : RmpRead R E) where
  -- The type of the extension, and the bytes that fill the buffer of `n`.
  unfoldable pub read_fixext_data : ℕ → M R (ValueReadError E) (ℤ × List ℕ)
  read_fixext_data n = do
    id ← read_data_i8 rd
    buf ← map_err invalid_data_read (rd.read_exact_buf n)
    pure (id, buf)

  unfoldable pub read_fixext1 : M R (ValueReadError E) (ℤ × ℕ)
  read_fixext1 = do
    mk ← try_marker (read_marker rd)
    elim mk [
      | fix_ext1 ↦ do ty ← read_data_i8 rd; byte ← read_data_u8 rd; pure (ty, byte)
      | other ↦ fail (type_mismatch other)
    ]

  unfoldable pub read_fixext2 : M R (ValueReadError E) (ℤ × List ℕ)
  unfolding read_fixext_data
  read_fixext2 = do
    mk ← try_marker (read_marker rd)
    elim mk [ fix_ext2 ↦ read_fixext_data 2 | other ↦ fail (type_mismatch other) ]

  unfoldable pub read_fixext4 : M R (ValueReadError E) (ℤ × List ℕ)
  unfolding read_fixext_data
  read_fixext4 = do
    mk ← try_marker (read_marker rd)
    elim mk [ fix_ext4 ↦ read_fixext_data 4 | other ↦ fail (type_mismatch other) ]

  unfoldable pub read_fixext8 : M R (ValueReadError E) (ℤ × List ℕ)
  unfolding read_fixext_data
  read_fixext8 = do
    mk ← try_marker (read_marker rd)
    elim mk [ fix_ext8 ↦ read_fixext_data 8 | other ↦ fail (type_mismatch other) ]

  unfoldable pub read_fixext16 : M R (ValueReadError E) (ℤ × List ℕ)
  unfolding read_fixext_data
  read_fixext16 = do
    mk ← try_marker (read_marker rd)
    elim mk [ fix_ext16 ↦ read_fixext_data 16 | other ↦ fail (type_mismatch other) ]

module _ (bo : ByteOrder) {R E : Type 0} (rd : RmpRead R E) where
  -- The match on the marker, which gives the size.
  unfoldable pub read_ext_size : Marker → M R (ValueReadError E) ℕ
  read_ext_size fix_ext1 = pure 1
  read_ext_size fix_ext2 = pure 2
  read_ext_size fix_ext4 = pure 4
  read_ext_size fix_ext8 = pure 8
  read_ext_size fix_ext16 = pure 16
  read_ext_size ext8 = read_data_u8 rd
  read_ext_size ext16 = read_data_u16 bo rd
  read_ext_size ext32 = read_data_u32 bo rd
  read_ext_size other = fail (type_mismatch other)

  unfoldable pub read_ext_meta : M R (ValueReadError E) ExtMeta
  unfolding read_ext_size
  read_ext_meta = do
    mk ← try_marker (read_marker rd)
    size ← read_ext_size mk
    ty ← read_data_i8 rd
    pure (record { typeid = ty; size = size })
