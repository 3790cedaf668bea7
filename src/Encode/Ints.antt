-- ===== src/Encode/Ints.antt =====
-- rmp/src/encode/uint.rs and sint.rs: what the calls of one width append.
use msgpack_rust.Common.{ℕ, ◌<◌, List, arith, lt→ltb, le→leb}
use msgpack_rust.Common.Int.{ℤ, pos, negsuc}
use msgpack_rust.ByteOrder.{ByteOrder, IsBigEndian, be_bytes}
use msgpack_rust.Marker.{fix_pos, fix_neg, u8, u16, u32, u64, i8, i16, i32, i64}
use msgpack_rust.Format.{header, int_bytes}
use msgpack_rust.Encode.{RmpWrite}
use msgpack_rust.Encode.Uint.{write_pfix, write_u8, write_u16, write_u32, write_u64}
use msgpack_rust.Encode.Sint.{write_nfix, write_i8, write_i16, write_i32, write_i64}
use msgpack_rust.Encode.Logic.{Writes, IsSink}
use msgpack_rust.Encode.Wire.{
  write_marker-Writes, data_u8, data_i8, data_u16, data_u32, data_u64, data_i16, data_i32, data_i64,
  numbered,
}

module _ {W E : Type 0} {io : RmpWrite W E} {sent : W → List ℕ} (sink : IsSink io sent) where
  pub write_pfix-Writes :
      (n : ℕ) → n < 128 → Writes sent (write_pfix io n) (int_bytes (fix_pos n) (pos n)) tt
  unfolding write_pfix int_bytes header be_bytes
  write_pfix-Writes n h = rw (lt→ltb n 128 h) (write_marker-Writes sink (fix_pos n))

  pub write_u8-Writes : (n : ℕ) → n < 256 → Writes sent (write_u8 io n) (header u8 n) tt
  unfolding write_u8
  write_u8-Writes n h = numbered sink u8 n _ (data_u8 sink n h)

  pub write_nfix-Writes :
      (n : ℕ)
      → n < 32
      → Writes sent (write_nfix io (negsuc n)) (int_bytes (fix_neg (negsuc n)) (negsuc n)) tt
  unfolding write_nfix int_bytes header be_bytes
  write_nfix-Writes n h =
      rw (le→leb n 31 (omega arith)) (write_marker-Writes sink (fix_neg (negsuc n)))

  pub write_i8-Writes : (z : ℤ) → Writes sent (write_i8 io z) (int_bytes i8 z) tt
  unfolding write_i8 int_bytes
  write_i8-Writes z = numbered sink i8 _ _ (data_i8 sink z)

module _ {bo : ByteOrder} (big : IsBigEndian bo) {W E : Type 0} {io : RmpWrite W E}
    {sent : W → List ℕ} (sink : IsSink io sent) where
  pub write_u16-Writes : (n : ℕ) → Writes sent (write_u16 bo io n) (header u16 n) tt
  unfolding write_u16
  write_u16-Writes n = numbered sink u16 n _ (data_u16 big sink n)

  pub write_u32-Writes : (n : ℕ) → Writes sent (write_u32 bo io n) (header u32 n) tt
  unfolding write_u32
  write_u32-Writes n = numbered sink u32 n _ (data_u32 big sink n)

  pub write_u64-Writes : (n : ℕ) → Writes sent (write_u64 bo io n) (header u64 n) tt
  unfolding write_u64
  write_u64-Writes n = numbered sink u64 n _ (data_u64 big sink n)

  pub write_i16-Writes : (z : ℤ) → Writes sent (write_i16 bo io z) (int_bytes i16 z) tt
  unfolding write_i16 int_bytes
  write_i16-Writes z = numbered sink i16 _ _ (data_i16 big sink z)

  pub write_i32-Writes : (z : ℤ) → Writes sent (write_i32 bo io z) (int_bytes i32 z) tt
  unfolding write_i32 int_bytes
  write_i32-Writes z = numbered sink i32 _ _ (data_i32 big sink z)

  pub write_i64-Writes : (z : ℤ) → Writes sent (write_i64 bo io z) (int_bytes i64 z) tt
  unfolding write_i64 int_bytes
  write_i64-Writes z = numbered sink i64 _ _ (data_i64 big sink z)
