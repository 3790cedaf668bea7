-- ===== src/Decode/Single.antt =====
-- rmp/src/decode/uint.rs and sint.rs: the reads that accept one form of an integer.
use msgpack_rust.Common.{ℕ, ◌<◌, ◌≡◌, List, arith}
use msgpack_rust.Common.Int.{ℤ, pos, negsuc, IsSigned}
use msgpack_rust.Common.Outcome.{M, fail}
use msgpack_rust.ByteOrder.{ByteOrder, IsBigEndian, be_bytes}
use msgpack_rust.Marker.{Marker, fix_pos, fix_neg, u8, u16, u32, u64, i8, i16, i32, i64}
use msgpack_rust.Format.{header, int_bytes}
use msgpack_rust.Decode.{RmpRead, ValueReadError, type_mismatch}
use msgpack_rust.Decode.Simple.{
  read_pfix, read_nfix, read_u8, read_u16, read_u32, read_u64, read_i8, read_i16, read_i32,
  read_i64,
}
use msgpack_rust.Decode.Logic.{Decodes, IsSource, Decodes->>=, Decodes-pure, Decodes-map_err}
use msgpack_rust.Decode.Wire.{
  read_marker-Decodes, data_u8, data_i8, data_u16, data_u32, data_u64, data_i16, data_i32, data_i64,
}

-- The read that accepts the form of a marker, and the numbers of that form.
module _ (bo : ByteOrder) {R E : Type 0} (rd : RmpRead R E) where
  abbrev pub unsigned_read : Marker → M R (ValueReadError E) ℕ
  unsigned_read (fix_pos k) = read_pfix rd
  unsigned_read u8 = read_u8 rd
  unsigned_read u16 = read_u16 bo rd
  unsigned_read u32 = read_u32 bo rd
  unsigned_read u64 = read_u64 bo rd
  unsigned_read mk = fail (type_mismatch mk)

  abbrev pub signed_read : Marker → M R (ValueReadError E) ℤ
  signed_read (fix_neg k) = read_nfix rd
  signed_read i8 = read_i8 rd
  signed_read i16 = read_i16 bo rd
  signed_read i32 = read_i32 bo rd
  signed_read i64 = read_i64 bo rd
  signed_read mk = fail (type_mismatch mk)

abbrev pub UnsignedForm : Marker → ℕ → Type 0
UnsignedForm (fix_pos k) n = (k ≡ n) × (n < 128)
UnsignedForm u8 n = n < 256
UnsignedForm u16 n = n < 65536
UnsignedForm u32 n = n < 4294967296
UnsignedForm u64 n = n < 18446744073709551616
UnsignedForm _ n = ⊥

abbrev pub SignedForm : Marker → ℤ → Type 0
SignedForm (fix_neg k) (negsuc n) = (k ≡ negsuc n) × (n < 32)
SignedForm (fix_neg k) (pos n) = ⊥
SignedForm i8 z = IsSigned 128 z
SignedForm i16 z = IsSigned 32768 z
SignedForm i32 z = IsSigned 2147483648 z
SignedForm i64 z = IsSigned 9223372036854775808 z
SignedForm _ z = ⊥

module _ {bo : ByteOrder} (big : IsBigEndian bo) {R E : Type 0} {rd : RmpRead R E}
    {left : R → List ℕ} (source : IsSource rd left) where
  -- Each of `read_pfix`, `read_u8`, `read_u16`, `read_u32` and `read_u64` reads every number of the
  -- form that it accepts back from that form's bytes.
  pub read_unsigned-Decodes :
      (mk : Marker) (n : ℕ)
      → UnsignedForm mk n
      → Decodes left (unsigned_read bo rd mk) (header mk n) n
  unfolding read_pfix read_u8 read_u16 read_u32 read_u64 header be_bytes
  read_unsigned-Decodes (fix_pos k) n (e, h) = rw (← e) (
      Decodes->>= _ (Decodes-map_err _ (read_marker-Decodes source (fix_pos k) (omega arith)))
        (Decodes-pure k))
  read_unsigned-Decodes u8 n h =
      Decodes->>= _ (Decodes-map_err _ (read_marker-Decodes source u8 tt)) (data_u8 source n h)
  read_unsigned-Decodes u16 n h =
      Decodes->>= _ (Decodes-map_err _ (read_marker-Decodes source u16 tt))
        (data_u16 big source n h)
  read_unsigned-Decodes u32 n h =
      Decodes->>= _ (Decodes-map_err _ (read_marker-Decodes source u32 tt))
        (data_u32 big source n h)
  read_unsigned-Decodes u64 n h =
      Decodes->>= _ (Decodes-map_err _ (read_marker-Decodes source u64 tt))
        (data_u64 big source n h)
  read_unsigned-Decodes _ n h = absurd h

  -- Each of `read_nfix`, `read_i8`, `read_i16`, `read_i32` and `read_i64` reads every number of the
  -- form that it accepts back from that form's bytes.
  pub read_signed-Decodes :
      (mk : Marker) (z : ℤ)
      → SignedForm mk z
      → Decodes left (signed_read bo rd mk) (int_bytes mk z) z
  unfolding read_nfix read_i8 read_i16 read_i32 read_i64 int_bytes header be_bytes
  read_signed-Decodes (fix_neg k) (negsuc n) (e, h) = rw e (
      Decodes->>= _ (Decodes-map_err _ (read_marker-Decodes source (fix_neg (negsuc n)) h))
        (Decodes-pure (negsuc n)))
  read_signed-Decodes (fix_neg k) (pos n) h = absurd h
  read_signed-Decodes i8 z h =
      Decodes->>= _ (Decodes-map_err _ (read_marker-Decodes source i8 tt)) (data_i8 source z h)
  read_signed-Decodes i16 z h =
      Decodes->>= _ (Decodes-map_err _ (read_marker-Decodes source i16 tt))
        (data_i16 big source z h)
  read_signed-Decodes i32 z h =
      Decodes->>= _ (Decodes-map_err _ (read_marker-Decodes source i32 tt))
        (data_i32 big source z h)
  read_signed-Decodes i64 z h =
      Decodes->>= _ (Decodes-map_err _ (read_marker-Decodes source i64 tt))
        (data_i64 big source z h)
  read_signed-Decodes _ z h = absurd h
