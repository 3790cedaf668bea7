-- ===== src/Encode/Wire.antt =====
-- rmp/src/encode: what the small calls append, on a writer that keeps its promise.
use msgpack_rust.Common.{ℕ, ◌<◌, ◌^◌, subst, Bool, List, [], ◌∷◌, if◌then◌else◌, arith}
use msgpack_rust.Common.Int.{ℤ, as_unsigned, as_unsigned-lt}
use msgpack_rust.Common.Outcome.{M, ◌>>◌, pure}
use msgpack_rust.ByteOrder.{ByteOrder, IsBigEndian, be_bytes}
use msgpack_rust.Marker.{Marker, to_u8, f32, f64}
use msgpack_rust.Format.{width, header}
use msgpack_rust.Encode.{
  RmpWrite, ValueWriteError, try_marker, try_data, write_marker, write_nil, write_bool,
  write_data_u8, write_data_i8, write_data_u16, write_data_u32, write_data_u64, write_data_i16,
  write_data_i32, write_data_i64, write_data_f32, write_data_f64,
}
use msgpack_rust.Encode.Dec.{write_f32, write_f64}
use msgpack_rust.Encode.Logic.{Writes, IsSink, Writes->>, Writes-pure_unit, Writes-map_err}

module _ {W E : Type 0} {io : RmpWrite W E} {sent : W → List ℕ} (sink : IsSink io sent) where
  pub write_marker-Writes : (mk : Marker) → Writes sent (write_marker io mk) (to_u8 mk ∷ []) tt
  unfolding write_marker
  write_marker-Writes mk = sink.u8 (to_u8 mk)

  pub marked : (mk : Marker) → Writes sent (try_marker (write_marker io mk)) (to_u8 mk ∷ []) tt
  marked mk = Writes-map_err _ (write_marker-Writes mk)

  pub data_u8 : (n : ℕ) → n < 256 → Writes sent (try_data (write_data_u8 io n)) (be_bytes 1 n) tt
  unfolding write_data_u8 be_bytes
  data_u8 n h =
      Writes-map_err _
        (subst (λ b. Writes sent (io.write_u8 n) (b ∷ []) tt) (omega arith) (sink.u8 n))

  pub data_i8 :
      (z : ℤ) → Writes sent (try_data (write_data_i8 io z)) (be_bytes 1 (as_unsigned 256 z)) tt
  unfolding write_data_i8
  data_i8 z = data_u8 (as_unsigned 256 z) (as_unsigned-lt 256 z (omega arith))

  pub write_nil-Writes : Writes sent (write_nil io) (to_u8 Marker.null ∷ []) tt
  unfolding write_nil
  write_nil-Writes = write_marker-Writes Marker.null

  pub write_bool-Writes :
      (val : Bool)
      → Writes sent (write_bool io val) (to_u8 (if val then Marker.true else Marker.false) ∷ []) tt
  unfolding write_bool
  write_bool-Writes val = write_marker-Writes _

  -- A marker with a number behind it, and a value to return.
  pub numbered :
      (mk : Marker) (n : ℕ) (write : M W (ValueWriteError E) (Unit {0}))
      → Writes sent write (be_bytes (width mk) n) tt
      → Writes sent (try_marker (write_marker io mk) >> write) (header mk n) tt
  unfolding header
  numbered mk n write h = Writes->> (marked mk) h

  pub numbered_pure :
      {A : Type 0} (mk : Marker) (n : ℕ) (write : M W (ValueWriteError E) (Unit {0})) (a : A)
      → Writes sent write (be_bytes (width mk) n) tt
      → Writes sent (try_marker (write_marker io mk) >> (write >> pure a)) (header mk n) a
  unfolding header
  numbered_pure mk n write a h = Writes->> (marked mk) (Writes-pure_unit h)

module _ {bo : ByteOrder} (big : IsBigEndian bo) {W E : Type 0} {io : RmpWrite W E}
    {sent : W → List ℕ} (sink : IsSink io sent) where
  put_u : (k n : ℕ) → Writes sent (io.write_bytes (bo.put_u k n)) (be_bytes k n) tt
  put_u k n = rw (big.put_u_lem k n) (sink.bytes (be_bytes k n))

  put_i :
      (k : ℕ) (z : ℤ)
      → Writes sent (io.write_bytes (bo.put_i k z)) (be_bytes k (as_unsigned (256 ^ k) z)) tt
  put_i k z = rw (big.put_i_lem k z) (sink.bytes _)

  pub data_u16 : (n : ℕ) → Writes sent (try_data (write_data_u16 bo io n)) (be_bytes 2 n) tt
  unfolding write_data_u16
  data_u16 n = Writes-map_err _ (put_u 2 n)

  pub data_u32 : (n : ℕ) → Writes sent (try_data (write_data_u32 bo io n)) (be_bytes 4 n) tt
  unfolding write_data_u32
  data_u32 n = Writes-map_err _ (put_u 4 n)

  pub data_u64 : (n : ℕ) → Writes sent (try_data (write_data_u64 bo io n)) (be_bytes 8 n) tt
  unfolding write_data_u64
  data_u64 n = Writes-map_err _ (put_u 8 n)

  pub data_i16 :
      (z : ℤ)
      → Writes sent (try_data (write_data_i16 bo io z)) (be_bytes 2 (as_unsigned (256 ^ 2) z)) tt
  unfolding write_data_i16
  data_i16 z = Writes-map_err _ (put_i 2 z)

  pub data_i32 :
      (z : ℤ)
      → Writes sent (try_data (write_data_i32 bo io z)) (be_bytes 4 (as_unsigned (256 ^ 4) z)) tt
  unfolding write_data_i32
  data_i32 z = Writes-map_err _ (put_i 4 z)

  pub data_i64 :
      (z : ℤ)
      → Writes sent (try_data (write_data_i64 bo io z)) (be_bytes 8 (as_unsigned (256 ^ 8) z)) tt
  unfolding write_data_i64
  data_i64 z = Writes-map_err _ (put_i 8 z)

  pub write_f32-Writes : (bits : ℕ) → Writes sent (write_f32 bo io bits) (header f32 bits) tt
  unfolding write_f32 write_data_f32
  write_f32-Writes bits = numbered sink f32 bits _ (Writes-map_err _ (put_u 4 bits))

  pub write_f64-Writes : (bits : ℕ) → Writes sent (write_f64 bo io bits) (header f64 bits) tt
  unfolding write_f64 write_data_f64
  write_f64-Writes bits = numbered sink f64 bits _ (Writes-map_err _ (put_u 8 bits))
