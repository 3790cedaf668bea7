-- ===== src/Decode/Wire.antt =====
-- rmp/src/decode: what the small calls take, from a reader that keeps its promise.
use msgpack_rust.Common.{
  ℕ, ◌<◌, ◌^◌, ◌%◌, ◌*◌, ◌/◌, ◌∙◌, ap, refl, ◌≡◌, subst, List, [], ◌∷◌, arith,
}
use msgpack_rust.Common.Int.{
  ℤ, IsSigned, as_unsigned, as_unsigned-lt, as_signed, as_signed-as_unsigned,
}
use msgpack_rust.Common.Outcome.{◌>>=◌, map_err, pure}
use msgpack_rust.ByteOrder.{ByteOrder, IsBigEndian, be_bytes}
use msgpack_rust.ByteOrder.Laws.{length-be_bytes, be_value-be_bytes}
use msgpack_rust.Marker.{Marker, to_u8, from_u8, IsMarker}
use msgpack_rust.Marker.Codes.{from_u8-to_u8}
use msgpack_rust.Decode.{
  RmpRead, invalid_data_read, read_marker, read_data_u8, read_data_i8, read_data_u16, read_data_u32,
  read_data_u64, read_data_i16, read_data_i32, read_data_i64, read_data_f32, read_data_f64,
}
use msgpack_rust.Decode.Logic.{Decodes, IsSource, Decodes-map, Decodes-map_err}

module _ {R E : Type 0} {rd : RmpRead R E} {left : R → List ℕ} (source : IsSource rd left) where
  pub read_marker_byte : (b : ℕ) → Decodes left (read_marker rd) (b ∷ []) (from_u8 b)
  unfolding read_marker
  read_marker_byte b = Decodes-map from_u8 (source.u8 b)

  pub read_marker-Decodes :
      (mk : Marker) → IsMarker mk → Decodes left (read_marker rd) (to_u8 mk ∷ []) mk
  read_marker-Decodes mk h =
      subst (Decodes left (read_marker rd) (to_u8 mk ∷ [])) (from_u8-to_u8 mk h)
        (read_marker_byte (to_u8 mk))

  pub data_u8 : (n : ℕ) → n < 256 → Decodes left (read_data_u8 rd) (be_bytes 1 n) n
  unfolding read_data_u8 be_bytes
  data_u8 n h = let small : n % 256 ≡ n = omega arith in rw small (Decodes-map_err _ (source.u8 n))

  pub data_i8 :
      (z : ℤ) → IsSigned 128 z → Decodes left (read_data_i8 rd) (be_bytes 1 (as_unsigned 256 z)) z
  unfolding read_data_i8
  data_i8 z h =
      subst (Decodes left _ (be_bytes 1 (as_unsigned 256 z))) (as_signed-as_unsigned 128 z h) (
        Decodes-map (as_signed 128)
          (data_u8 (as_unsigned 256 z) (as_unsigned-lt 256 z (omega arith))))

module _ {bo : ByteOrder} (big : IsBigEndian bo) {R E : Type 0} {rd : RmpRead R E}
    {left : R → List ℕ} (source : IsSource rd left) where
  exact_k : (k n : ℕ) → Decodes left (rd.read_exact_buf k) (be_bytes k n) (be_bytes k n)
  exact_k k n =
      subst (λ j. Decodes left (rd.read_exact_buf j) (be_bytes k n) (be_bytes k n))
        (length-be_bytes k n) (source.exact (be_bytes k n))

  pub get_u :
      {F : Type 0} (wrap : E → F) (k n : ℕ)
      → n < 256 ^ k
      → Decodes left
          (do buf ← map_err wrap (rd.read_exact_buf k); pure (bo.get_u k buf))
          (be_bytes k n)
          n
  get_u wrap k n h =
      subst (Decodes left _ (be_bytes k n))
        (big.get_u_lem k (be_bytes k n) ∙ be_value-be_bytes k n h)
        (Decodes-map (bo.get_u k) (Decodes-map_err _ (exact_k k n)))

  get_i :
      (k half : ℕ) (z : ℤ)
      → 256 ^ k ≡ 2 * half
      → 256 ^ k / 2 ≡ half
      → 0 < half
      → IsSigned half z
      → Decodes left
          (do buf ← map_err invalid_data_read (rd.read_exact_buf k); pure (bo.get_i k buf))
          (be_bytes k (as_unsigned (256 ^ k) z))
          z
  get_i k half z two e p h =
      subst (Decodes left _ (be_bytes k (as_unsigned (256 ^ k) z)))
        (big.get_i_lem k (be_bytes k (as_unsigned (256 ^ k) z))
          ∙ ap (as_signed (256 ^ k / 2))
              (be_value-be_bytes k _ (as_unsigned-lt (256 ^ k) z (omega arith)))
          ∙ rw (e, two) (as_signed-as_unsigned half z h))
        (Decodes-map (bo.get_i k) (Decodes-map_err _ (exact_k k _)))

  pub data_u16 : (n : ℕ) → n < 65536 → Decodes left (read_data_u16 bo rd) (be_bytes 2 n) n
  unfolding read_data_u16
  data_u16 n h = get_u invalid_data_read 2 n h

  pub data_i16 :
      (z : ℤ)
      → IsSigned 32768 z
      → Decodes left (read_data_i16 bo rd) (be_bytes 2 (as_unsigned (256 ^ 2) z)) z
  unfolding read_data_i16
  data_i16 z h = get_i 2 32768 z refl refl (omega arith) h

  pub data_u32 : (n : ℕ) → n < 4294967296 → Decodes left (read_data_u32 bo rd) (be_bytes 4 n) n
  unfolding read_data_u32
  data_u32 n h = get_u invalid_data_read 4 n h

  pub data_i32 :
      (z : ℤ)
      → IsSigned 2147483648 z
      → Decodes left (read_data_i32 bo rd) (be_bytes 4 (as_unsigned (256 ^ 4) z)) z
  unfolding read_data_i32
  data_i32 z h = get_i 4 2147483648 z refl refl (omega arith) h

  pub data_u64 :
      (n : ℕ) → n < 18446744073709551616 → Decodes left (read_data_u64 bo rd) (be_bytes 8 n) n
  unfolding read_data_u64
  data_u64 n h = get_u invalid_data_read 8 n h

  pub data_i64 :
      (z : ℤ)
      → IsSigned 9223372036854775808 z
      → Decodes left (read_data_i64 bo rd) (be_bytes 8 (as_unsigned (256 ^ 8) z)) z
  unfolding read_data_i64
  data_i64 z h = get_i 8 9223372036854775808 z refl refl (omega arith) h

  pub data_f32 : (n : ℕ) → n < 4294967296 → Decodes left (read_data_f32 bo rd) (be_bytes 4 n) n
  unfolding read_data_f32
  data_f32 n h = get_u invalid_data_read 4 n h

  pub data_f64 :
      (n : ℕ) → n < 18446744073709551616 → Decodes left (read_data_f64 bo rd) (be_bytes 8 n) n
  unfolding read_data_f64
  data_f64 n h = get_u invalid_data_read 8 n h
