-- ===== src/Decode/Headers.antt =====
-- rmp/src/decode: the functions that read a header, on the headers of the format.
use msgpack_rust.Common.{ℕ, ◌+◌, ◌≡◌, sym, subst, List, [], arith}
use msgpack_rust.Common.Int.{ℤ, IsSigned}
use msgpack_rust.Common.Outcome.{M, ◌>>=◌, pure}
use msgpack_rust.ByteOrder.{ByteOrder, IsBigEndian, be_bytes}
use msgpack_rust.Marker.{
  Marker, IsMarker, fix_array, array16, array32, fix_map, map16, map32, fix_ext1, fix_ext2,
  fix_ext4, fix_ext8, fix_ext16, ext8, ext16, ext32, fix_str, str8, str16, str32, bin8, bin16,
  bin32,
}
use msgpack_rust.Format.{width, header, ext_header, StrForm, BinForm, ArrayForm, MapForm, ExtForm}
use msgpack_rust.Decode.{RmpRead, ValueReadError, try_marker, read_marker}
use msgpack_rust.Decode.Len.{
  read_array_len, read_map_len, read_bin_len, read_str_len_with_nread, read_str_len,
}
use msgpack_rust.Decode.Ext.{read_ext_size, read_ext_meta}
use msgpack_rust.Decode.Logic.{
  Decodes, IsSource, Decodes->>=, Decodes-pure, Decodes-map, Decodes-map_err,
}
use msgpack_rust.Decode.Wire.{read_marker-Decodes, data_u8, data_i8, data_u16, data_u32}

module _ {bo : ByteOrder} (big : IsBigEndian bo) {R E : Type 0} {rd : RmpRead R E}
    {left : R → List ℕ} (source : IsSource rd left) where
  after_marker :
      {A : Type 0} (f : Marker → M R (ValueReadError E) A) (mk : Marker) (n : ℕ) (a : A)
      → IsMarker mk
      → Decodes left (f mk) (be_bytes (width mk) n) a
      → Decodes left (try_marker (read_marker rd) >>= f) (header mk n) a
  unfolding header
  after_marker f mk n a h k = Decodes->>= f (Decodes-map_err _ (read_marker-Decodes source mk h)) k

  same_len : (k n : ℕ) → k ≡ n → Decodes left (pure {E = ValueReadError E} k) [] n
  same_len k n e = subst (Decodes left (pure k) []) e (Decodes-pure k)

  -- `read_array_len` reads every header of an array as the array's length.
  pub read_array_len-Decodes :
      (mk : Marker) (n : ℕ) → ArrayForm mk n → Decodes left (read_array_len bo rd) (header mk n) n
  unfolding read_array_len be_bytes
  read_array_len-Decodes (fix_array k) n h =
      after_marker _ (fix_array k) n n (omega arith) (same_len k n h.0)
  read_array_len-Decodes array16 n h = after_marker _ array16 n n tt (data_u16 big source n h)
  read_array_len-Decodes array32 n h = after_marker _ array32 n n tt (data_u32 big source n h)
  read_array_len-Decodes _ n h = absurd h

  -- `read_map_len` reads every header of a map as the map's length.
  pub read_map_len-Decodes :
      (mk : Marker) (n : ℕ) → MapForm mk n → Decodes left (read_map_len bo rd) (header mk n) n
  unfolding read_map_len be_bytes
  read_map_len-Decodes (fix_map k) n h =
      after_marker _ (fix_map k) n n (omega arith) (same_len k n h.0)
  read_map_len-Decodes map16 n h = after_marker _ map16 n n tt (data_u16 big source n h)
  read_map_len-Decodes map32 n h = after_marker _ map32 n n tt (data_u32 big source n h)
  read_map_len-Decodes _ n h = absurd h

  -- `read_bin_len` reads every header of a byte array as the array's length.
  pub read_bin_len-Decodes :
      (mk : Marker) (n : ℕ) → BinForm mk n → Decodes left (read_bin_len bo rd) (header mk n) n
  unfolding read_bin_len be_bytes
  read_bin_len-Decodes bin8 n h = after_marker _ bin8 n n tt (data_u8 source n h)
  read_bin_len-Decodes bin16 n h = after_marker _ bin16 n n tt (data_u16 big source n h)
  read_bin_len-Decodes bin32 n h = after_marker _ bin32 n n tt (data_u32 big source n h)
  read_bin_len-Decodes _ n h = absurd h

  pair_len :
      (k n : ℕ)
      → k ≡ n
      → Decodes {E = ValueReadError E} {A = ℕ × ℕ} left
          (pure {E = ValueReadError E} (k, 1))
          []
          (n, 1)
  pair_len k n e =
      subst (λ j. Decodes {E = ValueReadError E} {A = ℕ × ℕ} left (pure (k, 1)) [] (j, 1)) e
        (Decodes-pure {A = ℕ × ℕ} (k, 1))

  -- Every header of a string of `n` bytes is read as `n`, with the number of bytes of the header.
  pub read_str_len_with_nread-Decodes :
      (mk : Marker) (n : ℕ)
      → StrForm mk n
      → Decodes left (read_str_len_with_nread bo rd) (header mk n) (n, width mk + 1)
  unfolding read_str_len_with_nread be_bytes
  read_str_len_with_nread-Decodes (fix_str k) n h =
      after_marker _ (fix_str k) n _ (omega arith) (pair_len k n h.0)
  read_str_len_with_nread-Decodes str8 n h =
      after_marker _ str8 n _ tt (Decodes-map (λ len. (len, 2)) (data_u8 source n h))
  read_str_len_with_nread-Decodes str16 n h =
      after_marker _ str16 n _ tt (Decodes-map (λ len. (len, 3)) (data_u16 big source n h))
  read_str_len_with_nread-Decodes str32 n h =
      after_marker _ str32 n _ tt (Decodes-map (λ len. (len, 5)) (data_u32 big source n h))
  read_str_len_with_nread-Decodes _ n h = absurd h

  pub read_str_len-Decodes :
      (mk : Marker) (n : ℕ) → StrForm mk n → Decodes left (read_str_len bo rd) (header mk n) n
  unfolding read_str_len
  read_str_len-Decodes mk n h =
      Decodes-map (λ (p : ℕ × ℕ). p.0) (read_str_len_with_nread-Decodes mk n h)

  meta_after :
      (mk : Marker) (n : ℕ) (ty : ℤ)
      → IsMarker mk
      → IsSigned 128 ty
      → Decodes left (read_ext_size bo rd mk) (be_bytes (width mk) n) n
      → Decodes left (read_ext_meta bo rd) (ext_header mk n ty) (record { typeid = ty; size = n })
  unfolding read_ext_meta ext_header header
  meta_after mk n ty h t k =
      Decodes->>= _ (Decodes-map_err _ (read_marker-Decodes source mk h))
        (Decodes->>= _ k (Decodes-map (λ z. record { typeid = z; size = n }) (data_i8 source ty t)))

  -- `read_ext_meta` reads every header of an extension, with a type of 8 bits, as its type and
  -- size.
  pub read_ext_meta-Decodes :
      (mk : Marker) (n : ℕ) (ty : ℤ)
      → ExtForm mk n
      → IsSigned 128 ty
      → Decodes left (read_ext_meta bo rd) (ext_header mk n ty) (record { typeid = ty; size = n })
  unfolding read_ext_size be_bytes
  read_ext_meta-Decodes fix_ext1 n ty h t = meta_after fix_ext1 n ty tt t (same_len 1 n (sym h))
  read_ext_meta-Decodes fix_ext2 n ty h t = meta_after fix_ext2 n ty tt t (same_len 2 n (sym h))
  read_ext_meta-Decodes fix_ext4 n ty h t = meta_after fix_ext4 n ty tt t (same_len 4 n (sym h))
  read_ext_meta-Decodes fix_ext8 n ty h t = meta_after fix_ext8 n ty tt t (same_len 8 n (sym h))
  read_ext_meta-Decodes fix_ext16 n ty h t = meta_after fix_ext16 n ty tt t (same_len 16 n (sym h))
  read_ext_meta-Decodes ext8 n ty h t = meta_after ext8 n ty tt t (data_u8 source n h)
  read_ext_meta-Decodes ext16 n ty h t = meta_after ext16 n ty tt t (data_u16 big source n h)
  read_ext_meta-Decodes ext32 n ty h t = meta_after ext32 n ty tt t (data_u32 big source n h)
  read_ext_meta-Decodes _ n ty h t = absurd h
