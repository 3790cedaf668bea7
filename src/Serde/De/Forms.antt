-- ===== src/Serde/De/Forms.antt =====
-- rmp-serde/src/decode.rs: `deserialize_any` behind each marker.
use msgpack_rust.Common.{ℕ, suc, ◌<◌, ◌^◌, ◌%◌, ◌≡◌, ap, ◌∙◌, subst, List, [], ◌++◌, length, arith}
use msgpack_rust.Common.Int.{ℤ, pos, negsuc, IsSigned, as_unsigned, as_unsigned_pos}
use msgpack_rust.Common.Outcome.{M, ◌>>=◌, pure}
use msgpack_rust.ByteOrder.{ByteOrder, IsBigEndian, be_bytes}
use msgpack_rust.Marker.{
  Marker, fix_pos, fix_neg, u8, u16, u32, u64, i8, i16, i32, i64, fix_str, str8, str16, str32, bin8,
  bin16, bin32, fix_array, array16, array32, fix_map, map16, map32, fix_ext1, fix_ext2, fix_ext4,
  fix_ext8, fix_ext16, ext8, ext16, ext32,
}
use msgpack_rust.Format.{width, IntForm, StrForm, BinForm, ArrayForm, MapForm, ExtForm}
use msgpack_rust.Decode.{io_read}
use msgpack_rust.Decode.Str.{Utf8}
use msgpack_rust.Decode.Logic.{Decodes-pure, Decodes-map_err}
use msgpack_rust.Decode.Wire.{
  data_u8, data_i8, data_u16, data_u32, data_u64, data_i16, data_i32, data_i64, get_u,
}
use msgpack_rust.Value.{
  Value, Values, Pairs, Utf8String, Integer, IntPriv, pos_int, neg_int, integer, binary, array, map,
  ext, count_values, count_pairs,
}
use msgpack_rust.Value.Ints.{IsIntPriv, to_ℤ, from_unsigned, from_signed, from_signed-to_ℤ}
use msgpack_rust.Value.Encoding.{IsUtf8String, as_bytes}
use msgpack_rust.Value.Stored.{settle_string}
use msgpack_rust.Serde.De.{
  Error, Reference, ReadSlice, Deserializer, on_rd, read_u8, read_u16, read_u32, invalid_data_read,
}
use msgpack_rust.Serde.De.Any.{any_marked, ext_len, any_ext}
use msgpack_rust.Serde.De.Visitor.{Refusals, value_visitor}
use msgpack_rust.Serde.De.Logic.{IsSlice, Takes, Takes->>=, Takes-last, Takes-pure, Takes-on_rd}
use msgpack_rust.Serde.De.Loops.{TakesAll, TakesPairs}
use msgpack_rust.Serde.De.Parts.{
  any_ext-Takes, any_bin-Takes, read_str_data-Takes, any_array-Takes, any_map-Takes,
}

module _ {bo : ByteOrder} (big : IsBigEndian bo) {U R E : Type 0} (utf8 : Utf8 U)
    {rs : ReadSlice R E} (refusals : Refusals (Error U E)) {left : R → List ℕ}
    {wrap : List ℕ → Reference} (is : IsSlice rs left wrap) (need : ℕ) where
  len_u8 : (n : ℕ) → n < 256 → Takes {X = Error U E} left need (on_rd (read_u8 rs)) (be_bytes 1 n) n
  unfolding read_u8 be_bytes
  len_u8 n h =
      let small : n % 256 ≡ n = omega arith in
      rw small (Takes-on_rd need (Decodes-map_err _ (is.source.u8 n)))

  len_u16 :
      (n : ℕ)
      → n < 65536
      → Takes {X = Error U E} left need (on_rd (read_u16 bo rs)) (be_bytes 2 n) n
  unfolding read_u16 io_read
  len_u16 n h = Takes-on_rd need (get_u big is.source invalid_data_read 2 n h)

  len_u32 :
      (n : ℕ)
      → n < 4294967296
      → Takes {X = Error U E} left need (on_rd (read_u32 bo rs)) (be_bytes 4 n) n
  unfolding read_u32 io_read
  len_u32 n h = Takes-on_rd need (get_u big is.source invalid_data_read 4 n h)

  private_taken :
      (mk : Marker) (p : IntPriv) (inner : M (Deserializer R) (Error U E) (Value U))
      → IsIntPriv p
      → IntForm mk (to_ℤ p)
      → Takes left need
          (any_marked bo utf8 rs (value_visitor refusals) inner mk)
          (be_bytes (width mk) (as_unsigned (256 ^ width mk) (to_ℤ p)))
          (integer (record { n = p }))
  unfolding any_marked value_visitor from_unsigned be_bytes
  private_taken (fix_pos k) (pos_int n) inner h f =
      subst
        (λ j.
          Takes {X = Error U E} {A = Value U} left need (pure (integer (record { n = pos_int k })))
            [] (integer (record { n = pos_int j })))
        f.0 (Takes-pure _)
  private_taken (fix_pos k) (neg_int (pos n)) inner h f = absurd h
  private_taken (fix_pos k) (neg_int (negsuc n)) inner h f = absurd f
  private_taken (fix_neg k) (pos_int n) inner h f = absurd f
  private_taken (fix_neg k) (neg_int (pos n)) inner h f = absurd h
  private_taken (fix_neg k) (neg_int (negsuc n)) inner h f =
      subst (Takes left need (pure (integer (from_signed k))) [])
        (ap integer (ap from_signed f.0 ∙ from_signed-to_ℤ (neg_int (negsuc n)) h)) (Takes-pure _)
  private_taken u8 (pos_int n) inner h f =
      rw (as_unsigned_pos 256 n f)
        (Takes-last _ (Takes-on_rd need (Decodes-map_err _ (data_u8 is.source n f))) (Takes-pure _))
  private_taken u8 (neg_int (pos n)) inner h f = absurd h
  private_taken u8 (neg_int (negsuc n)) inner h f = absurd f
  private_taken u16 (pos_int n) inner h f = rw (as_unsigned_pos 65536 n f) (
      Takes-last _ (Takes-on_rd need (Decodes-map_err _ (data_u16 big is.source n f)))
        (Takes-pure _))
  private_taken u16 (neg_int (pos n)) inner h f = absurd h
  private_taken u16 (neg_int (negsuc n)) inner h f = absurd f
  private_taken u32 (pos_int n) inner h f = rw (as_unsigned_pos 4294967296 n f) (
      Takes-last _ (Takes-on_rd need (Decodes-map_err _ (data_u32 big is.source n f)))
        (Takes-pure _))
  private_taken u32 (neg_int (pos n)) inner h f = absurd h
  private_taken u32 (neg_int (negsuc n)) inner h f = absurd f
  private_taken u64 (pos_int n) inner h f = rw (as_unsigned_pos 18446744073709551616 n f) (
      Takes-last _ (Takes-on_rd need (Decodes-map_err _ (data_u64 big is.source n f)))
        (Takes-pure _))
  private_taken u64 (neg_int (pos n)) inner h f = absurd h
  private_taken u64 (neg_int (negsuc n)) inner h f = absurd f
  private_taken i8 p inner h f =
      Takes-last _ (Takes-on_rd need (Decodes-map_err _ (data_i8 is.source (to_ℤ p) f)))
        (rw (from_signed-to_ℤ p h) (Takes-pure _))
  private_taken i16 p inner h f =
      Takes-last _ (Takes-on_rd need (Decodes-map_err _ (data_i16 big is.source (to_ℤ p) f)))
        (rw (from_signed-to_ℤ p h) (Takes-pure _))
  private_taken i32 p inner h f =
      Takes-last _ (Takes-on_rd need (Decodes-map_err _ (data_i32 big is.source (to_ℤ p) f)))
        (rw (from_signed-to_ℤ p h) (Takes-pure _))
  private_taken i64 p inner h f =
      Takes-last _ (Takes-on_rd need (Decodes-map_err _ (data_i64 big is.source (to_ℤ p) f)))
        (rw (from_signed-to_ℤ p h) (Takes-pure _))
  private_taken _ p inner h f = absurd f

  pub integer_taken :
      (mk : Marker) (i : Integer) (inner : M (Deserializer R) (Error U E) (Value U))
      → IsIntPriv i.n
      → IntForm mk (to_ℤ i.n)
      → Takes left need
          (any_marked bo utf8 rs (value_visitor refusals) inner mk)
          (be_bytes (width mk) (as_unsigned (256 ^ width mk) (to_ℤ i.n)))
          (integer i)
  integer_taken mk i inner h f = private_taken mk i.n inner h f

  pub string_taken :
      (mk : Marker) (s : Utf8String U) (inner : M (Deserializer R) (Error U E) (Value U))
      → IsUtf8String utf8 s
      → StrForm mk (length (as_bytes utf8 s))
      → Takes left need
          (any_marked bo utf8 rs (value_visitor refusals) inner mk)
          (be_bytes (width mk) (length (as_bytes utf8 s)) ++ as_bytes utf8 s)
          (settle_string s)
  unfolding any_marked be_bytes
  string_taken (fix_str k) s inner h f =
      rw f.0 (read_str_data-Takes bo utf8 rs refusals is need s h)
  string_taken str8 s inner h f =
      Takes->>= _ (len_u8 _ f) (read_str_data-Takes bo utf8 rs refusals is need s h)
  string_taken str16 s inner h f =
      Takes->>= _ (len_u16 _ f) (read_str_data-Takes bo utf8 rs refusals is need s h)
  string_taken str32 s inner h f =
      Takes->>= _ (len_u32 _ f) (read_str_data-Takes bo utf8 rs refusals is need s h)
  string_taken _ s inner h f = absurd f

  pub binary_taken :
      (mk : Marker) (b : List ℕ) (inner : M (Deserializer R) (Error U E) (Value U))
      → BinForm mk (length b)
      → Takes left need
          (any_marked bo utf8 rs (value_visitor refusals) inner mk)
          (be_bytes (width mk) (length b) ++ b)
          (binary b)
  unfolding any_marked
  binary_taken bin8 b inner f =
      Takes->>= _ (len_u8 _ f) (any_bin-Takes bo utf8 rs refusals is need b)
  binary_taken bin16 b inner f =
      Takes->>= _ (len_u16 _ f) (any_bin-Takes bo utf8 rs refusals is need b)
  binary_taken bin32 b inner f =
      Takes->>= _ (len_u32 _ f) (any_bin-Takes bo utf8 rs refusals is need b)
  binary_taken _ b inner f = absurd f

module _ {bo : ByteOrder} (big : IsBigEndian bo) {U R E : Type 0} (utf8 : Utf8 U)
    {rs : ReadSlice R E} (refusals : Refusals (Error U E)) {left : R → List ℕ}
    {wrap : List ℕ → Reference} (is : IsSlice rs left wrap) (need : ℕ) where
  pub array_taken :
      (mk : Marker) (vs : Values U) (cs : List ℕ) (inner : M (Deserializer R) (Error U E) (Value U))
      → ArrayForm mk (count_values vs)
      → TakesAll left need inner vs cs
      → Takes left
          (suc need)
          (any_marked bo utf8 rs (value_visitor refusals) inner mk)
          (be_bytes (width mk) (count_values vs) ++ cs)
          (array vs)
  unfolding any_marked be_bytes
  array_taken (fix_array k) vs cs inner f h =
      rw f.0 (any_array-Takes bo utf8 rs refusals is need inner vs cs h)
  array_taken array16 vs cs inner f h =
      Takes->>= _ (len_u16 big utf8 refusals is (suc need) _ f)
        (any_array-Takes bo utf8 rs refusals is need inner vs cs h)
  array_taken array32 vs cs inner f h =
      Takes->>= _ (len_u32 big utf8 refusals is (suc need) _ f)
        (any_array-Takes bo utf8 rs refusals is need inner vs cs h)
  array_taken _ vs cs inner f h = absurd f

  pub map_taken :
      (mk : Marker) (ps : Pairs U) (cs : List ℕ) (inner : M (Deserializer R) (Error U E) (Value U))
      → MapForm mk (count_pairs ps)
      → TakesPairs left need inner ps cs
      → Takes left
          (suc need)
          (any_marked bo utf8 rs (value_visitor refusals) inner mk)
          (be_bytes (width mk) (count_pairs ps) ++ cs)
          (map ps)
  unfolding any_marked be_bytes
  map_taken (fix_map k) ps cs inner f h =
      rw f.0 (any_map-Takes bo utf8 rs refusals is need inner ps cs h)
  map_taken map16 ps cs inner f h =
      Takes->>= _ (len_u16 big utf8 refusals is (suc need) _ f)
        (any_map-Takes bo utf8 rs refusals is need inner ps cs h)
  map_taken map32 ps cs inner f h =
      Takes->>= _ (len_u32 big utf8 refusals is (suc need) _ f)
        (any_map-Takes bo utf8 rs refusals is need inner ps cs h)
  map_taken _ ps cs inner f h = absurd f

  -- The length is known from the marker.
  fixed :
      (ty : ℤ) (b : List ℕ) (n : ℕ)
      → length b ≡ n
      → IsSigned 128 ty
      → Takes {X = Error U E} left
          (suc need)
          (do len ← on_rd (pure n); any_ext bo utf8 rs (value_visitor {U = U} {R = R} refusals) len)
          (be_bytes 1 (as_unsigned 256 ty) ++ b)
          (ext ty b)
  fixed ty b n e t = rw (← e) (
      Takes->>= _ (Takes-on_rd (suc need) (Decodes-pure (length b)))
        (any_ext-Takes bo utf8 rs refusals is need ty b t))

  pub ext_taken :
      (mk : Marker) (ty : ℤ) (b : List ℕ) (inner : M (Deserializer R) (Error U E) (Value U))
      → IsSigned 128 ty
      → ExtForm mk (length b)
      → Takes left
          (suc need)
          (any_marked bo utf8 rs (value_visitor refusals) inner mk)
          (be_bytes (width mk) (length b) ++ (be_bytes 1 (as_unsigned 256 ty) ++ b))
          (ext ty b)
  unfolding any_marked ext_len
  ext_taken fix_ext1 ty b inner t f = unfold be_bytes in fixed ty b 1 f t
  ext_taken fix_ext2 ty b inner t f = unfold be_bytes in fixed ty b 2 f t
  ext_taken fix_ext4 ty b inner t f = unfold be_bytes in fixed ty b 4 f t
  ext_taken fix_ext8 ty b inner t f = unfold be_bytes in fixed ty b 8 f t
  ext_taken fix_ext16 ty b inner t f = unfold be_bytes in fixed ty b 16 f t
  ext_taken ext8 ty b inner t f =
      Takes->>= _ (len_u8 big utf8 refusals is (suc need) _ f)
        (any_ext-Takes bo utf8 rs refusals is need ty b t)
  ext_taken ext16 ty b inner t f =
      Takes->>= _ (len_u16 big utf8 refusals is (suc need) _ f)
        (any_ext-Takes bo utf8 rs refusals is need ty b t)
  ext_taken ext32 ty b inner t f =
      Takes->>= _ (len_u32 big utf8 refusals is (suc need) _ f)
        (any_ext-Takes bo utf8 rs refusals is need ty b t)
  ext_taken _ ty b inner t f = absurd f
