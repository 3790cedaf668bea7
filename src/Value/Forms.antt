-- ===== src/Value/Forms.antt =====
-- rmpv/src/decode/value.rs: each form of a value, behind its marker.
use msgpack_rust.Common.{ℕ, suc, ◌^◌, ◌≡◌, refl, ap, ◌∙◌, subst, List, [], ◌++◌, length}
use msgpack_rust.Common.Int.{ℤ, pos, negsuc, IsSigned, as_unsigned, as_unsigned_pos}
use msgpack_rust.Common.Outcome.{M, ◌>>=◌, pure}
use msgpack_rust.ByteOrder.{ByteOrder, IsBigEndian, be_bytes}
use msgpack_rust.Marker.{
  Marker, fix_pos, fix_neg, u8, u16, u32, u64, i8, i16, i32, i64, fix_str, str8, str16, str32, bin8,
  bin16, bin32, fix_array, array16, array32, fix_map, map16, map32, fix_ext1, fix_ext2, fix_ext4,
  fix_ext8, fix_ext16, ext8, ext16, ext32,
}
use msgpack_rust.Format.{width, IntForm, StrForm, BinForm, ArrayForm, MapForm, ExtForm}
use msgpack_rust.Decode.Str.{Utf8}
use msgpack_rust.Decode.Logic.{
  Decodes, Decodes->>=, Decodes-pure, Decodes-map, Decodes-map_eq, Decodes-map_err,
}
use msgpack_rust.Decode.Wire.{
  data_u8, data_i8, data_u16, data_u32, data_u64, data_i16, data_i32, data_i64,
}
use msgpack_rust.Value.{
  Value, Values, Pairs, Utf8String, Integer, IntPriv, pos_int, neg_int, integer, string, binary,
  array, map, ext,
}
use msgpack_rust.Value.Ints.{IsIntPriv, to_ℤ, from_unsigned, from_signed, from_signed-to_ℤ}
use msgpack_rust.Value.Encoding.{IsUtf8String, as_bytes}
use msgpack_rust.Value.Marked.{
  IsStd, read_bin_data-Decodes, read_str_data-Decodes, read_ext_body-Decodes,
}
use msgpack_rust.Value.Read.{
  Read, Error, decrement_depth, rmp, read_ext_body, read_values, read_pairs, read_array_data,
  read_map_data, read_marked,
}

module _ {bo : ByteOrder} (big : IsBigEndian bo) {U : Type 0} (utf8 : Utf8 U) {R E : Type 0}
    {rd : Read R E} {left : R → List ℕ} (std : IsStd rd left)
    (inner : ℕ → M R (Error E) (Value U)) where
  private_marked :
      (mk : Marker) (p : IntPriv) (depth : ℕ)
      → IsIntPriv p
      → IntForm mk (to_ℤ p)
      → Decodes left
          (read_marked bo utf8 rd inner depth mk)
          (be_bytes (width mk) (as_unsigned (256 ^ width mk) (to_ℤ p)))
          (integer (record { n = p }))
  unfolding read_marked from_unsigned be_bytes rmp
  private_marked (fix_pos k) (pos_int n) depth h f =
      subst
        (λ j.
          Decodes {E = Error E} {A = Value U} left (pure (integer (record { n = pos_int k }))) []
            (integer (record { n = pos_int j })))
        f.0 (Decodes-pure _)
  private_marked (fix_pos k) (neg_int (pos n)) depth h f = absurd h
  private_marked (fix_pos k) (neg_int (negsuc n)) depth h f = absurd f
  private_marked (fix_neg k) (pos_int n) depth h f = absurd f
  private_marked (fix_neg k) (neg_int (pos n)) depth h f = absurd h
  private_marked (fix_neg k) (neg_int (negsuc n)) depth h f =
      subst (Decodes left (pure (integer (from_signed k))) [])
        (ap integer (ap from_signed f.0 ∙ from_signed-to_ℤ (neg_int (negsuc n)) h)) (Decodes-pure _)
  private_marked u8 (pos_int n) depth h f = rw (as_unsigned_pos 256 n f) (
      Decodes-map (λ (k : ℕ). integer (record { n = pos_int k }))
        (Decodes-map_err _ (data_u8 std.source n f)))
  private_marked u8 (neg_int (pos n)) depth h f = absurd h
  private_marked u8 (neg_int (negsuc n)) depth h f = absurd f
  private_marked u16 (pos_int n) depth h f = rw (as_unsigned_pos 65536 n f) (
      Decodes-map (λ (k : ℕ). integer (record { n = pos_int k }))
        (Decodes-map_err _ (data_u16 big std.source n f)))
  private_marked u16 (neg_int (pos n)) depth h f = absurd h
  private_marked u16 (neg_int (negsuc n)) depth h f = absurd f
  private_marked u32 (pos_int n) depth h f = rw (as_unsigned_pos 4294967296 n f) (
      Decodes-map (λ (k : ℕ). integer (record { n = pos_int k }))
        (Decodes-map_err _ (data_u32 big std.source n f)))
  private_marked u32 (neg_int (pos n)) depth h f = absurd h
  private_marked u32 (neg_int (negsuc n)) depth h f = absurd f
  private_marked u64 (pos_int n) depth h f = rw (as_unsigned_pos 18446744073709551616 n f) (
      Decodes-map (λ (k : ℕ). integer (record { n = pos_int k }))
        (Decodes-map_err _ (data_u64 big std.source n f)))
  private_marked u64 (neg_int (pos n)) depth h f = absurd h
  private_marked u64 (neg_int (negsuc n)) depth h f = absurd f
  private_marked i8 p depth h f =
      Decodes-map_eq _ (Decodes-map_err _ (data_i8 std.source (to_ℤ p) f))
        (ap integer (from_signed-to_ℤ p h))
  private_marked i16 p depth h f =
      Decodes-map_eq _ (Decodes-map_err _ (data_i16 big std.source (to_ℤ p) f))
        (ap integer (from_signed-to_ℤ p h))
  private_marked i32 p depth h f =
      Decodes-map_eq _ (Decodes-map_err _ (data_i32 big std.source (to_ℤ p) f))
        (ap integer (from_signed-to_ℤ p h))
  private_marked i64 p depth h f =
      Decodes-map_eq _ (Decodes-map_err _ (data_i64 big std.source (to_ℤ p) f))
        (ap integer (from_signed-to_ℤ p h))
  private_marked _ p depth h f = absurd f

  -- The integer behind its marker.
  pub integer_marked :
      (mk : Marker) (i : Integer) (depth : ℕ)
      → IsIntPriv i.n
      → IntForm mk (to_ℤ i.n)
      → Decodes left
          (read_marked bo utf8 rd inner depth mk)
          (be_bytes (width mk) (as_unsigned (256 ^ width mk) (to_ℤ i.n)))
          (integer i)
  integer_marked mk i depth h f = private_marked mk i.n depth h f

  pub string_marked :
      (mk : Marker) (s : Utf8String U) (depth : ℕ)
      → IsUtf8String utf8 s
      → StrForm mk (length (as_bytes utf8 s))
      → Decodes left
          (read_marked bo utf8 rd inner (suc (suc depth)) mk)
          (be_bytes (width mk) (length (as_bytes utf8 s)) ++ as_bytes utf8 s)
          (string s)
  unfolding read_marked be_bytes rmp
  string_marked (fix_str k) s depth h f =
      rw f.0 (Decodes-map string (read_str_data-Decodes bo utf8 std s depth h))
  string_marked str8 s depth h f =
      Decodes->>= _ (Decodes-map_err _ (data_u8 std.source _ f))
        (Decodes-map string (read_str_data-Decodes bo utf8 std s depth h))
  string_marked str16 s depth h f =
      Decodes->>= _ (Decodes-map_err _ (data_u16 big std.source _ f))
        (Decodes-map string (read_str_data-Decodes bo utf8 std s depth h))
  string_marked str32 s depth h f =
      Decodes->>= _ (Decodes-map_err _ (data_u32 big std.source _ f))
        (Decodes-map string (read_str_data-Decodes bo utf8 std s depth h))
  string_marked _ s depth h f = absurd f

  pub binary_marked :
      (mk : Marker) (b : List ℕ) (depth : ℕ)
      → BinForm mk (length b)
      → Decodes left
          (read_marked bo utf8 rd inner (suc depth) mk)
          (be_bytes (width mk) (length b) ++ b)
          (binary b)
  unfolding read_marked rmp
  binary_marked bin8 b depth f =
      Decodes->>= _ (Decodes-map_err _ (data_u8 std.source _ f))
        (Decodes-map binary (read_bin_data-Decodes bo utf8 std b depth))
  binary_marked bin16 b depth f =
      Decodes->>= _ (Decodes-map_err _ (data_u16 big std.source _ f))
        (Decodes-map binary (read_bin_data-Decodes bo utf8 std b depth))
  binary_marked bin32 b depth f =
      Decodes->>= _ (Decodes-map_err _ (data_u32 big std.source _ f))
        (Decodes-map binary (read_bin_data-Decodes bo utf8 std b depth))
  binary_marked _ b depth f = absurd f

  read_array_data-Decodes :
      (n : ℕ) (vs : Values U) (cs : List ℕ) (depth : ℕ)
      → Decodes left (read_values bo utf8 rd (inner depth) n) cs vs
      → Decodes left (read_array_data bo utf8 rd inner n (suc depth)) cs vs
  unfolding read_array_data decrement_depth
  read_array_data-Decodes n vs cs depth h = Decodes->>= _ (Decodes-pure depth) h

  pub array_marked :
      (mk : Marker) (n : ℕ) (vs : Values U) (cs : List ℕ) (depth : ℕ)
      → ArrayForm mk n
      → Decodes left (read_values bo utf8 rd (inner depth) n) cs vs
      → Decodes left
          (read_marked bo utf8 rd inner (suc depth) mk)
          (be_bytes (width mk) n ++ cs)
          (array vs)
  unfolding read_marked be_bytes rmp
  array_marked (fix_array k) n vs cs depth f h =
      rw f.0 (Decodes-map array (read_array_data-Decodes n vs cs depth h))
  array_marked array16 n vs cs depth f h =
      Decodes->>= _ (Decodes-map_err _ (data_u16 big std.source n f))
        (Decodes-map array (read_array_data-Decodes n vs cs depth h))
  array_marked array32 n vs cs depth f h =
      Decodes->>= _ (Decodes-map_err _ (data_u32 big std.source n f))
        (Decodes-map array (read_array_data-Decodes n vs cs depth h))
  array_marked _ n vs cs depth f h = absurd f

  read_map_data-Decodes :
      (n : ℕ) (ps : Pairs U) (cs : List ℕ) (depth : ℕ)
      → Decodes left (read_pairs bo utf8 rd (inner depth) n) cs ps
      → Decodes left (read_map_data bo utf8 rd inner n (suc depth)) cs ps
  unfolding read_map_data decrement_depth
  read_map_data-Decodes n ps cs depth h = Decodes->>= _ (Decodes-pure depth) h

  pub map_marked :
      (mk : Marker) (n : ℕ) (ps : Pairs U) (cs : List ℕ) (depth : ℕ)
      → MapForm mk n
      → Decodes left (read_pairs bo utf8 rd (inner depth) n) cs ps
      → Decodes left
          (read_marked bo utf8 rd inner (suc depth) mk)
          (be_bytes (width mk) n ++ cs)
          (map ps)
  unfolding read_marked be_bytes rmp
  map_marked (fix_map k) n ps cs depth f h =
      rw f.0 (Decodes-map map (read_map_data-Decodes n ps cs depth h))
  map_marked map16 n ps cs depth f h =
      Decodes->>= _ (Decodes-map_err _ (data_u16 big std.source n f))
        (Decodes-map map (read_map_data-Decodes n ps cs depth h))
  map_marked map32 n ps cs depth f h =
      Decodes->>= _ (Decodes-map_err _ (data_u32 big std.source n f))
        (Decodes-map map (read_map_data-Decodes n ps cs depth h))
  map_marked _ n ps cs depth f h = absurd f

  body_of :
      (ty : ℤ) (b : List ℕ) (n depth : ℕ)
      → length b ≡ n
      → IsSigned 128 ty
      → Decodes {A = Value U} left
          (do body ← read_ext_body bo utf8 rd n (suc (suc depth)); pure (ext body.0 body.1))
          (be_bytes 1 (as_unsigned 256 ty) ++ b)
          (ext ty b)
  body_of ty b n depth e t = rw (← e) (
      Decodes-map (λ (body : ℤ × List ℕ). ext body.0 body.1)
        (read_ext_body-Decodes bo utf8 std ty b depth t))

  pub ext_marked :
      (mk : Marker) (ty : ℤ) (b : List ℕ) (depth : ℕ)
      → IsSigned 128 ty
      → ExtForm mk (length b)
      → Decodes left
          (read_marked bo utf8 rd inner (suc (suc depth)) mk)
          (be_bytes (width mk) (length b) ++ (be_bytes 1 (as_unsigned 256 ty) ++ b))
          (ext ty b)
  unfolding read_marked rmp
  ext_marked fix_ext1 ty b depth t f = unfold be_bytes in body_of ty b 1 depth f t
  ext_marked fix_ext2 ty b depth t f = unfold be_bytes in body_of ty b 2 depth f t
  ext_marked fix_ext4 ty b depth t f = unfold be_bytes in body_of ty b 4 depth f t
  ext_marked fix_ext8 ty b depth t f = unfold be_bytes in body_of ty b 8 depth f t
  ext_marked fix_ext16 ty b depth t f = unfold be_bytes in body_of ty b 16 depth f t
  ext_marked ext8 ty b depth t f =
      Decodes->>= _ (Decodes-map_err _ (data_u8 std.source _ f)) (body_of ty b _ depth refl t)
  ext_marked ext16 ty b depth t f =
      Decodes->>= _ (Decodes-map_err _ (data_u16 big std.source _ f)) (body_of ty b _ depth refl t)
  ext_marked ext32 ty b depth t f =
      Decodes->>= _ (Decodes-map_err _ (data_u32 big std.source _ f)) (body_of ty b _ depth refl t)
  ext_marked _ ty b depth t f = absurd f
