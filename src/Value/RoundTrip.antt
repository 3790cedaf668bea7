-- ===== src/Value/RoundTrip.antt =====
-- rmpv/src/decode/value.rs: `read_value` on the encodings of a value.
use msgpack_rust.Common.{
  ℕ, zero, suc, ◌<◌, ◌≤◌, inl, inr, Bool, List, [], ◌∷◌, append_assoc, length, arith,
}
use msgpack_rust.Common.Int.{as_unsigned}
use msgpack_rust.ByteOrder.{ByteOrder, IsBigEndian, be_bytes}
use msgpack_rust.Marker.{Marker, to_u8, IsMarker, null, reserved}
use msgpack_rust.Format.{header, int_bytes, ext_header}
use msgpack_rust.Format.Markers.{
  IntForm-IsMarker, StrForm-IsMarker, BinForm-IsMarker, ArrayForm-IsMarker, MapForm-IsMarker,
  ExtForm-IsMarker,
}
use msgpack_rust.Decode.Str.{Utf8}
use msgpack_rust.Decode.Logic.{Decodes, Decodes->>=, Decodes-pure, Decodes-map, Decodes-map_err}
use msgpack_rust.Decode.Wire.{read_marker-Decodes, data_f32, data_f64}
use msgpack_rust.Value.{
  Value, Values, Pairs, nil, boolean, integer, f32, f64, string, binary, array, map, ext, no_values,
  value, no_pairs, pair, count_values, count_pairs,
}
use msgpack_rust.Value.Read.{
  Read, read_marked, read_values, read_pairs, read_value_fuel, read_value_inner, read_value,
  read_value_with_max_depth, rmp,
}
use msgpack_rust.Value.Encoding.{
  Encoding, EncodingAll, EncodingPairs, need, need_values, need_pairs,
}
use msgpack_rust.Value.Marked.{IsStd}
use msgpack_rust.Value.Forms.{
  integer_marked, string_marked, binary_marked, array_marked, map_marked, ext_marked,
}

need_pos : {U : Type 0} (v : Value U) → 0 < need v
unfolding need
need_pos nil = omega arith
need_pos (boolean b) = omega arith
need_pos (integer i) = omega arith
need_pos (f32 bits) = omega arith
need_pos (f64 bits) = omega arith
need_pos (string s) = omega arith
need_pos (binary b) = omega arith
need_pos (array vs) = omega arith
need_pos (map ps) = omega arith
need_pos (ext ty b) = omega arith

module _ {bo : ByteOrder} (big : IsBigEndian bo) {U : Type 0} (utf8 : Utf8 U) {R E : Type 0}
    {rd : Read R E} {left : R → List ℕ} (std : IsStd rd left) where
  step :
      (mk : Marker) (cs : List ℕ) (v : Value U) (fuel depth : ℕ)
      → IsMarker mk
      → Decodes left (read_marked bo utf8 rd (read_value_fuel bo utf8 rd fuel) depth mk) cs v
      → Decodes left (read_value_fuel bo utf8 rd (suc fuel) (suc depth)) (to_u8 mk ∷ cs) v
  unfolding read_value_fuel rmp
  step mk cs v fuel depth h k =
      Decodes->>= _ (Decodes-pure depth)
        (Decodes->>= _ (Decodes-map_err _ (read_marker-Decodes std.source mk h)) k)

  nil_back :
      (bs : List ℕ) (fuel depth : ℕ)
      → Encoding utf8 nil bs
      → Decodes left (read_value_fuel bo utf8 rd (suc fuel) (suc depth)) bs nil
  unfolding read_marked
  nil_back bs fuel depth (inl p) = rw p (step null [] nil fuel depth tt (Decodes-pure nil))
  nil_back bs fuel depth (inr p) = rw p (step reserved [] nil fuel depth tt (Decodes-pure nil))

  boolean_back :
      (b : Bool) (bs : List ℕ) (fuel depth : ℕ)
      → Encoding utf8 (boolean b) bs
      → Decodes left (read_value_fuel bo utf8 rd (suc fuel) (suc depth)) bs (boolean b)
  unfolding read_marked
  boolean_back Bool.true bs fuel depth p =
      rw p (step Marker.true [] _ fuel depth tt (Decodes-pure (boolean Bool.true)))
  boolean_back Bool.false bs fuel depth p =
      rw p (step Marker.false [] _ fuel depth tt (Decodes-pure (boolean Bool.false)))

  f32_back :
      (bits : ℕ) (bs : List ℕ) (fuel depth : ℕ)
      → Encoding utf8 (f32 bits) bs
      → Decodes left (read_value_fuel bo utf8 rd (suc fuel) (suc depth)) bs (f32 bits)
  unfolding read_marked rmp header
  f32_back bits bs fuel depth (h, p) = rw p (
      step Marker.f32 _ _ fuel depth tt
        (Decodes-map Value.f32 (Decodes-map_err _ (data_f32 big std.source bits h))))

  f64_back :
      (bits : ℕ) (bs : List ℕ) (fuel depth : ℕ)
      → Encoding utf8 (f64 bits) bs
      → Decodes left (read_value_fuel bo utf8 rd (suc fuel) (suc depth)) bs (f64 bits)
  unfolding read_marked rmp header
  f64_back bits bs fuel depth (h, p) = rw p (
      step Marker.f64 _ _ fuel depth tt
        (Decodes-map Value.f64 (Decodes-map_err _ (data_f64 big std.source bits h))))

  mutual
    unfolding need need_values need_pairs header int_bytes ext_header read_values read_pairs

    pub value_back :
        (v : Value U) (bs : List ℕ) (fuel depth : ℕ)
        → Encoding utf8 v bs
        → need v ≤ depth
        → depth < fuel
        → Decodes left (read_value_fuel bo utf8 rd fuel depth) bs v
    value_back v bs zero depth e n f = absurd (omega arith)
    value_back v bs (suc fuel) zero e n f = absurd (omega (arith, need_pos v))
    value_back nil bs (suc fuel) (suc depth) e n f = nil_back bs fuel depth e
    value_back (boolean b) bs (suc fuel) (suc depth) e n f = boolean_back b bs fuel depth e
    value_back (integer i) bs (suc fuel) (suc depth) (mk, h, form, p) n f = rw p (
        step mk _ _ fuel depth (IntForm-IsMarker mk _ form)
          (integer_marked big utf8 std _ mk i depth h form))
    value_back (f32 bits) bs (suc fuel) (suc depth) e n f = f32_back bits bs fuel depth e
    value_back (f64 bits) bs (suc fuel) (suc depth) e n f = f64_back bits bs fuel depth e
    value_back (string s) bs (suc fuel) (suc zero) e n f = absurd (omega arith)
    value_back (string s) bs (suc fuel) (suc (suc zero)) e n f = absurd (omega arith)
    value_back (string s) bs (suc fuel) (suc (suc (suc depth))) (mk, h, form, p) n f = rw p (
        step mk _ _ fuel (suc (suc depth)) (StrForm-IsMarker mk _ form)
          (string_marked big utf8 std _ mk s depth h form))
    value_back (binary b) bs (suc fuel) (suc zero) e n f = absurd (omega arith)
    value_back (binary b) bs (suc fuel) (suc (suc depth)) (mk, form, p) n f = rw p (
        step mk _ _ fuel (suc depth) (BinForm-IsMarker mk _ form)
          (binary_marked big utf8 std _ mk b depth form))
    value_back (array vs) bs (suc fuel) (suc zero) e n f = absurd (omega arith)
    value_back (array vs) bs (suc fuel) (suc (suc depth)) (mk, cs, form, all, p) n f = rw p (
        step mk _ _ fuel (suc depth) (ArrayForm-IsMarker mk _ form) (
          array_marked big utf8 std _ mk _ vs cs depth form
            (values_back vs cs fuel depth all (omega arith) (omega arith))))
    value_back (map ps) bs (suc fuel) (suc zero) e n f = absurd (omega arith)
    value_back (map ps) bs (suc fuel) (suc (suc depth)) (mk, cs, form, all, p) n f = rw p (
        step mk _ _ fuel (suc depth) (MapForm-IsMarker mk _ form) (
          map_marked big utf8 std _ mk _ ps cs depth form
            (pairs_back ps cs fuel depth all (omega arith) (omega arith))))
    value_back (ext ty b) bs (suc fuel) (suc zero) e n f = absurd (omega arith)
    value_back (ext ty b) bs (suc fuel) (suc (suc zero)) e n f = absurd (omega arith)
    value_back (ext ty b) bs (suc fuel) (suc (suc (suc depth))) (mk, t, form, p) n f =
        rw (p, append_assoc (header mk (length b)) (be_bytes 1 (as_unsigned 256 ty)) b)
          (step mk _ _ fuel (suc (suc depth)) (ExtForm-IsMarker mk _ form)
            (ext_marked big utf8 std _ mk ty b depth t form))

    values_back :
        (vs : Values U) (cs : List ℕ) (fuel depth : ℕ)
        → EncodingAll utf8 vs cs
        → need_values vs ≤ depth
        → depth < fuel
        → Decodes left
            (read_values bo utf8 rd (read_value_fuel bo utf8 rd fuel depth) (count_values vs))
            cs
            vs
    values_back no_values cs fuel depth p n f = rw p (Decodes-pure no_values)
    values_back (value v vs) cs fuel depth (b, c, e, all, p) n f = rw p (
        Decodes->>= _ (value_back v b fuel depth e (omega arith) f)
          (Decodes-map _ (values_back vs c fuel depth all (omega arith) f)))

    pairs_back :
        (ps : Pairs U) (cs : List ℕ) (fuel depth : ℕ)
        → EncodingPairs utf8 ps cs
        → need_pairs ps ≤ depth
        → depth < fuel
        → Decodes left
            (read_pairs bo utf8 rd (read_value_fuel bo utf8 rd fuel depth) (count_pairs ps))
            cs
            ps
    pairs_back no_pairs cs fuel depth p n f = rw p (Decodes-pure no_pairs)
    pairs_back (pair k v ps) cs fuel depth (a, b, c, e, g, all, p) n f = rw p (
        Decodes->>= _ (value_back k a fuel depth e (omega arith) f) (
          Decodes->>= _ (value_back v b fuel depth g (omega arith) f)
            (Decodes-map _ (pairs_back ps c fuel depth all (omega arith) f))))

  -- Every encoding of a value, in any form that the format allows, is read as that value and
  -- exactly, where the value's depth is within the limit; an input that ends inside the encoding is
  -- an error, never a panic.
  pub read_value_with_max_depth-Decodes :
      (v : Value U) (bs : List ℕ) (limit : ℕ)
      → Encoding utf8 v bs
      → need v ≤ limit
      → Decodes left (read_value_with_max_depth bo utf8 rd limit) bs v
  unfolding read_value_with_max_depth read_value_inner
  read_value_with_max_depth-Decodes v bs limit e n =
      value_back v bs (suc limit) limit e n (omega arith)

  -- The same of `read_value`, whose limit is 1024.
  pub read_value-Decodes :
      (v : Value U) (bs : List ℕ)
      → Encoding utf8 v bs
      → need v ≤ 1024
      → Decodes left (read_value bo utf8 rd) bs v
  unfolding read_value read_value_inner
  read_value-Decodes v bs e n = value_back v bs 1025 1024 e n (omega arith)
