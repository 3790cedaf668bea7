-- ===== src/Value/Deep.antt =====
-- rmpv/src/decode: `read_value` on values that lie deeper than the limit.
use msgpack_rust.Common.{
  le_or_lt, ℕ, zero, suc, ◌<◌, inl, inr, List, ◌∷◌, ◌++◌, append_assoc, length, arith,
}
use msgpack_rust.Common.Int.{as_unsigned}
use msgpack_rust.ByteOrder.{ByteOrder, IsBigEndian, be_bytes}
use msgpack_rust.Marker.{Marker, to_u8, IsMarker}
use msgpack_rust.Format.{header, ext_header}
use msgpack_rust.Format.Markers.{
  StrForm-IsMarker, BinForm-IsMarker, ArrayForm-IsMarker, MapForm-IsMarker, ExtForm-IsMarker,
}
use msgpack_rust.Decode.Str.{Utf8}
use msgpack_rust.Decode.Logic.{Decodes-pure, Decodes-map_err}
use msgpack_rust.Decode.Wire.{read_marker-Decodes}
use msgpack_rust.Value.{
  Value, Values, Pairs, nil, boolean, integer, f32, f64, string, binary, array, map, ext, no_values,
  value, no_pairs, pair, count_values, count_pairs,
}
use msgpack_rust.Value.Read.{
  Read, depth_limit_exceeded, read_marked, read_values, read_pairs, read_value_fuel,
  read_value_inner, read_value_with_max_depth, rmp,
}
use msgpack_rust.Value.Encoding.{
  Encoding, EncodingAll, EncodingPairs, need, need_values, need_pairs,
}
use msgpack_rust.Value.Marked.{IsStd}
use msgpack_rust.Value.RoundTrip.{value_back}
use msgpack_rust.Value.Rejects.{
  Rejects, Rejects-head, Rejects->>=, Rejects-fail, Rejects-more, str_refused, str_bytes_refused,
  string_rejected, binary_rejected, values_refused, values_inside, array_rejected, pairs_refused,
  pairs_inside, map_rejected, ext_refused, ext_bytes_refused, ext_rejected,
}

module _ {bo : ByteOrder} (big : IsBigEndian bo) {U : Type 0} (utf8 : Utf8 U) {R E : Type 0}
    {rd : Read R E} {left : R → List ℕ} (std : IsStd rd left) where
  refused_at_once :
      (bs : List ℕ) (fuel : ℕ)
      → Rejects left (read_value_fuel bo utf8 rd (suc fuel) zero) bs depth_limit_exceeded
  unfolding read_value_fuel
  refused_at_once bs fuel = Rejects-head _ (Rejects-fail bs depth_limit_exceeded)

  step_refused :
      (mk : Marker) (cs : List ℕ) (fuel depth : ℕ)
      → IsMarker mk
      → Rejects left
          (read_marked bo utf8 rd (read_value_fuel bo utf8 rd fuel) depth mk)
          cs
          depth_limit_exceeded
      → Rejects left
          (read_value_fuel bo utf8 rd (suc fuel) (suc depth))
          (to_u8 mk ∷ cs)
          depth_limit_exceeded
  unfolding read_value_fuel rmp
  step_refused mk cs fuel depth h k =
      Rejects->>= _ (Decodes-pure depth)
        (Rejects->>= _ (Decodes-map_err _ (read_marker-Decodes std.source mk h)) k)

  mutual
    unfolding need need_values need_pairs header ext_header read_values read_pairs

    value_deep :
        (v : Value U) (bs : List ℕ) (fuel depth : ℕ)
        → Encoding utf8 v bs
        → depth < need v
        → depth < fuel
        → Rejects left (read_value_fuel bo utf8 rd fuel depth) bs depth_limit_exceeded
    value_deep v bs zero depth e n f = absurd (omega arith)
    value_deep v bs (suc fuel) zero e n f = refused_at_once bs fuel
    value_deep nil bs (suc fuel) (suc depth) e n f = absurd (omega arith)
    value_deep (boolean b) bs (suc fuel) (suc depth) e n f = absurd (omega arith)
    value_deep (integer i) bs (suc fuel) (suc depth) e n f = absurd (omega arith)
    value_deep (f32 bits) bs (suc fuel) (suc depth) e n f = absurd (omega arith)
    value_deep (f64 bits) bs (suc fuel) (suc depth) e n f = absurd (omega arith)
    value_deep (string s) bs (suc fuel) (suc zero) (mk, h, form, p) n f = rw p (
        step_refused mk _ fuel zero (StrForm-IsMarker mk _ form)
          (string_rejected big utf8 std _ mk _ _ zero form (str_refused bo utf8 rd left _ _)))
    value_deep (string s) bs (suc fuel) (suc (suc zero)) (mk, h, form, p) n f = rw p (
        step_refused mk _ fuel (suc zero) (StrForm-IsMarker mk _ form) (
          string_rejected big utf8 std _ mk _ _ (suc zero) form
            (str_bytes_refused bo utf8 rd left _ _)))
    value_deep (string s) bs (suc fuel) (suc (suc (suc depth))) e n f = absurd (omega arith)
    value_deep (binary b) bs (suc fuel) (suc zero) (mk, form, p) n f = rw p (
        step_refused mk _ fuel zero (BinForm-IsMarker mk _ form)
          (binary_rejected big utf8 std _ mk _ _ form))
    value_deep (binary b) bs (suc fuel) (suc (suc depth)) e n f = absurd (omega arith)
    value_deep (array vs) bs (suc fuel) (suc zero) (mk, cs, form, all, p) n f = rw p (
        step_refused mk _ fuel zero (ArrayForm-IsMarker mk _ form)
          (array_rejected big utf8 std _ mk _ _ zero form (values_refused big utf8 std _ _ _)))
    value_deep (array vs) bs (suc fuel) (suc (suc depth)) (mk, cs, form, all, p) n f = rw p (
        step_refused mk _ fuel (suc depth) (ArrayForm-IsMarker mk _ form) (
          array_rejected big utf8 std _ mk _ _ (suc depth) form (
            values_inside big utf8 std _ _ _ depth
              (values_deep vs cs fuel depth all (omega arith) (omega arith)))))
    value_deep (map ps) bs (suc fuel) (suc zero) (mk, cs, form, all, p) n f = rw p (
        step_refused mk _ fuel zero (MapForm-IsMarker mk _ form)
          (map_rejected big utf8 std _ mk _ _ zero form (pairs_refused big utf8 std _ _ _)))
    value_deep (map ps) bs (suc fuel) (suc (suc depth)) (mk, cs, form, all, p) n f = rw p (
        step_refused mk _ fuel (suc depth) (MapForm-IsMarker mk _ form) (
          map_rejected big utf8 std _ mk _ _ (suc depth) form (
            pairs_inside big utf8 std _ _ _ depth
              (pairs_deep ps cs fuel depth all (omega arith) (omega arith)))))
    value_deep (ext ty b) bs (suc fuel) (suc zero) (mk, t, form, p) n f =
        rw (p, append_assoc (header mk (length b)) (be_bytes 1 (as_unsigned 256 ty)) b)
          (step_refused mk _ fuel zero (ExtForm-IsMarker mk _ form)
            (ext_rejected big utf8 std _ mk _ _ zero form (ext_refused bo utf8 rd left _ ty b)))
    value_deep (ext ty b) bs (suc fuel) (suc (suc zero)) (mk, t, form, p) n f =
        rw (p, append_assoc (header mk (length b)) (be_bytes 1 (as_unsigned 256 ty)) b)
          (step_refused mk _ fuel (suc zero) (ExtForm-IsMarker mk _ form) (
            ext_rejected big utf8 std _ mk _ _ (suc zero) form
              (ext_bytes_refused bo utf8 std _ ty b t)))
    value_deep (ext ty b) bs (suc fuel) (suc (suc (suc depth))) e n f = absurd (omega arith)

    values_deep :
        (vs : Values U) (cs : List ℕ) (fuel depth : ℕ)
        → EncodingAll utf8 vs cs
        → depth < need_values vs
        → depth < fuel
        → Rejects left
            (read_values bo utf8 rd (read_value_fuel bo utf8 rd fuel depth) (count_values vs))
            cs
            depth_limit_exceeded
    values_deep no_values cs fuel depth p n f = absurd (omega arith)
    values_deep (value v vs) cs fuel depth (b, c, e, all, p) n f = elim (le_or_lt (need v) depth) [
      | inl fits ↦ rw p (
          Rejects->>= _ (value_back big utf8 std v b fuel depth e fits f)
            (Rejects-head _ (values_deep vs c fuel depth all (omega arith) f)))
      | inr deep ↦ rw p (Rejects-more c (Rejects-head _ (value_deep v b fuel depth e deep f)))
    ]

    pairs_deep :
        (ps : Pairs U) (cs : List ℕ) (fuel depth : ℕ)
        → EncodingPairs utf8 ps cs
        → depth < need_pairs ps
        → depth < fuel
        → Rejects left
            (read_pairs bo utf8 rd (read_value_fuel bo utf8 rd fuel depth) (count_pairs ps))
            cs
            depth_limit_exceeded
    pairs_deep no_pairs cs fuel depth p n f = absurd (omega arith)
    pairs_deep (pair k v ps) cs fuel depth (a, b, c, e, g, all, p) n f =
        elim (le_or_lt (need k) depth) [
          | inl fits ↦ elim (le_or_lt (need v) depth) [
            | inl fits2 ↦ rw p (
                Rejects->>= _ (value_back big utf8 std k a fuel depth e fits f) (
                  Rejects->>= _ (value_back big utf8 std v b fuel depth g fits2 f)
                    (Rejects-head _ (pairs_deep ps c fuel depth all (omega arith) f))))
            | inr deep ↦ rw p (
                Rejects->>= _ (value_back big utf8 std k a fuel depth e fits f)
                  (Rejects-more c (Rejects-head _ (value_deep v b fuel depth g deep f))))
          ]
          | inr deep ↦
              rw p (Rejects-more (b ++ c) (Rejects-head _ (value_deep k a fuel depth e deep f)))
        ]

  -- An input that starts with an encoding of a value deeper than the limit is refused with
  -- `DepthLimitExceeded`, whatever follows it.
  pub read_value_with_max_depth-Rejects :
      (v : Value U) (bs : List ℕ) (limit : ℕ)
      → Encoding utf8 v bs
      → limit < need v
      → Rejects left (read_value_with_max_depth bo utf8 rd limit) bs depth_limit_exceeded
  unfolding read_value_with_max_depth read_value_inner
  read_value_with_max_depth-Rejects v bs limit e n =
      value_deep v bs (suc limit) limit e n (omega arith)
