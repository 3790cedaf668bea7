-- ===== src/Serde/De/Read.antt =====
-- rmp-serde/src/decode.rs and rmpv/src/ext/de.rs: `deserialize_any` on the encodings of a value.
use Prim.Native.Nat.{max}
use msgpack_rust.Common.{
  ℕ, zero, suc, ◌<◌, ◌≤◌, inl, inr, Bool, List, [], ◌∷◌, append_assoc, length, arith,
}
use msgpack_rust.Common.Int.{as_unsigned}
use msgpack_rust.ByteOrder.{ByteOrder, IsBigEndian, be_bytes}
use msgpack_rust.Marker.{Marker, to_u8, IsMarker, null}
use msgpack_rust.Format.{header, int_bytes, ext_header}
use msgpack_rust.Format.Markers.{
  IntForm-IsMarker, StrForm-IsMarker, BinForm-IsMarker, ArrayForm-IsMarker, MapForm-IsMarker,
  ExtForm-IsMarker,
}
use msgpack_rust.Decode.Str.{Utf8}
use msgpack_rust.Decode.Logic.{Decodes-map_err}
use msgpack_rust.Decode.Wire.{data_f32, data_f64}
use msgpack_rust.Value.{
  Value, Values, Pairs, nil, boolean, integer, f32, f64, string, binary, array, map, ext, no_values,
  value, no_pairs, pair,
}
use msgpack_rust.Value.Encoding.{
  Encoding, EncodingAll, EncodingPairs, NoReserved, NoReservedAll, NoReservedPairs,
}
use msgpack_rust.Value.Stored.{settle, settle_values, settle_pairs}
use msgpack_rust.Value.Written.{count-settle_values, count-settle_pairs}
use msgpack_rust.Serde.De.{Error, Reference, ReadSlice}
use msgpack_rust.Serde.De.Any.{any_fuel, any_marked, deserialize_any}
use msgpack_rust.Serde.De.Visitor.{Refusals, value_visitor}
use msgpack_rust.Serde.De.Logic.{
  IsSlice, Takes, Takes->>=, Takes-last, Takes-pure, Takes-on_rd, take_or_read_marker-Takes,
}
use msgpack_rust.Serde.De.Loops.{TakesAll, TakesPairs}
use msgpack_rust.Serde.De.Forms.{
  integer_taken, string_taken, binary_taken, array_taken, map_taken, ext_taken,
}

-- How many levels of arrays, maps and extensions there are.
unfoldable mutual
  pub levels : {U : Type 0} → Value U → ℕ
  levels (array vs) = suc (levels_of_values vs)
  levels (map ps) = suc (levels_of_pairs ps)
  levels (ext ty b) = 1
  levels _ = 0

  pub levels_of_values : {U : Type 0} → Values U → ℕ
  levels_of_values no_values = 0
  levels_of_values (value v vs) = max (levels v) (levels_of_values vs)

  pub levels_of_pairs : {U : Type 0} → Pairs U → ℕ
  levels_of_pairs no_pairs = 0
  levels_of_pairs (pair k v ps) = max (levels k) (max (levels v) (levels_of_pairs ps))

module _ {bo : ByteOrder} (big : IsBigEndian bo) {U R E : Type 0} (utf8 : Utf8 U)
    {rs : ReadSlice R E} (refusals : Refusals (Error U E)) {left : R → List ℕ}
    {wrap : List ℕ → Reference} (is : IsSlice rs left wrap) where
  step :
      (mk : Marker) (cs : List ℕ) (v : Value U) (need fuel : ℕ)
      → IsMarker mk
      → Takes left need
          (any_marked bo utf8 rs
            (value_visitor refusals)
            (any_fuel bo utf8 rs (value_visitor refusals) fuel)
            mk)
          cs
          v
      → Takes left need (any_fuel bo utf8 rs (value_visitor refusals) (suc fuel)) (to_u8 mk ∷ cs) v
  unfolding any_fuel
  step mk cs v need fuel h k = Takes->>= _ (take_or_read_marker-Takes rs need is.source mk h) k

  nil_taken :
      (bs : List ℕ) (need fuel : ℕ) (e : Encoding utf8 nil bs)
      → NoReserved utf8 nil bs e
      → Takes left need (any_fuel bo utf8 rs (value_visitor {U = U} refusals) (suc fuel)) bs nil
  unfolding any_marked value_visitor
  nil_taken bs need fuel (inl p) h = rw p (step null [] nil need fuel tt (Takes-pure nil))
  nil_taken bs need fuel (inr p) h = absurd h

  boolean_taken :
      (b : Bool) (bs : List ℕ) (need fuel : ℕ)
      → Encoding utf8 (boolean b) bs
      → Takes left need
          (any_fuel bo utf8 rs (value_visitor {U = U} refusals) (suc fuel))
          bs
          (boolean b)
  unfolding any_marked value_visitor
  boolean_taken Bool.true bs need fuel p =
      rw p (step Marker.true [] _ need fuel tt (Takes-pure (boolean Bool.true)))
  boolean_taken Bool.false bs need fuel p =
      rw p (step Marker.false [] _ need fuel tt (Takes-pure (boolean Bool.false)))

  f32_taken :
      (bits : ℕ) (bs : List ℕ) (need fuel : ℕ)
      → Encoding utf8 (f32 bits) bs
      → Takes left need
          (any_fuel bo utf8 rs (value_visitor {U = U} refusals) (suc fuel))
          bs
          (f32 bits)
  unfolding any_marked value_visitor header
  f32_taken bits bs need fuel (h, p) = rw p (
      step Marker.f32 _ _ need fuel tt (
        Takes-last _ (Takes-on_rd need (Decodes-map_err _ (data_f32 big is.source bits h)))
          (Takes-pure (f32 bits))))

  f64_taken :
      (bits : ℕ) (bs : List ℕ) (need fuel : ℕ)
      → Encoding utf8 (f64 bits) bs
      → Takes left need
          (any_fuel bo utf8 rs (value_visitor {U = U} refusals) (suc fuel))
          bs
          (f64 bits)
  unfolding any_marked value_visitor header
  f64_taken bits bs need fuel (h, p) = rw p (
      step Marker.f64 _ _ need fuel tt (
        Takes-last _ (Takes-on_rd need (Decodes-map_err _ (data_f64 big is.source bits h)))
          (Takes-pure (f64 bits))))

  mutual
    unfolding settle settle_values settle_pairs levels levels_of_values levels_of_pairs header
        int_bytes ext_header

    value_taken :
        (v : Value U) (bs : List ℕ) (need fuel : ℕ) (e : Encoding utf8 v bs)
        → NoReserved utf8 v bs e
        → levels v ≤ need
        → need < fuel
        → Takes left need (any_fuel bo utf8 rs (value_visitor refusals) fuel) bs (settle v)
    value_taken v bs need zero e r n f = absurd (omega arith)
    value_taken nil bs need (suc fuel) e r n f = nil_taken bs need fuel e r
    value_taken (boolean b) bs need (suc fuel) e r n f = boolean_taken b bs need fuel e
    value_taken (integer i) bs need (suc fuel) (mk, h, form, p) r n f = rw p (
        step mk _ _ need fuel (IntForm-IsMarker mk _ form)
          (integer_taken big utf8 refusals is need mk i _ h form))
    value_taken (f32 bits) bs need (suc fuel) e r n f = f32_taken bits bs need fuel e
    value_taken (f64 bits) bs need (suc fuel) e r n f = f64_taken bits bs need fuel e
    value_taken (string s) bs need (suc fuel) (mk, h, form, p) r n f = rw p (
        step mk _ _ need fuel (StrForm-IsMarker mk _ form)
          (string_taken big utf8 refusals is need mk s _ h form))
    value_taken (binary b) bs need (suc fuel) (mk, form, p) r n f = rw p (
        step mk _ _ need fuel (BinForm-IsMarker mk _ form)
          (binary_taken big utf8 refusals is need mk b _ form))
    value_taken (array vs) bs zero (suc fuel) e r n f = absurd (omega arith)
    value_taken (array vs) bs (suc need) (suc fuel) (mk, cs, form, all, p) r n f =
        let taken = values_taken vs cs need fuel all r (omega arith) (omega arith) in
        rw (p, ← count-settle_values vs)
          (step mk _ _ (suc need) fuel (ArrayForm-IsMarker mk _ form) (
            array_taken big utf8 refusals is need mk (settle_values vs) cs _
              (rw (count-settle_values vs) form) taken))
    value_taken (map ps) bs zero (suc fuel) e r n f = absurd (omega arith)
    value_taken (map ps) bs (suc need) (suc fuel) (mk, cs, form, all, p) r n f =
        let taken = pairs_taken ps cs need fuel all r (omega arith) (omega arith) in
        rw (p, ← count-settle_pairs ps)
          (step mk _ _ (suc need) fuel (MapForm-IsMarker mk _ form) (
            map_taken big utf8 refusals is need mk (settle_pairs ps) cs _
              (rw (count-settle_pairs ps) form) taken))
    value_taken (ext ty b) bs zero (suc fuel) e r n f = absurd (omega arith)
    value_taken (ext ty b) bs (suc need) (suc fuel) (mk, t, form, p) r n f =
        rw (p, append_assoc (header mk (length b)) (be_bytes 1 (as_unsigned 256 ty)) b)
          (step mk _ _ (suc need) fuel (ExtForm-IsMarker mk _ form)
            (ext_taken big utf8 refusals is need mk ty b _ t form))

    values_taken :
        (vs : Values U) (cs : List ℕ) (need fuel : ℕ) (all : EncodingAll utf8 vs cs)
        → NoReservedAll utf8 vs cs all
        → levels_of_values vs ≤ need
        → need < fuel
        → TakesAll left need
            (any_fuel bo utf8 rs (value_visitor refusals) fuel)
            (settle_values vs)
            cs
    values_taken no_values cs need fuel p r n f = p
    values_taken (value v vs) cs need fuel (b, c, e, all, p) (r, s) n f = (
      b,
      c,
      value_taken v b need fuel e r (omega arith) f,
      values_taken vs c need fuel all s (omega arith) f,
      p,
    )

    pairs_taken :
        (ps : Pairs U) (cs : List ℕ) (need fuel : ℕ) (all : EncodingPairs utf8 ps cs)
        → NoReservedPairs utf8 ps cs all
        → levels_of_pairs ps ≤ need
        → need < fuel
        → TakesPairs left need
            (any_fuel bo utf8 rs (value_visitor refusals) fuel)
            (settle_pairs ps)
            cs
    pairs_taken no_pairs cs need fuel p r n f = p
    pairs_taken (pair k v ps) cs need fuel (a, b, c, d, e, all, p) (q, r, s) n f = (
      a,
      b,
      c,
      value_taken k a need fuel d q (omega arith) f,
      value_taken v b need fuel e r (omega arith) f,
      pairs_taken ps c need fuel all s (omega arith) f,
      p,
    )

  -- On any reader, `deserialize_any` takes exactly an encoding of a value, in any form that the
  -- format allows, in which nil is nowhere the reserved marker.
  pub deserialize_any-Takes :
      (v : Value U) (bs : List ℕ) (e : Encoding utf8 v bs)
      → NoReserved utf8 v bs e
      → Takes left (levels v) (deserialize_any bo utf8 rs (value_visitor refusals)) bs (settle v)
  unfolding deserialize_any
  deserialize_any-Takes v bs e r = record {
    run = λ de rest same n d.
        (value_taken v bs (levels v) (suc de.depth) e r (omega arith) (omega arith)).run de rest
          same n d;
  }
