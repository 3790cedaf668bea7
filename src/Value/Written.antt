-- ===== src/Value/Written.antt =====
-- rmpv/src/encode/value.rs: `write_value`, and the encodings of a value.
use msgpack_rust.Common.{
  ℕ, suc, ◌%◌, ◌^◌, ◌≡◌, refl, sym, ap, subst, inl, List, [], ◌++◌, length, arith,
}
use msgpack_rust.Common.Int.{pos, negsuc}
use msgpack_rust.Common.Outcome.{M}
use msgpack_rust.ByteOrder.{ByteOrder, IsBigEndian}
use msgpack_rust.Marker.{Marker}
use msgpack_rust.Format.{header, int_bytes, IntForm, ArrayForm, MapForm}
use msgpack_rust.Encode.{io_write}
use msgpack_rust.Encode.Logic.{
  Writes, IsSink, Writes->>=, Writes->>, Writes-pure, Writes-nothing, Writes-map_err,
}
use msgpack_rust.Encode.Wire.{
  write_nil-Writes, write_bool-Writes, write_f32-Writes, write_f64-Writes,
}
use msgpack_rust.Encode.Shortest.{write_uint-WritesShortestInt, write_sint-WritesShortestInt}
use msgpack_rust.Encode.Headers.{write_array_len-WritesShortest, write_map_len-WritesShortest}
use msgpack_rust.Encode.Ext.{write_ext_meta-Writes, write_str-Writes, write_bin-Writes}
use msgpack_rust.Decode.Str.{Utf8}
use msgpack_rust.Value.{
  Value, Values, Pairs, IntPriv, Utf8String, pos_int, neg_int, text, raw, nil, boolean, integer,
  f32, f64, string, binary, array, map, ext, no_values, value, no_pairs, pair, count_values,
  count_pairs,
}
use msgpack_rust.Value.Ints.{IsIntPriv, to_ℤ}
use msgpack_rust.Value.Write.{write_integer, write_string, write_value, write_values, write_pairs}
use msgpack_rust.Value.Encoding.{
  Encoding, EncodingAll, EncodingPairs, NoReserved, NoReservedAll, NoReservedPairs,
}
use msgpack_rust.Value.Stored.{
  IsWritable, IsValue, AreValues, ArePairs, settle_string, settle, settle_values, settle_pairs,
}

module _ {U : Type 0} where
  pub count-settle_values : (vs : Values U) → count_values (settle_values vs) ≡ count_values vs
  unfolding settle_values
  count-settle_values no_values = refl
  count-settle_values (value v vs) = ap suc (count-settle_values vs)

  pub count-settle_pairs : (ps : Pairs U) → count_pairs (settle_pairs ps) ≡ count_pairs ps
  unfolding settle_pairs
  count-settle_pairs no_pairs = refl
  count-settle_pairs (pair k v ps) = ap suc (count-settle_pairs ps)

module _ {bo : ByteOrder} (big : IsBigEndian bo) {U : Type 0} (utf8 : Utf8 U) {W E : Type 0}
    (write_all : List ℕ → M W E (Unit {0})) {sent : W → List ℕ}
    (sink : IsSink (io_write write_all) sent) where
  integer_written :
      (p : IntPriv)
      → IsIntPriv p
      → (mk : Marker) × IntForm mk (to_ℤ p)
        × Writes sent (write_integer bo write_all p) (int_bytes mk (to_ℤ p)) tt
  unfolding write_integer
  integer_written (pos_int n) h =
      let (mk, form, short, writes) = write_uint-WritesShortestInt big sink n (omega arith) in
      (mk, form, Writes-pure writes)
  integer_written (neg_int (pos n)) h = absurd h
  integer_written (neg_int (negsuc n)) h =
      let (mk, form, short, writes) = write_sint-WritesShortestInt big sink (negsuc n) h in
      (mk, form, Writes-pure writes)

  string_written :
      (s : Utf8String U)
      → IsWritable utf8 s
      → (bs : List ℕ) × (e : Encoding utf8 (settle_string s) bs) × NoReserved utf8
          (settle_string s)
          bs
          e
        × Writes sent (write_string bo write_all s) bs tt
  unfolding write_string settle_string
  string_written (text t) (h, k) =
      let (mk, form, short, writes) = write_str-Writes big sink t k in
      (_, (mk, h, form, refl), tt, writes)
  string_written (raw t e) k =
      let (mk, form, short, writes) = write_bin-Writes big sink t k in
      (_, (mk, form, refl), tt, writes)

  mutual
    unfolding write_value write_values write_pairs settle settle_values settle_pairs io_write

    value_written :
        (v : Value U)
        → IsValue utf8 v
        → (bs : List ℕ) × (e : Encoding utf8 (settle v) bs) × NoReserved utf8 (settle v) bs e
          × Writes sent (write_value bo write_all v) bs tt
    value_written nil h = (_, inl refl, tt, Writes-map_err _ (write_nil-Writes sink))
    value_written (boolean b) h = (_, refl, tt, Writes-map_err _ (write_bool-Writes sink b))
    value_written (integer i) h =
        let (mk, form, writes) = integer_written i.n h in (_, (mk, h, form, refl), tt, writes)
    value_written (f32 bits) h = (_, (h, refl), tt, write_f32-Writes big sink bits)
    value_written (f64 bits) h = (_, (h, refl), tt, write_f64-Writes big sink bits)
    value_written (string s) h = string_written s h
    value_written (binary b) h =
        let (mk, form, short, writes) = write_bin-Writes big sink b h in
        (_, (mk, form, refl), tt, writes)
    value_written (array vs) (h, all) =
        let whole : count_values vs % 2 ^ 32 ≡ count_values vs = omega arith in
        let (mk, form, short, writes) =
          write_array_len-WritesShortest big sink (count_values vs) h in
        let (cs, encoded, plain, rest) = values_written vs all in
        let same = sym (count-settle_values vs) in
        rw whole (
          _,
          (mk, cs, subst (ArrayForm mk) same form, encoded, ap (λ n. header mk n ++ cs) same),
          plain,
          Writes->>= _ writes rest,
        )
    value_written (map ps) (h, all) =
        let whole : count_pairs ps % 2 ^ 32 ≡ count_pairs ps = omega arith in
        let (mk, form, short, writes) = write_map_len-WritesShortest big sink (count_pairs ps) h in
        let (cs, encoded, plain, rest) = pairs_written ps all in
        let same = sym (count-settle_pairs ps) in
        rw whole (
          _,
          (mk, cs, subst (MapForm mk) same form, encoded, ap (λ n. header mk n ++ cs) same),
          plain,
          Writes->>= _ writes rest,
        )
    value_written (ext ty b) (t, h) =
        let whole : length b % 2 ^ 32 ≡ length b = omega arith in
        let (mk, form, short, writes) = write_ext_meta-Writes big sink (length b) ty h in
        rw whole (_, (mk, t, form, refl), tt, Writes->>= _ writes (Writes-map_err _ (sink.bytes b)))

    values_written :
        (vs : Values U)
        → AreValues utf8 vs
        → (bs : List ℕ) × (e : EncodingAll utf8 (settle_values vs) bs) × NoReservedAll utf8
            (settle_values vs)
            bs
            e
          × Writes sent (write_values bo write_all vs) bs tt
    values_written no_values h = ([], refl, tt, Writes-nothing tt)
    values_written (value v vs) (h, all) =
        let (b, e, r, writes) = value_written v h in
        let (c, encoded, plain, rest) = values_written vs all in
        (b ++ c, (b, c, e, encoded, refl), (r, plain), Writes->> writes rest)

    pairs_written :
        (ps : Pairs U)
        → ArePairs utf8 ps
        → (bs : List ℕ) × (e : EncodingPairs utf8 (settle_pairs ps) bs) × NoReservedPairs utf8
            (settle_pairs ps)
            bs
            e
          × Writes sent (write_pairs bo write_all ps) bs tt
    pairs_written no_pairs h = ([], refl, tt, Writes-nothing tt)
    pairs_written (pair k v ps) (h, g, all) =
        let (a, d, q, first) = value_written k h in
        let (b, e, r, writes) = value_written v g in
        let (c, encoded, plain, rest) = pairs_written ps all in
        (
          a ++ (b ++ c),
          (a, b, c, d, e, encoded, refl),
          (q, r, plain),
          Writes->> first (Writes->> writes rest),
        )

  -- `write_value` appends an encoding of the value in which nil is nowhere the reserved marker,
  -- with the strings that are not UTF-8 turned into byte arrays, where the lengths fit in 32 bits;
  -- it fails only where the writer does, with a prefix of the encoding sent.
  pub write_value-Writes :
      (v : Value U)
      → IsValue utf8 v
      → (bs : List ℕ) × (e : Encoding utf8 (settle v) bs) × NoReserved utf8 (settle v) bs e
        × Writes sent (write_value bo write_all v) bs tt
  write_value-Writes v h = value_written v h
