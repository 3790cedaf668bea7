-- ===== src/Value/Borrowed/Writer.antt =====
-- rmpv/src/encode/value_ref.rs: `write_value_ref`.
use msgpack_rust.Common.{ℕ, suc, ◌%◌, ◌^◌, ◌≡◌, refl, ap, List, length}
use msgpack_rust.Common.Outcome.{M, ◌>>=◌, ◌>>◌, map_err, pure}
use msgpack_rust.ByteOrder.{ByteOrder}
use msgpack_rust.Encode.{
  ValueWriteError, invalid_marker_write, invalid_data_write, io_write, write_nil, write_bool,
}
use msgpack_rust.Encode.Uint.{write_uint}
use msgpack_rust.Encode.Sint.{write_sint}
use msgpack_rust.Encode.Dec.{write_f32, write_f64}
use msgpack_rust.Encode.Len.{write_array_len, write_map_len, write_ext_meta}
use msgpack_rust.Encode.Payload.{write_str, write_bin}
use msgpack_rust.Value.{IntPriv, pos_int, neg_int, count_values, count_pairs}
use msgpack_rust.Value.Write
use msgpack_rust.Value.Borrowed.{
  ValueRef, ValueRefs, PairRefs, Utf8StringRef, text, raw, nil, boolean, integer, f32, f64, string,
  binary, array, map, ext, no_values, value, no_pairs, pair, string_into, to_owned, values_to_owned,
  pairs_to_owned,
}

module _ {U : Type 0} where
  abbrev pub count_value_refs : ValueRefs U → ℕ
  count_value_refs no_values = 0
  count_value_refs (value v vs) = suc (count_value_refs vs)

  abbrev pub count_pair_refs : PairRefs U → ℕ
  count_pair_refs no_pairs = 0
  count_pair_refs (pair k v ps) = suc (count_pair_refs ps)

module _ (bo : ByteOrder) {W E : Type 0} (write_all : List ℕ → M W E (Unit {0})) where
  -- The match on an integer.
  unfoldable pub write_integer_ref : IntPriv → M W (ValueWriteError E) (Unit {0})
  write_integer_ref (pos_int n) = do _ ← write_uint bo (io_write write_all) n; pure tt
  write_integer_ref (neg_int n) = do _ ← write_sint bo (io_write write_all) n; pure tt

module _ (bo : ByteOrder) {U W E : Type 0} (write_all : List ℕ → M W E (Unit {0})) where
  -- The match on a string.
  unfoldable pub write_string_ref : Utf8StringRef U → M W (ValueWriteError E) (Unit {0})
  write_string_ref (text val) = write_str bo (io_write write_all) val
  write_string_ref (raw bytes e) = write_bin bo (io_write write_all) bytes

  unfoldable mutual
    unfolding write_integer_ref write_string_ref

    pub write_value_ref : ValueRef U → M W (ValueWriteError E) (Unit {0})
    write_value_ref nil = map_err invalid_marker_write (write_nil (io_write write_all))
    write_value_ref (boolean val) =
        map_err invalid_marker_write (write_bool (io_write write_all) val)
    write_value_ref (integer i) = write_integer_ref bo write_all i.n
    write_value_ref (f32 val) = write_f32 bo (io_write write_all) val
    write_value_ref (f64 val) = write_f64 bo (io_write write_all) val
    write_value_ref (string s) = write_string_ref s
    write_value_ref (binary val) = write_bin bo (io_write write_all) val
    write_value_ref (array vs) = do
      _ ← write_array_len bo (io_write write_all) (count_value_refs vs % 2 ^ 32)
      write_value_refs vs
    write_value_ref (map ps) = do
      _ ← write_map_len bo (io_write write_all) (count_pair_refs ps % 2 ^ 32)
      write_pair_refs ps
    write_value_ref (ext ty bytes) = do
      _ ← write_ext_meta bo (io_write write_all) (length bytes % 2 ^ 32) ty
      map_err invalid_data_write (write_all bytes)

    pub write_value_refs : ValueRefs U → M W (ValueWriteError E) (Unit {0})
    write_value_refs no_values = pure tt
    write_value_refs (value v vs) = write_value_ref v >> write_value_refs vs

    pub write_pair_refs : PairRefs U → M W (ValueWriteError E) (Unit {0})
    write_pair_refs no_pairs = pure tt
    write_pair_refs (pair k v ps) = write_value_ref k >> (write_value_ref v >> write_pair_refs ps)

module _ {U : Type 0} where
  count_owned : (vs : ValueRefs U) → count_values (values_to_owned vs) ≡ count_value_refs vs
  unfolding values_to_owned
  count_owned no_values = refl
  count_owned (value v vs) = ap suc (count_owned vs)

  count_owned_pairs : (ps : PairRefs U) → count_pairs (pairs_to_owned ps) ≡ count_pair_refs ps
  unfolding pairs_to_owned
  count_owned_pairs no_pairs = refl
  count_owned_pairs (pair k v ps) = ap suc (count_owned_pairs ps)

module _ (bo : ByteOrder) {W E : Type 0} (write_all : List ℕ → M W E (Unit {0})) where
  integer_owned :
      (p : IntPriv) → write_integer_ref bo write_all p ≡ Write.write_integer bo write_all p
  unfolding write_integer_ref Write.write_integer
  integer_owned (pos_int n) = refl
  integer_owned (neg_int n) = refl

module _ (bo : ByteOrder) {U W E : Type 0} (write_all : List ℕ → M W E (Unit {0})) where
  string_owned :
      (s : Utf8StringRef U)
      → write_string_ref bo write_all s ≡ Write.write_string bo write_all (string_into s)
  unfolding write_string_ref Write.write_string string_into
  string_owned (text val) = refl
  string_owned (raw bytes e) = refl

  mutual
    unfolding write_value_ref write_value_refs write_pair_refs Write.write_value Write.write_values
        Write.write_pairs to_owned values_to_owned pairs_to_owned

    value_owned :
        (v : ValueRef U)
        → write_value_ref bo write_all v ≡ Write.write_value bo write_all (to_owned v)
    value_owned nil = refl
    value_owned (boolean val) = refl
    value_owned (integer i) = integer_owned bo write_all i.n
    value_owned (f32 val) = refl
    value_owned (f64 val) = refl
    value_owned (string s) = string_owned s
    value_owned (binary val) = refl
    value_owned (array vs) = rw (count_owned vs, values_owned vs) refl
    value_owned (map ps) = rw (count_owned_pairs ps, pairs_owned ps) refl
    value_owned (ext ty bytes) = refl

    values_owned :
        (vs : ValueRefs U)
        → write_value_refs bo write_all vs ≡ Write.write_values bo write_all (values_to_owned vs)
    values_owned no_values = refl
    values_owned (value v vs) = rw (value_owned v, values_owned vs) refl

    pairs_owned :
        (ps : PairRefs U)
        → write_pair_refs bo write_all ps ≡ Write.write_pairs bo write_all (pairs_to_owned ps)
    pairs_owned no_pairs = refl
    pairs_owned (pair k v ps) = rw (value_owned k, value_owned v, pairs_owned ps) refl

  -- `write_value_ref` does on every writer what `write_value` does with the copied value.
  pub write_value_ref-write_value :
      (v : ValueRef U)
      → write_value_ref bo write_all v ≡ Write.write_value bo write_all (to_owned v)
  write_value_ref-write_value v = value_owned v
