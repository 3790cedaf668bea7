-- ===== src/Value/Write.antt =====
-- rmpv/src/encode/value.rs: `write_value`.
use msgpack_rust.Common.{ℕ, ◌%◌, ◌^◌, List, length}
use msgpack_rust.Common.Outcome.{M, ◌>>=◌, ◌>>◌, map_err, pure}
use msgpack_rust.ByteOrder.{ByteOrder}
use msgpack_rust.Encode.{
  ValueWriteError, invalid_marker_write, invalid_data_write, io_write, write_nil, write_bool,
}
use msgpack_rust.Encode.Uint.{write_uint}
use msgpack_rust.Encode.Sint.{write_sint}
use msgpack_rust.Encode.Dec.{write_f32, write_f64}
use msgpack_rust.Encode.Len.{write_array_len, write_map_len, write_ext_meta}
use msgpack_rust.Encode.Payload.{write_str, write_bin}
use msgpack_rust.Value.{
  Value, Values, Pairs, IntPriv, Utf8String, pos_int, neg_int, text, raw, nil, boolean, integer,
  f32, f64, string, binary, array, map, ext, no_values, value, no_pairs, pair, count_values,
  count_pairs,
}

-- The writer is any `std::io::Write`, through its `write_all`.
module _ (bo : ByteOrder) {W E : Type 0} (write_all : List ℕ → M W E (Unit {0})) where
  -- The match on an integer.
  unfoldable pub write_integer : IntPriv → M W (ValueWriteError E) (Unit {0})
  write_integer (pos_int n) = do _ ← write_uint bo (io_write write_all) n; pure tt
  write_integer (neg_int n) = do _ ← write_sint bo (io_write write_all) n; pure tt

module _ (bo : ByteOrder) {U W E : Type 0} (write_all : List ℕ → M W E (Unit {0})) where
  -- The match on a string: bytes that are not UTF-8 are written as a byte array.
  unfoldable pub write_string : Utf8String U → M W (ValueWriteError E) (Unit {0})
  write_string (text val) = write_str bo (io_write write_all) val
  write_string (raw bytes e) = write_bin bo (io_write write_all) bytes

  unfoldable mutual
    unfolding write_integer write_string

    pub write_value : Value U → M W (ValueWriteError E) (Unit {0})
    write_value nil = map_err invalid_marker_write (write_nil (io_write write_all))
    write_value (boolean val) = map_err invalid_marker_write (write_bool (io_write write_all) val)
    write_value (integer i) = write_integer bo write_all i.n
    write_value (f32 val) = write_f32 bo (io_write write_all) val
    write_value (f64 val) = write_f64 bo (io_write write_all) val
    write_value (string s) = write_string s
    write_value (binary val) = write_bin bo (io_write write_all) val
    write_value (array vs) = do
      _ ← write_array_len bo (io_write write_all) (count_values vs % 2 ^ 32)
      write_values vs
    write_value (map ps) = do
      _ ← write_map_len bo (io_write write_all) (count_pairs ps % 2 ^ 32)
      write_pairs ps
    write_value (ext ty bytes) = do
      _ ← write_ext_meta bo (io_write write_all) (length bytes % 2 ^ 32) ty
      map_err invalid_data_write (write_all bytes)

    pub write_values : Values U → M W (ValueWriteError E) (Unit {0})
    write_values no_values = pure tt
    write_values (value v vs) = write_value v >> write_values vs

    pub write_pairs : Pairs U → M W (ValueWriteError E) (Unit {0})
    write_pairs no_pairs = pure tt
    write_pairs (pair k v ps) = write_value k >> (write_value v >> write_pairs ps)
