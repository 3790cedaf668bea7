-- ===== src/Value/Stored.antt =====
-- rmpv/src/encode/value.rs: which values can be written, and which value is then there to read.
use msgpack_rust.Common.{◌<◌, ◌^◌, ◌≡◌, none, length}
use msgpack_rust.Common.Int.{IsSigned}
use msgpack_rust.Decode.Str.{Utf8}
use msgpack_rust.Value.{
  Value, Values, Pairs, Utf8String, text, raw, nil, boolean, integer, f32, f64, string, binary,
  array, map, ext, no_values, value, no_pairs, pair, count_values, count_pairs,
}
use msgpack_rust.Value.Ints.{IsIntPriv}

module _ {U : Type 0} (utf8 : Utf8 U) where
  -- A `String` is UTF-8. The format has 32 bits for a length.
  abbrev pub IsWritable : Utf8String U → Type 0
  IsWritable (text t) = (utf8.error t ≡ none) × (length t < 2 ^ 32)
  IsWritable (raw t e) = length t < 2 ^ 32

  -- The numbers are within the widths of their types, and the lengths within the format's.
  abbrev mutual
    pub IsValue : Value U → Type 0
    IsValue nil = Unit {0}
    IsValue (boolean b) = Unit {0}
    IsValue (integer i) = IsIntPriv i.n
    IsValue (f32 bits) = bits < 4294967296
    IsValue (f64 bits) = bits < 18446744073709551616
    IsValue (string s) = IsWritable s
    IsValue (binary b) = length b < 2 ^ 32
    IsValue (array vs) = (count_values vs < 2 ^ 32) × AreValues vs
    IsValue (map ps) = (count_pairs ps < 2 ^ 32) × ArePairs ps
    IsValue (ext ty b) = IsSigned 128 ty × (length b < 2 ^ 32)

    pub AreValues : Values U → Type 0
    AreValues no_values = Unit {0}
    AreValues (value v vs) = IsValue v × AreValues vs

    pub ArePairs : Pairs U → Type 0
    ArePairs no_pairs = Unit {0}
    ArePairs (pair k v ps) = IsValue k × IsValue v × ArePairs ps

-- A string that is not UTF-8 is stored as a byte array, all else as it is.
unfoldable pub settle_string : {U : Type 0} → Utf8String U → Value U
settle_string (text t) = string (text t)
settle_string (raw t e) = binary t

unfoldable mutual
  unfolding settle_string

  pub settle : {U : Type 0} → Value U → Value U
  settle nil = nil
  settle (boolean b) = boolean b
  settle (integer i) = integer i
  settle (f32 bits) = f32 bits
  settle (f64 bits) = f64 bits
  settle (string s) = settle_string s
  settle (binary b) = binary b
  settle (array vs) = array (settle_values vs)
  settle (map ps) = map (settle_pairs ps)
  settle (ext ty b) = ext ty b

  pub settle_values : {U : Type 0} → Values U → Values U
  settle_values no_values = no_values
  settle_values (value v vs) = value (settle v) (settle_values vs)

  pub settle_pairs : {U : Type 0} → Pairs U → Pairs U
  settle_pairs no_pairs = no_pairs
  settle_pairs (pair k v ps) = pair (settle k) (settle v) (settle_pairs ps)
