-- ===== src/Value/Access.antt =====
-- rmpv/src/lib.rs: the tests and the accessors of `Value`.
use msgpack_rust.Common.{ℕ, ◌≡◌, refl, Bool, true, false, Option, none, some, List}
use msgpack_rust.Common.Int.{ℤ}
use msgpack_rust.Value.{
  Value, Values, Pairs, text, raw, nil, boolean, integer, f32, f64, string, binary, array, map, ext,
}
use msgpack_rust.Value.Ints
use msgpack_rust.Value.Ints.{NumCast}
use msgpack_rust.Value.Text

-- `Option::is_some`
abbrev pub is_some : {A : Type 0} → Option A → Bool
is_some none = false
is_some (some a) = true

module _ {U : Type 0} where
  unfoldable pub as_bool : Value U → Option Bool
  as_bool (boolean val) = some val
  as_bool _ = none

  unfoldable pub as_i64 : NumCast → Value U → Option ℤ
  as_i64 nc (integer n) = Ints.as_i64 nc n
  as_i64 nc _ = none

  unfoldable pub as_u64 : NumCast → Value U → Option ℕ
  as_u64 nc (integer n) = Ints.as_u64 nc n
  as_u64 nc _ = none

  unfoldable pub as_str : Value U → Option (List ℕ)
  as_str (string val) = Text.as_str val
  as_str _ = none

  unfoldable pub as_slice : Value U → Option (List ℕ)
  as_slice (binary val) = some val
  as_slice (string val) = some (Text.as_bytes val)
  as_slice _ = none

  unfoldable pub as_array : Value U → Option (Values U)
  as_array (array vec) = some vec
  as_array _ = none

  unfoldable pub as_map : Value U → Option (Pairs U)
  as_map (map pairs) = some pairs
  as_map _ = none

  unfoldable pub as_ext : Value U → Option (ℤ × List ℕ)
  as_ext (ext ty buf) = some (ty, buf)
  as_ext _ = none

  unfoldable pub is_nil : Value U → Bool
  is_nil nil = true
  is_nil _ = false

  unfoldable pub is_bool : Value U → Bool
  unfolding as_bool
  is_bool v = is_some (as_bool v)

  unfoldable pub is_i64 : Value U → Bool
  is_i64 (integer v) = Ints.is_i64 v
  is_i64 _ = false

  unfoldable pub is_u64 : Value U → Bool
  is_u64 (integer v) = Ints.is_u64 v
  is_u64 _ = false

  unfoldable pub is_f32 : Value U → Bool
  is_f32 (f32 bits) = true
  is_f32 _ = false

  unfoldable pub is_f64 : Value U → Bool
  is_f64 (f64 bits) = true
  is_f64 _ = false

  unfoldable pub is_number : Value U → Bool
  is_number (integer n) = true
  is_number (f32 bits) = true
  is_number (f64 bits) = true
  is_number _ = false

  unfoldable pub is_str : Value U → Bool
  unfolding as_str
  is_str v = is_some (as_str v)

  unfoldable pub is_bin : Value U → Bool
  unfolding as_slice
  is_bin v = is_some (as_slice v)

  unfoldable pub is_array : Value U → Bool
  unfolding as_array
  is_array v = is_some (as_array v)

  unfoldable pub is_map : Value U → Bool
  unfolding as_map
  is_map v = is_some (as_map v)

  unfoldable pub is_ext : Value U → Bool
  unfolding as_ext
  is_ext v = is_some (as_ext v)

  -- Where `as_str` gives a string, `as_slice` gives the same bytes, so that `is_bin` holds of the
  -- value as well as `is_str`.
  pub as_slice-as_str :
      (v : Value U) (s : List ℕ)
      → as_str v ≡ some s
      → (as_slice v ≡ some s) × (is_str v ≡ true) × (is_bin v ≡ true)
  unfolding as_str as_slice is_str is_bin Text.as_str Text.as_bytes
  as_slice-as_str (string (text t)) s h = (h, refl, refl)
  as_slice-as_str (string (raw t e)) s h = cc
  as_slice-as_str nil s h = cc
  as_slice-as_str (boolean b) s h = cc
  as_slice-as_str (integer i) s h = cc
  as_slice-as_str (f32 bits) s h = cc
  as_slice-as_str (f64 bits) s h = cc
  as_slice-as_str (binary b) s h = cc
  as_slice-as_str (array vs) s h = cc
  as_slice-as_str (map ps) s h = cc
  as_slice-as_str (ext ty b) s h = cc
