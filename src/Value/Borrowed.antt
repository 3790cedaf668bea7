-- ===== src/Value/Borrowed.antt =====
-- rmpv/src/lib.rs: `Utf8StringRef` and `ValueRef`, which borrow what a value owns.
pub mod Reader
pub mod Same
pub mod Sources
pub mod Forms
pub mod Writer
pub mod Slices
use msgpack_rust.Common.{ℕ, ◌≡◌, refl, Bool, List}
use msgpack_rust.Common.Int.{ℤ}
use msgpack_rust.Value
use msgpack_rust.Value.{Value, Values, Pairs, Integer, Utf8String}

pub data Utf8StringRef (U : Type 0) : Type 0 where
  text : List ℕ → Utf8StringRef U
  raw : List ℕ → U → Utf8StringRef U

mutual
  pub data ValueRef (U : Type 0) : Type 0 where
    nil : ValueRef U
    boolean : Bool → ValueRef U
    integer : Integer → ValueRef U
    f32 : ℕ → ValueRef U
    f64 : ℕ → ValueRef U
    string : Utf8StringRef U → ValueRef U
    binary : List ℕ → ValueRef U
    array : ValueRefs U → ValueRef U
    map : PairRefs U → ValueRef U
    ext : ℤ → List ℕ → ValueRef U

  pub data ValueRefs (U : Type 0) : Type 0 where
    no_values : ValueRefs U
    value : ValueRef U → ValueRefs U → ValueRefs U

  pub data PairRefs (U : Type 0) : Type 0 where
    no_pairs : PairRefs U
    pair : ValueRef U → ValueRef U → PairRefs U → PairRefs U

-- `Utf8String::as_ref`
unfoldable pub string_as_ref : {U : Type 0} → Utf8String U → Utf8StringRef U
string_as_ref (Value.text s) = text s
string_as_ref (Value.raw buf e) = raw buf e

-- `impl Into<Utf8String> for Utf8StringRef`
unfoldable pub string_into : {U : Type 0} → Utf8StringRef U → Utf8String U
string_into (text s) = Value.text s
string_into (raw buf e) = Value.raw buf e

unfoldable mutual
  unfolding string_as_ref

  pub as_ref : {U : Type 0} → Value U → ValueRef U
  as_ref Value.nil = nil
  as_ref (Value.boolean val) = boolean val
  as_ref (Value.integer val) = integer val
  as_ref (Value.f32 val) = f32 val
  as_ref (Value.f64 val) = f64 val
  as_ref (Value.string val) = string (string_as_ref val)
  as_ref (Value.binary val) = binary val
  as_ref (Value.array val) = array (values_as_ref val)
  as_ref (Value.map val) = map (pairs_as_ref val)
  as_ref (Value.ext ty buf) = ext ty buf

  pub values_as_ref : {U : Type 0} → Values U → ValueRefs U
  values_as_ref Value.no_values = no_values
  values_as_ref (Value.value v vs) = value (as_ref v) (values_as_ref vs)

  pub pairs_as_ref : {U : Type 0} → Pairs U → PairRefs U
  pairs_as_ref Value.no_pairs = no_pairs
  pairs_as_ref (Value.pair k v ps) = pair (as_ref k) (as_ref v) (pairs_as_ref ps)

unfoldable mutual
  unfolding string_into

  pub to_owned : {U : Type 0} → ValueRef U → Value U
  to_owned nil = Value.nil
  to_owned (boolean val) = Value.boolean val
  to_owned (integer val) = Value.integer val
  to_owned (f32 val) = Value.f32 val
  to_owned (f64 val) = Value.f64 val
  to_owned (string val) = Value.string (string_into val)
  to_owned (binary val) = Value.binary val
  to_owned (array val) = Value.array (values_to_owned val)
  to_owned (map val) = Value.map (pairs_to_owned val)
  to_owned (ext ty buf) = Value.ext ty buf

  pub values_to_owned : {U : Type 0} → ValueRefs U → Values U
  values_to_owned no_values = Value.no_values
  values_to_owned (value v vs) = Value.value (to_owned v) (values_to_owned vs)

  pub pairs_to_owned : {U : Type 0} → PairRefs U → Pairs U
  pairs_to_owned no_pairs = Value.no_pairs
  pairs_to_owned (pair k v ps) = Value.pair (to_owned k) (to_owned v) (pairs_to_owned ps)

string_back : {U : Type 0} (s : Utf8String U) → string_into (string_as_ref s) ≡ s
unfolding string_into string_as_ref
string_back (Value.text s) = refl
string_back (Value.raw buf e) = refl

mutual
  unfolding as_ref values_as_ref pairs_as_ref to_owned values_to_owned pairs_to_owned

  value_back : {U : Type 0} (v : Value U) → to_owned (as_ref v) ≡ v
  value_back Value.nil = refl
  value_back (Value.boolean val) = refl
  value_back (Value.integer val) = refl
  value_back (Value.f32 val) = refl
  value_back (Value.f64 val) = refl
  value_back (Value.string val) = rw (string_back val) refl
  value_back (Value.binary val) = refl
  value_back (Value.array val) = rw (values_back val) refl
  value_back (Value.map val) = rw (pairs_back val) refl
  value_back (Value.ext ty buf) = refl

  values_back : {U : Type 0} (vs : Values U) → values_to_owned (values_as_ref vs) ≡ vs
  values_back Value.no_values = refl
  values_back (Value.value v vs) = rw (value_back v, values_back vs) refl

  pairs_back : {U : Type 0} (ps : Pairs U) → pairs_to_owned (pairs_as_ref ps) ≡ ps
  pairs_back Value.no_pairs = refl
  pairs_back (Value.pair k v ps) = rw (value_back k, value_back v, pairs_back ps) refl

-- Borrowing a value and then copying what was borrowed gives the value again.
pub to_owned-as_ref : {U : Type 0} (v : Value U) → to_owned (as_ref v) ≡ v
to_owned-as_ref v = value_back v
