-- ===== src/Value.antt =====
-- rmpv/src/lib.rs: the types `Integer`, `Utf8String` and `Value`.
pub mod Ints
pub mod Write
pub mod Read
pub mod Encoding
pub mod Marked
pub mod Forms
pub mod Written
pub mod RoundTrip
pub mod Storage
pub mod Total
pub mod Text
pub mod Access
pub mod Lookup
pub mod Casts
pub mod Borrowed
pub mod Rejects
pub mod Deep
pub mod Stored
use msgpack_rust.Common.{ℕ, suc, Bool, List}
use msgpack_rust.Common.Int.{ℤ}

pub data IntPriv : Type 0 where
  pos_int : ℕ → IntPriv
  neg_int : ℤ → IntPriv

pub record Integer : Type 0 where
  pub n : IntPriv

-- The field `s`: the bytes of a `String`, or bytes that are not UTF-8 with the error of the check.
pub data Utf8String (U : Type 0) : Type 0 where
  text : List ℕ → Utf8String U
  raw : List ℕ → U → Utf8String U

-- `Values` and `Pairs` are the vectors in an array and in a map. A float is its bit pattern.
mutual
  pub data Value (U : Type 0) : Type 0 where
    nil : Value U
    boolean : Bool → Value U
    integer : Integer → Value U
    f32 : ℕ → Value U
    f64 : ℕ → Value U
    string : Utf8String U → Value U
    binary : List ℕ → Value U
    array : Values U → Value U
    map : Pairs U → Value U
    ext : ℤ → List ℕ → Value U

  pub data Values (U : Type 0) : Type 0 where
    no_values : Values U
    value : Value U → Values U → Values U

  pub data Pairs (U : Type 0) : Type 0 where
    no_pairs : Pairs U
    pair : Value U → Value U → Pairs U → Pairs U

module _ {U : Type 0} where
  abbrev pub count_values : Values U → ℕ
  count_values no_values = 0
  count_values (value v vs) = suc (count_values vs)

  abbrev pub count_pairs : Pairs U → ℕ
  count_pairs no_pairs = 0
  count_pairs (pair k v ps) = suc (count_pairs ps)
