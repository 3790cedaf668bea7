-- ===== src/Serde.antt =====
-- rmp-serde/src/encode.rs: what a `Serialize` implementation asks of a serializer, and the errors.
pub mod Config
pub mod Ext
pub mod Serializer
pub mod Logic
pub mod Meaning
pub mod Parts
pub mod Extension
pub mod Compound
pub mod Written
pub mod Api
pub mod Bytes
pub mod Configs
pub mod Unknown
pub mod De
use msgpack_rust.Common.{ℕ, suc, Bool, Option, List}
use msgpack_rust.Common.Int.{ℤ}
use msgpack_rust.Encode.{ValueWriteError}
use Prim.Native.String.{String}

-- The calls that `value.serialize(se)` makes, and those of the values inside it. A `&str` is its
-- bytes, a `char` its UTF-8 encoding, a float its bit pattern. `by_format h b` is an implementation
-- that asks `is_human_readable` and goes on as `h` or as `b`; `custom` one that fails with a message
-- of its own. Lengths are those that the implementation announces, `none` where it knows none.
mutual
  pub data Data : Type 0 where
    bool : Bool → Data
    i8 : ℤ → Data
    i16 : ℤ → Data
    i32 : ℤ → Data
    i64 : ℤ → Data
    i128 : ℤ → Data
    u8 : ℕ → Data
    u16 : ℕ → Data
    u32 : ℕ → Data
    u64 : ℕ → Data
    u128 : ℕ → Data
    f32 : ℕ → Data
    f64 : ℕ → Data
    char : List ℕ → Data
    str : List ℕ → Data
    bytes : List ℕ → Data
    none : Data
    some : Data → Data
    unit : Data
    unit_struct : List ℕ → Data
    unit_variant : List ℕ → ℕ → List ℕ → Data
    newtype_struct : List ℕ → Data → Data
    newtype_variant : List ℕ → ℕ → List ℕ → Data → Data
    seq : Option ℕ → Items → Data
    tuple : ℕ → Items → Data
    tuple_struct : List ℕ → ℕ → Items → Data
    tuple_variant : List ℕ → ℕ → List ℕ → ℕ → Items → Data
    map : Option ℕ → Entries → Data
    struct : List ℕ → ℕ → Fields → Data
    struct_variant : List ℕ → ℕ → List ℕ → ℕ → Fields → Data
    by_format : Data → Data → Data
    custom : String → Data

  pub data Items : Type 0 where
    no_items : Items
    item : Data → Items → Items

  pub data Entries : Type 0 where
    no_entries : Entries
    entry : Data → Data → Entries → Entries

  pub data Fields : Type 0 where
    no_fields : Fields
    field : List ℕ → Data → Fields → Fields

pub data Error (E : Type 0) : Type 0 where
  invalid_value_write : ValueWriteError E → Error E
  unknown_length : Error E
  invalid_data_model : String → Error E
  depth_limit_exceeded : Error E
  syntax : String → Error E

abbrev pub count_items : Items → ℕ
count_items no_items = 0
count_items (item d ds) = suc (count_items ds)

abbrev pub count_entries : Entries → ℕ
count_entries no_entries = 0
count_entries (entry k v es) = suc (count_entries es)

abbrev pub count_fields : Fields → ℕ
count_fields no_fields = 0
count_fields (field key v fs) = suc (count_fields fs)
