-- ===== src/Serde/Ext.antt =====
-- rmp-serde/src/encode.rs: `ExtSerializer` and `ExtFieldSerializer`, which write one extension.
use msgpack_rust.Common.{ℕ, ◌%◌, ◌^◌, Bool, true, false, Option, none, some, List, length}
use msgpack_rust.Common.Int.{ℤ}
use msgpack_rust.Common.Outcome.{Outcome, ok, err, panicked, M, ◌>>=◌, ◌>>◌, map_err, pure, fail}
use msgpack_rust.ByteOrder.{ByteOrder}
use msgpack_rust.Encode.{invalid_data_write, io_write}
use msgpack_rust.Encode.Len.{write_ext_meta}
use msgpack_rust.Serde.{
  Data, Items, no_items, item, Error, invalid_value_write, invalid_data_model, syntax, bool, i8,
  i16, i32, i64, i128, u8, u16, u32, u64, u128, f32, f64, char, str, bytes, unit, unit_struct,
  unit_variant, newtype_struct, newtype_variant, seq, tuple, tuple_struct, tuple_variant, map,
  struct, struct_variant, by_format, custom,
}

pub record ExtFieldSerializer (W : Type 0) : Type 0 where
  pub wr : W
  pub tag : Option ℤ
  pub finish : Bool

pub record ExtSerializer (W : Type 0) : Type 0 where
  pub fields_se : ExtFieldSerializer W
  pub tuple_received : Bool

module _ {W : Type 0} where
  -- `ExtFieldSerializer::new` and `ExtSerializer::new`.
  unfoldable pub new_field : W → ExtFieldSerializer W
  new_field wr = record { wr = wr; tag = none; finish = false }

  unfoldable pub new : W → ExtSerializer W
  unfolding new_field
  new wr = record { fields_se = new_field wr; tuple_received = false }

module _ {W E A : Type 0} where
  -- What a call on the writer leaves in the serializer that holds it.
  abbrev pub wrote : Option ℤ → Bool → Outcome W E A → Outcome (ExtFieldSerializer W) E A
  wrote tag finish (ok a wr) = ok a (record { wr = wr; tag = tag; finish = finish })
  wrote tag finish (err e wr) = err e (record { wr = wr; tag = tag; finish = finish })
  wrote tag finish panicked = panicked

  -- A call on `self.wr`.
  unfoldable pub on_wr : M W E A → M (ExtFieldSerializer W) E A
  on_wr m s = wrote s.tag s.finish (m s.wr)

  abbrev pub fields : Bool → Outcome (ExtFieldSerializer W) E A → Outcome (ExtSerializer W) E A
  fields tuple_received (ok a s) = ok a (record { fields_se = s; tuple_received = tuple_received })
  fields tuple_received (err e s) =
      err e (record { fields_se = s; tuple_received = tuple_received })
  fields tuple_received panicked = panicked

  -- A call on `self.fields_se`.
  unfoldable pub on_fields : M (ExtFieldSerializer W) E A → M (ExtSerializer W) E A
  on_fields m s = fields s.tuple_received (m s.fields_se)

module _ {W E : Type 0} where
  -- `self.tag.replace(value)`, `self.tag.take()` and `self.finish = true`.
  unfoldable pub put_tag : Option ℤ → M (ExtFieldSerializer W) E (Unit {0})
  put_tag tag s = ok tt (record { wr = s.wr; tag = tag; finish = s.finish })

  unfoldable pub take_tag : M (ExtFieldSerializer W) E (Option ℤ)
  take_tag s = ok s.tag (record { wr = s.wr; tag = none; finish = s.finish })

  unfoldable pub set_finish : M (ExtFieldSerializer W) E (Unit {0})
  set_finish s = ok tt (record { wr = s.wr; tag = s.tag; finish = true })

module _ {W E : Type 0} where
  unfoldable pub field_i8 : ℤ → M (ExtFieldSerializer W) (Error E) (Unit {0})
  unfolding put_tag
  field_i8 value s = elim s.tag [
    | none ↦ put_tag (some value) s
    | some tag ↦ err (invalid_data_model "expected i8 and bytes, unexpected second i8") s
  ]

module _ (bo : ByteOrder) {W E : Type 0} (write_all : List ℕ → M W E (Unit {0})) where
  -- The body of `serialize_bytes` under the tag that was taken.
  unfoldable pub field_tagged : List ℕ → Option ℤ → M (ExtFieldSerializer W) (Error E) (Unit {0})
  unfolding on_wr set_finish
  field_tagged val none = fail (invalid_data_model "expected i8 and bytes, received bytes first")
  field_tagged val (some tag) = do
    _ ← on_wr (
        map_err invalid_value_write
          (write_ext_meta bo (io_write write_all) (length val % 2 ^ 32) tag))
    on_wr (map_err (λ e. invalid_value_write (invalid_data_write e)) (write_all val))
    set_finish

  unfoldable pub field_bytes : List ℕ → M (ExtFieldSerializer W) (Error E) (Unit {0})
  unfolding take_tag field_tagged
  field_bytes val = do tag ← take_tag; field_tagged val tag

  -- `value.serialize(&mut self.fields_se)`. The trait's own methods answer for what the code leaves
  -- out: `is_human_readable` holds, and numbers of 128 bits are refused.
  unfoldable pub serialize_field : Data → M (ExtFieldSerializer W) (Error E) (Unit {0})
  unfolding field_i8 field_bytes
  serialize_field (i8 value) = field_i8 value
  serialize_field (bytes val) = field_bytes val
  serialize_field (bool val) = fail (invalid_data_model "expected i8 and bytes, bool unexpected")
  serialize_field (i16 val) = fail (invalid_data_model "expected i8 and bytes, i16 unexpected")
  serialize_field (i32 val) = fail (invalid_data_model "expected i8 and bytes, i32 unexpected")
  serialize_field (i64 val) = fail (invalid_data_model "expected i8 and bytes, i64 unexpected")
  serialize_field (i128 val) = fail (syntax "i128 is not supported")
  serialize_field (u8 val) = fail (invalid_data_model "expected i8 and bytes, u8 unexpected")
  serialize_field (u16 val) = fail (invalid_data_model "expected i8 and bytes, u16 unexpected")
  serialize_field (u32 val) = fail (invalid_data_model "expected i8 and bytes, u32 unexpected")
  serialize_field (u64 val) = fail (invalid_data_model "expected i8 and bytes, u64 unexpected")
  serialize_field (u128 val) = fail (syntax "u128 is not supported")
  serialize_field (f32 val) = fail (invalid_data_model "expected i8 and bytes, f32 unexpected")
  serialize_field (f64 val) = fail (invalid_data_model "expected i8 and bytes, f64 unexpected")
  serialize_field (char val) = fail (invalid_data_model "expected i8 and bytes, char unexpected")
  serialize_field (str val) = fail (invalid_data_model "expected i8 and bytes, str unexpected")
  serialize_field unit = fail (invalid_data_model "expected i8 and bytes, unit unexpected")
  serialize_field (unit_struct name) =
      fail (invalid_data_model "expected i8 and bytes, unit struct unexpected")
  serialize_field (unit_variant name idx variant) =
      fail (invalid_data_model "expected i8 and bytes, unit variant unexpected")
  serialize_field (newtype_struct name value) =
      fail (invalid_data_model "expected i8 and bytes, newtype struct unexpected")
  serialize_field (newtype_variant name idx variant value) =
      fail (invalid_data_model "expected i8 and bytes, newtype variant unexpected")
  serialize_field Data.none = fail (invalid_data_model "expected i8 and bytes, none unexpected")
  serialize_field (Data.some value) =
      fail (invalid_data_model "expected i8 and bytes, some unexpected")
  serialize_field (seq len ds) = fail (invalid_data_model "expected i8 and bytes, seq unexpected")
  serialize_field (tuple len ds) =
      fail (invalid_data_model "expected i8 and bytes, tuple unexpected")
  serialize_field (tuple_struct name len ds) =
      fail (invalid_data_model "expected i8 and bytes, tuple struct unexpected")
  serialize_field (tuple_variant name idx variant len ds) =
      fail (invalid_data_model "expected i8 and bytes, tuple variant unexpected")
  serialize_field (map len es) = fail (invalid_data_model "expected i8 and bytes, map unexpected")
  serialize_field (struct name len fs) =
      fail (invalid_data_model "expected i8 and bytes, struct unexpected")
  serialize_field (struct_variant name idx variant len fs) =
      fail (invalid_data_model "expected i8 and bytes, struct variant unexpected")
  serialize_field (by_format h b) = serialize_field h
  serialize_field (custom msg) = fail (syntax msg)

  -- The elements of the tuple, each by `SerializeTuple::serialize_element`.
  unfoldable pub serialize_elements : Items → M (ExtSerializer W) (Error E) (Unit {0})
  unfolding serialize_field on_fields
  serialize_elements no_items = pure tt
  serialize_elements (item d ds) = on_fields (serialize_field d) >> serialize_elements ds

  -- `self.tuple_received = true`
  unfoldable pub receive_tuple : M (ExtSerializer W) (Error E) (Unit {0})
  receive_tuple s = ok tt (record { fields_se = s.fields_se; tuple_received = true })

  -- `value.serialize(&mut ext_se)`
  unfoldable pub serialize_ext : Data → M (ExtSerializer W) (Error E) (Unit {0})
  unfolding serialize_elements receive_tuple
  serialize_ext (tuple len ds) = receive_tuple >> serialize_elements ds
  serialize_ext (bytes val) = fail (invalid_data_model "expected tuple, received bytes")
  serialize_ext (bool val) = fail (invalid_data_model "expected tuple, received bool")
  serialize_ext (i8 value) = fail (invalid_data_model "expected tuple, received i8")
  serialize_ext (i16 val) = fail (invalid_data_model "expected tuple, received i16")
  serialize_ext (i32 val) = fail (invalid_data_model "expected tuple, received i32")
  serialize_ext (i64 val) = fail (invalid_data_model "expected tuple, received i64")
  serialize_ext (i128 val) = fail (syntax "i128 is not supported")
  serialize_ext (u8 val) = fail (invalid_data_model "expected tuple, received u8")
  serialize_ext (u16 val) = fail (invalid_data_model "expected tuple, received u16")
  serialize_ext (u32 val) = fail (invalid_data_model "expected tuple, received u32")
  serialize_ext (u64 val) = fail (invalid_data_model "expected tuple, received u64")
  serialize_ext (u128 val) = fail (syntax "u128 is not supported")
  serialize_ext (f32 val) = fail (invalid_data_model "expected tuple, received f32")
  serialize_ext (f64 val) = fail (invalid_data_model "expected tuple, received f64")
  serialize_ext (char val) = fail (invalid_data_model "expected tuple, received char")
  serialize_ext (str val) = fail (invalid_data_model "expected tuple, received str")
  serialize_ext unit = fail (invalid_data_model "expected tuple, received unit")
  serialize_ext (unit_struct name) =
      fail (invalid_data_model "expected tuple, received unit_struct")
  serialize_ext (unit_variant name idx variant) =
      fail (invalid_data_model "expected tuple, received unit_variant")
  serialize_ext (newtype_struct name value) =
      fail (invalid_data_model "expected tuple, received newtype_struct")
  serialize_ext (newtype_variant name idx variant value) =
      fail (invalid_data_model "expected tuple, received newtype_variant")
  serialize_ext Data.none = fail (invalid_data_model "expected tuple, received none")
  serialize_ext (Data.some value) = fail (invalid_data_model "expected tuple, received some")
  serialize_ext (seq len ds) = fail (invalid_data_model "expected tuple, received seq")
  serialize_ext (tuple_struct name len ds) =
      fail (invalid_data_model "expected tuple, received tuple_struct")
  serialize_ext (tuple_variant name idx variant len ds) =
      fail (invalid_data_model "expected tuple, received tuple_variant")
  serialize_ext (map len es) = fail (invalid_data_model "expected tuple, received map")
  serialize_ext (struct name len fs) = fail (invalid_data_model "expected tuple, received struct")
  serialize_ext (struct_variant name idx variant len fs) =
      fail (invalid_data_model "expected tuple, received struct_variant")
  serialize_ext (by_format h b) = serialize_ext h
  serialize_ext (custom msg) = fail (syntax msg)

-- `ExtFieldSerializer::end` and `ExtSerializer::end`, as the error that they return.
unfoldable pub end_field : {W E : Type 0} → ExtFieldSerializer W → Option (Error E)
end_field s = elim s.finish [
  | true ↦ none
  | false ↦ some (invalid_data_model "expected i8 and bytes")
]

unfoldable pub end : {W E : Type 0} → ExtSerializer W → Option (Error E)
unfolding end_field
end s = elim s.tuple_received [
  | true ↦ end_field s.fields_se
  | false ↦ some (invalid_data_model "expected tuple, received nothing")
]
