-- ===== src/Serde/Configs.antt =====
-- rmp-serde/src/config.rs: what a configuration decides, and all that it decides.
use msgpack_rust.Common.{ℕ, ◌≡◌, refl, sym, ◌∙◌, none, some, List}
use msgpack_rust.Common.Outcome.{M, ◌>>=◌, ◌>>◌}
use msgpack_rust.ByteOrder.{ByteOrder}
use msgpack_rust.Serde.{
  Data, Items, Entries, Fields, no_items, item, no_entries, entry, no_fields, field, bool,
  unit_variant, newtype_struct, newtype_variant, seq, tuple, tuple_struct, tuple_variant, map,
  struct, struct_variant, by_format, Error,
}
use msgpack_rust.Serde.Config.{
  Config, is_human_readable, names_fields, write_struct_len, write_struct_field,
  write_variant_ident, write_struct_len_lem, write_struct_field_lem, write_variant_ident_lem,
}
use msgpack_rust.Serde.Serializer.{
  serialize, serialize_items, serialize_entries, serialize_fields, serialize_counted,
  serialize_counted_entries, vec_write_all, add_elem,
}

module _ (bo : ByteOrder) (c k : Config) (names : names_fields c ≡ names_fields k)
    (readable : is_human_readable c ≡ is_human_readable k) where
  same_ident :
      {W E : Type 0} (write_all : List ℕ → M W E (Unit {0})) (idx : ℕ) (variant : List ℕ)
      → write_variant_ident bo write_all c idx variant
        ≡ write_variant_ident bo write_all k idx variant
  same_ident write_all idx variant =
      write_variant_ident_lem bo write_all c idx variant
      ∙ sym (write_variant_ident_lem bo write_all k idx variant)

  same_len :
      {W E : Type 0} (write_all : List ℕ → M W E (Unit {0})) (len : ℕ)
      → write_struct_len bo write_all c len ≡ write_struct_len bo write_all k len
  same_len write_all len =
      rw (write_struct_len_lem bo write_all c len, write_struct_len_lem bo write_all k len, names)
        refl

  same_field :
      {W E : Type 0} (write_all : List ℕ → M W E (Unit {0})) (key : List ℕ)
      (m : M W (Error E) (Unit {0}))
      → write_struct_field bo write_all c key m ≡ write_struct_field bo write_all k key m
  same_field write_all key m =
      rw
        (
          write_struct_field_lem bo write_all c key m,
          write_struct_field_lem bo write_all k key m,
          names,
        )
        refl

  mutual
    unfolding serialize serialize_items serialize_entries serialize_fields serialize_counted
        serialize_counted_entries

    same_data :
        (d : Data) (W E : Type 0) (write_all : List ℕ → M W E (Unit {0}))
        → serialize bo c d W E write_all ≡ serialize bo k d W E write_all
    same_data (bool v) W E write_all = refl
    same_data (Data.some v) W E write_all = same_data v W E write_all
    same_data (unit_variant name idx variant) W E write_all = same_ident write_all idx variant
    same_data (newtype_struct name v) W E write_all = rw (same_data v W E write_all) refl
    same_data (newtype_variant name idx variant v) W E write_all =
        rw (same_ident write_all idx variant, same_data v W E write_all) refl
    same_data (seq (some len) ds) W E write_all = rw (same_items ds W E write_all) refl
    same_data (seq none ds) W E write_all = rw (same_counted ds 0 (List ℕ) ⊥ vec_write_all) refl
    same_data (tuple len ds) W E write_all = rw (same_items ds W E write_all) refl
    same_data (tuple_struct name len ds) W E write_all = rw (same_items ds W E write_all) refl
    same_data (tuple_variant name idx variant len ds) W E write_all =
        rw (same_ident write_all idx variant, same_items ds W E write_all) refl
    same_data (map (some len) es) W E write_all = rw (same_entries es W E write_all) refl
    same_data (map none es) W E write_all =
        rw (same_counted_entries es 0 (List ℕ) ⊥ vec_write_all) refl
    same_data (struct name len fs) W E write_all =
        rw (same_len write_all len, same_fields fs W E write_all) refl
    same_data (struct_variant name idx variant len fs) W E write_all =
        rw (same_ident write_all idx variant, same_len write_all len, same_fields fs W E write_all)
          refl
    same_data (by_format h b) W E write_all =
        rw (readable, same_data h W E write_all, same_data b W E write_all) refl
    same_data _ W E write_all = refl

    same_items :
        (ds : Items) (W E : Type 0) (write_all : List ℕ → M W E (Unit {0}))
        → serialize_items bo c ds W E write_all ≡ serialize_items bo k ds W E write_all
    same_items no_items W E write_all = refl
    same_items (item d ds) W E write_all =
        rw (same_data d W E write_all, same_items ds W E write_all) refl

    same_entries :
        (es : Entries) (W E : Type 0) (write_all : List ℕ → M W E (Unit {0}))
        → serialize_entries bo c es W E write_all ≡ serialize_entries bo k es W E write_all
    same_entries no_entries W E write_all = refl
    same_entries (entry key v es) W E write_all =
        rw (same_data key W E write_all, same_data v W E write_all, same_entries es W E write_all)
          refl

    same_fields :
        (fs : Fields) (W E : Type 0) (write_all : List ℕ → M W E (Unit {0}))
        → serialize_fields bo c fs W E write_all ≡ serialize_fields bo k fs W E write_all
    same_fields no_fields W E write_all = refl
    same_fields (field key v fs) W E write_all =
        rw
          (
            same_data v W E write_all,
            same_field write_all key (serialize bo k v W E write_all),
            same_fields fs W E write_all,
          )
          refl

    same_counted :
        (ds : Items) (n : ℕ) (W E : Type 0) (write_all : List ℕ → M W E (Unit {0}))
        → serialize_counted bo c ds n W E write_all ≡ serialize_counted bo k ds n W E write_all
    same_counted no_items n W E write_all = refl
    same_counted (item d ds) n W E write_all =
        λ i. same_data d W E write_all i >> (add_elem n >>= λ m. same_counted ds m W E write_all i)

    same_counted_entries :
        (es : Entries) (n : ℕ) (W E : Type 0) (write_all : List ℕ → M W E (Unit {0}))
        → serialize_counted_entries bo c es n W E write_all
          ≡ serialize_counted_entries bo k es n W E write_all
    same_counted_entries no_entries n W E write_all = refl
    same_counted_entries (entry key v es) n W E write_all = λ i.
        same_data key W E write_all i
        >> (add_elem n >>= λ m.
            same_data v W E write_all i
            >> (add_elem m >>= λ j. same_counted_entries es j W E write_all i))

  -- Two configurations that agree on whether structs carry names, and on whether the format is
  -- human-readable, serialize every implementation in the same way, whatever wrappers they are made
  -- of.
  pub serialize-names_fields :
      (d : Data) {W E : Type 0} (write_all : List ℕ → M W E (Unit {0}))
      → serialize bo c d W E write_all ≡ serialize bo k d W E write_all
  serialize-names_fields d {W} {E} write_all = same_data d W E write_all
