-- ===== src/Serde/Extension.antt =====
-- rmp-serde/src/encode.rs: what the branch for an extension does.
use msgpack_rust.Common.{ℕ, ◌%◌, ◌^◌, ◌≡◌, refl, Bool, none, true, false, List, [], ◌∷◌, length}
use msgpack_rust.Common.Int.{ℤ}
use msgpack_rust.Common.Outcome.{
  Outcome, ok, err, panicked, M, and_then, ◌>>=◌, ◌>>◌, map_err, pure, fail,
}
use msgpack_rust.ByteOrder.{ByteOrder}
use msgpack_rust.Encode.{invalid_data_write, io_write}
use msgpack_rust.Encode.Len.{write_ext_meta}
use msgpack_rust.Serde.{
  Data, Items, Error, invalid_value_write, no_items, item, bool, i8, bytes, tuple, by_format,
}
use msgpack_rust.Serde.Config.{try_write}
use msgpack_rust.Serde.Ext
use msgpack_rust.Serde.Ext.{
  ExtSerializer, serialize_ext, serialize_elements, serialize_field, field_i8, field_bytes,
  field_tagged, put_tag, take_tag, set_finish, on_wr, on_fields, receive_tuple, end_field,
  new_field, wrote, fields,
}
use msgpack_rust.Serde.Serializer.{serialize_ext_struct, ended}

-- The serializer after it has received its tuple, with no type at hand.
abbrev at : {W : Type 0} → Bool → W → ExtSerializer W
at finish wr = record {
  fields_se = record { wr = wr; tag = none; finish = finish };
  tuple_received = true;
}

module _ {W E : Type 0} (rest : ExtSerializer W → Outcome (ExtSerializer W) (Error E) (Unit {0}))
    (g : M W (Error E) (Unit {0})) (same : (w : W) → ended (rest (at true w)) ≡ g w) where
  abbrev finish_set :
      Outcome (Ext.ExtFieldSerializer W) (Error E) (Unit {0})
      → Outcome (Ext.ExtFieldSerializer W) (Error E) (Unit {0})
  finish_set o = and_then o (λ x s. ok tt (record { wr = s.wr; tag = s.tag; finish = true }))

  after_bytes :
      (finish : Bool) (o : Outcome W (Error E) (Unit {0}))
      → ended (and_then (fields true (finish_set (wrote none finish o))) (λ x s. rest s))
        ≡ and_then o (λ _. g)
  after_bytes finish (ok x w) = same w
  after_bytes finish (err e w) = refl
  after_bytes finish panicked = refl

  after_meta :
      {A : Type 0} (finish : Bool) (o : Outcome W (Error E) A) (k : M W (Error E) (Unit {0}))
      → ended (
          and_then
            (fields true
              (and_then (wrote none finish o) (λ x s. finish_set (wrote s.tag s.finish (k s.wr)))))
            (λ x s. rest s))
        ≡ and_then (and_then o (λ _. k)) (λ _. g)
  after_meta finish (ok x w) k = after_bytes finish (k w)
  after_meta finish (err e w) k = refl
  after_meta finish panicked k = refl

module _ (bo : ByteOrder) {W E : Type 0} (write_all : List ℕ → M W E (Unit {0})) where
  -- One extension, written as rmp writes it.
  unfoldable pub write_ext : ℤ → List ℕ → M W (Error E) (Unit {0})
  write_ext ty buf = do
    _ ← try_write bo write_all (write_ext_meta bo (io_write write_all) (length buf % 2 ^ 32) ty)
    map_err (λ e. invalid_value_write (invalid_data_write e)) (write_all buf)

  unfoldable pub write_exts : List (ℤ × List ℕ) → M W (Error E) (Unit {0})
  unfolding write_ext
  write_exts [] = pure tt
  write_exts ((ty, buf) ∷ ps) = write_ext ty buf >> write_exts ps

-- The elements of a tuple that holds types and bytes in turn.
abbrev pub ext_items : List (ℤ × List ℕ) → Items
ext_items [] = no_items
ext_items ((ty, buf) ∷ ps) = item (i8 ty) (item (bytes buf) (ext_items ps))

module _ (bo : ByteOrder) {W E : Type 0} (write_all : List ℕ → M W E (Unit {0})) where
  one_more :
      (ty : ℤ) (buf : List ℕ) (ps : List (ℤ × List ℕ)) (finish : Bool) (wr : W)
      → ((w : W)
          → ended (serialize_elements bo write_all (ext_items ps) (at true w))
            ≡ write_exts bo write_all ps w)
      → ended (serialize_elements bo write_all (ext_items ((ty, buf) ∷ ps)) (at finish wr))
        ≡ write_exts bo write_all ((ty, buf) ∷ ps) wr
  unfolding serialize_elements serialize_field field_i8 field_bytes field_tagged put_tag take_tag
      set_finish on_wr on_fields ◌>>=◌ ◌>>◌ write_exts
  one_more ty buf ps finish wr ih =
      after_meta (serialize_elements bo write_all (ext_items ps)) (write_exts bo write_all ps) ih
        finish
        (try_write bo write_all (write_ext_meta bo (io_write write_all) (length buf % 2 ^ 32) ty)
          wr)
        (map_err (λ e. invalid_value_write (invalid_data_write e)) (write_all buf))

  all_more :
      (ps : List (ℤ × List ℕ)) (w : W)
      → ended (serialize_elements bo write_all (ext_items ps) (at true w))
        ≡ write_exts bo write_all ps w
  unfolding serialize_elements write_exts pure Ext.end end_field
  all_more [] w = refl
  all_more ((ty, buf) ∷ ps) w = one_more ty buf ps true w (all_more ps)

  -- Under the name of an extension, a tuple of one or more pairs of a type and bytes is accepted
  -- whatever length it announces, and every pair is written as an extension of its own.
  pub serialize_ext_struct-ext_items :
      (len : ℕ) (ty : ℤ) (buf : List ℕ) (ps : List (ℤ × List ℕ)) (wr : W)
      → serialize_ext_struct bo write_all (tuple len (ext_items ((ty, buf) ∷ ps))) wr
        ≡ write_exts bo write_all ((ty, buf) ∷ ps) wr
  unfolding serialize_ext_struct serialize_ext receive_tuple Ext.new new_field ◌>>◌ ◌>>=◌
  serialize_ext_struct-ext_items len ty buf ps wr = one_more ty buf ps false wr (all_more ps)

-- Whether the value that is asked for its extension serializes as a tuple.
abbrev pub is_tuple : Data → Bool
is_tuple (tuple len ds) = true
is_tuple (by_format h b) = is_tuple h
is_tuple _ = false

module _ (bo : ByteOrder) {W E : Type 0} (write_all : List ℕ → M W E (Unit {0})) where
  -- Under the name of an extension, whatever does not serialize as a tuple is refused with nothing
  -- written.
  pub serialize_ext_struct-is_tuple :
      (d : Data) (wr : W)
      → is_tuple d ≡ false
      → (e : Error E) × (serialize_ext_struct bo write_all d wr ≡ err e wr)
  unfolding serialize_ext_struct serialize_ext Ext.new new_field fail
  serialize_ext_struct-is_tuple (bool v) wr h = (_, refl)
  serialize_ext_struct-is_tuple (tuple len ds) wr h = absurd (cc)
  serialize_ext_struct-is_tuple (by_format c b) wr h = serialize_ext_struct-is_tuple c wr h
  serialize_ext_struct-is_tuple _ wr h = (_, refl)
