-- ===== src/Serde/De/Calls.antt =====
-- rmp-serde/src/decode.rs: the calls for an option, for a unit struct, and for a number of 128 bits.
use msgpack_rust.Common.{ℕ, ◌^◌, ◌==◌, ◌≡◌, refl, sym, if◌then◌else◌, ◌⊎◌, Option, none, some, List}
use msgpack_rust.Common.Int.{ℤ, as_signed}
use msgpack_rust.Common.Outcome.{Outcome, ok, err, panicked, M, and_then, ◌>>=◌, ◌>>◌, pure, fail}
use msgpack_rust.ByteOrder.{ByteOrder, be_value}
use msgpack_rust.Marker.{Marker, null, fix_array, bin8}
use msgpack_rust.Decode.Str.{Utf8}
use msgpack_rust.Serde.Config.{Config}
use msgpack_rust.Serde.De.{
  Error, type_mismatch, length_mismatch, Reference, borrowed, copied, ReadSlice, Deserializer,
  on_rd, on_outcome, set_marker, cached_or_read, take_or_read_marker, read_u8, read_bin_data,
}
use msgpack_rust.Serde.De.Any.{Visitor, visited, any_marked, any_fuel, deserialize_any}

module _ {U R E A : Type 0} (rs : ReadSlice R E) (visit_none : Error U E ⊎ A)
    (visit_some : M (Deserializer R) (Error U E) A) where
  unfoldable pub option_marked : Marker → M (Deserializer R) (Error U E) A
  unfolding set_marker
  option_marked null = visited visit_none
  option_marked marker = do set_marker (some marker); visit_some

  -- `visit_some` is what the visitor's method does with the deserializer.
  unfoldable pub deserialize_option : M (Deserializer R) (Error U E) A
  unfolding option_marked take_or_read_marker
  deserialize_option = do marker ← take_or_read_marker rs; option_marked marker

module _ (bo : ByteOrder) {U R E A : Type 0} (utf8 : Utf8 U) (rs : ReadSlice R E)
    (visitor : Visitor R (Error U E) A) where
  unfoldable pub unit_struct_marked : Marker → M (Deserializer R) (Error U E) A
  unfolding set_marker deserialize_any
  unit_struct_marked null = visited visitor.visit_unit
  unit_struct_marked (fix_array len) =
      if len == 0
      then visited visitor.visit_unit
      else (do set_marker (some (fix_array len)); deserialize_any bo utf8 rs visitor)
  unit_struct_marked marker = do set_marker (some marker); deserialize_any bo utf8 rs visitor

  unfoldable pub deserialize_unit_struct : M (Deserializer R) (Error U E) A
  unfolding unit_struct_marked take_or_read_marker
  deserialize_unit_struct = do marker ← take_or_read_marker rs; unit_struct_marked marker

abbrev pub lent : Reference → List ℕ
lent (borrowed buf) = buf
lent (copied buf) = buf

module _ {U R E : Type 0} (rs : ReadSlice R E) where
  unfoldable pub read_128_marked : Marker → M (Deserializer R) (Error U E) (List ℕ)
  unfolding on_rd read_u8 read_bin_data
  read_128_marked bin8 = do
    len ← on_rd (read_u8 rs)
    if len == 16
        then (do buf ← on_rd (read_bin_data rs len); pure (lent buf))
        else fail (length_mismatch 16)
  read_128_marked marker = fail (type_mismatch marker)

  unfoldable pub read_128 : M (Deserializer R) (Error U E) (List ℕ)
  unfolding read_128_marked take_or_read_marker
  read_128 = do marker ← take_or_read_marker rs; read_128_marked marker

module _ {U R E A : Type 0} (rs : ReadSlice R E) where
  unfoldable pub deserialize_i128 : (ℤ → Error U E ⊎ A) → M (Deserializer R) (Error U E) A
  unfolding read_128
  deserialize_i128 visit_i128 = do
    buf ← read_128 rs
    visited (visit_i128 (as_signed (2 ^ 127) (be_value buf)))

  unfoldable pub deserialize_u128 : (ℕ → Error U E ⊎ A) → M (Deserializer R) (Error U E) A
  unfolding read_128
  deserialize_u128 visit_u128 = do buf ← read_128 rs; visited (visit_u128 (be_value buf))

module _ {R X A : Type 0} where
  -- After the call no marker is kept, and the depth is as it was.
  abbrev Took : ℕ → Outcome (Deserializer R) X A → Type 0
  Took depth (ok a de) = (de.marker ≡ none) × (de.depth ≡ depth)
  Took depth (err e de) = Unit {0}
  Took depth panicked = Unit {0}

  on_outcome-Took :
      (config : Config) (depth : ℕ) (o : Outcome R X A)
      → Took depth (on_outcome config none depth o)
  on_outcome-Took config depth (ok a rd) = (refl, refl)
  on_outcome-Took config depth (err e rd) = tt
  on_outcome-Took config depth panicked = tt

module _ (U : Type 0) {R E : Type 0} (rs : ReadSlice R E) where
  cached_or_read-Took :
      (cached : Option Marker) (de : Deserializer R)
      → cached ≡ de.marker
      → Took de.depth (cached_or_read {U = U} rs cached de)
  unfolding cached_or_read on_rd set_marker ◌>>◌ ◌>>=◌ pure
  cached_or_read-Took none de e = rw (← e) (on_outcome-Took de.config de.depth _)
  cached_or_read-Took (some mk) de e = (refl, refl)

module _ (bo : ByteOrder) {U R E A : Type 0} (utf8 : Utf8 U) (rs : ReadSlice R E)
    (visitor : Visitor R (Error U E) A) where
  kept_marker :
      (mk : Marker) (de : Deserializer R)
      → de.marker ≡ none
      → option_marked rs visitor.visit_unit (deserialize_any bo utf8 rs visitor) mk de
        ≡ any_marked bo utf8 rs visitor (any_fuel bo utf8 rs visitor de.depth) mk de
  unfolding option_marked set_marker deserialize_any any_fuel take_or_read_marker cached_or_read
      ◌>>◌ ◌>>=◌ pure
  kept_marker null de n = unfold any_marked in refl
  kept_marker mk de n = λ i.
      any_marked bo utf8 rs visitor (any_fuel bo utf8 rs visitor de.depth) mk
        (record { rd = de.rd; config = de.config; marker = sym n i; depth = de.depth })

  after_marker :
      (depth : ℕ) (o : Outcome (Deserializer R) (Error U E) Marker)
      → Took depth o
      → and_then o (option_marked rs visitor.visit_unit (deserialize_any bo utf8 rs visitor))
        ≡ and_then o (any_marked bo utf8 rs visitor (any_fuel bo utf8 rs visitor depth))
  after_marker depth (ok mk de) (n, d) = rw (← d) (kept_marker mk de n)
  after_marker depth (err e de) h = refl
  after_marker depth panicked h = refl

  -- For a visitor that treats a missing value as a unit and a present one by `deserialize_any`, as
  -- that of `Value` does, `deserialize_option` does on every deserializer what `deserialize_any`
  -- does: the marker that it looked at is read once.
  pub deserialize_option-deserialize_any :
      (de : Deserializer R)
      → deserialize_option rs visitor.visit_unit (deserialize_any bo utf8 rs visitor) de
        ≡ deserialize_any bo utf8 rs visitor de
  unfolding deserialize_option deserialize_any any_fuel take_or_read_marker ◌>>=◌
  deserialize_option-deserialize_any de =
      after_marker de.depth (cached_or_read rs de.marker de)
        (cached_or_read-Took U rs de.marker de refl)
