-- ===== src/Serde/De/Any.antt =====
-- rmp-serde/src/decode.rs: `deserialize_any`, for a visitor whose elements are of its own type.
use msgpack_rust.Common.{
  ℕ, zero, suc, ◌+◌, ◌-◌, ◌==◌, if◌then◌else◌, true, false, Bool, ◌⊎◌, inl, inr, Option, none, some,
  List,
}
use msgpack_rust.Common.Int.{ℤ}
use msgpack_rust.Common.Outcome.{
  Outcome, ok, err, panicked, M, ◌>>=◌, ◌>>◌, map_err, pure, fail, panic,
}
use msgpack_rust.ByteOrder.{ByteOrder}
use msgpack_rust.Marker.{
  Marker, fix_pos, fix_neg, null, u8, u16, u32, u64, i8, i16, i32, i64, fix_str, str8, str16, str32,
  bin8, bin16, bin32, fix_array, array16, array32, fix_map, map16, map32, fix_ext1, fix_ext2,
  fix_ext4, fix_ext8, fix_ext16, ext8, ext16, ext32, reserved,
}
use msgpack_rust.Decode.{
  ValueReadError, read_data_u8, read_data_i8, read_data_u16, read_data_u32, read_data_u64,
  read_data_i16, read_data_i32, read_data_i64, read_data_f32, read_data_f64,
}
use msgpack_rust.Decode.Str.{Utf8}
use msgpack_rust.Serde.De.{
  Error, type_mismatch, length_mismatch, utf8_error, depth_limit_exceeded, invalid_data_read,
  Reference, borrowed, copied, ReadSlice, Deserializer, from_value_error, on_rd,
  take_or_read_marker, read_bin_data, read_u8, read_u16, read_u32, rmp,
}

-- `SeqAccess` and `MapAccess`.
pub record Access (R : Type 0) : Type 0 where
  pub de : Deserializer R
  pub left : ℕ

pub data ExtDeserializerState : Type 0 where
  fresh read_tag read_binary : ExtDeserializerState

pub record ExtDeserializer (R : Type 0) : Type 0 where
  pub rd : R
  pub len : ℕ
  pub state : ExtDeserializerState

-- What an element of an extension is visited with: an i8, or bytes.
pub data ExtElement : Type 0 where
  tag : ℤ → ExtElement
  binary : Reference → ExtElement

-- A visitor of serde, which makes a value of type `A` or refuses with an error `X`. A compound
-- hands it the call for the next element; `visit_seq n` and `visit_map n` make at most `n` rounds.
pub record Visitor (R X A : Type 0) : Type 0 where
  pub visit_unit : X ⊎ A
  pub visit_bool : Bool → X ⊎ A
  pub visit_u8 : ℕ → X ⊎ A
  pub visit_u16 : ℕ → X ⊎ A
  pub visit_u32 : ℕ → X ⊎ A
  pub visit_u64 : ℕ → X ⊎ A
  pub visit_i8 : ℤ → X ⊎ A
  pub visit_i16 : ℤ → X ⊎ A
  pub visit_i32 : ℤ → X ⊎ A
  pub visit_i64 : ℤ → X ⊎ A
  pub visit_f32 : ℕ → X ⊎ A
  pub visit_f64 : ℕ → X ⊎ A
  pub visit_str : List ℕ → X ⊎ A
  pub visit_borrowed_str : List ℕ → X ⊎ A
  pub visit_bytes : List ℕ → X ⊎ A
  pub visit_borrowed_bytes : List ℕ → X ⊎ A
  pub visit_seq : ℕ → M (Access R) X (Option A) → M (Access R) X A
  pub visit_map : ℕ → M (Access R) X (Option A) → M (Access R) X A → M (Access R) X A
  pub visit_newtype_struct : M (ExtDeserializer R) X (Option ExtElement) → M (ExtDeserializer R) X A

-- What a visitor returns, as the result of the call.
abbrev pub visited : {S X A : Type 0} → X ⊎ A → M S X A
visited (inl x) = fail x
visited (inr a) = pure a

module _ {R X A : Type 0} where
  abbrev pub in_access : ℕ → Outcome (Deserializer R) X A → Outcome (Access R) X A
  in_access left (ok a de) = ok a (record { de = de; left = left })
  in_access left (err e de) = err e (record { de = de; left = left })
  in_access left panicked = panicked

  -- `seed.deserialize(&mut *self.de)`
  unfoldable pub on_de : M (Deserializer R) X A → M (Access R) X A
  on_de m acc = in_access acc.left (m acc.de)

  -- `SeqAccess::next_element_seed` and `MapAccess::next_key_seed`.
  unfoldable pub next_element : M (Deserializer R) X A → M (Access R) X (Option A)
  unfolding on_de
  next_element seed acc = elim acc.left [
    | zero ↦ ok none acc
    | suc left ↦ (do a ← on_de seed; pure (some a)) (record { de = acc.de; left = left })
  ]

  -- `MapAccess::next_value_seed`
  unfoldable pub next_value : M (Deserializer R) X A → M (Access R) X A
  unfolding on_de
  next_value seed = on_de seed

  abbrev pub out_of_access : Outcome (Access R) X A → Outcome (Deserializer R) X (A × ℕ)
  out_of_access (ok a acc) = ok (a, acc.left) acc.de
  out_of_access (err e acc) = err e acc.de
  out_of_access panicked = panicked

  -- `let mut seq = SeqAccess::new(self, len); visit(&mut seq)`, with what `seq.left` is then.
  unfoldable pub with_access : ℕ → M (Access R) X A → M (Deserializer R) X (A × ℕ)
  with_access len visit de = out_of_access (visit (record { de = de; left = len }))

module _ {R U E : Type 0} where
  -- The macro `depth_count`: what it does before and after its expression.
  unfoldable pub enter : M (Deserializer R) (Error U E) (Unit {0})
  enter de =
      if de.depth == 0
      then panicked
      else if de.depth == 1
      then err depth_limit_exceeded
          (record { rd = de.rd; config = de.config; marker = de.marker; depth = 0 })
      else ok tt
          (record { rd = de.rd; config = de.config; marker = de.marker; depth = de.depth - 1 })

  unfoldable pub leave : M (Deserializer R) (Error U E) (Unit {0})
  leave de =
      ok tt (record { rd = de.rd; config = de.config; marker = de.marker; depth = de.depth + 1 })

  -- `match seq.left { 0 => Ok(res), excess => Err(..) }`
  unfoldable pub all_taken : {A : Type 0} → ℕ → A × ℕ → M (Deserializer R) (Error U E) A
  all_taken len (res, left) = if left == 0 then pure res else fail (length_mismatch (len - left))

module _ {R X A : Type 0} where
  -- What the call on the reader leaves in the deserializer of an extension: it goes to the next
  -- state where the call succeeds.
  abbrev pub in_ext :
      ℕ
      → ExtDeserializerState
      → ExtDeserializerState
      → Outcome R X A
      → Outcome (ExtDeserializer R) X A
  in_ext len state next (ok a rd) = ok a (record { rd = rd; len = len; state = next })
  in_ext len state next (err e rd) = err e (record { rd = rd; len = len; state = state })
  in_ext len state next panicked = panicked

  abbrev pub out_of_ext :
      Deserializer R → Outcome (ExtDeserializer R) X A → Outcome (Deserializer R) X (X ⊎ A)
  out_of_ext de (ok a ext) =
      ok (inr a) (record { rd = ext.rd; config = de.config; marker = de.marker; depth = de.depth })
  out_of_ext de (err e ext) =
      ok (inl e) (record { rd = ext.rd; config = de.config; marker = de.marker; depth = de.depth })
  out_of_ext de panicked = panicked

  -- `visit(ExtDeserializer::new(self, len))`, with its result kept as a value.
  unfoldable pub with_ext : ℕ → M (ExtDeserializer R) X A → M (Deserializer R) X (X ⊎ A)
  with_ext len visit de = out_of_ext de (visit (record { rd = de.rd; len = len; state = fresh }))

module _ (bo : ByteOrder) {U R E : Type 0} (utf8 : Utf8 U) (rs : ReadSlice R E) where
  -- The element that `ExtDeserializer` visits in each of its states.
  unfoldable pub next_ext : M (ExtDeserializer R) (Error U E) (Option ExtElement)
  next_ext ext = elim ext.state [
    | fresh ↦
        in_ext ext.len fresh read_tag
          ((do z ← map_err from_value_error (read_data_i8 (rmp rs)); pure (some (tag z))) ext.rd)
    | read_tag ↦ in_ext ext.len read_tag read_binary (
        (do buf ← map_err invalid_data_read (rs.read_slice ext.len); pure (some (binary buf)))
          ext.rd)
    | read_binary ↦ ok none ext
  ]

  unfoldable pub ext_len : Marker → M R (Error U E) ℕ
  ext_len fix_ext1 = pure 1
  ext_len fix_ext2 = pure 2
  ext_len fix_ext4 = pure 4
  ext_len fix_ext8 = pure 8
  ext_len fix_ext16 = pure 16
  ext_len ext8 = read_u8 rs
  ext_len ext16 = read_u16 bo rs
  ext_len ext32 = read_u32 bo rs
  ext_len marker = fail (type_mismatch marker)

  abbrev try_rd : {A : Type 0} → M R (ValueReadError E) A → M (Deserializer R) (Error U E) A
  try_rd m = on_rd (map_err from_value_error m)

module _ (bo : ByteOrder) {U R E A : Type 0} (utf8 : Utf8 U) (rs : ReadSlice R E)
    (visitor : Visitor R (Error U E) A) where
  -- The bytes of a string that are not UTF-8: a visitor that refuses them is overruled.
  abbrev pub or_utf8_error : U → Error U E ⊎ A → Error U E ⊎ A
  or_utf8_error e (inr a) = inr a
  or_utf8_error e (inl x) = inl (utf8_error e)

  abbrev pub visit_str_data : Reference → Error U E ⊎ A
  visit_str_data (borrowed buf) = elim (utf8.error buf) [
    | none ↦ visitor.visit_borrowed_str buf
    | some e ↦ or_utf8_error e (visitor.visit_borrowed_bytes buf)
  ]
  visit_str_data (copied buf) = elim (utf8.error buf) [
    | none ↦ visitor.visit_str buf
    | some e ↦ or_utf8_error e (visitor.visit_bytes buf)
  ]

  unfoldable pub read_str_data : ℕ → M (Deserializer R) (Error U E) A
  unfolding read_bin_data on_rd
  read_str_data len = do buf ← on_rd (read_bin_data rs len); visited (visit_str_data buf)

  abbrev pub visit_reference : Reference → Error U E ⊎ A
  visit_reference (borrowed buf) = visitor.visit_borrowed_bytes buf
  visit_reference (copied buf) = visitor.visit_bytes buf

  unfoldable pub any_bin : ℕ → M (Deserializer R) (Error U E) A
  unfolding read_bin_data on_rd
  any_bin len = do buf ← on_rd (read_bin_data rs len); visited (visit_reference buf)

  -- `inner` is `Deserialize::deserialize(&mut *self.de)` for an element.
  unfoldable pub any_array : M (Deserializer R) (Error U E) A → ℕ → M (Deserializer R) (Error U E) A
  unfolding enter leave all_taken with_access next_element
  any_array inner len = do
    enter
    res ← with_access len (visitor.visit_seq (suc len) (next_element inner))
    leave
    all_taken len res

  unfoldable pub any_map : M (Deserializer R) (Error U E) A → ℕ → M (Deserializer R) (Error U E) A
  unfolding enter leave all_taken with_access next_element next_value
  any_map inner len = do
    enter
    res ← with_access len (visitor.visit_map (suc len) (next_element inner) (next_value inner))
    leave
    all_taken len res

  unfoldable pub any_ext : ℕ → M (Deserializer R) (Error U E) A
  unfolding enter leave with_ext next_ext
  any_ext len = do
    enter
    res ← with_ext len (visitor.visit_newtype_struct (next_ext bo utf8 rs))
    leave
    visited res

  unfoldable pub any_marked :
      M (Deserializer R) (Error U E) A → Marker → M (Deserializer R) (Error U E) A
  unfolding on_rd read_str_data any_bin any_array any_map any_ext ext_len read_u8 read_u16 read_u32
      from_value_error
  any_marked inner null = visited visitor.visit_unit
  any_marked inner Marker.true = visited (visitor.visit_bool true)
  any_marked inner Marker.false = visited (visitor.visit_bool false)
  any_marked inner (fix_pos val) = visited (visitor.visit_u8 val)
  any_marked inner (fix_neg val) = visited (visitor.visit_i8 val)
  any_marked inner u8 = do
    n ← try_rd bo utf8 rs (read_data_u8 (rmp rs))
    visited (visitor.visit_u8 n)
  any_marked inner u16 = do
    n ← try_rd bo utf8 rs (read_data_u16 bo (rmp rs))
    visited (visitor.visit_u16 n)
  any_marked inner u32 = do
    n ← try_rd bo utf8 rs (read_data_u32 bo (rmp rs))
    visited (visitor.visit_u32 n)
  any_marked inner u64 = do
    n ← try_rd bo utf8 rs (read_data_u64 bo (rmp rs))
    visited (visitor.visit_u64 n)
  any_marked inner i8 = do
    z ← try_rd bo utf8 rs (read_data_i8 (rmp rs))
    visited (visitor.visit_i8 z)
  any_marked inner i16 = do
    z ← try_rd bo utf8 rs (read_data_i16 bo (rmp rs))
    visited (visitor.visit_i16 z)
  any_marked inner i32 = do
    z ← try_rd bo utf8 rs (read_data_i32 bo (rmp rs))
    visited (visitor.visit_i32 z)
  any_marked inner i64 = do
    z ← try_rd bo utf8 rs (read_data_i64 bo (rmp rs))
    visited (visitor.visit_i64 z)
  any_marked inner Marker.f32 = do
    n ← try_rd bo utf8 rs (read_data_f32 bo (rmp rs))
    visited (visitor.visit_f32 n)
  any_marked inner Marker.f64 = do
    n ← try_rd bo utf8 rs (read_data_f64 bo (rmp rs))
    visited (visitor.visit_f64 n)
  any_marked inner (fix_str len) = read_str_data len
  any_marked inner str8 = do len ← on_rd (read_u8 rs); read_str_data len
  any_marked inner str16 = do len ← on_rd (read_u16 bo rs); read_str_data len
  any_marked inner str32 = do len ← on_rd (read_u32 bo rs); read_str_data len
  any_marked inner (fix_array len) = any_array inner len
  any_marked inner array16 = do len ← on_rd (read_u16 bo rs); any_array inner len
  any_marked inner array32 = do len ← on_rd (read_u32 bo rs); any_array inner len
  any_marked inner (fix_map len) = any_map inner len
  any_marked inner map16 = do len ← on_rd (read_u16 bo rs); any_map inner len
  any_marked inner map32 = do len ← on_rd (read_u32 bo rs); any_map inner len
  any_marked inner bin8 = do len ← on_rd (read_u8 rs); any_bin len
  any_marked inner bin16 = do len ← on_rd (read_u16 bo rs); any_bin len
  any_marked inner bin32 = do len ← on_rd (read_u32 bo rs); any_bin len
  any_marked inner reserved = fail (type_mismatch reserved)
  any_marked inner marker = do len ← on_rd (ext_len bo utf8 rs marker); any_ext len

  -- `deserialize_any`, with a bound on the number of nested calls.
  unfoldable pub any_fuel : ℕ → M (Deserializer R) (Error U E) A
  unfolding any_marked take_or_read_marker
  any_fuel zero = panic
  any_fuel (suc fuel) = do mk ← take_or_read_marker rs; any_marked (any_fuel fuel) mk

  -- Each nested call is made below a depth that is one smaller, and none at depth zero.
  unfoldable pub deserialize_any : M (Deserializer R) (Error U E) A
  unfolding any_fuel
  deserialize_any de = any_fuel (suc de.depth) de
