-- ===== src/Decode/Ints.antt =====
-- rmp/src/decode/mod.rs: `read_int`, on the forms that the format has for an integer.
use msgpack_rust.Common.{
  ℕ, ◌^◌, ◌≡◌, ap, ◌∙◌, subst, Bool, true, false, Option, none, some, List, [],
}
use msgpack_rust.Common.Int.{ℤ, pos, negsuc, as_unsigned, as_unsigned_pos}
use msgpack_rust.Common.Outcome.{pure}
use msgpack_rust.ByteOrder.{ByteOrder, IsBigEndian, be_bytes}
use msgpack_rust.Marker.{Marker, from_u8, fix_pos, fix_neg, u8, u16, u32, u64, i8, i16, i32, i64}
use msgpack_rust.Format.Markers.{IntForm-IsMarker}
use msgpack_rust.Format.{width, header, int_bytes, IntForm}
use msgpack_rust.Decode.{RmpRead}
use msgpack_rust.Decode.Int.{
  out_of_range, FromPrimitive, IsConversion, ok_or_out_of_range, read_int_data, read_int,
}
use msgpack_rust.Decode.Logic.{
  Decodes, Fails, IsSource, Decodes->>=, Fails->>=, Decodes-last, Fails-last, Decodes-pure,
  Decodes-map_eq, Decodes-map_err, Fails-fail,
}
use msgpack_rust.Decode.Wire.{
  read_marker-Decodes, data_u8, data_i8, data_u16, data_u32, data_u64, data_i16, data_i32, data_i64,
}

module _ {bo : ByteOrder} (big : IsBigEndian bo) {T : Type 0} {fp : FromPrimitive T}
    {convert : ℤ → Option T} (conv : IsConversion fp convert) {R E : Type 0} {rd : RmpRead R E}
    {left : R → List ℕ} (source : IsSource rd left) where
  read_int_data-Decodes :
      (mk : Marker) (z : ℤ)
      → IntForm mk z
      → Decodes left
          (read_int_data bo fp rd mk)
          (be_bytes (width mk) (as_unsigned (256 ^ width mk) z))
          (convert z)
  unfolding read_int_data be_bytes
  read_int_data-Decodes (fix_pos k) (pos n) h =
      subst (Decodes left _ []) (conv.u8_lem k ∙ ap (λ j. convert (pos j)) h.0) (Decodes-pure _)
  read_int_data-Decodes (fix_pos k) (negsuc n) h = absurd h
  read_int_data-Decodes (fix_neg k) (pos n) h = absurd h
  read_int_data-Decodes (fix_neg k) (negsuc n) h =
      subst (Decodes left _ []) (conv.i8_lem k ∙ ap convert h.0) (Decodes-pure _)
  read_int_data-Decodes u8 (pos n) h =
      rw (as_unsigned_pos 256 n h)
        (Decodes-map_eq fp.from_u8 (Decodes-map_err _ (data_u8 source n h)) (conv.u8_lem n))
  read_int_data-Decodes u8 (negsuc n) h = absurd h
  read_int_data-Decodes u16 (pos n) h =
      rw (as_unsigned_pos 65536 n h)
        (Decodes-map_eq fp.from_u16 (Decodes-map_err _ (data_u16 big source n h)) (conv.u16_lem n))
  read_int_data-Decodes u16 (negsuc n) h = absurd h
  read_int_data-Decodes u32 (pos n) h =
      rw (as_unsigned_pos 4294967296 n h)
        (Decodes-map_eq fp.from_u32 (Decodes-map_err _ (data_u32 big source n h)) (conv.u32_lem n))
  read_int_data-Decodes u32 (negsuc n) h = absurd h
  read_int_data-Decodes u64 (pos n) h =
      rw (as_unsigned_pos 18446744073709551616 n h)
        (Decodes-map_eq fp.from_u64 (Decodes-map_err _ (data_u64 big source n h)) (conv.u64_lem n))
  read_int_data-Decodes u64 (negsuc n) h = absurd h
  read_int_data-Decodes i8 z h =
      Decodes-map_eq fp.from_i8 (Decodes-map_err _ (data_i8 source z h)) (conv.i8_lem z)
  read_int_data-Decodes i16 z h =
      Decodes-map_eq fp.from_i16 (Decodes-map_err _ (data_i16 big source z h)) (conv.i16_lem z)
  read_int_data-Decodes i32 z h =
      Decodes-map_eq fp.from_i32 (Decodes-map_err _ (data_i32 big source z h)) (conv.i32_lem z)
  read_int_data-Decodes i64 z h =
      Decodes-map_eq fp.from_i64 (Decodes-map_err _ (data_i64 big source z h)) (conv.i64_lem z)
  read_int_data-Decodes _ z h = absurd h

  ok_or_out_of_range-Decodes :
      (o : Option T) (a : T) → o ≡ some a → Decodes left (ok_or_out_of_range {E = E} o) [] a
  unfolding ok_or_out_of_range
  ok_or_out_of_range-Decodes none a e = cc
  ok_or_out_of_range-Decodes (some b) a e = subst (Decodes left (pure b) []) (cc) (Decodes-pure b)

  ok_or_out_of_range-Fails :
      (o : Option T) → o ≡ none → Fails left (ok_or_out_of_range {E = E} o) [] out_of_range
  unfolding ok_or_out_of_range
  ok_or_out_of_range-Fails none e = Fails-fail out_of_range
  ok_or_out_of_range-Fails (some b) e = cc

  -- Any form of an integer that the target type can hold is read as that integer; the bytes of the
  -- form are taken, and an input that ends inside them is an error.
  pub read_int-Decodes :
      (mk : Marker) (z : ℤ) (a : T)
      → IntForm mk z
      → convert z ≡ some a
      → Decodes left (read_int bo fp rd) (int_bytes mk z) a
  unfolding read_int int_bytes header
  read_int-Decodes mk z a h e =
      Decodes->>= _ (Decodes-map_err _ (read_marker-Decodes source mk (IntForm-IsMarker mk z h))) (
        Decodes-last ok_or_out_of_range (read_int_data-Decodes mk z h)
          (ok_or_out_of_range-Decodes _ a e))

  -- Any form of an integer that the target type cannot hold is taken whole and refused as out of
  -- range.
  pub read_int-Fails :
      (mk : Marker) (z : ℤ)
      → IntForm mk z
      → convert z ≡ none
      → Fails left (read_int bo fp rd) (int_bytes mk z) out_of_range
  unfolding read_int int_bytes header
  read_int-Fails mk z h e =
      Fails->>= _ (Decodes-map_err _ (read_marker-Decodes source mk (IntForm-IsMarker mk z h))) (
        Fails-last ok_or_out_of_range (read_int_data-Decodes mk z h) (ok_or_out_of_range-Fails _ e))

-- The markers that `read_int` accepts.
abbrev pub is_int : Marker → Bool
is_int (fix_pos n) = true
is_int (fix_neg z) = true
is_int u8 = true
is_int u16 = true
is_int u32 = true
is_int u64 = true
is_int i8 = true
is_int i16 = true
is_int i32 = true
is_int i64 = true
is_int _ = false
