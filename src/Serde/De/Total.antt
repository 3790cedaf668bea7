-- ===== src/Serde/De/Total.antt =====
-- rmp-serde/src/decode.rs and rmpv/src/ext/de.rs: a `Value` from an input of any kind.
use msgpack_rust.Common.{
  ℕ, zero, suc, ◌<◌, ◌≤◌, ◌==◌, ◌≡◌, refl, ◌⊎◌, inl, inr, Bool, true, false, Option, none, some,
  List, arith,
}
use msgpack_rust.Common.Outcome.{Outcome, ok, err, panicked, M, ◌>>=◌, pure}
use msgpack_rust.ByteOrder.{ByteOrder}
use msgpack_rust.Marker.{
  Marker, fix_pos, fix_neg, null, u8, u16, u32, u64, i8, i16, i32, i64, fix_str, str8, str16, str32,
  bin8, bin16, bin32, fix_array, array16, array32, fix_map, map16, map32, fix_ext1, fix_ext2,
  fix_ext4, fix_ext8, fix_ext16, ext8, ext16, ext32, reserved,
}
use msgpack_rust.Decode.{
  io_read, read_data_u16, read_data_u32, read_data_u64, read_data_i16, read_data_i32, read_data_i64,
  read_data_f32, read_data_f64,
}
use msgpack_rust.Decode.Answers.{
  Fills, Answers, Anything, Answers-pure, Answers-map_err, read_data_u8-Answers,
  read_data_i8-Answers, wide-Answers, byte-Answers,
}
use msgpack_rust.Decode.Str.{Utf8}
use msgpack_rust.Value.{Value, array, map}
use msgpack_rust.Serde.De.{
  Error, Reference, borrowed, copied, ReadSlice, Deserializer, on_rd, read_bin_data, read_u8,
  read_u16, read_u32,
}
use msgpack_rust.Serde.De.Any.{
  ext_len, with_ext, with_access, next_element, next_value, all_taken, visit_str_data,
  visit_reference, read_str_data, any_bin, any_array, any_map, any_ext, any_marked, any_fuel,
  deserialize_any,
}
use msgpack_rust.Serde.De.Visitor.{Refusals, collect, collect_pairs, value_visitor}
use msgpack_rust.Serde.De.Read.{levels, levels_of_values, levels_of_pairs}
use msgpack_rust.Value.Read
use msgpack_rust.Value.Total
use msgpack_rust.Serde.De.Readers.{reader, ref_reader}
use msgpack_rust.Serde.De.Streams.{ref_reader-IsTotal, reader-IsTotal}
use msgpack_rust.Serde.De.Api.{from_slice, from_read, from_read_ref, new, deserialize_value}
use msgpack_rust.Serde.De.Safe.{
  IsTotal, Kept, Safe, Safe-pure, Safe-fail, Safe->>=, Safe-on_rd, Fine, Safe-visited,
  take_or_read_marker-Safe, Safe-depth_count,
}
use msgpack_rust.Serde.De.Elements.{
  after_access, kept_last, collect_total, collect_pairs_total, visit_ext_total, after_ext,
}

module _ (bo : ByteOrder) {U R E : Type 0} (utf8 : Utf8 U) {rs : ReadSlice R E} (total : IsTotal rs)
    (refusals : Refusals (Error U E)) (inner : M (Deserializer R) (Error U E) (Value U)) (depth : ℕ)
    (pos : 0 < depth)
    (below : (inside : ℕ)
      → suc inside ≡ depth
      → 0 < inside
      → Safe inside (λ (v : Value U). levels v < inside) inner) where
  abbrev Ends : M (Deserializer R) (Error U E) (Value U) → Type 0
  Ends m = Safe depth (λ (v : Value U). levels v < depth) m

  all_taken_total :
      (len : ℕ) (v : Value U) (left : ℕ) (test : Bool)
      → levels v < depth
      → (left == 0) ≡ test
      → Ends (all_taken len (v, left))
  unfolding all_taken
  all_taken_total len v left true h e = rw e (Safe-pure v h)
  all_taken_total len v left false h e = rw e (Safe-fail _)

  array_total : (len : ℕ) → Ends (any_array bo utf8 rs (value_visitor refusals) inner len)
  unfolding any_array with_access value_visitor ◌>>=◌ pure levels
  array_total len =
      Safe-depth_count {Q = λ (res : Value U × ℕ). levels res.0 < depth} depth _ pos
        (λ inside e small. record {
          run = λ de d.
              after_access inside (λ (v : Value U). levels v < depth) _
                (kept_last inside 0 (λ vs. levels_of_values vs < inside)
                  (λ (v : Value U). levels v < depth) array
                  (collect (suc len) (next_element inner) (record { de = de; left = len }))
                  (collect_total inside inner (below inside e small) small (suc len) len
                    (omega arith) de d)
                  (λ vs g. omega (arith, e, g)));
        })
        (λ res g. all_taken_total len res.0 res.1 (res.1 == 0) g refl)

  map_total : (len : ℕ) → Ends (any_map bo utf8 rs (value_visitor refusals) inner len)
  unfolding any_map with_access value_visitor ◌>>=◌ pure levels
  map_total len =
      Safe-depth_count {Q = λ (res : Value U × ℕ). levels res.0 < depth} depth _ pos
        (λ inside e small. record {
          run = λ de d.
              after_access inside (λ (v : Value U). levels v < depth) _
                (kept_last inside 0 (λ ps. levels_of_pairs ps < inside)
                  (λ (v : Value U). levels v < depth) map
                  (collect_pairs (suc len) (next_element inner) (next_value inner)
                    (record { de = de; left = len }))
                  (collect_pairs_total inside inner (below inside e small) small (suc len) len
                    (omega arith) de d)
                  (λ ps g. omega (arith, e, g)));
        })
        (λ res g. all_taken_total len res.0 res.1 (res.1 == 0) g refl)

  ext-Fine :
      (r : Error U E ⊎ Value U)
      → 1 < depth
      → Fine (λ (v : Value U). levels v ≡ 1) r
      → Fine (λ (v : Value U). levels v < depth) r
  ext-Fine (inl x) deep h = tt
  ext-Fine (inr v) deep h = omega (arith, h, deep)

  any_ext_total : (len : ℕ) → Ends (any_ext bo utf8 rs (value_visitor refusals) len)
  unfolding any_ext with_ext value_visitor
  any_ext_total len =
      Safe-depth_count {Q = λ r. (1 < depth) × Fine (λ (v : Value U). levels v ≡ 1) r} depth _ pos
        (λ inside e small. record {
          run = λ de d. deeper inside e small _ (
              after_ext bo utf8 total refusals inside de _ d
                ((visit_ext_total bo utf8 total refusals).run _));
        })
        (λ r g. Safe-visited r (ext-Fine r g.0 g.1))
    where
      deeper :
          (inside : ℕ)
          → suc inside ≡ depth
          → 0 < inside
          → (o : Outcome (Deserializer R) (Error U E) (Error U E ⊎ Value U))
          → Kept inside (Fine (λ (v : Value U). levels v ≡ 1)) o
          → Kept inside (λ r. (1 < depth) × Fine (λ (v : Value U). levels v ≡ 1) r) o
      deeper inside e small (ok r de) (h, d) = ((omega (arith, e, small), h), d)
      deeper inside e small (err x de) h = tt
      deeper inside e small panicked h = h

  bytes-Fine :
      (buf : Reference)
      → Fine
          (λ (v : Value U). levels v < depth)
          (visit_reference bo utf8 rs (value_visitor refusals) buf)
  unfolding value_visitor levels
  bytes-Fine (borrowed buf) = pos
  bytes-Fine (copied buf) = pos

  text-Fine :
      (buf : List ℕ) (o : Option U)
      → utf8.error buf ≡ o
      → Fine
          (λ (v : Value U). levels v < depth)
          (visit_str_data bo utf8 rs (value_visitor refusals) (borrowed buf))
        × Fine
            (λ (v : Value U). levels v < depth)
            (visit_str_data bo utf8 rs (value_visitor refusals) (copied buf))
  unfolding value_visitor levels
  text-Fine buf none e = rw (Fine, visit_str_data, e) (pos, pos)
  text-Fine buf (some x) e = rw (Fine, visit_str_data, e) (pos, pos)

  str-Fine :
      (buf : Reference)
      → Fine
          (λ (v : Value U). levels v < depth)
          (visit_str_data bo utf8 rs (value_visitor refusals) buf)
  str-Fine (borrowed buf) = (text-Fine buf (utf8.error buf) refl).0
  str-Fine (copied buf) = (text-Fine buf (utf8.error buf) refl).1

  str_total : (len : ℕ) → Ends (read_str_data bo utf8 rs (value_visitor refusals) len)
  unfolding read_str_data read_bin_data
  str_total len =
      Safe->>= _ (Safe-on_rd (Answers-map_err _ (total.slice len)))
        (λ buf h. Safe-visited _ (str-Fine buf))

  bin_total : (len : ℕ) → Ends (any_bin bo utf8 rs (value_visitor refusals) len)
  unfolding any_bin read_bin_data
  bin_total len =
      Safe->>= _ (Safe-on_rd (Answers-map_err _ (total.slice len)))
        (λ buf h. Safe-visited _ (bytes-Fine buf))

  -- The number, or the length, that follows the marker.
  behind :
      {A : Type 0} {m : M R (Error U E) A} (f : A → M (Deserializer R) (Error U E) (Value U))
      → Answers Anything m
      → ((n : A) → Ends (f n))
      → Ends (on_rd m >>= f)
  behind f a h = Safe->>= f (Safe-on_rd a) (λ n g. h n)

  u8_total : Answers {A = ℕ} Anything (read_u8 {U = U} rs)
  unfolding read_u8 io_read
  u8_total = Answers-map_err _ (byte-Answers total.exact)

  u16_total : Answers {A = ℕ} Anything (read_u16 bo {U = U} rs)
  unfolding read_u16
  u16_total = wide-Answers total.exact _ 2 (bo.get_u 2)

  u32_total : Answers {A = ℕ} Anything (read_u32 bo {U = U} rs)
  unfolding read_u32
  u32_total = wide-Answers total.exact _ 4 (bo.get_u 4)

  marked_total : (mk : Marker) → Ends (any_marked bo utf8 rs (value_visitor refusals) inner mk)
  unfolding any_marked value_visitor levels ext_len io_read read_data_u16 read_data_u32
      read_data_u64 read_data_i16 read_data_i32 read_data_i64 read_data_f32 read_data_f64
  marked_total null = Safe-pure _ pos
  marked_total Marker.true = Safe-pure _ pos
  marked_total Marker.false = Safe-pure _ pos
  marked_total (fix_pos val) = Safe-pure _ pos
  marked_total (fix_neg val) = Safe-pure _ pos
  marked_total reserved = Safe-fail _
  marked_total u8 =
      behind _ (Answers-map_err _ (read_data_u8-Answers total.exact)) (λ n. Safe-pure _ pos)
  marked_total u16 =
      behind _ (Answers-map_err _ (wide-Answers total.exact _ 2 (bo.get_u 2)))
        (λ n. Safe-pure _ pos)
  marked_total u32 =
      behind _ (Answers-map_err _ (wide-Answers total.exact _ 4 (bo.get_u 4)))
        (λ n. Safe-pure _ pos)
  marked_total u64 =
      behind _ (Answers-map_err _ (wide-Answers total.exact _ 8 (bo.get_u 8)))
        (λ n. Safe-pure _ pos)
  marked_total i8 =
      behind _ (Answers-map_err _ (read_data_i8-Answers total.exact)) (λ n. Safe-pure _ pos)
  marked_total i16 =
      behind _ (Answers-map_err _ (wide-Answers total.exact _ 2 (bo.get_i 2)))
        (λ n. Safe-pure _ pos)
  marked_total i32 =
      behind _ (Answers-map_err _ (wide-Answers total.exact _ 4 (bo.get_i 4)))
        (λ n. Safe-pure _ pos)
  marked_total i64 =
      behind _ (Answers-map_err _ (wide-Answers total.exact _ 8 (bo.get_i 8)))
        (λ n. Safe-pure _ pos)
  marked_total Marker.f32 =
      behind _ (Answers-map_err _ (wide-Answers total.exact _ 4 (bo.get_u 4)))
        (λ n. Safe-pure _ pos)
  marked_total Marker.f64 =
      behind _ (Answers-map_err _ (wide-Answers total.exact _ 8 (bo.get_u 8)))
        (λ n. Safe-pure _ pos)
  marked_total (fix_str len) = str_total len
  marked_total str8 = behind _ u8_total str_total
  marked_total str16 = behind _ u16_total str_total
  marked_total str32 = behind _ u32_total str_total
  marked_total (fix_array len) = array_total len
  marked_total array16 = behind _ u16_total array_total
  marked_total array32 = behind _ u32_total array_total
  marked_total (fix_map len) = map_total len
  marked_total map16 = behind _ u16_total map_total
  marked_total map32 = behind _ u32_total map_total
  marked_total bin8 = behind _ u8_total bin_total
  marked_total bin16 = behind _ u16_total bin_total
  marked_total bin32 = behind _ u32_total bin_total
  marked_total fix_ext1 = behind _ (Answers-pure 1 tt) any_ext_total
  marked_total fix_ext2 = behind _ (Answers-pure 2 tt) any_ext_total
  marked_total fix_ext4 = behind _ (Answers-pure 4 tt) any_ext_total
  marked_total fix_ext8 = behind _ (Answers-pure 8 tt) any_ext_total
  marked_total fix_ext16 = behind _ (Answers-pure 16 tt) any_ext_total
  marked_total ext8 = behind _ u8_total any_ext_total
  marked_total ext16 = behind _ u16_total any_ext_total
  marked_total ext32 = behind _ u32_total any_ext_total

module _ (bo : ByteOrder) {U R E : Type 0} (utf8 : Utf8 U) {rs : ReadSlice R E} (total : IsTotal rs)
    (refusals : Refusals (Error U E)) where
  fuel_total :
      (fuel depth : ℕ)
      → 0 < depth
      → depth ≤ fuel
      → Safe depth
          (λ (v : Value U). levels v < depth)
          (any_fuel bo utf8 rs (value_visitor refusals) fuel)
  unfolding any_fuel
  fuel_total zero depth pos h = absurd (omega arith)
  fuel_total (suc fuel) depth pos h = Safe->>= _ (take_or_read_marker-Safe total) (λ mk t.
      marked_total bo utf8 total refusals (any_fuel bo utf8 rs (value_visitor refusals) fuel) depth
        pos (λ inside e small. fuel_total fuel inside small (omega (arith, e, h))) mk)

  -- From a reader whose calls do not panic and whose `read_exact` fills its buffer where it
  -- succeeds, whatever there is to read and whether or not a marker is kept, `deserialize_any` into
  -- a `Value` ends with an error or with a value of fewer nested arrays, maps and extensions than
  -- the depth, if the depth is more than 0: it does not panic, and after a value the depth is as it
  -- was.
  pub deserialize_any-Safe :
      (depth : ℕ)
      → 0 < depth
      → Safe depth
          (λ (v : Value U). levels v < depth)
          (deserialize_any bo utf8 rs (value_visitor refusals))
  unfolding deserialize_any
  deserialize_any-Safe depth pos = record {
    run = λ de d. (fuel_total (suc de.depth) depth pos (omega (arith, d))).run de d;
  }

module _ (bo : ByteOrder) {U : Type 0} (utf8 : Utf8 U) where
  -- So does `from_slice` on every input.
  pub from_slice-Kept :
      {E : Type 0} (refusals : Refusals (Error U E)) (eof : E)
      (slice_read_exact : ℕ → M (List ℕ) E (List ℕ))
      → Fills slice_read_exact
      → (input : List ℕ)
      → Kept 1024
          (λ (v : Value U). levels v < 1024)
          (from_slice (deserialize_value bo utf8 (ref_reader eof slice_read_exact) refusals) input)
  unfolding from_slice from_read_ref deserialize_value
  from_slice-Kept refusals eof slice_read_exact fills input =
      (deserialize_any-Safe bo utf8 (ref_reader-IsTotal eof fills) refusals 1024 (omega arith)).run
        _ refl

  -- And `from_read`, from a reader of which no call panics.
  pub from_read-Kept :
      {R E : Type 0} (refusals : Refusals (Error U E)) {std : Read.Read R E}
      → Total.IsTotal std
      → (rd : R)
      → Kept 1024
          (λ (v : Value U). levels v < 1024)
          (from_read (deserialize_value bo utf8 (reader std) refusals) rd)
  unfolding from_read new deserialize_value
  from_read-Kept refusals total rd =
      (deserialize_any-Safe bo utf8 (reader-IsTotal total) refusals 1024 (omega arith)).run _ refl
