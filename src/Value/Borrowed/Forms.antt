-- ===== src/Value/Borrowed/Forms.antt =====
-- rmpv/src/decode/value_ref.rs: `read_value_ref` beside `read_value`.
use msgpack_rust.Common.{ℕ, zero, suc, refl}
use msgpack_rust.Common.Outcome.{M, ◌>>=◌, pure}
use msgpack_rust.ByteOrder.{ByteOrder}
use msgpack_rust.Marker.{
  Marker, fix_pos, fix_neg, null, u8, u16, u32, u64, i8, i16, i32, i64, fix_str, str8, str16, str32,
  bin8, bin16, bin32, fix_array, array16, array32, fix_map, map16, map32, fix_ext1, fix_ext2,
  fix_ext4, fix_ext8, fix_ext16, ext8, ext16, ext32, reserved,
}
use msgpack_rust.Decode.Str.{Utf8}
use msgpack_rust.Value.{Value}
use msgpack_rust.Value.Read
use msgpack_rust.Value.Read.{Error, decrement_depth}
use msgpack_rust.Value.Borrowed.{
  ValueRef, string, binary, array, map, ext, to_owned, values_to_owned, pairs_to_owned,
}
use msgpack_rust.Value.Borrowed.Reader
use msgpack_rust.Value.Borrowed.Reader.{BorrowRead}
use msgpack_rust.Value.Borrowed.Same.{Same, Same->>=, Same-after, Same-pure, Same-panic}
use msgpack_rust.Value.Borrowed.Sources.{IsBorrowRead, bin-Same, str-Same, ext-Same}

module _ (bo : ByteOrder) {U : Type 0} (utf8 : Utf8 U) {R E : Type 0} (br : BorrowRead R E) where
  values-Same :
      (m : M R (Error E) (Value U)) (k : M R (Error E) (ValueRef U)) (n : ℕ)
      → Same to_owned m k
      → Same values_to_owned
          (Read.read_values bo utf8 br.read m n)
          (Reader.read_values bo utf8 br k n)
  unfolding Read.read_values Reader.read_values values_to_owned
  values-Same m k zero h = Same-pure values_to_owned _ _ refl
  values-Same m k (suc n) h =
      Same->>= _ _ h
        (λ v. Same->>= _ _ (values-Same m k n h) (λ vs. Same-pure values_to_owned _ _ refl))

  pairs-Same :
      (m : M R (Error E) (Value U)) (k : M R (Error E) (ValueRef U)) (n : ℕ)
      → Same to_owned m k
      → Same pairs_to_owned (Read.read_pairs bo utf8 br.read m n) (Reader.read_pairs bo utf8 br k n)
  unfolding Read.read_pairs Reader.read_pairs pairs_to_owned
  pairs-Same m k zero h = Same-pure pairs_to_owned _ _ refl
  pairs-Same m k (suc n) h = Same->>= _ _ h (λ key.
      Same->>= _ _ h
        (λ v. Same->>= _ _ (pairs-Same m k n h) (λ ps. Same-pure pairs_to_owned _ _ refl)))

module _ (bo : ByteOrder) {U : Type 0} (utf8 : Utf8 U) {R E : Type 0} {br : BorrowRead R E}
    (borrow : IsBorrowRead br) (inner : ℕ → M R (Error E) (Value U))
    (inner_ref : ℕ → M R (Error E) (ValueRef U))
    (same : (d : ℕ) → Same to_owned (inner d) (inner_ref d)) (depth : ℕ) where
  string_after :
      (len : ℕ)
      → Same
          (to_owned {U = U})
          (do res ← Read.read_str_data bo utf8 br.read len depth; pure (Value.string res))
          (do res ← Reader.read_str_data bo utf8 br len depth; pure (string res))
  unfolding to_owned
  string_after len =
      Same->>= _ _ (str-Same bo utf8 borrow len depth) (λ s. Same-pure (to_owned {U = U}) _ _ refl)

  binary_after :
      (len : ℕ)
      → Same
          (to_owned {U = U})
          (do vec ← Read.read_bin_data bo utf8 br.read len depth; pure (Value.binary vec))
          (do vec ← Reader.read_bin_data bo utf8 br len depth; pure (binary vec))
  unfolding to_owned
  binary_after len =
      Same->>= _ _ (bin-Same bo utf8 borrow len depth) (λ s. Same-pure (to_owned {U = U}) _ _ refl)

  ext_after :
      (len : ℕ)
      → Same
          (to_owned {U = U})
          (do body ← Read.read_ext_body bo utf8 br.read len depth; pure (Value.ext body.0 body.1))
          (do body ← Reader.read_ext_body bo utf8 br len depth; pure (ext body.0 body.1))
  unfolding to_owned
  ext_after len =
      Same->>= _ _ (ext-Same bo utf8 borrow len depth) (λ s. Same-pure (to_owned {U = U}) _ _ refl)

  array_after :
      (len : ℕ)
      → Same
          (to_owned {U = U})
          (do vec ← Read.read_array_data bo utf8 br.read inner len depth; pure (Value.array vec))
          (do vec ← Reader.read_array_data bo utf8 br inner_ref len depth; pure (array vec))
  unfolding to_owned Read.read_array_data Reader.read_array_data
  array_after len =
      Same->>= _ _
        (Same-after _ _ _ (λ d. values-Same bo utf8 br (inner d) (inner_ref d) len (same d)))
        (λ s. Same-pure (to_owned {U = U}) _ _ refl)

  map_after :
      (len : ℕ)
      → Same
          (to_owned {U = U})
          (do ps ← Read.read_map_data bo utf8 br.read inner len depth; pure (Value.map ps))
          (do ps ← Reader.read_map_data bo utf8 br inner_ref len depth; pure (map ps))
  unfolding to_owned Read.read_map_data Reader.read_map_data
  map_after len =
      Same->>= _ _
        (Same-after _ _ _ (λ d. pairs-Same bo utf8 br (inner d) (inner_ref d) len (same d)))
        (λ s. Same-pure (to_owned {U = U}) _ _ refl)

  pub marked-Same :
      (mk : Marker)
      → Same
          (to_owned {U = U})
          (Read.read_marked bo utf8 br.read inner depth mk)
          (Reader.read_marked bo utf8 br inner_ref depth mk)
  unfolding to_owned Read.read_marked Reader.read_marked
  marked-Same null = Same-pure (to_owned {U = U}) _ _ refl
  marked-Same Marker.true = Same-pure (to_owned {U = U}) _ _ refl
  marked-Same Marker.false = Same-pure (to_owned {U = U}) _ _ refl
  marked-Same (fix_pos val) = Same-pure (to_owned {U = U}) _ _ refl
  marked-Same (fix_neg val) = Same-pure (to_owned {U = U}) _ _ refl
  marked-Same reserved = Same-pure (to_owned {U = U}) _ _ refl
  marked-Same u8 = Same-after _ _ _ (λ n. Same-pure (to_owned {U = U}) _ _ refl)
  marked-Same u16 = Same-after _ _ _ (λ n. Same-pure (to_owned {U = U}) _ _ refl)
  marked-Same u32 = Same-after _ _ _ (λ n. Same-pure (to_owned {U = U}) _ _ refl)
  marked-Same u64 = Same-after _ _ _ (λ n. Same-pure (to_owned {U = U}) _ _ refl)
  marked-Same i8 = Same-after _ _ _ (λ n. Same-pure (to_owned {U = U}) _ _ refl)
  marked-Same i16 = Same-after _ _ _ (λ n. Same-pure (to_owned {U = U}) _ _ refl)
  marked-Same i32 = Same-after _ _ _ (λ n. Same-pure (to_owned {U = U}) _ _ refl)
  marked-Same i64 = Same-after _ _ _ (λ n. Same-pure (to_owned {U = U}) _ _ refl)
  marked-Same Marker.f32 = Same-after _ _ _ (λ n. Same-pure (to_owned {U = U}) _ _ refl)
  marked-Same Marker.f64 = Same-after _ _ _ (λ n. Same-pure (to_owned {U = U}) _ _ refl)
  marked-Same (fix_str len) = string_after len
  marked-Same str8 = Same-after _ _ _ string_after
  marked-Same str16 = Same-after _ _ _ string_after
  marked-Same str32 = Same-after _ _ _ string_after
  marked-Same bin8 = Same-after _ _ _ binary_after
  marked-Same bin16 = Same-after _ _ _ binary_after
  marked-Same bin32 = Same-after _ _ _ binary_after
  marked-Same (fix_array len) = array_after len
  marked-Same array16 = Same-after _ _ _ array_after
  marked-Same array32 = Same-after _ _ _ array_after
  marked-Same (fix_map len) = map_after len
  marked-Same map16 = Same-after _ _ _ map_after
  marked-Same map32 = Same-after _ _ _ map_after
  marked-Same fix_ext1 = ext_after 1
  marked-Same fix_ext2 = ext_after 2
  marked-Same fix_ext4 = ext_after 4
  marked-Same fix_ext8 = ext_after 8
  marked-Same fix_ext16 = ext_after 16
  marked-Same ext8 = Same-after _ _ _ ext_after
  marked-Same ext16 = Same-after _ _ _ ext_after
  marked-Same ext32 = Same-after _ _ _ ext_after

module _ (bo : ByteOrder) {U : Type 0} (utf8 : Utf8 U) {R E : Type 0} {br : BorrowRead R E}
    (borrow : IsBorrowRead br) where
  fuel-Same :
      (fuel depth : ℕ)
      → Same
          (to_owned {U = U})
          (Read.read_value_fuel bo utf8 br.read fuel depth)
          (Reader.read_value_ref_fuel bo utf8 br fuel depth)
  unfolding Read.read_value_fuel Reader.read_value_ref_fuel
  fuel-Same zero depth = Same-panic (to_owned {U = U})
  fuel-Same (suc fuel) depth = Same-after (decrement_depth depth) _ _ (λ d. Same-after _ _ _ (
      marked-Same bo utf8 borrow (Read.read_value_fuel bo utf8 br.read fuel)
        (Reader.read_value_ref_fuel bo utf8 br fuel) (fuel-Same fuel) d))

  -- On a reader whose buffer is what is left to read, `read_value_ref_with_max_depth` and
  -- `read_value_with_max_depth` give the same result under the same limit: the value, once copied,
  -- with the reader in the same state; or the same error; or both panic.
  pub read_value_ref-read_value :
      (limit : ℕ)
      → Same
          (to_owned {U = U})
          (Read.read_value_with_max_depth bo utf8 br.read limit)
          (Reader.read_value_ref_with_max_depth bo utf8 br limit)
  unfolding Read.read_value_with_max_depth Reader.read_value_ref_with_max_depth
      Read.read_value_inner Reader.read_value_ref_inner
  read_value_ref-read_value limit = fuel-Same (suc limit) limit
