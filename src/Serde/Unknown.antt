-- ===== src/Serde/Unknown.antt =====
-- rmp-serde/src/encode.rs: a sequence whose length is not announced.
use mathlib.Core.Path.{fun_ext}
use msgpack_rust.Common.{
  ℕ, suc, ◌+◌, ◌<◌, ◌^◌, ◌%◌, ◌≡◌, refl, sym, subst, none, some, List, [], lt→ltb, arith,
}
use msgpack_rust.Common.Outcome.{Outcome, ok, err, panicked, M, and_then, ◌>>=◌, ◌>>◌, pure}
use msgpack_rust.ByteOrder.{ByteOrder, IsBigEndian}
use msgpack_rust.Encode.{invalid_data_write, io_write}
use msgpack_rust.Encode.Headers.{write_array_len-WritesShortest}
use msgpack_rust.Decode.Str.{Utf8}
use msgpack_rust.Serde.{Items, no_items, item, Error, seq, count_items}
use msgpack_rust.Serde.Config.{Config, default_config}
use msgpack_rust.Serde.Serializer.{
  serialize, serialize_items, serialize_counted, add_elem, vec_write_all, end_seq,
}
use msgpack_rust.Serde.Logic.{
  Sends, Sends-try, Sends->>, Sends-pure, Sends-pure_unit, Sends-vec, Sends-buffered,
  vec_write_all-IsSink,
}
use msgpack_rust.Serde.Meaning.{IsData}
use msgpack_rust.Serde.Written.{serialize_items-Sends}
use msgpack_rust.Serde.Api.{to_vec, write, serialize_into, new}

module _ {W E : Type 0} where
  step :
      (n : ℕ) (f : M W (Error E) ℕ) (g : M W (Error E) (Unit {0}))
      → ((w : W) → f w ≡ and_then (g w) (λ _. pure n))
      → (o : Outcome W (Error E) (Unit {0}))
      → and_then o (λ _. f) ≡ and_then (and_then o (λ _. g)) (λ _. pure n)
  step n f g h (ok a w) = h w
  step n f g h (err e w) = refl
  step n f g h panicked = refl

module _ (bo : ByteOrder) (config : Config) {W E : Type 0}
    (write_all : List ℕ → M W E (Unit {0})) where
  -- Counting the elements changes nothing but the result.
  counted_run :
      (ds : Items) (n : ℕ)
      → n + count_items ds < 2 ^ 32
      → (w : W)
      → serialize_counted bo config ds n W E write_all w
        ≡ (serialize_items bo config ds W E write_all >> pure (n + count_items ds)) w
  unfolding serialize_counted serialize_items add_elem pure ◌>>=◌ ◌>>◌
  counted_run no_items n h w = let same : n + 0 ≡ n = omega arith in rw same refl
  counted_run (item d ds) n h w =
      let same : n + suc (count_items ds) ≡ n + 1 + count_items ds = omega arith in
      rw (lt→ltb (n + 1) (2 ^ 32) (omega arith), same)
        (step (n + 1 + count_items ds) (serialize_counted bo config ds (n + 1) W E write_all)
          (serialize_items bo config ds W E write_all) (counted_run ds (n + 1) (omega arith))
          (serialize bo config d W E write_all w))

module _ {bo : ByteOrder} (big : IsBigEndian bo) {U : Type 0} (utf8 : Utf8 U) where
  -- For fewer than 2^32 elements, each of an implementation none of whose calls fails by itself,
  -- whose numbers are within their types and whose strings are UTF-8, whose lengths and counts are
  -- below 2^32 and are the number of parts where they are announced, and which passes a pair of an
  -- i8 and bytes, as a tuple, and nothing else, under the name `_ExtStruct` (where the length of a
  -- map is not announced, its keys and its values are counted together): `to_vec` of a sequence of
  -- them gives the same whether its length is announced or counted on the way.
  pub to_vec-unknown_length :
      (ds : Items)
      → IsData utf8 default_config (seq none ds)
      → to_vec bo (seq none ds) ≡ to_vec bo (seq (some (count_items ds)) ds)
  unfolding to_vec write serialize_into new serialize end_seq io_write
  to_vec-unknown_length ds (few, all) =
      let (bs, parts, sends) =
        serialize_items-Sends big utf8 default_config ds all vec_write_all vec_write_all-IsSink in
      let (mk, form, short, header) =
        write_array_len-WritesShortest big vec_write_all-IsSink (count_items ds) few in
      let whole : count_items ds % 2 ^ 32 ≡ count_items ds = omega arith in
      let total : 0 + count_items ds ≡ count_items ds = omega arith in
      let run = fun_ext (counted_run bo default_config vec_write_all ds 0 (omega arith)) in
      let counts =
        subst
          (λ n.
            Sends (λ buf. buf) (serialize_counted bo default_config ds 0 (List ℕ) ⊥ vec_write_all)
              bs n)
          total
          (subst (λ m. Sends (λ buf. buf) m bs (0 + count_items ds)) (sym run)
            (Sends-pure_unit sends)) in
      let length_sent = Sends-pure {b = tt} (Sends-try (λ e. e) header) in
      let last =
        Sends->> length_sent
          (Sends-try {E = ⊥} invalid_data_write (vec_write_all-IsSink.bytes bs)) in
      let unknown = Sends-buffered (end_seq bo vec_write_all) counts last in
      let known = Sends->> length_sent sends in
      rw (Sends-vec unknown [], whole, Sends-vec known []) refl
