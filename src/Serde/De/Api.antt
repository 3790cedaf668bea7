-- ===== src/Serde/De/Api.antt =====
-- rmp-serde/src/decode.rs and rmpv/src/ext/de.rs: `from_slice` and `from_read` into a `Value`.
use msgpack_rust.Common.{ℕ, ◌<◌, ◌≡◌, refl, ap, subst, none, List, ◌++◌}
use msgpack_rust.Common.Outcome.{Outcome, M}
use msgpack_rust.ByteOrder.{ByteOrder, IsBigEndian}
use msgpack_rust.Encode.{io_write}
use msgpack_rust.Encode.Logic.{Writes, IsSink}
use msgpack_rust.Decode.{io_read}
use msgpack_rust.Decode.Str.{Utf8}
use msgpack_rust.Decode.Logic.{IsSource}
use msgpack_rust.Value.{
  Value, Values, Pairs, text, raw, nil, boolean, integer, f32, f64, string, binary, array, map, ext,
  no_values, value, no_pairs, pair,
}
use msgpack_rust.Value.Encoding.{Encoding, NoReserved}
use msgpack_rust.Value.Stored.{IsValue, settle, settle_values, settle_pairs, settle_string}
use msgpack_rust.Value.Write.{write_value}
use msgpack_rust.Value.Written.{write_value-Writes}
use msgpack_rust.Value.Read
use msgpack_rust.Value.Marked.{IsStd}
use msgpack_rust.Serde.Config.{default_config}
use msgpack_rust.Serde.De.{Error, ReadSlice, ReadRefReader, Deserializer, new_ref}
use msgpack_rust.Serde.De.Any.{deserialize_any}
use msgpack_rust.Serde.De.Visitor.{Refusals, value_visitor}
use msgpack_rust.Serde.De.Logic.{Back}
use msgpack_rust.Serde.De.Read.{levels, deserialize_any-Takes}
use msgpack_rust.Serde.De.Readers.{
  ReadReader, new_reader, reader, ref_reader, reader-IsSlice, ref_reader-IsSlice,
}

-- `Deserializer::new` and `Deserializer::from_read_ref`.
unfoldable pub new : {R : Type 0} → R → Deserializer (ReadReader R)
unfolding new_reader
new rd = record { rd = new_reader rd; config = default_config; marker = none; depth = 1024 }

unfoldable pub from_read_ref : List ℕ → Deserializer ReadRefReader
unfolding new_ref
from_read_ref rd = record { rd = new_ref rd; config = default_config; marker = none; depth = 1024 }

module _ {R X A : Type 0} where
  -- `deserialize` is the `Deserialize` implementation of the result's type.
  unfoldable pub from_read :
      M (Deserializer (ReadReader R)) X A → R → Outcome (Deserializer (ReadReader R)) X A
  unfolding new
  from_read deserialize rd = deserialize (new rd)

module _ {X A : Type 0} where
  unfoldable pub from_slice :
      M (Deserializer ReadRefReader) X A → List ℕ → Outcome (Deserializer ReadRefReader) X A
  unfolding from_read_ref
  from_slice deserialize input = deserialize (from_read_ref input)

module _ (bo : ByteOrder) {U R E : Type 0} (utf8 : Utf8 U) (rs : ReadSlice R E)
    (refusals : Refusals (Error U E)) where
  -- `impl Deserialize for Value`
  unfoldable pub deserialize_value : M (Deserializer R) (Error U E) (Value U)
  unfolding deserialize_any value_visitor
  deserialize_value = deserialize_any bo utf8 rs (value_visitor refusals)

module _ {bo : ByteOrder} (big : IsBigEndian bo) {U E : Type 0} (utf8 : Utf8 U)
    (refusals : Refusals (Error U E)) where
  -- `from_slice` into a `Value` takes exactly any encoding of a value, in any form that the format
  -- allows, in which nil is nowhere the reserved marker, and gives that value with the strings that
  -- are not UTF-8 turned into byte arrays, where less than 1024 arrays, maps and extensions are
  -- nested and the standard library's `read_exact` on a slice hands over what is there; what
  -- follows is left, no marker is kept and the depth is 1024 again.
  pub from_slice-Encoding :
      (eof : E) (slice_read_exact : ℕ → M (List ℕ) E (List ℕ))
      → IsSource (io_read slice_read_exact) (λ s. s)
      → (v : Value U) (bs rest : List ℕ) (e : Encoding utf8 v bs) → NoReserved utf8 v bs e
      → levels v < 1024
      → Back
          (λ rd. rd.buf)
          1024
          rest
          (settle v)
          (from_slice
            (deserialize_value bo utf8 (ref_reader eof slice_read_exact) refusals)
            (bs ++ rest))
  unfolding from_slice deserialize_value from_read_ref new_ref
  from_slice-Encoding eof slice_read_exact std v bs rest e plain few =
      (deserialize_any-Takes big utf8 refusals (ref_reader-IsSlice eof slice_read_exact std) v bs e
          plain).run
        _ rest refl refl few

  -- On a `std::io::Read` that hands over what is there, `from_read` into a `Value` takes exactly an
  -- encoding of a value in which nil is nowhere the reserved marker, and gives that value with the
  -- strings that are not UTF-8 turned into byte arrays, where less than 1024 arrays, maps and
  -- extensions are nested; what follows is left, no marker is kept and the depth is 1024 again.
  pub from_read-Encoding :
      {R : Type 0} {std : Read.Read R E} {left : R → List ℕ}
      → IsStd std left
      → (v : Value U) (bs rest : List ℕ) (e : Encoding utf8 v bs) (rd : R) → NoReserved utf8 v bs e
      → levels v < 1024
      → left rd ≡ bs ++ rest
      → Back
          (λ (r : ReadReader R). left r.rd)
          1024
          rest
          (settle v)
          (from_read (deserialize_value bo utf8 (reader std) refusals) rd)
  unfolding from_read deserialize_value new new_reader
  from_read-Encoding promise v bs rest e rd plain few same =
      (deserialize_any-Takes big utf8 refusals (reader-IsSlice promise) v bs e plain).run _ rest
        same refl few

mutual
  unfolding settle settle_values settle_pairs settle_string

  settled : {U : Type 0} (v : Value U) → settle (settle v) ≡ settle v
  settled nil = refl
  settled (boolean b) = refl
  settled (integer i) = refl
  settled (f32 bits) = refl
  settled (f64 bits) = refl
  settled (string (text t)) = refl
  settled (string (raw t e)) = refl
  settled (binary b) = refl
  settled (array vs) = ap array (settled_values vs)
  settled (map ps) = ap map (settled_pairs ps)
  settled (ext ty b) = refl

  settled_values :
      {U : Type 0} (vs : Values U) → settle_values (settle_values vs) ≡ settle_values vs
  settled_values no_values = refl
  settled_values (value v vs) = λ i. value (settled v i) (settled_values vs i)

  settled_pairs : {U : Type 0} (ps : Pairs U) → settle_pairs (settle_pairs ps) ≡ settle_pairs ps
  settled_pairs no_pairs = refl
  settled_pairs (pair k v ps) = λ i. pair (settled k i) (settled v i) (settled_pairs ps i)

module _ {bo : ByteOrder} (big : IsBigEndian bo) {U E F W : Type 0} (utf8 : Utf8 U)
    (refusals : Refusals (Error U E)) (eof : E) (slice_read_exact : ℕ → M (List ℕ) E (List ℕ))
    (std : IsSource (io_read slice_read_exact) (λ s. s)) (write_all : List ℕ → M W F (Unit {0}))
    {sent : W → List ℕ} (sink : IsSink (io_write write_all) sent) where
  -- rmp-serde's `from_slice` into a `Value` takes exactly the bytes that rmpv's `write_value` wrote
  -- and gives the value back, with the strings that are not UTF-8 turned into byte arrays, where
  -- the lengths fit in 32 bits, less than 1024 arrays, maps and extensions are nested, the writer
  -- takes what is written to it and the standard library's `read_exact` on a slice hands over what
  -- is there; what follows is left, no marker is kept and the depth is 1024 again.
  pub write_value-from_slice :
      (v : Value U) (rest : List ℕ)
      → IsValue utf8 v
      → levels (settle v) < 1024
      → (bs : List ℕ) × Writes sent (write_value bo write_all v) bs tt
        × Back
            (λ rd. rd.buf)
            1024
            rest
            (settle v)
            (from_slice
              (deserialize_value bo utf8 (ref_reader eof slice_read_exact) refusals)
              (bs ++ rest))
  write_value-from_slice v rest h few =
      let (bs, e, plain, writes) = write_value-Writes big utf8 write_all sink v h in
      let back =
        from_slice-Encoding big utf8 refusals eof slice_read_exact std (settle v) bs rest e plain
          few in
      (
        bs,
        writes,
        subst
            (λ w.
              Back (λ rd. rd.buf) 1024 rest w
                (from_slice (deserialize_value bo utf8 (ref_reader eof slice_read_exact) refusals)
                  (bs ++ rest)))
            (settled v) back,
      )
