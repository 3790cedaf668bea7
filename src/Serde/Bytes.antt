-- ===== src/Serde/Bytes.antt =====
-- rmp-serde/src/encode.rs: `to_vec` and `to_vec_named`.
use msgpack_rust.Common.{ℕ, ◌≤◌, ◌≡◌, refl, List, []}
use msgpack_rust.Common.Outcome.{ok}
use msgpack_rust.ByteOrder.{ByteOrder, IsBigEndian}
use msgpack_rust.Decode.Str.{Utf8}
use msgpack_rust.Decode.Logic.{Decodes}
use msgpack_rust.Value.Encoding.{Encoding, need}
use msgpack_rust.Value.Read.{Read, read_value_with_max_depth}
use msgpack_rust.Value.Marked.{IsStd}
use msgpack_rust.Value.RoundTrip.{read_value_with_max_depth-Decodes}
use msgpack_rust.Serde.{Data}
use msgpack_rust.Serde.Config.{default_config, struct_map}
use msgpack_rust.Serde.Serializer.{vec_write_all}
use msgpack_rust.Serde.Logic.{Sends-vec, vec_write_all-IsSink}
use msgpack_rust.Serde.Meaning.{IsData, value_of}
use msgpack_rust.Serde.Written.{serialize-Sends}
use msgpack_rust.Serde.Api.{
  to_vec, to_vec_named, write, write_named, serialize_into, new, with_struct_map,
}

module _ {bo : ByteOrder} (big : IsBigEndian bo) {U : Type 0} (utf8 : Utf8 U) where
  -- What `to_vec` gives is an encoding of the value.
  pub to_vec-Encoding :
      (d : Data)
      → IsData utf8 default_config d
      → (bs : List ℕ) × Encoding utf8 (value_of default_config d) bs × (to_vec bo d ≡ ok bs tt)
  unfolding to_vec write serialize_into new
  to_vec-Encoding d h =
      let (bs, encoded, sends) =
        serialize-Sends big utf8 default_config d h vec_write_all vec_write_all-IsSink in
      (bs, encoded, rw (Sends-vec sends []) refl)

  -- The same of `to_vec_named`.
  pub to_vec_named-Encoding :
      (d : Data)
      → IsData utf8 (struct_map default_config) d
      → (bs : List ℕ) × Encoding utf8 (value_of (struct_map default_config) d) bs
        × (to_vec_named bo d ≡ ok bs tt)
  unfolding to_vec_named write_named serialize_into new with_struct_map
  to_vec_named-Encoding d h =
      let (bs, encoded, sends) =
        serialize-Sends big utf8 (struct_map default_config) d h vec_write_all
          vec_write_all-IsSink in
      (bs, encoded, rw (Sends-vec sends []) refl)

module _ {bo : ByteOrder} (big : IsBigEndian bo) {U : Type 0} (utf8 : Utf8 U) {R E : Type 0}
    {rd : Read R E} {left : R → List ℕ} (std : IsStd rd left) where
  -- For a `Serialize` implementation none of whose calls fails by itself, whose numbers are within
  -- their types and whose strings are UTF-8, whose lengths and counts are below 2^32 and are the
  -- number of parts where they are announced, and which passes a pair of an i8 and bytes, as a
  -- tuple, and nothing else, under the name `_ExtStruct` (where the length of a map is not
  -- announced, its keys and its values are counted together): `to_vec` succeeds, and rmpv's
  -- `read_value_with_max_depth` takes exactly its bytes and gives the value that the implementation
  -- stands for, with structs as arrays, where the depth of that value is within the limit and the
  -- reader hands over what is there.
  pub to_vec-read_value :
      (d : Data) (limit : ℕ)
      → IsData utf8 default_config d
      → need (value_of {U = U} default_config d) ≤ limit
      → (bs : List ℕ) × (to_vec bo d ≡ ok bs tt)
        × Decodes left (read_value_with_max_depth bo utf8 rd limit) bs (value_of default_config d)
  to_vec-read_value d limit h deep =
      let (bs, encoded, same) = to_vec-Encoding big utf8 d h in
      (bs, same, read_value_with_max_depth-Decodes big utf8 std _ bs limit encoded deep)

  -- For a `Serialize` implementation none of whose calls fails by itself, whose numbers are within
  -- their types and whose strings are UTF-8, whose lengths and counts are below 2^32 and are the
  -- number of parts where they are announced, and which passes a pair of an i8 and bytes, as a
  -- tuple, and nothing else, under the name `_ExtStruct` (where the length of a map is not
  -- announced, its keys and its values are counted together): `to_vec_named` succeeds, and rmpv's
  -- `read_value_with_max_depth` takes exactly its bytes and gives the value that the implementation
  -- stands for, with structs as maps from their fields' names, where the depth of that value is
  -- within the limit and the reader hands over what is there.
  pub to_vec_named-read_value :
      (d : Data) (limit : ℕ)
      → IsData utf8 (struct_map default_config) d
      → need (value_of {U = U} (struct_map default_config) d) ≤ limit
      → (bs : List ℕ) × (to_vec_named bo d ≡ ok bs tt)
        × Decodes left
            (read_value_with_max_depth bo utf8 rd limit)
            bs
            (value_of (struct_map default_config) d)
  to_vec_named-read_value d limit h deep =
      let (bs, encoded, same) = to_vec_named-Encoding big utf8 d h in
      (bs, same, read_value_with_max_depth-Decodes big utf8 std _ bs limit encoded deep)
