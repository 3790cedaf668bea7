-- ===== src/Examples/Serde.antt =====
-- The theorems on rmp-serde at concrete inputs.
use msgpack_rust.Common.{ℕ, ◌≤◌, ◌≡◌, refl, none, some, List, [], ◌∷◌, arith}
use msgpack_rust.Common.Int.{pos, negsuc}
use msgpack_rust.Common.Outcome.{ok, err}
use msgpack_rust.Encode.Buffer.{FixedBuf, fixed_write_bytes}
use msgpack_rust.Decode.Logic.{Decodes}
use msgpack_rust.Value.Encoding.{Encoding, need}
use msgpack_rust.Value.Read.{read_value_with_max_depth}
use msgpack_rust.Value.Lookup.{same_bytes}
use msgpack_rust.Serde.{
  Data, Items, no_items, item, field, no_fields, entry, no_entries, Error, i8, u16, bytes, str,
  unit, seq, tuple, map, struct, newtype_struct, unit_variant,
}
use msgpack_rust.Serde.Config.{
  Config, default_config, struct_map, human_readable, binary, is_human_readable,
}
use msgpack_rust.Serde.Serializer.{serialize, serialize_ext_struct, msgpack_ext_struct_name}
use msgpack_rust.Serde.Logic.{Sends}
use msgpack_rust.Serde.Meaning.{IsData, ext_pair, value_of}
use msgpack_rust.Serde.Written.{serialize-Sends}
use msgpack_rust.Serde.Extension.{
  ext_items, write_exts, serialize_ext_struct-ext_items, serialize_ext_struct-is_tuple,
}
use msgpack_rust.Serde.Api.{to_vec, to_vec_named}
use msgpack_rust.Serde.Bytes.{to_vec-read_value, to_vec_named-read_value}
use msgpack_rust.Serde.Configs.{serialize-names_fields}
use msgpack_rust.Serde.Unknown.{to_vec-unknown_length}
use msgpack_rust.Examples.{
  big_endian, big_endian-IsBigEndian, ascii, slice_read, slice_read-IsStd, slice_write-IsSink,
}

abbrev sent : FixedBuf → List ℕ
sent buf = buf.filled

-- A sequence of a number and a variant without data, whose length is not announced.
abbrev list : Items
list = item (u16 300) (item (unit_variant (69 ∷ []) 1 (65 ∷ [])) no_items)

-- A struct of an extension, that sequence, and a map from a string to a unit.
abbrev sample : Data
sample = struct (80 ∷ []) 3 (
    field (97 ∷ [])
      (newtype_struct msgpack_ext_struct_name
        (tuple 2 (item (i8 (negsuc 4)) (item (bytes (255 ∷ [])) no_items))))
      (field (98 ∷ []) (seq none list)
        (field (99 ∷ []) (map none (entry (str (104 ∷ [])) unit no_entries)) no_fields)))

sample-IsData : (config : Config) → IsData ascii config sample
unfolding same_bytes
sample-IsData config = (
  refl,
  omega arith,
  (
    (refl, omega arith),
    ext_pair (omega arith) (omega arith),
    (
      (refl, omega arith),
      (omega arith, (omega arith, ((refl, omega arith), tt))),
      ((refl, omega arith), (omega arith, ((refl, omega arith), tt, tt)), tt),
    ),
  ),
)

need-sample : need (value_of {U = Unit {0}} default_config sample) ≤ 7
unfolding need same_bytes
need-sample = omega arith

need-named : need (value_of {U = Unit {0}} (struct_map default_config) sample) ≤ 7
unfolding need same_bytes
need-named = omega arith

serialize_example :
    (bs : List ℕ) × Encoding ascii (value_of (human_readable default_config) sample) bs
    × Sends sent
        (serialize big_endian (human_readable default_config) sample FixedBuf _ fixed_write_bytes)
        bs
        tt
serialize_example =
    serialize-Sends big_endian-IsBigEndian ascii (human_readable default_config) sample
      (sample-IsData (human_readable default_config)) fixed_write_bytes slice_write-IsSink

to_vec_read_value_example :
    (bs : List ℕ) × (to_vec big_endian sample ≡ ok bs tt)
    × Decodes
        (λ s. s)
        (read_value_with_max_depth big_endian ascii slice_read 7)
        bs
        (value_of default_config sample)
to_vec_read_value_example =
    to_vec-read_value big_endian-IsBigEndian ascii slice_read-IsStd sample 7
      (sample-IsData default_config) need-sample

to_vec_named_read_value_example :
    (bs : List ℕ) × (to_vec_named big_endian sample ≡ ok bs tt)
    × Decodes
        (λ s. s)
        (read_value_with_max_depth big_endian ascii slice_read 7)
        bs
        (value_of (struct_map default_config) sample)
to_vec_named_read_value_example =
    to_vec_named-read_value big_endian-IsBigEndian ascii slice_read-IsStd sample 7
      (sample-IsData (struct_map default_config)) need-named

not_readable :
    is_human_readable (binary (human_readable default_config)) ≡ is_human_readable default_config
unfolding is_human_readable
not_readable = refl

serialize-names_fields_example :
    serialize big_endian
      (binary (human_readable default_config))
      sample
      FixedBuf
      _
      fixed_write_bytes
    ≡ serialize big_endian default_config sample FixedBuf _ fixed_write_bytes
serialize-names_fields_example =
    serialize-names_fields big_endian (binary (human_readable default_config)) default_config refl
      not_readable sample fixed_write_bytes

to_vec-unknown_length_example :
    to_vec big_endian (seq none list) ≡ to_vec big_endian (seq (some 2) list)
to_vec-unknown_length_example =
    to_vec-unknown_length big_endian-IsBigEndian ascii list
      (omega arith, (omega arith, ((refl, omega arith), tt)))

abbrev room : FixedBuf
room = record { filled = []; remaining = 8 }

serialize_ext_struct-ext_items_example :
    serialize_ext_struct big_endian fixed_write_bytes
      (tuple 4 (ext_items ((pos 3, 1 ∷ []) ∷ ((pos 4, 2 ∷ []) ∷ []))))
      room
    ≡ write_exts big_endian fixed_write_bytes ((pos 3, 1 ∷ []) ∷ ((pos 4, 2 ∷ []) ∷ [])) room
serialize_ext_struct-ext_items_example =
    serialize_ext_struct-ext_items big_endian fixed_write_bytes 4 (pos 3) (1 ∷ [])
      ((pos 4, 2 ∷ []) ∷ []) room

serialize_ext_struct-is_tuple_example :
    (e : Error _) × (serialize_ext_struct big_endian fixed_write_bytes unit room ≡ err e room)
serialize_ext_struct-is_tuple_example =
    serialize_ext_struct-is_tuple big_endian fixed_write_bytes unit room refl
