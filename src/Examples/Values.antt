-- ===== src/Examples/Values.antt =====
-- The theorems on values at concrete inputs.
use msgpack_rust.Common.{ℕ, ◌≤◌, ◌≡◌, refl, inl, inr, true, List, [], ◌∷◌, ◌++◌, arith}
use msgpack_rust.Common.Int.{negsuc}
use msgpack_rust.Marker.{array16, reserved, to_u8}
use msgpack_rust.Format.{header}
use msgpack_rust.Encode.Logic.{Writes}
use msgpack_rust.Encode.Buffer.{FixedBuf, fixed_write_bytes}
use msgpack_rust.Decode.Logic.{Decodes}
use msgpack_rust.Value.{
  Value, Pairs, boolean, text, raw, nil, integer, string, array, map, no_values, value, no_pairs,
  pair, neg_int,
}
use msgpack_rust.Value.Encoding.{NoReserved, Encoding, need}
use msgpack_rust.Value.Stored.{IsValue, settle}
use msgpack_rust.Value.Write.{write_value}
use msgpack_rust.Value.Read.{read_value_with_max_depth, depth_limit_exceeded}
use msgpack_rust.Value.Rejects.{Rejects}
use msgpack_rust.Value.RoundTrip.{read_value_with_max_depth-Decodes}
use msgpack_rust.Value.Deep.{read_value_with_max_depth-Rejects}
use msgpack_rust.Value.Written.{write_value-Writes}
use msgpack_rust.Value.Storage.{write_value-read_value}
use msgpack_rust.Value.Ints.{from_signed}
use msgpack_rust.Value.Casts.{try_i64, try_u64, try-from_signed}
use msgpack_rust.Decode.Answers.{Answers}
use msgpack_rust.Value.Total.{read_value_with_max_depth-Answers}
use msgpack_rust.Value.Lookup.{UnderKey, index_str, index_str-Indexed}
use msgpack_rust.Value.Borrowed.{as_ref, to_owned, to_owned-as_ref}
use msgpack_rust.Examples.{
  num_cast, num_cast-IsNumCast, big_endian, big_endian-IsBigEndian, ascii, slice_read,
  slice_read-IsStd, slice_read-IsTotal, slice_write-IsSink,
}

abbrev sent : FixedBuf → List ℕ
sent buf = buf.filled

-- A map from a string that is not UTF-8 to a list of a negative number.
abbrev sample : Value (Unit {0})
sample = map (
    pair (string (raw (255 ∷ []) tt))
      (array (value (integer (record { n = neg_int (negsuc 4) })) no_values)) no_pairs)

sample-IsValue : IsValue ascii sample
sample-IsValue = (omega arith, (omega arith, (omega arith, (omega arith, tt)), tt))

write_value_example :
    (bs : List ℕ) × (e : Encoding ascii (settle sample) bs) × NoReserved ascii (settle sample) bs e
    × Writes sent (write_value big_endian fixed_write_bytes sample) bs tt
write_value_example =
    write_value-Writes big_endian-IsBigEndian ascii fixed_write_bytes slice_write-IsSink sample
      sample-IsValue

sample-need : need (settle sample) ≤ 5
unfolding need settle
sample-need = omega arith

write_value_read_value_example :
    (bs : List ℕ) × Writes sent (write_value big_endian fixed_write_bytes sample) bs tt
    × Decodes (λ s. s) (read_value_with_max_depth big_endian ascii slice_read 5) bs (settle sample)
write_value_read_value_example =
    write_value-read_value big_endian-IsBigEndian ascii fixed_write_bytes slice_write-IsSink
      slice_read-IsStd sample 5 sample-IsValue sample-need

-- An array of one null, under a header that is longer than it must be.
abbrev nested : Value (Unit {0})
nested = array (value nil no_values)

abbrev nested_bytes : List ℕ
nested_bytes = header array16 1 ++ (to_u8 reserved ∷ [])

nested-Encoding : Encoding ascii nested nested_bytes
nested-Encoding = (
  array16,
  to_u8 reserved ∷ [],
  omega arith,
  (to_u8 reserved ∷ [], [], inr refl, refl, refl),
  refl,
)

need-nested : need nested ≡ 3
unfolding need
need-nested = refl

read_value_example :
    Decodes (λ s. s) (read_value_with_max_depth big_endian ascii slice_read 3) nested_bytes nested
read_value_example =
    read_value_with_max_depth-Decodes big_endian-IsBigEndian ascii slice_read-IsStd nested
      nested_bytes 3 nested-Encoding (omega (arith, need-nested))

read_value_deep_example :
    Rejects
      (λ s. s)
      (read_value_with_max_depth big_endian ascii slice_read 2)
      nested_bytes
      depth_limit_exceeded
read_value_deep_example =
    read_value_with_max_depth-Rejects big_endian-IsBigEndian ascii slice_read-IsStd nested
      nested_bytes 2 nested-Encoding (omega (arith, need-nested))

abbrev greeting : Value (Unit {0})
greeting = string (text (104 ∷ []))

to_owned_example : to_owned (as_ref sample) ≡ sample
to_owned_example = to_owned-as_ref sample

try_from_signed_example :
    (try_i64 {U = Unit {0}} num_cast (integer (from_signed (negsuc 6))) ≡ inl (negsuc 6))
    × (try_u64 {U = Unit {0}} num_cast (integer (from_signed (negsuc 6)))
        ≡ inr (integer (from_signed (negsuc 6))))
try_from_signed_example = try-from_signed num_cast (negsuc 6) num_cast-IsNumCast (omega arith)

-- The first pair is under a key that is not UTF-8.
abbrev table : Pairs (Unit {0})
table = pair (string (raw (104 ∷ []) tt)) nil (pair greeting (boolean true) no_pairs)

index_str_example : UnderKey (104 ∷ []) table (index_str (map table) (104 ∷ []))
index_str_example = index_str-Indexed (104 ∷ []) (map table)

read_value_any_input_example :
    Answers (λ v. need v ≤ 2) (read_value_with_max_depth big_endian ascii slice_read 2)
read_value_any_input_example =
    read_value_with_max_depth-Answers big_endian ascii slice_read-IsTotal 2
