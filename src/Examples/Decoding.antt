-- ===== src/Examples/Decoding.antt =====
-- The theorems on the deserializer of rmp-serde at concrete inputs.
use msgpack_rust.Common.{ℕ, ◌<◌, ◌≡◌, refl, none, inl, List, [], ◌∷◌, ◌++◌, arith}
use msgpack_rust.Common.Int.{negsuc, as_unsigned}
use msgpack_rust.Encode.Logic.{Writes}
use msgpack_rust.Encode.Buffer.{FixedBuf, fixed_write_bytes}
use msgpack_rust.Decode.Bytes.{BytesReadError, insufficient_bytes, slice_read_exact_buf}
use msgpack_rust.Marker.{to_u8, fix_str, fix_ext1, fix_array}
use msgpack_rust.Format.{header, ext_header}
use msgpack_rust.ByteOrder.{be_bytes}
use msgpack_rust.Value.{Value, raw, nil, string, array, ext, no_values, value}
use msgpack_rust.Value.Encoding.{Encoding, NoReserved}
use msgpack_rust.Value.Stored.{IsValue, settle}
use msgpack_rust.Value.Write.{write_value}
use msgpack_rust.Serde.Config.{default_config}
use msgpack_rust.Serde.De.{Error, out_of_range, Deserializer, ReadSlice, ReadRefReader}
use msgpack_rust.Serde.De.Any.{deserialize_any, Visitor}
use msgpack_rust.Serde.De.Visitor.{Refusals, value_visitor}
use msgpack_rust.Serde.De.Logic.{Back}
use msgpack_rust.Serde.De.Read.{levels}
use msgpack_rust.Serde.De.Readers.{ReadReader, reader, ref_reader}
use msgpack_rust.Serde.De.Api.{
  from_slice, from_read, deserialize_value, from_slice-Encoding, from_read-Encoding,
  write_value-from_slice,
}
use msgpack_rust.Serde.De.Safe.{Safe}
use msgpack_rust.Serde.De.Streams.{ref_reader-IsTotal}
use msgpack_rust.Serde.De.Total.{deserialize_any-Safe}
use msgpack_rust.Serde.De.Calls.{deserialize_option, deserialize_option-deserialize_any}
use msgpack_rust.Examples.{
  big_endian, big_endian-IsBigEndian, ascii, slice-Fills, slice_read, slice_read-IsStd,
  slice_write-IsSink,
}

abbrev eof : BytesReadError
eof = insufficient_bytes 0 0 0

abbrev refusals : Refusals (Error (Unit {0}) BytesReadError)
refusals = record { invalid_length = λ n. out_of_range; invalid_type = out_of_range }

-- An array of nil, a string that is not UTF-8, and an extension.
abbrev sample : Value (Unit {0})
sample =
    array
      (value nil (value (string (raw (200 ∷ []) tt)) (value (ext (negsuc 4) (7 ∷ [])) no_values)))

abbrev sample_bytes : List ℕ
sample_bytes = 147 ∷ 192 ∷ 161 ∷ 200 ∷ 212 ∷ 251 ∷ 7 ∷ []

sample-NoReserved :
    (e : Encoding ascii sample sample_bytes) × NoReserved ascii sample sample_bytes e
unfolding header ext_header be_bytes to_u8 as_unsigned
sample-NoReserved = (
  (
    fix_array 3,
    _,
    (refl, omega arith),
    (
      _,
      _,
      inl refl,
      (
        _,
        _,
        (fix_str 1, refl, (refl, omega arith), refl),
        (_, _, (fix_ext1, omega arith, refl, refl), refl, refl),
        refl,
      ),
      refl,
    ),
    refl,
  ),
  (tt, (tt, (tt, tt))),
)

sample-levels : levels sample < 1024
unfolding levels
sample-levels = omega arith

settled-levels : levels (settle sample) < 1024
unfolding levels settle
settled-levels = omega arith

from_slice_example :
    Back
      (λ rd. rd.buf)
      1024
      (1 ∷ [])
      (settle sample)
      (from_slice
        (deserialize_value big_endian ascii (ref_reader eof slice_read_exact_buf) refusals)
        (sample_bytes ++ (1 ∷ [])))
from_slice_example =
    from_slice-Encoding big_endian-IsBigEndian ascii refusals eof slice_read_exact_buf
      slice_read-IsStd.source sample sample_bytes (1 ∷ []) sample-NoReserved.0 sample-NoReserved.1
      sample-levels

from_read_example :
    Back
      (λ (r : ReadReader (List ℕ)). r.rd)
      1024
      []
      (settle sample)
      (from_read (deserialize_value big_endian ascii (reader slice_read) refusals) sample_bytes)
from_read_example =
    from_read-Encoding big_endian-IsBigEndian ascii refusals slice_read-IsStd sample sample_bytes []
      sample-NoReserved.0 sample_bytes sample-NoReserved.1 sample-levels refl

sample-IsValue : IsValue ascii sample
sample-IsValue = (omega arith, (tt, (omega arith, ((omega arith, omega arith), tt))))

abbrev sent : FixedBuf → List ℕ
sent buf = buf.filled

write_value-from_slice_example :
    (bs : List ℕ) × Writes sent (write_value big_endian fixed_write_bytes sample) bs tt
    × Back
        (λ rd. rd.buf)
        1024
        []
        (settle sample)
        (from_slice
          (deserialize_value big_endian ascii (ref_reader eof slice_read_exact_buf) refusals)
          (bs ++ []))
write_value-from_slice_example =
    write_value-from_slice big_endian-IsBigEndian ascii refusals eof slice_read_exact_buf
      slice_read-IsStd.source fixed_write_bytes slice_write-IsSink sample [] sample-IsValue
      settled-levels

abbrev visitor : Visitor ReadRefReader (Error (Unit {0}) BytesReadError) (Value (Unit {0}))
visitor = value_visitor refusals

abbrev rs : ReadSlice ReadRefReader BytesReadError
rs = ref_reader eof slice_read_exact_buf

abbrev last : ℕ → Deserializer ReadRefReader
last depth = record {
  rd = record { whole_slice = sample_bytes; buf = sample_bytes };
  config = default_config;
  marker = none;
  depth = depth;
}

deserialize_any_example :
    Safe 3
      (λ (v : Value (Unit {0})). levels v < 3)
      (deserialize_any big_endian ascii rs (value_visitor refusals))
deserialize_any_example =
    deserialize_any-Safe big_endian ascii (ref_reader-IsTotal eof slice-Fills) refusals 3
      (omega arith)

deserialize_option_example :
    deserialize_option rs visitor.visit_unit (deserialize_any big_endian ascii rs visitor) (last 9)
    ≡ deserialize_any big_endian ascii rs visitor (last 9)
deserialize_option_example = deserialize_option-deserialize_any big_endian ascii rs visitor (last 9)
