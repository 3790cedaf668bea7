-- ===== src/Examples/Ints.antt =====
-- The theorems on markers and integers at concrete inputs.
use msgpack_rust.Common.{ℕ, ◌≡◌, refl, List, [], ◌∷◌, arith}
use msgpack_rust.Common.Int.{pos, negsuc}
use msgpack_rust.Marker.{Marker, from_u8, to_u8, fix_neg, u16, i16}
use msgpack_rust.Marker.Codes.{to_u8-from_u8, from_u8-to_u8}
use msgpack_rust.Format.{header, int_bytes}
use msgpack_rust.Decode.Single.{
  unsigned_read, signed_read, read_unsigned-Decodes, read_signed-Decodes,
}
use msgpack_rust.Encode.Uint.{write_uint}
use msgpack_rust.Encode.Sint.{write_sint}
use msgpack_rust.Encode.Logic.{Writes}
use msgpack_rust.Encode.Buffer.{ByteBuf, byte_buf, byte_buf-IsSink}
use msgpack_rust.Encode.Shortest.{WritesShortestInt, write_uint-WritesShortestInt}
use msgpack_rust.Decode.Logic.{Decodes, Fails}
use msgpack_rust.Decode.Bytes.{Bytes, bytes_reader, bytes_read_exact_buf}
use msgpack_rust.Decode.Readers.{Accounts, bytes_reader-IsSource, bytes_read_exact_buf-Accounts}
use msgpack_rust.Decode.Int.{out_of_range, read_int}
use msgpack_rust.Decode.Ints.{read_int-Decodes, read_int-Fails}
use msgpack_rust.RoundTrip.{write_uint-read_int, write_sint-read_int}
use msgpack_rust.Value.{Integer, pos_int}
use msgpack_rust.Examples.{
  big_endian, big_endian-IsBigEndian, byte_primitive, byte_primitive-IsConversion, signed_primitive,
  signed_primitive-IsConversion,
}

abbrev sent : ByteBuf → List ℕ
sent buf = buf.bytes

abbrev left : Bytes → List ℕ
left r = r.bytes

to_u8-from_u8_example : to_u8 (from_u8 0xd1) ≡ 0xd1
to_u8-from_u8_example = to_u8-from_u8 0xd1 (omega arith)

from_u8-to_u8_example : from_u8 (to_u8 (fix_neg (negsuc 4))) ≡ fix_neg (negsuc 4)
from_u8-to_u8_example = from_u8-to_u8 (fix_neg (negsuc 4)) (omega arith)

write_uint_example : WritesShortestInt sent (write_uint big_endian byte_buf 300) (pos 300)
write_uint_example =
    write_uint-WritesShortestInt big_endian-IsBigEndian byte_buf-IsSink 300 (omega arith)

read_int_example :
    Decodes left (read_int big_endian byte_primitive bytes_reader) (int_bytes u16 (pos 7)) 7
read_int_example =
    read_int-Decodes big_endian-IsBigEndian byte_primitive-IsConversion bytes_reader-IsSource u16
      (pos 7) 7 (omega arith) refl

read_int_refused_example :
    Fails left
      (read_int big_endian byte_primitive bytes_reader)
      (int_bytes i16 (negsuc 300))
      out_of_range
read_int_refused_example =
    read_int-Fails big_endian-IsBigEndian byte_primitive-IsConversion bytes_reader-IsSource i16
      (negsuc 300) (omega arith) refl

write_uint_read_int_example :
    (bs : List ℕ) × (mk : Marker) × Writes sent (write_uint big_endian byte_buf 200) bs mk
    × Decodes left (read_int big_endian byte_primitive bytes_reader) bs 200
write_uint_read_int_example =
    write_uint-read_int big_endian-IsBigEndian byte_buf-IsSink bytes_reader-IsSource
      byte_primitive-IsConversion 200 200 (omega arith) refl

write_sint_read_int_example :
    (bs : List ℕ) × (mk : Marker) × Writes sent
      (write_sint big_endian byte_buf (negsuc 40000))
      bs
      mk
    × Decodes left (read_int big_endian signed_primitive bytes_reader) bs (negsuc 40000)
write_sint_read_int_example =
    write_sint-read_int big_endian-IsBigEndian byte_buf-IsSink bytes_reader-IsSource
      signed_primitive-IsConversion (negsuc 40000) (negsuc 40000) (omega arith) refl

abbrev cursor : Bytes
cursor = record { current_position = 5; bytes = 1 ∷ 2 ∷ 3 ∷ [] }

bytes_read_exact_buf_example : Accounts cursor 2 (bytes_read_exact_buf 2 cursor)
bytes_read_exact_buf_example = bytes_read_exact_buf-Accounts cursor 2

abbrev large : Integer
large = record { n = pos_int 9223372036854775808 }

read_unsigned_example : Decodes left (unsigned_read big_endian bytes_reader u16) (header u16 7) 7
read_unsigned_example =
    read_unsigned-Decodes big_endian-IsBigEndian bytes_reader-IsSource u16 7 (omega arith)

read_signed_example :
    Decodes left (signed_read big_endian bytes_reader i16) (int_bytes i16 (negsuc 6)) (negsuc 6)
read_signed_example =
    read_signed-Decodes big_endian-IsBigEndian bytes_reader-IsSource i16 (negsuc 6) (omega arith)
