-- ===== src/Examples/Texts.antt =====
-- The theorems on strings and byte arrays at concrete inputs.
use msgpack_rust.Common.{ℕ, refl, List, [], ◌∷◌, ◌++◌, arith}
use msgpack_rust.Marker.{str8}
use msgpack_rust.Format.{header}
use msgpack_rust.Encode.Payload.{write_str}
use msgpack_rust.Encode.Logic.{Writes}
use msgpack_rust.Encode.Buffer.{ByteBuf, byte_buf, byte_buf-IsSink}
use msgpack_rust.Decode.Logic.{Decodes, Fails}
use msgpack_rust.Decode.Bytes.{Bytes, bytes_reader}
use msgpack_rust.Decode.Readers.{bytes_reader-IsSource}
use msgpack_rust.Decode.Str.{invalid_utf8, read_str, read_str_ref}
use msgpack_rust.Decode.Strings.{read_str_invalid}
use msgpack_rust.Decode.Slices.{Panics, read_str_ref-Panics}
use msgpack_rust.RoundTrip.{write_str-read_str}
use msgpack_rust.Examples.{big_endian, big_endian-IsBigEndian, ascii}

abbrev sent : ByteBuf → List ℕ
sent buf = buf.bytes

abbrev left : Bytes → List ℕ
left r = r.bytes

abbrev hello : List ℕ
hello = 104 ∷ 105 ∷ []

abbrev broken : List ℕ
broken = 104 ∷ 255 ∷ []

read_str_invalid_example :
    Fails left
      (read_str big_endian ascii bytes_reader 8)
      (header str8 2 ++ broken)
      (invalid_utf8 broken tt)
read_str_invalid_example =
    read_str_invalid big_endian-IsBigEndian ascii bytes_reader-IsSource str8 broken 8 tt
      (omega arith) refl (omega arith)

read_str_ref-Panics_example : Panics (read_str_ref big_endian (Unit {0}) (header str8 3 ++ hello))
read_str_ref-Panics_example =
    read_str_ref-Panics big_endian-IsBigEndian ascii str8 3 hello (omega arith) (omega arith)

write_str_read_str_example :
    (bs : List ℕ) × Writes sent (write_str big_endian byte_buf hello) bs tt
    × Decodes left (read_str big_endian ascii bytes_reader 4) bs hello
write_str_read_str_example =
    write_str-read_str big_endian-IsBigEndian byte_buf-IsSink bytes_reader-IsSource ascii hello 4
      (omega arith) refl (omega arith)
