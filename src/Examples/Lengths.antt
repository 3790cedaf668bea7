-- ===== src/Examples/Lengths.antt =====
-- The theorems on lengths and extensions at concrete inputs.
use msgpack_rust.Common.{ℕ, List}
use msgpack_rust.Marker.{Marker}
use msgpack_rust.Encode.Buffer.{ByteBuf}
use msgpack_rust.Decode.Bytes.{Bytes}

abbrev sent : ByteBuf → List ℕ
sent buf = buf.bytes

abbrev left : Bytes → List ℕ
left r = r.bytes
