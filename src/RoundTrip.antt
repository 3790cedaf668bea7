-- ===== src/RoundTrip.antt =====
-- rmp/src/encode and rmp/src/decode: the writing functions together with the reading ones.
use msgpack_rust.Common.{ℕ, ◌<◌, ◌≤◌, ◌^◌, ◌≡◌, Option, none, some, List, length}
use msgpack_rust.Common.Int.{ℤ, pos, IsSigned}
use msgpack_rust.ByteOrder.{ByteOrder, IsBigEndian}
use msgpack_rust.Marker.{Marker}
use msgpack_rust.Encode.{RmpWrite}
use msgpack_rust.Encode.Logic.{Writes, IsSink}
use msgpack_rust.Encode.Uint.{write_uint}
use msgpack_rust.Encode.Sint.{write_sint}
use msgpack_rust.Encode.Payload.{write_str}
use msgpack_rust.Encode.Shortest.{write_uint-WritesShortestInt, write_sint-WritesShortestInt}
use msgpack_rust.Encode.Ext.{write_str-Writes}
use msgpack_rust.Decode.{RmpRead}
use msgpack_rust.Decode.Logic.{Decodes, IsSource}
use msgpack_rust.Decode.Int.{FromPrimitive, IsConversion, read_int}
use msgpack_rust.Decode.Ints.{read_int-Decodes}
use msgpack_rust.Decode.Str.{Utf8, read_str}
use msgpack_rust.Decode.Strings.{read_str-Decodes}

module _ {bo : ByteOrder} (big : IsBigEndian bo) {W E : Type 0} {io : RmpWrite W E}
    {sent : W → List ℕ} (sink : IsSink io sent) {R F : Type 0} {rd : RmpRead R F}
    {left : R → List ℕ} (source : IsSource rd left) where
  module _ {T : Type 0} {fp : FromPrimitive T} {convert : ℤ → Option T}
      (conv : IsConversion fp convert) where
    -- For an unsigned 64-bit number, `read_int` into any type that holds it takes exactly the bytes
    -- of `write_uint` and gives the number back.
    pub write_uint-read_int :
        (n : ℕ) (a : T)
        → n < 2 ^ 64
        → convert (pos n) ≡ some a
        → (bs : List ℕ) × (mk : Marker) × Writes sent (write_uint bo io n) bs mk
          × Decodes left (read_int bo fp rd) bs a
    write_uint-read_int n a h e =
        let (mk, form, short, writes) = write_uint-WritesShortestInt big sink n h in
        (_, mk, writes, read_int-Decodes big conv source mk (pos n) a form e)

    -- For a signed 64-bit number, `read_int` into any type that holds it takes exactly the bytes of
    -- `write_sint` and gives the number back.
    pub write_sint-read_int :
        (z : ℤ) (a : T)
        → IsSigned 9223372036854775808 z
        → convert z ≡ some a
        → (bs : List ℕ) × (mk : Marker) × Writes sent (write_sint bo io z) bs mk
          × Decodes left (read_int bo fp rd) bs a
    write_sint-read_int z a h e =
        let (mk, form, short, writes) = write_sint-WritesShortestInt big sink z h in
        (_, mk, writes, read_int-Decodes big conv source mk z a form e)

  -- For a valid string of less than 2^32 bytes, `read_str` takes exactly the bytes of `write_str`
  -- and gives the string back, if its buffer is large enough for it.
  pub write_str-read_str :
      {U : Type 0} (utf8 : Utf8 U) (text : List ℕ) (size : ℕ)
      → length text < 2 ^ 32
      → utf8.error text ≡ none
      → length text ≤ size
      → (bs : List ℕ) × Writes sent (write_str bo io text) bs tt
        × Decodes left (read_str bo utf8 rd size) bs text
  write_str-read_str utf8 text size h valid fits =
      let (mk, form, short, writes) = write_str-Writes big sink text h in
      (_, writes, read_str-Decodes big utf8 source mk text size form valid fits)
