-- ===== src/Lib.antt =====
-- The MessagePack libraries rmp, rmpv and rmp-serde: what they write, and what they read.
--
-- The program. `rmp` writes and reads single MessagePack items: a marker byte, and behind it a
-- number, a length, or bytes. It does so over two traits, `RmpWrite` and `RmpRead`, which any
-- `std::io` writer or reader implements, and which the crate implements for its own buffers. `rmpv`
-- builds on it: `Value` is any MessagePack datum, `write_value` writes it and `read_value` reads it
-- by calls of rmp's functions, with a limit on the depth; `ValueRef` is the same with the strings
-- and bytes borrowed from the reader's buffer. `rmp-serde` connects rmp to serde: its `Serializer`
-- is handed the calls of a `Serialize` implementation and writes them by rmp's functions, as a
-- configuration says; its `Deserializer` reads a marker and hands what follows to a visitor, as which
-- rmpv's `Value` takes it.
--
-- The files.
--   Common, Common/*    shared names; integers with a sign; `Outcome`, the result of a call with the
--                       state after it; tables over the bytes.
--   Marker, Marker/*    rmp/src/marker.rs: the enum `Marker`, `from_u8`, `to_u8`.
--   ByteOrder, */Laws   the byteorder crate, as a parameter.
--   Encode              rmp/src/encode/mod.rs: the trait `RmpWrite`, the errors, markers and data.
--     Uint, Sint, Dec   rmp/src/encode/uint.rs, sint.rs and dec.rs.
--     Len, Payload      the lengths of rmp/src/encode/str.rs, bin.rs and mod.rs; `write_str` and
--                       `write_bin`.
--     Buffer            rmp/src/encode/buffer.rs: `ByteBuf` and the fixed buffer.
--     Logic, Wire       what a call on a writer does, by the bytes it appends; the rules for it.
--     Ints, Shortest,   the functions against the format.
--     Headers, Ext
--   Format, Format/*    the MessagePack format, described apart from the code.
--   Decode              rmp/src/decode/mod.rs: the trait `RmpRead`, the errors, markers and data.
--     Simple, Int, Len  rmp/src/decode/uint.rs, sint.rs, dec.rs; `read_int`; the lengths.
--     Ext, Str, Bytes   rmp/src/decode/ext.rs, str.rs and bytes.rs.
--     Logic, Wire       what a call on a reader does, by the bytes it takes; the rules for it.
--     Answers           the same of an input of any kind: a call ends, and does not panic.
--     Readers, Single,  the functions against the format.
--     Ints, Headers,
--     Strings, Slices
--   RoundTrip           rmp's writers and readers together.
--   Value               rmpv/src/lib.rs: `Value`, `Integer`, `Utf8String`.
--     Ints, Text,       the conversions, the accessors, `Index` and `TryFrom` of rmpv/src/lib.rs.
--     Access, Lookup,
--     Casts
--     Write             rmpv/src/encode/value.rs: `write_value`.
--     Read              rmpv/src/decode/mod.rs and value.rs: `read_value` and its limit.
--     Encoding, Stored  which byte strings stand for a value, how deep its reading goes, which
--                       values can be written, and what is then stored.
--     Marked, Forms,    the reader against the encodings, form by form and then whole; the values
--     RoundTrip,        that lie too deep; the reader on an input of any kind.
--     Rejects, Deep,
--     Total
--     Written, Storage  the writer against the encodings, and both together.
--     Borrowed          `Utf8StringRef` and `ValueRef`, `as_ref` and `to_owned`.
--     Borrowed/Reader,  rmpv/src/decode/value_ref.rs: `read_value_ref` over the trait `BorrowRead`,
--     Slices            and the trait's two implementations.
--     Borrowed/Same,    `read_value_ref` beside `read_value`.
--     Sources, Forms
--     Borrowed/Writer   rmpv/src/encode/value_ref.rs: `write_value_ref`, beside `write_value`.
--   Serde               rmp-serde/src/encode.rs: the calls of a `Serialize` implementation, as a tree,
--                       and the errors.
--     Config            rmp-serde/src/config.rs: the configurations.
--     Ext, Serializer,  rmp-serde/src/encode.rs: `ExtSerializer`; `serde::Serializer` for
--     Api               `Serializer`; `Serializer` itself, `write`, `to_vec` and their named forms.
--     Logic, Meaning    what a call on a serializer does, by the bytes it appends; the value that a
--                       `Serialize` implementation stands for.
--     Parts, Compound,  the serializer against the encodings of that value, and with rmpv's reader.
--     Written, Bytes
--     Extension,        extensions, sequences of unknown length, and what a configuration decides.
--     Unknown, Configs
--     De                rmp-serde/src/decode.rs: the errors, the readers and the `Deserializer`.
--     De/Any            rmp-serde/src/decode.rs: `deserialize_any`, and the accessors that it hands to
--                       a visitor.
--     De/Visitor        rmpv/src/ext/de.rs: the visitor that makes a `Value`.
--     De/Readers, Api   rmp-serde/src/decode.rs: `ReadReader` and `ReadRefReader`; `from_slice` and
--                       `from_read` into a `Value`.
--     De/Calls          rmp-serde/src/decode.rs: the calls for options, unit structs and 128 bits.
--     De/Logic, Loops,  the deserializer against the encodings of a value.
--     Parts, Forms,
--     Read
--     De/Safe, Streams, the deserializer on an input of any kind.
--     Elements, Total
--   Examples, */*       concrete instances of the parameters, and the theorems at concrete inputs.
--
-- The model. A call that changes a writer or a reader is a function from its state to an `Outcome`:
-- a result or an error with the state after it, or a panic. A failed assertion of a debug build, a
-- slice out of range and an index out of range are panics. The names are the source's. A number of
-- w bits is a natural number or an integer with its wrap-around written out, and `usize` has 64
-- bits. A float is its bit pattern. A `&str` is its bytes. Errors keep their constructors; their
-- text is left out, but for the messages that rmp-serde's extensions are refused with. The position
-- of `Bytes` is counted without wrap-around: it is a u64, and no slice is as long as 2^64 bytes.
--
-- `read_value_inner` calls itself with a smaller depth. The model bounds the nested calls by one
-- more than the depth: each call takes one off the depth, and a call at depth zero is refused.
--
-- serde. `value.serialize(se)` is generic in the serializer, so that a value is known to it only by
-- the calls that it makes: `Data` is the tree of these calls, nested values included. An
-- implementation may ask `is_human_readable`, announce a length or not, or fail. A map's calls of
-- `serialize_key` and `serialize_value` come in turn, as serde asks for. Where a length is not
-- announced, the serializer writes to a vector and counts; the count has 32 bits and its overflow is
-- a panic. A vector takes all that is written to it, so that the errors of its writer are of the
-- empty type. What `ExtSerializer` leaves to the defaults of serde's trait is as serde documents it.
--
-- A visitor is a record of its methods. Its elements are of its own type, as those of `Value` are, so
-- that a compound hands it one call for the next element, which is `deserialize_any` again. How often
-- its loops call it is bounded by one more than the length that was announced, after which the
-- accessor has no element left. The nested calls are bounded by one more than the depth: each takes
-- one off the depth, and none is made at depth zero. The subtraction of `depth_count` panics at zero,
-- as it does in a debug build; in a release build it wraps around. The errors that serde makes for a missing element and for one of
-- another type are a parameter.
--
-- The parameters. `ByteOrder` is the byteorder crate, with `IsBigEndian` for what it documents of
-- `BigEndian`. `FromPrimitive` and `NumCast` are traits of num_traits: a number is converted if the
-- target can represent it. `Utf8` is the check of `core::str::from_utf8`. `Read` is `std::io::Read`,
-- with `IsStd` for a reader that hands over what is there. A writer satisfies `IsSink` and a reader
-- `IsSource`, which the crate's own buffers do. A reader that retries on `Interrupted` does so behind
-- these interfaces.
--
-- Not modelled: of rmp-serde's deserializer, the calls for enums and newtype structs, and what
-- changes its configuration; of rmpv's serde support, the visitor of
-- `ValueRef`, the deserializer over a value and the serializer into one; the types `Raw` and `RawRef`;
-- the conversions to floats; the text of `Display` and `Debug`; the capacity that vectors are
-- allocated with; tests and benches.
pub mod Common
pub mod Marker
pub mod ByteOrder
pub mod Encode
pub mod Format
pub mod Decode
pub mod Value
pub mod Serde
pub mod RoundTrip
pub mod Examples
