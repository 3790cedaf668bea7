-- ===== src/Format.antt =====
-- The MessagePack format that rmp implements, described apart from the code: the bytes behind a
-- marker, and which markers can carry which number or length.
pub mod Markers
pub mod Width
use msgpack_rust.Common.{ℕ, ◌<◌, ◌^◌, ◌≤◌, ◌≡◌, List, ◌∷◌, ◌++◌, length}
use msgpack_rust.Common.Int.{ℤ, pos, negsuc, IsSigned, as_unsigned}
use msgpack_rust.ByteOrder.{be_bytes}
use msgpack_rust.Marker.{
  Marker, to_u8, fix_pos, fix_neg, u8, u16, u32, u64, i8, i16, i32, i64, fix_str, str8, str16,
  str32, bin8, bin16, bin32, fix_array, array16, array32, fix_map, map16, map32, fix_ext1, fix_ext2,
  fix_ext4, fix_ext8, fix_ext16, ext8, ext16, ext32, f32, f64,
}

-- How many bytes of a number, or of a length, follow the marker.
abbrev pub width : Marker → ℕ
width u8 = 1
width u16 = 2
width u32 = 4
width u64 = 8
width i8 = 1
width i16 = 2
width i32 = 4
width i64 = 8
width f32 = 4
width f64 = 8
width str8 = 1
width str16 = 2
width str32 = 4
width bin8 = 1
width bin16 = 2
width bin32 = 4
width array16 = 2
width array32 = 4
width map16 = 2
width map32 = 4
width ext8 = 1
width ext16 = 2
width ext32 = 4
width _ = 0

-- The marker's byte and a number behind it, highest byte first.
unfoldable pub header : Marker → ℕ → List ℕ
header mk n = to_u8 mk ∷ be_bytes (width mk) n

-- An integer under a marker, in two's complement.
unfoldable pub int_bytes : Marker → ℤ → List ℕ
int_bytes mk z = header mk (as_unsigned (256 ^ width mk) z)

-- `mk` can carry the integer.
abbrev pub IntForm : Marker → ℤ → Type 0
IntForm (fix_pos k) (pos n) = (k ≡ n) × (n < 128)
IntForm (fix_neg k) (negsuc n) = (k ≡ negsuc n) × (n < 32)
IntForm u8 (pos n) = n < 256
IntForm u16 (pos n) = n < 65536
IntForm u32 (pos n) = n < 4294967296
IntForm u64 (pos n) = n < 18446744073709551616
IntForm i8 z = IsSigned 128 z
IntForm i16 z = IsSigned 32768 z
IntForm i32 z = IsSigned 2147483648 z
IntForm i64 z = IsSigned 9223372036854775808 z
IntForm _ _ = ⊥

-- No marker that can carry `z` needs fewer bytes than `mk`.
abbrev pub IsShortestInt : Marker → ℤ → Type 0
IsShortestInt mk z =
    (other : Marker) → IntForm other z → length (int_bytes mk z) ≤ length (int_bytes other z)

-- `mk` opens a string, byte array, array, map or extension of `n` parts.
abbrev pub StrForm : Marker → ℕ → Type 0
StrForm (fix_str k) n = (k ≡ n) × (n < 32)
StrForm str8 n = n < 256
StrForm str16 n = n < 65536
StrForm str32 n = n < 4294967296
StrForm _ _ = ⊥

abbrev pub BinForm : Marker → ℕ → Type 0
BinForm bin8 n = n < 256
BinForm bin16 n = n < 65536
BinForm bin32 n = n < 4294967296
BinForm _ _ = ⊥

abbrev pub ArrayForm : Marker → ℕ → Type 0
ArrayForm (fix_array k) n = (k ≡ n) × (n < 16)
ArrayForm array16 n = n < 65536
ArrayForm array32 n = n < 4294967296
ArrayForm _ _ = ⊥

abbrev pub MapForm : Marker → ℕ → Type 0
MapForm (fix_map k) n = (k ≡ n) × (n < 16)
MapForm map16 n = n < 65536
MapForm map32 n = n < 4294967296
MapForm _ _ = ⊥

abbrev pub ExtForm : Marker → ℕ → Type 0
ExtForm fix_ext1 n = n ≡ 1
ExtForm fix_ext2 n = n ≡ 2
ExtForm fix_ext4 n = n ≡ 4
ExtForm fix_ext8 n = n ≡ 8
ExtForm fix_ext16 n = n ≡ 16
ExtForm ext8 n = n < 256
ExtForm ext16 n = n < 65536
ExtForm ext32 n = n < 4294967296
ExtForm _ _ = ⊥

-- An extension's header: the size under its marker, and one byte for its type.
unfoldable pub ext_header : Marker → ℕ → ℤ → List ℕ
ext_header mk n ty = header mk n ++ be_bytes 1 (as_unsigned 256 ty)

-- No marker of the family `Form` carries `n` with a shorter header than `mk`.
abbrev pub IsShortest : (Marker → ℕ → Type 0) → Marker → ℕ → Type 0
IsShortest Form mk n =
    (other : Marker) → Form other n → length (header mk n) ≤ length (header other n)
