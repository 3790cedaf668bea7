-- ===== src/Marker.antt =====
-- rmp/src/marker.rs: the first byte of every MessagePack value.
pub mod Codes
use msgpack_rust.Common.{ℕ, ◌<◌, bit_and, bit_or, Bool, leb, ◌==◌, if◌then◌else◌, ◌&&◌}
use msgpack_rust.Common.Int.{ℤ, negsuc, pos, as_signed, as_unsigned}

abbrev pub fixstr_size : ℕ
fixstr_size = 0x1f

abbrev pub fixarray_size : ℕ
fixarray_size = 0x0f

abbrev pub fixmap_size : ℕ
fixmap_size = 0x0f

pub data Marker : Type 0 where
  fix_pos : ℕ → Marker
  fix_neg : ℤ → Marker
  null true false : Marker
  u8 u16 u32 u64 : Marker
  i8 i16 i32 i64 : Marker
  f32 f64 : Marker
  fix_str : ℕ → Marker
  str8 str16 str32 : Marker
  bin8 bin16 bin32 : Marker
  fix_array : ℕ → Marker
  array16 array32 : Marker
  fix_map : ℕ → Marker
  map16 map32 : Marker
  fix_ext1 fix_ext2 fix_ext4 fix_ext8 fix_ext16 : Marker
  ext8 ext16 ext32 : Marker
  reserved : Marker

-- The single codes from 0xc0 on, in the order of the source's arms; `n` is below 0xe0 here.
abbrev from_code : ℕ → Marker
from_code n =
    if n == 0xc0
    then null
    else if n == 0xc1
    then reserved
    else if n == 0xc2
    then Marker.false
    else if n == 0xc3
    then Marker.true
    else if n == 0xc4
    then bin8
    else if n == 0xc5
    then bin16
    else if n == 0xc6
    then bin32
    else if n == 0xc7
    then ext8
    else if n == 0xc8
    then ext16
    else if n == 0xc9
    then ext32
    else if n == 0xca
    then f32
    else if n == 0xcb
    then f64
    else if n == 0xcc
    then u8
    else if n == 0xcd
    then u16
    else if n == 0xce
    then u32
    else if n == 0xcf
    then u64
    else if n == 0xd0
    then i8
    else if n == 0xd1
    then i16
    else if n == 0xd2
    then i32
    else if n == 0xd3
    then i64
    else if n == 0xd4
    then fix_ext1
    else if n == 0xd5
    then fix_ext2
    else if n == 0xd6
    then fix_ext4
    else if n == 0xd7
    then fix_ext8
    else if n == 0xd8
    then fix_ext16
    else if n == 0xd9
    then str8
    else if n == 0xda
    then str16
    else if n == 0xdb
    then str32
    else if n == 0xdc
    then array16
    else if n == 0xdd
    then array32
    else if n == 0xde
    then map16
    else map32

-- `Marker::from_u8`
unfoldable pub from_u8 : ℕ → Marker
unfolding as_signed
from_u8 n =
    if leb n 0x7f
    then fix_pos n
    else if leb 0xe0 n && leb n 0xff
    then fix_neg (as_signed 128 n)
    else if leb 0x80 n && leb n 0x8f
    then fix_map (bit_and n fixmap_size)
    else if leb 0x90 n && leb n 0x9f
    then fix_array (bit_and n fixarray_size)
    else if leb 0xa0 n && leb n 0xbf
    then fix_str (bit_and n fixstr_size)
    else from_code n

-- `Marker::to_u8`
unfoldable pub to_u8 : Marker → ℕ
unfolding as_unsigned
to_u8 (fix_pos val) = val
to_u8 (fix_neg val) = as_unsigned 256 val
to_u8 null = 0xc0
to_u8 Marker.true = 0xc3
to_u8 Marker.false = 0xc2
to_u8 u8 = 0xcc
to_u8 u16 = 0xcd
to_u8 u32 = 0xce
to_u8 u64 = 0xcf
to_u8 i8 = 0xd0
to_u8 i16 = 0xd1
to_u8 i32 = 0xd2
to_u8 i64 = 0xd3
to_u8 f32 = 0xca
to_u8 f64 = 0xcb
to_u8 (fix_str len) = bit_or 0xa0 (bit_and len fixstr_size)
to_u8 str8 = 0xd9
to_u8 str16 = 0xda
to_u8 str32 = 0xdb
to_u8 bin8 = 0xc4
to_u8 bin16 = 0xc5
to_u8 bin32 = 0xc6
to_u8 (fix_array len) = bit_or 0x90 (bit_and len fixarray_size)
to_u8 array16 = 0xdc
to_u8 array32 = 0xdd
to_u8 (fix_map len) = bit_or 0x80 (bit_and len fixmap_size)
to_u8 map16 = 0xde
to_u8 map32 = 0xdf
to_u8 fix_ext1 = 0xd4
to_u8 fix_ext2 = 0xd5
to_u8 fix_ext4 = 0xd6
to_u8 fix_ext8 = 0xd7
to_u8 fix_ext16 = 0xd8
to_u8 ext8 = 0xc7
to_u8 ext16 = 0xc8
to_u8 ext32 = 0xc9
to_u8 reserved = 0xc1

-- The payloads that fit the bits which the format leaves for them.
abbrev pub IsMarker : Marker → Type 0
IsMarker (fix_pos n) = n < 128
IsMarker (fix_neg (pos n)) = ⊥
IsMarker (fix_neg (negsuc n)) = n < 32
IsMarker (fix_str n) = n < 32
IsMarker (fix_array n) = n < 16
IsMarker (fix_map n) = n < 16
IsMarker _ = Unit {0}
