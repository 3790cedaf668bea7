-- ===== src/Marker/Codes.antt =====
-- rmp/src/marker.rs: the two conversions between markers and bytes.
use msgpack_rust.Common.{ℕ, ◌+◌, ◌<◌, bit_and, bit_or, ◌≡◌, refl, arith}
use msgpack_rust.Common.Int.{negsuc, pos}
use msgpack_rust.Common.Table.{all_below, agree_below}
use msgpack_rust.Marker.{
  Marker, from_u8, to_u8, IsMarker, fixstr_size, fixarray_size, fixmap_size, fix_pos, fix_neg,
  fix_str, fix_array, fix_map, null,
}

-- Every byte is the code of the marker that `from_u8` makes of it.
pub to_u8-from_u8 : (b : ℕ) → b < 256 → to_u8 (from_u8 b) ≡ b
unfolding to_u8 from_u8 all_below
to_u8-from_u8 = agree_below 256 (λ b. to_u8 (from_u8 b)) (λ b. b) refl

map_code : (n : ℕ) → n < 16 → bit_or 0x80 (bit_and n fixmap_size) ≡ 0x80 + n
unfolding all_below
map_code = agree_below 16 _ _ refl

array_code : (n : ℕ) → n < 16 → bit_or 0x90 (bit_and n fixarray_size) ≡ 0x90 + n
unfolding all_below
array_code = agree_below 16 _ _ refl

str_code : (n : ℕ) → n < 32 → bit_or 0xa0 (bit_and n fixstr_size) ≡ 0xa0 + n
unfolding all_below
str_code = agree_below 32 _ _ refl

map_payload : (n : ℕ) → n < 16 → bit_and (0x80 + n) fixmap_size ≡ n
unfolding all_below
map_payload = agree_below 16 (λ n. bit_and (0x80 + n) fixmap_size) (λ n. n) refl

array_payload : (n : ℕ) → n < 16 → bit_and (0x90 + n) fixarray_size ≡ n
unfolding all_below
array_payload = agree_below 16 (λ n. bit_and (0x90 + n) fixarray_size) (λ n. n) refl

str_payload : (n : ℕ) → n < 32 → bit_and (0xa0 + n) fixstr_size ≡ n
unfolding all_below
str_payload = agree_below 32 (λ n. bit_and (0xa0 + n) fixstr_size) (λ n. n) refl

-- Every marker whose payload fits its code is given back by `from_u8` from its code.
pub from_u8-to_u8 : (m : Marker) → IsMarker m → from_u8 (to_u8 m) ≡ m
unfolding to_u8 from_u8
from_u8-to_u8 (fix_pos n) h = ground arith
from_u8-to_u8 (fix_neg (pos n)) h = absurd h
from_u8-to_u8 (fix_neg (negsuc n)) h = ground arith
from_u8-to_u8 (fix_str n) h = rw (str_code n h) (ground (arith, str_payload n))
from_u8-to_u8 (fix_array n) h = rw (array_code n h) (ground (arith, array_payload n))
from_u8-to_u8 (fix_map n) h = rw (map_code n h) (ground (arith, map_payload n))
from_u8-to_u8 null h = refl
from_u8-to_u8 _ h = refl
