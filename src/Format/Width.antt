-- ===== src/Format/Width.antt =====
-- The MessagePack format: how wide a header must be.
use msgpack_rust.Common.{ℕ, ◌≢◌, ◌≤◌, ◌+◌, ◌≡◌, length, arith}
use msgpack_rust.Common.Int.{ℤ, pos, negsuc}
use msgpack_rust.ByteOrder.Laws.{length-be_bytes}
use msgpack_rust.Marker.{Marker, null}
use msgpack_rust.Format.{
  width, header, int_bytes, IntForm, IsShortestInt, StrForm, BinForm, ArrayForm, MapForm, ExtForm,
  IsShortest,
}

pub length-header : (mk : Marker) (n : ℕ) → length (header mk n) ≡ width mk + 1
unfolding header
length-header mk n = omega (arith, length-be_bytes (width mk) n)

pub length-int_bytes : (mk : Marker) (z : ℤ) → length (int_bytes mk z) ≡ width mk + 1
unfolding int_bytes
length-int_bytes mk z = length-header mk _

-- A larger number needs a wider marker.
pub pos_width :
    (mk : Marker) (n : ℕ)
    → IntForm mk (pos n)
    → (128 ≤ n → 1 ≤ width mk)
      × (256 ≤ n → 2 ≤ width mk)
      × (65536 ≤ n → 4 ≤ width mk)
      × (4294967296 ≤ n → 8 ≤ width mk)
pos_width null n h = absurd h
pos_width _ n h = omega arith

pub neg_width :
    (mk : Marker) (n : ℕ)
    → IntForm mk (negsuc n)
    → (32 ≤ n → 1 ≤ width mk)
      × (128 ≤ n → 2 ≤ width mk)
      × (32768 ≤ n → 4 ≤ width mk)
      × (2147483648 ≤ n → 8 ≤ width mk)
neg_width null n h = absurd h
neg_width _ n h = omega arith

pub str_width :
    (mk : Marker) (n : ℕ)
    → StrForm mk n
    → (32 ≤ n → 1 ≤ width mk) × (256 ≤ n → 2 ≤ width mk) × (65536 ≤ n → 4 ≤ width mk)
str_width null n h = absurd h
str_width _ n h = omega arith

pub bin_width :
    (mk : Marker) (n : ℕ)
    → BinForm mk n
    → (1 ≤ width mk) × (256 ≤ n → 2 ≤ width mk) × (65536 ≤ n → 4 ≤ width mk)
bin_width null n h = absurd h
bin_width _ n h = omega arith

pub array_width :
    (mk : Marker) (n : ℕ) → ArrayForm mk n → (16 ≤ n → 2 ≤ width mk) × (65536 ≤ n → 4 ≤ width mk)
array_width null n h = absurd h
array_width _ n h = omega arith

pub map_width :
    (mk : Marker) (n : ℕ) → MapForm mk n → (16 ≤ n → 2 ≤ width mk) × (65536 ≤ n → 4 ≤ width mk)
map_width null n h = absurd h
map_width _ n h = omega arith

pub ext_width :
    (mk : Marker) (n : ℕ)
    → ExtForm mk n
    → (n ≢ 1 → n ≢ 2 → n ≢ 4 → n ≢ 8 → n ≢ 16 → 1 ≤ width mk)
      × (256 ≤ n → 2 ≤ width mk)
      × (65536 ≤ n → 4 ≤ width mk)
ext_width null n h = absurd h
ext_width _ n h = omega arith

pub shortest_int :
    (mk : Marker) (z : ℤ)
    → ((other : Marker) → IntForm other z → width mk ≤ width other)
    → IsShortestInt mk z
shortest_int mk z k other h =
    omega (arith, length-int_bytes mk z, length-int_bytes other z, k other h)

pub shortest :
    (Form : Marker → ℕ → Type 0) (mk : Marker) (n : ℕ)
    → ((other : Marker) → Form other n → width mk ≤ width other)
    → IsShortest Form mk n
shortest Form mk n k other h = omega (arith, length-header mk n, length-header other n, k other h)
