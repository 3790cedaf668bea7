-- ===== src/Common/Int.antt =====
-- Signed integers over the native numbers, and Rust's casts between integer types.
use Prim.Native.Nat.{ℕ, ◌-◌, ◌*◌, ◌%◌, ◌<◌}
use mathlib.Core.Path.{◌≡◌}
use mathlib.Core.Bool.{Bool, true, false}
use native.Mathlib.Omega.{arith}
use native.Mathlib.Nat.{mod-eq_of_lt}
use msgpack_rust.Common.Tests.{ltb, leb, if◌then◌else◌}

-- `negsuc n` is -(n + 1).
pub data ℤ : Type 0 where
  pos : ℕ → ℤ
  negsuc : ℕ → ℤ

abbrev pub ltb_ℤ : ℤ → ℤ → Bool
ltb_ℤ (pos a) (pos b) = ltb a b
ltb_ℤ (pos a) (negsuc b) = false
ltb_ℤ (negsuc a) (pos b) = true
ltb_ℤ (negsuc a) (negsuc b) = ltb b a

abbrev pub leb_ℤ : ℤ → ℤ → Bool
leb_ℤ (pos a) (pos b) = leb a b
leb_ℤ (pos a) (negsuc b) = false
leb_ℤ (negsuc a) (pos b) = true
leb_ℤ (negsuc a) (negsuc b) = leb b a

-- `z` is a two's complement integer of 2 * `half` values.
abbrev pub IsSigned : ℕ → ℤ → Type 0
IsSigned half (pos n) = n < half
IsSigned half (negsuc n) = n < half

-- `z as uN`, where the unsigned type has `m` values.
unfoldable pub as_unsigned : ℕ → ℤ → ℕ
as_unsigned m (pos n) = n % m
as_unsigned m (negsuc n) = m - 1 - n % m

-- `n as iN`, where the signed type has 2 * `half` values.
unfoldable pub as_signed : ℕ → ℕ → ℤ
as_signed half n = let k = n % (2 * half) in if ltb k half then pos k else negsuc (2 * half - 1 - k)

-- The cast between signed types keeps a value that fits.
unfoldable pub cast_signed : ℕ → ℤ → ℤ
unfolding as_unsigned as_signed
cast_signed half z = as_signed half (as_unsigned (2 * half) z)

pub as_signed-as_unsigned :
    (half : ℕ) (z : ℤ) → IsSigned half z → as_signed half (as_unsigned (2 * half) z) ≡ z
unfolding as_signed as_unsigned
as_signed-as_unsigned half (pos n) h =
    let small = mod-eq_of_lt {n = n} {m = 2 * half} (omega arith) in
    rw (small, small) (ground arith)
as_signed-as_unsigned half (negsuc n) h =
    let small = mod-eq_of_lt {n = n} {m = 2 * half} (omega arith) in
    let large = mod-eq_of_lt {n = 2 * half - 1 - n} {m = 2 * half} (omega arith) in
    rw (small, large) (ground arith)

pub as_unsigned-lt : (m : ℕ) (z : ℤ) → 0 < m → as_unsigned m z < m
unfolding as_unsigned
as_unsigned-lt m (pos n) h = grind arith
as_unsigned-lt m (negsuc n) h = omega arith

pub cast_signed_lem : (half : ℕ) (z : ℤ) → IsSigned half z → cast_signed half z ≡ z
unfolding cast_signed
cast_signed_lem half z h = as_signed-as_unsigned half z h

pub as_unsigned_pos : (m n : ℕ) → n < m → as_unsigned m (pos n) ≡ n
unfolding as_unsigned
as_unsigned_pos m n h = mod-eq_of_lt h
