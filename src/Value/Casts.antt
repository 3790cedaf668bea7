-- ===== src/Value/Casts.antt =====
-- rmpv/src/lib.rs: `TryFrom<Value>` for the types that a value can be turned into.
use msgpack_rust.Common.{ℕ, ◌≡◌, refl, Bool, Option, none, some, ◌⊎◌, inl, inr, List, le→ltb, arith}
use msgpack_rust.Common.Int.{ℤ, pos, negsuc, IsSigned, as_unsigned_pos}
use msgpack_rust.Value.{
  Value, Values, Pairs, Utf8String, text, boolean, integer, f32, string, binary, array, map,
}
use msgpack_rust.Value.Ints
use msgpack_rust.Value.Ints.{NumCast, IsNumCast, from_unsigned, from_signed}

-- The result, or the value that was given.
unfoldable pub or_value : {U A : Type 0} → Option A → Value U → A ⊎ Value U
or_value (some a) v = inl a
or_value none v = inr v

module _ {U : Type 0} where
  unfoldable pub try_u64 : NumCast → Value U → ℕ ⊎ Value U
  unfolding or_value
  try_u64 nc (integer n) = or_value (Ints.as_u64 nc n) (integer n)
  try_u64 nc v = inr v

  unfoldable pub try_i64 : NumCast → Value U → ℤ ⊎ Value U
  unfolding or_value
  try_i64 nc (integer n) = or_value (Ints.as_i64 nc n) (integer n)
  try_i64 nc v = inr v

  unfoldable pub try_string : Value U → List ℕ ⊎ Value U
  try_string (string (text u)) = inl u
  try_string v = inr v

  unfoldable pub try_bool : Value U → Bool ⊎ Value U
  try_bool (boolean v) = inl v
  try_bool v = inr v

  unfoldable pub try_array : Value U → Values U ⊎ Value U
  try_array (array v) = inl v
  try_array v = inr v

  unfoldable pub try_map : Value U → Pairs U ⊎ Value U
  try_map (map v) = inl v
  try_map v = inr v

  unfoldable pub try_binary : Value U → List ℕ ⊎ Value U
  try_binary (binary v) = inl v
  try_binary v = inr v

  unfoldable pub try_f32 : Value U → ℕ ⊎ Value U
  try_f32 (f32 v) = inl v
  try_f32 v = inr v

  unfoldable pub try_utf8_string : Value U → Utf8String U ⊎ Value U
  try_utf8_string (string v) = inl v
  try_utf8_string v = inr v

  -- A signed number of 64 bits that is turned into a value comes back as an `i64`; as a `u64` it
  -- comes back if it is not negative, and else the value is handed back.
  pub try-from_signed :
      (nc : NumCast) (z : ℤ)
      → IsNumCast nc
      → IsSigned 9223372036854775808 z
      → (try_i64 nc (integer (from_signed z)) ≡ inl z)
        × (try_u64 nc (integer (from_signed z))
            ≡ elim z [ pos n ↦ inl n | negsuc n ↦ inr (integer (from_signed (negsuc n))) ])
  unfolding try_i64 try_u64 or_value from_signed Ints.as_i64 Ints.as_u64
  try-from_signed nc (pos n) law h =
      rw
        (
          le→ltb n 0 (omega arith),
          as_unsigned_pos 18446744073709551616 n (omega arith),
          law.to_i64_fits n h,
        )
        (refl, refl)
  try-from_signed nc (negsuc n) law h = rw (law.to_u64_negsuc n) (refl, refl)
