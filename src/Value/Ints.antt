-- ===== src/Value/Ints.antt =====
-- rmpv/src/lib.rs: the integers of a `Value` and their conversions.
use msgpack_rust.Common.{
  le→ltb, leb→le, leb→lt, Bool-cases, inl, inr, ℕ, ◌<◌, ◌≤◌, ◌≡◌, refl, Bool, true, false, Option,
  none, some, leb, if◌then◌else◌, arith,
}
use msgpack_rust.Common.Int.{ℤ, pos, negsuc, ltb_ℤ, as_unsigned, as_unsigned_pos, IsSigned}
use msgpack_rust.Value.{Integer, IntPriv, pos_int, neg_int}

-- `NumCast::from` of the num_traits crate, from u64 to i64 and back.
pub record NumCast : Type 0 where
  pub to_i64 : ℕ → Option ℤ
  pub to_u64 : ℤ → Option ℕ

-- Its documented behaviour: the value if the other type can represent it, else `None`.
pub record IsNumCast (nc : NumCast) : Type 0 where
  pub to_i64_fits : (n : ℕ) → n < 9223372036854775808 → nc.to_i64 n ≡ some (pos n)
  pub to_i64_large : (n : ℕ) → 9223372036854775808 ≤ n → nc.to_i64 n ≡ none
  pub to_u64_pos : (n : ℕ) → nc.to_u64 (pos n) ≡ some n
  pub to_u64_negsuc : (n : ℕ) → nc.to_u64 (negsuc n) ≡ none

unfoldable pub is_i64 : Integer → Bool
is_i64 i = elim i.n [ pos_int n ↦ leb n 9223372036854775807 | neg_int z ↦ true ]

unfoldable pub is_u64 : Integer → Bool
is_u64 i = elim i.n [ pos_int n ↦ true | neg_int z ↦ false ]

unfoldable pub as_i64 : NumCast → Integer → Option ℤ
as_i64 nc i = elim i.n [ pos_int n ↦ nc.to_i64 n | neg_int z ↦ some z ]

unfoldable pub as_u64 : NumCast → Integer → Option ℕ
as_u64 nc i = elim i.n [ pos_int n ↦ some n | neg_int z ↦ nc.to_u64 z ]

-- `From<u8>` to `From<u64>` and `From<usize>`, which share this body.
unfoldable pub from_unsigned : ℕ → Integer
from_unsigned n = record { n = pos_int n }

-- `From<i8>` to `From<i64>` and `From<isize>`, which share this body.
unfoldable pub from_signed : ℤ → Integer
from_signed z =
    if ltb_ℤ z (pos 0)
    then record { n = neg_int z }
    else record { n = pos_int (as_unsigned 18446744073709551616 z) }

-- `NegInt` holds only numbers below zero, as its declaration says, and both fit 64 bits.
abbrev pub IsIntPriv : IntPriv → Type 0
IsIntPriv (pos_int n) = n < 18446744073709551616
IsIntPriv (neg_int (pos n)) = ⊥
IsIntPriv (neg_int (negsuc n)) = n < 9223372036854775808

-- The number that it stands for.
abbrev pub to_ℤ : IntPriv → ℤ
to_ℤ (pos_int n) = pos n
to_ℤ (neg_int z) = z

-- A signed number of 64 bits is stored under its own sign: the conversion gives back the number
-- that an integer in that form stands for.
pub from_signed-to_ℤ : (p : IntPriv) → IsIntPriv p → from_signed (to_ℤ p) ≡ record { n = p }
unfolding from_signed
from_signed-to_ℤ (pos_int n) h =
    rw (le→ltb n 0 (omega arith), as_unsigned_pos 18446744073709551616 n h)
from_signed-to_ℤ (neg_int (pos n)) h = absurd h
from_signed-to_ℤ (neg_int (negsuc n)) h = refl

-- What `is_i64` and `as_i64` say of an integer that stands for `z`.
abbrev pub AgreesI64 : Bool → Option ℤ → ℤ → Type 0
AgreesI64 true o z = (o ≡ some z) × IsSigned 9223372036854775808 z
AgreesI64 false o z = (o ≡ none) × ¬ (IsSigned 9223372036854775808 z)

-- Of the integers in the form that is stored, `is_i64` holds exactly of those that fit an i64, and
-- `as_i64` gives those and refuses the others.
pub as_i64-is_i64 :
    (nc : NumCast) (i : Integer)
    → IsNumCast nc
    → IsIntPriv i.n
    → AgreesI64 (is_i64 i) (as_i64 nc i) (to_ℤ i.n)
unfolding is_i64 as_i64
as_i64-is_i64 nc i law = by_priv i.n
  where
    by_priv :
        (p : IntPriv)
        → IsIntPriv p
        → AgreesI64 (is_i64 (record { n = p })) (as_i64 nc (record { n = p })) (to_ℤ p)
    by_priv (pos_int n) h = elim (Bool-cases (leb n 9223372036854775807)) [
      | inl e ↦
          let small : n < 9223372036854775808 = omega (arith, leb→le n 9223372036854775807 e) in
          rw e (law.to_i64_fits n small, small)
      | inr e ↦
          let large : 9223372036854775808 ≤ n = leb→lt n 9223372036854775807 e in
          rw e (law.to_i64_large n large, λ k. omega arith)
    ]
    by_priv (neg_int (pos n)) h = absurd h
    by_priv (neg_int (negsuc n)) h = (refl, h)

abbrev pub AgreesU64 : Bool → Option ℕ → ℤ → Type 0
AgreesU64 true o z = (n : ℕ) × (o ≡ some n) × (z ≡ pos n)
AgreesU64 false o z = (n : ℕ) × (o ≡ none) × (z ≡ negsuc n)

-- `is_u64` holds exactly of the integers that are not negative, `as_u64` gives those and refuses
-- the others.
pub as_u64-is_u64 :
    (nc : NumCast) (i : Integer)
    → IsNumCast nc
    → IsIntPriv i.n
    → AgreesU64 (is_u64 i) (as_u64 nc i) (to_ℤ i.n)
unfolding is_u64 as_u64
as_u64-is_u64 nc i law = by_priv i.n
  where
    by_priv :
        (p : IntPriv)
        → IsIntPriv p
        → AgreesU64 (is_u64 (record { n = p })) (as_u64 nc (record { n = p })) (to_ℤ p)
    by_priv (pos_int n) h = (n, refl, refl)
    by_priv (neg_int (pos n)) h = absurd h
    by_priv (neg_int (negsuc n)) h = (n, law.to_u64_negsuc n, refl)
