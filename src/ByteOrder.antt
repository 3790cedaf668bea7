-- ===== src/ByteOrder.antt =====
-- The byteorder crate, which rmp calls for numbers of two, four and eight bytes: a parameter of
-- the model. `IsBigEndian` states what its documentation says of `BigEndian`.
pub mod Laws
use msgpack_rust.Common.{ℕ, zero, suc, ◌+◌, ◌*◌, ◌/◌, ◌%◌, ◌^◌, ◌≡◌, List, [], ◌∷◌, ◌++◌}
use msgpack_rust.Common.Int.{ℤ, as_signed, as_unsigned}

-- `k` is the width in bytes: `put_u 2` is `BigEndian::write_u16`, `get_i 8` is `read_i64`.
pub record ByteOrder : Type 0 where
  pub put_u : ℕ → ℕ → List ℕ
  pub put_i : ℕ → ℤ → List ℕ
  pub get_u : ℕ → List ℕ → ℕ
  pub get_i : ℕ → List ℕ → ℤ

-- The `k` lowest bytes of `n`, highest first.
unfoldable pub be_bytes : ℕ → ℕ → List ℕ
be_bytes zero n = []
be_bytes (suc k) n = be_bytes k (n / 256) ++ ((n % 256) ∷ [])

unfoldable pub be_from : ℕ → List ℕ → ℕ
be_from acc [] = acc
be_from acc (b ∷ bs) = be_from (acc * 256 + b) bs

-- The number that a string of bytes stands for.
unfoldable pub be_value : List ℕ → ℕ
unfolding be_from
be_value = be_from 0

-- Signed numbers are two's complement.
pub record IsBigEndian (bo : ByteOrder) : Type 0 where
  pub put_u_lem : (k n : ℕ) → bo.put_u k n ≡ be_bytes k n
  pub put_i_lem : (k : ℕ) (z : ℤ) → bo.put_i k z ≡ be_bytes k (as_unsigned (256 ^ k) z)
  pub get_u_lem : (k : ℕ) (bs : List ℕ) → bo.get_u k bs ≡ be_value bs
  pub get_i_lem : (k : ℕ) (bs : List ℕ) → bo.get_i k bs ≡ as_signed (256 ^ k / 2) (be_value bs)
