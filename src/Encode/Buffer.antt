-- ===== src/Encode/Buffer.antt =====
-- rmp/src/encode/buffer.rs: the writers that the crate brings: a growing buffer and, without the
-- standard library, a fixed one.
use msgpack_rust.Common.{
  ℕ, ◌-◌, refl, sym, List, [], ◌∷◌, ◌++◌, length, leb, if◌then◌else◌, append-nil, Bool-cases, inl,
  inr,
}
use msgpack_rust.Common.Outcome.{M, ok, err}
use msgpack_rust.Encode.{RmpWrite, default_write_u8}
use msgpack_rust.Encode.Logic.{Wrote, Writes, IsSink}

pub record ByteBuf : Type 0 where
  pub bytes : List ℕ

unfoldable pub new : ByteBuf
new = record { bytes = [] }

unfoldable pub from_vec : List ℕ → ByteBuf
from_vec bytes = record { bytes = bytes }

unfoldable pub into_vec : ByteBuf → List ℕ
into_vec buf = buf.bytes

-- `Infallible` has no value, so neither call can fail.
unfoldable pub buf_write_u8 : ℕ → M ByteBuf ⊥ (Unit {0})
buf_write_u8 val buf = ok tt (record { bytes = buf.bytes ++ (val ∷ []) })

unfoldable pub buf_write_bytes : List ℕ → M ByteBuf ⊥ (Unit {0})
buf_write_bytes chunk buf = ok tt (record { bytes = buf.bytes ++ chunk })

abbrev pub byte_buf : RmpWrite ByteBuf ⊥
byte_buf = record { write_u8 = buf_write_u8; write_bytes = buf_write_bytes }

-- `&mut [u8]`: the slots that are still free, and what stands in those before them.
pub record FixedBuf : Type 0 where
  pub filled : List ℕ
  pub remaining : ℕ

pub data FixedBufCapacityOverflow : Type 0 where
  capacity_overflow : FixedBufCapacityOverflow

unfoldable pub fixed_write_bytes : List ℕ → M FixedBuf FixedBufCapacityOverflow (Unit {0})
fixed_write_bytes chunk buf =
    if leb (length chunk) buf.remaining
    then ok tt (record { filled = buf.filled ++ chunk; remaining = buf.remaining - length chunk })
    else err capacity_overflow buf

-- The slice takes the trait's own `write_u8`.
unfoldable pub fixed_buf : RmpWrite FixedBuf FixedBufCapacityOverflow
unfolding fixed_write_bytes default_write_u8
fixed_buf = record {
  write_u8 = default_write_u8 fixed_write_bytes;
  write_bytes = fixed_write_bytes;
}

-- The growing buffer appends all that it is given.
pub byte_buf-IsSink : IsSink byte_buf (λ buf. buf.bytes)
unfolding buf_write_u8 buf_write_bytes
byte_buf-IsSink = record {
  u8 = λ b. record { run = λ w. (refl, refl) };
  bytes = λ bs. record { run = λ w. (refl, refl) };
}

fixed_write_bytes-Writes : (bs : List ℕ) → Writes (λ buf. buf.filled) (fixed_write_bytes bs) bs tt
unfolding fixed_write_bytes
fixed_write_bytes-Writes bs = record { run = written }
  where
    written : (w : FixedBuf) → Wrote (λ buf. buf.filled) w.filled bs tt (fixed_write_bytes bs w)
    written w = elim (Bool-cases (leb (length bs) w.remaining)) [
      | inl fits ↦ rw fits (refl, refl)
      | inr full ↦ rw full ([], bs, refl, sym (append-nil w.filled))
    ]

-- The fixed buffer appends a chunk whole, or refuses it and keeps what it holds.
pub fixed_buf-IsSink : IsSink fixed_buf (λ buf. buf.filled)
unfolding fixed_buf
fixed_buf-IsSink = record {
  u8 = λ b. fixed_write_bytes-Writes (b ∷ []);
  bytes = fixed_write_bytes-Writes;
}
