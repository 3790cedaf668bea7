-- ===== src/Decode/Bytes.antt =====
-- rmp/src/decode/bytes.rs: the readers that the crate brings: a cursor over a slice and, without
-- the standard library, the slice itself.
use msgpack_rust.Common.{ℕ, ◌+◌, List, [], ◌∷◌, length, take, drop, leb, if◌then◌else◌}
use msgpack_rust.Common.Outcome.{Outcome, M, ok, err}
use msgpack_rust.Decode.{RmpRead}

pub data BytesReadError : Type 0 where
  insufficient_bytes : (expected actual position : ℕ) → BytesReadError

pub record Bytes : Type 0 where
  pub current_position : ℕ
  pub bytes : List ℕ

unfoldable pub new : List ℕ → Bytes
new bytes = record { current_position = 0; bytes = bytes }

unfoldable pub remaining_slice : Bytes → List ℕ
remaining_slice b = b.bytes

unfoldable pub position : Bytes → ℕ
position b = b.current_position

-- The match on `split_first`.
unfoldable pub split_read : ℕ → List ℕ → Outcome Bytes BytesReadError ℕ
split_read pos [] = err (insufficient_bytes 1 0 pos) (record { current_position = pos; bytes = [] })
split_read pos (first ∷ newly_remaining) =
    ok first (record { current_position = pos + 1; bytes = newly_remaining })

-- The position is a u64, which no slice in memory is long enough to pass.
unfoldable pub bytes_read_u8 : M Bytes BytesReadError ℕ
unfolding split_read
bytes_read_u8 b = split_read b.current_position b.bytes

unfoldable pub bytes_read_exact_buf : ℕ → M Bytes BytesReadError (List ℕ)
bytes_read_exact_buf to_read b =
    if leb to_read (length b.bytes)
    then ok (take to_read b.bytes)
        (record { current_position = b.current_position + to_read; bytes = drop to_read b.bytes })
    else err (insufficient_bytes to_read (length b.bytes) b.current_position) b

unfoldable pub bytes_reader : RmpRead Bytes BytesReadError
unfolding bytes_read_u8 bytes_read_exact_buf
bytes_reader = record { read_u8 = bytes_read_u8; read_exact_buf = bytes_read_exact_buf }

-- `impl RmpRead for &[u8]`: the slice is shortened from the front; errors name position 0.
unfoldable pub slice_read_u8 : M (List ℕ) BytesReadError ℕ
slice_read_u8 [] = err (insufficient_bytes 1 0 0) []
slice_read_u8 (first ∷ newly_remaining) = ok first newly_remaining

unfoldable pub slice_read_exact_buf : ℕ → M (List ℕ) BytesReadError (List ℕ)
slice_read_exact_buf to_read s =
    if leb to_read (length s)
    then ok (take to_read s) (drop to_read s)
    else err (insufficient_bytes to_read (length s) 0) s

unfoldable pub slice_reader : RmpRead (List ℕ) BytesReadError
unfolding slice_read_u8 slice_read_exact_buf
slice_reader = record { read_u8 = slice_read_u8; read_exact_buf = slice_read_exact_buf }
