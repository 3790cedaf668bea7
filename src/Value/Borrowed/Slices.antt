-- ===== src/Value/Borrowed/Slices.antt =====
-- rmpv/src/decode/value_ref.rs: `impl BorrowRead for &[u8]` and `impl BorrowRead for Cursor<&[u8]>`.
use Prim.Native.Nat.{min}
use msgpack_rust.Common.{
  ℕ, zero, suc, ◌+◌, ◌<◌, ◌≤◌, ◌^◌, ◌≡◌, refl, ap, [], ◌∷◌, ltb, leb, if◌then◌else◌, Option, none,
  some, List, length, take, drop, le→leb, lt→ltb, length-drop, arith,
}
use msgpack_rust.Common.Outcome.{ok}
use msgpack_rust.Value.Read.{Read}
use msgpack_rust.Value.Borrowed.Reader.{BorrowRead}
use msgpack_rust.Value.Borrowed.Sources.{IsBorrowRead}

-- `&(*self)[len..]` panics where `len` is past the end.
unfoldable pub slice_consume : ℕ → List ℕ → Option (List ℕ)
slice_consume len s = if leb len (length s) then some (drop len s) else none

-- A slice with the `Read` that the standard library gives it.
unfoldable pub slice : {E : Type 0} → Read (List ℕ) E → BorrowRead (List ℕ) E
unfolding slice_consume
slice rd = record { read = rd; fill_buf = λ s. s; consume = slice_consume }

-- `std::io::Cursor`.
pub record Cursor : Type 0 where
  pub position : ℕ
  pub get_ref : List ℕ

unfoldable pub cursor_fill_buf : Cursor → List ℕ
cursor_fill_buf c = drop (min c.position (length c.get_ref)) c.get_ref

-- The sum is on 64 bits, and panics where it overflows.
unfoldable pub cursor_consume : ℕ → Cursor → Option Cursor
cursor_consume len c =
    if ltb (c.position + len) (2 ^ 64)
    then some (record { position = c.position + len; get_ref = c.get_ref })
    else none

take_all : (n : ℕ) (s : List ℕ) → length s < n → take n s ≡ s
take_all zero s h = absurd (omega arith)
take_all (suc n) [] h = refl
take_all (suc n) (x ∷ s) h = ap (◌∷◌ x) (take_all n s (omega arith))

-- A slice, whose `Read` takes up to the bytes asked for, is a reader whose buffer is what is left
-- to read, and consuming bytes of the buffer is reading them.
pub slice-IsBorrowRead :
    {E : Type 0} (rd : Read (List ℕ) E)
    → ((n : ℕ) (s : List ℕ) → rd.take_to_end n s ≡ ok (take n s) (drop n s))
    → IsBorrowRead (slice rd)
unfolding slice slice_consume
slice-IsBorrowRead rd std = record {
  there = λ n s fits. (drop n s, rw (le→leb n (length s) fits) refl, std n s);
  short = λ n s few. (drop n s, rw (std n s, take_all n s few) refl);
}

drop-drop : (m n k : ℕ) (s : List ℕ) → k ≡ m + n → drop k s ≡ drop n (drop m s)
drop-drop zero n k s e = let same : k ≡ n = omega arith in rw same refl
drop-drop (suc m) n zero s e = absurd (omega arith)
drop-drop (suc m) zero (suc k) [] e = refl
drop-drop (suc m) (suc n) (suc k) [] e = refl
drop-drop (suc m) n (suc k) (x ∷ s) e = drop-drop m n k s (omega arith)

-- A cursor over less than 2^64 bytes can consume any bytes of its buffer, with no overflow of its
-- position, and its buffer is then what is behind them.
pub cursor_consume-cursor_fill_buf :
    (c : Cursor) (n : ℕ)
    → length c.get_ref < 2 ^ 64
    → c.position < 2 ^ 64
    → n ≤ length (cursor_fill_buf c)
    → (d : Cursor) × (cursor_consume n c ≡ some d)
      × (cursor_fill_buf d ≡ drop n (cursor_fill_buf c))
unfolding cursor_consume cursor_fill_buf
cursor_consume-cursor_fill_buf c n short pos fits =
    let room = length-drop (min c.position (length c.get_ref)) c.get_ref in
    let inside : c.position + n < 2 ^ 64 = omega (arith, room) in
    (
      record { position = c.position + n; get_ref = c.get_ref },
      rw (lt→ltb (c.position + n) (2 ^ 64) inside) refl,
      drop-drop (min c.position (length c.get_ref)) n _ c.get_ref (omega (arith, room)),
    )
