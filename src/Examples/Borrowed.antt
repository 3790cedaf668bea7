-- ===== src/Examples/Borrowed.antt =====
-- The theorems on borrowed values at concrete inputs.
use msgpack_rust.Common.{◌≤◌, ◌≡◌, refl, some, [], ◌∷◌, length, drop, arith}
use msgpack_rust.Common.Int.{negsuc}
use msgpack_rust.Encode.Buffer.{fixed_write_bytes}
use msgpack_rust.Value.Ints.{from_signed}
use msgpack_rust.Value.Read.{read_value_with_max_depth}
use msgpack_rust.Value.Write.{write_value}
use msgpack_rust.Value.Borrowed
use msgpack_rust.Value.Borrowed.{ValueRef, to_owned}
use msgpack_rust.Value.Borrowed.Reader.{read_value_ref_with_max_depth}
use msgpack_rust.Value.Borrowed.Same.{Same}
use msgpack_rust.Value.Borrowed.Sources.{IsBorrowRead}
use msgpack_rust.Value.Borrowed.Forms.{read_value_ref-read_value}
use msgpack_rust.Value.Borrowed.Writer.{write_value_ref, write_value_ref-write_value}
use msgpack_rust.Value.Borrowed.Slices.{
  slice, slice-IsBorrowRead, Cursor, cursor_fill_buf, cursor_consume,
  cursor_consume-cursor_fill_buf,
}
use msgpack_rust.Examples.{big_endian, ascii, slice_read}

slice-IsBorrowRead_example : IsBorrowRead (slice slice_read)
slice-IsBorrowRead_example = slice-IsBorrowRead slice_read (λ n s. refl)

slice_borrow : IsBorrowRead (slice slice_read)
slice_borrow = slice-IsBorrowRead slice_read (λ n s. refl)

read_value_ref_example :
    Same to_owned
      (read_value_with_max_depth big_endian ascii (slice slice_read).read 5)
      (read_value_ref_with_max_depth big_endian ascii (slice slice_read) 5)
read_value_ref_example = read_value_ref-read_value big_endian ascii slice_borrow 5

abbrev sample : ValueRef (Unit {0})
sample = Borrowed.array (
    Borrowed.value (Borrowed.integer (from_signed (negsuc 4)))
      (Borrowed.value (Borrowed.string (Borrowed.raw (255 ∷ []) tt)) Borrowed.no_values))

write_value_ref_example :
    write_value_ref big_endian fixed_write_bytes sample
    ≡ write_value big_endian fixed_write_bytes (to_owned sample)
write_value_ref_example = write_value_ref-write_value big_endian fixed_write_bytes sample

abbrev cursor : Cursor
cursor = record { position = 1; get_ref = 7 ∷ (8 ∷ (9 ∷ [])) }

cursor-room : 1 ≤ length (cursor_fill_buf cursor)
unfolding cursor_fill_buf
cursor-room = omega arith

cursor_consume_example :
    (d : Cursor) × (cursor_consume 1 cursor ≡ some d)
    × (cursor_fill_buf d ≡ drop 1 (cursor_fill_buf cursor))
cursor_consume_example =
    cursor_consume-cursor_fill_buf cursor 1 (omega arith) (omega arith) cursor-room
