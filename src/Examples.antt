-- ===== src/Examples.antt =====
-- Concrete instances of the parameters, and the theorems at concrete inputs.
mod Ints
mod Texts
mod Lengths
mod Values
mod Serde
mod Decoding
mod Borrowed
use msgpack_rust.Common.{
  ℕ, ◌<◌, ◌≤◌, ◌^◌, ◌/◌, ◌≡◌, refl, sym, ap, ltb, leb, if◌then◌else◌, ◌&&◌, Bool, true, Option,
  none, some, List, [], ◌∷◌, ◌++◌, length, length-append, take, drop, le→ltb, lt→ltb, arith,
}
use msgpack_rust.Common.{false, length-take, leb→le}
use msgpack_rust.Common.Int.{ℤ, pos, negsuc, as_unsigned, as_signed}
use msgpack_rust.Common.Outcome.{M, Outcome, ok, err, ◌>>=◌, pure}
use msgpack_rust.ByteOrder.{ByteOrder, IsBigEndian, be_bytes, be_value}
use msgpack_rust.Encode.{io_write, default_write_u8}
use msgpack_rust.Encode.Logic.{IsSink}
use msgpack_rust.Encode.Buffer.{
  FixedBuf, FixedBufCapacityOverflow, fixed_buf, fixed_write_bytes, fixed_buf-IsSink,
}
use msgpack_rust.Decode.{io_read, default_read_u8, first_byte}
use msgpack_rust.Decode.Bytes.{
  BytesReadError, insufficient_bytes, slice_reader, slice_read_exact_buf,
}
use msgpack_rust.Decode.Readers.{slice_reader-IsSource}
use msgpack_rust.Decode.Logic.{Got, IsErr, Decodes, IsSource, Decodes-last, Decodes-pure}
use msgpack_rust.Decode.Int.{FromPrimitive, IsConversion}
use msgpack_rust.Decode.Str.{Utf8}
use msgpack_rust.Value.Ints.{NumCast, IsNumCast}
use msgpack_rust.Value.Read.{Read}
use msgpack_rust.Value.Marked.{IsStd}
use msgpack_rust.Value.Total.{IsTotal}
use msgpack_rust.Decode.Answers.{Fills, Yields}

abbrev pub big_endian : ByteOrder
big_endian = record {
  put_u = be_bytes;
  put_i = λ k z. be_bytes k (as_unsigned (256 ^ k) z);
  get_u = λ k bs. be_value bs;
  get_i = λ k bs. as_signed (256 ^ k / 2) (be_value bs);
}

pub big_endian-IsBigEndian : IsBigEndian big_endian
big_endian-IsBigEndian = record {
  put_u_lem = λ k n. refl;
  put_i_lem = λ k z. refl;
  get_u_lem = λ k bs. refl;
  get_i_lem = λ k bs. refl;
}

-- The numbers of a byte.
abbrev pub to_byte : ℤ → Option ℕ
to_byte (pos n) = if ltb n 256 then some n else none
to_byte (negsuc n) = none

abbrev pub byte_primitive : FromPrimitive ℕ
byte_primitive = record {
  from_u8 = λ n. to_byte (pos n);
  from_u16 = λ n. to_byte (pos n);
  from_u32 = λ n. to_byte (pos n);
  from_u64 = λ n. to_byte (pos n);
  from_i8 = to_byte;
  from_i16 = to_byte;
  from_i32 = to_byte;
  from_i64 = to_byte;
}

pub byte_primitive-IsConversion : IsConversion byte_primitive to_byte
byte_primitive-IsConversion = record {
  u8_lem = λ n. refl;
  u16_lem = λ n. refl;
  u32_lem = λ n. refl;
  u64_lem = λ n. refl;
  i8_lem = λ z. refl;
  i16_lem = λ z. refl;
  i32_lem = λ z. refl;
  i64_lem = λ z. refl;
}

-- The integers of the i64, which are all that the conversions from i64 give.
abbrev pub to_signed : ℤ → Option ℤ
to_signed (pos n) = if ltb n 9223372036854775808 then some (pos n) else none
to_signed (negsuc n) = if ltb n 9223372036854775808 then some (negsuc n) else none

abbrev pub signed_primitive : FromPrimitive ℤ
signed_primitive = record {
  from_u8 = λ n. to_signed (pos n);
  from_u16 = λ n. to_signed (pos n);
  from_u32 = λ n. to_signed (pos n);
  from_u64 = λ n. to_signed (pos n);
  from_i8 = to_signed;
  from_i16 = to_signed;
  from_i32 = to_signed;
  from_i64 = to_signed;
}

pub signed_primitive-IsConversion : IsConversion signed_primitive to_signed
signed_primitive-IsConversion = record {
  u8_lem = λ n. refl;
  u16_lem = λ n. refl;
  u32_lem = λ n. refl;
  u64_lem = λ n. refl;
  i8_lem = λ z. refl;
  i16_lem = λ z. refl;
  i32_lem = λ z. refl;
  i64_lem = λ z. refl;
}

-- Only ASCII is valid here.
abbrev pub all_ascii : List ℕ → Option (Unit {0})
all_ascii [] = none
all_ascii (b ∷ bs) = let rest = all_ascii bs in if ltb b 128 then rest else some tt

abbrev pub ascii : Utf8 (Unit {0})
ascii = record { error = all_ascii }

abbrev pub num_cast : NumCast
num_cast = record {
  to_i64 = λ n. if ltb n 9223372036854775808 then some (pos n) else none;
  to_u64 = λ z. elim z [ pos n ↦ some n | negsuc n ↦ none ];
}

pub num_cast-IsNumCast : IsNumCast num_cast
num_cast-IsNumCast = record {
  to_i64_fits = λ n h. rw (lt→ltb n 9223372036854775808 h) refl;
  to_i64_large = λ n h. rw (le→ltb n 9223372036854775808 h) refl;
  to_u64_pos = λ n. refl;
  to_u64_negsuc = λ n. refl;
}

-- A `std::io::Read` over a slice.
abbrev pub take_to_end : ℕ → M (List ℕ) BytesReadError (List ℕ)
take_to_end n s = ok (take n s) (drop n s)

abbrev pub slice_read : Read (List ℕ) BytesReadError
slice_read = record {
  read_exact = slice_read_exact_buf;
  take_to_end = take_to_end;
  new_error = λ kind. insufficient_bytes 0 0 0;
}

exact_Decodes : (bs : List ℕ) → Decodes (λ (s : List ℕ). s) (slice_read_exact_buf (length bs)) bs bs
exact_Decodes bs = unfold slice_reader in slice_reader-IsSource.exact bs

byte_Decodes :
    (b : ℕ) → Decodes (λ (s : List ℕ). s) (default_read_u8 slice_read_exact_buf) (b ∷ []) b
unfolding default_read_u8 first_byte
byte_Decodes b = Decodes-last first_byte (exact_Decodes (b ∷ [])) (Decodes-pure b)

pub slice_read-IsStd : IsStd slice_read (λ s. s)
unfolding io_read
slice_read-IsStd = record {
  source = record { u8 = byte_Decodes; exact = exact_Decodes };
  taken = λ n r. (refl, refl);
}

-- A `std::io::Write` over a slice, as `fixed_buf` without its trait.
pub slice_write-IsSink : IsSink (io_write fixed_write_bytes) (λ buf. buf.filled)
unfolding io_write fixed_buf
slice_write-IsSink = record { u8 = fixed_buf-IsSink.u8; bytes = fixed_buf-IsSink.bytes }

pub slice-Fills : Fills slice_read_exact_buf
unfolding slice_read_exact_buf
slice-Fills n = record { run = λ s. tested s (leb n (length s)) refl }
  where
    tested :
        (s : List ℕ) (b : Bool)
        → leb n (length s) ≡ b
        → Yields
            (λ bs. length bs ≡ n)
            (if b then ok (take n s) (drop n s) else err (insufficient_bytes n (length s) 0) s)
    tested s true e = omega (arith, length-take n s, leb→le n (length s) e)
    tested s false e = tt

pub slice_read-IsTotal : IsTotal slice_read
slice_read-IsTotal = record { exact = slice-Fills; to_end = λ n. record { run = λ s. tt } }
