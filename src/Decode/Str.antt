-- ===== src/Decode/Str.antt =====
-- rmp/src/decode/str.rs: strings, read into a buffer or borrowed from a slice.
use msgpack_rust.Common.{
  ℕ, ◌+◌, ltb, leb, ◌==◌, if◌then◌else◌, Option, none, some, List, length, take, drop,
}
use msgpack_rust.Common.Outcome.{Outcome, M, ok, panicked, ◌>>=◌, map_err, pure, fail, panic}
use msgpack_rust.ByteOrder.{ByteOrder}
use msgpack_rust.Marker.{Marker}
use msgpack_rust.Decode
use msgpack_rust.Decode.{RmpRead, ValueReadError}
use msgpack_rust.Decode.Bytes.{Bytes, BytesReadError, bytes_reader, remaining_slice, new}
use msgpack_rust.Decode.Len.{read_str_len, read_str_len_with_nread}

-- `core::str::from_utf8`, as far as it is used: the error on bytes that are not UTF-8, where `U`
-- stands for `Utf8Error`. A `&str` is its bytes.
pub record Utf8 (U : Type 0) : Type 0 where
  pub error : List ℕ → Option U

pub data DecodeStringError (U E : Type 0) : Type 0 where
  invalid_marker_read : E → DecodeStringError U E
  invalid_data_read : E → DecodeStringError U E
  type_mismatch : Marker → DecodeStringError U E
  buffer_size_too_small : ℕ → DecodeStringError U E
  invalid_utf8 : List ℕ → U → DecodeStringError U E

-- `impl From<ValueReadError> for DecodeStringError`
unfoldable pub from_value_error : {U E : Type 0} → ValueReadError E → DecodeStringError U E
from_value_error (Decode.invalid_marker_read e) = invalid_marker_read e
from_value_error (Decode.invalid_data_read e) = invalid_data_read e
from_value_error (Decode.type_mismatch mk) = type_mismatch mk

-- `decoded` if the check of `buf` found no error; `whole` is what the error carries.
unfoldable pub checked : {S U E A : Type 0} → Option U → List ℕ → A → M S (DecodeStringError U E) A
checked none whole decoded = pure decoded
checked (some e) whole decoded = fail (invalid_utf8 whole e)

module _ (bo : ByteOrder) {U : Type 0} (utf8 : Utf8 U) {R E : Type 0} (rd : RmpRead R E) where
  -- `size` is the size of the buffer; the assertion is one of debug builds.
  unfoldable pub read_str_data : ℕ → ℕ → M R (DecodeStringError U E) (List ℕ)
  unfolding checked
  read_str_data len size =
      if len == size
      then (do
        buf ← map_err invalid_data_read (rd.read_exact_buf size)
        checked (utf8.error buf) buf buf)
      else panic

  unfoldable pub read_str : ℕ → M R (DecodeStringError U E) (List ℕ)
  unfolding read_str_data
  read_str size = do
    len ← map_err from_value_error (read_str_len bo rd)
    if ltb size len then fail (buffer_size_too_small len) else read_str_data len len

-- `&cur.remaining_slice()[..len]`
unfoldable pub slice_to : {E : Type 0} → ℕ → M Bytes E (List ℕ)
unfolding remaining_slice
slice_to len cur =
    if leb len (length (remaining_slice cur))
    then ok (take len (remaining_slice cur)) cur
    else panicked

module _ (bo : ByteOrder) (U : Type 0) where
  unfoldable pub read_str_ref : List ℕ → Outcome Bytes (DecodeStringError U BytesReadError) (List ℕ)
  unfolding slice_to new
  read_str_ref rd =
      (do len ← map_err from_value_error (read_str_len bo bytes_reader); slice_to len) (new rd)

module _ (bo : ByteOrder) {U : Type 0} (utf8 : Utf8 U) where
  -- What follows the header of `read_str_from_slice`; `buf[nread..]` is in range after a header.
  unfoldable pub split_str :
      List ℕ → ℕ × ℕ → M Bytes (DecodeStringError U BytesReadError) (List ℕ × List ℕ)
  unfolding checked
  split_str buf (ulen, nread) =
      if leb nread (length buf)
      then (if leb ulen (length (drop nread buf))
          then (let val = drop nread (take (nread + ulen) buf) in
              checked (utf8.error val) buf (val, drop (nread + ulen) buf))
          else fail (buffer_size_too_small ulen))
      else panic

  unfoldable pub read_str_from_slice :
      List ℕ → Outcome Bytes (DecodeStringError U BytesReadError) (List ℕ × List ℕ)
  unfolding split_str new
  read_str_from_slice buf =
      (do
        header ← map_err from_value_error (read_str_len_with_nread bo bytes_reader)
        split_str buf header)
        (new buf)
