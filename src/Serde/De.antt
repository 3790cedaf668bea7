-- ===== src/Serde/De.antt =====
-- rmp-serde/src/decode.rs: the errors, the readers, and the state of a `Deserializer`.
pub mod Any
pub mod Visitor
pub mod Logic
pub mod Loops
pub mod Parts
pub mod Forms
pub mod Read
pub mod Readers
pub mod Api
pub mod Safe
pub mod Streams
pub mod Elements
pub mod Total
pub mod Calls
use Prim.Native.String.{String}
use msgpack_rust.Common.{ℕ, if◌then◌else◌, ltb, Option, none, some, List, length, take, drop}
use msgpack_rust.Common.Outcome.{Outcome, ok, err, panicked, M, ◌>>=◌, ◌>>◌, map_err, pure}
use msgpack_rust.ByteOrder.{ByteOrder}
use msgpack_rust.Marker.{Marker}
use msgpack_rust.Decode
use msgpack_rust.Decode.{RmpRead, ValueReadError, io_read, read_marker}
use msgpack_rust.Serde.Config.{Config, default_config}

pub data Error (U E : Type 0) : Type 0 where
  invalid_marker_read : E → Error U E
  invalid_data_read : E → Error U E
  type_mismatch : Marker → Error U E
  out_of_range : Error U E
  length_mismatch : ℕ → Error U E
  uncategorized : String → Error U E
  syntax : String → Error U E
  utf8_error : U → Error U E
  depth_limit_exceeded : Error U E

-- `impl From<ValueReadError> for Error`
unfoldable pub from_value_error : {U E : Type 0} → ValueReadError E → Error U E
from_value_error (Decode.type_mismatch mk) = type_mismatch mk
from_value_error (Decode.invalid_marker_read e) = invalid_marker_read e
from_value_error (Decode.invalid_data_read e) = invalid_data_read e

pub data Reference : Type 0 where
  borrowed : List ℕ → Reference
  copied : List ℕ → Reference

-- The trait `ReadSlice`, which is a `Read` too.
pub record ReadSlice (R E : Type 0) : Type 0 where
  pub read_exact : ℕ → M R E (List ℕ)
  pub read_slice : ℕ → M R E Reference

-- `ReadRefReader`, over the slice that it reads.
pub record ReadRefReader : Type 0 where
  pub whole_slice : List ℕ
  pub buf : List ℕ

unfoldable pub new_ref : List ℕ → ReadRefReader
new_ref rd = record { whole_slice = rd; buf = rd }

unfoldable pub remaining_slice : ReadRefReader → List ℕ
remaining_slice rd = rd.buf

-- `eof` is the `io::Error` that is made of `ErrorKind::UnexpectedEof`.
unfoldable pub ref_read_slice : {E : Type 0} → E → ℕ → M ReadRefReader E Reference
ref_read_slice eof len rd =
    if ltb (length rd.buf) len
    then err eof rd
    else ok (borrowed (take len rd.buf))
        (record { whole_slice = rd.whole_slice; buf = drop len rd.buf })

pub record Deserializer (R : Type 0) : Type 0 where
  pub rd : R
  pub config : Config
  pub marker : Option Marker
  pub depth : ℕ

unfoldable pub set_max_depth : {R : Type 0} → ℕ → Deserializer R → Deserializer R
set_max_depth depth de = record {
  rd = de.rd;
  config = de.config;
  marker = de.marker;
  depth = depth;
}

module _ {R E A : Type 0} where
  abbrev pub on_outcome : Config → Option Marker → ℕ → Outcome R E A → Outcome (Deserializer R) E A
  on_outcome config marker depth (ok a rd) =
      ok a (record { rd = rd; config = config; marker = marker; depth = depth })
  on_outcome config marker depth (err e rd) =
      err e (record { rd = rd; config = config; marker = marker; depth = depth })
  on_outcome config marker depth panicked = panicked

  -- A call on `self.rd`.
  unfoldable pub on_rd : M R E A → M (Deserializer R) E A
  on_rd m de = on_outcome de.config de.marker de.depth (m de.rd)

module _ {R E : Type 0} where
  -- `self.marker = marker`
  unfoldable pub set_marker : Option Marker → M (Deserializer R) E (Unit {0})
  set_marker marker de =
      ok tt (record { rd = de.rd; config = de.config; marker = marker; depth = de.depth })

module _ {R E : Type 0} (rs : ReadSlice R E) where
  abbrev pub rmp : RmpRead R E
  rmp = io_read rs.read_exact

module _ {U R E : Type 0} (rs : ReadSlice R E) where
  -- The cached marker, or the next one. `?` turns a `MarkerReadError` into an `Error`.
  unfoldable pub cached_or_read : Option Marker → M (Deserializer R) (Error U E) Marker
  unfolding on_rd set_marker
  cached_or_read none = on_rd (map_err invalid_marker_read (read_marker (rmp rs)))
  cached_or_read (some mk) = do set_marker none; pure mk

  unfoldable pub take_or_read_marker : M (Deserializer R) (Error U E) Marker
  unfolding cached_or_read
  take_or_read_marker de = cached_or_read de.marker de

  unfoldable pub peek_or_read_marker : M (Deserializer R) (Error U E) Marker
  unfolding on_rd set_marker
  peek_or_read_marker de = elim de.marker [
    | some mk ↦ ok mk de
    | none ↦
        (do
          mk ← on_rd (map_err invalid_marker_read (read_marker (rmp rs)))
          set_marker (some mk)
          pure mk)
          de
  ]

  unfoldable pub read_bin_data : ℕ → M R (Error U E) Reference
  read_bin_data len = map_err invalid_data_read (rs.read_slice len)

  unfoldable pub read_u8 : M R (Error U E) ℕ
  read_u8 = map_err invalid_data_read (rmp rs).read_u8

module _ (bo : ByteOrder) {U R E : Type 0} (rs : ReadSlice R E) where
  unfoldable pub read_u16 : M R (Error U E) ℕ
  read_u16 = do buf ← map_err invalid_data_read (rs.read_exact 2); pure (bo.get_u 2 buf)

  unfoldable pub read_u32 : M R (Error U E) ℕ
  read_u32 = do buf ← map_err invalid_data_read (rs.read_exact 4); pure (bo.get_u 4 buf)
