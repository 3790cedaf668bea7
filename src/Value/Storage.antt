-- ===== src/Value/Storage.antt =====
-- rmpv/src/encode/value.rs and decode/value.rs: writing a value and then reading it.
use msgpack_rust.Common.{ℕ, ◌≤◌, List}
use msgpack_rust.Common.Outcome.{M}
use msgpack_rust.ByteOrder.{ByteOrder, IsBigEndian}
use msgpack_rust.Encode.{io_write}
use msgpack_rust.Encode.Logic.{Writes, IsSink}
use msgpack_rust.Decode.Str.{Utf8}
use msgpack_rust.Decode.Logic.{Decodes}
use msgpack_rust.Value.{Value}
use msgpack_rust.Value.Write.{write_value}
use msgpack_rust.Value.Read.{Read, read_value_with_max_depth}
use msgpack_rust.Value.Encoding.{need}
use msgpack_rust.Value.Marked.{IsStd}
use msgpack_rust.Value.Stored.{IsValue, settle}
use msgpack_rust.Value.Written.{write_value-Writes}
use msgpack_rust.Value.RoundTrip.{read_value_with_max_depth-Decodes}

module _ {bo : ByteOrder} (big : IsBigEndian bo) {U : Type 0} (utf8 : Utf8 U) {W E : Type 0}
    (write_all : List ℕ → M W E (Unit {0})) {sent : W → List ℕ}
    (sink : IsSink (io_write write_all) sent) {R F : Type 0} {rd : Read R F} {left : R → List ℕ}
    (std : IsStd rd left) where
  -- `read_value_with_max_depth` takes exactly the bytes that `write_value` wrote and gives the
  -- value back, with the strings that are not UTF-8 turned into byte arrays, where the lengths fit
  -- in 32 bits and the depth is within the limit.
  pub write_value-read_value :
      (v : Value U) (limit : ℕ)
      → IsValue utf8 v
      → need (settle v) ≤ limit
      → (bs : List ℕ) × Writes sent (write_value bo write_all v) bs tt
        × Decodes left (read_value_with_max_depth bo utf8 rd limit) bs (settle v)
  write_value-read_value v limit h deep =
      let (bs, encoded, plain, writes) = write_value-Writes big utf8 write_all sink v h in
      (bs, writes, read_value_with_max_depth-Decodes big utf8 std (settle v) bs limit encoded deep)
