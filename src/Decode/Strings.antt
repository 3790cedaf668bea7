-- ===== src/Decode/Strings.antt =====
-- rmp/src/decode/str.rs: what the functions that read a whole string give back.
use msgpack_rust.Common.{
  ℕ, ◌<◌, ◌≤◌, ◌≡◌, none, some, List, ◌++◌, length, ◌==◌, true, le→ltb, lt→ltb, arith,
}
use msgpack_rust.ByteOrder.{ByteOrder, IsBigEndian}
use msgpack_rust.Marker.{Marker}
use msgpack_rust.Format.{header, StrForm}
use msgpack_rust.Decode.{RmpRead}
use msgpack_rust.Decode.Str.{
  Utf8, buffer_size_too_small, invalid_utf8, checked, read_str_data, read_str,
}
use msgpack_rust.Decode.Logic.{
  Decodes, Fails, IsSource, Decodes->>=, Fails->>=, Decodes-last, Fails-last, Decodes-pure,
  Decodes-map_err, Fails-fail,
}
use msgpack_rust.Decode.Headers.{read_str_len-Decodes}

==_refl : (n : ℕ) → (n == n) ≡ true
==_refl n = ground arith

module _ {bo : ByteOrder} (big : IsBigEndian bo) {U : Type 0} (utf8 : Utf8 U) {R E : Type 0}
    {rd : RmpRead R E} {left : R → List ℕ} (source : IsSource rd left) where
  read_str_data-Decodes :
      (text : List ℕ)
      → utf8.error text ≡ none
      → Decodes left (read_str_data bo utf8 rd (length text) (length text)) text text
  unfolding read_str_data
  read_str_data-Decodes text valid = rw (==_refl (length text)) (
      Decodes-last _ (Decodes-map_err _ (source.exact text))
        (rw valid (unfold checked in Decodes-pure text)))

  read_str_data-Fails :
      (text : List ℕ) (e : U)
      → utf8.error text ≡ some e
      → Fails left (read_str_data bo utf8 rd (length text) (length text)) text (invalid_utf8 text e)
  unfolding read_str_data
  read_str_data-Fails text e invalid = rw (==_refl (length text)) (
      Fails-last _ (Decodes-map_err _ (source.exact text))
        (rw invalid (unfold checked in Fails-fail (invalid_utf8 text e))))

  -- `read_str` gives the bytes of a valid string behind any header for it, if the buffer is large
  -- enough.
  pub read_str-Decodes :
      (mk : Marker) (text : List ℕ) (size : ℕ)
      → StrForm mk (length text)
      → utf8.error text ≡ none
      → length text ≤ size
      → Decodes left (read_str bo utf8 rd size) (header mk (length text) ++ text) text
  unfolding read_str
  read_str-Decodes mk text size form valid h =
      Decodes->>= _ (Decodes-map_err _ (read_str_len-Decodes big source mk (length text) form))
        (rw (le→ltb size (length text) h) (read_str_data-Decodes text valid))

  -- `read_str` takes bytes that are not UTF-8 and hands them back in the error, if the buffer is
  -- large enough.
  pub read_str_invalid :
      (mk : Marker) (text : List ℕ) (size : ℕ) (e : U)
      → StrForm mk (length text)
      → utf8.error text ≡ some e
      → length text ≤ size
      → Fails left
          (read_str bo utf8 rd size)
          (header mk (length text) ++ text)
          (invalid_utf8 text e)
  unfolding read_str
  read_str_invalid mk text size e form invalid h =
      Fails->>= _ (Decodes-map_err _ (read_str_len-Decodes big source mk (length text) form))
        (rw (le→ltb size (length text) h) (read_str_data-Fails text e invalid))

  -- A string that does not fit the buffer is refused by `read_str` with its header taken and its
  -- bytes left.
  pub read_str_too_small :
      (mk : Marker) (n size : ℕ)
      → StrForm mk n
      → size < n
      → Fails left (read_str bo utf8 rd size) (header mk n) (buffer_size_too_small n)
  unfolding read_str
  read_str_too_small mk n size form h =
      Fails-last _ (Decodes-map_err _ (read_str_len-Decodes big source mk n form))
        (rw (lt→ltb size n h) (Fails-fail (buffer_size_too_small n)))
