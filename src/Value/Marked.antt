-- ===== src/Value/Marked.antt =====
-- rmpv/src/decode/value.rs: what is read behind each marker.
use msgpack_rust.Common.{
  ℕ, suc, ◌<◌, ◌≡◌, ap, ◌∙◌, subst, List, ◌∷◌, ◌++◌, length, take, drop, length-take, length-append,
  take-append_length, drop-append_length, ◌==◌, if◌then◌else◌, true, false, arith,
}
use msgpack_rust.Common.Int.{ℤ, IsSigned, as_unsigned}
use msgpack_rust.Common.Outcome.{
  Outcome, ok, err, panicked, M, and_then, map_outcome_err, ◌>>=◌, map_err, pure, fail,
}
use msgpack_rust.ByteOrder.{ByteOrder, be_bytes}
use msgpack_rust.Decode.{io_read}
use msgpack_rust.Decode.Str.{Utf8}
use msgpack_rust.Decode.Logic.{
  Got, IsErr, Decodes, IsSource, Decodes->>=, Decodes-pure, Decodes-map, Decodes-map_eq,
  Decodes-map_err,
}
use msgpack_rust.Decode.Wire.{data_i8}
use msgpack_rust.Value.{Utf8String, text, raw}
use msgpack_rust.Value.Encoding.{IsUtf8String, as_bytes}
use msgpack_rust.Value.Read.{
  Read, Error, invalid_data_read, unexpected_eof, decrement_depth, rmp, read_bin_data,
  to_utf8_string, read_str_data, read_ext_body,
}

-- What a `std::io::Read` over bytes in memory promises: `read_exact` as for any source, and
-- `take(n).read_to_end` gives the next `n` bytes, or all that are left if they are fewer.
pub record IsStd {R E : Type 0} (rd : Read R E) (left : R → List ℕ) : Type 0 where
  pub source : IsSource (io_read rd.read_exact) left
  pub taken : (n : ℕ) (r : R) → Got left (drop n (left r)) (take n (left r)) (rd.take_to_end n r)

module _ {R E : Type 0} (rd : Read R E) (left : R → List ℕ) where
  abbrev eof_checked : ℕ → List ℕ → M R (Error E) (List ℕ)
  eof_checked n buf =
      if length buf == n then pure buf else fail (invalid_data_read (rd.new_error unexpected_eof))

  all_there :
      (bs rest : List ℕ) (o : Outcome R E (List ℕ))
      → Got left rest bs o
      → Got left rest bs (and_then (map_outcome_err invalid_data_read o) (eof_checked (length bs)))
  all_there bs rest (ok b r) (p, q) =
      let same : (length b == length bs) ≡ true = rw p (ground arith) in
      rw same (unfold pure in (p, q))
  all_there bs rest (err e r) h = absurd h
  all_there bs rest panicked h = h

  cut_short :
      (n : ℕ) (part rest : List ℕ) (o : Outcome R E (List ℕ))
      → length part < n
      → Got left rest part o
      → IsErr (and_then (map_outcome_err invalid_data_read o) (eof_checked n))
  cut_short n part rest (ok b r) h (p, q) =
      let short : (length b == n) ≡ false = rw p (ground arith) in rw short (unfold fail in tt)
  cut_short n part rest (err e r) h g = tt
  cut_short n part rest panicked h g = g

module _ (bo : ByteOrder) {U : Type 0} (utf8 : Utf8 U) {R E : Type 0} {rd : Read R E}
    {left : R → List ℕ} (std : IsStd rd left) where
  pub read_bin_data-Decodes :
      (bs : List ℕ) (depth : ℕ)
      → Decodes left (read_bin_data bo utf8 rd (length bs) (suc depth)) bs bs
  unfolding read_bin_data ◌>>=◌ map_err pure
  read_bin_data-Decodes bs depth = record {
    reads = λ r rest e. all_there rd left bs rest (rd.take_to_end (length bs) r) (
        subst (λ l. Got left l bs (rd.take_to_end (length bs) r))
          (ap (drop (length bs)) e ∙ drop-append_length bs rest)
          (subst (λ l. Got left (drop (length bs) (left r)) l (rd.take_to_end (length bs) r))
            (ap (take (length bs)) e ∙ take-append_length bs rest) (std.taken (length bs) r)));
    starves = λ r x xs e.
        cut_short rd left (length bs) _ _ (rd.take_to_end (length bs) r)
          (omega
            (arith, length-take (length bs) (left r), ap length e, length-append (left r) (x ∷ xs)))
          (std.taken (length bs) r);
  }

  string_back :
      (s : Utf8String U) → IsUtf8String utf8 s → to_utf8_string bo utf8 rd (as_bytes utf8 s) ≡ s
  unfolding to_utf8_string
  string_back (text t) h = rw (h, to_utf8_string)
  string_back (raw t e) h = rw (h, to_utf8_string)

  pub read_str_data-Decodes :
      (s : Utf8String U) (depth : ℕ)
      → IsUtf8String utf8 s
      → Decodes left
          (read_str_data bo utf8 rd (length (as_bytes utf8 s)) (suc (suc depth)))
          (as_bytes utf8 s)
          s
  unfolding read_str_data decrement_depth
  read_str_data-Decodes s depth h =
      Decodes->>= _ (Decodes-pure (suc depth))
        (Decodes-map_eq _ (read_bin_data-Decodes (as_bytes utf8 s) depth) (string_back s h))

  pub read_ext_body-Decodes :
      (ty : ℤ) (bytes : List ℕ) (depth : ℕ)
      → IsSigned 128 ty
      → Decodes left
          (read_ext_body bo utf8 rd (length bytes) (suc (suc depth)))
          (be_bytes 1 (as_unsigned 256 ty) ++ bytes)
          (ty, bytes)
  unfolding read_ext_body decrement_depth rmp
  read_ext_body-Decodes ty bytes depth h = Decodes->>= _ (Decodes-pure (suc depth)) (
      Decodes->>= _ (Decodes-map_err _ (data_i8 std.source ty h))
        (Decodes-map _ (read_bin_data-Decodes bytes depth)))
