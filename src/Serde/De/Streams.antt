-- ===== src/Serde/De/Streams.antt =====
-- rmp-serde/src/decode.rs: the two readers of a `Deserializer`, whatever there is to read.
use msgpack_rust.Common.{
  ℕ, ◌==◌, ◌≡◌, Bool, true, false, if◌then◌else◌, ltb, List, length, take, drop,
}
use msgpack_rust.Common.Outcome.{Outcome, ok, err, panicked, M}
use msgpack_rust.Value.Read
use msgpack_rust.Value.Read.{unexpected_eof}
use msgpack_rust.Serde.De.{Reference, borrowed, copied, ReadRefReader, ref_read_slice}
use msgpack_rust.Decode.Answers.{Answers, Anything, Yields, Fills}
use msgpack_rust.Value.Total
use msgpack_rust.Serde.De.Safe.{IsTotal}
use msgpack_rust.Serde.De.Readers.{
  ReadReader, in_reader, reader_read_exact, copied_or_eof, reader_read_slice, reader, in_ref,
  ref_read_exact, ref_reader,
}

module _ {E A : Type 0} (P : A → Type 0) where
  Yields-in_ref :
      (whole : List ℕ) (o : Outcome (List ℕ) E A) → Yields P o → Yields P (in_ref whole o)
  Yields-in_ref whole (ok a buf) h = h
  Yields-in_ref whole (err e buf) h = tt
  Yields-in_ref whole panicked h = h

module _ {E : Type 0} (eof : E) where
  ref_slice_total : (n : ℕ) → Answers Anything (ref_read_slice eof n)
  unfolding ref_read_slice
  ref_slice_total n = record { run = λ rd. tested rd (ltb (length rd.buf) n) }
    where
      tested :
          (rd : ReadRefReader) (b : Bool)
          → Yields {A = Reference} Anything (
              if b
              then err eof rd
              else ok
                  (borrowed (take n rd.buf))
                  (record { whole_slice = rd.whole_slice; buf = drop n rd.buf }))
      tested rd true = tt
      tested rd false = tt

  -- No call on a slice panics.
  pub ref_reader-IsTotal :
      {slice_read_exact : ℕ → M (List ℕ) E (List ℕ)}
      → Fills slice_read_exact
      → IsTotal (ref_reader eof slice_read_exact)
  unfolding ref_reader ref_read_exact
  ref_reader-IsTotal fills = record {
    exact = λ n. record {
      run = λ rd. Yields-in_ref (λ bs. length bs ≡ n) rd.whole_slice _ ((fills n).run rd.buf);
    };
    slice = ref_slice_total;
  }

module _ {R E A : Type 0} (P : A → Type 0) where
  Yields-in_reader : (buf : List ℕ) (o : Outcome R E A) → Yields P o → Yields P (in_reader buf o)
  Yields-in_reader buf (ok a rd) h = h
  Yields-in_reader buf (err e rd) h = tt
  Yields-in_reader buf panicked h = h

module _ {R E : Type 0} {std : Read.Read R E} (total : Total.IsTotal std) where
  copied_total :
      (len : ℕ) (o : Outcome R E (List ℕ))
      → Yields Anything o
      → Yields Anything (copied_or_eof std len o)
  copied_total len (ok buf rd) h = tested (length buf == len)
    where
      tested :
          (b : Bool)
          → Yields {R = ReadReader R} {A = Reference} Anything (
              if b
              then ok (copied buf) (record { rd = rd; buf = buf })
              else err (std.new_error unexpected_eof) (record { rd = rd; buf = buf }))
      tested true = tt
      tested false = tt
  copied_total len (err e rd) h = tt
  copied_total len panicked h = h

  -- Nor does one on a `std::io::Read` of which none does.
  pub reader-IsTotal : IsTotal (reader std)
  unfolding reader reader_read_exact reader_read_slice
  reader-IsTotal = record {
    exact = λ n. record {
      run = λ rd. Yields-in_reader (λ bs. length bs ≡ n) rd.buf _ ((total.exact n).run rd.rd);
    };
    slice = λ n. record { run = λ rd. copied_total n _ ((total.to_end n).run rd.rd) };
  }
