-- ===== src/Serde/De/Readers.antt =====
-- rmp-serde/src/decode.rs: `ReadReader` and `ReadRefReader`, the two readers of a `Deserializer`.
use msgpack_rust.Common.{
  ℕ, ◌<◌, ◌==◌, ◌≡◌, refl, ap, ◌∙◌, subst, true, false, if◌then◌else◌, ltb, List, [], ◌∷◌, ◌++◌,
  length, take, drop, length-take, length-append, take-append_length, drop-append_length, arith,
}
use msgpack_rust.Common.Outcome.{Outcome, ok, err, panicked, M}
use msgpack_rust.Decode.{io_read, default_read_u8, first_byte}
use msgpack_rust.Decode.Logic.{Got, IsErr, Decodes, IsSource, Decodes-last, Decodes-pure}
use msgpack_rust.Value.Read
use msgpack_rust.Value.Read.{unexpected_eof}
use msgpack_rust.Value.Marked.{IsStd}
use msgpack_rust.Serde.De.{Reference, borrowed, copied, ReadSlice, ReadRefReader, ref_read_slice}
use msgpack_rust.Serde.De.Logic.{IsSlice}

-- `ReadReader`, with the buffer that it copies into.
pub record ReadReader (R : Type 0) : Type 0 where
  pub rd : R
  pub buf : List ℕ

unfoldable pub new_reader : {R : Type 0} → R → ReadReader R
new_reader rd = record { rd = rd; buf = [] }

module _ {R E A : Type 0} where
  abbrev pub in_reader : List ℕ → Outcome R E A → Outcome (ReadReader R) E A
  in_reader buf (ok a rd) = ok a (record { rd = rd; buf = buf })
  in_reader buf (err e rd) = err e (record { rd = rd; buf = buf })
  in_reader buf panicked = panicked

module _ {R E : Type 0} (std : Read.Read R E) where
  unfoldable pub reader_read_exact : ℕ → M (ReadReader R) E (List ℕ)
  reader_read_exact n rd = in_reader rd.buf (std.read_exact n rd.rd)

  -- What the buffer holds is handed over, unless it is too short. What an error of the reader leaves
  -- in it is cleared by the next call, and is taken to be nothing.
  abbrev pub copied_or_eof : ℕ → Outcome R E (List ℕ) → Outcome (ReadReader R) E Reference
  copied_or_eof len (ok buf rd) =
      if length buf == len
      then ok (copied buf) (record { rd = rd; buf = buf })
      else err (std.new_error unexpected_eof) (record { rd = rd; buf = buf })
  copied_or_eof len (err e rd) = err e (record { rd = rd; buf = [] })
  copied_or_eof len panicked = panicked

  unfoldable pub reader_read_slice : ℕ → M (ReadReader R) E Reference
  reader_read_slice len rd = copied_or_eof len (std.take_to_end len rd.rd)

  unfoldable pub reader : ReadSlice (ReadReader R) E
  unfolding reader_read_exact reader_read_slice
  reader = record { read_exact = reader_read_exact; read_slice = reader_read_slice }

module _ {E A : Type 0} where
  abbrev pub in_ref : List ℕ → Outcome (List ℕ) E A → Outcome ReadRefReader E A
  in_ref whole (ok a buf) = ok a (record { whole_slice = whole; buf = buf })
  in_ref whole (err e buf) = err e (record { whole_slice = whole; buf = buf })
  in_ref whole panicked = panicked

module _ {E : Type 0} (eof : E) (slice_read_exact : ℕ → M (List ℕ) E (List ℕ)) where
  -- `slice_read_exact` is the `read_exact` that the standard library gives a slice.
  unfoldable pub ref_read_exact : ℕ → M ReadRefReader E (List ℕ)
  ref_read_exact n rd = in_ref rd.whole_slice (slice_read_exact n rd.buf)

  unfoldable pub ref_reader : ReadSlice ReadRefReader E
  unfolding ref_read_exact ref_read_slice
  ref_reader = record { read_exact = ref_read_exact; read_slice = ref_read_slice eof }

-- A read of one byte is a read of bytes.
module _ {R E : Type 0} {left : R → List ℕ} (read_exact : ℕ → M R E (List ℕ)) where
  exact-IsSource :
      ((bs : List ℕ) → Decodes left (read_exact (length bs)) bs bs)
      → IsSource (io_read read_exact) left
  unfolding io_read default_read_u8 first_byte
  exact-IsSource exact = record {
    u8 = λ b. Decodes-last first_byte (exact (b ∷ [])) (Decodes-pure b);
    exact = exact;
  }

module _ {E A : Type 0} where
  Got-in_ref :
      (whole rest : List ℕ) (a : A) (o : Outcome (List ℕ) E A)
      → Got (λ s. s) rest a o
      → Got (λ rd. rd.buf) rest a (in_ref whole o)
  Got-in_ref whole rest a (ok b buf) h = h
  Got-in_ref whole rest a (err e buf) h = h
  Got-in_ref whole rest a panicked h = h

  IsErr-in_ref : (whole : List ℕ) (o : Outcome (List ℕ) E A) → IsErr o → IsErr (in_ref whole o)
  IsErr-in_ref whole (ok b buf) h = h
  IsErr-in_ref whole (err e buf) h = h
  IsErr-in_ref whole panicked h = h

module _ {E : Type 0} (eof : E) where
  ref_slice-Decodes :
      (bs : List ℕ)
      → Decodes (λ (rd : ReadRefReader). rd.buf) (ref_read_slice eof (length bs)) bs (borrowed bs)
  unfolding ref_read_slice
  ref_slice-Decodes bs = record {
    reads = λ rd rest e.
        let enough : ltb (length (bs ++ rest)) (length bs) ≡ false =
          rw (length-append bs rest) (ground arith) in
        rw (e, enough, take-append_length bs rest, drop-append_length bs rest) (refl, refl);
    starves = λ rd x xs e.
        let few : ltb (length rd.buf) (length bs) ≡ true =
          rw (← ap length e, length-append rd.buf (x ∷ xs)) (ground arith) in
        rw few tt;
  }

  -- A slice of bytes lends what is read from it.
  pub ref_reader-IsSlice :
      (slice_read_exact : ℕ → M (List ℕ) E (List ℕ))
      → IsSource (io_read slice_read_exact) (λ s. s)
      → IsSlice (ref_reader eof slice_read_exact) (λ rd. rd.buf) borrowed
  unfolding ref_reader ref_read_exact io_read
  ref_reader-IsSlice slice_read_exact std = record {
    source = exact-IsSource (ref_read_exact eof slice_read_exact) (λ bs. record {
      reads = λ rd rest e. Got-in_ref rd.whole_slice rest bs _ ((std.exact bs).reads rd.buf rest e);
      starves = λ rd x xs e. IsErr-in_ref rd.whole_slice _ ((std.exact bs).starves rd.buf x xs e);
    });
    slice = ref_slice-Decodes;
    kept = λ bs. refl;
  }

module _ {R E A : Type 0} where
  Got-in_reader :
      (left : R → List ℕ) (buf rest : List ℕ) (a : A) (o : Outcome R E A)
      → Got left rest a o
      → Got (λ (rd : ReadReader R). left rd.rd) rest a (in_reader buf o)
  Got-in_reader left buf rest a (ok b rd) h = h
  Got-in_reader left buf rest a (err e rd) h = h
  Got-in_reader left buf rest a panicked h = h

  IsErr-in_reader : (buf : List ℕ) (o : Outcome R E A) → IsErr o → IsErr (in_reader buf o)
  IsErr-in_reader buf (ok b rd) h = h
  IsErr-in_reader buf (err e rd) h = h
  IsErr-in_reader buf panicked h = h

module _ {R E : Type 0} (std : Read.Read R E) (left : R → List ℕ) where
  all_there :
      (bs rest : List ℕ) (o : Outcome R E (List ℕ))
      → Got left rest bs o
      → Got (λ (rd : ReadReader R). left rd.rd) rest (copied bs) (copied_or_eof std (length bs) o)
  all_there bs rest (ok b rd) (p, q) =
      let same : (length b == length bs) ≡ true = rw p (ground arith) in rw same (ap copied p, q)
  all_there bs rest (err e rd) h = absurd h
  all_there bs rest panicked h = h

  cut_short :
      (n : ℕ) (part rest : List ℕ) (o : Outcome R E (List ℕ))
      → length part < n
      → Got left rest part o
      → IsErr (copied_or_eof std n o)
  cut_short n part rest (ok b rd) h (p, q) =
      let short : (length b == n) ≡ false = rw p (ground arith) in rw short tt
  cut_short n part rest (err e rd) h g = tt
  cut_short n part rest panicked h g = g

module _ {R E : Type 0} {std : Read.Read R E} {left : R → List ℕ} (promise : IsStd std left) where
  slice-Decodes :
      (bs : List ℕ)
      → Decodes
          (λ (rd : ReadReader R). left rd.rd)
          (reader_read_slice std (length bs))
          bs
          (copied bs)
  unfolding reader_read_slice
  slice-Decodes bs = record {
    reads = λ rd rest e. all_there std left bs rest (std.take_to_end (length bs) rd.rd) (
        subst (λ l. Got left l bs (std.take_to_end (length bs) rd.rd))
          (ap (drop (length bs)) e ∙ drop-append_length bs rest)
          (subst
            (λ l. Got left (drop (length bs) (left rd.rd)) l (std.take_to_end (length bs) rd.rd))
            (ap (take (length bs)) e ∙ take-append_length bs rest)
            (promise.taken (length bs) rd.rd)));
    starves = λ rd x xs e.
        cut_short std left (length bs) _ _ (std.take_to_end (length bs) rd.rd)
          (omega (
            arith,
            length-take (length bs) (left rd.rd),
            ap length e,
            length-append (left rd.rd) (x ∷ xs),
          ))
          (promise.taken (length bs) rd.rd);
  }

  -- A `std::io::Read` that hands over what is there has its bytes copied.
  pub reader-IsSlice : IsSlice (reader std) (λ (rd : ReadReader R). left rd.rd) copied
  unfolding reader reader_read_exact io_read
  reader-IsSlice = record {
    source = exact-IsSource (reader_read_exact std) (λ bs. record {
      reads = λ rd rest e.
          Got-in_reader left rd.buf rest bs _ ((promise.source.exact bs).reads rd.rd rest e);
      starves =
          λ rd x xs e. IsErr-in_reader rd.buf _ ((promise.source.exact bs).starves rd.rd x xs e);
    });
    slice = slice-Decodes;
    kept = λ bs. refl;
  }
