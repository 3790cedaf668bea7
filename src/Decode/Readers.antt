-- ===== src/Decode/Readers.antt =====
-- rmp/src/decode/bytes.rs: the two readers as sources of bytes.
use msgpack_rust.Common.{
  refl, ◌+◌, ◌<◌, length-take, leb→le, leb→lt, take-append-drop, Bool-cases, inl, inr, sym, true,
  false, ℕ, ◌≡◌, ap, List, [], ◌∷◌, ◌++◌, length, leb, take-append_length, drop-append_length,
  length-append, le→leb, lt→leb, arith,
}
use msgpack_rust.Common.Outcome.{Outcome, ok, err, panicked}
use msgpack_rust.Decode.Logic.{IsSource, Got, IsErr}
use msgpack_rust.Decode.Bytes.{
  insufficient_bytes, BytesReadError, bytes_read_exact_buf, Bytes, split_read, bytes_reader,
  slice_reader, slice_read_u8,
}

fits : (bs rest : List ℕ) → leb (length bs) (length (bs ++ rest)) ≡ true
fits bs rest = le→leb _ _ (omega (arith, length-append bs rest))

short :
    (bs l : List ℕ) (x : ℕ) (xs : List ℕ) → l ++ (x ∷ xs) ≡ bs → leb (length bs) (length l) ≡ false
short bs l x xs e = lt→leb _ _ (omega (arith, ap length e, length-append l (x ∷ xs)))

split_read-Got :
    (b pos : ℕ) (l rest : List ℕ)
    → l ≡ b ∷ rest
    → Got (λ (r : Bytes). r.bytes) rest b (split_read pos l)
unfolding split_read
split_read-Got b pos [] rest e = cc
split_read-Got b pos (c ∷ l) rest e = (cc, cc)

split_read-IsErr :
    (b pos : ℕ) (l : List ℕ) (x : ℕ) (xs : List ℕ)
    → l ++ (x ∷ xs) ≡ b ∷ []
    → IsErr (split_read pos l)
unfolding split_read
split_read-IsErr b pos [] x xs e = tt
split_read-IsErr b pos (c ∷ l) x xs e =
    absurd (omega (arith, ap length e, length-append l (x ∷ xs)))

-- `Bytes` hands over the bytes that are there in order, and refuses to read past the end.
pub bytes_reader-IsSource : IsSource bytes_reader (λ r. r.bytes)
unfolding bytes_reader
bytes_reader-IsSource = record {
  u8 = λ b. record {
    reads = λ r rest e. split_read-Got b r.current_position r.bytes rest e;
    starves = λ r x xs e. split_read-IsErr b r.current_position r.bytes x xs e;
  };
  exact = λ bs. record {
    reads =
        λ r rest e. rw (e, fits bs rest) (take-append_length bs rest, drop-append_length bs rest);
    starves = λ r x xs e. rw (short bs r.bytes x xs e) tt;
  };
}

slice_read_u8-Got : (b : ℕ) (l rest : List ℕ) → l ≡ b ∷ rest → Got (λ s. s) rest b (slice_read_u8 l)
unfolding slice_read_u8
slice_read_u8-Got b [] rest e = cc
slice_read_u8-Got b (c ∷ l) rest e = (cc, cc)

slice_read_u8-IsErr :
    (b : ℕ) (l : List ℕ) (x : ℕ) (xs : List ℕ) → l ++ (x ∷ xs) ≡ b ∷ [] → IsErr (slice_read_u8 l)
unfolding slice_read_u8
slice_read_u8-IsErr b [] x xs e = tt
slice_read_u8-IsErr b (c ∷ l) x xs e = absurd (omega (arith, ap length e, length-append l (x ∷ xs)))

pub slice_reader-IsSource : IsSource slice_reader (λ s. s)
unfolding slice_reader
slice_reader-IsSource = record {
  u8 = λ b. record { reads = slice_read_u8-Got b; starves = slice_read_u8-IsErr b };
  exact = λ bs. record {
    reads =
        λ r rest e. rw (e, fits bs rest) (take-append_length bs rest, drop-append_length bs rest);
    starves = λ r x xs e. rw (short bs r x xs e) tt;
  };
}

-- What a read of `n` bytes does to the cursor `r`, on both branches.
abbrev pub Accounts : Bytes → ℕ → Outcome Bytes BytesReadError (List ℕ) → Type 0
Accounts r n (ok bs r') =
    (r.bytes ≡ bs ++ r'.bytes) × (length bs ≡ n) × (r'.current_position ≡ r.current_position + n)
Accounts r n (err e r') =
    (length r.bytes < n) × (r' ≡ r) × (e ≡ insufficient_bytes n (length r.bytes) r.current_position)
Accounts r n panicked = ⊥

-- `Bytes::read_exact_buf` takes the `n` bytes in front and moves its position by `n`; where fewer
-- are left it changes nothing and the error names what is left and the position.
pub bytes_read_exact_buf-Accounts : (r : Bytes) (n : ℕ) → Accounts r n (bytes_read_exact_buf n r)
unfolding bytes_read_exact_buf
bytes_read_exact_buf-Accounts r n = elim (Bool-cases (leb n (length r.bytes))) [
  | inl e ↦
      rw e
        (sym (take-append-drop n r.bytes), omega (arith, length-take n r.bytes, leb→le n _ e), refl)
  | inr e ↦ rw e (leb→lt n _ e, refl, refl)
]
