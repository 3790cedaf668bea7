-- ===== src/Decode/Slices.antt =====
-- rmp/src/decode/str.rs: the two functions that borrow a string from a slice of bytes.
use msgpack_rust.Common.{
  ℕ, ◌+◌, ◌<◌, ◌≡◌, refl, sym, ap, ◌∙◌, subst, none, List, ◌++◌, append_assoc, length, take, drop,
  take-append_length, drop-append_length, length-append, le→leb, lt→leb, arith,
}
use msgpack_rust.Common.Outcome.{
  Outcome, M, ok, err, panicked, and_then, ◌>>=◌, map_err, pure, fail,
}
use msgpack_rust.ByteOrder.{ByteOrder, IsBigEndian}
use msgpack_rust.Marker.{Marker}
use msgpack_rust.Format.{width, header, StrForm}
use msgpack_rust.Format.Width.{length-header}
use msgpack_rust.Decode.Bytes.{Bytes, bytes_reader, new}
use msgpack_rust.Decode.Readers.{bytes_reader-IsSource}
use msgpack_rust.Decode.Len.{read_str_len, read_str_len_with_nread}
use msgpack_rust.Decode.Str.{
  Utf8, buffer_size_too_small, checked, slice_to, read_str_ref, split_str, read_str_from_slice,
  from_value_error,
}
use msgpack_rust.Decode.Logic.{Decodes, Got, Decodes-map_err}
use msgpack_rust.Decode.Headers.{read_str_len-Decodes, read_str_len_with_nread-Decodes}

-- The call ends with this result; the cursor is dropped.
abbrev pub Returns : {S E A : Type 0} → A → Outcome S E A → Type 0
Returns a (ok b s) = b ≡ a
Returns a (err e s) = ⊥
Returns a panicked = ⊥

abbrev pub ReturnsError : {S E A : Type 0} → E → Outcome S E A → Type 0
ReturnsError e (ok b s) = ⊥
ReturnsError e (err x s) = x ≡ e
ReturnsError e panicked = ⊥

abbrev pub Panics : {S E A : Type 0} → Outcome S E A → Type 0
Panics (ok b s) = ⊥
Panics (err x s) = ⊥
Panics panicked = Unit {0}

module _ {R E A B : Type 0} (left : R → List ℕ) (P : Outcome R E B → Type 0) where
  after :
      (rest : List ℕ) (a : A) (f : A → M R E B) (o : Outcome R E A)
      → Got left rest a o
      → ((r : R) → left r ≡ rest → P (f a r))
      → P (and_then o f)
  after rest a f (ok b r) (p, q) k = subst (λ c. P (f c r)) (sym p) (k r q)
  after rest a f (err e r) h k = absurd h
  after rest a f panicked h k = absurd h

drop_header : (front rest : List ℕ) (n : ℕ) → length front ≡ n → drop n (front ++ rest) ≡ rest
drop_header front rest n e =
    subst (λ k. drop k (front ++ rest) ≡ rest) e (drop-append_length front rest)

take_header : (front rest : List ℕ) (n : ℕ) → length front ≡ n → take n (front ++ rest) ≡ front
take_header front rest n e =
    subst (λ k. take k (front ++ rest) ≡ front) e (take-append_length front rest)

module _ (bo : ByteOrder) {U : Type 0} (utf8 : Utf8 U) where
  -- Behind a header of `k` bytes and with the whole string there, only its bytes are checked.
  split_str_whole :
      (front text rest : List ℕ) (k : ℕ) (cur : Bytes)
      → length front ≡ k
      → split_str bo utf8 (front ++ (text ++ rest)) (length text, k) cur
        ≡ checked (utf8.error text) (front ++ (text ++ rest)) (text, rest) cur
  unfolding split_str
  split_str_whole front text rest k cur e =
      let both : length (front ++ text) ≡ k + length text =
        omega (arith, length-append front text) in
      let inside =
        le→leb k (length (front ++ (text ++ rest)))
          (omega (arith, length-append front (text ++ rest))) in
      let fits =
        le→leb (length text) (length (text ++ rest)) (omega (arith, length-append text rest)) in
      let regroup = sym (append_assoc front text rest) in
      let cut = ap (take (k + length text)) regroup ∙ take_header (front ++ text) rest _ both in
      let tail = ap (drop (k + length text)) regroup ∙ drop_header (front ++ text) rest _ both in
      rw (inside, drop_header front (text ++ rest) k e, fits, cut, tail, drop_header front text k e)

  split_str_short :
      (front rest : List ℕ) (k n : ℕ) (cur : Bytes)
      → length front ≡ k
      → length rest < n
      → split_str bo utf8 (front ++ rest) (n, k) cur ≡ fail (buffer_size_too_small n) cur
  unfolding split_str
  split_str_short front rest k n cur e h =
      let inside = le→leb k (length (front ++ rest)) (omega (arith, length-append front rest)) in
      rw (inside, drop_header front rest k e, lt→leb n (length rest) h)

module _ {bo : ByteOrder} (big : IsBigEndian bo) {U : Type 0} (utf8 : Utf8 U) where
  -- `read_str_from_slice` on a slice that starts with a valid string gives its bytes and the slice
  -- behind them.
  pub read_str_from_slice-Returns :
      (mk : Marker) (text rest : List ℕ)
      → StrForm mk (length text)
      → utf8.error text ≡ none
      → Returns
          (text, rest)
          (read_str_from_slice bo utf8 (header mk (length text) ++ (text ++ rest)))
  unfolding read_str_from_slice ◌>>=◌ pure
  read_str_from_slice-Returns mk text rest form valid =
      let k = width mk + 1 in
      let front = header mk (length text) in
      after (λ (r : Bytes). r.bytes) (Returns (text, rest)) (text ++ rest) (length text, k)
        (split_str bo utf8 (front ++ (text ++ rest))) _
        (nread.reads (new (front ++ (text ++ rest))) (text ++ rest) refl)
        (λ cur q.
          subst (Returns (text, rest))
            (sym (split_str_whole bo utf8 front text rest k cur (length-header mk (length text))))
            (rw valid refl))
    where
      nread :
          Decodes
            (λ (r : Bytes). r.bytes)
            (map_err (from_value_error {U = U}) (read_str_len_with_nread bo bytes_reader))
            (header mk (length text))
            (length text, width mk + 1)
      nread =
          Decodes-map_err _
            (read_str_len_with_nread-Decodes big bytes_reader-IsSource mk (length text) form)

  -- Where fewer bytes follow the header than it says, `read_str_from_slice` gives an error that
  -- names the length.
  pub read_str_from_slice_short :
      (mk : Marker) (n : ℕ) (rest : List ℕ)
      → StrForm mk n
      → length rest < n
      → ReturnsError (buffer_size_too_small n) (read_str_from_slice bo utf8 (header mk n ++ rest))
  unfolding read_str_from_slice ◌>>=◌ fail
  read_str_from_slice_short mk n rest form h =
      let front = header mk n in
      after (λ (r : Bytes). r.bytes) (ReturnsError (buffer_size_too_small n)) rest (n, width mk + 1)
        (split_str bo utf8 (front ++ rest)) _ (nread.reads (new (front ++ rest)) rest refl)
        (λ cur q.
          subst (ReturnsError (buffer_size_too_small n))
            (sym (split_str_short bo utf8 front rest (width mk + 1) n cur (length-header mk n) h))
            refl)
    where
      nread :
          Decodes
            (λ (r : Bytes). r.bytes)
            (map_err (from_value_error {U = U}) (read_str_len_with_nread bo bytes_reader))
            (header mk n)
            (n, width mk + 1)
      nread =
          Decodes-map_err _ (read_str_len_with_nread-Decodes big bytes_reader-IsSource mk n form)

  -- Where fewer bytes follow the header than it says, `read_str_ref` panics.
  pub read_str_ref-Panics :
      (mk : Marker) (n : ℕ) (rest : List ℕ)
      → StrForm mk n
      → length rest < n
      → Panics (read_str_ref bo U (header mk n ++ rest))
  unfolding read_str_ref ◌>>=◌
  read_str_ref-Panics mk n rest form h =
      after (λ (r : Bytes). r.bytes) Panics rest n slice_to _
        (len.reads (new (header mk n ++ rest)) rest refl)
        (λ cur q. rw (q, lt→leb n (length rest) h) tt)
    where
      len :
          Decodes
            (λ (r : Bytes). r.bytes)
            (map_err (from_value_error {U = U}) (read_str_len bo bytes_reader))
            (header mk n)
            n
      len = Decodes-map_err _ (read_str_len-Decodes big bytes_reader-IsSource mk n form)
