-- ===== src/Value/Borrowed/Sources.antt =====
-- rmpv/src/decode/value_ref.rs: the trait `BorrowRead`, and bytes that are borrowed or copied.
use msgpack_rust.Common.{
  ℕ, ◌<◌, ◌≤◌, ◌≡◌, refl, ◌==◌, true, false, none, some, inl, inr, le_or_lt, Option, List, length,
  take, length-take, lt→ltb, le→ltb, arith,
}
use msgpack_rust.Common.Outcome.{ok, ◌>>=◌, ◌>>◌, map_err, pure, fail}
use msgpack_rust.ByteOrder.{ByteOrder}
use msgpack_rust.Decode.Str.{Utf8}
use msgpack_rust.Value.Read
use msgpack_rust.Value.Read.{decrement_depth}
use msgpack_rust.Value
use msgpack_rust.Value.Borrowed
use msgpack_rust.Value.Borrowed.{string_into}
use msgpack_rust.Value.Borrowed.Reader
use msgpack_rust.Value.Borrowed.Reader.{BorrowRead}
use msgpack_rust.Value.Borrowed.Same.{Same, Same->>=, Same-after, Same-pure}

-- What the trait's documentation says of a reader that is a `Read` too: the buffer holds what is
-- left to read, and consuming its bytes is reading them.
pub record IsBorrowRead {R E : Type 0} (br : BorrowRead R E) : Type 0 where
  pub there :
      (n : ℕ) (r : R)
      → n ≤ length (br.fill_buf r)
      → (s : R) × (br.consume n r ≡ some s)
        × (br.read.take_to_end n r ≡ ok (take n (br.fill_buf r)) s)
  pub short :
      (n : ℕ) (r : R)
      → length (br.fill_buf r) < n
      → (s : R) × (br.read.take_to_end n r ≡ ok (br.fill_buf r) s)

module _ (bo : ByteOrder) {U : Type 0} (utf8 : Utf8 U) {R E : Type 0} {br : BorrowRead R E}
    (borrow : IsBorrowRead br) where
  pub bin-Same :
      (n depth : ℕ)
      → Same
          (λ b. b)
          (Read.read_bin_data bo utf8 br.read n depth)
          (Reader.read_bin_data bo utf8 br n depth)
  unfolding Read.read_bin_data Reader.read_bin_data ◌>>=◌ ◌>>◌ map_err pure fail
  bin-Same n depth = Same-after (decrement_depth depth) _ _ (λ _. record {
    run = λ r. elim (le_or_lt n (length (br.fill_buf r))) [
      | inl fits ↦
          let (s, moved, taken) = borrow.there n r fits in
          let exact : (length (take n (br.fill_buf r)) == n) ≡ true =
            ground (arith, length-take n (br.fill_buf r)) in
          rw (taken, le→ltb (length (br.fill_buf r)) n fits, moved, exact) (refl, refl)
      | inr few ↦
          let (s, taken) = borrow.short n r few in
          let part : (length (br.fill_buf r) == n) ≡ false = ground arith in
          rw (taken, lt→ltb (length (br.fill_buf r)) n few, part) refl
    ];
  })

  pub string_same :
      (buf : List ℕ)
      → Read.to_utf8_string bo utf8 br.read buf
        ≡ string_into (Reader.to_utf8_string_ref bo utf8 br buf)
  unfolding Read.to_utf8_string Reader.to_utf8_string_ref string_into
  string_same buf = by_error (utf8.error buf)
    where
      by_error :
          (o : Option U)
          → elim o [ none ↦ Value.text buf | some e ↦ Value.raw buf e ]
            ≡ string_into (elim o [ none ↦ Borrowed.text buf | some e ↦ Borrowed.raw buf e ])
      by_error none = refl
      by_error (some e) = refl

  pub str-Same :
      (n depth : ℕ)
      → Same string_into
          (Read.read_str_data bo utf8 br.read n depth)
          (Reader.read_str_data bo utf8 br n depth)
  unfolding Read.read_str_data Reader.read_str_data
  str-Same n depth = Same-after (decrement_depth depth) _ _ (λ depth'.
      Same->>= _ _ (bin-Same n depth') (λ buf. Same-pure string_into _ _ (string_same buf)))

  pub ext-Same :
      (n depth : ℕ)
      → Same
          (λ body. body)
          (Read.read_ext_body bo utf8 br.read n depth)
          (Reader.read_ext_body bo utf8 br n depth)
  unfolding Read.read_ext_body Reader.read_ext_body
  ext-Same n depth = Same-after (decrement_depth depth) _ _ (λ depth'.
      Same-after _ _ _
        (λ ty. Same->>= _ _ (bin-Same n depth') (λ buf. Same-pure (λ body. body) _ _ refl)))
