-- ===== src/Decode/Answers.antt =====
-- How a call on a reader ends whatever there is to read: with a result or an error, and no panic.
use msgpack_rust.Common.{ℕ, ◌≡◌, List, [], ◌∷◌, length, arith}
use msgpack_rust.Common.Outcome.{
  Outcome, ok, err, panicked, M, and_then, ◌>>=◌, map_err, map_outcome_err, pure, fail,
}
use msgpack_rust.Decode.{
  io_read, first_byte, default_read_u8, read_marker, read_data_u8, read_data_i8,
}

module _ {R E A : Type 0} where
  -- A result satisfies `P`; an error may be any.
  abbrev pub Yields : (A → Type 0) → Outcome R E A → Type 0
  Yields P (ok a r) = P a
  Yields P (err e r) = Unit {0}
  Yields P panicked = ⊥

-- From every state of the reader.
pub record Answers {R E A : Type 0} (P : A → Type 0) (m : M R E A) : Type 0 where
  pub run : (r : R) → Yields P (m r)

-- Nothing is said of the result.
abbrev pub Anything : {A : Type 0} → A → Type 0
Anything a = Unit {0}

module _ {R E A : Type 0} {P : A → Type 0} where
  pub Answers-pure : (a : A) → P a → Answers P (pure {S = R} {E = E} a)
  unfolding pure
  Answers-pure a h = record { run = λ r. h }

  pub Answers-fail : (e : E) → Answers P (fail {S = R} e)
  unfolding fail
  Answers-fail e = record { run = λ r. tt }

module _ {R E A B : Type 0} (Q : A → Type 0) (P : B → Type 0) where
  Yields-and_then :
      (f : A → M R E B) (o : Outcome R E A)
      → Yields Q o
      → ((a : A) → Q a → Answers P (f a))
      → Yields P (and_then o f)
  Yields-and_then f (ok a r) h k = (k a h).run r
  Yields-and_then f (err e r) h k = tt
  Yields-and_then f panicked h k = h

module _ {R E A B : Type 0} {Q : A → Type 0} {P : B → Type 0} where
  pub Answers->>= :
      {m : M R E A} (f : A → M R E B)
      → Answers Q m
      → ((a : A) → Q a → Answers P (f a))
      → Answers P (m >>= f)
  unfolding ◌>>=◌
  Answers->>= {m} f h k = record { run = λ r. Yields-and_then Q P f (m r) (h.run r) k }

module _ {R E F A : Type 0} (P : A → Type 0) where
  Yields-map_err : (g : E → F) (o : Outcome R E A) → Yields P o → Yields P (map_outcome_err g o)
  Yields-map_err g (ok a r) h = h
  Yields-map_err g (err e r) h = tt
  Yields-map_err g panicked h = h

module _ {R E F A : Type 0} {P : A → Type 0} where
  pub Answers-map_err : {m : M R E A} (g : E → F) → Answers P m → Answers P (map_err g m)
  unfolding map_err
  Answers-map_err {m} g h = record { run = λ r. Yields-map_err P g (m r) (h.run r) }

module _ {R E A : Type 0} (P Q : A → Type 0) (h : (a : A) → P a → Q a) where
  Yields-weaken : (o : Outcome R E A) → Yields P o → Yields Q o
  Yields-weaken (ok a r) g = h a g
  Yields-weaken (err e r) g = tt
  Yields-weaken panicked g = g

module _ {R E A : Type 0} {P Q : A → Type 0} where
  pub Answers-weaken : {m : M R E A} → ((a : A) → P a → Q a) → Answers P m → Answers Q m
  Answers-weaken {m} h a = record { run = λ r. Yields-weaken P Q h (m r) (a.run r) }

-- What `std::io::Read` documents of `read_exact`: it fills the buffer, or fails.
abbrev pub Fills : {R E : Type 0} → (ℕ → M R E (List ℕ)) → Type 0
Fills read_exact = (n : ℕ) → Answers (λ bs. length bs ≡ n) (read_exact n)

module _ {R E : Type 0} {read_exact : ℕ → M R E (List ℕ)} (fills : Fills read_exact) where
  first : (bs : List ℕ) → length bs ≡ 1 → Answers Anything (first_byte {R = R} {E = E} bs)
  unfolding first_byte
  first [] h = absurd (omega (arith, h))
  first (b ∷ bs) h = Answers-pure b tt

  pub byte-Answers : Answers Anything (default_read_u8 read_exact)
  unfolding default_read_u8
  byte-Answers = Answers->>= first_byte (fills 1) first

  pub read_marker-Answers : Answers Anything (read_marker (io_read read_exact))
  unfolding read_marker io_read
  read_marker-Answers = Answers->>= _ byte-Answers (λ b h. Answers-pure _ tt)

  pub read_data_u8-Answers : Answers Anything (read_data_u8 (io_read read_exact))
  unfolding read_data_u8 io_read
  read_data_u8-Answers = Answers-map_err _ byte-Answers

  pub read_data_i8-Answers : Answers Anything (read_data_i8 (io_read read_exact))
  unfolding read_data_i8
  read_data_i8-Answers = Answers->>= _ read_data_u8-Answers (λ b h. Answers-pure _ tt)

  -- The numbers of more than one byte.
  pub wide-Answers :
      {F A : Type 0} (g : E → F) (n : ℕ) (f : List ℕ → A)
      → Answers Anything (do buf ← map_err g (read_exact n); pure (f buf))
  wide-Answers g n f = Answers->>= _ (Answers-map_err g (fills n)) (λ b h. Answers-pure _ tt)
