-- ===== src/Serde/Logic.antt =====
-- rmp-serde/src/encode.rs: how a call on a serializer is specified: by the bytes that it appends
-- to what was sent, and by its errors, which are the writer's.
use msgpack_rust.Common.{
  ℕ, ◌+◌, ◌<◌, ◌^◌, ◌≡◌, refl, sym, subst, lt→ltb, List, [], ◌++◌, append-nil,
}
use msgpack_rust.Common.Outcome.{
  Outcome, ok, err, panicked, M, and_then, map_outcome_err, ◌>>=◌, ◌>>◌, map_err, pure,
}
use msgpack_rust.Encode.{ValueWriteError, invalid_marker_write, invalid_data_write, io_write}
use msgpack_rust.Encode.Logic.{Wrote, Writes, IsSink, Writes->>=, Writes-nothing, Writes-map_err}
use msgpack_rust.Serde.{Error, invalid_value_write}
use msgpack_rust.Serde.Serializer.{buffered, after_buffer, vec_write_all, add_elem}

-- An error, if it is one, comes from the writer.
abbrev pub IsIo : {W E A : Type 0} → Outcome W (Error E) A → Type 0
IsIo (ok a w) = Unit {0}
IsIo {E = E} (err e w) = (x : ValueWriteError E) × (e ≡ invalid_value_write x)
IsIo panicked = Unit {0}

pub record Sends {W E A : Type 0} (sent : W → List ℕ) (m : M W (Error E) A) (bs : List ℕ) (a : A)
    : Type 0 where
  pub writes : Writes sent m bs a
  pub io : (w : W) → IsIo (m w)

module _ {W E F A : Type 0} where
  IsIo-map_outcome_err :
      (g : F → ValueWriteError E) (o : Outcome W F A)
      → IsIo (map_outcome_err (λ e. invalid_value_write (g e)) o)
  IsIo-map_outcome_err g (ok a w) = tt
  IsIo-map_outcome_err g (err e w) = (g e, refl)
  IsIo-map_outcome_err g panicked = tt

  -- A call of rmp, or of the writer, whose error is passed on.
  pub Sends-try :
      {sent : W → List ℕ} {m : M W F A} (g : F → ValueWriteError E) {bs : List ℕ} {a : A}
      → Writes sent m bs a
      → Sends sent (map_err (λ e. invalid_value_write (g e)) m) bs a
  unfolding map_err
  Sends-try {m = m} g h = record {
    writes = Writes-map_err (λ e. invalid_value_write (g e)) h;
    io = λ w. IsIo-map_outcome_err g (m w);
  }

module _ {W E A B : Type 0} where
  IsIo-and_then :
      (sent : W → List ℕ) (before bs : List ℕ) (a : A) (f : A → M W (Error E) B)
      (o : Outcome W (Error E) A)
      → Wrote sent before bs a o
      → IsIo o
      → ((w : W) → IsIo (f a w))
      → IsIo (and_then o f)
  IsIo-and_then sent before bs a f (ok x w) (p, q) h k = subst (λ y. IsIo (f y w)) (sym p) (k w)
  IsIo-and_then sent before bs a f (err e w) p h k = h
  IsIo-and_then sent before bs a f panicked p h k = tt

module _ {W E A B : Type 0} {sent : W → List ℕ} where
  pub Sends->>= :
      {m : M W (Error E) A} (f : A → M W (Error E) B) {bs cs : List ℕ} {a : A} {b : B}
      → Sends sent m bs a
      → Sends sent (f a) cs b
      → Sends sent (m >>= f) (bs ++ cs) b
  unfolding ◌>>=◌
  Sends->>= {m} f {bs} {a = a} h k = record {
    writes = Writes->>= f h.writes k.writes;
    io = λ w. IsIo-and_then sent (sent w) bs a f (m w) (h.writes.run w) (h.io w) k.io;
  }

module _ {W E A : Type 0} {sent : W → List ℕ} where
  pub Sends-nothing : (a : A) → Sends sent (pure {E = Error E} a) [] a
  unfolding pure
  Sends-nothing a = record { writes = Writes-nothing a; io = λ w. tt }

module _ {W E B : Type 0} {sent : W → List ℕ} where
  pub Sends->> :
      {m : M W (Error E) (Unit {0})} {k : M W (Error E) B} {bs cs : List ℕ} {b : B}
      → Sends sent m bs tt
      → Sends sent k cs b
      → Sends sent (m >> k) (bs ++ cs) b
  unfolding ◌>>◌
  Sends->> {k = k} h j = Sends->>= (λ _. k) h j

module _ {W E A B : Type 0} {sent : W → List ℕ} where
  -- What follows appends nothing: `m?; Ok(b)`.
  pub Sends-pure :
      {m : M W (Error E) A} {bs : List ℕ} {a : A} {b : B}
      → Sends sent m bs a
      → Sends sent (m >>= λ _. pure b) bs b
  Sends-pure {m} {bs} {b = b} h =
      subst (λ l. Sends sent (m >>= λ _. pure b) l b) (append-nil bs)
        (Sends->>= (λ _. pure b) h (Sends-nothing b))

module _ {W E B : Type 0} {sent : W → List ℕ} where
  pub Sends-pure_unit :
      {m : M W (Error E) (Unit {0})} {bs : List ℕ} {b : B}
      → Sends sent m bs tt
      → Sends sent (m >> pure b) bs b
  unfolding ◌>>◌
  Sends-pure_unit h = Sends-pure h

module _ {W E : Type 0} {sent : W → List ℕ} where
  pub add_elem-Sends : (n : ℕ) → n + 1 < 2 ^ 32 → Sends sent (add_elem {W = W} {E = E} n) [] (n + 1)
  unfolding add_elem
  add_elem-Sends n h = rw (lt→ltb (n + 1) (2 ^ 32) h) (Sends-nothing (n + 1))

  -- The same, with more to do behind it.
  pub counted :
      {B : Type 0} (n : ℕ) (f : ℕ → M W (Error E) B) {bs : List ℕ} {b : B}
      → n + 1 < 2 ^ 32
      → Sends sent (f (n + 1)) bs b
      → Sends sent (add_elem n >>= f) bs b
  counted n f h k = Sends->>= f (add_elem-Sends n h) k

-- A vector takes all that it is given.
pub vec_write_all-IsSink : IsSink (io_write vec_write_all) (λ buf. buf)
unfolding io_write vec_write_all
vec_write_all-IsSink = record {
  u8 = λ b. record { run = λ w. (refl, refl) };
  bytes = λ bs. record { run = λ w. (refl, refl) };
}

module _ {A : Type 0} where
  all_sent :
      (before bs : List ℕ) (a : A) (o : Outcome (List ℕ) (Error ⊥) A)
      → Wrote (λ buf. buf) before bs a o
      → IsIo o
      → o ≡ ok a (before ++ bs)
  all_sent before bs a (ok x buf) (p, q) h = rw (p, q) refl
  all_sent before bs a (err e buf) p (invalid_marker_write x, h) = absurd x
  all_sent before bs a (err e buf) p (invalid_data_write x, h) = absurd x
  all_sent before bs a panicked p h = absurd p

  -- On a vector the call succeeds, with exactly its bytes behind what was there.
  pub Sends-vec :
      {m : M (List ℕ) (Error ⊥) A} {bs : List ℕ} {a : A}
      → Sends (λ buf. buf) m bs a
      → (buf : List ℕ) → m buf ≡ ok a (buf ++ bs)
  Sends-vec {m} {bs} {a} h buf = all_sent buf bs a (m buf) (h.writes.run buf) (h.io buf)

module _ {W E A B : Type 0} {sent : W → List ℕ} where
  pub Sends-buffered :
      {m : M (List ℕ) (Error ⊥) A} (k : A → List ℕ → M W (Error E) B) {bs cs : List ℕ} {a : A}
      {b : B}
      → Sends (λ buf. buf) m bs a
      → Sends sent (k a bs) cs b
      → Sends sent (buffered m k) cs b
  unfolding buffered
  Sends-buffered {m} k {bs} {cs} {a} {b} h j =
      subst (λ (o : Outcome (List ℕ) (Error ⊥) A). Sends sent (after_buffer o k) cs b)
        (sym (Sends-vec h [])) j
