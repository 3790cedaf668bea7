-- ===== src/Encode/Logic.antt =====
-- How a call on a writer is specified: by the bytes that it appends to what was sent.
use msgpack_rust.Common.{
  ℕ, ◌≡◌, refl, sym, ap, ◌∙◌, subst, List, [], ◌∷◌, ◌++◌, append_assoc, append-nil,
}
use msgpack_rust.Common.Outcome.{
  Outcome, ok, err, panicked, M, and_then, ◌>>=◌, ◌>>◌, map_err, map_outcome_err, pure,
}
use msgpack_rust.Encode.{RmpWrite}

module _ {W E A : Type 0} (sent : W → List ℕ) where
  -- The result `a` with all of `bs` behind `before`; or an error with a prefix of `bs` there.
  abbrev pub Wrote : List ℕ → List ℕ → A → Outcome W E A → Type 0
  Wrote before bs a (ok b w) = (b ≡ a) × (sent w ≡ before ++ bs)
  Wrote before bs a (err e w) =
      (front : List ℕ) × (back : List ℕ) × (bs ≡ front ++ back) × (sent w ≡ before ++ front)
  Wrote before bs a panicked = ⊥

-- On every writer `m` appends `bs` and returns `a`, unless the writer fails. It never panics.
pub record Writes {W E A : Type 0} (sent : W → List ℕ) (m : M W E A) (bs : List ℕ) (a : A)
    : Type 0 where
  pub run : (w : W) → Wrote sent (sent w) bs a (m w)

module _ {W E B : Type 0} (sent : W → List ℕ) where
  prepend :
      (before bs cs : List ℕ) (b : B) (mid : List ℕ) (o : Outcome W E B)
      → mid ≡ before ++ bs
      → Wrote sent mid cs b o
      → Wrote sent before (bs ++ cs) b o
  prepend before bs cs b mid (ok x w) e (p, q) =
      (p, q ∙ ap (λ l. l ++ cs) e ∙ append_assoc before bs cs)
  prepend before bs cs b mid (err x w) e (front, back, p, q) = (
    bs ++ front,
    back,
    ap (λ l. bs ++ l) p ∙ sym (append_assoc bs front back),
    q ∙ ap (λ l. l ++ front) e ∙ append_assoc before bs front,
  )
  prepend before bs cs b mid panicked e h = h

module _ {W E A B : Type 0} {sent : W → List ℕ} where
  continue :
      (before bs : List ℕ) {cs : List ℕ} {a : A} {b : B} (f : A → M W E B) (o : Outcome W E A)
      → Wrote sent before bs a o
      → Writes sent (f a) cs b
      → Wrote sent before (bs ++ cs) b (and_then o f)
  continue before bs {cs} {a} {b} f (ok x w) (p, q) k =
      prepend sent before bs cs b (sent w) (f x w) q
        (subst (λ y. Wrote sent (sent w) cs b (f y w)) (sym p) (k.run w))
  continue before bs {cs} f (err x w) (front, back, p, q) k =
      (front, back ++ cs, ap (λ l. l ++ cs) p ∙ append_assoc front back cs, q)
  continue before bs f panicked h k = h

  pub Writes->>= :
      {m : M W E A} (f : A → M W E B) {bs cs : List ℕ} {a : A} {b : B}
      → Writes sent m bs a
      → Writes sent (f a) cs b
      → Writes sent (m >>= f) (bs ++ cs) b
  unfolding ◌>>=◌
  Writes->>= {m} f {bs} h k = record { run = λ w. continue (sent w) bs f (m w) (h.run w) k }

  -- What follows appends nothing: `m; Ok(b)`.
  pub Writes-pure :
      {m : M W E A} {bs : List ℕ} {a : A} {b : B}
      → Writes sent m bs a
      → Writes sent (m >>= λ _. pure b) bs b
  unfolding pure
  Writes-pure {m} {bs} {b = b} h =
      subst (λ l. Writes sent (m >>= λ _. pure b) l b) (append-nil bs)
        (Writes->>= (λ _. pure b) h (record { run = λ w. (refl, sym (append-nil (sent w))) }))

module _ {W E B : Type 0} {sent : W → List ℕ} where
  pub Writes->> :
      {m : M W E (Unit {0})} {k : M W E B} {bs cs : List ℕ} {b : B}
      → Writes sent m bs tt
      → Writes sent k cs b
      → Writes sent (m >> k) (bs ++ cs) b
  unfolding ◌>>◌
  Writes->> {k = k} h j = Writes->>= (λ _. k) h j

  pub Writes-pure_unit :
      {m : M W E (Unit {0})} {bs : List ℕ} {b : B}
      → Writes sent m bs tt
      → Writes sent (m >> pure b) bs b
  unfolding ◌>>◌
  Writes-pure_unit h = Writes-pure h

module _ {W E A : Type 0} {sent : W → List ℕ} where
  pub Writes-nothing : (a : A) → Writes sent (pure {E = E} a) [] a
  unfolding pure
  Writes-nothing a = record { run = λ w. (refl, sym (append-nil (sent w))) }

module _ {W E F A : Type 0} where
  Wrote-map_outcome_err :
      (sent : W → List ℕ) (g : E → F) (before bs : List ℕ) (a : A) (o : Outcome W E A)
      → Wrote sent before bs a o
      → Wrote sent before bs a (map_outcome_err g o)
  Wrote-map_outcome_err sent g before bs a (ok x w) h = h
  Wrote-map_outcome_err sent g before bs a (err x w) h = h
  Wrote-map_outcome_err sent g before bs a panicked h = h

  pub Writes-map_err :
      {sent : W → List ℕ} {m : M W E A} (g : E → F) {bs : List ℕ} {a : A}
      → Writes sent m bs a
      → Writes sent (map_err g m) bs a
  unfolding map_err
  Writes-map_err {sent} {m} g {bs} {a} h = record {
    run = λ w. Wrote-map_outcome_err sent g (sent w) bs a (m w) (h.run w);
  }

-- What a writer promises: each call appends its bytes, or fails with a prefix of them sent.
pub record IsSink {W E : Type 0} (io : RmpWrite W E) (sent : W → List ℕ) : Type 0 where
  pub u8 : (b : ℕ) → Writes sent (io.write_u8 b) (b ∷ []) tt
  pub bytes : (bs : List ℕ) → Writes sent (io.write_bytes bs) bs tt
