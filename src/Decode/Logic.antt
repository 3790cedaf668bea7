-- ===== src/Decode/Logic.antt =====
-- How a call on a reader is specified: by the bytes that it takes from what is left to read.
use msgpack_rust.Common.{
  ℕ, ◌≡◌, refl, sym, ap, ◌∙◌, subst, ◌⊎◌, inl, inr, List, [], ◌∷◌, ◌++◌, append_assoc, append-nil,
  length, length-append, arith,
}
use msgpack_rust.Common.Outcome.{
  Outcome, ok, err, panicked, M, and_then, ◌>>=◌, map_err, map_outcome_err, pure, fail,
}
use msgpack_rust.Decode.{RmpRead}

module _ {R E A : Type 0} where
  -- The result is `a`, and `rest` is left to read.
  abbrev pub Got : (R → List ℕ) → List ℕ → A → Outcome R E A → Type 0
  Got left rest a (ok b r) = (b ≡ a) × (left r ≡ rest)
  Got left rest a (err e r) = ⊥
  Got left rest a panicked = ⊥

  abbrev pub GotError : (R → List ℕ) → List ℕ → E → Outcome R E A → Type 0
  GotError left rest e (ok b r) = ⊥
  GotError left rest e (err x r) = (x ≡ e) × (left r ≡ rest)
  GotError left rest e panicked = ⊥

  abbrev pub IsErr : Outcome R E A → Type 0
  IsErr (ok b r) = ⊥
  IsErr (err x r) = Unit {0}
  IsErr panicked = ⊥

-- `m` takes exactly `bs` from the front and returns `a`, whatever follows; where the input ends
-- inside `bs` it returns an error. It does not panic on either.
pub record Decodes {R E A : Type 0} (left : R → List ℕ) (m : M R E A) (bs : List ℕ) (a : A)
    : Type 0 where
  pub reads : (r : R) (rest : List ℕ) → left r ≡ bs ++ rest → Got left rest a (m r)
  pub starves : (r : R) (x : ℕ) (xs : List ℕ) → left r ++ (x ∷ xs) ≡ bs → IsErr (m r)

-- `m` takes exactly `bs` from the front and returns the error `e`, whatever follows.
pub record Fails {R E A : Type 0} (left : R → List ℕ) (m : M R E A) (bs : List ℕ) (e : E)
    : Type 0 where
  pub reads : (r : R) (rest : List ℕ) → left r ≡ bs ++ rest → GotError left rest e (m r)

-- A proper prefix of two parts ends inside the first or goes past it.
split_prefix :
    (l bs cs : List ℕ) (x : ℕ) (xs : List ℕ)
    → l ++ (x ∷ xs) ≡ bs ++ cs
    → ((y : ℕ) × (ys : List ℕ) × (l ++ (y ∷ ys) ≡ bs))
      ⊎ ((front : List ℕ) × (l ≡ bs ++ front) × (front ++ (x ∷ xs) ≡ cs))
split_prefix [] [] cs x xs e = inr ([], refl, e)
split_prefix [] (b ∷ bs) cs x xs e = inl (b, bs, refl)
split_prefix (a ∷ l) [] cs x xs e = inr (a ∷ l, refl, e)
split_prefix (a ∷ l) (b ∷ bs) cs x xs e = elim (split_prefix l bs cs x xs (cc)) [
  | inl (y, ys, p) ↦ inl (y, ys, cc)
  | inr (front, p, q) ↦ inr (front, cc, q)
]

module _ {R E A B : Type 0} where
  IsErr-and_then : (f : A → M R E B) (o : Outcome R E A) → IsErr o → IsErr (and_then o f)
  IsErr-and_then f (ok x r) h = absurd h
  IsErr-and_then f (err x r) h = tt
  IsErr-and_then f panicked h = h

module _ {R E A B : Type 0} {left : R → List ℕ} where
  Got-and_then :
      (rest cs : List ℕ) (a : A) (b : B) (f : A → M R E B) (o : Outcome R E A)
      → Got left (cs ++ rest) a o
      → Decodes left (f a) cs b
      → Got left rest b (and_then o f)
  Got-and_then rest cs a b f (ok x r) (p, q) k =
      subst (λ y. Got left rest b (f y r)) (sym p) (k.reads r rest q)
  Got-and_then rest cs a b f (err x r) h k = absurd h
  Got-and_then rest cs a b f panicked h k = absurd h

  Got-IsErr :
      (front cs : List ℕ) (x : ℕ) (xs : List ℕ) (a : A) (b : B) (f : A → M R E B)
      (o : Outcome R E A)
      → front ++ (x ∷ xs) ≡ cs
      → Got left front a o
      → Decodes left (f a) cs b
      → IsErr (and_then o f)
  Got-IsErr front cs x xs a b f (ok y r) e (p, q) k =
      subst (λ z. IsErr (f z r)) (sym p) (k.starves r x xs (ap (λ l. l ++ (x ∷ xs)) q ∙ e))
  Got-IsErr front cs x xs a b f (err y r) e h k = absurd h
  Got-IsErr front cs x xs a b f panicked e h k = absurd h

  pub Decodes->>= :
      {m : M R E A} (f : A → M R E B) {bs cs : List ℕ} {a : A} {b : B}
      → Decodes left m bs a
      → Decodes left (f a) cs b
      → Decodes left (m >>= f) (bs ++ cs) b
  unfolding ◌>>=◌
  Decodes->>= {m} f {bs} {cs} {a} {b} h k = record {
    reads = λ r rest e.
        Got-and_then rest cs a b f (m r) (h.reads r (cs ++ rest) (e ∙ append_assoc bs cs rest)) k;
    starves = λ r x xs e. elim (split_prefix (left r) bs cs x xs e) [
      | inl (y, ys, p) ↦ IsErr-and_then f (m r) (h.starves r y ys p)
      | inr (front, p, q) ↦ Got-IsErr front cs x xs a b f (m r) q (h.reads r front p) k
    ];
  }

  GotError-and_then :
      (rest cs : List ℕ) (a : A) (e : E) (f : A → M R E B) (o : Outcome R E A)
      → Got left (cs ++ rest) a o
      → Fails left (f a) cs e
      → GotError left rest e (and_then o f)
  GotError-and_then rest cs a e f (ok x r) (p, q) k =
      subst (λ y. GotError left rest e (f y r)) (sym p) (k.reads r rest q)
  GotError-and_then rest cs a e f (err x r) h k = absurd h
  GotError-and_then rest cs a e f panicked h k = absurd h

  -- The first call reads, the second fails.
  pub Fails->>= :
      {m : M R E A} (f : A → M R E B) {bs cs : List ℕ} {a : A} {e : E}
      → Decodes left m bs a
      → Fails left (f a) cs e
      → Fails left (m >>= f) (bs ++ cs) e
  unfolding ◌>>=◌
  Fails->>= {m} f {bs} {cs} {a} {e} h k = record {
    reads = λ r rest p.
        GotError-and_then rest cs a e f (m r) (h.reads r (cs ++ rest) (p ∙ append_assoc bs cs rest))
          k;
  }

module _ {R E A B : Type 0} where
  GotError-head :
      (left : R → List ℕ) (rest : List ℕ) (e : E) (f : A → M R E B) (o : Outcome R E A)
      → GotError left rest e o
      → GotError left rest e (and_then o f)
  GotError-head left rest e f (ok x r) h = absurd h
  GotError-head left rest e f (err x r) h = h
  GotError-head left rest e f panicked h = absurd h

module _ {R E A B : Type 0} {left : R → List ℕ} where
  -- The first call fails, and what follows is not run.
  pub Fails-head :
      {m : M R E A} (f : A → M R E B) {bs : List ℕ} {e : E}
      → Fails left m bs e
      → Fails left (m >>= f) bs e
  unfolding ◌>>=◌
  Fails-head {m} f {bs} {e} h = record {
    reads = λ r rest p. GotError-head left rest e f (m r) (h.reads r rest p);
  }

module _ {R E A : Type 0} {left : R → List ℕ} where
  pub Decodes-pure : (a : A) → Decodes left (pure {E = E} a) [] a
  unfolding pure
  Decodes-pure a = record {
    reads = λ r rest e. (refl, e);
    starves = λ r x xs e. absurd (omega (arith, ap length e, length-append (left r) (x ∷ xs)));
  }

  pub Fails-fail : (e : E) → Fails left (fail {A = A} e) [] e
  unfolding fail
  Fails-fail e = record { reads = λ r rest p. (refl, p) }

module _ {R E A B : Type 0} {left : R → List ℕ} where
  -- The second call takes nothing.
  pub Decodes-last :
      {m : M R E A} (f : A → M R E B) {bs : List ℕ} {a : A} {b : B}
      → Decodes left m bs a
      → Decodes left (f a) [] b
      → Decodes left (m >>= f) bs b
  Decodes-last {m} f {bs} {b = b} h k =
      subst (λ l. Decodes left (m >>= f) l b) (append-nil bs) (Decodes->>= f h k)

  pub Fails-last :
      {m : M R E A} (f : A → M R E B) {bs : List ℕ} {a : A} {e : E}
      → Decodes left m bs a
      → Fails left (f a) [] e
      → Fails left (m >>= f) bs e
  Fails-last {m} f {bs} {e = e} h k =
      subst (λ l. Fails left (m >>= f) l e) (append-nil bs) (Fails->>= f h k)

  -- What follows takes nothing: `Ok(g(m?))`.
  pub Decodes-map :
      {m : M R E A} (g : A → B) {bs : List ℕ} {a : A}
      → Decodes left m bs a
      → Decodes left (m >>= λ x. pure (g x)) bs (g a)
  Decodes-map g {a = a} h = Decodes-last (λ x. pure (g x)) h (Decodes-pure (g a))

module _ {R E A B : Type 0} {left : R → List ℕ} where
  pub Decodes-map_eq :
      {m : M R E A} (g : A → B) {bs : List ℕ} {a : A} {b : B}
      → Decodes left m bs a
      → g a ≡ b
      → Decodes left (m >>= λ x. pure (g x)) bs b
  Decodes-map_eq {m} g {bs} h e =
      subst (Decodes left (m >>= λ x. pure (g x)) bs) e (Decodes-map g h)

module _ {R E F A : Type 0} where
  Got-map_outcome_err :
      (left : R → List ℕ) (g : E → F) (rest : List ℕ) (a : A) (o : Outcome R E A)
      → Got left rest a o
      → Got left rest a (map_outcome_err g o)
  Got-map_outcome_err left g rest a (ok x r) h = h
  Got-map_outcome_err left g rest a (err x r) h = absurd h
  Got-map_outcome_err left g rest a panicked h = h

  IsErr-map_outcome_err : (g : E → F) (o : Outcome R E A) → IsErr o → IsErr (map_outcome_err g o)
  IsErr-map_outcome_err g (ok x r) h = absurd h
  IsErr-map_outcome_err g (err x r) h = tt
  IsErr-map_outcome_err g panicked h = h

  pub Decodes-map_err :
      {left : R → List ℕ} {m : M R E A} (g : E → F) {bs : List ℕ} {a : A}
      → Decodes left m bs a
      → Decodes left (map_err g m) bs a
  unfolding map_err
  Decodes-map_err {left} {m} g {bs} {a} h = record {
    reads = λ r rest e. Got-map_outcome_err left g rest a (m r) (h.reads r rest e);
    starves = λ r x xs e. IsErr-map_outcome_err g (m r) (h.starves r x xs e);
  }

-- What a reader promises: bytes that are there are handed over in order, and a read past the end
-- is an error.
pub record IsSource {R E : Type 0} (rd : RmpRead R E) (left : R → List ℕ) : Type 0 where
  pub u8 : (b : ℕ) → Decodes left rd.read_u8 (b ∷ []) b
  pub exact : (bs : List ℕ) → Decodes left (rd.read_exact_buf (length bs)) bs bs
