-- ===== src/Value/Borrowed/Same.antt =====
-- How two calls on one reader are compared: the one gives what the other gives, copied.
use msgpack_rust.Common.{◌≡◌, refl}
use msgpack_rust.Common.Outcome.{Outcome, ok, err, panicked, M, and_then, ◌>>=◌, pure, fail, panic}

module _ {R E A B : Type 0} where
  -- Both give a result, `copy` turns the one into the other, and both leave the reader in the same
  -- state; or both give the same error; or both panic.
  abbrev pub Agree : (B → A) → Outcome R E A → Outcome R E B → Type 0
  Agree copy (ok a r) (ok b s) = (a ≡ copy b) × (r ≡ s)
  Agree copy (err e r) (err f s) = e ≡ f
  Agree copy panicked panicked = Unit {0}
  Agree copy _ _ = ⊥

  -- The two calls agree on every state of the reader.
  pub record Same (copy : B → A) (m : M R E A) (k : M R E B) : Type 0 where
    pub run : (r : R) → Agree copy (m r) (k r)

module _ {R E A : Type 0} where
  Agree-refl : (o : Outcome R E A) → Agree (λ a. a) o o
  Agree-refl (ok a r) = (refl, refl)
  Agree-refl (err e r) = refl
  Agree-refl panicked = tt

  -- A call that both make.
  pub Same-refl : (m : M R E A) → Same (λ a. a) m m
  Same-refl m = record { run = λ r. Agree-refl (m r) }

module _ {R E A B C D : Type 0} where
  Agree-and_then :
      (copy : B → A) (copy_next : D → C) (f : A → M R E C) (g : B → M R E D) (o : Outcome R E A)
      (p : Outcome R E B)
      → Agree copy o p
      → ((b : B) → Same copy_next (f (copy b)) (g b))
      → Agree copy_next (and_then o f) (and_then p g)
  Agree-and_then copy copy_next f g (ok a r) (ok b s) (same, left) h = rw (same, left) ((h b).run s)
  Agree-and_then copy copy_next f g (err e r) (err x s) h k = h
  Agree-and_then copy copy_next f g panicked panicked h k = tt
  Agree-and_then copy copy_next f g (ok a r) (err e s) h k = absurd h
  Agree-and_then copy copy_next f g (ok a r) panicked h k = absurd h
  Agree-and_then copy copy_next f g (err e r) (ok b s) h k = absurd h
  Agree-and_then copy copy_next f g (err e r) panicked h k = absurd h
  Agree-and_then copy copy_next f g panicked (ok b s) h k = absurd h
  Agree-and_then copy copy_next f g panicked (err e s) h k = absurd h

  pub Same->>= :
      {copy : B → A} {copy_next : D → C} {m : M R E A} {k : M R E B} (f : A → M R E C)
      (g : B → M R E D)
      → Same copy m k
      → ((b : B) → Same copy_next (f (copy b)) (g b))
      → Same copy_next (m >>= f) (k >>= g)
  unfolding ◌>>=◌
  Same->>= {copy} {copy_next} {m} {k} f g h next = record {
    run = λ r. Agree-and_then copy copy_next f g (m r) (k r) (h.run r) next;
  }

module _ {R E A C D : Type 0} where
  -- Both make the same call first.
  pub Same-after :
      {copy : D → C} (m : M R E A) (f : A → M R E C) (g : A → M R E D)
      → ((a : A) → Same copy (f a) (g a))
      → Same copy (m >>= f) (m >>= g)
  Same-after m f g next = Same->>= f g (Same-refl m) next

module _ {R E A B : Type 0} where
  pub Same-pure :
      (copy : B → A) (a : A) (b : B) → a ≡ copy b → Same {R = R} {E = E} copy (pure a) (pure b)
  unfolding pure
  Same-pure copy a b e = record { run = λ r. (e, refl) }

  pub Same-fail : (copy : B → A) (e : E) → Same {R = R} copy (fail e) (fail e)
  unfolding fail
  Same-fail copy e = record { run = λ r. refl }

  pub Same-panic : (copy : B → A) → Same {R = R} {E = E} copy panic panic
  unfolding panic
  Same-panic copy = record { run = λ r. tt }
