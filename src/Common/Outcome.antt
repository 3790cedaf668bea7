-- ===== src/Common/Outcome.antt =====
-- What a call on a reader or a writer gives back: Rust's `Result`, and the object behind `&mut`
-- as the call leaves it. A chain of calls stops at the first error, as `?` does. The combinators
-- are shut: proofs go by the rules for them in `Encode.Logic` and `Decode.Logic`.

-- `panicked` is a failed assertion or an index out of range.
pub data Outcome (S E A : Type 0) : Type 0 where
  ok : A → S → Outcome S E A
  err : E → S → Outcome S E A
  panicked : Outcome S E A

abbrev pub M : Type 0 → Type 0 → Type 0 → Type 0
M S E A = S → Outcome S E A

module _ {S E A B : Type 0} where
  abbrev pub and_then : Outcome S E A → (A → M S E B) → Outcome S E B
  and_then (ok a s) f = f a s
  and_then (err e s) f = err e s
  and_then panicked f = panicked

  infixl 5 ◌>>=◌
  unfoldable pub ◌>>=◌ : M S E A → (A → M S E B) → M S E B
  (m >>= f) s = and_then (m s) f

module _ {S E B : Type 0} where
  infixl 5 ◌>>◌
  unfoldable pub ◌>>◌ : M S E (Unit {0}) → M S E B → M S E B
  unfolding ◌>>=◌
  m >> k = m >>= λ _. k

module _ {S E F A : Type 0} where
  abbrev pub map_outcome_err : (E → F) → Outcome S E A → Outcome S F A
  map_outcome_err g (ok a s) = ok a s
  map_outcome_err g (err e s) = err (g e) s
  map_outcome_err g panicked = panicked

  -- `.map_err(g)`, and `?` where `From` converts the error by `g`.
  unfoldable pub map_err : (E → F) → M S E A → M S F A
  map_err g m s = map_outcome_err g (m s)

module _ {S E A : Type 0} where
  unfoldable pub pure : A → M S E A
  pure a s = ok a s

  unfoldable pub fail : E → M S E A
  fail e s = err e s

  unfoldable pub panic : M S E A
  panic s = panicked
