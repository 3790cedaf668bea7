-- ===== src/Serde/De/Safe.antt =====
-- rmp-serde/src/decode.rs: how a call on a deserializer ends whatever there is to read: with a result
-- or an error, and no panic, and after a result with the depth as it was.
use msgpack_rust.Common.{
  ℕ, zero, suc, ◌-◌, ◌<◌, ◌==◌, ◌≡◌, refl, ◌⊎◌, inl, inr, Option, none, some, arith, false,
}
use msgpack_rust.Common.Outcome.{Outcome, ok, err, panicked, M, and_then, ◌>>=◌, ◌>>◌, pure, fail}
use msgpack_rust.Decode.Answers.{
  Answers, Anything, Yields, Fills, Answers-map_err, read_marker-Answers,
}
use msgpack_rust.Marker.{Marker}
use msgpack_rust.Serde.Config.{Config}
use msgpack_rust.Serde.De.{
  Error, ReadSlice, Deserializer, on_rd, on_outcome, set_marker, take_or_read_marker,
  cached_or_read,
}
use msgpack_rust.Serde.De.Any.{enter, leave, visited}

-- What `std::io::Read` and `ReadSlice` promise: `read_exact` fills its buffer where it succeeds, and
-- neither call panics.
pub record IsTotal {R E : Type 0} (rs : ReadSlice R E) : Type 0 where
  pub exact : Fills rs.read_exact
  pub slice : (n : ℕ) → Answers Anything (rs.read_slice n)

module _ {R X A : Type 0} where
  abbrev pub Kept : ℕ → (A → Type 0) → Outcome (Deserializer R) X A → Type 0
  Kept depth P (ok a de) = P a × (de.depth ≡ depth)
  Kept depth P (err e de) = Unit {0}
  Kept depth P panicked = ⊥

-- From every state of the depth `depth`.
pub record Safe {R X A : Type 0} (depth : ℕ) (P : A → Type 0) (m : M (Deserializer R) X A)
    : Type 0 where
  pub run : (de : Deserializer R) → de.depth ≡ depth → Kept depth P (m de)

module _ {R X A : Type 0} {P : A → Type 0} {depth : ℕ} where
  pub Safe-pure : (a : A) → P a → Safe depth P (pure {S = Deserializer R} {E = X} a)
  unfolding pure
  Safe-pure a h = record { run = λ de d. (h, d) }

  pub Safe-fail : (e : X) → Safe depth P (fail {S = Deserializer R} e)
  unfolding fail
  Safe-fail e = record { run = λ de d. tt }

module _ {R X A B : Type 0} (depth : ℕ) (Q : A → Type 0) (P : B → Type 0) where
  Kept-and_then :
      (f : A → M (Deserializer R) X B) (o : Outcome (Deserializer R) X A)
      → Kept depth Q o
      → ((a : A) → Q a → Safe depth P (f a))
      → Kept depth P (and_then o f)
  Kept-and_then f (ok a de) (h, d) k = (k a h).run de d
  Kept-and_then f (err e de) h k = tt
  Kept-and_then f panicked h k = h

module _ {R X A B : Type 0} {depth : ℕ} {Q : A → Type 0} {P : B → Type 0} where
  pub Safe->>= :
      {m : M (Deserializer R) X A} (f : A → M (Deserializer R) X B)
      → Safe depth Q m
      → ((a : A) → Q a → Safe depth P (f a))
      → Safe depth P (m >>= f)
  unfolding ◌>>=◌
  Safe->>= {m} f h k = record { run = λ de d. Kept-and_then depth Q P f (m de) (h.run de d) k }

module _ {R X A : Type 0} (P : A → Type 0) where
  Kept-on_outcome :
      (config : Config) (marker : Option Marker) (depth k : ℕ) (o : Outcome R X A)
      → Yields P o
      → k ≡ depth
      → Kept depth P (on_outcome config marker k o)
  Kept-on_outcome config marker depth k (ok a rd) h d = (h, d)
  Kept-on_outcome config marker depth k (err e rd) h d = tt
  Kept-on_outcome config marker depth k panicked h d = h

module _ {R X A : Type 0} {P : A → Type 0} {depth : ℕ} where
  pub Safe-on_rd : {m : M R X A} → Answers P m → Safe depth P (on_rd m)
  unfolding on_rd
  Safe-on_rd {m} h = record {
    run = λ de d. Kept-on_outcome P de.config de.marker depth de.depth (m de.rd) (h.run de.rd) d;
  }

module _ {X A : Type 0} where
  -- What a visitor returns satisfies `P`, unless it is an error.
  abbrev pub Fine : (A → Type 0) → X ⊎ A → Type 0
  Fine P (inl x) = Unit {0}
  Fine P (inr a) = P a

module _ {R X A : Type 0} {P : A → Type 0} {depth : ℕ} where
  pub Safe-visited : (r : X ⊎ A) → Fine P r → Safe depth P (visited {S = Deserializer R} r)
  Safe-visited (inl x) h = Safe-fail x
  Safe-visited (inr a) h = Safe-pure a h

module _ {U R E : Type 0} {rs : ReadSlice R E} (total : IsTotal rs) {depth : ℕ} where
  cached_total : (cached : Option Marker) → Safe depth Anything (cached_or_read {U = U} rs cached)
  unfolding cached_or_read set_marker ◌>>◌ ◌>>=◌ pure
  cached_total none = Safe-on_rd (Answers-map_err _ (read_marker-Answers total.exact))
  cached_total (some mk) = record { run = λ de d. (tt, d) }

  pub take_or_read_marker-Safe : Safe depth Anything (take_or_read_marker {U = U} rs)
  unfolding take_or_read_marker
  take_or_read_marker-Safe = record { run = λ de d. (cached_total de.marker).run de d }

module _ {R U E A B : Type 0} {Q : A → Type 0} {P : B → Type 0} where
  after_leave :
      (inside : ℕ) (k : A → M (Deserializer R) (Error U E) B)
      (o : Outcome (Deserializer R) (Error U E) A)
      → Kept inside Q o
      → ((a : A) → Q a → Safe (suc inside) P (k a))
      → Kept (suc inside) P (and_then o (λ x. leave >> k x))
  unfolding leave ◌>>◌ ◌>>=◌
  after_leave inside k (ok a de) (h, d) f = (f a h).run _ (omega (arith, d))
  after_leave inside k (err x de) h f = tt
  after_leave inside k panicked h f = h

  -- One level deeper, where a level is left, and back.
  pub Safe-depth_count :
      (depth : ℕ) {m : M (Deserializer R) (Error U E) A} (k : A → M (Deserializer R) (Error U E) B)
      → 0 < depth
      → ((inside : ℕ) → suc inside ≡ depth → 0 < inside → Safe inside Q m)
      → ((a : A) → Q a → Safe depth P (k a))
      → Safe depth P (enter >> (m >>= λ x. leave >> k x))
  unfolding enter ◌>>◌ ◌>>=◌
  Safe-depth_count zero k pos h f = absurd (omega arith)
  Safe-depth_count (suc zero) k pos h f = record { run = λ de d. rw d tt }
  Safe-depth_count (suc (suc inside)) {m} k pos h f = record {
    run = λ de d.
        let some_left : (suc (suc inside) == 0) ≡ false = ground arith in
        let not_last : (suc (suc inside) == 1) ≡ false = ground arith in
        let less : suc (suc inside) - 1 ≡ suc inside = omega arith in
        rw (d, some_left, not_last, less)
          (after_leave (suc inside) k
            (m (record { rd = de.rd; config = de.config; marker = de.marker; depth = suc inside }))
            ((h (suc inside) refl (omega arith)).run _ refl) f);
  }
