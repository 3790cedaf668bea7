-- ===== src/Serde/De/Logic.antt =====
-- rmp-serde/src/decode.rs: how a call on a deserializer is specified: by the bytes that it takes,
-- and the depth that it needs.
use msgpack_rust.Common.{
  ℕ, suc, ◌+◌, ◌-◌, ◌<◌, ◌==◌, ◌≡◌, refl, sym, ◌∙◌, subst, Option, none, List, [], ◌∷◌, ◌++◌,
  append_assoc, append-nil, length, false, arith,
}
use msgpack_rust.Common.Outcome.{Outcome, ok, err, panicked, M, and_then, ◌>>=◌, ◌>>◌, pure}
use msgpack_rust.Marker.{Marker, to_u8, IsMarker}
use msgpack_rust.Decode.{io_read}
use msgpack_rust.Decode.Logic.{Got, Decodes, IsSource, Decodes-map_err}
use msgpack_rust.Decode.Wire.{read_marker-Decodes}
use msgpack_rust.Serde.Config.{Config}
use msgpack_rust.Serde.De.{
  Error, Reference, borrowed, copied, ReadSlice, Deserializer, on_rd, on_outcome,
  take_or_read_marker, cached_or_read,
}
use msgpack_rust.Serde.De.Any.{enter, leave}

abbrev pub contents : Reference → List ℕ
contents (borrowed buf) = buf
contents (copied buf) = buf

-- What a reader promises: the bytes that are there are handed over in order, borrowed or copied.
pub record IsSlice {R E : Type 0} (rs : ReadSlice R E) (left : R → List ℕ)
    (wrap : List ℕ → Reference) : Type 0 where
  pub source : IsSource (io_read rs.read_exact) left
  pub slice : (bs : List ℕ) → Decodes left (rs.read_slice (length bs)) bs (wrap bs)
  pub kept : (bs : List ℕ) → contents (wrap bs) ≡ bs

module _ {R X A : Type 0} (left : R → List ℕ) where
  -- The result is `a`, with `rest` left to read and the depth as it was; no marker is kept.
  abbrev pub Back : ℕ → List ℕ → A → Outcome (Deserializer R) X A → Type 0
  Back depth rest a (ok b de) =
      (b ≡ a) × (left de.rd ≡ rest) × (de.marker ≡ none) × (de.depth ≡ depth)
  Back depth rest a (err e de) = ⊥
  Back depth rest a panicked = ⊥

-- Where no marker is kept and the depth is more than `need`, `m` takes exactly `bs` and returns `a`.
pub record Takes {R X A : Type 0} (left : R → List ℕ) (need : ℕ) (m : M (Deserializer R) X A)
    (bs : List ℕ) (a : A) : Type 0 where
  pub run :
      (de : Deserializer R) (rest : List ℕ)
      → left de.rd ≡ bs ++ rest
      → de.marker ≡ none
      → need < de.depth
      → Back left de.depth rest a (m de)

module _ {R X A B : Type 0} (left : R → List ℕ) (need : ℕ) where
  Back-and_then :
      (depth : ℕ) (rest cs : List ℕ) (a : A) (b : B) (f : A → M (Deserializer R) X B)
      (o : Outcome (Deserializer R) X A)
      → need < depth
      → Back left depth (cs ++ rest) a o
      → Takes left need (f a) cs b
      → Back left depth rest b (and_then o f)
  Back-and_then depth rest cs a b f (ok x de) h (p, q, n, d) k = rw p (
      subst (λ l. Back left l rest b (f a de)) d
        (k.run de rest q n (subst (λ l. need < l) (sym d) h)))
  Back-and_then depth rest cs a b f (err e de) h p k = absurd p
  Back-and_then depth rest cs a b f panicked h p k = absurd p

module _ {R X A B : Type 0} {left : R → List ℕ} {need : ℕ} where
  pub Takes->>= :
      {m : M (Deserializer R) X A} (f : A → M (Deserializer R) X B) {bs cs : List ℕ} {a : A} {b : B}
      → Takes left need m bs a
      → Takes left need (f a) cs b
      → Takes left need (m >>= f) (bs ++ cs) b
  unfolding ◌>>=◌
  Takes->>= {m} f {bs} {cs} {a} {b} h k = record {
    run = λ de rest e n d.
        Back-and_then left need de.depth rest cs a b f (m de) d
          (h.run de (cs ++ rest) (e ∙ append_assoc bs cs rest) n d) k;
  }

module _ {R X A : Type 0} {left : R → List ℕ} {need : ℕ} where
  pub Takes-pure : (a : A) → Takes left need (pure {E = X} a) [] a
  unfolding pure
  Takes-pure a = record { run = λ de rest e n d. (refl, e, n, refl) }

module _ {R X A B : Type 0} {left : R → List ℕ} {need : ℕ} where
  -- The second call takes nothing.
  pub Takes-last :
      {m : M (Deserializer R) X A} (f : A → M (Deserializer R) X B) {bs : List ℕ} {a : A} {b : B}
      → Takes left need m bs a
      → Takes left need (f a) [] b
      → Takes left need (m >>= f) bs b
  Takes-last {m} f {bs} {b = b} h k =
      subst (λ l. Takes left need (m >>= f) l b) (append-nil bs) (Takes->>= f h k)

module _ {R X A : Type 0} (left : R → List ℕ) where
  Got-Back :
      (config : Config) (depth : ℕ) (marker : Option Marker) (rest : List ℕ) (a : A)
      (o : Outcome R X A)
      → marker ≡ none
      → Got left rest a o
      → Back left depth rest a (on_outcome config marker depth o)
  Got-Back config depth marker rest a (ok b rd) n (p, q) = (p, q, n, refl)
  Got-Back config depth marker rest a (err e rd) n p = absurd p
  Got-Back config depth marker rest a panicked n p = absurd p

module _ {R X A : Type 0} {left : R → List ℕ} (need : ℕ) where
  -- A call on the reader.
  pub Takes-on_rd :
      {m : M R X A} {bs : List ℕ} {a : A} → Decodes left m bs a → Takes left need (on_rd m) bs a
  unfolding on_rd
  Takes-on_rd {m} {a = a} h = record {
    run = λ de rest e n d.
        Got-Back left de.config de.depth de.marker rest a (m de.rd) n (h.reads de.rd rest e);
  }

module _ {U R E : Type 0} (rs : ReadSlice R E) {left : R → List ℕ} (need : ℕ)
    (source : IsSource (io_read rs.read_exact) left) where
  pub take_or_read_marker-Takes :
      (mk : Marker)
      → IsMarker mk
      → Takes left need (take_or_read_marker {U = U} rs) (to_u8 mk ∷ []) mk
  unfolding take_or_read_marker
  take_or_read_marker-Takes mk h = record {
    run = λ de rest e n d.
        subst (λ (o : Option Marker). Back left de.depth rest mk (cached_or_read {U = U} rs o de))
          (sym n)
          ((Takes-on_rd need (Decodes-map_err _ (read_marker-Decodes source mk h))).run de rest e n
            d);
  }

module _ {R U E A B : Type 0} (left : R → List ℕ) (need : ℕ) where
  after_leave :
      (depth : ℕ) (rest : List ℕ) (a : A) (b : B) (k : A → M (Deserializer R) (Error U E) B)
      (o : Outcome (Deserializer R) (Error U E) A)
      → need < depth + 1
      → Back left depth rest a o
      → Takes left need (k a) [] b
      → Back left (depth + 1) rest b (and_then o (λ x. leave >> k x))
  unfolding leave ◌>>◌ ◌>>=◌
  after_leave depth rest a b k (ok x de) h (p, q, n, d) t = rw p (
      subst
        (λ l. Back left (l + 1) rest b (
          k a
            (record { rd = de.rd; config = de.config; marker = de.marker; depth = de.depth + 1 })))
        d (t.run _ rest q n (omega (arith, d))))
  after_leave depth rest a b k (err e de) h p t = absurd p
  after_leave depth rest a b k panicked h p t = absurd p

module _ {R U E A B : Type 0} {left : R → List ℕ} {need : ℕ} where
  -- One level deeper.
  pub Takes-depth_count :
      {m : M (Deserializer R) (Error U E) A} (k : A → M (Deserializer R) (Error U E) B)
      {bs : List ℕ} {a : A} {b : B}
      → Takes left need m bs a
      → Takes left (suc need) (k a) [] b
      → Takes left (suc need) (enter >> (m >>= λ x. leave >> k x)) bs b
  unfolding enter ◌>>◌ ◌>>=◌
  Takes-depth_count {m} k {bs} {a} {b} h t = record {
    run = λ de rest e n d.
        let some_left : (de.depth == 0) ≡ false = ground arith in
        let not_last : (de.depth == 1) ≡ false = ground arith in
        let whole : de.depth ≡ de.depth - 1 + 1 = omega arith in
        let inner : Deserializer R = record {
          rd = de.rd;
          config = de.config;
          marker = de.marker;
          depth = de.depth - 1;
        } in
        rw (some_left, not_last)
          (subst (λ l. Back left l rest b (and_then (m inner) (λ x. leave >> k x))) (sym whole)
            (after_leave left (suc need) (de.depth - 1) rest a b k (m inner) (omega arith)
              (h.run inner rest e n (omega arith)) t));
  }
