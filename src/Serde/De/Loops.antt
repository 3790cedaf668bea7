-- ===== src/Serde/De/Loops.antt =====
-- rmp-serde/src/decode.rs and rmpv/src/ext/de.rs: the elements of a compound, one by one.
use msgpack_rust.Common.{
  ℕ, zero, suc, ◌<◌, ◌≡◌, refl, sym, ap, ◌∙◌, subst, Option, none, some, List, [], ◌++◌,
  append_assoc, arith,
}
use msgpack_rust.Common.Outcome.{Outcome, ok, err, panicked, M, and_then, ◌>>=◌, pure}
use msgpack_rust.Value.{
  Value, Values, Pairs, no_values, value, no_pairs, pair, count_values, count_pairs,
}
use msgpack_rust.Serde.De.{Deserializer}
use msgpack_rust.Serde.De.Any.{Access, on_de, in_access, next_element, next_value, out_of_access}
use msgpack_rust.Serde.De.Visitor.{collect, collect_pairs}
use msgpack_rust.Serde.De.Logic.{Back, Takes}

module _ {R X U : Type 0} (left : R → List ℕ) (need : ℕ)
    (inner : M (Deserializer R) X (Value U)) where
  -- `inner` takes the values, or the pairs, one behind the other.
  abbrev pub TakesAll : Values U → List ℕ → Type 0
  TakesAll no_values cs = cs ≡ []
  TakesAll (value v vs) cs =
      (b : List ℕ) × (c : List ℕ) × Takes left need inner b v × TakesAll vs c × (cs ≡ b ++ c)

  abbrev pub TakesPairs : Pairs U → List ℕ → Type 0
  TakesPairs no_pairs cs = cs ≡ []
  TakesPairs (pair k v ps) cs =
      (a : List ℕ) × (b : List ℕ) × (c : List ℕ) × Takes left need inner a k
      × Takes left need inner b v
      × TakesPairs ps c
      × (cs ≡ a ++ (b ++ c))

module _ {R X A : Type 0} (left : R → List ℕ) where
  -- As `Back`, with all elements taken.
  abbrev pub BackAll : ℕ → List ℕ → A → Outcome (Access R) X A → Type 0
  BackAll depth rest a (ok b acc) =
      (b ≡ a)
      × (acc.left ≡ 0)
      × (left acc.de.rd ≡ rest)
      × (acc.de.marker ≡ none)
      × (acc.de.depth ≡ depth)
  BackAll depth rest a (err e acc) = ⊥
  BackAll depth rest a panicked = ⊥

  pub at_end :
      (depth : ℕ) (rest : List ℕ) (a : A) (o : Outcome (Access R) X A)
      → BackAll depth rest a o
      → Back left depth rest (a, 0) (out_of_access o)
  at_end depth rest a (ok b acc) (p, z, q, n, d) = rw (p, z) (refl, q, n, d)
  at_end depth rest a (err e acc) p = absurd p
  at_end depth rest a panicked p = absurd p

module _ {R X A B : Type 0} (left : R → List ℕ) where
  -- What follows wraps the result.
  pub BackAll-map :
      (depth : ℕ) (rest : List ℕ) (a : A) (g : A → B) (o : Outcome (Access R) X A)
      → BackAll left depth rest a o
      → BackAll left depth rest (g a) (and_then o (λ x acc. ok (g x) acc))
  BackAll-map depth rest a g (ok b acc) (p, z, q, n, d) = (ap g p, z, q, n, d)
  BackAll-map depth rest a g (err e acc) p = absurd p
  BackAll-map depth rest a g panicked p = absurd p

  -- An element is taken, and what follows goes on behind it.
  after_element :
      (need depth left_over : ℕ) (rest cs : List ℕ) (a : A) (b : B) (f : A → M (Access R) X B)
      (o : Outcome (Deserializer R) X A)
      → need < depth
      → Back left depth (cs ++ rest) a o
      → ((de : Deserializer R)
          → left de.rd ≡ cs ++ rest
          → de.marker ≡ none
          → need < de.depth
          → BackAll left de.depth rest b (f a (record { de = de; left = left_over })))
      → BackAll left depth rest b (and_then (in_access left_over o) f)
  after_element need depth left_over rest cs a b f (ok x de) h (p, q, n, d) k = rw p (
      subst (λ l. BackAll left l rest b (f a (record { de = de; left = left_over }))) d
        (k de q n (subst (λ l. need < l) (sym d) h)))
  after_element need depth left_over rest cs a b f (err e de) h p k = absurd p
  after_element need depth left_over rest cs a b f panicked h p k = absurd p

module _ {R X A : Type 0} where
  pub some_last :
      {B : Type 0} (f : Option A → M (Access R) X B) (o : Outcome (Access R) X A)
      → and_then (and_then o (λ a acc. ok (some a) acc)) f ≡ and_then o (λ a. f (some a))
  some_last f (ok a acc) = refl
  some_last f (err e acc) = refl
  some_last f panicked = refl

module _ {R X U : Type 0} (left : R → List ℕ) (need : ℕ)
    (inner : M (Deserializer R) X (Value U)) where
  pub collect-TakesAll :
      (vs : Values U) (cs : List ℕ) (rounds : ℕ)
      → TakesAll left need inner vs cs
      → count_values vs < rounds
      → (de : Deserializer R) (rest : List ℕ) → left de.rd ≡ cs ++ rest
      → de.marker ≡ none
      → need < de.depth
      → BackAll left de.depth rest vs
          (collect rounds (next_element inner) (record { de = de; left = count_values vs }))
  unfolding collect next_element on_de ◌>>=◌ pure
  collect-TakesAll no_values cs zero h r de rest e n d = absurd (omega arith)
  collect-TakesAll no_values cs (suc rounds) h r de rest e n d =
      (refl, refl, e ∙ ap (λ l. l ++ rest) h, n, refl)
  collect-TakesAll (value v vs) cs zero h r de rest e n d = absurd (omega arith)
  collect-TakesAll (value v vs) cs (suc rounds) (b, c, first, all, p) r de rest e n d =
      subst (BackAll left de.depth rest (value v vs))
        (sym (some_last _ (in_access (count_values vs) (inner de))))
        (after_element left need de.depth (count_values vs) rest c v (value v vs) _ (inner de) d
          (first.run de (c ++ rest) (e ∙ ap (λ l. l ++ rest) p ∙ append_assoc b c rest) n d)
          (λ de' q m l.
            BackAll-map left de'.depth rest vs (value v)
              (collect rounds (next_element inner) (record { de = de'; left = count_values vs }))
              (collect-TakesAll vs c rounds all (omega arith) de' rest q m l)))

  pub collect_pairs-TakesPairs :
      (ps : Pairs U) (cs : List ℕ) (rounds : ℕ)
      → TakesPairs left need inner ps cs
      → count_pairs ps < rounds
      → (de : Deserializer R) (rest : List ℕ) → left de.rd ≡ cs ++ rest
      → de.marker ≡ none
      → need < de.depth
      → BackAll left de.depth rest ps (
          collect_pairs rounds
            (next_element inner)
            (next_value inner)
            (record { de = de; left = count_pairs ps }))
  unfolding collect_pairs next_element next_value on_de ◌>>=◌ pure
  collect_pairs-TakesPairs no_pairs cs zero h r de rest e n d = absurd (omega arith)
  collect_pairs-TakesPairs no_pairs cs (suc rounds) h r de rest e n d =
      (refl, refl, e ∙ ap (λ l. l ++ rest) h, n, refl)
  collect_pairs-TakesPairs (pair k v ps) cs zero h r de rest e n d = absurd (omega arith)
  collect_pairs-TakesPairs (pair k v ps) cs (suc rounds) (a, b, c, key, val, all, p) r de rest e n
        d =
      subst (BackAll left de.depth rest (pair k v ps))
        (sym (some_last _ (in_access (count_pairs ps) (inner de))))
        (after_element left need de.depth (count_pairs ps) rest (b ++ c) k (pair k v ps) _
          (inner de) d
          (key.run de ((b ++ c) ++ rest) (e ∙ ap (λ l. l ++ rest) p ∙ append_assoc a (b ++ c) rest)
            n d)
          (λ de' q m l.
            after_element left need de'.depth (count_pairs ps) rest c v (pair k v ps) _ (inner de')
              l (val.run de' (c ++ rest) (q ∙ append_assoc b c rest) m l)
              (λ de2 q2 m2 l2.
                BackAll-map left de2.depth rest ps (pair k v)
                  (collect_pairs rounds (next_element inner) (next_value inner)
                    (record { de = de2; left = count_pairs ps }))
                  (collect_pairs-TakesPairs ps c rounds all (omega arith) de2 rest q2 m2 l2))))
