-- ===== src/Serde/De/Elements.antt =====
-- rmp-serde/src/decode.rs and rmpv/src/ext/de.rs: the elements of a compound, and the parts of an
-- extension, from an input of any kind.
use msgpack_rust.Common.{ℕ, zero, suc, ◌<◌, ◌≡◌, refl, sym, subst, Option, none, some, arith}
use msgpack_rust.Common.Outcome.{Outcome, ok, err, panicked, M, and_then, ◌>>=◌, pure}
use msgpack_rust.ByteOrder.{ByteOrder}
use msgpack_rust.Decode.Answers.{
  Answers, Anything, Yields, Answers-pure, Answers-fail, Answers->>=, Answers-map_err,
  read_data_i8-Answers,
}
use msgpack_rust.Decode.Str.{Utf8}
use msgpack_rust.Value.{Value, Values, Pairs, ext, value, pair}
use msgpack_rust.Serde.De.{Error, borrowed, copied, ReadSlice, Deserializer}
use msgpack_rust.Serde.De.Any
use msgpack_rust.Serde.De.Any.{
  Access, ExtDeserializer, ExtDeserializerState, ExtElement, fresh, read_tag, read_binary, in_ext,
  in_access, out_of_access, out_of_ext, next_ext, ext_len, with_ext, with_access, next_element,
  next_value, on_de, all_taken, visited, visit_str_data, or_utf8_error, visit_reference,
  read_str_data, any_bin, any_array, any_map, any_ext, any_marked, any_fuel, deserialize_any,
}
use msgpack_rust.Serde.De.Visitor
use msgpack_rust.Serde.De.Visitor.{
  Refusals, collect, collect_pairs, value_visitor, visit_ext, as_tag,
}
use msgpack_rust.Serde.De.Loops.{some_last}
use msgpack_rust.Serde.De.Read.{levels, levels_of_values, levels_of_pairs}
use msgpack_rust.Serde.De.Safe.{IsTotal, Kept, Safe, Fine}

module _ {R X A : Type 0} where
  -- As `Kept`, of the accessor that holds the deserializer.
  abbrev pub KeptAccess : ℕ → (A → Type 0) → Outcome (Access R) X A → Type 0
  KeptAccess depth P (ok a acc) = P a × (acc.de.depth ≡ depth)
  KeptAccess depth P (err e acc) = Unit {0}
  KeptAccess depth P panicked = ⊥

  pub after_access :
      (depth : ℕ) (P : A → Type 0) (o : Outcome (Access R) X A)
      → KeptAccess depth P o
      → Kept depth (λ (res : A × ℕ). P res.0) (out_of_access o)
  after_access depth P (ok a acc) h = h
  after_access depth P (err e acc) h = tt
  after_access depth P panicked h = h

module _ {R X A B : Type 0} (depth left_over : ℕ) (Q : A → Type 0) (P : B → Type 0) where
  after_element :
      (f : A → M (Access R) X B) (o : Outcome (Deserializer R) X A)
      → Kept depth Q o
      → ((a : A)
          → Q a
          → (de : Deserializer R) → de.depth ≡ depth
          → KeptAccess depth P (f a (record { de = de; left = left_over })))
      → KeptAccess depth P (and_then (in_access left_over o) f)
  after_element f (ok a de) (h, d) k = k a h de d
  after_element f (err e de) h k = tt
  after_element f panicked h k = h

  pub kept_last :
      (g : A → B) (o : Outcome (Access R) X A)
      → KeptAccess depth Q o
      → ((a : A) → Q a → P (g a))
      → KeptAccess depth P (and_then o (λ a acc. ok (g a) acc))
  kept_last g (ok a acc) (h, d) k = (k a h, d)
  kept_last g (err e acc) h k = tt
  kept_last g panicked h k = h

module _ {R X U : Type 0} (depth : ℕ) (inner : M (Deserializer R) X (Value U))
    (one : Safe depth (λ v. levels v < depth) inner) (pos : 0 < depth) where
  abbrev pub Small : Values U → Type 0
  Small vs = levels_of_values vs < depth

  abbrev pub SmallPairs : Pairs U → Type 0
  SmallPairs ps = levels_of_pairs ps < depth

  pub collect_total :
      (rounds left : ℕ)
      → left < rounds
      → (de : Deserializer R) → de.depth ≡ depth
      → KeptAccess depth Small
          (collect rounds (next_element inner) (record { de = de; left = left }))
  unfolding collect next_element on_de ◌>>=◌ pure levels_of_values
  collect_total zero left h de d = absurd (omega arith)
  collect_total (suc rounds) zero h de d = (pos, d)
  collect_total (suc rounds) (suc left) h de d =
      subst (KeptAccess depth Small) (sym (some_last _ (in_access left (inner de)))) (
        after_element depth left (λ v. levels v < depth) Small _ (inner de) (one.run de d)
          (λ v small de' d'.
            kept_last depth left Small Small (value v)
              (collect rounds (next_element inner) (record { de = de'; left = left }))
              (collect_total rounds left (omega arith) de' d') (λ vs g. omega (arith, small, g))))

  pub collect_pairs_total :
      (rounds left : ℕ)
      → left < rounds
      → (de : Deserializer R) → de.depth ≡ depth
      → KeptAccess depth SmallPairs (
          collect_pairs rounds
            (next_element inner)
            (next_value inner)
            (record { de = de; left = left }))
  unfolding collect_pairs next_element next_value on_de ◌>>=◌ pure levels_of_pairs
  collect_pairs_total zero left h de d = absurd (omega arith)
  collect_pairs_total (suc rounds) zero h de d = (pos, d)
  collect_pairs_total (suc rounds) (suc left) h de d =
      subst (KeptAccess depth SmallPairs) (sym (some_last _ (in_access left (inner de)))) (
        after_element depth left (λ v. levels v < depth) SmallPairs _ (inner de) (one.run de d)
          (λ k few de' d'.
            after_element depth left (λ v. levels v < depth) SmallPairs _ (inner de')
              (one.run de' d')
              (λ v small de2 d2.
                kept_last depth left SmallPairs SmallPairs (pair k v)
                  (collect_pairs rounds (next_element inner) (next_value inner)
                    (record { de = de2; left = left }))
                  (collect_pairs_total rounds left (omega arith) de2 d2)
                  (λ ps g. omega (arith, few, small, g)))))

module _ (bo : ByteOrder) {U R E : Type 0} (utf8 : Utf8 U) {rs : ReadSlice R E} (total : IsTotal rs)
    (refusals : Refusals (Error U E)) where
  in_ext-Yields :
      {A : Type 0} (len : ℕ) (state next : ExtDeserializerState) (o : Outcome R (Error U E) A)
      → Yields Anything o
      → Yields Anything (in_ext len state next o)
  in_ext-Yields len state next (ok a rd) h = tt
  in_ext-Yields len state next (err e rd) h = tt
  in_ext-Yields len state next panicked h = h

  next_ext_state :
      (rd : R) (len : ℕ) (state : ExtDeserializerState)
      → Yields Anything (next_ext bo utf8 rs (record { rd = rd; len = len; state = state }))
  unfolding next_ext
  next_ext_state rd len fresh = in_ext-Yields len fresh read_tag _ (
      (Answers->>= {P = Anything} _ (Answers-map_err _ (read_data_i8-Answers total.exact))
          (λ z h. Answers-pure _ tt)).run
        rd)
  next_ext_state rd len read_tag = in_ext-Yields len read_tag read_binary _ (
      (Answers->>= {P = Anything} _ (Answers-map_err _ (total.slice len))
          (λ z h. Answers-pure _ tt)).run
        rd)
  next_ext_state rd len read_binary = tt

  next_ext-Answers : Answers Anything (next_ext bo utf8 rs)
  next_ext-Answers = record { run = λ taken. next_ext_state taken.rd taken.len taken.state }

  tag_total :
      (elem : Option ExtElement) → Answers {R = ExtDeserializer R} Anything (as_tag refusals elem)
  unfolding as_tag
  tag_total none = Answers-fail _
  tag_total (some (Any.tag z)) = Answers-pure z tt
  tag_total (some (Any.binary buf)) = Answers-fail _

  bytes_total :
      (elem : Option ExtElement)
      → Answers {R = ExtDeserializer R} Anything (Visitor.as_bytes refusals elem)
  unfolding Visitor.as_bytes
  bytes_total none = Answers-fail _
  bytes_total (some (Any.tag z)) = Answers-fail _
  bytes_total (some (Any.binary (borrowed buf))) = Answers-pure buf tt
  bytes_total (some (Any.binary (copied buf))) = Answers-pure buf tt

  pub visit_ext_total :
      Answers (λ (v : Value U). levels v ≡ 1) (visit_ext refusals (next_ext bo utf8 rs))
  unfolding visit_ext levels
  visit_ext_total = Answers->>= _ next_ext-Answers (λ first f.
      Answers->>= _ (tag_total first) (λ ty g.
        Answers->>= _ next_ext-Answers (λ second h.
          Answers->>= _ (bytes_total second) (λ buf k. Answers-pure (ext ty buf) refl))))

  pub after_ext :
      (depth : ℕ) (de : Deserializer R) (o : Outcome (ExtDeserializer R) (Error U E) (Value U))
      → de.depth ≡ depth
      → Yields (λ v. levels v ≡ 1) o
      → Kept {X = Error U E} depth (Fine (λ v. levels v ≡ 1)) (out_of_ext de o)
  after_ext depth de (ok v taken) d h = (h, d)
  after_ext depth de (err e taken) d h = (tt, d)
  after_ext depth de panicked d h = h
