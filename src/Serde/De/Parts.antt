-- ===== src/Serde/De/Parts.antt =====
-- rmp-serde/src/decode.rs and rmpv/src/ext/de.rs: what follows a marker and its length.
use msgpack_rust.Common.{
  ℕ, suc, ◌≡◌, refl, ap, ◌∙◌, none, some, List, ◌++◌, append_assoc, length, arith, inr, ◌⊎◌,
}
use msgpack_rust.Common.Int.{ℤ, IsSigned, as_unsigned}
use msgpack_rust.Common.Outcome.{Outcome, ok, err, panicked, M, and_then, ◌>>=◌, pure}
use msgpack_rust.ByteOrder.{ByteOrder, be_bytes}
use msgpack_rust.Decode.Str.{Utf8}
use msgpack_rust.Decode.Logic.{Got, Decodes-map, Decodes-map_err}
use msgpack_rust.Decode.Wire.{data_i8}
use msgpack_rust.Value.{
  Value, Values, Pairs, Utf8String, text, raw, string, binary, array, map, ext, count_values,
  count_pairs,
}
use msgpack_rust.Value.Stored.{settle_string}
use msgpack_rust.Value.Encoding.{IsUtf8String, as_bytes}
use msgpack_rust.Serde.De.{
  Error, Reference, borrowed, copied, ReadSlice, Deserializer, read_bin_data,
}
use msgpack_rust.Serde.De.Any
use msgpack_rust.Serde.De.Any.{
  ExtDeserializer, ExtDeserializerState, ExtElement, fresh, read_tag, read_binary, in_ext, next_ext,
  with_ext, next_element, next_value, with_access, all_taken, read_str_data, visit_str_data,
  visit_reference, visited, any_bin, any_array, any_map, any_ext, out_of_ext, out_of_access,
}
use msgpack_rust.Serde.De.Visitor.{
  Refusals, collect, collect_pairs, value_visitor, visit_ext, as_tag,
}
use msgpack_rust.Serde.De.Visitor
use msgpack_rust.Serde.De.Logic.{
  IsSlice, contents, Back, Takes, Takes-last, Takes-pure, Takes-on_rd, Takes-depth_count,
}
use msgpack_rust.Serde.De.Loops.{
  TakesAll, TakesPairs, BackAll-map, at_end, collect-TakesAll, collect_pairs-TakesPairs,
}

module _ (bo : ByteOrder) {U R E : Type 0} (utf8 : Utf8 U) (rs : ReadSlice R E)
    (refusals : Refusals (Error U E)) where
  visit_reference_lem :
      (buf : Reference)
      → visit_reference bo utf8 rs (value_visitor {U = U} {R = R} refusals) buf
        ≡ inr (binary (contents buf))
  unfolding value_visitor
  visit_reference_lem (borrowed buf) = refl
  visit_reference_lem (copied buf) = refl

  visit_str_data_lem :
      (s : Utf8String U) (buf : Reference)
      → IsUtf8String utf8 s
      → contents buf ≡ as_bytes utf8 s
      → visit_str_data bo utf8 rs (value_visitor {U = U} {R = R} refusals) buf
        ≡ inr (settle_string s)
  unfolding value_visitor settle_string
  visit_str_data_lem (text t) (borrowed buf) h e =
      rw (e, visit_str_data, h) (ap (λ b. inr (string (text b))) e)
  visit_str_data_lem (text t) (copied buf) h e =
      rw (e, visit_str_data, h) (ap (λ b. inr (string (text b))) e)
  visit_str_data_lem (raw t x) (borrowed buf) h e =
      rw (e, visit_str_data, h) (ap (λ b. inr (binary b)) e)
  visit_str_data_lem (raw t x) (copied buf) h e =
      rw (e, visit_str_data, h) (ap (λ b. inr (binary b)) e)

  as_bytes_lem :
      (buf : Reference) (taken : ExtDeserializer R)
      → Visitor.as_bytes refusals (some (Any.binary buf)) taken ≡ ok (contents buf) taken
  unfolding Visitor.as_bytes pure
  as_bytes_lem (borrowed buf) taken = refl
  as_bytes_lem (copied buf) taken = refl

module _ {R X B : Type 0} (left : R → List ℕ) where
  abbrev GotExt : List ℕ → B → Outcome (ExtDeserializer R) X B → Type 0
  GotExt rest b (ok x taken) = (x ≡ b) × (left taken.rd ≡ rest)
  GotExt rest b (err e taken) = ⊥
  GotExt rest b panicked = ⊥

module _ {R X A B : Type 0} (left : R → List ℕ) where
  after_ext_element :
      (len : ℕ) (before state : ExtDeserializerState) (front rest : List ℕ) (a : A) (b : B)
      (f : A → M (ExtDeserializer R) X B) (o : Outcome R X A)
      → Got left front a o
      → ((rd : R)
          → left rd ≡ front
          → GotExt left rest b (f a (record { rd = rd; len = len; state = state })))
      → GotExt left rest b (and_then (in_ext len before state o) f)
  after_ext_element len before state front rest a b f (ok x rd) (p, q) k = rw p (k rd q)
  after_ext_element len before state front rest a b f (err e rd) h k = absurd h
  after_ext_element len before state front rest a b f panicked h k = absurd h

module _ {R X A : Type 0} (left : R → List ℕ) where
  after_ext :
      (de : Deserializer R) (rest : List ℕ) (a : A) (o : Outcome (ExtDeserializer R) X A)
      → de.marker ≡ none
      → GotExt left rest a o
      → Back left de.depth rest (inr a) (out_of_ext de o)
  after_ext de rest a (ok x taken) n (p, q) = (ap inr p, q, n, refl)
  after_ext de rest a (err e taken) n h = absurd h
  after_ext de rest a panicked n h = absurd h

module _ (bo : ByteOrder) {U R E : Type 0} (utf8 : Utf8 U) (rs : ReadSlice R E)
    (refusals : Refusals (Error U E)) {left : R → List ℕ} {wrap : List ℕ → Reference}
    (is : IsSlice rs left wrap) where
  second_element :
      (rd : R) (rest bytes : List ℕ) (ty : ℤ)
      → left rd ≡ bytes ++ rest
      → GotExt {X = Error U E} {B = Value U} left rest (ext ty bytes) (
          and_then
            (next_ext bo utf8 rs (record { rd = rd; len = length bytes; state = read_tag }))
            (λ second. (do buf ← Visitor.as_bytes refusals second; pure (ext ty buf))))
  unfolding next_ext ◌>>=◌ pure
  second_element rd rest bytes ty e =
      after_ext_element left (length bytes) read_tag read_binary rest rest
        (some (Any.binary (wrap bytes))) (ext ty bytes) _ _
        ((Decodes-map (λ buf. some (Any.binary buf)) (Decodes-map_err _ (is.slice bytes))).reads rd
          rest e)
        (λ rd' q.
          rw
            (as_bytes_lem bo utf8 rs refusals (wrap bytes)
              (record { rd = rd'; len = length bytes; state = read_binary }))
            (ap (ext ty) (is.kept bytes), q))

  visit_ext_lem :
      (rd : R) (rest bytes : List ℕ) (ty : ℤ)
      → IsSigned 128 ty
      → left rd ≡ (be_bytes 1 (as_unsigned 256 ty) ++ bytes) ++ rest
      → GotExt {X = Error U E} {B = Value U} left rest (ext ty bytes) (
          visit_ext refusals
            (next_ext bo utf8 rs)
            (record { rd = rd; len = length bytes; state = fresh }))
  unfolding visit_ext next_ext ◌>>=◌ as_tag pure
  visit_ext_lem rd rest bytes ty h e =
      after_ext_element left (length bytes) fresh read_tag (bytes ++ rest) rest (some (Any.tag ty))
        (ext ty bytes) _ _
        ((Decodes-map (λ z. some (Any.tag z)) (Decodes-map_err _ (data_i8 is.source ty h))).reads rd
          (bytes ++ rest) (e ∙ append_assoc (be_bytes 1 (as_unsigned 256 ty)) bytes rest))
        (λ rd' q. second_element rd' rest bytes ty q)

  pub any_ext-Takes :
      (need : ℕ) (ty : ℤ) (bytes : List ℕ)
      → IsSigned 128 ty
      → Takes left
          (suc need)
          (any_ext bo utf8 rs (value_visitor {U = U} {R = R} refusals) (length bytes))
          (be_bytes 1 (as_unsigned 256 ty) ++ bytes)
          (ext ty bytes)
  unfolding any_ext with_ext value_visitor
  any_ext-Takes need ty bytes h =
      Takes-depth_count {A = Error U E ⊎ Value U} {need = need} visited
        (record {
          run = λ de rest e n d.
              after_ext left de rest (ext ty bytes) _ n (visit_ext_lem de.rd rest bytes ty h e);
        })
        (Takes-pure (ext ty bytes))

  pub any_bin-Takes :
      (need : ℕ) (bytes : List ℕ)
      → Takes left need
          (any_bin bo utf8 rs (value_visitor {U = U} {R = R} refusals) (length bytes))
          bytes
          (binary bytes)
  unfolding any_bin read_bin_data
  any_bin-Takes need bytes = Takes-last _ (Takes-on_rd need (Decodes-map_err _ (is.slice bytes))) (
      rw (visit_reference_lem bo utf8 rs refusals (wrap bytes), is.kept bytes)
        (Takes-pure (binary bytes)))

  pub read_str_data-Takes :
      (need : ℕ) (s : Utf8String U)
      → IsUtf8String utf8 s
      → Takes left need
          (read_str_data bo utf8 rs
            (value_visitor {U = U} {R = R} refusals)
            (length (as_bytes utf8 s)))
          (as_bytes utf8 s)
          (settle_string s)
  unfolding read_str_data read_bin_data
  read_str_data-Takes need s h =
      Takes-last _ (Takes-on_rd need (Decodes-map_err _ (is.slice (as_bytes utf8 s)))) (
        rw
          (visit_str_data_lem bo utf8 rs refusals s (wrap (as_bytes utf8 s)) h
            (is.kept (as_bytes utf8 s)))
          (Takes-pure (settle_string s)))

  pub any_array-Takes :
      (need : ℕ) (inner : M (Deserializer R) (Error U E) (Value U)) (vs : Values U) (cs : List ℕ)
      → TakesAll left need inner vs cs
      → Takes left
          (suc need)
          (any_array bo utf8 rs (value_visitor {U = U} {R = R} refusals) inner (count_values vs))
          cs
          (array vs)
  unfolding any_array with_access value_visitor all_taken ◌>>=◌ pure
  any_array-Takes need inner vs cs all =
      Takes-depth_count {A = Value U × ℕ} {need = need} (all_taken (count_values vs))
        (record {
          run = λ de rest e n d. at_end left de.depth rest (array vs) _ (
              BackAll-map left de.depth rest vs array _ (
                collect-TakesAll left need inner vs cs (suc (count_values vs)) all (omega arith) de
                  rest e n d));
        })
        (Takes-pure (array vs))

  pub any_map-Takes :
      (need : ℕ) (inner : M (Deserializer R) (Error U E) (Value U)) (ps : Pairs U) (cs : List ℕ)
      → TakesPairs left need inner ps cs
      → Takes left
          (suc need)
          (any_map bo utf8 rs (value_visitor {U = U} {R = R} refusals) inner (count_pairs ps))
          cs
          (map ps)
  unfolding any_map with_access value_visitor all_taken ◌>>=◌ pure
  any_map-Takes need inner ps cs all =
      Takes-depth_count {A = Value U × ℕ} {need = need} (all_taken (count_pairs ps))
        (record {
          run = λ de rest e n d. at_end left de.depth rest (map ps) _ (
              BackAll-map left de.depth rest ps map _ (
                collect_pairs-TakesPairs left need inner ps cs (suc (count_pairs ps)) all
                  (omega arith) de rest e n d));
        })
        (Takes-pure (map ps))
