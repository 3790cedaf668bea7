-- ===== src/Value/Lookup.antt =====
-- rmpv/src/lib.rs: `Index` by position in an array and by name in a map.
use msgpack_rust.Common.{
  ℕ, zero, suc, ◌≡◌, refl, sym, ap, subst, Bool, true, false, ◌&&◌, Option, none, some, ◌==◌,
  if◌then◌else◌, List, [], ◌∷◌, arith,
}
use msgpack_rust.Value.{
  Value, Values, Pairs, text, nil, string, map, no_values, value, no_pairs, pair,
}
use msgpack_rust.Value.Access.{as_array}

-- `==` of two strings.
unfoldable pub same_bytes : List ℕ → List ℕ → Bool
same_bytes [] [] = true
same_bytes [] (b ∷ bs) = false
same_bytes (a ∷ as') [] = false
same_bytes (a ∷ as') (b ∷ bs) = (a == b) && same_bytes as' bs

module _ {U : Type 0} where
  -- `Vec::get`
  unfoldable pub get : Values U → ℕ → Option (Value U)
  get no_values n = none
  get (value v vs) zero = some v
  get (value v vs) (suc n) = get vs n

  unfoldable pub unwrap_or_nil : Option (Value U) → Value U
  unwrap_or_nil none = nil
  unwrap_or_nil (some v) = v

  unfoldable pub and_get : ℕ → Option (Values U) → Option (Value U)
  unfolding get
  and_get n none = none
  and_get n (some vs) = get vs n

  unfoldable pub index : Value U → ℕ → Value U
  unfolding as_array and_get unwrap_or_nil
  index v n = unwrap_or_nil (and_get n (as_array v))

  -- The closure that `find` is given.
  unfoldable pub is_key : List ℕ → Value U → Bool
  unfolding same_bytes
  is_key index (string (text s)) = same_bytes s index
  is_key index _ = false

  unfoldable pub find : List ℕ → Pairs U → Value U
  unfolding is_key
  find index no_pairs = nil
  find index (pair k v ps) = let rest = find index ps in if is_key index k then v else rest

  unfoldable pub index_str : Value U → List ℕ → Value U
  unfolding find
  index_str (map ps) index = find index ps
  index_str _ index = nil

same_bytes_refl : (s : List ℕ) → same_bytes s s ≡ true
unfolding same_bytes
same_bytes_refl [] = refl
same_bytes_refl (a ∷ s) =
    let here : (a == a) ≡ true = ground arith in rw (here, same_bytes_refl s) refl

same_bytes_eq : (s t : List ℕ) → same_bytes s t ≡ true → s ≡ t
unfolding same_bytes
same_bytes_eq [] [] h = refl
same_bytes_eq [] (b ∷ t) h = absurd (cc)
same_bytes_eq (a ∷ s) [] h = absurd (cc)
same_bytes_eq (a ∷ s) (b ∷ t) h = ground (arith, same_bytes_eq s t)

module _ {U : Type 0} where
  -- What stands under the string `s`: the value of the first pair whose key is that string, or nil
  -- where there is none.
  pub data UnderKey (s : List ℕ) : Pairs U → Value U → Type 0 where
    absent : UnderKey s no_pairs nil
    here : {v : Value U} {ps : Pairs U} → UnderKey s (pair (string (text s)) v ps) v
    later :
        {k v w : Value U} {ps : Pairs U}
        → ¬ (k ≡ string (text s))
        → UnderKey s ps w
        → UnderKey s (pair k v ps) w

  -- The same of any value: nothing stands in what is no map.
  abbrev pub Indexed : List ℕ → Value U → Value U → Type 0
  Indexed s (map ps) w = UnderKey s ps w
  Indexed s _ w = w ≡ nil

module _ {U : Type 0} (s : List ℕ) where
  is_key-string : (k : Value U) → is_key s k ≡ true → k ≡ string (text s)
  unfolding is_key
  is_key-string (string (text t)) h = ap (λ l. string (text l)) (same_bytes_eq t s h)
  is_key-string _ h = absurd (cc)

  is_key-other : (k : Value U) → is_key s k ≡ false → ¬ (k ≡ string (text s))
  unfolding is_key
  is_key-other k h same = let found : is_key s k ≡ true = rw same (same_bytes_refl s) in absurd (cc)

  first_pair :
      (test : Bool) (k v rest : Value U) (ps : Pairs U)
      → is_key s k ≡ test
      → UnderKey s ps rest
      → UnderKey s (pair k v ps) (if test then v else rest)
  first_pair true k v rest ps e h =
      subst (λ j. UnderKey s (pair j v ps) v) (sym (is_key-string k e)) here
  first_pair false k v rest ps e h = later (is_key-other k e) h

  find-UnderKey : (ps : Pairs U) → UnderKey s ps (find s ps)
  unfolding find
  find-UnderKey no_pairs = absent
  find-UnderKey (pair k v ps) = first_pair (is_key s k) k v (find s ps) ps refl (find-UnderKey ps)

  -- Indexing a value by a string gives, of a map, what stands under the first key that is a valid
  -- string of exactly these bytes, and nil where no key is; of what is no map, nil.
  pub index_str-Indexed : (v : Value U) → Indexed s v (index_str v s)
  unfolding index_str
  index_str-Indexed (map ps) = find-UnderKey ps
  index_str-Indexed _ = refl
