-- ===== src/Value/Encoding.antt =====
-- The MessagePack format: the byte strings that stand for a value, in any form, and how deep the
-- reading of a value goes.
use Prim.Native.Nat.{max}
use msgpack_rust.Common.{
  ℕ, ◌+◌, ◌<◌, ◌≡◌, ◌⊎◌, none, some, inl, inr, List, [], ◌∷◌, ◌++◌, if◌then◌else◌, length,
}
use msgpack_rust.Common.Int.{IsSigned}
use msgpack_rust.Marker.{Marker, to_u8, null, reserved}
use msgpack_rust.Format.{
  header, int_bytes, ext_header, IntForm, StrForm, BinForm, ArrayForm, MapForm, ExtForm,
}
use msgpack_rust.Decode.Str.{Utf8}
use msgpack_rust.Value.{
  Value, Values, Pairs, Utf8String, text, raw, nil, boolean, integer, f32, f64, string, binary,
  array, map, ext, no_values, value, no_pairs, pair, count_values, count_pairs,
}
use msgpack_rust.Value.Ints.{IsIntPriv, to_ℤ}

module _ {U : Type 0} (utf8 : Utf8 U) where
  -- The string holds what the check says of its bytes.
  abbrev pub IsUtf8String : Utf8String U → Type 0
  IsUtf8String (text t) = utf8.error t ≡ none
  IsUtf8String (raw t e) = utf8.error t ≡ some e

  abbrev pub as_bytes : Utf8String U → List ℕ
  as_bytes (text t) = t
  as_bytes (raw t e) = t

  abbrev mutual
    pub Encoding : Value U → List ℕ → Type 0
    Encoding nil bs = (bs ≡ to_u8 null ∷ []) ⊎ (bs ≡ to_u8 reserved ∷ [])
    Encoding (boolean b) bs = bs ≡ to_u8 (if b then Marker.true else Marker.false) ∷ []
    Encoding (integer i) bs =
        (mk : Marker) × IsIntPriv i.n × IntForm mk (to_ℤ i.n) × (bs ≡ int_bytes mk (to_ℤ i.n))
    Encoding (f32 bits) bs = (bits < 4294967296) × (bs ≡ header Marker.f32 bits)
    Encoding (f64 bits) bs = (bits < 18446744073709551616) × (bs ≡ header Marker.f64 bits)
    Encoding (string s) bs =
        (mk : Marker) × IsUtf8String s
        × StrForm mk (length (as_bytes s))
        × (bs ≡ header mk (length (as_bytes s)) ++ as_bytes s)
    Encoding (binary b) bs =
        (mk : Marker) × BinForm mk (length b) × (bs ≡ header mk (length b) ++ b)
    Encoding (array vs) bs =
        (mk : Marker) × (cs : List ℕ) × ArrayForm mk (count_values vs)
        × EncodingAll vs cs
        × (bs ≡ header mk (count_values vs) ++ cs)
    Encoding (map ps) bs =
        (mk : Marker) × (cs : List ℕ) × MapForm mk (count_pairs ps)
        × EncodingPairs ps cs
        × (bs ≡ header mk (count_pairs ps) ++ cs)
    Encoding (ext ty b) bs =
        (mk : Marker) × IsSigned 128 ty
        × ExtForm mk (length b)
        × (bs ≡ ext_header mk (length b) ty ++ b)

    pub EncodingAll : Values U → List ℕ → Type 0
    EncodingAll no_values bs = bs ≡ []
    EncodingAll (value v vs) bs =
        (b : List ℕ) × (c : List ℕ) × Encoding v b × EncodingAll vs c × (bs ≡ b ++ c)

    pub EncodingPairs : Pairs U → List ℕ → Type 0
    EncodingPairs no_pairs bs = bs ≡ []
    EncodingPairs (pair k v ps) bs =
        (a : List ℕ) × (b : List ℕ) × (c : List ℕ) × Encoding k a
        × Encoding v b
        × EncodingPairs ps c
        × (bs ≡ a ++ (b ++ c))

module _ {U : Type 0} (utf8 : Utf8 U) where
  -- The encoding stores nil as nil, and nowhere as the reserved marker.
  abbrev mutual
    pub NoReserved : (v : Value U) (bs : List ℕ) → Encoding utf8 v bs → Type 0
    NoReserved nil bs (inl p) = Unit {0}
    NoReserved nil bs (inr p) = ⊥
    NoReserved (array vs) bs (mk, cs, form, all, p) = NoReservedAll vs cs all
    NoReserved (map ps) bs (mk, cs, form, all, p) = NoReservedPairs ps cs all
    NoReserved _ bs e = Unit {0}

    pub NoReservedAll : (vs : Values U) (bs : List ℕ) → EncodingAll utf8 vs bs → Type 0
    NoReservedAll no_values bs e = Unit {0}
    NoReservedAll (value v vs) bs (b, c, e, all, p) = NoReserved v b e × NoReservedAll vs c all

    pub NoReservedPairs : (ps : Pairs U) (bs : List ℕ) → EncodingPairs utf8 ps bs → Type 0
    NoReservedPairs no_pairs bs e = Unit {0}
    NoReservedPairs (pair k v ps) bs (a, b, c, d, e, all, p) =
        NoReserved k a d × NoReserved v b e × NoReservedPairs ps c all

-- The depth that reading takes: each nested call of the reader takes one.
unfoldable mutual
  pub need : {U : Type 0} → Value U → ℕ
  need nil = 1
  need (boolean b) = 1
  need (integer i) = 1
  need (f32 bits) = 1
  need (f64 bits) = 1
  need (string s) = 3
  need (binary b) = 2
  need (array vs) = 2 + need_values vs
  need (map ps) = 2 + need_pairs ps
  need (ext ty b) = 3

  pub need_values : {U : Type 0} → Values U → ℕ
  need_values no_values = 0
  need_values (value v vs) = max (need v) (need_values vs)

  pub need_pairs : {U : Type 0} → Pairs U → ℕ
  need_pairs no_pairs = 0
  need_pairs (pair k v ps) = max (need k) (max (need v) (need_pairs ps))
