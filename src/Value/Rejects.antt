-- ===== src/Value/Rejects.antt =====
-- rmpv/src/decode/value.rs: what is behind each marker, where the depth does not suffice for it.
use msgpack_rust.Common.{ℕ, zero, suc, ◌≡◌, refl, sym, ◌∙◌, subst, List, ◌++◌, append_assoc}
use msgpack_rust.Common.Int.{ℤ, IsSigned, as_unsigned}
use msgpack_rust.Common.Outcome.{Outcome, ok, err, panicked, M, and_then, ◌>>=◌, fail}
use msgpack_rust.ByteOrder.{ByteOrder, IsBigEndian, be_bytes}
use msgpack_rust.Marker.{
  Marker, fix_str, str8, str16, str32, bin8, bin16, bin32, fix_array, array16, array32, fix_map,
  map16, map32, fix_ext1, fix_ext2, fix_ext4, fix_ext8, fix_ext16, ext8, ext16, ext32,
}
use msgpack_rust.Format.{width, StrForm, BinForm, ArrayForm, MapForm, ExtForm}
use msgpack_rust.Decode.Str.{Utf8}
use msgpack_rust.Decode.Slices.{ReturnsError}
use msgpack_rust.Decode.Logic.{Got, Decodes, Decodes-pure, Decodes-map_err}
use msgpack_rust.Decode.Wire.{data_u8, data_i8, data_u16, data_u32}
use msgpack_rust.Value.{Value}
use msgpack_rust.Value.Marked.{IsStd}
use msgpack_rust.Value.Read.{
  Read, Error, depth_limit_exceeded, decrement_depth, rmp, read_bin_data, read_str_data,
  read_ext_body, read_array_data, read_map_data, read_values, read_pairs, read_marked,
}

-- On every input that starts with `bs`, `m` returns the error `e`.
pub record Rejects {R E A : Type 0} (left : R → List ℕ) (m : M R E A) (bs : List ℕ) (e : E)
    : Type 0 where
  pub run : (r : R) (rest : List ℕ) → left r ≡ bs ++ rest → ReturnsError e (m r)

module _ {R E A B : Type 0} where
  ReturnsError-and_then :
      (e : E) (f : A → M R E B) (o : Outcome R E A)
      → ReturnsError e o
      → ReturnsError e (and_then o f)
  ReturnsError-and_then e f (ok x r) h = absurd h
  ReturnsError-and_then e f (err x r) h = h
  ReturnsError-and_then e f panicked h = absurd h

  ReturnsError-Got :
      (left : R → List ℕ) (rest cs : List ℕ) (a : A) (e : E) (f : A → M R E B) (o : Outcome R E A)
      → Got left (cs ++ rest) a o
      → Rejects left (f a) cs e
      → ReturnsError e (and_then o f)
  ReturnsError-Got left rest cs a e f (ok x r) (p, q) k =
      subst (λ y. ReturnsError e (f y r)) (sym p) (k.run r rest q)
  ReturnsError-Got left rest cs a e f (err x r) h k = absurd h
  ReturnsError-Got left rest cs a e f panicked h k = absurd h

module _ {R E A B : Type 0} {left : R → List ℕ} where
  -- The first call is refused.
  pub Rejects-head :
      {m : M R E A} (f : A → M R E B) {bs : List ℕ} {e : E}
      → Rejects left m bs e
      → Rejects left (m >>= f) bs e
  unfolding ◌>>=◌
  Rejects-head {m} f {bs} {e} h = record {
    run = λ r rest p. ReturnsError-and_then e f (m r) (h.run r rest p);
  }

  -- The first call reads, the second is refused.
  pub Rejects->>= :
      {m : M R E A} (f : A → M R E B) {bs cs : List ℕ} {a : A} {e : E}
      → Decodes left m bs a
      → Rejects left (f a) cs e
      → Rejects left (m >>= f) (bs ++ cs) e
  unfolding ◌>>=◌
  Rejects->>= {m} f {bs} {cs} {a} {e} h k = record {
    run = λ r rest p.
        ReturnsError-Got left rest cs a e f (m r)
          (h.reads r (cs ++ rest) (p ∙ append_assoc bs cs rest)) k;
  }

module _ {R E A : Type 0} {left : R → List ℕ} where
  pub Rejects-fail : (bs : List ℕ) (e : E) → Rejects left (fail {A = A} e) bs e
  unfolding fail
  Rejects-fail bs e = record { run = λ r rest p. refl }

  -- More of the input is given.
  pub Rejects-more :
      {m : M R E A} {bs : List ℕ} (cs : List ℕ) {e : E}
      → Rejects left m bs e
      → Rejects left m (bs ++ cs) e
  Rejects-more {bs = bs} cs h = record {
    run = λ r rest p. h.run r (cs ++ rest) (p ∙ append_assoc bs cs rest);
  }

module _ (bo : ByteOrder) {U : Type 0} (utf8 : Utf8 U) {R E : Type 0} (rd : Read R E)
    (left : R → List ℕ) where
  bin_refused :
      (n : ℕ) (cs : List ℕ) → Rejects left (read_bin_data bo utf8 rd n zero) cs depth_limit_exceeded
  unfolding read_bin_data decrement_depth
  bin_refused n cs = Rejects-head _ (Rejects-fail cs depth_limit_exceeded)

  pub str_refused :
      (n : ℕ) (cs : List ℕ) → Rejects left (read_str_data bo utf8 rd n zero) cs depth_limit_exceeded
  unfolding read_str_data decrement_depth
  str_refused n cs = Rejects-head _ (Rejects-fail cs depth_limit_exceeded)

  pub str_bytes_refused :
      (n : ℕ) (cs : List ℕ)
      → Rejects left (read_str_data bo utf8 rd n (suc zero)) cs depth_limit_exceeded
  unfolding read_str_data decrement_depth
  str_bytes_refused n cs = Rejects->>= _ (Decodes-pure zero) (Rejects-head _ (bin_refused n cs))

  pub ext_refused :
      (n : ℕ) (ty : ℤ) (cs : List ℕ)
      → Rejects left
          (read_ext_body bo utf8 rd n zero)
          (be_bytes 1 (as_unsigned 256 ty) ++ cs)
          depth_limit_exceeded
  unfolding read_ext_body decrement_depth
  ext_refused n ty cs = Rejects-head _ (Rejects-fail _ depth_limit_exceeded)

module _ (bo : ByteOrder) {U : Type 0} (utf8 : Utf8 U) {R E : Type 0} {rd : Read R E}
    {left : R → List ℕ} (std : IsStd rd left) where
  pub ext_bytes_refused :
      (n : ℕ) (ty : ℤ) (cs : List ℕ)
      → IsSigned 128 ty
      → Rejects left
          (read_ext_body bo utf8 rd n (suc zero))
          (be_bytes 1 (as_unsigned 256 ty) ++ cs)
          depth_limit_exceeded
  unfolding read_ext_body decrement_depth rmp
  ext_bytes_refused n ty cs t = Rejects->>= _ (Decodes-pure zero) (
      Rejects->>= _ (Decodes-map_err _ (data_i8 std.source ty t))
        (Rejects-head _ (bin_refused bo utf8 rd left n cs)))

module _ {bo : ByteOrder} (big : IsBigEndian bo) {U : Type 0} (utf8 : Utf8 U) {R E : Type 0}
    {rd : Read R E} {left : R → List ℕ} (std : IsStd rd left)
    (inner : ℕ → M R (Error E) (Value U)) where
  pub string_rejected :
      (mk : Marker) (n : ℕ) (cs : List ℕ) (depth : ℕ)
      → StrForm mk n
      → Rejects left (read_str_data bo utf8 rd n depth) cs depth_limit_exceeded
      → Rejects left
          (read_marked bo utf8 rd inner depth mk)
          (be_bytes (width mk) n ++ cs)
          depth_limit_exceeded
  unfolding read_marked be_bytes rmp
  string_rejected (fix_str k) n cs depth f h = rw f.0 (Rejects-head _ h)
  string_rejected str8 n cs depth f h =
      Rejects->>= _ (Decodes-map_err _ (data_u8 std.source n f)) (Rejects-head _ h)
  string_rejected str16 n cs depth f h =
      Rejects->>= _ (Decodes-map_err _ (data_u16 big std.source n f)) (Rejects-head _ h)
  string_rejected str32 n cs depth f h =
      Rejects->>= _ (Decodes-map_err _ (data_u32 big std.source n f)) (Rejects-head _ h)
  string_rejected _ n cs depth f h = absurd f

  pub binary_rejected :
      (mk : Marker) (n : ℕ) (cs : List ℕ)
      → BinForm mk n
      → Rejects left
          (read_marked bo utf8 rd inner zero mk)
          (be_bytes (width mk) n ++ cs)
          depth_limit_exceeded
  unfolding read_marked rmp
  binary_rejected bin8 n cs f =
      Rejects->>= _ (Decodes-map_err _ (data_u8 std.source n f))
        (Rejects-head _ (bin_refused bo utf8 rd left n cs))
  binary_rejected bin16 n cs f =
      Rejects->>= _ (Decodes-map_err _ (data_u16 big std.source n f))
        (Rejects-head _ (bin_refused bo utf8 rd left n cs))
  binary_rejected bin32 n cs f =
      Rejects->>= _ (Decodes-map_err _ (data_u32 big std.source n f))
        (Rejects-head _ (bin_refused bo utf8 rd left n cs))
  binary_rejected _ n cs f = absurd f

  pub values_refused :
      (n : ℕ) (cs : List ℕ)
      → Rejects left (read_array_data bo utf8 rd inner n zero) cs depth_limit_exceeded
  unfolding read_array_data decrement_depth
  values_refused n cs = Rejects-head _ (Rejects-fail cs depth_limit_exceeded)

  pub values_inside :
      (n : ℕ) (cs : List ℕ) (depth : ℕ)
      → Rejects left (read_values bo utf8 rd (inner depth) n) cs depth_limit_exceeded
      → Rejects left (read_array_data bo utf8 rd inner n (suc depth)) cs depth_limit_exceeded
  unfolding read_array_data decrement_depth
  values_inside n cs depth h = Rejects->>= _ (Decodes-pure depth) h

  pub array_rejected :
      (mk : Marker) (n : ℕ) (cs : List ℕ) (depth : ℕ)
      → ArrayForm mk n
      → Rejects left (read_array_data bo utf8 rd inner n depth) cs depth_limit_exceeded
      → Rejects left
          (read_marked bo utf8 rd inner depth mk)
          (be_bytes (width mk) n ++ cs)
          depth_limit_exceeded
  unfolding read_marked be_bytes rmp
  array_rejected (fix_array k) n cs depth f h = rw f.0 (Rejects-head _ h)
  array_rejected array16 n cs depth f h =
      Rejects->>= _ (Decodes-map_err _ (data_u16 big std.source n f)) (Rejects-head _ h)
  array_rejected array32 n cs depth f h =
      Rejects->>= _ (Decodes-map_err _ (data_u32 big std.source n f)) (Rejects-head _ h)
  array_rejected _ n cs depth f h = absurd f

  pub pairs_refused :
      (n : ℕ) (cs : List ℕ)
      → Rejects left (read_map_data bo utf8 rd inner n zero) cs depth_limit_exceeded
  unfolding read_map_data decrement_depth
  pairs_refused n cs = Rejects-head _ (Rejects-fail cs depth_limit_exceeded)

  pub pairs_inside :
      (n : ℕ) (cs : List ℕ) (depth : ℕ)
      → Rejects left (read_pairs bo utf8 rd (inner depth) n) cs depth_limit_exceeded
      → Rejects left (read_map_data bo utf8 rd inner n (suc depth)) cs depth_limit_exceeded
  unfolding read_map_data decrement_depth
  pairs_inside n cs depth h = Rejects->>= _ (Decodes-pure depth) h

  pub map_rejected :
      (mk : Marker) (n : ℕ) (cs : List ℕ) (depth : ℕ)
      → MapForm mk n
      → Rejects left (read_map_data bo utf8 rd inner n depth) cs depth_limit_exceeded
      → Rejects left
          (read_marked bo utf8 rd inner depth mk)
          (be_bytes (width mk) n ++ cs)
          depth_limit_exceeded
  unfolding read_marked be_bytes rmp
  map_rejected (fix_map k) n cs depth f h = rw f.0 (Rejects-head _ h)
  map_rejected map16 n cs depth f h =
      Rejects->>= _ (Decodes-map_err _ (data_u16 big std.source n f)) (Rejects-head _ h)
  map_rejected map32 n cs depth f h =
      Rejects->>= _ (Decodes-map_err _ (data_u32 big std.source n f)) (Rejects-head _ h)
  map_rejected _ n cs depth f h = absurd f

  pub ext_rejected :
      (mk : Marker) (n : ℕ) (cs : List ℕ) (depth : ℕ)
      → ExtForm mk n
      → Rejects left (read_ext_body bo utf8 rd n depth) cs depth_limit_exceeded
      → Rejects left
          (read_marked bo utf8 rd inner depth mk)
          (be_bytes (width mk) n ++ cs)
          depth_limit_exceeded
  unfolding read_marked be_bytes rmp
  ext_rejected fix_ext1 n cs depth f h = Rejects-head _ (rw (← f) h)
  ext_rejected fix_ext2 n cs depth f h = Rejects-head _ (rw (← f) h)
  ext_rejected fix_ext4 n cs depth f h = Rejects-head _ (rw (← f) h)
  ext_rejected fix_ext8 n cs depth f h = Rejects-head _ (rw (← f) h)
  ext_rejected fix_ext16 n cs depth f h = Rejects-head _ (rw (← f) h)
  ext_rejected ext8 n cs depth f h =
      Rejects->>= _ (Decodes-map_err _ (data_u8 std.source n f)) (Rejects-head _ h)
  ext_rejected ext16 n cs depth f h =
      Rejects->>= _ (Decodes-map_err _ (data_u16 big std.source n f)) (Rejects-head _ h)
  ext_rejected ext32 n cs depth f h =
      Rejects->>= _ (Decodes-map_err _ (data_u32 big std.source n f)) (Rejects-head _ h)
  ext_rejected _ n cs depth f h = absurd f
