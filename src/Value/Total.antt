-- ===== src/Value/Total.antt =====
-- rmpv/src/decode/value.rs: `read_value` on an input of any kind.
use msgpack_rust.Common.{
  ℕ, zero, suc, ◌+◌, ◌<◌, ◌≤◌, ◌==◌, ◌≡◌, refl, Bool, true, false, if◌then◌else◌, List, length,
  arith,
}
use msgpack_rust.Common.Outcome.{M, ◌>>=◌, map_err, pure, fail}
use msgpack_rust.ByteOrder.{ByteOrder}
use msgpack_rust.Marker.{
  Marker, fix_pos, fix_neg, null, u8, u16, u32, u64, i8, i16, i32, i64, fix_str, str8, str16, str32,
  bin8, bin16, bin32, fix_array, array16, array32, fix_map, map16, map32, fix_ext1, fix_ext2,
  fix_ext4, fix_ext8, fix_ext16, ext8, ext16, ext32, reserved,
}
use msgpack_rust.Decode.{
  io_read, read_data_u8, read_data_u16, read_data_u32, read_data_u64, read_data_i16, read_data_i32,
  read_data_i64, read_data_f32, read_data_f64,
}
use msgpack_rust.Decode.Answers.{
  Answers, Anything, Fills, Answers-pure, Answers-fail, Answers->>=, Answers-map_err,
  Answers-weaken, read_marker-Answers, read_data_u8-Answers, read_data_i8-Answers, wide-Answers,
}
use msgpack_rust.Decode.Str.{Utf8}
use msgpack_rust.Value.{
  Value, nil, string, binary, array, map, ext, no_values, value, no_pairs, pair,
}
use msgpack_rust.Value.Encoding.{need, need_values, need_pairs}
use msgpack_rust.Value.Read.{
  Read, Error, invalid_data_read, unexpected_eof, from_value_error, decrement_depth, read_bin_data,
  read_str_data, read_ext_body, read_values, read_pairs, read_array_data, read_map_data,
  read_marked, read_value_fuel, read_value_inner, read_value_with_max_depth, rmp,
}

-- What `std::io::Read` documents: `read_exact` fills its buffer where it succeeds, and neither call
-- panics.
pub record IsTotal {R E : Type 0} (rd : Read R E) : Type 0 where
  pub exact : Fills rd.read_exact
  pub to_end : (n : ℕ) → Answers Anything (rd.take_to_end n)

module _ {R E A : Type 0} {P : A → Type 0} where
  -- The limit goes down by one, and what follows is below it.
  decremented :
      (depth : ℕ) (f : ℕ → M R (Error E) A)
      → ((d : ℕ) → suc d ≡ depth → Answers P (f d))
      → Answers P (decrement_depth depth >>= f)
  unfolding decrement_depth
  decremented zero f h = Answers->>= {Q = λ d. ⊥} f (Answers-fail _) (λ d e. absurd e)
  decremented (suc depth) f h =
      Answers->>= {Q = λ d. suc d ≡ suc depth} f (Answers-pure depth refl) h

module _ (bo : ByteOrder) {U : Type 0} (utf8 : Utf8 U) {R E : Type 0} {rd : Read R E}
    (total : IsTotal rd) where
  checked :
      (depth : ℕ) (buf : List ℕ) (b : Bool)
      → 1 ≤ depth
      → Answers {R = R}
          (λ b. 1 ≤ depth)
          (if b then pure buf else fail (invalid_data_read (rd.new_error unexpected_eof)))
  checked depth buf true h = Answers-pure buf h
  checked depth buf false h = Answers-fail _

  bin_total : (len depth : ℕ) → Answers (λ b. 1 ≤ depth) (read_bin_data bo utf8 rd len depth)
  unfolding read_bin_data
  bin_total len depth = decremented depth _ (λ d g.
      Answers->>= _ (Answers-map_err _ (total.to_end len))
        (λ buf h. checked depth buf (length buf == len) (omega (arith, g))))

  str_total : (len depth : ℕ) → Answers (λ s. 2 ≤ depth) (read_str_data bo utf8 rd len depth)
  unfolding read_str_data
  str_total len depth =
      decremented depth _
        (λ d g. Answers->>= _ (bin_total len d) (λ buf h. Answers-pure _ (omega (arith, g, h))))

  ext_total : (len depth : ℕ) → Answers (λ b. 2 ≤ depth) (read_ext_body bo utf8 rd len depth)
  unfolding read_ext_body rmp
  ext_total len depth = decremented depth _ (λ d g.
      Answers->>= _ (Answers-map_err _ (read_data_i8-Answers total.exact))
        (λ ty t. Answers->>= _ (bin_total len d) (λ buf h. Answers-pure _ (omega (arith, g, h)))))

  module _ (inner : M R (Error E) (Value U)) (depth : ℕ)
      (one : Answers (λ v. need v ≤ depth) inner) where
    values_total :
        (len : ℕ) → Answers (λ vs. need_values vs ≤ depth) (read_values bo utf8 rd inner len)
    unfolding read_values need_values
    values_total zero = Answers-pure no_values (omega arith)
    values_total (suc len) = Answers->>= _ one (λ v h.
        Answers->>= _ (values_total len) (λ vs g. Answers-pure (value v vs) (omega (arith, h, g))))

    pairs_total :
        (len : ℕ) → Answers (λ ps. need_pairs ps ≤ depth) (read_pairs bo utf8 rd inner len)
    unfolding read_pairs need_pairs
    pairs_total zero = Answers-pure no_pairs (omega arith)
    pairs_total (suc len) = Answers->>= _ one (λ k f. Answers->>= _ one (λ v h.
        Answers->>= _ (pairs_total len)
          (λ ps g. Answers-pure (pair k v ps) (omega (arith, f, h, g)))))

  module _ (inner : ℕ → M R (Error E) (Value U)) (limit : ℕ)
      (below : (d : ℕ) → d < limit → Answers (λ v. need v ≤ d) (inner d)) (depth : ℕ)
      (small : depth ≤ limit) where
    -- What is read behind a marker is within the limit that the marker was read under.
    abbrev Within : M R (Error E) (Value U) → Type 0
    Within m = Answers (λ v. need v ≤ suc depth) m

    array_total :
        (len : ℕ) → Within (do vec ← read_array_data bo utf8 rd inner len depth; pure (array vec))
    unfolding read_array_data need
    array_total len =
        Answers->>= {Q = λ vs. 2 + need_values vs ≤ suc depth} _
          (decremented depth _ (λ d g.
            Answers-weaken (λ vs h. omega (arith, g, h))
              (values_total (inner d) d (below d (omega (arith, g))) len)))
          (λ vs h. Answers-pure (array vs) h)

    map_total : (len : ℕ) → Within (do ps ← read_map_data bo utf8 rd inner len depth; pure (map ps))
    unfolding read_map_data need
    map_total len =
        Answers->>= {Q = λ ps. 2 + need_pairs ps ≤ suc depth} _
          (decremented depth _ (λ d g.
            Answers-weaken (λ ps h. omega (arith, g, h))
              (pairs_total (inner d) d (below d (omega (arith, g))) len)))
          (λ ps h. Answers-pure (map ps) h)

    string_total : (len : ℕ) → Within (do s ← read_str_data bo utf8 rd len depth; pure (string s))
    unfolding need
    string_total len =
        Answers->>= _ (str_total len depth) (λ s h. Answers-pure (string s) (omega (arith, h)))

    binary_total : (len : ℕ) → Within (do b ← read_bin_data bo utf8 rd len depth; pure (binary b))
    unfolding need
    binary_total len =
        Answers->>= _ (bin_total len depth) (λ b h. Answers-pure (binary b) (omega (arith, h)))

    body_total :
        (len : ℕ) → Within (do body ← read_ext_body bo utf8 rd len depth; pure (ext body.0 body.1))
    unfolding need
    body_total len =
        Answers->>= _ (ext_total len depth) (λ b h. Answers-pure (ext b.0 b.1) (omega (arith, h)))

    scalar : (v : Value U) → need v ≡ 1 → Within (pure v)
    scalar v h = Answers-pure v (omega (arith, h))

    -- The number, or the length, that follows the marker.
    behind :
        {A : Type 0} {m : M R (Error E) A} (f : A → M R (Error E) (Value U))
        → Answers Anything m
        → ((n : A) → Within (f n))
        → Within (m >>= f)
    behind f a h = Answers->>= f a (λ n g. h n)

    len_u8 :
        (f : ℕ → M R (Error E) (Value U))
        → ((n : ℕ) → Within (f n))
        → Within (map_err (from_value_error bo utf8 rd) (read_data_u8 (rmp bo utf8 rd)) >>= f)
    unfolding rmp
    len_u8 f h = behind f (Answers-map_err _ (read_data_u8-Answers total.exact)) h

    len_u16 :
        (f : ℕ → M R (Error E) (Value U))
        → ((n : ℕ) → Within (f n))
        → Within (map_err (from_value_error bo utf8 rd) (read_data_u16 bo (rmp bo utf8 rd)) >>= f)
    unfolding rmp read_data_u16 io_read
    len_u16 f h = behind f (Answers-map_err _ (wide-Answers total.exact _ 2 (bo.get_u 2))) h

    len_u32 :
        (f : ℕ → M R (Error E) (Value U))
        → ((n : ℕ) → Within (f n))
        → Within (map_err (from_value_error bo utf8 rd) (read_data_u32 bo (rmp bo utf8 rd)) >>= f)
    unfolding rmp read_data_u32 io_read
    len_u32 f h = behind f (Answers-map_err _ (wide-Answers total.exact _ 4 (bo.get_u 4))) h

    marked_total : (mk : Marker) → Within (read_marked bo utf8 rd inner depth mk)
    unfolding read_marked need rmp read_data_u64 read_data_i16 read_data_i32 read_data_i64
        read_data_f32 read_data_f64 io_read
    marked_total null = scalar nil refl
    marked_total reserved = scalar nil refl
    marked_total Marker.true = scalar _ refl
    marked_total Marker.false = scalar _ refl
    marked_total (fix_pos val) = scalar _ refl
    marked_total (fix_neg val) = scalar _ refl
    marked_total u8 = len_u8 _ (λ n. scalar _ refl)
    marked_total u16 = len_u16 _ (λ n. scalar _ refl)
    marked_total u32 = len_u32 _ (λ n. scalar _ refl)
    marked_total u64 =
        behind _ (Answers-map_err _ (wide-Answers total.exact _ 8 (bo.get_u 8)))
          (λ n. scalar _ refl)
    marked_total i8 =
        behind _ (Answers-map_err _ (read_data_i8-Answers total.exact)) (λ n. scalar _ refl)
    marked_total i16 =
        behind _ (Answers-map_err _ (wide-Answers total.exact _ 2 (bo.get_i 2)))
          (λ n. scalar _ refl)
    marked_total i32 =
        behind _ (Answers-map_err _ (wide-Answers total.exact _ 4 (bo.get_i 4)))
          (λ n. scalar _ refl)
    marked_total i64 =
        behind _ (Answers-map_err _ (wide-Answers total.exact _ 8 (bo.get_i 8)))
          (λ n. scalar _ refl)
    marked_total Marker.f32 =
        behind _ (Answers-map_err _ (wide-Answers total.exact _ 4 (bo.get_u 4)))
          (λ n. scalar _ refl)
    marked_total Marker.f64 =
        behind _ (Answers-map_err _ (wide-Answers total.exact _ 8 (bo.get_u 8)))
          (λ n. scalar _ refl)
    marked_total (fix_str len) = string_total len
    marked_total str8 = len_u8 _ string_total
    marked_total str16 = len_u16 _ string_total
    marked_total str32 = len_u32 _ string_total
    marked_total (fix_array len) = array_total len
    marked_total array16 = len_u16 _ array_total
    marked_total array32 = len_u32 _ array_total
    marked_total (fix_map len) = map_total len
    marked_total map16 = len_u16 _ map_total
    marked_total map32 = len_u32 _ map_total
    marked_total bin8 = len_u8 _ binary_total
    marked_total bin16 = len_u16 _ binary_total
    marked_total bin32 = len_u32 _ binary_total
    marked_total fix_ext1 = body_total 1
    marked_total fix_ext2 = body_total 2
    marked_total fix_ext4 = body_total 4
    marked_total fix_ext8 = body_total 8
    marked_total fix_ext16 = body_total 16
    marked_total ext8 = len_u8 _ body_total
    marked_total ext16 = len_u16 _ body_total
    marked_total ext32 = len_u32 _ body_total

  fuel_total :
      (fuel depth : ℕ)
      → depth < fuel
      → Answers (λ v. need v ≤ depth) (read_value_fuel bo utf8 rd fuel depth)
  unfolding read_value_fuel rmp
  fuel_total zero depth h = absurd (omega arith)
  fuel_total (suc fuel) depth h = decremented depth _ (λ d g.
      Answers->>= _ (Answers-map_err _ (read_marker-Answers total.exact)) (λ mk t.
        Answers-weaken (λ v k. omega (arith, g, k))
          (marked_total (read_value_fuel bo utf8 rd fuel) fuel (λ e l. fuel_total fuel e l) d
            (omega (arith, g, h)) mk)))

  -- From a reader whose calls do not panic and whose `read_exact` fills its buffer where it
  -- succeeds, and whatever there is to read, `read_value_with_max_depth` ends with an error or with
  -- a value whose depth is within the limit: it does not panic, and the bound on its nested calls
  -- is not met.
  pub read_value_with_max_depth-Answers :
      (limit : ℕ) → Answers (λ v. need v ≤ limit) (read_value_with_max_depth bo utf8 rd limit)
  unfolding read_value_with_max_depth read_value_inner
  read_value_with_max_depth-Answers limit = fuel_total (suc limit) limit (omega arith)
