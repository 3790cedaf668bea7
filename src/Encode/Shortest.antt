-- ===== src/Encode/Shortest.antt =====
-- rmp/src/encode/uint.rs and sint.rs: `write_uint` and `write_sint`, and the forms of an integer.
use msgpack_rust.Common.{
  ℕ, ◌<◌, ◌≤◌, ◌%◌, ◌^◌, ◌≡◌, refl, Bool-cases, inl, inr, List, ltb, arith, ltb→lt, ltb→le, le→ltb,
  leb, leb→le, leb→lt, lt→ltb, le→leb, ap, sym,
}
use msgpack_rust.Common.Int.{ℤ, pos, negsuc, as_unsigned, IsSigned, cast_signed_lem}
use msgpack_rust.Common.Outcome.{M, ◌>>◌, map_err, pure}
use native.Mathlib.Nat.{mod-eq_of_lt}
use msgpack_rust.ByteOrder.{ByteOrder, IsBigEndian}
use msgpack_rust.Marker.{Marker, fix_pos, fix_neg, u8, u16, u32, u64, i8, i16, i32, i64}
use msgpack_rust.Format.{width, header, int_bytes, IntForm, IsShortestInt}
use msgpack_rust.Format.Width.{shortest_int, pos_width, neg_width}
use msgpack_rust.Encode.{RmpWrite, ValueWriteError, invalid_marker_write}
use msgpack_rust.Encode.Uint.{write_pfix, write_u8, write_u16, write_u32, write_u64, write_uint}
use msgpack_rust.Encode.Sint.{write_nfix, write_i8, write_i16, write_i32, write_i64, write_sint}
use msgpack_rust.Encode.Logic.{Writes, IsSink, Writes-pure_unit, Writes-map_err}
use msgpack_rust.Encode.Ints.{
  write_pfix-Writes, write_u8-Writes, write_u16-Writes, write_u32-Writes, write_u64-Writes,
  write_nfix-Writes, write_i8-Writes, write_i16-Writes, write_i32-Writes, write_i64-Writes,
}

-- `m` appends the shortest form of `z` and returns the marker of that form.
abbrev pub WritesShortestInt :
    {W E : Type 0} → (W → List ℕ) → M W (ValueWriteError E) Marker → ℤ → Type 0
WritesShortestInt sent m z =
    (mk : Marker) × IntForm mk z × IsShortestInt mk z × Writes sent m (int_bytes mk z) mk

pos_bytes : (mk : Marker) (n : ℕ) → n < 256 ^ width mk → header mk n ≡ int_bytes mk (pos n)
unfolding int_bytes as_unsigned
pos_bytes mk n h = ap (header mk) (sym (mod-eq_of_lt h))

module _ {bo : ByteOrder} (big : IsBigEndian bo) {W E : Type 0} {io : RmpWrite W E}
    {sent : W → List ℕ} (sink : IsSink io sent) where
  pfix_branch :
      (n : ℕ)
      → n < 128
      → WritesShortestInt sent
          (map_err invalid_marker_write (write_pfix io n >> pure (fix_pos n)))
          (pos n)
  pfix_branch n h = (
    fix_pos n,
    (refl, h),
    shortest_int _ _ (λ other f. omega arith),
    Writes-map_err _ (Writes-pure_unit (write_pfix-Writes sink n h)),
  )

  u8_branch :
      (n : ℕ) → 128 ≤ n → n < 256 → WritesShortestInt sent (write_u8 io n >> pure u8) (pos n)
  u8_branch n lo h = (
    u8,
    h,
    shortest_int _ _ (λ other f. (pos_width other n f).0 lo),
    rw (← pos_bytes u8 n h) (Writes-pure_unit (write_u8-Writes sink n h)),
  )

  u16_branch :
      (n : ℕ) → 256 ≤ n → n < 65536 → WritesShortestInt sent (write_u16 bo io n >> pure u16) (pos n)
  u16_branch n lo h = (
    u16,
    h,
    shortest_int _ _ (λ other f. (pos_width other n f).1 lo),
    rw (← pos_bytes u16 n h) (Writes-pure_unit (write_u16-Writes big sink n)),
  )

  u32_branch :
      (n : ℕ)
      → 65536 ≤ n
      → n < 4294967296
      → WritesShortestInt sent (write_u32 bo io n >> pure u32) (pos n)
  u32_branch n lo h = (
    u32,
    h,
    shortest_int _ _ (λ other f. (pos_width other n f).2 lo),
    rw (← pos_bytes u32 n h) (Writes-pure_unit (write_u32-Writes big sink n)),
  )

  u64_branch :
      (n : ℕ)
      → 4294967296 ≤ n
      → n < 18446744073709551616
      → WritesShortestInt sent (write_u64 bo io n >> pure u64) (pos n)
  u64_branch n lo h = (
    u64,
    h,
    shortest_int _ _ (λ other f. (pos_width other n f).3 lo),
    rw (← pos_bytes u64 n h) (Writes-pure_unit (write_u64-Writes big sink n)),
  )

  nfix_branch :
      (n : ℕ)
      → n < 32
      → WritesShortestInt sent
          (map_err invalid_marker_write (write_nfix io (negsuc n) >> pure (fix_neg (negsuc n))))
          (negsuc n)
  nfix_branch n h = (
    fix_neg (negsuc n),
    (refl, h),
    shortest_int _ _ (λ other f. omega arith),
    Writes-map_err _ (Writes-pure_unit (write_nfix-Writes sink n h)),
  )

  i8_branch :
      (n : ℕ)
      → 32 ≤ n
      → n < 128
      → WritesShortestInt sent (write_i8 io (negsuc n) >> pure i8) (negsuc n)
  i8_branch n lo h = (
    i8,
    h,
    shortest_int _ _ (λ other f. (neg_width other n f).0 lo),
    Writes-pure_unit (write_i8-Writes sink (negsuc n)),
  )

  i16_branch :
      (n : ℕ)
      → 128 ≤ n
      → n < 32768
      → WritesShortestInt sent (write_i16 bo io (negsuc n) >> pure i16) (negsuc n)
  i16_branch n lo h = (
    i16,
    h,
    shortest_int _ _ (λ other f. (neg_width other n f).1 lo),
    Writes-pure_unit (write_i16-Writes big sink (negsuc n)),
  )

  i32_branch :
      (n : ℕ)
      → 32768 ≤ n
      → n < 2147483648
      → WritesShortestInt sent (write_i32 bo io (negsuc n) >> pure i32) (negsuc n)
  i32_branch n lo h = (
    i32,
    h,
    shortest_int _ _ (λ other f. (neg_width other n f).2 lo),
    Writes-pure_unit (write_i32-Writes big sink (negsuc n)),
  )

  i64_branch :
      (n : ℕ)
      → 2147483648 ≤ n
      → n < 9223372036854775808
      → WritesShortestInt sent (write_i64 bo io (negsuc n) >> pure i64) (negsuc n)
  i64_branch n lo h = (
    i64,
    h,
    shortest_int _ _ (λ other f. (neg_width other n f).3 lo),
    Writes-pure_unit (write_i64-Writes big sink (negsuc n)),
  )

  -- `write_uint` writes any 64-bit number in the shortest form there is and returns that form's
  -- marker.
  pub write_uint-WritesShortestInt :
      (n : ℕ) → n < 2 ^ 64 → WritesShortestInt sent (write_uint bo io n) (pos n)
  unfolding write_uint
  write_uint-WritesShortestInt n h = elim (Bool-cases (ltb n 128)) [
    | inl e ↦
        let small : n % 256 ≡ n = omega (arith, ltb→lt n 128 e) in
        rw (e, small) (pfix_branch n (ltb→lt n 128 e))
    | inr e ↦ rw e (elim (Bool-cases (ltb n 256)) [
      | inl f ↦
          let small : n % 256 ≡ n = omega (arith, ltb→lt n 256 f) in
          rw (f, small) (u8_branch n (ltb→le n 128 e) (ltb→lt n 256 f))
      | inr f ↦ rw f (elim (Bool-cases (ltb n 65536)) [
        | inl g ↦
            let small : n % 65536 ≡ n = omega (arith, ltb→lt n 65536 g) in
            rw (g, small) (u16_branch n (ltb→le n 256 f) (ltb→lt n 65536 g))
        | inr g ↦ rw g (elim (Bool-cases (ltb n 4294967296)) [
          | inl k ↦
              let small : n % 4294967296 ≡ n = omega (arith, ltb→lt n 4294967296 k) in
              rw (k, small) (u32_branch n (ltb→le n 65536 g) (ltb→lt n 4294967296 k))
          | inr k ↦ rw k (u64_branch n (ltb→le n 4294967296 k) h)
        ])
      ])
    ])
  ]

  -- On a number that is not negative the two functions agree.
  pub write_sint-pos : (n : ℕ) → n < 2 ^ 64 → write_sint bo io (pos n) ≡ write_uint bo io n
  unfolding write_sint write_uint as_unsigned
  write_sint-pos n h =
      let whole : n % 18446744073709551616 ≡ n = omega arith in
      rw (le→ltb n 0 (omega arith), le→leb 0 n (omega arith), whole)

  write_sint-negsuc :
      (n : ℕ)
      → n < 9223372036854775808
      → WritesShortestInt sent (write_sint bo io (negsuc n)) (negsuc n)
  unfolding write_sint
  write_sint-negsuc n h = elim (Bool-cases (leb n 31)) [
    | inl e ↦
        rw (e, cast_signed_lem 128 (negsuc n) (omega (arith, leb→le n 31 e)))
          (nfix_branch n (omega (arith, leb→le n 31 e)))
    | inr e ↦
        rw (e, lt→ltb 31 n (leb→lt n 31 e))
          (elim (Bool-cases (leb n 127)) [
            | inl f ↦
                let fits : n < 128 = omega (arith, leb→le n 127 f) in
                rw (f, cast_signed_lem 128 (negsuc n) fits) (i8_branch n (leb→lt n 31 e) fits)
            | inr f ↦
                rw (f, lt→ltb 127 n (leb→lt n 127 f))
                  (elim (Bool-cases (leb n 32767)) [
                    | inl g ↦
                        let fits : n < 32768 = omega (arith, leb→le n 32767 g) in
                        rw (g, cast_signed_lem 32768 (negsuc n) fits)
                          (i16_branch n (leb→lt n 127 f) fits)
                    | inr g ↦
                        rw (g, lt→ltb 32767 n (leb→lt n 32767 g))
                          (elim (Bool-cases (leb n 2147483647)) [
                            | inl k ↦
                                let fits : n < 2147483648 = omega (arith, leb→le n 2147483647 k) in
                                rw (k, cast_signed_lem 2147483648 (negsuc n) fits)
                                  (i32_branch n (leb→lt n 32767 g) fits)
                            | inr k ↦
                                rw (k, lt→ltb 2147483647 n (leb→lt n 2147483647 k))
                                  (i64_branch n (leb→lt n 2147483647 k) h)
                          ])
                  ])
          ])
  ]

  pub write_sint-WritesShortestInt :
      (z : ℤ) → IsSigned 9223372036854775808 z → WritesShortestInt sent (write_sint bo io z) z
  write_sint-WritesShortestInt (pos n) h =
      rw (write_sint-pos n (omega arith)) (write_uint-WritesShortestInt n (omega arith))
  write_sint-WritesShortestInt (negsuc n) h = write_sint-negsuc n h
