-- ===== src/Encode/Headers.antt =====
-- rmp/src/encode: the functions that write a length, and the headers that the format has for it.
use msgpack_rust.Common.{
  Bool, true, false, if◌then◌else◌, ℕ, ◌<◌, ◌≤◌, ◌%◌, ◌^◌, ◌≡◌, refl, Bool-cases, inl, inr, List,
  ltb, leb, arith, ltb→lt, ltb→le, leb→le, leb→lt,
}
use msgpack_rust.Common.Outcome.{M, ◌>>◌, pure}
use msgpack_rust.ByteOrder.{ByteOrder, IsBigEndian, be_bytes}
use msgpack_rust.Marker.{
  Marker, fix_array, array16, array32, fix_map, map16, map32, fix_str, str8, str16, str32, bin8,
  bin16, bin32,
}
use msgpack_rust.Format.{width, header, StrForm, BinForm, ArrayForm, MapForm, IsShortest}
use msgpack_rust.Format.Width.{shortest, str_width, bin_width, array_width, map_width}
use msgpack_rust.Encode.{
  RmpWrite, ValueWriteError, try_marker, try_data, write_marker, write_data_u8, write_data_u16,
  write_data_u32,
}
use msgpack_rust.Encode.Len.{write_str_len, write_bin_len, write_array_len, write_map_len}
use msgpack_rust.Encode.Logic.{Writes, IsSink, Writes-pure_unit}
use msgpack_rust.Encode.Wire.{marked, data_u8, data_u16, data_u32, numbered_pure}

-- `m` appends the shortest header of the family `Form` for `n` and returns its marker.
abbrev pub WritesShortest :
    {W E : Type 0}
    → (Marker → ℕ → Type 0)
    → (W → List ℕ)
    → M W (ValueWriteError E) Marker
    → ℕ
    → Type 0
WritesShortest Form sent m n =
    (mk : Marker) × Form mk n × IsShortest Form mk n × Writes sent m (header mk n) mk

module _ {bo : ByteOrder} (big : IsBigEndian bo) {W E : Type 0} {io : RmpWrite W E}
    {sent : W → List ℕ} (sink : IsSink io sent) where
  only_marker :
      (mk : Marker) (n : ℕ)
      → width mk ≡ 0
      → Writes sent (try_marker (write_marker io mk) >> pure mk) (header mk n) mk
  unfolding header be_bytes
  only_marker mk n h = rw h (Writes-pure_unit (marked sink mk))

  -- The branch of one byte, and the two wider ones that end each ladder of tests.
  pub narrow :
      (Form : Marker → ℕ → Type 0) (mk : Marker) (n : ℕ)
      → width mk ≡ 1
      → n < 256
      → Form mk n
      → ((o : Marker) → Form o n → 1 ≤ width o)
      → WritesShortest Form sent
          (do try_marker (write_marker io mk); try_data (write_data_u8 io (n % 256)); pure mk)
          n
  narrow Form mk n w h f least =
      let small : n % 256 ≡ n = omega arith in
      rw small (
        mk,
        f,
        shortest Form mk n (λ o g. omega (arith, least o g)),
        numbered_pure sink mk n _ mk (rw w (data_u8 sink n h)),
      )

  pub wide :
      (Form : Marker → ℕ → Type 0) (mk16 mk32 : Marker) (n : ℕ) (test : Bool)
      → width mk16 ≡ 2
      → width mk32 ≡ 4
      → (test ≡ true → n < 65536)
      → (test ≡ false → 65536 ≤ n)
      → (n < 65536 → Form mk16 n)
      → Form mk32 n
      → ((o : Marker) → Form o n → 2 ≤ width o)
      → ((o : Marker) → Form o n → 65536 ≤ n → 4 ≤ width o)
      → WritesShortest Form sent
          (if test
            then (do
              try_marker (write_marker io mk16)
              try_data (write_data_u16 bo io (n % 65536))
              pure mk16)
            else (do
              try_marker (write_marker io mk32)
              try_data (write_data_u32 bo io n)
              pure mk32))
          n
  wide Form mk16 mk32 n true w16 w32 yes16 no16 f16 f32 least16 least32 =
      let fits = yes16 refl in
      let small : n % 65536 ≡ n = omega arith in
      rw small (
        mk16,
        f16 fits,
        shortest Form mk16 n (λ o g. omega (arith, least16 o g)),
        numbered_pure sink mk16 n _ mk16 (rw w16 (data_u16 big sink n)),
      )
  wide Form mk16 mk32 n false w16 w32 yes16 no16 f16 f32 least16 least32 = (
    mk32,
    f32,
    shortest Form mk32 n (λ o g. omega (arith, least32 o g (no16 refl))),
    numbered_pure sink mk32 n _ mk32 (rw w32 (data_u32 big sink n)),
  )

  wide_leb :
      (Form : Marker → ℕ → Type 0) (mk16 mk32 : Marker) (n : ℕ)
      → width mk16 ≡ 2
      → width mk32 ≡ 4
      → (n < 65536 → Form mk16 n)
      → Form mk32 n
      → ((o : Marker) → Form o n → 2 ≤ width o)
      → ((o : Marker) → Form o n → 65536 ≤ n → 4 ≤ width o)
      → WritesShortest Form sent
          (if leb n 65535
            then (do
              try_marker (write_marker io mk16)
              try_data (write_data_u16 bo io (n % 65536))
              pure mk16)
            else (do
              try_marker (write_marker io mk32)
              try_data (write_data_u32 bo io n)
              pure mk32))
          n
  wide_leb Form mk16 mk32 n w16 w32 =
      wide Form mk16 mk32 n (leb n 65535) w16 w32 (λ e. omega (arith, leb→le n 65535 e))
        (leb→lt n 65535)

  pub fixed :
      (Form : Marker → ℕ → Type 0) (mk : Marker) (n : ℕ)
      → width mk ≡ 0
      → Form mk n
      → WritesShortest Form sent (try_marker (write_marker io mk) >> pure mk) n
  fixed Form mk n w f = (mk, f, shortest Form mk n (λ o g. omega arith), only_marker mk n w)

  -- The length of a string.
  pub write_str_len-WritesShortest :
      (n : ℕ) → n < 2 ^ 32 → WritesShortest StrForm sent (write_str_len bo io n) n
  unfolding write_str_len
  write_str_len-WritesShortest n h = elim (Bool-cases (ltb n 32)) [
    | inl e ↦
        let small : n % 256 ≡ n = omega (arith, ltb→lt n 32 e) in
        rw (e, small) (fixed StrForm (fix_str n) n refl (refl, ltb→lt n 32 e))
    | inr e ↦ rw e (elim (Bool-cases (ltb n 256)) [
      | inl f ↦ rw f (
          narrow StrForm str8 n refl (ltb→lt n 256 f) (ltb→lt n 256 f)
            (λ o g. (str_width o n g).0 (ltb→le n 32 e)))
      | inr f ↦ rw f (
          wide_leb StrForm str16 str32 n refl refl (λ k. k) h
            (λ o g. (str_width o n g).1 (ltb→le n 256 f)) (λ o g. (str_width o n g).2))
    ])
  ]

  -- The length of a byte array.
  pub write_bin_len-WritesShortest :
      (n : ℕ) → n < 2 ^ 32 → WritesShortest BinForm sent (write_bin_len bo io n) n
  unfolding write_bin_len
  write_bin_len-WritesShortest n h = elim (Bool-cases (ltb n 256)) [
    | inl f ↦
        rw f (
          narrow BinForm bin8 n refl (ltb→lt n 256 f) (ltb→lt n 256 f) (λ o g. (bin_width o n g).0))
    | inr f ↦ rw f (
        wide_leb BinForm bin16 bin32 n refl refl (λ k. k) h
          (λ o g. (bin_width o n g).1 (ltb→le n 256 f)) (λ o g. (bin_width o n g).2))
  ]

  -- `write_array_len` writes the shortest header for a length below 2^32 and returns its marker.
  pub write_array_len-WritesShortest :
      (n : ℕ) → n < 2 ^ 32 → WritesShortest ArrayForm sent (write_array_len bo io n) n
  unfolding write_array_len
  write_array_len-WritesShortest n h = elim (Bool-cases (ltb n 16)) [
    | inl e ↦
        let small : n % 256 ≡ n = omega (arith, ltb→lt n 16 e) in
        rw (e, small) (fixed ArrayForm (fix_array n) n refl (refl, ltb→lt n 16 e))
    | inr e ↦ rw e (
        wide_leb ArrayForm array16 array32 n refl refl (λ k. k) h
          (λ o g. (array_width o n g).0 (ltb→le n 16 e)) (λ o g. (array_width o n g).1))
  ]

  -- `write_map_len` writes the shortest header for a length below 2^32 and returns its marker.
  pub write_map_len-WritesShortest :
      (n : ℕ) → n < 2 ^ 32 → WritesShortest MapForm sent (write_map_len bo io n) n
  unfolding write_map_len
  write_map_len-WritesShortest n h = elim (Bool-cases (ltb n 16)) [
    | inl e ↦
        let small : n % 256 ≡ n = omega (arith, ltb→lt n 16 e) in
        rw (e, small) (fixed MapForm (fix_map n) n refl (refl, ltb→lt n 16 e))
    | inr e ↦ rw e (
        wide_leb MapForm map16 map32 n refl refl (λ k. k) h
          (λ o g. (map_width o n g).0 (ltb→le n 16 e)) (λ o g. (map_width o n g).1))
  ]
