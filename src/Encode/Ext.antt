-- ===== src/Encode/Ext.antt =====
-- rmp/src/encode: the header of an extension, and strings and byte arrays with their contents.
use msgpack_rust.Common.{
  ℕ, ◌<◌, ◌%◌, ◌^◌, ◌≡◌, ◌≢◌, refl, Bool-cases, inl, inr, List, ◌++◌, ltb, ◌==◌, arith, ltb→lt,
  ltb→le, length, true, false,
}
use msgpack_rust.Common.Int.{ℤ}
use msgpack_rust.ByteOrder.{ByteOrder, IsBigEndian}
use msgpack_rust.Marker.{
  Marker, fix_ext1, fix_ext2, fix_ext4, fix_ext8, fix_ext16, ext8, ext16, ext32,
}
use msgpack_rust.Format.{header, ext_header, StrForm, BinForm, ExtForm, IsShortest}
use msgpack_rust.Format.Width.{ext_width}
use msgpack_rust.Encode.{RmpWrite}
use msgpack_rust.Encode.Len.{write_ext_size, write_ext_meta}
use msgpack_rust.Encode.Payload.{write_str, write_bin}
use msgpack_rust.Encode.Logic.{Writes, IsSink, Writes->>=, Writes-pure_unit, Writes-map_err}
use msgpack_rust.Encode.Wire.{data_i8}
use msgpack_rust.Encode.Headers.{
  WritesShortest, fixed, narrow, wide, write_str_len-WritesShortest, write_bin_len-WritesShortest,
}

==→eq : (a b : ℕ) → (a == b) ≡ true → a ≡ b
==→eq a b h = ground arith

==→ne : (a b : ℕ) → (a == b) ≡ false → a ≢ b
==→ne a b h = ground arith

module _ {bo : ByteOrder} (big : IsBigEndian bo) {W E : Type 0} {io : RmpWrite W E}
    {sent : W → List ℕ} (sink : IsSink io sent) where
  write_ext_size_wide :
      (n : ℕ)
      → n < 2 ^ 32
      → n ≢ 1
      → n ≢ 2
      → n ≢ 4
      → n ≢ 8
      → n ≢ 16
      → (n == 1) ≡ false
      → (n == 2) ≡ false
      → (n == 4) ≡ false
      → (n == 8) ≡ false
      → (n == 16) ≡ false
      → WritesShortest ExtForm sent (write_ext_size bo io n) n
  unfolding write_ext_size
  write_ext_size_wide n h n1 n2 n4 n8 n16 e1 e2 e4 e8 e16 =
      rw (e1, e2, e4, e8, e16)
        (elim (Bool-cases (ltb n 256)) [
          | inl f ↦ rw f (
              narrow big sink ExtForm ext8 n refl (ltb→lt n 256 f) (ltb→lt n 256 f)
                (λ o g. (ext_width o n g).0 n1 n2 n4 n8 n16))
          | inr f ↦ rw f (
              wide big sink ExtForm ext16 ext32 n (ltb n 65536) refl refl (ltb→lt n 65536)
                (ltb→le n 65536) (λ k. k) h (λ o g. (ext_width o n g).1 (ltb→le n 256 f))
                (λ o g. (ext_width o n g).2))
        ])

  write_ext_size-WritesShortest :
      (n : ℕ) → n < 2 ^ 32 → WritesShortest ExtForm sent (write_ext_size bo io n) n
  unfolding write_ext_size
  write_ext_size-WritesShortest n h = elim (Bool-cases (n == 1)) [
    | inl e ↦ rw e (fixed big sink ExtForm fix_ext1 n refl (==→eq n 1 e))
    | inr e1 ↦ elim (Bool-cases (n == 2)) [
      | inl e ↦ rw (e1, e) (fixed big sink ExtForm fix_ext2 n refl (==→eq n 2 e))
      | inr e2 ↦ elim (Bool-cases (n == 4)) [
        | inl e ↦ rw (e1, e2, e) (fixed big sink ExtForm fix_ext4 n refl (==→eq n 4 e))
        | inr e4 ↦ elim (Bool-cases (n == 8)) [
          | inl e ↦ rw (e1, e2, e4, e) (fixed big sink ExtForm fix_ext8 n refl (==→eq n 8 e))
          | inr e8 ↦ elim (Bool-cases (n == 16)) [
            | inl e ↦
                rw (e1, e2, e4, e8, e) (fixed big sink ExtForm fix_ext16 n refl (==→eq n 16 e))
            | inr e16 ↦
                write_ext_size_wide n h (==→ne n 1 e1) (==→ne n 2 e2) (==→ne n 4 e4) (==→ne n 8 e8)
                  (==→ne n 16 e16) e1 e2 e4 e8 e16
          ]
        ]
      ]
    ]
  ]

  -- `write_ext_meta` writes the size and the type of an extension, under the shortest header for
  -- the size, where that is below 2^32.
  pub write_ext_meta-Writes :
      (n : ℕ) (ty : ℤ)
      → n < 2 ^ 32
      → (mk : Marker) × ExtForm mk n
        × IsShortest ExtForm mk n
        × Writes sent (write_ext_meta bo io n ty) (ext_header mk n ty) mk
  unfolding write_ext_meta ext_header
  write_ext_meta-Writes n ty h =
      let (mk, form, short, writes) = write_ext_size-WritesShortest n h in
      (mk, form, short, Writes->>= _ writes (Writes-pure_unit (data_i8 sink ty)))

  -- `write_str` writes a string of less than 2^32 bytes under the shortest header for its length.
  pub write_str-Writes :
      (text : List ℕ)
      → length text < 2 ^ 32
      → (mk : Marker) × StrForm mk (length text)
        × IsShortest StrForm mk (length text)
        × Writes sent (write_str bo io text) (header mk (length text) ++ text) tt
  unfolding write_str
  write_str-Writes text h =
      let (mk, form, short, writes) = write_str_len-WritesShortest big sink (length text) h in
      let whole : length text % 2 ^ 32 ≡ length text = omega arith in
      (mk, form, short, rw whole (Writes->>= _ writes (Writes-map_err _ (sink.bytes text))))

  -- `write_bin` writes a byte array of less than 2^32 bytes under the shortest header for its
  -- length.
  pub write_bin-Writes :
      (bytes : List ℕ)
      → length bytes < 2 ^ 32
      → (mk : Marker) × BinForm mk (length bytes)
        × IsShortest BinForm mk (length bytes)
        × Writes sent (write_bin bo io bytes) (header mk (length bytes) ++ bytes) tt
  unfolding write_bin
  write_bin-Writes bytes h =
      let (mk, form, short, writes) = write_bin_len-WritesShortest big sink (length bytes) h in
      let whole : length bytes % 2 ^ 32 ≡ length bytes = omega arith in
      (mk, form, short, rw whole (Writes->>= _ writes (Writes-map_err _ (sink.bytes bytes))))
