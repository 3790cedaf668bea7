-- ===== src/Serde/Compound.antt =====
-- rmp-serde/src/encode.rs: what is appended for an extension and for the parts of a compound.
use mathlib.Core.Path.{fun_ext}
use msgpack_rust.Common.{
  ℕ, ◌+◌, ◌/◌, ◌%◌, ◌^◌, ◌<◌, ◌≤◌, ◌≡◌, ◌∙◌, refl, sym, subst, if◌then◌else◌, List, [], ◌∷◌, ◌++◌,
  length, arith,
}
use msgpack_rust.Common.Int.{ℤ, pos, negsuc, IsSigned}
use msgpack_rust.Common.Outcome.{M, ◌>>◌}
use msgpack_rust.ByteOrder.{ByteOrder, IsBigEndian}
use msgpack_rust.Format.{ext_header}
use msgpack_rust.Encode.{invalid_data_write, io_write}
use msgpack_rust.Encode.Logic.{IsSink}
use msgpack_rust.Encode.Ext.{write_ext_meta-Writes}
use msgpack_rust.Decode.Str.{Utf8}
use msgpack_rust.Value.{Value}
use msgpack_rust.Value.Encoding.{EncodingAll, EncodingPairs}
use msgpack_rust.Serde.{
  Data, Items, Entries, Fields, Error, count_items, count_entries, count_fields,
}
use msgpack_rust.Serde.Config.{Config, names_fields, write_struct_len, write_struct_len_lem}
use msgpack_rust.Serde.Ext.{serialize_ext}
use msgpack_rust.Serde.Serializer.{
  serialize_ext_struct, buffered, end_seq, end_map, array_len, map_len,
}
use msgpack_rust.Serde.Logic.{Sends, Sends-try, Sends->>=, Sends-pure_unit, Sends-buffered}
use msgpack_rust.Serde.Meaning.{
  IsExt, ext_pair, ext_format, ext_value, values_of, pairs_of, named_of, unnamed_of,
  count-values_of, count-pairs_of, count-named_of, count-unnamed_of,
}
use msgpack_rust.Serde.Parts.{Represents, EncodingFields, array_sent, map_sent, struct_sent}
use msgpack_rust.Serde.Extension.{write_ext, write_exts, serialize_ext_struct-ext_items}

module _ {bo : ByteOrder} (big : IsBigEndian bo) {U : Type 0} (utf8 : Utf8 U) {W E : Type 0}
    (write_all : List ℕ → M W E (Unit {0})) {sent : W → List ℕ}
    (sink : IsSink (io_write write_all) sent) where
  ext_written :
      (ty : ℤ) (buf : List ℕ)
      → IsSigned 128 ty
      → length buf < 2 ^ 32
      → Represents utf8 sent (write_exts bo write_all ((ty, buf) ∷ [])) (Value.ext ty buf)
  unfolding write_exts write_ext io_write
  ext_written ty buf t h =
      let (mk, form, short, writes) = write_ext_meta-Writes big sink (length buf) ty h in
      let whole : length buf % 2 ^ 32 ≡ length buf = omega arith in
      (
        ext_header mk (length buf) ty ++ buf,
        (mk, t, form, refl),
        rw whole (
            Sends-pure_unit (
              Sends->>= _ (Sends-try (λ e. e) writes)
                (Sends-try invalid_data_write (sink.bytes buf)))),
      )

  pub ext_sent :
      (d : Data)
      → IsExt d
      → Represents utf8 sent (serialize_ext_struct bo write_all d) (ext_value d)
  unfolding serialize_ext_struct serialize_ext
  ext_sent _ (ext_pair {len} {ty} {buf} t h) =
      let (bs, encoded, sends) = ext_written ty buf t h in
      (
        bs,
        encoded,
        subst (λ m. Sends sent m bs tt)
            (sym (fun_ext (serialize_ext_struct-ext_items bo write_all len ty buf []))) sends,
      )
  ext_sent _ (ext_format {h} {b} k) = ext_sent h k

pub widen :
    (half : ℕ) (z : ℤ)
    → IsSigned half z
    → half ≤ 9223372036854775808
    → IsSigned 9223372036854775808 z
widen half (pos n) h k = omega arith
widen half (negsuc n) h k = omega arith

module _ {bo : ByteOrder} (big : IsBigEndian bo) {U : Type 0} (utf8 : Utf8 U) (config : Config)
    {W E : Type 0} (write_all : List ℕ → M W E (Unit {0})) {sent : W → List ℕ}
    (sink : IsSink (io_write write_all) sent) where
  -- An array, a map or a struct from what was sent of its parts.
  pub array_of :
      (len : ℕ) (ds : Items) (m : M W (Error E) (Unit {0}))
      → len ≡ count_items ds
      → len < 2 ^ 32
      → (bs : List ℕ) × EncodingAll utf8 (values_of config ds) bs × Sends sent m bs tt
      → Represents utf8 sent
          (array_len bo write_all (len % 2 ^ 32) >> m)
          (Value.array (values_of config ds))
  array_of len ds m same few (bs, encoded, sends) =
      let whole : len % 2 ^ 32 ≡ len = omega arith in
      rw whole (
        array_sent big utf8 write_all sink len (values_of config ds) bs m
          (count-values_of U config ds ∙ sym same) few encoded sends)

  pub map_of :
      (len : ℕ) (es : Entries) (m : M W (Error E) (Unit {0}))
      → len ≡ count_entries es
      → len < 2 ^ 32
      → (bs : List ℕ) × EncodingPairs utf8 (pairs_of config es) bs × Sends sent m bs tt
      → Represents utf8 sent
          (map_len bo write_all (len % 2 ^ 32) >> m)
          (Value.map (pairs_of config es))
  map_of len es m same few (bs, encoded, sends) =
      let whole : len % 2 ^ 32 ≡ len = omega arith in
      rw whole (
        map_sent big utf8 write_all sink len (pairs_of config es) bs m
          (count-pairs_of U config es ∙ sym same) few encoded sends)

  pub struct_of :
      (len : ℕ) (fs : Fields) (m : M W (Error E) (Unit {0}))
      → len ≡ count_fields fs
      → len < 2 ^ 32
      → (bs : List ℕ) × EncodingFields utf8
          (names_fields config)
          (named_of config fs)
          (unnamed_of config fs)
          bs
        × Sends sent m bs tt
      → Represents utf8 sent (write_struct_len bo write_all config len >> m) (
          if names_fields config
          then Value.map (named_of config fs)
          else Value.array (unnamed_of config fs))
  struct_of len fs m same few (bs, encoded, sends) =
      let whole : len % 2 ^ 32 ≡ len = omega arith in
      rw (write_struct_len_lem bo write_all config len, whole)
        (struct_sent big utf8 write_all sink (names_fields config) len (named_of config fs)
          (unnamed_of config fs) bs m (count-named_of U config fs ∙ sym same)
          (count-unnamed_of U config fs ∙ sym same) few encoded sends)

  -- A sequence or a map whose parts were counted on their way into a buffer.
  pub counted_seq :
      (ds : Items) (m : M (List ℕ) (Error ⊥) ℕ)
      → count_items ds < 2 ^ 32
      → (bs : List ℕ) × EncodingAll utf8 (values_of config ds) bs
        × Sends (λ buf. buf) m bs (0 + count_items ds)
      → Represents utf8 sent (buffered m (end_seq bo write_all)) (Value.array (values_of config ds))
  unfolding end_seq io_write
  counted_seq ds m few (buf, parts, sends) =
      let (bs, encoded, rest) =
        array_sent big utf8 write_all sink (0 + count_items ds) (values_of config ds) buf _
          (omega (arith, count-values_of U config ds)) (omega arith) parts
          (Sends-try invalid_data_write (sink.bytes buf)) in
      (bs, encoded, Sends-buffered (end_seq bo write_all) sends rest)

  pub counted_map :
      (es : Entries) (m : M (List ℕ) (Error ⊥) ℕ)
      → count_entries es + count_entries es < 2 ^ 32
      → (bs : List ℕ) × EncodingPairs utf8 (pairs_of config es) bs
        × Sends (λ buf. buf) m bs (0 + (count_entries es + count_entries es))
      → Represents utf8 sent (buffered m (end_map bo write_all)) (Value.map (pairs_of config es))
  unfolding end_map io_write
  counted_map es m few (buf, parts, sends) =
      let (bs, encoded, rest) =
        map_sent big utf8 write_all sink ((0 + (count_entries es + count_entries es)) / 2)
          (pairs_of config es) buf _ (omega (arith, count-pairs_of U config es)) (omega arith) parts
          (Sends-try invalid_data_write (sink.bytes buf)) in
      (bs, encoded, Sends-buffered (end_map bo write_all) sends rest)
