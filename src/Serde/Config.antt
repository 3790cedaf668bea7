-- ===== src/Serde/Config.antt =====
-- rmp-serde/src/config.rs: the configurations, which wrap one another.
use msgpack_rust.Common.{ℕ, ◌%◌, ◌^◌, ◌≡◌, refl, Bool, true, false, if◌then◌else◌, List}
use msgpack_rust.Common.Outcome.{M, ◌>>=◌, ◌>>◌, map_err, pure}
use msgpack_rust.ByteOrder.{ByteOrder}
use msgpack_rust.Encode.{ValueWriteError, io_write}
use msgpack_rust.Encode.Len.{write_array_len, write_map_len}
use msgpack_rust.Encode.Payload.{write_str}
use msgpack_rust.Serde.{Error, invalid_value_write}

-- `DefaultConfig`, `StructMapConfig<C>`, `StructTupleConfig<C>`, `HumanReadableConfig<C>` and
-- `BinaryConfig<C>`.
pub data Config : Type 0 where
  default_config : Config
  struct_map : Config → Config
  struct_tuple : Config → Config
  human_readable : Config → Config
  binary : Config → Config

unfoldable pub is_human_readable : Config → Bool
is_human_readable default_config = false
is_human_readable (struct_map c) = is_human_readable c
is_human_readable (struct_tuple c) = is_human_readable c
is_human_readable (human_readable c) = true
is_human_readable (binary c) = false

-- The trait `sealed::SerializerConfig`, for a serializer that writes to `W`.
pub record SerializerConfig (W E : Type 0) : Type 0 where
  pub write_struct_len : ℕ → M W (Error E) (Unit {0})
  pub write_struct_field : List ℕ → M W (Error E) (Unit {0}) → M W (Error E) (Unit {0})
  pub write_variant_ident : ℕ → List ℕ → M W (Error E) (Unit {0})

module _ (bo : ByteOrder) {W E : Type 0} (write_all : List ℕ → M W E (Unit {0})) where
  -- `?` where a `ValueWriteError` becomes an `Error`.
  abbrev pub try_write : {A : Type 0} → M W (ValueWriteError E) A → M W (Error E) A
  try_write = map_err invalid_value_write

  unfoldable pub serialize_str : List ℕ → M W (Error E) (Unit {0})
  serialize_str v = try_write (write_str bo (io_write write_all) v)

  -- `impl SerializerConfig` for each configuration, over that of the one inside it.
  unfoldable pub default_impl : SerializerConfig W E
  unfolding serialize_str
  default_impl = record {
    write_struct_len =
        λ len. (do _ ← try_write (write_array_len bo (io_write write_all) (len % 2 ^ 32)); pure tt);
    write_struct_field = λ key serialize. serialize;
    write_variant_ident = λ variant_index variant. serialize_str variant;
  }

  unfoldable pub struct_map_impl : SerializerConfig W E → SerializerConfig W E
  struct_map_impl c = record {
    write_struct_len =
        λ len. (do _ ← try_write (write_map_len bo (io_write write_all) (len % 2 ^ 32)); pure tt);
    write_struct_field =
        λ key serialize. try_write (write_str bo (io_write write_all) key) >> serialize;
    write_variant_ident = c.write_variant_ident;
  }

  unfoldable pub struct_tuple_impl : SerializerConfig W E → SerializerConfig W E
  struct_tuple_impl c = record {
    write_struct_len =
        λ len. (do _ ← try_write (write_array_len bo (io_write write_all) (len % 2 ^ 32)); pure tt);
    write_struct_field = λ key serialize. serialize;
    write_variant_ident = c.write_variant_ident;
  }

  unfoldable pub human_readable_impl : SerializerConfig W E → SerializerConfig W E
  human_readable_impl c = record {
    write_struct_len = c.write_struct_len;
    write_struct_field = c.write_struct_field;
    write_variant_ident = c.write_variant_ident;
  }

  unfoldable pub binary_impl : SerializerConfig W E → SerializerConfig W E
  binary_impl c = record {
    write_struct_len = c.write_struct_len;
    write_struct_field = c.write_struct_field;
    write_variant_ident = c.write_variant_ident;
  }

  unfoldable pub impl : Config → SerializerConfig W E
  unfolding default_impl struct_map_impl struct_tuple_impl human_readable_impl binary_impl
  impl default_config = default_impl
  impl (struct_map c) = struct_map_impl (impl c)
  impl (struct_tuple c) = struct_tuple_impl (impl c)
  impl (human_readable c) = human_readable_impl (impl c)
  impl (binary c) = binary_impl (impl c)

  -- The calls `C::write_struct_len(..)`, `C::write_struct_field(..)` and
  -- `C::write_variant_ident(..)`, where `serialize` is `value.serialize(ser)`.
  unfoldable pub write_struct_len : Config → ℕ → M W (Error E) (Unit {0})
  unfolding impl
  write_struct_len c = (impl c).write_struct_len

  unfoldable pub write_struct_field :
      Config → List ℕ → M W (Error E) (Unit {0}) → M W (Error E) (Unit {0})
  unfolding impl
  write_struct_field c = (impl c).write_struct_field

  unfoldable pub write_variant_ident : Config → ℕ → List ℕ → M W (Error E) (Unit {0})
  unfolding impl
  write_variant_ident c = (impl c).write_variant_ident

-- Whether structs are maps under their fields' names: what the outermost of the wrappers that are
-- about structs says.
abbrev pub names_fields : Config → Bool
names_fields default_config = false
names_fields (struct_map c) = true
names_fields (struct_tuple c) = false
names_fields (human_readable c) = names_fields c
names_fields (binary c) = names_fields c

module _ (bo : ByteOrder) {W E : Type 0} (write_all : List ℕ → M W E (Unit {0})) where
  pub write_struct_len_lem :
      (c : Config) (len : ℕ)
      → write_struct_len bo write_all c len ≡ (
          if names_fields c
          then (do
            _ ← try_write bo write_all (write_map_len bo (io_write write_all) (len % 2 ^ 32))
            pure tt)
          else (do
            _ ← try_write bo write_all (write_array_len bo (io_write write_all) (len % 2 ^ 32))
            pure tt))
  unfolding write_struct_len
  write_struct_len_lem default_config len = refl
  write_struct_len_lem (struct_map c) len = refl
  write_struct_len_lem (struct_tuple c) len = refl
  write_struct_len_lem (human_readable c) len = write_struct_len_lem c len
  write_struct_len_lem (binary c) len = write_struct_len_lem c len

  pub write_struct_field_lem :
      (c : Config) (key : List ℕ) (serialize : M W (Error E) (Unit {0}))
      → write_struct_field bo write_all c key serialize
        ≡ (if names_fields c then serialize_str bo write_all key >> serialize else serialize)
  unfolding write_struct_field serialize_str
  write_struct_field_lem default_config key serialize = refl
  write_struct_field_lem (struct_map c) key serialize = refl
  write_struct_field_lem (struct_tuple c) key serialize = refl
  write_struct_field_lem (human_readable c) key serialize = write_struct_field_lem c key serialize
  write_struct_field_lem (binary c) key serialize = write_struct_field_lem c key serialize

  -- No configuration changes how a variant is named: by its name, as a string.
  pub write_variant_ident_lem :
      (c : Config) (variant_index : ℕ) (variant : List ℕ)
      → write_variant_ident bo write_all c variant_index variant
        ≡ serialize_str bo write_all variant
  unfolding write_variant_ident
  write_variant_ident_lem default_config variant_index variant = refl
  write_variant_ident_lem (struct_map c) variant_index variant =
      write_variant_ident_lem c variant_index variant
  write_variant_ident_lem (struct_tuple c) variant_index variant =
      write_variant_ident_lem c variant_index variant
  write_variant_ident_lem (human_readable c) variant_index variant =
      write_variant_ident_lem c variant_index variant
  write_variant_ident_lem (binary c) variant_index variant =
      write_variant_ident_lem c variant_index variant
