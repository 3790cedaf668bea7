-- ===== src/Serde/Api.antt =====
-- rmp-serde/src/encode.rs: the type `Serializer` and the functions that make one for a value.
use msgpack_rust.Common.{ℕ, List, []}
use msgpack_rust.Common.Outcome.{Outcome, ok, err, panicked, M}
use msgpack_rust.ByteOrder.{ByteOrder}
use msgpack_rust.Serde.{Data, Error}
use msgpack_rust.Serde.Config.{
  Config, default_config, struct_map, struct_tuple, human_readable, binary,
}
use msgpack_rust.Serde.Serializer.{serialize, vec_write_all}

pub record Serializer (W : Type 0) : Type 0 where
  pub wr : W
  pub config : Config
  pub depth : ℕ

module _ {W : Type 0} where
  unfoldable pub new : W → Serializer W
  new wr = record { wr = wr; config = default_config; depth = 1024 }

  unfoldable pub get_ref : Serializer W → W
  get_ref se = se.wr

  unfoldable pub into_inner : Serializer W → W
  into_inner se = se.wr

  unfoldable pub unstable_set_max_depth : ℕ → Serializer W → Serializer W
  unstable_set_max_depth depth se = record { wr = se.wr; config = se.config; depth = depth }

  unfoldable pub with_struct_map : Serializer W → Serializer W
  with_struct_map se = record { wr = se.wr; config = struct_map se.config; depth = se.depth }

  unfoldable pub with_struct_tuple : Serializer W → Serializer W
  with_struct_tuple se = record { wr = se.wr; config = struct_tuple se.config; depth = se.depth }

  unfoldable pub with_human_readable : Serializer W → Serializer W
  with_human_readable se = record {
    wr = se.wr;
    config = human_readable se.config;
    depth = se.depth;
  }

  unfoldable pub with_binary : Serializer W → Serializer W
  with_binary se = record { wr = se.wr; config = binary se.config; depth = se.depth }

  -- The serializer as a call on its writer leaves it.
  abbrev pub holding : {E A : Type 0} → Serializer W → Outcome W E A → Outcome (Serializer W) E A
  holding se (ok a wr) = ok a (record { wr = wr; config = se.config; depth = se.depth })
  holding se (err e wr) = err e (record { wr = wr; config = se.config; depth = se.depth })
  holding se panicked = panicked

  -- The writer that a serializer of `&mut W` leaves behind.
  abbrev pub released : {E A : Type 0} → Outcome (Serializer W) E A → Outcome W E A
  released (ok a se) = ok a se.wr
  released (err e se) = err e se.wr
  released panicked = panicked

module _ (bo : ByteOrder) {W E : Type 0} (write_all : List ℕ → M W E (Unit {0})) where
  -- `val.serialize(&mut se)`
  unfoldable pub serialize_into : Data → M (Serializer W) (Error E) (Unit {0})
  serialize_into val se = holding se (serialize bo se.config val W E write_all se.wr)

  unfoldable pub write : Data → M W (Error E) (Unit {0})
  unfolding serialize_into new
  write val wr = released (serialize_into val (new wr))

  unfoldable pub write_named : Data → M W (Error E) (Unit {0})
  unfolding serialize_into new with_struct_map
  write_named val wr = released (serialize_into val (with_struct_map (new wr)))

-- `?`, and `Ok(wr)` behind it.
abbrev pub bytes_of : {E : Type 0} → Outcome (List ℕ) E (Unit {0}) → Outcome (Unit {0}) E (List ℕ)
bytes_of (ok a wr) = ok wr tt
bytes_of (err e wr) = err e tt
bytes_of panicked = panicked

unfoldable pub to_vec : ByteOrder → Data → Outcome (Unit {0}) (Error ⊥) (List ℕ)
unfolding write
to_vec bo val = bytes_of (write bo vec_write_all val [])

unfoldable pub to_vec_named : ByteOrder → Data → Outcome (Unit {0}) (Error ⊥) (List ℕ)
unfolding write_named
to_vec_named bo val = bytes_of (write_named bo vec_write_all val [])
