-- ===== src/Format/Markers.antt =====
-- The MessagePack format: the payloads of the markers that open a form.
use msgpack_rust.Common.{ℕ, sym, subst, arith}
use msgpack_rust.Common.Int.{ℤ, pos, negsuc}
use msgpack_rust.Marker.{Marker, IsMarker, null, fix_pos, fix_neg, fix_str, fix_array, fix_map}
use msgpack_rust.Format.{IntForm, StrForm, BinForm, ArrayForm, MapForm, ExtForm}

pub IntForm-IsMarker : (mk : Marker) (z : ℤ) → IntForm mk z → IsMarker mk
IntForm-IsMarker (fix_pos k) (pos n) h = omega arith
IntForm-IsMarker (fix_neg k) (negsuc n) h = subst (λ w. IsMarker (fix_neg w)) (sym h.0) h.1
IntForm-IsMarker (fix_pos k) (negsuc n) h = absurd h
IntForm-IsMarker (fix_neg k) (pos n) h = absurd h
IntForm-IsMarker null z h = tt
IntForm-IsMarker _ z h = omega arith

pub StrForm-IsMarker : (mk : Marker) (n : ℕ) → StrForm mk n → IsMarker mk
StrForm-IsMarker (fix_str k) n h = omega arith
StrForm-IsMarker (fix_neg z) n h = absurd h
StrForm-IsMarker null n h = tt
StrForm-IsMarker _ n h = omega arith

pub BinForm-IsMarker : (mk : Marker) (n : ℕ) → BinForm mk n → IsMarker mk
BinForm-IsMarker (fix_neg z) n h = absurd h
BinForm-IsMarker null n h = tt
BinForm-IsMarker _ n h = omega arith

pub ArrayForm-IsMarker : (mk : Marker) (n : ℕ) → ArrayForm mk n → IsMarker mk
ArrayForm-IsMarker (fix_array k) n h = omega arith
ArrayForm-IsMarker (fix_neg z) n h = absurd h
ArrayForm-IsMarker null n h = tt
ArrayForm-IsMarker _ n h = omega arith

pub MapForm-IsMarker : (mk : Marker) (n : ℕ) → MapForm mk n → IsMarker mk
MapForm-IsMarker (fix_map k) n h = omega arith
MapForm-IsMarker (fix_neg z) n h = absurd h
MapForm-IsMarker null n h = tt
MapForm-IsMarker _ n h = omega arith

pub ExtForm-IsMarker : (mk : Marker) (n : ℕ) → ExtForm mk n → IsMarker mk
ExtForm-IsMarker (fix_neg z) n h = absurd h
ExtForm-IsMarker null n h = tt
ExtForm-IsMarker _ n h = omega arith
