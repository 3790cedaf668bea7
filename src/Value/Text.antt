-- ===== src/Value/Text.antt =====
-- rmpv/src/lib.rs: the methods of `Utf8String`.
use msgpack_rust.Common.{ℕ, Bool, true, false, Option, none, some, List}
use msgpack_rust.Value.{Utf8String, text, raw}

module _ {U : Type 0} where
  unfoldable pub is_str : Utf8String U → Bool
  is_str (text s) = true
  is_str (raw s e) = false

  unfoldable pub is_err : Utf8String U → Bool
  is_err (text s) = false
  is_err (raw s e) = true

  unfoldable pub as_str : Utf8String U → Option (List ℕ)
  as_str (text s) = some s
  as_str (raw s e) = none

  unfoldable pub as_err : Utf8String U → Option U
  as_err (text s) = none
  as_err (raw s e) = some e

  unfoldable pub as_bytes : Utf8String U → List ℕ
  as_bytes (text s) = s
  as_bytes (raw s e) = s

  unfoldable pub into_str : Utf8String U → Option (List ℕ)
  into_str (text s) = some s
  into_str (raw s e) = none

  unfoldable pub into_bytes : Utf8String U → List ℕ
  into_bytes (text s) = s
  into_bytes (raw s e) = s
