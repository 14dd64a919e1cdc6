-- ===== src/Kiroku/Json.antt =====
-- `serde_json::Value` as rs/crates/kiroku/src/contract.rs uses it: its variants, `Map::get`,
-- `Map::keys` and the `as_*` accessors. A number is a `u64` or, with its literal, another. The parser itself is
-- third-party and stays a parameter of the validator.
use ningen_shikkaku.Base.{ℕ, Bool, true, false, List, [], ◌∷◌, Option, none, some, if◌then◌else◌}
use ningen_shikkaku.Base.Text.{Bytes, text_eq}

mutual
  pub data Value : Type 0 where
    null : Value
    bool : Bool → Value
    number : ℕ → Value
    other_number : (literal : Bytes) → Value
    string : Bytes → Value
    array : Items → Value
    object : Map → Value

  pub data Items : Type 0 where
    nil : Items
    cons : Value → Items → Items

  pub data Map : Type 0 where
    empty : Map
    member : Bytes → Value → Map → Map

unfoldable pub get : Map → Bytes → Option Value
get empty key = none
get (member k v rest) key = if text_eq k key then some v else get rest key

unfoldable pub keys : Map → List Bytes
keys empty = []
keys (member k v rest) = k ∷ keys rest

unfoldable pub as_str : Value → Option Bytes
as_str (string s) = some s
as_str _ = none

unfoldable pub as_u64 : Value → Option ℕ
as_u64 (number n) = some n
as_u64 _ = none

unfoldable pub as_bool : Value → Option Bool
as_bool (bool b) = some b
as_bool _ = none

unfoldable pub as_object : Value → Option Map
as_object (object m) = some m
as_object _ = none

-- `== Value::Array(vec![])`.
unfoldable pub is_empty_array : Value → Bool
is_empty_array (array nil) = true
is_empty_array _ = false

-- `== Value::Bool(true)`.
unfoldable pub is_true : Value → Bool
is_true (bool b) = b
is_true _ = false
