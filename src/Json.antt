-- ===== src/Json.antt =====
-- `serde_json::Value`, as the sources of both crates match on it and build it. A float is the
-- bit pattern of its f64. A map is its entries, which `insert` keeps sorted by key, as serde_json does
-- without `preserve_order`.
use Prim.Native.Nat.{Ordering}
use Prim.Native.String.{compare}
use folk_core.Base.{ℕ, String, Bool, true, false, Option, none, some, str_eq, if◌then◌else◌}

-- `negative n` is the integer -(n + 1).
pub data Number : Type 0 where
  positive : ℕ → Number
  negative : ℕ → Number
  float : ℕ → Number

mutual
  pub data Value : Type 0 where
    null : Value
    bool : Bool → Value
    number : Number → Value
    string : String → Value
    array : Items → Value
    object : Fields → Value

  pub data Items : Type 0 where
    nil : Items
    cons : Value → Items → Items

  pub data Fields : Type 0 where
    end : Fields
    field : String → Value → Fields → Fields

-- `Map::get`
unfoldable pub lookup : String → Fields → Option Value
lookup k end = none
lookup k (field j v rest) = if str_eq j k then some v else lookup k rest

abbrev pub text_lt : String → String → Bool
text_lt s t = elim (compare s t) [ Ordering.lt ↦ true | _ ↦ false ]

-- `Map::insert`
unfoldable pub insert : String → Value → Fields → Fields
insert k v end = field k v end
insert k v (field j w rest) =
    let later = field j w (insert k v rest) in
    if str_eq j k then field j v rest else if text_lt j k then later else field k v (field j w rest)

-- `Value::get` with a text
unfoldable pub get : String → Value → Option Value
get k (object fields) = lookup k fields
get k _ = none

-- `Value::as_str`
abbrev pub as_str : Value → Option String
as_str (string s) = some s
as_str _ = none
