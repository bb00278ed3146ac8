-- ===== src/Zval.antt =====
-- crates/folk-ext/src/zval_convert.rs: JSON values as PHP values, and back. A PHP value is what the
-- accessors of ext-php-rs tell of it; a hash table is its entries in order.
pub mod Tables
pub mod RoundTrip
use folk_core.Base.{
  ℕ, ◌+◌, ◌^◌, String, Bool, true, false, Option, none, some, ltb, str_eq, if◌then◌else◌, ◌||◌, suc,
  ◌==◌,
}
use folk_core.Json.{Number, positive, negative, float, Value, Items, Fields, insert}

-- An integer of PHP, an i64; `negsuc n` is -(n + 1).
pub data Long : Type 0 where
  pos : ℕ → Long
  negsuc : ℕ → Long

pub data ArrayKey : Type 0 where
  text : String → ArrayKey
  long : Long → ArrayKey

mutual
  pub data Zval : Type 0 where
    undefined : Zval
    null : Zval
    bool : Bool → Zval
    long : Long → Zval
    double : ℕ → Zval
    string : String → Zval
    array : Table → Zval

  pub data Table : Type 0 where
    nil : Table
    entry : ArrayKey → Zval → Table → Table

abbrev pub i64_mod : ℕ
i64_mod = 2 ^ 63

-- `Number::as_i64`
abbrev pub as_i64 : Number → Option Long
as_i64 (positive n) = if ltb n i64_mod then some (Long.pos n) else none
as_i64 (negative n) = if ltb n i64_mod then some (Long.negsuc n) else none
as_i64 (float bits) = none

-- `serde_json::json!` of an i64.
abbrev pub of_long : Long → Number
of_long (pos n) = positive n
of_long (negsuc n) = negative n

abbrev pub long_eq : Long → Long → Bool
long_eq (pos m) (pos n) = m == n
long_eq (negsuc m) (negsuc n) = m == n
long_eq _ _ = false

abbrev pub key_eq : ArrayKey → ArrayKey → Bool
key_eq (ArrayKey.text s) (ArrayKey.text t) = str_eq s t
key_eq (ArrayKey.long i) (ArrayKey.long j) = long_eq i j
key_eq _ _ = false

-- `ZendHashTable::insert`
unfoldable pub table_insert : ArrayKey → Zval → Table → Table
table_insert k z Table.nil = entry k z Table.nil
table_insert k z (entry j y t) = if key_eq j k then entry j z t else entry j y (table_insert k z t)

-- `ht.insert(…).ok()`: a key that the insertion refuses is dropped, with its value.
abbrev pub try_insert : Option ArrayKey → Zval → Table → Table
try_insert none z t = t
try_insert (some k) z t = table_insert k z t

-- `ht.iter().any(…)`
unfoldable pub has_string_keys : Table → Bool
has_string_keys Table.nil = false
has_string_keys (entry (ArrayKey.text k) z t) = true
has_string_keys (entry (ArrayKey.long i) z t) = has_string_keys t

-- The parameters: `Number::as_f64`; the key under which a hash table keeps a text (ext-php-rs may
-- turn a decimal text into an integer, and refuses a text with a NUL); `i64::to_string`; and `json!` of a double.
module _ (as_f64 : Number → ℕ) (array_key : String → Option ArrayKey) (to_string : Long → String)
    (of_double : ℕ → Value) where
  abbrev pub number_to_zval : Number → Zval
  number_to_zval n = elim (as_i64 n) [ some i ↦ Zval.long i | none ↦ Zval.double (as_f64 n) ]

  -- `push` gives the items of a new table the keys 0, 1 and so on.
  unfoldable mutual
    pub value_to_zval : Value → Zval
    value_to_zval Value.null = Zval.null
    value_to_zval (Value.bool b) = Zval.bool b
    value_to_zval (Value.number n) = number_to_zval n
    value_to_zval (Value.string s) = Zval.string s
    value_to_zval (Value.array items) = Zval.array (push_all items 0)
    value_to_zval (Value.object fields) = Zval.array (insert_fields fields Table.nil)

    pub push_all : Items → ℕ → Table
    push_all Items.nil i = Table.nil
    push_all (Items.cons v items) i =
        entry (ArrayKey.long (Long.pos i)) (value_to_zval v) (push_all items (suc i))

    pub insert_fields : Fields → Table → Table
    insert_fields Fields.end t = t
    insert_fields (Fields.field k v fields) t =
        insert_fields fields (try_insert (array_key k) (value_to_zval v) t)

  abbrev pub key_text : ArrayKey → String
  key_text (ArrayKey.text s) = s
  key_text (ArrayKey.long i) = to_string i

  unfoldable mutual
    pub zval_to_value : Zval → Value
    zval_to_value Zval.null = Value.null
    zval_to_value (Zval.bool b) = Value.bool b
    zval_to_value (Zval.long i) = Value.number (of_long i)
    zval_to_value (Zval.double bits) = of_double bits
    zval_to_value (Zval.string s) = Value.string s
    zval_to_value (Zval.array t) =
        if has_string_keys t
        then Value.object (collect_fields t Fields.end)
        else Value.array (collect_items t)
    zval_to_value Zval.undefined = Value.null

    pub collect_items : Table → Items
    collect_items Table.nil = Items.nil
    collect_items (entry k z t) = Items.cons (zval_to_value z) (collect_items t)

    pub collect_fields : Table → Fields → Fields
    collect_fields Table.nil m = m
    collect_fields (entry k z t) m = collect_fields t (insert (key_text k) (zval_to_value z) m)
