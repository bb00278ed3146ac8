-- ===== src/Examples/Values.antt =====
-- Examples for the conversion of values, crates/folk-ext/src/zval_convert.rs.
use folk_core.Base.{ℕ, ◌≡◌, refl, arith, String, true, Option, none, some, str_eq, if◌then◌else◌}
use folk_core.Json.{Number, positive, negative, float, Value, Items, Fields}
use folk_core.Zval.{Long, ArrayKey, Zval, Table, entry, table_insert, value_to_zval, zval_to_value}
use folk_core.Zval.RoundTrip.{IsFaithful, zval_to_value-value_to_zval}

-- Conversions of the engine for values that need none.
abbrev as_f64 : Number → ℕ
as_f64 (positive n) = n
as_f64 (negative n) = 0
as_f64 (float bits) = bits

abbrev array_key : String → Option ArrayKey
array_key s = if str_eq s "bad" then none else some (ArrayKey.text s)

abbrev to_string : Long → String
to_string i = "0"

abbrev of_double : ℕ → Value
of_double bits = Value.number (float bits)

-- {"id": 7, "price": <a float>, "tags": [true, null, -3]}
abbrev order : Value
order = Value.object (
    Fields.field "id" (Value.number (positive 7)) (
      Fields.field "price" (Value.number (float 99)) (
        Fields.field "tags"
          (Value.array (
            Items.cons (Value.bool true)
              (Items.cons Value.null (Items.cons (Value.number (negative 2)) Items.nil))))
          Fields.end)))

order-IsFaithful : IsFaithful as_f64 array_key to_string of_double order
unfolding IsFaithful
order-IsFaithful = (
  refl,
  (refl, (refl, tt)),
  omega arith,
  (refl, (refl, tt), refl, (refl, tt, (tt, (tt, (omega arith, tt))), tt)),
)

zval_to_value-value_to_zval_example :
    zval_to_value as_f64 array_key to_string of_double
      (value_to_zval as_f64 array_key to_string of_double order)
    ≡ order
zval_to_value-value_to_zval_example =
    zval_to_value-value_to_zval as_f64 array_key to_string of_double order order-IsFaithful

-- An entry whose key the hash table refuses is lost on the way to PHP.
lossy_order :
    value_to_zval as_f64 array_key to_string of_double
      (Value.object (Fields.field "a" (Value.bool true) (Fields.field "bad" Value.null Fields.end)))
    ≡ Zval.array (entry (ArrayKey.text "a") (Zval.bool true) Table.nil)
unfolding value_to_zval table_insert
lossy_order = refl
