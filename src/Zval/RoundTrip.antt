-- ===== src/Zval/RoundTrip.antt =====
-- JSON values that go to PHP through zval_convert.rs and come back.
use folk_core.Base.{
  ℕ, suc, ◌<◌, ◌≡◌, Option, some, refl, sym, ap, ◌∙◌, String, false, if◌then◌else◌, arith,
}
use folk_core.Json.{Number, positive, negative, float, Value, Items, Fields, insert}
use folk_core.Zval.{
  Long, ArrayKey, Zval, Table, entry, i64_mod, try_insert, has_string_keys, value_to_zval, push_all,
  insert_fields, zval_to_value, collect_items, collect_fields,
}
use folk_core.Zval.Tables.{
  IsBelow, append_fields, append_table, append_fields_assoc, append_table-nil, append_fields-end,
  append_table_assoc, insert_last, table_insert_absent, Fresh, FreshKeys, Fresh-append,
  FreshKeys-append, Fresh-end, FreshKeys-nil,
}

module _ (as_f64 : Number → ℕ) (array_key : String → Option ArrayKey) (to_string : Long → String)
    (of_double : ℕ → Value) where
  abbrev pub IsFaithfulNumber : Number → Type 0
  IsFaithfulNumber (positive n) = n < i64_mod
  IsFaithfulNumber (negative n) = n < i64_mod
  IsFaithfulNumber (float bits) = of_double (as_f64 (float bits)) ≡ Value.number (float bits)

  -- The values that PHP keeps: integers of an i64, floats that come back, objects that are not empty,
  -- and keys that the hash table accepts and keeps as texts; the keys of an object are in order,
  -- and none stands twice.
  unfoldable mutual
    pub IsFaithful : Value → Type 0
    IsFaithful Value.null = Unit
    IsFaithful (Value.bool b) = Unit
    IsFaithful (Value.number n) = IsFaithfulNumber n
    IsFaithful (Value.string s) = Unit
    IsFaithful (Value.array items) = AreFaithful items
    IsFaithful (Value.object Fields.end) = ⊥
    IsFaithful (Value.object (Fields.field k v fields)) = HasFaithful (Fields.field k v fields)

    pub AreFaithful : Items → Type 0
    AreFaithful Items.nil = Unit
    AreFaithful (Items.cons v items) = IsFaithful v × AreFaithful items

    pub HasFaithful : Fields → Type 0
    HasFaithful Fields.end = Unit
    HasFaithful (Fields.field k v fields) =
        (array_key k ≡ some (ArrayKey.text k))
        × IsBelow k fields
        × IsFaithful v
        × HasFaithful fields

  abbrev to_zval : Value → Zval
  to_zval v = value_to_zval as_f64 array_key to_string of_double v

  -- The table of an object with text keys.
  abbrev table_of : Fields → Table
  table_of Fields.end = Table.nil
  table_of (Fields.field k v fs) = entry (ArrayKey.text k) (to_zval v) (table_of fs)

  insert_fields-table_of :
      (fs : Fields) (t : Table)
      → HasFaithful fs
      → FreshKeys t fs
      → insert_fields as_f64 array_key to_string of_double fs t ≡ append_table t (table_of fs)
  unfolding value_to_zval HasFaithful
  insert_fields-table_of Fields.end t h fresh = sym (append_table-nil t)
  insert_fields-table_of (Fields.field k v fs) t (kept, absent, faithful, more) fresh =
      let z = to_zval v in
      ap (λ key. insert_fields as_f64 array_key to_string of_double fs (try_insert key z t)) kept
      ∙ ap (insert_fields as_f64 array_key to_string of_double fs)
          (table_insert_absent (ArrayKey.text k) z t fresh.0)
      ∙ insert_fields-table_of fs _ more (FreshKeys-append t k z fs fresh.1 absent)
      ∙ append_table_assoc t (entry (ArrayKey.text k) z Table.nil) (table_of fs)

  has_string_keys-push_all :
      (items : Items) (i : ℕ)
      → has_string_keys (push_all as_f64 array_key to_string of_double items i) ≡ false
  unfolding value_to_zval has_string_keys
  has_string_keys-push_all Items.nil i = refl
  has_string_keys-push_all (Items.cons v items) i = has_string_keys-push_all items (suc i)

  abbrev of_zval : Zval → Value
  of_zval z = zval_to_value as_f64 array_key to_string of_double z

  number-back :
      (n : Number) → IsFaithfulNumber n → of_zval (to_zval (Value.number n)) ≡ Value.number n
  unfolding value_to_zval zval_to_value
  number-back (positive n) h = ground (arith, h)
  number-back (negative n) h = ground (arith, h)
  number-back (float bits) h = h

  mutual
    unfolding value_to_zval zval_to_value IsFaithful has_string_keys

    value-back : (v : Value) → IsFaithful v → of_zval (to_zval v) ≡ v
    value-back Value.null h = refl
    value-back (Value.bool b) h = refl
    value-back (Value.number n) h = number-back n h
    value-back (Value.string s) h = refl
    value-back (Value.array items) h =
        rw (has_string_keys-push_all items 0, if◌then◌else◌) (ap Value.array (items-back items 0 h))
    value-back (Value.object Fields.end) h = elim h [ ]
    value-back (Value.object (Fields.field k v fields)) h =
        ap (λ t. of_zval (Zval.array t))
          (insert_fields-table_of (Fields.field k v fields) Table.nil h
            (FreshKeys-nil (Fields.field k v fields)))
        ∙ ap Value.object (
            fields-back (Fields.field k v fields) Fields.end h
              (Fresh-end (Fields.field k v fields)))

    items-back :
        (items : Items) (i : ℕ)
        → AreFaithful items
        → collect_items as_f64 array_key to_string of_double
            (push_all as_f64 array_key to_string of_double items i)
          ≡ items
    items-back Items.nil i h = refl
    items-back (Items.cons v items) i (h, hs) = rw (value-back v h, items-back items (suc i) hs)

    fields-back :
        (fs m : Fields)
        → HasFaithful fs
        → Fresh m fs
        → collect_fields as_f64 array_key to_string of_double (table_of fs) m ≡ append_fields m fs
    fields-back Fields.end m h fresh = sym (append_fields-end m)
    fields-back (Fields.field k v fs) m (kept, absent, faithful, more) fresh =
        ap (collect_fields as_f64 array_key to_string of_double (table_of fs))
          (ap (λ w. insert k w m) (value-back v faithful) ∙ insert_last k v m fresh.0)
        ∙ fields-back fs _ more (Fresh-append m k v fs fresh.1 absent)
        ∙ append_fields_assoc m (Fields.field k v Fields.end) fs

  -- A JSON value that PHP can keep comes back from PHP as it was. Not kept are integers from 2^63
  -- on, floats that `json!` does not give back, empty objects, keys that the hash table turns into
  -- integers, and entries whose key it refuses, which are dropped.
  pub zval_to_value-value_to_zval :
      (v : Value)
      → IsFaithful v
      → zval_to_value as_f64 array_key to_string of_double
          (value_to_zval as_f64 array_key to_string of_double v)
        ≡ v
  zval_to_value-value_to_zval v h = value-back v h
