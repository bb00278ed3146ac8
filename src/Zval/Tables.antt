-- ===== src/Zval/Tables.antt =====
-- Insertion into the maps and hash tables of zval_convert.rs, where a key is new.
use folk_core.Base.{◌≡◌, refl, ap, String, Bool, true, false, str_eq, if◌then◌else◌, arith}
use folk_core.Json.{Value, Fields, insert, text_lt}
use folk_core.Zval.{ArrayKey, Zval, Table, entry, key_eq, table_insert}

abbrev pub append_fields : Fields → Fields → Fields
append_fields Fields.end gs = gs
append_fields (Fields.field k v fs) gs = Fields.field k v (append_fields fs gs)

abbrev pub append_table : Table → Table → Table
append_table Table.nil u = u
append_table (entry k z t) u = entry k z (append_table t u)

abbrev pub has_key : ArrayKey → Table → Bool
has_key k Table.nil = false
has_key k (entry j z t) = if key_eq j k then true else has_key k t

pub append_fields_assoc :
    (a b c : Fields) → append_fields (append_fields a b) c ≡ append_fields a (append_fields b c)
append_fields_assoc Fields.end b c = refl
append_fields_assoc (Fields.field k v a) b c =
    ap (λ f. Fields.field k v f) (append_fields_assoc a b c)

pub append_table-nil : (t : Table) → append_table t Table.nil ≡ t
append_table-nil Table.nil = refl
append_table-nil (entry k z t) = ap (λ u. entry k z u) (append_table-nil t)

pub append_fields-end : (fs : Fields) → append_fields fs Fields.end ≡ fs
append_fields-end Fields.end = refl
append_fields-end (Fields.field k v fs) = ap (λ gs. Fields.field k v gs) (append_fields-end fs)

pub append_table_assoc :
    (a b c : Table) → append_table (append_table a b) c ≡ append_table a (append_table b c)
append_table_assoc Table.nil b c = refl
append_table_assoc (entry k z a) b c = ap (λ t. entry k z t) (append_table_assoc a b c)

-- Every key of the map stands before `k`.
abbrev pub AllBelow : Fields → String → Type 0
AllBelow Fields.end k = Unit
AllBelow (Fields.field j w m) k = (text_lt j k ≡ true) × AllBelow m k

-- Every key of the map stands behind `k`.
abbrev pub IsBelow : String → Fields → Type 0
IsBelow k Fields.end = Unit
IsBelow k (Fields.field j w m) = (text_lt k j ≡ true) × IsBelow k m

text_lt-ne : (j k : String) → text_lt j k ≡ true → str_eq j k ≡ false
text_lt-ne j k h = ground arith

pub insert_last :
    (k : String) (v : Value) (m : Fields)
    → AllBelow m k
    → insert k v m ≡ append_fields m (Fields.field k v Fields.end)
unfolding insert
insert_last k v Fields.end below = refl
insert_last k v (Fields.field j w m) (lt, below) =
    rw (text_lt-ne j k lt, lt, if◌then◌else◌)
      (ap (λ f. Fields.field j w f) (insert_last k v m below))

pub table_insert_absent :
    (k : ArrayKey) (z : Zval) (t : Table)
    → has_key k t ≡ false
    → table_insert k z t ≡ append_table t (entry k z Table.nil)
unfolding table_insert
table_insert_absent k z Table.nil e = refl
table_insert_absent k z (entry j y t) e = ground (arith, table_insert_absent k z t)

pub AllBelow-append :
    (m : Fields) (j k : String) (v : Value)
    → AllBelow m k
    → text_lt j k ≡ true
    → AllBelow (append_fields m (Fields.field j v Fields.end)) k
AllBelow-append Fields.end j k v below lt = (lt, tt)
AllBelow-append (Fields.field i w m) j k v below lt = (below.0, AllBelow-append m j k v below.1 lt)

pub has_key-append :
    (k : ArrayKey) (t : Table) (j : ArrayKey) (z : Zval)
    → has_key k t ≡ false
    → key_eq j k ≡ false
    → has_key k (append_table t (entry j z Table.nil)) ≡ false
has_key-append k Table.nil j z e d = rw d refl
has_key-append k (entry i y t) j z e d = ground (arith, has_key-append k t j z)

-- Every key of the first stands before every key of the second.
abbrev pub Fresh : Fields → Fields → Type 0
Fresh m Fields.end = Unit
Fresh m (Fields.field k v fs) = AllBelow m k × Fresh m fs

-- No key of the second stands in the first.
abbrev pub FreshKeys : Table → Fields → Type 0
FreshKeys t Fields.end = Unit
FreshKeys t (Fields.field k v fs) = (has_key (ArrayKey.text k) t ≡ false) × FreshKeys t fs

pub Fresh-append :
    (m : Fields) (k : String) (v : Value) (fs : Fields)
    → Fresh m fs
    → IsBelow k fs
    → Fresh (append_fields m (Fields.field k v Fields.end)) fs
Fresh-append m k v Fields.end fresh below = tt
Fresh-append m k v (Fields.field j w fs) fresh below =
    (AllBelow-append m k j v fresh.0 below.0, Fresh-append m k v fs fresh.1 below.1)

pub FreshKeys-append :
    (t : Table) (k : String) (z : Zval) (fs : Fields)
    → FreshKeys t fs
    → IsBelow k fs
    → FreshKeys (append_table t (entry (ArrayKey.text k) z Table.nil)) fs
FreshKeys-append t k z Fields.end fresh below = tt
FreshKeys-append t k z (Fields.field j w fs) fresh below = (
  has_key-append (ArrayKey.text j) t (ArrayKey.text k) z fresh.0 (text_lt-ne k j below.0),
  FreshKeys-append t k z fs fresh.1 below.1,
)

pub Fresh-end : (fs : Fields) → Fresh Fields.end fs
Fresh-end Fields.end = tt
Fresh-end (Fields.field k v fs) = (tt, Fresh-end fs)

pub FreshKeys-nil : (fs : Fields) → FreshKeys Table.nil fs
FreshKeys-nil Fields.end = tt
FreshKeys-nil (Fields.field k v fs) = (refl, FreshKeys-nil fs)
