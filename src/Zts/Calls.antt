-- ===== src/Zts/Calls.antt =====
-- What the wrappers of crates/folk-ext/src/zts.rs give to the PHP engine, and get from it.
use folk_core.Base.{
  ℕ, Option, ◌≡◌, ap, String, false, [], ◌∷◌, All, Bool-cases, inl, inr, if◌then◌else◌,
}
use folk_core.Json.{Number, Value}
use folk_core.Zval.{Long, pos, ArrayKey, Zval, value_to_zval}
use folk_core.Zval.RoundTrip.{IsFaithful, zval_to_value-value_to_zval}
use folk_core.Zts.{
  Ffi, FfiCall, chdir_to, evaluated, executed, dispatched, ok, has_null_byte, chdir, eval_string,
  execute_script, call_dispatch,
}

-- A call whose C string ends where its text does.
abbrev pub IsWhole : FfiCall → Type 0
IsWhole (chdir_to path) = has_null_byte path ≡ false
IsWhole (evaluated text) = has_null_byte text ≡ false
IsWhole (executed filename) = has_null_byte filename ≡ false
IsWhole (dispatched name method params) = has_null_byte name ≡ false
IsWhole _ = Unit

module _ (ffi : Ffi) where
  chdir-IsWhole : (s : String) → All IsWhole (chdir ffi s).1
  unfolding chdir
  chdir-IsWhole s = elim (Bool-cases (has_null_byte s)) [
    | inl e ↦ rw (e, chdir, if◌then◌else◌) tt
    | inr e ↦ rw (e, chdir, if◌then◌else◌) (e, tt)
  ]

  eval_string-IsWhole : (s : String) → All IsWhole (eval_string ffi s).1
  unfolding eval_string
  eval_string-IsWhole s = elim (Bool-cases (has_null_byte s)) [
    | inl e ↦ rw (e, eval_string, if◌then◌else◌) tt
    | inr e ↦ rw (e, eval_string, if◌then◌else◌) (e, tt)
  ]

  execute_script-IsWhole : (s : String) → All IsWhole (execute_script ffi s).1
  unfolding execute_script
  execute_script-IsWhole s = elim (Bool-cases (has_null_byte s)) [
    | inl e ↦ rw (e, execute_script, if◌then◌else◌) tt
    | inr e ↦ rw (e, execute_script, if◌then◌else◌) (e, tt)
  ]

module _ (as_f64 : Number → ℕ) (array_key : String → Option ArrayKey) (to_string : Long → String)
    (of_double : ℕ → Value) where
  abbrev pub to_zval : Value → Zval
  to_zval = value_to_zval as_f64 array_key to_string of_double

  module _ (ffi : Ffi) where
    -- If the PHP function gives, for the parameters as PHP has them, a value that PHP can keep, the
    -- dispatch of a method answers this value; it calls the engine once.
    pub call_dispatch-function :
        (func_name method : String) (params result : Value)
        → has_null_byte func_name ≡ false
        → ffi.call_dispatch func_name (Zval.string method) (to_zval params)
          ≡ (pos 0, to_zval result)
        → IsFaithful as_f64 array_key to_string of_double result
        → call_dispatch ffi as_f64 array_key to_string of_double func_name method params
          ≡ (ok result, dispatched func_name (Zval.string method) (to_zval params) ∷ [])
    unfolding call_dispatch
    call_dispatch-function func_name method params result whole runs faithful =
        rw (whole, call_dispatch, if◌then◌else◌, runs)
          (ap (λ v. (ok v, dispatched func_name (Zval.string method) (to_zval params) ∷ []))
            (zval_to_value-value_to_zval as_f64 array_key to_string of_double result faithful))
