-- ===== src/Zts.antt =====
-- crates/folk-ext/src/zts.rs: the calls of the PHP engine. What its C functions answer is a record;
-- each wrapper also tells which of them it has called, in order. A C integer is a `Long`.
pub mod Calls
use Prim.Native.Char.{code}
use Prim.Native.String.{String as NativeString}
use folk_core.Base.{
  Option, ℕ, String, Bool, true, false, not, List, [], ◌∷◌, ◌==◌, if◌then◌else◌, ◌||◌,
}
use folk_core.Json.{Number, Value}
use folk_core.Zval.{Long, pos, negsuc, ArrayKey, Zval, value_to_zval, zval_to_value}

-- `folk_zts_call_dispatch` answers with its code and what it has left in `retval`.
pub record Ffi : Type 0 where
  pub is_enabled : Long
  pub request_startup : Long
  pub chdir : String → Long
  pub eval_string : String → Long
  pub execute_script : String → Long
  pub call_dispatch : String → Zval → Zval → Long × Zval

pub data FfiCall : Type 0 where
  thread_init thread_shutdown startup shutdown : FfiCall
  chdir_to evaluated executed : String → FfiCall
  dispatched : String → Zval → Zval → FfiCall

pub data ZtsError : Type 0 where
  null_byte : ZtsError
  engine_failed : Long → ZtsError

pub data Done {ℓ} (A : Type ℓ) : Type ℓ where
  ok : A → Done A
  err : ZtsError → Done A

-- A result, and the calls made for it.
abbrev pub Called {ℓ} : Type ℓ → Type ℓ
Called A = Done A × List FfiCall

abbrev pub is_zero : Long → Bool
is_zero (pos n) = n == 0
is_zero (negsuc n) = false

-- Whether `CString::new` fails.
unfoldable pub has_null_byte : String → Bool
has_null_byte NativeString.[] = false
has_null_byte (NativeString.◌∷◌ c s) = code c == 0 || has_null_byte s

-- The tests of a code: success is 0 for some of the functions, and anything but 0 for the others.
abbrev pub zero_is_ok : Long → Done (Unit {0})
zero_is_ok ret = if is_zero ret then ok tt else err (engine_failed ret)

abbrev pub zero_is_failure : Long → Done (Unit {0})
zero_is_failure ret = if is_zero ret then err (engine_failed ret) else ok tt

module _ (ffi : Ffi) where
  unfoldable pub chdir : String → Called (Unit {0})
  chdir path =
      if has_null_byte path
      then (err null_byte, [])
      else (zero_is_ok (ffi.chdir path), chdir_to path ∷ [])

  unfoldable pub is_zts : Bool
  is_zts = not (is_zero ffi.is_enabled)

  -- `ZtsThreadGuard::new`, and its drop.
  unfoldable pub guard_new : List FfiCall
  guard_new = thread_init ∷ []

  unfoldable pub guard_drop : List FfiCall
  guard_drop = thread_shutdown ∷ []

  unfoldable pub request_startup : Called (Unit {0})
  request_startup = (zero_is_ok ffi.request_startup, startup ∷ [])

  unfoldable pub request_shutdown : List FfiCall
  request_shutdown = shutdown ∷ []

  unfoldable pub eval_string : String → Called (Unit {0})
  eval_string text =
      if has_null_byte text
      then (err null_byte, [])
      else (zero_is_failure (ffi.eval_string text), evaluated text ∷ [])

  unfoldable pub execute_script : String → Called (Unit {0})
  execute_script filename =
      if has_null_byte filename
      then (err null_byte, [])
      else (zero_is_failure (ffi.execute_script filename), executed filename ∷ [])

  -- The parameters of the conversions. `set_string` does not fail on a text that is not persistent.
  module _ (as_f64 : Number → ℕ) (array_key : String → Option ArrayKey) (to_string : Long → String)
      (of_double : ℕ → Value) where
    unfoldable pub call_dispatch : String → String → Value → Called Value
    call_dispatch func_name method params =
        let params_zval = value_to_zval as_f64 array_key to_string of_double params in
        let (ret, retval) = ffi.call_dispatch func_name (Zval.string method) params_zval in
        if has_null_byte func_name then (err null_byte, []) else (
          if is_zero ret
              then ok (zval_to_value as_f64 array_key to_string of_double retval)
              else err (engine_failed ret),
          dispatched func_name (Zval.string method) params_zval ∷ [],
        )
