-- ===== src/Entry/Natives.antt =====
-- The functions of crates/folk-ext/src/lib.rs that hand over to the bridge. An exception is the name
-- in front of its text, and the bridge's error. `String::into_bytes` is a parameter.
pub mod Outside
use folk_core.Base.{String, Bool, Option, none, some, List, [], ◌∷◌}
use folk_core.Api.{Bytes}
use folk_core.Json.{Value}
use folk_core.Bridge.State.{
  TaskRequest, Bridge, BridgeError, Result, ok, err, do_ready, do_recv, has_worker_state,
}
use folk_core.Bridge.Response.{do_send, do_send_error, do_write, do_write_end}
use folk_core.Bridge.Body.{do_read_all}
use folk_core.Bridge.Multipart.{do_next_part, do_part_read_all}
use folk_core.Bridge.Dispatch.{Externals, Php, run_dispatch_loop}

pub data PhpResult {ℓ} (A : Type ℓ) : Type ℓ where
  returned : A → PhpResult A
  throws : String → BridgeError → PhpResult A

-- `map_err(|e| PhpException::default(format!("name: {e}")))`
abbrev pub or_throw {ℓ} : {A : Type ℓ} → String → Result A × Bridge → PhpResult A × Bridge
or_throw name (ok a, b) = (returned a, b)
or_throw name (err e, b) = (throws name e, b)

unfoldable pub folk_worker_ready : Bridge → PhpResult Bool × Bridge
folk_worker_ready b = or_throw "folk_worker_ready" (do_ready b)

unfoldable pub folk_is_worker_thread : Bridge → Bool
folk_is_worker_thread b = has_worker_state b

unfoldable pub folk_write_end : Bridge → PhpResult (Unit {0}) × Bridge
folk_write_end b = or_throw "folk_write_end" (do_write_end b)

unfoldable pub folk_read_all : Bridge → Bytes × Bridge
folk_read_all b = do_read_all b

unfoldable pub folk_part_read_all : Bridge → Bytes × Bridge
folk_part_read_all b = do_part_read_all b

unfoldable pub folk_write :
    (String → Bytes) → Bool → String → Bridge → PhpResult (Unit {0}) × Bridge
folk_write into_bytes received text b =
    or_throw "folk_write" (do_write received (into_bytes text) b)

module _ (into_bytes : String → Bytes) (to_vec : Value → Bytes) where
  abbrev pub packed : Option (String × Bytes) → Option (List Bytes)
  packed none = none
  packed (some (method, payload)) = some (into_bytes method ∷ payload ∷ [])

  unfoldable pub folk_worker_recv : Bridge → PhpResult (Option (List Bytes)) × Bridge
  folk_worker_recv b =
      let (result, b') = do_recv to_vec b in
      elim result [
        | ok received ↦ (returned (packed received), b')
        | err e ↦ (throws "folk_worker_recv" e, b')
      ]

module _ (x : Externals) where
  unfoldable pub folk_worker_send : Bytes → Bridge → PhpResult (Unit {0}) × Bridge
  folk_worker_send result b =
      or_throw "folk_worker_send" (do_send x.new_error x.from_slice result b)

  unfoldable pub folk_worker_send_error : String → Bridge → PhpResult (Unit {0}) × Bridge
  folk_worker_send_error message b =
      or_throw "folk_worker_send_error" (do_send_error x.new_error message b)

  unfoldable pub folk_next_part : Bridge → Option String × Bridge
  folk_next_part b = do_next_part x.to_string b

  unfoldable pub folk_worker_run : (TaskRequest → Php) → Bridge → PhpResult (Unit {0}) × Bridge
  folk_worker_run handler b = or_throw "folk_worker_run" (run_dispatch_loop x handler b)
