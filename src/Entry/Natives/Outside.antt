-- ===== src/Entry/Natives/Outside.antt =====
-- The functions that crates/folk-ext/src/lib.rs gives to PHP, called on a thread that is no worker.
use folk_core.Base.{◌≡◌, String, Bool, true, false, Option, none, List, [], is_some, not, ◌&&◌, ◌⊎◌}
use folk_core.Api.{Bytes, Headers}
use folk_core.Json.{Value}
use folk_core.Bridge.State.{TaskRequest, Bridge, not_in_worker}
use folk_core.Bridge.Dispatch.{Externals, Php}
use folk_core.Entry.{
  ℤ, folk_read, folk_part_read, folk_request_id, folk_write_head, u16_try_from, HeadResult, written,
  refused, from_bridge,
}
use folk_core.Entry.Natives.{
  PhpResult, returned, throws, folk_worker_ready, folk_is_worker_thread, folk_write_end,
  folk_read_all, folk_part_read_all, folk_worker_recv, folk_worker_send, folk_worker_send_error,
  folk_write, folk_next_part, folk_worker_run,
}

-- A call from PHP, without `folk_version` and `folk_call`, which do not reach the bridge.
pub data NativeCall : Type 0 where
  worker_ready worker_recv is_worker_thread request_id write_end read_all next_part part_read_all :
      NativeCall
  worker_send : Bytes → NativeCall
  worker_send_error : String → NativeCall
  write_head : Bool → ℤ → String → NativeCall
  write : Bool → String → NativeCall
  read part_read : ℤ → NativeCall
  worker_run : (TaskRequest → Php) → NativeCall

pub data NativeReply : Type 0 where
  nothing : PhpResult (Unit {0}) → NativeReply
  flag : PhpResult Bool → NativeReply
  received : PhpResult (Option (List Bytes)) → NativeReply
  head : HeadResult → NativeReply
  bytes : Bytes → NativeReply
  part : Option String → NativeReply
  text : String → NativeReply
  test : Bool → NativeReply

abbrev replied {ℓ} : {A : Type ℓ} → (A → NativeReply) → A × Bridge → NativeReply × Bridge
replied f (a, b) = (f a, b)

-- Whether a reply tells that the thread is no worker.
abbrev pub tells : NativeReply → Bool
tells (nothing (throws name not_in_worker)) = true
tells (flag (throws name not_in_worker)) = true
tells (received (throws name not_in_worker)) = true
tells (head (refused (from_bridge not_in_worker))) = true
tells (test t) = not t
tells _ = false

-- What a thread that is no worker gets.
abbrev pub IsRefusal : NativeReply → Type 0
IsRefusal (nothing (throws name e)) = e ≡ not_in_worker
IsRefusal (nothing (returned a)) = ⊥
IsRefusal (flag (throws name e)) = e ≡ not_in_worker
IsRefusal (flag (returned a)) = ⊥
IsRefusal (received (throws name e)) = e ≡ not_in_worker
IsRefusal (received (returned a)) = ⊥
IsRefusal (head written) = ⊥
IsRefusal (head (refused e)) = Unit
IsRefusal (bytes b) = b ≡ []
IsRefusal (part o) = o ≡ none
IsRefusal (text t) = t ≡ ""
IsRefusal (test t) = t ≡ false

module _ (into_bytes : String → Bytes) (to_vec : Value → Bytes) (x : Externals)
    (parse_headers : String → Option Headers) where
  unfoldable pub native : NativeCall → Bridge → NativeReply × Bridge
  native worker_ready b = replied flag (folk_worker_ready b)
  native worker_recv b = replied received (folk_worker_recv into_bytes to_vec b)
  native is_worker_thread b = (test (folk_is_worker_thread b), b)
  native request_id b = (text (folk_request_id b), b)
  native write_end b = replied nothing (folk_write_end b)
  native read_all b = replied bytes (folk_read_all b)
  native next_part b = replied part (folk_next_part x b)
  native part_read_all b = replied bytes (folk_part_read_all b)
  native (worker_send result) b = replied nothing (folk_worker_send x result b)
  native (worker_send_error message) b = replied nothing (folk_worker_send_error x message b)
  native (write_head reached status headers_json) b =
      replied head (folk_write_head parse_headers reached status headers_json b)
  native (write reached chunk) b = replied nothing (folk_write into_bytes reached chunk b)
  native (read length) b = replied bytes (folk_read length b)
  native (part_read length) b = replied bytes (folk_part_read length b)
  native (worker_run handler) b = replied nothing (folk_worker_run x handler b)

  -- Whether a call comes to the look at the thread's state, and can tell what it finds: the functions
  -- that read only give something empty, and a head is looked at first.
  abbrev pub looks : NativeCall → Bool
  looks request_id = false
  looks read_all = false
  looks next_part = false
  looks part_read_all = false
  looks (read length) = false
  looks (part_read length) = false
  looks (write_head reached status headers_json) =
      is_some (parse_headers headers_json) && is_some (u16_try_from status)
  looks _ = true

  -- What a call says of the thread, and that it does nothing where there is no worker.
  abbrev pub Tells : NativeCall → Bridge → Type 0
  Tells c b =
      (tells (native c b).0 ≡ (looks c && not (is_some b.worker)))
      × ((is_some b.worker ≡ true) ⊎ (IsRefusal (native c b).0 × ((native c b).1 ≡ b)))
