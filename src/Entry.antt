-- ===== src/Entry.antt =====
-- The functions of crates/folk-ext/src/lib.rs that PHP calls, where they do more than hand over to
-- the bridge: the lengths of `folk_read` and `folk_part_read`, and the head of `folk_write_head`.
pub mod Reads
pub mod Correlation
pub mod Start
pub mod Natives
use folk_core.Base.{
  ℕ, suc, zero, ◌+◌, ◌^◌, String, Bool, Option, none, some, List, [], ◌∷◌, ltb, if◌then◌else◌,
}
use folk_core.Api.{Bytes, Headers}
use folk_core.Bridge.State.{Bridge, Result, ok, err, BridgeError, current_request_id}
use folk_core.Bridge.Response.{or_text, do_write_head}
use folk_core.Bridge.Body.{do_read}
use folk_core.Bridge.Multipart.{do_part_read}

-- An i64: `negsuc n` is -(n + 1).
pub data ℤ : Type 0 where
  pos : ℕ → ℤ
  negsuc : ℕ → ℤ

-- `usize::try_from` keeps every positive i64 where a usize has 64 bits.
unfoldable pub chunk_length : ℤ → ℕ
chunk_length (pos zero) = 8192
chunk_length (pos (suc n)) = suc n
chunk_length (negsuc n) = 8192

unfoldable pub folk_read : ℤ → Bridge → Bytes × Bridge
folk_read length b = do_read (chunk_length length) b

unfoldable pub folk_part_read : ℤ → Bridge → Bytes × Bridge
folk_part_read length b = do_part_read (chunk_length length) b

-- `unwrap_or_default`: the empty text where no request is handled.
unfoldable pub folk_request_id : Bridge → String
folk_request_id b = or_text (current_request_id b) ""

-- `u16::try_from`
unfoldable pub u16_try_from : ℤ → Option ℕ
u16_try_from (pos n) = if ltb n (2 ^ 16) then some n else none
u16_try_from (negsuc n) = none

-- Why a head is refused.
pub data HeadError : Type 0 where
  invalid_headers invalid_status : HeadError
  from_bridge : BridgeError → HeadError

pub data HeadResult : Type 0 where
  written : HeadResult
  refused : HeadError → HeadResult

abbrev pub of_bridge : Result (Unit {0}) → HeadResult
of_bridge (ok u) = written
of_bridge (err e) = refused (from_bridge e)

-- `serde_json::from_str` into a map of texts is the parameter.
module _ (parse_headers : String → Option Headers) where
  unfoldable pub folk_write_head : Bool → ℤ → String → Bridge → HeadResult × Bridge
  folk_write_head received status headers_json b = elim (parse_headers headers_json) [
    | none ↦ (refused invalid_headers, b)
    | some headers ↦ elim (u16_try_from status) [
      | none ↦ (refused invalid_status, b)
      | some status_u16 ↦
          let (result, b') = do_write_head received status_u16 headers b in (of_bridge result, b')
    ]
  ]
