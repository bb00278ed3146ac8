-- ===== src/Runtime.antt =====
-- crates/folk-core/src/runtime.rs: the defaults of its traits, and the runtime for tests. The requests
-- that its workers have seen are behind a lock that they share with it; here they stand in the
-- runtime, which each call is given.
pub mod Numbered
pub mod Commands
use folk_core.Base.{
  ℕ, ◌+◌, ◌-◌, ◌%◌, ◌^◌, String, Bool, true, false, Option, none, some, List, [], ◌∷◌, ◌++◌, ◌==◌,
  ◌||◌, ltb, if◌then◌else◌,
}
use folk_core.Json.{Value}
use folk_core.Api.{ResponseChunk}
use folk_core.Slot.{Profile, debug, release}

-- A result of the traits, whose error is its text.
pub data Answer {ℓ} (A : Type ℓ) : Type ℓ where
  ok : A → Answer A
  err : String → Answer A

-- The methods with a default in the traits.
abbrev pub default_is_recyclable : Bool
default_is_recyclable = true

abbrev pub default_execute_streaming : Answer (Unit {0})
default_execute_streaming = err "execute_streaming not supported by this runtime"

abbrev pub default_warmup : Answer (Unit {0})
default_warmup = ok tt

abbrev pub default_reload : Answer (Unit {0})
default_reload = ok tt

pub record MockRuntime : Type 0 where
  pub responder : String → Value → Answer Value
  pub next_id : ℕ
  pub seen_ids : List String
  pub panic_slots : List ℕ

pub record MockWorker : Type 0 where
  pub id : ℕ
  pub terminated : Bool
  pub should_panic : Bool

unfoldable pub echo : MockRuntime
echo = record {
  responder = λ method payload. ok payload;
  next_id = 10000;
  seen_ids = [];
  panic_slots = [];
}

unfoldable pub with_panicking_slots : List ℕ → MockRuntime
with_panicking_slots indices = record {
  responder = λ method payload. ok payload;
  next_id = 10000;
  seen_ids = [];
  panic_slots = indices;
}

abbrev pub u32_mod : ℕ
u32_mod = 2 ^ 32

-- A difference of u32: `none` is the panic of a debug build.
abbrev pub sub_u32 : Profile → ℕ → ℕ → Option ℕ
sub_u32 debug m n = if ltb m n then none else some (m - n)
sub_u32 release m n = some ((m + u32_mod - n) % u32_mod)

unfoldable pub spawn_count : Profile → MockRuntime → Option ℕ
spawn_count p rt = sub_u32 p rt.next_id 10000

unfoldable pub seen_request_ids : MockRuntime → List String
seen_request_ids rt = rt.seen_ids

-- `HashSet::contains`
unfoldable pub contains : List ℕ → ℕ → Bool
contains [] i = false
contains (j ∷ js) i = j == i || contains js i

-- `none` is a panic, behind which the counter has gone on.
unfoldable pub spawn : Profile → MockRuntime → Option MockWorker × MockRuntime
spawn p rt =
    let counted = record rt { next_id = (rt.next_id + 1) % u32_mod } in
    elim (sub_u32 p rt.next_id 10000) [
      | none ↦ (none, counted)
      | some spawn_index ↦ (
        some (record {
          id = rt.next_id;
          terminated = false;
          should_panic = contains rt.panic_slots spawn_index;
        }),
        counted,
      )
    ]

-- `None` is a panic, as of `assert!`.
unfoldable pub execute :
    MockWorker → String → Value → String → MockRuntime → Option (Answer Value) × MockRuntime
execute w method payload request_id rt =
    if w.should_panic
    then (none, rt)
    else if w.terminated
    then (some (err "worker terminated"), rt)
    else (
      some (rt.responder method payload),
      record rt { seen_ids = rt.seen_ids ++ request_id ∷ [] },
    )

-- `folk_api::value_to_chunks` is the parameter; the chunks are those that are sent.
module _ (value_to_chunks : Value → List ResponseChunk) where
  abbrev pub streamed : Option (Answer Value) → Option (Answer (Unit {0})) × List ResponseChunk
  streamed none = (none, [])
  streamed (some (err e)) = (some (err e), [])
  streamed (some (ok value)) = (some (ok tt), value_to_chunks value)

  unfoldable pub execute_streaming :
      MockWorker
      → String
      → Value
      → String
      → MockRuntime
      → Option (Answer (Unit {0})) × List ResponseChunk × MockRuntime
  execute_streaming w method payload request_id rt =
      let (result, rt') = execute w method payload request_id rt in
      let (done, chunks) = streamed result in (done, chunks, rt')

unfoldable pub terminate : MockWorker → MockWorker
terminate w = record w { terminated = true }
