-- ===== src/Slot.antt =====
-- crates/folk-core/src/worker_slot.rs: the state of one worker slot. An `Instant` is a number of
-- nanoseconds; the clock is an argument of what reads it.
pub mod Lifecycle
use folk_core.Base.{
  ℕ, ◌+◌, ◌-◌, ◌%◌, ◌^◌, Bool, true, false, Option, none, some, ltb, leb, ◌>>=◌, ◌>>◌,
  if◌then◌else◌, ◌||◌,
}
use folk_core.Config.{WorkersConfig}

pub data SlotState : Type 0 where
  spawning idle busy stopping dead : SlotState

pub record SlotInfo : Type 0 where
  pub state : SlotState
  pub pid : Option ℕ
  pub jobs_handled : ℕ  -- u64
  pub created_at : ℕ

-- Whether the crate is built with `debug_assertions` and overflow checks.
pub data Profile : Type 0 where
  debug release : Profile

-- `matches!(state, …)`
abbrev pub is_spawning : SlotState → Bool
is_spawning SlotState.spawning = true
is_spawning _ = false

abbrev pub is_idle : SlotState → Bool
is_idle SlotState.idle = true
is_idle _ = false

abbrev pub is_busy : SlotState → Bool
is_busy SlotState.busy = true
is_busy _ = false

abbrev pub is_stopping : SlotState → Bool
is_stopping SlotState.stopping = true
is_stopping _ = false

-- `debug_assert!`; `none` is a panic.
abbrev pub debug_assert : Profile → Bool → Option (Unit {0})
debug_assert release test = some tt
debug_assert debug true = some tt
debug_assert debug false = none

abbrev pub u64_mod : ℕ
u64_mod = 2 ^ 64

-- `n += 1` on a u64: a panic on overflow in a debug build, wrap-around in a release build.
abbrev pub add_one_u64 : Profile → ℕ → Option ℕ
add_one_u64 release n = some ((n + 1) % u64_mod)
add_one_u64 debug n = if ltb (n + 1) u64_mod then some (n + 1) else none

-- `SlotInfo::new`
unfoldable pub new : ℕ → SlotInfo
new now = record { state = SlotState.spawning; pid = none; jobs_handled = 0; created_at = now }

-- `Instant::elapsed` saturates at zero, as `-` does here.
unfoldable pub should_recycle : WorkersConfig → ℕ → SlotInfo → Bool
should_recycle cfg now s =
    if leb cfg.max_jobs s.jobs_handled
    then true
    else if leb cfg.ttl (now - s.created_at)
    then true
    else false

unfoldable pub mark_ready : Profile → ℕ → SlotInfo → Option SlotInfo
mark_ready p pid s = do
  debug_assert p (is_spawning s.state)
  some (record s { state = SlotState.idle; pid = some pid })

unfoldable pub mark_busy : Profile → SlotInfo → Option SlotInfo
mark_busy p s = do debug_assert p (is_idle s.state); some (record s { state = SlotState.busy })

unfoldable pub mark_idle : Profile → SlotInfo → Option SlotInfo
mark_idle p s = do
  debug_assert p (is_busy s.state || is_stopping s.state)
  n ← add_one_u64 p s.jobs_handled
  some (record s { jobs_handled = n; state = if is_busy s.state then SlotState.idle else s.state })

unfoldable pub mark_dead : SlotInfo → SlotInfo
mark_dead s = record s { state = SlotState.dead }

unfoldable pub request_stop : SlotInfo → SlotInfo
request_stop s =
    if is_idle s.state || is_busy s.state then record s { state = SlotState.stopping } else s
