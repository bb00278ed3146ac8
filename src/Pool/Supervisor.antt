-- ===== src/Pool/Supervisor.antt =====
-- `slot_supervisor` and `boot_worker` of crates/folk-core/src/worker_pool.rs: the task that owns one
-- slot. One iteration of its loop is a function of the supervisor's locals and of a `Round`, which
-- holds what the iteration finds in its environment; log lines are left out.
pub mod Invariant
pub mod Freshness
pub mod Balance
pub mod Reloads
pub mod Turns
pub mod Served
pub mod Refines
use folk_core.Base.{
  ℕ, Bool, true, false, Option, none, some, List, [], ◌∷◌, ◌++◌, ltb, ◌==◌, not, ◌&&◌, ◌||◌,
  if◌then◌else◌,
}
use folk_core.Config.{WorkersConfig}
use folk_core.Slot.{SlotInfo, Profile, new, should_recycle, mark_ready, mark_busy, mark_idle}

-- A `Box<dyn WorkerHandle>` as the supervisor sees it: `id()` and `is_recyclable()`.
pub record Handle : Type 0 where
  pub id : ℕ
  pub recyclable : Bool

-- How `tokio::time::timeout(boot_timeout, handle.ready())` ends.
pub data Ready : Type 0 where
  ready_ok ready_err ready_timeout : Ready

-- What `runtime.spawn()` and `ready()` answer.
pub record Boot : Type 0 where
  pub spawn : Option Handle
  pub ready : Ready

pub data Message : Type 0 where
  request : ℕ → Message
  inbox_closed : Message

-- How `tokio::time::timeout(exec_timeout, w.execute_streaming(…))` ends.
pub data Exec : Type 0 where
  exec_ok exec_err exec_timeout exec_panic : Exec

-- What an iteration does to the outside. `executed` also notes the reload generation at which the
-- worker was booted and the one that the `select!` saw when it took the request.
pub data Effect : Type 0 where
  spawned : ℕ → Effect
  terminated : ℕ → Effect
  received : ℕ → Effect
  executed : Handle → ℕ → ℕ → ℕ → Effect
  released : ℕ → Effect
  slept : Effect

-- The generations are what the reload channel holds when the iteration reads it.
pub record Round : Type 0 where
  pub boot_seen : ℕ
  pub boot : Boot
  pub poll_seen : ℕ
  pub sender_dropped : Bool
  pub borrow_seen : ℕ
  pub message : Message
  pub exec : Exec
  pub done_seen : ℕ
  pub now : ℕ

-- The locals of the task; `seen` is the version that `reload_rx` has marked as seen.
pub record Supervisor : Type 0 where
  pub slot : SlotInfo
  pub worker : Option Handle
  pub boot_generation : ℕ
  pub seen : ℕ

pub data Outcome : Type 0 where
  continues : Supervisor → Outcome
  returns panics : Outcome

abbrev pub Traced : Type 0
Traced = Outcome × List Effect

pub data Booted : Type 0 where
  boots : Handle → SlotInfo → Booted
  fails boot_panics : Booted

-- The part of `boot_worker` behind `timeout.await`.
await_ready : Profile → Handle → SlotInfo → Ready → Booted × List Effect
await_ready p h slot ready_ok = elim (mark_ready p h.id slot) [
  | none ↦ (boot_panics, spawned h.id ∷ [])
  | some slot' ↦ (boots h slot', spawned h.id ∷ [])
]
await_ready p h slot ready_err = (fails, spawned h.id ∷ terminated h.id ∷ [])
await_ready p h slot ready_timeout = (fails, spawned h.id ∷ terminated h.id ∷ [])

unfoldable pub boot_worker : Profile → Boot → SlotInfo → Booted × List Effect
unfolding await_ready
boot_worker p b slot = elim b.spawn [ none ↦ (fails, []) | some h ↦ await_ready p h slot b.ready ]

-- The recycle decision at the end of the loop body.
after_request : WorkersConfig → Round → Handle → Supervisor → Traced
after_request cfg r h s =
    if ltb s.boot_generation r.done_seen || should_recycle cfg r.now s.slot
    then if not h.recyclable
      then (continues s, [])
      else (continues (record s { worker = none; slot = new r.now }), terminated h.id ∷ [])
    else (continues s, [])

-- `drop(permit)` follows the call; a panic of the call drops the permit by unwinding.
dispatch : Profile → WorkersConfig → Round → Handle → ℕ → Supervisor → Traced
unfolding after_request
dispatch p cfg r h q s = elim (mark_busy p s.slot) [
  | none ↦ (panics, received q ∷ released q ∷ [])
  | some busy ↦
      let call = executed h s.boot_generation r.poll_seen q in
      let finish : Traced = elim (mark_idle p busy) [
        | none ↦ (panics, [])
        | some idle ↦ after_request cfg r h (record s { slot = idle })
      ] in
      let rest : Traced = elim r.exec [ exec_panic ↦ (panics, []) | _ ↦ finish ] in
      (rest.0, received q ∷ call ∷ released q ∷ rest.1)
]

-- The reload branch of the `select!`, where `changed()` has returned `Ok`.
on_reload : Round → Handle → Supervisor → Traced
on_reload r h s =
    if ltb s.boot_generation r.borrow_seen
    then (
      continues (record s { worker = none; slot = new r.now; seen = r.poll_seen }),
      terminated h.id ∷ [],
    )
    else (continues (record s { seen = r.poll_seen }), [])

-- The `select!`: biased to the reload channel, which only a recyclable worker polls. `changed()`
-- reports a new version before it reports a dropped sender.
unfoldable pub serve : Profile → WorkersConfig → Round → Handle → Supervisor → Traced
unfolding dispatch on_reload
serve p cfg r h s =
    if h.recyclable && not (r.poll_seen == s.seen)
    then on_reload r h s
    else if h.recyclable && r.sender_dropped
    then (returns, terminated h.id ∷ [])
    else elim r.message [
      | inbox_closed ↦ (returns, terminated h.id ∷ [])
      | request q ↦ dispatch p cfg r h q s
    ]

-- An iteration that has to boot a worker first.
unfoldable pub boot_and_serve : Profile → WorkersConfig → Round → Supervisor → Traced
boot_and_serve p cfg r s =
    let s' = record s { boot_generation = r.boot_seen } in
    let (booted, effects) = boot_worker p r.boot s.slot in
    elim booted [
      | fails ↦ (continues s', effects ++ slept ∷ [])
      | boot_panics ↦ (panics, effects)
      | boots h slot ↦
          let rest = serve p cfg r h (record s' { worker = some h; slot = slot }) in
          (rest.0, effects ++ rest.1)
    ]

-- One iteration of the `loop`.
unfoldable pub iteration : Profile → WorkersConfig → Round → Supervisor → Traced
iteration p cfg r s = elim s.worker [ none ↦ boot_and_serve p cfg r s | some h ↦ serve p cfg r h s ]

-- What follows an iteration: the next one, or the end of the task.
abbrev proceed : Outcome → List Effect → (Supervisor → Traced) → Traced
proceed (continues s) effects next = let rest = next s in (rest.0, effects ++ rest.1)
proceed returns effects next = (returns, effects)
proceed panics effects next = (panics, effects)

-- The loop over the rounds that its environment offers.
unfoldable pub run : Profile → WorkersConfig → List Round → Supervisor → Traced
run p cfg [] s = (continues s, [])
run p cfg (r ∷ rs) s = let step = iteration p cfg r s in proceed step.0 step.1 (run p cfg rs)

-- The locals before the loop, on a receiver that has seen generation `g`.
unfoldable pub start : ℕ → ℕ → Supervisor
unfolding new
start g now = record { slot = new now; worker = none; boot_generation = g; seen = g }
