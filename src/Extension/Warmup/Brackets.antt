-- ===== src/Extension/Warmup/Brackets.antt =====
-- Each thread of crates/folk-ext/src that uses the PHP engine registers with it, and closes what it
-- has opened: the warm-up of runtime.rs, and the workers of worker.rs.
use folk_core.Base.{
  ℕ, ◌≡◌, refl, String, Bool, Option, none, some, List, [], ◌∷◌, map, Bool-cases, inl, inr,
  if◌then◌else◌, Option-cases,
}
use folk_core.Bridge.State.{TaskRequest, Bridge}
use folk_core.Zts.{
  Ffi, FfiCall, thread_init, thread_shutdown, startup, shutdown, chdir_to, evaluated, executed,
  dispatched, is_zero, is_zts, has_null_byte, guard_new, guard_drop, request_startup,
  request_shutdown, eval_string,
}
use folk_core.Extension.Thread.{
  EngineCall, registered, request_started, script_executed, request_shut_down, freed, Engine,
  run_zts_worker,
}
use folk_core.Extension.Warmup.{Files, warmup_code, warmup_thread, warmup}

-- Where a thread stands: not registered, registered, or in a request.
pub data Stage : Type 0 where
  unregistered idle in_request : Stage

-- The stage after a call, if the engine allows the call; `starts` says whether a request starts.
abbrev pub after_call : Bool → Stage → FfiCall → Option Stage
after_call starts unregistered thread_init = some idle
after_call starts idle startup = if starts then some in_request else some idle
after_call starts idle thread_shutdown = some unregistered
after_call starts in_request shutdown = some idle
after_call starts in_request (chdir_to path) = some in_request
after_call starts in_request (evaluated text) = some in_request
after_call starts in_request (executed filename) = some in_request
after_call starts in_request (dispatched name method params) = some in_request
after_call _ _ _ = none

pub stages : Bool → Stage → List FfiCall → Option Stage
stages starts s [] = some s
stages starts s (c ∷ cs) = elim (after_call starts s c) [
  | none ↦ none
  | some s' ↦ stages starts s' cs
]

-- The engine's calls of a worker's thread, with its script.
abbrev pub ffi_call : String → EngineCall → FfiCall
ffi_call script registered = thread_init
ffi_call script request_started = startup
ffi_call script script_executed = executed script
ffi_call script request_shut_down = shutdown
ffi_call script freed = thread_shutdown

warmup_thread-stages :
    (ffi : Ffi) (text : String)
    → stages (is_zero ffi.request_startup) unregistered (warmup_thread ffi text) ≡ some unregistered
unfolding warmup_thread request_startup guard_new guard_drop request_shutdown eval_string stages
warmup_thread-stages ffi text = elim (Bool-cases (is_zero ffi.request_startup)) [
  | inr e ↦ rw (e, warmup_thread, request_startup, if◌then◌else◌) refl
  | inl e ↦ elim (Bool-cases (has_null_byte text)) [
    | inl e' ↦ rw (e, e', warmup_thread, request_startup, eval_string, if◌then◌else◌) refl
    | inr e' ↦ rw (e, e', warmup_thread, request_startup, eval_string, if◌then◌else◌) refl
  ]
]

warmup-stages :
    (ffi : Ffi) (files : Files)
    → stages (is_zero ffi.request_startup) unregistered (warmup ffi files).1 ≡ some unregistered
unfolding warmup stages
warmup-stages ffi files = elim (Bool-cases (is_zts ffi)) [
  | inr e ↦ rw (e, warmup, if◌then◌else◌) refl
  | inl e ↦ elim (Option-cases files.current_dir) [
    | inl d ↦ rw (e, d, warmup, if◌then◌else◌) refl
    | inr (dir, d) ↦ elim (Bool-cases (files.exists (files.classmap_path dir))) [
      | inr f ↦ rw (e, d, f, warmup, if◌then◌else◌) refl
      | inl f ↦
          rw (e, d, f, warmup, if◌then◌else◌)
            (warmup_thread-stages ffi (warmup_code (files.classmap_path dir)))
    ]
  ]
]

-- Whatever the engine answers, the thread of the warm-up and the thread of a worker call it in an
-- order that it allows: they register first, run PHP only in a request that has started, end the
-- request that they have started, and free their context last.
pub run_zts_worker-stages :
    (ffi : Ffi) (files : Files) (engine : Engine) (worker_id : ℕ) (script : String)
    (task_rx : List TaskRequest) (b : Bridge)
    → (stages (is_zero ffi.request_startup) unregistered (warmup ffi files).1 ≡ some unregistered)
      × (stages engine.request_startup unregistered
            (map (ffi_call script) (run_zts_worker engine worker_id task_rx b).0)
          ≡ some unregistered)
unfolding run_zts_worker stages
run_zts_worker-stages ffi files engine worker_id script task_rx b = (
  warmup-stages ffi files,
  elim (Bool-cases engine.request_startup) [
    | inl e ↦ rw (e, run_zts_worker, if◌then◌else◌) refl
    | inr e ↦ rw (e, run_zts_worker, if◌then◌else◌) refl
  ],
)
