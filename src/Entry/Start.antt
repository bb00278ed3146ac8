-- ===== src/Entry/Start.antt =====
-- `start_server`, `call_method`, the statics and the class `Folk\Server` of crates/folk-ext/src/lib.rs.
-- A static is what its `OnceLock` holds; an `Arc<InProcessRegistry>` is its place among the registries
-- of the process. Log lines are left out.
pub mod Once
use folk_core.Base.{
  ℕ, String, Option, none, some, List, [], ◌∷◌, ◌++◌, length, get_elem?, set, is_some,
}
use folk_core.Api.{Bytes}
use folk_core.Config.{FolkConfig, WorkersConfig}
use folk_core.Config.Layers.{Figment, load_from}
use folk_core.Plugins.{Plugin}
use folk_core.Server.{FolkServer, set_rpc_registrar, register_plugin}
use folk_core.Server
use folk_core.Registries.{HashMap, Answer, register_raw}
use folk_core.Registries
use folk_core.Bridge.State.{TaskRequest, Bridge, init_worker_state}
use folk_core.Extension.Handle.{WorkerTxSide}

abbrev pub Handlers : Type 0
Handlers = HashMap (Bytes → Answer)

pub record Statics : Type 0 where
  pub registry : Option ℕ
  pub tokio_handle : Option ℕ
  pub project_root : Option String
  pub zts_workers : Option (List ℕ)

-- The statics, the registries, and the bridge of the main thread.
pub record Host : Type 0 where
  pub statics : Statics
  pub registries : List Handlers
  pub bridge : Bridge

abbrev pub unset : Statics
unset = record { registry = none; tokio_handle = none; project_root = none; zts_workers = none }

-- `OnceLock::set`, whose error the code drops.
abbrev pub set_once {ℓ} : {A : Type ℓ} → Option A → A → Option A
set_once none a = some a
set_once (some b) a = some b

abbrev pub or_empty : Option (List ℕ) → List ℕ
or_empty none = []
or_empty (some hs) = hs

unfoldable pub register_zts_worker : ℕ → Statics → Statics
register_zts_worker handle st = record st {
  zts_workers = some (or_empty st.zts_workers ++ handle ∷ []);
}

-- The handles that are joined.
unfoldable pub join_zts_workers : Statics → List ℕ × Statics
join_zts_workers st = elim st.zts_workers [
  | none ↦ ([], st)
  | some handles ↦ (handles, record st { zts_workers = some [] })
]

-- How the thread `folk-tokio` starts: the operating system refuses it; it panics because no tokio
-- runtime can be built; or it runs, with the handle of its runtime.
pub data ThreadStart : Type 0 where
  not_spawned no_runtime : ThreadStart
  running : ℕ → ThreadStart

-- What `start_server` finds: the current directory, both sides of the main worker's channels, and
-- the thread.
pub record StartEnv : Type 0 where
  pub current_dir : Option String
  pub task_rx : List TaskRequest
  pub side : WorkerTxSide
  pub thread : ThreadStart

-- What the thread runs: the arguments of `ExtensionRuntime::new`, and the server.
pub record Launch : Type 0 where
  pub workers_config : WorkersConfig
  pub tx_sides : List WorkerTxSide
  pub server : FolkServer

-- A thread that panics never comes to the barrier, where `start_server` waits for it.
pub data Started : Type 0 where
  no_current_dir thread_error hangs : Started
  started : Launch → Started

unfoldable pub register_plugins : List Plugin → FolkServer → FolkServer
register_plugins [] server = server
register_plugins (p ∷ plugins) server = register_plugins plugins (register_plugin server p)

-- The body of the thread up to `run`, with the number of the registry.
unfoldable pub launch : FolkConfig → List Plugin → WorkerTxSide → ℕ → Launch
launch config plugins side registry = record {
  workers_config = config.workers;
  tx_sides = side ∷ [];
  server = register_plugins plugins (set_rpc_registrar (Server.new config) registry);
}

unfoldable pub start_server : StartEnv → FolkConfig → List Plugin → Host → Started × Host
start_server env config plugins h = elim env.current_dir [
  | none ↦ (no_current_dir, h)
  | some cwd ↦
      let registry = length h.registries in
      let st = record h.statics {
        project_root = set_once h.statics.project_root cwd;
        registry = set_once h.statics.registry registry;
      } in
      let h' = record h {
        statics = st;
        registries = h.registries ++ [] ∷ [];
        bridge = init_worker_state 1 env.task_rx h.bridge;
      } in
      elim env.thread [
        | not_spawned ↦ (thread_error, h')
        | no_runtime ↦ (hangs, h')
        | running handle ↦ (
          started (launch config plugins env.side registry),
          record h' { statics = record st { tokio_handle = set_once st.tokio_handle handle } },
        )
      ]
]

pub data CallResult : Type 0 where
  server_not_started runtime_not_available : CallResult
  called : Answer → CallResult

abbrev handlers_of : List Handlers → ℕ → Handlers
handlers_of registries r = elim (get_elem? registries r) [ none ↦ [] | some m ↦ m ]

unfoldable pub call_method : Host → String → Bytes → CallResult
call_method h method payload = elim h.statics.registry [
  | none ↦ server_not_started
  | some r ↦ elim h.statics.tokio_handle [
    | none ↦ runtime_not_available
    | some handle ↦ called (Registries.call (handlers_of h.registries r) method payload)
  ]
]

-- What `folk_call` answers to PHP: bytes, or an exception.
pub data PhpAnswer : Type 0 where
  bytes : Bytes → PhpAnswer
  exception : CallResult → PhpAnswer

abbrev pub to_php : CallResult → PhpAnswer
to_php (called (Answer.answered result)) = bytes result
to_php result = exception result

unfoldable pub folk_call : Host → String → Bytes → PhpAnswer
folk_call h method payload = to_php (call_method h method payload)

-- A plugin registers a handler with the registrar that its server was given.
unfoldable pub register_method : FolkServer → String → (Bytes → Answer) → Host → Host
register_method server name handler h = elim server.rpc_registrar [
  | none ↦ h
  | some r ↦ record h {
    registries = set h.registries r (register_raw name handler (handlers_of h.registries r));
  }
]

-- `Server::start` of PHP, on the server's configuration path.
pub data PhpStart : Type 0 where
  config_error : PhpStart
  start_result : Started → PhpStart

unfoldable pub start : StartEnv → Figment → String → Host → PhpStart × Host
start env fig config_path h = elim (load_from fig config_path) [
  | none ↦ (config_error, h)
  | some config ↦ let (result, h') = start_server env config [] h in (start_result result, h')
]
