-- ===== src/Entry/Start/Once.antt =====
-- What `folk_call` of crates/folk-ext/src/lib.rs reaches after `start_server`.
use folk_core.Base.{
  ℕ, zero, suc, ◌≡◌, refl, sym, ap, ◌∙◌, String, Option, none, some, List, [], ◌∷◌, ◌++◌, length,
  get_elem?, set, arith, append-nil, append_assoc, ◌<◌, set-set, set_self, get_elem?-set,
  get_elem?-set_other,
}
use folk_core.Api.{Bytes}
use folk_core.Config.{FolkConfig}
use folk_core.Plugins.{Plugin}
use folk_core.Plugins
use folk_core.Server.{FolkServer, set_rpc_registrar, register_plugin}
use folk_core.Server
use folk_core.Registries
use folk_core.Bridge.State.{init_worker_state}
use folk_core.Extension.Handle.{WorkerTxSide}
use folk_core.Registries.{Answer, register_raw}
use folk_core.Registries.Lookup.{register_all, last_of, answer_of, call-register_all}
use folk_core.Entry.Start.{
  set_once, Handlers, Host, StartEnv, running, Launch, started, register_plugins, launch,
  start_server, called, handlers_of, call_method, register_method,
}

-- The handlers that the plugins of a server register, in order.
pub register_methods : FolkServer → List (String × (Bytes → Answer)) → Host → Host
register_methods server [] h = h
register_methods server ((name, handler) ∷ rest) h =
    register_methods server rest (register_method server name handler h)

-- Plugins do not change which registry a server has.
register_plugins-registrar :
    (plugins : List Plugin) (server : FolkServer)
    → (register_plugins plugins server).rpc_registrar ≡ server.rpc_registrar
unfolding register_plugins register_plugin
register_plugins-registrar [] server = refl
register_plugins-registrar (p ∷ plugins) server =
    register_plugins-registrar plugins (register_plugin server p)

-- The server has the plugins behind those that it had, in the order given, and its configuration.
register_plugins-plugins :
    (plugins : List Plugin) (server : FolkServer)
    → ((register_plugins plugins server).plugins.plugins ≡ server.plugins.plugins ++ plugins)
      × ((register_plugins plugins server).config ≡ server.config)
unfolding register_plugins register_plugin Plugins.register
register_plugins-plugins [] server = (sym (append-nil server.plugins.plugins), refl)
register_plugins-plugins (p ∷ plugins) server =
    let (same, kept) = register_plugins-plugins plugins (register_plugin server p) in
    (same ∙ append_assoc server.plugins.plugins (p ∷ []) plugins, kept)

get-last : (ms : List Handlers) (m : Handlers) → get_elem? (ms ++ m ∷ []) (length ms) ≡ some m
get-last [] m = refl
get-last (k ∷ ms) m = get-last ms m

get-earlier :
    (ms : List Handlers) (m : Handlers) (r : ℕ)
    → r < length ms
    → get_elem? (ms ++ m ∷ []) r ≡ get_elem? ms r
get-earlier [] m r lt = absurd (omega (arith, lt))
get-earlier (k ∷ ms) m zero lt = refl
get-earlier (k ∷ ms) m (suc r) lt = get-earlier ms m r (omega (arith, lt))

-- The registrations of a server fill its registry, and leave the others and the statics alone.
module _ (server : FolkServer) (r : ℕ) (holds : server.rpc_registrar ≡ some r) where
  registered :
      (entries : List (String × (Bytes → Answer))) (h : Host) (m : Handlers)
      → get_elem? h.registries r ≡ some m
      → register_methods server entries h
        ≡ record h { registries = set h.registries r (register_all entries m) }
  unfolding register_methods register_method register_all
  registered [] h m at =
      ap {A = List Handlers} {B = Host} (λ ms. record h { registries = ms })
        (sym (set_self h.registries r m at))
  registered ((name, handler) ∷ rest) h m at =
      ap (register_methods server rest) one
      ∙ registered rest (record h { registries = set h.registries r (register_raw name handler m) })
          (register_raw name handler m) (get_elem?-set h.registries r _ m at)
      ∙ ap {A = List Handlers} {B = Host} (λ ms. record h { registries = ms })
          (set-set h.registries r _ _)
    where
      one :
          register_method server name handler h
          ≡ record h { registries = set h.registries r (register_raw name handler m) }
      one = rw (holds, register_method, at, handlers_of) refl

-- The registrar of the server that a start has launched.
launch-registrar :
    (config : FolkConfig) (plugins : List Plugin) (side : WorkerTxSide) (r : ℕ)
    → (launch config plugins side r).server.rpc_registrar ≡ some r
unfolding launch set_rpc_registrar
launch-registrar config plugins side r =
    register_plugins-registrar plugins (set_rpc_registrar (Server.new config) r)

call_method-called :
    (h : Host) (r handle : ℕ) (m : Handlers) (method : String) (payload : Bytes)
    → h.statics.registry ≡ some r
    → h.statics.tokio_handle ≡ some handle
    → get_elem? h.registries r ≡ some m
    → call_method h method payload ≡ called (Registries.call m method payload)
unfolding call_method
call_method-called h r handle m method payload e e' at =
    rw (e, e', call_method, at, handlers_of) refl

-- What a `OnceLock` holds after `set`.
abbrev kept : {A : Type 0} → Option A → A → A
kept none a = a
kept (some b) a = b

set_once-kept : {A : Type 0} → (o : Option A) (a : A) → set_once o a ≡ some (kept o a)
set_once-kept none a = refl
set_once-kept (some b) a = refl

get-below :
    (ms : List Handlers) (r : ℕ) → r < length ms → (m : Handlers) × (get_elem? ms r ≡ some m)
get-below [] r lt = absurd (omega (arith, lt))
get-below (m ∷ ms) zero lt = (m, refl)
get-below (m ∷ ms) (suc r) lt = get-below ms r (omega (arith, lt))

module _ (env : StartEnv) (config : FolkConfig) (plugins : List Plugin) (h : Host) (cwd : String)
    (handle : ℕ) (found : env.current_dir ≡ some cwd) (runs : env.thread ≡ running handle) where
  -- The server that runs, and the process in which it does.
  abbrev pub running_server : Launch
  running_server = launch config plugins env.side (length h.registries)

  abbrev pub host_after : Host
  host_after = record h {
    statics = record h.statics {
      project_root = set_once h.statics.project_root cwd;
      registry = set_once h.statics.registry (length h.registries);
      tokio_handle = set_once h.statics.tokio_handle handle;
    };
    registries = h.registries ++ [] ∷ [];
    bridge = init_worker_state 1 env.task_rx h.bridge;
  }

  start_server-started : start_server env config plugins h ≡ (started running_server, host_after)
  unfolding start_server
  start_server-started = rw (found, runs, start_server) refl

  -- The host once the server's plugins have registered their handlers.
  served-registries :
      (entries : List (String × (Bytes → Answer)))
      → register_methods running_server.server entries host_after ≡ record host_after {
        registries = set (h.registries ++ [] ∷ []) (length h.registries) (register_all entries []);
      }
  served-registries entries =
      registered running_server.server (length h.registries)
        (launch-registrar config plugins env.side (length h.registries)) entries host_after []
        (get-last h.registries [])

  -- A first `start_server` that succeeds runs a server with the given configuration and the given
  -- plugins in their order, over workers with that configuration and the main worker's channels; once
  -- the plugins have registered handlers, `folk_call` runs the one registered last under its method,
  -- and is refused where there is none.
  pub start_server-call_method :
      (entries : List (String × (Bytes → Answer))) (method : String) (payload : Bytes)
      → h.statics.registry ≡ none
      → (start_server env config plugins h ≡ (started running_server, host_after))
        × (running_server.server.plugins.plugins ≡ plugins)
        × (running_server.server.config ≡ config)
        × (running_server.workers_config ≡ config.workers)
        × (running_server.tx_sides ≡ env.side ∷ [])
        × (call_method (register_methods running_server.server entries host_after) method payload
            ≡ called (answer_of method (last_of method entries none) payload))
  unfolding launch set_rpc_registrar Server.new Plugins.new
  start_server-call_method entries method payload fresh = (
    start_server-started,
    (register_plugins-plugins plugins
        (set_rpc_registrar (Server.new config) (length h.registries))).0,
    (register_plugins-plugins plugins
        (set_rpc_registrar (Server.new config) (length h.registries))).1,
    refl,
    refl,
    ap (λ g. call_method g method payload) (served-registries entries)
        ∙ call_method-called _ (length h.registries) (kept h.statics.tokio_handle handle)
            (register_all entries []) method payload
            (ap (λ o. set_once o (length h.registries)) fresh)
            (set_once-kept h.statics.tokio_handle handle)
            (get_elem?-set (h.registries ++ [] ∷ []) (length h.registries) (register_all entries [])
              [] (get-last h.registries []))
        ∙ ap called (call-register_all entries method payload),
  )

  -- Starting the server again in the same process runs a second server, but whatever its plugins
  -- register, `folk_call` answers as before, from the registry of the first one; the project's root
  -- and the handle of the tokio runtime stay those of the first start, too.
  pub start_server-again :
      (entries : List (String × (Bytes → Answer))) (method : String) (payload : Bytes) (r k : ℕ)
      (root : String)
      → h.statics.registry ≡ some r
      → r < length h.registries
      → h.statics.tokio_handle ≡ some k
      → h.statics.project_root ≡ some root
      → (start_server env config plugins h ≡ (started running_server, host_after))
        × (call_method (register_methods running_server.server entries host_after) method payload
            ≡ call_method h method payload)
        × (host_after.statics ≡ h.statics)
  start_server-again entries method payload r k root e lt e' e'' =
      let (m, at) = get-below h.registries r lt in
      (
        start_server-started,
        ap (λ g. call_method g method payload) (served-registries entries)
            ∙ call_method-called _ r k m method payload
                (ap (λ o. set_once o (length h.registries)) e) (ap (λ o. set_once o handle) e')
                (get_elem?-set_other (h.registries ++ [] ∷ []) (length h.registries) r
                    (register_all entries []) (λ same. omega (arith, same, lt))
                  ∙ get-earlier h.registries [] r lt
                  ∙ at)
            ∙ sym (call_method-called h r k m method payload e e' at),
        rw (e, e', e'') refl,
      )
