-- ===== src/Examples/Hosts.antt =====
-- Examples for crates/folk-ext/src/lib.rs and crates/folk-ext/src/zts.rs: the start of a server, and
-- the calls between PHP and the engine.
use folk_core.Base.{
  Option, ℕ, ◌≡◌, refl, arith, String, true, Option, none, some, List, [], ◌∷◌, map,
}
use folk_core.Api.{Bytes, Headers}
use folk_core.Json.{Value}
use folk_core.Config.{default_config}
use folk_core.Plugins.{Plugin}
use folk_core.Registries.{Answer, answered}
use folk_core.Registries.Lookup.{last_of, answer_of}
use folk_core.Zval.{pos}
use folk_core.Zts.{Ffi, is_zero}
use folk_core.Extension.Thread.{run_zts_worker}
use folk_core.Extension.Warmup.{Files, warmup}
use folk_core.Extension.Warmup.Brackets.{stages, unregistered, ffi_call, run_zts_worker-stages}
use folk_core.Extension.Thread.Sequence.{looping}
use folk_core.Entry.Start.{
  Host, unset, StartEnv, running, started, start_server, called, call_method,
}
use folk_core.Entry.Start.Once.{
  register_methods, running_server, host_after, start_server-call_method, start_server-again,
}
use folk_core.Examples.Streams.{externals, handler, three_requests}

abbrev new_host : Host
new_host = record { statics = unset; registries = []; bridge = record { worker = none; log = [] } }

abbrev env : StartEnv
env = record {
  current_dir = some "/srv/app";
  task_rx = [];
  side = record { task_tx = 1; ready_rx = 2 };
  thread = running 7;
}

abbrev jobs_plugin : Plugin
jobs_plugin = record { name = "jobs"; boot = none; shutdown = none }

abbrev answering_with : ℕ → Bytes → Answer
answering_with n payload = answered (n ∷ [])

-- The second registration replaces the first one.
abbrev two_handlers : List (String × (Bytes → Answer))
two_handlers = ("jobs.push", answering_with 1) ∷ ("jobs.push", answering_with 2) ∷ []

start_server-call_method_example :
    (start_server env default_config (jobs_plugin ∷ []) new_host ≡ (
      started
          (running_server env default_config (jobs_plugin ∷ []) new_host "/srv/app" 7 refl refl),
      host_after env default_config (jobs_plugin ∷ []) new_host "/srv/app" 7 refl refl,
    ))
    × ((running_server env default_config
          (jobs_plugin ∷ [])
          new_host
          "/srv/app"
          7
          refl
          refl).server.plugins.plugins
        ≡ jobs_plugin ∷ [])
    × ((running_server env default_config
          (jobs_plugin ∷ [])
          new_host
          "/srv/app"
          7
          refl
          refl).server.config
        ≡ default_config)
    × ((running_server env default_config
          (jobs_plugin ∷ [])
          new_host
          "/srv/app"
          7
          refl
          refl).workers_config
        ≡ default_config.workers)
    × ((running_server env default_config
          (jobs_plugin ∷ [])
          new_host
          "/srv/app"
          7
          refl
          refl).tx_sides
        ≡ env.side ∷ [])
    × (call_method
          (register_methods
            (running_server env default_config
              (jobs_plugin ∷ [])
              new_host
              "/srv/app"
              7
              refl
              refl).server
            two_handlers
            (host_after env default_config (jobs_plugin ∷ []) new_host "/srv/app" 7 refl refl))
          "jobs.push"
          []
        ≡ called (answer_of "jobs.push" (last_of "jobs.push" two_handlers none) []))
start_server-call_method_example =
    start_server-call_method env default_config (jobs_plugin ∷ []) new_host "/srv/app" 7 refl refl
      two_handlers "jobs.push" [] refl

-- The process behind the first start, and another start with a handler of its own.
abbrev old_host : Host
old_host = record {
  statics = record unset {
    registry = some 0;
    tokio_handle = some 7;
    project_root = some "/srv/app";
  };
  registries = (("jobs.push", answering_with 2) ∷ []) ∷ [];
  bridge = record { worker = none; log = [] };
}

abbrev other_handler : List (String × (Bytes → Answer))
other_handler = ("jobs.push", answering_with 3) ∷ []

start_server-again_example :
    (start_server env default_config [] old_host ≡ (
      started (running_server env default_config [] old_host "/srv/app" 7 refl refl),
      host_after env default_config [] old_host "/srv/app" 7 refl refl,
    ))
    × (call_method
          (register_methods
            (running_server env default_config [] old_host "/srv/app" 7 refl refl).server
            other_handler
            (host_after env default_config [] old_host "/srv/app" 7 refl refl))
          "jobs.push"
          []
        ≡ call_method old_host "jobs.push" [])
    × ((host_after env default_config [] old_host "/srv/app" 7 refl refl).statics
        ≡ old_host.statics)
start_server-again_example =
    start_server-again env default_config [] old_host "/srv/app" 7 refl refl other_handler
      "jobs.push" [] 0 7 "/srv/app" refl (omega arith) refl refl

abbrev no_bytes : String → Bytes
no_bytes text = []

abbrev no_json : Value → Bytes
no_json v = []

abbrev no_heads : String → Option Headers
no_heads json = none

-- An engine without failures, whose PHP function answers with its parameters.
abbrev engine : Ffi
engine = record {
  is_enabled = pos 1;
  request_startup = pos 0;
  chdir = λ path. pos 0;
  eval_string = λ text. pos 1;
  execute_script = λ filename. pos 1;
  call_dispatch = λ name method params. (pos 0, params);
}

abbrev project : Files
project = record {
  current_dir = some "/srv/app";
  classmap_path = λ dir. "/srv/app/vendor/composer/autoload_classmap.php";
  exists = λ path. true;
}

run_zts_worker-stages_example :
    (stages (is_zero (pos 0)) unregistered (warmup engine project).1 ≡ some unregistered)
    × (stages true unregistered (
          map
            (ffi_call "worker.php")
            (run_zts_worker
              (looping externals handler)
              2
              three_requests
              (record { worker = none; log = [] })).0)
        ≡ some unregistered)
run_zts_worker-stages_example =
    run_zts_worker-stages engine project (looping externals handler) 2 "worker.php" three_requests
      (record { worker = none; log = [] })
