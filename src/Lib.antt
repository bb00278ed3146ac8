-- ===== src/Lib.antt =====
-- A model of the Folk server core: the crates folk-core and folk-ext, which run PHP workers inside
-- one process, hand requests to them and carry their answers back.
--
-- The parts and how they interact. `FolkServer` (crates/folk-core/src/server.rs) starts a worker
-- pool and boots the plugins, which send requests to the pool. `pool_main`
-- (crates/folk-core/src/worker_pool.rs) deals them round robin to the slots; the supervisor of each
-- slot boots its worker, hands it one request at a time, and replaces it after a reload, after
-- `max_jobs` requests or after its time to live. A worker is a thread that runs PHP: the bridge
-- (crates/folk-ext/src/bridge.rs) keeps its current request in thread-local state, which the native
-- functions read and change, and turns what PHP does into a stream of chunks, which
-- `collect_stream` gathers for the callers that want one value.
--
-- The files.
--   Base: shared names, Boolean tests, lists over the native numbers.
--   Config: crates/folk-core/src/config.rs, records, defaults, `normalize`, the log
--     filter; Layers: `load` and `load_from`.
--   Slot: crates/folk-core/src/worker_slot.rs, one function for each method of `SlotInfo`.
--   Json, Api: the data of serde_json and folk_api that the code matches on and builds.
--   Pool.Supervisor: `slot_supervisor` and `boot_worker`. `iteration` is one pass of the loop; a
--     `Round` holds what the pass finds outside: what the runtime and the worker answer, which
--     message comes, what the reload channel holds at each look, the clock. `run` is the loop.
--   Pool.Router: the loop of `pool_main`; `try_slot` is an attempt, `route` a request.
--   Pool.Stream: `collect_stream`, and `collect_stream_to_value` of crates/folk-ext/src/runtime.rs.
--   Pool.Flow: the way of a request and its permit through the pool, from `WorkerPool::new` and
--     `dispatch_streamed` to the supervisors; an `Action` is what one task does up to its next wait.
--     Pool.Supervisor.Refines ties the supervisor's loop to the actions of its slot. Flow.Order
--     records the requests as they enter the channel, are dealt, and are taken.
--   Pool.Executor: `trigger_reload`, `dispatch_streamed` and the methods of `Executor`; what a call
--     finds outside is an `Outside`. EndToEnd leads a call through the bridge and back.
--   Extension: crates/folk-ext/src/runtime.rs. Spawn holds `ExtensionRuntime::spawn`, as calls that
--     go on by atomic phases in any order; Thread holds `run_zts_worker` of
--     crates/folk-ext/src/worker.rs, Link the task channel of a `ChannelWorkerHandle` and the
--     end of its thread, Execute its `execute`, and Warmup `ExtensionRuntime::warmup`.
--   Zts: crates/folk-ext/src/zts.rs; the C functions are the record `Ffi`.
--   Bridge: crates/folk-ext/src/bridge.rs. A native function `do_f` is `f_step` on the state of the
--     worker, run by `in_worker`; State holds the set-up and the receipt, Response the answers,
--     Body the raw body, Multipart the cursor over parts, Dispatch the loop. The PHP handler is a
--     `Php`: a tree of native calls, each chosen by the replies so far, that ends in a result.
--   Entry: the functions of crates/folk-ext/src/lib.rs that PHP calls. Natives are those that hand over
--     to the bridge; Start holds `start_server`, `call_method`, `folk_call`, the class `Folk\Server`
--     and the statics, where each `OnceLock` is what it holds and keeps its first value.
--   Zval: crates/folk-ext/src/zval_convert.rs, between JSON values and PHP's.
--   Registries: crates/folk-core/src/health_registry.rs and crates/folk-ext/src/registry.rs.
--   Metrics: crates/folk-core/src/metrics_registry.rs; its Adapters write out how whole numbers round
--     to an `f64`. Watch: crates/folk-core/src/watch.rs. Logging:
--     crates/folk-core/src/logging.rs. Runtime: the trait defaults and the runtime for tests of
--     crates/folk-core/src/runtime.rs.
--   Plugins: crates/folk-core/src/plugin_registry.rs. Server: `FolkServer::run`.
--   Examples: each theorem with a hypothesis at a concrete input, and runs.
--
-- Bounds and fuel. No loop of the code runs on fuel: one that ends when a channel closes goes over the
-- list of the messages that arrive before that, and the supervisor's loop over a list of rounds.
-- The job counter of a slot is a u64, with both build profiles' ways to overflow; `next` of the
-- router is a usize of 64 bits, the counter of worker ids a u32, an integer of PHP an i64. Bytes are
-- numbers, not bounded by 256; a map is its entries in the order of iteration. The search for the
-- exponent of an `f64` takes as many steps as there are exponents above 2 ^ 53.
--
-- Parameters. `serde_json`'s parser and printer, `String::from_utf8_lossy`, `WorkerError::new`,
-- `value_to_chunks` of folk_api, the project's root, the C functions and the PHP engine, the number
-- and key conversions of ext-php-rs, the file system that the watcher sees, and figment's extraction
-- are arguments. The crate prometheus is a record of operations; what it documents of names that are
-- taken, and of what a counter adds up, are records of laws.
--
-- Not modelled: threads and waiting as such (a blocking receive takes the next message of its list;
-- full channels are seen in Pool.Flow and Extension.Link only), log lines, panics of the PHP engine,
-- the C shim, the build script, and the wait for a signal of the operating system. A request that
-- `pool_main` has taken from the channel and cannot deliver yet stays at the front of the queue of
-- Pool.Flow, which has a place more for it. `folk_worker_recv`, `folk_worker_run` and
-- `folk_call` are not among the calls of a handler in the dispatch loop.
pub mod Base
pub mod Config
pub mod Slot
pub mod Json
pub mod Api
pub mod Pool
pub mod Extension
pub mod Bridge
pub mod Plugins
pub mod Registries
pub mod Server
pub mod Entry
pub mod Examples
pub mod Logging
pub mod Metrics
pub mod Runtime
pub mod Watch
pub mod Zts
pub mod Zval
