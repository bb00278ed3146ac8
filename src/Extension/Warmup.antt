-- ===== src/Extension/Warmup.antt =====
-- `ExtensionRuntime::warmup` of crates/folk-ext/src/runtime.rs: it compiles the files of a project in
-- a thread of its own. A panic of that thread, and log lines, are left out.
pub mod Brackets
use Prim.Native.String.{◌++◌ as str_append}
use folk_core.Base.{String, Bool, not, Option, none, some, List, [], ◌∷◌, ◌++◌, if◌then◌else◌}
use folk_core.Zts.{
  Ffi, FfiCall, Done, ok, err, Called, is_zts, guard_new, guard_drop, request_startup,
  request_shutdown, eval_string,
}

-- The current directory, the path of the class map in a directory, as `join` and `to_string_lossy`
-- make it, and whether a path exists.
pub record Files : Type 0 where
  pub current_dir : Option String
  pub classmap_path : String → String
  pub exists : String → Bool

abbrev pub warmup_code : String → String
warmup_code classmap_path_str = str_append "\n$classmap = require '" (
    str_append classmap_path_str (
      str_append "';\n$loaded = 0;\nforeach ($classmap as $class => $file) {\n" (
        str_append "    if (is_file($file) && function_exists('opcache_compile_file')) {\n"
          "        @opcache_compile_file($file);\n        $loaded++;\n    }\n}\n")))

-- The result of `warmup`; an error of the script is only a log line.
pub data Warmup : Type 0 where
  warmed_up no_current_dir : Warmup

module _ (ffi : Ffi) where
  -- The body of the thread, whose guard is dropped at its end.
  unfoldable pub warmup_thread : String → List FfiCall
  warmup_thread code =
      let (began, calls) = request_startup ffi in
      let work : List FfiCall = elim began [
        | err e ↦ []
        | ok u ↦ (eval_string ffi code).1 ++ request_shutdown ffi
      ] in
      guard_new ffi ++ calls ++ work ++ guard_drop ffi

  unfoldable pub warmup : Files → Warmup × List FfiCall
  warmup files = if not (is_zts ffi) then (warmed_up, []) else elim files.current_dir [
    | none ↦ (no_current_dir, [])
    | some dir ↦
        let path = files.classmap_path dir in
        if files.exists path then (warmed_up, warmup_thread (warmup_code path)) else (warmed_up, [])
  ]
