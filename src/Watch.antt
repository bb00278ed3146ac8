-- ===== src/Watch.antt =====
-- crates/folk-core/src/watch.rs: the file watcher of the development mode. A text whose characters are
-- looked at is the list of their code points; log lines are left out.
pub mod Extensions
pub mod Reload
use Prim.Native.Char.{code}
use Prim.Native.String.{String as NativeString}
use folk_core.Base.{
  ℕ, ◌+◌, String, Bool, true, false, Option, none, some, List, [], ◌∷◌, ◌++◌, map, leb, ◌==◌, ◌&&◌,
  ◌||◌, if◌then◌else◌, ◌>>=◌,
}
use folk_core.Config.{DevConfig}

abbrev pub Text : Type 0
Text = List ℕ

unfoldable pub code_points : String → Text
code_points NativeString.[] = []
code_points (NativeString.◌∷◌ c s) = code c ∷ code_points s

abbrev pub dot : ℕ
dot = 46

-- `char::to_ascii_lowercase`, and `str::to_ascii_lowercase`.
abbrev pub lowercase : ℕ → ℕ
lowercase n = if leb 65 n && leb n 90 then n + 32 else n

unfoldable pub to_ascii_lowercase : Text → Text
to_ascii_lowercase t = map lowercase t

-- `trim_start_matches('.')`
unfoldable pub trim_dots : Text → Text
trim_dots [] = []
trim_dots (c ∷ t) = if c == dot then trim_dots t else c ∷ t

-- What an `OsStr` is made of: characters, and bytes that belong to none.
pub data OsUnit : Type 0 where
  character byte : ℕ → OsUnit

abbrev pub OsText : Type 0
OsText = List OsUnit

-- `OsStr::to_str`
abbrev pub to_str : OsText → Option Text
to_str [] = some []
to_str (character c ∷ t) = elim (to_str t) [ none ↦ none | some cs ↦ some (c ∷ cs) ]
to_str (byte b ∷ t) = none

abbrev pub is_dot : OsUnit → Bool
is_dot (character c) = c == dot
is_dot (byte b) = false

-- What stands behind the last dot, if there is one.
abbrev pub behind_last_dot : OsText → Option OsText
behind_last_dot [] = none
behind_last_dot (u ∷ t) = elim (behind_last_dot t) [
  | some ext ↦ some ext
  | none ↦ if is_dot u then some t else none
]

-- `Path::extension` of a path whose last component is a name, and not `..`: a dot at the start begins
-- no extension.
abbrev pub extension : OsText → Option OsText
extension [] = none
extension (u ∷ t) = behind_last_dot t

abbrev pub text_eq : Text → Text → Bool
text_eq [] [] = true
text_eq (c ∷ s) (d ∷ t) = c == d && text_eq s t
text_eq _ _ = false

-- `slice::contains`
abbrev pub contains_text : List Text → Text → Bool
contains_text [] t = false
contains_text (s ∷ ss) t = text_eq s t || contains_text ss t

-- A path is its last component, where that is a name.
abbrev pub FilePath : Type 0
FilePath = Option OsText

unfoldable pub matches_extension : FilePath → List Text → Bool
matches_extension path extensions = elim (path >>= extension >>= to_str) [
  | none ↦ false
  | some ext ↦ contains_text extensions (to_ascii_lowercase ext)
]

-- The extensions as `spawn` keeps them.
unfoldable pub watched_extensions : DevConfig → List Text
watched_extensions dev =
    map (λ e. to_ascii_lowercase (trim_dots (code_points e))) dev.watch_extensions

-- What the debouncer reports: the paths of its events, or an error.
pub data DebounceResult : Type 0 where
  events : List FilePath → DebounceResult
  error : DebounceResult

abbrev pub any_matches : List Text → List FilePath → Bool
any_matches extensions [] = false
any_matches extensions (p ∷ ps) = matches_extension p extensions || any_matches extensions ps

-- Whether the callback spawns a call of `trigger_reload`.
unfoldable pub on_debounced : DevConfig → DebounceResult → Bool
on_debounced dev (events paths) = any_matches (watched_extensions dev) paths
on_debounced dev error = false

-- Whether a debouncer can be made, which paths exist, and which can be watched.
pub record FileSystem : Type 0 where
  pub has_debouncer : Bool
  pub exists : String → Bool
  pub can_watch : String → Bool

pub data Spawned : Type 0 where
  no_debouncer : Spawned
  failed_to_watch : String → Spawned
  watching : List String → Spawned

-- The loop over the paths, with those that are watched so far.
unfoldable pub watch_all : FileSystem → List String → List String → Spawned
watch_all fs [] watched = watching watched
watch_all fs (path ∷ paths) watched =
    let rest = watch_all fs paths (watched ++ path ∷ []) in
    let skipped = watch_all fs paths watched in
    if fs.exists path then (if fs.can_watch path then rest else failed_to_watch path) else skipped

unfoldable pub spawn : FileSystem → DevConfig → Spawned
spawn fs dev = if fs.has_debouncer then watch_all fs dev.watch_paths [] else no_debouncer
