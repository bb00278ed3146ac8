-- ===== src/Runtime/Commands.antt =====
-- The workers that the runtime for tests of crates/folk-core/src/runtime.rs has spawned, and what it
-- tells of them after any calls.
use folk_core.Base.{
  ℕ, suc, ◌+◌, ◌<◌, ◌≡◌, refl, sym, ap, subst, ◌∙◌, String, false, Option, none, some, List, [],
  ◌∷◌, ◌++◌, length, length-append, length-set, get_elem?, set, arith, Option-cases, inl, inr,
}
use folk_core.Json.{Value}
use folk_core.Slot.{Profile, debug, release}
use folk_core.Runtime.{
  MockRuntime, MockWorker, with_panicking_slots, u32_mod, sub_u32, contains, spawn, spawn_count,
  execute, terminate,
}
use folk_core.Runtime.Numbered.{IsNth, AllNth, AllNth-get, AllNth-append, AllNth-terminate}

-- A call of a test: the workers are counted in the order in which they were spawned.
pub data Command : Type 0 where
  spawn_worker : Command
  execute_on : ℕ → String → Value → String → Command
  terminate_at : ℕ → Command

pub record Test : Type 0 where
  pub runtime : MockRuntime
  pub workers : List MockWorker

-- The worker that a spawn gives, if it does not panic.
abbrev joined : Option MockWorker → List MockWorker → List MockWorker
joined none ws = ws
joined (some w) ws = ws ++ w ∷ []

unfoldable pub command : Profile → Command → Test → Test
command p spawn_worker t =
    let (w, rt) = spawn p t.runtime in record { runtime = rt; workers = joined w t.workers }
command p (execute_on i method payload request_id) t = elim (get_elem? t.workers i) [
  | none ↦ t
  | some w ↦ record t { runtime = (execute w method payload request_id t.runtime).1 }
]
command p (terminate_at i) t = elim (get_elem? t.workers i) [
  | none ↦ t
  | some w ↦ record t { workers = set t.workers i (terminate w) }
]

unfoldable pub commands : Profile → List Command → Test → Test
commands p [] t = t
commands p (c ∷ cs) t = commands p cs (command p c t)

-- How many workers a test spawns.
abbrev pub spawns : List Command → ℕ
spawns [] = 0
spawns (spawn_worker ∷ cs) = suc (spawns cs)
spawns (_ ∷ cs) = spawns cs

pub record WellFormed (panics : List ℕ) (t : Test) : Type 0 where
  pub counted : t.runtime.next_id ≡ 10000 + length t.workers
  pub same_slots : t.runtime.panic_slots ≡ panics
  pub numbered : AllNth panics 0 t.workers

-- The counter keeps its distance from 10000, in a debug and in a release build.
pub sub_u32-some :
    (p : Profile) (n : ℕ) → 10000 + n < u32_mod → sub_u32 p (10000 + n) 10000 ≡ some n
sub_u32-some debug n lt = ground arith
sub_u32-some release n lt = ap some (omega (arith, lt))

module _ (p : Profile) (panics : List ℕ) where
  spawn-WellFormed :
      (t : Test)
      → suc (10000 + length t.workers) < u32_mod
      → WellFormed panics t
      → WellFormed panics (command p spawn_worker t)
        × (length (command p spawn_worker t).workers ≡ suc (length t.workers))
  unfolding command spawn
  spawn-WellFormed t small v =
      rw (v.counted, sub_u32-some p (length t.workers) (omega (arith, small)), command, spawn)
        (
          record {
            counted = omega (arith, v.counted, small, length-append t.workers (new_worker ∷ []));
            same_slots = v.same_slots;
            numbered = AllNth-append panics 0 t.workers new_worker v.numbered (
              omega (arith, v.counted),
              ap (λ js. contains js (length t.workers)) v.same_slots
                  ∙ ap (contains panics) (omega arith),
            );
          },
          omega (arith, length-append t.workers (new_worker ∷ [])),
        )
    where
      new_worker : MockWorker
      new_worker = record {
        id = t.runtime.next_id;
        terminated = false;
        should_panic = contains t.runtime.panic_slots (length t.workers);
      }

  execute-runtime :
      (w : MockWorker) (method : String) (payload : Value) (request_id : String) (rt : MockRuntime)
      → let rt' = (execute w method payload request_id rt).1 in
        (rt'.next_id ≡ rt.next_id) × (rt'.panic_slots ≡ rt.panic_slots)
  unfolding execute
  execute-runtime w method payload request_id rt = ground arith

  command-WellFormed :
      (c : Command) (t : Test)
      → spawns (c ∷ []) + (10000 + length t.workers) < u32_mod
      → WellFormed panics t
      → WellFormed panics (command p c t)
        × (length (command p c t).workers ≡ length t.workers + spawns (c ∷ []))
  unfolding command
  command-WellFormed spawn_worker t small v =
      let (w, l) = spawn-WellFormed t (omega (arith, small)) v in (w, omega (arith, l))
  command-WellFormed (execute_on i method payload request_id) t small v =
      elim (Option-cases (get_elem? t.workers i)) [
        | inl e ↦ rw (e, command) (v, omega arith)
        | inr (w, e) ↦
            let (same, slots) = execute-runtime w method payload request_id t.runtime in
            rw (e, command)
              (
                record {
                  counted = same ∙ v.counted;
                  same_slots = slots ∙ v.same_slots;
                  numbered = v.numbered;
                },
                omega arith,
              )
      ]
  command-WellFormed (terminate_at i) t small v = elim (Option-cases (get_elem? t.workers i)) [
    | inl e ↦ rw (e, command) (v, omega arith)
    | inr (w, e) ↦
        rw (e, command)
          (
            record {
              counted =
                  v.counted ∙ ap (λ n. 10000 + n) (sym (length-set t.workers i (terminate w)));
              same_slots = v.same_slots;
              numbered = AllNth-terminate panics 0 i t.workers w v.numbered e;
            },
            omega (arith, length-set t.workers i (terminate w)),
          )
  ]

  spawns-cons : (c : Command) (cs : List Command) → spawns (c ∷ cs) ≡ spawns (c ∷ []) + spawns cs
  spawns-cons spawn_worker cs = omega arith
  spawns-cons (execute_on i method payload request_id) cs = omega arith
  spawns-cons (terminate_at i) cs = omega arith

  commands-WellFormed :
      (cs : List Command) (t : Test)
      → spawns cs + (10000 + length t.workers) < u32_mod
      → WellFormed panics t
      → WellFormed panics (commands p cs t)
        × (length (commands p cs t).workers ≡ length t.workers + spawns cs)
  unfolding commands
  commands-WellFormed [] t small v = (v, omega arith)
  commands-WellFormed (c ∷ cs) t small v =
      let (w, l) = command-WellFormed c t (omega (arith, spawns-cons c cs)) v in
      let (w', l') =
        commands-WellFormed cs (command p c t) (omega (arith, l, spawns-cons c cs)) w in
      (w', omega (arith, l, l', spawns-cons c cs))

-- A test with no worker yet.
abbrev pub fresh_test : List ℕ → Test
fresh_test panics = record { runtime = with_panicking_slots panics; workers = [] }

-- After any calls of a test, fewer spawns than the counter has room for, `spawn_count` is the number
-- of spawns, in both build profiles; and the worker that was spawned as number `i` from 0 has the
-- identifier 10000 + i and panics in `execute` just if `i` is among the panicking slots.
pub spawn_count-commands :
    (p : Profile) (panics : List ℕ) (cs : List Command) (i : ℕ) (worker : MockWorker)
    → spawns cs + 10000 < u32_mod
    → get_elem? (commands p cs (fresh_test panics)).workers i ≡ some worker
    → (spawn_count p (commands p cs (fresh_test panics)).runtime ≡ some (spawns cs))
      × IsNth panics i worker
unfolding spawn_count with_panicking_slots
spawn_count-commands p panics cs i worker small at =
    let v : WellFormed panics (fresh_test panics) = record {
      counted = refl;
      same_slots = refl;
      numbered = tt;
    } in
    let (w, l) = commands-WellFormed p panics cs (fresh_test panics) (omega (arith, small)) v in
    (
      ap (λ n. sub_u32 p n 10000) (w.counted ∙ omega (arith, l))
          ∙ sub_u32-some p (spawns cs) (omega (arith, small)),
      subst (λ n. IsNth panics n worker) (omega arith)
          (AllNth-get panics 0 i _ worker w.numbered at),
    )
