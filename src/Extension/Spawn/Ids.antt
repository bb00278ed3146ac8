-- ===== src/Extension/Spawn/Ids.antt =====
-- The worker ids that interleaved calls of `spawn` in crates/folk-ext/src/runtime.rs give out.
use folk_core.Base.{
  ℕ, zero, suc, ◌+◌, ◌≤◌, ◌<◌, ◌≡◌, ◌⊎◌, inl, inr, refl, Bool, true, false, not, replicate,
  length-replicate, Option, none, some, List, [], ◌∷◌, is_empty, is_some, length, length-set,
  String, get_elem?, set, count_if, count_if-set, count_if-le, bit, All, All-set, All-get_elem?,
  All-weaken, arith, Option-cases, ◌==◌,
}
use folk_core.Config.{WorkersConfig}
use folk_core.Extension.Handle.{WorkerTxSide, is_recyclable}
use folk_core.Extension.Spawn.{
  ZtsThread, Process, no_more_channels, no_directory, not_requested, Call, calling, taking,
  starting, taking_with, starting_with, spawned, failed, u32_mod, pop, choose, take_side,
  start_thread, advance_call, step_call, run_calls, launched,
}

-- The id that a call has drawn.
abbrev pub drawn : Call → Option ℕ
drawn calling = none
drawn taking = none
drawn starting = none
drawn (taking_with id) = some id
drawn (starting_with id) = some id
drawn (spawned h) = some h.worker_id
drawn (failed (no_more_channels id)) = some id
drawn (failed (no_directory id)) = some id
drawn (failed not_requested) = none

abbrev pub has_drawn : Call → Bool
has_drawn c = is_some (drawn c)

abbrev pub draws : ℕ → Call → Bool
draws k c = elim (drawn c) [ none ↦ false | some id ↦ id == k ]

-- What the phase of a call says of the counter: a call that starts a thread comes after the draw of
-- id 1.
abbrev PastMain : ℕ → Call → Type 0
PastMain next (taking_with id) = 2 ≤ next
PastMain next starting = 2 ≤ next
PastMain next (starting_with id) = 2 ≤ id
PastMain next _ = Unit

abbrev pub IsThreadId : ZtsThread → Type 0
IsThreadId t = 2 ≤ t.worker_id

-- A call that has got the main thread, which cannot be recycled.
abbrev pub is_main : Call → Bool
is_main (spawned h) = not (is_recyclable h)
is_main _ = false

record Inv (calls : List Call) (q : Process) : Type 0 where
  counted : q.next_worker_id ≡ suc (count_if has_drawn calls)
  undrawn : (k : ℕ) → q.next_worker_id ≤ k → count_if (draws k) calls ≡ 0
  unique : (k : ℕ) → count_if (draws k) calls ≤ 1
  past_main : All (PastMain q.next_worker_id) calls
  emptied : is_empty q.channels ≡ true → 2 ≤ q.next_worker_id
  threads : All IsThreadId q.threads
  mains : count_if is_main calls + length q.channels ≡ 1

-- A phase either draws nothing, or draws the next id.
record Phase (next free : ℕ) (c c' : Call) (q' : Process) : Type 0 where
  draw :
      ((drawn c' ≡ drawn c) × (q'.next_worker_id ≡ next))
      ⊎ ((drawn c ≡ none) × (drawn c' ≡ some next) × (q'.next_worker_id ≡ suc next))
  past_main : PastMain q'.next_worker_id c'
  emptied : is_empty q'.channels ≡ true → 2 ≤ q'.next_worker_id
  threads : All IsThreadId q'.threads
  mains : bit (is_main c') + length q'.channels ≡ bit (is_main c) + free

abbrev popped_length : Option (WorkerTxSide × List WorkerTxSide) → ℕ
popped_length none = 0
popped_length (some (side, rest)) = suc (length rest)

length-pop : (xs : List WorkerTxSide) → length xs ≡ popped_length (pop xs)
length-pop [] = refl
length-pop (x ∷ xs) = ground (arith, length-pop xs)

module _ (cfg : WorkersConfig) (script_path : Option String) where
  advance_call-Phase :
      (c : Call) (q : Process)
      → 0 < q.next_worker_id
      → suc q.next_worker_id < u32_mod
      → PastMain q.next_worker_id c
      → (is_empty q.channels ≡ true → 2 ≤ q.next_worker_id)
      → All IsThreadId q.threads
      → Phase q.next_worker_id
          (length q.channels)
          c
          (advance_call cfg script_path c q).0
          (advance_call cfg script_path c q).1
  unfolding advance_call choose take_side start_thread is_recyclable
  advance_call-Phase c q pos small past e threads = ground (arith, length-pop q.channels)

  PastMain-weaken : (m n : ℕ) (c : Call) → m ≤ n → PastMain m c → PastMain n c
  PastMain-weaken m n c le past = ground arith

  step-Inv :
      (i : ℕ) (c : Call) (calls : List Call) (q : Process)
      → suc q.next_worker_id < u32_mod
      → get_elem? calls i ≡ some c
      → Inv calls q
      → let (c', q') = advance_call cfg script_path c q in Inv (set calls i c') q'
  step-Inv i c calls q small e v = record {
    counted = ground (arith, ph.draw, v.counted, count_if-set has_drawn calls i c' c e);
    undrawn = λ k le. undrawn k le ph.draw (count_if-set (draws k) calls i c' c e);
    unique = λ k. unique k ph.draw (count_if-set (draws k) calls i c' c e);
    past_main =
        All-set (PastMain q'.next_worker_id) calls i c'
          (All-weaken _ _ calls (λ d. PastMain-weaken q.next_worker_id q'.next_worker_id d moves)
            v.past_main)
          ph.past_main;
    emptied = ph.emptied;
    threads = ph.threads;
    mains = omega (arith, ph.mains, v.mains, count_if-set is_main calls i c' c e);
  }
    where
      c' : Call
      c' = (advance_call cfg script_path c q).0

      q' : Process
      q' = (advance_call cfg script_path c q).1

      ph : Phase q.next_worker_id (length q.channels) c c' q'
      ph =
          advance_call-Phase c q (omega (arith, v.counted)) small
            (All-get_elem? _ calls i c v.past_main e) v.emptied v.threads

      moves : q.next_worker_id ≤ q'.next_worker_id
      moves = ground (arith, ph.draw)

      undrawn :
          (k : ℕ)
          → q'.next_worker_id ≤ k
          → ((drawn c' ≡ drawn c) × (q'.next_worker_id ≡ q.next_worker_id))
            ⊎ ((drawn c ≡ none)
                × (drawn c' ≡ some q.next_worker_id)
                × (q'.next_worker_id ≡ suc q.next_worker_id))
          → count_if (draws k) (set calls i c') + bit (draws k c)
            ≡ count_if (draws k) calls + bit (draws k c')
          → count_if (draws k) (set calls i c') ≡ 0
      undrawn k le (inl (same, next)) change = ground (arith, v.undrawn k, v.unique k)
      undrawn k le (inr (none_yet, drew, next)) change = ground (arith, v.undrawn k, v.unique k)

      unique :
          (k : ℕ)
          → ((drawn c' ≡ drawn c) × (q'.next_worker_id ≡ q.next_worker_id))
            ⊎ ((drawn c ≡ none)
                × (drawn c' ≡ some q.next_worker_id)
                × (q'.next_worker_id ≡ suc q.next_worker_id))
          → count_if (draws k) (set calls i c') + bit (draws k c)
            ≡ count_if (draws k) calls + bit (draws k c')
          → count_if (draws k) (set calls i c') ≤ 1
      unique k (inl (same, next)) change = ground (arith, v.undrawn k, v.unique k)
      unique k (inr (none_yet, drew, next)) change = ground (arith, v.undrawn k, v.unique k)

  run_calls-Inv :
      (schedule : List ℕ) (calls : List Call) (q : Process)
      → suc (suc (length calls)) < u32_mod
      → Inv calls q
      → let (calls', q') = run_calls cfg script_path schedule (calls, q) in Inv calls' q'
  unfolding run_calls step_call
  run_calls-Inv [] calls q small v = v
  run_calls-Inv (i ∷ schedule) calls q small v = elim (Option-cases (get_elem? calls i)) [
    | inl e ↦ rw (e, run_calls, step_call) (run_calls-Inv schedule calls q small v)
    | inr (c, e) ↦
        let (c', q') = advance_call cfg script_path c q in
        let fits : suc q.next_worker_id < u32_mod =
          omega (arith, v.counted, count_if-le has_drawn calls) in
        rw (e, run_calls, step_call)
          (run_calls-Inv schedule (set calls i c') q' (omega (arith, length-set calls i c'))
            (step-Inv i c calls q fits e v))
  ]

  -- However the calls interleave, from a process that has drawn no id yet and has the channels of the
  -- main thread, with fewer than 2^32 calls: no two calls draw the same id; every thread that is
  -- started has an id of 2 or more, so that the bridge takes none of them for the main thread; and
  -- the main thread's channels go to at most one call, which then is the only worker that cannot be
  -- recycled.
  pub run_calls-ids :
      (n channel : ℕ) (side : WorkerTxSide) (schedule : List ℕ)
      → n + 2 < u32_mod
      → let (calls, q) =
          run_calls cfg script_path schedule (replicate n Call.calling, launched side channel) in
        ((k : ℕ) → count_if (draws k) calls ≤ 1)
        × All IsThreadId q.threads
        × (count_if is_main calls + length q.channels ≡ 1)
  run_calls-ids n channel side schedule small =
      let v =
        run_calls-Inv schedule (replicate n Call.calling) (launched side channel)
          (omega (arith, length-replicate n Call.calling)) (start-Inv n) in
      (v.unique, v.threads, v.mains)
    where
      start-Inv : (k : ℕ) → Inv (replicate k Call.calling) (launched side channel)
      start-Inv zero = record {
        counted = refl;
        undrawn = λ k le. refl;
        unique = λ k. omega arith;
        past_main = tt;
        emptied = λ e. cc;
        threads = tt;
        mains = refl;
      }
      start-Inv (suc k) =
          let v = start-Inv k in
          record {
            counted = v.counted;
            undrawn = v.undrawn;
            unique = v.unique;
            past_main = (tt, v.past_main);
            emptied = v.emptied;
            threads = tt;
            mains = v.mains;
          }
