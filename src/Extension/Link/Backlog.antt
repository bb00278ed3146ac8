-- ===== src/Extension/Link/Backlog.antt =====
-- How many tasks a worker of runtime.rs can have in its channel.
use folk_core.Base.{
  ℕ, ◌+◌, ◌≤◌, ◌≡◌, none, List, [], ◌∷◌, length, length-append, bit, is_some, arith,
}
use folk_core.Extension.Link.{
  Link, LinkEvent, execute, take_task, finish_task, leave, time_out, die, close, capacity, blocked,
  execute_streaming, terminate, on_take, on_finish, on_time_out, on_die, on_leave, step_link,
  run_link, new_link,
}

-- The tasks that the worker has are no more than the calls that the supervisor awaits or has given up.
abbrev pub Backlog : Link → Type 0
Backlog l = length l.queue + bit (is_some l.running) ≤ l.timeouts + bit (is_some l.awaited)

step_link-Backlog : (e : LinkEvent) (l : Link) → Backlog l → Backlog (step_link e l)
unfolding step_link execute_streaming terminate on_take on_finish on_time_out on_die on_leave
step_link-Backlog (execute task) l v = ground (arith, length-append l.queue (task ∷ []))
step_link-Backlog take_task l v = ground arith
step_link-Backlog finish_task l v = ground arith
step_link-Backlog leave l v = ground arith
step_link-Backlog time_out l v = ground arith
step_link-Backlog die l v = ground arith
step_link-Backlog close l v = v

run_link-Backlog : (es : List LinkEvent) (l : Link) → Backlog l → Backlog (run_link es l)
unfolding run_link
run_link-Backlog [] l v = v
run_link-Backlog (e ∷ es) l v = run_link-Backlog es (step_link e l) (step_link-Backlog e l v)

-- Whatever happens at a link: a call by a supervisor that awaits no task blocks its thread only after
-- at least eight calls have been given up.
pub run_link-blocked :
    (es : List LinkEvent) (task : ℕ)
    → (run_link es new_link).awaited ≡ none
    → (execute_streaming task (run_link es new_link)).0 ≡ blocked
    → capacity ≤ (run_link es new_link).timeouts
unfolding execute_streaming
run_link-blocked es task idle full =
    fits (run_link es new_link) (run_link-Backlog es new_link (omega arith)) idle full
  where
    fits :
        (l : Link)
        → Backlog l
        → l.awaited ≡ none
        → (execute_streaming task l).0 ≡ blocked
        → capacity ≤ l.timeouts
    fits l v idle' full' = ground arith
