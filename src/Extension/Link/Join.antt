-- ===== src/Extension/Link/Join.antt =====
-- What `terminate` of runtime.rs waits for when it joins the worker's thread.
use folk_core.Base.{
  ℕ, ◌≡◌, ◌⊎◌, inl, inr, refl, sym, ap, ◌∙◌, Bool, true, false, not, ◌||◌, Option, none, some, List,
  [], ◌∷◌, ◌++◌, All, append_assoc, append-nil, arith, Option-cases,
}
use mathlib.Core.Bool.{false≢true}
use folk_core.Extension.Link.{
  Link, LinkEvent, execute, take_task, finish_task, leave, time_out, die, close, execute_streaming,
  terminate, on_take, on_finish, on_time_out, on_die, on_leave, step_link, run_link, new_link,
  has_returned,
}

abbrev pub running_tasks : Option ℕ → List ℕ
running_tasks none = []
running_tasks (some q) = q ∷ []

-- The task that PHP runs, then those in the channel.
abbrev pub tasks : Link → List ℕ
tasks l = running_tasks l.running ++ l.queue

abbrev finished_by : LinkEvent → Link → List ℕ
finished_by finish_task l = running_tasks l.running
finished_by _ l = []

-- The tasks that PHP finishes, in order.
unfoldable pub run_finished : List LinkEvent → Link → List ℕ
run_finished [] l = []
run_finished (e ∷ es) l = finished_by e l ++ run_finished es (step_link e l)

abbrev pub is_orderly : LinkEvent → Bool
is_orderly die = false
is_orderly _ = true

-- What is left to do for a worker whose channel is closed.
abbrev pub rest_of : List ℕ → List LinkEvent
rest_of [] = leave ∷ []
rest_of (q ∷ qs) = take_task ∷ finish_task ∷ rest_of qs

abbrev pub ending : Link → List LinkEvent
ending l = elim l.running [ none ↦ rest_of l.queue | some q ↦ finish_task ∷ rest_of l.queue ]

-- A worker that is gone has no task.
abbrev HoldsNone : Link → Type 0
HoldsNone l = (l.alive ≡ true) ⊎ (tasks l ≡ [])

step_link-HoldsNone : (e : LinkEvent) (l : Link) → HoldsNone l → HoldsNone (step_link e l)
unfolding step_link execute_streaming terminate on_take on_finish on_time_out on_die on_leave
step_link-HoldsNone (execute task) l v = ground arith
step_link-HoldsNone take_task l v = ground arith
step_link-HoldsNone finish_task l v = ground arith
step_link-HoldsNone leave l v = ground arith
step_link-HoldsNone time_out l v = ground arith
step_link-HoldsNone die l v = ground arith
step_link-HoldsNone close l v = v

run_link-HoldsNone : (es : List LinkEvent) (l : Link) → HoldsNone l → HoldsNone (run_link es l)
unfolding run_link
run_link-HoldsNone [] l v = v
run_link-HoldsNone (e ∷ es) l v = run_link-HoldsNone es (step_link e l) (step_link-HoldsNone e l v)

-- Behind a closed channel an event finishes the first task or none.
step_link-tasks :
    (e : LinkEvent) (l : Link)
    → is_orderly e ≡ true
    → l.connected ≡ false
    → ((step_link e l).connected ≡ false) × (finished_by e l ++ tasks (step_link e l) ≡ tasks l)
unfolding step_link execute_streaming terminate on_take on_finish on_time_out on_die on_leave
step_link-tasks (execute task) l o c = ground arith
step_link-tasks take_task l o c = ground arith
step_link-tasks finish_task l o c = ground arith
step_link-tasks leave l o c = ground arith
step_link-tasks time_out l o c = ground arith
step_link-tasks die l o c = ground arith
step_link-tasks close l o c = ground arith

run_link-tasks :
    (es : List LinkEvent) (l : Link)
    → All (λ e. is_orderly e ≡ true) es
    → l.connected ≡ false
    → ((run_link es l).connected ≡ false) × (run_finished es l ++ tasks (run_link es l) ≡ tasks l)
unfolding run_link run_finished
run_link-tasks [] l o c = (c, refl)
run_link-tasks (e ∷ es) l (o, os) c =
    let (closed, one) = step_link-tasks e l o c in
    let (still, more) = run_link-tasks es (step_link e l) os closed in
    (
      still,
      append_assoc (finished_by e l) (run_finished es (step_link e l)) _
          ∙ ap (λ xs. finished_by e l ++ xs) more
          ∙ one,
    )

taken_and_finished :
    (l : Link) (q : ℕ) (qs : List ℕ)
    → l.running ≡ none
    → l.queue ≡ q ∷ qs
    → ((step_link finish_task (step_link take_task l)).connected ≡ l.connected)
      × ((step_link finish_task (step_link take_task l)).running ≡ none)
      × ((step_link finish_task (step_link take_task l)).queue ≡ qs)
      × (finished_by finish_task (step_link take_task l) ≡ q ∷ [])
unfolding step_link on_take on_finish
taken_and_finished l q qs r e = ground arith

run_link-rest_of :
    (qs : List ℕ) (l : Link)
    → l.connected ≡ false
    → l.running ≡ none
    → l.queue ≡ qs
    → ((run_link (rest_of qs) l).alive ≡ false) × (run_finished (rest_of qs) l ≡ qs)
unfolding run_link run_finished step_link on_leave on_die
run_link-rest_of [] l c r e = (ground (arith, c, r, e), refl)
run_link-rest_of (q ∷ qs) l c r e =
    let (c', r', e', one) = taken_and_finished l q qs r e in
    let (gone, all) =
      run_link-rest_of qs (step_link finish_task (step_link take_task l)) (c' ∙ c) r' e' in
    (
      gone,
      ap (λ xs. xs ++ run_finished (rest_of qs) (step_link finish_task (step_link take_task l))) one
          ∙ ap (λ xs. q ∷ xs) all,
    )

run_link-ending :
    (l : Link)
    → l.connected ≡ false
    → ((run_link (ending l) l).alive ≡ false) × (run_finished (ending l) l ≡ tasks l)
unfolding run_link run_finished step_link on_finish
run_link-ending l c = elim (Option-cases l.running) [
  | inl r ↦
      rw (r, ending, tasks) (run_link-rest_of l.queue (record l { running = none }) c refl refl)
  | inr (q, r) ↦
      let (gone, all) =
        run_link-rest_of l.queue (step_link finish_task (record l { running = some q })) c refl
          refl in
      rw (r, ending, tasks) (gone, ap (λ xs. q ∷ xs) all)
]

or_true : (b : Bool) → (b || true) ≡ true
or_true true = refl
or_true false = refl

-- The link of a worker, after any history, when its handle is terminated.
abbrev pub closed_after : List LinkEvent → Link
closed_after es = (terminate (run_link es new_link)).1

-- Whether `terminate` waits for the thread then.
abbrev pub waits_after : List LinkEvent → Bool
waits_after es = (terminate (run_link es new_link)).0

-- The supervisor has not terminated the handle before.
abbrev pub is_before : LinkEvent → Bool
is_before close = false
is_before _ = true

step_link-handle :
    (e : LinkEvent) (l : Link)
    → is_before e ≡ true
    → (step_link e l).thread_handle ≡ l.thread_handle
unfolding step_link execute_streaming terminate on_take on_finish on_time_out on_die on_leave
step_link-handle (execute task) l o = ground arith
step_link-handle take_task l o = ground arith
step_link-handle finish_task l o = ground arith
step_link-handle leave l o = ground arith
step_link-handle time_out l o = ground arith
step_link-handle die l o = refl
step_link-handle close l o = absurd (false≢true o)

run_link-handle :
    (es : List LinkEvent) (l : Link)
    → All (λ e. is_before e ≡ true) es
    → (run_link es l).thread_handle ≡ l.thread_handle
unfolding run_link
run_link-handle [] l o = refl
run_link-handle (e ∷ es) l (o, os) = run_link-handle es (step_link e l) os ∙ step_link-handle e l o

-- A worker in a thread of its own is terminated, for the first time, while PHP runs a task and others
-- are in the channel, whose calls may all have run out of time. Whatever happens then, short of a
-- sudden death of the thread, PHP finishes them in order; `terminate` has not returned, or it has
-- finished them all; and it returns when PHP has finished those that are left.
pub terminate-joins :
    (es more : List LinkEvent)
    → All (λ e. is_before e ≡ true) es
    → All (λ e. is_orderly e ≡ true) more
    → (run_finished more (closed_after es) ++ tasks (run_link more (closed_after es))
        ≡ tasks (closed_after es))
      × ((has_returned (waits_after es) (run_link more (closed_after es)) ≡ false)
          ⊎ (run_finished more (closed_after es) ≡ tasks (closed_after es)))
      × (has_returned
            (waits_after es)
            (run_link (ending (run_link more (closed_after es))) (run_link more (closed_after es)))
          ≡ true)
      × (run_finished (ending (run_link more (closed_after es))) (run_link more (closed_after es))
          ≡ tasks (run_link more (closed_after es)))
unfolding terminate step_link has_returned
terminate-joins es more first o =
    let l : Link = closed_after es in
    let waits : waits_after es ≡ true = run_link-handle es new_link first in
    let (closed, in_order) = run_link-tasks more l o refl in
    let none_left : HoldsNone (run_link more l) = run_link-HoldsNone more l (
      step_link-HoldsNone close (run_link es new_link)
        (run_link-HoldsNone es new_link (inl refl))) in
    let (ends, finishes) = run_link-ending (run_link more l) closed in
    (
      in_order,
      elim none_left [
        | inl there ↦ inl (ap (λ b. not b || not (run_link more l).alive) waits ∙ ap not there)
        | inr empty ↦ inr (
            sym (append-nil (run_finished more l))
            ∙ ap (λ xs. run_finished more l ++ xs) (sym empty)
            ∙ in_order)
      ],
      ap (λ b. not (waits_after es) || not b) ends ∙ or_true (not (waits_after es)),
      finishes,
    )
