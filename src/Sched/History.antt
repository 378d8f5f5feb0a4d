-- ===== src/Sched/History.antt =====
-- Histories of calls of kernel/scheduler.c. The abstract scheduler knows only where each task is: on
-- the ready list of a priority, on the blocked list, or on none. It forgets the order of the lists and
-- how they are linked.
pub mod Placed
pub mod Delay
pub mod Choice
pub mod Calls
pub mod Start
pub mod Wakes
pub mod Laws
use helix_rt.Prelude.{
  ℕ, ◌+◌, ◌<◌, ◌≤◌, Ptr, ◌≡◌, Bool, true, false, ◌&&◌, none, some, ◌==◌, if◌then◌else◌,
}
use helix_rt.Config.{word, max_priority, time_slice_ticks}
use helix_rt.Task.{Tcb, Tcbs, Code, BlockReason, ready, running, same_state, put}
use helix_rt.Sched.{Sched, update_tcb}
use helix_rt.Sched.Ready.{
  scheduler_init, scheduler_start, scheduler_get_next, scheduler_add_task, scheduler_remove_task,
  scheduler_set_priority, scheduler_yield, scheduler_lock, scheduler_unlock, pendsv_handler,
}
use helix_rt.Sched.Block.{
  block_self, scheduler_unblock_task, scheduler_unblock_one, scheduler_unblock_all, waits_for,
}
use helix_rt.Sched.Tick.{scheduler_tick, expires}
use helix_rt.Sched.Tick.Laws.{next_tick}

pub data Place : Type 0 where
  nowhere waiting : Place
  ready_at : ℕ → Place

abbrev pub Places : Type 0
Places = ℕ → Place

abbrev pub is_ready_at : ℕ → Place → Bool
is_ready_at p nowhere = false
is_ready_at p waiting = false
is_ready_at p (ready_at q) = p == q

abbrev pub is_waiting : Place → Bool
is_waiting nowhere = false
is_waiting waiting = true
is_waiting (ready_at q) = false

abbrev pub is_placed : Place → Bool
is_placed nowhere = false
is_placed waiting = true
is_placed (ready_at q) = true

-- The entry points of the scheduler, and `assign`, by which the rest of the kernel sets up or retires
-- a control block. `block` is the half of `scheduler_block_task` before the task gives the processor
-- away. `scheduler_start` and `scheduler_set_priority` have no critical section, so that interrupts may
-- come between their steps. They are calls (`start`, `set_priority`), and so are the steps: `choose`
-- and `launch`, and `remove`, `rank` and `add`.
pub data Call : Type 0 where
  start choose : Call
  launch : ℕ → Call
  add remove : ℕ → Call
  set_priority rank : ℕ → ℕ → Call
  yield lock unlock tick switch : Call
  block : BlockReason → Ptr → ℕ → Call
  unblock : ℕ → Code → Call
  unblock_one unblock_all : BlockReason → Ptr → Code → Call
  assign : ℕ → Tcb → Call

-- `first->state`, `first->time_slice` and `first->sp`.
abbrev pub launched_tcb : Tcb → Tcb
launched_tcb b = record b { state = running; time_slice = time_slice_ticks; sp = b.stack_top }

-- `current_task` and `g_sched.current`, if there is a first task.
abbrev pub choose_first : Ptr → Sched → Sched
choose_first none s = s
choose_first (some first) s = record s { current_task = some first; sched_current = some first }

unfoldable pub run : Call → Sched → Sched
unfolding scheduler_start scheduler_get_next scheduler_add_task scheduler_remove_task
    scheduler_set_priority scheduler_yield scheduler_lock scheduler_unlock scheduler_tick
    pendsv_handler block_self scheduler_unblock_task scheduler_unblock_one scheduler_unblock_all
run start s = elim (scheduler_start s) [ none ↦ s | some s' ↦ s' ]
run choose s = choose_first (scheduler_get_next s) s
run (launch t) s = update_tcb t launched_tcb s
run (add t) s = scheduler_add_task t s
run (remove t) s = scheduler_remove_task (some t) s
run (set_priority t n) s = scheduler_set_priority (some t) n s
run (rank t n) s = update_tcb t (λ b. record b { priority = n }) s
run yield s = scheduler_yield s
run lock s = scheduler_lock s
run unlock s = scheduler_unlock s
run tick s = scheduler_tick s
run switch s = pendsv_handler s
run (block reason object timeout) s = elim s.current_task [
  | none ↦ s
  | some t ↦ block_self reason object timeout t s
]
run (unblock t result) s = scheduler_unblock_task (some t) result s
run (unblock_one reason object result) s = (scheduler_unblock_one reason object result s).1
run (unblock_all reason object result) s = (scheduler_unblock_all reason object result s).1
run (assign t b) s = update_tcb t (λ _. b) s

-- The waiting tasks that a test on their control blocks selects are ready.
unfoldable pub waken : (Tcb → Bool) → Tcbs → Places → Places
waken select tasks f a =
    if is_waiting (f a) && select (tasks a) then ready_at (tasks a).priority else f a

-- What a call does to the places, with the conditions under which the kernel makes it. `s` is the
-- state before it, of which the fields of the control blocks are read, and `s'` the one behind it.
pub data Moves (s s' : Sched) (f : Places) : Call → Places → Type 0 where
  begun : Moves s s' f start f
  chose : Moves s s' f choose f
  launched : (t p : ℕ) → f t ≡ ready_at p → Moves s s' f (launch t) f
  added :
      (t : ℕ)
      → f t ≡ nowhere
      → (s.tasks t).priority < max_priority
      → t + 1 < word
      → Moves s s' f (add t) (put f t (ready_at (s.tasks t).priority))
  removed : (t p : ℕ) → f t ≡ ready_at p → Moves s s' f (remove t) (put f t nowhere)
  reprioritised :
      (t p n : ℕ)
      → f t ≡ ready_at p
      → n < max_priority
      → Moves s s' f (set_priority t n) (put f t (ready_at n))
  reprioritised_waiting :
      (t n : ℕ) → f t ≡ waiting → n < max_priority → Moves s s' f (set_priority t n) f
  ranked : (t n : ℕ) → f t ≡ nowhere → n < max_priority → Moves s s' f (rank t n) f
  ranked_waiting : (t n : ℕ) → f t ≡ waiting → n < max_priority → Moves s s' f (rank t n) f
  yielded : Moves s s' f yield f
  locked : Moves s s' f lock f
  unlocked : Moves s s' f unlock f
  ticked : Moves s s' f tick (waken (expires (next_tick s)) s.tasks f)
  switched : Moves s s' f switch f
  blocked :
      (reason : BlockReason) (object : Ptr) (timeout t p : ℕ)
      → s.current_task ≡ some t
      → f t ≡ ready_at p
      → Moves s s' f (block reason object timeout) (put f t waiting)
  woken :
      (t : ℕ) (result : Code)
      → f t ≡ waiting
      → Moves s s' f (unblock t result) (put f t (ready_at (s.tasks t).priority))
  awake : (t p : ℕ) (result : Code) → f t ≡ ready_at p → Moves s s' f (unblock t result) f
  -- The waiter that is woken is the one that is then seen to be ready.
  woken_one :
      (reason : BlockReason) (object : Ptr) (result : Code) (t : ℕ)
      → f t ≡ waiting
      → waits_for reason object (s.tasks t) ≡ true
      → same_state (s'.tasks t).state ready ≡ true
      → Moves s s' f (unblock_one reason object result) (put f t (ready_at (s.tasks t).priority))
  woken_none :
      (reason : BlockReason) (object : Ptr) (result : Code)
      → ((a : ℕ) → f a ≡ waiting → waits_for reason object (s.tasks a) ≡ false)
      → Moves s s' f (unblock_one reason object result) f
  woken_all :
      (reason : BlockReason) (object : Ptr) (result : Code)
      → Moves s s' f (unblock_all reason object result) (waken (waits_for reason object) s.tasks f)
  assigned :
      (t : ℕ) (b : Tcb) → f t ≡ nowhere → b.priority < max_priority → Moves s s' f (assign t b) f

-- The states that a history of calls from the start of the scheduler leads to, with the places that
-- the history gives the tasks.
pub data Runs : Sched → Places → Type 0 where
  started : (s : Sched) → Runs (scheduler_init s) (λ a. nowhere)
  called :
      {s : Sched} {f g : Places} (c : Call) → Runs s f → Moves s (run c s) f c g → Runs (run c s) g
