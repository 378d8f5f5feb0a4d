-- ===== src/Tests.antt =====
-- Concrete systems: two tasks of priority 3 at the addresses 100 and 200.
pub mod OnSched
pub mod OnSync
pub mod OnKernel
pub mod OnSwitch
pub mod OnHistory
pub mod OnInherit
pub mod OnQueue
pub mod OnTimer
pub mod OnBoard
use helix_rt.Prelude.{
  ℕ, ◌+◌, ◌≡◌, ◌<◌, refl, Ptr, Bool, true, false, Bool-cases, inl, inr, ◌==◌, Option, none, some,
  List, [], ◌∷◌, has, remove, arith,
}
use helix_rt.Task.{Tcb, ok, ready, block_none, block_semaphore}
use helix_rt.Sched.{Sched}
use helix_rt.Sched.Links.{ready_insert_tail}
use helix_rt.Sched.Ready.{scheduler_init, scheduler_add_task}
use helix_rt.Sched.Block.{block_self}
use helix_rt.Sched.Valid.{IsValid, IsLoose}
use helix_rt.Sched.Valid.Insert.{append_queue}
use helix_rt.Sched.Valid.Remove.{remove_queue}
use helix_rt.Sched.Ready.Laws.{scheduler_add_task-IsValid}
use helix_rt.Sched.Block.Laws.{block_self-IsValid}
use helix_rt.Sched.Ready.Laws.{scheduler_init-IsValid}

abbrev pub blank_tcb : Tcb
blank_tcb = record {
  sp = 0;
  next = none;
  prev = none;
  id = 0;
  name = [];
  entry = none;
  arg = none;
  priority = 3;
  base_priority = 3;
  state = ready;
  flags = 0;
  stack_base = 0;
  stack_top = 0;
  stack_size = 0;
  delay_ticks = 0;
  time_slice = 0;
  wake_tick = 0;
  block_reason = block_none;
  block_object = none;
  block_timeout = 0;
  block_result = ok;
  run_count = 0;
  total_ticks = 0;
  max_stack_used = 0;
  event_wait_bits = 0;
  event_wait_all = 0;
}

abbrev pub blank : Sched
blank = record {
  tasks = λ a. blank_tcb;
  priority_bitmap = 0;
  ready_list = λ p. none;
  sched_current = none;
  lock_count = 0;
  reschedule_pending = false;
  tick_count = 0;
  blocked_head = none;
  current_task = none;
  next_task = none;
  primask = 0;
  ipsr = 0;
  pend_sv = false;
}

abbrev pub no_tasks : ℕ → List ℕ
no_tasks p = []

abbrev pub empty : Sched
empty = scheduler_init blank

-- One task, and two.
abbrev pub one_ready : Sched
one_ready = scheduler_add_task 100 empty

abbrev pub one_queue : ℕ → List ℕ
one_queue = append_queue no_tasks 3 100

pub no_tasks-IsLoose : (t : ℕ) → IsLoose t no_tasks []
no_tasks-IsLoose t = (λ p h. refl, refl)

pub empty-IsValid : IsValid empty no_tasks []
empty-IsValid = scheduler_init-IsValid blank

pub one_queue-IsLoose : IsLoose 200 one_queue []
one_queue-IsLoose = (others, refl)
  where
    others : (p : ℕ) → p < 32 → has 200 (one_queue p) ≡ false
    others p h = elim (Bool-cases (p == 3)) [ inl e ↦ rw e refl | inr e ↦ rw e refl ]

abbrev pub two_ready : Sched
two_ready = scheduler_add_task 200 one_ready

abbrev pub two_queue : ℕ → List ℕ
two_queue = append_queue one_queue 3 200

-- The first of the two runs.
abbrev pub first_runs : Sched
first_runs = record two_ready { current_task = some 100; lock_count = 0 }

pub two_ready-IsValid : IsValid two_ready two_queue []
unfolding scheduler_add_task scheduler_init ready_insert_tail
two_ready-IsValid =
    scheduler_add_task-IsValid one_ready one_queue [] 200 3
      (scheduler_add_task-IsValid empty no_tasks [] 100 3 empty-IsValid (omega arith) refl
        (omega arith) (no_tasks-IsLoose 100))
      (omega arith) refl (omega arith) one_queue-IsLoose

-- It has blocked on the semaphore at 500.
abbrev pub first_blocked : Sched
first_blocked = block_self block_semaphore (some 500) 7 100 first_runs

pub first_blocked-IsValid : IsValid first_blocked (remove_queue two_queue 3 100) (100 ∷ [])
first_blocked-IsValid =
    (block_self-IsValid first_runs two_queue [] 100 3 two_ready-IsValid (omega arith)
      block_semaphore (some 500) 7 refl).0

-- The second one has run, and has blocked on it too.
abbrev pub both_blocked : Sched
both_blocked = block_self block_semaphore (some 500) 7 200 first_blocked

pub both_blocked-IsValid :
    IsValid both_blocked (remove_queue (remove_queue two_queue 3 100) 3 200) (200 ∷ 100 ∷ [])
unfolding remove
both_blocked-IsValid =
    (block_self-IsValid first_blocked (remove_queue two_queue 3 100) (100 ∷ []) 200 3
      first_blocked-IsValid (omega arith) block_semaphore (some 500) 7 refl).0

-- One tick before the timeout of both.
abbrev pub late : Sched
late = record both_blocked { tick_count = 6 }
