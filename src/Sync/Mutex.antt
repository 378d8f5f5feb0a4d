-- ===== src/Sync/Mutex.antt =====
-- kernel/sync/mutex.c, with CONFIG_PRIORITY_INHERITANCE on.
pub mod Laws
pub mod Acquire
pub mod Nested
pub mod Inherit
pub mod Restore
use helix_rt.Prelude.{
  ℕ, ◌+◌, ◌-◌, Ptr, Bool, true, false, not, ◌&&◌, Option, none, some, List, bit_and, ltb, ◌==◌,
  same_ptr, if◌then◌else◌,
}
use helix_rt.Config.{timeout_none}
use helix_rt.Task.{Tcb, Code, ok, is_ok, err_param, err_timeout, err_isr, err_state, block_mutex}
use helix_rt.Sched.{Sched, critical_enter, critical_exit, is_isr_context}
use helix_rt.Sched.Ready.{scheduler_set_priority, scheduler_get_current}
use helix_rt.Sched.Block.{World, on_kernel, Env, scheduler_unblock_one}
use helix_rt.Sync.Wait.{Outcome, returned, Waiter, wait_loop}

pub record Mutex : Type 0 where
  pub locked : ℕ
  pub owner : Ptr
  pub owner_base_priority : ℕ
  pub recursive_count : ℕ
  pub flags : ℕ
  pub wait_list_head : Ptr
  pub wait_list_tail : Ptr

-- MUTEX_FLAG_RECURSIVE
abbrev pub is_recursive : Mutex → Bool
is_recursive m = not (bit_and m.flags 1 == 0)

unfoldable pub mutex_init : Ptr → ℕ → Mutex → Code × Mutex
mutex_init none flags m = (err_param, m)
mutex_init (some mtx) flags m = (
  ok,
  record {
    locked = 0;
    owner = none;
    owner_base_priority = 0;
    recursive_count = 0;
    flags = flags;
    wait_list_head = none;
    wait_list_tail = none;
  },
)

-- The assignments of the critical section of `mutex_trylock`, for the task `self` of priority `prio`.
unfoldable pub lock_as : ℕ → ℕ → Mutex → Code × Mutex
lock_as self prio m =
    if m.locked == 0
    then (
      ok,
      record m { locked = 1; owner = some self; owner_base_priority = prio; recursive_count = 1 },
    )
    else (if same_ptr m.owner (some self) && is_recursive m
        then (
          ok,
          (if ltb m.recursive_count 0xff
              then record m { recursive_count = m.recursive_count + 1 }
              else m),
        )
        else (err_timeout, m))

-- From the NULL test of the running task on.
unfoldable pub trylock_by : Ptr → World Mutex → Code × World Mutex
unfolding critical_enter critical_exit
trylock_by none w = (err_state, w)
trylock_by (some self) w =
    let (irq_state, k) = critical_enter w.kernel in
    let (res, m) = lock_as self (k.tasks self).priority w.object in
    (res, record { kernel = critical_exit irq_state k; object = m })

unfoldable pub mutex_trylock : Ptr → World Mutex → Code × World Mutex
unfolding is_isr_context scheduler_get_current trylock_by
mutex_trylock none w = (err_param, w)
mutex_trylock (some mtx) w =
    if is_isr_context w.kernel then (err_isr, w) else trylock_by (scheduler_get_current w.kernel) w

-- `if (mtx->owner != NULL && mtx->owner->priority > self->priority)` the owner is raised.
abbrev pub boosts : Ptr → ℕ → Sched → Bool
boosts none self k = false
boosts (some o) self k = ltb (k.tasks self).priority (k.tasks o).priority

unfoldable pub inherit_priority : ℕ → World Mutex → World Mutex
unfolding scheduler_set_priority
inherit_priority self w =
    if boosts w.object.owner self w.kernel
    then on_kernel (scheduler_set_priority w.object.owner (w.kernel.tasks self).priority) w
    else w

-- One round of `mutex_lock`: `mutex_trylock`, whose errors all lead on to the wait.
unfoldable pub lock_try : ℕ → World Mutex → Option Code × World Mutex
unfolding mutex_trylock
lock_try mtx w =
    let (res, w1) = mutex_trylock (some mtx) w in ((if is_ok res then some ok else none), w1)

abbrev pub lock_waiter : ℕ → ℕ → ℕ → Waiter Mutex Code
lock_waiter mtx self timeout = record {
  attempt = lock_try mtx;
  give_up = λ w. if timeout == timeout_none then some err_timeout else none;
  prepare = inherit_priority self;
  fail = λ res. res;
  reason = block_mutex;
  address = some mtx;
  timeout = timeout;
}

unfoldable pub mutex_lock : Ptr → ℕ → List (Env Mutex) → World Mutex → Outcome Mutex Code
unfolding is_isr_context scheduler_get_current wait_loop
mutex_lock none timeout envs w = returned err_param w
mutex_lock (some mtx) timeout envs w =
    if is_isr_context w.kernel then returned err_isr w else (elim (scheduler_get_current w.kernel) [
      | none ↦ returned err_state w
      | some self ↦ wait_loop (lock_waiter mtx self timeout) envs w
    ])

-- Back to the base priority, if it differs.
unfoldable pub restore_priority : ℕ → Sched → Sched
unfolding scheduler_set_priority
restore_priority self k =
    if (k.tasks self).priority == (k.tasks self).base_priority
    then k
    else scheduler_set_priority (some self) (k.tasks self).base_priority k

-- The critical section of `mutex_unlock`.
unfoldable pub unlock_as : ℕ → ℕ → World Mutex → World Mutex
unfolding critical_enter critical_exit restore_priority
unlock_as mtx self w =
    let (irq_state, k) = critical_enter w.kernel in
    if ltb 1 w.object.recursive_count
    then record {
      kernel = critical_exit irq_state k;
      object = record (w.object) { recursive_count = w.object.recursive_count - 1 };
    }
    else (let (_, k1) = scheduler_unblock_one block_mutex (some mtx) ok (restore_priority self k) in
        record {
          kernel = critical_exit irq_state k1;
          object = record (w.object) { locked = 0; owner = none; recursive_count = 0 };
        })

-- From the test of the owner on.
unfoldable pub unlock_by : ℕ → Ptr → World Mutex → Code × World Mutex
unfolding unlock_as
unlock_by mtx none w = (err_state, w)
unlock_by mtx (some self) w =
    if same_ptr w.object.owner (some self) then (ok, unlock_as mtx self w) else (err_state, w)

unfoldable pub mutex_unlock : Ptr → World Mutex → Code × World Mutex
unfolding is_isr_context scheduler_get_current unlock_by
mutex_unlock none w = (err_param, w)
mutex_unlock (some mtx) w =
    if is_isr_context w.kernel
    then (err_isr, w)
    else unlock_by mtx (scheduler_get_current w.kernel) w

unfoldable pub mutex_get_owner : Ptr → Mutex → Ptr
mutex_get_owner none m = none
mutex_get_owner (some mtx) m = m.owner

unfoldable pub mutex_is_locked : Mutex → ℕ
mutex_is_locked m = m.locked
