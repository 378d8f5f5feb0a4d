-- ===== src/Sync/Semaphore.antt =====
-- kernel/sync/semaphore.c. The address of the semaphore is a pointer, `none` for NULL; what stands
-- there is the object of the world.
pub mod Laws
use helix_rt.Prelude.{
  ℕ, Ptr, Bool, true, false, ◌&&◌, ◌||◌, Option, none, some, List, is_null, if◌then◌else◌,
}
use helix_rt.Prelude.Int.{ℤ, pos, ltb_ℤ, leb_ℤ, increment, decrement}
use helix_rt.Task.{Code, ok, err_param, err_overflow, err_state, block_semaphore}
use helix_rt.Sched.{Sched, critical_enter, critical_exit}
use helix_rt.Sched.Block.{World, on_kernel, Env, scheduler_unblock_one, scheduler_unblock_all}
use helix_rt.Sync.Wait.{Outcome, returned, Waiter, wait_loop, refuse_wait}

pub record Semaphore : Type 0 where
  pub count : ℤ
  pub max_count : ℤ
  pub wait_list_head : Ptr
  pub wait_list_tail : Ptr

unfoldable pub sem_init : Ptr → ℤ → ℤ → Semaphore → Code × Semaphore
sem_init sem initial max_count s =
    if is_null sem || ltb_ℤ initial (pos 0) || (ltb_ℤ (pos 0) max_count && ltb_ℤ max_count initial)
    then (err_param, s)
    else (
      ok,
      record {
        count = initial;
        max_count = max_count;
        wait_list_head = none;
        wait_list_tail = none;
      },
    )

unfoldable pub sem_init_binary : Ptr → ℤ → Semaphore → Code × Semaphore
unfolding sem_init
sem_init_binary sem (pos ℕ.zero) s = sem_init sem (pos 0) (pos 1) s
sem_init_binary sem _ s = sem_init sem (pos 1) (pos 1) s

-- `sem->count--;` and `sem->count++;`
abbrev pub taken : Semaphore → Semaphore
taken s = record s { count = decrement s.count }

abbrev pub given : Semaphore → Semaphore
given s = record s { count = increment s.count }

-- The critical section of `sem_take`.
unfoldable pub sem_try : World Semaphore → Option Code × World Semaphore
unfolding critical_enter critical_exit
sem_try w =
    let (irq_state, k) = critical_enter w.kernel in
    let w1 : World Semaphore = record w { kernel = critical_exit irq_state k } in
    if ltb_ℤ (pos 0) w.object.count
    then (some ok, record w1 { object = taken w.object })
    else (none, w1)

-- The loop of `sem_take`.
abbrev pub take_waiter : ℕ → ℕ → Waiter Semaphore Code
take_waiter sem timeout = record {
  attempt = sem_try;
  give_up = refuse_wait timeout;
  prepare = λ w1. w1;
  fail = λ res. res;
  reason = block_semaphore;
  address = some sem;
  timeout = timeout;
}

unfoldable pub sem_take : Ptr → ℕ → List (Env Semaphore) → World Semaphore → Outcome Semaphore Code
unfolding wait_loop
sem_take none timeout envs w = returned err_param w
sem_take (some sem) timeout envs w = wait_loop (take_waiter sem timeout) envs w

-- `max_count > 0 && count >= max_count`
abbrev pub is_full : Semaphore → Bool
is_full s = ltb_ℤ (pos 0) s.max_count && leb_ℤ s.max_count s.count

-- `sem_give_isr`, which is the critical section of `sem_give` too.
unfoldable pub give_unit : ℕ → World Semaphore → Code × World Semaphore
give_unit sem w =
    let (woken, k) = scheduler_unblock_one block_semaphore (some sem) ok w.kernel in
    let w1 : World Semaphore = record w { kernel = k } in
    if woken
    then (ok, w1)
    else (if is_full w.object
        then (err_overflow, w1)
        else (ok, record w1 { object = given w.object }))

unfoldable pub sem_give_isr : Ptr → World Semaphore → Code × World Semaphore
unfolding give_unit
sem_give_isr none w = (err_param, w)
sem_give_isr (some sem) w = give_unit sem w

unfoldable pub sem_give : Ptr → World Semaphore → Code × World Semaphore
unfolding give_unit critical_enter critical_exit
sem_give none w = (err_param, w)
sem_give (some sem) w =
    let (irq_state, k) = critical_enter w.kernel in
    let (res, w1) = give_unit sem (record w { kernel = k }) in
    (res, on_kernel (critical_exit irq_state) w1)

unfoldable pub sem_get_count : Ptr → Semaphore → ℤ
sem_get_count none s = pos 0
sem_get_count (some sem) s = s.count

unfoldable pub sem_reset : Ptr → ℤ → World Semaphore → Code × World Semaphore
sem_reset none new_count w = (err_param, w)
sem_reset (some sem) new_count w =
    if ltb_ℤ new_count (pos 0)
      || (ltb_ℤ (pos 0) w.object.max_count && ltb_ℤ w.object.max_count new_count)
    then (err_param, w)
    else (let (_, k) = scheduler_unblock_all block_semaphore (some sem) err_state w.kernel in
        (ok, record { kernel = k; object = record (w.object) { count = new_count } }))
