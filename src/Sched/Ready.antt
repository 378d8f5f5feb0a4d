-- ===== src/Sched/Ready.antt =====
-- The ready side of kernel/scheduler.c: start-up, adding and removing tasks, priorities, yielding,
-- the choice of the next task, and the preemption lock.
pub mod Laws
pub mod Priority
pub mod Lost
pub mod Lock
pub mod Yield
use helix_rt.Prelude.{
  ℕ, ◌+◌, ◌-◌, ◌%◌, Ptr, Bool, true, false, ◌&&◌, ◌||◌, Option, none, some, ltb, leb, ◌==◌,
  if◌then◌else◌,
}
use helix_rt.Config.{word, max_priority, time_slice_ticks}
use helix_rt.Task.{Tcb, ready, running, same_state, put, set_prev}
use helix_rt.Bitmap.{bitmap_find_highest}
use helix_rt.Sched.{
  Sched, critical_enter, critical_exit, scheduler_trigger_switch, update_tcb, when_some,
}
use helix_rt.Sched.Links.{ready_insert_tail, ready_remove, clear_links}

unfoldable pub scheduler_init : Sched → Sched
scheduler_init s = record s {
  priority_bitmap = 0;
  sched_current = none;
  lock_count = 0;
  reschedule_pending = false;
  ready_list = λ i. if ltb i max_priority then none else s.ready_list i;
  tick_count = 0;
  blocked_head = none;
  current_task = none;
  next_task = none;
}

unfoldable pub scheduler_get_current : Sched → Ptr
scheduler_get_current s = s.current_task

unfoldable pub scheduler_get_next : Sched → Ptr
scheduler_get_next s =
    let highest_prio = bitmap_find_highest s.priority_bitmap in
    if leb max_priority highest_prio then none else s.ready_list highest_prio

unfoldable pub scheduler_select_next_task : Sched → Ptr × Sched
unfolding scheduler_get_next
scheduler_select_next_task s =
    let next = scheduler_get_next s in (next, record s { next_task = next; sched_current = next })

-- PendSV_Handler of kernel/context.s: taking the exception clears its pending bit; the handler
-- stores the selected task as the current one. Kernel/Switch adds the registers that it saves.
unfoldable pub pendsv_handler : Sched → Sched
unfolding scheduler_select_next_task
pendsv_handler s =
    let (next, s') = scheduler_select_next_task (record s { pend_sv = false }) in
    record s' { current_task = next }

-- The state in which the first task's entry function is called; `none` is the `wfi` loop that is
-- entered when no task is ready.
unfoldable pub scheduler_start : Sched → Option Sched
unfolding scheduler_get_next
scheduler_start s = elim (scheduler_get_next s) [
  | none ↦ none
  | some first ↦ some (
      update_tcb first
        (λ t. record t { state = running; time_slice = time_slice_ticks; sp = t.stack_top })
        (record s { current_task = some first; sched_current = some first }))
]

-- `current_task != NULL && tcb->priority < current_task->priority`
abbrev pub outranks_current : ℕ → Sched → Bool
outranks_current t s = elim s.current_task [
  | none ↦ false
  | some c ↦ ltb (s.tasks t).priority (s.tasks c).priority
]

unfoldable pub preempt_for : ℕ → Sched → Sched
unfolding scheduler_trigger_switch
preempt_for t s = if outranks_current t s then scheduler_trigger_switch s else s

unfoldable pub scheduler_add_task : ℕ → Sched → Sched
unfolding critical_enter critical_exit preempt_for
scheduler_add_task t s =
    let (irq_state, s1) = critical_enter s in
    let s2 = update_tcb t (λ b. record b { state = ready; time_slice = time_slice_ticks }) s1 in
    critical_exit irq_state (preempt_for t (ready_insert_tail t s2))

unfoldable pub scheduler_remove_task : Ptr → Sched → Sched
unfolding critical_enter critical_exit
scheduler_remove_task tcb s =
    let (irq_state, s1) = critical_enter s in
    critical_exit irq_state (when_some tcb ready_remove s1)

-- `tcb->state == TASK_STATE_READY || tcb->state == TASK_STATE_RUNNING`
abbrev pub is_runnable : Tcb → Bool
is_runnable t = same_state t.state ready || same_state t.state running

unfoldable pub scheduler_set_priority : Ptr → ℕ → Sched → Sched
unfolding scheduler_remove_task scheduler_add_task
scheduler_set_priority none new_priority s = s
scheduler_set_priority (some t) new_priority s =
    let change = update_tcb t (λ b. record b { priority = new_priority }) in
    if leb max_priority new_priority
    then s
    else (if is_runnable (s.tasks t)
        then scheduler_add_task t (change (scheduler_remove_task (some t) s))
        else change s)

-- Round-robin: the head moves to the tail when it is the current task and has a peer, which is the
-- pointer given first.
unfoldable pub rotate_before : Ptr → ℕ → ℕ → ℕ → Sched → Sched
rotate_before none head c prio s = s
rotate_before (some second) head c prio s =
    if head == c
    then ready_insert_tail head (record s {
      ready_list = put s.ready_list prio (some second);
      tasks = clear_links head (set_prev second none s.tasks);
    })
    else s

unfoldable pub rotate : Ptr → ℕ → ℕ → Sched → Sched
unfolding rotate_before
rotate none c prio s = s
rotate (some head) c prio s = rotate_before (s.tasks head).next head c prio s

unfoldable pub yield_current : ℕ → Sched → Sched
unfolding rotate scheduler_trigger_switch
yield_current c s =
    if ltb 0 s.lock_count
    then record s { reschedule_pending = true }
    else (let prio = (s.tasks c).priority in
        scheduler_trigger_switch (rotate (s.ready_list prio) c prio s))

unfoldable pub scheduler_yield : Sched → Sched
unfolding critical_enter critical_exit yield_current
scheduler_yield s =
    let (irq_state, s1) = critical_enter s in
    critical_exit irq_state (when_some s1.current_task yield_current s1)

unfoldable pub scheduler_get_tick_count : Sched → ℕ
scheduler_get_tick_count s = s.tick_count

unfoldable pub scheduler_lock : Sched → Sched
unfolding critical_enter critical_exit
scheduler_lock s =
    let (irq_state, s1) = critical_enter s in
    critical_exit irq_state (record s1 { lock_count = (s1.lock_count + 1) % word })

unfoldable pub scheduler_unlock : Sched → Sched
unfolding critical_enter critical_exit scheduler_trigger_switch
scheduler_unlock s =
    let (irq_state, s1) = critical_enter s in
    let s2 = if ltb 0 s1.lock_count then record s1 { lock_count = s1.lock_count - 1 } else s1 in
    let s3 =
      if s2.lock_count == 0 && s2.reschedule_pending
      then scheduler_trigger_switch (record s2 { reschedule_pending = false })
      else s2 in
    critical_exit irq_state s3

unfoldable pub scheduler_is_locked : Sched → Bool
scheduler_is_locked s = ltb 0 s.lock_count
