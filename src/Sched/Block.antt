-- ===== src/Sched/Block.antt =====
-- The blocking side of kernel/scheduler.c. A task that blocks gives the processor away in the middle
-- of `scheduler_block_task`, so the function comes in two parts, up to the end of its critical
-- section and from the yield on, and what runs in between is an argument (`Env`).
pub mod Laws
pub mod Best
pub mod All
use helix_rt.Prelude.{
  ℕ, zero, suc, ◌+◌, ◌%◌, Ptr, Bool, true, false, ◌&&◌, none, some, same_ptr, ltb, ◌==◌,
  if◌then◌else◌,
}
use helix_rt.Config.{word, uint32_max}
use helix_rt.Task.{
  Tcb, Code, ok, err_state, ready, blocked, same_state, BlockReason, block_none, same_reason,
}
use helix_rt.Sched.{
  Sched, critical_enter, critical_exit, scheduler_trigger_switch, update_tcb, when_some,
}
use helix_rt.Sched.Links.{ready_insert_tail, blocked_insert, blocked_remove}
use helix_rt.Sched.Ready.{scheduler_remove_task, scheduler_yield, preempt_for}

-- The tick at which a wait that starts now ends.
unfoldable pub wake_tick_for : ℕ → ℕ → ℕ
wake_tick_for now timeout =
    if timeout == 0
    then (now + 1) % word
    else (if timeout == uint32_max then uint32_max else (now + timeout) % word)

-- The fields that a blocking task is given.
unfoldable pub blocked_tcb : BlockReason → Ptr → ℕ → ℕ → Tcb → Tcb
unfolding wake_tick_for
blocked_tcb reason object timeout now t = record t {
  state = blocked;
  block_reason = reason;
  block_object = object;
  block_timeout = timeout;
  block_result = ok;
  wake_tick = wake_tick_for now timeout;
}

-- `scheduler_block_task` for the current task `self`, up to `critical_exit`.
unfoldable pub block_self : BlockReason → Ptr → ℕ → ℕ → Sched → Sched
unfolding critical_enter critical_exit scheduler_remove_task blocked_tcb scheduler_trigger_switch
block_self reason object timeout self s =
    let (irq_state, s1) = critical_enter s in
    let s2 = scheduler_remove_task (some self) s1 in
    let s3 = update_tcb self (blocked_tcb reason object timeout s2.tick_count) s2 in
    critical_exit irq_state (scheduler_trigger_switch (blocked_insert self s3))

-- The kernel's state beside the object that a call is about.
pub record World (A : Type 0) : Type 0 where
  pub kernel : Sched
  pub object : A

abbrev pub on_kernel : {A : Type 0} → (Sched → Sched) → World A → World A
on_kernel f w = record w { kernel = f w.kernel }

-- What interrupts and other tasks do around one wait: before the call of `scheduler_block_task`,
-- while the task is switched out, and at the switch point behind its yield.
pub record Env (A : Type 0) : Type 0 where
  pub before : World A → World A
  pub away : World A → World A
  pub resumed : World A → World A

unfoldable pub scheduler_block_task :
    {A : Type 0} → Env A → BlockReason → Ptr → ℕ → World A → Code × World A
unfolding block_self scheduler_yield
scheduler_block_task env reason object timeout w = elim w.kernel.current_task [
  | none ↦ (err_state, w)
  | some self ↦
      let w1 = env.away (on_kernel (block_self reason object timeout self) w) in
      let w2 = env.resumed (on_kernel scheduler_yield w1) in
      ((w2.kernel.tasks self).block_result, w2)
]

-- The fields that a task is given when it is woken.
abbrev pub woken_tcb : Code → Tcb → Tcb
woken_tcb result t = record t {
  state = ready;
  block_reason = block_none;
  block_result = result;
  block_object = none;
  block_timeout = 0;
}

-- Off the blocked list, and to the tail of its ready list.
unfoldable pub release : ℕ → Code → Sched → Sched
release t result s = ready_insert_tail t (update_tcb t (woken_tcb result) (blocked_remove t s))

unfoldable pub unblock_body : Code → ℕ → Sched → Sched
unfolding release preempt_for
unblock_body result t s =
    if same_state (s.tasks t).state blocked then preempt_for t (release t result s) else s

unfoldable pub scheduler_unblock_task : Ptr → Code → Sched → Sched
unfolding critical_enter critical_exit unblock_body
scheduler_unblock_task tcb result s =
    let (irq_state, s1) = critical_enter s in
    critical_exit irq_state (when_some tcb (unblock_body result) s1)

-- `iter->block_reason == reason && iter->block_object == object`
abbrev pub waits_for : BlockReason → Ptr → Tcb → Bool
waits_for reason object t = same_reason t.block_reason reason && same_ptr t.block_object object

-- `best == NULL || iter->priority < best->priority`
abbrev pub improves : Sched → ℕ → Ptr → Bool
improves s iter none = true
improves s iter (some best) = ltb (s.tasks iter).priority (s.tasks best).priority

-- The loop of `scheduler_unblock_one`, on fuel: the waiter of highest priority, the first of them
-- on the list where several have it.
unfoldable pub best_waiter : ℕ → BlockReason → Ptr → Sched → Ptr → Ptr → Ptr
best_waiter zero reason object s iter best = best
best_waiter (suc fuel) reason object s iter best = elim iter [
  | none ↦ best
  | some t ↦
      best_waiter fuel reason object s (s.tasks t).next
        (if waits_for reason object (s.tasks t) && improves s t best then some t else best)
]

-- What follows the loop, `best` being what it found.
unfoldable pub wake_best : Ptr → Code → Sched → Bool × Sched
unfolding release preempt_for
wake_best none result s = (false, s)
wake_best (some best) result s = (true, preempt_for best (release best result s))

unfoldable pub scheduler_unblock_one : BlockReason → Ptr → Code → Sched → Bool × Sched
unfolding critical_enter critical_exit wake_best
scheduler_unblock_one reason object result s =
    let (irq_state, s1) = critical_enter s in
    let (woken, s2) =
      wake_best (best_waiter word reason object s1 s1.blocked_head none) result s1 in
    (woken, critical_exit irq_state s2)

-- The loop of `scheduler_unblock_all`, on fuel. The successor is read before the task is moved.
unfoldable pub unblock_waiters : ℕ → BlockReason → Ptr → Code → Ptr → ℕ × Sched → ℕ × Sched
unblock_waiters zero reason object result iter acc = acc
unblock_waiters (suc fuel) reason object result iter acc = elim iter [
  | none ↦ acc
  | some t ↦
      let next_iter = (acc.1.tasks t).next in
      unblock_waiters fuel reason object result next_iter (
        if waits_for reason object (acc.1.tasks t)
        then ((acc.0 + 1) % word, release t result acc.1)
        else acc)
]

unfoldable pub scheduler_unblock_all : BlockReason → Ptr → Code → Sched → ℕ × Sched
unfolding critical_enter critical_exit scheduler_trigger_switch
scheduler_unblock_all reason object result s =
    let (irq_state, s1) = critical_enter s in
    let (unblocked, s2) = unblock_waiters word reason object result s1.blocked_head (0, s1) in
    (
      unblocked,
      critical_exit irq_state (if ltb 0 unblocked then scheduler_trigger_switch s2 else s2),
    )
