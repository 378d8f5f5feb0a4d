-- ===== src/Sched/Block/Laws.antt =====
-- Blocking and waking one task, on a valid scheduler.
use helix_rt.Prelude.{
  ℕ, ◌<◌, Ptr, ◌≡◌, refl, sym, subst, ◌∙◌, List, ◌∷◌, Bool, true, false, some, has, if◌then◌else◌,
  arith, remove,
}
use helix_rt.Config.{max_priority}
use helix_rt.Task.{Tcb, Code, ok, BlockReason, blocked, same_state}
use helix_rt.Sched.{Sched, update_tcb, scheduler_trigger_switch}
use helix_rt.Sched.Links.{ready_remove, blocked_insert, blocked_remove}
use helix_rt.Sched.Ready.{scheduler_remove_task, preempt_for}
use helix_rt.Sched.Block.{
  block_self, blocked_tcb, release, woken_tcb, unblock_body, scheduler_unblock_task,
}
use helix_rt.Sched.Chain.Unlink.{unlink-fields}
use helix_rt.Sched.Valid.{IsReadyAt, IsValid, IsLoose}
use helix_rt.Sched.Valid.Frame.{update_loose-IsValid}
use helix_rt.Sched.Valid.Insert.{ready_insert_tail-IsValid, append_queue}
use helix_rt.Sched.Valid.Blocked.{
  blocked_insert-IsValid, blocked_remove-IsValid, blocked_remove-IsLoose,
}
use helix_rt.Sched.Valid.Remove.{remove_queue}
use helix_rt.Sched.Ready.Laws.{scheduler_remove_task-IsValid, preempt_for-IsValid}

remove-priority :
    (s : Sched) (t : ℕ)
    → ((scheduler_remove_task (some t) s).tasks t).priority ≡ (s.tasks t).priority
unfolding scheduler_remove_task ready_remove
remove-priority s t = (unlink-fields s.tasks t t).0

module _ (s : Sched) (queues : ℕ → List ℕ) (waiting : List ℕ) (t p : ℕ)
    (v : IsValid s queues waiting) (small : p < max_priority) where
  -- On a valid scheduler, `scheduler_block_task` up to its switch point moves a task from its ready
  -- list to the front of the blocked list, keeps the lists valid and leaves a switch pending.
  pub block_self-IsValid :
      (reason : BlockReason) (object : Ptr) (timeout : ℕ)
      → has t (queues p) ≡ true
      → IsValid (block_self reason object timeout t s) (remove_queue queues p t) (t ∷ waiting)
        × ((block_self reason object timeout t s).pend_sv ≡ true)
  unfolding block_self blocked_tcb scheduler_trigger_switch
  block_self-IsValid reason object timeout here =
      let s1 : Sched = record s { primask = 1 } in
      let s2 : Sched = scheduler_remove_task (some t) s1 in
      let f : Tcb → Tcb = blocked_tcb reason object timeout s2.tick_count in
      let r : IsReadyAt s.tasks p t = (v.queue p small).members t here in
      let (v2, loose) = scheduler_remove_task-IsValid s1 queues waiting t p v small here in
      let kept : (s2.tasks t).priority ≡ p = remove-priority s1 t ∙ r.priority in
      (
        blocked_insert-IsValid (update_tcb t f s2) (remove_queue queues p t) waiting t
            (update_loose-IsValid s2 (remove_queue queues p t) waiting v2 t f loose)
            (record { priority = ground arith; state = ground arith; address = r.address }) loose,
        refl,
      )

-- The control block of the task that blocks.
pub block_self-tcb :
    (reason : BlockReason) (object : Ptr) (timeout t : ℕ) (s : Sched)
    → let b = (block_self reason object timeout t s).tasks t in
      (b.state ≡ blocked)
      × (b.block_reason ≡ reason)
      × (b.block_object ≡ object)
      × (b.block_timeout ≡ timeout)
      × (b.block_result ≡ ok)
unfolding block_self blocked_tcb blocked_insert scheduler_trigger_switch
block_self-tcb reason object timeout t s =
    (ground arith, ground arith, ground arith, ground arith, ground arith)

module _ (s : Sched) (queues : ℕ → List ℕ) (waiting : List ℕ) (t p : ℕ)
    (v : IsValid s queues waiting) (here : has t waiting ≡ true)
    (prio : (s.tasks t).priority ≡ p) where
  small : p < max_priority
  small = rw (← prio) ((v.wait_list.members t here).priority)

  pub release-IsValid :
      (result : Code) → IsValid (release t result s) (append_queue queues p t) (remove t waiting)
  unfolding release blocked_remove
  release-IsValid result =
      let s1 : Sched = blocked_remove t s in
      let loose : IsLoose t queues (remove t waiting) =
        blocked_remove-IsLoose s queues waiting v t here in
      let kept : (s1.tasks t).priority ≡ p = (unlink-fields s.tasks t t).0 ∙ prio in
      ready_insert_tail-IsValid (update_tcb t (woken_tcb result) s1) queues (remove t waiting) t p
        (update_loose-IsValid s1 queues (remove t waiting)
          (blocked_remove-IsValid s queues waiting v t here) t (woken_tcb result) loose)
        small
        (record {
          priority = ground arith;
          runnable = ground arith;
          address = (v.wait_list.members t here).address;
        })
        loose

module _ (s : Sched) (queues : ℕ → List ℕ) (waiting : List ℕ) (t p : ℕ)
    (v : IsValid s queues waiting) (here : has t waiting ≡ true)
    (prio : (s.tasks t).priority ≡ p) where
  -- On a valid scheduler `scheduler_unblock_task` moves a task from the blocked list to the end of the
  -- ready list of its priority and keeps the lists valid.
  pub scheduler_unblock_task-IsValid :
      (result : Code)
      → IsValid
          (scheduler_unblock_task (some t) result s)
          (append_queue queues p t)
          (remove t waiting)
  unfolding scheduler_unblock_task unblock_body
  scheduler_unblock_task-IsValid result =
      let s1 : Sched = record s { primask = 1 } in
      let is_blocked : same_state (s.tasks t).state blocked ≡ true =
        rw ((v.wait_list.members t here).state) refl in
      subst
        (λ (b : Bool).
          IsValid (if b then preempt_for t (release t result s1) else s1) (append_queue queues p t)
            (remove t waiting))
        (sym is_blocked)
        (preempt_for-IsValid (release t result s1) (append_queue queues p t) (remove t waiting) t
          (release-IsValid s1 queues waiting t p v here prio result))

-- A task that is not blocked is left alone.
pub scheduler_unblock_task-not_blocked :
    (s : Sched) (t : ℕ) (result : Code)
    → same_state (s.tasks t).state blocked ≡ false
    → scheduler_unblock_task (some t) result s ≡ s
unfolding scheduler_unblock_task unblock_body
scheduler_unblock_task-not_blocked s t result h = rw h
