-- ===== src/Sched/Ranks/Entry.antt =====
-- The entry points of kernel/scheduler.c keep the priorities, the current task and the tick count.
use helix_rt.Prelude.{
  ℕ, zero, suc, ◌+◌, ◌%◌, Ptr, refl, true, none, some, ltb, if◌then◌else◌, either, ◌==◌, arith,
}
use helix_rt.Config.{word, time_slice_ticks}
use helix_rt.Task.{Tcb, Code, BlockReason, ready, blocked, same_state, put, set_prev}
use helix_rt.Sched.{Sched, update_tcb, when_some, scheduler_trigger_switch}
use helix_rt.Sched.Links.{ready_insert_tail, blocked_insert, clear_links}
use helix_rt.Sched.Ready.{
  preempt_for, scheduler_add_task, scheduler_remove_task, scheduler_yield, yield_current, rotate,
  rotate_before,
}
use helix_rt.Sched.Block.{
  release, block_self, blocked_tcb, unblock_body, scheduler_unblock_task, wake_best, best_waiter,
  scheduler_unblock_one, unblock_waiters, scheduler_unblock_all, waits_for,
}
use helix_rt.Sched.Ranks.{
  SameRanks-refl, SameRanks-trans, SameRanks-either, update_tcb-SameRanks,
  ready_insert_tail-SameRanks, ready_remove-SameRanks, blocked_insert-SameRanks,
  preempt_for-SameRanks, release-SameRanks, release_preempt-SameRanks, SameRanks,
}

pub scheduler_add_task-SameRanks : (t : ℕ) (s : Sched) → SameRanks s (scheduler_add_task t s)
unfolding scheduler_add_task
scheduler_add_task-SameRanks t s =
    let f : Tcb → Tcb = λ b. record b { state = ready; time_slice = time_slice_ticks } in
    let s1 : Sched = record s { primask = 1 } in
    let s2 : Sched = update_tcb t f s1 in
    let s3 : Sched = ready_insert_tail t s2 in
    SameRanks-trans s s3 (preempt_for t s3)
      (SameRanks-trans s s2 s3 (update_tcb-SameRanks t f s1 (λ b. refl))
        (ready_insert_tail-SameRanks t s2))
      (preempt_for-SameRanks t s3)

pub scheduler_remove_task-SameRanks :
    (t : ℕ) (s : Sched) → SameRanks s (scheduler_remove_task (some t) s)
unfolding scheduler_remove_task
scheduler_remove_task-SameRanks t s = ready_remove-SameRanks t (record s { primask = 1 })

pub block_self-SameRanks :
    (reason : BlockReason) (object : Ptr) (timeout t : ℕ) (s : Sched)
    → SameRanks s (block_self reason object timeout t s)
unfolding block_self scheduler_trigger_switch blocked_tcb
block_self-SameRanks reason object timeout t s =
    let s2 : Sched = scheduler_remove_task (some t) (record s { primask = 1 }) in
    let s3 : Sched = update_tcb t (blocked_tcb reason object timeout s2.tick_count) s2 in
    SameRanks-trans s s3 (blocked_insert t s3)
      (SameRanks-trans s s2 s3 (scheduler_remove_task-SameRanks t (record s { primask = 1 }))
        (update_tcb-SameRanks t (blocked_tcb reason object timeout s2.tick_count) s2 (λ b. refl)))
      (blocked_insert-SameRanks t s3)

pub scheduler_unblock_task-SameRanks :
    (t : ℕ) (result : Code) (s : Sched) → SameRanks s (scheduler_unblock_task (some t) result s)
unfolding scheduler_unblock_task unblock_body
scheduler_unblock_task-SameRanks t result s =
    let s1 : Sched = record s { primask = 1 } in
    SameRanks-either s1 (preempt_for t (release t result s1)) s1
      (same_state (s.tasks t).state blocked) (release_preempt-SameRanks t result s1)
      (SameRanks-refl s1)

module _ (reason : BlockReason) (object : Ptr) (result : Code) where
  pub scheduler_unblock_one-SameRanks :
      (s : Sched) → SameRanks s (scheduler_unblock_one reason object result s).1
  unfolding scheduler_unblock_one
  scheduler_unblock_one-SameRanks s =
      let s1 : Sched = record s { primask = 1 } in
      go s1 (best_waiter word reason object s1 s1.blocked_head none)
    where
      go : (u : Sched) (best : Ptr) → SameRanks u (wake_best best result u).1
      go u none = unfold wake_best in SameRanks-refl u
      go u (some b) = unfold wake_best in release_preempt-SameRanks b result u

  unblock_waiters-SameRanks :
      (fuel : ℕ) (iter : Ptr) (acc : ℕ × Sched)
      → SameRanks acc.1 (unblock_waiters fuel reason object result iter acc).1
  unfolding unblock_waiters
  unblock_waiters-SameRanks zero iter acc = SameRanks-refl acc.1
  unblock_waiters-SameRanks (suc fuel) none acc = SameRanks-refl acc.1
  unblock_waiters-SameRanks (suc fuel) (some t) acc =
      let next : ℕ × Sched =
        if waits_for reason object (acc.1.tasks t)
        then ((acc.0 + 1) % word, release t result acc.1)
        else acc in
      SameRanks-trans acc.1 next.1
        (unblock_waiters fuel reason object result (acc.1.tasks t).next next).1
        (either (λ (z : ℕ × Sched). SameRanks acc.1 z.1)
          ((acc.0 + 1) % word, release t result acc.1) acc (waits_for reason object (acc.1.tasks t))
          (release-SameRanks t result acc.1) (SameRanks-refl acc.1))
        (unblock_waiters-SameRanks fuel (acc.1.tasks t).next next)

  pub scheduler_unblock_all-SameRanks :
      (s : Sched) → SameRanks s (scheduler_unblock_all reason object result s).1
  unfolding scheduler_unblock_all scheduler_trigger_switch
  scheduler_unblock_all-SameRanks s =
      let s1 : Sched = record s { primask = 1 } in
      let r : ℕ × Sched = unblock_waiters word reason object result s1.blocked_head (0, s1) in
      let h : SameRanks s1 r.1 = unblock_waiters-SameRanks word s1.blocked_head (0, s1) in
      SameRanks-either s (record r.1 { pend_sv = true }) r.1 (ltb 0 r.0) h h

-- Yielding.
rotate_before-SameRanks :
    (next : Ptr) (head c prio : ℕ) (s : Sched) → SameRanks s (rotate_before next head c prio s)
unfolding rotate_before
rotate_before-SameRanks none head c prio s = SameRanks-refl s
rotate_before-SameRanks (some second) head c prio s =
    let s1 : Sched = record s {
      ready_list = put s.ready_list prio (some second);
      tasks = clear_links head (set_prev second none s.tasks);
    } in
    SameRanks-either s (ready_insert_tail head s1) s (head == c)
      (SameRanks-trans s s1 (ready_insert_tail head s1)
        (record { current = refl; clock = refl; ranks = λ a. ground arith })
        (ready_insert_tail-SameRanks head s1))
      (SameRanks-refl s)

rotate-SameRanks : (o : Ptr) (c prio : ℕ) (s : Sched) → SameRanks s (rotate o c prio s)
unfolding rotate
rotate-SameRanks none c prio s = SameRanks-refl s
rotate-SameRanks (some head) c prio s = rotate_before-SameRanks (s.tasks head).next head c prio s

pub scheduler_yield-SameRanks : (s : Sched) → SameRanks s (scheduler_yield s)
unfolding scheduler_yield scheduler_trigger_switch
scheduler_yield-SameRanks s = go s.current_task (record s { primask = 1 })
  where
    go : (o : Ptr) (u : Sched) → SameRanks u (when_some o yield_current u)
    go none u = SameRanks-refl u
    go (some c) u =
        let prio : ℕ = (u.tasks c).priority in
        unfold yield_current scheduler_trigger_switch in
        SameRanks-either u (record u { reschedule_pending = true })
          (record (rotate (u.ready_list prio) c prio u) { pend_sv = true }) (ltb 0 u.lock_count)
          (SameRanks-refl u) (rotate-SameRanks (u.ready_list prio) c prio u)
