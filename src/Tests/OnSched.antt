-- ===== src/Tests/OnSched.antt =====
-- The scheduler's theorems on the two tasks.
use helix_rt.Config.{max_priority}
use helix_rt.Sched.Tick.{scheduler_tick, expires}
use helix_rt.Sched.Ranks.{InRange}
use helix_rt.Sched.Tick.Laws.{next_tick, due_queues, scheduler_tick-HasReady}
use helix_rt.Sched.Walk.{others, append_all}
use helix_rt.Sched.Ready.Yield.{HasReady}
use helix_rt.Sched.Block.All.{waiters, scheduler_unblock_all-moves}
use helix_rt.Sched.Block.{scheduler_unblock_all, waits_for}
use helix_rt.Sched.Ready.{scheduler_lock, scheduler_unlock}
use helix_rt.Sched.Ready.Lock.{scheduler_lock-unlock}
use helix_rt.Prelude.{
  ◌==◌, if◌then◌else◌, false, ℕ, List, length, subst, sym, ◌∙◌, ◌≡◌, ◌<◌, refl, true, none, some,
  [], ◌∷◌, arith,
}
use helix_rt.Task.{ok, block_semaphore}
use helix_rt.Sched.{critical_enter, critical_exit}
use helix_rt.Sched.Links.{
  ready_insert_tail, append_ready, last_of, blocked_insert, ready_remove, unlink,
}
use helix_rt.Sched.Ready.{
  scheduler_init, scheduler_add_task, scheduler_remove_task, scheduler_yield, scheduler_get_next,
  preempt_for,
}
use helix_rt.Sched.Block.{block_self, blocked_tcb, scheduler_unblock_one}
use helix_rt.Sched.Valid.{IsValid}
use helix_rt.Sched.Valid.Insert.{append_queue}
use helix_rt.Sched.Valid.Remove.{remove_queue}
use helix_rt.Sched.Ready.Laws.{IsNext, scheduler_get_next-IsNext}
use helix_rt.Sched.Ready.Lost.{scheduler_remove_task-drops_waiters}
use helix_rt.Sched.Chain.{Chain}
use helix_rt.Sched.Ready.Priority.{scheduler_yield-rotates}
use helix_rt.Sched.Block.Best.{Woke, scheduler_unblock_one-Woke}
use helix_rt.Tests.{
  two_ready, two_queue, first_runs, first_blocked, both_blocked, late, both_blocked-IsValid,
  two_ready-IsValid, first_blocked-IsValid,
}

scheduler_get_next-IsNext_example : IsNext two_queue (scheduler_get_next two_ready)
scheduler_get_next-IsNext_example =
    scheduler_get_next-IsNext two_ready two_queue [] two_ready-IsValid

scheduler_yield-rotates_example :
    IsValid (scheduler_yield first_runs) (append_queue (remove_queue two_queue 3 100) 3 100) []
    × ((scheduler_yield first_runs).pend_sv ≡ true)
scheduler_yield-rotates_example =
    scheduler_yield-rotates first_runs two_queue [] 100 200 3 [] two_ready-IsValid (omega arith)
      refl refl refl

first_blocked-priority : (first_blocked.tasks 100).priority ≡ 3
unfolding block_self blocked_tcb blocked_insert scheduler_remove_task ready_remove unlink
    scheduler_add_task ready_insert_tail append_ready last_of preempt_for scheduler_init
    critical_enter critical_exit
first_blocked-priority = refl

scheduler_unblock_one-Woke_example :
    Woke first_blocked
      (remove_queue two_queue 3 100)
      (100 ∷ [])
      block_semaphore
      (some 500)
      (scheduler_unblock_one block_semaphore (some 500) ok first_blocked)
scheduler_unblock_one-Woke_example =
    scheduler_unblock_one-Woke first_blocked (remove_queue two_queue 3 100) (100 ∷ [])
      first_blocked-IsValid block_semaphore (some 500) ok

scheduler_remove_task-drops_waiters_example :
    let s' = scheduler_remove_task (some 200) both_blocked in
    Chain s'.tasks none (200 ∷ []) s'.blocked_head
scheduler_remove_task-drops_waiters_example =
    scheduler_remove_task-drops_waiters both_blocked
      (remove_queue (remove_queue two_queue 3 100) 3 200) 200 (100 ∷ []) both_blocked-IsValid

same_task : (c d : ℕ) → some c ≡ some d → c ≡ d
same_task c d e = ground arith

late-priority : (late.tasks 100).priority ≡ 3
unfolding block_self blocked_tcb blocked_insert scheduler_remove_task ready_remove unlink
    scheduler_add_task ready_insert_tail append_ready last_of preempt_for scheduler_init
    critical_enter critical_exit
late-priority = refl

late-current : late.current_task ≡ some 100
unfolding block_self blocked_tcb blocked_insert scheduler_remove_task ready_remove unlink
    scheduler_add_task ready_insert_tail append_ready last_of preempt_for scheduler_init
    critical_enter critical_exit
late-current = refl

late-InRange : InRange late
late-InRange c e =
    subst (λ (a : ℕ). (late.tasks a).priority < max_priority)
      (sym (same_task c 100 (sym e ∙ late-current))) (omega (arith, late-priority))

scheduler_tick-HasReady_example :
    HasReady
      (due_queues late
        (remove_queue (remove_queue two_queue 3 100) 3 200)
        (200 ∷ 100 ∷ [])
        both_blocked-IsValid)
      (others (expires (next_tick late)) late.tasks (200 ∷ 100 ∷ []))
      (scheduler_tick late)
scheduler_tick-HasReady_example =
    scheduler_tick-HasReady late (remove_queue (remove_queue two_queue 3 100) 3 200)
      (200 ∷ 100 ∷ []) both_blocked-IsValid late-InRange

scheduler_unblock_all-moves_example :
    let queues = remove_queue (remove_queue two_queue 3 100) 3 200 in
    let waiting : List ℕ = 200 ∷ 100 ∷ [] in
    let woken =
      waiters both_blocked queues waiting both_blocked-IsValid block_semaphore (some 500) ok in
    let (n, s') = scheduler_unblock_all block_semaphore (some 500) ok both_blocked in
    (n ≡ length woken)
    × IsValid s'
        (append_all both_blocked.tasks woken queues)
        (others (waits_for block_semaphore (some 500)) both_blocked.tasks waiting)
scheduler_unblock_all-moves_example =
    scheduler_unblock_all-moves both_blocked (remove_queue (remove_queue two_queue 3 100) 3 200)
      (200 ∷ 100 ∷ []) both_blocked-IsValid block_semaphore (some 500) ok (omega arith)

scheduler_lock-unlock_example :
    let locked = scheduler_lock first_runs in
    (scheduler_yield locked ≡ record locked { reschedule_pending = true })
    × (scheduler_unlock (scheduler_yield locked) ≡ (
        if 0 == 0
        then record first_runs { reschedule_pending = false; pend_sv = true }
        else record first_runs { reschedule_pending = true }))
scheduler_lock-unlock_example = scheduler_lock-unlock first_runs 100 refl (omega arith)
