-- ===== src/Kernel/Interrupts/Delay.antt =====
-- The delay of a task by a system call, from the SVC instruction to the tick that ends it.
use helix_rt.Prelude.{
  ℕ, suc, ◌+◌, ◌-◌, ◌<◌, Ptr, ◌≡◌, refl, sym, ap, subst, ◌∙◌, Bool, false, none, some, ◌==◌,
  if◌then◌else◌, arith,
}
use helix_rt.Config.{word, uint32_max}
use helix_rt.Task.{Tcb, Code, ok, err_state, block_delay, put}
use helix_rt.Sched.{Sched}
use helix_rt.Sched.Ranks.{SameRanks, SameRanks-trans, SameRanks-InRange}
use helix_rt.Sched.Ranks.Entry.{block_self-SameRanks, scheduler_yield-SameRanks}
use helix_rt.Sched.Ready.{scheduler_yield, pendsv_handler, scheduler_select_next_task}
use helix_rt.Sched.Ready.Yield.{scheduler_yield-HasReady}
use helix_rt.Sched.Block.{on_kernel, block_self, scheduler_block_task}
use helix_rt.Sched.Tick.Waits.{yield-SameWait}
use helix_rt.Sched.History.{Places, waiting, ready_at}
use helix_rt.Sched.History.Calls.{Tracks-priority, block-Tracks, HasReady-Tracks}
use helix_rt.Sched.History.Laws.{Related, switch-Related}
use helix_rt.Sched.History.Delay.{
  ticks, Delayed, block_self-Delayed, ticks-waiting, ticks-ready, put_self,
}
use helix_rt.Kernel.{Layout, Machine}
use helix_rt.Kernel.Tasks.{task_delay}
use helix_rt.Kernel.Control.{svc_dispatch}
use helix_rt.Kernel.Interrupts.{no_switch, with_ipsr, leave_svc, svc_handler, syscall_task_delay}

module _ (l : Layout) (w : Machine) (f : Places) (t p d r1 r2 : ℕ) (related : Related w.kernel f)
    (runs : w.kernel.current_task ≡ some t) (here : f t ≡ ready_at p) (some_ticks : 0 < d)
    (finite : d < uint32_max) (no_wrap : w.kernel.tick_count + d < word) where
  -- In the handler: the task is put on the blocked list, and goes on.
  abbrev entered : Sched
  entered = record w.kernel { ipsr = 11 }

  abbrev blocked : Sched
  blocked = block_self block_delay none d t entered

  abbrev left : Machine
  left = record w { kernel = record (scheduler_yield blocked) { ipsr = 0 } }

  task_delay-blocks :
      task_delay no_switch d (with_ipsr 11 w) ≡ record w { kernel = scheduler_yield blocked }
  unfolding task_delay scheduler_block_task
  task_delay-blocks =
      let positive : (d == 0) ≡ false = ground arith in
      ap
        (λ (b : Bool).
          if b
          then on_kernel scheduler_yield (with_ipsr 11 w)
          else (scheduler_block_task no_switch block_delay none d (with_ipsr 11 w)).1)
        positive
      ∙ ap
          (λ (c : Ptr).
            (elim c as (λ x. Code × Machine) [
              | none ↦ (err_state, with_ipsr 11 w)
              | some self ↦
                  let w2 : Machine = record w {
                    kernel = scheduler_yield (block_self block_delay none d self entered);
                  } in
                  ((w2.kernel.tasks self).block_result, w2)
            ]).1)
          runs

  syscall-eq : syscall_task_delay l d r1 r2 w ≡ (some ok, left)
  unfolding syscall_task_delay svc_handler svc_dispatch leave_svc
  syscall-eq = ap (λ (z : Machine). (some ok, with_ipsr 0 z)) task_delay-blocks

  abbrev kept : SameRanks w.kernel (scheduler_yield blocked)
  kept =
      SameRanks-trans w.kernel blocked (scheduler_yield blocked)
        (block_self-SameRanks block_delay none d t entered) (scheduler_yield-SameRanks blocked)

  -- Once the switch is made.
  abbrev away : Sched
  away = pendsv_handler left.kernel

  away-Related : Related away (put f t waiting)
  away-Related =
      let (in_range, (order, asleep, v, h)) = related in
      let blocked_range =
        SameRanks-InRange w.kernel blocked (block_self-SameRanks block_delay none d t entered)
          in_range in
      let (order1, asleep1, v1, h1) =
        block-Tracks entered order asleep f v h t block_delay none d p here in
      let (order2, asleep2, v2, h2) =
        HasReady-Tracks order1 asleep1 (put f t waiting) h1 (scheduler_yield blocked)
          (scheduler_yield-HasReady blocked order1 asleep1 v1 blocked_range) in
      switch-Related left.kernel (put f t waiting)
        (SameRanks-InRange w.kernel (scheduler_yield blocked) kept in_range) order2 asleep2 v2 h2

  away-Delayed : Delayed t (w.kernel.tick_count + d) d away
  unfolding pendsv_handler scheduler_select_next_task
  away-Delayed =
      let first : Delayed t (w.kernel.tick_count + d) d blocked =
        block_self-Delayed entered t d some_ticks finite no_wrap in
      record {
        reason = ap (λ (b : Tcb). b.block_reason) (yield-SameWait t blocked) ∙ first.reason;
        wake_tick = ap (λ (b : Tcb). b.wake_tick) (yield-SameWait t blocked) ∙ first.wake_tick;
        left = ap (λ (n : ℕ). n + d) kept.clock;
        no_wrap = no_wrap;
      }

  away-priority : (away.tasks t).priority ≡ p
  unfolding pendsv_handler scheduler_select_next_task
  away-priority = kept.ranks t ∙ (Tracks-priority w.kernel f t p related.1 here).0

  -- If the running task, which is on the ready list of `p`, calls `syscall_task_delay` for `d` ticks,
  -- with 0 < d < 2 ^ 32 - 1, and the tick count does not wrap round meanwhile: the call returns
  -- KERNEL_OK in thread mode, and from the next switch on the task is on the blocked list after any
  -- fewer ticks, each with a switch behind it, and after `d` on the ready list of `p` again.
  pub syscall_task_delay-ends :
      (k : ℕ)
      → k < d
      → (w' : Machine) × (syscall_task_delay l d r1 r2 w ≡ (some ok, w'))
        × (w'.kernel.ipsr ≡ 0)
        × ((g : Places) × Related (ticks k (pendsv_handler w'.kernel)) g × (g t ≡ waiting))
        × ((g : Places) × Related (ticks d (pendsv_handler w'.kernel)) g × (g t ≡ ready_at p))
  syscall_task_delay-ends k less =
      let at : put f t waiting t ≡ waiting = put_self f t waiting in
      let e : suc (d - 1) ≡ d = omega arith in
      let (g, r, goes) =
        ticks-ready t (w.kernel.tick_count + d) (d - 1) away (put f t waiting) away-Related at
          (subst (λ (n : ℕ). Delayed t (w.kernel.tick_count + d) n away) (sym e) away-Delayed) in
      (
        left,
        syscall-eq,
        refl,
        ticks-waiting t (w.kernel.tick_count + d) k d away (put f t waiting) less away-Related at
            away-Delayed,
        (g, subst (λ (n : ℕ). Related (ticks n away) g) e r, goes ∙ ap ready_at away-priority),
      )
