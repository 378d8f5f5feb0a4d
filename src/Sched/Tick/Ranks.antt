-- ===== src/Sched/Tick/Ranks.antt =====
-- A tick keeps the priority of every task, leaves the current task current and adds one to the tick
-- count.
use helix_rt.Prelude.{
  ℕ, zero, suc, ◌+◌, ◌-◌, ◌%◌, Ptr, true, none, some, ltb, ◌==◌, if◌then◌else◌, refl,
}
use helix_rt.Config.{word, time_slice_ticks}
use helix_rt.Task.{Tcb}
use helix_rt.Bitmap.{bitmap_find_highest}
use helix_rt.Sched.{Sched, update_tcb, when_some, scheduler_trigger_switch}
use helix_rt.Sched.Ready.{scheduler_yield}
use helix_rt.Sched.Block.{release}
use helix_rt.Sched.Tick.{
  expires, expiry_result, expire_task, expire_waits, charge_slice, preempt_current, scheduler_tick,
}
use helix_rt.Sched.Ranks.{
  SameRanks, SameRanks-refl, SameRanks-trans, SameRanks-either, update_tcb-SameRanks,
  release-SameRanks,
}
use helix_rt.Sched.Ranks.Entry.{scheduler_yield-SameRanks}

pub expire_task-SameRanks : (t : ℕ) (s : Sched) → SameRanks s (expire_task t s)
unfolding expire_task
expire_task-SameRanks t s =
    SameRanks-either s (release t (expiry_result (s.tasks t)) s) s
      (expires s.tick_count (s.tasks t)) (release-SameRanks t (expiry_result (s.tasks t)) s)
      (SameRanks-refl s)

expire_waits-SameRanks :
    (fuel : ℕ) (iter : Ptr) (s : Sched) → SameRanks s (expire_waits fuel iter s)
unfolding expire_waits
expire_waits-SameRanks zero iter s = SameRanks-refl s
expire_waits-SameRanks (suc fuel) none s = SameRanks-refl s
expire_waits-SameRanks (suc fuel) (some t) s =
    SameRanks-trans s (expire_task t s) (expire_waits fuel (s.tasks t).next (expire_task t s))
      (expire_task-SameRanks t s) (expire_waits-SameRanks fuel (s.tasks t).next (expire_task t s))

abbrev slice : ℕ → Tcb → Tcb
slice n b = record b { time_slice = n }

charge_slice-SameRanks : (c : ℕ) (s : Sched) → SameRanks s (charge_slice c s)
unfolding charge_slice
charge_slice-SameRanks c s =
    let less : Sched = update_tcb c (slice ((s.tasks c).time_slice - 1)) s in
    let s1 : Sched = if ltb 0 (s.tasks c).time_slice then less else s in
    let full : Sched = update_tcb c (slice time_slice_ticks) s1 in
    let h1 : SameRanks s s1 =
      SameRanks-either s less s (ltb 0 (s.tasks c).time_slice)
        (update_tcb-SameRanks c (slice ((s.tasks c).time_slice - 1)) s (λ b. refl))
        (SameRanks-refl s) in
    SameRanks-either s (scheduler_yield full) s1 ((s1.tasks c).time_slice == 0)
      (SameRanks-trans s full (scheduler_yield full)
        (SameRanks-trans s s1 full h1
          (update_tcb-SameRanks c (slice time_slice_ticks) s1 (λ b. refl)))
        (scheduler_yield-SameRanks full))
      h1

preempt_current-SameRanks : (c : ℕ) (s : Sched) → SameRanks s (preempt_current c s)
unfolding preempt_current scheduler_trigger_switch
preempt_current-SameRanks c s =
    SameRanks-either s (record s { pend_sv = true }) s
      (ltb (bitmap_find_highest s.priority_bitmap) (s.tasks c).priority) (SameRanks-refl s)
      (SameRanks-refl s)

-- `if (x != NULL) { … }`
when_some-SameRanks :
    (o : Ptr) (f : ℕ → Sched → Sched) (s : Sched)
    → ((c : ℕ) → SameRanks s (f c s))
    → SameRanks s (when_some o f s)
when_some-SameRanks none f s h = SameRanks-refl s
when_some-SameRanks (some c) f s h = h c

pub scheduler_tick-SameRanks :
    (s : Sched) → SameRanks (record s { tick_count = (s.tick_count + 1) % word }) (scheduler_tick s)
unfolding scheduler_tick
scheduler_tick-SameRanks s =
    let s2 : Sched = record s { primask = 1; tick_count = (s.tick_count + 1) % word } in
    let s3 : Sched = expire_waits word s2.blocked_head s2 in
    let s4 : Sched = when_some s3.current_task charge_slice s3 in
    SameRanks-trans s2 s4 (when_some s4.current_task preempt_current s4)
      (SameRanks-trans s2 s3 s4 (expire_waits-SameRanks word s2.blocked_head s2)
        (when_some-SameRanks s3.current_task charge_slice s3 (λ c. charge_slice-SameRanks c s3)))
      (when_some-SameRanks s4.current_task preempt_current s4 (λ c. preempt_current-SameRanks c s4))
