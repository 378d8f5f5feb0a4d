-- ===== src/Sched/Tick.antt =====
-- `scheduler_tick` of kernel/scheduler.c: delays, timeouts, time slices and preemption.
pub mod Laws
pub mod Ranks
pub mod Waits
use helix_rt.Prelude.{
  ℕ, zero, suc, ◌+◌, ◌-◌, ◌%◌, Ptr, Bool, not, ◌&&◌, none, some, ltb, leb, ◌==◌, if◌then◌else◌,
}
use helix_rt.Config.{word, uint32_max, time_slice_ticks}
use helix_rt.Task.{Tcb, Code, err_timeout, block_delay, same_reason}
use helix_rt.Bitmap.{bitmap_find_highest}
use helix_rt.Sched.{
  Sched, critical_enter, critical_exit, scheduler_trigger_switch, update_tcb, when_some,
}
use helix_rt.Sched.Ready.{scheduler_yield}
use helix_rt.Sched.Block.{release}

-- Whether the tick `now` ends the wait, and the result that it then returns.
unfoldable pub expires : ℕ → Tcb → Bool
expires now t =
    if same_reason t.block_reason block_delay
    then leb t.wake_tick now
    else not (t.block_timeout == 0) && not (t.block_timeout == uint32_max) && leb t.wake_tick now

abbrev pub expiry_result : Tcb → Code
expiry_result t = if same_reason t.block_reason block_delay then t.block_result else err_timeout

unfoldable pub expire_task : ℕ → Sched → Sched
unfolding expires release
expire_task t s =
    if expires s.tick_count (s.tasks t) then release t (expiry_result (s.tasks t)) s else s

-- The loop over the blocked list, on fuel. The successor is read before the task is moved.
unfoldable pub expire_waits : ℕ → Ptr → Sched → Sched
expire_waits zero iter s = s
expire_waits (suc fuel) iter s = elim iter [
  | none ↦ s
  | some t ↦ let next_iter = (s.tasks t).next in expire_waits fuel next_iter (expire_task t s)
]

-- The current task's time slice (CONFIG_ROUND_ROBIN is 1).
unfoldable pub charge_slice : ℕ → Sched → Sched
charge_slice c s =
    let s1 =
      if ltb 0 (s.tasks c).time_slice
      then update_tcb c (λ t. record t { time_slice = t.time_slice - 1 }) s
      else s in
    if (s1.tasks c).time_slice == 0
    then scheduler_yield (update_tcb c (λ t. record t { time_slice = time_slice_ticks }) s1)
    else s1

-- The last test of `scheduler_tick`: is a ready priority above the current task's?
unfoldable pub preempt_current : ℕ → Sched → Sched
unfolding scheduler_trigger_switch
preempt_current c s =
    if ltb (bitmap_find_highest s.priority_bitmap) (s.tasks c).priority
    then scheduler_trigger_switch s
    else s

unfoldable pub scheduler_tick : Sched → Sched
unfolding critical_enter critical_exit
scheduler_tick s =
    let (irq_state, s1) = critical_enter s in
    let s2 = record s1 { tick_count = (s1.tick_count + 1) % word } in
    let s3 = expire_waits word s2.blocked_head s2 in
    let s4 = when_some s3.current_task charge_slice s3 in
    critical_exit irq_state (when_some s4.current_task preempt_current s4)
