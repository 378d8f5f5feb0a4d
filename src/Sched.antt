-- ===== src/Sched.antt =====
-- kernel/scheduler.c: the state of the scheduler, and the primitives that its functions share.
-- `Sched` holds g_sched, the file's other globals, the task control blocks that the list links
-- lead through, and the processor registers that the code touches (PRIMASK, IPSR and the PENDSVSET
-- bit of ICSR).
pub mod Links
pub mod Ready
pub mod Block
pub mod Tick
pub mod Walk
pub mod Chain
pub mod Valid
pub mod Ranks
pub mod History
use helix_rt.Prelude.{ℕ, Ptr, Bool, true, none, some, ltb, if◌then◌else◌}
use helix_rt.Task.{Tcb, Tcbs, put}

pub record Sched : Type 0 where
  pub tasks : Tcbs
  pub priority_bitmap : ℕ
  pub ready_list : ℕ → Ptr
  pub sched_current : Ptr
  pub lock_count : ℕ
  pub reschedule_pending : Bool
  pub tick_count : ℕ
  pub blocked_head : Ptr
  pub current_task : Ptr
  pub next_task : Ptr
  pub primask : ℕ
  pub ipsr : ℕ
  pub pend_sv : Bool

-- critical.h: `mrs primask; cpsid i`, with the mask that was in force.
unfoldable pub critical_enter : Sched → ℕ × Sched
critical_enter s = (s.primask, record s { primask = 1 })

-- `msr primask`.
unfoldable pub critical_exit : ℕ → Sched → Sched
critical_exit state s = record s { primask = state }

-- `is_isr_context`: IPSR holds the number of the exception that is being handled.
unfoldable pub is_isr_context : Sched → Bool
is_isr_context s = ltb 0 s.ipsr

-- PENDSVSET: ask for a context switch.
unfoldable pub scheduler_trigger_switch : Sched → Sched
scheduler_trigger_switch s = record s { pend_sv = true }

-- Assignments to fields of the control block at `t`.
abbrev pub update_tcb : ℕ → (Tcb → Tcb) → Sched → Sched
update_tcb t f s = record s { tasks = put s.tasks t (f (s.tasks t)) }

-- `x->f = …` where `x` may be NULL and is tested first.
abbrev pub when_some : Ptr → (ℕ → Sched → Sched) → Sched → Sched
when_some none f s = s
when_some (some t) f s = f t s
