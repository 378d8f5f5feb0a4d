-- ===== src/Kernel/Interrupts.antt =====
-- The handlers that enter the kernel: SysTick_Handler of kernel/scheduler.c, SVC_Handler of
-- kernel/context.s, and the wrappers of src/syscall.c that issue the SVC instruction.
pub mod Delay
use helix_rt.Prelude.{ℕ, Option, none, some}
use helix_rt.Task.{Code}
use helix_rt.Sched.Block.{World, Env, on_kernel}
use helix_rt.Sched.Tick.{scheduler_tick}
use helix_rt.Timer.{Timers, Callbacks, timer_tick_isr}
use helix_rt.Kernel.{KernelVars, Layout, Machine}
use helix_rt.Kernel.Control.{
  svc_dispatch, svc_task_yield, svc_task_delay, svc_task_suspend, svc_task_resume,
}

-- The scheduler beside the timers; kernel_tick_hook, which an application may define, is a parameter.
unfoldable pub sys_tick_handler :
    Callbacks → (World Timers → World Timers) → World Timers → World Timers
unfolding scheduler_tick timer_tick_isr
sys_tick_handler run kernel_tick_hook w =
    kernel_tick_hook
      (record { kernel = scheduler_tick w.kernel; object = timer_tick_isr run w.object })

-- The handler runs in handler mode, where PendSV waits until it returns: nothing runs in the middle
-- of a call that blocks.
abbrev pub no_switch : Env KernelVars
no_switch = record { before = λ w. w; away = λ w. w; resumed = λ w. w }

abbrev pub with_ipsr : ℕ → Machine → Machine
with_ipsr n w = on_kernel (λ s. record s { ipsr = n }) w

-- Leaving the handler, which a service that does not return never does.
unfoldable pub leave_svc : Option Code × Machine → Option Code × Machine
leave_svc (none, w) = (none, w)
leave_svc (some result, w) = (some result, with_ipsr 0 w)

-- An SVC instruction in thread mode with its number and the values of r0, r1 and r2: what r0 holds
-- afterwards, `none` if the handler never returns, and the state. SVCall is exception 11.
unfoldable pub svc_handler : Layout → ℕ → ℕ → ℕ → ℕ → Machine → Option Code × Machine
unfolding svc_dispatch leave_svc
svc_handler l svc_num r0 r1 r2 w =
    leave_svc (svc_dispatch l no_switch svc_num r0 r1 r2 (with_ipsr 11 w))

-- What the registers that a wrapper does not set hold is given as the last numbers.
unfoldable pub syscall_task_yield : Layout → ℕ → ℕ → ℕ → Machine → Option Code × Machine
unfolding svc_handler
syscall_task_yield l r0 r1 r2 w = svc_handler l svc_task_yield r0 r1 r2 w

unfoldable pub syscall_task_delay : Layout → ℕ → ℕ → ℕ → Machine → Option Code × Machine
unfolding svc_handler
syscall_task_delay l ticks r1 r2 w = svc_handler l svc_task_delay ticks r1 r2 w

unfoldable pub syscall_task_suspend : Layout → ℕ → ℕ → ℕ → Machine → Option Code × Machine
unfolding svc_handler
syscall_task_suspend l tcb r1 r2 w = svc_handler l svc_task_suspend tcb r1 r2 w

unfoldable pub syscall_task_resume : Layout → ℕ → ℕ → ℕ → Machine → Option Code × Machine
unfolding svc_handler
syscall_task_resume l tcb r1 r2 w = svc_handler l svc_task_resume tcb r1 r2 w
