-- ===== src/Kernel/Control.antt =====
-- kernel/kernel.c: start-up and the SVC dispatcher, with the numbers of kernel/syscall.h.
use helix_rt.Prelude.{
  ℕ, ◌+◌, ◌-◌, ◌*◌, ◌/◌, ◌%◌, ◌^◌, Ptr, Option, none, some, List, [], ◌∷◌, bit_and, bit_or, ◌==◌,
  if◌then◌else◌,
}
use helix_rt.Config.{word, max_priority, default_stack_size, idle_stack_size, tick_rate_hz}
use helix_rt.Task.{Code, ok, is_ok, err_param, err_state}
use helix_rt.Sched.{Sched}
use helix_rt.Sched.Ready.{scheduler_init, scheduler_start, scheduler_get_tick_count}
use helix_rt.Sched.Block.{Env}
use helix_rt.Kernel.{
  KernelState, state_uninit, state_init, state_running, state_stopped, KernelVars, Layout, Machine,
  with_vars,
}
use helix_rt.Kernel.Tasks.{
  task_create, task_delete, task_suspend, task_resume, task_yield, task_delay, task_set_priority,
}

-- The values of `kernel_state_t`.
abbrev pub kernel_state_value : KernelState → ℕ
kernel_state_value state_uninit = 0
kernel_state_value state_init = 1
kernel_state_value state_running = 2
kernel_state_value state_stopped = 3

-- `(SCB_SHPR3 & 0x0000FFFF) | (0xFF << 16) | (0xFE << 24)`
abbrev pub lowest_priorities : ℕ → ℕ
lowest_priorities shpr3 = bit_or (bit_or (bit_and shpr3 0xffff) (0xff * 2 ^ 16)) (0xfe * 2 ^ 24)

-- The state before the idle task is created.
abbrev pub prepared : Machine → Machine
prepared w = record {
  kernel = scheduler_init w.kernel;
  object = record (w.object) { scb_shpr3 = lowest_priorities w.object.scb_shpr3 };
}

abbrev pub idle_name : List ℕ
idle_name = 105 ∷ 100 ∷ 108 ∷ 101 ∷ []

unfoldable pub finish_init : Code × Machine → Code × Machine
finish_init (res, w) =
    if is_ok res
    then (ok, with_vars (λ v. record v { kernel_state = state_init }) w)
    else (err_state, w)

unfoldable pub kernel_init : Layout → Machine → Code × Machine
unfolding scheduler_init task_create finish_init
kernel_init l w =
    if kernel_state_value w.object.kernel_state == 0
    then finish_init (
        task_create l (some l.idle_tcb) (some idle_name) (some l.idle_task) none (max_priority - 1)
          (some l.idle_stack) idle_stack_size (prepared w))
    else (err_state, w)

-- SYSTICK_CSR_ENABLE | SYSTICK_CSR_TICKINT | SYSTICK_CSR_CLKSOURCE
abbrev pub systick_on : ℕ
systick_on = 7

abbrev pub start_tick : KernelVars → KernelVars
start_tick v = record v {
  systick_rvr = (v.core_clock / tick_rate_hz + word - 1) % word;
  systick_cvr = 0;
  systick_csr = systick_on;
  kernel_state = state_running;
}

abbrev pub start_with : KernelVars → Option Sched → Option Machine
start_with v none = none
start_with v (some k) = some (record { kernel = k; object = v })

-- The state in which the first task starts; `none` is an endless `wfi` loop.
unfoldable pub kernel_start : Machine → Option Machine
unfolding scheduler_start
kernel_start w =
    if kernel_state_value w.object.kernel_state == 1
    then start_with (start_tick w.object) (scheduler_start w.kernel)
    else none

unfoldable pub kernel_get_state : Machine → KernelState
kernel_get_state w = w.object.kernel_state

unfoldable pub kernel_get_tick : Machine → ℕ
unfolding scheduler_get_tick_count
kernel_get_tick w = scheduler_get_tick_count w.kernel

abbrev pub svc_task_create : ℕ
svc_task_create = 1

abbrev pub svc_task_delete : ℕ
svc_task_delete = 2

abbrev pub svc_task_suspend : ℕ
svc_task_suspend = 3

abbrev pub svc_task_resume : ℕ
svc_task_resume = 4

abbrev pub svc_task_yield : ℕ
svc_task_yield = 5

abbrev pub svc_task_delay : ℕ
svc_task_delay = 6

abbrev pub svc_task_priority : ℕ
svc_task_priority = 7

-- The pointer that a register holds.
abbrev pub pointer : ℕ → Ptr
pointer a = if a == 0 then none else some a

abbrev pub returns : Code × Machine → Option Code × Machine
returns (res, w) = (some res, w)

unfoldable pub svc_dispatch :
    Layout → Env KernelVars → ℕ → ℕ → ℕ → ℕ → Machine → Option Code × Machine
unfolding task_create task_delete task_suspend task_resume task_yield task_delay task_set_priority
svc_dispatch l env svc_num arg0 arg1 arg2 w =
    if svc_num == svc_task_yield
    then (some ok, task_yield w)
    else (if svc_num == svc_task_delay
        then (some ok, task_delay env arg0 w)
        else (if svc_num == svc_task_delete
            then task_delete (pointer arg0) w
            else (if svc_num == svc_task_suspend
                then returns (task_suspend (pointer arg0) w)
                else (if svc_num == svc_task_resume
                    then returns (task_resume (pointer arg0) w)
                    else (if svc_num == svc_task_priority
                        then returns (task_set_priority (pointer arg0) (arg1 % 256) w)
                        else (if svc_num == svc_task_create
                            then returns (
                                task_create l (pointer arg0) none (pointer arg1) (pointer arg2)
                                  (max_priority - 2) none default_stack_size w)
                            else (some err_param, w)))))))
