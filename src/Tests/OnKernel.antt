-- ===== src/Tests/OnKernel.antt =====
-- The theorems on the kernel's task functions, with memory and slots that are all clear.
use helix_rt.Sched.{critical_enter, critical_exit}
use helix_rt.Sched.Links.{ready_insert_tail, append_ready, last_of}
use helix_rt.Sched.Ready.{scheduler_init, scheduler_add_task, preempt_for}
use helix_rt.Sched.Ready.Yield.{HasReady}
use helix_rt.Sched.Ranks.{InRange}
use helix_rt.Sched.Valid.{IsLoose}
use helix_rt.Sched.Valid.Remove.{remove_queue}
use helix_rt.Kernel.Tasks.{task_delete, task_suspend, task_resume}
use helix_rt.Kernel.Tasks.Retire.{task_delete-HasReady, task_suspend-resume}
use helix_rt.App.{AppLayout, Board, main}
use helix_rt.App.Laws.{main-blink}
use helix_rt.Prelude.{ℕ, ◌<◌, subst, sym, ◌+◌, ◌-◌, ◌*◌, ◌≡◌, ◌≢◌, refl, none, some, [], arith}
use helix_rt.Config.{max_priority}
use helix_rt.Task.{Code, ok, err_no_mem}
use helix_rt.Sched.Valid.{IsValid}
use helix_rt.Sched.Valid.Insert.{append_queue}
use helix_rt.Kernel.{KernelVars, Layout, Machine, state_uninit, state_init, state_running}
use helix_rt.Kernel.Slots.{alloc_slot}
use helix_rt.Kernel.Slots.{alloc_from}
use helix_rt.Kernel.Tasks.{
  task_create, take_tcb, take_pool_tcb, take_stack, take_pool_stack, create_with, create_on,
}
use helix_rt.Kernel.Tasks.Laws.{Untouched, task_create-Untouched}
use helix_rt.Kernel.Tasks.Valid.{task_create-IsValid, kernel_init-IsValid}
use helix_rt.Kernel.Control.{kernel_init}
use helix_rt.Tests.{
  empty, no_tasks, empty-IsValid, no_tasks-IsLoose, first_runs, two_queue, two_ready-IsValid,
}

abbrev pub layout : Layout
layout = record {
  task_pool = λ i. 1024 + 128 * i;
  stack_pool = λ i. 8192 + 1024 * i;
  idle_tcb = 512;
  idle_stack = 4096;
  idle_task = 77;
  task_exit_trampoline = 78;
}

abbrev pub vars : KernelVars
vars = record {
  kernel_state = state_uninit;
  task_slot_used = λ i. 0;
  stack_slot_used = λ i. 1;
  next_task_id = 1;
  memory = λ a. 0;
  core_clock = 600000000;
  scb_shpr3 = 0;
  systick_rvr = 0;
  systick_cvr = 0;
  systick_csr = 0;
}

abbrev pub machine : Machine
machine = record { kernel = empty; object = vars }

task_create-IsValid_example :
    let (res, w1) = task_create layout (some 100) none (some 60) none 3 (some 4096) 256 machine in
    (res ≡ ok) × IsValid w1.kernel (append_queue no_tasks 3 100) []
task_create-IsValid_example =
    task_create-IsValid layout 100 none 60 none 3 4096 256 machine no_tasks [] empty-IsValid
      (no_tasks-IsLoose 100) (omega arith) refl

kernel_init-IsValid_example :
    let (res, w1) = kernel_init layout machine in
    (res ≡ ok)
    × (w1.object.kernel_state ≡ state_init)
    × IsValid w1.kernel (append_queue no_tasks (max_priority - 1) 512) []
kernel_init-IsValid_example = kernel_init-IsValid layout machine refl (omega arith)

-- With every stack in use.
no_stack : (task_create layout none none (some 60) none 3 none 512 machine).0 ≡ err_no_mem
unfolding task_create create_with create_on take_tcb take_pool_tcb take_stack take_pool_stack
    alloc_slot alloc_from
no_stack = refl

no_stack-ne_ok : (c : Code) → c ≡ err_no_mem → c ≢ ok
no_stack-ne_ok c e f = cc

task_create-Untouched_example :
    Untouched machine (task_create layout none none (some 60) none 3 none 512 machine).1
task_create-Untouched_example =
    task_create-Untouched layout none none (some 60) none 3 none 512 machine
      (no_stack-ne_ok (task_create layout none none (some 60) none 3 none 512 machine).0 no_stack)

-- Two ready tasks, the first of which runs.
abbrev working : Machine
working = record { kernel = first_runs; object = vars }

same_task : (c d : ℕ) → some c ≡ some d → c ≡ d
same_task c d e = ground arith

working-priority : (first_runs.tasks 100).priority ≡ 3
unfolding scheduler_add_task ready_insert_tail append_ready last_of preempt_for scheduler_init
    critical_enter critical_exit
working-priority = refl

working-InRange : InRange first_runs
working-InRange c e =
    subst (λ (a : ℕ). (first_runs.tasks a).priority < max_priority) (sym (same_task c 100 (sym e)))
      (omega (arith, working-priority))

task_delete-HasReady_example :
    HasReady (remove_queue two_queue 3 100) [] (task_delete (some 100) working).1.kernel
    × IsLoose 100 (remove_queue two_queue 3 100) []
task_delete-HasReady_example =
    task_delete-HasReady working two_queue [] 100 3 two_ready-IsValid (omega arith) refl
      working-InRange

other_runs : first_runs.current_task ≢ some 200
other_runs e = absurd (omega (arith, same_task 100 200 e))

task_suspend-resume_example :
    let (r1, w1) = task_suspend (some 200) working in
    let (r2, w2) = task_resume (some 200) w1 in
    (r1 ≡ ok)
    × IsValid w1.kernel (remove_queue two_queue 3 200) []
    × (r2 ≡ ok)
    × IsValid w2.kernel (append_queue (remove_queue two_queue 3 200) 3 200) []
task_suspend-resume_example =
    task_suspend-resume working two_queue [] 200 3 two_ready-IsValid (omega arith) refl other_runs

abbrev app_layout : AppLayout
app_layout = record {
  blink_tcb = 100;
  blink_stack = 16384;
  blink_entry = 61;
  heartbeat_tcb = 200;
  heartbeat_stack = 20480;
  heartbeat_entry = 62;
}

abbrev board : Board
board = record {
  clocks = record { system_core_clock = 0; ccgr0 = 0; ccgr1 = 0; ccgr2 = 0; ccgr6 = 0 };
  led_mux = 0;
  led_pad = 0;
  gpio2 = record { gdir = 0; psr = 0; writes = [] };
}

main-blink_example :
    (w' : Machine) × ((main layout app_layout board machine).1 ≡ some w')
    × (w'.kernel.current_task ≡ some 100)
    × (w'.object.kernel_state ≡ state_running)
main-blink_example =
    main-blink layout app_layout (omega arith) (omega arith) (λ e. absurd (omega (arith, e)))
      (λ e. absurd (omega (arith, e))) (λ e. absurd (omega (arith, e))) board machine refl
      (omega arith)
