-- ===== src/Tests/OnSwitch.antt =====
-- The context switch between two tasks of the same priority, and the first switch to a new one.
use helix_rt.Prelude.{ℕ, ◌+◌, ◌≡◌, refl, none, some, inl, arith}
use helix_rt.Bitmap.{bitmap_find_highest, bitmap_set}
use helix_rt.Sched.{critical_enter, critical_exit}
use helix_rt.Sched.Links.{ready_insert_tail, append_ready, last_of}
use helix_rt.Sched.Ready.{
  scheduler_init, scheduler_add_task, scheduler_get_next, scheduler_select_next_task, preempt_for,
  pendsv_handler,
}
use helix_rt.Sched.Block.{on_kernel}
use helix_rt.Kernel.{Machine}
use helix_rt.Kernel.Switch.{
  Cpu, load_hw_frame, save_context, load_context, enter_task, switch_context,
}
use helix_rt.Kernel.Switch.Laws.{switch_context-back}
use helix_rt.Kernel.Switch.Start.{first_context, first_hw_frame, task_create-starts}
use helix_rt.Kernel.Tasks.{task_create, create_with, create_on, take_tcb, take_stack, build_task}
use helix_rt.Tests.{two_ready}
use helix_rt.Tests.OnKernel.{layout, machine, vars}

abbrev cpu : ℕ → ℕ → Cpu
cpu x psp = record {
  saved = record {
    r4 = x + 4;
    r5 = x + 5;
    r6 = x + 6;
    r7 = x + 7;
    r8 = x + 8;
    r9 = x + 9;
    r10 = x + 10;
    r11 = x + 11;
    exc_return = 0xFFFFFFFD;
  };
  psp = psp;
}

-- The second task runs, and the first heads the list.
abbrev second_runs : Machine
second_runs = record { kernel = record two_ready { current_task = some 200 }; object = vars }

abbrev first_in : Machine
first_in = on_kernel pendsv_handler (save_context (cpu 100 8192) (some 200) second_runs)

-- Then the second heads it.
abbrev turned : Machine
turned = record first_in { kernel = record (first_in.kernel) { ready_list = λ p. some 200 } }

first_chosen : scheduler_get_next second_runs.kernel ≡ some 100
unfolding scheduler_get_next bitmap_find_highest bitmap_set scheduler_add_task ready_insert_tail
    append_ready last_of preempt_for scheduler_init critical_enter critical_exit
first_chosen = refl

switched : switch_context (cpu 100 8192) second_runs ≡ some (load_context 0 first_in, first_in)
unfolding switch_context pendsv_handler scheduler_select_next_task scheduler_get_next save_context
    enter_task bitmap_find_highest bitmap_set scheduler_add_task ready_insert_tail append_ready
    last_of preempt_for scheduler_init critical_enter critical_exit
switched = refl

turned-current : turned.kernel.current_task ≡ some 100
unfolding pendsv_handler scheduler_select_next_task scheduler_get_next save_context
    bitmap_find_highest bitmap_set scheduler_add_task ready_insert_tail append_ready last_of
    preempt_for scheduler_init critical_enter critical_exit
turned-current = refl

second_chosen : scheduler_get_next turned.kernel ≡ some 200
unfolding pendsv_handler scheduler_select_next_task scheduler_get_next save_context
    bitmap_find_highest bitmap_set scheduler_add_task ready_insert_tail append_ready last_of
    preempt_for scheduler_init critical_enter critical_exit
second_chosen = refl

switch_context-back_example :
    (w3 : Machine) × (switch_context (cpu 300 12288) turned ≡ some (cpu 100 8192, w3))
    × (w3.kernel.current_task ≡ some 200)
switch_context-back_example =
    switch_context-back (cpu 100 8192) (load_context 0 first_in) (cpu 300 12288) second_runs
      first_in turned 200 100 (omega arith) (omega arith) (omega arith) (omega arith) refl switched
      refl refl turned-current (λ e. absurd (omega (arith, e))) (inl (omega arith)) second_chosen

-- A task is made, and chosen, while a task at the address 300 runs.
abbrev created : Machine
created = (task_create layout (some 100) none (some 60) (some 61) 3 (some 4096) 256 machine).1

abbrev busy : Machine
busy = record created { kernel = record (created.kernel) { current_task = some 300 } }

new_chosen : scheduler_get_next busy.kernel ≡ some 100
unfolding scheduler_get_next bitmap_find_highest bitmap_set task_create create_with create_on
    take_tcb take_stack build_task scheduler_add_task ready_insert_tail append_ready last_of
    preempt_for scheduler_init critical_enter critical_exit
new_chosen = refl

task_create-starts_example :
    (w3 : Machine) × (switch_context (cpu 300 12288) busy ≡ some (first_context 4352, w3))
    × (w3.kernel.current_task ≡ some 100)
    × (load_hw_frame 4320 w3.object.memory ≡ first_hw_frame 60 (some 61) 78)
task_create-starts_example =
    task_create-starts layout 100 none 60 (some 61) 3 4096 256 machine refl (omega arith)
      (cpu 300 12288) busy 300 refl refl (omega arith) (omega arith) (inl (omega arith)) refl
      (λ e. absurd (omega (arith, e))) new_chosen
