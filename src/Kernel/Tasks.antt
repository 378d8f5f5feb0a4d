-- ===== src/Kernel/Tasks.antt =====
-- The task functions of kernel/kernel.c. A result `none` is the endless `wfi` loop.
pub mod Laws
pub mod Valid
pub mod Retire
use helix_rt.Prelude.{
  ℕ, zero, suc, ◌+◌, ◌-◌, ◌*◌, ◌/◌, ◌%◌, Ptr, Bool, true, false, not, ◌||◌, Option, none, some,
  List, [], ◌∷◌, bit_and, ltb, leb, ◌==◌, same_ptr, if◌then◌else◌,
}
use helix_rt.Config.{
  ms_to_ticks, word, max_tasks, max_priority, default_stack_size, min_stack_size, time_slice_ticks,
  tick_rate_hz,
}
use helix_rt.Task.{
  Tcb, Code, ok, err_param, err_no_mem, ready, suspended, deleted, same_state, block_none,
  block_delay,
}
use helix_rt.Sched.{Sched, critical_enter, critical_exit, update_tcb}
use helix_rt.Sched.Ready.{
  scheduler_get_current, scheduler_add_task, scheduler_remove_task, scheduler_set_priority,
  scheduler_yield,
}
use helix_rt.Sched.Block.{on_kernel, Env, scheduler_block_task}
use helix_rt.Kernel.{KernelVars, Layout, Machine, with_vars}
use helix_rt.Kernel.Slots.{alloc_slot, free_slot}
use helix_rt.Kernel.Stack.{Memory, fill_stack, task_init_stack}

-- TASK_NAME_MAX
abbrev pub task_name_max : ℕ
task_name_max = 16

-- The loop of `copy_task_name`: up to `room` characters, up to a NUL.
unfoldable pub copy_chars : ℕ → List ℕ → List ℕ
copy_chars zero src = []
copy_chars (suc room) [] = []
copy_chars (suc room) (c ∷ src) = let rest = copy_chars room src in if c == 0 then [] else c ∷ rest

-- A name that is NULL becomes "task".
unfoldable pub copy_task_name : Option (List ℕ) → List ℕ
unfolding copy_chars
copy_task_name none = copy_chars (task_name_max - 1) (116 ∷ 97 ∷ 115 ∷ 107 ∷ [])
copy_task_name (some src) = copy_chars (task_name_max - 1) src

abbrev pub free_task_slot : Option ℕ → KernelVars → KernelVars
free_task_slot slot v = record v { task_slot_used = free_slot v.task_slot_used slot }

-- The control block of the new task, with the slot that it was taken from; `none` is the return of
-- KERNEL_ERR_NO_MEM.
unfoldable pub take_pool_tcb :
    Layout → Option ℕ × (ℕ → ℕ) → KernelVars → Option (ℕ × Option ℕ) × KernelVars
take_pool_tcb l (none, used) v = (none, record v { task_slot_used = used })
take_pool_tcb l (some i, used) v =
    (some (l.task_pool i, some i), record v { task_slot_used = used })

unfoldable pub take_tcb : Layout → Ptr → KernelVars → Option (ℕ × Option ℕ) × KernelVars
unfolding take_pool_tcb alloc_slot
take_tcb l (some tcb) v = (some (tcb, none), v)
take_tcb l none v = take_pool_tcb l (alloc_slot v.task_slot_used max_tasks) v

-- The stack and its size; on failure the slot of the control block is freed.
unfoldable pub take_pool_stack :
    Layout → Option ℕ → Option ℕ × (ℕ → ℕ) → KernelVars → Option (ℕ × ℕ) × KernelVars
take_pool_stack l slot (none, used) v =
    (none, free_task_slot slot (record v { stack_slot_used = used }))
take_pool_stack l slot (some i, used) v =
    (some (l.stack_pool i, default_stack_size), record v { stack_slot_used = used })

unfoldable pub take_stack : Layout → Option ℕ → Ptr → ℕ → KernelVars → Option (ℕ × ℕ) × KernelVars
unfolding take_pool_stack alloc_slot
take_stack l slot (some stack) stack_size v = (some (stack, stack_size), v)
take_stack l slot none stack_size v =
    if ltb default_stack_size stack_size
    then (none, free_task_slot slot v)
    else take_pool_stack l slot (alloc_slot v.stack_slot_used max_tasks) v

-- What the caller of `task_create` passes, beside the memory to use.
pub record NewTask : Type 0 where
  pub name : Option (List ℕ)
  pub entry : ℕ
  pub arg : Ptr
  pub priority : ℕ

-- `stack + stack_size / 4`, rounded down to 8 bytes.
abbrev pub stack_top_of : ℕ → ℕ → ℕ
stack_top_of stack stack_size = bit_and ((stack + 4 * (stack_size / 4)) % word) (word - 1 - 7)

-- The control block that `task_create` writes: every field.
abbrev pub new_tcb : NewTask → ℕ → ℕ → ℕ → ℕ → Tcb
new_tcb t id stack stack_size sp = record {
  sp = sp;
  next = none;
  prev = none;
  id = id;
  name = copy_task_name t.name;
  entry = some t.entry;
  arg = t.arg;
  priority = t.priority;
  base_priority = t.priority;
  state = ready;
  flags = 0;
  stack_base = stack;
  stack_top = stack_top_of stack stack_size;
  stack_size = stack_size;
  delay_ticks = 0;
  time_slice = time_slice_ticks;
  wake_tick = 0;
  block_reason = block_none;
  block_object = none;
  block_timeout = 0;
  block_result = ok;
  run_count = 0;
  total_ticks = 0;
  max_stack_used = 0;
  event_wait_bits = 0;
  event_wait_all = 0;
}

-- From the fill of the stack on.
unfoldable pub build_task : Layout → NewTask → ℕ → ℕ → ℕ → Machine → Machine
unfolding scheduler_add_task fill_stack task_init_stack
build_task l t tcb stack stack_size w =
    let (sp, mem) =
      task_init_stack (stack_top_of stack stack_size) t.entry t.arg l.task_exit_trampoline
        (fill_stack (stack_size / 4) stack w.object.memory) in
    record {
      kernel =
          scheduler_add_task tcb
            (update_tcb tcb (λ b. new_tcb t w.object.next_task_id stack stack_size sp) w.kernel);
      object = record (w.object) {
        next_task_id = (w.object.next_task_id + 1) % word;
        memory = mem;
      };
    }

-- With the control block: the stack, and then the task.
unfoldable pub create_on :
    Layout → NewTask → ℕ → Option (ℕ × ℕ) × KernelVars → Sched → Code × Machine
unfolding build_task
create_on l t tcb (none, v) k = (err_no_mem, record { kernel = k; object = v })
create_on l t tcb (some (stack, stack_size), v) k =
    (ok, build_task l t tcb stack stack_size (record { kernel = k; object = v }))

-- From the allocation of the control block on.
unfoldable pub create_with :
    Layout → NewTask → Ptr → ℕ → Option (ℕ × Option ℕ) × KernelVars → Sched → Code × Machine
unfolding create_on take_stack
create_with l t stack stack_size (none, v) k = (err_no_mem, record { kernel = k; object = v })
create_with l t stack stack_size (some (tcb, slot), v) k =
    create_on l t tcb (take_stack l slot stack stack_size v) k

-- The tests of the parameters.
abbrev pub bad_parameters : ℕ → ℕ → Bool
bad_parameters priority stack_size =
    leb max_priority priority || (ltb stack_size min_stack_size || not (bit_and stack_size 7 == 0))

unfoldable pub task_create :
    Layout → Ptr → Option (List ℕ) → Ptr → Ptr → ℕ → Ptr → ℕ → Machine → Code × Machine
unfolding create_with take_tcb
task_create l tcb name none arg priority stack stack_size w = (err_param, w)
task_create l tcb name (some entry) arg priority stack stack_size w =
    if bad_parameters priority stack_size
    then (err_param, w)
    else create_with l (record { name = name; entry = entry; arg = arg; priority = priority }) stack
        stack_size (take_tcb l tcb w.object) w.kernel

-- `if (tcb == NULL) tcb = task_get_current();`
abbrev pub or_current : Ptr → Machine → Ptr
or_current none w = w.kernel.current_task
or_current (some tcb) w = some tcb

-- The critical section of `task_delete` and `task_suspend`.
unfoldable pub retire : (Tcb → Tcb) → ℕ → Sched → Sched
unfolding critical_enter critical_exit scheduler_remove_task
retire f tcb s =
    let (irq_state, s1) = critical_enter s in
    critical_exit irq_state (update_tcb tcb f (scheduler_remove_task (some tcb) s1))

unfoldable pub delete_task : Ptr → Machine → Option Code × Machine
unfolding retire scheduler_get_current scheduler_yield
delete_task none w = (some err_param, w)
delete_task (some tcb) w =
    let w1 = on_kernel (retire (λ b. record b { state = deleted }) tcb) w in
    if same_ptr (some tcb) (scheduler_get_current w1.kernel)
    then (none, on_kernel scheduler_yield w1)
    else (some ok, w1)

unfoldable pub task_delete : Ptr → Machine → Option Code × Machine
unfolding delete_task
task_delete tcb w = delete_task (or_current tcb w) w

unfoldable pub suspend_task : Ptr → Machine → Code × Machine
unfolding retire scheduler_get_current scheduler_yield
suspend_task none w = (err_param, w)
suspend_task (some tcb) w =
    let w1 = on_kernel (retire (λ b. record b { state = suspended }) tcb) w in
    if same_ptr (some tcb) (scheduler_get_current w1.kernel)
    then (ok, on_kernel scheduler_yield w1)
    else (ok, w1)

unfoldable pub task_suspend : Ptr → Machine → Code × Machine
unfolding suspend_task
task_suspend tcb w = suspend_task (or_current tcb w) w

unfoldable pub task_resume : Ptr → Machine → Code × Machine
unfolding scheduler_add_task
task_resume none w = (err_param, w)
task_resume (some tcb) w =
    if same_state (w.kernel.tasks tcb).state suspended
    then (
      ok,
      on_kernel (λ k. scheduler_add_task tcb (update_tcb tcb (λ b. record b { state = ready }) k))
          w,
    )
    else (err_param, w)

unfoldable pub task_yield : Machine → Machine
unfolding scheduler_yield
task_yield w = on_kernel scheduler_yield w

unfoldable pub task_delay : Env KernelVars → ℕ → Machine → Machine
unfolding scheduler_yield scheduler_block_task
task_delay env ticks w =
    if ticks == 0
    then on_kernel scheduler_yield w
    else (scheduler_block_task env block_delay none ticks w).1

-- kernel.h.
unfoldable pub task_delay_ms : Env KernelVars → ℕ → Machine → Machine
unfolding task_delay ms_to_ticks
task_delay_ms env ms w = task_delay env (ms_to_ticks ms) w

unfoldable pub set_priority_of : Ptr → ℕ → Machine → Code × Machine
unfolding scheduler_set_priority
set_priority_of none priority w = (err_param, w)
set_priority_of (some tcb) priority w =
    (ok, on_kernel (scheduler_set_priority (some tcb) priority) w)

unfoldable pub task_set_priority : Ptr → ℕ → Machine → Code × Machine
unfolding set_priority_of
task_set_priority tcb priority w =
    if leb max_priority priority
    then (err_param, w)
    else set_priority_of (or_current tcb w) priority w
