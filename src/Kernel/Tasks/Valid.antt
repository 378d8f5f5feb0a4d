-- ===== src/Kernel/Tasks/Valid.antt =====
-- `task_create` on a valid scheduler, and the scheduler that `kernel_init` sets up.
use helix_rt.Prelude.{
  ℕ, ◌-◌, ◌/◌, ◌<◌, ◌≡◌, refl, sym, ap, subst, Ptr, false, Option, none, some, List, [], ◌==◌,
  if◌then◌else◌, arith,
}
use helix_rt.Config.{word, max_priority, idle_stack_size}
use helix_rt.Task.{Tcb, Code, ok, err_state}
use helix_rt.Sched.{update_tcb}
use helix_rt.Sched.Valid.{IsValid, IsLoose}
use helix_rt.Sched.Valid.Frame.{update_loose-IsValid}
use helix_rt.Sched.Ready.Laws.{scheduler_init-IsValid}
use helix_rt.Sched.Valid.Insert.{append_queue}
use helix_rt.Sched.Ready.Laws.{scheduler_add_task-IsValid}
use helix_rt.Kernel.{KernelState, Layout, Machine, state_init, state_uninit}
use helix_rt.Kernel.Stack.{fill_stack, task_init_stack}
use helix_rt.Kernel.Tasks.{
  NewTask, new_tcb, stack_top_of, build_task, create_on, create_with, take_tcb, take_stack,
  bad_parameters, task_create,
}
use helix_rt.Kernel.Control.{kernel_init, finish_init, kernel_state_value, prepared, idle_name}

build_task-IsValid :
    (l : Layout) (t : NewTask) (tcb stack stack_size : ℕ) (w : Machine) (queues : ℕ → List ℕ)
    (waiting : List ℕ)
    → IsValid w.kernel queues waiting
    → IsLoose tcb queues waiting
    → tcb < word
    → t.priority < max_priority
    → IsValid
        (build_task l t tcb stack stack_size w).kernel
        (append_queue queues t.priority tcb)
        waiting
unfolding build_task
build_task-IsValid l t tcb stack stack_size w queues waiting v loose address small =
    let sp : ℕ =
      (task_init_stack (stack_top_of stack stack_size) t.entry t.arg l.task_exit_trampoline
        (fill_stack (stack_size / 4) stack w.object.memory)).0 in
    let f : Tcb → Tcb = λ b. new_tcb t w.object.next_task_id stack stack_size sp in
    scheduler_add_task-IsValid (update_tcb tcb f w.kernel) queues waiting tcb t.priority
      (update_loose-IsValid w.kernel queues waiting v tcb f loose) small (ground arith) address
      loose

-- With good parameters, a control block that is on no list and a stack of the caller's, `task_create`
-- succeeds and appends the task to the ready list of its priority.
pub task_create-IsValid :
    (l : Layout) (tcb : ℕ) (name : Option (List ℕ)) (entry : ℕ) (arg : Ptr)
    (priority stack stack_size : ℕ) (w : Machine) (queues : ℕ → List ℕ) (waiting : List ℕ)
    → IsValid w.kernel queues waiting
    → IsLoose tcb queues waiting
    → tcb < word
    → bad_parameters priority stack_size ≡ false
    → let (res, w1) =
        task_create l (some tcb) name (some entry) arg priority (some stack) stack_size w in
      (res ≡ ok) × IsValid w1.kernel (append_queue queues priority tcb) waiting
unfolding task_create create_with create_on take_tcb take_stack
task_create-IsValid l tcb name entry arg priority stack stack_size w queues waiting v loose address
      good =
    rw good (
      refl,
      build_task-IsValid l (record { name = name; entry = entry; arg = arg; priority = priority })
          tcb stack stack_size w queues waiting v loose address (ground (arith, good)),
    )

-- On an uninitialised kernel `kernel_init` succeeds, and leaves the idle task, with the lowest
-- priority, as the only one on the lists.
pub kernel_init-IsValid :
    (l : Layout) (w : Machine)
    → w.object.kernel_state ≡ state_uninit
    → l.idle_tcb < word
    → let (res, w1) = kernel_init l w in
      (res ≡ ok)
      × (w1.object.kernel_state ≡ state_init)
      × IsValid w1.kernel (append_queue (λ p. []) (max_priority - 1) l.idle_tcb) []
unfolding kernel_init
kernel_init-IsValid l w fresh address = subst Started (sym tested) (
    finish (create (prepared w)) (
      task_create-IsValid l l.idle_tcb (some idle_name) l.idle_task none (max_priority - 1)
        l.idle_stack idle_stack_size (prepared w) (λ p. []) [] (scheduler_init-IsValid w.kernel)
        (λ p h. refl, refl) address (ground arith)))
  where
    create : Machine → Code × Machine
    create =
        task_create l (some l.idle_tcb) (some idle_name) (some l.idle_task) none (max_priority - 1)
          (some l.idle_stack) idle_stack_size

    Started : Code × Machine → Type 0
    Started (res, w1) =
        (res ≡ ok)
        × (w1.object.kernel_state ≡ state_init)
        × IsValid w1.kernel (append_queue (λ p. []) (max_priority - 1) l.idle_tcb) []

    tested : kernel_init l w ≡ finish_init (create (prepared w))
    tested =
        ap
          (λ (k : KernelState).
            if kernel_state_value k == 0 then finish_init (create (prepared w)) else (err_state, w))
          fresh

    finish :
        (out : Code × Machine)
        → (out.0 ≡ ok)
          × IsValid (out.1.kernel) (append_queue (λ p. []) (max_priority - 1) l.idle_tcb) []
        → Started (finish_init out)
    finish (res, w1) (e, v) = unfold finish_init in rw e (refl, refl, v)
