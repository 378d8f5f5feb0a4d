-- ===== src/Kernel/Switch/Start.antt =====
-- The first switch to a new task: from `task_create` to the task's entry function.
use helix_rt.Prelude.{
  either, ℕ, zero, suc, ◌+◌, ◌-◌, ◌*◌, ◌/◌, ◌%◌, ◌≤◌, ◌<◌, ◌≡◌, ◌≢◌, refl, sym, ap, subst, ◌∙◌, ◌⊎◌,
  Ptr, Option, none, some, List, [], ◌∷◌, Bool, false, arith, if◌then◌else◌,
}
use helix_rt.Prelude.Bits.{bit_and-lt}
use helix_rt.Config.{word, time_slice_ticks}
use helix_rt.Task.{Tcb, Tcbs, Code, ok, err_param, put, ready}
use helix_rt.Sched.{Sched, update_tcb, scheduler_trigger_switch}
use helix_rt.Sched.Links.{ready_insert_tail, clear_links}
use helix_rt.Sched.Ready.{scheduler_get_next, scheduler_add_task, preempt_for, outranks_current}
use helix_rt.Sched.Walk.{append_ready-data}
use helix_rt.Kernel.{Layout, Machine}
use helix_rt.Kernel.Stack.{Memory, fill_stack, task_init_stack, address_of, exc_return_thread_psp}
use helix_rt.Kernel.Stack.Laws.{words_at, task_init_stack-words}
use helix_rt.Kernel.Tasks.{
  new_tcb, stack_top_of, build_task, create_on, create_with, take_tcb, take_stack, bad_parameters,
  task_create,
}
use helix_rt.Kernel.Switch.{Cpu, HwStackFrame, frame_words, load_hw_frame, switch_context}
use helix_rt.Kernel.Switch.Frames.{load_hw_frame_lem, words_at-store_words}
use helix_rt.Kernel.Switch.Laws.{Holds, switch_context-in}

-- What a new task's registers are when the handler returns to it, and what the exception return then
-- loads.
abbrev pub first_context : ℕ → Cpu
first_context stack_top = record {
  saved = record {
    r4 = 0;
    r5 = 0;
    r6 = 0;
    r7 = 0;
    r8 = 0;
    r9 = 0;
    r10 = 0;
    r11 = 0;
    exc_return = exc_return_thread_psp;
  };
  psp = stack_top - 32;
}

abbrev pub first_hw_frame : ℕ → Ptr → ℕ → HwStackFrame
first_hw_frame entry arg exit_func = record {
  r0 = address_of arg;
  r1 = 0;
  r2 = 0;
  r3 = 0;
  r12 = 0;
  lr = exit_func;
  pc = entry;
  xpsr = 0x01000000;
}

-- Adding a task to the ready lists leaves the stack pointers alone.
scheduler_add_task-sp :
    (t a : ℕ) (s : Sched) → ((scheduler_add_task t s).tasks a).sp ≡ (s.tasks a).sp
unfolding scheduler_add_task ready_insert_tail preempt_for
scheduler_add_task-sp t a s =
    either (λ (z : Sched). (z.tasks a).sp ≡ (s.tasks a).sp) (scheduler_trigger_switch listed) listed
      (outranks_current t listed) kept kept
  where
    woken : Sched
    woken =
        update_tcb t (λ b. record b { state = ready; time_slice = time_slice_ticks })
          (record s { primask = 1 })

    listed : Sched
    listed = ready_insert_tail t woken

    unlinked : (tasks : Tcbs) → (clear_links t tasks a).sp ≡ (tasks a).sp
    unlinked tasks = ground arith

    marked :
        (tasks : Tcbs)
        → (put tasks t (record (tasks t) { state = ready; time_slice = time_slice_ticks }) a).sp
          ≡ (tasks a).sp
    marked tasks = ground arith

    kept : (listed.tasks a).sp ≡ (s.tasks a).sp
    kept =
        ap (λ (b : Tcb). b.sp)
          (append_ready-data (woken.ready_list (woken.tasks t).priority) t (woken.tasks t).priority
            a (update_tcb t (λ b. record b { next = none; prev = none }) woken))
        ∙ unlinked woken.tasks
        ∙ marked s.tasks

-- The first words of a list, and the others.
front : ℕ → List ℕ → List ℕ
front zero xs = []
front (suc n) [] = []
front (suc n) (x ∷ xs) = x ∷ front n xs

behind : ℕ → List ℕ → List ℕ
behind zero xs = xs
behind (suc n) [] = []
behind (suc n) (x ∷ xs) = behind n xs

abbrev pub new_words : ℕ → Ptr → ℕ → List ℕ
new_words entry arg exit_func =
    0
    ∷ 0
    ∷ 0
    ∷ 0
    ∷ 0
    ∷ 0
    ∷ 0
    ∷ 0
    ∷ exc_return_thread_psp
    ∷ address_of arg
    ∷ 0
    ∷ 0
    ∷ 0
    ∷ 0
    ∷ exit_func
    ∷ entry
    ∷ 0x01000000
    ∷ []

-- The 17 words of a new stack, in two frames.
module _ (top entry : ℕ) (arg : Ptr) (exit_func : ℕ) (mem : Memory) (low : 68 ≤ top)
    (written : words_at 17 (top - 68) mem ≡ new_words entry arg exit_func) where
  software_words : words_at 9 (top - 68) mem ≡ frame_words (first_context top).saved
  unfolding front
  software_words = ap (front 9) written

  hardware_words :
      words_at 8 (top - 32) mem
      ≡ address_of arg ∷ 0 ∷ 0 ∷ 0 ∷ 0 ∷ exit_func ∷ entry ∷ 0x01000000 ∷ []
  unfolding behind
  hardware_words = ap (λ (a : ℕ). words_at 8 a mem) (omega arith) ∙ ap (behind 9) written

-- What `task_create` leaves for the switch: the control block's stack pointer, and the 17 words.
module _ (l : Layout) (tcb : ℕ) (name : Option (List ℕ)) (entry : ℕ) (arg : Ptr)
    (priority stack stack_size : ℕ) (w : Machine)
    (good : bad_parameters priority stack_size ≡ false)
    (room : 68 ≤ stack_top_of stack stack_size) where
  abbrev pub top : ℕ
  top = stack_top_of stack stack_size

  abbrev pub created : Machine
  created = (task_create l (some tcb) name (some entry) arg priority (some stack) stack_size w).1

  top-lt : top < word
  top-lt = bit_and-lt 32 ((stack + 4 * (stack_size / 4)) % word) (word - 1 - 7) (omega arith)

  abbrev made : Machine
  made =
      build_task l (record { name = name; entry = entry; arg = arg; priority = priority }) tcb stack
        stack_size w

  abbrev Made : Code × Machine → Type 0
  Made (res, z) =
      (res ≡ ok)
      × ((z.kernel.tasks tcb).sp ≡ top - 68)
      × (words_at 17 (top - 68) z.object.memory ≡ new_words entry arg l.task_exit_trampoline)

  task_create-Made :
      Made (task_create l (some tcb) name (some entry) arg priority (some stack) stack_size w)
  unfolding task_create create_with create_on take_tcb take_stack build_task
  task_create-Made =
      let filled = fill_stack (stack_size / 4) stack w.object.memory in
      let block =
        new_tcb (record { name = name; entry = entry; arg = arg; priority = priority })
          w.object.next_task_id stack stack_size
          (task_init_stack top entry arg l.task_exit_trampoline filled).0 in
      let (moved, read) =
        task_init_stack-words top entry arg l.task_exit_trampoline filled room top-lt in
      subst Made (sym (ap (λ (b : Bool). if b then (err_param, w) else (ok, made)) good)) (
        refl,
        scheduler_add_task-sp tcb tcb (update_tcb tcb (λ x. block) w.kernel)
            ∙ own w.kernel.tasks block
            ∙ moved,
        ap
              (λ (a : ℕ).
                words_at 17 a (task_init_stack top entry arg l.task_exit_trampoline filled).1)
              (sym moved)
            ∙ read,
      )
    where
      own : (tasks : Tcbs) (b : Tcb) → (put tasks tcb b tcb).sp ≡ b.sp
      own tasks b = ground arith

  -- After a successful `task_create` with memory of the caller's, and whatever leaves the task's stack
  -- pointer and new stack frame alone: a switch to the task, from one whose frame lies elsewhere, gives
  -- it clear registers, and the exception return enters its entry function with its argument in R0,
  -- task_exit_trampoline as the return address and the stack empty.
  pub task_create-starts :
      (c : Cpu) (w2 : Machine) (b : ℕ)
      → (w2.kernel.tasks tcb).sp ≡ (created.kernel.tasks tcb).sp
      → words_at 17 (top - 68) w2.object.memory ≡ words_at 17 (top - 68) created.object.memory
      → 36 ≤ c.psp
      → c.psp < word
      → (top ≤ c.psp - 36) ⊎ (c.psp ≤ top - 68)
      → w2.kernel.current_task ≡ some b
      → b ≢ tcb
      → scheduler_get_next w2.kernel ≡ some tcb
      → (w3 : Machine) × (switch_context c w2 ≡ some (first_context top, w3))
        × (w3.kernel.current_task ≡ some tcb)
        × (load_hw_frame (top - 32) w3.object.memory
            ≡ first_hw_frame entry arg l.task_exit_trampoline)
  task_create-starts c w2 b sp_kept words_kept low high apart runs other chosen =
      let (_, pointer, words) = task_create-Made in
      let written = words_kept ∙ words in
      let held : Holds (first_context top) tcb w2 = record {
        pointer = sp_kept ∙ pointer ∙ omega arith;
        words =
            ap (λ (a : ℕ). words_at 9 a w2.object.memory) (omega (arith, room))
            ∙ software_words top entry arg l.task_exit_trampoline w2.object.memory room written;
      } in
      let (w3, e, runs3, memory) =
        switch_context-in (first_context top) c w2 tcb b (omega (arith, room))
          (omega (arith, top-lt)) low high held runs other (ground arith) chosen in
      (
        w3,
        e,
        runs3,
        load_hw_frame_lem (first_hw_frame entry arg l.task_exit_trampoline) (top - 32)
            w3.object.memory (omega (arith, top-lt, room))
            (ap (λ (m : Memory). words_at 8 (top - 32) m) memory
              ∙ words_at-store_words 8 (top - 32) (frame_words c.saved) (c.psp - 36)
                  w2.object.memory (omega arith) (ground (arith, room))
              ∙ hardware_words top entry arg l.task_exit_trampoline w2.object.memory room written),
      )
