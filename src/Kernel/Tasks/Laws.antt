-- ===== src/Kernel/Tasks/Laws.antt =====
-- `task_create`: what a failure leaves behind, and what a success does to the scheduler's lists.
use helix_rt.Prelude.{
  ℕ, ◌≡◌, ◌≢◌, refl, sym, ap, ◌∙◌, Ptr, Option, none, some, List, Bool-cases, inl, inr, ◌==◌,
  eq_of_==, ltb,
}
use helix_rt.Config.{max_tasks, default_stack_size}
use helix_rt.Task.{ok, put}
use helix_rt.Kernel.{KernelVars, Layout, Machine}
use helix_rt.Kernel.Slots.{alloc_slot, free_slot}
use helix_rt.Kernel.Slots.Laws.{Allocated, full, slot, alloc_slot-Allocated}
use helix_rt.Kernel.Tasks.{
  NewTask, take_pool_tcb, take_tcb, take_pool_stack, take_stack, create_on, create_with,
  bad_parameters, task_create,
}

-- Nothing has changed: the scheduler, the slots in use, the identifiers and the memory.
pub record Untouched (w w1 : Machine) : Type 0 where
  pub kernel : w1.kernel ≡ w.kernel
  pub task_slots : (j : ℕ) → w1.object.task_slot_used j ≡ w.object.task_slot_used j
  pub stack_slots : (j : ℕ) → w1.object.stack_slot_used j ≡ w.object.stack_slot_used j
  pub next_id : w1.object.next_task_id ≡ w.object.next_task_id
  pub memory : w1.object.memory ≡ w.object.memory

-- Freeing the slot that was just taken.
put_back : (used : ℕ → ℕ) (i : ℕ) → used i ≡ 0 → (j : ℕ) → put (put used i 1) i 0 j ≡ used j
put_back used i free j = elim (Bool-cases (j == i)) [
  | inl e ↦ rw e (sym free ∙ ap used (sym (eq_of_== j i e)))
  | inr e ↦ rw e refl
]

-- What taking a control block may do.
data TookTcb (v : KernelVars) : Option (ℕ × Option ℕ) × KernelVars → Type 0 where
  refused : TookTcb v (none, v)
  given : (tcb : ℕ) → TookTcb v (some (tcb, none), v)
  pooled :
      (tcb i : ℕ)
      → v.task_slot_used i ≡ 0
      → TookTcb v (some (tcb, some i), record v { task_slot_used = put v.task_slot_used i 1 })

take_pool_tcb-TookTcb :
    (l : Layout) (v : KernelVars) (out : Option ℕ × (ℕ → ℕ))
    → Allocated v.task_slot_used 0 max_tasks out
    → TookTcb v (take_pool_tcb l out v)
unfolding take_pool_tcb
take_pool_tcb-TookTcb l v out (full h) = refused
take_pool_tcb-TookTcb l v out (slot k a b free h) = pooled (l.task_pool k) k free

take_tcb-TookTcb : (l : Layout) (tcb : Ptr) (v : KernelVars) → TookTcb v (take_tcb l tcb v)
unfolding take_tcb
take_tcb-TookTcb l (some tcb) v = given tcb
take_tcb-TookTcb l none v =
    take_pool_tcb-TookTcb l v (alloc_slot v.task_slot_used max_tasks)
      (alloc_slot-Allocated v.task_slot_used max_tasks)

-- Freeing `taken` restores the slots of `w`.
module _ (l : Layout) (t : NewTask) (tcb : ℕ) (taken : Option ℕ) (used : ℕ → ℕ) (w : Machine)
    (back : (j : ℕ) → free_slot used taken j ≡ w.object.task_slot_used j) where
  v1 : KernelVars
  v1 = record (w.object) { task_slot_used = used }

  create_on-Untouched :
      (out : Option ℕ × (ℕ → ℕ))
      → Allocated w.object.stack_slot_used 0 max_tasks out
      → let (res, w1) = create_on l t tcb (take_pool_stack l taken out v1) w.kernel in
        res ≢ ok → Untouched w w1
  unfolding create_on take_pool_stack v1
  create_on-Untouched out (full h) failed = record {
    kernel = refl;
    task_slots = back;
    stack_slots = λ j. refl;
    next_id = refl;
    memory = refl;
  }
  create_on-Untouched out (slot k a b free h) failed = absurd (failed refl)

  take_stack-Untouched :
      (stack : Ptr) (stack_size : ℕ)
      → let (res, w1) = create_on l t tcb (take_stack l taken stack stack_size v1) w.kernel in
        res ≢ ok → Untouched w w1
  unfolding create_on take_stack v1
  take_stack-Untouched (some stack) stack_size = λ failed. absurd (failed refl)
  take_stack-Untouched none stack_size = elim (Bool-cases (ltb default_stack_size stack_size)) [
    | inl e ↦ rw e (λ failed. record {
      kernel = refl;
      task_slots = back;
      stack_slots = λ j. refl;
      next_id = refl;
      memory = refl;
    })
    | inr e ↦ rw e (
        create_on-Untouched (alloc_slot w.object.stack_slot_used max_tasks)
          (alloc_slot-Allocated w.object.stack_slot_used max_tasks))
  ]

create_with-Untouched :
    (l : Layout) (t : NewTask) (stack : Ptr) (stack_size : ℕ) (w : Machine)
    (out : Option (ℕ × Option ℕ) × KernelVars)
    → TookTcb w.object out
    → let (res, w1) = create_with l t stack stack_size out w.kernel in res ≢ ok → Untouched w w1
unfolding create_with free_slot v1
create_with-Untouched l t stack stack_size w out refused failed = record {
  kernel = refl;
  task_slots = λ j. refl;
  stack_slots = λ j. refl;
  next_id = refl;
  memory = refl;
}
create_with-Untouched l t stack stack_size w out (given tcb) failed =
    take_stack-Untouched l t tcb none w.object.task_slot_used w (λ j. refl) stack stack_size failed
create_with-Untouched l t stack stack_size w out (pooled tcb i free) failed =
    take_stack-Untouched l t tcb (some i) (put w.object.task_slot_used i 1) w
      (put_back w.object.task_slot_used i free) stack stack_size failed

-- Whatever its arguments, a `task_create` that does not return KERNEL_OK leaves the scheduler, the
-- slots in use, the next identifier and the memory as they were.
pub task_create-Untouched :
    (l : Layout) (tcb : Ptr) (name : Option (List ℕ)) (entry arg : Ptr) (priority : ℕ) (stack : Ptr)
    (stack_size : ℕ) (w : Machine)
    → (task_create l tcb name entry arg priority stack stack_size w).0 ≢ ok
    → Untouched w (task_create l tcb name entry arg priority stack stack_size w).1
unfolding task_create
task_create-Untouched l tcb name none arg priority stack stack_size w = λ failed. record {
  kernel = refl;
  task_slots = λ j. refl;
  stack_slots = λ j. refl;
  next_id = refl;
  memory = refl;
}
task_create-Untouched l tcb name (some entry) arg priority stack stack_size w =
    elim (Bool-cases (bad_parameters priority stack_size)) [
      | inl e ↦ rw e (λ failed. record {
        kernel = refl;
        task_slots = λ j. refl;
        stack_slots = λ j. refl;
        next_id = refl;
        memory = refl;
      })
      | inr e ↦ rw e (
          create_with-Untouched l
            (record { name = name; entry = entry; arg = arg; priority = priority }) stack stack_size
            w (take_tcb l tcb w.object) (take_tcb-TookTcb l tcb w.object))
    ]
