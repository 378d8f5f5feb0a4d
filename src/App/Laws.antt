-- ===== src/App/Laws.antt =====
-- From main() to the first task.
use helix_rt.Prelude.{
  ℕ, ◌-◌, ltb, eq_of_==, ◌<◌, ◌≡◌, ◌≢◌, Ptr, refl, sym, ap, ◌∙◌, inl, inr, List, [], ◌∷◌, false,
  Bool-cases, Option, none, some, ◌==◌, if◌then◌else◌, arith,
}
use helix_rt.Config.{word, max_priority, time_slice_ticks}
use helix_rt.Hal.Clock.{clock_init}
use helix_rt.Task.{Code, ok, is_ok, running}
use helix_rt.Sched.{Sched, update_tcb}
use helix_rt.Sched.Ready.{scheduler_start, scheduler_get_next}
use helix_rt.Sched.Ready.Laws.{IsNext, idle, first, scheduler_get_next-IsNext}
use helix_rt.Sched.Valid.{IsValid, IsLoose}
use helix_rt.Sched.Valid.Insert.{append_queue}
use helix_rt.Kernel.{
  KernelState, state_uninit, state_init, state_running, Layout, Machine, with_vars,
}
use helix_rt.Kernel.Tasks.{
  task_create, create_with, create_on, build_task, take_tcb, take_stack, bad_parameters,
}
use helix_rt.Kernel.Tasks.Valid.{task_create-IsValid, kernel_init-IsValid}
use helix_rt.Kernel.Control.{kernel_init, kernel_start, kernel_state_value, start_tick, start_with}
use helix_rt.App.{
  AppLayout, Board, blink_name, heartbeat_name, app_stack_size, create_tasks, start_app, main,
}

-- With memory of the caller's, `task_create` leaves the kernel's state alone.
task_create-state :
    (l : Layout) (tcb : ℕ) (name : Option (List ℕ)) (entry : ℕ) (arg : Ptr)
    (priority stack stack_size : ℕ) (w : Machine)
    → bad_parameters priority stack_size ≡ false
    → (task_create l
        (some tcb)
        name
        (some entry)
        arg
        priority
        (some stack)
        stack_size
        w).1.object.kernel_state
      ≡ w.object.kernel_state
unfolding task_create create_with create_on take_tcb take_stack build_task
task_create-state l tcb name entry arg priority stack stack_size w good = rw good refl

-- The ready lists with the idle task and the two tasks of the application.
abbrev app_queues : ℕ → ℕ → ℕ → ℕ → List ℕ
app_queues idle_tcb blink heartbeat =
    append_queue (append_queue (append_queue (λ p. []) (max_priority - 1) idle_tcb) 2 blink) 3
      heartbeat

above : (i b h p : ℕ) → p < 2 → app_queues i b h p ≡ []
above i b h p k = ground arith

at_two : (i b h : ℕ) → app_queues i b h 2 ≡ b ∷ []
at_two i b h = refl

-- The blinking task has the highest priority.
first-eq :
    (i b h p t : ℕ) (ts : List ℕ)
    → app_queues i b h p ≡ t ∷ ts
    → ((r : ℕ) → r < p → app_queues i b h r ≡ [])
    → t ≡ b
first-eq i b h p t ts e empty = elim (Bool-cases (p == 2)) [
  | inl q ↦ same (sym (ap (app_queues i b h) (eq_of_== p 2 q)) ∙ e)
  | inr q ↦ elim (Bool-cases (ltb p 2)) [
    | inl k ↦ absurd (ground (arith, sym (above i b h p (ground arith)) ∙ e))
    | inr k ↦ absurd (ground (arith, sym (at_two i b h) ∙ empty 2 (ground arith)))
  ]
]
  where
    same : b ∷ [] ≡ t ∷ ts → t ≡ b
    same f = ground arith

next-eq_of_IsNext : (i b h : ℕ) (o : Ptr) → IsNext (app_queues i b h) o → o ≡ some b
next-eq_of_IsNext i b h o (idle empty) =
    absurd (ground (arith, sym (at_two i b h) ∙ empty 2 (omega arith)))
next-eq_of_IsNext i b h o (first p t ts small e empty) = ap some (first-eq i b h p t ts e empty)

-- Starting the kernel with that task.
kernel_start-first :
    (w : Machine) (t : ℕ)
    → w.object.kernel_state ≡ state_init
    → scheduler_get_next w.kernel ≡ some t
    → (w' : Machine) × (kernel_start w ≡ some w')
      × (w'.kernel.current_task ≡ some t)
      × (w'.object.kernel_state ≡ state_running)
unfolding kernel_start scheduler_start
kernel_start-first w t e f = (
  record { kernel = started; object = start_tick w.object },
  ap
        (λ (k : KernelState).
          if kernel_state_value k == 1
          then start_with (start_tick w.object) (scheduler_start w.kernel)
          else none)
        e
      ∙ ap
          (λ (o : Ptr).
            start_with (start_tick w.object)
              (elim o [ none ↦ none | some x ↦ some (with_first x) ]))
          f,
  refl,
  refl,
)
  where
    with_first : ℕ → Sched
    with_first x =
        update_tcb x
          (λ b. record b { state = running; time_slice = time_slice_ticks; sp = b.stack_top })
          (record (w.kernel) { current_task = some x; sched_current = some x })

    started : Sched
    started = with_first t

heartbeat-IsLoose :
    (i b h : ℕ)
    → h ≢ i
    → h ≢ b
    → IsLoose h (append_queue (append_queue (λ p. []) (max_priority - 1) i) 2 b) []
heartbeat-IsLoose i b h p q = (λ r k. ground arith, refl)

blink-IsLoose : (i b : ℕ) → b ≢ i → IsLoose b (append_queue (λ p. []) (max_priority - 1) i) []
blink-IsLoose i b p = (λ r k. ground arith, refl)

module _ (l : Layout) (a : AppLayout) (blink_small : a.blink_tcb < word)
    (heartbeat_small : a.heartbeat_tcb < word) (apart_blink : a.blink_tcb ≢ l.idle_tcb)
    (apart_heartbeat : a.heartbeat_tcb ≢ l.idle_tcb)
    (apart_both : a.heartbeat_tcb ≢ a.blink_tcb) where
  abbrev with_blink : Machine → Machine
  with_blink w =
      (task_create l (some a.blink_tcb) (some blink_name) (some a.blink_entry) none 2
        (some a.blink_stack) app_stack_size w).1

  -- The two tasks on the lists, and the kernel's state as it was.
  create_tasks-IsValid :
      (w : Machine)
      → IsValid w.kernel (append_queue (λ p. []) (max_priority - 1) l.idle_tcb) []
      → IsValid (create_tasks l a w).kernel (app_queues l.idle_tcb a.blink_tcb a.heartbeat_tcb) []
        × ((create_tasks l a w).object.kernel_state ≡ w.object.kernel_state)
  unfolding create_tasks
  create_tasks-IsValid w v = (
    (task_create-IsValid l a.heartbeat_tcb (some heartbeat_name) a.heartbeat_entry none 3
        a.heartbeat_stack app_stack_size (with_blink w)
        (append_queue (append_queue (λ p. []) (max_priority - 1) l.idle_tcb) 2 a.blink_tcb) []
        (task_create-IsValid l a.blink_tcb (some blink_name) a.blink_entry none 2 a.blink_stack
          app_stack_size w (append_queue (λ p. []) (max_priority - 1) l.idle_tcb) [] v
          (blink-IsLoose l.idle_tcb a.blink_tcb apart_blink) blink_small refl).1
        (heartbeat-IsLoose l.idle_tcb a.blink_tcb a.heartbeat_tcb apart_heartbeat apart_both)
        heartbeat_small refl).1,
    task_create-state l a.heartbeat_tcb (some heartbeat_name) a.heartbeat_entry none 3
          a.heartbeat_stack app_stack_size (with_blink w) refl
        ∙ task_create-state l a.blink_tcb (some blink_name) a.blink_entry none 2 a.blink_stack
            app_stack_size w refl,
  )

  -- The state that `start_app` leaves when the initialisation has succeeded.
  start_app-blink :
      (res : Code) (w : Machine)
      → res ≡ ok
      → w.object.kernel_state ≡ state_init
      → IsValid w.kernel (append_queue (λ p. []) (max_priority - 1) l.idle_tcb) []
      → (w' : Machine) × (start_app l a (res, w) ≡ some w')
        × (w'.kernel.current_task ≡ some a.blink_tcb)
        × (w'.object.kernel_state ≡ state_running)
  unfolding start_app
  start_app-blink res w e f v =
      let (valid, state) = create_tasks-IsValid w v in
      let (w', started, runs, state_after) =
        kernel_start-first (create_tasks l a w) a.blink_tcb (state ∙ f) (
          next-eq_of_IsNext l.idle_tcb a.blink_tcb a.heartbeat_tcb
            (scheduler_get_next (create_tasks l a w).kernel)
            (scheduler_get_next-IsNext (create_tasks l a w).kernel
              (app_queues l.idle_tcb a.blink_tcb a.heartbeat_tcb) [] valid)) in
      (
        w',
        ap (λ (c : Code). if is_ok c then kernel_start (create_tasks l a w) else none) e ∙ started,
        runs,
        state_after,
      )

  -- From an uninitialised kernel, with control blocks of their own for the three tasks at addresses
  -- below 2 ^ 32, main() reaches the start of the blinking task, with the kernel running.
  pub main-blink :
      (b : Board) (w : Machine)
      → w.object.kernel_state ≡ state_uninit
      → l.idle_tcb < word
      → (w' : Machine) × ((main l a b w).1 ≡ some w')
        × (w'.kernel.current_task ≡ some a.blink_tcb)
        × (w'.object.kernel_state ≡ state_running)
  unfolding main
  main-blink b w fresh idle_small =
      let ready =
        with_vars (λ v. record v { core_clock = (clock_init b.clocks).system_core_clock }) w in
      let (e, f, v) = kernel_init-IsValid l ready fresh idle_small in
      start_app-blink (kernel_init l ready).0 (kernel_init l ready).1 e f v
