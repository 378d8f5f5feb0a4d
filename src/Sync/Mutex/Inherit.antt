-- ===== src/Sync/Mutex/Inherit.antt =====
-- Priority inheritance of kernel/sync/mutex.c, on the lists of the scheduler.
use helix_rt.Prelude.{
  either, ℕ, ◌<◌, Ptr, ◌≡◌, ◌≢◌, refl, sym, ap, ◌∙◌, [], Option, Bool, true, false, none, some, leb,
  ◌==◌, same_ptr, if◌then◌else◌, arith,
}
use helix_rt.Config.{max_priority, timeout_none}
use helix_rt.Task.{Tcb, Code, ok, is_ok, err_isr, err_state, err_timeout, put, block_mutex}
use helix_rt.Sched.{Sched, update_tcb, is_isr_context}
use helix_rt.Sched.Ready.{
  scheduler_set_priority, scheduler_add_task, scheduler_remove_task, scheduler_get_current,
  is_runnable,
}
use helix_rt.Sched.Block.{World, on_kernel, block_self, waits_for}
use helix_rt.Sched.Block.Laws.{block_self-tcb}
use helix_rt.Sched.Ranks.Entry.{scheduler_add_task-SameRanks, scheduler_remove_task-SameRanks}
use helix_rt.Sched.History.{Place, Places, waiting, ready_at}
use helix_rt.Sched.History.Calls.{Tracks-priority, Tracks, set_priority-Tracks, block-Tracks}
use helix_rt.Sync.Wait.{
  Outcome, Waiter, returned, still_blocked, wait_loop, round, settle, block_for_good,
}
use helix_rt.Sync.Mutex.{
  Mutex, mutex_lock, lock_waiter, lock_try, mutex_trylock, trylock_by, lock_as, inherit_priority,
  boosts,
}

pub put_other : (f : Places) (t a : ℕ) (x : Place) → a ≢ t → put f t x a ≡ f a
put_other f t a x ne = ground arith

-- Changing the priority of a task leaves the current task current.
set_priority-current :
    (t n : ℕ) (s : Sched)
    → n < max_priority
    → (scheduler_set_priority (some t) n s).current_task ≡ s.current_task
unfolding scheduler_set_priority
set_priority-current t n s fits =
    let pass : leb max_priority n ≡ false = ground arith in
    let change : Tcb → Tcb = λ b. record b { priority = n } in
    let gone : Sched = scheduler_remove_task (some t) s in
    let changed : Sched = update_tcb t change gone in
    rw pass (
      either (λ (z : Sched). z.current_task ≡ s.current_task) (scheduler_add_task t changed)
        (update_tcb t change s) (is_runnable (s.tasks t))
        ((scheduler_add_task-SameRanks t changed).current
          ∙ (scheduler_remove_task-SameRanks t s).current)
        refl)

lock_as-held :
    (self prio o : ℕ) (m : Mutex)
    → (m.locked == 0) ≡ false
    → m.owner ≡ some o
    → o ≢ self
    → lock_as self prio m ≡ (err_timeout, m)
unfolding lock_as
lock_as-held self prio o m held owned other =
    let apart : same_ptr m.owner (some self) ≡ false = rw owned (ground arith) in
    rw (held, apart) refl

-- A wait for a mutex that another task holds, one of lower priority that is ready.
module _ (w : World Mutex) (mtx timeout self o p q : ℕ) (f : Places)
    (thread : is_isr_context w.kernel ≡ false) (runs : w.kernel.current_task ≡ some self)
    (held : (w.object.locked == 0) ≡ false) (owned : w.object.owner ≡ some o) (other : o ≢ self)
    (waits : (timeout == timeout_none) ≡ false) (tracks : Tracks w.kernel f)
    (owner_ready : f o ≡ ready_at p) (self_ready : f self ≡ ready_at q) (above : q < p) where
  abbrev raised : Sched
  raised = scheduler_set_priority (some o) q w.kernel

  abbrev blocked_world : World Mutex
  blocked_world = record {
    kernel = block_self block_mutex (some mtx) timeout self raised;
    object = w.object;
  }

  abbrev waiter : Waiter Mutex Code
  waiter = lock_waiter mtx self timeout

  fits : q < max_priority
  fits = (Tracks-priority w.kernel f self q tracks self_ready).1

  -- The round's attempt.
  abbrev tried : Code × World Mutex → Option Code × World Mutex
  tried (res, w1) = ((if is_ok res then some ok else none), w1)

  trylock_fails : lock_try mtx w ≡ (none, w)
  unfolding lock_try mutex_trylock scheduler_get_current trylock_by is_isr_context
  trylock_fails =
      ap (λ (b : Bool). tried (if b then (err_isr, w) else trylock_by w.kernel.current_task w))
        thread
      ∙ ap (λ (c : Ptr). tried (trylock_by c w)) runs
      ∙ ap (λ (r : Code × Mutex). tried (r.0, record { kernel = w.kernel; object = r.1 }))
          (lock_as-held self (w.kernel.tasks self).priority o w.object held owned other)

  boosted : boosts (some o) self w.kernel ≡ true
  boosted =
      let (own, _) = Tracks-priority w.kernel f o p tracks owner_ready in
      let (mine, _) = Tracks-priority w.kernel f self q tracks self_ready in ground arith

  inherits : inherit_priority self w ≡ record w { kernel = raised }
  unfolding inherit_priority
  inherits =
      ap
        (λ (c : Ptr).
          if boosts c self w.kernel
          then on_kernel (scheduler_set_priority c (w.kernel.tasks self).priority) w
          else w)
        owned
      ∙ ap
          (λ (b : Bool).
            if b
            then on_kernel (scheduler_set_priority (some o) (w.kernel.tasks self).priority) w
            else w)
          boosted
      ∙ ap (λ (n : ℕ). on_kernel (scheduler_set_priority (some o) n) w)
          (Tracks-priority w.kernel f self q tracks self_ready).0

  mutex_lock-blocks : mutex_lock (some mtx) timeout [] w ≡ still_blocked blocked_world
  unfolding mutex_lock wait_loop scheduler_get_current is_isr_context round settle block_for_good
  mutex_lock-blocks =
      ap
        (λ (b : Bool). if b then returned err_isr w else (elim w.kernel.current_task [
          | none ↦ returned err_state w
          | some t ↦ wait_loop (lock_waiter mtx t timeout) [] w
        ]))
        thread
      ∙ ap
          (λ (c : Ptr). elim c as (λ x. Outcome Mutex Code) [
            | none ↦ returned err_state w
            | some t ↦ wait_loop (lock_waiter mtx t timeout) [] w
          ])
          runs
      ∙ ap (round waiter (block_for_good waiter)) trylock_fails
      ∙ ap
          (λ (b : Bool).
            settle waiter (block_for_good waiter) (if b then some err_timeout else none) w)
          waits
      ∙ ap (block_for_good waiter) inherits
      ∙ ap
          (λ (c : Ptr). elim c as (λ x. Outcome Mutex Code) [
            | none ↦ returned err_state (record w { kernel = raised })
            | some t ↦ still_blocked (
                on_kernel (block_self block_mutex (some mtx) timeout t)
                  (record w { kernel = raised }))
          ])
          (set_priority-current o q w.kernel fits ∙ runs)

  -- If a task waits for a mutex that a ready task of a lower priority holds: `mutex_lock` moves the
  -- owner to the ready list of the caller's priority, blocks the caller on the mutex, and leaves the
  -- mutex and the places of all other tasks alone.
  pub mutex_lock-inherits :
      (w' : World Mutex) × (mutex_lock (some mtx) timeout [] w ≡ still_blocked w')
      × (w'.object ≡ w.object)
      × Tracks w'.kernel (put (put f o (ready_at q)) self waiting)
      × (waits_for block_mutex (some mtx) (w'.kernel.tasks self) ≡ true)
  mutex_lock-inherits =
      let (order, asleep, v, h) = tracks in
      let (_, reason, object, _, _) = block_self-tcb block_mutex (some mtx) timeout self raised in
      (
        blocked_world,
        mutex_lock-blocks,
        refl,
        moved (set_priority-Tracks w.kernel order asleep f v h o p q owner_ready fits),
        ground arith,
      )
    where
      moved :
          Tracks raised (put f o (ready_at q))
          → Tracks
              (block_self block_mutex (some mtx) timeout self raised)
              (put (put f o (ready_at q)) self waiting)
      moved (order1, asleep1, v1, h1) =
          block-Tracks raised order1 asleep1 (put f o (ready_at q)) v1 h1 self block_mutex
            (some mtx) timeout q (put_other f o self (ready_at q) (λ e. other (sym e)) ∙ self_ready)
