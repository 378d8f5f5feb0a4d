-- ===== src/Sync/Mutex/Restore.antt =====
-- The end of priority inheritance: `mutex_unlock` on the lists of the scheduler.
use helix_rt.Prelude.{
  either, ℕ, ◌<◌, Ptr, ◌≡◌, ◌≢◌, refl, sym, ap, subst, ◌∙◌, Bool, true, false, none, some, has,
  remove, ltb, leb, ◌==◌, ==_self, ◌-◌, same_ptr, if◌then◌else◌, arith,
}
use helix_rt.Config.{max_priority, time_slice_ticks}
use helix_rt.Task.{Tcb, ok, err_isr, err_state, put, block_mutex, ready}
use helix_rt.Sched.{Sched, update_tcb, is_isr_context, scheduler_trigger_switch}
use helix_rt.Sched.Links.{ready_insert_tail, ready_remove}
use helix_rt.Sched.Ready.{
  scheduler_set_priority, scheduler_add_task, scheduler_remove_task, scheduler_get_current,
  is_runnable, preempt_for, outranks_current,
}
use helix_rt.Sched.Block.{World, waits_for, scheduler_unblock_one}
use helix_rt.Sched.Block.Best.{Woke, nobody, somebody, scheduler_unblock_one-Woke}
use helix_rt.Sched.Valid.Insert.{append_queue}
use helix_rt.Sched.Walk.{data_of, append_ready-data, unlink-data, put_ne-data}
use helix_rt.Sched.History.{Place, Places, waiting, ready_at, is_waiting}
use helix_rt.Sched.History.Placed.{has-asleep}
use helix_rt.Sched.History.Calls.{Tracks-priority, Tracks, set_priority-Tracks, Placed-woken}
use helix_rt.Sync.Mutex.{Mutex, mutex_unlock, unlock_by, unlock_as, restore_priority}
use helix_rt.Sync.Mutex.Inherit.{put_other}

-- Changing the priority of a task changes no other task but in its links.
scheduler_add_task-data :
    (t a : ℕ) (s : Sched)
    → (a == t) ≡ false
    → data_of ((scheduler_add_task t s).tasks a) ≡ data_of (s.tasks a)
unfolding scheduler_add_task ready_insert_tail preempt_for
scheduler_add_task-data t a s ne =
    either (λ (z : Sched). data_of (z.tasks a) ≡ data_of (s.tasks a))
      (scheduler_trigger_switch listed) listed (outranks_current t listed) kept kept
  where
    woken : Sched
    woken =
        update_tcb t (λ b. record b { state = ready; time_slice = time_slice_ticks })
          (record s { primask = 1 })

    listed : Sched
    listed = ready_insert_tail t woken

    kept : data_of (listed.tasks a) ≡ data_of (s.tasks a)
    kept =
        append_ready-data (woken.ready_list (woken.tasks t).priority) t (woken.tasks t).priority a
          (update_tcb t (λ b. record b { next = none; prev = none }) woken)
        ∙ put_ne-data woken.tasks t a (record (woken.tasks t) { next = none; prev = none }) ne
        ∙ put_ne-data s.tasks t a
            (record (s.tasks t) { state = ready; time_slice = time_slice_ticks }) ne

set_priority-data :
    (t n a : ℕ) (s : Sched)
    → n < max_priority
    → (a == t) ≡ false
    → data_of ((scheduler_set_priority (some t) n s).tasks a) ≡ data_of (s.tasks a)
unfolding scheduler_set_priority
set_priority-data t n a s fits ne =
    let pass : leb max_priority n ≡ false = ground arith in
    let change : Tcb → Tcb = λ b. record b { priority = n } in
    let gone : Sched = scheduler_remove_task (some t) s in
    let changed : Sched = update_tcb t change gone in
    rw pass (
      either (λ (z : Sched). data_of (z.tasks a) ≡ data_of (s.tasks a))
        (scheduler_add_task t changed) (update_tcb t change s) (is_runnable (s.tasks t))
        (scheduler_add_task-data t a changed ne
          ∙ put_ne-data gone.tasks t a (change (gone.tasks t)) ne
          ∙ removed)
        (put_ne-data s.tasks t a (change (s.tasks t)) ne))
  where
    removed : data_of ((scheduler_remove_task (some t) s).tasks a) ≡ data_of (s.tasks a)
    removed = unfold scheduler_remove_task ready_remove in unlink-data t a s.tasks

of_waiting : (x : Place) → is_waiting x ≡ true → x ≡ waiting
of_waiting x k = ground arith

not_both : {p : ℕ} (x : Place) → x ≡ waiting → x ≡ ready_at p → ⊥
not_both x e k = ground arith

-- An unlock by the running owner, who has inherited a priority, of a mutex that a task waits for.
module _ (w : World Mutex) (mtx o p q c : ℕ) (f : Places) (thread : is_isr_context w.kernel ≡ false)
    (runs : w.kernel.current_task ≡ some o) (owned : w.object.owner ≡ some o)
    (last : ltb 1 w.object.recursive_count ≡ false) (tracks : Tracks w.kernel f)
    (owner_ready : f o ≡ ready_at q) (base : (w.kernel.tasks o).base_priority ≡ p)
    (fits : p < max_priority) (inherited : q ≢ p) (asleep_c : f c ≡ waiting)
    (waits : waits_for block_mutex (some mtx) (w.kernel.tasks c) ≡ true) where
  abbrev quiet : Sched
  quiet = record w.kernel { primask = 1 }

  abbrev lowered : Sched
  lowered = scheduler_set_priority (some o) p quiet

  abbrev woken : Sched
  woken = (scheduler_unblock_one block_mutex (some mtx) ok lowered).1

  abbrev freed : World Mutex
  freed = record {
    kernel = record woken { primask = w.kernel.primask };
    object = record (w.object) { locked = 0; owner = none; recursive_count = 0 };
  }

  abbrev places : Places
  places = put f o (ready_at p)

  restores : restore_priority o quiet ≡ lowered
  unfolding restore_priority
  restores =
      let (own, _) = Tracks-priority w.kernel f o q tracks owner_ready in
      let differs : ((w.kernel.tasks o).priority == (w.kernel.tasks o).base_priority) ≡ false =
        ground arith in
      ap
        (λ (b : Bool).
          if b
          then quiet
          else scheduler_set_priority (some o) (w.kernel.tasks o).base_priority quiet)
        differs
      ∙ ap (λ (n : ℕ). scheduler_set_priority (some o) n quiet) base

  mutex_unlock-frees : mutex_unlock (some mtx) w ≡ (ok, freed)
  unfolding mutex_unlock unlock_by unlock_as scheduler_get_current is_isr_context
  mutex_unlock-frees =
      let own : same_ptr w.object.owner (some o) ≡ true = rw owned (==_self o) in
      let free : Sched → World Mutex = λ k. record {
        kernel = record (scheduler_unblock_one block_mutex (some mtx) ok k).1 {
          primask = w.kernel.primask;
        };
        object = record (w.object) { locked = 0; owner = none; recursive_count = 0 };
      } in
      ap
        (λ (b : Bool). if b then (err_isr, w) else unlock_by mtx (scheduler_get_current w.kernel) w)
        thread
      ∙ ap (λ (t : Ptr). unlock_by mtx t w) runs
      ∙ ap (λ (b : Bool). if b then (ok, unlock_as mtx o w) else (err_state, w)) own
      ∙ ap
          (λ (b : Bool). (
            ok,
            (if b
                then record {
                  kernel = w.kernel;
                  object = record (w.object) { recursive_count = w.object.recursive_count - 1 };
                }
                else free (restore_priority o quiet)),
          ))
          last
      ∙ ap (λ (k : Sched). (ok, free k)) restores

  -- What the other tasks keep.
  kept : (t : ℕ) → t ≢ o → data_of (lowered.tasks t) ≡ data_of (w.kernel.tasks t)
  kept t ne = set_priority-data o p t quiet fits (ground arith)

  kept-waits :
      (t : ℕ)
      → t ≢ o
      → waits_for block_mutex (some mtx) (lowered.tasks t)
        ≡ waits_for block_mutex (some mtx) (w.kernel.tasks t)
  kept-waits t ne = ap (waits_for block_mutex (some mtx)) (kept t ne)

  not_owner : (t : ℕ) → places t ≡ waiting → t ≢ o
  not_owner t e k = absurd (ground arith)

  -- The task that is woken.
  abbrev Freed : Sched → Type 0
  Freed k =
      (t : ℕ) × (f t ≡ waiting)
      × (waits_for block_mutex (some mtx) (w.kernel.tasks t) ≡ true)
      × Tracks k (put places t (ready_at (w.kernel.tasks t).priority))

  woken_waiter : Tracks lowered places → Freed woken
  woken_waiter (order, asleep, v, h) =
      go (scheduler_unblock_one block_mutex (some mtx) ok lowered)
        (scheduler_unblock_one-Woke lowered order asleep v block_mutex (some mtx) ok)
    where
      c_other : c ≢ o
      c_other e = absurd (not_both (f c) asleep_c (ap f e ∙ owner_ready))

      go : (r : Bool × Sched) → Woke lowered order asleep block_mutex (some mtx) r → Freed r.1
      go r (nobody none_waits v2) =
          let here : has c asleep ≡ true =
            has-asleep order asleep places h c (put_other f o c (ready_at p) c_other ∙ asleep_c) in
          absurd (ground (arith, none_waits c here, kept-waits c c_other))
      go r (somebody b is_in is_waiter best v2) =
          let e : places b ≡ waiting = of_waiting (places b) (sym (h.on_wait b) ∙ is_in) in
          let ne : b ≢ o = not_owner b e in
          (
            b,
            sym (put_other f o b (ready_at p) ne) ∙ e,
            sym (kept-waits b ne) ∙ is_waiter,
            subst (λ (n : ℕ). Tracks r.1 (put places b (ready_at n)))
                (ap (λ (x : Tcb). x.priority) (kept b ne))
                (
                  append_queue order (lowered.tasks b).priority b,
                  remove b asleep,
                  v2,
                  Placed-woken lowered order asleep places v h b e,
                ),
          )

  -- If the running task owns the mutex, has locked it once, has a priority other than its base
  -- priority, which is below 32, and some task waits for the mutex: `mutex_unlock` returns KERNEL_OK,
  -- frees the mutex, moves the owner to the ready list of its base priority and a waiter of the mutex
  -- to that of the waiter's priority, and leaves the places of all other tasks alone.
  pub mutex_unlock-restores :
      (w' : World Mutex) × (t : ℕ) × (mutex_unlock (some mtx) w ≡ (ok, w'))
      × (w'.object.locked ≡ 0)
      × (w'.object.owner ≡ none)
      × (f t ≡ waiting)
      × (waits_for block_mutex (some mtx) (w.kernel.tasks t) ≡ true)
      × Tracks w'.kernel (put (put f o (ready_at p)) t (ready_at (w.kernel.tasks t).priority))
  mutex_unlock-restores =
      let (order, asleep, v, h) = tracks in
      let (t, waiting_t, waits_t, moved) =
        woken_waiter (set_priority-Tracks quiet order asleep f v h o q p owner_ready fits) in
      (freed, t, mutex_unlock-frees, refl, refl, waiting_t, waits_t, moved)
