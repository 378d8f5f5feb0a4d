-- ===== src/Kernel/Tasks/Retire.antt =====
-- `task_delete`, `task_suspend` and `task_resume` of a ready task, on a valid scheduler.
use helix_rt.Prelude.{
  eq_of_==, either, ◌==◌, ℕ, ◌<◌, ◌≡◌, ◌≢◌, refl, sym, ap, subst, ◌∙◌, inl, inr, List, Bool, true,
  false, Option, none, some, has, same_ptr, Bool-cases, ==_self, if◌then◌else◌, arith,
}
use helix_rt.Config.{max_priority}
use helix_rt.Task.{
  Tcb, Tcbs, TaskState, Code, ok, err_param, ready, suspended, deleted, same_state, put,
}
use helix_rt.Sched.{Sched, update_tcb}
use helix_rt.Sched.Links.{ready_remove, unlink}
use helix_rt.Sched.Ready.{
  scheduler_remove_task, scheduler_yield, scheduler_add_task, scheduler_get_current,
}
use helix_rt.Sched.Ready.Yield.{HasReady, HasReady_lem, scheduler_yield-HasReady}
use helix_rt.Sched.Ready.Laws.{scheduler_remove_task-IsValid, scheduler_add_task-IsValid}
use helix_rt.Sched.Chain.Unlink.{unlink-fields}
use helix_rt.Sched.Block.{on_kernel}
use helix_rt.Sched.Ranks.{InRange}
use helix_rt.Sched.Valid.{IsValid, IsLoose}
use helix_rt.Sched.Valid.Frame.{update_loose-IsValid}
use helix_rt.Sched.Valid.Insert.{append_queue}
use helix_rt.Sched.Valid.Remove.{remove_queue}
use helix_rt.Kernel.{Machine}
use helix_rt.Kernel.Tasks.{
  retire, delete_task, task_delete, suspend_task, task_suspend, task_resume,
}

put-priority :
    (tasks : Tcbs) (t a : ℕ) (f : Tcb → Tcb)
    → ((b : Tcb) → (f b).priority ≡ b.priority)
    → (put tasks t (f (tasks t)) a).priority ≡ (tasks a).priority
put-priority tasks t a f keeps = elim (Bool-cases (a == t)) [
  | inl e ↦ rw e (keeps (tasks t) ∙ ap (λ (c : ℕ). (tasks c).priority) (sym (eq_of_== a t e)))
  | inr e ↦ rw e refl
]

retire-priority :
    (f : Tcb → Tcb) (t a : ℕ) (s : Sched)
    → ((b : Tcb) → (f b).priority ≡ b.priority)
    → ((retire f t s).tasks a).priority ≡ (s.tasks a).priority
unfolding retire scheduler_remove_task ready_remove unlink
retire-priority f t a s keeps =
    put-priority (unlink t s.tasks) t a f keeps ∙ (unlink-fields s.tasks t a).0

retire-state :
    (t : ℕ) (s : Sched)
    → ((retire (λ b. record b { state = suspended }) t s).tasks t).state ≡ suspended
unfolding retire
retire-state t s = rw (==_self t) refl

module _ (w : Machine) (queues : ℕ → List ℕ) (waiting : List ℕ) (t p : ℕ)
    (v : IsValid w.kernel queues waiting) (small : p < max_priority)
    (here : has t (queues p) ≡ true) where
  retire-IsValid :
      (f : Tcb → Tcb)
      → IsValid (retire f t w.kernel) (remove_queue queues p t) waiting
        × IsLoose t (remove_queue queues p t) waiting
  unfolding retire
  retire-IsValid f =
      let s1 : Sched = record (w.kernel) { primask = 1 } in
      let (valid, loose) = scheduler_remove_task-IsValid s1 queues waiting t p v small here in
      (
        update_loose-IsValid (scheduler_remove_task (some t) s1) (remove_queue queues p t) waiting
            valid t f loose,
        loose,
      )

  -- With the yield that follows for the running task.
  settled :
      (f : Tcb → Tcb)
      → ((b : Tcb) → (f b).priority ≡ b.priority)
      → InRange w.kernel
      → HasReady (remove_queue queues p t) waiting (retire f t w.kernel)
        × HasReady (remove_queue queues p t) waiting (scheduler_yield (retire f t w.kernel))
  unfolding ready_remove
  settled f keeps in_range =
      let (valid, loose) = retire-IsValid f in
      (
        HasReady_lem (retire f t w.kernel) (remove_queue queues p t) waiting valid,
        scheduler_yield-HasReady (retire f t w.kernel) (remove_queue queues p t) waiting valid
            (λ c cur.
              rw (retire-priority f t c w.kernel keeps) (in_range c (unfold retire in cur))),
      )

  -- On a valid scheduler `task_delete` takes a ready task off its list, whether it is the running one
  -- or not, and the lists stay valid, provided that the running task's priority is below 32.
  pub task_delete-HasReady :
      InRange w.kernel
      → HasReady (remove_queue queues p t) waiting (task_delete (some t) w).1.kernel
        × IsLoose t (remove_queue queues p t) waiting
  unfolding task_delete delete_task scheduler_get_current
  task_delete-HasReady in_range =
      let f : Tcb → Tcb = λ b. record b { state = deleted } in
      let w1 : Machine = on_kernel (retire f t) w in
      let (now, later) = settled f (λ b. refl) in_range in
      (
        either
            (λ (z : Option Code × Machine). HasReady (remove_queue queues p t) waiting z.1.kernel)
            (none, on_kernel scheduler_yield w1) (some ok, w1)
            (same_ptr (some t) w1.kernel.current_task) later now,
        (retire-IsValid f).1,
      )

  -- On a valid scheduler `task_suspend` takes a ready task that is not running off its list, and
  -- `task_resume` then puts it at the end of that list; both return KERNEL_OK, and the lists stay
  -- valid.
  pub task_suspend-resume :
      w.kernel.current_task ≢ some t
      → let (r1, w1) = task_suspend (some t) w in
        let (r2, w2) = task_resume (some t) w1 in
        (r1 ≡ ok)
        × IsValid w1.kernel (remove_queue queues p t) waiting
        × (r2 ≡ ok)
        × IsValid w2.kernel (append_queue (remove_queue queues p t) p t) waiting
  task_suspend-resume idle = subst Resumed (sym suspended_now) (
    refl,
    (retire-IsValid f).0,
    ap (λ (z : Code × Machine). z.0) resumed_now,
    subst
        (λ (z : Code × Machine).
          IsValid z.1.kernel (append_queue (remove_queue queues p t) p t) waiting)
        (sym resumed_now) added,
  )
    where
      f : Tcb → Tcb
      f b = record b { state = suspended }

      w1 : Machine
      w1 = on_kernel (retire f t) w

      g : Tcb → Tcb
      g b = record b { state = ready }

      w2 : Machine
      w2 = on_kernel (λ k. scheduler_add_task t (update_tcb t g k)) w1

      Resumed : Code × Machine → Type 0
      Resumed (r1, x) =
          let (r2, y) = task_resume (some t) x in
          (r1 ≡ ok)
          × IsValid x.kernel (remove_queue queues p t) waiting
          × (r2 ≡ ok)
          × IsValid y.kernel (append_queue (remove_queue queues p t) p t) waiting

      not_running : same_ptr (some t) w.kernel.current_task ≡ false
      not_running = ground arith

      suspended_now : task_suspend (some t) w ≡ (ok, w1)
      suspended_now =
          unfold task_suspend suspend_task scheduler_get_current ready_remove in
          ap (λ (b : Bool). if b then (ok, on_kernel scheduler_yield w1) else (ok, w1)) not_running

      resumed_now : task_resume (some t) w1 ≡ (ok, w2)
      resumed_now =
          unfold task_resume in
          ap (λ (s : TaskState). if same_state s suspended then (ok, w2) else (err_param, w1))
            (retire-state t w.kernel)

      added : IsValid w2.kernel (append_queue (remove_queue queues p t) p t) waiting
      added =
          let (valid, loose) = retire-IsValid f in
          scheduler_add_task-IsValid (update_tcb t g w1.kernel) (remove_queue queues p t) waiting t
            p (update_loose-IsValid w1.kernel (remove_queue queues p t) waiting valid t g loose)
            small
            (put-priority w1.kernel.tasks t t g (λ b. refl)
              ∙ retire-priority f t t w.kernel (λ b. refl)
              ∙ ((v.queue p small).members t here).priority)
            ((v.queue p small).members t here).address loose
