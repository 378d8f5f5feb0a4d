-- ===== src/Sched/History/Calls.antt =====
-- What each call does to the lists, when the tasks are where the abstract scheduler has them.
use helix_rt.Prelude.{
  ℕ, ◌+◌, ◌<◌, Ptr, ◌≡◌, refl, sym, subst, ◌∙◌, List, ◌∷◌, true, false, some, has, remove,
  has-remove_self, has-remove_ne, arith,
}
use helix_rt.Config.{word, max_priority}
use helix_rt.Task.{Code, BlockReason, put}
use helix_rt.Sched.{Sched}
use helix_rt.Sched.Ready.{
  is_runnable, scheduler_add_task, scheduler_remove_task, scheduler_set_priority,
}
use helix_rt.Sched.Ready.Laws.{scheduler_add_task-IsValid, scheduler_remove_task-IsValid}
use helix_rt.Sched.Ready.Priority.{scheduler_set_priority-IsValid, scheduler_set_priority-loose}
use helix_rt.Sched.Ready.Yield.{HasReady}
use helix_rt.Sched.Block.{block_self, scheduler_unblock_task}
use helix_rt.Sched.Block.Laws.{block_self-IsValid, scheduler_unblock_task-IsValid}
use helix_rt.Sched.Valid.{IsBlockedAt, IsValid, IsLoose}
use helix_rt.Sched.Valid.Frame.{reprioritise_waiting-IsValid, ready-not-waiting, waiting-not-ready}
use helix_rt.Sched.Valid.Insert.{append_queue}
use helix_rt.Sched.Valid.Remove.{remove_queue}
use helix_rt.Sched.History.{Places, nowhere, waiting, ready_at}
use helix_rt.Sched.History.Placed.{
  Placed, Placed-order, Placed-IsLoose, has-asleep, has-queue, Placed-put, has-append_queue,
  has-append_queue_self, has-remove_queue,
}

-- The lists are valid, and hold the tasks that the places say.
abbrev pub Tracks : Sched → Places → Type 0
Tracks s f =
    (order : ℕ → List ℕ) × (asleep : List ℕ) × IsValid s order asleep × Placed order asleep f

-- A ready task has the priority of its list.
pub Tracks-priority :
    (s : Sched) (f : Places) (t p : ℕ)
    → Tracks s f
    → f t ≡ ready_at p
    → ((s.tasks t).priority ≡ p) × (p < max_priority)
Tracks-priority s f t p (order, asleep, v, h) e =
    let hp : p < max_priority = h.range t p e in
    (((v.queue p hp).members t (has-queue order asleep f h t p e)).priority, hp)

-- Where the members of the lists stay, in any order.
pub HasReady-Tracks :
    (order : ℕ → List ℕ) (asleep : List ℕ) (f : Places)
    → Placed order asleep f
    → (u : Sched) → HasReady order asleep u
    → Tracks u f
HasReady-Tracks order asleep f h u (order2, v2, same) =
    (order2, asleep, v2, Placed-order order asleep f h order2 same)

module _ (s : Sched) (order : ℕ → List ℕ) (asleep : List ℕ) (f : Places)
    (v : IsValid s order asleep) (h : Placed order asleep f) (t : ℕ) where
  -- A task that is on the ready list of `p` is on no other.
  has-remove_queue_self :
      (p i : ℕ)
      → p < max_priority
      → i < max_priority
      → has t (order p) ≡ true
      → has t (remove_queue order p t i) ≡ false
  has-remove_queue_self p i hp hi here =
      (scheduler_remove_task-IsValid s order asleep t p v hp here).1.0 i hi

  pub add-Tracks :
      f t ≡ nowhere
      → (s.tasks t).priority < max_priority
      → t + 1 < word
      → Tracks (scheduler_add_task t s) (put f t (ready_at (s.tasks t).priority))
  add-Tracks e small fits =
      let p : ℕ = (s.tasks t).priority in
      let loose : IsLoose t order asleep = Placed-IsLoose order asleep f h t e in
      (
        append_queue order p t,
        asleep,
        scheduler_add_task-IsValid s order asleep t p v small refl (omega arith) loose,
        Placed-put order asleep f h t (ready_at p) (append_queue order p t) asleep
            (λ i hi. ground (arith, has-append_queue_self order p t i, loose.0 i hi)) (loose.1)
            (λ i k. ground arith) (has-append_queue order p t) (λ a ne. refl) (λ k. fits),
      )

  pub remove-Tracks :
      (p : ℕ) → f t ≡ ready_at p → Tracks (scheduler_remove_task (some t) s) (put f t nowhere)
  remove-Tracks p e =
      let hp : p < max_priority = h.range t p e in
      let here : has t (order p) ≡ true = has-queue order asleep f h t p e in
      let (v1, loose) = scheduler_remove_task-IsValid s order asleep t p v hp here in
      (
        remove_queue order p t,
        asleep,
        v1,
        Placed-put order asleep f h t nowhere (remove_queue order p t) asleep (λ i hi. loose.0 i hi)
            (loose.1) (λ i k. ground arith) (has-remove_queue order p t) (λ a ne. refl)
            (λ k. absurd (ground arith)),
      )

  pub set_priority-Tracks :
      (p n : ℕ)
      → f t ≡ ready_at p
      → n < max_priority
      → Tracks (scheduler_set_priority (some t) n s) (put f t (ready_at n))
  set_priority-Tracks p n e hn =
      let hp : p < max_priority = h.range t p e in
      let here : has t (order p) ≡ true = has-queue order asleep f h t p e in
      let gone : ℕ → List ℕ = remove_queue order p t in
      (
        append_queue gone n t,
        asleep,
        scheduler_set_priority-IsValid s order asleep t p n v hp hn here,
        Placed-put order asleep f h t (ready_at n) (append_queue gone n t) asleep
            (λ i hi.
              ground
                (arith, has-append_queue_self gone n t i, has-remove_queue_self p i hp hi here))
            (ready-not-waiting s order asleep v t p hp here) (λ i k. ground arith)
            (λ i a ne. has-append_queue gone n t i a ne ∙ has-remove_queue order p t i a ne)
            (λ a ne. refl) (λ k. h.fits t (rw e refl)),
      )

  -- A blocked task stays where it is.
  pub set_priority_waiting-Tracks :
      (n : ℕ) → f t ≡ waiting → n < max_priority → Tracks (scheduler_set_priority (some t) n s) f
  set_priority_waiting-Tracks n e hn =
      let here : has t asleep ≡ true = has-asleep order asleep f h t e in
      let r : IsBlockedAt s.tasks t = v.wait_list.members t here in
      let idle : is_runnable (s.tasks t) ≡ false = ground (arith, r.state) in
      subst (λ (z : Sched). Tracks z f)
        (sym (
          scheduler_set_priority-loose s order asleep t (s.tasks t).priority n v r.priority idle
            hn))
        (order, asleep, reprioritise_waiting-IsValid s order asleep v t n here hn, h)

  pub block-Tracks :
      (reason : BlockReason) (object : Ptr) (timeout p : ℕ)
      → f t ≡ ready_at p
      → Tracks (block_self reason object timeout t s) (put f t waiting)
  block-Tracks reason object timeout p e =
      let hp : p < max_priority = h.range t p e in
      let here : has t (order p) ≡ true = has-queue order asleep f h t p e in
      (
        remove_queue order p t,
        t ∷ asleep,
        (block_self-IsValid s order asleep t p v hp reason object timeout here).0,
        Placed-put order asleep f h t waiting (remove_queue order p t) (t ∷ asleep)
            (λ i hi. has-remove_queue_self p i hp hi here) (ground arith) (λ i k. ground arith)
            (has-remove_queue order p t) (λ a ne. ground arith) (λ k. h.fits t (rw e refl)),
      )

  -- A blocked task that goes to the end of its ready list.
  pub Placed-woken :
      f t ≡ waiting
      → Placed
          (append_queue order (s.tasks t).priority t)
          (remove t asleep)
          (put f t (ready_at (s.tasks t).priority))
  Placed-woken e =
      let p : ℕ = (s.tasks t).priority in
      let here : has t asleep ≡ true = has-asleep order asleep f h t e in
      Placed-put order asleep f h t (ready_at p) (append_queue order p t) (remove t asleep)
        (λ i hi. ground (
          arith,
          has-append_queue_self order p t i,
          waiting-not-ready s order asleep v t i hi here,
        ))
        (has-remove_self t asleep v.wait_list.distinct)
        (λ i k. ground (arith, (v.wait_list.members t here).priority)) (has-append_queue order p t)
        (λ a ne. has-remove_ne a t asleep ne) (λ k. h.fits t (rw e refl))

  pub unblock-Tracks :
      (result : Code)
      → f t ≡ waiting
      → Tracks (scheduler_unblock_task (some t) result s) (put f t (ready_at (s.tasks t).priority))
  unblock-Tracks result e = (
    append_queue order (s.tasks t).priority t,
    remove t asleep,
    scheduler_unblock_task-IsValid s order asleep t (s.tasks t).priority v
        (has-asleep order asleep f h t e) refl result,
    Placed-woken e,
  )
