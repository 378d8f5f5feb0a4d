-- ===== src/Sched/Ready/Laws.antt =====
-- What the ready side of kernel/scheduler.c does to the lists of a valid scheduler.
use helix_rt.Prelude.{
  ℕ, zero, suc, ◌<◌, Ptr, ◌≡◌, refl, inl, inr, ltb, List, [], ◌∷◌, true, false, none, some, has,
  if◌then◌else◌, arith, Bool-cases, Option-cases, leb,
}
use helix_rt.Prelude.Bits.{bit, bit-zero}
use helix_rt.Config.{word, max_priority, time_slice_ticks}
use helix_rt.Task.{Tcb, Tcbs, ready}
use helix_rt.Bitmap.{bitmap_find_highest}
use helix_rt.Bitmap.Laws.{bitmap_find_highest-IsLowest}
use helix_rt.Sched.{Sched, update_tcb}
use helix_rt.Sched.Links.{ready_insert_tail}
use helix_rt.Sched.Ready.{
  scheduler_init, scheduler_get_next, scheduler_add_task, scheduler_remove_task, preempt_for,
  outranks_current,
}
use helix_rt.Sched.Valid.{IsReadyAt, Queue, IsValid, IsLoose}
use helix_rt.Sched.Valid.Frame.{update_loose-IsValid}
use helix_rt.Sched.Valid.Insert.{ready_insert_tail-IsValid, append_queue, nil_of_null, cons_of_head}
use helix_rt.Sched.Valid.Remove.{ready_remove-IsValid, ready_remove-IsLoose, remove_queue}

pub preempt_for-IsValid :
    (s : Sched) (queues : ℕ → List ℕ) (waiting : List ℕ) (t : ℕ)
    → IsValid s queues waiting
    → IsValid (preempt_for t s) queues waiting
unfolding preempt_for
preempt_for-IsValid s queues waiting t v = elim (Bool-cases (outranks_current t s)) [
  | inl e ↦ rw e v
  | inr e ↦ rw e v
]

-- What `scheduler_get_next` may return: NULL where no task is ready, and else the first task of the
-- highest priority that has one.
pub data IsNext (queues : ℕ → List ℕ) : Ptr → Type 0 where
  idle : ((r : ℕ) → r < max_priority → queues r ≡ []) → IsNext queues none
  first :
      (p t : ℕ) (ts : List ℕ)
      → p < max_priority
      → queues p ≡ t ∷ ts
      → ((r : ℕ) → r < p → queues r ≡ [])
      → IsNext queues (some t)

-- The bit of a priority tells an empty list from one with a head.
queue_empty :
    (t : Tcbs) (m : ℕ) (head : Ptr) (p : ℕ) (xs : List ℕ)
    → Queue t m head p xs
    → bit m p ≡ 0
    → xs ≡ []
queue_empty t m head p xs q off = nil_of_null t xs head q.chain (ground (arith, q.marked))

queue_head :
    (t : Tcbs) (m : ℕ) (head : Ptr) (p : ℕ) (xs : List ℕ)
    → Queue t m head p xs
    → bit m p ≡ 1
    → (a : ℕ) × (ys : List ℕ) × (head ≡ some a) × (xs ≡ a ∷ ys)
queue_head t m head p xs q on = elim (Option-cases head) [
  | inl e ↦ absurd (ground (arith, q.marked))
  | inr (a, e) ↦ let (ys, f) = cons_of_head t xs head a q.chain e in (a, ys, e, f)
]

-- On a valid scheduler `scheduler_get_next` returns the first ready task of the highest priority that
-- has one, and NULL only where no task is ready.
pub scheduler_get_next-IsNext :
    (s : Sched) (queues : ℕ → List ℕ) (waiting : List ℕ)
    → IsValid s queues waiting
    → IsNext queues (scheduler_get_next s)
unfolding scheduler_get_next
scheduler_get_next-IsNext s queues waiting v = go s.priority_bitmap refl
  where
    empty : (m r : ℕ) → s.priority_bitmap ≡ m → r < max_priority → bit m r ≡ 0 → queues r ≡ []
    empty m r e hr off =
        queue_empty s.tasks s.priority_bitmap (s.ready_list r) r (queues r) (v.queue r hr)
          (rw e off)

    go :
        (m : ℕ)
        → s.priority_bitmap ≡ m
        → IsNext queues (
            if leb max_priority (bitmap_find_highest m)
            then none
            else s.ready_list (bitmap_find_highest m))
    go zero e = unfold bitmap_find_highest in idle (λ r hr. empty 0 r e hr (bit-zero r))
    go (suc m) e =
        let (low, small) =
          bitmap_find_highest-IsLowest (suc m) (omega arith) (rw e at v.bitmap_word) in
        let p : ℕ = bitmap_find_highest (suc m) in
        let (t, ts, h, f) =
          queue_head s.tasks s.priority_bitmap (s.ready_list p) p (queues p) (v.queue p small)
            (rw e low.bit_set) in
        let pass : leb max_priority p ≡ false = ground arith in
        rw (pass, h)
          (first p t ts small f (λ r hr. empty (suc m) r e (omega arith) (low.below r hr)))

module _ (s : Sched) (queues : ℕ → List ℕ) (waiting : List ℕ) (t p : ℕ)
    (v : IsValid s queues waiting) (small : p < max_priority) where
  -- On a valid scheduler `scheduler_add_task` appends a task that is on no list to the ready list of
  -- its priority, which is below 32, and keeps the lists valid.
  pub scheduler_add_task-IsValid :
      (s.tasks t).priority ≡ p
      → t < word
      → IsLoose t queues waiting
      → IsValid (scheduler_add_task t s) (append_queue queues p t) waiting
  unfolding scheduler_add_task
  scheduler_add_task-IsValid prio address loose =
      let f : Tcb → Tcb = λ b. record b { state = ready; time_slice = time_slice_ticks } in
      let s2 : Sched = update_tcb t f (record s { primask = 1 }) in
      let here : IsReadyAt s2.tasks p t = record {
        priority = ground arith;
        runnable = ground arith;
        address = address;
      } in
      let inserted : IsValid (ready_insert_tail t s2) (append_queue queues p t) waiting =
        ready_insert_tail-IsValid s2 queues waiting t p
          (update_loose-IsValid s queues waiting v t f loose) small here loose in
      preempt_for-IsValid (ready_insert_tail t s2) (append_queue queues p t) waiting t inserted

  -- On a valid scheduler `scheduler_remove_task` takes a task off the ready list that it is on, keeps
  -- the lists valid and leaves the task on none of them.
  pub scheduler_remove_task-IsValid :
      has t (queues p) ≡ true
      → IsValid (scheduler_remove_task (some t) s) (remove_queue queues p t) waiting
        × IsLoose t (remove_queue queues p t) waiting
  unfolding scheduler_remove_task
  scheduler_remove_task-IsValid here = (
    ready_remove-IsValid (record s { primask = 1 }) queues waiting v t p small here,
    ready_remove-IsLoose s queues waiting v t p small here,
  )

-- `scheduler_init` leaves all lists empty.
pub scheduler_init-IsValid : (s : Sched) → IsValid (scheduler_init s) (λ p. []) []
unfolding scheduler_init
scheduler_init-IsValid s = record {
  bitmap_word = omega arith;
  queue = λ p h. empty_queue p h;
  wait_list = record { chain = refl; distinct = tt; members = λ a h. absurd (ground arith) };
}
  where
    empty_queue :
        (p : ℕ)
        → p < max_priority
        → Queue s.tasks 0 (if ltb p max_priority then none else s.ready_list p) p []
    empty_queue p h =
        let small : ltb p max_priority ≡ true = ground arith in
        rw small (record {
          chain = refl;
          distinct = tt;
          members = λ a g. absurd (ground arith);
          marked = bit-zero p;
        })
