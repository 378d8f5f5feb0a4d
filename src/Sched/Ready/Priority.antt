-- ===== src/Sched/Ready/Priority.antt =====
-- `scheduler_set_priority` and `scheduler_yield` on a valid scheduler.
use helix_rt.Prelude.{
  ℕ, ◌<◌, Ptr, ◌≡◌, refl, sym, ap, subst, ◌∙◌, List, ◌∷◌, Bool, true, false, none, some, has,
  if◌then◌else◌, arith, ==_self, ltb, leb,
}
use mathlib.Core.Path.{ap₂}
use helix_rt.Config.{max_priority}
use helix_rt.Task.{Tcb, put, set_prev}
use helix_rt.Sched.{Sched, when_some, update_tcb, scheduler_trigger_switch}
use helix_rt.Sched.Links.{
  ready_insert_tail, ready_remove, unlink, clear_links, set_next_at, set_prev_at,
}
use helix_rt.Sched.Ready.{
  scheduler_remove_task, scheduler_set_priority, scheduler_yield, yield_current, rotate,
  rotate_before, is_runnable,
}
use helix_rt.Sched.Chain.{Chain}
use helix_rt.Sched.Chain.Unlink.{unlink-fields}
use helix_rt.Sched.Valid.{IsReadyAt, IsValid}
use helix_rt.Sched.Valid.Frame.{update_loose-IsValid}
use helix_rt.Sched.Valid.Insert.{ready_insert_tail-IsValid, append_queue}
use helix_rt.Sched.Valid.Remove.{
  ready_remove-IsValid, ready_remove-IsLoose, remove_queue, heads_without, bitmap_without,
}
use helix_rt.Sched.Ready.Laws.{scheduler_add_task-IsValid, scheduler_remove_task-IsValid}

module _ (s : Sched) (queues : ℕ → List ℕ) (waiting : List ℕ) (t p n : ℕ)
    (v : IsValid s queues waiting) (small : p < max_priority) where
  -- On a valid scheduler `scheduler_set_priority` moves a task from the ready list that it is on to
  -- the end of the one of the given priority, which is below 32, and keeps the lists valid.
  pub scheduler_set_priority-IsValid :
      n < max_priority
      → has t (queues p) ≡ true
      → IsValid
          (scheduler_set_priority (some t) n s)
          (append_queue (remove_queue queues p t) n t)
          waiting
  unfolding scheduler_set_priority
  scheduler_set_priority-IsValid fits here =
      let r : IsReadyAt s.tasks p t = (v.queue p small).members t here in
      let (v1, loose) = scheduler_remove_task-IsValid s queues waiting t p v small here in
      let f : Tcb → Tcb = λ b. record b { priority = n } in
      let s2 : Sched = update_tcb t f (scheduler_remove_task (some t) s) in
      let pass : leb max_priority n ≡ false = ground arith in
      rw (pass, r.runnable)
        (scheduler_add_task-IsValid s2 (remove_queue queues p t) waiting t n
          (update_loose-IsValid (scheduler_remove_task (some t) s) (remove_queue queues p t) waiting
            v1 t f loose)
          fits (ground arith) r.address loose)

  -- A task that is on no list only has its field changed.
  pub scheduler_set_priority-loose :
      is_runnable (s.tasks t) ≡ false
      → n < max_priority
      → scheduler_set_priority (some t) n s ≡ update_tcb t (λ b. record b { priority = n }) s
  unfolding scheduler_set_priority
  scheduler_set_priority-loose idle fits =
      let pass : leb max_priority n ≡ false = ground arith in rw (pass, idle)

-- Rotating is removing the head and appending it again.
module _ (s : Sched) (c d p : ℕ) (prio : (s.tasks c).priority ≡ p)
    (next_d : (s.tasks c).next ≡ some d) (no_prev : (s.tasks c).prev ≡ none)
    (at_head : s.ready_list p ≡ some c) where
  unlink_head : unlink c s.tasks ≡ clear_links c (set_prev d none s.tasks)
  unfolding unlink
  unlink_head =
      ap
        (λ (q : Ptr).
          let joined = set_next_at q (s.tasks c).next s.tasks in
          clear_links c (set_prev_at (joined c).next (joined c).prev joined))
        no_prev
      ∙ ap₂ (λ (n q : Ptr). clear_links c (set_prev_at n q s.tasks)) next_d no_prev

  heads_left : heads_without s.tasks s.ready_list c p ≡ put s.ready_list p (some d)
  heads_left = rw (at_head, ==_self c) (ap (put s.ready_list p) next_d)

  bitmap_left :
      bitmap_without s.priority_bitmap p (heads_without s.tasks s.ready_list c p p)
      ≡ s.priority_bitmap
  bitmap_left = rw (heads_left, ==_self p)

  head_removed : ready_remove c s ≡ record s {
    ready_list = put s.ready_list p (some d);
    tasks = clear_links c (set_prev d none s.tasks);
  }
  unfolding ready_remove
  head_removed =
      ap
        (λ (k : ℕ). record s {
          ready_list = heads_without s.tasks s.ready_list c k;
          priority_bitmap =
              bitmap_without s.priority_bitmap k (heads_without s.tasks s.ready_list c k k);
          tasks = unlink c s.tasks;
        })
        prio
      ∙ (λ i. record s {
        ready_list = heads_left i;
        priority_bitmap = bitmap_left i;
        tasks = unlink_head i;
      })

  rotate-eq-remove_insert : rotate (s.ready_list p) c p s ≡ ready_insert_tail c (ready_remove c s)
  unfolding rotate
  rotate-eq-remove_insert =
      let moved : Sched = record s {
        ready_list = put s.ready_list p (some d);
        tasks = clear_links c (set_prev d none s.tasks);
      } in
      ap (λ (h : Ptr). rotate h c p s) at_head
      ∙ ap (λ (n : Ptr). rotate_before n c c p s) next_d
      ∙ ap (λ (b : Bool). if b then ready_insert_tail c moved else s) (==_self c)
      ∙ ap (ready_insert_tail c) (sym head_removed)

-- Yielding where the current task heads its list and has a peer: it goes to the end of that list.
module _ (s : Sched) (queues : ℕ → List ℕ) (waiting : List ℕ) (c d p : ℕ) (ts : List ℕ)
    (v : IsValid s queues waiting) (small : p < max_priority) (alone : queues p ≡ c ∷ d ∷ ts) where
  linked_peers : Chain s.tasks none (c ∷ d ∷ ts) (s.ready_list p)
  linked_peers = rw alone at ((v.queue p small).chain)

  here : has c (queues p) ≡ true
  here = rw (alone, ==_self c)

  member : IsReadyAt s.tasks p c
  member = (v.queue p small).members c here

  quiet : Sched
  quiet = record s { primask = 1 }

  rotated : Sched
  rotated = ready_insert_tail c (ready_remove c quiet)

  rotated-IsValid : IsValid rotated (append_queue (remove_queue queues p c) p c) waiting
  unfolding rotated quiet ready_remove
  rotated-IsValid =
      ready_insert_tail-IsValid (ready_remove c quiet) (remove_queue queues p c) waiting c p
        (ready_remove-IsValid quiet queues waiting v c p small here) small
        (record {
          priority = (unlink-fields s.tasks c c).0 ∙ member.priority;
          runnable = rw ((unlink-fields s.tasks c c).1) (member.runnable);
          address = member.address;
        })
        (ready_remove-IsLoose s queues waiting v c p small here)

  yield_current-rotates :
      s.lock_count ≡ 0 → yield_current c quiet ≡ scheduler_trigger_switch rotated
  unfolding yield_current rotated quiet
  yield_current-rotates unlocked =
      ap
        (λ (n : ℕ).
          if ltb 0 n
          then record quiet { reschedule_pending = true }
          else scheduler_trigger_switch
              (rotate (s.ready_list (s.tasks c).priority) c (s.tasks c).priority quiet))
        unlocked
      ∙ ap (λ (k : ℕ). scheduler_trigger_switch (rotate (s.ready_list k) c k quiet)) member.priority
      ∙ ap scheduler_trigger_switch (
          rotate-eq-remove_insert quiet c d p member.priority linked_peers.2.0 linked_peers.1
            linked_peers.0)

  -- On a valid scheduler that is not locked, where the current task heads its ready list and another
  -- task stands behind it, `scheduler_yield` moves it to the end of that list, keeps the lists valid
  -- and leaves a switch pending.
  pub scheduler_yield-rotates :
      s.current_task ≡ some c
      → s.lock_count ≡ 0
      → IsValid (scheduler_yield s) (append_queue (remove_queue queues p c) p c) waiting
        × ((scheduler_yield s).pend_sv ≡ true)
  unfolding scheduler_yield scheduler_trigger_switch quiet
  scheduler_yield-rotates cur unlocked =
      subst
        (λ (z : Sched).
          IsValid z (append_queue (remove_queue queues p c) p c) waiting × (z.pend_sv ≡ true))
        (sym
          (ap (λ (o : Ptr). when_some o yield_current quiet) cur ∙ yield_current-rotates unlocked))
        (rotated-IsValid, refl)
