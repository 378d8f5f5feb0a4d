-- ===== src/Sched/History/Laws.antt =====
-- In every history of calls the lists are valid, and each task is on the list that the calls put it on.
use helix_rt.Prelude.{
  ℕ, ◌<◌, ◌≤◌, Ptr, ◌≡◌, refl, sym, ap, subst, ◌∙◌, List, [], true, false, none, some, has, ◌==◌,
  arith, either, length, length-le, ltb, ◌-◌, if◌then◌else◌, ◌&&◌,
}
use helix_rt.Config.{word, max_priority}
use helix_rt.Task.{Code, BlockReason, ready, same_state, put}
use helix_rt.Sched.{Sched, scheduler_trigger_switch}
use helix_rt.Sched.Ranks.{InRange, SameRanks-InRange}
use helix_rt.Sched.Ranks.Entry.{
  scheduler_add_task-SameRanks, scheduler_remove_task-SameRanks, block_self-SameRanks,
  scheduler_unblock_task-SameRanks, scheduler_unblock_one-SameRanks,
  scheduler_unblock_all-SameRanks, scheduler_yield-SameRanks,
}
use helix_rt.Sched.Ready.{
  scheduler_init, scheduler_add_task, scheduler_remove_task, scheduler_lock, scheduler_unlock,
  scheduler_get_next, pendsv_handler, scheduler_yield,
}
use helix_rt.Sched.Ready.Laws.{scheduler_get_next-IsNext, scheduler_init-IsValid}
use helix_rt.Sched.Ready.Yield.{scheduler_yield-HasReady}
use helix_rt.Sched.Block.{
  block_self, waits_for, scheduler_unblock_task, scheduler_unblock_one, scheduler_unblock_all,
}
use helix_rt.Sched.Block.All.{scheduler_unblock_all-moves}
use helix_rt.Sched.Tick.{scheduler_tick, expires}
use helix_rt.Sched.Tick.Laws.{scheduler_tick-HasReady, next_tick, due_queues}
use helix_rt.Sched.Tick.Ranks.{scheduler_tick-SameRanks}
use helix_rt.Sched.Valid.{IsValid}
use helix_rt.Sched.Valid.Frame.{update_loose-IsValid, reprioritise_waiting-IsValid}
use helix_rt.Sched.History.Start.{
  update_tcb-InRange, set_priority-InRange, next-InRange, launch-IsValid, choose_keeps, start_keeps,
}
use helix_rt.Sched.History.{
  ready_at, launched_tcb, launch, rank, begun, chose, launched, ranked, ranked_waiting, nowhere,
}
use helix_rt.Sched.Walk.{chosen, others, append_all}
use helix_rt.Sched.History.{
  Place, Places, waiting, is_waiting, is_placed, waken, Call, run, Moves, Runs, added, removed,
  reprioritised, reprioritised_waiting, yielded, locked, unlocked, ticked, switched, blocked, woken,
  awake, woken_one, woken_none, woken_all, assigned, started, called,
}
use helix_rt.Sched.History.Placed.{
  has-asleep, has-queue, Placed, Placed-nowhere, Placed-waken, Placed-IsLoose,
}
use helix_rt.Sched.History.Calls.{
  Tracks, add-Tracks, remove-Tracks, set_priority-Tracks, set_priority_waiting-Tracks, block-Tracks,
  unblock-Tracks, HasReady-Tracks,
}
use helix_rt.Sched.History.Wakes.{unblock_ready, unblock_one-Tracks, unblock_none-Tracks}

waiting-placed : (x : Place) → is_waiting x ≡ true → is_placed x ≡ true
waiting-placed x e = ground arith

-- The relation between a state of the scheduler and the places that its tasks have.
abbrev pub Related : Sched → Places → Type 0
Related s f = InRange s × Tracks s f

module _ (s : Sched) (f : Places) (in_range : InRange s) (order : ℕ → List ℕ) (asleep : List ℕ)
    (v : IsValid s order asleep) (h : Placed order asleep f) where
  pub tick-Related : Related (scheduler_tick s) (waken (expires (next_tick s)) s.tasks f)
  tick-Related = (
    SameRanks-InRange (record s { tick_count = next_tick s }) (scheduler_tick s)
        (scheduler_tick-SameRanks s) in_range,
    HasReady-Tracks (due_queues s order asleep v) (others (expires (next_tick s)) s.tasks asleep)
        (waken (expires (next_tick s)) s.tasks f)
        (Placed-waken order asleep f h (expires (next_tick s)) s.tasks
          (λ a k. (v.wait_list.members a k).priority))
        (scheduler_tick s) (scheduler_tick-HasReady s order asleep v in_range),
  )

  unblock_all-Related :
      (reason : BlockReason) (object : Ptr) (result : Code)
      → Related
          (scheduler_unblock_all reason object result s).1
          (waken (waits_for reason object) s.tasks f)
  unblock_all-Related reason object result = (
    SameRanks-InRange s (scheduler_unblock_all reason object result s).1
        (scheduler_unblock_all-SameRanks reason object result s) in_range,
    (
      append_all s.tasks (chosen (waits_for reason object) s.tasks asleep) order,
      others (waits_for reason object) s.tasks asleep,
      (scheduler_unblock_all-moves s order asleep v reason object result few).1,
      Placed-waken order asleep f h (waits_for reason object) s.tasks
          (λ a k. (v.wait_list.members a k).priority),
    ),
  )
    where
      few : length asleep < word
      few =
          let short : length asleep ≤ word - 1 =
            length-le (word - 1) asleep v.wait_list.distinct
              (λ a k. omega (arith, h.fits a (waiting-placed (f a) (sym (h.on_wait a) ∙ k)))) in
          omega arith

  pub switch-Related : Related (pendsv_handler s) f
  unfolding pendsv_handler
  switch-Related = (
    next-InRange s order asleep (scheduler_get_next s) v
        (scheduler_get_next-IsNext s order asleep v),
    (order, asleep, v, h),
  )

  unlock-Related : Related (scheduler_unlock s) f
  unfolding scheduler_unlock scheduler_trigger_switch
  unlock-Related =
      let s1 : Sched = record s { primask = 1 } in
      let s2 : Sched =
        if ltb 0 s.lock_count then record s1 { lock_count = s.lock_count - 1 } else s1 in
      let r2 : Related s2 f =
        either (λ (z : Sched). Related z f) (record s1 { lock_count = s.lock_count - 1 }) s1
          (ltb 0 s.lock_count) (in_range, (order, asleep, v, h))
          (in_range, (order, asleep, v, h)) in
      either (λ (z : Sched). Related (record z { primask = s.primask }) f)
        (scheduler_trigger_switch (record s2 { reschedule_pending = false })) s2
        (s2.lock_count == 0 && s2.reschedule_pending) r2 r2

  pub launch-Related : (t p : ℕ) → f t ≡ ready_at p → Related (run (launch t) s) f
  unfolding run
  launch-Related t p e =
      let hp : p < max_priority = h.range t p e in
      let here : has t (order p) ≡ true = has-queue order asleep f h t p e in
      (
        update_tcb-InRange s t launched_tcb (rw (((v.queue p hp).members t here).priority) hp)
            in_range,
        (order, asleep, launch-IsValid s order asleep v t p hp here, h),
      )

  rank-Related : (t n : ℕ) → f t ≡ nowhere → n < max_priority → Related (run (rank t n) s) f
  unfolding run
  rank-Related t n e small = (
    update_tcb-InRange s t (λ b. record b { priority = n }) small in_range,
    (
      order,
      asleep,
      update_loose-IsValid s order asleep v t (λ b. record b { priority = n })
          (Placed-IsLoose order asleep f h t e),
      h,
    ),
  )

  rank_waiting-Related : (t n : ℕ) → f t ≡ waiting → n < max_priority → Related (run (rank t n) s) f
  unfolding run
  rank_waiting-Related t n e small = (
    update_tcb-InRange s t (λ b. record b { priority = n }) small in_range,
    (
      order,
      asleep,
      reprioritise_waiting-IsValid s order asleep v t n (has-asleep order asleep f h t e) small,
      h,
    ),
  )

  -- Any call.
  call-Related :
      {s' : Sched} {c : Call} {g : Places} → Moves s s' f c g → run c s ≡ s' → Related (run c s) g
  unfolding run
  call-Related begun same =
      let (r, w) = start_keeps s order asleep v in_range in (r, (order, asleep, w, h))
  call-Related chose same =
      let (r, w) = choose_keeps s order asleep v in_range in (r, (order, asleep, w, h))
  call-Related (launched t p e) same = launch-Related t p e
  call-Related (ranked t n e small) same = rank-Related t n e small
  call-Related (ranked_waiting t n e small) same = rank_waiting-Related t n e small
  call-Related (added t e small fits) same = (
    SameRanks-InRange s (scheduler_add_task t s) (scheduler_add_task-SameRanks t s) in_range,
    add-Tracks s order asleep f v h t e small fits,
  )
  call-Related (removed t p e) same = (
    SameRanks-InRange s (scheduler_remove_task (some t) s) (scheduler_remove_task-SameRanks t s)
        in_range,
    remove-Tracks s order asleep f v h t p e,
  )
  call-Related (reprioritised t p n e small) same = (
    set_priority-InRange s t n small in_range,
    set_priority-Tracks s order asleep f v h t p n e small,
  )
  call-Related (reprioritised_waiting t n e small) same = (
    set_priority-InRange s t n small in_range,
    set_priority_waiting-Tracks s order asleep f v h t n e small,
  )
  call-Related yielded same = (
    SameRanks-InRange s (scheduler_yield s) (scheduler_yield-SameRanks s) in_range,
    HasReady-Tracks order asleep f h (scheduler_yield s)
        (scheduler_yield-HasReady s order asleep v in_range),
  )
  call-Related locked same = unfold scheduler_lock in (in_range, (order, asleep, v, h))
  call-Related unlocked same = unlock-Related
  call-Related ticked same = tick-Related
  call-Related switched same = switch-Related
  call-Related (blocked reason object timeout t p cur e) same =
      subst
        (λ (o : Ptr).
          Related (elim o [ none ↦ s | some t ↦ block_self reason object timeout t s ])
            (put f t waiting))
        (sym cur)
        (
          SameRanks-InRange s (block_self reason object timeout t s)
              (block_self-SameRanks reason object timeout t s) in_range,
          block-Tracks s order asleep f v h t reason object timeout p e,
        )
  call-Related (woken t result e) same = (
    SameRanks-InRange s (scheduler_unblock_task (some t) result s)
        (scheduler_unblock_task-SameRanks t result s) in_range,
    unblock-Tracks s order asleep f v h t result e,
  )
  call-Related (awake t p result e) same =
      subst (λ (z : Sched). Related z f) (sym (unblock_ready s order asleep f v h t p result e))
        (in_range, (order, asleep, v, h))
  call-Related (woken_one reason object result t e waits seen) same = (
    SameRanks-InRange s (scheduler_unblock_one reason object result s).1
        (scheduler_unblock_one-SameRanks reason object result s) in_range,
    unblock_one-Tracks s order asleep f v h reason object result t e waits
        (ap (λ (z : Sched). same_state (z.tasks t).state ready) same ∙ seen),
  )
  call-Related (woken_none reason object result nobody_waits) same = (
    SameRanks-InRange s (scheduler_unblock_one reason object result s).1
        (scheduler_unblock_one-SameRanks reason object result s) in_range,
    unblock_none-Tracks s order asleep f v h reason object result nobody_waits,
  )
  call-Related (woken_all reason object result) same = unblock_all-Related reason object result
  call-Related (assigned t b e small) same = (
    update_tcb-InRange s t (λ _. b) small in_range,
    (
      order,
      asleep,
      update_loose-IsValid s order asleep v t (λ _. b) (Placed-IsLoose order asleep f h t e),
      h,
    ),
  )

-- In every history of calls of the scheduler from its initialisation, the start of the first task
-- included (`scheduler_start` and `scheduler_set_priority` as one call or step by step, with other
-- calls between), in which a task is added from no list, removed, blocked (if current) or launched
-- from a ready list, unblocked on a list, given a priority below 32 (by the step alone, only off the
-- ready lists), and control blocks are otherwise assigned only on no list: the lists are valid, each
-- task is on the list that the calls have put it on, and the current task has a priority below 32.
pub Runs-Related : {s : Sched} {f : Places} → Runs s f → Related s f
unfolding scheduler_init
Runs-Related (started s) =
    (λ c e. absurd (ground arith), (λ p. [], [], scheduler_init-IsValid s, Placed-nowhere))
Runs-Related (called c r m) =
    let (in_range, (order, asleep, v, h)) = Runs-Related r in
    call-Related _ _ in_range order asleep v h m refl
