-- ===== src/Sched/Ready/Lock.antt =====
-- The preemption lock: `scheduler_lock`, a yield under it, and `scheduler_unlock`.
use helix_rt.Prelude.{
  ℕ, ◌+◌, ◌-◌, ◌<◌, ◌≡◌, refl, sym, ap, ◌∙◌, Ptr, Bool, true, false, some, ◌==◌, ◌&&◌, ltb,
  if◌then◌else◌, arith,
}
use helix_rt.Config.{word}
use helix_rt.Sched.{Sched, when_some, scheduler_trigger_switch}
use helix_rt.Sched.Ready.{scheduler_lock, scheduler_yield, scheduler_unlock, yield_current, rotate}

module _ (s : Sched) (c : ℕ) (runs : s.current_task ≡ some c)
    (small : s.lock_count + 1 < word) where
  lock-eq : scheduler_lock s ≡ record s { lock_count = s.lock_count + 1 }
  unfolding scheduler_lock
  lock-eq = ap (λ (n : ℕ). record s { lock_count = n }) (omega arith)

  abbrev held : Sched
  held = record s { lock_count = s.lock_count + 1; primask = 1 }

  is_held : ltb 0 (s.lock_count + 1) ≡ true
  is_held = ground arith

  -- A yield under the lock is only noted.
  locked_yield :
      scheduler_yield (record s { lock_count = s.lock_count + 1 })
      ≡ record s { lock_count = s.lock_count + 1; reschedule_pending = true }
  unfolding scheduler_yield yield_current
  locked_yield =
      ap (λ (o : Ptr). record (when_some o yield_current held) { primask = s.primask }) runs
      ∙ ap
          (λ (b : Bool).
            record (if b
              then record held { reschedule_pending = true }
              else scheduler_trigger_switch
                  (rotate (s.ready_list (s.tasks c).priority) c (s.tasks c).priority held)) {
                    primask = s.primask;
                  })
          is_held

  -- What `scheduler_unlock` does once the count has gone down.
  abbrev switch_pending : Sched → Sched
  switch_pending z =
      record (if z.lock_count == 0 && z.reschedule_pending
        then scheduler_trigger_switch (record z { reschedule_pending = false })
        else z) { primask = s.primask }

  unlocked :
      scheduler_unlock (record s { lock_count = s.lock_count + 1; reschedule_pending = true }) ≡ (
        if s.lock_count == 0
        then record s { reschedule_pending = false; pend_sv = true }
        else record s { reschedule_pending = true })
  unfolding scheduler_unlock scheduler_trigger_switch
  unlocked =
      ap
        (λ (b : Bool). switch_pending (
          if b
          then record held { lock_count = s.lock_count + 1 - 1; reschedule_pending = true }
          else record held { reschedule_pending = true }))
        is_held
      ∙ ap (λ (n : ℕ). switch_pending (record held { lock_count = n; reschedule_pending = true }))
          (back s.lock_count)
      ∙ by_count (s.lock_count == 0)
    where
      back : (n : ℕ) → n + 1 - 1 ≡ n
      back n = omega arith

      by_count :
          (b : Bool)
          → record (if b && true
              then record s { pend_sv = true; reschedule_pending = false; primask = 1 }
              else record s { reschedule_pending = true; primask = 1 }) { primask = s.primask }
            ≡ (if b
                then record s { reschedule_pending = false; pend_sv = true }
                else record s { reschedule_pending = true })
      by_count true = refl
      by_count false = refl

  -- If a task runs and the count is below its limit: under the lock a yield leaves the lists and the
  -- pending switch alone and is only noted. The unlock restores the count, and pends the switch where
  -- the count is 0 again.
  pub scheduler_lock-unlock :
      let locked = scheduler_lock s in
      (scheduler_yield locked ≡ record locked { reschedule_pending = true })
      × (scheduler_unlock (scheduler_yield locked) ≡ (
          if s.lock_count == 0
          then record s { reschedule_pending = false; pend_sv = true }
          else record s { reschedule_pending = true }))
  scheduler_lock-unlock = (
    ap scheduler_yield lock-eq
        ∙ locked_yield
        ∙ sym (ap (λ (z : Sched). record z { reschedule_pending = true }) lock-eq),
    ap (λ (z : Sched). scheduler_unlock (scheduler_yield z)) lock-eq
        ∙ ap scheduler_unlock locked_yield
        ∙ unlocked,
  )
