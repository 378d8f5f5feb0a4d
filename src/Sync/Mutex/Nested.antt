-- ===== src/Sync/Mutex/Nested.antt =====
-- kernel/sync/mutex.c: a recursive mutex that its owner locks again.
use helix_rt.Prelude.{
  ℕ, ◌+◌, ◌-◌, ◌≤◌, ◌≡◌, refl, sym, ap, subst, ◌∙◌, inl, inr, Ptr, Bool, true, false, ◌&&◌, some,
  if◌then◌else◌, Bool-cases, arith, ◌==◌, ltb, same_ptr, ==_self,
}
use helix_rt.Task.{Code, ok, err_state, err_isr}
use helix_rt.Sched.{critical_enter, critical_exit, is_isr_context}
use helix_rt.Sched.Ready.{scheduler_get_current}
use helix_rt.Sched.Block.{World}
use helix_rt.Sync.Mutex.{
  Mutex, is_recursive, lock_as, trylock_by, unlock_by, mutex_trylock, unlock_as, mutex_unlock,
}

module _ (mtx self : ℕ) (w : World Mutex) (thread : is_isr_context w.kernel ≡ false)
    (cur : w.kernel.current_task ≡ some self) (mine : w.object.owner ≡ some self) where
  same : same_ptr w.object.owner (some self) ≡ true
  same = rw mine (==_self self)

  mutex_trylock-again :
      (w.object.locked == 0) ≡ false
      → is_recursive w.object ≡ true
      → mutex_trylock (some mtx) w ≡ (
        ok,
        record w {
          object =
              if ltb w.object.recursive_count 0xff
              then record (w.object) { recursive_count = w.object.recursive_count + 1 }
              else w.object;
        },
      )
  unfolding mutex_trylock trylock_by lock_as scheduler_get_current critical_enter critical_exit
  mutex_trylock-again taken again =
      ap (λ (b : Bool). if b then (err_isr, w) else trylock_by w.kernel.current_task w) thread
      ∙ ap (λ (o : Ptr). trylock_by o w) cur
      ∙ ap (λ (z : Code × Mutex). (z.0, record w { object = z.1 })) locked
    where
      locked : lock_as self (w.kernel.tasks self).priority w.object ≡ (
        ok,
        (if ltb w.object.recursive_count 0xff
            then record (w.object) { recursive_count = w.object.recursive_count + 1 }
            else w.object),
      )
      locked =
          let enter : (same_ptr w.object.owner (some self) && is_recursive w.object) ≡ true =
            ground (arith, same) in
          rw (taken, enter) refl

  mutex_unlock-nested :
      ltb 1 w.object.recursive_count ≡ true
      → mutex_unlock (some mtx) w ≡ (
        ok,
        record w { object = record (w.object) { recursive_count = w.object.recursive_count - 1 } },
      )
  unfolding mutex_unlock unlock_by unlock_as scheduler_get_current critical_enter critical_exit
  mutex_unlock-nested nested =
      ap (λ (b : Bool). if b then (err_isr, w) else unlock_by mtx w.kernel.current_task w) thread
      ∙ ap (λ (o : Ptr). unlock_by mtx o w) cur
      ∙ ap (λ (b : Bool). if b then (ok, unlock_as mtx self w) else (err_state, w)) same
      ∙ ap (λ (z : World Mutex). (ok, z)) dropped
    where
      dropped : unlock_as mtx self w ≡ record w {
        object = record (w.object) { recursive_count = w.object.recursive_count - 1 };
      }
      dropped = rw nested refl

-- Where the running task holds a recursive mutex, `mutex_trylock` and `mutex_unlock` after it both
-- return KERNEL_OK. They restore the mutex if the count was below 255; at 255 the lock is not counted
-- and the unlock is, so that the count is 254 afterwards.
pub mutex_trylock-unlock :
    (mtx self : ℕ) (w : World Mutex)
    → is_isr_context w.kernel ≡ false
    → w.kernel.current_task ≡ some self
    → (w.object.locked == 0) ≡ false
    → w.object.owner ≡ some self
    → is_recursive w.object ≡ true
    → 1 ≤ w.object.recursive_count
    → w.object.recursive_count ≤ 0xff
    → let (r1, w1) = mutex_trylock (some mtx) w in
      let (r2, w2) = mutex_unlock (some mtx) w1 in
      (r1 ≡ ok)
      × (r2 ≡ ok)
      × (w2.object ≡ record (w.object) {
        recursive_count =
            if ltb w.object.recursive_count 0xff then w.object.recursive_count else 254;
      })
mutex_trylock-unlock mtx self w thread cur taken mine again low high =
    subst
      (λ (z : Code × World Mutex).
        let (r2, w2) = mutex_unlock (some mtx) z.1 in (z.0 ≡ ok) × (r2 ≡ ok) × (w2.object ≡ after))
      (sym (mutex_trylock-again mtx self w thread cur mine taken again))
      (elim (Bool-cases (ltb w.object.recursive_count 0xff)) [
        | inl l ↦ rw l (
            let u =
              unlocked (w.object.recursive_count + 1) (ground arith) w.object.recursive_count
                (omega arith) in
            (refl, u.0, u.1))
        | inr l ↦
            let u = unlocked w.object.recursive_count (ground arith) 254 (ground arith) in
            rw l (refl, u.0, u.1)
      ])
  where
    after : Mutex
    after = record (w.object) {
      recursive_count = if ltb w.object.recursive_count 0xff then w.object.recursive_count else 254;
    }

    -- The unlock, for the mutex as the lock has left it.
    unlocked :
        (n : ℕ)
        → ltb 1 n ≡ true
        → (m : ℕ) → n - 1 ≡ m
        → let w1 : World Mutex = record w { object = record (w.object) { recursive_count = n } } in
          let (r2, w2) = mutex_unlock (some mtx) w1 in
          (r2 ≡ ok) × (w2.object ≡ record (w.object) { recursive_count = m })
    unlocked n l m e =
        let w1 : World Mutex = record w { object = record (w.object) { recursive_count = n } } in
        let done = mutex_unlock-nested mtx self w1 thread cur mine l in
        (
          ap (λ (z : Code × World Mutex). z.0) done,
          ap (λ (z : Code × World Mutex). z.1.object) done
              ∙ (λ i. record (w.object) { recursive_count = e i }),
        )
