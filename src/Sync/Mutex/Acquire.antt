-- ===== src/Sync/Mutex/Acquire.antt =====
-- kernel/sync/mutex.c: from which worlds a task gets the mutex, and what it then holds.
use helix_rt.Prelude.{
  ℕ, ◌+◌, ◌≡◌, refl, sym, ap, subst, ◌∙◌, ◌⊎◌, inl, inr, Ptr, Bool, true, false, ◌&&◌, Option, none,
  some, List, if◌then◌else◌, Bool-cases, Option-cases, arith, ◌==◌, ltb, same_ptr, eq_of_same_ptr,
}
use helix_rt.Config.{timeout_none}
use helix_rt.Task.{Code, ok, is_ok, err_timeout, block_mutex}
use helix_rt.Sched.{critical_enter, critical_exit, is_isr_context}
use helix_rt.Sched.Ready.{scheduler_get_current}
use helix_rt.Sched.Block.{World, Env}
use helix_rt.Sync.Wait.{returned, Waiter, wait_loop}
use helix_rt.Sync.Wait.Waits.{Waits, FailsQuietly, Ended-Returns, wait_loop-Ended}
use helix_rt.Sync.Mutex.{
  Mutex, is_recursive, lock_as, trylock_by, mutex_trylock, inherit_priority, lock_try, lock_waiter,
  mutex_lock,
}

-- A successful attempt of the task `self` of priority `prio`: the mutex was free, and is now held once
-- with that base priority; or `self` held it, a recursive one, and it is counted once more, up to 255.
-- The rest of the mutex is as it was.
abbrev pub Acquired : ℕ → ℕ → Mutex → Mutex → Type 0
Acquired self prio m m1 =
    (((m.locked == 0) ≡ true)
      × (m1 ≡ record m {
        locked = 1;
        owner = some self;
        owner_base_priority = prio;
        recursive_count = 1;
      }))
    ⊎ (((m.locked == 0) ≡ false)
        × (m.owner ≡ some self)
        × (is_recursive m ≡ true)
        × (m1 ≡ record m {
          recursive_count =
              (if ltb m.recursive_count 0xff then m.recursive_count + 1 else m.recursive_count);
        }))

lock_as-ok :
    (self prio : ℕ) (m : Mutex)
    → (lock_as self prio m).0 ≡ ok
    → Acquired self prio m (lock_as self prio m).1
unfolding lock_as
lock_as-ok self prio m h = elim (Bool-cases (m.locked == 0)) [
  | inl e ↦ rw e (inl (refl, refl))
  | inr e ↦ elim (Bool-cases (same_ptr m.owner (some self) && is_recursive m)) [
    | inl again ↦
        let mine : m.owner ≡ some self = eq_of_same_ptr m.owner (some self) (ground arith) in
        rw (e, again)
          (elim (Bool-cases (ltb m.recursive_count 0xff)) [
            | inl l ↦ rw l (inr (refl, mine, ground arith, refl))
            | inr l ↦ rw l (inr (refl, mine, ground arith, refl))
          ])
    | inr other ↦ cc (rw (e, other) at h)
  ]
]

lock_as_quiet :
    (self prio : ℕ) (m : Mutex)
    → is_ok (lock_as self prio m).0 ≡ false
    → (lock_as self prio m).1 ≡ m
unfolding lock_as
lock_as_quiet self prio m h = elim (Bool-cases (m.locked == 0)) [
  | inl e ↦ cc (rw e at h)
  | inr e ↦ elim (Bool-cases (same_ptr m.owner (some self) && is_recursive m)) [
    | inl again ↦ cc (rw (e, again) at h)
    | inr other ↦ rw (e, other) refl
  ]
]

-- What a successful `mutex_trylock` leaves: the running task has acquired the mutex.
abbrev pub Locked : World Mutex → World Mutex → Type 0
Locked w w1 =
    (self : ℕ) × (w.kernel.current_task ≡ some self)
    × Acquired self (w.kernel.tasks self).priority w.object w1.object

mutex_trylock-ok :
    (mtx : ℕ) (w : World Mutex)
    → (mutex_trylock (some mtx) w).0 ≡ ok
    → Locked w (mutex_trylock (some mtx) w).1
unfolding mutex_trylock trylock_by critical_enter critical_exit scheduler_get_current
mutex_trylock-ok mtx w h = elim (Bool-cases (is_isr_context w.kernel)) [
  | inl e ↦ cc (rw e at h)
  | inr e ↦ elim (Option-cases w.kernel.current_task) [
    | inl f ↦ cc (rw (e, f) at h)
    | inr (self, f) ↦
        let got = lock_as-ok self (w.kernel.tasks self).priority w.object (rw (e, f) at h) in
        rw (e, f) (self, refl, got)
  ]
]

-- The caller cannot have the mutex.
abbrev pub CannotLock : ℕ → World Mutex → Type 0
CannotLock mtx w = is_ok (mutex_trylock (some mtx) w).0 ≡ false

trylock_by_quiet :
    (o : Ptr) (w : World Mutex) → is_ok (trylock_by o w).0 ≡ false → (trylock_by o w).1 ≡ w
unfolding trylock_by critical_enter critical_exit
trylock_by_quiet none w h = refl
trylock_by_quiet (some self) w h =
    ap (λ (m : Mutex). record w { object = m })
      (lock_as_quiet self (w.kernel.tasks self).priority w.object h)

mutex_trylock_quiet :
    (mtx : ℕ) (w : World Mutex) → CannotLock mtx w → (mutex_trylock (some mtx) w).1 ≡ w
unfolding mutex_trylock
mutex_trylock_quiet mtx w h = elim (Bool-cases (is_isr_context w.kernel)) [
  | inl e ↦ rw e refl
  | inr e ↦ rw e (trylock_by_quiet (scheduler_get_current w.kernel) w (rw e at h))
]

lock_try-ok : (mtx : ℕ) (w0 w1 : World Mutex) → lock_try mtx w0 ≡ (some ok, w1) → Locked w0 w1
unfolding lock_try
lock_try-ok mtx w0 w1 h = subst (Locked w0) (ap (λ (q : Option Code × World Mutex). q.1) h) (
    mutex_trylock-ok mtx w0
      (succeeded (mutex_trylock (some mtx) w0).0 (ap (λ (q : Option Code × World Mutex). q.0) h)))
  where
    succeeded : (c : Code) → (if is_ok c then some ok else none) ≡ some ok → c ≡ ok
    succeeded c e = ground arith

lock_try-FailsQuietly :
    (mtx self timeout : ℕ) → FailsQuietly (lock_waiter mtx self timeout) (CannotLock mtx)
unfolding lock_try
lock_try-FailsQuietly mtx self timeout w w1 e =
    let f = failed (mutex_trylock (some mtx) w).0 (ap (λ (q : Option Code × World Mutex). q.0) e) in
    (sym (ap (λ (q : Option Code × World Mutex). q.1) e) ∙ mutex_trylock_quiet mtx w f, f)
  where
    failed : (c : Code) → (if is_ok c then some ok else none) ≡ none → is_ok c ≡ false
    failed c g = ground arith

-- The waits of a `mutex_lock` of the task `self`: each where `mutex_trylock` fails, and after
-- `inherit_priority`.
abbrev pub LockWaits : ℕ → ℕ → ℕ → List (Env Mutex) → World Mutex → Code → World Mutex → Type 0
LockWaits mtx self timeout =
    Waits block_mutex (some mtx) timeout (inherit_priority self) (CannotLock mtx)

-- A `mutex_lock` of the task `self` that returns KERNEL_OK has waited, each time where
-- `mutex_trylock` fails and after `inherit_priority`, until it was woken in a world `w0` (the world of
-- the call, if there was no wait). There the running task took the mutex: it was free, and is held
-- once with that task's priority as the base priority; or it was that task's own recursive one, and is
-- counted once more, up to 255. The rest of the mutex is as it was in `w0`.
pub mutex_lock-ok :
    (mtx self timeout : ℕ) (envs : List (Env Mutex)) (w w1 : World Mutex)
    → w.kernel.current_task ≡ some self
    → mutex_lock (some mtx) timeout envs w ≡ returned ok w1
    → (w0 : World Mutex) × LockWaits mtx self timeout envs w ok w0 × Locked w0 w1
unfolding mutex_lock scheduler_get_current
mutex_lock-ok mtx self timeout envs w w1 f h = elim (Bool-cases (is_isr_context w.kernel)) [
  | inl e ↦ cc (rw e at h)
  | inr e ↦ waited (rw (e, f) at h)
]
  where
    refused : (o : Bool) → (if o then some err_timeout else none) ≡ some ok → ⊥
    refused o e = ground arith

    failed : (c : Code) → is_ok c ≡ false → c ≡ ok → ⊥
    failed c e f = ground arith

    l : Waiter Mutex Code
    l = lock_waiter mtx self timeout

    waited :
        wait_loop l envs w ≡ returned ok w1
        → (w0 : World Mutex) × LockWaits mtx self timeout envs w ok w0 × Locked w0 w1
    waited g =
        elim (Ended-Returns l (CannotLock mtx) envs w (wait_loop l envs w) ok w1
          (wait_loop-Ended l (CannotLock mtx) (lock_try-FailsQuietly mtx self timeout) envs w) g) [
            | inl (w0, waits, e) ↦ (w0, waits, lock_try-ok mtx w0 w1 e)
            | inr (inl f) ↦ absurd (refused (timeout == timeout_none) f)
            | inr (inr (c, e, f)) ↦ absurd (failed c e f)
          ]
