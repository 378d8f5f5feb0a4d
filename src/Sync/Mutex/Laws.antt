-- ===== src/Sync/Mutex/Laws.antt =====
-- kernel/sync/mutex.c: one owner at a time.
use helix_rt.Prelude.{
  ℕ, ◌+◌, ◌-◌, ◌≤◌, ◌≡◌, refl, sym, inl, inr, Ptr, true, false, ◌&&◌, none, some, List, Bool-cases,
  Option-cases, arith, ◌==◌, ltb, same_ptr, eq_of_same_ptr,
}
use helix_rt.Task.{ok}
use helix_rt.Sched.{critical_enter, critical_exit, is_isr_context}
use helix_rt.Sched.Ready.{scheduler_get_current}
use helix_rt.Sched.Block.{World, Env}
use helix_rt.Sync.Wait.Induct.{final_world, AllRespect}
use helix_rt.Sync.Wait.Rule.{wait_loop_keeps}
use helix_rt.Sync.Mutex.{
  Mutex, is_recursive, lock_as, trylock_by, unlock_by, mutex_trylock, inherit_priority, boosts,
  lock_try, lock_waiter, mutex_lock, unlock_as, mutex_unlock,
}

-- A mutex is free and has no owner, or it is held by a task that has locked it at least once.
pub data IsConsistent (m : Mutex) : Type 0 where
  free : m.locked ≡ 0 → m.owner ≡ none → m.recursive_count ≡ 0 → IsConsistent m
  held :
      (o : ℕ)
      → m.locked ≡ 1
      → m.owner ≡ some o
      → 1 ≤ m.recursive_count
      → m.recursive_count ≤ 0xff
      → IsConsistent m

lock_as-IsConsistent :
    (self prio : ℕ) (m : Mutex) → IsConsistent m → IsConsistent (lock_as self prio m).1
unfolding lock_as
lock_as-IsConsistent self prio m c = elim (Bool-cases (m.locked == 0)) [
  | inl e ↦ rw e (held self refl refl (omega arith) (omega arith))
  | inr e ↦ rw e (elim (Bool-cases (same_ptr m.owner (some self) && is_recursive m)) [
    | inl again ↦ rw again (elim (Bool-cases (ltb m.recursive_count 0xff)) [
      | inl l ↦ rw l (more c e l)
      | inr l ↦ rw l c
    ])
    | inr other ↦ rw other c
  ])
]
  where
    more :
        IsConsistent m
        → (m.locked == 0) ≡ false
        → ltb m.recursive_count 0xff ≡ true
        → IsConsistent (record m { recursive_count = m.recursive_count + 1 })
    more (free a b d) e l = absurd (ground arith)
    more (held o a b d f) e l = held o a b (omega arith) (ground arith)

mutex_trylock-IsConsistent :
    (mtx : Ptr) (w : World Mutex)
    → IsConsistent w.object
    → IsConsistent (mutex_trylock mtx w).1.object
unfolding mutex_trylock trylock_by critical_enter critical_exit scheduler_get_current
mutex_trylock-IsConsistent none w c = c
mutex_trylock-IsConsistent (some mtx) w c = elim (Bool-cases (is_isr_context w.kernel)) [
  | inl e ↦ rw e c
  | inr e ↦ rw e (elim (Option-cases w.kernel.current_task) [
    | inl f ↦ rw f c
    | inr (self, f) ↦ rw f (lock_as-IsConsistent self (w.kernel.tasks self).priority w.object c)
  ])
]

lock_try-IsConsistent :
    (mtx : ℕ) (w : World Mutex) → IsConsistent w.object → IsConsistent (lock_try mtx w).1.object
unfolding lock_try
lock_try-IsConsistent mtx w c = mutex_trylock-IsConsistent (some mtx) w c

inherit_priority-IsConsistent :
    (self : ℕ) (w : World Mutex)
    → IsConsistent w.object
    → IsConsistent (inherit_priority self w).object
unfolding inherit_priority
inherit_priority-IsConsistent self w c = elim (Bool-cases (boosts w.object.owner self w.kernel)) [
  | inl e ↦ rw e c
  | inr e ↦ rw e c
]

-- `mutex_lock` keeps a mutex consistent, however long it waits, if what runs meanwhile does.
pub mutex_lock-IsConsistent :
    (mtx : Ptr) (timeout : ℕ) (envs : List (Env Mutex)) (w : World Mutex)
    → AllRespect IsConsistent envs
    → IsConsistent w.object
    → IsConsistent (final_world (mutex_lock mtx timeout envs w)).object
unfolding mutex_lock scheduler_get_current
mutex_lock-IsConsistent none timeout envs w good c = c
mutex_lock-IsConsistent (some mtx) timeout envs w good c =
    elim (Bool-cases (is_isr_context w.kernel)) [
      | inl e ↦ rw e c
      | inr e ↦ rw e (elim (Option-cases w.kernel.current_task) [
        | inl f ↦ rw f c
        | inr (self, f) ↦ rw f (
            wait_loop_keeps (lock_waiter mtx self timeout) IsConsistent (lock_try-IsConsistent mtx)
              (inherit_priority-IsConsistent self) envs good w c)
      ])
    ]

mutex_unlock-both :
    (mtx : ℕ) (w : World Mutex)
    → IsConsistent w.object
    → IsConsistent (mutex_unlock (some mtx) w).1.object
      × ((mutex_unlock (some mtx) w).0 ≡ ok → w.kernel.current_task ≡ w.object.owner)
unfolding mutex_unlock unlock_by unlock_as scheduler_get_current critical_enter critical_exit
mutex_unlock-both mtx w c = elim (Bool-cases (is_isr_context w.kernel)) [
  | inl e ↦ rw e (c, λ h. cc h)
  | inr e ↦ elim (Option-cases w.kernel.current_task) [
    | inl f ↦ rw (e, f) (c, λ h. cc h)
    | inr (self, f) ↦ elim (Bool-cases (same_ptr w.object.owner (some self))) [
      | inl g ↦ elim (Bool-cases (ltb 1 w.object.recursive_count)) [
        | inl l ↦
            rw (e, f, g, l) (fewer c l, λ h. sym (eq_of_same_ptr w.object.owner (some self) g))
        | inr l ↦
            rw (e, f, g, l)
              (free refl refl refl, λ h. sym (eq_of_same_ptr w.object.owner (some self) g))
      ]
      | inr g ↦ rw (e, f, g) (c, λ h. cc h)
    ]
  ]
]
  where
    fewer :
        IsConsistent w.object
        → ltb 1 w.object.recursive_count ≡ true
        → IsConsistent (record (w.object) { recursive_count = w.object.recursive_count - 1 })
    fewer (free a b d) l = absurd (ground arith)
    fewer (held o a b d k) l = held o a b (ground arith) (omega arith)

-- `mutex_unlock` keeps a mutex consistent.
pub mutex_unlock-IsConsistent :
    (mtx : ℕ) (w : World Mutex)
    → IsConsistent w.object
    → IsConsistent (mutex_unlock (some mtx) w).1.object
mutex_unlock-IsConsistent mtx w c = (mutex_unlock-both mtx w c).0

-- On a consistent mutex `mutex_unlock` returns KERNEL_OK to its owner only.
pub mutex_unlock-owner :
    (mtx : ℕ) (w : World Mutex)
    → IsConsistent w.object
    → (mutex_unlock (some mtx) w).0 ≡ ok
    → w.kernel.current_task ≡ w.object.owner
mutex_unlock-owner mtx w c h = (mutex_unlock-both mtx w c).1 h
