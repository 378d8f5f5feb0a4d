-- ===== src/Sync/Semaphore/Laws.antt =====
-- kernel/sync/semaphore.c: the count stays in its bounds, and who gets a unit.
use helix_rt.Prelude.{
  ℕ, zero, suc, ◌≤◌, ◌<◌, ◌≡◌, refl, sym, ap, ◌∙◌, inl, inr, Ptr, true, false, ◌||◌, ◌&&◌, Option,
  none, some, List, Bool-cases, arith,
}
use helix_rt.Prelude.Int.{ℤ, pos, negsuc, ltb_ℤ, leb_ℤ, increment, decrement, int32_max}
use helix_rt.Task.{Code, ok, is_ok, block_semaphore}
use helix_rt.Sched.{critical_enter, critical_exit}
use helix_rt.Sched.Block.{World, Env, scheduler_unblock_one}
use helix_rt.Sync.Wait.{returned, Waiter, wait_loop, refuse_wait}
use helix_rt.Sync.Wait.Induct.{final_world, AllRespect}
use helix_rt.Sync.Wait.Rule.{wait_loop_keeps, wait_loop_immediate}
use helix_rt.Sync.Wait.Waits.{Waits, FailsQuietly, Ended-Returns, wait_loop-Ended}
use helix_rt.Sync.Semaphore.{
  Semaphore, taken, given, take_waiter, sem_init, sem_try, sem_take, is_full, give_unit, sem_give,
  sem_reset,
}

-- The count is not negative, and not above the maximum where there is one.
pub record IsBounded (s : Semaphore) : Type 0 where
  pub nonneg : ltb_ℤ s.count (pos 0) ≡ false
  pub below_max : (ltb_ℤ (pos 0) s.max_count && ltb_ℤ s.max_count s.count) ≡ false

-- A semaphore with a maximum: its count cannot reach the end of `int32_t`.
abbrev pub HasMax : Semaphore → Type 0
HasMax s = (m : ℕ) × (s.max_count ≡ pos (suc m)) × (suc m ≤ int32_max)

pub sem_init-IsBounded :
    (sem : Ptr) (initial max_count : ℤ) (s : Semaphore)
    → (sem_init sem initial max_count s).0 ≡ ok
    → IsBounded (sem_init sem initial max_count s).1
unfolding sem_init
sem_init-IsBounded sem initial max_count s h = ground arith

-- Taking a unit from a positive count, and adding one below the maximum.
decrement_bounds :
    (c m : ℤ)
    → ltb_ℤ (pos 0) c ≡ true
    → (ltb_ℤ (pos 0) m && ltb_ℤ m c) ≡ false
    → (ltb_ℤ (decrement c) (pos 0) ≡ false) × ((ltb_ℤ (pos 0) m && ltb_ℤ m (decrement c)) ≡ false)
decrement_bounds (pos zero) m h b = absurd (ground arith)
decrement_bounds (pos (suc n)) (pos m) h b = (ground arith, ground arith)
decrement_bounds (pos (suc n)) (negsuc m) h b = (ground arith, ground arith)
decrement_bounds (negsuc n) m h b = absurd (ground arith)

increment_bounds :
    (c : ℤ) (m : ℕ)
    → suc m ≤ int32_max
    → ltb_ℤ c (pos 0) ≡ false
    → leb_ℤ (pos (suc m)) c ≡ false
    → (ltb_ℤ (increment c) (pos 0) ≡ false) × (ltb_ℤ (pos (suc m)) (increment c) ≡ false)
increment_bounds (pos n) m fits nn room = (ground arith, ground arith)
increment_bounds (negsuc n) m fits nn room = absurd (ground arith)

sem_try-IsBounded : (w : World Semaphore) → IsBounded w.object → IsBounded (sem_try w).1.object
unfolding sem_try
sem_try-IsBounded w v = elim (Bool-cases (ltb_ℤ (pos 0) w.object.count)) [
  | inl e ↦
      let b = decrement_bounds w.object.count w.object.max_count e v.below_max in
      rw e (record { nonneg = b.0; below_max = b.1 })
  | inr e ↦ rw e v
]

-- `sem_take` keeps a bounded semaphore bounded over all its waits, if what runs around them does.
pub sem_take-IsBounded :
    (sem : Ptr) (timeout : ℕ) (envs : List (Env Semaphore)) (w : World Semaphore)
    → AllRespect IsBounded envs
    → IsBounded w.object
    → IsBounded (final_world (sem_take sem timeout envs w)).object
unfolding sem_take
sem_take-IsBounded none timeout envs w good v = v
sem_take-IsBounded (some sem) timeout envs w good v =
    wait_loop_keeps (take_waiter sem timeout) IsBounded sem_try-IsBounded (λ w1 h. h) envs good w v

sem_try-some :
    (w0 w1 : World Semaphore)
    → sem_try w0 ≡ (some ok, w1)
    → (ltb_ℤ (pos 0) w0.object.count ≡ true) × (w1.object ≡ taken w0.object)
unfolding sem_try
sem_try-some w0 w1 e = elim (Bool-cases (ltb_ℤ (pos 0) w0.object.count)) [
  | inl p ↦ (p, sym (ap (λ (q : Option Code × World Semaphore). q.1.object) (rw p at e)))
  | inr p ↦ cc (ap (λ (q : Option Code × World Semaphore). q.0) (rw p at e))
]

refuse_wait-ne-ok : {A : Type 0} (timeout : ℕ) (w : World A) → refuse_wait timeout w ≡ some ok → ⊥
unfolding refuse_wait
refuse_wait-ne-ok timeout w e = ground arith

ok-not_error : (c : Code) → is_ok c ≡ false → c ≡ ok → ⊥
ok-not_error c e f = ground arith

-- The waits of a `sem_take`: each at a count that is not positive.
abbrev pub TakeWaits :
    ℕ → ℕ → List (Env Semaphore) → World Semaphore → Code → World Semaphore → Type 0
TakeWaits sem timeout =
    Waits block_semaphore (some sem) timeout (λ w. w) λ w. ltb_ℤ (pos 0) w.object.count ≡ false

sem_try-FailsQuietly :
    (sem timeout : ℕ)
    → FailsQuietly (take_waiter sem timeout) (λ w. ltb_ℤ (pos 0) w.object.count ≡ false)
unfolding sem_try
sem_try-FailsQuietly sem timeout w w1 e = elim (Bool-cases (ltb_ℤ (pos 0) w.object.count)) [
  | inl p ↦ cc (ap (λ (q : Option Code × World Semaphore). q.0) (rw p at e))
  | inr p ↦ (sym (ap (λ (q : Option Code × World Semaphore). q.1) (rw p at e)), p)
]

-- A call of `sem_take` that returns KERNEL_OK has waited, each time at a count that was not positive,
-- until it was woken in a world `w0` with a positive count (`w0` is the world of the call, if there was
-- no wait). It returns with the count of `w0` decremented and the rest of the semaphore as it was in
-- `w0`.
pub sem_take-ok :
    (sem timeout : ℕ) (envs : List (Env Semaphore)) (w w1 : World Semaphore)
    → sem_take (some sem) timeout envs w ≡ returned ok w1
    → (w0 : World Semaphore) × TakeWaits sem timeout envs w ok w0
      × (ltb_ℤ (pos 0) w0.object.count ≡ true)
      × (w1.object ≡ record (w0.object) { count = decrement w0.object.count })
unfolding sem_take
sem_take-ok sem timeout envs w w1 h =
    elim (Ended-Returns l Stuck envs w (wait_loop l envs w) ok w1
      (wait_loop-Ended l Stuck (sem_try-FailsQuietly sem timeout) envs w) h) [
        | inl (w0, g, e) ↦ let t = sem_try-some w0 w1 e in (w0, g, t.0, t.1)
        | inr (inl f) ↦ absurd (refuse_wait-ne-ok timeout w1 f)
        | inr (inr (c, e, f)) ↦ absurd (ok-not_error c e f)
      ]
  where
    l : Waiter Semaphore Code
    l = take_waiter sem timeout

    Stuck : World Semaphore → Type 0
    Stuck x = ltb_ℤ (pos 0) x.object.count ≡ false

pub give_unit-IsBounded :
    (sem : ℕ) (w : World Semaphore)
    → HasMax w.object
    → IsBounded w.object
    → IsBounded (give_unit sem w).1.object
unfolding give_unit
give_unit-IsBounded sem w (m, e, fits) v =
    elim (Bool-cases (scheduler_unblock_one block_semaphore (some sem) ok w.kernel).0) [
      | inl woken ↦ rw woken v
      | inr none_woken ↦ rw none_woken (elim (Bool-cases (is_full w.object)) [
        | inl full ↦ rw full v
        | inr room ↦
            let b = increment_bounds w.object.count m fits v.nonneg (less room) in
            rw room (record { nonneg = b.0; below_max = rw (e, b.1) (ground arith) })
      ])
    ]
  where
    less : is_full w.object ≡ false → leb_ℤ (pos (suc m)) w.object.count ≡ false
    less room =
        let r : (ltb_ℤ (pos 0) (pos (suc m)) && leb_ℤ (pos (suc m)) w.object.count) ≡ false =
          rw e at room in
        ground arith

-- `sem_give` keeps a bounded semaphore bounded, if it has a maximum, which is at most INT32_MAX.
pub sem_give-IsBounded :
    (sem : Ptr) (w : World Semaphore)
    → HasMax w.object
    → IsBounded w.object
    → IsBounded (sem_give sem w).1.object
unfolding sem_give
sem_give-IsBounded none w m v = v
sem_give-IsBounded (some sem) w m v =
    give_unit-IsBounded sem (record w { kernel = (critical_enter w.kernel).1 }) m v

pub sem_reset-IsBounded :
    (sem : Ptr) (new_count : ℤ) (w : World Semaphore)
    → IsBounded w.object
    → IsBounded (sem_reset sem new_count w).1.object
unfolding sem_reset
sem_reset-IsBounded none n w v = v
sem_reset-IsBounded (some sem) n w v =
    elim (Bool-cases
      (ltb_ℤ n (pos 0) || (ltb_ℤ (pos 0) w.object.max_count && ltb_ℤ w.object.max_count n))) [
        | inl e ↦ rw e v
        | inr e ↦ rw e (record { nonneg = ground arith; below_max = ground arith })
      ]

-- Where no waiter is woken and the count is not negative, below the maximum and below INT32_MAX, a
-- `sem_give` and a `sem_take` after it both return KERNEL_OK and restore the semaphore.
pub sem_give-take :
    (sem timeout : ℕ) (envs : List (Env Semaphore)) (w : World Semaphore) (n : ℕ)
    → (scheduler_unblock_one block_semaphore (some sem) ok (critical_enter w.kernel).1).0 ≡ false
    → is_full w.object ≡ false
    → w.object.count ≡ pos n
    → n < int32_max
    → let (res, w1) = sem_give (some sem) w in
      (res ≡ ok)
      × (w2 : World Semaphore) × (sem_take (some sem) timeout envs w1 ≡ returned ok w2)
      × (w2.object ≡ w.object)
unfolding sem_give give_unit sem_take
sem_give-take sem timeout envs w n alone room c fits =
    rw (alone, room)
      (
        refl,
        (sem_try w1).1,
        wait_loop_immediate (take_waiter sem timeout) envs w1 (sem_try w1).1 ok
            (λ i. (succeeds i, (sem_try w1).1)),
        restored,
      )
  where
    w1 : World Semaphore
    w1 = record {
      kernel =
          critical_exit w.kernel.primask
            (scheduler_unblock_one block_semaphore (some sem) ok (critical_enter w.kernel).1).1;
      object = given w.object;
    }

    positive : ltb_ℤ (pos 0) (increment w.object.count) ≡ true
    positive = rw c (ground arith)

    succeeds : (sem_try w1).0 ≡ some ok
    succeeds = unfold sem_try in rw positive refl

    restored : (sem_try w1).1.object ≡ w.object
    restored =
        unfold sem_try in
        rw positive (λ i. record (w.object) {
          count = (ap (λ x. decrement (increment x)) c ∙ back ∙ sym c) i;
        })
      where
        back : decrement (increment (pos n)) ≡ pos n
        back = ground arith
