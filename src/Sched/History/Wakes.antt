-- ===== src/Sched/History/Wakes.antt =====
-- What the wake-ups do to the lists, when the tasks are where the abstract scheduler has them.
use helix_rt.Prelude.{
  ℕ, ◌<◌, Ptr, ◌≡◌, sym, subst, ◌∙◌, inl, inr, List, Bool, true, false, ◌||◌, some, has, remove,
  has-remove_ne, ◌==◌, eq_of_==, arith, Bool-cases,
}
use helix_rt.Config.{max_priority}
use helix_rt.Task.{Code, BlockReason, TaskState, ready, running, blocked, same_state, put}
use helix_rt.Sched.{Sched}
use helix_rt.Sched.Block.{scheduler_unblock_task, scheduler_unblock_one, waits_for}
use helix_rt.Sched.Block.Laws.{scheduler_unblock_task-not_blocked}
use helix_rt.Sched.Block.Best.{Woke, nobody, somebody, scheduler_unblock_one-Woke}
use helix_rt.Sched.Valid.{IsValid}
use helix_rt.Sched.Valid.Insert.{append_queue}
use helix_rt.Sched.History.{Place, Places, waiting, ready_at, is_waiting}
use helix_rt.Sched.History.Placed.{Placed, has-asleep, has-queue}
use helix_rt.Sched.History.Calls.{Placed-woken, Tracks}

module _ (s : Sched) (order : ℕ → List ℕ) (asleep : List ℕ) (f : Places)
    (v : IsValid s order asleep) (h : Placed order asleep f) where
  -- A ready task is not blocked.
  pub unblock_ready :
      (t p : ℕ) (result : Code) → f t ≡ ready_at p → scheduler_unblock_task (some t) result s ≡ s
  unblock_ready t p result e =
      let hp : p < max_priority = h.range t p e in
      let here : has t (order p) ≡ true = has-queue order asleep f h t p e in
      scheduler_unblock_task-not_blocked s t result
        (not_blocked (s.tasks t).state (((v.queue p hp).members t here).runnable))
    where
      not_blocked :
          (x : TaskState)
          → (same_state x ready || same_state x running) ≡ true
          → same_state x blocked ≡ false
      not_blocked x k = ground arith

  module _ (reason : BlockReason) (object : Ptr) (result : Code) where
    abbrev woke : Sched
    woke = (scheduler_unblock_one reason object result s).1

    -- The task that is seen to be ready is the one that was woken, since the others stay blocked.
    pub unblock_one-Tracks :
        (t : ℕ)
        → f t ≡ waiting
        → waits_for reason object (s.tasks t) ≡ true
        → same_state (woke.tasks t).state ready ≡ true
        → Tracks woke (put f t (ready_at (s.tasks t).priority))
    unblock_one-Tracks t e w seen =
        go (scheduler_unblock_one reason object result s)
          (scheduler_unblock_one-Woke s order asleep v reason object result) seen
      where
        here : has t asleep ≡ true
        here = has-asleep order asleep f h t e

        go :
            (r : Bool × Sched)
            → Woke s order asleep reason object r
            → same_state (r.1.tasks t).state ready ≡ true
            → Tracks r.1 (put f t (ready_at (s.tasks t).priority))
        go r (nobody none_waits v2) seen = absurd (ground (arith, none_waits t here))
        go r (somebody b is_in is_waiter best v2) seen = elim (Bool-cases (t == b)) [
          | inl same ↦
              let k : b ≡ t = sym (eq_of_== t b same) in
              (
                append_queue order (s.tasks t).priority t,
                remove t asleep,
                subst
                    (λ (c : ℕ).
                      IsValid r.1 (append_queue order (s.tasks c).priority c) (remove c asleep))
                    k v2,
                Placed-woken s order asleep f v h t e,
              )
          | inr ne ↦
              let stays : has t (remove b asleep) ≡ true = has-remove_ne t b asleep ne ∙ here in
              absurd (ground (arith, (v2.wait_list.members t stays).state))
        ]

    pub unblock_none-Tracks :
        ((a : ℕ) → f a ≡ waiting → waits_for reason object (s.tasks a) ≡ false) → Tracks woke f
    unblock_none-Tracks nobody_waits =
        go (scheduler_unblock_one reason object result s)
          (scheduler_unblock_one-Woke s order asleep v reason object result)
      where
        waits : (x : Place) → is_waiting x ≡ true → x ≡ waiting
        waits x k = ground arith

        go : (r : Bool × Sched) → Woke s order asleep reason object r → Tracks r.1 f
        go r (nobody none_waits v2) = (order, asleep, v2, h)
        go r (somebody b is_in is_waiter best v2) =
            absurd (ground (arith, nobody_waits b (waits (f b) (sym (h.on_wait b) ∙ is_in))))
