-- ===== src/Sched/History/Choice.antt =====
-- The task that PendSV makes current, in every history of calls.
use helix_rt.Prelude.{
  ℕ, ◌≤◌, Ptr, ◌≡◌, ◌≢◌, eq_of_==, ltb→lt, not_ltb→le, sym, ap, ◌∙◌, inl, inr, List, [], true, none,
  some, has, ==_self, arith, ltb, Bool-cases,
}
use helix_rt.Sched.{Sched}
use helix_rt.Sched.Ready.{scheduler_get_next, pendsv_handler}
use helix_rt.Sched.Ready.Laws.{IsNext, idle, first, scheduler_get_next-IsNext}
use helix_rt.Sched.History.{Place, Places, nowhere, waiting, ready_at, is_ready_at, Runs}
use helix_rt.Sched.History.Placed.{Placed, has-queue}
use helix_rt.Sched.History.Laws.{Runs-Related}

-- A choice among the tasks that are placed ready: one of the highest priority that there is.
pub data Picks (f : Places) : Ptr → Type 0 where
  nothing : ((a p : ℕ) → f a ≢ ready_at p) → Picks f none
  task : (t p : ℕ) → f t ≡ ready_at p → ((a r : ℕ) → f a ≡ ready_at r → p ≤ r) → Picks f (some t)

module _ (order : ℕ → List ℕ) (asleep : List ℕ) (f : Places) (h : Placed order asleep f) where
  -- A list that holds a placed task is not empty.
  not-nil : (a p : ℕ) → f a ≡ ready_at p → order p ≢ []
  not-nil a p e k =
      let here : has a (order p) ≡ true = has-queue order asleep f h a p e in
      let gone : has a [] ≡ true = rw k at here in ground arith

  IsNext-Picks : (o : Ptr) → IsNext order o → Picks f o
  IsNext-Picks o (idle empty) = nothing (λ a p e. not-nil a p e (empty p (h.range a p e)))
  IsNext-Picks o (first p t ts hp at_head above) =
      task t p (of_ready_at p (f t) (sym (h.on_queue p t hp) ∙ here)) (λ a r e.
        elim (Bool-cases (ltb r p)) [
          | inl k ↦ absurd (not-nil a r e (above r (ltb→lt r p k)))
          | inr k ↦ not_ltb→le r p k
        ])
    where
      here : has t (order p) ≡ true
      here = rw at_head (ground (arith, ==_self t))

      of_ready_at : (p : ℕ) (x : Place) → is_ready_at p x ≡ true → x ≡ ready_at p
      of_ready_at p nowhere k = absurd (ground arith)
      of_ready_at p waiting k = absurd (ground arith)
      of_ready_at p (ready_at q) k = ap ready_at (sym (eq_of_== p q k))

-- In every history of calls of the scheduler from its initialisation, the start of the first task
-- included (`scheduler_start` and `scheduler_set_priority` as one call or step by step, with other
-- calls between), in which a task is added from no list, removed, blocked (if current) or launched
-- from a ready list, unblocked on a list, given a priority below 32 (by the step alone, only off the
-- ready lists), and control blocks are otherwise assigned only on no list: PendSV_Handler makes
-- current a task that the calls have placed on a ready list, of the highest priority that there is,
-- and none only where no task is placed on one; provided that the call of scheduler_select_next_task
-- in it keeps R3, by which it stores the task.
pub Runs-Picks : {s : Sched} {f : Places} → Runs s f → Picks f (pendsv_handler s).current_task
unfolding pendsv_handler
Runs-Picks {s} {f} r =
    let (_, (order, asleep, v, h)) = Runs-Related r in
    IsNext-Picks order asleep f h (scheduler_get_next s)
      (scheduler_get_next-IsNext s order asleep v)
