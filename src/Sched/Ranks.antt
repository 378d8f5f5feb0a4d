-- ===== src/Sched/Ranks.antt =====
-- The operations of kernel/scheduler.c that keep the priority of every task, leave the current task
-- current and do not count ticks.
pub mod Entry
use helix_rt.Prelude.{
  ℕ, zero, suc, ◌+◌, ◌%◌, ◌<◌, Ptr, ◌≡◌, refl, sym, ap, ◌∙◌, Bool, true, none, some, ltb,
  if◌then◌else◌, either, ◌==◌, arith,
}
use helix_rt.Config.{word, max_priority, time_slice_ticks}
use helix_rt.Task.{Tcb, Tcbs, Code, BlockReason, ready, blocked, same_state, put, set_prev}
use helix_rt.Sched.{Sched, update_tcb, when_some, scheduler_trigger_switch}
use helix_rt.Sched.Links.{
  ready_insert_tail, append_ready, ready_remove, blocked_insert, blocked_remove, unlink,
  clear_links,
}
use helix_rt.Sched.Ready.{
  preempt_for, outranks_current, scheduler_add_task, scheduler_remove_task, scheduler_yield,
  yield_current, rotate, rotate_before,
}
use helix_rt.Sched.Block.{
  release, woken_tcb, block_self, blocked_tcb, unblock_body, scheduler_unblock_task, wake_best,
  best_waiter, scheduler_unblock_one, unblock_waiters, scheduler_unblock_all, waits_for,
}
use helix_rt.Sched.Walk.{data_of, append_ready-data, unlink-data}

pub record Kept (c d : Ptr) (m n : ℕ) (t u : Tcbs) : Type 0 where
  pub current : d ≡ c
  pub clock : n ≡ m
  pub ranks : (a : ℕ) → (u a).priority ≡ (t a).priority

abbrev pub SameRanks : Sched → Sched → Type 0
SameRanks s u = Kept s.current_task u.current_task s.tick_count u.tick_count s.tasks u.tasks

pub SameRanks-refl : (s : Sched) → SameRanks s s
SameRanks-refl s = record { current = refl; clock = refl; ranks = λ a. refl }

pub SameRanks-trans : (s u w : Sched) → SameRanks s u → SameRanks u w → SameRanks s w
SameRanks-trans s u w h k = record {
  current = k.current ∙ h.current;
  clock = k.clock ∙ h.clock;
  ranks = λ a. k.ranks a ∙ h.ranks a;
}

-- The current task, if there is one, has a priority in range.
abbrev pub InRange : Sched → Type 0
InRange s = (c : ℕ) → s.current_task ≡ some c → (s.tasks c).priority < max_priority

pub SameRanks-InRange : (s u : Sched) → SameRanks s u → InRange s → InRange u
SameRanks-InRange s u h r c e = rw (h.ranks c) (r c (sym h.current ∙ e))

-- A test between two continuations.
pub SameRanks-either :
    (s u w : Sched) (b : Bool) → SameRanks s u → SameRanks s w → SameRanks s (if b then u else w)
SameRanks-either s u w b h k = either (SameRanks s) u w b h k

rank_of : (b c : Tcb) → data_of b ≡ data_of c → b.priority ≡ c.priority
rank_of b c e = ap (λ (x : Tcb). x.priority) e

put-rank :
    (tasks : Tcbs) (t a : ℕ) (b : Tcb)
    → b.priority ≡ (tasks t).priority
    → (put tasks t b a).priority ≡ (tasks a).priority
put-rank tasks t a b e = ground arith

pub update_tcb-SameRanks :
    (t : ℕ) (f : Tcb → Tcb) (s : Sched)
    → ((b : Tcb) → (f b).priority ≡ b.priority)
    → SameRanks s (update_tcb t f s)
update_tcb-SameRanks t f s keeps = record {
  current = refl;
  clock = refl;
  ranks = λ a. put-rank s.tasks t a (f (s.tasks t)) (keeps (s.tasks t));
}

append_ready-current :
    (head : Ptr) (t prio : ℕ) (s : Sched)
    → ((append_ready head t prio s).current_task ≡ s.current_task)
      × ((append_ready head t prio s).tick_count ≡ s.tick_count)
unfolding append_ready
append_ready-current none t prio s = (refl, refl)
append_ready-current (some h) t prio s = (refl, refl)

pub ready_insert_tail-SameRanks : (t : ℕ) (s : Sched) → SameRanks s (ready_insert_tail t s)
unfolding ready_insert_tail
ready_insert_tail-SameRanks t s =
    let s1 : Sched = record s { tasks = clear_links t s.tasks } in
    let prio : ℕ = (s.tasks t).priority in
    record {
      current = (append_ready-current (s.ready_list prio) t prio s1).0;
      clock = (append_ready-current (s.ready_list prio) t prio s1).1;
      ranks = λ a.
          rank_of ((append_ready (s.ready_list prio) t prio s1).tasks a) (s1.tasks a)
            (append_ready-data (s.ready_list prio) t prio a s1)
          ∙ put-rank s.tasks t a _ refl;
    }

unlink-rank : (t a : ℕ) (tasks : Tcbs) → (unlink t tasks a).priority ≡ (tasks a).priority
unlink-rank t a tasks = rank_of (unlink t tasks a) (tasks a) (unlink-data t a tasks)

pub ready_remove-SameRanks : (t : ℕ) (s : Sched) → SameRanks s (ready_remove t s)
unfolding ready_remove
ready_remove-SameRanks t s = record {
  current = refl;
  clock = refl;
  ranks = λ a. unlink-rank t a s.tasks;
}

blocked_remove-SameRanks : (t : ℕ) (s : Sched) → SameRanks s (blocked_remove t s)
unfolding blocked_remove
blocked_remove-SameRanks t s = record {
  current = refl;
  clock = refl;
  ranks = λ a. unlink-rank t a s.tasks;
}

pub blocked_insert-SameRanks : (t : ℕ) (s : Sched) → SameRanks s (blocked_insert t s)
unfolding blocked_insert
blocked_insert-SameRanks t s = record { current = refl; clock = refl; ranks = λ a. ground arith }

pub preempt_for-SameRanks : (t : ℕ) (s : Sched) → SameRanks s (preempt_for t s)
unfolding preempt_for scheduler_trigger_switch
preempt_for-SameRanks t s =
    SameRanks-either s (record s { pend_sv = true }) s (outranks_current t s)
      (record { current = refl; clock = refl; ranks = λ a. refl }) (SameRanks-refl s)

pub release-SameRanks : (t : ℕ) (result : Code) (s : Sched) → SameRanks s (release t result s)
unfolding release
release-SameRanks t result s =
    let s1 : Sched = blocked_remove t s in
    let s2 : Sched = update_tcb t (woken_tcb result) s1 in
    SameRanks-trans s s2 (ready_insert_tail t s2)
      (SameRanks-trans s s1 s2 (blocked_remove-SameRanks t s)
        (update_tcb-SameRanks t (woken_tcb result) s1 (λ b. refl)))
      (ready_insert_tail-SameRanks t s2)

pub release_preempt-SameRanks :
    (t : ℕ) (result : Code) (s : Sched) → SameRanks s (preempt_for t (release t result s))
release_preempt-SameRanks t result s =
    SameRanks-trans s (release t result s) (preempt_for t (release t result s))
      (release-SameRanks t result s) (preempt_for-SameRanks t (release t result s))
