-- ===== src/Sched/Block/All.antt =====
-- `scheduler_unblock_all` wakes every waiter of an object.
use helix_rt.Prelude.{
  either, none, ℕ, ◌+◌, ◌<◌, Ptr, ◌≡◌, refl, sym, ap, subst, ◌∙◌, List, [], length, ltb,
  if◌then◌else◌, arith,
}
use helix_rt.Config.{word}
use helix_rt.Task.{Code, BlockReason}
use helix_rt.Sched.{Sched, scheduler_trigger_switch}
use helix_rt.Sched.Block.{waits_for, unblock_waiters, scheduler_unblock_all}
use helix_rt.Sched.Valid.{IsValid}
use helix_rt.Sched.Walk.{head-eq_of_Chain, chosen, others, append_all, walk}
use helix_rt.Sched.Walk.Laws.{walk-IsValid, unblock_waiters-eq-walk}

module _ (s : Sched) (queues : ℕ → List ℕ) (waiting : List ℕ) (v : IsValid s queues waiting)
    (reason : BlockReason) (object : Ptr) (result : Code) where
  abbrev quiet : Sched
  quiet = record s { primask = 1 }

  abbrev pub waiters : List ℕ
  waiters = chosen (waits_for reason object) s.tasks waiting

  abbrev walked : Sched
  walked = walk (waits_for reason object) (λ b. result) waiting quiet

  unblocked :
      length waiting < word
      → unblock_waiters word reason object result s.blocked_head (0, quiet)
        ≡ (0 + length waiters, walked)
  unblocked few =
      ap (λ (p : Ptr). unblock_waiters word reason object result p (0, quiet))
        (head-eq_of_Chain s.tasks none s.blocked_head waiting v.wait_list.chain)
      ∙ unblock_waiters-eq-walk reason object result s.tasks word waiting [] queues 0 quiet
          (λ a h. refl) (omega arith) (omega arith) v

  -- On a valid scheduler with fewer than 2 ^ 32 blocked tasks, `scheduler_unblock_all` moves every task
  -- that waits for the object, and no other, from the blocked list to the end of the ready list of its
  -- priority, in the order of the blocked list, returns their number and keeps the lists valid.
  pub scheduler_unblock_all-moves :
      length waiting < word
      → let (n, s') = scheduler_unblock_all reason object result s in
        (n ≡ length waiters)
        × IsValid s'
            (append_all s.tasks waiters queues)
            (others (waits_for reason object) s.tasks waiting)
  unfolding scheduler_unblock_all scheduler_trigger_switch
  scheduler_unblock_all-moves few =
      subst
        (λ (z : ℕ × Sched).
          (z.0 ≡ length waiters)
          × IsValid
              (record (if ltb 0 z.0 then scheduler_trigger_switch (z.1) else z.1) {
                primask = s.primask;
              })
              (append_all s.tasks waiters queues)
              (others (waits_for reason object) s.tasks waiting))
        (sym (unblocked few))
        (
          omega arith,
          either
              (λ (z : Sched).
                IsValid z (append_all s.tasks waiters queues)
                  (others (waits_for reason object) s.tasks waiting))
              (scheduler_trigger_switch walked) walked (ltb 0 (0 + length waiters)) moved moved,
        )
    where
      moved :
          IsValid walked
            (append_all s.tasks waiters queues)
            (others (waits_for reason object) s.tasks waiting)
      moved =
          walk-IsValid (waits_for reason object) (λ b. result) (λ b. refl) s.tasks waiting [] queues
            quiet (λ a h. refl) v
