-- ===== src/Sync/Wait/Rule.antt =====
-- Rules for the blocking loop: what it keeps, and a first round that succeeds.
use helix_rt.Prelude.{◌≡◌, ap, subst, Option, none, some, List, [], ◌∷◌}
use helix_rt.Sched.Block.{World, Env, scheduler_block_task}
use helix_rt.Sync.Wait.Induct.{final_world, AllRespect, wait_loop-Ends}
use helix_rt.Sync.Wait.{returned, Waiter, block_for_good, round, resume, wait_loop}

module _ {A R : Type 0} (l : Waiter A R) (P : A → Type 0)
    (attempt_keeps : (w : World A) → P w.object → P (l.attempt w).1.object)
    (prepare_keeps : (w : World A) → P w.object → P (l.prepare w).object) where
  after_attempt :
      (w0 w1 : World A) (o : Option R) → P w0.object → l.attempt w0 ≡ (o, w1) → P w1.object
  after_attempt w0 w1 o h e =
      subst (λ (x : Option R × World A). P x.1.object) e (attempt_keeps w0 h)

  -- A property that the rounds and the rest of the system keep holds at the end.
  pub wait_loop_keeps :
      (envs : List (Env A))
      → AllRespect P envs
      → (w : World A) → P w.object
      → P (final_world (wait_loop l envs w)).object
  wait_loop_keeps envs good w h =
      wait_loop-Ends l P (λ o. P (final_world o).object)
        (record {
          attempted = λ w0 w1 r k e. after_attempt w0 w1 (some r) k e;
          failed_keeps = λ w0 w1 k e. after_attempt w0 w1 none k e;
          gave_up = λ w1 r k e. k;
          prepared = prepare_keeps;
          timed_out = λ w1 c k e. k;
          asleep = λ w1 k. k;
        })
        envs good w h

-- A first round that succeeds ends the run.
pub wait_loop_immediate :
    {A R : Type 0} (l : Waiter A R) (envs : List (Env A)) (w w1 : World A) (r : R)
    → l.attempt w ≡ (some r, w1)
    → wait_loop l envs w ≡ returned r w1
unfolding wait_loop round
wait_loop_immediate l [] w w1 r e = ap (round l (block_for_good l)) e
wait_loop_immediate l (env ∷ envs) w w1 r e =
    ap
      (round l (λ w2.
        resume l (wait_loop l envs)
          (scheduler_block_task env l.reason l.address l.timeout (env.before w2))))
      e
