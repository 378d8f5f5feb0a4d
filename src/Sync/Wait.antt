-- ===== src/Sync/Wait.antt =====
-- The `while (1)` loop of `sem_take`, `mutex_lock`, `queue_send`, `queue_send_front`,
-- `queue_receive`, `queue_peek` and `event_wait`: try; if that fails, give up or block, and try again
-- when woken. A run is given the list of what the rest of the system does around each wait
-- (`Env`), so it needs no fuel: where the list ends the task is still blocked.
pub mod Rule
pub mod Induct
pub mod Waits
use helix_rt.Prelude.{ℕ, Ptr, Bool, Option, none, some, List, [], ◌∷◌, ◌==◌, if◌then◌else◌}
use helix_rt.Config.{timeout_none}
use helix_rt.Task.{Code, is_ok, err_state, err_timeout, err_isr, BlockReason}
use helix_rt.Sched.{Sched, is_isr_context}
use helix_rt.Sched.Block.{World, on_kernel, Env, block_self, scheduler_block_task}

-- How a run ends: with a result, or blocked.
pub data Outcome (A R : Type 0) : Type 0 where
  returned : R → World A → Outcome A R
  still_blocked : World A → Outcome A R

-- One of the loops: what a round tries, when it gives up instead of blocking, what it does just
-- before it blocks, the value that an error code is returned as, and the arguments of
-- `scheduler_block_task`.
pub record Waiter (A R : Type 0) : Type 0 where
  pub attempt : World A → Option R × World A
  pub give_up : World A → Option R
  pub prepare : World A → World A
  pub fail : Code → R
  pub reason : BlockReason
  pub address : Ptr
  pub timeout : ℕ

-- The last wait of a run.
unfoldable pub block_for_good : {A R : Type 0} → Waiter A R → World A → Outcome A R
unfolding block_self
block_for_good l w = elim w.kernel.current_task [
  | none ↦ returned (l.fail err_state) w
  | some self ↦ still_blocked (on_kernel (block_self l.reason l.address l.timeout self) w)
]

-- One round: the result of the attempt, the refusal to wait, or what blocking leads to.
unfoldable pub settle :
    {A R : Type 0} → Waiter A R → (World A → Outcome A R) → Option R → World A → Outcome A R
settle l block (some r) w = returned r w
settle l block none w = block (l.prepare w)

unfoldable pub round :
    {A R : Type 0} → Waiter A R → (World A → Outcome A R) → Option R × World A → Outcome A R
unfolding settle
round l block (some r, w) = returned r w
round l block (none, w) = settle l block (l.give_up w) w

-- `if (res != KERNEL_OK) return res;`, and else the next round.
unfoldable pub resume :
    {A R : Type 0} → Waiter A R → (World A → Outcome A R) → Code × World A → Outcome A R
resume l again (res, w) = if is_ok res then again w else returned (l.fail res) w

unfoldable pub wait_loop : {A R : Type 0} → Waiter A R → List (Env A) → World A → Outcome A R
unfolding block_for_good scheduler_block_task round resume
wait_loop l [] w = round l (block_for_good l) (l.attempt w)
wait_loop l (env ∷ envs) w =
    round l
      (λ w1.
        resume l (wait_loop l envs)
          (scheduler_block_task env l.reason l.address l.timeout (env.before w1)))
      (l.attempt w)

-- `timeout == TIMEOUT_NONE` gives KERNEL_ERR_TIMEOUT, and a call from an interrupt KERNEL_ERR_ISR.
unfoldable pub refuse_wait : {A : Type 0} → ℕ → World A → Option Code
unfolding is_isr_context
refuse_wait timeout w =
    if timeout == timeout_none
    then some err_timeout
    else (if is_isr_context w.kernel then some err_isr else none)
