-- ===== src/Sync/Wait/Induct.antt =====
-- An induction rule for the blocking loop: what holds of each way in which a run may end, if the rest
-- of the system keeps a property of the object.
use helix_rt.Prelude.{
  ℕ, Ptr, ◌≡◌, refl, inl, inr, false, Option, none, some, List, [], ◌∷◌, Bool-cases, Option-cases,
}
use helix_rt.Task.{Code, is_ok, err_state, BlockReason}
use helix_rt.Sched.Block.{World, on_kernel, block_self, Env, scheduler_block_task}
use helix_rt.Sync.Wait.{
  Outcome, returned, still_blocked, Waiter, block_for_good, settle, round, resume, wait_loop,
}

-- The world at the end of a run.
abbrev pub final_world : {A R : Type 0} → Outcome A R → World A
final_world (returned r w) = w
final_world (still_blocked w) = w

-- What the rest of the system does keeps a property of the object.
pub record Respects {A : Type 0} (P : A → Type 0) (env : Env A) : Type 0 where
  pub before_keeps : (w : World A) → P w.object → P (env.before w).object
  pub away_keeps : (w : World A) → P w.object → P (env.away w).object
  pub resumed_keeps : (w : World A) → P w.object → P (env.resumed w).object

abbrev pub AllRespect : {A : Type 0} → (A → Type 0) → List (Env A) → Type 0
AllRespect P [] = Unit {0}
AllRespect P (env ∷ envs) = Respects P env × AllRespect P envs

pub block_task_keeps :
    {A : Type 0} (P : A → Type 0) (reason : BlockReason) (address : Ptr) (timeout : ℕ) (env : Env A)
    → Respects P env
    → (w : World A) → P w.object
    → P (scheduler_block_task env reason address timeout w).1.object
unfolding scheduler_block_task
block_task_keeps P reason address timeout env good w h = elim (Option-cases w.kernel.current_task) [
  | inl f ↦ rw f h
  | inr (self, f) ↦ rw f (good.resumed_keeps _ (good.away_keeps _ h))
]

-- What a claim `Q` on the end of a run is proved from. `P` holds of the object at every round.
pub record Ends {A R : Type 0} (l : Waiter A R) (P : A → Type 0) (Q : Outcome A R → Type 0)
    : Type 0 where
  pub attempted :
      (w0 w1 : World A) (r : R) → P w0.object → l.attempt w0 ≡ (some r, w1) → Q (returned r w1)
  pub failed_keeps : (w0 w1 : World A) → P w0.object → l.attempt w0 ≡ (none, w1) → P w1.object
  pub gave_up : (w1 : World A) (r : R) → P w1.object → l.give_up w1 ≡ some r → Q (returned r w1)
  pub prepared : (w1 : World A) → P w1.object → P (l.prepare w1).object
  pub timed_out :
      (w1 : World A) (c : Code) → P w1.object → is_ok c ≡ false → Q (returned (l.fail c) w1)
  pub asleep : (w1 : World A) → P w1.object → Q (still_blocked w1)

module _ {A R : Type 0} (l : Waiter A R) (P : A → Type 0) (Q : Outcome A R → Type 0)
    (e : Ends l P Q) where
  ends_blocked : (w : World A) → P w.object → Q (block_for_good l w)
  unfolding block_for_good
  ends_blocked w h = go w.kernel.current_task
    where
      go :
          (o : Ptr)
          → Q (elim o as (λ x. Outcome A R) [
            | none ↦ returned (l.fail err_state) w
            | some self ↦ still_blocked (on_kernel (block_self l.reason l.address l.timeout self) w)
          ])
      go none = e.timed_out w err_state h refl
      go (some self) = e.asleep (on_kernel (block_self l.reason l.address l.timeout self) w) h

  ends_resume :
      (again : World A → Outcome A R)
      → ((w : World A) → P w.object → Q (again w))
      → (out : Code × World A) → P (out.1.object)
      → Q (resume l again out)
  unfolding resume
  ends_resume again ends (res, w) h = elim (Bool-cases (is_ok res)) [
    | inl f ↦ rw f (ends w h)
    | inr f ↦ rw f (e.timed_out w res h f)
  ]

  ends_round :
      (block : World A → Outcome A R)
      → ((w : World A) → P w.object → Q (block w))
      → (w0 : World A) (out : Option R × World A) → P w0.object
      → l.attempt w0 ≡ out
      → Q (round l block out)
  unfolding round
  ends_round block ends w0 (some r, w1) h f = e.attempted w0 w1 r h f
  ends_round block ends w0 (none, w1) h f = go (l.give_up w1) refl
    where
      h1 : P w1.object
      h1 = e.failed_keeps w0 w1 h f

      go : (o : Option R) → l.give_up w1 ≡ o → Q (settle l block o w1)
      go none g = unfold settle in ends (l.prepare w1) (e.prepared w1 h1)
      go (some r) g = unfold settle in e.gave_up w1 r h1 g

  -- Whatever the rest of the system does that keeps `P`, the run ends as `Q` says.
  pub wait_loop-Ends :
      (envs : List (Env A))
      → AllRespect P envs
      → (w : World A) → P w.object
      → Q (wait_loop l envs w)
  unfolding wait_loop
  wait_loop-Ends [] good w h = ends_round (block_for_good l) ends_blocked w (l.attempt w) h refl
  wait_loop-Ends (env ∷ envs) (good, rest) w h =
      ends_round
        (λ w1.
          resume l (wait_loop l envs)
            (scheduler_block_task env l.reason l.address l.timeout (env.before w1)))
        (λ w1 h1.
          ends_resume (wait_loop l envs) (wait_loop-Ends envs rest)
            (scheduler_block_task env l.reason l.address l.timeout (env.before w1))
            (block_task_keeps P l.reason l.address l.timeout env good (env.before w1)
              (good.before_keeps w1 h1)))
        w (l.attempt w) h refl
