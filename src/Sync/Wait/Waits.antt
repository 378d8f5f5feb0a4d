-- ===== src/Sync/Wait/Waits.antt =====
-- The waits of a run of the blocking loop, one after another: where they lead does not depend on what
-- a round tries, so that a theorem may say in which world the last round took place.
use helix_rt.Prelude.{
  ℕ, Ptr, ◌≡◌, refl, sym, subst, ◌⊎◌, inl, inr, true, false, Option, none, some, List, [], ◌∷◌,
  Bool-cases,
}
use helix_rt.Task.{Code, ok, is_ok, err_state, BlockReason}
use helix_rt.Sched.Block.{World, on_kernel, block_self, Env, scheduler_block_task}
use helix_rt.Sync.Wait.Induct.{AllRespect, block_task_keeps}
use helix_rt.Sync.Wait.{
  Outcome, returned, still_blocked, Waiter, block_for_good, settle, round, resume, wait_loop,
}

-- `Waits reason address timeout prepare Stuck envs w c w0`: from `w` on, the task blocks once for each
-- of some first elements of `envs`, each time in a world that is `Stuck` and after `prepare`. The last
-- wait ends with the code `c` in the world `w0`, the others with KERNEL_OK. With no wait at all, `w0`
-- is `w`.
pub data Waits {A : Type 0} (reason : BlockReason) (address : Ptr) (timeout : ℕ)
    (prepare : World A → World A) (Stuck : World A → Type 0)
    : List (Env A) → World A → Code → World A → Type 0 where
  no_wait :
      {envs : List (Env A)} {w : World A} → Waits reason address timeout prepare Stuck envs w ok w
  woken :
      {env : Env A} {envs : List (Env A)} {w w0 : World A} {d : Code} (c : Code) (w2 : World A)
      → Stuck w
      → scheduler_block_task env reason address timeout (env.before (prepare w)) ≡ (c, w2)
      → is_ok c ≡ true
      → Waits reason address timeout prepare Stuck envs w2 d w0
      → Waits reason address timeout prepare Stuck (env ∷ envs) w d w0
  refused :
      {env : Env A} {envs : List (Env A)} {w w2 : World A} {c : Code}
      → Stuck w
      → scheduler_block_task env reason address timeout (env.before (prepare w)) ≡ (c, w2)
      → is_ok c ≡ false
      → Waits reason address timeout prepare Stuck (env ∷ envs) w c w2
  no_task :
      {w : World A}
      → Stuck w
      → (prepare w).kernel.current_task ≡ none
      → Waits reason address timeout prepare Stuck [] w err_state (prepare w)

-- What the rest of the system keeps of the object, holds where the waits lead.
pub Waits_keep :
    {A : Type 0} {reason : BlockReason} {address : Ptr} {timeout : ℕ} {prepare : World A → World A}
    {Stuck : World A → Type 0} (P : A → Type 0) (envs : List (Env A)) (w : World A) (c : Code)
    (w0 : World A)
    → ((x : World A) → P x.object → P (prepare x).object)
    → AllRespect P envs
    → P w.object
    → Waits reason address timeout prepare Stuck envs w c w0
    → P w0.object
Waits_keep P envs w c w0 keeps good h no_wait = h
Waits_keep {A} {reason} {address} {timeout} {prepare} P (env ∷ envs) w c w0 keeps good h
      (woken d w2 s e f more) =
    Waits_keep P envs w2 c w0 keeps good.1
      (subst (λ (x : Code × World A). P x.1.object) e
        (block_task_keeps P reason address timeout env good.0 (env.before (prepare w))
          (good.0.before_keeps (prepare w) (keeps w h))))
      more
Waits_keep {A} {reason} {address} {timeout} {prepare} P (env ∷ envs) w c w0 keeps good h
      (refused s e f) =
    subst (λ (x : Code × World A). P x.1.object) e
      (block_task_keeps P reason address timeout env good.0 (env.before (prepare w))
        (good.0.before_keeps (prepare w) (keeps w h)))
Waits_keep P [] w c w0 keeps good h (no_task s e) = keeps w h

-- Where a round fails it leaves the world as it was, and the world is `Stuck`.
abbrev pub FailsQuietly : {A R : Type 0} → Waiter A R → (World A → Type 0) → Type 0
FailsQuietly {A} l Stuck = (w w1 : World A) → l.attempt w ≡ (none, w1) → (w1 ≡ w) × Stuck w

abbrev pub WaitsOf :
    {A R : Type 0}
    → Waiter A R
    → (World A → Type 0)
    → List (Env A)
    → World A
    → Code
    → World A
    → Type 0
WaitsOf l Stuck = Waits l.reason l.address l.timeout l.prepare Stuck

-- Why a run that begins in `w` ended as it did: after some waits a round succeeded, or failed and the
-- loop gave up; or the last wait failed; or the task is blocked.
pub data Ended {A R : Type 0} (l : Waiter A R) (Stuck : World A → Type 0) (envs : List (Env A))
    (w : World A) : Outcome A R → Type 0 where
  by_attempt :
      {r : R} {w1 : World A} (w0 : World A)
      → WaitsOf l Stuck envs w ok w0
      → l.attempt w0 ≡ (some r, w1)
      → Ended l Stuck envs w (returned r w1)
  by_give_up :
      {r : R} {w0 : World A}
      → WaitsOf l Stuck envs w ok w0
      → Stuck w0
      → l.give_up w0 ≡ some r
      → Ended l Stuck envs w (returned r w0)
  by_failure :
      {w1 : World A} (c : Code)
      → WaitsOf l Stuck envs w c w1
      → is_ok c ≡ false
      → Ended l Stuck envs w (returned (l.fail c) w1)
  asleep :
      (w0 : World A) (self : ℕ)
      → WaitsOf l Stuck envs w ok w0
      → Stuck w0
      → (l.prepare w0).kernel.current_task ≡ some self
      → Ended l Stuck envs w
          (still_blocked (on_kernel (block_self l.reason l.address l.timeout self) (l.prepare w0)))

module _ {A R : Type 0} (l : Waiter A R) (Stuck : World A → Type 0)
    (quiet : FailsQuietly l Stuck) where
  block_for_good-Ended :
      (w : World A) → Stuck w → Ended l Stuck [] w (block_for_good l (l.prepare w))
  unfolding block_for_good
  block_for_good-Ended w s = go (l.prepare w).kernel.current_task refl
    where
      go :
          (o : Ptr)
          → (l.prepare w).kernel.current_task ≡ o
          → Ended l Stuck [] w (elim o as (λ x. Outcome A R) [
            | none ↦ returned (l.fail err_state) (l.prepare w)
            | some self ↦
                still_blocked
                  (on_kernel (block_self l.reason l.address l.timeout self) (l.prepare w))
          ])
      go none e = by_failure err_state (no_task s e) refl
      go (some self) e = asleep w self no_wait s e

  -- One wait more at the front.
  Ended-after :
      (env : Env A) (envs : List (Env A)) (w : World A) (c : Code) (w2 : World A)
      → Stuck w
      → scheduler_block_task env l.reason l.address l.timeout (env.before (l.prepare w)) ≡ (c, w2)
      → is_ok c ≡ true
      → (o : Outcome A R) → Ended l Stuck envs w2 o
      → Ended l Stuck (env ∷ envs) w o
  Ended-after env envs w c w2 s e f o (by_attempt w0 h g) = by_attempt w0 (woken c w2 s e f h) g
  Ended-after env envs w c w2 s e f o (by_give_up h t g) = by_give_up (woken c w2 s e f h) t g
  Ended-after env envs w c w2 s e f o (by_failure d h g) = by_failure d (woken c w2 s e f h) g
  Ended-after env envs w c w2 s e f o (asleep w0 self h t g) =
      asleep w0 self (woken c w2 s e f h) t g

  round-Ended :
      (envs : List (Env A)) (w : World A) (block : World A → Outcome A R)
      → (Stuck w → Ended l Stuck envs w (block (l.prepare w)))
      → (out : Option R × World A) → l.attempt w ≡ out
      → Ended l Stuck envs w (round l block out)
  unfolding round
  round-Ended envs w block ends (some r, w1) e = by_attempt w no_wait e
  round-Ended envs w block ends (none, w1) e =
      let (same, stuck) = quiet w w1 e in
      subst (λ (x : World A). Ended l Stuck envs w (round l block (none, x))) (sym same)
        (go stuck (l.give_up w) refl)
    where
      go : Stuck w → (o : Option R) → l.give_up w ≡ o → Ended l Stuck envs w (settle l block o w)
      go s none f = unfold settle in ends s
      go s (some r) f = unfold settle in by_give_up no_wait s f

  resume-Ended :
      (env : Env A) (envs : List (Env A)) (w : World A) (again : World A → Outcome A R)
      → ((x : World A) → Ended l Stuck envs x (again x))
      → Stuck w
      → (out : Code × World A)
      → scheduler_block_task env l.reason l.address l.timeout (env.before (l.prepare w)) ≡ out
      → Ended l Stuck (env ∷ envs) w (resume l again out)
  unfolding resume
  resume-Ended env envs w again ends s (c, w2) e = elim (Bool-cases (is_ok c)) [
    | inl f ↦ rw f (Ended-after env envs w c w2 s e f (again w2) (ends w2))
    | inr f ↦ rw f (by_failure c (refused s e f) f)
  ]

  -- Whatever the rest of the system does, a run ends in one of the four ways.
  pub wait_loop-Ended :
      (envs : List (Env A)) (w : World A) → Ended l Stuck envs w (wait_loop l envs w)
  unfolding wait_loop
  wait_loop-Ended [] w =
      round-Ended [] w (block_for_good l) (block_for_good-Ended w) (l.attempt w) refl
  wait_loop-Ended (env ∷ envs) w =
      round-Ended (env ∷ envs) w
        (λ w1.
          resume l (wait_loop l envs)
            (scheduler_block_task env l.reason l.address l.timeout (env.before w1)))
        (λ s. resume-Ended env envs w (wait_loop l envs) (wait_loop-Ended envs) s _ refl)
        (l.attempt w) refl

-- The ways to return, read off a run that returned `r`.
abbrev pub Returns :
    {A R : Type 0} → Waiter A R → (World A → Type 0) → List (Env A) → World A → R → World A → Type 0
Returns {A} l Stuck envs w r w1 =
    ((w0 : World A) × WaitsOf l Stuck envs w ok w0 × (l.attempt w0 ≡ (some r, w1)))
    ⊎ ((l.give_up w1 ≡ some r) ⊎ ((c : Code) × (is_ok c ≡ false) × (l.fail c ≡ r)))

pub Ended-Returns :
    {A R : Type 0} (l : Waiter A R) (Stuck : World A → Type 0) (envs : List (Env A)) (w : World A)
    (o : Outcome A R) (r : R) (w1 : World A)
    → Ended l Stuck envs w o
    → o ≡ returned r w1
    → Returns l Stuck envs w r w1
Ended-Returns l Stuck envs w o r w1 (by_attempt w0 g e) h = inl (w0, g, cc)
Ended-Returns l Stuck envs w o r w1 (by_give_up g s f) h = inr (inl cc)
Ended-Returns l Stuck envs w o r w1 (by_failure c g f) h = inr (inr (c, f, cc))
Ended-Returns l Stuck envs w o r w1 (asleep w0 self g s e) h = cc
