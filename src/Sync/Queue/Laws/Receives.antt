-- ===== src/Sync/Queue/Laws/Receives.antt =====
-- `queue_receive` and `queue_peek` over all their waits.
use helix_rt.Prelude.{
  ℕ, ◌≡◌, refl, sym, ap, subst, ◌∙◌, inl, inr, false, Option, none, some, List, ◌∷◌, ltb, ltb→lt,
  Bool-cases,
}
use helix_rt.Task.{Code, ok, is_ok, block_queue_recv}
use helix_rt.Sched.Block.{World, on_kernel, Env, block_self}
use helix_rt.Sync.Wait.{Outcome, returned, still_blocked, wait_loop, refuse_wait}
use helix_rt.Sync.Wait.Induct.{AllRespect}
use helix_rt.Sync.Wait.Waits.{
  Waits, Waits_keep, Ended, by_attempt, by_give_up, by_failure, asleep, wait_loop-Ended,
}
use helix_rt.Sync.Queue.{
  Bytes, MsgQueue, queue_pop, queue_front, receive_try, peek_try, receive_waiter, with_memory,
  queue_receive, queue_peek,
}
use helix_rt.Sync.Queue.Laws.Ring.{IsValid, contents, message, queue_pop-cons}
use helix_rt.Sync.Queue.Laws.Sends.{some_injective, refuse_wait-not_ok}

-- There is no message.
abbrev pub NoMessage : World MsgQueue → Type 0
NoMessage w = ltb 0 w.object.count ≡ false

-- The waits of a receiver: each at an empty queue.
abbrev pub ReceiveWaits :
    ℕ → ℕ → List (Env MsgQueue) → World MsgQueue → Code → World MsgQueue → Type 0
ReceiveWaits queue timeout = Waits block_queue_recv (some queue) timeout (λ w. w) NoMessage

-- How a receive or a peek that begins in the world `w` ends. If it succeeds, its waits led to a world
-- `w0` whose queue had a message, and `Left` says what is then in the queue. If it gives up or its last
-- wait fails, it leaves the world as the waits did, and the caller's memory as it was; and if it still
-- waits, it blocked in such a world.
pub data Received (queue timeout : ℕ) (envs : List (Env MsgQueue)) (w : World MsgQueue)
    (out : Bytes) (Left : MsgQueue → List ℕ → MsgQueue → Type 0)
    : Outcome MsgQueue (Code × Bytes) → Type 0 where
  received :
      {r : Code × Bytes} {w1 : World MsgQueue} (w0 : World MsgQueue)
      → ReceiveWaits queue timeout envs w ok w0
      → r.0 ≡ ok
      → IsValid w0.object
      → IsValid w1.object
      → Left w0.object (message w0.object r.1) w1.object
      → Received queue timeout envs w out Left (returned r w1)
  gave_up :
      {r : Code × Bytes} {w1 : World MsgQueue}
      → ReceiveWaits queue timeout envs w ok w1
      → NoMessage w1
      → refuse_wait timeout w1 ≡ some r.0
      → is_ok r.0 ≡ false
      → r.1 ≡ out
      → IsValid w1.object
      → Received queue timeout envs w out Left (returned r w1)
  unreceived :
      {r : Code × Bytes} {w1 : World MsgQueue}
      → ReceiveWaits queue timeout envs w r.0 w1
      → is_ok r.0 ≡ false
      → r.1 ≡ out
      → IsValid w1.object
      → Received queue timeout envs w out Left (returned r w1)
  waits :
      (w0 : World MsgQueue) (self : ℕ)
      → ReceiveWaits queue timeout envs w ok w0
      → NoMessage w0
      → w0.kernel.current_task ≡ some self
      → IsValid w0.object
      → Received queue timeout envs w out Left
          (still_blocked (on_kernel (block_self block_queue_recv (some queue) timeout self) w0))

-- The message was the first, and is taken, or stays.
abbrev pub IsTaken : MsgQueue → List ℕ → MsgQueue → Type 0
IsTaken q m q' = contents q ≡ m ∷ contents q'

abbrev pub IsSeen : MsgQueue → List ℕ → MsgQueue → Type 0
IsSeen q m q' = (q' ≡ q) × (rest : List (List ℕ)) × (contents q ≡ m ∷ rest)

refused_memory :
    (out : Bytes) (timeout : ℕ) (w : World MsgQueue) (r : Code × Bytes)
    → with_memory out (refuse_wait timeout w) ≡ some r
    → (refuse_wait timeout w ≡ some r.0) × (is_ok r.0 ≡ false) × (r.1 ≡ out)
refused_memory out timeout w r e = go (refuse_wait timeout w) refl e
  where
    go :
        (o : Option Code)
        → refuse_wait timeout w ≡ o
        → with_memory out o ≡ some r
        → (refuse_wait timeout w ≡ some r.0) × (is_ok r.0 ≡ false) × (r.1 ≡ out)
    go none f g = cc
    go (some c) f g =
        let same : (c, out) ≡ r = some_injective _ _ g in
        (
          f ∙ ap (λ (x : Code × Bytes). some x.0) same,
          ap (λ (x : Code × Bytes). is_ok x.0) (sym same) ∙ refuse_wait-not_ok timeout w c f,
          ap (λ (x : Code × Bytes). x.1) (sym same),
        )

-- What an attempt of a receiver is to do.
pub record Receives (Left : MsgQueue → List ℕ → MsgQueue → Type 0)
    (attempt : World MsgQueue → Option (Code × Bytes) × World MsgQueue) : Type 0 where
  pub gets :
      (w0 w1 : World MsgQueue) (r : Code × Bytes)
      → IsValid w0.object
      → attempt w0 ≡ (some r, w1)
      → (r.0 ≡ ok) × IsValid w1.object × Left w0.object (message w0.object r.1) w1.object
  pub fails : (w0 w1 : World MsgQueue) → attempt w0 ≡ (none, w1) → (w1 ≡ w0) × NoMessage w0

module _ (Left : MsgQueue → List ℕ → MsgQueue → Type 0)
    (attempt : World MsgQueue → Option (Code × Bytes) × World MsgQueue)
    (does : Receives Left attempt) (out : Bytes) (queue timeout : ℕ) (envs : List (Env MsgQueue))
    (w : World MsgQueue) (good : AllRespect (λ q. IsValid q) envs) (v : IsValid w.object) where
  kept_valid :
      (c : Code) (w0 : World MsgQueue) → ReceiveWaits queue timeout envs w c w0 → IsValid w0.object
  kept_valid c w0 g = Waits_keep (λ q. IsValid q) envs w c w0 (λ x h. h) good v g

  Ended-Received :
      (o : Outcome MsgQueue (Code × Bytes))
      → Ended (receive_waiter attempt out queue timeout) NoMessage envs w o
      → Received queue timeout envs w out Left o
  Ended-Received o (by_attempt {r} {w1} w0 g e) =
      let (done, v1, left) = does.gets w0 w1 r (kept_valid ok w0 g) e in
      received w0 g done (kept_valid ok w0 g) v1 left
  Ended-Received o (by_give_up {r} {w0} g s f) =
      let (code, failed, same) = refused_memory out timeout w0 r f in
      gave_up g s code failed same (kept_valid ok w0 g)
  Ended-Received o (by_failure {w1} c g f) = unreceived g f refl (kept_valid c w1 g)
  Ended-Received o (asleep w0 self g s e) = waits w0 self g s e (kept_valid ok w0 g)

  receive_run-Received :
      Received queue timeout envs w out Left
        (wait_loop (receive_waiter attempt out queue timeout) envs w)
  receive_run-Received =
      Ended-Received (wait_loop (receive_waiter attempt out queue timeout) envs w)
        (wait_loop-Ended (receive_waiter attempt out queue timeout) NoMessage does.fails envs w)

abbrev Attempt : Type 0
Attempt = Option (Code × Bytes) × World MsgQueue

receive_try-Receives : (out : Bytes) (queue : ℕ) → Receives IsTaken (receive_try out queue)
unfolding receive_try
receive_try-Receives out queue = record {
  gets = λ w0 w1 r v0 e. elim (Bool-cases (ltb 0 w0.object.count)) [
    | inl h ↦
        let g = rw h at e in
        let same_r : (ok, (queue_pop out w0.object).0) ≡ r =
          some_injective _ _ (ap (λ (x : Attempt). x.0) g) in
        let same_q : (queue_pop out w0.object).1 ≡ w1.object = ap (λ (x : Attempt). x.1.object) g in
        let (v1, first) = queue_pop-cons w0.object v0 out (ltb→lt 0 w0.object.count h) in
        subst
          (λ (x : Code × Bytes).
            (x.0 ≡ ok) × IsValid w1.object × IsTaken w0.object (message w0.object x.1) w1.object)
          same_r
          (subst
            (λ (z : MsgQueue).
              (ok ≡ ok)
              × IsValid z
              × IsTaken w0.object (message w0.object (queue_pop out w0.object).0) z)
            same_q (refl, v1, first))
    | inr h ↦ cc (ap (λ (x : Attempt). x.0) (rw h at e))
  ];
  fails = λ w0 w1 e. elim (Bool-cases (ltb 0 w0.object.count)) [
    | inl h ↦ cc (ap (λ (x : Attempt). x.0) (rw h at e))
    | inr h ↦ (ap (λ (x : Attempt). x.1) (sym (rw h at e)), h)
  ];
}

peek_try-Receives : (out : Bytes) → Receives IsSeen (peek_try out)
unfolding peek_try queue_pop
peek_try-Receives out = record {
  gets = λ w0 w1 r v0 e. elim (Bool-cases (ltb 0 w0.object.count)) [
    | inl h ↦
        let g = rw h at e in
        let same_r : (ok, queue_front out w0.object) ≡ r =
          some_injective _ _ (ap (λ (x : Attempt). x.0) g) in
        let same_q : w0.object ≡ w1.object = ap (λ (x : Attempt). x.1.object) g in
        let (v1, first) = queue_pop-cons w0.object v0 out (ltb→lt 0 w0.object.count h) in
        subst
          (λ (x : Code × Bytes).
            (x.0 ≡ ok) × IsValid w1.object × IsSeen w0.object (message w0.object x.1) w1.object)
          same_r
          (subst
            (λ (z : MsgQueue).
              (ok ≡ ok)
              × IsValid z
              × IsSeen w0.object (message w0.object (queue_front out w0.object)) z)
            same_q (refl, v0, (refl, contents (queue_pop out w0.object).1, first)))
    | inr h ↦ cc (ap (λ (x : Attempt). x.0) (rw h at e))
  ];
  fails = λ w0 w1 e. elim (Bool-cases (ltb 0 w0.object.count)) [
    | inl h ↦ cc (ap (λ (x : Attempt). x.0) (rw h at e))
    | inr h ↦ (ap (λ (x : Attempt). x.1) (sym (rw h at e)), h)
  ];
}

module _ (queue buffer timeout : ℕ) (out : Bytes) (envs : List (Env MsgQueue)) (w : World MsgQueue)
    (good : AllRespect (λ q. IsValid q) envs) (v : IsValid w.object) where
  -- For a valid queue that the rest of the system keeps valid. A `queue_receive` that returns KERNEL_OK
  -- has waited, each time at an empty queue, until it was woken in a world whose queue has a message
  -- (the world of the call, if there was no wait); it hands out the first message of that queue, and
  -- leaves the others. One that gives up does so at an empty queue, where `refuse_wait` is the result;
  -- else an error is that of the last wait. Either leaves the world as the waits did, and the caller's
  -- memory as it was. One that still waits blocked at an empty queue. The queue is valid in all these
  -- worlds.
  pub queue_receive-Received :
      Received queue timeout envs w out IsTaken
        (queue_receive (some queue) (some buffer) out timeout envs w)
  unfolding queue_receive
  queue_receive-Received =
      receive_run-Received IsTaken (receive_try out queue) (receive_try-Receives out queue) out
        queue timeout envs w good v

  -- For a valid queue that the rest of the system keeps valid. A `queue_peek` that returns KERNEL_OK has
  -- waited, each time at an empty queue, until it was woken in a world whose queue has a message (the
  -- world of the call, if there was no wait); it copies out the first message of that queue, and leaves
  -- the queue as it is there. One that gives up does so at an empty queue, where `refuse_wait` is the
  -- result; else an error is that of the last wait. Either leaves the world as the waits did, and the
  -- caller's memory as it was. One that still waits blocked at an empty queue. The queue is valid in
  -- all these worlds.
  pub queue_peek-Received :
      Received queue timeout envs w out IsSeen
        (queue_peek (some queue) (some buffer) out timeout envs w)
  unfolding queue_peek
  queue_peek-Received =
      receive_run-Received IsSeen (peek_try out) (peek_try-Receives out) out queue timeout envs w
        good v
