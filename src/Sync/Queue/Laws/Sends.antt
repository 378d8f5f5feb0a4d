-- ===== src/Sync/Queue/Laws/Sends.antt =====
-- `queue_send` and `queue_send_front` over all their waits.
use helix_rt.Prelude.{
  ℕ, ◌<◌, ◌≡◌, sym, ap, subst, ◌∙◌, inl, inr, true, false, Option, some, List, [], ◌∷◌, ◌++◌, ltb,
  ltb→lt, arith, Bool-cases,
}
use helix_rt.Task.{Code, ok, is_ok, block_queue_send}
use helix_rt.Sched.Block.{World, on_kernel, Env, block_self}
use helix_rt.Sync.Wait.{Outcome, returned, still_blocked, wait_loop, refuse_wait}
use helix_rt.Sync.Wait.Induct.{AllRespect}
use helix_rt.Sync.Wait.Waits.{
  Waits, Waits_keep, FailsQuietly, Ended, by_attempt, by_give_up, by_failure, asleep,
  wait_loop-Ended,
}
use helix_rt.Sync.Queue.{
  Bytes, MsgQueue, queue_push_back, queue_push_front, send_try, send_waiter, queue_send,
  queue_send_front,
}
use helix_rt.Sync.Queue.Laws.Ring.{
  IsValid, contents, message, queue_push_back-append, queue_push_front-cons,
}

-- There is no room for a message.
abbrev pub NoRoom : World MsgQueue → Type 0
NoRoom w = ltb w.object.count w.object.capacity ≡ false

-- The waits of a sender: each at a full queue.
abbrev pub SendWaits : ℕ → ℕ → List (Env MsgQueue) → World MsgQueue → Code → World MsgQueue → Type 0
SendWaits queue timeout = Waits block_queue_send (some queue) timeout (λ w. w) NoRoom

-- How a send that begins in the world `w` ends. If it succeeds, its waits led to a world `w0` whose
-- queue had room, and `after` says what is then in the queue. If it gives up or its last wait fails, it
-- leaves the world as the waits did; and if it still waits, it blocked in such a world.
pub data Sent (queue timeout : ℕ) (envs : List (Env MsgQueue)) (w : World MsgQueue)
    (after : MsgQueue → List (List ℕ)) : Outcome MsgQueue Code → Type 0 where
  sent :
      {r : Code} {w1 : World MsgQueue} (w0 : World MsgQueue)
      → SendWaits queue timeout envs w ok w0
      → r ≡ ok
      → IsValid w0.object
      → w0.object.count < w0.object.capacity
      → IsValid w1.object
      → contents w1.object ≡ after w0.object
      → Sent queue timeout envs w after (returned r w1)
  gave_up :
      {r : Code} {w1 : World MsgQueue}
      → SendWaits queue timeout envs w ok w1
      → NoRoom w1
      → refuse_wait timeout w1 ≡ some r
      → is_ok r ≡ false
      → IsValid w1.object
      → Sent queue timeout envs w after (returned r w1)
  unsent :
      {r : Code} {w1 : World MsgQueue}
      → SendWaits queue timeout envs w r w1
      → is_ok r ≡ false
      → IsValid w1.object
      → Sent queue timeout envs w after (returned r w1)
  waits :
      (w0 : World MsgQueue) (self : ℕ)
      → SendWaits queue timeout envs w ok w0
      → NoRoom w0
      → w0.kernel.current_task ≡ some self
      → IsValid w0.object
      → Sent queue timeout envs w after
          (still_blocked (on_kernel (block_self block_queue_send (some queue) timeout self) w0))

pub refuse_wait-not_ok :
    (timeout : ℕ) (w : World MsgQueue) (r : Code) → refuse_wait timeout w ≡ some r → is_ok r ≡ false
unfolding refuse_wait
refuse_wait-not_ok timeout w r e = ground arith

pub some_injective {ℓ} : {A : Type ℓ} (a b : A) → some a ≡ some b → a ≡ b
some_injective a b e = cc

-- The two ways in which a sender's attempt ends.
send_try-some :
    (push : MsgQueue → MsgQueue) (queue : ℕ) (w0 w1 : World MsgQueue) (r : Code)
    → send_try push queue w0 ≡ (some r, w1)
    → (r ≡ ok) × (ltb w0.object.count w0.object.capacity ≡ true) × (w1.object ≡ push w0.object)
unfolding send_try
send_try-some push queue w0 w1 r e = elim (Bool-cases (ltb w0.object.count w0.object.capacity)) [
  | inl h ↦
      let g = rw h at e in
      (
        some_injective _ _ (ap (λ (x : Option Code × World MsgQueue). x.0) (sym g)),
        h,
        ap (λ (x : Option Code × World MsgQueue). x.1.object) (sym g),
      )
  | inr h ↦ cc (ap (λ (x : Option Code × World MsgQueue). x.0) (rw h at e))
]

send_try-FailsQuietly :
    (push : MsgQueue → MsgQueue) (queue timeout : ℕ)
    → FailsQuietly (send_waiter push queue timeout) NoRoom
unfolding send_try
send_try-FailsQuietly push queue timeout w w1 e =
    elim (Bool-cases (ltb w.object.count w.object.capacity)) [
      | inl h ↦ cc (ap (λ (x : Option Code × World MsgQueue). x.0) (rw h at e))
      | inr h ↦ (sym (ap (λ (x : Option Code × World MsgQueue). x.1) (rw h at e)), h)
    ]

module _ (push : MsgQueue → MsgQueue) (after : MsgQueue → List (List ℕ))
    (pushes : (q : MsgQueue)
      → IsValid q
      → q.count < q.capacity
      → IsValid (push q) × (contents (push q) ≡ after q))
    (queue timeout : ℕ) (envs : List (Env MsgQueue)) (w : World MsgQueue)
    (good : AllRespect (λ q. IsValid q) envs) (v : IsValid w.object) where
  kept_valid :
      (c : Code) (w0 : World MsgQueue) → SendWaits queue timeout envs w c w0 → IsValid w0.object
  kept_valid c w0 g = Waits_keep (λ q. IsValid q) envs w c w0 (λ x h. h) good v g

  Ended-Sent :
      (o : Outcome MsgQueue Code)
      → Ended (send_waiter push queue timeout) NoRoom envs w o
      → Sent queue timeout envs w after o
  Ended-Sent o (by_attempt {r} {w1} w0 g e) =
      let (done, room, pushed) = send_try-some push queue w0 w1 r e in
      let v0 : IsValid w0.object = kept_valid ok w0 g in
      let less : w0.object.count < w0.object.capacity = ltb→lt _ _ room in
      let (v1, held) = pushes w0.object v0 less in
      sent w0 g done v0 less (subst (λ q. IsValid q) (sym pushed) v1) (ap contents pushed ∙ held)
  Ended-Sent o (by_give_up {r} {w0} g s f) =
      gave_up g s f (refuse_wait-not_ok timeout w0 r f) (kept_valid ok w0 g)
  Ended-Sent o (by_failure {w1} c g f) = unsent g f (kept_valid c w1 g)
  Ended-Sent o (asleep w0 self g s e) = waits w0 self g s e (kept_valid ok w0 g)

  send_run-Sent :
      Sent queue timeout envs w after (wait_loop (send_waiter push queue timeout) envs w)
  send_run-Sent = Ended-Sent (wait_loop (send_waiter push queue timeout) envs w) (
      wait_loop-Ended (send_waiter push queue timeout) NoRoom
        (send_try-FailsQuietly push queue timeout) envs w)

module _ (queue timeout : ℕ) (envs : List (Env MsgQueue)) (w : World MsgQueue)
    (good : AllRespect (λ q. IsValid q) envs) (v : IsValid w.object) where
  -- For a valid queue that the rest of the system keeps valid. A `queue_send` that returns KERNEL_OK
  -- has waited, each time at a full queue, until it was woken in a world whose queue has room (the
  -- world of the call, if there was no wait), and what it leaves is the contents of that queue with
  -- the message after them. One that gives up does so at a full queue, where `refuse_wait` is the
  -- result; else an error is that of the last wait. Either leaves the world as the waits did. One that
  -- still waits blocked at a full queue. The queue is valid in all these worlds.
  pub queue_send-Sent :
      (msg : Bytes)
      → Sent queue timeout envs w
          (λ q. contents q ++ (message q msg ∷ []))
          (queue_send (some queue) (some msg) timeout envs w)
  unfolding queue_send
  queue_send-Sent msg =
      send_run-Sent (queue_push_back msg) (λ q. contents q ++ (message q msg ∷ []))
        (λ q h room. queue_push_back-append q h msg room) queue timeout envs w good v

  -- For a valid queue that the rest of the system keeps valid. A `queue_send_front` that returns
  -- KERNEL_OK has waited, each time at a full queue, until it was woken in a world whose queue has room
  -- (the world of the call, if there was no wait), and what it leaves is the message and behind it the
  -- contents of that queue. One that gives up does so at a full queue, where `refuse_wait` is the
  -- result; else an error is that of the last wait. Either leaves the world as the waits did. One that
  -- still waits blocked at a full queue. The queue is valid in all these worlds.
  pub queue_send_front-Sent :
      (msg : Bytes)
      → Sent queue timeout envs w
          (λ q. message q msg ∷ contents q)
          (queue_send_front (some queue) (some msg) timeout envs w)
  unfolding queue_send_front
  queue_send_front-Sent msg =
      send_run-Sent (queue_push_front msg) (λ q. message q msg ∷ contents q)
        (λ q h room. queue_push_front-cons q h msg room) queue timeout envs w good v
