-- ===== src/Sync/Queue/Laws/Api.antt =====
-- `queue_send`, `queue_send_front` and `queue_receive` where they need not wait.
use helix_rt.Prelude.{
  ℕ, ◌<◌, ◌≡◌, refl, sym, ap, subst, ◌∙◌, true, some, List, [], ◌∷◌, ◌++◌, ltb, arith,
}
use helix_rt.Task.{ok}
use helix_rt.Sched.Block.{World, Env}
use helix_rt.Sync.Wait.{returned}
use helix_rt.Sync.Wait.Rule.{wait_loop_immediate}
use helix_rt.Sync.Queue.{
  Bytes, MsgQueue, queue_push_back, queue_push_front, queue_pop, send_try, send_waiter, receive_try,
  receive_waiter, queue_send, queue_send_front, queue_receive,
}
use helix_rt.Sync.Queue.Laws.Ring.{
  IsValid, contents, message, queue_push_back-append, queue_push_front-cons, queue_pop-cons,
}

-- A sender's attempt with room.
send_try-room :
    (push : MsgQueue → MsgQueue) (queue : ℕ) (w : World MsgQueue)
    → ltb w.object.count w.object.capacity ≡ true
    → ((send_try push queue w).0 ≡ some ok) × ((send_try push queue w).1.object ≡ push w.object)
unfolding send_try
send_try-room push queue w room = rw room (refl, refl)

-- A receiver's attempt on a message.
receive_try-some :
    (out : Bytes) (queue : ℕ) (w : World MsgQueue)
    → ltb 0 w.object.count ≡ true
    → ((receive_try out queue w).0 ≡ some (ok, (queue_pop out w.object).0))
      × ((receive_try out queue w).1.object ≡ (queue_pop out w.object).1)
unfolding receive_try
receive_try-some out queue w some_in = rw some_in (refl, refl)

module _ (queue : ℕ) (timeout : ℕ) (envs : List (Env MsgQueue)) (w : World MsgQueue)
    (v : IsValid w.object) where
  -- `queue_send` to a valid queue that is not full returns KERNEL_OK, keeps the queue valid and
  -- appends the message.
  pub queue_send-append :
      (msg : Bytes)
      → w.object.count < w.object.capacity
      → (w1 : World MsgQueue) × (queue_send (some queue) (some msg) timeout envs w ≡ returned ok w1)
        × IsValid w1.object
        × (contents w1.object ≡ contents w.object ++ (message w.object msg ∷ []))
  unfolding queue_send
  queue_send-append msg room =
      let (done, pushed) = send_try-room (queue_push_back msg) queue w (ground arith) in
      let w1 : World MsgQueue = (send_try (queue_push_back msg) queue w).1 in
      let (valid, appended) = queue_push_back-append w.object v msg room in
      (
        w1,
        wait_loop_immediate (send_waiter (queue_push_back msg) queue timeout) envs w w1 ok
            (λ i. (done i, w1)),
        subst IsValid (sym pushed) valid,
        ap contents pushed ∙ appended,
      )

  -- `queue_send_front` to a valid queue that is not full returns KERNEL_OK, keeps the queue valid and
  -- puts the message in front.
  pub queue_send_front-cons :
      (msg : Bytes)
      → w.object.count < w.object.capacity
      → (w1 : World MsgQueue) × (queue_send_front (some queue) (some msg) timeout envs w
          ≡ returned ok w1)
        × IsValid w1.object
        × (contents w1.object ≡ message w.object msg ∷ contents w.object)
  unfolding queue_send_front
  queue_send_front-cons msg room =
      let (done, pushed) = send_try-room (queue_push_front msg) queue w (ground arith) in
      let w1 : World MsgQueue = (send_try (queue_push_front msg) queue w).1 in
      let (valid, put_first) = queue_push_front-cons w.object v msg room in
      (
        w1,
        wait_loop_immediate (send_waiter (queue_push_front msg) queue timeout) envs w w1 ok
            (λ i. (done i, w1)),
        subst IsValid (sym pushed) valid,
        ap contents pushed ∙ put_first,
      )

  -- `queue_receive` from a valid queue that is not empty returns KERNEL_OK, keeps the queue valid,
  -- hands out the first message and leaves the others.
  pub queue_receive-cons :
      (buffer : ℕ) (out : Bytes)
      → 0 < w.object.count
      → (msg : Bytes) × (w1 : World MsgQueue) × (queue_receive
            (some queue)
            (some buffer)
            out
            timeout
            envs
            w
          ≡ returned (ok, msg) w1)
        × IsValid w1.object
        × (contents w.object ≡ message w.object msg ∷ contents w1.object)
  unfolding queue_receive
  queue_receive-cons buffer out some_in =
      let (done, popped) = receive_try-some out queue w (ground arith) in
      let w1 : World MsgQueue = (receive_try out queue w).1 in
      let msg : Bytes = (queue_pop out w.object).0 in
      let (valid, first) = queue_pop-cons w.object v out some_in in
      (
        msg,
        w1,
        wait_loop_immediate (receive_waiter (receive_try out queue) out queue timeout) envs w w1
            (ok, msg) (λ i. (done i, w1)),
        subst IsValid (sym popped) valid,
        first ∙ ap (λ (q : MsgQueue). message w.object msg ∷ contents q) (sym popped),
      )
