-- ===== src/Tests/OnQueue.antt =====
-- Queue calls with one wait, around which nothing else happens.
use helix_rt.Prelude.{some, [], ◌∷◌, ◌++◌}
use helix_rt.Sched.Block.{Env}
use helix_rt.Sync.Wait.Induct.{AllRespect}
use helix_rt.Sync.Queue.{MsgQueue, queue_send, queue_send_front, queue_receive, queue_peek}
use helix_rt.Sync.Queue.Laws.Ring.{IsValid, contents, message}
use helix_rt.Sync.Queue.Laws.Sends.{Sent, queue_send-Sent, queue_send_front-Sent}
use helix_rt.Sync.Queue.Laws.Receives.{
  Received, IsTaken, IsSeen, queue_receive-Received, queue_peek-Received,
}
use helix_rt.Tests.OnSync.{queued, one_message-IsValid, new_message}

abbrev still : Env MsgQueue
still = record { before = λ w. w; away = λ w. w; resumed = λ w. w }

still-IsValid : AllRespect (λ q. IsValid q) (still ∷ [])
still-IsValid =
    (record { before_keeps = λ w v. v; away_keeps = λ w v. v; resumed_keeps = λ w v. v }, tt)

queue_send-Sent_example :
    Sent 700 9
      (still ∷ [])
      queued
      (λ q. contents q ++ (message q new_message ∷ []))
      (queue_send (some 700) (some new_message) 9 (still ∷ []) queued)
queue_send-Sent_example =
    queue_send-Sent 700 9 (still ∷ []) queued still-IsValid one_message-IsValid new_message

queue_send_front-Sent_example :
    Sent 700 9
      (still ∷ [])
      queued
      (λ q. message q new_message ∷ contents q)
      (queue_send_front (some 700) (some new_message) 9 (still ∷ []) queued)
queue_send_front-Sent_example =
    queue_send_front-Sent 700 9 (still ∷ []) queued still-IsValid one_message-IsValid new_message

queue_receive-Received_example :
    Received 700 9
      (still ∷ [])
      queued
      new_message
      IsTaken
      (queue_receive (some 700) (some 800) new_message 9 (still ∷ []) queued)
queue_receive-Received_example =
    queue_receive-Received 700 800 9 new_message (still ∷ []) queued still-IsValid
      one_message-IsValid

queue_peek-Received_example :
    Received 700 9
      (still ∷ [])
      queued
      new_message
      IsSeen
      (queue_peek (some 700) (some 800) new_message 9 (still ∷ []) queued)
queue_peek-Received_example =
    queue_peek-Received 700 800 9 new_message (still ∷ []) queued still-IsValid one_message-IsValid
