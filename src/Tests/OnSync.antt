-- ===== src/Tests/OnSync.antt =====
-- The theorems on semaphores, mutexes, queues and event flags, on concrete objects.
use helix_rt.Prelude.{ℕ, ◌≡◌, ◌++◌, refl, Ptr, true, none, some, [], ◌∷◌, arith, bit_and, ◌+◌}
use helix_rt.Prelude.Int.{ℤ, pos, ltb_ℤ, decrement}
use helix_rt.Task.{ok}
use helix_rt.Sched.{Sched, update_tcb, critical_enter, critical_exit, is_isr_context}
use helix_rt.Sched.Ready.{scheduler_get_current}
use helix_rt.Sched.Block.{World, on_kernel, Env, best_waiter, wake_best, scheduler_unblock_one}
use helix_rt.Sync.Wait.{returned, wait_loop, round}
use helix_rt.Sync.Wait.Induct.{Respects, final_world}
use helix_rt.Sync.Semaphore.{Semaphore, sem_try, sem_take, sem_give, sem_reset, sem_init}
use helix_rt.Sync.Semaphore.Laws.{
  IsBounded, sem_take-IsBounded, sem_take-ok, sem_give-IsBounded, sem_reset-IsBounded,
  sem_init-IsBounded, sem_give-take, TakeWaits,
}
use helix_rt.Sync.Mutex.{
  Mutex, mutex_trylock, mutex_lock, mutex_unlock, lock_as, trylock_by, lock_try,
}
use helix_rt.Sync.Mutex.Laws.{IsConsistent, free, mutex_lock-IsConsistent}
use helix_rt.Sync.Mutex.Acquire.{Locked, LockWaits, mutex_lock-ok}
use helix_rt.Sync.Mutex.Nested.{mutex_trylock-unlock}
use helix_rt.Sync.Queue.Laws.Api.{queue_send-append, queue_receive-cons}
use helix_rt.Sync.Queue.{queue_send, queue_receive, Bytes, MsgQueue}
use helix_rt.Sync.Queue.Laws.Ring.{IsValid, contents, message}
use helix_rt.Sync.Event.{
  EventGroup, set_event_wait, without_bits, clear_on_exit_bit, event_match, event_try,
  event_wait_from, event_wait,
}
use helix_rt.Sync.Event.Laws.{Matched, EventWaits, event_wait-Matched}
use helix_rt.Tests.{blank}

-- A semaphore with a count, and a maximum of 2.
abbrev counting : ℤ → Semaphore
counting n = record { count = n; max_count = pos 2; wait_list_head = none; wait_list_tail = none }

abbrev with_count : ℤ → World Semaphore
with_count n = record { kernel = blank; object = counting n }

one-IsBounded : IsBounded (counting (pos 1))
one-IsBounded = record { nonneg = refl; below_max = refl }

-- While the task waits, somebody resets the semaphore.
abbrev resets : Env Semaphore
resets = record {
  before = λ w. w;
  away = λ w. (sem_reset (some 500) (pos 1) w).1;
  resumed = λ w. w;
}

resets-Respects : Respects IsBounded resets
resets-Respects = record {
  before_keeps = λ w h. h;
  away_keeps = λ w h. sem_reset-IsBounded (some 500) (pos 1) w h;
  resumed_keeps = λ w h. h;
}

sem_init-IsBounded_example : IsBounded (sem_init (some 500) (pos 1) (pos 2) (counting (pos 0))).1
unfolding sem_init
sem_init-IsBounded_example = sem_init-IsBounded (some 500) (pos 1) (pos 2) (counting (pos 0)) refl

sem_take-IsBounded_example :
    IsBounded (final_world (sem_take (some 500) 9 (resets ∷ []) (with_count (pos 1)))).object
sem_take-IsBounded_example =
    sem_take-IsBounded (some 500) 9 (resets ∷ []) (with_count (pos 1)) (resets-Respects, tt)
      one-IsBounded

sem_reset-IsBounded_example : IsBounded (sem_reset (some 500) (pos 2) (with_count (pos 1))).1.object
sem_reset-IsBounded_example =
    sem_reset-IsBounded (some 500) (pos 2) (with_count (pos 1)) one-IsBounded

sem_give-IsBounded_example : IsBounded (sem_give (some 500) (with_count (pos 1))).1.object
sem_give-IsBounded_example =
    sem_give-IsBounded (some 500) (with_count (pos 1)) (1, refl, omega arith) one-IsBounded

sem_take-ok_example :
    (w0 : World Semaphore) × TakeWaits 500 9 [] (with_count (pos 1)) ok w0
    × (ltb_ℤ (pos 0) w0.object.count ≡ true)
    × ((with_count (pos 0)).object ≡ record (w0.object) { count = decrement w0.object.count })
unfolding sem_take sem_try wait_loop round critical_enter critical_exit
sem_take-ok_example = sem_take-ok 500 9 [] (with_count (pos 1)) (with_count (pos 0)) refl

-- The queue of three two-byte messages, with one in it, round the end of the buffer.
abbrev bytes : Bytes
bytes i = 65 + i

abbrev pub one_message : MsgQueue
one_message = record {
  buffer = bytes;
  msg_size = 2;
  capacity = 3;
  head = 0;
  tail = 2;
  count = 1;
  send_wait_head = none;
  send_wait_tail = none;
  recv_wait_head = none;
  recv_wait_tail = none;
}

pub one_message-IsValid : IsValid one_message
one_message-IsValid = record {
  some_bytes = omega arith;
  some_room = omega arith;
  fits = omega arith;
  short = omega arith;
  tail_in = omega arith;
  count_in = omega arith;
  head_at = refl;
}

abbrev pub new_message : Bytes
new_message i = 97 + i

abbrev pub queued : World MsgQueue
queued = record { kernel = blank; object = one_message }

queue_send-append_example :
    (w1 : World MsgQueue) × (queue_send (some 700) (some new_message) 9 [] queued ≡ returned ok w1)
    × IsValid w1.object
    × (contents w1.object ≡ contents one_message ++ (message one_message new_message ∷ []))
queue_send-append_example =
    queue_send-append 700 9 [] queued one_message-IsValid new_message (omega arith)

queue_receive-cons_example :
    (msg : Bytes) × (w1 : World MsgQueue) × (queue_receive
        (some 700)
        (some 800)
        new_message
        9
        []
        queued
      ≡ returned (ok, msg) w1)
    × IsValid w1.object
    × (contents one_message ≡ message one_message msg ∷ contents w1.object)
queue_receive-cons_example =
    queue_receive-cons 700 9 [] queued one_message-IsValid 800 new_message (omega arith)

-- A recursive mutex, free, and held by the task at 100.
abbrev mutex_with : ℕ → Ptr → ℕ → Mutex
mutex_with locked owner recursive_count = record {
  locked = locked;
  owner = owner;
  owner_base_priority = 3;
  recursive_count = recursive_count;
  flags = 1;
  wait_list_head = none;
  wait_list_tail = none;
}

abbrev thread : Sched
thread = record blank { current_task = some 100 }

abbrev free_mutex : World Mutex
free_mutex = record { kernel = thread; object = mutex_with 0 none 0 }

abbrev held_mutex : ℕ → World Mutex
held_mutex n = record { kernel = thread; object = mutex_with 1 (some 100) n }

mutex_lock-IsConsistent_example :
    IsConsistent (final_world (mutex_lock (some 600) 9 [] free_mutex)).object
mutex_lock-IsConsistent_example =
    mutex_lock-IsConsistent (some 600) 9 [] free_mutex tt (free refl refl refl)

mutex_lock-ok_example :
    (w0 : World Mutex) × LockWaits 600 100 9 [] free_mutex ok w0 × Locked w0 (held_mutex 1)
unfolding mutex_lock lock_try mutex_trylock trylock_by lock_as wait_loop round critical_enter
    critical_exit is_isr_context scheduler_get_current
mutex_lock-ok_example = mutex_lock-ok 600 100 9 [] free_mutex (held_mutex 1) refl refl

mutex_trylock-unlock_example :
    let (r1, w1) = mutex_trylock (some 600) (held_mutex 255) in
    let (r2, w2) = mutex_unlock (some 600) w1 in
    (r1 ≡ ok) × (r2 ≡ ok) × (w2.object ≡ mutex_with 1 (some 100) 254)
unfolding is_isr_context
mutex_trylock-unlock_example =
    mutex_trylock-unlock 600 100 (held_mutex 255) refl refl refl refl refl (omega arith)
      (omega arith)

sem_give-take_example :
    let (res, w1) = sem_give (some 500) (with_count (pos 1)) in
    (res ≡ ok)
    × (w2 : World Semaphore) × (sem_take (some 500) 9 [] w1 ≡ returned ok w2)
    × (w2.object ≡ counting (pos 1))
unfolding scheduler_unblock_one best_waiter wake_best critical_enter critical_exit
sem_give-take_example = sem_give-take 500 9 [] (with_count (pos 1)) 1 refl refl refl (omega arith)

-- Flags 0 to 2 are set; 0 and 2 are waited for, and cleared.
abbrev flags_with : ℕ → World EventGroup
flags_with n = record { kernel = thread; object = record { flags = n } }

-- After the wait.
abbrev cleared : World EventGroup
cleared = record {
  kernel = update_tcb 100 (set_event_wait 5 1) thread;
  object = record { flags = 2 };
}

event_wait-Matched_example :
    (w0 : World EventGroup) × EventWaits 700
      (without_bits (clear_on_exit_bit + 5) clear_on_exit_bit)
      1
      9
      []
      (on_kernel
        (update_tcb 100 (set_event_wait (without_bits (clear_on_exit_bit + 5) clear_on_exit_bit) 1))
        (flags_with 7))
      ok
      w0
    × Matched
        (without_bits (clear_on_exit_bit + 5) clear_on_exit_bit)
        1
        (bit_and (clear_on_exit_bit + 5) clear_on_exit_bit)
        5
        w0.object
        cleared.object
unfolding event_wait event_wait_from event_try event_match wait_loop round critical_enter
    critical_exit is_isr_context scheduler_get_current
event_wait-Matched_example =
    event_wait-Matched 700 (clear_on_exit_bit + 5) 1 9 5 100 [] (flags_with 7) cleared refl refl
      (omega arith)
