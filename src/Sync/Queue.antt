-- ===== src/Sync/Queue.antt =====
-- kernel/sync/queue.c. The message buffer is memory, a byte at each offset from `queue->buffer`; a
-- message is the bytes from the caller's pointer on. A receiver is given its pointer, which may be
-- NULL, and the memory `out` that it leads to.
pub mod Laws
use helix_rt.Prelude.{
  ℕ, zero, suc, ◌+◌, ◌-◌, ◌*◌, ◌%◌, Ptr, Bool, ◌||◌, Option, none, some, List, ltb, leb, ◌==◌,
  is_null, if◌then◌else◌,
}
use helix_rt.Config.{word}
use helix_rt.Task.{
  Code, ok, err_param, err_overflow, err_state, block_queue_send, block_queue_recv, put,
}
use helix_rt.Sched.{Sched, critical_enter, critical_exit}
use helix_rt.Sched.Block.{World, on_kernel, Env, scheduler_unblock_one, scheduler_unblock_all}
use helix_rt.Sync.Wait.{Outcome, returned, Waiter, wait_loop, refuse_wait}

-- Bytes at offsets from a pointer.
abbrev pub Bytes : Type 0
Bytes = ℕ → ℕ

pub record MsgQueue : Type 0 where
  pub buffer : Bytes
  pub msg_size : ℕ
  pub capacity : ℕ
  pub head : ℕ
  pub tail : ℕ
  pub count : ℕ
  pub send_wait_head : Ptr
  pub send_wait_tail : Ptr
  pub recv_wait_head : Ptr
  pub recv_wait_tail : Ptr

-- `while (len-- > 0U) *dst++ = *src++;` with the offsets that the two pointers start at.
unfoldable pub mem_copy : ℕ → ℕ → ℕ → Bytes → Bytes → Bytes
mem_copy zero d s src dst = dst
mem_copy (suc len) d s src dst = mem_copy len (d + 1) (s + 1) src (put dst d (src s))

-- The offset of a slot, computed in `uint32_t`.
unfoldable pub queue_slot_ptr : MsgQueue → ℕ → ℕ
queue_slot_ptr queue idx = idx * queue.msg_size % word

unfoldable pub queue_push_back : Bytes → MsgQueue → MsgQueue
unfolding mem_copy queue_slot_ptr
queue_push_back msg queue = record queue {
  buffer = mem_copy queue.msg_size (queue_slot_ptr queue queue.head) 0 msg queue.buffer;
  head = (queue.head + 1) % word % queue.capacity;
  count = (queue.count + 1) % word;
}

unfoldable pub queue_push_front : Bytes → MsgQueue → MsgQueue
unfolding mem_copy queue_slot_ptr
queue_push_front msg queue =
    let tail' = if queue.tail == 0 then queue.capacity - 1 else queue.tail - 1 in
    record queue {
      tail = tail';
      buffer = mem_copy queue.msg_size (queue_slot_ptr queue tail') 0 msg queue.buffer;
      count = (queue.count + 1) % word;
    }

-- What `queue_peek` copies out; `out` is the caller's memory before.
unfoldable pub queue_front : Bytes → MsgQueue → Bytes
unfolding mem_copy queue_slot_ptr
queue_front out queue = mem_copy queue.msg_size 0 (queue_slot_ptr queue queue.tail) queue.buffer out

unfoldable pub queue_pop : Bytes → MsgQueue → Bytes × MsgQueue
unfolding queue_front
queue_pop out queue = (
  queue_front out queue,
  record queue {
    tail = (queue.tail + 1) % word % queue.capacity;
    count = (queue.count + word - 1) % word;
  },
)

unfoldable pub queue_init : Ptr → Option Bytes → ℕ → ℕ → MsgQueue → Code × MsgQueue
queue_init queue none msg_size capacity q = (err_param, q)
queue_init queue (some memory) msg_size capacity q =
    if is_null queue || msg_size == 0 || capacity == 0 then (err_param, q) else (
      ok,
      record {
        buffer = memory;
        msg_size = msg_size;
        capacity = capacity;
        head = 0;
        tail = 0;
        count = 0;
        send_wait_head = none;
        send_wait_tail = none;
        recv_wait_head = none;
        recv_wait_tail = none;
      },
    )

-- The critical section of the two senders, with the push that each makes.
unfoldable pub send_try : (MsgQueue → MsgQueue) → ℕ → World MsgQueue → Option Code × World MsgQueue
unfolding critical_enter critical_exit
send_try push queue w =
    let (irq_state, k) = critical_enter w.kernel in
    if ltb w.object.count w.object.capacity
    then (let (_, k1) = scheduler_unblock_one block_queue_recv (some queue) ok k in
        (some ok, record { kernel = critical_exit irq_state k1; object = push w.object }))
    else (none, record w { kernel = critical_exit irq_state k })

abbrev pub send_waiter : (MsgQueue → MsgQueue) → ℕ → ℕ → Waiter MsgQueue Code
send_waiter push queue timeout = record {
  attempt = send_try push queue;
  give_up = refuse_wait timeout;
  prepare = λ w. w;
  fail = λ res. res;
  reason = block_queue_send;
  address = some queue;
  timeout = timeout;
}

unfoldable pub queue_send :
    Ptr → Option Bytes → ℕ → List (Env MsgQueue) → World MsgQueue → Outcome MsgQueue Code
unfolding wait_loop
queue_send none msg timeout envs w = returned err_param w
queue_send (some queue) none timeout envs w = returned err_param w
queue_send (some queue) (some msg) timeout envs w =
    wait_loop (send_waiter (queue_push_back msg) queue timeout) envs w

unfoldable pub queue_send_front :
    Ptr → Option Bytes → ℕ → List (Env MsgQueue) → World MsgQueue → Outcome MsgQueue Code
unfolding wait_loop
queue_send_front none msg timeout envs w = returned err_param w
queue_send_front (some queue) none timeout envs w = returned err_param w
queue_send_front (some queue) (some msg) timeout envs w =
    wait_loop (send_waiter (queue_push_front msg) queue timeout) envs w

unfoldable pub send_isr_body : Bytes → ℕ → World MsgQueue → Code × World MsgQueue
unfolding critical_enter critical_exit queue_push_back
send_isr_body msg queue w =
    let (irq_state, k) = critical_enter w.kernel in
    if leb w.object.capacity w.object.count
    then (err_overflow, record w { kernel = critical_exit irq_state k })
    else (let (_, k1) = scheduler_unblock_one block_queue_recv (some queue) ok k in
        (ok, record { kernel = critical_exit irq_state k1; object = queue_push_back msg w.object }))

unfoldable pub queue_send_isr : Ptr → Option Bytes → World MsgQueue → Code × World MsgQueue
unfolding send_isr_body
queue_send_isr none msg w = (err_param, w)
queue_send_isr (some queue) none w = (err_param, w)
queue_send_isr (some queue) (some msg) w = send_isr_body msg queue w

-- The critical section of `queue_receive`. The result carries the caller's memory.
unfoldable pub receive_try : Bytes → ℕ → World MsgQueue → Option (Code × Bytes) × World MsgQueue
unfolding critical_enter critical_exit queue_pop
receive_try out queue w =
    let (irq_state, k) = critical_enter w.kernel in
    if ltb 0 w.object.count
    then (let (msg, q) = queue_pop out w.object in
        let (_, k1) = scheduler_unblock_one block_queue_send (some queue) ok k in
        (some (ok, msg), record { kernel = critical_exit irq_state k1; object = q }))
    else (none, record w { kernel = critical_exit irq_state k })

unfoldable pub peek_try : Bytes → World MsgQueue → Option (Code × Bytes) × World MsgQueue
unfolding critical_enter critical_exit queue_front
peek_try out w =
    let (irq_state, k) = critical_enter w.kernel in
    let w1 : World MsgQueue = record w { kernel = critical_exit irq_state k } in
    if ltb 0 w.object.count then (some (ok, queue_front out w.object), w1) else (none, w1)

-- A refusal, with the caller's memory as it was.
abbrev pub with_memory : Bytes → Option Code → Option (Code × Bytes)
with_memory out none = none
with_memory out (some c) = some (c, out)

abbrev pub receive_waiter :
    (World MsgQueue → Option (Code × Bytes) × World MsgQueue)
    → Bytes
    → ℕ
    → ℕ
    → Waiter MsgQueue (Code × Bytes)
receive_waiter attempt out queue timeout = record {
  attempt = attempt;
  give_up = λ w. with_memory out (refuse_wait timeout w);
  prepare = λ w. w;
  fail = λ res. (res, out);
  reason = block_queue_recv;
  address = some queue;
  timeout = timeout;
}

unfoldable pub queue_receive :
    Ptr → Ptr → Bytes → ℕ → List (Env MsgQueue) → World MsgQueue → Outcome MsgQueue (Code × Bytes)
unfolding wait_loop
queue_receive none msg out timeout envs w = returned (err_param, out) w
queue_receive (some queue) none out timeout envs w = returned (err_param, out) w
queue_receive (some queue) (some msg) out timeout envs w =
    wait_loop (receive_waiter (receive_try out queue) out queue timeout) envs w

unfoldable pub queue_peek :
    Ptr → Ptr → Bytes → ℕ → List (Env MsgQueue) → World MsgQueue → Outcome MsgQueue (Code × Bytes)
unfolding wait_loop
queue_peek none msg out timeout envs w = returned (err_param, out) w
queue_peek (some queue) none out timeout envs w = returned (err_param, out) w
queue_peek (some queue) (some msg) out timeout envs w =
    wait_loop (receive_waiter (peek_try out) out queue timeout) envs w

unfoldable pub queue_get_count : Ptr → MsgQueue → ℕ
queue_get_count none q = 0
queue_get_count (some queue) q = q.count

unfoldable pub queue_get_space : Ptr → MsgQueue → ℕ
queue_get_space none q = 0
queue_get_space (some queue) q = if ltb q.capacity q.count then 0 else q.capacity - q.count

unfoldable pub queue_is_empty : MsgQueue → Bool
queue_is_empty q = q.count == 0

unfoldable pub queue_is_full : MsgQueue → Bool
queue_is_full q = leb q.capacity q.count

unfoldable pub queue_reset : Ptr → World MsgQueue → Code × World MsgQueue
queue_reset none w = (err_param, w)
queue_reset (some queue) w =
    let (_, k1) = scheduler_unblock_all block_queue_send (some queue) err_state w.kernel in
    let (_, k2) = scheduler_unblock_all block_queue_recv (some queue) err_state k1 in
    (ok, record { kernel = k2; object = record (w.object) { head = 0; tail = 0; count = 0 } })
