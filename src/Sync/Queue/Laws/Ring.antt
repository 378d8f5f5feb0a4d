-- ===== src/Sync/Queue/Laws/Ring.antt =====
-- The messages that a queue holds, and the refinement of a list by the three moves of the ring.
use native.Mathlib.Nat.{mod-add-mod, mod-eq_of_lt, mod_self}
use mathlib.Core.Path.{ap₂}
use helix_rt.Prelude.{
  ℕ, suc, ◌+◌, ◌-◌, ◌*◌, ◌%◌, ◌≤◌, ◌<◌, ◌≡◌, sym, ap, subst, ◌∙◌, inl, inr, List, [], ◌∷◌, ◌++◌,
  ◌==◌, if◌then◌else◌, arith, Bool-cases,
}
use helix_rt.Config.{word}
use helix_rt.Sync.Queue.{
  Bytes, MsgQueue, mem_copy, queue_slot_ptr, queue_push_back, queue_push_front, queue_front,
  queue_pop,
}
use helix_rt.Sync.Queue.Laws.{read, read-mem_copy, slot-in_range}
use helix_rt.Sync.Queue.Laws.Window.{
  slot, window, window_of_pos, slot-stored_self, window-stored_behind, window-stored_apart,
}

-- The representation invariant. The buffer lies in a 32-bit address space.
pub record IsValid (q : MsgQueue) : Type 0 where
  pub some_bytes : 0 < q.msg_size
  pub some_room : 0 < q.capacity
  pub fits : q.capacity * q.msg_size ≤ word
  pub short : q.capacity < word
  pub tail_in : q.tail < q.capacity
  pub count_in : q.count ≤ q.capacity
  pub head_at : q.head ≡ (q.tail + q.count) % q.capacity

-- The messages in the queue, the next to be received first.
abbrev pub contents : MsgQueue → List (List ℕ)
contents q = window q.buffer q.msg_size q.capacity q.tail q.count

-- The message that a sender's pointer leads to.
abbrev pub message : MsgQueue → Bytes → List ℕ
message q msg = read 0 q.msg_size msg

slot_ptr-at :
    (q : MsgQueue) (i : ℕ) → IsValid q → i < q.capacity → queue_slot_ptr q i ≡ i * q.msg_size
unfolding queue_slot_ptr
slot_ptr-at q i v h =
    mod-eq_of_lt (omega (arith, slot-in_range i q.capacity q.msg_size h, v.some_bytes, v.fits))

module _ (q : MsgQueue) (v : IsValid q) where
  head_in : q.head < q.capacity
  head_in = rw (v.head_at) (mod-below q.capacity (q.tail + q.count) v.some_room)
    where
      mod-below : (c n : ℕ) → 0 < c → n % c < c
      mod-below c n h = omega arith

  step_wraps : (i : ℕ) → i < q.capacity → (i + 1) % word ≡ i + 1
  step_wraps i h = mod-eq_of_lt (omega (arith, v.short))

  count_wraps : q.count < q.capacity → (q.count + 1) % word ≡ suc q.count
  count_wraps h = mod-eq_of_lt {n = q.count + 1} (omega (arith, v.short)) ∙ omega arith

  -- The new states, with no wrap-around left.
  abbrev pushed_back : Bytes → MsgQueue
  pushed_back msg = record q {
    buffer = mem_copy q.msg_size (q.head * q.msg_size) 0 msg q.buffer;
    head = (q.head + 1) % q.capacity;
    count = suc q.count;
  }

  queue_push_back-eq :
      (msg : Bytes) → q.count < q.capacity → queue_push_back msg q ≡ pushed_back msg
  unfolding queue_push_back
  queue_push_back-eq msg room i = record q {
    buffer = mem_copy q.msg_size (slot_ptr-at q q.head v head_in i) 0 msg q.buffer;
    head = step_wraps q.head head_in i % q.capacity;
    count = count_wraps room i;
  }

  -- `queue_push_back` on a valid queue that is not full keeps it valid and appends the message.
  pub queue_push_back-append :
      (msg : Bytes)
      → q.count < q.capacity
      → IsValid (queue_push_back msg q)
        × (contents (queue_push_back msg q) ≡ contents q ++ (message q msg ∷ []))
  queue_push_back-append msg room =
      subst (λ (z : MsgQueue). IsValid z × (contents z ≡ contents q ++ (message q msg ∷ [])))
        (sym (queue_push_back-eq msg room))
        (
          record {
            some_bytes = v.some_bytes;
            some_room = v.some_room;
            fits = v.fits;
            short = v.short;
            tail_in = v.tail_in;
            count_in = room;
            head_at = moved;
          },
          window-stored_behind q.msg_size q.capacity q.buffer msg q.count q.tail q.head v.tail_in
              room v.head_at,
        )
    where
      moved : (q.head + 1) % q.capacity ≡ (q.tail + suc q.count) % q.capacity
      moved =
          ap (λ (k : ℕ). (k + 1) % q.capacity) v.head_at
          ∙ mod-add-mod (q.tail + q.count) q.capacity 1
          ∙ ap (λ (k : ℕ). k % q.capacity) (omega arith)

  abbrev popped : MsgQueue
  popped = record q { tail = (q.tail + 1) % q.capacity; count = q.count - 1 }

  queue_pop-eq : (out : Bytes) → 0 < q.count → (queue_pop out q).1 ≡ popped
  unfolding queue_pop
  queue_pop-eq out some_in i = record q {
    tail = step_wraps q.tail v.tail_in i % q.capacity;
    count = fewer i;
  }
    where
      fewer : (q.count + word - 1) % word ≡ q.count - 1
      fewer = omega (arith, v.count_in, v.short)

  -- `queue_pop` on a valid queue that is not empty keeps it valid, hands out the first message and
  -- leaves the others.
  pub queue_pop-cons :
      (out : Bytes)
      → 0 < q.count
      → let (msg, q') = queue_pop out q in IsValid q' × (contents q ≡ message q msg ∷ contents q')
  queue_pop-cons out some_in =
      subst
        (λ (z : MsgQueue). IsValid z × (contents q ≡ message q ((queue_pop out q).0) ∷ contents z))
        (sym (queue_pop-eq out some_in))
        (
          record {
            some_bytes = v.some_bytes;
            some_room = v.some_room;
            fits = v.fits;
            short = v.short;
            tail_in = omega (arith, v.some_room);
            count_in = omega (arith, v.count_in);
            head_at = moved;
          },
          window_of_pos q.buffer q.msg_size q.capacity q.tail q.count some_in
              ∙ ap (λ (m : List ℕ). m ∷ contents popped) copied,
        )
    where
      copied : slot q.buffer q.msg_size q.tail ≡ message q ((queue_pop out q).0)
      copied =
          unfold queue_pop queue_front in
          ap (λ (o : ℕ). read o q.msg_size q.buffer) (sym (slot_ptr-at q q.tail v v.tail_in))
          ∙ sym (read-mem_copy q.msg_size 0 (queue_slot_ptr q q.tail) q.buffer out)

      moved : q.head ≡ ((q.tail + 1) % q.capacity + (q.count - 1)) % q.capacity
      moved =
          v.head_at
          ∙ ap (λ (k : ℕ). k % q.capacity) (omega arith)
          ∙ sym (mod-add-mod (q.tail + 1) q.capacity (q.count - 1))

  -- The slot before the first message.
  abbrev before_tail : ℕ
  before_tail = if q.tail == 0 then q.capacity - 1 else q.tail - 1

  before_tail-lt : before_tail < q.capacity
  before_tail-lt = ground (arith, v.some_room, v.tail_in)

  tail-after : q.tail ≡ (before_tail + 1) % q.capacity
  tail-after = elim (Bool-cases (q.tail == 0)) [
    | inl e ↦ rw e (ground (arith, v.some_room, wraps q.capacity v.some_room))
    | inr e ↦ rw e (sym (ap (λ (k : ℕ). k % q.capacity) (ground arith) ∙ mod-eq_of_lt v.tail_in))
  ]
    where
      wraps : (c : ℕ) → 0 < c → (c - 1 + 1) % c ≡ 0
      wraps c h = let e : c - 1 + 1 ≡ c = omega arith in rw e (mod_self c)

  abbrev pushed_front : Bytes → MsgQueue
  pushed_front msg = record q {
    tail = before_tail;
    buffer = mem_copy q.msg_size (before_tail * q.msg_size) 0 msg q.buffer;
    count = suc q.count;
  }

  queue_push_front-eq :
      (msg : Bytes) → q.count < q.capacity → queue_push_front msg q ≡ pushed_front msg
  unfolding queue_push_front
  queue_push_front-eq msg room i = record q {
    tail = before_tail;
    buffer = mem_copy q.msg_size (slot_ptr-at q before_tail v before_tail-lt i) 0 msg q.buffer;
    count = count_wraps room i;
  }

  -- `queue_push_front` on a valid queue that is not full keeps it valid and puts the message in front.
  pub queue_push_front-cons :
      (msg : Bytes)
      → q.count < q.capacity
      → IsValid (queue_push_front msg q)
        × (contents (queue_push_front msg q) ≡ message q msg ∷ contents q)
  queue_push_front-cons msg room =
      subst (λ (z : MsgQueue). IsValid z × (contents z ≡ message q msg ∷ contents q))
        (sym (queue_push_front-eq msg room))
        (
          record {
            some_bytes = v.some_bytes;
            some_room = v.some_room;
            fits = v.fits;
            short = v.short;
            tail_in = before_tail-lt;
            count_in = room;
            head_at = moved;
          },
          ap₂ ◌∷◌ (slot-stored_self q.msg_size q.capacity q.buffer msg before_tail) (
              ap (λ (t : ℕ). window (pushed_front msg).buffer q.msg_size q.capacity t q.count)
                (sym tail-after)
              ∙ window-stored_apart q.msg_size q.capacity q.buffer msg q.count 0 q.tail before_tail
                  before_tail-lt (omega (arith, room)) tail-after),
        )
    where
      moved : q.head ≡ (before_tail + suc q.count) % q.capacity
      moved =
          v.head_at
          ∙ ap (λ (t : ℕ). (t + q.count) % q.capacity) tail-after
          ∙ mod-add-mod (before_tail + 1) q.capacity q.count
          ∙ ap (λ (k : ℕ). k % q.capacity) (omega arith)
