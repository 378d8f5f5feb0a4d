-- ===== src/Sync/Event.antt =====
-- kernel/sync/event.c. Flags and bit masks are 32-bit words.
pub mod Laws
use helix_rt.Prelude.{
  ℕ, ◌+◌, ◌-◌, ◌^◌, Ptr, Bool, true, false, not, ◌&&◌, ◌||◌, Option, none, some, List, bit_and,
  bit_or, ◌==◌, is_null, if◌then◌else◌,
}
use helix_rt.Config.{word, timeout_none}
use helix_rt.Task.{Tcb, Code, ok, err_param, block_event}
use helix_rt.Sched.{Sched, critical_enter, critical_exit, is_isr_context, update_tcb}
use helix_rt.Sched.Ready.{scheduler_get_current}
use helix_rt.Sched.Block.{World, on_kernel, Env, scheduler_unblock_all}
use helix_rt.Sync.Wait.{Outcome, returned, Waiter, wait_loop}

pub record EventGroup : Type 0 where
  pub flags : ℕ

-- EVENT_CLEAR_ON_EXIT
abbrev pub clear_on_exit_bit : ℕ
clear_on_exit_bit = 2 ^ 31

-- `a & ~b`
abbrev pub without_bits : ℕ → ℕ → ℕ
without_bits a b = bit_and a (word - 1 - b)

unfoldable pub event_match : ℕ → ℕ → ℕ → Bool
event_match current bits wait_all =
    if wait_all == 0 then not (bit_and current bits == 0) else (bit_and current bits == bits)

unfoldable pub event_init : Ptr → EventGroup → Code × EventGroup
event_init none g = (err_param, g)
event_init (some eg) g = (ok, record { flags = 0 })

unfoldable pub event_set : Ptr → ℕ → World EventGroup → Code × World EventGroup
unfolding critical_enter critical_exit
event_set none bits w = (err_param, w)
event_set (some eg) bits w =
    let (irq_state, k) = critical_enter w.kernel in
    let (_, k1) = scheduler_unblock_all block_event (some eg) ok k in
    (
      ok,
      record {
        kernel = critical_exit irq_state k1;
        object = record { flags = bit_or w.object.flags bits };
      },
    )

unfoldable pub event_clear : Ptr → ℕ → EventGroup → Code × EventGroup
event_clear none bits g = (err_param, g)
event_clear (some eg) bits g = (ok, record { flags = without_bits g.flags bits })

unfoldable pub event_get : Ptr → EventGroup → ℕ
event_get none g = 0
event_get (some eg) g = g.flags

-- The critical section of `event_wait`, with the bits that it waits for and the flag to clear them.
unfoldable pub event_try : ℕ → ℕ → ℕ → World EventGroup → Option ℕ × World EventGroup
unfolding critical_enter critical_exit event_match
event_try bits wait_all clear_on_exit w =
    let (irq_state, k) = critical_enter w.kernel in
    let w1 : World EventGroup = record w { kernel = critical_exit irq_state k } in
    let matched = bit_and w.object.flags bits in
    if event_match w.object.flags bits wait_all
    then (
      some matched,
      (if clear_on_exit == 0
          then w1
          else record w1 { object = record { flags = without_bits w.object.flags matched } }),
    )
    else (none, w1)

abbrev pub event_waiter : ℕ → ℕ → ℕ → ℕ → ℕ → Waiter EventGroup ℕ
event_waiter eg bits wait_all clear_on_exit timeout = record {
  attempt = event_try bits wait_all clear_on_exit;
  give_up = λ w. if timeout == timeout_none then some 0 else none;
  prepare = λ w. w;
  fail = λ res. 0;
  reason = block_event;
  address = some eg;
  timeout = timeout;
}

-- The fields of the waiting task that `event_wait` sets.
abbrev pub set_event_wait : ℕ → ℕ → Tcb → Tcb
set_event_wait bits wait_all t = record t {
  event_wait_bits = bits;
  event_wait_all = (if wait_all == 0 then 0 else 1);
}

-- From the test of the calling context on.
unfoldable pub event_wait_from :
    ℕ → ℕ → ℕ → ℕ → List (Env EventGroup) → World EventGroup → Outcome EventGroup ℕ
unfolding is_isr_context scheduler_get_current wait_loop
event_wait_from eg bits wait_all timeout envs w =
    let clear_on_exit = bit_and bits clear_on_exit_bit in
    let bits' = without_bits bits clear_on_exit_bit in
    if is_isr_context w.kernel then returned 0 w else (elim (scheduler_get_current w.kernel) [
      | none ↦ returned 0 w
      | some self ↦
          wait_loop (event_waiter eg bits' wait_all clear_on_exit timeout) envs
            (on_kernel (update_tcb self (set_event_wait bits' wait_all)) w)
    ])

unfoldable pub event_wait :
    Ptr → ℕ → ℕ → ℕ → List (Env EventGroup) → World EventGroup → Outcome EventGroup ℕ
unfolding event_wait_from
event_wait none bits wait_all timeout envs w = returned 0 w
event_wait (some eg) bits wait_all timeout envs w =
    if bits == 0 then returned 0 w else event_wait_from eg bits wait_all timeout envs w
