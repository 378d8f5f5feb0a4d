-- ===== src/Sync/Event/Laws.antt =====
-- kernel/sync/event.c: which flags a wait returns, and which it clears.
use helix_rt.Prelude.{
  ℕ, ◌≡◌, ◌≢◌, refl, sym, ap, subst, ◌∙◌, ◌⊎◌, inl, inr, Bool, true, false, Option, none, some,
  List, if◌then◌else◌, Bool-cases, arith, ◌==◌, bit_and,
}
use helix_rt.Config.{timeout_none}
use helix_rt.Task.{Code, ok, block_event}
use helix_rt.Sched.{critical_enter, critical_exit, is_isr_context, update_tcb}
use helix_rt.Sched.Ready.{scheduler_get_current}
use helix_rt.Sched.Block.{World, on_kernel, Env}
use helix_rt.Sync.Wait.{returned, Waiter, wait_loop}
use helix_rt.Sync.Wait.Waits.{Waits, FailsQuietly, Ended-Returns, wait_loop-Ended}
use helix_rt.Sync.Event.{
  EventGroup, clear_on_exit_bit, without_bits, event_match, event_try, event_waiter, set_event_wait,
  event_wait_from, event_wait,
}

-- What a round returns: the wanted flags that are set, all of them under `wait_all`; they are cleared
-- where that was asked for.
pub record Matched (bits wait_all clear_on_exit r : ℕ) (before after : EventGroup) : Type 0 where
  pub result : r ≡ bit_and before.flags bits
  pub enough : ((wait_all ≡ 0) × (r ≢ 0)) ⊎ ((wait_all ≢ 0) × (r ≡ bits))
  pub flags_after :
      after.flags ≡ (if clear_on_exit == 0 then before.flags else without_bits before.flags r)

match-enough :
    (flags bits wait_all : ℕ)
    → event_match flags bits wait_all ≡ true
    → ((wait_all ≡ 0) × (bit_and flags bits ≢ 0)) ⊎ ((wait_all ≢ 0) × (bit_and flags bits ≡ bits))
unfolding event_match
match-enough flags bits wait_all h = elim (Bool-cases (wait_all == 0)) [
  | inl e ↦ inl (ground arith, λ z. ground (arith, rw (e, z) at h))
  | inr e ↦ inr (ground arith, ground (arith, rw e at h))
]

some-inj : (a b : ℕ) → some a ≡ some b → a ≡ b
some-inj a b h = cc

event_try-Matched :
    (bits wait_all clear_on_exit r : ℕ) (w0 w1 : World EventGroup)
    → event_try bits wait_all clear_on_exit w0 ≡ (some r, w1)
    → Matched bits wait_all clear_on_exit r w0.object w1.object
unfolding event_try critical_enter critical_exit
event_try-Matched bits wait_all clear_on_exit r w0 w1 h =
    elim (Bool-cases (event_match w0.object.flags bits wait_all)) [
      | inl e ↦ matched e (rw e at h)
      | inr e ↦ cc (ap (λ (q : Option ℕ × World EventGroup). q.0) (rw e at h))
    ]
  where
    left : World EventGroup
    left = if clear_on_exit == 0 then w0 else record w0 {
      object = record { flags = without_bits w0.object.flags (bit_and w0.object.flags bits) };
    }

    flags_left : left.object.flags ≡ (
        if clear_on_exit == 0
        then w0.object.flags
        else without_bits w0.object.flags (bit_and w0.object.flags bits))
    flags_left = elim (Bool-cases (clear_on_exit == 0)) [ inl e ↦ rw e refl | inr e ↦ rw e refl ]

    matched :
        event_match w0.object.flags bits wait_all ≡ true
        → ◌≡◌ {A = Option ℕ × World EventGroup}
            (some (bit_and w0.object.flags bits), left)
            (some r, w1)
        → Matched bits wait_all clear_on_exit r w0.object w1.object
    matched e g =
        let same : bit_and w0.object.flags bits ≡ r =
          some-inj (bit_and w0.object.flags bits) r
            (ap (λ (q : Option ℕ × World EventGroup). q.0) g) in
        record {
          result = sym same;
          enough =
              subst (λ (k : ℕ). ((wait_all ≡ 0) × (k ≢ 0)) ⊎ ((wait_all ≢ 0) × (k ≡ bits))) same
                (match-enough w0.object.flags bits wait_all e);
          flags_after =
              ap (λ (q : Option ℕ × World EventGroup). q.1.object.flags) (sym g)
              ∙ flags_left
              ∙ ap
                  (λ (k : ℕ).
                    if clear_on_exit == 0 then w0.object.flags else without_bits w0.object.flags k)
                  same;
        }

-- The flags do not match.
abbrev pub Unmatched : ℕ → ℕ → World EventGroup → Type 0
Unmatched bits wait_all w = event_match w.object.flags bits wait_all ≡ false

-- The waits of an `event_wait` for `bits`: each at flags that do not match.
abbrev pub EventWaits :
    ℕ → ℕ → ℕ → ℕ → List (Env EventGroup) → World EventGroup → Code → World EventGroup → Type 0
EventWaits eg bits wait_all timeout =
    Waits block_event (some eg) timeout (λ w. w) (Unmatched bits wait_all)

event_try-FailsQuietly :
    (eg bits wait_all clear_on_exit timeout : ℕ)
    → FailsQuietly (event_waiter eg bits wait_all clear_on_exit timeout) (Unmatched bits wait_all)
unfolding event_try critical_enter critical_exit
event_try-FailsQuietly eg bits wait_all clear_on_exit timeout w w1 e =
    elim (Bool-cases (event_match w.object.flags bits wait_all)) [
      | inl p ↦ cc (ap (λ (q : Option ℕ × World EventGroup). q.0) (rw p at e))
      | inr p ↦ (sym (ap (λ (q : Option ℕ × World EventGroup). q.1) (rw p at e)), p)
    ]

-- An `event_wait` of the task `self` that returns a value other than 0 noted the wanted flags in the
-- task's control block, and has then waited, each time at flags that do not match, until it was woken
-- in a world `w0` whose flags do (the world after the note, if there was no wait). The value is the
-- wanted flags that are set in `w0`, which are all the wanted ones under `wait_all`; with
-- EVENT_CLEAR_ON_EXIT just these are cleared, and without it the flags stay.
pub event_wait-Matched :
    (eg bits wait_all timeout r self : ℕ) (envs : List (Env EventGroup)) (w w1 : World EventGroup)
    → w.kernel.current_task ≡ some self
    → event_wait (some eg) bits wait_all timeout envs w ≡ returned r w1
    → r ≢ 0
    → let wanted = without_bits bits clear_on_exit_bit in
      (w0 : World EventGroup) × EventWaits eg wanted wait_all timeout envs
        (on_kernel (update_tcb self (set_event_wait wanted wait_all)) w)
        ok
        w0
      × Matched wanted wait_all (bit_and bits clear_on_exit_bit) r w0.object w1.object
unfolding event_wait event_wait_from scheduler_get_current
event_wait-Matched eg bits wait_all timeout r self envs w w1 g h positive =
    elim (Bool-cases (bits == 0)) [
      | inl e ↦ absurd (positive (returned-zero w (rw e at h)))
      | inr e ↦ elim (Bool-cases (is_isr_context w.kernel)) [
        | inl f ↦ absurd (positive (returned-zero w (rw (e, f) at h)))
        | inr f ↦ waited (rw (e, f, g) at h)
      ]
    ]
  where
    wanted : ℕ
    wanted = without_bits bits clear_on_exit_bit

    returned-zero : (w2 : World EventGroup) → returned 0 w2 ≡ returned r w1 → r ≡ 0
    returned-zero w2 e = cc

    l : Waiter EventGroup ℕ
    l = event_waiter eg wanted wait_all (bit_and bits clear_on_exit_bit) timeout

    noted : World EventGroup
    noted = on_kernel (update_tcb self (set_event_wait wanted wait_all)) w

    refused : (b : Bool) → (if b then some 0 else none) ≡ some r → 0 ≡ r
    refused true e = some-inj 0 r e
    refused false e = cc

    waited :
        wait_loop l envs noted ≡ returned r w1
        → (w0 : World EventGroup) × EventWaits eg wanted wait_all timeout envs noted ok w0
          × Matched wanted wait_all (bit_and bits clear_on_exit_bit) r w0.object w1.object
    waited k =
        elim (Ended-Returns l (Unmatched wanted wait_all) envs noted (wait_loop l envs noted) r w1
          (wait_loop-Ended l (Unmatched wanted wait_all)
            (event_try-FailsQuietly eg wanted wait_all (bit_and bits clear_on_exit_bit) timeout)
            envs noted)
          k) [
            | inl (w0, waits, e) ↦ (w0, waits, event_try-Matched _ wait_all _ r w0 w1 e)
            | inr (inl f) ↦ absurd (positive (sym (refused (timeout == timeout_none) f)))
            | inr (inr (c, e, f)) ↦ absurd (positive (sym f))
          ]
