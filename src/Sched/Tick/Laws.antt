-- ===== src/Sched/Tick/Laws.antt =====
-- `scheduler_tick`: exactly the waits that have expired end, and the ready lists stay valid.
use helix_rt.Prelude.{
  either, ℕ, ◌+◌, ◌-◌, ◌%◌, Ptr, ◌≡◌, refl, sym, ap, subst, ◌∙◌, List, [], ◌∷◌, Bool, none, some,
  length-le, ◌==◌, if◌then◌else◌, ltb, arith,
}
use helix_rt.Config.{word, time_slice_ticks}
use helix_rt.Task.{Tcb, Tcbs, Code, put}
use helix_rt.Bitmap.{bitmap_find_highest}
use helix_rt.Sched.{Sched, update_tcb, when_some, scheduler_trigger_switch}
use helix_rt.Sched.Ready.{scheduler_yield}
use helix_rt.Sched.Ready.Yield.{HasReady, HasReady_lem, scheduler_yield-HasReady}
use helix_rt.Sched.Tick.{
  expires, expiry_result, expire_waits, charge_slice, preempt_current, scheduler_tick,
}
use helix_rt.Sched.Valid.{IsValid}
use helix_rt.Sched.Ranks.{InRange, SameRanks-InRange, release-SameRanks}
use helix_rt.Sched.Valid.Frame.{SameAt, Queue-frame, Waiting-frame}
use helix_rt.Sched.Block.{release}
use helix_rt.Sched.Walk.{data_of, head-eq_of_Chain, chosen, others, append_all, walk}
use helix_rt.Sched.Walk.Laws.{walk-IsValid, expire_waits-eq-walk}

-- A time slice is no part of the lists.
abbrev with_slice : ℕ → Tcb → Tcb
with_slice n b = record b { time_slice = n }

with_slice-SameAt :
    (tasks : Tcbs) (c n a : ℕ) → SameAt tasks (put tasks c (with_slice n (tasks c))) a
with_slice-SameAt tasks c n a = record {
  links = (ground arith, ground arith);
  priority = ground arith;
  state = ground arith;
}

module _ (queues : ℕ → List ℕ) (waiting : List ℕ) where
  slice-IsValid :
      (s : Sched) (c n : ℕ)
      → IsValid s queues waiting
      → IsValid (update_tcb c (with_slice n) s) queues waiting
  slice-IsValid s c n v = record {
    bitmap_word = v.bitmap_word;
    queue = λ p hp.
        Queue-frame s.tasks (put s.tasks c (with_slice n (s.tasks c))) s.priority_bitmap
          s.priority_bitmap (s.ready_list p) p (queues p) (λ a h. with_slice-SameAt s.tasks c n a)
          refl (v.queue p hp);
    wait_list =
        Waiting-frame s.tasks (put s.tasks c (with_slice n (s.tasks c))) s.blocked_head waiting
          (λ a h. with_slice-SameAt s.tasks c n a) v.wait_list;
  }

  slice-InRange : (s : Sched) (c n : ℕ) → InRange s → InRange (update_tcb c (with_slice n) s)
  slice-InRange s c n h a e = rw ((with_slice-SameAt s.tasks c n a).priority) (h a e)

  charge_slice-HasReady :
      (s : Sched) (c : ℕ)
      → IsValid s queues waiting
      → InRange s
      → HasReady queues waiting (charge_slice c s)
  unfolding charge_slice
  charge_slice-HasReady s c v h =
      let counted : Sched =
        if ltb 0 (s.tasks c).time_slice
        then update_tcb c (with_slice ((s.tasks c).time_slice - 1)) s
        else s in
      let v1 : IsValid counted queues waiting =
        either (λ (z : Sched). IsValid z queues waiting)
          (update_tcb c (with_slice ((s.tasks c).time_slice - 1)) s) s
          (ltb 0 (s.tasks c).time_slice) (slice-IsValid s c ((s.tasks c).time_slice - 1) v) v in
      let h1 : InRange counted =
        either InRange (update_tcb c (with_slice ((s.tasks c).time_slice - 1)) s) s
          (ltb 0 (s.tasks c).time_slice) (slice-InRange s c ((s.tasks c).time_slice - 1) h) h in
      let full : Sched = update_tcb c (with_slice time_slice_ticks) counted in
      either (HasReady queues waiting) (scheduler_yield full) counted
        ((counted.tasks c).time_slice == 0)
        (scheduler_yield-HasReady full queues waiting (slice-IsValid counted c time_slice_ticks v1)
          (slice-InRange counted c time_slice_ticks h1))
        (HasReady_lem counted queues waiting v1)

  slices-HasReady :
      (s : Sched)
      → IsValid s queues waiting
      → InRange s
      → HasReady queues waiting (when_some s.current_task charge_slice s)
  slices-HasReady s v h = go s.current_task
    where
      go : (o : Ptr) → HasReady queues waiting (when_some o charge_slice s)
      go none = HasReady_lem s queues waiting v
      go (some c) = charge_slice-HasReady s c v h

  preempt-HasReady :
      (s : Sched) (o : Ptr)
      → HasReady queues waiting s
      → HasReady queues waiting (when_some o preempt_current s)
  unfolding preempt_current
  preempt-HasReady s none h = h
  preempt-HasReady s (some c) h =
      either (HasReady queues waiting) (scheduler_trigger_switch s) s
        (ltb (bitmap_find_highest s.priority_bitmap) (s.tasks c).priority) h h

release-InRange : (t : ℕ) (result : Code) (s : Sched) → InRange s → InRange (release t result s)
release-InRange t result s = SameRanks-InRange s (release t result s) (release-SameRanks t result s)

walk-InRange :
    (select : Tcb → Bool) (result : Tcb → Code) (ts : List ℕ) (s : Sched)
    → InRange s
    → InRange (walk select result ts s)
walk-InRange select result [] s h = h
walk-InRange select result (t ∷ ts) s h =
    walk-InRange select result ts
      (if select (s.tasks t) then release t (result (s.tasks t)) s else s)
      (either InRange (release t (result (s.tasks t)) s) s (select (s.tasks t))
        (release-InRange t (result (s.tasks t)) s h) h)

expires_blind : (now : ℕ) (b : Tcb) → expires now (data_of b) ≡ expires now b
unfolding expires
expires_blind now b = refl

-- The tick's number.
abbrev pub next_tick : Sched → ℕ
next_tick s = (s.tick_count + 1) % word

module _ (s : Sched) (queues : ℕ → List ℕ) (waiting : List ℕ) (v : IsValid s queues waiting) where
  -- The ready lists with the expired tasks, in the order of the blocked list.
  abbrev pub due_queues : ℕ → List ℕ
  due_queues = append_all s.tasks (chosen (expires (next_tick s)) s.tasks waiting) queues

  abbrev counted : Sched
  counted = record s { primask = 1; tick_count = next_tick s }

  abbrev walked : Sched
  walked = walk (expires (next_tick s)) expiry_result waiting counted

  expired : expire_waits word s.blocked_head counted ≡ walked
  expired =
      ap (λ (p : Ptr). expire_waits word p counted)
        (head-eq_of_Chain s.tasks none s.blocked_head waiting v.wait_list.chain)
      ∙ expire_waits-eq-walk (next_tick s) word waiting [] queues counted refl
          (length-le word waiting v.wait_list.distinct λ a h. (v.wait_list.members a h).address) v

  -- On a valid scheduler whose current task has a priority below 32, `scheduler_tick` takes from the
  -- blocked list the tasks whose delay or timeout ends at the new tick count, and no others, and the
  -- ready lists then have these tasks beside their own, each on the list of its priority. The lists
  -- stay valid.
  pub scheduler_tick-HasReady :
      InRange s
      → HasReady due_queues (others (expires (next_tick s)) s.tasks waiting) (scheduler_tick s)
  unfolding scheduler_tick
  scheduler_tick-HasReady h =
      subst
        (λ (z : Sched).
          let s4 = when_some z.current_task charge_slice z in
          HasReady due_queues (others (expires (next_tick s)) s.tasks waiting)
            (record (when_some s4.current_task preempt_current s4) { primask = s.primask }))
        (sym expired)
        (preempt-HasReady due_queues (others (expires (next_tick s)) s.tasks waiting)
          (when_some walked.current_task charge_slice walked)
          ((when_some walked.current_task charge_slice walked).current_task)
          (slices-HasReady due_queues (others (expires (next_tick s)) s.tasks waiting) walked
            (walk-IsValid (expires (next_tick s)) expiry_result (expires_blind (next_tick s))
              s.tasks waiting [] queues counted (λ a k. refl) v)
            (walk-InRange (expires (next_tick s)) expiry_result waiting counted h)))
