-- ===== src/Sched/Tick/Waits.antt =====
-- A tick leaves what a task waits for alone, until its wait ends.
use helix_rt.Prelude.{
  either, ℕ, zero, suc, ◌+◌, ◌-◌, ◌%◌, Ptr, Bool, subst, ◌≡◌, refl, sym, ap, ◌∙◌, inl, inr, true,
  false, none, some, ltb, ◌==◌, eq_of_==, if◌then◌else◌, Bool-cases,
}
use helix_rt.Config.{word, time_slice_ticks}
use helix_rt.Task.{Tcb, Tcbs, put, set_prev}
use helix_rt.Bitmap.{bitmap_find_highest}
use helix_rt.Sched.{Sched, update_tcb, when_some, scheduler_trigger_switch}
use helix_rt.Sched.Links.{ready_insert_tail, append_ready, clear_links}
use helix_rt.Sched.Ready.{scheduler_yield, yield_current, rotate, rotate_before}
use helix_rt.Sched.Block.{release}
use helix_rt.Sched.Tick.Ranks.{expire_task-SameRanks}
use helix_rt.Sched.Tick.{
  expires, expiry_result, expire_task, expire_waits, charge_slice, preempt_current, scheduler_tick,
}
use helix_rt.Sched.Walk.{data_of, append_ready-data, release-data}

-- A control block without its links and its time slice.
abbrev pub wait_of : Tcb → Tcb
wait_of b = record b { next = none; prev = none; time_slice = 0 }

abbrev pub SameWait : Sched → Sched → ℕ → Type 0
SameWait s u a = wait_of (u.tasks a) ≡ wait_of (s.tasks a)

wait_of_data : (b c : Tcb) → data_of b ≡ data_of c → wait_of b ≡ wait_of c
wait_of_data b c e = ap (λ (x : Tcb). record x { time_slice = 0 }) e

put-wait :
    (tasks : Tcbs) (x a : ℕ) (b : Tcb)
    → wait_of b ≡ wait_of (tasks x)
    → wait_of (put tasks x b a) ≡ wait_of (tasks a)
put-wait tasks x a b h = elim (Bool-cases (a == x)) [
  | inl e ↦ rw e (h ∙ ap (λ (c : ℕ). wait_of (tasks c)) (sym (eq_of_== a x e)))
  | inr e ↦ rw e refl
]

module _ (a : ℕ) where
  ready_insert_tail-SameWait : (t : ℕ) (s : Sched) → SameWait s (ready_insert_tail t s) a
  unfolding ready_insert_tail
  ready_insert_tail-SameWait t s =
      let s1 : Sched = record s { tasks = clear_links t s.tasks } in
      let prio : ℕ = (s.tasks t).priority in
      wait_of_data ((append_ready (s.ready_list prio) t prio s1).tasks a) (s1.tasks a)
        (append_ready-data (s.ready_list prio) t prio a s1)
      ∙ put-wait s.tasks t a _ refl

  rotate_before-SameWait :
      (next : Ptr) (head c prio : ℕ) (s : Sched) → SameWait s (rotate_before next head c prio s) a
  unfolding rotate_before
  rotate_before-SameWait none head c prio s = refl
  rotate_before-SameWait (some second) head c prio s =
      let s1 : Sched = record s {
        ready_list = put s.ready_list prio (some second);
        tasks = clear_links head (set_prev second none s.tasks);
      } in
      either (λ (z : Sched). SameWait s z a) (ready_insert_tail head s1) s (head == c)
        (ready_insert_tail-SameWait head s1
          ∙ put-wait (set_prev second none s.tasks) head a _ refl
          ∙ put-wait s.tasks second a _ refl)
        refl

  rotate-SameWait : (o : Ptr) (c prio : ℕ) (s : Sched) → SameWait s (rotate o c prio s) a
  unfolding rotate
  rotate-SameWait none c prio s = refl
  rotate-SameWait (some head) c prio s = rotate_before-SameWait (s.tasks head).next head c prio s

  pub yield-SameWait : (s : Sched) → SameWait s (scheduler_yield s) a
  unfolding scheduler_yield
  yield-SameWait s = go s.current_task (record s { primask = 1 })
    where
      go : (o : Ptr) (u : Sched) → SameWait u (when_some o yield_current u) a
      go none u = refl
      go (some c) u =
          let prio : ℕ = (u.tasks c).priority in
          unfold yield_current scheduler_trigger_switch in
          either (λ (z : Sched). SameWait u z a) (record u { reschedule_pending = true })
            (record (rotate (u.ready_list prio) c prio u) { pend_sv = true }) (ltb 0 u.lock_count)
            refl (rotate-SameWait (u.ready_list prio) c prio u)

  charge_slice-SameWait : (c : ℕ) (s : Sched) → SameWait s (charge_slice c s) a
  unfolding charge_slice
  charge_slice-SameWait c s =
      let less : Sched = update_tcb c (λ b. record b { time_slice = b.time_slice - 1 }) s in
      let s1 : Sched = if ltb 0 (s.tasks c).time_slice then less else s in
      let full : Sched = update_tcb c (λ b. record b { time_slice = time_slice_ticks }) s1 in
      let h1 : SameWait s s1 a =
        either (λ (z : Sched). SameWait s z a) less s (ltb 0 (s.tasks c).time_slice)
          (put-wait s.tasks c a _ refl) refl in
      either (λ (z : Sched). SameWait s z a) (scheduler_yield full) s1
        ((s1.tasks c).time_slice == 0) (yield-SameWait full ∙ put-wait s1.tasks c a _ refl ∙ h1) h1

  preempt_current-SameWait : (c : ℕ) (s : Sched) → SameWait s (preempt_current c s) a
  unfolding preempt_current scheduler_trigger_switch
  preempt_current-SameWait c s =
      either (λ (z : Sched). SameWait s z a) (record s { pend_sv = true }) s
        (ltb (bitmap_find_highest s.priority_bitmap) (s.tasks c).priority) refl refl

  when_some-SameWait :
      (o : Ptr) (f : ℕ → Sched → Sched) (s : Sched)
      → ((c : ℕ) → SameWait s (f c s) a)
      → SameWait s (when_some o f s) a
  when_some-SameWait none f s h = refl
  when_some-SameWait (some c) f s h = h c

  -- The loop over the blocked list skips the task.
  expire_task-data :
      (t : ℕ) (s : Sched)
      → expires s.tick_count (s.tasks a) ≡ false
      → data_of ((expire_task t s).tasks a) ≡ data_of (s.tasks a)
  unfolding expire_task
  expire_task-data t s later = elim (Bool-cases (expires s.tick_count (s.tasks t))) [
    | inl e ↦
        subst (λ (b : Bool). Unmoved (if b then released else s)) (sym e)
          (release-data t a (expiry_result (s.tasks t)) s (apart e))
    | inr e ↦ subst (λ (b : Bool). Unmoved (if b then released else s)) (sym e) refl
  ]
    where
      released : Sched
      released = release t (expiry_result (s.tasks t)) s

      Unmoved : Sched → Type 0
      Unmoved z = data_of (z.tasks a) ≡ data_of (s.tasks a)

      apart : expires s.tick_count (s.tasks t) ≡ true → (a == t) ≡ false
      apart e = elim (Bool-cases (a == t)) [
        | inl k ↦
            let same : expires s.tick_count (s.tasks a) ≡ expires s.tick_count (s.tasks t) =
              ap (λ (x : ℕ). expires s.tick_count (s.tasks x)) (eq_of_== a t k) in
            cc
        | inr k ↦ k
      ]

  expires-data :
      (s u : Sched)
      → u.tick_count ≡ s.tick_count
      → data_of (u.tasks a) ≡ data_of (s.tasks a)
      → expires s.tick_count (s.tasks a) ≡ false
      → expires u.tick_count (u.tasks a) ≡ false
  unfolding expires
  expires-data s u clock same later =
      ap (λ (b : Tcb). expires u.tick_count b) same
      ∙ ap (λ (n : ℕ). expires n (s.tasks a)) clock
      ∙ later

  expire_waits-data :
      (fuel : ℕ) (iter : Ptr) (s : Sched)
      → expires s.tick_count (s.tasks a) ≡ false
      → data_of ((expire_waits fuel iter s).tasks a) ≡ data_of (s.tasks a)
  unfolding expire_waits
  expire_waits-data zero iter s later = refl
  expire_waits-data (suc fuel) none s later = refl
  expire_waits-data (suc fuel) (some t) s later =
      let same = expire_task-data t s later in
      expire_waits-data fuel (s.tasks t).next (expire_task t s)
        (expires-data s (expire_task t s) (expire_task-SameRanks t s).clock same later)
      ∙ same

  -- A task whose wait the tick does not end keeps its wait.
  pub scheduler_tick-SameWait :
      (s : Sched)
      → expires ((s.tick_count + 1) % word) (s.tasks a) ≡ false
      → SameWait s (scheduler_tick s) a
  unfolding scheduler_tick
  scheduler_tick-SameWait s later =
      let s2 : Sched = record s { primask = 1; tick_count = (s.tick_count + 1) % word } in
      let s3 : Sched = expire_waits word s2.blocked_head s2 in
      let s4 : Sched = when_some s3.current_task charge_slice s3 in
      when_some-SameWait s4.current_task preempt_current s4 (λ c. preempt_current-SameWait c s4)
      ∙ when_some-SameWait s3.current_task charge_slice s3 (λ c. charge_slice-SameWait c s3)
      ∙ wait_of_data (s3.tasks a) (s2.tasks a) (expire_waits-data word s2.blocked_head s2 later)
