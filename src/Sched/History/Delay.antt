-- ===== src/Sched/History/Delay.antt =====
-- A task that delays itself is ready again after as many ticks as it asked for, and not before.
use helix_rt.Prelude.{
  ℕ, zero, suc, ◌+◌, ◌-◌, ◌%◌, ◌<◌, ◌≤◌, ◌≡◌, refl, ap, subst, ◌∙◌, true, false, none, some, arith,
}
use helix_rt.Config.{word, uint32_max}
use helix_rt.Task.{Tcb, Tcbs, block_delay, put}
use helix_rt.Sched.{Sched, update_tcb, scheduler_trigger_switch}
use helix_rt.Sched.Links.{blocked_insert}
use helix_rt.Sched.Ranks.{SameRanks, SameRanks-InRange}
use helix_rt.Sched.Ranks.Entry.{block_self-SameRanks, scheduler_remove_task-SameRanks}
use helix_rt.Sched.Block.Laws.{block_self-tcb}
use helix_rt.Sched.Ready.{scheduler_remove_task, pendsv_handler, scheduler_select_next_task}
use helix_rt.Sched.Block.{block_self, blocked_tcb, wake_tick_for}
use helix_rt.Sched.Tick.{scheduler_tick, expires}
use helix_rt.Sched.Tick.Ranks.{scheduler_tick-SameRanks}
use helix_rt.Sched.Tick.Waits.{wait_of, scheduler_tick-SameWait}
use helix_rt.Sched.History.{Place, Places, waiting, ready_at, waken}
use helix_rt.Sched.History.Calls.{block-Tracks, Tracks-priority}
use helix_rt.Sched.History.Laws.{Related, tick-Related, switch-Related}

-- SysTick, with the switch that follows it, `n` times.
unfoldable pub ticks : ℕ → Sched → Sched
unfolding scheduler_tick pendsv_handler
ticks zero s = s
ticks (suc n) s = ticks n (pendsv_handler (scheduler_tick s))

-- The task `t` waits for the tick `wake`, with `n` ticks to go.
pub record Delayed (t wake n : ℕ) (s : Sched) : Type 0 where
  pub reason : (s.tasks t).block_reason ≡ block_delay
  pub wake_tick : (s.tasks t).wake_tick ≡ wake
  pub left : s.tick_count + n ≡ wake
  pub no_wrap : wake < word

pub put_self : (f : Places) (t : ℕ) (x : Place) → put f t x t ≡ x
put_self f t x = ground arith

module _ (t wake : ℕ) where
  expires_later :
      (n : ℕ) (s : Sched)
      → Delayed t wake n s
      → 2 ≤ n
      → expires ((s.tick_count + 1) % word) (s.tasks t) ≡ false
  unfolding expires
  expires_later n s d more = ground (arith, d.reason, d.wake_tick, d.left, d.no_wrap)

  expires_now :
      (s : Sched) → Delayed t wake 1 s → expires ((s.tick_count + 1) % word) (s.tasks t) ≡ true
  unfolding expires
  expires_now s d = ground (arith, d.reason, d.wake_tick, d.left, d.no_wrap)

  -- A tick and a switch.
  abbrev after_tick : Sched → Sched
  after_tick s = pendsv_handler (scheduler_tick s)

  abbrev woken_places : Sched → Places → Places
  woken_places s f = waken (expires ((s.tick_count + 1) % word)) s.tasks f

  round-Related : (s : Sched) (f : Places) → Related s f → Related (after_tick s) (woken_places s f)
  round-Related s f (in_range, (order, asleep, v, h)) =
      let (in_range1, (order1, asleep1, v1, h1)) = tick-Related s f in_range order asleep v h in
      switch-Related (scheduler_tick s) (woken_places s f) in_range1 order1 asleep1 v1 h1

  stays :
      (s : Sched) (f : Places)
      → f t ≡ waiting
      → expires ((s.tick_count + 1) % word) (s.tasks t) ≡ false
      → woken_places s f t ≡ waiting
  unfolding waken
  stays s f e later = rw (e, later) refl

  goes :
      (s : Sched) (f : Places)
      → f t ≡ waiting
      → expires ((s.tick_count + 1) % word) (s.tasks t) ≡ true
      → woken_places s f t ≡ ready_at (s.tasks t).priority
  unfolding waken
  goes s f e now = rw (e, now) refl

  round-wait :
      (s : Sched)
      → expires ((s.tick_count + 1) % word) (s.tasks t) ≡ false
      → wait_of ((after_tick s).tasks t) ≡ wait_of (s.tasks t)
  unfolding pendsv_handler scheduler_select_next_task
  round-wait s later = scheduler_tick-SameWait t s later

  round-clock : (s : Sched) → (after_tick s).tick_count ≡ (s.tick_count + 1) % word
  unfolding pendsv_handler scheduler_select_next_task
  round-clock s = (scheduler_tick-SameRanks s).clock

  round-Delayed :
      (n : ℕ) (s : Sched) → Delayed t wake n s → 2 ≤ n → Delayed t wake (n - 1) (after_tick s)
  round-Delayed n s d more =
      let same = round-wait s (expires_later n s d more) in
      record {
        reason = ap (λ (b : Tcb). b.block_reason) same ∙ d.reason;
        wake_tick = ap (λ (b : Tcb). b.wake_tick) same ∙ d.wake_tick;
        left = omega (arith, round-clock s, d.left, d.no_wrap);
        no_wrap = d.no_wrap;
      }

  -- The ticks before the last, and all of them.
  pub ticks-waiting :
      (k n : ℕ) (s : Sched) (f : Places)
      → k < n
      → Related s f
      → f t ≡ waiting
      → Delayed t wake n s
      → (g : Places) × Related (ticks k s) g × (g t ≡ waiting)
  unfolding ticks
  ticks-waiting zero n s f less r e d = (f, r, e)
  ticks-waiting (suc k) n s f less r e d =
      let more : 2 ≤ n = omega arith in
      ticks-waiting k (n - 1) (after_tick s) (woken_places s f) (omega arith) (round-Related s f r)
        (stays s f e (expires_later n s d more)) (round-Delayed n s d more)

  pub ticks-ready :
      (n : ℕ) (s : Sched) (f : Places)
      → Related s f
      → f t ≡ waiting
      → Delayed t wake (suc n) s
      → (g : Places) × Related (ticks (suc n) s) g × (g t ≡ ready_at (s.tasks t).priority)
  unfolding ticks
  ticks-ready zero s f r e d = (woken_places s f, round-Related s f r, goes s f e (expires_now s d))
  ticks-ready (suc n) s f r e d =
      let more : 2 ≤ suc (suc n) = omega arith in
      let later = expires_later (suc (suc n)) s d more in
      let (g, r1, e1) =
        ticks-ready n (after_tick s) (woken_places s f) (round-Related s f r) (stays s f e later) (
          subst (λ (m : ℕ). Delayed t wake m (after_tick s)) (omega arith)
            (round-Delayed (suc (suc n)) s d more)) in
      (g, r1, e1 ∙ ap (λ (b : Tcb). ready_at b.priority) (round-wait s later))

blocked_insert-wake_tick :
    (t : ℕ) (s : Sched) → ((blocked_insert t s).tasks t).wake_tick ≡ (s.tasks t).wake_tick
unfolding blocked_insert
blocked_insert-wake_tick t s = ground arith

put_tcb : (tasks : Tcbs) (t : ℕ) (b : Tcb) → (put tasks t b t).wake_tick ≡ b.wake_tick
put_tcb tasks t b = ground arith

block_self-wake_tick :
    (s : Sched) (t d : ℕ)
    → ((block_self block_delay none d t s).tasks t).wake_tick ≡ wake_tick_for s.tick_count d
unfolding block_self blocked_tcb scheduler_trigger_switch
block_self-wake_tick s t d =
    let gone : Sched = scheduler_remove_task (some t) (record s { primask = 1 }) in
    let change : Tcb → Tcb = blocked_tcb block_delay none d gone.tick_count in
    blocked_insert-wake_tick t (update_tcb t change gone)
    ∙ put_tcb gone.tasks t (change (gone.tasks t))
    ∙ ap (λ (n : ℕ). wake_tick_for n d)
        (scheduler_remove_task-SameRanks t (record s { primask = 1 })).clock

wake_tick_for_lem :
    (now d : ℕ) → 0 < d → d < uint32_max → now + d < word → wake_tick_for now d ≡ now + d
unfolding wake_tick_for
wake_tick_for_lem now d some_ticks finite no_wrap = ground arith

-- The control block of a task that delays itself.
pub block_self-Delayed :
    (s : Sched) (t d : ℕ)
    → 0 < d
    → d < uint32_max
    → s.tick_count + d < word
    → Delayed t (s.tick_count + d) d (block_self block_delay none d t s)
block_self-Delayed s t d some_ticks finite no_wrap = record {
  reason = (block_self-tcb block_delay none d t s).1;
  wake_tick =
      block_self-wake_tick s t d ∙ wake_tick_for_lem s.tick_count d some_ticks finite no_wrap;
  left = ap (λ (n : ℕ). n + d) (block_self-SameRanks block_delay none d t s).clock;
  no_wrap = no_wrap;
}

-- If a task on the ready list of `p` blocks itself for a delay of `d` ticks, with 0 < d < 2 ^ 32 - 1,
-- and the tick count does not wrap round meanwhile: it is on the blocked list after any fewer ticks,
-- each with a switch behind it, and after `d` it is on the ready list of `p` again.
pub delay-ends :
    (s : Sched) (f : Places) (t p d k : ℕ)
    → Related s f
    → f t ≡ ready_at p
    → 0 < d
    → d < uint32_max
    → s.tick_count + d < word
    → k < d
    → let s1 = block_self block_delay none d t s in
      ((g : Places) × Related (ticks k s1) g × (g t ≡ waiting))
      × ((g : Places) × Related (ticks d s1) g × (g t ≡ ready_at p))
delay-ends s f t p zero k r e some_ticks finite no_wrap less = absurd (omega arith)
delay-ends s f t p (suc n) k (in_range, (order, asleep, v, h)) e some_ticks finite no_wrap less =
    let s1 : Sched = block_self block_delay none (suc n) t s in
    let ranks : SameRanks s s1 = block_self-SameRanks block_delay none (suc n) t s in
    let r1 : Related s1 (put f t waiting) = (
      SameRanks-InRange s s1 ranks in_range,
      block-Tracks s order asleep f v h t block_delay none (suc n) p e,
    ) in
    let at : put f t waiting t ≡ waiting = put_self f t waiting in
    let d : Delayed t (s.tick_count + suc n) (suc n) s1 =
      block_self-Delayed s t (suc n) some_ticks finite no_wrap in
    let (g, r2, e2) = ticks-ready t (s.tick_count + suc n) n s1 (put f t waiting) r1 at d in
    let (own, _) = Tracks-priority s f t p (order, asleep, v, h) e in
    (
      ticks-waiting t (s.tick_count + suc n) k (suc n) s1 (put f t waiting) less r1 at d,
      (g, r2, e2 ∙ ap ready_at (ranks.ranks t ∙ own)),
    )
