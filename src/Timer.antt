-- ===== src/Timer.antt =====
-- kernel/timer.c. The singly linked list of active timers lies in a store of timer blocks; a callback
-- is a function that may itself change the timers, and is a parameter of the tick.
pub mod List
pub mod Laws
pub mod Tick
use helix_rt.Prelude.{ℕ, zero, suc, ◌-◌, Ptr, ◌||◌, none, some, ltb, ◌==◌, is_null, if◌then◌else◌}
use helix_rt.Config.{word}
use helix_rt.Task.{Code, ok, err_param, put}

pub record SwTimer : Type 0 where
  pub period_ticks : ℕ
  pub remaining_ticks : ℕ
  pub callback : Ptr
  pub arg : Ptr
  pub periodic : ℕ
  pub active : ℕ
  pub next : Ptr

pub record Timers : Type 0 where
  pub timers : ℕ → SwTimer
  pub timer_list : Ptr

abbrev pub update_timer : ℕ → (SwTimer → SwTimer) → Timers → Timers
update_timer t f s = record s { timers = put s.timers t (f (s.timers t)) }

-- Unlinking `t`, whose predecessor is `prev`.
unfoldable pub timer_unlink : Ptr → ℕ → Timers → Timers
timer_unlink none t s =
    update_timer t (λ b. record b { next = none; active = 0 })
      (record s { timer_list = (s.timers t).next })
timer_unlink (some p) t s =
    update_timer t (λ b. record b { next = none; active = 0 })
      (update_timer p (λ b. record b { next = (s.timers t).next }) s)

-- The loop of `timer_list_remove`, on fuel.
unfoldable pub remove_from : ℕ → Ptr → Ptr → ℕ → Timers → Timers
unfolding timer_unlink
remove_from zero prev iter timer s = s
remove_from (suc fuel) prev iter timer s = elim iter [
  | none ↦ s
  | some i ↦
      let rest = remove_from fuel (some i) (s.timers i).next timer s in
      if i == timer then timer_unlink prev i s else rest
]

unfoldable pub timer_list_remove : ℕ → Timers → Timers
unfolding remove_from
timer_list_remove timer s = remove_from word none s.timer_list timer s

unfoldable pub timer_list_add : ℕ → Timers → Timers
timer_list_add timer s =
    record (update_timer timer (λ b. record b { next = s.timer_list; active = 1 }) s) {
      timer_list = some timer;
    }

unfoldable pub timer_create : Ptr → Ptr → Ptr → Timers → Code × Timers
timer_create none cb arg s = (err_param, s)
timer_create (some timer) none arg s = (err_param, s)
timer_create (some timer) (some cb) arg s = (
  ok,
  update_timer timer
      (λ b. record {
        period_ticks = 0;
        remaining_ticks = 0;
        callback = some cb;
        arg = arg;
        periodic = 0;
        active = 0;
        next = none;
      })
      s,
)

-- `if (timer->active) timer_list_remove(timer);`
abbrev pub remove_if_active : ℕ → Timers → Timers
remove_if_active timer s = if (s.timers timer).active == 0 then s else timer_list_remove timer s

unfoldable pub timer_start : Ptr → ℕ → ℕ → Timers → Code × Timers
unfolding timer_list_remove timer_list_add
timer_start none period_ticks periodic s = (err_param, s)
timer_start (some timer) period_ticks periodic s =
    if is_null (s.timers timer).callback || period_ticks == 0 then (err_param, s) else (
      ok,
      timer_list_add timer (
          update_timer timer
            (λ b. record b {
              period_ticks = period_ticks;
              remaining_ticks = period_ticks;
              periodic = (if periodic == 0 then 0 else 1);
            })
            (remove_if_active timer s)),
    )

unfoldable pub timer_stop : Ptr → Timers → Code × Timers
unfolding timer_list_remove
timer_stop none s = (err_param, s)
timer_stop (some timer) s = (ok, remove_if_active timer s)

unfoldable pub timer_is_active : Ptr → Timers → ℕ
timer_is_active none s = 0
timer_is_active (some timer) s = if (s.timers timer).active == 0 then 0 else 1

-- A callback, by its address and its argument.
abbrev pub Callbacks : Type 0
Callbacks = Ptr → Ptr → Timers → Timers

-- One timer's countdown, and what it does at zero.
unfoldable pub count_down : ℕ → Timers → Timers
count_down t s =
    if ltb 0 (s.timers t).remaining_ticks
    then update_timer t (λ b. record b { remaining_ticks = b.remaining_ticks - 1 }) s
    else s

unfoldable pub expire_timer : Callbacks → ℕ → Timers → Timers
unfolding timer_list_remove
expire_timer run t s =
    let cb = (s.timers t).callback in
    let arg = (s.timers t).arg in
    let s1 =
      if (s.timers t).periodic == 0
      then timer_list_remove t s
      else update_timer t (λ b. record b { remaining_ticks = b.period_ticks }) s in
    run cb arg s1

unfoldable pub tick_timer : Callbacks → ℕ → Timers → Timers
unfolding count_down expire_timer
tick_timer run t s =
    let s1 = count_down t s in
    if (s1.timers t).remaining_ticks == 0 then expire_timer run t s1 else s1

-- The loop of `timer_tick_isr`, on fuel. The successor is read before the timer is handled.
unfoldable pub tick_timers : Callbacks → ℕ → Ptr → Timers → Timers
tick_timers run zero iter s = s
tick_timers run (suc fuel) iter s = elim iter [
  | none ↦ s
  | some t ↦ let next = (s.timers t).next in tick_timers run fuel next (tick_timer run t s)
]

unfoldable pub timer_tick_isr : Callbacks → Timers → Timers
unfolding tick_timers
timer_tick_isr run s = tick_timers run word s.timer_list s
