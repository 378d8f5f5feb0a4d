-- ===== src/Tests/OnTimer.antt =====
-- The timers' theorems on two active timers, the one at 7 before the one at 5.
use helix_rt.Prelude.{◌≡◌, refl, none, some, [], ◌∷◌, remove, ◌==◌, if◌then◌else◌, arith}
use helix_rt.Task.{ok}
use helix_rt.Timer.{Timers, Callbacks, timer_start, timer_tick_isr}
use helix_rt.Timer.Tick.{survivors, readings, next_remaining}
use helix_rt.Timer.Tick.Walk.{timer_tick_isr-ticks}
use helix_rt.Timer.List.{IsTimers}
use helix_rt.Timer.Laws.{timer_start-IsTimers}

abbrev two_timers : Timers
two_timers = record {
  timers = λ a. record {
    period_ticks = 20;
    remaining_ticks = 4;
    callback = some 90;
    arg = none;
    periodic = 1;
    active = (if (a == 7) then 1 else (if a == 5 then 1 else 0));
    next = (if a == 7 then some 5 else none);
  };
  timer_list = some 7;
}

two_timers-IsTimers : IsTimers two_timers (7 ∷ 5 ∷ [])
two_timers-IsTimers = record {
  linked = (refl, (refl, refl));
  distinct = (refl, (refl, tt));
  small = λ a h. ground arith;
  listed = λ a. ground arith;
}

timer_start-IsTimers_example :
    (s' : Timers) × (timer_start (some 5) 10 0 two_timers ≡ (ok, s'))
    × IsTimers s' (5 ∷ remove 5 (7 ∷ 5 ∷ []))
    × ((s'.timers 5).remaining_ticks ≡ 10)
    × ((s'.timers 5).period_ticks ≡ 10)
    × ((s'.timers 5).periodic ≡ (if 0 == 0 then 0 else 1))
timer_start-IsTimers_example =
    timer_start-IsTimers two_timers (7 ∷ 5 ∷ []) 5 10 0 two_timers-IsTimers (omega arith) (λ e. cc)
      (λ e. absurd (omega (arith, e)))

-- The callback does nothing.
abbrev idle_callbacks : Callbacks
idle_callbacks cb arg s = s

-- A one-shot timer at its last tick, before the periodic one.
abbrev last_tick : Timers
last_tick = record two_timers {
  timers = λ a. record (two_timers.timers a) {
    remaining_ticks = 1;
    periodic = (if a == 7 then 0 else 1);
  };
}

last_tick-IsTimers : IsTimers last_tick (7 ∷ 5 ∷ [])
last_tick-IsTimers = record {
  linked = (refl, (refl, refl));
  distinct = (refl, (refl, tt));
  small = λ a h. ground arith;
  listed = λ a. ground arith;
}

timer_tick_isr-ticks_example :
    IsTimers (timer_tick_isr idle_callbacks last_tick) (survivors last_tick.timers (7 ∷ 5 ∷ []))
    × (readings
          (λ b. b.remaining_ticks)
          (timer_tick_isr idle_callbacks last_tick).timers
          (7 ∷ 5 ∷ [])
        ≡ readings next_remaining last_tick.timers (7 ∷ 5 ∷ []))
timer_tick_isr-ticks_example =
    timer_tick_isr-ticks idle_callbacks (λ cb arg s. refl) last_tick (7 ∷ 5 ∷ []) last_tick-IsTimers

-- The first is taken off, and the second is loaded again.
last_tick-survivors : survivors last_tick.timers (7 ∷ 5 ∷ []) ≡ 5 ∷ []
last_tick-survivors = refl

last_tick-readings : readings next_remaining last_tick.timers (7 ∷ 5 ∷ []) ≡ 0 ∷ 20 ∷ []
last_tick-readings = refl
