-- ===== src/Critical.antt =====
-- kernel/sync/critical.h beside the PRIMASK sections that Sched holds, and the counters of
-- kernel/sync/critical.c, which are compiled under CONFIG_CRITICAL_STATS.
use helix_rt.Prelude.{ℕ, ◌+◌, ◌-◌, ◌*◌, ◌%◌, ◌^◌, bit_and, ltb, if◌then◌else◌}
use helix_rt.Config.{word}
use helix_rt.Sched.{Sched, critical_enter, critical_exit}

-- On the value of the register BASEPRI: the mask that was in force, and `max_priority << 4`.
unfoldable pub critical_enter_basepri : ℕ → ℕ → ℕ × ℕ
critical_enter_basepri max_priority basepri = (basepri, max_priority * 2 ^ 4 % word)

unfoldable pub critical_exit_basepri : ℕ → ℕ → ℕ
critical_exit_basepri state basepri = state

unfoldable pub is_irq_disabled : Sched → ℕ
is_irq_disabled s = bit_and s.primask 1

-- critical_enter_count, critical_max_depth and critical_current_depth.
pub record CriticalStats : Type 0 where
  pub enter_count : ℕ
  pub max_depth : ℕ
  pub current_depth : ℕ

-- Counting one more section.
abbrev pub count_enter : CriticalStats → CriticalStats
count_enter c =
    let depth = (c.current_depth + 1) % word in
    record {
      enter_count = (c.enter_count + 1) % word;
      max_depth = (if ltb c.max_depth depth then depth else c.max_depth);
      current_depth = depth;
    }

unfoldable pub critical_enter_debug : Sched → CriticalStats → ℕ × Sched × CriticalStats
unfolding critical_enter
critical_enter_debug s c = let (state, s1) = critical_enter s in (state, s1, count_enter c)

-- The depth is an unsigned word, so 0 - 1 is its largest value.
unfoldable pub critical_exit_debug : ℕ → Sched → CriticalStats → Sched × CriticalStats
unfolding critical_exit
critical_exit_debug state s c =
    (critical_exit state s, record c { current_depth = (c.current_depth + word - 1) % word })

unfoldable pub critical_get_stats : CriticalStats → ℕ × ℕ
critical_get_stats c = (c.enter_count, c.max_depth)
