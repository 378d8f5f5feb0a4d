-- ===== src/Hal/Clock.antt =====
-- hal/clock.h: the clock gates that the firmware opens.
use helix_rt.Prelude.{ℕ, ◌*◌, ◌%◌, ◌^◌, bit_or}
use helix_rt.Config.{word}

-- SystemCoreClock and the gate registers CCM_CCGR0, 1, 2 and 6.
pub record Clocks : Type 0 where
  pub system_core_clock : ℕ
  pub ccgr0 : ℕ
  pub ccgr1 : ℕ
  pub ccgr2 : ℕ
  pub ccgr6 : ℕ

abbrev pub clock_core_freq : ℕ
clock_core_freq = 600000000

abbrev pub ccm_ccgr_on : ℕ
ccm_ccgr_on = 3

-- `reg |= (CCM_CCGR_ON << shift)`
abbrev pub open_gate : ℕ → ℕ → ℕ
open_gate shift reg = bit_or reg (ccm_ccgr_on * 2 ^ shift % word)

unfoldable pub clock_init : Clocks → Clocks
clock_init c = record c {
  system_core_clock = clock_core_freq;
  ccgr0 = open_gate 30 c.ccgr0;
  ccgr1 = open_gate 30 c.ccgr1;
  ccgr6 = open_gate 24 c.ccgr6;
}

unfoldable pub clock_get_core_freq : Clocks → ℕ
clock_get_core_freq c = c.system_core_clock

unfoldable pub clock_enable_gpio3 : Clocks → Clocks
clock_enable_gpio3 c = record c { ccgr1 = open_gate 30 c.ccgr1 }

unfoldable pub clock_enable_lpuart2 : Clocks → Clocks
clock_enable_lpuart2 c = record c { ccgr6 = open_gate 24 c.ccgr6 }

unfoldable pub clock_enable_lpuart3 : Clocks → Clocks
clock_enable_lpuart3 c = record c { ccgr1 = open_gate 28 c.ccgr1 }

unfoldable pub clock_enable_lpuart4 : Clocks → Clocks
clock_enable_lpuart4 c = record c { ccgr1 = open_gate 12 c.ccgr1 }

unfoldable pub clock_enable_lpuart5 : Clocks → Clocks
clock_enable_lpuart5 c = record c { ccgr2 = open_gate 24 c.ccgr2 }

unfoldable pub clock_enable_gpt2 : Clocks → Clocks
clock_enable_gpt2 c = record c { ccgr2 = open_gate 20 c.ccgr2 }

unfoldable pub clock_enable_gpt3 : Clocks → Clocks
clock_enable_gpt3 c = record c { ccgr1 = open_gate 24 c.ccgr1 }
