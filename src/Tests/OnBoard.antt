-- ===== src/Tests/OnBoard.antt =====
-- The theorems on start-up and on the serial port, with small sections and a two-letter string; and
-- the sizes of the tables.
use helix_rt.Prelude.{
  ℕ, ◌+◌, ◌^◌, ◌≡◌, refl, true, some, inl, List, [], ◌∷◌, length, ◌==◌, if◌then◌else◌, arith,
}
use helix_rt.Prelude.Bits.{bit}
use helix_rt.Startup.{Sections, Chip, CsReads, reset, wait_unlock}
use helix_rt.Startup.Memory.{IsLaidOut, IsInitial, reset-IsInitial}
use helix_rt.Startup.Tables.{flash_config, vector_table, repeat}
use helix_rt.Hal.Uart.{Lpuart, uart_puts}
use helix_rt.Hal.Uart.Polls.{ready_reads}
use helix_rt.Hal.Uart.Laws.{Sends, uart_puts-Sends}

flash_config-length : length flash_config ≡ 128
unfolding flash_config repeat
flash_config-length = refl

vector_table-length : length vector_table ≡ 16 + 160
unfolding vector_table repeat
vector_table-length = refl

abbrev sections : Sections
sections = record {
  vectors_start = 0x60001000;
  fast_code_start = 3000;
  fast_code_end = 3004;
  fast_code_load = 1100;
  data_start = 2000;
  data_end = 2008;
  data_load = 1000;
  bss_start = 4000;
  bss_end = 4008;
}

abbrev chip : Chip
chip = record {
  memory = λ a. a + 1;
  wdog1_wcr = 0xFFFF;
  wdog2_wcr = 0x30;
  rtwdog_cnt = [];
  rtwdog_toval = 0;
  rtwdog_cs = 0;
  cpacr = 0;
  vtor = 0;
}

abbrev cs_reads : CsReads
cs_reads = record { first = 2 ^ 13; polls = 0 ∷ 0 ∷ 2 ^ 11 ∷ []; last = 2 ^ 13 + 2 ^ 11 + 2 ^ 7 }

sections-IsLaidOut : IsLaidOut sections 2 1 2
sections-IsLaidOut = record {
  data_end = refl;
  fast_end = refl;
  bss_end = refl;
  data_aligned = refl;
  fast_aligned = refl;
  bss_aligned = refl;
  data_load_aligned = refl;
  fast_load_aligned = refl;
  data_small = omega arith;
  fast_small = omega arith;
  bss_small = omega arith;
  data_load_small = omega arith;
  fast_load_small = omega arith;
  data_load_apart = inl (omega arith);
  fast_load_apart = inl (omega arith);
  fast_load_data = inl (omega arith);
  data_fast = inl (omega arith);
  data_bss = inl (omega arith);
  fast_bss = inl (omega arith);
}

unlocks : wait_unlock cs_reads.polls ≡ true
unfolding wait_unlock
unlocks = refl

reset-IsInitial_example :
    (c' : Chip) × (reset sections cs_reads chip ≡ some c')
    × IsInitial sections 2 1 2 chip.memory c'.memory
    × (c'.vtor ≡ sections.vectors_start)
    × (bit c'.wdog1_wcr 2 ≡ 0)
    × (bit c'.wdog2_wcr 2 ≡ 0)
    × (bit c'.rtwdog_cs 7 ≡ 0)
reset-IsInitial_example =
    reset-IsInitial sections 2 1 2 sections-IsLaidOut chip.memory cs_reads chip refl unlocks

abbrev letters : ℕ → ℕ
letters a = if a == 10 then 72 else (if a == 11 then 105 else 0)

abbrev serial : Lpuart
serial = record { global = 0; baud = 0; ctrl = 0; sent = [] }

-- The transmitter is busy at every other read.
abbrev stat_reads : List ℕ
stat_reads = 0 ∷ 2 ^ 23 ∷ 0 ∷ 2 ^ 23 ∷ []

ready_twice : ready_reads stat_reads ≡ 2
unfolding ready_reads
ready_twice = refl

uart_puts-Sends_example :
    Sends (72 ∷ 105 ∷ []) 0 stat_reads serial (uart_puts letters 10 stat_reads serial)
uart_puts-Sends_example =
    uart_puts-Sends letters (72 ∷ 105 ∷ []) 0 10 stat_reads serial
      (refl, (λ e. absurd (omega (arith, e))), (refl, (λ e. absurd (omega (arith, e))), refl))
      (omega arith) (omega (arith, ready_twice))
