-- ===== src/Startup.antt =====
-- `Reset_Handler` of src/startup.c, up to its call of main(): the watchdogs, the floating-point unit,
-- and the initial contents of memory.
pub mod Tables
pub mod Laws
pub mod Memory
use helix_rt.Prelude.{
  ℕ, zero, suc, ◌+◌, ◌-◌, ◌*◌, ◌%◌, ◌^◌, Bool, true, false, Option, none, some, List, [], ◌∷◌, ◌++◌,
  ltb, ◌==◌, bit_and, bit_or, if◌then◌else◌,
}
use helix_rt.Config.{word}
use helix_rt.Task.{put}

-- The symbols of the linker script, as byte addresses.
pub record Sections : Type 0 where
  pub vectors_start : ℕ
  pub fast_code_start : ℕ
  pub fast_code_end : ℕ
  pub fast_code_load : ℕ
  pub data_start : ℕ
  pub data_end : ℕ
  pub data_load : ℕ
  pub bss_start : ℕ
  pub bss_end : ℕ

-- A store to RTWDOG->CNT, of a whole or of half a word.
pub data CntWrite : Type 0 where
  whole : ℕ → CntWrite
  half : ℕ → CntWrite

-- What the handler writes. `memory` holds the word at each word address (a multiple of 4).
pub record Chip : Type 0 where
  pub memory : ℕ → ℕ
  pub wdog1_wcr : ℕ
  pub wdog2_wcr : ℕ
  pub rtwdog_cnt : List CntWrite
  pub rtwdog_toval : ℕ
  pub rtwdog_cs : ℕ
  pub cpacr : ℕ
  pub vtor : ℕ

-- What the processor reads from RTWDOG->CS: before the unlock, while it waits for the unlock, and
-- when it changes the register. The watchdog sets ULK by itself.
pub record CsReads : Type 0 where
  pub first : ℕ
  pub polls : List ℕ
  pub last : ℕ

abbrev pub wdog_wcr_wde : ℕ
wdog_wcr_wde = 2 ^ 2

abbrev pub rtwdog_cs_update : ℕ
rtwdog_cs_update = 2 ^ 5

abbrev pub rtwdog_cs_en : ℕ
rtwdog_cs_en = 2 ^ 7

abbrev pub rtwdog_cs_ulk : ℕ
rtwdog_cs_ulk = 2 ^ 11

abbrev pub rtwdog_cs_cmd32en : ℕ
rtwdog_cs_cmd32en = 2 ^ 13

-- `WCR &= ~WDOG_WCR_WDE` on a 16-bit register.
unfoldable pub disable_wdog : ℕ → ℕ
disable_wdog wcr = bit_and wcr (2 ^ 16 - 1 - wdog_wcr_wde)

-- The stores to CNT that unlock the watchdog.
unfoldable pub unlock_writes : ℕ → List CntWrite
unlock_writes cs =
    if bit_and cs rtwdog_cs_cmd32en == 0
    then half 0xC520 ∷ half 0xD928 ∷ []
    else whole 0xD928C520 ∷ []

-- The loop that waits for ULK: false where no read of the list shows it.
unfoldable pub wait_unlock : List ℕ → Bool
wait_unlock [] = false
wait_unlock (cs ∷ polls) = if bit_and cs rtwdog_cs_ulk == 0 then wait_unlock polls else true

-- `(CS & ~RTWDOG_CS_EN) | RTWDOG_CS_UPDATE`
unfoldable pub disabled_cs : ℕ → ℕ
disabled_cs cs = bit_or (bit_and cs (word - 1 - rtwdog_cs_en)) rtwdog_cs_update

-- `SCB_CPACR |= (0xFUL << 20)`
unfoldable pub enable_fpu : Chip → Chip
enable_fpu c = record c { cpacr = bit_or c.cpacr (0xF * 2 ^ 20) }

-- `while (dst < end) *dst++ = *src++;`, on fuel.
unfoldable pub copy_words : ℕ → ℕ → ℕ → ℕ → (ℕ → ℕ) → ℕ → ℕ
copy_words zero src dst end_ memory = memory
copy_words (suc fuel) src dst end_ memory = elim (ltb dst end_) [
  | true ↦ copy_words fuel ((src + 4) % word) ((dst + 4) % word) end_ (put memory dst (memory src))
  | false ↦ memory
]

-- `while (dst < end) *dst++ = 0;`, on fuel.
unfoldable pub zero_words : ℕ → ℕ → ℕ → (ℕ → ℕ) → ℕ → ℕ
zero_words zero dst end_ memory = memory
zero_words (suc fuel) dst end_ memory = elim (ltb dst end_) [
  | true ↦ zero_words fuel ((dst + 4) % word) end_ (put memory dst 0)
  | false ↦ memory
]

unfoldable pub init_memory : Sections → (ℕ → ℕ) → ℕ → ℕ
unfolding copy_words zero_words
init_memory l m =
    let m1 = copy_words word l.data_load l.data_start l.data_end m in
    let m2 = copy_words word l.fast_code_load l.fast_code_start l.fast_code_end m1 in
    zero_words word l.bss_start l.bss_end m2

unfoldable pub disable_watchdogs : CsReads → Chip → Option Chip
unfolding disable_wdog unlock_writes wait_unlock disabled_cs
disable_watchdogs reads c =
    let c1 = record c {
      wdog1_wcr = disable_wdog c.wdog1_wcr;
      wdog2_wcr = disable_wdog c.wdog2_wcr;
      rtwdog_cnt = c.rtwdog_cnt ++ unlock_writes reads.first;
    } in
    if wait_unlock reads.polls
    then some (record c1 { rtwdog_toval = 0xFFFF; rtwdog_cs = disabled_cs reads.last })
    else none

unfoldable pub set_up : Sections → Chip → Chip
unfolding init_memory enable_fpu
set_up l c =
    let c1 = enable_fpu c in record c1 { memory = init_memory l c1.memory; vtor = l.vectors_start }

-- The state in which main() is called, or `none` where the handler still waits for the unlock.
unfoldable pub reset : Sections → CsReads → Chip → Option Chip
unfolding disable_watchdogs set_up
reset l reads c = elim (disable_watchdogs reads c) [ none ↦ none | some c1 ↦ some (set_up l c1) ]
