-- ===== src/Startup/Memory.antt =====
-- What `Reset_Handler` leaves in memory when it calls main().
use helix_rt.Prelude.{
  ℕ, ◌+◌, ◌*◌, ◌%◌, ◌<◌, ◌≤◌, ◌≡◌, sym, ap, subst, ◌∙◌, ◌⊎◌, arith, refl, none, some, ◌++◌, bit_and,
  if◌then◌else◌, Bool, true,
}
use helix_rt.Prelude.Bits.{bit, bit-bit_and, bit-bit_or}
use helix_rt.Config.{word}
use helix_rt.Startup.{
  Sections, Chip, CsReads, reset, disable_watchdogs, set_up, init_memory, wait_unlock, copy_words,
  zero_words, enable_fpu, disable_wdog, unlock_writes, disabled_cs,
}
use helix_rt.Startup.Laws.{
  Apart, copy_words-frame, copy_words-copied, zero_words-frame, zero_words-zeroed,
}

-- The sections as the linker script lays them out: `d`, `f` and `b` words of .data, .fast_code and
-- .bss that start at word addresses, do not overlap each other or the load images, and end below
-- the last address.
pub record IsLaidOut (l : Sections) (d f b : ℕ) : Type 0 where
  pub data_end : l.data_end ≡ l.data_start + 4 * d
  pub fast_end : l.fast_code_end ≡ l.fast_code_start + 4 * f
  pub bss_end : l.bss_end ≡ l.bss_start + 4 * b
  pub data_aligned : l.data_start % 4 ≡ 0
  pub fast_aligned : l.fast_code_start % 4 ≡ 0
  pub bss_aligned : l.bss_start % 4 ≡ 0
  pub data_load_aligned : l.data_load % 4 ≡ 0
  pub fast_load_aligned : l.fast_code_load % 4 ≡ 0
  pub data_small : l.data_start + 4 * d < word
  pub fast_small : l.fast_code_start + 4 * f < word
  pub bss_small : l.bss_start + 4 * b < word
  pub data_load_small : l.data_load + 4 * d < word
  pub fast_load_small : l.fast_code_load + 4 * f < word
  pub data_load_apart : Apart l.data_load d l.data_start d
  pub fast_load_apart : Apart l.fast_code_load f l.fast_code_start f
  pub fast_load_data : Apart l.fast_code_load f l.data_start d
  pub data_fast : Apart l.data_start d l.fast_code_start f
  pub data_bss : Apart l.data_start d l.bss_start b
  pub fast_bss : Apart l.fast_code_start f l.bss_start b

-- The address `a` is not among the `n` words from `start`.
abbrev pub Outside : ℕ → ℕ → ℕ → Type 0
Outside a start n = (a < start) ⊎ (start + 4 * n ≤ a)

-- The memory that a C program expects at its start, `m` being the memory before.
pub record IsInitial (l : Sections) (d f b : ℕ) (m m' : ℕ → ℕ) : Type 0 where
  pub data_copied : (i : ℕ) → i < d → m' (l.data_start + 4 * i) ≡ m (l.data_load + 4 * i)
  pub fast_code_copied :
      (i : ℕ) → i < f → m' (l.fast_code_start + 4 * i) ≡ m (l.fast_code_load + 4 * i)
  pub bss_zeroed : (i : ℕ) → i < b → m' (l.bss_start + 4 * i) ≡ 0
  pub elsewhere :
      (a : ℕ)
      → Outside a l.data_start d
      → Outside a l.fast_code_start f
      → Outside a l.bss_start b
      → m' a ≡ m a

Apart-Outside : (a n b k i : ℕ) → Apart a n b k → i < n → Outside (a + 4 * i) b k
Apart-Outside a n b k i apart h = ground arith

-- WDE is bit 2, and EN is bit 7.
wde_off : (wcr : ℕ) → bit (disable_wdog wcr) 2 ≡ 0
unfolding disable_wdog bit
wde_off wcr = bit-bit_and wcr 65531 2 ∙ omega arith

en_off : (cs : ℕ) → bit (disabled_cs cs) 7 ≡ 0
unfolding disabled_cs bit
en_off cs = bit-bit_or (bit_and cs 4294967167) 32 7 ∙ omega (arith, bit-bit_and cs 4294967167 7)

module _ (l : Sections) (d f b : ℕ) (laid : IsLaidOut l d f b) (m : ℕ → ℕ) where
  abbrev after_data : ℕ → ℕ
  after_data = copy_words word l.data_load l.data_start (l.data_start + 4 * d) m

  abbrev after_fast : ℕ → ℕ
  after_fast =
      copy_words word l.fast_code_load l.fast_code_start (l.fast_code_start + 4 * f) after_data

  abbrev after_bss : ℕ → ℕ
  after_bss = zero_words word l.bss_start (l.bss_start + 4 * b) after_fast

  at_ends : init_memory l m ≡ after_bss
  unfolding init_memory
  at_ends =
      ap
        (λ (x : ℕ). zero_words word l.bss_start l.bss_end (
          copy_words word l.fast_code_load l.fast_code_start l.fast_code_end
            (copy_words word l.data_load l.data_start x m)))
        laid.data_end
      ∙ ap
          (λ (x : ℕ).
            zero_words word l.bss_start l.bss_end
              (copy_words word l.fast_code_load l.fast_code_start x after_data))
          laid.fast_end
      ∙ ap (λ (x : ℕ). zero_words word l.bss_start x after_fast) laid.bss_end

  -- What each loop leaves alone.
  kept_by_data : (a : ℕ) → Outside a l.data_start d → after_data a ≡ m a
  kept_by_data a out =
      copy_words-frame d word l.data_load l.data_start m a (omega (arith, laid.data_small))
        laid.data_small laid.data_load_small out

  kept_by_fast : (a : ℕ) → Outside a l.fast_code_start f → after_fast a ≡ after_data a
  kept_by_fast a out =
      copy_words-frame f word l.fast_code_load l.fast_code_start after_data a
        (omega (arith, laid.fast_small)) laid.fast_small laid.fast_load_small out

  kept_by_bss : (a : ℕ) → Outside a l.bss_start b → after_bss a ≡ after_fast a
  kept_by_bss a out =
      zero_words-frame b word l.bss_start after_fast a (omega (arith, laid.bss_small))
        laid.bss_small out

  init_memory-IsInitial : IsInitial l d f b m (init_memory l m)
  init_memory-IsInitial = subst (IsInitial l d f b m) (sym at_ends) (record {
    data_copied = λ i h.
        kept_by_bss (l.data_start + 4 * i)
          (Apart-Outside l.data_start d l.bss_start b i laid.data_bss h)
        ∙ kept_by_fast (l.data_start + 4 * i)
            (Apart-Outside l.data_start d l.fast_code_start f i laid.data_fast h)
        ∙ copy_words-copied d word l.data_load l.data_start m i (omega (arith, laid.data_small))
            laid.data_small laid.data_load_small laid.data_load_apart h;
    fast_code_copied = λ i h.
        kept_by_bss (l.fast_code_start + 4 * i)
          (Apart-Outside l.fast_code_start f l.bss_start b i laid.fast_bss h)
        ∙ copy_words-copied f word l.fast_code_load l.fast_code_start after_data i
            (omega (arith, laid.fast_small)) laid.fast_small laid.fast_load_small
            laid.fast_load_apart h
        ∙ kept_by_data (l.fast_code_load + 4 * i)
            (Apart-Outside l.fast_code_load f l.data_start d i laid.fast_load_data h);
    bss_zeroed = λ i h.
        zero_words-zeroed b word l.bss_start after_fast i (omega (arith, laid.bss_small))
          laid.bss_small h;
    elsewhere = λ a x y z. kept_by_bss a z ∙ kept_by_fast a y ∙ kept_by_data a x;
  })

  -- With sections laid out as the linker does (IsLaidOut), and once the watchdog shows that it is
  -- unlocked, the handler calls main() with .data and .fast_code copied from their load images, .bss
  -- zeroed and all else of memory unchanged, the vectors at their address, the legacy watchdogs off,
  -- and EN cleared in what it writes to RTWDOG->CS.
  pub reset-IsInitial :
      (reads : CsReads) (c : Chip)
      → c.memory ≡ m
      → wait_unlock reads.polls ≡ true
      → (c' : Chip) × (reset l reads c ≡ some c')
        × IsInitial l d f b m c'.memory
        × (c'.vtor ≡ l.vectors_start)
        × (bit c'.wdog1_wcr 2 ≡ 0)
        × (bit c'.wdog2_wcr 2 ≡ 0)
        × (bit c'.rtwdog_cs 7 ≡ 0)
  unfolding reset disable_watchdogs set_up enable_fpu
  reset-IsInitial reads c e h = (
    set_up l disabled,
    ap
        (λ (x : Bool). elim (if x then some disabled else none) [
          | none ↦ none
          | some c1 ↦ some (set_up l c1)
        ])
        h,
    subst (λ (x : ℕ → ℕ). IsInitial l d f b m (init_memory l x)) (sym e) init_memory-IsInitial,
    refl,
    wde_off c.wdog1_wcr,
    wde_off c.wdog2_wcr,
    en_off reads.last,
  )
    where
      disabled : Chip
      disabled = record c {
        wdog1_wcr = disable_wdog c.wdog1_wcr;
        wdog2_wcr = disable_wdog c.wdog2_wcr;
        rtwdog_cnt = c.rtwdog_cnt ++ unlock_writes reads.first;
        rtwdog_toval = 0xFFFF;
        rtwdog_cs = disabled_cs reads.last;
      }
