-- ===== src/Hal/Nvic.antt =====
-- The interrupt controller's functions of hal/imxrt1062.h. An interrupt number is an integer, negative
-- for the processor's own exceptions.
use helix_rt.Prelude.{ℕ, ◌*◌, ◌/◌, ◌%◌, ◌^◌, List, ◌∷◌, bit_and}
use helix_rt.Prelude.Int.{ℤ, pos, negsuc}

-- A store to NVIC_ISER(n), NVIC_ICER(n) or NVIC_IPR(n).
pub data NvicWrite : Type 0 where
  iser : ℕ → ℕ → NvicWrite
  icer : ℕ → ℕ → NvicWrite
  ipr : ℕ → ℕ → NvicWrite

-- Stores, the latest first.
abbrev pub Nvic : Type 0
Nvic = List NvicWrite

-- `1UL << (IRQn & 0x1F)`
abbrev pub irq_mask : ℕ → ℕ
irq_mask n = 2 ^ bit_and n 0x1F

unfoldable pub nvic_enable_irq : ℤ → Nvic → Nvic
nvic_enable_irq (pos n) v = iser (n / 2 ^ 5) (irq_mask n) ∷ v
nvic_enable_irq (negsuc n) v = v

unfoldable pub nvic_disable_irq : ℤ → Nvic → Nvic
nvic_disable_irq (pos n) v = icer (n / 2 ^ 5) (irq_mask n) ∷ v
nvic_disable_irq (negsuc n) v = v

-- `(uint8_t)((priority << 4) & 0xFF)`
unfoldable pub nvic_set_priority : ℤ → ℕ → Nvic → Nvic
nvic_set_priority (pos n) priority v = ipr n (bit_and (priority * 2 ^ 4 % 2 ^ 32) 0xFF % 2 ^ 8) ∷ v
nvic_set_priority (negsuc n) priority v = v
