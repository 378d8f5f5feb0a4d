-- ===== src/Startup/Tables.antt =====
-- The constant tables of src/startup.c: flash configuration block, image vector table, boot data and
-- the processor's vector table.
use helix_rt.Prelude.{ℕ, zero, suc, List, [], ◌∷◌, ◌++◌}

-- `n` copies of `x`.
unfoldable pub repeat {ℓ} : {A : Type ℓ} → ℕ → A → List A
repeat zero x = []
repeat (suc n) x = x ∷ repeat n x

-- One sequence of the lookup table: four words.
abbrev pub lut : ℕ → ℕ → List ℕ
lut a b = a ∷ b ∷ 0 ∷ 0 ∷ []

unfoldable pub flash_config : List ℕ
unfolding repeat
flash_config =
    (0x42464346 ∷ 0x56010400 ∷ 0 ∷ 0x00030301 ∷ [])
    ++ repeat 25 0
    ++ (0x00010100 ∷ 0 ∷ 0 ∷ 0x00800000 ∷ [])
    ++ repeat 11 0
    ++ lut 0x0A1804EB 0x26043206
    ++ lut 0x24040405 0
    ++ lut 0 0
    ++ lut 0x00000406 0
    ++ lut 0 0
    ++ lut 0x08180420 0
    ++ lut 0 0
    ++ lut 0 0
    ++ lut 0 0
    ++ lut 0x08180402 0x00002004
    ++ lut 0 0
    ++ lut 0x00000460 0
    ++ lut 0 0
    ++ repeat 16 0
    ++ (0x00000100 ∷ 0x00001000 ∷ 0x00000001 ∷ 0 ∷ [])
    ++ repeat 12 0

abbrev pub ivt_address : ℕ
ivt_address = 0x60000400

abbrev pub boot_data_address : ℕ
boot_data_address = 0x60000420

abbrev pub vectors_address : ℕ
vectors_address = 0x60001000

unfoldable pub image_vector_table : List ℕ
image_vector_table =
    0x402000D1 ∷ vectors_address ∷ 0 ∷ 0 ∷ boot_data_address ∷ ivt_address ∷ 0 ∷ 0 ∷ []

unfoldable pub boot_data : List ℕ
boot_data = 0x60000000 ∷ 0x00100000 ∷ 0 ∷ 0 ∷ []

-- An entry of the vector table: the initial stack pointer, a handler's name, or 0.
pub data Vector : Type 0 where
  stack_top : Vector
  reset_handler : Vector
  nmi_handler : Vector
  hard_fault_handler : Vector
  mem_manage_handler : Vector
  bus_fault_handler : Vector
  usage_fault_handler : Vector
  svc_handler : Vector
  debug_mon_handler : Vector
  pend_sv_handler : Vector
  sys_tick_handler : Vector
  default_handler : Vector
  no_handler : Vector

unfoldable pub vector_table : List Vector
unfolding repeat
vector_table =
    (stack_top ∷ reset_handler ∷ nmi_handler ∷ hard_fault_handler ∷ mem_manage_handler
      ∷ bus_fault_handler ∷ usage_fault_handler ∷ no_handler ∷ no_handler ∷ no_handler ∷ no_handler
      ∷ svc_handler ∷ debug_mon_handler ∷ no_handler ∷ pend_sv_handler ∷ sys_tick_handler ∷ [])
    ++ repeat 160 default_handler
