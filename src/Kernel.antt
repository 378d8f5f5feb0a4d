-- ===== src/Kernel.antt =====
-- kernel/kernel.c: the kernel's own state beside the scheduler's.
pub mod Slots
pub mod Stack
pub mod Tasks
pub mod Control
pub mod Interrupts
pub mod Switch
use helix_rt.Prelude.{ℕ}
use helix_rt.Sched.Block.{World}

pub data KernelState : Type 0 where
  state_uninit state_init state_running state_stopped : KernelState

-- g_kernel_state, the slot maps, g_next_task_id, the 32-bit words of memory by address (the stacks),
-- SystemCoreClock and the registers that the file writes.
pub record KernelVars : Type 0 where
  pub kernel_state : KernelState
  pub task_slot_used : ℕ → ℕ
  pub stack_slot_used : ℕ → ℕ
  pub next_task_id : ℕ
  pub memory : ℕ → ℕ
  pub core_clock : ℕ
  pub scb_shpr3 : ℕ
  pub systick_rvr : ℕ
  pub systick_cvr : ℕ
  pub systick_csr : ℕ

-- Where the linker has placed the pools, the idle task's objects and the two functions.
pub record Layout : Type 0 where
  pub task_pool : ℕ → ℕ
  pub stack_pool : ℕ → ℕ
  pub idle_tcb : ℕ
  pub idle_stack : ℕ
  pub idle_task : ℕ
  pub task_exit_trampoline : ℕ

-- The scheduler and the kernel's variables.
abbrev pub Machine : Type 0
Machine = World KernelVars

abbrev pub with_vars : (KernelVars → KernelVars) → Machine → Machine
with_vars f w = record w { object = f w.object }
