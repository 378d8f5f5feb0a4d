-- ===== src/Config.antt =====
-- The constants of include/config.h that the kernel's code reads, and of the word sizes.
use Prim.Native.Nat.{ℕ, ◌-◌, ◌*◌, ◌/◌, ◌%◌, ◌^◌}

-- Number of `uint32_t` values.
abbrev pub word : ℕ
word = 2 ^ 32

-- `UINT32_MAX`, which is TIMEOUT_FOREVER too.
abbrev pub uint32_max : ℕ
uint32_max = 2 ^ 32 - 1

abbrev pub timeout_none : ℕ
timeout_none = 0

abbrev pub timeout_forever : ℕ
timeout_forever = 2 ^ 32 - 1

abbrev pub max_tasks : ℕ
max_tasks = 16

abbrev pub max_priority : ℕ
max_priority = 32

abbrev pub default_stack_size : ℕ
default_stack_size = 1024

abbrev pub min_stack_size : ℕ
min_stack_size = 256

abbrev pub idle_stack_size : ℕ
idle_stack_size = 256

abbrev pub time_slice_ticks : ℕ
time_slice_ticks = 10

abbrev pub tick_rate_hz : ℕ
tick_rate_hz = 1000

abbrev pub cpu_clock_hz : ℕ
cpu_clock_hz = 600000000

-- MS_TO_TICKS and TICKS_TO_MS on `uint32_t` arguments: the products wrap round.
unfoldable pub ms_to_ticks : ℕ → ℕ
ms_to_ticks ms = ms * tick_rate_hz % word / 1000

unfoldable pub ticks_to_ms : ℕ → ℕ
ticks_to_ms ticks = ticks * 1000 % word / tick_rate_hz
