-- ===== src/App.antt =====
-- src/main.c: the example application, which sets the board up, creates two tasks and starts the
-- kernel.
pub mod Laws
use helix_rt.Prelude.{ℕ, ◌*◌, ◌^◌, Option, none, some, List, [], ◌∷◌, bit_or, if◌then◌else◌}
use helix_rt.Task.{Code, is_ok}
use helix_rt.Sched.Block.{Env}
use helix_rt.Hal.Clock.{Clocks, clock_init}
use helix_rt.Hal.Gpio.{GpioPort, output, gpio_set_mode, gpio_clear, gpio_toggle}
use helix_rt.Kernel.{KernelVars, Layout, Machine, with_vars}
use helix_rt.Kernel.Tasks.{task_create, task_delay_ms}
use helix_rt.Kernel.Control.{kernel_init, kernel_start}

-- Where the linker has placed the application's objects and functions.
pub record AppLayout : Type 0 where
  pub blink_tcb : ℕ
  pub blink_stack : ℕ
  pub blink_entry : ℕ
  pub heartbeat_tcb : ℕ
  pub heartbeat_stack : ℕ
  pub heartbeat_entry : ℕ

-- The registers that main() writes: clocks, the LED's pin multiplexer and pad, and its port.
pub record Board : Type 0 where
  pub clocks : Clocks
  pub led_mux : ℕ
  pub led_pad : ℕ
  pub gpio2 : GpioPort

abbrev pub led_pin : ℕ
led_pin = 3

-- IOMUXC_PAD_SRE, IOMUXC_PAD_DSE and IOMUXC_PAD_SPEED.
abbrev pub iomuxc_pad_sre : ℕ
iomuxc_pad_sre = 1

abbrev pub iomuxc_pad_dse : ℕ → ℕ
iomuxc_pad_dse n = n * 2 ^ 3

abbrev pub iomuxc_pad_speed : ℕ → ℕ
iomuxc_pad_speed n = n * 2 ^ 6

unfoldable pub board_gpio_init : Board → Board
unfolding gpio_set_mode gpio_clear
board_gpio_init b = record b {
  led_mux = 5;
  led_pad = bit_or (bit_or (iomuxc_pad_dse 6) (iomuxc_pad_speed 2)) iomuxc_pad_sre;
  gpio2 = gpio_clear led_pin (gpio_set_mode led_pin output b.gpio2);
}

-- One round of the loop of `blink_task`, and of `heartbeat_task`.
unfoldable pub blink_task : Env KernelVars → Board → Machine → Board × Machine
unfolding gpio_toggle task_delay_ms
blink_task env b w = (record b { gpio2 = gpio_toggle led_pin b.gpio2 }, task_delay_ms env 500 w)

unfoldable pub heartbeat_task : Env KernelVars → Machine → Machine
unfolding task_delay_ms
heartbeat_task env w = task_delay_ms env 100 w

-- TASK_STATIC_STACK_SIZE of both tasks.
abbrev pub app_stack_size : ℕ
app_stack_size = 1024

abbrev pub blink_name : List ℕ
blink_name = 98 ∷ 108 ∷ 105 ∷ 110 ∷ 107 ∷ []

abbrev pub heartbeat_name : List ℕ
heartbeat_name = 104 ∷ 98 ∷ []

-- What main() does once the kernel is initialised, up to `kernel_start`.
unfoldable pub create_tasks : Layout → AppLayout → Machine → Machine
unfolding task_create
create_tasks l a w =
    let w1 =
      (task_create l (some a.blink_tcb) (some blink_name) (some a.blink_entry) none 2
        (some a.blink_stack) app_stack_size w).1 in
    (task_create l (some a.heartbeat_tcb) (some heartbeat_name) (some a.heartbeat_entry) none 3
      (some a.heartbeat_stack) app_stack_size w1).1

unfoldable pub start_app : Layout → AppLayout → Code × Machine → Option Machine
unfolding create_tasks kernel_start
start_app l a (res, w) = if is_ok res then kernel_start (create_tasks l a w) else none

-- The board, and the machine in which the first task starts; `none` is an endless `wfi` loop.
unfoldable pub main : Layout → AppLayout → Board → Machine → Board × Option Machine
unfolding clock_init board_gpio_init kernel_init start_app
main l a b w =
    let clocks = clock_init b.clocks in
    (
      board_gpio_init (record b { clocks = clocks }),
      start_app l a
          (kernel_init l (with_vars (λ v. record v { core_clock = clocks.system_core_clock }) w)),
    )
