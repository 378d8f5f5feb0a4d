-- ===== src/Hal/Uart.antt =====
-- hal/uart.h: configuration, and sending and receiving bytes one by one. The loops that wait on the
-- status register are given the values that it is read as; where these run out the processor still
-- waits (`none`).
pub mod Laws
pub mod Polls
use helix_rt.Prelude.{
  ℕ, zero, suc, ◌+◌, ◌-◌, ◌*◌, ◌/◌, ◌%◌, ◌^◌, Bool, true, false, not, Option, none, some, List, [],
  ◌∷◌, ◌++◌, bit_and, bit_or, ◌==◌, if◌then◌else◌,
}
use helix_rt.Config.{word}

pub record UartConfig : Type 0 where
  pub baudrate : ℕ
  pub data_bits : ℕ
  pub stop_bits : ℕ
  pub parity : ℕ

abbrev pub uart_config_default : UartConfig
uart_config_default = record { baudrate = 115200; data_bits = 8; stop_bits = 1; parity = 0 }

-- GLOBAL, BAUD, CTRL, and the bytes stored to DATA in order.
pub record Lpuart : Type 0 where
  pub global : ℕ
  pub baud : ℕ
  pub ctrl : ℕ
  pub sent : List ℕ

abbrev pub lpuart_baud_sbr : ℕ → ℕ
lpuart_baud_sbr n = bit_and n 0x1FFF

abbrev pub lpuart_baud_sbns : ℕ
lpuart_baud_sbns = 2 ^ 13

abbrev pub lpuart_baud_osr : ℕ → ℕ
lpuart_baud_osr n = bit_and n 0x1F * 2 ^ 24

abbrev pub lpuart_stat_rdrf : ℕ
lpuart_stat_rdrf = 2 ^ 21

abbrev pub lpuart_stat_tdre : ℕ
lpuart_stat_tdre = 2 ^ 23

abbrev pub lpuart_ctrl_pt : ℕ
lpuart_ctrl_pt = 2 ^ 0

abbrev pub lpuart_ctrl_pe : ℕ
lpuart_ctrl_pe = 2 ^ 1

abbrev pub lpuart_ctrl_m : ℕ
lpuart_ctrl_m = 2 ^ 4

abbrev pub lpuart_ctrl_re : ℕ
lpuart_ctrl_re = 2 ^ 18

abbrev pub lpuart_ctrl_te : ℕ
lpuart_ctrl_te = 2 ^ 19

-- GLOBAL after the software reset bit (bit 1) is set and cleared again.
abbrev pub reset_global : ℕ → ℕ
reset_global g = bit_and (bit_or g (2 ^ 1)) (word - 1 - 2 ^ 1)

-- The control word, from the frame format.
abbrev pub uart_ctrl : UartConfig → ℕ
uart_ctrl config =
    let c1 = if config.data_bits == 9 then bit_or 0 lpuart_ctrl_m else 0 in
    let c2 = if config.parity == 0 then c1 else bit_or c1 lpuart_ctrl_pe in
    let c3 = if config.parity == 1 then bit_or c2 lpuart_ctrl_pt else c2 in
    bit_or c3 (bit_or lpuart_ctrl_te lpuart_ctrl_re)

-- The divisor, with 16-fold oversampling: `none` is the division by 0.
abbrev pub uart_divisor : ℕ → ℕ → Option ℕ
uart_divisor baudrate clock_freq =
    if baudrate * (15 + 1) % word == 0
    then none
    else some (clock_freq / (baudrate * (15 + 1) % word))

unfoldable pub uart_init : UartConfig → ℕ → Lpuart → Option Lpuart
uart_init config clock_freq u = elim (uart_divisor config.baudrate clock_freq) [
  | none ↦ none
  | some sbr ↦
      let baud = bit_or (lpuart_baud_sbr sbr) (lpuart_baud_osr 15) in
      some (record u {
        global = reset_global u.global;
        ctrl = uart_ctrl config;
        baud = (if config.stop_bits == 2 then bit_or baud lpuart_baud_sbns else baud);
      })
]

-- `while (!(uart->STAT & flag));` on the reads of STAT: the reads that are left.
unfoldable pub wait_status : ℕ → List ℕ → Option (List ℕ)
wait_status flag [] = none
wait_status flag (stat ∷ reads) =
    if bit_and stat flag == 0 then wait_status flag reads else some reads

-- Storing `c` once the wait is over.
unfoldable pub send_after : ℕ → Lpuart → Option (List ℕ) → Option (List ℕ × Lpuart)
send_after c u none = none
send_after c u (some reads) = some (reads, record u { sent = u.sent ++ (c ∷ []) })

unfoldable pub uart_putc : ℕ → List ℕ → Lpuart → Option (List ℕ × Lpuart)
unfolding wait_status send_after
uart_putc c reads u = send_after c u (wait_status lpuart_stat_tdre reads)

-- `value` is what DATA is read as after the wait.
unfoldable pub uart_getc : ℕ → List ℕ → Option (List ℕ × ℕ)
unfolding wait_status
uart_getc value reads = elim (wait_status lpuart_stat_rdrf reads) [
  | none ↦ none
  | some rest ↦ some (rest, value % 2 ^ 8)
]

unfoldable pub uart_available : ℕ → ℕ
uart_available stat = if bit_and stat lpuart_stat_rdrf == 0 then 0 else 1

unfoldable pub uart_tx_ready : ℕ → ℕ
uart_tx_ready stat = if bit_and stat lpuart_stat_tdre == 0 then 0 else 1

-- The rest of a run, which goes on only where the byte was sent.
unfoldable pub then_send :
    (List ℕ → Lpuart → Option (List ℕ × Lpuart))
    → Option (List ℕ × Lpuart)
    → Option (List ℕ × Lpuart)
then_send rest none = none
then_send rest (some (reads, u)) = rest reads u

-- The loop `while (len--)` over the buffer at `address`; `memory` holds the byte at each address.
unfoldable pub uart_write : (ℕ → ℕ) → ℕ → ℕ → List ℕ → Lpuart → Option (List ℕ × Lpuart)
unfolding uart_putc then_send
uart_write memory address zero reads u = some (reads, u)
uart_write memory address (suc len) reads u =
    then_send (uart_write memory ((address + 1) % word) len) (uart_putc (memory address) reads u)

-- The loop `while (*s)`, on fuel.
unfoldable pub puts_from : ℕ → (ℕ → ℕ) → ℕ → List ℕ → Lpuart → Option (List ℕ × Lpuart)
unfolding uart_putc then_send
puts_from zero memory s reads u = none
puts_from (suc fuel) memory s reads u =
    if memory s == 0
    then some (reads, u)
    else then_send (puts_from fuel memory ((s + 1) % word)) (uart_putc (memory s) reads u)

unfoldable pub uart_puts : (ℕ → ℕ) → ℕ → List ℕ → Lpuart → Option (List ℕ × Lpuart)
unfolding puts_from
uart_puts memory s reads u = puts_from word memory s reads u
