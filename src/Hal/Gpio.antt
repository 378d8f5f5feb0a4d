-- ===== src/Hal/Gpio.antt =====
-- hal/gpio.h: pins below 32 of one GPIO port.
use helix_rt.Prelude.{ℕ, ◌-◌, ◌/◌, ◌%◌, ◌^◌, List, ◌∷◌, bit_and, bit_or, ◌==◌, if◌then◌else◌}
use helix_rt.Config.{word}

-- A store to DR_SET, DR_CLEAR or DR_TOGGLE, which the port carries out.
pub data PinWrite : Type 0 where
  dr_set : ℕ → PinWrite
  dr_clear : ℕ → PinWrite
  dr_toggle : ℕ → PinWrite

-- The registers that the functions read or write, with the latest store first.
pub record GpioPort : Type 0 where
  pub gdir : ℕ
  pub psr : ℕ
  pub writes : List PinWrite

pub data GpioMode : Type 0 where
  input : GpioMode
  output : GpioMode

-- `1 << pin`, for a pin below 32.
abbrev pub pin_mask : ℕ → ℕ
pin_mask pin = 2 ^ pin % word

unfoldable pub gpio_set_mode : ℕ → GpioMode → GpioPort → GpioPort
gpio_set_mode pin input g = record g { gdir = bit_and g.gdir (word - 1 - pin_mask pin) }
gpio_set_mode pin output g = record g { gdir = bit_or g.gdir (pin_mask pin) }

unfoldable pub gpio_set : ℕ → GpioPort → GpioPort
gpio_set pin g = record g { writes = dr_set (pin_mask pin) ∷ g.writes }

unfoldable pub gpio_clear : ℕ → GpioPort → GpioPort
gpio_clear pin g = record g { writes = dr_clear (pin_mask pin) ∷ g.writes }

unfoldable pub gpio_toggle : ℕ → GpioPort → GpioPort
gpio_toggle pin g = record g { writes = dr_toggle (pin_mask pin) ∷ g.writes }

-- `(gpio->PSR >> pin) & 1`
unfoldable pub gpio_read : ℕ → GpioPort → ℕ
gpio_read pin g = bit_and (g.psr / 2 ^ pin) 1

unfoldable pub gpio_write : ℕ → ℕ → GpioPort → GpioPort
gpio_write pin value g =
    if value == 0
    then record g { writes = dr_clear (pin_mask pin) ∷ g.writes }
    else record g { writes = dr_set (pin_mask pin) ∷ g.writes }
