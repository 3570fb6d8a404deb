-- ===== src/Gpio.antt =====
-- libpi/src/gpio.c: the pins, by way of the device's registers. The registers are a function of their
-- address; `get32` reads them and `put32` writes one. `none` is `gpio_panic`, which never returns.
pub mod Fields
pub mod Word
use pi3_distributed_llm_infe.Base.{
  ℕ, ◌+◌, ◌*◌, ◌/◌, ◌%◌, ◌^◌, Bool, List, [], ◌∷◌, Option, none, some, ◌==◌, not, ltb,
  if◌then◌else◌, bit_and, bit_or, not32, u32, ◌<<<◌, ◌>>>◌,
}

abbrev pub gpio_max_pin : ℕ
gpio_max_pin = 53

abbrev pub gpio_base : ℕ
gpio_base = 1059061760

abbrev pub gpio_set0 : ℕ
gpio_set0 = gpio_base + 28

abbrev pub gpio_clr0 : ℕ
gpio_clr0 = gpio_base + 40

abbrev pub gpio_lev0 : ℕ
gpio_lev0 = gpio_base + 52

abbrev pub gpio_pud : ℕ
gpio_pud = gpio_base + 148

abbrev pub gpio_pudclk0 : ℕ
gpio_pudclk0 = gpio_base + 152

abbrev pub Registers : Type 0
Registers = ℕ → ℕ

abbrev pub put32 : ℕ → ℕ → Registers → Registers
put32 addr value regs a = if a == addr then value else regs a

-- The address of the word of the function-select registers for a pin, and the pin's place in it.
abbrev pub fsel : ℕ → ℕ
fsel pin = gpio_base + 4 * (pin / 10)

abbrev pub shift : ℕ → ℕ
shift pin = 3 * (pin % 10)

-- `value & ~mask`
unfoldable pub cleared : ℕ → ℕ → ℕ
cleared pin value = bit_and value (not32 (7 <<< shift pin))

unfoldable pub gpio_set_output : ℕ → Registers → Option Registers
gpio_set_output pin regs =
    if ltb gpio_max_pin pin
    then none
    else some (put32 (fsel pin) (bit_or (cleared pin (regs (fsel pin))) (1 <<< shift pin)) regs)

unfoldable pub gpio_set_input : ℕ → Registers → Option Registers
gpio_set_input pin regs =
    if ltb gpio_max_pin pin
    then none
    else some (put32 (fsel pin) (cleared pin (regs (fsel pin))) regs)

unfoldable pub gpio_set_function : ℕ → ℕ → Registers → Option Registers
gpio_set_function pin func regs =
    if ltb gpio_max_pin pin
    then none
    else if not (bit_and func 7 == func)
    then none
    else some (put32 (fsel pin) (bit_or (cleared pin (regs (fsel pin))) (func <<< shift pin)) regs)

unfoldable pub gpio_set_on : ℕ → Registers → Option Registers
gpio_set_on pin regs =
    if ltb gpio_max_pin pin
    then none
    else some (put32 (gpio_set0 + 4 * (pin / 32)) (1 <<< (pin % 32)) regs)

unfoldable pub gpio_set_off : ℕ → Registers → Option Registers
gpio_set_off pin regs =
    if ltb gpio_max_pin pin
    then none
    else some (put32 (gpio_clr0 + 4 * (pin / 32)) (1 <<< (pin % 32)) regs)

unfoldable pub gpio_write : ℕ → ℕ → Registers → Option Registers
gpio_write pin v regs = if not (v == 0) then gpio_set_on pin regs else gpio_set_off pin regs

unfoldable pub gpio_read : ℕ → Registers → Option ℕ
gpio_read pin regs =
    if ltb gpio_max_pin pin
    then none
    else some (bit_and (regs (gpio_lev0 + 4 * (pin / 32))) (1 <<< (pin % 32)) >>> (pin % 32))

-- The writes of `gpio_pud_off`, in their order. `1 << pin` of a pin from 32 on has no value in C; the
-- ARM shifts the one out.
unfoldable pub gpio_pud_off : ℕ → Option (List (ℕ × ℕ))
gpio_pud_off pin =
    if ltb gpio_max_pin pin
    then none
    else some
        ((gpio_pud, 0) ∷ (gpio_pudclk0, u32 (1 <<< pin)) ∷ (gpio_pud, 0) ∷ (gpio_pudclk0, 0) ∷ [])
