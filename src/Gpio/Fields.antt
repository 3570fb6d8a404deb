-- ===== src/Gpio/Fields.antt =====
-- The function of one pin changes, and that of no other.
use pi3_distributed_llm_infe.Base.{
  ℕ, ◌+◌, ◌-◌, ◌*◌, ◌/◌, ◌%◌, ◌^◌, ◌≤◌, ◌<◌, ◌≡◌, ◌≢◌, refl, sym, ap, ◌∙◌, arith, false, some, ◌==◌,
  ==_self, ltb, bit_and, bit_or, Bool-cases, inl, inr, ◌⊎◌,
}
use pi3_distributed_llm_infe.Base.Bits.{bit_and-low, bit_or-zero}
use pi3_distributed_llm_infe.Gpio.{
  gpio_max_pin, Registers, put32, fsel, shift, cleared, gpio_set_function, gpio_set_input,
  gpio_set_output,
}
use pi3_distributed_llm_infe.Gpio.Word.{
  put_field, put_field_lem, put_field_self, put_field_above, put_field_below,
}

-- What the registers have a pin do.
abbrev pub function_of : Registers → ℕ → ℕ
function_of regs pin = regs (fsel pin) / 2 ^ shift pin % 8

-- The registers with the field of `pin` changed.
abbrev changed : ℕ → ℕ → Registers → Registers
changed pin func regs = put32 (fsel pin) (put_field (shift pin) func (regs (fsel pin))) regs

put32_same : (addr value : ℕ) (regs : Registers) → put32 addr value regs addr ≡ value
put32_same addr value regs = rw (==_self addr) refl

put32_other :
    (addr value : ℕ) (regs : Registers) (a : ℕ) → a ≢ addr → put32 addr value regs a ≡ regs a
put32_other addr value regs a h = let e : (a == addr) ≡ false = ground arith in rw e refl

gpio_set_function-changed :
    (pin func : ℕ) (regs : Registers)
    → pin ≤ gpio_max_pin
    → func < 8
    → regs (fsel pin) < 2 ^ 32
    → gpio_set_function pin func regs ≡ some (changed pin func regs)
unfolding gpio_set_function cleared
gpio_set_function-changed pin func regs hp hf hv =
    let legal : ltb gpio_max_pin pin ≡ false = ground arith in
    let low : bit_and func 7 ≡ func = bit_and-low 3 func ∙ omega arith in
    rw (legal, low, ==_self func)
      (ap (λ x. some (put32 (fsel pin) x regs))
        (put_field_lem (shift pin) func (regs (fsel pin)) hv (omega arith) hf))

-- Another field of the same word.
other_field :
    (i j f v : ℕ)
    → f < 8
    → (i < j) ⊎ (j < i)
    → put_field (3 * i) f v / 2 ^ (3 * j) % 8 ≡ v / 2 ^ (3 * j) % 8
other_field i j f v h (inl above) =
    let e : 3 * i + 3 + 3 * (j - i - 1) ≡ 3 * j = omega arith in
    ap (λ s. put_field (3 * i) f v / 2 ^ s % 8) (sym e)
    ∙ ap (λ x. x % 8) (put_field_above (3 * i) (3 * (j - i - 1)) f v h)
    ∙ ap (λ s. v / 2 ^ s % 8) e
other_field i j f v h (inr below) =
    let e : 3 * j + 3 + 3 * (i - j - 1) ≡ 3 * i = omega arith in
    ap (λ s. put_field s f v / 2 ^ (3 * j) % 8) (sym e)
    ∙ put_field_below (3 * j) (3 * (i - j - 1)) f v

other_function :
    (pin func p : ℕ) (regs : Registers)
    → func < 8
    → p ≢ pin
    → function_of (changed pin func regs) p ≡ function_of regs p
other_function pin func p regs hf ne =
    let v = regs (fsel pin) in
    elim (Bool-cases (p / 10 == pin / 10)) [
      | inr apart ↦
          let elsewhere : fsel p ≢ fsel pin = λ e. absurd (ground (arith, e)) in
          ap (λ x. x / 2 ^ shift p % 8)
            (put32_other (fsel pin) (put_field (shift pin) func v) regs (fsel p) elsewhere)
      | inl together ↦
          let bank : p / 10 ≡ pin / 10 = ground arith in
          let word : fsel p ≡ fsel pin = omega (arith, bank) in
          let places : (pin % 10 < p % 10) ⊎ (p % 10 < pin % 10) = ground (arith, ne, bank) in
          ap (λ a. changed pin func regs a / 2 ^ shift p % 8) word
          ∙ ap (λ x. x / 2 ^ shift p % 8)
              (put32_same (fsel pin) (put_field (shift pin) func v) regs)
          ∙ other_field (pin % 10) (p % 10) func v hf places
          ∙ ap (λ a. regs a / 2 ^ shift p % 8) (sym word)
    ]

-- A legal pin takes the function that it is given, and every other pin keeps its own.
pub gpio_set_function_lem :
    (pin func p : ℕ) (regs : Registers)
    → pin ≤ gpio_max_pin
    → func < 8
    → regs (fsel pin) < 2 ^ 32
    → p ≢ pin
    → (r : Registers) × (gpio_set_function pin func regs ≡ some r)
      × (function_of r pin ≡ func)
      × (function_of r p ≡ function_of regs p)
gpio_set_function_lem pin func p regs hp hf hv ne =
    let v = regs (fsel pin) in
    (
      changed pin func regs,
      gpio_set_function-changed pin func regs hp hf hv,
      ap (λ x. x / 2 ^ shift pin % 8) (put32_same (fsel pin) (put_field (shift pin) func v) regs)
          ∙ put_field_self (shift pin) func v hf,
      other_function pin func p regs hf ne,
    )

-- The two other ways to set a function, on any pin.
gpio_set_output_lem :
    (pin : ℕ) (regs : Registers) → gpio_set_output pin regs ≡ gpio_set_function pin 1 regs
unfolding gpio_set_output gpio_set_function
gpio_set_output_lem pin regs = rw (bit_and-low 3 1) refl

gpio_set_input_lem :
    (pin : ℕ) (regs : Registers) → gpio_set_input pin regs ≡ gpio_set_function pin 0 regs
unfolding gpio_set_input gpio_set_function
gpio_set_input_lem pin regs =
    let z : 0 * 2 ^ shift pin ≡ 0 = omega arith in
    let same : bit_or (cleared pin (regs (fsel pin))) (0 * 2 ^ shift pin)
        ≡ cleared pin (regs (fsel pin)) =
      ap (bit_or (cleared pin (regs (fsel pin)))) z ∙ bit_or-zero (cleared pin (regs (fsel pin))) in
    rw same refl
