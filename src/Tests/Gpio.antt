-- ===== src/Tests/Gpio.antt =====
-- The pins at a small input.
use pi3_distributed_llm_infe.Base.{◌≡◌, arith, some}
use pi3_distributed_llm_infe.Gpio.{Registers, gpio_set_function}
use pi3_distributed_llm_infe.Gpio.Fields.{function_of, gpio_set_function_lem}

-- Each pin has function 1.
abbrev all_ones : Registers
all_ones a = 153391689

gpio_set_function_example :
    (r : Registers) × (gpio_set_function 14 2 all_ones ≡ some r)
    × (function_of r 14 ≡ 2)
    × (function_of r 15 ≡ function_of all_ones 15)
gpio_set_function_example =
    gpio_set_function_lem 14 2 15 all_ones (omega arith) (omega arith) (omega arith)
      (λ e. absurd (omega (arith, e)))
