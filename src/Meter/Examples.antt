-- ===== src/Meter/Examples.antt =====
-- The meter with whole numbers for floats, and the theorems about it at concrete inputs.
use cro_pduster.Prelude.{length, List, ℕ, ◌-◌, ◌*◌, ◌/◌, ◌≡◌, refl, some, [], ◌∷◌, ltb, arith}
use cro_pduster.Config.{hlw8012_pulse_timeout_ms, hlw8012_sel_settle_ms}
use cro_pduster.Meter.{
  Sleep, asleep, sensor_task, default_val, Hlw8012Config, new_driver, read_power_w, read_current_a,
  read_voltage_v, Float, Hlw8012, Round, sensor_round, convert,
}
use cro_pduster.Meter.Fifo.{voltage_is_stale}
use cro_pduster.Meter.Pio.{
  high, after_pulse, chip_value, chip_power, chip_current, chip_voltage, new_driver_measures,
}

abbrev whole : Float
whole = record {
  F32 = ℕ;
  of_u32 = λ n. n;
  mul = λ a b. a * b;
  div = λ a b. a / b;
  sub = λ a b. a - b;
  lt = ltb;
  zero = 0;
  vref = 2;
  min_freq_hz = 1;
  adc_volts = 3;
  adc_steps = 4096;
  base_temperature = 27;
  base_volts = 0;
  volts_per_degree = 1;
}

abbrev config : Hlw8012Config whole
config = record {
  r_sense = 1;
  v_ratio = 1881;
  timeout_ms = hlw8012_pulse_timeout_ms;
  sel_settle_ms = hlw8012_sel_settle_ms;
}

abbrev one_pulse : Hlw8012 whole
one_pulse = record (new_driver whole config) {
  cf = (after_pulse 125).rx;
  cf1 = (after_pulse 125).rx;
}

new_driver_measures_example :
    (length (high 125) ≡ 250)
    × ((read_power_w whole [] one_pulse).0 ≡ chip_value whole (chip_power whole 1 1881) 125)
    × ((read_current_a whole [] one_pulse).0 ≡ chip_value whole (chip_current whole 1) 125)
    × ((read_voltage_v whole [] [] one_pulse).0 ≡ chip_value whole (chip_voltage whole 1881) 125)
new_driver_measures_example = new_driver_measures whole config 125 [] (omega arith) (omega arith)

abbrev quiet : Round whole
quiet = record {
  adc = some 900;
  cf_at_power = [];
  cf1_at_power = [];
  cf1_at_current = [];
  cf1_at_settle = 0xFFFFF000 ∷ [];
  cf1_at_voltage = [];
}

abbrev sleep : Sleep whole
sleep = record { cf = []; cf1 = 0xFFFFFF00 ∷ 0xFFFFFE00 ∷ [] }

abbrev woken : Hlw8012 whole
woken =
    asleep whole sleep
      (sensor_task whole ((quiet, sleep) ∷ []) (default_val whole, new_driver whole config)).1

voltage_is_stale_example :
    (a : ℕ) × (b : ℕ) × (rest : List ℕ) × (woken.cf1 ≡ a ∷ b ∷ rest)
    × ((sensor_round whole quiet woken).0.current_total_a
        ≡ convert whole woken.current_multiplier a)
    × ((sensor_round whole quiet woken).0.voltage_v ≡ convert whole woken.voltage_multiplier b)
voltage_is_stale_example =
    voltage_is_stale whole ((quiet, sleep) ∷ []) (default_val whole, new_driver whole config) sleep
      0xFFFFFF00 0xFFFFFE00 [] quiet refl
