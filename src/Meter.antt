-- ===== src/Meter.antt =====
-- application/src/hlw8012.rs and application/src/sensors.rs: the energy meter's pulse measurements as
-- they wait in the FIFOs of the two state machines, and one round of the sensor task. Times are the
-- pulses that end within them.
pub mod Fifo
pub mod Pio
mod Examples
use cro_pduster.Prelude.{
  ℕ, ◌-◌, Bool, true, false, Option, none, some, List, [], ◌∷◌, ◌++◌, length, ltb, ◌==◌,
  if◌then◌else◌,
}
use cro_pduster.Web.Sensors.{SensorData}

-- The operations of `f32` that the driver uses, and the constants that are rounded.
pub record Float : Type 1 where
  pub F32 : Type 0
  pub of_u32 : ℕ → F32
  pub mul : F32 → F32 → F32
  pub div : F32 → F32 → F32
  pub sub : F32 → F32 → F32
  pub lt : F32 → F32 → Bool
  pub zero : F32
  pub vref : F32
  pub min_freq_hz : F32
  pub adc_volts : F32
  pub adc_steps : F32
  pub base_temperature : F32
  pub base_volts : F32
  pub volts_per_degree : F32

-- The constants that are exact as `f32`.
module _ (F : Float) where
  abbrev pub two : F.F32
  two = F.of_u32 2

  abbrev pub million : F.F32
  million = F.of_u32 1000000

  abbrev pub f_osc : F.F32
  f_osc = F.of_u32 3579000

  abbrev pub sys_clk_hz : F.F32
  sys_clk_hz = F.of_u32 125000000

  abbrev pub cycles_per_loop : F.F32
  cycles_per_loop = F.of_u32 2

-- The RX FIFO of a state machine has four entries, oldest first; `push noblock` drops the new one
-- where they are taken.
abbrev pub push_noblock : List ℕ → ℕ → List ℕ
push_noblock rx raw = if ltb (length rx) 4 then rx ++ (raw ∷ []) else rx

abbrev pub push_all : List ℕ → List ℕ → List ℕ
push_all rx [] = rx
push_all rx (raw ∷ pulses) = push_all (push_noblock rx raw) pulses

module _ (F : Float) where
  pub record Hlw8012 : Type 0 where
    pub cf : List ℕ
    pub cf1 : List ℕ
    pub sel : Bool
    pub current_multiplier : F.F32
    pub voltage_multiplier : F.F32
    pub power_multiplier : F.F32
    pub timeout_ms : ℕ
    pub sel_settle_ms : ℕ

  pub record Hlw8012Config : Type 0 where
    pub r_sense : F.F32
    pub v_ratio : F.F32
    pub timeout_ms : ℕ
    pub sel_settle_ms : ℕ

  -- The multipliers of `Hlw8012Driver::new`, in the order of the operations there. (The numbers are
  -- exact as `f32`.)
  abbrev pub current_multiplier_of : Hlw8012Config → F.F32
  current_multiplier_of config =
      F.div (F.mul (F.mul (million F) (F.of_u32 512)) F.vref)
        (F.mul (F.mul (F.of_u32 24) (f_osc F)) config.r_sense)

  abbrev pub voltage_multiplier_of : Hlw8012Config → F.F32
  voltage_multiplier_of config =
      F.div (F.mul (F.mul (F.mul (million F) (F.of_u32 512)) F.vref) config.v_ratio)
        (F.mul (two F) (f_osc F))

  abbrev pub power_multiplier_of : Hlw8012Config → F.F32
  power_multiplier_of config =
      F.div (F.mul (F.mul (F.mul (F.mul (million F) (F.of_u32 128)) F.vref) F.vref) config.v_ratio)
        (F.mul (F.mul (F.of_u32 48) (f_osc F)) config.r_sense)

  -- `Hlw8012Driver::new`: nothing is measured yet, and SEL is low.
  pub new_driver : Hlw8012Config → Hlw8012
  new_driver config = record {
    cf = [];
    cf1 = [];
    sel = false;
    current_multiplier = current_multiplier_of config;
    voltage_multiplier = voltage_multiplier_of config;
    power_multiplier = power_multiplier_of config;
    timeout_ms = config.timeout_ms;
    sel_settle_ms = config.sel_settle_ms;
  }

  abbrev pub t_half_us : ℕ → F.F32
  t_half_us delta =
      F.div (F.mul (F.of_u32 delta) (cycles_per_loop F)) (F.div (sys_clk_hz F) (million F))

  -- `!raw` is what is left of 2^32 - 1. (It is compared with zero before it becomes an `f32`.)
  unfoldable pub convert : F.F32 → ℕ → F.F32
  convert multiplier raw =
      let delta = 0xFFFFFFFF - raw in
      let t = t_half_us delta in
      if delta == 0
      then F.zero
      else (if F.lt (F.div (million F) (F.mul t (two F))) F.min_freq_hz
          then F.zero
          else F.div (F.div multiplier t) (two F))

  -- `wait_pull` with a timeout: the oldest entry, or else the first pulse of the wait.
  abbrev pub wait_pull : List ℕ → List ℕ → Option ℕ × List ℕ
  wait_pull (raw ∷ rx) pulses = (some raw, rx)
  wait_pull [] (raw ∷ pulses) = (some raw, [])
  wait_pull [] [] = (none, [])

  abbrev pub or_zero : F.F32 → Option ℕ → F.F32
  or_zero multiplier none = F.zero
  or_zero multiplier (some raw) = convert multiplier raw

  abbrev pub read_value : F.F32 → List ℕ → List ℕ → F.F32 × List ℕ
  read_value multiplier pulses rx =
      let (raw, rx') = wait_pull rx pulses in (or_zero multiplier raw, rx')

  abbrev pub read_power_w : List ℕ → Hlw8012 → F.F32 × Hlw8012
  read_power_w pulses h =
      let (v, rx) = read_value h.power_multiplier pulses h.cf in (v, record h { cf = rx })

  abbrev pub read_current_a : List ℕ → Hlw8012 → F.F32 × Hlw8012
  read_current_a pulses h =
      let (v, rx) = read_value h.current_multiplier pulses h.cf1 in (v, record h { cf1 = rx })

  -- `settle` are the pulses of CF1 while SEL is high and the driver waits.
  abbrev pub read_voltage_v : List ℕ → List ℕ → Hlw8012 → F.F32 × Hlw8012
  read_voltage_v settle pulses h =
      let (v, rx) = read_value h.voltage_multiplier pulses (push_all h.cf1 settle) in
      (v, record h { cf1 = rx; sel = false })

  abbrev temperature_of : ℕ → F.F32
  temperature_of raw = F.sub F.base_temperature (
      F.div (F.sub (F.div (F.mul (F.of_u32 raw) F.adc_volts) F.adc_steps) F.base_volts)
        F.volts_per_degree)

  -- `unwrap_or(0)`, and the datasheet's formula.
  abbrev pub temperature : Option ℕ → F.F32
  temperature none = temperature_of 0
  temperature (some raw) = temperature_of raw

  -- What happens at the pins in one round: the ADC's value, the pulses while the power is read (also
  -- those of CF1), while the current is read, while SEL settles, and while the voltage is read.
  pub record Round : Type 0 where
    pub adc : Option ℕ
    pub cf_at_power : List ℕ
    pub cf1_at_power : List ℕ
    pub cf1_at_current : List ℕ
    pub cf1_at_settle : List ℕ
    pub cf1_at_voltage : List ℕ

  -- One round of `sensor_task`, without the sleep.
  pub sensor_round : Round → Hlw8012 → SensorData F.F32 × Hlw8012
  unfolding convert
  sensor_round r h =
      let (power_w, h1) = read_power_w r.cf_at_power h in
      let h2 : Hlw8012 = record h1 { cf1 = push_all h1.cf1 r.cf1_at_power } in
      let (current_total_a, h3) = read_current_a r.cf1_at_current h2 in
      let (voltage_v, h4) = read_voltage_v r.cf1_at_settle r.cf1_at_voltage h3 in
      (
        record {
          temperature_c = temperature r.adc;
          voltage_v = voltage_v;
          current_total_a = current_total_a;
          power_w = power_w;
        },
        h4,
      )

  -- `SensorData::default_val`
  abbrev pub default_val : SensorData F.F32
  default_val = record {
    temperature_c = F.zero;
    voltage_v = F.zero;
    current_total_a = F.zero;
    power_w = F.zero;
  }

  -- The sleep between the rounds, with the pulses that end in it.
  pub record Sleep : Type 0 where
    pub cf : List ℕ
    pub cf1 : List ℕ

  abbrev pub asleep : Sleep → Hlw8012 → Hlw8012
  asleep z h = record h { cf = push_all h.cf z.cf; cf1 = push_all h.cf1 z.cf1 }

  -- `sensor_task`: `SENSOR_DATA` and the driver after some rounds, each with its sleep.
  pub sensor_task : List (Round × Sleep) → SensorData F.F32 × Hlw8012 → SensorData F.F32 × Hlw8012
  unfolding sensor_round
  sensor_task [] p = p
  sensor_task ((r, z) ∷ rounds) p =
      let (measured, h) = sensor_round r p.1 in sensor_task rounds (measured, asleep z h)
