-- ===== src/Meter/Pio.antt =====
-- application/src/hlw8012.rs: the PIO program, an instruction for each sample of the pin, and the
-- count that it pushes for a pulse.
use cro_pduster.Prelude.{
  ℕ, zero, suc, ◌-◌, ◌≤◌, ◌<◌, ◌*◌, ◌≡◌, refl, length, ap, ◌∙◌, Bool, true, false, List, [], ◌∷◌,
  ◌++◌, ◌==◌, arith, if◌then◌else◌,
}
use cro_pduster.Meter.{
  Hlw8012, Hlw8012Config, new_driver, read_power_w, read_current_a, read_voltage_v,
  power_multiplier_of, current_multiplier_of, voltage_multiplier_of, Float, two, million,
  push_noblock, convert, t_half_us, read_value,
}

-- The instructions, by the place of each in the program.
pub data Instruction : Type 0 where
  wait_1 mov_x jmp_pin jmp_done jmp_x_dec mov_isr push wait_0 : Instruction

pub record StateMachine : Type 0 where
  pub pc : Instruction
  pub x : ℕ
  pub isr : ℕ
  pub rx : List ℕ

abbrev execute : Instruction → Bool → StateMachine → StateMachine
execute wait_1 pin m = record m { pc = if pin then mov_x else wait_1 }
execute mov_x pin m = record m { pc = jmp_pin; x = 0xFFFFFFFF }
execute jmp_pin pin m = record m { pc = if pin then jmp_x_dec else jmp_done }
execute jmp_done pin m = record m { pc = mov_isr }
execute jmp_x_dec pin m =
    if m.x == 0
    then record m { pc = mov_isr; x = 0xFFFFFFFF }
    else record m { pc = jmp_pin; x = m.x - 1 }
execute mov_isr pin m = record m { pc = push; isr = m.x }
execute push pin m = record m { pc = wait_0; isr = 0; rx = push_noblock m.rx m.isr }
execute wait_0 pin m = record m { pc = if pin then wait_0 else wait_1 }

-- One cycle, with the pin as it is then.
unfoldable pub step : Bool → StateMachine → StateMachine
step pin m = execute m.pc pin m

pub run : List Bool → StateMachine → StateMachine
unfolding step
run [] m = m
run (pin ∷ pins) m = run pins (step pin m)

-- The pin during `n` rounds of the loop.
abbrev pub high : ℕ → List Bool
high zero = []
high (suc n) = true ∷ true ∷ high n

length-high : (n : ℕ) → length (high n) ≡ n * 2
length-high zero = refl
length-high (suc n) = omega (arith, length-high n)

abbrev pub machine : Instruction → ℕ → ℕ → List ℕ → StateMachine
machine pc x isr rx = record { pc = pc; x = x; isr = isr; rx = rx }

loop_lem :
    (n : ℕ) (pins : List Bool) (x isr : ℕ) (rx : List ℕ)
    → n ≤ x
    → run (high n ++ pins) (machine jmp_pin x isr rx) ≡ run pins (machine jmp_pin (x - n) isr rx)
unfolding run
loop_lem zero pins x isr rx h = ap (λ k. run pins (machine jmp_pin k isr rx)) (omega arith)
loop_lem (suc n) pins x isr rx h =
    let more : (x == 0) ≡ false = ground arith in
    ap
      (λ b.
        run (high n ++ pins)
          (if b then machine mov_isr 0xFFFFFFFF isr rx else machine jmp_pin (x - 1) isr rx))
      more
    ∙ loop_lem n pins (x - 1) isr rx (omega arith)
    ∙ ap (λ k. run pins (machine jmp_pin k isr rx))
        (let e : x - 1 - n ≡ x - suc n = omega arith in e)

-- A pulse that lasts for `n` rounds of the loop, and is low then, is pushed as `!n`, unless the FIFO is
-- full, and the machine waits for the end of the high level. (The count does not overflow.)
pub pulse_counted :
    (n x isr : ℕ) (rx : List ℕ)
    → n ≤ 0xFFFFFFFF
    → run (true ∷ true ∷ (high n ++ (false ∷ false ∷ false ∷ false ∷ []))) (machine wait_1 x isr rx)
      ≡ machine wait_0 (0xFFFFFFFF - n) 0 (push_noblock rx (0xFFFFFFFF - n))
unfolding run
pulse_counted n x isr rx h = loop_lem n (false ∷ false ∷ false ∷ false ∷ []) 0xFFFFFFFF isr rx h

-- The driver's conversion recovers the rounds from the count.
pub convert_counted :
    (F : Float) (multiplier : F.F32) (n : ℕ)
    → 0 < n
    → n ≤ 0xFFFFFFFF
    → convert F multiplier (0xFFFFFFFF - n) ≡ (
        if F.lt (F.div (million F) (F.mul (t_half_us F n) (two F))) F.min_freq_hz
        then F.zero
        else F.div (F.div multiplier (t_half_us F n)) (two F))
unfolding convert
convert_counted F multiplier n p h =
    let back : 0xFFFFFFFF - (0xFFFFFFFF - n) ≡ n = omega arith in
    let some_rounds : (n == 0) ≡ false = ground arith in rw (back, some_rounds)

-- From an empty FIFO, what the driver reads after a pulse of `n` rounds, at least one, is the formula
-- of the chip for `n`: the multiplier over the half period over two, or zero below the least
-- frequency. (The count does not overflow.)
pub pulse_measured :
    (F : Float) (multiplier : F.F32) (n x isr : ℕ) (later : List ℕ)
    → 0 < n
    → n ≤ 0xFFFFFFFF
    → let m =
        run
          (true ∷ true ∷ (high n ++ (false ∷ false ∷ false ∷ false ∷ [])))
          (machine wait_1 x isr []) in
      read_value F multiplier later m.rx ≡ (
        if F.lt (F.div (million F) (F.mul (t_half_us F n) (two F))) F.min_freq_hz
            then F.zero
            else F.div (F.div multiplier (t_half_us F n)) (two F),
        [],
      )
pulse_measured F multiplier n x isr later p h =
    rw (pulse_counted n x isr [] h, convert_counted F multiplier n p h)

-- The chip's formula for a pulse that is high for `n` rounds of two cycles at 125 MHz: `multiplier`
-- over the half period in microseconds, over two; or zero below the least frequency.
abbrev pub chip_value : (F : Float) → F.F32 → ℕ → F.F32
chip_value F multiplier n =
    let half =
      F.div (F.mul (F.of_u32 n) (F.of_u32 2)) (F.div (F.of_u32 125000000) (F.of_u32 1000000)) in
    if F.lt (F.div (F.of_u32 1000000) (F.mul half (F.of_u32 2))) F.min_freq_hz
    then F.zero
    else F.div (F.div multiplier half) (F.of_u32 2)

-- The chip's output frequencies, solved for each quantity: power `1e6 * 128 * vref^2 * v_ratio / (48 *
-- f_osc * r_sense)`, current `1e6 * 512 * vref / (24 * f_osc * r_sense)`, and voltage `1e6 * 512 * vref
-- * v_ratio / (2 * f_osc)`, at 3.579 MHz.
abbrev pub chip_power : (F : Float) → F.F32 → F.F32 → F.F32
chip_power F r_sense v_ratio =
    F.div (F.mul (F.mul (F.mul (F.mul (F.of_u32 1000000) (F.of_u32 128)) F.vref) F.vref) v_ratio)
      (F.mul (F.mul (F.of_u32 48) (F.of_u32 3579000)) r_sense)

abbrev pub chip_current : (F : Float) → F.F32 → F.F32
chip_current F r_sense =
    F.div (F.mul (F.mul (F.of_u32 1000000) (F.of_u32 512)) F.vref)
      (F.mul (F.mul (F.of_u32 24) (F.of_u32 3579000)) r_sense)

abbrev pub chip_voltage : (F : Float) → F.F32 → F.F32
chip_voltage F v_ratio =
    F.div (F.mul (F.mul (F.mul (F.of_u32 1000000) (F.of_u32 512)) F.vref) v_ratio)
      (F.mul (F.of_u32 2) (F.of_u32 3579000))

-- The state machine after a pulse of `n` rounds, from an empty FIFO.
abbrev pub after_pulse : ℕ → StateMachine
after_pulse n =
    run (true ∷ true ∷ (high n ++ (false ∷ false ∷ false ∷ false ∷ []))) (machine wait_1 0 0 [])

-- A new driver measures power, current and voltage of a pulse of `n` rounds, at least one, by the
-- chip's formulas, with their numbers written out: the machine takes two cycles of 125 MHz for a
-- round, and the driver gets from what it pushes to the quantity that the chip's frequency stands for,
-- or zero below the least frequency. (The FIFOs hold that pulse alone; the count does not overflow.)
pub new_driver_measures :
    (F : Float) (config : Hlw8012Config F) (n : ℕ) (later : List ℕ)
    → 0 < n
    → n ≤ 0xFFFFFFFF
    → let h : Hlw8012 F = record (new_driver F config) {
      cf = (after_pulse n).rx;
      cf1 = (after_pulse n).rx;
    } in
      (length (high n) ≡ n * 2)
      × ((read_power_w F later h).0 ≡ chip_value F (chip_power F config.r_sense config.v_ratio) n)
      × ((read_current_a F later h).0 ≡ chip_value F (chip_current F config.r_sense) n)
      × ((read_voltage_v F [] later h).0 ≡ chip_value F (chip_voltage F config.v_ratio) n)
unfolding new_driver
new_driver_measures F config n later p h =
    let reads =
      λ (multiplier : F.F32). ap (λ v. v.0) (pulse_measured F multiplier n 0 0 later p h) in
    (
      length-high n,
      reads (power_multiplier_of F config),
      reads (current_multiplier_of F config),
      reads (voltage_multiplier_of F config),
    )
