-- ===== src/Meter/Fifo.antt =====
-- application/src/hlw8012.rs: which pulse a measurement comes from.
use cro_pduster.Prelude.{
  ℕ, ◌≡◌, refl, ap, ◌∙◌, inl, inr, List, [], ◌∷◌, ◌++◌, length, ltb, Bool-cases, if◌then◌else◌,
}
use cro_pduster.Web.Sensors.{SensorData}
use cro_pduster.Meter.{
  Sleep, asleep, sensor_task, Float, push_all, Hlw8012, convert, Round, sensor_round,
}

-- What waits stays in front of what comes.
push_all-cons :
    (raw : ℕ) (rx pulses : List ℕ) → (rest : List ℕ) × (push_all (raw ∷ rx) pulses ≡ raw ∷ rest)
push_all-cons raw rx [] = (rx, refl)
push_all-cons raw rx (p ∷ pulses) = elim (Bool-cases (ltb (length (raw ∷ rx)) 4)) [
  | inl e ↦
      let (rest, same) = push_all-cons raw (rx ++ (p ∷ [])) pulses in
      (rest, ap (λ b. push_all (if b then raw ∷ (rx ++ (p ∷ [])) else raw ∷ rx) pulses) e ∙ same)
  | inr e ↦
      let (rest, same) = push_all-cons raw rx pulses in
      (rest, ap (λ b. push_all (if b then raw ∷ (rx ++ (p ∷ [])) else raw ∷ rx) pulses) e ∙ same)
]

push_all-cons_two :
    (a b : ℕ) (rx pulses : List ℕ) → (rest : List ℕ) × (push_all (a ∷ b ∷ rx) pulses ≡ a ∷ b ∷ rest)
push_all-cons_two a b rx [] = (rx, refl)
push_all-cons_two a b rx (p ∷ pulses) = elim (Bool-cases (ltb (length (a ∷ b ∷ rx)) 4)) [
  | inl e ↦
      let (rest, same) = push_all-cons_two a b (rx ++ (p ∷ [])) pulses in
      (
        rest,
        ap (λ c. push_all (if c then a ∷ b ∷ (rx ++ (p ∷ [])) else a ∷ b ∷ rx) pulses) e ∙ same,
      )
  | inr e ↦
      let (rest, same) = push_all-cons_two a b rx pulses in
      (
        rest,
        ap (λ c. push_all (if c then a ∷ b ∷ (rx ++ (p ∷ [])) else a ∷ b ∷ rx) pulses) e ∙ same,
      )
]

two_wait :
    (F : Float) (a b : ℕ) (rx : List ℕ) (r : Round F) (h : Hlw8012 F)
    → h.cf1 ≡ a ∷ b ∷ rx
    → ((sensor_round F r h).0.current_total_a ≡ convert F h.current_multiplier a)
      × ((sensor_round F r h).0.voltage_v ≡ convert F h.voltage_multiplier b)
unfolding sensor_round
two_wait F a b rx r h e =
    let (rest, two) = push_all-cons_two a b rx r.cf1_at_power in
    let (later, one) = push_all-cons b rest r.cf1_at_settle in rw (e, two, one) (refl, refl)

push_all-two :
    (p q : ℕ) (rx pulses : List ℕ)
    → (a : ℕ) × (b : ℕ) × (rest : List ℕ) × (push_all rx (p ∷ q ∷ pulses) ≡ a ∷ b ∷ rest)
push_all-two p q [] pulses = let (rest, e) = push_all-cons_two p q [] pulses in (p, q, rest, e)
push_all-two p q (x ∷ []) pulses =
    let (rest, e) = push_all-cons_two x p [] (q ∷ pulses) in (x, p, rest, e)
push_all-two p q (x ∷ y ∷ rx) pulses =
    let (rest, e) = push_all-cons_two x y rx (p ∷ q ∷ pulses) in (x, y, rest, e)

-- After any rounds of the sensor task and a sleep in which two pulses of CF1 end, at least two counts
-- wait in the FIFO of CF1 before the next round begins, and the current and the voltage that the round
-- publishes are computed from the first two of these, whatever pulses end in the round: the voltage is
-- that of a pulse from before SEL was set high.
pub voltage_is_stale :
    (F : Float) (rounds : List (Round F × Sleep F)) (p : SensorData F.F32 × Hlw8012 F) (z : Sleep F)
    (first second : ℕ) (pulses : List ℕ) (r : Round F)
    → z.cf1 ≡ first ∷ second ∷ pulses
    → let woken = asleep F z (sensor_task F rounds p).1 in
      (a : ℕ) × (b : ℕ) × (rest : List ℕ) × (woken.cf1 ≡ a ∷ b ∷ rest)
      × ((sensor_round F r woken).0.current_total_a ≡ convert F woken.current_multiplier a)
      × ((sensor_round F r woken).0.voltage_v ≡ convert F woken.voltage_multiplier b)
voltage_is_stale F rounds p z first second pulses r e =
    let before = (sensor_task F rounds p).1 in
    let (a, b, rest, wait) = push_all-two first second before.cf1 pulses in
    let wait' : push_all before.cf1 z.cf1 ≡ a ∷ b ∷ rest = rw e wait in
    let (current, voltage) = two_wait F a b rest r (asleep F z before) wait' in
    (a, b, rest, wait', current, voltage)
