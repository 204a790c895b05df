-- ===== src/Node/Heater.antt =====
-- node/main/heater.c: a heater under PID control, in the firmware's full variant.
-- The task's round is two steps, since a callback may come in between: it takes a reading, and it
-- writes the duty that it has computed.
pub mod Stop
pub mod Setup
use klippylink.Common.{
  ℕ, zero, suc, ◌+◌, ◌-◌, ◌*◌, ◌/◌, ◌%◌, ◌^◌, ◌≤◌, ◌<◌, min, ◌≡◌, refl, sym, ap, ap₂, ◌∙◌, subst,
  ◌≢◌, ◌↔◌, ◌⊎◌, inl, inr, Bool, true, false, not, ◌&&◌, ◌||◌, Option, none, some, List, [], ◌∷◌,
  ◌++◌, map, append-nil, append_assoc, arith, ltb, leb, ◌==◌, if◌then◌else◌, ltb→lt, ltb→le, lt→ltb,
  le→ltb, leb→le, leb→lt, le→leb, lt→leb, ==_iff, ==_refl, ==_ne, ==→ne, Bool-cases, Option-cases,
  length, get_elem?, get_or, set, take, drop, replicate, length-append, length-set,
  get_elem?-set_self, get_elem?-set_ne, get_elem?-none, take-append-drop, length-take, length-drop,
  length-replicate, take-all, take-append_left, take-suc-set, take-take, get_or-take,
  get_or-append_left, All, All-append, get_elem?-append_last,
}
use klippylink.Protocol.{Command, header, u8}

-- Single-precision numbers with the operations that heater.c uses.
pub record Floats : Type 1 where
  pub Float : Type 0
  -- A literal, as a fraction.
  pub literal : ℕ → ℕ → Float
  pub add : Float → Float → Float
  pub sub : Float → Float → Float
  pub mul : Float → Float → Float
  pub div : Float → Float → Float
  pub neg : Float → Float
  pub logf : Float → Float
  pub lt : Float → Float → Bool
  pub le : Float → Float → Bool
  -- A cast of an `int` that is not negative.
  pub of_int : ℕ → Float
  -- A cast to `uint8_t`; above 255 and below 0 it is not defined in C.
  pub to_byte : Float → ℕ
  -- The four bytes of a float in memory, and back.
  pub to_bytes : Float → List ℕ
  pub of_bytes : List ℕ → Float

abbrev pub task_hz : ℕ
task_hz = 10

abbrev pub notify_interval_ms : ℕ
notify_interval_ms = 500

module _ (F : Floats) where
  open F use {Float, literal, add, sub, mul, div, neg, logf, lt, le, of_int, to_byte, to_bytes}

  pub data HeaterCall : Type 0 where
    -- `ledc_set_duty` and `ledc_update_duty`
    set_duty : ℕ → HeaterCall
    -- `gatt_server_notify`
    notify : List ℕ → HeaterCall

  -- A duty that the task has computed and not yet written, with the temperature it was computed from.
  pub record Sampled : Type 0 where
    pub temp : Float
    pub duty : ℕ

  -- The static variables, the task's locals, and the calls so far; `xTaskGetTickCount` counts in
  -- ticks of `tick_ms` milliseconds.
  pub record Heater : Type 0 where
    pub target : Float
    pub kp : Float
    pub ki : Float
    pub kd : Float
    pub emergency : Bool
    pub integral : Float
    pub prev_err : Float
    pub last_notify : ℕ
    pub sampled : Option Sampled
    pub calls : List HeaterCall

  abbrev pub heater_call : HeaterCall → Heater → Heater
  heater_call c h = record h { calls = h.calls ++ c ∷ [] }

  abbrev pub zero_float : Float
  zero_float = literal 0 1

  -- The state when the task starts, at a tick.
  abbrev pub heater_start : ℕ → Heater
  heater_start now = record {
    target = zero_float;
    kp = literal 1 1;
    ki = literal 1 10;
    kd = literal 1 100;
    emergency = false;
    integral = zero_float;
    prev_err = zero_float;
    last_notify = now;
    sampled = none;
    calls = [];
  }

  -- `(uint8_t)(out < 0.0f ? 0 : out > 255.0f ? 255 : out)`
  unfoldable pub duty_of : Float → ℕ
  duty_of out =
      if lt out zero_float
      then to_byte zero_float
      else if lt (literal 255 1) out
      then to_byte (literal 255 1)
      else to_byte out

  abbrev pub thermistor_nominal : Float
  thermistor_nominal = literal 10000 1

  abbrev pub temperature_nominal : Float
  temperature_nominal = literal 25 1

  abbrev pub b_coefficient : Float
  b_coefficient = literal 3950 1

  abbrev pub series_resistor : Float
  series_resistor = literal 10000 1

  abbrev pub dt : Float
  dt = div (literal 1 1) (literal task_hz 1)

  -- The PID step at a temperature.
  unfoldable pub pid : Float → Heater → Heater
  pid temp h =
      let err = sub h.target temp in
      let integral = add h.integral (mul err dt) in
      let deriv = div (sub err h.prev_err) dt in
      let out = add (add (mul h.kp err) (mul h.ki integral)) (mul h.kd deriv) in
      record h {
        integral = integral;
        prev_err = err;
        sampled = some (record { temp = temp; duty = duty_of out });
      }

  -- From the voltage, as a fraction of the reference, to degrees.
  unfoldable pub steinhart_hart : Float → Float
  steinhart_hart voltage =
      let resistance = div (mul series_resistor voltage) (sub (literal 1 1) voltage) in
      let log = logf (div resistance thermistor_nominal) in
      let inverse =
        add (div log b_coefficient)
          (div (literal 1 1) (add temperature_nominal (literal 27315 100))) in
      sub (div (literal 1 1) inverse) (literal 27315 100)

  -- `raw` is what the ADC leaves, 0 if the reading fails.
  unfoldable pub read_temperature : ℕ → Float
  read_temperature raw =
      let voltage = div (of_int raw) (literal 4095 1) in
      if le voltage zero_float || le (literal 1 1) voltage
      then neg (literal 1 1)
      else steinhart_hart voltage

  -- The first half of a round: the test of the emergency, or a reading of the ADC.
  unfoldable pub sample : ℕ → Heater → Heater
  sample raw h =
      if h.emergency
      then heater_call (HeaterCall.set_duty 0) (record h { sampled = none })
      else pid (read_temperature raw) h

  -- `klip_heater_state_t`
  abbrev pub heater_state : Sampled → Heater → List ℕ
  heater_state s h =
      header Command.heater_state 9 ++ (to_bytes s.temp ++ (to_bytes h.target ++ s.duty ∷ []))

  abbrev pub write_duty : ℕ → ℕ → Option Sampled → Heater → Heater
  write_duty tick_ms now none h = h
  write_duty tick_ms now (some s) h =
      let h' = heater_call (HeaterCall.set_duty s.duty) (record h { sampled = none }) in
      if leb notify_interval_ms ((((now + 2 ^ 32) - h.last_notify) % 2 ^ 32 * tick_ms) % 2 ^ 32)
      then heater_call (HeaterCall.notify (heater_state s h)) (record h' { last_notify = now })
      else h'

  -- The second half: the duty is written, and the host told every half second.
  unfoldable pub commit : ℕ → ℕ → Heater → Heater
  commit tick_ms now h = write_duty tick_ms now h.sampled h

  unfoldable pub heater_set_target : Float → Heater → Heater
  heater_set_target temp_c h = record h { target = temp_c; emergency = false }

  unfoldable pub heater_set_pid : Float → Float → Float → Heater → Heater
  heater_set_pid kp ki kd h = record h { kp = kp; ki = ki; kd = kd }

  unfoldable pub heater_emergency_off : Heater → Heater
  heater_emergency_off h = heater_call (HeaterCall.set_duty 0) (record h { emergency = true })
