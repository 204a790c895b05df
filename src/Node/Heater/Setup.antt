-- ===== src/Node/Heater/Setup.antt =====
-- `heater_init` of node/main/heater.c: the ADC and the PWM output are set up, and the task starts.
use klippylink.Common.{ℕ, Bool, true, ◌&&◌, Option, none, some, List, [], ◌∷◌, if◌then◌else◌}
use klippylink.Esp.{Err, is_ok}
use klippylink.Node.Heater.{Floats, Heater, zero_float}

pub data HeaterSetup : Type 0 where
  -- `adc_oneshot_new_unit`, and `adc_oneshot_config_channel` of a channel.
  adc_new_unit : HeaterSetup
  adc_config_channel : ℕ → HeaterSetup
  -- `ledc_timer_config` with its frequency and the bits of its resolution, and `ledc_channel_config`
  -- with its pin and its duty.
  ledc_timer_config : ℕ → ℕ → HeaterSetup
  ledc_channel_config : ℕ → ℕ → HeaterSetup

abbrev pub heater_adc_chan : ℕ
heater_adc_chan = 0

abbrev pub heater_ledc_freq_hz : ℕ
heater_ledc_freq_hz = 1000

abbrev pub heater_ledc_bits : ℕ
heater_ledc_bits = 8

abbrev pub heater_ledc_gpio : ℕ
heater_ledc_gpio = 5

-- `ESP_ERROR_CHECK(call)`, for calls in their order.
unfoldable pub setup_ok : (HeaterSetup → Err) → List HeaterSetup → Bool
setup_ok result [] = true
setup_ok result (a ∷ rest) = let more = setup_ok result rest in is_ok (result a) && more

abbrev pub heater_setup : List HeaterSetup
heater_setup =
    HeaterSetup.adc_new_unit
    ∷ HeaterSetup.adc_config_channel heater_adc_chan
    ∷ HeaterSetup.ledc_timer_config heater_ledc_freq_hz heater_ledc_bits
    ∷ HeaterSetup.ledc_channel_config heater_ledc_gpio 0
    ∷ []

module _ (F : Floats) where
  -- The locals of the task at its first tick; the static variables stay as they are.
  abbrev pub start_task : ℕ → Heater F → Heater F
  start_task now h = record h {
    integral = zero_float F;
    prev_err = zero_float F;
    last_notify = now;
    sampled = none;
  }

  -- `none` is an abort. The task starts if there is memory for it: the result is not looked at.
  unfoldable pub heater_init : (HeaterSetup → Err) → ℕ → Heater F → Option (Heater F)
  heater_init result now h = if setup_ok result heater_setup then some (start_task now h) else none
