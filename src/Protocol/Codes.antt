-- ===== src/Protocol/Codes.antt =====
-- The codes of `klip_command_t`: how a byte is read as an enumerator.
use klippylink.Common.{
  ℕ, ◌<◌, ◌≡◌, refl, Option, none, some, if◌then◌else◌, ◌==◌, arith, List, [], ◌∷◌,
}
use klippylink.Protocol.{Command, command_code, u32_le, u32_bytes}

abbrev commands : List Command
commands =
    Command.ping ∷ Command.pong ∷ Command.set_motor_speed ∷ Command.read_sensor
    ∷ Command.sensor_response ∷ Command.set_config ∷ Command.get_status ∷ Command.status_response
    ∷ Command.neopixel_set ∷ Command.neopixel_set_all ∷ Command.neopixel_set_range
    ∷ Command.led_zone_set ∷ Command.led_zone_clr ∷ Command.endstop_query ∷ Command.endstop_state
    ∷ Command.endstop_subscribe ∷ Command.device_info_req ∷ Command.device_info_resp
    ∷ Command.ota_begin ∷ Command.ota_data ∷ Command.ota_end ∷ Command.ota_status
    ∷ Command.wifi_enable ∷ Command.wifi_status ∷ Command.heater_set ∷ Command.heater_state
    ∷ Command.heartbeat ∷ Command.error ∷ []

abbrev find_command : ℕ → List Command → Option Command
find_command b [] = none
find_command b (c ∷ cs) = if command_code c == b then some c else find_command b cs

-- The cast `(klip_command_t)byte` of a `switch`; `none` stands for the `default` label.
abbrev pub command_of : ℕ → Option Command
command_of b = find_command b commands

-- Reading the code of a command gives the command back, so no two commands share a code.
pub command_of-command_code : (c : Command) → command_of (command_code c) ≡ some c
command_of-command_code Command.ping = refl
command_of-command_code _ = refl

-- Four bytes hold a 32-bit number.
pub u32_le-u32_bytes : (n : ℕ) → n < 4294967296 → u32_le (u32_bytes n) ≡ n
u32_le-u32_bytes n h = omega arith
