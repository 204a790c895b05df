-- ===== src/Protocol.antt =====
-- shared/protocol/klip_protocol.h: the commands, the packet header and the packets.
-- A byte is a number below 256; a packed struct is the list of its bytes, little end first.
pub mod Codes
pub mod Payloads
use klippylink.Common.{
  ℕ, ◌+◌, ◌*◌, ◌/◌, ◌%◌, ◌<◌, ◌≡◌, List, [], ◌∷◌, ◌++◌, Option, none, some, length, get_or, drop,
  if◌then◌else◌, ◌==◌,
}

-- `klip_command_t`
pub data Command : Type 0 where
  ping pong set_motor_speed read_sensor sensor_response set_config get_status : Command
  status_response neopixel_set neopixel_set_all neopixel_set_range : Command
  led_zone_set led_zone_clr endstop_query endstop_state endstop_subscribe : Command
  device_info_req device_info_resp ota_begin ota_data ota_end ota_status : Command
  wifi_enable wifi_status heater_set heater_state heartbeat error : Command

-- The byte of a command.
abbrev pub command_code : Command → ℕ
command_code Command.ping = 0x01
command_code Command.pong = 0x02
command_code Command.set_motor_speed = 0x10
command_code Command.read_sensor = 0x20
command_code Command.sensor_response = 0x21
command_code Command.set_config = 0x30
command_code Command.get_status = 0x40
command_code Command.status_response = 0x41
command_code Command.neopixel_set = 0x50
command_code Command.neopixel_set_all = 0x51
command_code Command.neopixel_set_range = 0x52
command_code Command.led_zone_set = 0x53
command_code Command.led_zone_clr = 0x54
command_code Command.endstop_query = 0x60
command_code Command.endstop_state = 0x61
command_code Command.endstop_subscribe = 0x62
command_code Command.device_info_req = 0x70
command_code Command.device_info_resp = 0x71
command_code Command.ota_begin = 0x80
command_code Command.ota_data = 0x81
command_code Command.ota_end = 0x82
command_code Command.ota_status = 0x83
command_code Command.wifi_enable = 0xA0
command_code Command.wifi_status = 0xA1
command_code Command.heater_set = 0xB0
command_code Command.heater_state = 0xB1
command_code Command.heartbeat = 0xC0
command_code Command.error = 0xFF

abbrev pub klipproto_magic : ℕ
klipproto_magic = 0x4B4C

abbrev pub klip_header_size : ℕ
klip_header_size = 4

abbrev pub klip_max_payload_size : ℕ
klip_max_payload_size = 244

abbrev pub klip_max_packet_size : ℕ
klip_max_packet_size = klip_header_size + klip_max_payload_size

-- `KLIP_OTA_OK`, `KLIP_OTA_ERROR` and `KLIP_OTA_IN_PROGRESS`
pub data OtaStatus : Type 0 where
  done failed in_progress : OtaStatus

abbrev pub status_code : OtaStatus → ℕ
status_code OtaStatus.done = 0
status_code OtaStatus.failed = 1
status_code OtaStatus.in_progress = 2

-- A cast to `uint8_t`.
abbrev pub u8 : ℕ → ℕ
u8 n = n % 256

abbrev pub u16_le : List ℕ → ℕ
u16_le bs = get_or bs 0 0 + 256 * get_or bs 1 0

abbrev pub u32_le : List ℕ → ℕ
u32_le bs = get_or bs 0 0 + 256 * get_or bs 1 0 + 65536 * get_or bs 2 0 + 16777216 * get_or bs 3 0

abbrev pub u32_bytes : ℕ → List ℕ
u32_bytes n = n % 256 ∷ (n / 256) % 256 ∷ (n / 65536) % 256 ∷ (n / 16777216) % 256 ∷ []

-- The fields of `klip_packet_t` read from the bytes of a packet.
abbrev pub packet_magic : List ℕ → ℕ
packet_magic bs = u16_le bs

abbrev pub packet_command : List ℕ → ℕ
packet_command bs = get_or bs 2 0

abbrev pub packet_length : List ℕ → ℕ
packet_length bs = get_or bs 3 0

abbrev pub packet_payload : List ℕ → List ℕ
packet_payload bs = drop 4 bs

-- The bytes that a sender writes: magic, command, length, payload.
abbrev pub header : Command → ℕ → List ℕ
header c len = 0x4C ∷ 0x4B ∷ command_code c ∷ len ∷ []

abbrev pub packet : Command → List ℕ → List ℕ
packet c payload = header c (u8 (length payload)) ++ payload
