-- ===== src/Node/Gatt/Dispatch.antt =====
-- `dispatch_packet` of node/main/gatt_server.c, with the whole of each command's case.
use klippylink.Common.{
  ℕ, ◌+◌, min, true, false, Option, some, List, ltb, ◌==◌, if◌then◌else◌, take, drop,
}
use klippylink.Json.{c_string, ◌>>=◌}
use klippylink.Protocol.{
  Command, header, klipproto_magic, u32_le, packet_magic, packet_command, packet_length,
}
use klippylink.Protocol.Codes.{command_of}
use klippylink.Node.Neopixel.{neopixel_set, neopixel_set_all, neopixel_set_range}
use klippylink.Node.Effects.{led_effects_set_zone, led_effects_clear_zone}
use klippylink.Node.Endstop.{endstop_read}
use klippylink.Node.Ota.{ota_begin, ota_write, ota_end}
use klippylink.Node.Wifi.{wifi_node_enable}
use klippylink.Node.Heater.{heater_set_target, heater_set_pid}
use klippylink.Node.Gatt.{
  Board, Device, tell_central, endstop_change_cb, run_ota, send_device_info, with_payload,
  payload_bytes, on_strips, on_zone, byte, color_at, zone_cfg,
}

module _ (B : Board) where
  unfoldable pub neopixel_set_case : List ℕ → Device B → Device B
  neopixel_set_case p d = on_strips B (neopixel_set B.leds 0 (byte B p 0) (color_at B p 1)) d

  unfoldable pub neopixel_set_all_case : List ℕ → Device B → Device B
  neopixel_set_all_case p d = on_strips B (neopixel_set_all B.leds 0 (color_at B p 0)) d

  unfoldable pub neopixel_set_range_case : List ℕ → Device B → Device B
  neopixel_set_range_case p d =
      on_strips B (neopixel_set_range B.leds 0 (byte B p 0) (byte B p 1) (color_at B p 2)) d

  unfoldable pub endstop_query_case : List ℕ → Device B → Device B
  endstop_query_case p d =
      let idx = byte B p 0 in endstop_change_cb B idx (endstop_read d.levels idx d.endstops) d

  unfoldable pub ota_begin_case : List ℕ → Device B → Device B
  ota_begin_case p d = run_ota B (ota_begin B.platform (u32_le p) (u32_le (drop 4 p)) true) d

  -- `ota_write` reads the payload only during an update.
  unfoldable pub ota_data_case : List ℕ → Device B → Option (Device B)
  ota_data_case value d =
      if d.ota.active
      then (payload_bytes 0 (packet_length value) value >>= λ bytes.
          some (run_ota B (ota_write B.platform bytes) d))
      else some d

  -- [ssid_len, ssid, pass_len, pass]: the last two are the lengths that the packet claims.
  unfoldable pub wifi_join : ℕ → ℕ → List ℕ → Device B → Option (Device B)
  wifi_join ssid_len pass_len value d = payload_bytes 1 (min ssid_len 32) value >>= λ ssid.
      payload_bytes (2 + ssid_len) (min pass_len 64) value >>= λ pass.
      wifi_node_enable B.wifi_result (c_string ssid) (c_string pass) false d.wifi >>= λ w.
      some (record d { wifi = w })

  unfoldable pub wifi_pass : ℕ → List ℕ → Device B → Option (Device B)
  wifi_pass ssid_len value d =
      if ltb (packet_length value) (1 + ssid_len + 1)
      then some d
      else (payload_bytes (1 + ssid_len) 1 value >>= λ q.
          if ltb (packet_length value) (1 + ssid_len + 1 + byte B q 0)
          then some d
          else wifi_join ssid_len (byte B q 0) value d)

  unfoldable pub wifi_enable_case : List ℕ → Device B → Option (Device B)
  wifi_enable_case value d =
      if ltb (packet_length value) 2
      then some d
      else (payload_bytes 0 1 value >>= λ q. wifi_pass (byte B q 0) value d)

  -- `klip_heater_cfg_t`, in the full variant only.
  unfoldable pub heater_set_case : List ℕ → Device B → Device B
  heater_set_case p d =
      let float = λ (i : ℕ). B.floats.of_bytes (take 4 (drop i p)) in
      record d {
        heater =
            heater_set_pid B.floats (float 4) (float 8) (float 12)
              (heater_set_target B.floats (float 0) d.heater);
      }

  unfoldable pub dispatch_command : Option Command → List ℕ → Device B → Option (Device B)
  dispatch_command (some Command.ping) value d = some (tell_central B (header Command.pong 0) d)
  dispatch_command (some Command.neopixel_set) value d =
      with_payload B 4 value (λ p. some (neopixel_set_case p d)) d
  dispatch_command (some Command.neopixel_set_all) value d =
      with_payload B 3 value (λ p. some (neopixel_set_all_case p d)) d
  dispatch_command (some Command.neopixel_set_range) value d =
      with_payload B 5 value (λ p. some (neopixel_set_range_case p d)) d
  dispatch_command (some Command.led_zone_set) value d =
      with_payload B 13 value
        (λ p.
          on_zone B (byte B p 0) (led_effects_set_zone B.leds B.outside (byte B p 0) (zone_cfg B p))
            d)
        d
  dispatch_command (some Command.led_zone_clr) value d =
      with_payload B 1 value
        (λ p. on_zone B (byte B p 0) (led_effects_clear_zone B.leds B.outside (byte B p 0)) d) d
  dispatch_command (some Command.endstop_query) value d =
      with_payload B 1 value (λ p. some (endstop_query_case p d)) d
  dispatch_command (some Command.device_info_req) value d = some (send_device_info B d)
  dispatch_command (some Command.ota_begin) value d =
      with_payload B 8 value (λ p. some (ota_begin_case p d)) d
  dispatch_command (some Command.ota_data) value d = ota_data_case value d
  dispatch_command (some Command.ota_end) value d = some (run_ota B (ota_end B.platform) d)
  dispatch_command (some Command.wifi_enable) value d = wifi_enable_case value d
  dispatch_command (some Command.heartbeat) value d =
      some (tell_central B (header Command.heartbeat 0) d)
  dispatch_command (some Command.heater_set) value d =
      if B.full then with_payload B 16 value (λ p. some (heater_set_case p d)) d else some d
  dispatch_command _ value d = some d

  unfoldable pub dispatch_packet : List ℕ → Device B → Option (Device B)
  dispatch_packet value d =
      if packet_magic value == klipproto_magic
      then dispatch_command (command_of (packet_command value)) value d
      else some d
