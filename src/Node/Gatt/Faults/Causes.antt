-- ===== src/Node/Gatt/Faults/Causes.antt =====
-- Packets that `dispatch_packet` of node/main/gatt_server.c faults on.
use klippylink.Common.{
  ℕ, ◌+◌, ◌≤◌, ◌<◌, ◌≡◌, refl, sym, ap, ◌∙◌, subst, true, false, none, some, List, arith, ltb, ◌==◌,
  lt→ltb, le→ltb, ==_refl, length, get_or, take, drop, get_or-take,
}
use klippylink.Protocol.{
  Command, command_code, klip_header_size, klipproto_magic, packet_magic, packet_command,
  packet_length,
}
use klippylink.Protocol.Codes.{command_of, command_of-command_code}
use klippylink.Node.Effects.{led_max_zones}
use klippylink.Node.Gatt.{Board, Device, with_payload, on_zone, byte}
use klippylink.Node.Gatt.Dispatch.{dispatch_packet, dispatch_command, ota_data_case}
use klippylink.Node.Gatt.Faults.{head-drop, payload_bytes_lem, payload_bytes-none}

module _ (B : Board) where
  dispatch_packet_lem :
      (c : Command) (value : List ℕ) (d : Device B)
      → packet_magic value ≡ klipproto_magic
      → packet_command value ≡ command_code c
      → dispatch_packet B value d ≡ dispatch_command B (some c) value d
  unfolding dispatch_packet
  dispatch_packet_lem c value d m k =
      let e : (packet_magic value == klipproto_magic) ≡ true =
        ap (λ x. x == klipproto_magic) m ∙ ==_refl klipproto_magic in
      simp e (ap (λ o. dispatch_command B o value d) (ap command_of k ∙ command_of-command_code c))

  -- During an update, an OTA_DATA packet whose length byte is more than was written behind the header
  -- is a fault: the length is believed, and bytes behind the written ones are read.
  pub dispatch_packet-overread :
      (value : List ℕ) (d : Device B)
      → packet_magic value ≡ klipproto_magic
      → packet_command value ≡ command_code Command.ota_data
      → d.ota.active ≡ true
      → length value < klip_header_size + packet_length value
      → dispatch_packet B value d ≡ none
  unfolding dispatch_command ota_data_case
  dispatch_packet-overread value d m k a h =
      dispatch_packet_lem Command.ota_data value d m k
      ∙ simp (a, payload_bytes-none 0 (packet_length value) value (omega arith)) refl

  -- On a node whose effects engine was not started, a complete LED_ZONE_SET packet for an existing
  -- zone is a fault: the null mutex is taken.
  pub dispatch_packet-no_mutex :
      (value : List ℕ) (d : Device B)
      → packet_magic value ≡ klipproto_magic
      → packet_command value ≡ command_code Command.led_zone_set
      → 13 ≤ packet_length value
      → klip_header_size + packet_length value ≤ length value
      → get_or value klip_header_size 0 < led_max_zones
      → d.has_mutex ≡ false
      → dispatch_packet B value d ≡ none
  unfolding dispatch_command with_payload on_zone
  dispatch_packet-no_mutex value d m k long whole zone missing =
      let e : ltb (packet_length value) 13 ≡ false = le→ltb (packet_length value) 13 long in
      let q : ltb (byte B (take 13 (drop 4 value)) 0) led_max_zones ≡ true =
        lt→ltb _ led_max_zones (
          subst (λ k. k < led_max_zones)
            (sym (get_or-take 0 13 (drop 4 value) 0 (omega arith) ∙ head-drop 4 value 0)) zone) in
      dispatch_packet_lem Command.led_zone_set value d m k
      ∙ simp (e, payload_bytes_lem 0 13 value (omega arith), q, missing) refl
