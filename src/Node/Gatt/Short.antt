-- ===== src/Node/Gatt/Short.antt =====
-- Packets that a node does not act on.
use klippylink.Common.{
  ℕ, ◌<◌, ◌≡◌, refl, ap, ◌∙◌, ◌≢◌, ◌⊎◌, inl, inr, Option, some, List, arith, ◌==◌, lt→ltb, ==_ne,
  Bool-cases,
}
use klippylink.Protocol.{
  Command, command_code, klipproto_magic, packet_magic, packet_command, packet_length,
}
use klippylink.Protocol.Codes.{command_of, command_of-command_code}
use klippylink.Node.Gatt.{Board, Device, with_payload}
use klippylink.Node.Gatt.Dispatch.{dispatch_packet, dispatch_command, wifi_enable_case}

-- The length of the payload that a command needs.
abbrev pub needs : Command → ℕ
needs Command.neopixel_set = 4
needs Command.neopixel_set_all = 3
needs Command.neopixel_set_range = 5
needs Command.led_zone_set = 13
needs Command.led_zone_clr = 1
needs Command.endstop_query = 1
needs Command.ota_begin = 8
needs Command.wifi_enable = 2
needs Command.heater_set = 16
needs _ = 0

module _ (B : Board) where
  with_payload-short :
      (n : ℕ) (value : List ℕ) (f : List ℕ → Option (Device B)) (d : Device B)
      → packet_length value < n
      → with_payload B n value f d ≡ some d
  unfolding with_payload
  with_payload-short n value f d h = rw (lt→ltb (packet_length value) n h) refl

  dispatch_command-short :
      (c : Command) (value : List ℕ) (d : Device B)
      → packet_length value < needs c
      → dispatch_command B (some c) value d ≡ some d
  unfolding dispatch_command wifi_enable_case
  dispatch_command-short Command.neopixel_set value d h = with_payload-short 4 value _ d h
  dispatch_command-short Command.neopixel_set_all value d h = with_payload-short 3 value _ d h
  dispatch_command-short Command.neopixel_set_range value d h = with_payload-short 5 value _ d h
  dispatch_command-short Command.led_zone_set value d h = with_payload-short 13 value _ d h
  dispatch_command-short Command.led_zone_clr value d h = with_payload-short 1 value _ d h
  dispatch_command-short Command.endstop_query value d h = with_payload-short 1 value _ d h
  dispatch_command-short Command.ota_begin value d h = with_payload-short 8 value _ d h
  dispatch_command-short Command.wifi_enable value d h = rw (lt→ltb (packet_length value) 2 h) refl
  dispatch_command-short Command.heater_set value d h = elim (Bool-cases B.full) [
    | inl e ↦ rw e (with_payload-short 16 value _ d h)
    | inr e ↦ rw e refl
  ]
  dispatch_command-short _ value d h = absurd (omega arith)

  -- A packet whose magic is wrong, or whose length is below what its command needs, changes nothing,
  -- whatever else it holds.
  pub dispatch_packet-short :
      (c : Command) (value : List ℕ) (d : Device B)
      → (packet_magic value ≢ klipproto_magic)
        ⊎ (packet_command value ≡ command_code c) × (packet_length value < needs c)
      → dispatch_packet B value d ≡ some d
  unfolding dispatch_packet
  dispatch_packet-short c value d (inl bad) =
      rw (==_ne (packet_magic value) klipproto_magic bad) refl
  dispatch_packet-short c value d (inr (cmd, short)) =
      elim (Bool-cases (packet_magic value == klipproto_magic)) [
        | inr e ↦ rw e refl
        | inl e ↦
            let q : command_of (packet_command value) ≡ some c =
              ap command_of cmd ∙ command_of-command_code c in
            rw e (ap (λ o. dispatch_command B o value d) q ∙ dispatch_command-short c value d short)
      ]
