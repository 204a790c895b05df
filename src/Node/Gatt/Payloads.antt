-- ===== src/Node/Gatt/Payloads.antt =====
-- The structs of the protocol, as node/main/gatt_server.c takes them from a packet that is written to
-- the node.
use klippylink.Common.{
  ℕ, ◌<◌, ◌≡◌, refl, ap, ◌∙◌, ◌≢◌, inl, inr, Bool, true, some, ltb, if◌then◌else◌, lt→leb,
  Bool-cases, length, get_elem?, get_or,
}
use klippylink.Esp.{Err}
use klippylink.Protocol.{Command, packet}
use klippylink.Protocol.Payloads.{
  effect_code, effect_of-effect_code, LedZone, led_zone_bytes, NeopixelSet, neopixel_set_bytes,
  NeopixelSetRange, neopixel_set_range_bytes,
}
use klippylink.Protocol.Payloads.{endstop_state_bytes}
use klippylink.Node.Gatt.{tell_central, endstop_change_cb}
use klippylink.Node.Neopixel.{neopixel_set, neopixel_set_range}
use klippylink.Node.Effects.Zone.{ZoneCfg, effect_of}
use klippylink.Node.Effects.{led_max_zones, led_effects_set_zone}
use klippylink.Node.Effects.Zones.{led_effects_set_zone_lem}
use klippylink.Node.Gatt.{
  Board, Device, idx_cmd_val, with_payload, payload_bytes, on_zone, on_strips, zone_cfg,
}
use klippylink.Node.Gatt.Dispatch.{dispatch_command, neopixel_set_case, neopixel_set_range_case}
use klippylink.Node.Gatt.Events.{on_gatts_write}
use klippylink.Update.{HasHandles}
use klippylink.Update.Packets.{on_gatts_write-command}

-- What the effects engine is to hold of a zone.
abbrev pub zone_of_struct : LedZone → ZoneCfg
zone_of_struct z = record {
  active = true;
  strip_idx = z.strip_idx;
  start = z.start;
  count = z.count;
  effect = effect_code z.effect;
  r = z.r;
  g = z.g;
  b = z.b;
  r2 = z.r2;
  g2 = z.g2;
  b2 = z.b2;
  brightness = z.brightness;
  speed = z.speed;
}

module _ (B : Board) where
  -- The node after a LED_ZONE_SET.
  abbrev with_zone : LedZone → Device B → Device B
  with_zone z d = record d {
    effects =
        (led_effects_set_zone B.leds B.outside z.zone_id (zone_cfg B (led_zone_bytes z))
          d.effects).1;
  }

  takes_zone :
      (z : LedZone) (d : Device B)
      → d.has_mutex ≡ true
      → dispatch_command B
          (some Command.led_zone_set)
          (packet Command.led_zone_set (led_zone_bytes z))
          d
        ≡ some (with_zone z d)
  unfolding dispatch_command with_payload payload_bytes on_zone
  takes_zone z d m = elim (Bool-cases (ltb z.zone_id 8)) [
    | inl e ↦ simp (e, m) refl
    | inr e ↦ simp e refl
  ]

  accepted :
      (z : LedZone) (d : Device B)
      → z.zone_id < led_max_zones
      → (led_effects_set_zone B.leds B.outside z.zone_id
          (zone_cfg B (led_zone_bytes z))
          d.effects).0
        ≡ Err.esp_ok
  unfolding led_effects_set_zone
  accepted z d lt = rw (lt→leb 8 z.zone_id lt) refl

  -- The colors of the other two structs reach the strip.
  pub takes_pixel :
      (p : NeopixelSet) (d : Device B)
      → dispatch_command B
          (some Command.neopixel_set)
          (packet Command.neopixel_set (neopixel_set_bytes p))
          d
        ≡ some
            (on_strips B (neopixel_set B.leds 0 p.led_idx (record { r = p.r; g = p.g; b = p.b })) d)
  unfolding dispatch_command with_payload payload_bytes neopixel_set_case
  takes_pixel p d = refl

  pub takes_range :
      (p : NeopixelSetRange) (d : Device B)
      → dispatch_command B
          (some Command.neopixel_set_range)
          (packet Command.neopixel_set_range (neopixel_set_range_bytes p))
          d
        ≡ some (
            on_strips B
              (neopixel_set_range B.leds 0 p.start p.count (record { r = p.r; g = p.g; b = p.b }))
              d)
  unfolding dispatch_command with_payload payload_bytes neopixel_set_range_case
  takes_range p d = refl

  -- And a node reports an endstop in the struct for it.
  pub says_state :
      (idx : ℕ) (triggered : Bool) (d : Device B)
      → endstop_change_cb B idx triggered d
        ≡ tell_central B
            (packet Command.endstop_state (
              endstop_state_bytes
                (record { endstop_idx = idx; triggered = if triggered then 1 else 0 })))
            d
  unfolding endstop_change_cb
  says_state idx triggered d = refl

  -- A LED_ZONE_SET that carries klip_led_zone_t of klip_protocol.h, written to the handle of the
  -- commands of a node whose effects engine was started, for one of its 8 zones: the zone is active with
  -- the settings of the struct and at tick 0, its effect is the one that the struct names by the
  -- KLIP_EFFECT codes of klip_protocol.h (the Python codec and the host's pages have other codes), and
  -- the other zones and the strips are as they were.
  pub on_gatts_write-led_zone_set :
      (z : LedZone) (d : Device B)
      → HasHandles B d
      → d.has_mutex ≡ true
      → length d.effects.zones ≡ led_max_zones
      → z.zone_id < led_max_zones
      → (d' : Device B) × (on_gatts_write B
            (get_or d.handles idx_cmd_val 0)
            (packet Command.led_zone_set (led_zone_bytes z))
            d
          ≡ some d')
        × (get_elem? d'.effects.zones z.zone_id
            ≡ some (record { cfg = zone_of_struct z; tick = 0 }))
        × (effect_of (zone_of_struct z).effect ≡ some z.effect)
        × ((j : ℕ) → z.zone_id ≢ j → get_elem? d'.effects.zones j ≡ get_elem? d.effects.zones j)
        × (d'.effects.strips ≡ d.effects.strips)
  on_gatts_write-led_zone_set z d hs m size lt =
      let e =
        on_gatts_write-command B Command.led_zone_set 13 (led_zone_bytes z) d hs
        ∙ takes_zone z d m in
      elim (led_effects_set_zone_lem B.leds B.outside z.zone_id (zone_cfg B (led_zone_bytes z))
        d.effects size) [
          | inl (_, there, others, _, strips) ↦
              (with_zone z d, e, there, effect_of-effect_code z.effect, others, strips)
          | inr refused ↦ absurd (let ok = accepted z d lt in let q = ap (λ t. t.0) refused in cc)
        ]
