-- ===== src/Node/Running.antt =====
-- A node that runs: the callbacks of node/main/gatt_server.c and wifi_node.c, the tasks of
-- led_effects.c and heater.c, and the pins, in any order.
pub mod Parts
pub mod Kept
pub mod Started
use klippylink.Common.{
  ℕ, zero, suc, ◌+◌, ◌-◌, ◌*◌, ◌/◌, ◌%◌, ◌^◌, ◌≤◌, ◌<◌, min, ◌≡◌, refl, sym, ap, ap₂, ◌∙◌, subst,
  ◌≢◌, ◌↔◌, ◌⊎◌, inl, inr, Bool, true, false, not, ◌&&◌, ◌||◌, Option, none, some, List, [], ◌∷◌,
  ◌++◌, map, append-nil, append_assoc, arith, ltb, leb, ◌==◌, if◌then◌else◌, ltb→lt, ltb→le, lt→ltb,
  le→ltb, leb→le, leb→lt, le→leb, lt→leb, ==_iff, ==_refl, ==_ne, ==→ne, Bool-cases, Option-cases,
  length, get_elem?, get_or, set, take, drop, replicate, length-append, length-set,
  get_elem?-set_self, get_elem?-set_ne, get_elem?-none, take-append-drop, length-take, length-drop,
  length-replicate, take-all, take-append_left, take-suc-set, take-take, get_or-take,
  get_or-append_left, All, All-append, get_elem?-append_last,
}
use klippylink.Protocol.{Command, packet_command, packet_payload}
use klippylink.Protocol.Codes.{command_of}
use klippylink.Node.Effects.{Effects, effects_round}
use klippylink.Node.Heater.{sample, commit}
use klippylink.Node.Wifi.{on_sta_disconnected, on_got_ip}
use klippylink.Node.Gatt.{Board, Device}
use klippylink.Node.Gatt.Runs.{Offline, Callback}

-- A zone that the packet sets has at least one pixel.
abbrev pub HasZonePixels : List ℕ → Type 0
HasZonePixels value =
    command_of (packet_command value) ≡ some Command.led_zone_set
    → get_or (packet_payload value) 3 0 ≢ 0

module _ (B : Board) where
  abbrev pub SetsPixels : {d d' : Device B} → Callback B d d' → Type 0
  SetsPixels (Callback.otherwise (Offline.wrote handle value h)) = HasZonePixels value
  SetsPixels c = Unit

  -- What happens next: a callback of the Bluetooth stack, a round of the effects task, which is there
  -- if the engine was started, the task of the heater, an event of the wireless network, or new levels
  -- on the pins.
  pub data NodeStep (d : Device B) : Device B → Type 0 where
    called : {d' : Device B} (c : Callback B d d') → SetsPixels c → NodeStep d d'
    rendered :
        (e : Effects B.leds B.outside)
        → d.has_mutex ≡ true
        → effects_round B.leds B.outside d.effects ≡ some e
        → NodeStep d (record d { effects = e })
    sampled : (raw : ℕ) → NodeStep d (record d { heater = sample B.floats raw d.heater })
    committed :
        (tick_ms now : ℕ) → NodeStep d (record d { heater = commit B.floats tick_ms now d.heater })
    station_lost : NodeStep d (record d { wifi = on_sta_disconnected d.wifi })
    got_ip : (addr : ℕ) → NodeStep d (record d { wifi = on_got_ip addr d.wifi })
    moved : (levels : ℕ → ℕ) → NodeStep d (record d { levels = levels })

  pub data NodeRun (d : Device B) : Device B → Type 0 where
    stay : NodeRun d d
    step : {e f : Device B} → NodeRun d e → NodeStep e f → NodeRun d f
