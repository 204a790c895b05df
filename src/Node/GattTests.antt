-- ===== src/Node/GattTests.antt =====
-- Packets for the bench's node, and its advertising.
use klippylink.Common.{
  ℕ, zero, suc, ◌≡◌, refl, ◌≢◌, true, none, some, List, [], ◌∷◌, ◌++◌, arith, length, get_elem?,
  set, replicate, All,
}
use klippylink.Bench.{leds, outside}
use klippylink.Node.Gatt.{on_zone, with_payload, payload_bytes, zone_cfg}
use klippylink.Node.Effects.{
  Effects, led_max_zones, effects_round, render_all, render_one, flush_dirty, led_effects_set_zone,
}
use klippylink.Node.Effects.Rounds.{HasPixels}
use klippylink.Node.Effects.Zone.{blank_zone}
use klippylink.Node.Running.{NodeStep, NodeRun}
use klippylink.Protocol.Payloads.{LedZone, led_zone_bytes}
use klippylink.Node.Effects.Zone.{Effect, effect_of}
use klippylink.Node.Gatt.Payloads.{zone_of_struct, on_gatts_write-led_zone_set}
use klippylink.Bench.{files, json_of, json_of-HasTexts}
use klippylink.Node.Config.{Loader, config_doc}
use klippylink.Node.Config.Bounds.{IsBounded}
use klippylink.Node.Boot.{app_main}
use klippylink.Node.Boot.Ready.{app_main-IsReady}
use klippylink.Node.ConfigTests.{saved}
use klippylink.Node.Running.Started.{app_main-NodeRun}
use klippylink.Node.Running.Kept.{NodeRun-IsReady}
use klippylink.Protocol.{Command, packet, header}
use klippylink.Bench.{board, node}
use klippylink.Node.Gatt.{Device, BtAction, gatt_server_notify}
use klippylink.Node.Gatt.Dispatch.{dispatch_packet, dispatch_command}
use klippylink.Node.Gatt.Answers.{Answers}
use klippylink.Node.Gatt.Answers.Packets.{dispatch_packet-Answers}
use klippylink.Node.Gatt.Faults.Causes.{dispatch_packet-overread, dispatch_packet-no_mutex}
use klippylink.Esp.{Err}
use klippylink.Bench.{device_cfg}
use klippylink.Node.ConfigTests.{takes_all}
use klippylink.Node.Boot.Ready.{IsReady}
use klippylink.Node.Endstop.{GpioCall}
use klippylink.Node.Gatt.Events.{on_gatts_write, on_gatts_disconnect}
use klippylink.Node.Gatt.Runs.{Quiet, OfflineRun, Offline, Callbacks, Callback, OfflineRun-Quiet}
use klippylink.Node.Gatt.Runs.Start.{IsWhole, Callbacks-on_gatts_write}

-- The node during an update, with its effects engine.
abbrev busy : Device board
busy = record node { has_mutex = true; ota = record (node.ota) { active = true } }

-- OTA_DATA that announces five bytes and has two.
abbrev boastful : List ℕ
boastful = header Command.ota_data 5 ++ (1 ∷ 2 ∷ [])

dispatch_packet-overread_example : dispatch_packet board boastful busy ≡ none
dispatch_packet-overread_example =
    dispatch_packet-overread board boastful busy refl refl refl (omega arith)

abbrev zone_packet : List ℕ
zone_packet = packet Command.led_zone_set (replicate 13 1)

dispatch_packet-no_mutex_example : dispatch_packet board zone_packet node ≡ none
dispatch_packet-no_mutex_example =
    dispatch_packet-no_mutex board zone_packet node refl refl (omega arith) (omega arith)
      (omega arith) refl

abbrev beat : List ℕ
beat = header Command.heartbeat 0

-- The node after its answer to a heartbeat.
abbrev answered : Device board
answered = record node { actions = BtAction.send_indicate 3 0 44 beat ∷ [] }

beat-dispatch_packet : dispatch_packet board beat node ≡ some answered
unfolding dispatch_packet dispatch_command gatt_server_notify
beat-dispatch_packet = refl

dispatch_packet-Answers_example : Answers board node answered
dispatch_packet-Answers_example =
    dispatch_packet-Answers board beat node answered beat-dispatch_packet

abbrev dev_name : List ℕ
dev_name = b'n' ∷ b'1' ∷ []

-- The node after its start.
abbrev ready : Device board
ready = record node {
  effects = record (node.effects) {
    strips = record { strips = record { handle = 5; count = 8 } ∷ []; dev = 0 };
  };
  has_mutex = true;
  endstops = record {
    endstops = record { gpio = 4; active_low = true; cb = true } ∷ [];
    isr_service_installed = true;
    calls =
        GpioCall.config 4 true true
        ∷ GpioCall.install_isr_service
        ∷ GpioCall.isr_handler_add 4 0
        ∷ [];
  };
}

ready-IsReady : IsReady board (λ gpio up cb. Err.esp_ok) takes_all device_cfg ready
ready-IsReady = record {
  configured = refl;
  strips = refl;
  inputs = refl;
  earlier = [];
  pulls = refl;
  engine = refl;
}

zone_packet-IsWhole : IsWhole board zone_packet
zone_packet-IsWhole = record { flag = omega arith; packet = λ h. omega arith }

Callbacks-on_gatts_write_example :
    (e : Device board) × (on_gatts_write board 42 zone_packet (on_gatts_disconnect board ready)
      ≡ some e)
Callbacks-on_gatts_write_example =
    Callbacks-on_gatts_write board (λ gpio up cb. Err.esp_ok) takes_all device_cfg ready
      (on_gatts_disconnect board ready) 42 zone_packet ready-IsReady (omega arith) (λ l c. refl)
      (Callbacks.step Callbacks.stay (Callback.otherwise Offline.disconnected)) zone_packet-IsWhole

OfflineRun-Quiet_example :
    Quiet board
      (on_gatts_disconnect board node)
      (on_gatts_disconnect board (on_gatts_disconnect board node))
OfflineRun-Quiet_example =
    OfflineRun-Quiet board node (OfflineRun.step OfflineRun.stay Offline.disconnected)

-- A round with no zone, then a zone of one pixel, then the central is lost.
idle_round : effects_round leds outside ready.effects ≡ some ready.effects
unfolding effects_round render_all render_one flush_dirty
idle_round = refl

abbrev painting : Device board
painting = record ready {
  effects = record (ready.effects) {
    zones =
        set ready.effects.zones 1
          (record { cfg = record (zone_cfg board (replicate 13 1)) { active = true }; tick = 0 });
  };
}

sets_zone : on_gatts_write board 42 zone_packet ready ≡ some painting
unfolding on_gatts_write dispatch_packet dispatch_command with_payload payload_bytes on_zone
    led_effects_set_zone
sets_zone = refl

afternoon : NodeRun board ready (on_gatts_disconnect board painting)
afternoon =
    NodeRun.step
      (NodeRun.step (NodeRun.step NodeRun.stay (NodeStep.rendered ready.effects refl idle_round)) (
        NodeStep.called (Callback.otherwise (Offline.wrote 42 zone_packet sets_zone))
          (λ e. omega arith)))
      (NodeStep.called (Callback.otherwise Offline.disconnected) tt)

-- No zone of the start is active.
blank-HasPixels : (n : ℕ) → All HasPixels (replicate n blank_zone)
blank-HasPixels zero = tt
blank-HasPixels (suc n) = ((λ active. cc), blank-HasPixels n)

NodeRun-IsReady_example :
    IsReady board
      (λ gpio up cb. Err.esp_ok)
      takes_all
      device_cfg
      (on_gatts_disconnect board painting)
    × ((e : Effects leds outside) × (effects_round leds outside
            (on_gatts_disconnect board painting).effects
          ≡ some e)
        × (length e.zones ≡ led_max_zones))
NodeRun-IsReady_example =
    NodeRun-IsReady board (λ gpio up cb. Err.esp_ok) takes_all device_cfg ready
      (on_gatts_disconnect board painting) ready-IsReady refl (blank-HasPixels 8) afternoon

-- A wipe over the first four pixels.
abbrev wipe_zone : LedZone
wipe_zone = record {
  zone_id = 2;
  strip_idx = 0;
  start = 0;
  count = 4;
  effect = Effect.wipe;
  r = 255;
  g = 0;
  b = 0;
  r2 = 0;
  g2 = 0;
  b2 = 0;
  brightness = 128;
  speed = 10;
}

on_gatts_write-led_zone_set_example :
    (d' : Device board) × (on_gatts_write board 42
        (packet Command.led_zone_set (led_zone_bytes wipe_zone))
        ready
      ≡ some d')
    × (get_elem? d'.effects.zones 2 ≡ some (record { cfg = zone_of_struct wipe_zone; tick = 0 }))
    × (effect_of (zone_of_struct wipe_zone).effect ≡ some Effect.wipe)
    × ((j : ℕ) → 2 ≢ j → get_elem? d'.effects.zones j ≡ get_elem? ready.effects.zones j)
    × (d'.effects.strips ≡ ready.effects.strips)
on_gatts_write-led_zone_set_example =
    on_gatts_write-led_zone_set board wipe_zone ready (omega arith) refl refl (omega arith)

-- The bench's node after its start with the file that was saved, and then a disconnection.
abbrev power_on :
    (out : Device board × Loader files) × (app_main board files
        (json_of (config_doc device_cfg))
        (λ gpio up cb. Err.esp_ok)
        true
        saved
        node
      ≡ some out)
    × IsBounded out.0.cfg
    × IsReady board (λ gpio up cb. Err.esp_ok) takes_all out.0.cfg out.0
power_on =
    app_main-IsReady board (λ gpio up cb. Err.esp_ok) takes_all files
      (json_of (config_doc device_cfg)) (json_of-HasTexts (config_doc device_cfg)) saved node refl
      refl

abbrev lost : Device board
lost = on_gatts_disconnect board power_on.0.0

app_main-NodeRun_example :
    IsReady board (λ gpio up cb. Err.esp_ok) takes_all power_on.0.0.cfg lost
    × ((e : Effects leds outside) × (effects_round leds outside lost.effects ≡ some e)
        × (length e.zones ≡ led_max_zones))
app_main-NodeRun_example =
    app_main-NodeRun board (λ gpio up cb. Err.esp_ok) takes_all files
      (json_of (config_doc device_cfg)) (json_of-HasTexts (config_doc device_cfg)) saved node lost
      power_on.0 refl refl refl power_on.1
      (NodeRun.step NodeRun.stay (NodeStep.called (Callback.otherwise Offline.disconnected) tt))
