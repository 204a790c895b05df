-- ===== src/Node/Gatt.antt =====
-- node/main/gatt_server.c: the Bluetooth side of a node, and the commands that it takes.
-- Each callback of the Bluetooth stack is a step on the state of the node's parts; `none` is a fault:
-- a read past the bytes that were written, a division by zero, a mutex that was never made, or a
-- failed ESP_ERROR_CHECK.
pub mod Info
pub mod Adv
pub mod Dispatch
pub mod Cases
pub mod Table
pub mod Payloads
pub mod Events
pub mod Answers
pub mod Short
pub mod Advert
pub mod Runs
pub mod Faults
use klippylink.Common.{
  ℕ, zero, suc, ◌+◌, ◌-◌, ◌*◌, ◌/◌, ◌%◌, ◌^◌, ◌≤◌, ◌<◌, min, ◌≡◌, refl, sym, ap, ap₂, ◌∙◌, subst,
  ◌≢◌, ◌↔◌, ◌⊎◌, inl, inr, Bool, true, false, not, ◌&&◌, ◌||◌, Option, none, some, List, [], ◌∷◌,
  ◌++◌, map, append-nil, append_assoc, arith, ltb, leb, ◌==◌, if◌then◌else◌, ltb→lt, ltb→le, lt→ltb,
  le→ltb, leb→le, leb→lt, le→leb, lt→leb, ==_iff, ==_refl, ==_ne, ==→ne, Bool-cases, Option-cases,
  length, get_elem?, get_or, set, take, drop, replicate, length-append, length-set,
  get_elem?-set_self, get_elem?-set_ne, get_elem?-none, take-append-drop, length-take, length-drop,
  length-replicate, take-all, take-append_left, take-suc-set, take-take, get_or-take,
  get_or-append_left, All, All-append, get_elem?-append_last,
}
use klippylink.Esp.{Err, is_ok}
use klippylink.Json.{c_string, ◌>>=◌}
use klippylink.Json.Doc.{Doc}
use klippylink.Protocol.{
  Command, OtaStatus, header, packet, status_code, klipproto_magic, klip_header_size, u8, u16_le,
  u32_le, packet_magic, packet_command, packet_length,
}
use klippylink.Protocol.Codes.{command_of}
use klippylink.Node.Neopixel.Driver.{Color, LedDriver}
use klippylink.Node.Neopixel.{Strips, neopixel_set, neopixel_set_all, neopixel_set_range}
use klippylink.Node.Effects.Zone.{ZoneCfg}
use klippylink.Node.Effects.{
  Outside, Effects, led_max_zones, led_effects_set_zone, led_effects_clear_zone,
}
use klippylink.Node.Endstop.{Endstops, endstop_read}
use klippylink.Node.Ota.Driver.{Platform}
use klippylink.Node.Ota.{Event, Ota, World, ota_begin, ota_write, ota_end}
use klippylink.Node.Config.{DeviceCfg}
use klippylink.Node.Wifi.{Wifi, WifiCall, wifi_node_enable}
use klippylink.Node.Heater.{Floats, Heater, heater_set_target, heater_set_pid, heater_emergency_off}
use Info.{info_doc, info_packet}
use Adv.{raw_adv}

pub data BtAction : Type 0 where
  controller_init controller_enable bluedroid_init bluedroid_enable : BtAction
  register_gatts_callback register_gap_callback : BtAction
  app_register : ℕ → BtAction
  set_device_name : List ℕ → BtAction
  create_attr_tab : ℕ → BtAction
  start_service : ℕ → BtAction
  config_adv_data_raw : List ℕ → BtAction
  start_advertising : BtAction
  -- `esp_ble_gatts_send_indicate(if, conn_id, handle, bytes)`
  send_indicate : ℕ → ℕ → ℕ → List ℕ → BtAction
  -- `esp_restart()`
  restart : BtAction

-- What the node's parts stand on; `full` is CONFIG_KLIPNODE_VARIANT_FULL.
pub record Board : Type 1 where
  pub leds : LedDriver
  pub outside : Outside
  pub platform : Platform
  pub floats : Floats
  -- `cJSON_PrintUnformatted`, null when there is no memory.
  pub print_unformatted : Doc → Option (List ℕ)
  pub wifi_result : List WifiCall → WifiCall → Err
  -- What the calls of `gatt_server_init` return, and `esp_ble_gatts_send_indicate`.
  pub bt_result : BtAction → Err
  pub indicate_result : List ℕ → Err
  pub full : Bool

abbrev pub idx_svc : ℕ
idx_svc = 0

abbrev pub idx_cmd_val : ℕ
idx_cmd_val = 2

abbrev pub idx_tel_val : ℕ
idx_tel_val = 4

abbrev pub idx_tel_cccd : ℕ
idx_tel_cccd = 5

abbrev pub idx_count : ℕ
idx_count = 6

-- No connection.
abbrev pub no_conn : ℕ
no_conn = 0xFFFF

-- The bytes of a payload from `i` on, `n` of them, of a packet in the bytes that were written.
unfoldable pub payload_bytes : ℕ → ℕ → List ℕ → Option (List ℕ)
payload_bytes i n value =
    if leb (klip_header_size + i + n) (length value)
    then some (take n (drop (klip_header_size + i) value))
    else none

module _ (B : Board) where
  -- The state of all parts; `levels` is what the pins read, and `has_mutex` whether the effects
  -- engine was started.
  pub record Device : Type 0 where
    pub cfg : DeviceCfg
    pub effects : Effects B.leds B.outside
    pub has_mutex : Bool
    pub endstops : Endstops
    pub levels : ℕ → ℕ
    pub ota : Ota
    pub flash : B.platform.Dev
    pub wifi : Wifi
    pub heater : Heater B.floats
    pub gatts_if : ℕ
    pub conn_id : ℕ
    pub notify_enabled : Bool
    pub handles : List ℕ
    pub actions : List BtAction

  abbrev pub bt : BtAction → Device → Device
  bt a d = record d { actions = d.actions ++ a ∷ [] }

  unfoldable pub gatt_server_notify : List ℕ → Device → Err × Device
  gatt_server_notify bytes d =
      if d.conn_id == no_conn || not d.notify_enabled then (Err.invalid_state, d) else (
        B.indicate_result bytes,
        bt
            (BtAction.send_indicate d.gatts_if d.conn_id (get_or d.handles idx_tel_val 0)
              (take (u8 (length bytes)) bytes))
            d,
      )

  -- The result is dropped by every caller.
  abbrev pub tell_central : List ℕ → Device → Device
  tell_central bytes d = (gatt_server_notify bytes d).1

  unfoldable pub endstop_change_cb : ℕ → Bool → Device → Device
  endstop_change_cb idx triggered d =
      tell_central (packet Command.endstop_state (idx ∷ (if triggered then 1 else 0) ∷ [])) d

  -- `ota_cb`, and the restart.
  abbrev pub ota_event : Event → Device → Device
  ota_event (Event.status st) d = tell_central (packet Command.ota_status (status_code st ∷ [])) d
  ota_event Event.restart d = bt BtAction.restart d

  unfoldable pub ota_events : List Event → Device → Device
  ota_events [] d = d
  ota_events (e ∷ es) d = ota_events es (ota_event e d)

  abbrev pub ota_world : Device → World B.platform
  ota_world d = record { ota = d.ota; dev = d.flash; log = [] }

  -- A call of the OTA handler with `ota_cb` as its callback, its events in order.
  unfoldable pub run_ota : (World B.platform → Err × World B.platform) → Device → Device
  run_ota f d =
      let w = (f (ota_world d)).1 in ota_events w.log (record d { ota = w.ota; flash = w.dev })

  unfoldable pub send_device_info : Device → Device
  send_device_info d = elim (B.print_unformatted (info_doc d.cfg)) [
    | none ↦ d
    | some json ↦ tell_central (info_packet json) d
  ]

  -- `if (pkt->length >= n)`, with the `n` bytes that the case then reads.
  unfoldable pub with_payload : ℕ → List ℕ → (List ℕ → Option Device) → Device → Option Device
  with_payload n value f d =
      if ltb (packet_length value) n then some d else (payload_bytes 0 n value >>= f)

  abbrev pub on_strips : (Strips B.leds → Err × Strips B.leds) → Device → Device
  on_strips f d = record d { effects = record (d.effects) { strips = (f d.effects.strips).1 } }

  abbrev pub byte : List ℕ → ℕ → ℕ
  byte p i = get_or p i 0

  abbrev pub color_at : List ℕ → ℕ → Color
  color_at p i = record { r = byte p i; g = byte p (i + 1); b = byte p (i + 2) }

  -- `klip_led_zone_t` as `led_zone_cfg_t`
  abbrev pub zone_cfg : List ℕ → ZoneCfg
  zone_cfg p = record {
    active = false;
    strip_idx = byte p 1;
    start = byte p 2;
    count = byte p 3;
    effect = byte p 4;
    r = byte p 5;
    g = byte p 6;
    b = byte p 7;
    r2 = byte p 8;
    g2 = byte p 9;
    b2 = byte p 10;
    brightness = byte p 11;
    speed = byte p 12;
  }

  -- A call of the effects engine for a zone: past the test of the id it takes the mutex.
  unfoldable pub on_zone :
      ℕ → (Effects B.leds B.outside → Err × Effects B.leds B.outside) → Device → Option Device
  on_zone zone_id f d =
      if ltb zone_id led_max_zones && not d.has_mutex
      then none
      else some (record d { effects = (f d.effects).1 })
