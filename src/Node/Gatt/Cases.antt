-- ===== src/Node/Gatt/Cases.antt =====
-- What holds of every packet's case holds of `dispatch_packet`: one walk through the dispatch for every
-- relation between a node before a packet and after it.
use klippylink.Common.{
  ℕ, ◌+◌, min, ◌≡◌, refl, subst, inl, inr, Bool, true, false, not, ◌&&◌, Option, none, some, List,
  ltb, ◌==◌, if◌then◌else◌, Bool-cases,
}
use klippylink.Node.Wifi.{Wifi, wifi_node_enable}
use klippylink.Node.Neopixel.{neopixel_set, neopixel_set_all, neopixel_set_range}
use klippylink.Node.Effects.{Effects, led_max_zones, led_effects_set_zone, led_effects_clear_zone}
use klippylink.Node.Heater.{Heater}
use klippylink.Node.Neopixel.Driver.{Color}
use klippylink.Node.Ota.{World}
use klippylink.Json.{c_string, ◌>>=◌, eq_of_some, none≢some}
use klippylink.Protocol.{Command, packet_magic, packet_command, packet_length, klipproto_magic}
use klippylink.Protocol.Codes.{command_of}
use klippylink.Esp.{Err}
use klippylink.Node.Gatt.{
  Board, Device, tell_central, run_ota, send_device_info, endstop_change_cb, with_payload,
  payload_bytes, on_strips, on_zone, byte, zone_cfg,
}
use klippylink.Node.Gatt.Dispatch.{
  dispatch_packet, dispatch_command, neopixel_set_case, neopixel_set_all_case,
  neopixel_set_range_case, endstop_query_case, ota_begin_case, ota_data_case, wifi_enable_case,
  wifi_pass, wifi_join, heater_set_case,
}

module _ (B : Board) where
  -- A relation that every case of a packet keeps. A zone is set from a payload of a LED_ZONE_SET.
  pub record Respects (value : List ℕ) (R : Device B → Device B → Type 0) : Type 0 where
    pub stays : (d : Device B) → R d d
    pub tells : (bytes : List ℕ) (d : Device B) → R d (tell_central B bytes d)
    pub describes : (d : Device B) → R d (send_device_info B d)
    pub updates :
        (f : World B.platform → Err × World B.platform) (d : Device B) → R d (run_ota B f d)
    pub joins : (w : Wifi) (d : Device B) → R d (record d { wifi = w })
    pub heats : (h : Heater B.floats) (d : Device B) → R d (record d { heater = h })
    pub lights :
        (i : ℕ) (c : Color) (d : Device B) → R d (on_strips B (neopixel_set B.leds 0 i c) d)
    pub fills : (c : Color) (d : Device B) → R d (on_strips B (neopixel_set_all B.leds 0 c) d)
    pub ranges :
        (start count : ℕ) (c : Color) (d : Device B)
        → R d (on_strips B (neopixel_set_range B.leds 0 start count c) d)
    pub zones :
        (p : List ℕ) (d : Device B)
        → command_of (packet_command value) ≡ some Command.led_zone_set
        → payload_bytes 0 13 value ≡ some p
        → R d (record d {
          effects = (led_effects_set_zone B.leds B.outside (byte B p 0) (zone_cfg B p) d.effects).1;
        })
    pub clears :
        (id : ℕ) (d : Device B)
        → R d (record d { effects = (led_effects_clear_zone B.leds B.outside id d.effects).1 })

module _ (B : Board) (value : List ℕ) (R : Device B → Device B → Type 0)
    (respects : Respects B value R) where
  -- The relation holds of a chain's result, if there is one.
  abbrev Gives : Device B → Option (Device B) → Type 0
  Gives d o = (d' : Device B) → o ≡ some d' → R d d'

  some-Gives : {d d' : Device B} → R d d' → Gives d (some d')
  some-Gives {d} a e h = subst (R d) (eq_of_some h) a

  bind-Gives :
      {A : Type 0} {d : Device B} (m : Option A) (f : A → Option (Device B))
      → ((a : A) → m ≡ some a → Gives d (f a))
      → Gives d (m >>= f)
  bind-Gives none f h e q = cc
  bind-Gives (some a) f h e q = h a refl e q

  stays-Gives : (d : Device B) → Gives d (some d)
  stays-Gives d = some-Gives (respects.stays d)

  unless-Gives :
      (b : Bool) {d : Device B} (o : Option (Device B))
      → Gives d o
      → Gives d (if b then some d else o)
  unless-Gives true {d} o h = stays-Gives d
  unless-Gives false o h = h

  with_payload-Gives :
      (n : ℕ) (f : List ℕ → Option (Device B)) {d : Device B}
      → ((p : List ℕ) → payload_bytes 0 n value ≡ some p → Gives d (f p))
      → Gives d (with_payload B n value f d)
  unfolding with_payload
  with_payload-Gives n f h =
      unless-Gives (ltb (packet_length value) n) _ (bind-Gives (payload_bytes 0 n value) f h)

  on_zone-Gives :
      (zone_id : ℕ) (f : Effects B.leds B.outside → Err × Effects B.leds B.outside) (d : Device B)
      → R d (record d { effects = (f d.effects).1 })
      → Gives d (on_zone B zone_id f d)
  unfolding on_zone
  on_zone-Gives zone_id f d r = elim (Bool-cases (ltb zone_id led_max_zones && not d.has_mutex)) [
    | inl e ↦ simp e (λ d' h. absurd (none≢some h))
    | inr e ↦ simp e (some-Gives r)
  ]

  ota_data_case-Gives : (d : Device B) → Gives d (ota_data_case B value d)
  unfolding ota_data_case
  ota_data_case-Gives d = elim (Bool-cases d.ota.active) [
    | inl e ↦ simp e (
        bind-Gives (payload_bytes 0 (packet_length value) value) _
          (λ bytes q. some-Gives (respects.updates _ d)))
    | inr e ↦ simp e (stays-Gives d)
  ]

  wifi_join-Gives :
      (ssid_len pass_len : ℕ) (d : Device B) → Gives d (wifi_join B ssid_len pass_len value d)
  unfolding wifi_join
  wifi_join-Gives ssid_len pass_len d =
      bind-Gives (payload_bytes 1 (min ssid_len 32) value) _ (λ ssid q.
        bind-Gives (payload_bytes (2 + ssid_len) (min pass_len 64) value) _ (λ pass q'.
          bind-Gives (wifi_node_enable B.wifi_result (c_string ssid) (c_string pass) false d.wifi) _
            (λ w q''. some-Gives (respects.joins w d))))

  wifi_pass-Gives : (ssid_len : ℕ) (d : Device B) → Gives d (wifi_pass B ssid_len value d)
  unfolding wifi_pass
  wifi_pass-Gives ssid_len d = unless-Gives (ltb (packet_length value) (1 + ssid_len + 1)) _ (
      bind-Gives (payload_bytes (1 + ssid_len) 1 value) _ (λ q e.
        unless-Gives (ltb (packet_length value) (1 + ssid_len + 1 + byte B q 0)) _
          (wifi_join-Gives ssid_len (byte B q 0) d)))

  wifi_enable_case-Gives : (d : Device B) → Gives d (wifi_enable_case B value d)
  unfolding wifi_enable_case
  wifi_enable_case-Gives d =
      unless-Gives (ltb (packet_length value) 2) _
        (bind-Gives (payload_bytes 0 1 value) _ (λ q e. wifi_pass-Gives (byte B q 0) d))

  dispatch_command-Gives :
      (c : Option Command) (d : Device B)
      → command_of (packet_command value) ≡ c
      → Gives d (dispatch_command B c value d)
  unfolding dispatch_command neopixel_set_case neopixel_set_all_case neopixel_set_range_case
      endstop_query_case endstop_change_cb ota_begin_case heater_set_case
  dispatch_command-Gives (some Command.ping) d e = some-Gives (respects.tells _ d)
  dispatch_command-Gives (some Command.neopixel_set) d e =
      with_payload-Gives 4 _ (λ p q. some-Gives (respects.lights _ _ d))
  dispatch_command-Gives (some Command.neopixel_set_all) d e =
      with_payload-Gives 3 _ (λ p q. some-Gives (respects.fills _ d))
  dispatch_command-Gives (some Command.neopixel_set_range) d e =
      with_payload-Gives 5 _ (λ p q. some-Gives (respects.ranges _ _ _ d))
  dispatch_command-Gives (some Command.led_zone_set) d e =
      with_payload-Gives 13 _ (λ p q. on_zone-Gives (byte B p 0) _ d (respects.zones p d e q))
  dispatch_command-Gives (some Command.led_zone_clr) d e =
      with_payload-Gives 1 _
        (λ p q. on_zone-Gives (byte B p 0) _ d (respects.clears (byte B p 0) d))
  dispatch_command-Gives (some Command.endstop_query) d e =
      with_payload-Gives 1 _ (λ p q. some-Gives (respects.tells _ d))
  dispatch_command-Gives (some Command.device_info_req) d e = some-Gives (respects.describes d)
  dispatch_command-Gives (some Command.ota_begin) d e =
      with_payload-Gives 8 _ (λ p q. some-Gives (respects.updates _ d))
  dispatch_command-Gives (some Command.ota_data) d e = ota_data_case-Gives d
  dispatch_command-Gives (some Command.ota_end) d e = some-Gives (respects.updates _ d)
  dispatch_command-Gives (some Command.wifi_enable) d e = wifi_enable_case-Gives d
  dispatch_command-Gives (some Command.heartbeat) d e = some-Gives (respects.tells _ d)
  dispatch_command-Gives (some Command.heater_set) d e = elim (Bool-cases B.full) [
    | inl f ↦ rw f (with_payload-Gives 16 _ (λ p q. some-Gives (respects.heats _ d)))
    | inr f ↦ rw f (stays-Gives d)
  ]
  dispatch_command-Gives _ d e = stays-Gives d

  -- What each case keeps, the whole packet keeps.
  pub dispatch_packet-Gives : (d d' : Device B) → dispatch_packet B value d ≡ some d' → R d d'
  unfolding dispatch_packet
  dispatch_packet-Gives d = elim (Bool-cases (packet_magic value == klipproto_magic)) [
    | inl e ↦ simp e (dispatch_command-Gives (command_of (packet_command value)) d refl)
    | inr e ↦ simp e (stays-Gives d)
  ]
