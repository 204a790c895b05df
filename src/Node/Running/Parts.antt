-- ===== src/Node/Running/Parts.antt =====
-- What a running node keeps.
use klippylink.Common.{
  ℕ, ◌+◌, ◌≡◌, refl, sym, ap, ◌∙◌, subst, inl, inr, Bool, not, ◌||◌, some, List, [], ◌∷◌, arith,
  leb, ◌==◌, Bool-cases, Option-cases, length, get_or, get_or-take,
}
use klippylink.Esp.{Err}
use klippylink.Protocol.{packet_payload}
use klippylink.Json.{eq_of_some, none≢some}
use klippylink.Node.Config.{DeviceCfg}
use klippylink.Node.Neopixel.{Strips, neopixel_set, neopixel_set_all, neopixel_set_range}
use klippylink.Node.Effects.{Effects}
use klippylink.Node.Effects.Rounds.{
  Paintable, strips-with_strip, set_zone-Paintable, clear_zone-Paintable,
}
use klippylink.Node.Endstop.{Endstops}
use klippylink.Node.Ota.{Event, World}
use klippylink.Node.Gatt.{
  Board, Device, no_conn, gatt_server_notify, tell_central, ota_event, ota_events, ota_world,
  run_ota, send_device_info, on_strips, payload_bytes, byte,
}
use klippylink.Node.Gatt.Info.{info_doc, info_packet}
use klippylink.Node.Gatt.Cases.{Respects}
use klippylink.Node.Running.{HasZonePixels}

module _ (B : Board) where
  -- The parts that only the start sets up.
  pub record Setup : Type 0 where
    pub cfg : DeviceCfg
    pub has_mutex : Bool
    pub endstops : Endstops
    pub effects : Effects B.leds B.outside

  abbrev pub setup : Device B → Setup
  setup d = record {
    cfg = d.cfg;
    has_mutex = d.has_mutex;
    endstops = d.endstops;
    effects = d.effects;
  }

  setup-tell_central : (bytes : List ℕ) (d : Device B) → setup (tell_central B bytes d) ≡ setup d
  unfolding gatt_server_notify
  setup-tell_central bytes d = elim (Bool-cases (d.conn_id == no_conn || not d.notify_enabled)) [
    | inl e ↦ rw (e, tell_central) refl
    | inr e ↦ rw (e, tell_central) refl
  ]

  setup-ota_events : (es : List Event) (d : Device B) → setup (ota_events B es d) ≡ setup d
  unfolding ota_events
  setup-ota_events [] d = refl
  setup-ota_events (Event.restart ∷ es) d = setup-ota_events es (ota_event B Event.restart d)
  setup-ota_events (Event.status st ∷ es) d =
      setup-ota_events es (ota_event B (Event.status st) d) ∙ setup-tell_central _ d

  setup-run_ota :
      (f : World B.platform → Err × World B.platform) (d : Device B)
      → setup (run_ota B f d) ≡ setup d
  unfolding run_ota
  setup-run_ota f d =
      let w = (f (ota_world B d)).1 in
      setup-ota_events w.log (record d { ota = w.ota; flash = w.dev })

  setup-send_device_info : (d : Device B) → setup (send_device_info B d) ≡ setup d
  unfolding send_device_info
  setup-send_device_info d = elim (Option-cases (B.print_unformatted (info_doc d.cfg))) [
    | inl e ↦ rw (e, send_device_info) refl
    | inr (json, e) ↦ rw (e, send_device_info) (setup-tell_central (info_packet json) d)
  ]

  -- The parts are those of `d`, and the effects engine has its zones and strips.
  pub record Intact (d : Device B) (s : Setup) : Type 0 where
    pub cfg : s.cfg ≡ d.cfg
    pub has_mutex : s.has_mutex ≡ d.has_mutex
    pub endstops : s.endstops ≡ d.endstops
    pub effects : Paintable B.leds B.outside d.effects.strips.strips s.effects

  abbrev pub Keeps : Device B → Device B → Device B → Type 0
  Keeps d e f = Intact d (setup e) → Intact d (setup f)

  same-Keeps : (d e f : Device B) → setup f ≡ setup e → Keeps d e f
  same-Keeps d e f h = subst (Intact d) (sym h)

  pub repaint :
      (d e : Device B) (x : Effects B.leds B.outside)
      → (Paintable B.leds B.outside d.effects.strips.strips e.effects
          → Paintable B.leds B.outside d.effects.strips.strips x)
      → Keeps d e (record e { effects = x })
  repaint d e x f i = record {
    cfg = i.cfg;
    has_mutex = i.has_mutex;
    endstops = i.endstops;
    effects = f i.effects;
  }

  -- A call for a strip.
  relit :
      (d e : Device B) (f : Strips B.leds → Err × Strips B.leds)
      → (f e.effects.strips).1.strips ≡ e.effects.strips.strips
      → Keeps d e (on_strips B f e)
  relit d e f same =
      repaint d e (on_strips B f e).effects
        (λ p. record { count = p.count; pixels = p.pixels; strips = same ∙ p.strips })

  payload-at :
      (value p : List ℕ)
      → payload_bytes 0 13 value ≡ some p
      → byte B p 3 ≡ get_or (packet_payload value) 3 0
  unfolding payload_bytes
  payload-at value p h = elim (Bool-cases (leb (4 + 0 + 13) (length value))) [
    | inl e ↦
        ap (λ k. get_or k 3 0) (sym (eq_of_some (rw e at h)))
        ∙ get_or-take 3 13 (packet_payload value) 0 (omega arith)
    | inr e ↦ absurd (none≢some (rw e at h))
  ]

  pub Keeps-Respects :
      (d : Device B) (value : List ℕ) → HasZonePixels value → Respects B value (Keeps d)
  unfolding neopixel_set neopixel_set_all neopixel_set_range
  Keeps-Respects d value some_pixel = record {
    stays = λ e. same-Keeps d e e refl;
    tells = λ bytes e. same-Keeps d e (tell_central B bytes e) (setup-tell_central bytes e);
    describes = λ e. same-Keeps d e (send_device_info B e) (setup-send_device_info e);
    updates = λ f e. same-Keeps d e (run_ota B f e) (setup-run_ota f e);
    joins = λ w e. same-Keeps d e (record e { wifi = w }) refl;
    heats = λ h e. same-Keeps d e (record e { heater = h }) refl;
    lights = λ i c e.
        relit d e (neopixel_set B.leds 0 i c) (strips-with_strip B.leds 0 _ e.effects.strips);
    fills = λ c e.
        relit d e (neopixel_set_all B.leds 0 c) (strips-with_strip B.leds 0 _ e.effects.strips);
    ranges = λ start count c e.
        relit d e (neopixel_set_range B.leds 0 start count c)
          (strips-with_strip B.leds 0 _ e.effects.strips);
    zones = λ p e c q. repaint d e _ (
        set_zone-Paintable B.leds B.outside (byte B p 0) _ e.effects
          (λ z. some_pixel c (sym (payload-at value p q) ∙ z)));
    clears = λ id e. repaint d e _ (clear_zone-Paintable B.leds B.outside id e.effects);
  }
