-- ===== src/Node/Running/Kept.antt =====
-- Whatever happens to a running node, its parts stay as the start has set them up.
use klippylink.Common.{
  ℕ, ◌≡◌, refl, sym, ap, ◌∙◌, subst, inl, inr, Bool, true, false, ◌&&◌, some, List, ltb, leb, ◌==◌,
  Bool-cases, length, get_or, All,
}
use klippylink.Esp.{Err, is_ok}
use klippylink.Protocol.{klip_header_size}
use klippylink.Json.{eq_of_some, none≢some}
use klippylink.Node.Config.{DeviceCfg}
use klippylink.Node.Effects.{Effects, led_max_zones, effects_round}
use klippylink.Node.Effects.Rounds.{HasPixels, Paintable, effects_round-Paintable}
use klippylink.Node.Boot.Ready.{Drivers, IsReady}
use klippylink.Node.Boot.Parts.{pins_of, pin_calls}
use klippylink.Node.Gatt.{Board, Device, idx_tel_cccd, idx_cmd_val}
use klippylink.Node.Gatt.Cases.{dispatch_packet-Gives}
use klippylink.Node.Gatt.Events.{
  on_gatts_reg, on_creat_attr_tab, on_gatts_start, cccd_write, on_gatts_write, on_gatts_connect,
  on_gatts_disconnect, on_adv_data_set,
}
use klippylink.Node.Gatt.Runs.{Offline, Callback}
use klippylink.Node.Running.Parts.{Intact, setup, Keeps, repaint, Keeps-Respects}
use klippylink.Node.Running.{HasZonePixels, SetsPixels, NodeStep, NodeRun}

module _ (B : Board) where
  write-Keeps :
      (d : Device B) (handle : ℕ) (value : List ℕ) (e f : Device B)
      → HasZonePixels value
      → on_gatts_write B handle value e ≡ some f
      → Keeps B d e f
  unfolding on_gatts_write cccd_write
  write-Keeps d handle value e f some_pixel h =
      elim (Bool-cases (handle == get_or e.handles idx_tel_cccd 0)) [
        | inl t ↦ elim (Bool-cases (ltb (length value) 2)) [
          | inl q ↦ absurd (none≢some (simp (t, q) at h))
          | inr q ↦ subst (Keeps B d e) (eq_of_some (simp (t, q) at h)) (λ i. i)
        ]
        | inr t ↦
            elim (Bool-cases
              (handle == get_or e.handles idx_cmd_val 0 && leb klip_header_size (length value))) [
                | inl q ↦
                    dispatch_packet-Gives B value (Keeps B d) (Keeps-Respects B d value some_pixel)
                      e f (simp (t, q) at h)
                | inr q ↦ subst (Keeps B d e) (eq_of_some (simp (t, q) at h)) (λ i. i)
              ]
      ]

  Callback-Keeps :
      (d : Device B) {e f : Device B} (c : Callback B e f) → SetsPixels B c → Keeps B d e f
  unfolding on_gatts_reg on_creat_attr_tab on_gatts_start on_gatts_connect on_gatts_disconnect
      on_adv_data_set
  Callback-Keeps d (Callback.connected conn_id) s i = i
  Callback-Keeps d (Callback.otherwise (Offline.registered gatts_if)) s i = i
  Callback-Keeps d (Callback.otherwise (Offline.tabled true handles)) s i = i
  Callback-Keeps d (Callback.otherwise (Offline.tabled false handles)) s i = i
  Callback-Keeps d (Callback.otherwise (Offline.started false configured)) s i = i
  Callback-Keeps d (Callback.otherwise (Offline.started true configured)) s i =
      elim (Bool-cases (is_ok configured)) [ inl e ↦ simp e i | inr e ↦ simp e i ]
  Callback-Keeps d {e} {f} (Callback.otherwise (Offline.wrote handle value h)) s i =
      write-Keeps d handle value e f s h i
  Callback-Keeps d (Callback.otherwise Offline.disconnected) s i = i
  Callback-Keeps d (Callback.otherwise (Offline.adv_set true)) s i = i
  Callback-Keeps d (Callback.otherwise (Offline.adv_set false)) s i = i

  NodeStep-Keeps : (d : Device B) {e f : Device B} → NodeStep B e f → Keeps B d e f
  NodeStep-Keeps d (NodeStep.called c s) i = Callback-Keeps d c s i
  NodeStep-Keeps d {e} (NodeStep.rendered x on h) i =
      let (y, q, p) = effects_round-Paintable B.leds B.outside e.effects i.effects in
      repaint B d e x
        (λ _. subst (Paintable B.leds B.outside d.effects.strips.strips) (eq_of_some (sym q ∙ h)) p)
        i
  NodeStep-Keeps d (NodeStep.sampled raw) i = i
  NodeStep-Keeps d (NodeStep.committed tick_ms now) i = i
  NodeStep-Keeps d NodeStep.station_lost i = i
  NodeStep-Keeps d (NodeStep.got_ip addr) i = i
  NodeStep-Keeps d (NodeStep.moved levels) i = i

  NodeRun-Intact :
      {d e : Device B} → Intact B d (setup B d) → NodeRun B d e → Intact B d (setup B e)
  NodeRun-Intact i NodeRun.stay = i
  NodeRun-Intact {d} i (NodeRun.step run s) = NodeStep-Keeps d s (NodeRun-Intact i run)

  -- A node that has started with its 8 zones, of which the active ones have a pixel, keeps its
  -- configuration, its strips and its endstops over any interleaving of callbacks, rounds of the effects
  -- task, steps of the heater's task, events of the wireless network and changes of the pins, in which
  -- no zone without a pixel is set: and then the next round of the effects task never divides by zero
  -- and leaves 8 zones.
  pub NodeRun-IsReady :
      (configure : ℕ → Bool → Bool → Err) (W : Drivers B configure) (cfg : DeviceCfg)
      (d d' : Device B)
      → IsReady B configure W cfg d
      → length d.effects.zones ≡ led_max_zones
      → All HasPixels d.effects.zones
      → NodeRun B d d'
      → IsReady B configure W cfg d'
        × ((e : Effects B.leds B.outside) × (effects_round B.leds B.outside d'.effects ≡ some e)
            × (length e.zones ≡ led_max_zones))
  NodeRun-IsReady configure W cfg d d' ready count pixels run =
      let i : Intact B d (setup B d') =
        NodeRun-Intact
          (record {
            cfg = refl;
            has_mutex = refl;
            endstops = refl;
            effects = record { count = count; pixels = pixels; strips = refl };
          })
          run in
      let (e, q, p) = effects_round-Paintable B.leds B.outside d'.effects i.effects in
      (
        record {
          configured = i.cfg ∙ ready.configured;
          strips = ap (λ l. pins_of W.pin_of l) i.effects.strips ∙ ready.strips;
          inputs = ap (λ x. x.endstops) i.endstops ∙ ready.inputs;
          earlier = ready.earlier;
          pulls = ap (λ x. pin_calls x.calls) i.endstops ∙ ready.pulls;
          engine = i.has_mutex ∙ ready.engine;
        },
        (e, q, p.count),
      )
