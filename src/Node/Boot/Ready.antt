-- ===== src/Node/Boot/Ready.antt =====
-- A node whose drivers work starts with the parts of its configuration.
use klippylink.Common.{
  ℕ, ◌+◌, ◌≤◌, ◌≡◌, refl, sym, ap, ◌∙◌, subst, inl, inr, Bool, true, some, List, [], ◌∷◌, ◌++◌, map,
  append-nil, append_assoc, arith, ltb, Bool-cases, length, take, length-take,
}
use klippylink.Esp.{Err, is_ok}
use klippylink.Node.Neopixel.Driver.{LedDriver}
use klippylink.Node.Effects.{Outside, Effects, led_effects_init}
use klippylink.Node.Endstop.{GpioCall}
use klippylink.Json.{Json}
use klippylink.Node.Config.Bounds.{IsBounded, HasTexts}
use klippylink.Node.Config.Bounds.Loaded.{config_loader_init-IsBounded}
use klippylink.Node.Gatt.{Board, BtAction, Device, bt}
use klippylink.Node.Gatt.Events.{bt_checked, gatt_server_init}
use klippylink.Node.Config.{DeviceCfg, Files, Loader}
use klippylink.Node.Boot.{init_strips, init_endstops, start_effects, start_parts, app_main}
use klippylink.Node.Boot.Parts.{
  pins_of, init_strips_lem, endstop_of, input_calls, pin_calls, init_endstops_lem,
  init_endstops-calls,
}

start_effects_lem :
    (D : LedDriver) (O : Outside) (count : ℕ) (e : Effects D O)
    → (e' : Effects D O) × (start_effects D O count true e ≡ some (ltb 0 count, e'))
      × (e'.strips ≡ e.strips)
unfolding start_effects led_effects_init
start_effects_lem D O count e = elim (Bool-cases (ltb 0 count)) [
  | inl q ↦ simp q ((led_effects_init D O true e).1, refl, refl)
  | inr q ↦ simp q (e, refl, refl)
]

-- Every pin and strip is taken, a handle stands for the pin that it was made for (no code gives one
-- back), and no call of the Bluetooth stack fails.
pub record Drivers (B : Board) (configure : ℕ → Bool → Bool → Err) : Type 0 where
  pub strips : (d : B.leds.Dev) (gpio n : ℕ) → is_ok (B.leds.new_rmt_device d gpio n).0 ≡ true
  pub pin_of : ℕ → ℕ
  pub handles : (d : B.leds.Dev) (gpio n : ℕ) → pin_of (B.leds.new_rmt_device d gpio n).1 ≡ gpio
  pub pins : (gpio : ℕ) (up cb : Bool) → is_ok (configure gpio up cb) ≡ true
  pub stack : (a : BtAction) → is_ok (B.bt_result a) ≡ true

module _ (B : Board) (configure : ℕ → Bool → Bool → Err) (W : Drivers B configure) where
  bt_checked_lem :
      (calls : List BtAction) (d : Device B)
      → bt_checked B calls d ≡ some (record d { actions = d.actions ++ calls })
  unfolding bt_checked
  bt_checked_lem [] d = rw (append-nil d.actions) refl
  bt_checked_lem (a ∷ calls) d = simp (W.stack a) (
      bt_checked_lem calls (bt B a d)
      ∙ ap (λ l. some (record d { actions = l })) (append_assoc d.actions (a ∷ []) calls))

  -- The node has the strips and endstops of the configuration, in its order, each strip on its pin and
  -- with its number of LEDs; the last pins that were set up are those of the endstops, each with its
  -- pull-up and its index; and the effects engine runs exactly if there is a strip.
  pub record IsReady (cfg : DeviceCfg) (d : Device B) : Type 0 where
    pub configured : d.cfg ≡ cfg
    pub strips :
        pins_of W.pin_of d.effects.strips.strips
        ≡ map (λ n. (n.gpio, n.count)) (take cfg.neopixel_count cfg.neopixels)
    pub inputs : d.endstops.endstops ≡ map endstop_of (take cfg.endstop_count cfg.endstops)
    pub earlier : List GpioCall
    pub pulls :
        pin_calls d.endstops.calls ≡ earlier ++ input_calls 0 (take cfg.endstop_count cfg.endstops)
    pub engine : d.has_mutex ≡ ltb 0 cfg.neopixel_count

  module _ (F : Files) (J : Json) (T : HasTexts J) where
    start_parts-IsReady :
        (cfg : DeviceCfg) (d : Device B)
        → IsBounded cfg
        → d.effects.strips.strips ≡ []
        → d.endstops.endstops ≡ []
        → (d' : Device B) × (start_parts B F J configure true cfg d ≡ some d') × IsReady cfg d'
    unfolding start_parts gatt_server_init
    start_parts-IsReady cfg d b no_strips no_inputs =
        let ns = take cfg.neopixel_count cfg.neopixels in
        let es = take cfg.endstop_count cfg.endstops in
        let ws = init_strips B.leds ns d.effects.strips in
        let (fx, e, kept) =
          start_effects_lem B.leds B.outside cfg.neopixel_count
            (record (d.effects) { strips = ws }) in
        let fits : length d.endstops.endstops + length es ≤ 8 = omega (
          arith,
          length-take cfg.endstop_count cfg.endstops,
          ap length no_inputs,
          b.endstops_size,
          b.endstops_used,
        ) in
        let set_up : Device B = record d {
          cfg = cfg;
          effects = fx;
          has_mutex = ltb 0 cfg.neopixel_count;
          endstops = init_endstops configure es d.endstops;
        } in
        rw (e, bt_checked_lem _ set_up)
          (
            _,
            refl,
            record {
              configured = refl;
              strips =
                  ap (λ w. pins_of W.pin_of w.strips) kept
                  ∙ init_strips_lem B.leds W.pin_of ns d.effects.strips W.strips W.handles (
                      omega (
                        arith,
                        length-take cfg.neopixel_count cfg.neopixels,
                        ap length no_strips,
                        b.neopixels_size,
                        b.neopixels_used,
                      ))
                  ∙ ap (λ l. pins_of W.pin_of l ++ map (λ n. (n.gpio, n.count)) ns) no_strips;
              inputs =
                  init_endstops_lem configure es d.endstops W.pins fits
                  ∙ ap (λ l. l ++ map endstop_of es) no_inputs;
              earlier = pin_calls d.endstops.calls;
              pulls =
                  init_endstops-calls configure es d.endstops W.pins fits
                  ∙ ap (λ l. pin_calls d.endstops.calls ++ input_calls (length l) es) no_inputs;
              engine = refl;
            },
          )

    -- When the drivers work and there is memory for the mutex, a node that has nothing set up yet
    -- starts without a fault, whatever its disk and its file: with a configuration in its bounds, and
    -- with just the strips and endstops of that configuration, each at its index: the strips on their
    -- pins with their numbers of LEDs, the endstops on their pins with their active levels, and
    -- these pins, in order, the last that were set up, each with its pull-up, with interrupts and with
    -- a handler for its index. The effects engine is started exactly if there is a strip. (A strip's
    -- handle stands for the pin that it was made for.)
    pub app_main-IsReady :
        (l : Loader F) (d : Device B)
        → d.effects.strips.strips ≡ []
        → d.endstops.endstops ≡ []
        → (out : Device B × Loader F) × (app_main B F J configure true l d ≡ some out)
          × IsBounded out.0.cfg
          × IsReady out.0.cfg out.0
    unfolding app_main
    app_main-IsReady l d no_strips no_inputs =
        let (out, e, b) = config_loader_init-IsBounded F J T l in
        let (d', q, r) = start_parts-IsReady out.1 d b no_strips no_inputs in
        rw (e, q)
          (
            (d', out.2),
            refl,
            subst IsBounded (sym r.configured) b,
            subst (λ c. IsReady c d') (sym r.configured) r,
          )
