-- ===== src/Node/Running/Started.antt =====
-- A node from its start on: node/main/main.c, then whatever happens.
use klippylink.Common.{
  ℕ, zero, suc, ◌≡◌, sym, ap, ◌∙◌, subst, inl, inr, Bool, true, false, some, List, [], ◌∷◌, ltb,
  Bool-cases, length, replicate, All,
}
use klippylink.Esp.{Err, is_ok}
use klippylink.Json.{Json, >>=-eq-some, eq_of_some, none≢some}
use klippylink.Node.Neopixel.Driver.{LedDriver}
use klippylink.Node.Effects.Zone.{blank_zone, ZoneState}
use klippylink.Node.Effects.{Outside, Effects, led_max_zones, led_effects_init, effects_round}
use klippylink.Node.Effects.Rounds.{HasPixels}
use klippylink.Node.Config.{DeviceCfg, Files, Loader, config_loader_init}
use klippylink.Node.Config.Bounds.{HasTexts}
use klippylink.Node.Gatt.{Board, BtAction, Device, bt}
use klippylink.Node.Gatt.Events.{bt_checked, gatt_server_init}
use klippylink.Node.Boot.{start_effects, start_parts, app_main}
use klippylink.Node.Boot.Ready.{Drivers, IsReady, app_main-IsReady}
use klippylink.Node.Running.{NodeRun}
use klippylink.Node.Running.Kept.{NodeRun-IsReady}

-- The zones of memory that was zeroed.
abbrev pub blank_zones : List ZoneState
blank_zones = replicate led_max_zones blank_zone

zones-start_effects :
    (D : LedDriver) (O : Outside) (count : ℕ) (mutex_ok : Bool) (e : Effects D O)
    (out : Bool × Effects D O)
    → e.zones ≡ blank_zones
    → start_effects D O count mutex_ok e ≡ some out
    → out.1.zones ≡ blank_zones
unfolding start_effects led_effects_init
zones-start_effects D O count true e out blank h = elim (Bool-cases (ltb 0 count)) [
  | inl q ↦ ap (λ x. x.1.zones) (sym (eq_of_some (simp q at h)))
  | inr q ↦ ap (λ x. x.1.zones) (sym (eq_of_some (simp q at h))) ∙ blank
]
zones-start_effects D O count false e out blank h = elim (Bool-cases (ltb 0 count)) [
  | inl q ↦ absurd (none≢some (simp q at h))
  | inr q ↦ ap (λ x. x.1.zones) (sym (eq_of_some (simp q at h))) ∙ blank
]

module _ (B : Board) where
  effects-bt_checked :
      (cs : List BtAction) (d d' : Device B) → bt_checked B cs d ≡ some d' → d'.effects ≡ d.effects
  unfolding bt_checked
  effects-bt_checked [] d d' h = ap (λ x. x.effects) (sym (eq_of_some h))
  effects-bt_checked (a ∷ cs) d d' h = elim (Bool-cases (is_ok (B.bt_result a))) [
    | inl ok ↦ effects-bt_checked cs (bt B a d) d' (simp ok at h)
    | inr bad ↦ absurd (none≢some (simp bad at h))
  ]

  effects-gatt_server_init :
      (cfg : DeviceCfg) (d d' : Device B)
      → gatt_server_init B cfg d ≡ some d'
      → d'.effects ≡ d.effects
  unfolding gatt_server_init
  effects-gatt_server_init cfg d d' h =
      let (e, q, q') = >>=-eq-some (bt_checked B _ (record d { cfg = cfg })) _ h in
      ap (λ x. x.effects) (sym (eq_of_some q')) ∙ effects-bt_checked _ (record d { cfg = cfg }) e q

  module _ (F : Files) (J : Json) (configure : ℕ → Bool → Bool → Err) (mutex_ok : Bool) where
    zones-app_main :
        (l : Loader F) (d : Device B) (out : Device B × Loader F)
        → d.effects.zones ≡ blank_zones
        → app_main B F J configure mutex_ok l d ≡ some out
        → out.0.effects.zones ≡ blank_zones
    unfolding app_main start_parts
    zones-app_main l d out blank h =
        let (loaded, e, h₁) = >>=-eq-some (config_loader_init F J l) _ h in
        let (d', h₂, h₃) = >>=-eq-some (start_parts B F J configure mutex_ok loaded.1 d) _ h₁ in
        let (fx, s, g) =
          >>=-eq-some (start_effects B.leds B.outside loaded.1.neopixel_count mutex_ok _) _ h₂ in
        ap (λ x. x.0.effects.zones) (sym (eq_of_some h₃))
        ∙ ap (λ x. x.zones) (effects-gatt_server_init loaded.1 _ d' g)
        ∙ zones-start_effects B.leds B.outside _ mutex_ok _ fx blank s

blank_zones-HasPixels : (n : ℕ) → All HasPixels (replicate n blank_zone)
blank_zones-HasPixels zero = tt
blank_zones-HasPixels (suc n) = ((λ active. cc), blank_zones-HasPixels n)

module _ (B : Board) (configure : ℕ → Bool → Bool → Err) (W : Drivers B configure) where
  -- From power on, with static variables that are zero, drivers that work and memory for the mutex,
  -- whatever the node's file says: over any interleaving of callbacks, rounds of the effects task, steps
  -- of the heater's task, events of the wireless network and changes of the pins, in which no zone
  -- without a pixel is set, the node keeps the strips and the endstops of the configuration that it has
  -- loaded, and the next round of the effects task never divides by zero and leaves 8 zones.
  pub app_main-NodeRun :
      (F : Files) (J : Json) (T : HasTexts J) (l : Loader F) (d d' : Device B)
      (out : Device B × Loader F)
      → d.effects.strips.strips ≡ []
      → d.effects.zones ≡ blank_zones
      → d.endstops.endstops ≡ []
      → app_main B F J configure true l d ≡ some out
      → NodeRun B out.0 d'
      → IsReady B configure W out.0.cfg d'
        × ((e : Effects B.leds B.outside) × (effects_round B.leds B.outside d'.effects ≡ some e)
            × (length e.zones ≡ led_max_zones))
  app_main-NodeRun F J T l d d' out no_strips blank no_inputs started run =
      let (out', e, _, r) = app_main-IsReady B configure W F J T l d no_strips no_inputs in
      let zones = zones-app_main B F J configure true l d out blank started in
      NodeRun-IsReady B configure W out.0.cfg out.0 d'
        (subst (λ o. IsReady B configure W o.0.cfg o.0) (eq_of_some (sym e ∙ started)) r)
        (ap length zones) (subst (All HasPixels) (sym zones) (blank_zones-HasPixels led_max_zones))
        run
