-- ===== src/Node/Boot.antt =====
-- node/main/main.c: how a node starts.
pub mod Parts
pub mod Ready
use klippylink.Common.{
  ℕ, zero, suc, ◌+◌, ◌-◌, ◌*◌, ◌/◌, ◌%◌, ◌^◌, ◌≤◌, ◌<◌, min, ◌≡◌, refl, sym, ap, ap₂, ◌∙◌, subst,
  ◌≢◌, ◌↔◌, ◌⊎◌, inl, inr, Bool, true, false, not, ◌&&◌, ◌||◌, Option, none, some, List, [], ◌∷◌,
  ◌++◌, map, append-nil, append_assoc, arith, ltb, leb, ◌==◌, if◌then◌else◌, ltb→lt, ltb→le, lt→ltb,
  le→ltb, leb→le, leb→lt, le→leb, lt→leb, ==_iff, ==_refl, ==_ne, ==→ne, Bool-cases, Option-cases,
  length, get_elem?, get_or, set, take, drop, replicate, length-append, length-set,
  get_elem?-set_self, get_elem?-set_ne, get_elem?-none, take-append-drop, length-take, length-drop,
  length-replicate, take-all, take-append_left, take-suc-set, take-take, get_or-take,
  get_or-append_left, All, All-append, get_elem?-append_last,
}
use klippylink.Esp.{Err, is_ok}
use klippylink.Json.{Json, ◌>>=◌}
use klippylink.Node.Neopixel.Driver.{LedDriver}
use klippylink.Node.Neopixel.{Strips, neopixel_init}
use klippylink.Node.Effects.{Outside, Effects, led_effects_init}
use klippylink.Node.Endstop.{Endstops, endstop_init}
use klippylink.Node.Config.{NeopixelCfg, EndstopCfg, DeviceCfg, Files, Loader, config_loader_init}
use klippylink.Node.Gatt.{Board, Device}
use klippylink.Node.Gatt.Events.{gatt_server_init}

-- The loop over the configured strips: a strip that is refused is left out.
unfoldable pub init_strips : (D : LedDriver) → List NeopixelCfg → Strips D → Strips D
init_strips D [] w = w
init_strips D (n ∷ ns) w = init_strips D ns (neopixel_init D n.gpio n.count w).2

-- The loop over the configured endstops, each with `endstop_event_cb`.
unfoldable pub init_endstops : (ℕ → Bool → Bool → Err) → List EndstopCfg → Endstops → Endstops
init_endstops configure [] w = w
init_endstops configure (e ∷ es) w =
    init_endstops configure es (endstop_init configure e.gpio e.pull_up e.active_low true w).2

-- `led_effects_init` under its test and ESP_ERROR_CHECK, with whether there is a mutex then.
unfoldable pub start_effects :
    (D : LedDriver) (O : Outside) → ℕ → Bool → Effects D O → Option (Bool × Effects D O)
start_effects D O count mutex_ok e =
    if ltb 0 count
    then (let (r, e') = led_effects_init D O mutex_ok e in
        if is_ok r then some (true, e') else none)
    else some (false, e)

-- `configure` is what `gpio_config` returns, `mutex_ok` whether there is memory for the mutex, and
-- `d` has the static variables before the start; `none` is an abort.
module _ (B : Board) (F : Files) (J : Json) (configure : ℕ → Bool → Bool → Err)
    (mutex_ok : Bool) where
  unfoldable pub start_parts : DeviceCfg → Device B → Option (Device B)
  start_parts cfg d =
      let ws = init_strips B.leds (take cfg.neopixel_count cfg.neopixels) d.effects.strips in
      start_effects B.leds B.outside cfg.neopixel_count mutex_ok
        (record (d.effects) { strips = ws })
      >>= λ fx. gatt_server_init B cfg (record d {
        effects = fx.1;
        has_mutex = fx.0;
        endstops = init_endstops configure (take cfg.endstop_count cfg.endstops) d.endstops;
      })

  -- The result of loading is only logged.
  unfoldable pub app_main : Loader F → Device B → Option (Device B × Loader F)
  app_main l d = config_loader_init F J l >>= λ out. start_parts out.1 d >>= λ d'. some (d', out.2)
