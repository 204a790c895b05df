-- ===== src/Node/Effects.antt =====
-- node/main/led_effects.c and led_effects.h: zones of LEDs that run an effect.
-- `none` is a fault, the division by zero. The mutex is held over each call and over the rendering of
-- a round, which are steps in some order; the flushes that end a round come after it is given back.
pub mod Colors
pub mod Zone
pub mod Arith
pub mod Faults
pub mod Frames
pub mod Isolation
pub mod Zones
pub mod Rounds
use klippylink.Common.{
  ℕ, zero, suc, ◌+◌, ◌-◌, ◌*◌, ◌/◌, ◌%◌, ◌^◌, ◌≤◌, ◌<◌, min, ◌≡◌, refl, sym, ap, ap₂, ◌∙◌, subst,
  ◌≢◌, ◌↔◌, ◌⊎◌, inl, inr, Bool, true, false, not, ◌&&◌, ◌||◌, Option, none, some, List, [], ◌∷◌,
  ◌++◌, map, append-nil, append_assoc, arith, ltb, leb, ◌==◌, if◌then◌else◌, ltb→lt, ltb→le, lt→ltb,
  le→ltb, leb→le, leb→lt, le→leb, lt→leb, ==_iff, ==_refl, ==_ne, ==→ne, Bool-cases, Option-cases,
  length, get_elem?, get_or, set, take, drop, replicate, length-append, length-set,
  get_elem?-set_self, get_elem?-set_ne, get_elem?-none, take-append-drop, length-take, length-drop,
  length-replicate, take-all, take-append_left, take-suc-set, take-take, get_or-take,
  get_or-append_left, All, All-append,
}
use klippylink.Esp.{Err, is_ok}
use klippylink.Json.{◌>>=◌}
use klippylink.Node.Neopixel.Driver.{Color, LedDriver, black}
use klippylink.Node.Neopixel.{Strips, neopixel_set_pixel, neopixel_flush, neopixel_max_strips}
use Colors.{dim, dim_color, speed_period, hsv_to_rgb}
use Zone.{ZoneCfg, ZoneState, Effect, effect_of, blank_zone}

abbrev pub led_max_zones : ℕ
led_max_zones = 8

-- What the effects take from outside: `rand()` with its state, and the level of EFFECT_BREATHE, which
-- is computed in floats from `tick % cycle`, `cycle` and the brightness.
pub record Outside : Type 1 where
  pub Seed : Type 0
  pub rand : Seed → ℕ × Seed
  pub breathe_level : ℕ → ℕ → ℕ → ℕ

-- `z->tick++`
abbrev pub tick_on : ZoneState → ZoneState
tick_on z = record z { tick = (z.tick + 1) % 2 ^ 32 }

abbrev pub primary : ZoneCfg → Color
primary c = dim_color (record { r = c.r; g = c.g; b = c.b }) c.brightness

abbrev pub secondary : ZoneCfg → Color
secondary c = dim_color (record { r = c.r2; g = c.g2; b = c.b2 }) c.brightness

-- `a % b`, which faults at 0.
abbrev pub checked_mod : ℕ → ℕ → Option ℕ
checked_mod a b = if b == 0 then none else some (a % b)

abbrev pub step_of : ZoneState → ℕ
step_of z = z.tick / speed_period z.cfg.speed

-- The color of pixel `i` of a zone in each effect.
unfoldable pub blink_color : ZoneState → ℕ → Color
blink_color z i = if step_of z % 2 == 0 then primary z.cfg else black

unfoldable pub rainbow_color : ZoneState → ℕ → Color
rainbow_color z i =
    hsv_to_rgb (((step_of z % 256) + i * 256 / z.cfg.count) % 256) 255 z.cfg.brightness

unfoldable pub chase_color : ZoneCfg → ℕ → ℕ → Color
chase_color c pos i = if i == pos % 256 then primary c else secondary c

-- `lit` of EFFECT_WIPE
unfoldable pub is_lit : ℕ → ℕ → ℕ → Bool
is_lit count pos i = if ltb pos count then leb i pos else ltb (pos - count) i

unfoldable pub wipe_color : ZoneCfg → ℕ → ℕ → Color
wipe_color c pos i = if is_lit c.count (pos % 65536) i then primary c else black

module _ (D : LedDriver) where
  -- `neopixel_set_pixel(…)` with its result dropped
  abbrev pub put : ZoneCfg → ℕ → Color → Strips D → Strips D
  put c i color w = (neopixel_set_pixel D c.strip_idx (c.start + i) color w).1

  -- `for (i = …; i < c->count; i++)`, with the rounds that are left
  unfoldable pub paint : ZoneCfg → (ℕ → Color) → ℕ → ℕ → Strips D → Strips D
  paint c f i zero w = w
  paint c f i (suc k) w = paint c f (suc i) k (put c i (f i) w)

  abbrev pub paint_zone : ZoneState → (ℕ → Color) → Strips D → Strips D
  paint_zone z f w = paint z.cfg f 0 z.cfg.count w

  unfoldable pub darken : ZoneCfg → Strips D → Strips D
  darken c w =
      if c.active then (neopixel_flush D c.strip_idx (paint c (λ i. black) 0 c.count w)).1 else w

module _ (D : LedDriver) (O : Outside) where
  pub record Effects : Type 0 where
    pub zones : List ZoneState
    pub strips : Strips D
    pub seed : O.Seed

  abbrev pub breathe_color : ZoneState → ℕ → Color
  breathe_color z i =
      let cycle = speed_period z.cfg.speed * 2 in
      dim_color (record { r = z.cfg.r; g = z.cfg.g; b = z.cfg.b })
        (O.breathe_level (z.tick % cycle) cycle z.cfg.brightness)

  -- The body of EFFECT_TWINKLE under its test.
  unfoldable pub twinkle : ZoneState → Strips D → O.Seed → Option (Strips D × O.Seed)
  twinkle z w seed =
      let (n, seed₁) = O.rand seed in
      checked_mod n z.cfg.count >>= λ pos.
      let (m, seed₂) = O.rand seed₁ in
      some
        (put D z.cfg (pos % 256) (if m % 2 == 1 then primary z.cfg else secondary z.cfg) w, seed₂)

  unfoldable pub render_effect :
      Option Effect → ZoneState → Strips D → O.Seed → Option (ZoneState × Strips D × O.Seed)
  render_effect none z w seed = some (z, w, seed)
  render_effect (some Effect.solid) z w seed = some (z, paint_zone D z (λ i. primary z.cfg) w, seed)
  render_effect (some Effect.blink) z w seed =
      some (tick_on z, paint_zone D z (blink_color z) w, seed)
  render_effect (some Effect.breathe) z w seed =
      some (tick_on z, paint_zone D z (breathe_color z) w, seed)
  render_effect (some Effect.rainbow) z w seed =
      some (tick_on z, paint_zone D z (rainbow_color z) w, seed)
  render_effect (some Effect.chase) z w seed = checked_mod (step_of z) z.cfg.count >>= λ pos.
      some (tick_on z, paint_zone D z (chase_color z.cfg pos) w, seed)
  render_effect (some Effect.wipe) z w seed = checked_mod (step_of z) (z.cfg.count * 2) >>= λ pos.
      some (tick_on z, paint_zone D z (wipe_color z.cfg pos) w, seed)
  render_effect (some Effect.twinkle) z w seed =
      if z.tick % speed_period z.cfg.speed == 0
      then (twinkle z w seed >>= λ out. some (tick_on z, out.0, out.1))
      else some (tick_on z, w, seed)

  unfoldable pub render_zone :
      ZoneState → Strips D → O.Seed → Option (ZoneState × Strips D × O.Seed)
  render_zone z w seed = render_effect (effect_of z.cfg.effect) z w seed

  -- A zone in a round of the task, with the strips to flush; a write to `dirty` past the last strip
  -- is not made.
  unfoldable pub render_one :
      ZoneState → List Bool → Strips D → O.Seed → Option (ZoneState × List Bool × Strips D × O.Seed)
  render_one z dirty w seed =
      if z.cfg.active
      then (render_zone z w seed >>= λ out.
          some (out.0, set dirty z.cfg.strip_idx true, out.1, out.2))
      else some (z, dirty, w, seed)

  unfoldable pub render_all :
      List ZoneState
      → List Bool
      → Strips D
      → O.Seed
      → Option (List ZoneState × List Bool × Strips D × O.Seed)
  render_all [] dirty w seed = some ([], dirty, w, seed)
  render_all (z ∷ zs) dirty w seed = render_one z dirty w seed >>= λ one.
      render_all zs one.1 one.2 one.3 >>= λ rest. some (one.0 ∷ rest.0, rest.1, rest.2, rest.3)

  unfoldable pub flush_dirty : List Bool → ℕ → Strips D → Strips D
  flush_dirty [] s w = w
  flush_dirty (d ∷ ds) s w = flush_dirty ds (suc s) (if d then (neopixel_flush D s w).1 else w)

  -- One round of `effects_task` with no call between its rendering and its flushes.
  unfoldable pub effects_round : Effects → Option Effects
  effects_round e =
      render_all e.zones (replicate neopixel_max_strips false) e.strips e.seed >>= λ out.
      some (record { zones = out.0; strips = flush_dirty out.1 0 out.2; seed = out.3 })

  -- The zones are cleared also when the mutex, and so the task, cannot be made.
  unfoldable pub led_effects_init : Bool → Effects → Err × Effects
  led_effects_init has_mutex e = (
    if has_mutex then Err.esp_ok else Err.no_mem,
    record e { zones = replicate led_max_zones blank_zone },
  )

  unfoldable pub led_effects_set_zone : ℕ → ZoneCfg → Effects → Err × Effects
  led_effects_set_zone zone_id cfg e = if leb led_max_zones zone_id then (Err.invalid_arg, e) else (
    Err.esp_ok,
    record e {
      zones = set e.zones zone_id (record { cfg = record cfg { active = true }; tick = 0 });
    },
  )

  unfoldable pub led_effects_clear_zone : ℕ → Effects → Err × Effects
  led_effects_clear_zone zone_id e = if leb led_max_zones zone_id then (Err.invalid_arg, e) else (
    Err.esp_ok,
    record e {
      zones = set e.zones zone_id blank_zone;
      strips = darken D (get_or e.zones zone_id blank_zone).cfg e.strips;
    },
  )
