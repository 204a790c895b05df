-- ===== src/Node/Tests.antt =====
-- The node's LED strips and effects on a driver that keeps the pixels as a function.
use klippylink.Common.{
  ℕ, ◌+◌, ◌≡◌, refl, ◌≢◌, ◌↔◌, inl, inr, true, ◌&&◌, none, some, List, [], ◌∷◌, arith, ltb, ◌==◌,
  if◌then◌else◌, lt→ltb, ==_refl, get_elem?, replicate,
}
use klippylink.Esp.{Err}
use klippylink.Node.Neopixel.Driver.{Color, black, LedDriver, PixelLaws, ShowLaws}
use klippylink.Node.Neopixel.Fill.{within}
use klippylink.Node.Neopixel.{Strip, Strips}
use klippylink.Node.Effects.Zone.{ZoneState, blank_zone, effect_of}
use klippylink.Node.Effects.{
  Outside, Effects, render_zone, render_effect, led_effects_clear_zone, paint_zone, primary,
}
use klippylink.Node.Effects.Faults.{divides, render_zone-fault}
use klippylink.Node.Effects.Frames.{OnStrip, PaintedBy}
use klippylink.Node.Effects.Isolation.{render_zone-outside}
use klippylink.Node.Effects.Zones.{led_effects_clear_zone_lem}
use klippylink.Node.Effects.Frames

abbrev Pixels : Type 0
Pixels = ℕ → ℕ → Color

abbrev set_at : Pixels → ℕ → ℕ → Color → Err × Pixels
set_at d h i c =
    if ltb i 4
    then (Err.esp_ok, (λ k j. if h == k && i == j then c else d k j))
    else (Err.invalid_arg, d)

-- Every strip has 4 pixels.
abbrev leds : LedDriver
leds = record {
  Dev = Pixels;
  new_rmt_device = λ d gpio n. (Err.esp_ok, gpio, d);
  set_pixel = set_at;
  refresh = λ d h. (Err.esp_ok, d);
  clear = λ d h. (Err.esp_ok, (λ k j. if h == k then black else d k j));
}

abbrev laws : PixelLaws leds
laws = record {
  pixel = λ d h j. d h j;
  size = λ d h. 4;
  set_pixel_accepts = λ d h i c lt. rw (lt→ltb i 4 lt) refl;
  set_pixel_writes = λ d h i c k j lt. rw (lt→ltb i 4 lt) refl;
  set_pixel_size = λ d h i c k. refl;
  refresh_pixel = λ d h k j. refl;
  refresh_size = λ d h k. refl;
}

abbrev strip : Strip
strip = record { handle = 0; count = 4 }

abbrev dark : Strips leds
dark = record { strips = strip ∷ []; dev = λ h j. black }

abbrev red : Color
red = record { r = 255; g = 0; b = 0 }

-- No randomness, and full brightness.
abbrev outside : Outside
outside = record { Seed = ℕ; rand = λ s. (s, s + 1); breathe_level = λ t cycle bri. bri }

-- Two red pixels from pixel 1 on, with the effect of a number.
abbrev zone_of : ℕ → ℕ → ZoneState
zone_of effect count = record {
  cfg = record {
    active = true;
    strip_idx = 0;
    start = 1;
    count = count;
    effect = effect;
    r = 255;
    g = 0;
    b = 0;
    r2 = 0;
    g2 = 0;
    b2 = 255;
    brightness = 255;
    speed = 128;
  };
  tick = 0;
}

abbrev zones : List ZoneState
zones = zone_of 0 2 ∷ replicate 7 blank_zone

dark-OnStrip : OnStrip leds laws (zone_of 0 2).cfg strip dark
dark-OnStrip = record { there = refl; sized = refl }

abbrev rendered : ZoneState × Strips leds × ℕ
rendered = (zone_of 0 2, paint_zone leds (zone_of 0 2) (λ i. primary (zone_of 0 2).cfg) dark, 0)

render_solid : render_zone leds outside (zone_of 0 2) dark 0 ≡ some rendered
unfolding render_zone effect_of render_effect
render_solid = refl

-- The same zone on a strip that is not there.
abbrev lost_zone : ZoneState
lost_zone = record (zone_of 0 2) { cfg = record ((zone_of 0 2).cfg) { strip_idx = 3 } }

abbrev lost_rendered : ZoneState × Strips leds × ℕ
lost_rendered = (lost_zone, paint_zone leds lost_zone (λ i. primary lost_zone.cfg) dark, 0)

render_lost : render_zone leds outside lost_zone dark 0 ≡ some lost_rendered
unfolding render_zone effect_of render_effect
render_lost = refl

-- A pixel next to the zone, and one inside the range of the zone without a strip.
render_zone-outside_example :
    (Frames.pixel leds laws rendered.1 0 3 ≡ Frames.pixel leds laws dark 0 3)
    × (Frames.pixel leds laws lost_rendered.1 0 1 ≡ Frames.pixel leds laws dark 0 1)
render_zone-outside_example = (
  render_zone-outside leds laws outside (zone_of 0 2) dark 0 0 3 rendered
      (inl (strip, dark-OnStrip, refl)) render_solid,
  render_zone-outside leds laws outside lost_zone dark 0 0 1 lost_rendered (inr refl) render_lost,
)

render_zone-fault_example :
    (render_zone leds outside (zone_of 4 0) dark 0 ≡ none)
    ↔ (((zone_of 4 0).cfg.count ≡ 0) × (divides (effect_of 4) (zone_of 4 0) ≡ true))
render_zone-fault_example = render_zone-fault leds outside (zone_of 4 0) dark 0

-- A driver that keeps what is shown apart from the buffer.
abbrev shown_leds : LedDriver
shown_leds = record {
  Dev = Pixels × Pixels;
  new_rmt_device = λ d gpio n. (Err.esp_ok, gpio, d);
  set_pixel = λ d h i c. let (e, p) = set_at d.0 h i c in (e, (p, d.1));
  refresh = λ d h. (Err.esp_ok, (d.0, (λ k j. if h == k then d.0 k j else d.1 k j)));
  clear = λ d h. (Err.esp_ok, d);
}

abbrev shown_laws : PixelLaws shown_leds
shown_laws = record {
  pixel = λ d h j. d.0 h j;
  size = λ d h. 4;
  set_pixel_accepts = λ d h i c lt. rw (lt→ltb i 4 lt) refl;
  set_pixel_writes = λ d h i c k j lt. rw (lt→ltb i 4 lt) refl;
  set_pixel_size = λ d h i c k. refl;
  refresh_pixel = λ d h k j. refl;
  refresh_size = λ d h k. refl;
}

abbrev shows : ShowLaws shown_leds shown_laws
shows = record { shown = λ d h j. d.1 h j; refresh_shows = λ d h j ok. rw (==_refl h) refl }

-- Four red LEDs.
abbrev lit : Strips shown_leds
lit = record { strips = strip ∷ []; dev = ((λ h j. red), (λ h j. red)) }

abbrev effects : Effects shown_leds outside
effects = record { zones = zones; strips = lit; seed = 0 }

abbrev cleared : Effects shown_leds outside
cleared = (led_effects_clear_zone shown_leds outside 0 effects).1

led_effects_clear_zone_lem_example :
    (get_elem? cleared.zones 0 ≡ some blank_zone)
    × ((j : ℕ) → 0 ≢ j → get_elem? cleared.zones j ≡ get_elem? effects.zones j)
    × PaintedBy shown_leds shown_laws (zone_of 0 2).cfg strip (λ i. black) 0 2 lit cleared.strips
    × ((j : ℕ)
        → shows.shown cleared.strips.dev 0 j ≡ (
            if within (1 + 0) 2 j && ltb j 4
            then black
            else Frames.pixel shown_leds shown_laws lit 0 j))
led_effects_clear_zone_lem_example =
    led_effects_clear_zone_lem shown_leds outside shown_laws shows 0 effects (zone_of 0 2) strip
      (omega arith) refl refl (record { there = refl; sized = refl }) (λ d. refl)
