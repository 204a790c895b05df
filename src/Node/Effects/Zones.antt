-- ===== src/Node/Effects/Zones.antt =====
-- The table of zones: setting one, clearing one, and what stays.
use klippylink.Common.{
  ℕ, zero, suc, ◌+◌, ◌<◌, ◌≡◌, refl, ◌∙◌, ◌≢◌, ◌⊎◌, inl, inr, true, ◌&&◌, some, List, [], ◌∷◌,
  arith, ltb, leb, if◌then◌else◌, leb→lt, lt→leb, ==_refl, Bool-cases, length, get_elem?, get_or,
  length-set, get_elem?-set_self, get_elem?-set_ne,
}
use klippylink.Esp.{Err, is_ok}
use klippylink.Node.Neopixel.Driver.{LedDriver, PixelLaws, ShowLaws, black}
use klippylink.Node.Neopixel.Fill.{within}
use klippylink.Node.Neopixel.{Strip, neopixel_flush}
use klippylink.Node.Effects.Zone.{ZoneCfg, ZoneState, blank_zone}
use klippylink.Node.Effects.Frames.{OnStrip, pixel, paint_lem, PaintedBy}
use klippylink.Node.Effects.{
  Outside, Effects, led_max_zones, led_effects_set_zone, led_effects_clear_zone, darken,
}

get_or-there :
    (zs : List ZoneState) (i : ℕ) (z d : ZoneState) → get_elem? zs i ≡ some z → get_or zs i d ≡ z
get_or-there [] i z d e = cc
get_or-there (x ∷ zs) zero z d e = ground arith
get_or-there (x ∷ zs) (suc i) z d e = get_or-there zs i z d e

lt_of_there :
    (zs : List ZoneState) (i : ℕ) (z : ZoneState) → get_elem? zs i ≡ some z → i < length zs
lt_of_there [] i z e = cc
lt_of_there (x ∷ zs) zero z e = omega arith
lt_of_there (x ∷ zs) (suc i) z e = omega (arith, lt_of_there zs i z e)

module _ (D : LedDriver) (O : Outside) where
  -- With a zone id in range, `led_effects_set_zone` makes the zone active with the given settings and
  -- at tick 0, and keeps the other zones, their number and the pixels; with any other id it is refused
  -- and changes nothing.
  pub led_effects_set_zone_lem :
      (id : ℕ) (cfg : ZoneCfg) (e : Effects D O)
      → length e.zones ≡ led_max_zones
      → (id < led_max_zones)
          × (get_elem? (led_effects_set_zone D O id cfg e).1.zones id
              ≡ some (record { cfg = record cfg { active = true }; tick = 0 }))
          × ((j : ℕ)
              → id ≢ j
              → get_elem? (led_effects_set_zone D O id cfg e).1.zones j ≡ get_elem? e.zones j)
          × (length (led_effects_set_zone D O id cfg e).1.zones ≡ led_max_zones)
          × ((led_effects_set_zone D O id cfg e).1.strips ≡ e.strips)
        ⊎ (led_effects_set_zone D O id cfg e ≡ (Err.invalid_arg, e))
  unfolding led_effects_set_zone
  led_effects_set_zone_lem id cfg e size = elim (Bool-cases (leb 8 id)) [
    | inl past ↦ simp past (inr refl)
    | inr inside ↦
        let z : ZoneState = record { cfg = record cfg { active = true }; tick = 0 } in
        let lt = leb→lt _ _ inside in
        simp inside (
          inl (
            lt,
            get_elem?-set_self e.zones id z (omega arith),
            (λ j ne. get_elem?-set_ne e.zones z ne),
            length-set e.zones id z ∙ size,
            refl,
          ))
  ]

  -- Clearing an active zone whose strip is there, with a buffer as long as the strip and refreshes
  -- that succeed, turns exactly its pixels off in the buffer, and the LEDs of the strip then show the
  -- buffer: black in the zone, and otherwise what was painted before. It leaves the zone blank and
  -- inactive, and keeps every other zone.
  pub led_effects_clear_zone_lem :
      (L : PixelLaws D) (S : ShowLaws D L) (id : ℕ) (e : Effects D O) (z : ZoneState) (s : Strip)
      → id < led_max_zones
      → get_elem? e.zones id ≡ some z
      → z.cfg.active ≡ true
      → OnStrip D L z.cfg s e.strips
      → ((d : D.Dev) → is_ok (D.refresh d s.handle).0 ≡ true)
      → (get_elem? (led_effects_clear_zone D O id e).1.zones id ≡ some blank_zone)
        × ((j : ℕ)
            → id ≢ j
            → get_elem? (led_effects_clear_zone D O id e).1.zones j ≡ get_elem? e.zones j)
        × PaintedBy D L z.cfg s
            (λ i. black)
            0
            z.cfg.count
            e.strips
            (led_effects_clear_zone D O id e).1.strips
        × ((j : ℕ)
            → S.shown (led_effects_clear_zone D O id e).1.strips.dev s.handle j ≡ (
                if within (z.cfg.start + 0) z.cfg.count j && ltb j s.count
                then black
                else pixel D L e.strips s.handle j))
  unfolding led_effects_clear_zone darken neopixel_flush
  led_effects_clear_zone_lem L S id e z s lt there active o works =
      let (o', painted) = paint_lem D L z.cfg (λ i. black) 0 z.cfg.count e.strips s o in
      let same = ==_refl s.handle in
      simp (lt→leb 8 id lt, get_or-there e.zones id z blank_zone there, active, o'.there)
        (
          get_elem?-set_self e.zones id blank_zone (lt_of_there e.zones id z there),
          (λ j ne. get_elem?-set_ne e.zones blank_zone ne),
          (λ h j. L.refresh_pixel _ s.handle h j ∙ painted h j),
          (λ j. S.refresh_shows _ s.handle j (works _) ∙ painted s.handle j ∙ rw same refl),
        )
