-- ===== src/Node/Effects/Rounds.antt =====
-- Rounds of the effects engine: they keep the strips and the settings of the zones, and do not fault
-- while every active zone has a pixel.
use klippylink.Common.{
  ℕ, zero, suc, ◌*◌, ◌%◌, ◌≡◌, refl, sym, ap, ◌∙◌, subst, ◌≢◌, inl, inr, Bool, true, false, Option,
  none, some, List, [], ◌∷◌, leb, ◌==◌, Bool-cases, Option-cases, length, get_elem?, get_or, set,
  replicate, length-set, All,
}
use klippylink.Esp.{Err}
use klippylink.Json.{>>=-eq-some, eq_of_some}
use klippylink.Node.Neopixel.Driver.{Color, LedDriver, black}
use klippylink.Node.Neopixel.{
  Strip, Strips, with_strip, neopixel_set_pixel, neopixel_flush, neopixel_max_strips,
}
use klippylink.Node.Effects.Colors.{speed_period}
use klippylink.Node.Effects.Zone.{ZoneCfg, ZoneState, Effect, effect_of, blank_zone}
use klippylink.Node.Effects.Faults.{render_zone-fault}
use klippylink.Node.Effects.{
  Outside, Effects, led_max_zones, led_effects_set_zone, led_effects_clear_zone, put, paint,
  paint_zone, darken, twinkle, checked_mod, step_of, render_effect, render_zone, render_one,
  render_all, flush_dirty, effects_round,
}

-- An active zone has at least one pixel.
abbrev pub HasPixels : ZoneState → Type 0
HasPixels z = z.cfg.active ≡ true → z.cfg.count ≢ 0

module _ (D : LedDriver) where
  pub strips-with_strip :
      (i : ℕ) (f : Strip → D.Dev → Err × D.Dev) (w : Strips D)
      → (with_strip D i f w).1.strips ≡ w.strips
  strips-with_strip i f w = elim (Option-cases (get_elem? w.strips i)) [
    | inl e ↦ rw (e, with_strip) refl
    | inr (s, e) ↦ rw (e, with_strip) refl
  ]

  strips-paint :
      (c : ZoneCfg) (f : ℕ → Color) (i k : ℕ) (w : Strips D) → (paint D c f i k w).strips ≡ w.strips
  unfolding paint neopixel_set_pixel
  strips-paint c f i zero w = refl
  strips-paint c f i (suc k) w =
      strips-paint c f (suc i) k (put D c i (f i) w) ∙ strips-with_strip _ _ w

  pub strips-darken : (c : ZoneCfg) (w : Strips D) → (darken D c w).strips ≡ w.strips
  unfolding darken neopixel_flush
  strips-darken c w = elim (Bool-cases c.active) [
    | inl e ↦
        simp e (
          strips-with_strip _ _ (paint D c (λ i. black) 0 c.count w) ∙ strips-paint c _ 0 c.count w)
    | inr e ↦ rw e refl
  ]

module _ (D : LedDriver) (O : Outside) where
  -- The settings of the zone and the strips stay.
  abbrev Same : ZoneState → Strips D → ZoneState × Strips D × O.Seed → Type 0
  Same z w out = (out.0.cfg ≡ z.cfg) × (out.1.strips ≡ w.strips)

  strips-flush_dirty :
      (ds : List Bool) (s : ℕ) (w : Strips D) → (flush_dirty D O ds s w).strips ≡ w.strips
  unfolding flush_dirty neopixel_flush
  strips-flush_dirty [] s w = refl
  strips-flush_dirty (true ∷ ds) s w =
      strips-flush_dirty ds (suc s) (neopixel_flush D s w).1 ∙ strips-with_strip D _ _ w
  strips-flush_dirty (false ∷ ds) s w = strips-flush_dirty ds (suc s) w

  strips-twinkle :
      (z : ZoneState) (w : Strips D) (seed : O.Seed) (out : Strips D × O.Seed)
      → twinkle D O z w seed ≡ some out
      → out.0.strips ≡ w.strips
  unfolding twinkle neopixel_set_pixel
  strips-twinkle z w seed out e =
      let (n, m, e') = >>=-eq-some (checked_mod (O.rand seed).0 z.cfg.count) _ e in
      ap (λ t. t.0.strips) (sym (eq_of_some e')) ∙ strips-with_strip D _ _ w

  painted-Same :
      (z z' : ZoneState) (w : Strips D) (f : ℕ → Color) (seed : O.Seed)
      (out : ZoneState × Strips D × O.Seed)
      → z'.cfg ≡ z.cfg
      → some (z', paint_zone D z f w, seed) ≡ some out
      → Same z w out
  painted-Same z z' w f seed out c e =
      subst (Same z w) (eq_of_some e) (c, strips-paint D z.cfg f 0 z.cfg.count w)

  render_effect-Same :
      (e : Option Effect) (z : ZoneState) (w : Strips D) (seed : O.Seed)
      (out : ZoneState × Strips D × O.Seed)
      → render_effect D O e z w seed ≡ some out
      → Same z w out
  unfolding render_effect
  render_effect-Same none z w seed out e = subst (Same z w) (eq_of_some e) (refl, refl)
  render_effect-Same (some Effect.chase) z w seed out e =
      let (n, m, e') = >>=-eq-some (checked_mod (step_of z) z.cfg.count) _ e in
      painted-Same z _ w _ seed out refl e'
  render_effect-Same (some Effect.wipe) z w seed out e =
      let (n, m, e') = >>=-eq-some (checked_mod (step_of z) (z.cfg.count * 2)) _ e in
      painted-Same z _ w _ seed out refl e'
  render_effect-Same (some Effect.twinkle) z w seed out e =
      elim (Bool-cases (z.tick % speed_period z.cfg.speed == 0)) [
        | inr q ↦ subst (Same z w) (eq_of_some (simp q at e)) (refl, refl)
        | inl q ↦
            let (t, m, e') = >>=-eq-some (twinkle D O z w seed) _ (simp q at e) in
            subst (Same z w) (eq_of_some e') (refl, strips-twinkle z w seed t m)
      ]
  render_effect-Same (some _) z w seed out e = painted-Same z _ w _ seed out refl e

  render_zone-Same :
      (z : ZoneState) (w : Strips D) (seed : O.Seed) (out : ZoneState × Strips D × O.Seed)
      → render_zone D O z w seed ≡ some out
      → Same z w out
  unfolding render_zone
  render_zone-Same z w seed out e = render_effect-Same (effect_of z.cfg.effect) z w seed out e

  -- A round over the zones: none faults, and each keeps its settings.
  render_one-HasPixels :
      (z : ZoneState) (dirty : List Bool) (w : Strips D) (seed : O.Seed)
      → HasPixels z
      → (out : ZoneState × List Bool × Strips D × O.Seed) × (render_one D O z dirty w seed
          ≡ some out)
        × HasPixels out.0
        × (out.2.strips ≡ w.strips)
  unfolding render_one
  render_one-HasPixels z dirty w seed h = elim (Bool-cases z.cfg.active) [
    | inr off ↦ ((z, dirty, w, seed), simp off refl, h, refl)
    | inl on ↦ elim (Option-cases (render_zone D O z w seed)) [
      | inl fault ↦ absurd (h on ((render_zone-fault D O z w seed).0 fault).0)
      | inr (out, e) ↦
          let (cfg, strips) = render_zone-Same z w seed out e in
          (
            (out.0, set dirty z.cfg.strip_idx true, out.1, out.2),
            simp (on, e) refl,
            subst (λ c. c.active ≡ true → c.count ≢ 0) (sym cfg) h,
            strips,
          )
    ]
  ]

  render_all-HasPixels :
      (zs : List ZoneState) (dirty : List Bool) (w : Strips D) (seed : O.Seed)
      → All HasPixels zs
      → (out : List ZoneState × List Bool × Strips D × O.Seed) × (render_all D O zs dirty w seed
          ≡ some out)
        × All HasPixels out.0
        × (length out.0 ≡ length zs)
        × (out.2.strips ≡ w.strips)
  unfolding render_all
  render_all-HasPixels [] dirty w seed h = (([], dirty, w, seed), refl, tt, refl, refl)
  render_all-HasPixels (z ∷ zs) dirty w seed (h, hs) =
      let (one, e, p, s) = render_one-HasPixels z dirty w seed h in
      let (rest, e', ps, n, s') = render_all-HasPixels zs one.1 one.2 one.3 hs in
      ((one.0 ∷ rest.0, rest.1, rest.2, rest.3), rw (e, e') refl, (p, ps), ap suc n, s' ∙ s)

  -- The zones' number, that active ones have pixels, and the strips.
  pub record Paintable (kept : List Strip) (e : Effects D O) : Type 0 where
    pub count : length e.zones ≡ led_max_zones
    pub pixels : All HasPixels e.zones
    pub strips : e.strips.strips ≡ kept

  pub effects_round-Paintable :
      {kept : List Strip} (e : Effects D O)
      → Paintable kept e
      → (e' : Effects D O) × (effects_round D O e ≡ some e') × Paintable kept e'
  unfolding effects_round
  effects_round-Paintable e p =
      let (out, q, ps, n, s) =
        render_all-HasPixels e.zones (replicate neopixel_max_strips false) e.strips e.seed
          p.pixels in
      (
        record { zones = out.0; strips = flush_dirty D O out.1 0 out.2; seed = out.3 },
        rw q refl,
        record {
          count = n ∙ p.count;
          pixels = ps;
          strips = strips-flush_dirty out.1 0 out.2 ∙ s ∙ p.strips;
        },
      )

  All-set :
      (zs : List ZoneState) (i : ℕ) (z : ZoneState)
      → All HasPixels zs
      → HasPixels z
      → All HasPixels (set zs i z)
  All-set [] i z hs h = tt
  All-set (x ∷ zs) zero z (hx, hs) h = (h, hs)
  All-set (x ∷ zs) (suc i) z (hx, hs) h = (hx, All-set zs i z hs h)

  pub set_zone-Paintable :
      {kept : List Strip} (id : ℕ) (cfg : ZoneCfg) (e : Effects D O)
      → cfg.count ≢ 0
      → Paintable kept e
      → Paintable kept (led_effects_set_zone D O id cfg e).1
  unfolding led_effects_set_zone
  set_zone-Paintable id cfg e some_pixel p = elim (Bool-cases (leb 8 id)) [
    | inl past ↦ rw past p
    | inr inside ↦ rw inside (record {
      count = length-set e.zones id _ ∙ p.count;
      pixels = All-set e.zones id _ p.pixels (λ active. some_pixel);
      strips = p.strips;
    })
  ]

  pub clear_zone-Paintable :
      {kept : List Strip} (id : ℕ) (e : Effects D O)
      → Paintable kept e
      → Paintable kept (led_effects_clear_zone D O id e).1
  unfolding led_effects_clear_zone
  clear_zone-Paintable id e p = elim (Bool-cases (leb 8 id)) [
    | inl past ↦ rw past p
    | inr inside ↦ rw inside (record {
      count = length-set e.zones id _ ∙ p.count;
      pixels = All-set e.zones id blank_zone p.pixels (λ active. cc);
      strips = strips-darken D (get_or e.zones id blank_zone).cfg e.strips ∙ p.strips;
    })
  ]
