-- ===== src/Node/Effects/Isolation.antt =====
-- Rendering leaves the pixels outside the zone alone.
use klippylink.Common.{
  ℕ, zero, suc, ◌+◌, ◌*◌, ◌%◌, ◌≤◌, ◌<◌, ◌≡◌, refl, sym, ap, ◌∙◌, ◌⊎◌, inl, inr, Bool, false, ◌&&◌,
  Option, none, some, arith, ltb, ◌==◌, if◌then◌else◌, Bool-cases, get_elem?,
}
use klippylink.Json.{>>=-eq-some, eq_of_some}
use klippylink.Node.Neopixel.Driver.{Color, LedDriver, PixelLaws}
use klippylink.Node.Neopixel.{Strip, Strips, neopixel_set_pixel}
use klippylink.Node.Neopixel.Fill.{within}
use klippylink.Node.Effects.Colors.{speed_period}
use klippylink.Node.Effects.Zone.{ZoneCfg, ZoneState, Effect, effect_of}
use klippylink.Node.Effects.{
  Outside, put, paint, primary, secondary, render_effect, render_zone, twinkle, checked_mod,
  step_of,
}
use klippylink.Node.Effects.Faults.{checked_mod_lem}
use klippylink.Node.Effects.Frames.{OnStrip, pixel, put_lem, paint_lem}

-- Pixel `j` of the strip with handle `h` belongs to a zone on strip `s`.
abbrev pub in_zone : ZoneCfg → Strip → ℕ → ℕ → Bool
in_zone c s h j = s.handle == h && (within (c.start + 0) c.count j && ltb j s.count)

checked_mod-lt : (a b n : ℕ) → checked_mod a b ≡ some n → n < b
checked_mod-lt a b n e = elim (checked_mod_lem a b) [
  | inl (z, q) ↦ cc
  | inr (nz, q) ↦ let r : a % b ≡ n = eq_of_some (sym q ∙ e) in omega arith
]

module _ (D : LedDriver) (L : PixelLaws D) (O : Outside) where
  -- The world after has the pixel of the world before.
  Same : ℕ → ℕ → Strips D → ZoneState × Strips D × O.Seed → Type 0
  Same h j w out = pixel D L out.1 h j ≡ pixel D L w h j

  -- What the zone paints leaves the pixel alone.
  record Leaves (z : ZoneState) (h j : ℕ) (w : Strips D) : Type 0 where
    paints : (f : ℕ → Color) → pixel D L (paint D z.cfg f 0 z.cfg.count w) h j ≡ pixel D L w h j
    puts :
        (n : ℕ) (color : Color)
        → n < z.cfg.count
        → pixel D L (put D z.cfg (n % 256) color w) h j ≡ pixel D L w h j

  outside_put :
      (c : ZoneCfg) (s : Strip) (h j n : ℕ)
      → n < c.count
      → in_zone c s h j ≡ false
      → ((s.handle == h && c.start + n % 256 == j) && ltb j s.count) ≡ false
  outside_put c s h j n lt out = let small : n % 256 ≤ n = omega arith in ground arith

  -- A pixel outside the zone.
  outside-Leaves :
      (z : ZoneState) (w : Strips D) (s : Strip) (h j : ℕ)
      → OnStrip D L z.cfg s w
      → in_zone z.cfg s h j ≡ false
      → Leaves z h j w
  outside-Leaves z w s h j o out = record {
    paints = λ f. (paint_lem D L z.cfg f 0 z.cfg.count w s o).1 h j ∙ rw out refl;
    puts = λ n color lt.
        (put_lem D L z.cfg (n % 256) color w s o).1 h j
        ∙ rw (outside_put z.cfg s h j n lt out) refl;
  }

  put-missing :
      (c : ZoneCfg) (i : ℕ) (color : Color) (w : Strips D)
      → get_elem? w.strips c.strip_idx ≡ none
      → put D c i color w ≡ w
  unfolding neopixel_set_pixel
  put-missing c i color w gone = rw (gone, put) refl

  paint-missing :
      (c : ZoneCfg) (f : ℕ → Color) (i k : ℕ) (w : Strips D)
      → get_elem? w.strips c.strip_idx ≡ none
      → paint D c f i k w ≡ w
  unfolding paint
  paint-missing c f i zero w gone = refl
  paint-missing c f i (suc k) w gone =
      ap (λ v. paint D c f (suc i) k v) (put-missing c i (f i) w gone)
      ∙ paint-missing c f (suc i) k w gone

  -- Any pixel, when the zone is on a strip that is not there.
  missing-Leaves :
      (z : ZoneState) (w : Strips D) (h j : ℕ)
      → get_elem? w.strips z.cfg.strip_idx ≡ none
      → Leaves z h j w
  missing-Leaves z w h j gone = record {
    paints = λ f. ap (λ v. pixel D L v h j) (paint-missing z.cfg f 0 z.cfg.count w gone);
    puts = λ n color lt. ap (λ v. pixel D L v h j) (put-missing z.cfg (n % 256) color w gone);
  }

  twinkle-Same :
      (z : ZoneState) (w : Strips D) (seed : O.Seed) (h j : ℕ) (out : Strips D × O.Seed)
      → Leaves z h j w
      → twinkle D O z w seed ≡ some out
      → pixel D L out.0 h j ≡ pixel D L w h j
  unfolding twinkle
  twinkle-Same z w seed h j out l e =
      let (n, m, e') = >>=-eq-some (checked_mod (O.rand seed).0 z.cfg.count) _ e in
      let color = if (O.rand (O.rand seed).1).0 % 2 == 1 then primary z.cfg else secondary z.cfg in
      ap (λ t. pixel D L t.0 h j) (sym (eq_of_some e'))
      ∙ l.puts n color (checked_mod-lt _ z.cfg.count n m)

  effect-Same :
      (e : Option Effect) (z : ZoneState) (w : Strips D) (seed : O.Seed) (h j : ℕ)
      (out : ZoneState × Strips D × O.Seed)
      → Leaves z h j w
      → render_effect D O e z w seed ≡ some out
      → Same h j w out
  unfolding render_effect Same
  effect-Same none z w seed h j out l e = ap (λ t. pixel D L t.1 h j) (sym (eq_of_some e))
  effect-Same (some Effect.chase) z w seed h j out l e =
      let (n, m, e') = >>=-eq-some (checked_mod (step_of z) z.cfg.count) _ e in
      ap (λ t. pixel D L t.1 h j) (sym (eq_of_some e')) ∙ l.paints _
  effect-Same (some Effect.wipe) z w seed h j out l e =
      let (n, m, e') = >>=-eq-some (checked_mod (step_of z) (z.cfg.count * 2)) _ e in
      ap (λ t. pixel D L t.1 h j) (sym (eq_of_some e')) ∙ l.paints _
  effect-Same (some Effect.twinkle) z w seed h j out l e =
      elim (Bool-cases (z.tick % speed_period z.cfg.speed == 0)) [
        | inr q ↦ ap (λ t. pixel D L t.1 h j) (sym (eq_of_some (simp q at e)))
        | inl q ↦
            let (t, m, e') = >>=-eq-some (twinkle D O z w seed) _ (simp q at e) in
            ap (λ t. pixel D L t.1 h j) (sym (eq_of_some e')) ∙ twinkle-Same z w seed h j t l m
      ]
  effect-Same (some _) z w seed h j out l e =
      ap (λ t. pixel D L t.1 h j) (sym (eq_of_some e)) ∙ l.paints _

  -- Whatever the effect, rendering a zone on a strip that is there, with a driver's buffer as long as
  -- the strip, leaves every pixel alone that is on another strip, outside the range of the zone, or
  -- past the end of the strip; and rendering a zone whose strip index has no strip leaves every pixel
  -- alone.
  pub render_zone-outside :
      (z : ZoneState) (w : Strips D) (seed : O.Seed) (h j : ℕ) (out : ZoneState × Strips D × O.Seed)
      → ((s : Strip) × OnStrip D L z.cfg s w × (in_zone z.cfg s h j ≡ false))
        ⊎ (get_elem? w.strips z.cfg.strip_idx ≡ none)
      → render_zone D O z w seed ≡ some out
      → pixel D L out.1 h j ≡ pixel D L w h j
  unfolding render_zone Same
  render_zone-outside z w seed h j out (inl (s, o, off)) e =
      effect-Same (effect_of z.cfg.effect) z w seed h j out (outside-Leaves z w s h j o off) e
  render_zone-outside z w seed h j out (inr gone) e =
      effect-Same (effect_of z.cfg.effect) z w seed h j out (missing-Leaves z w h j gone) e
