-- ===== src/Node/Effects/Arith.antt =====
-- Bounds of the byte arithmetic of the effects.
use klippylink.Common.{
  ℕ, ◌-◌, ◌*◌, ◌/◌, ◌≤◌, ◌<◌, ◌≡◌, refl, ◌⊎◌, inl, inr, arith, ◌==◌, Bool-cases,
}
use klippylink.Protocol.{u8}
use klippylink.Node.Neopixel.Driver.{Color}
use klippylink.Node.Effects.Colors.{dim, speed_period, region_color, hsv_to_rgb}

-- Dimming a byte by a byte gives no more than either, the byte itself at 255 and 0 at 0, and grows
-- with both.
pub dim_bounds :
    (v bri : ℕ)
    → v < 256
    → bri < 256
    → (dim v bri ≤ v) × (dim v bri ≤ bri) × (dim v 255 ≡ v) × (dim v 0 ≡ 0)
unfolding dim
dim_bounds v bri h k =
    let a : v * bri ≤ v * 255 = grind arith in
    let b : v * bri ≤ 255 * bri = grind arith in
    (omega arith, omega arith, omega arith, omega arith)

-- A period is from 1 to 50 ticks, 50 at speed 0 and 1 at speed 255, and no longer at a higher speed.
pub speed_period_bounds :
    (s t : ℕ)
    → s ≤ t
    → t < 256
    → (1 ≤ speed_period s)
      × (speed_period s ≤ 50)
      × (speed_period t ≤ speed_period s)
      × (speed_period 0 ≡ 50)
      × (speed_period 255 ≡ 1)
unfolding speed_period
speed_period_bounds s t h k = (omega arith, omega arith, omega arith, refl, refl)

-- No channel is above `v`, and one is `v`.
pub record IsOfValue (v : ℕ) (c : Color) : Type 0 where
  pub r_le : c.r ≤ v
  pub g_le : c.g ≤ v
  pub b_le : c.b ≤ v
  pub reached : (c.r ≡ v) ⊎ (c.g ≡ v) ⊎ (c.b ≡ v)

region_color-IsOfValue :
    (region v p q t : ℕ) → p ≤ v → q ≤ v → t ≤ v → IsOfValue v (region_color region v p q t)
unfolding region_color
region_color-IsOfValue region v p q t hp hq ht = ground arith

-- For bytes, the color of a hue, a saturation and a value has no channel above the value, and at
-- least one channel at it.
pub hsv_to_rgb-IsOfValue : (h s v : ℕ) → s < 256 → v < 256 → IsOfValue v (hsv_to_rgb h s v)
unfolding hsv_to_rgb
hsv_to_rgb-IsOfValue h s v hs hv = elim (Bool-cases (s == 0)) [
  | inl e ↦
      rw e
        (record { r_le = omega arith; g_le = omega arith; b_le = omega arith; reached = inl refl })
  | inr e ↦ rw e (
      region_color-IsOfValue (h / 43) v _ _ _ (dim_bounds v (255 - s) hv (omega arith)).0
        (dim_bounds v (255 - u8 (s * u8 ((h - h / 43 * 43) * 6) / 255)) hv (omega arith)).0
        (dim_bounds v (255 - u8 (s * (255 - u8 ((h - h / 43 * 43) * 6)) / 255)) hv (omega arith)).0)
]
