-- ===== src/Node/Effects/Faults.antt =====
-- When rendering a zone divides by zero.
use klippylink.Common.{
  ℕ, ◌*◌, ◌%◌, ◌≡◌, refl, ◌≢◌, ◌↔◌, ◌⊎◌, inl, inr, Bool, true, false, Option, none, some, arith,
  ◌==◌, ==_iff, ==→ne, Bool-cases,
}
use klippylink.Json.{◌>>=◌}
use klippylink.Node.Neopixel.Driver.{LedDriver}
use klippylink.Node.Neopixel.{Strips}
use klippylink.Node.Effects.Colors.{speed_period}
use klippylink.Node.Effects.Zone.{ZoneState, Effect, effect_of}
use klippylink.Node.Effects.{Outside, checked_mod, step_of, render_effect, render_zone, twinkle}

-- The effects that divide by the number of pixels of the zone in this tick.
unfoldable pub divides : Option Effect → ZoneState → Bool
divides (some Effect.chase) z = true
divides (some Effect.wipe) z = true
divides (some Effect.twinkle) z = z.tick % speed_period z.cfg.speed == 0
divides _ z = false

pub checked_mod_lem :
    (a b : ℕ) → ((b ≡ 0) × (checked_mod a b ≡ none)) ⊎ ((b ≢ 0) × (checked_mod a b ≡ some (a % b)))
checked_mod_lem a b = elim (Bool-cases (b == 0)) [
  | inl e ↦ inl ((==_iff b 0).0 e, rw e)
  | inr e ↦ inr (==→ne b 0 e, rw e)
]

mod_fault {ℓ} :
    {A : Type ℓ} (a b : ℕ) (f : ℕ → A) → ((checked_mod a b >>= λ x. some (f x)) ≡ none) ↔ (b ≡ 0)
mod_fault a b f = elim (checked_mod_lem a b) [
  | inl (z, e) ↦ ((λ _. z), (λ _. rw e))
  | inr (nz, e) ↦ ((λ h. let q = rw e at h in cc), (λ z. absurd (nz z)))
]

module _ (D : LedDriver) (O : Outside) where
  twinkle_fault :
      (z : ZoneState) (w : Strips D) (seed : O.Seed)
      → (twinkle D O z w seed ≡ none) ↔ (z.cfg.count ≡ 0)
  unfolding twinkle
  twinkle_fault z w seed = mod_fault (O.rand seed).0 z.cfg.count _

  bind_fault {ℓ κ} :
      {A : Type ℓ} {B : Type κ} (m : Option A) (f : A → B)
      → ((m >>= λ x. some (f x)) ≡ none) ↔ (m ≡ none)
  bind_fault none f = ((λ h. refl), (λ h. refl))
  bind_fault (some a) f = ((λ h. cc), (λ h. cc))

  effect_fault :
      (e : Option Effect) (z : ZoneState) (w : Strips D) (seed : O.Seed)
      → (render_effect D O e z w seed ≡ none) ↔ ((z.cfg.count ≡ 0) × (divides e z ≡ true))
  unfolding render_effect divides
  effect_fault none z w seed = ((λ h. cc), (λ h. let q = h.1 in cc))
  effect_fault (some Effect.chase) z w seed =
      let (f, g) = mod_fault (step_of z) z.cfg.count _ in ((λ h. (f h, refl)), (λ h. g h.0))
  effect_fault (some Effect.wipe) z w seed =
      let (f, g) = mod_fault (step_of z) (z.cfg.count * 2) _ in
      ((λ h. let q = f h in (omega arith, refl)), (λ h. g (let q = h.0 in omega arith)))
  effect_fault (some Effect.twinkle) z w seed =
      elim (Bool-cases (z.tick % speed_period z.cfg.speed == 0)) [
        | inr e ↦ simp e ((λ h. cc), (λ h. let q = h.1 in cc))
        | inl e ↦
            let (f, g) = bind_fault (twinkle D O z w seed) _ in
            let (f', g') = twinkle_fault z w seed in
            simp e ((λ h. (f' (f h), refl)), (λ h. g (g' h.0)))
      ]
  effect_fault (some _) z w seed = ((λ h. cc), (λ h. let q = h.1 in cc))

  -- Rendering a zone fails in exactly one case: the zone has no pixels and its effect divides by
  -- their number in this tick, as the chase and the wipe always do, and the twinkle in the ticks in
  -- which it changes a pixel.
  pub render_zone-fault :
      (z : ZoneState) (w : Strips D) (seed : O.Seed)
      → (render_zone D O z w seed ≡ none)
        ↔ ((z.cfg.count ≡ 0) × (divides (effect_of z.cfg.effect) z ≡ true))
  unfolding render_zone
  render_zone-fault z w seed = effect_fault (effect_of z.cfg.effect) z w seed
