-- ===== src/Protocol/Payloads.antt =====
-- The payload structs of shared/protocol/klip_protocol.h, and the bytes that a sender makes of them.
use klippylink.Common.{ℕ, ◌≡◌, refl, some, List, [], ◌∷◌}
use klippylink.Node.Effects.Zone.{Effect, effect_of}

-- `KLIP_EFFECT_*`
abbrev pub effect_code : Effect → ℕ
effect_code Effect.solid = 0
effect_code Effect.blink = 1
effect_code Effect.breathe = 2
effect_code Effect.rainbow = 3
effect_code Effect.chase = 4
effect_code Effect.wipe = 5
effect_code Effect.twinkle = 6

-- They match `led_effect_id_t`.
pub effect_of-effect_code : (e : Effect) → effect_of (effect_code e) ≡ some e
unfolding effect_of
effect_of-effect_code Effect.solid = refl
effect_of-effect_code Effect.blink = refl
effect_of-effect_code Effect.breathe = refl
effect_of-effect_code Effect.rainbow = refl
effect_of-effect_code Effect.chase = refl
effect_of-effect_code Effect.wipe = refl
effect_of-effect_code Effect.twinkle = refl

-- `klip_neopixel_set_t`
pub record NeopixelSet : Type 0 where
  pub led_idx : ℕ
  pub r : ℕ
  pub g : ℕ
  pub b : ℕ

abbrev pub neopixel_set_bytes : NeopixelSet → List ℕ
neopixel_set_bytes p = p.led_idx ∷ p.r ∷ p.g ∷ p.b ∷ []

-- `klip_neopixel_set_range_t`
pub record NeopixelSetRange : Type 0 where
  pub start : ℕ
  pub count : ℕ
  pub r : ℕ
  pub g : ℕ
  pub b : ℕ

abbrev pub neopixel_set_range_bytes : NeopixelSetRange → List ℕ
neopixel_set_range_bytes p = p.start ∷ p.count ∷ p.r ∷ p.g ∷ p.b ∷ []

-- `klip_led_zone_t`
pub record LedZone : Type 0 where
  pub zone_id : ℕ
  pub strip_idx : ℕ
  pub start : ℕ
  pub count : ℕ
  pub effect : Effect
  pub r : ℕ
  pub g : ℕ
  pub b : ℕ
  pub r2 : ℕ
  pub g2 : ℕ
  pub b2 : ℕ
  pub brightness : ℕ
  pub speed : ℕ

abbrev pub led_zone_bytes : LedZone → List ℕ
led_zone_bytes z =
    z.zone_id
    ∷ z.strip_idx
    ∷ z.start
    ∷ z.count
    ∷ effect_code z.effect
    ∷ z.r
    ∷ z.g
    ∷ z.b
    ∷ z.r2
    ∷ z.g2
    ∷ z.b2
    ∷ z.brightness
    ∷ z.speed
    ∷ []

-- `klip_endstop_state_t`
pub record EndstopState : Type 0 where
  pub endstop_idx : ℕ
  pub triggered : ℕ

abbrev pub endstop_state_bytes : EndstopState → List ℕ
endstop_state_bytes p = p.endstop_idx ∷ p.triggered ∷ []
