-- ===== src/Node/Effects/Zone.antt =====
-- `led_zone_cfg_t`, `zone_state_t` and `led_effect_id_t`.
use klippylink.Common.{ℕ, Bool, false, Option, none, some, ◌==◌, if◌then◌else◌}

pub data Effect : Type 0 where
  solid blink breathe rainbow chase wipe twinkle : Effect

-- The byte of a packet is cast to the enumeration unchecked; `none` is the `default` label.
unfoldable pub effect_of : ℕ → Option Effect
effect_of n =
    if n == 0
    then some Effect.solid
    else if n == 1
    then some Effect.blink
    else if n == 2
    then some Effect.breathe
    else if n == 3
    then some Effect.rainbow
    else if n == 4
    then some Effect.chase
    else if n == 5
    then some Effect.wipe
    else if n == 6
    then some Effect.twinkle
    else none

pub record ZoneCfg : Type 0 where
  pub active : Bool
  pub strip_idx : ℕ
  pub start : ℕ
  pub count : ℕ
  pub effect : ℕ
  pub r : ℕ
  pub g : ℕ
  pub b : ℕ
  pub r2 : ℕ
  pub g2 : ℕ
  pub b2 : ℕ
  pub brightness : ℕ
  pub speed : ℕ

pub record ZoneState : Type 0 where
  pub cfg : ZoneCfg
  pub tick : ℕ

-- A zone after `memset`.
abbrev pub blank_zone : ZoneState
blank_zone = record {
  cfg = record {
    active = false;
    strip_idx = 0;
    start = 0;
    count = 0;
    effect = 0;
    r = 0;
    g = 0;
    b = 0;
    r2 = 0;
    g2 = 0;
    b2 = 0;
    brightness = 0;
    speed = 0;
  };
  tick = 0;
}
