-- ===== src/Node/Effects/Colors.antt =====
-- The arithmetic of led_effects.c on bytes: `dim`, `speed_period` and `hsv_to_rgb`.
use klippylink.Common.{ℕ, ◌+◌, ◌-◌, ◌*◌, ◌/◌, ◌==◌, if◌then◌else◌}
use klippylink.Protocol.{u8}
use klippylink.Node.Neopixel.Driver.{Color}

unfoldable pub dim : ℕ → ℕ → ℕ
dim v bri = u8 (v * bri / 255)

abbrev pub dim_color : Color → ℕ → Color
dim_color c bri = record { r = dim c.r bri; g = dim c.g bri; b = dim c.b bri }

unfoldable pub speed_period : ℕ → ℕ
speed_period speed = 1 + (255 - speed) * 49 / 255

-- The `switch` over the six regions of the hue.
unfoldable pub region_color : ℕ → ℕ → ℕ → ℕ → ℕ → Color
region_color region v p q t =
    if region == 0
    then record { r = v; g = t; b = p }
    else if region == 1
    then record { r = q; g = v; b = p }
    else if region == 2
    then record { r = p; g = v; b = t }
    else if region == 3
    then record { r = p; g = q; b = v }
    else if region == 4
    then record { r = t; g = p; b = v }
    else record { r = v; g = p; b = q }

unfoldable pub hsv_to_rgb : ℕ → ℕ → ℕ → Color
hsv_to_rgb h s v =
    let region = h / 43 in
    let remainder = u8 ((h - region * 43) * 6) in
    let p = dim v (255 - s) in
    let q = dim v (255 - u8 (s * remainder / 255)) in
    let t = dim v (255 - u8 (s * (255 - remainder) / 255)) in
    if s == 0 then record { r = v; g = v; b = v } else region_color region v p q t
