-- ===== src/Node/Neopixel/Driver.antt =====
-- What neopixel.c calls of the led_strip component, which is not part of the repository.
use klippylink.Common.{ℕ, ◌<◌, ◌≡◌, true, ◌&&◌, ◌==◌, if◌then◌else◌}
use klippylink.Esp.{Err, is_ok}

pub record Color : Type 0 where
  pub r : ℕ
  pub g : ℕ
  pub b : ℕ

abbrev pub black : Color
black = record { r = 0; g = 0; b = 0 }

pub record LedDriver : Type 1 where
  pub Dev : Type 0
  -- `led_strip_new_rmt_device` for a pin and a number of LEDs, with the new handle.
  pub new_rmt_device : Dev → ℕ → ℕ → Err × ℕ × Dev
  pub set_pixel : Dev → ℕ → ℕ → Color → Err × Dev
  pub refresh : Dev → ℕ → Err × Dev
  pub clear : Dev → ℕ → Err × Dev

-- What is documented of it and relied on. `pixel` is the buffer of a strip, `size` its length: a
-- pixel inside the strip is taken, and changes nothing else; sending the buffer changes none of it.
pub record PixelLaws (D : LedDriver) : Type 0 where
  pub pixel : D.Dev → ℕ → ℕ → Color
  pub size : D.Dev → ℕ → ℕ
  pub set_pixel_accepts :
      (d : D.Dev) (h i : ℕ) (c : Color) → i < size d h → is_ok (D.set_pixel d h i c).0 ≡ true
  pub set_pixel_writes :
      (d : D.Dev) (h i : ℕ) (c : Color) (k j : ℕ)
      → i < size d h
      → pixel (D.set_pixel d h i c).1 k j ≡ (if h == k && i == j then c else pixel d k j)
  pub set_pixel_size :
      (d : D.Dev) (h i : ℕ) (c : Color) (k : ℕ) → size (D.set_pixel d h i c).1 k ≡ size d k
  pub refresh_pixel : (d : D.Dev) (h k j : ℕ) → pixel (D.refresh d h).1 k j ≡ pixel d k j
  pub refresh_size : (d : D.Dev) (h k : ℕ) → size (D.refresh d h).1 k ≡ size d k

-- And what the LEDs of a strip show: a refresh that succeeds makes it what the buffer has.
pub record ShowLaws (D : LedDriver) (L : PixelLaws D) : Type 0 where
  pub shown : D.Dev → ℕ → ℕ → Color
  pub refresh_shows :
      (d : D.Dev) (h j : ℕ)
      → is_ok (D.refresh d h).0 ≡ true
      → shown (D.refresh d h).1 h j ≡ L.pixel d h j
