-- ===== src/Node/Neopixel/Fill.antt =====
-- The loop over the pixels of a range.
use klippylink.Common.{
  ℕ, zero, suc, ◌+◌, ◌≤◌, ◌≡◌, refl, ◌∙◌, Bool, true, ◌&&◌, arith, ltb, leb, ◌==◌, if◌then◌else◌,
}
use klippylink.Esp.{is_ok}
use klippylink.Node.Neopixel.Driver.{Color, LedDriver, PixelLaws}
use klippylink.Node.Neopixel.{fill}

-- `j` is in the range of `k` pixels from `i`.
abbrev pub within : ℕ → ℕ → ℕ → Bool
within i k j = leb i j && ltb j (i + k)

paint_step :
    (h k' i j k : ℕ) (c x : Color)
    → (if h == k' && within (suc i) k j then c else (if h == k' && i == j then c else x))
      ≡ (if h == k' && within i (suc k) j then c else x)
paint_step h k' i j k c x = ground arith

module _ (D : LedDriver) (L : PixelLaws D) where
  -- A range inside the strip is painted, pixel by pixel, without an error and with nothing else.
  pub fill_lem :
      (h i k : ℕ) (c : Color) (d : D.Dev)
      → i + k ≤ L.size d h
      → (is_ok (fill D h i k c d).0 ≡ true)
        × ((k' j : ℕ)
            → L.pixel (fill D h i k c d).1 k' j
              ≡ (if h == k' && within i k j then c else L.pixel d k' j))
        × ((k' : ℕ) → L.size (fill D h i k c d).1 k' ≡ L.size d k')
  unfolding fill
  fill_lem h i zero c d room = (refl, (λ k' j. ground arith), (λ k'. refl))
  fill_lem h i (suc k) c d room =
      let ok = L.set_pixel_accepts d h i c (omega arith) in
      let d' = (D.set_pixel d h i c).1 in
      let same = L.set_pixel_size d h i c h in
      let (fine, paint, sizes) = fill_lem h (suc i) k c d' (omega arith) in
      simp ok (
        fine,
        (λ k' j.
            paint k' j
            ∙ rw (L.set_pixel_writes d h i c k' j (omega arith))
                (paint_step h k' i j k c (L.pixel d k' j))),
        (λ k'. sizes k' ∙ L.set_pixel_size d h i c k'),
      )
