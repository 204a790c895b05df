-- ===== src/Node/Neopixel/Paint.antt =====
-- What each call of neopixel.c paints, and what it refuses.
use klippylink.Common.{
  ℕ, ◌+◌, ◌-◌, ◌%◌, ◌^◌, ◌≤◌, ◌<◌, min, ◌≡◌, refl, ◌∙◌, ◌⊎◌, inl, inr, true, false, ◌&&◌, none,
  some, [], ◌∷◌, arith, leb, ◌==◌, if◌then◌else◌, leb→lt, le→leb, lt→leb, Bool-cases, Option-cases,
  length, get_elem?, take, length-append, take-all, take-append_left, get_elem?-append_last,
}
use klippylink.Esp.{Err, is_ok}
use klippylink.Node.Neopixel.Driver.{Color, LedDriver, PixelLaws}
use klippylink.Node.Neopixel.{
  Strip, Strips, fill, set_range, set_one, put_pixel, range_end, neopixel_set, neopixel_set_all,
  neopixel_set_range, neopixel_set_pixel, neopixel_count, neopixel_init, neopixel_max_strips,
}
use klippylink.Node.Neopixel.Fill.{within, fill_lem}

range_rounds :
    (start count total : ℕ)
    → start + count < 2 ^ 32
    → range_end start count total - start ≡ min count (total - start)
unfolding range_end
range_rounds start count total h = ground arith

range_none :
    (start count total : ℕ)
    → start < total
    → (start + count) % 2 ^ 32 ≤ start
    → range_end start count total - start ≡ 0
unfolding range_end
range_none start count total h k = ground arith

module _ (D : LedDriver) (L : PixelLaws D) where
  -- The strip of an index, with the driver's buffer as long as the strip.
  pub record HasStrip (i : ℕ) (s : Strip) (w : Strips D) : Type 0 where
    pub there : get_elem? w.strips i ≡ some s
    pub sized : s.count ≡ L.size w.dev s.handle

  abbrev pub pixel : Strips D → ℕ → ℕ → Color
  pixel w h j = L.pixel w.dev h j

  -- Only the pixels of strip `s` from `i` on, `k` of them, have the color; all others are as before.
  abbrev pub Painted : Strip → ℕ → ℕ → Color → Strips D → Strips D → Type 0
  Painted s i k c w w' =
      (h j : ℕ) → pixel w' h j ≡ (if s.handle == h && within i k j then c else pixel w h j)

  -- `neopixel_set_range` on a strip that is there, with a start inside it and no wrap of the sum,
  -- paints exactly the pixels of the range that the strip has, and its result is that of the refresh.
  pub neopixel_set_range_lem :
      (i start count : ℕ) (c : Color) (w : Strips D) (s : Strip)
      → HasStrip i s w
      → start < s.count
      → start + count < 2 ^ 32
      → s.count < 2 ^ 32
      → Painted s start (min count (s.count - start)) c w (neopixel_set_range D i start count c w).1
        × ((neopixel_set_range D i start count c w).0
            ≡ (D.refresh
                (fill D s.handle start (min count (s.count - start)) c w.dev).1
                s.handle).0)
  unfolding neopixel_set_range set_range
  neopixel_set_range_lem i start count c w s h inside nowrap small =
      let (ok, paint, sizes) =
        fill_lem D L s.handle start (min count (s.count - start)) c w.dev
          (omega (arith, h.sized)) in
      simp (h.there, lt→leb s.count start inside, range_rounds start count s.count nowrap, ok)
        ((λ h' j. L.refresh_pixel _ s.handle h' j ∙ paint h' j), refl)

  -- When the sum of start and count wraps around 2^32 to the start or below, nothing is painted and
  -- the result is that of the refresh, although the start lies inside the strip.
  pub neopixel_set_range_wrapped :
      (i start count : ℕ) (c : Color) (w : Strips D) (s : Strip)
      → get_elem? w.strips i ≡ some s
      → start < s.count
      → (start + count) % 2 ^ 32 ≤ start
      → ((h j : ℕ) → pixel (neopixel_set_range D i start count c w).1 h j ≡ pixel w h j)
        × ((neopixel_set_range D i start count c w).0 ≡ (D.refresh w.dev s.handle).0)
  unfolding neopixel_set_range set_range fill
  neopixel_set_range_wrapped i start count c w s there inside wrap =
      simp (there, lt→leb s.count start inside, range_none start count s.count inside wrap)
        ((λ h j. L.refresh_pixel w.dev s.handle h j), refl)

  -- `neopixel_set_all` on a strip that is there paints every pixel of the strip and no other, and its
  -- result is that of the refresh.
  pub neopixel_set_all_lem :
      (i : ℕ) (c : Color) (w : Strips D) (s : Strip)
      → HasStrip i s w
      → Painted s 0 s.count c w (neopixel_set_all D i c w).1
        × ((neopixel_set_all D i c w).0
            ≡ (D.refresh (fill D s.handle 0 s.count c w.dev).1 s.handle).0)
  unfolding neopixel_set_all
  neopixel_set_all_lem i c w s h =
      let (ok, paint, sizes) = fill_lem D L s.handle 0 s.count c w.dev (omega (arith, h.sized)) in
      simp (h.there, ok) ((λ h' j. L.refresh_pixel _ s.handle h' j ∙ paint h' j), refl)

  -- `neopixel_set_pixel` and `neopixel_set` at an index inside a strip that is there paint that pixel
  -- and no other; the first succeeds, and the second has the result of its refresh.
  pub neopixel_set_pixel_lem :
      (i led : ℕ) (c : Color) (w : Strips D) (s : Strip)
      → HasStrip i s w
      → led < s.count
      → ((h j : ℕ)
          → pixel (neopixel_set_pixel D i led c w).1 h j
            ≡ (if s.handle == h && led == j then c else pixel w h j))
        × (is_ok (neopixel_set_pixel D i led c w).0 ≡ true)
        × ((h j : ℕ)
            → pixel (neopixel_set D i led c w).1 h j
              ≡ (if s.handle == h && led == j then c else pixel w h j))
        × ((neopixel_set D i led c w).0
            ≡ (D.refresh (D.set_pixel w.dev s.handle led c).1 s.handle).0)
  unfolding neopixel_set_pixel put_pixel neopixel_set set_one
  neopixel_set_pixel_lem i led c w s h inside =
      let lt : led < L.size w.dev s.handle = omega (arith, h.sized) in
      let ok = L.set_pixel_accepts w.dev s.handle led c lt in
      simp (h.there, lt→leb s.count led inside, ok)
        (
          (λ h' j. L.set_pixel_writes w.dev s.handle led c h' j lt),
          refl,
          (λ h' j.
              L.refresh_pixel _ s.handle h' j ∙ L.set_pixel_writes w.dev s.handle led c h' j lt),
          refl,
        )

-- An index with no strip is refused by every call, which changes nothing, and counts no pixels; so is
-- a pixel or a start past the end of its strip.
pub refused_lem :
    (D : LedDriver) (i led count : ℕ) (c : Color) (w : Strips D)
    → neopixel_count D i w ≤ led
    → (neopixel_set D i led c w ≡ (Err.invalid_arg, w))
      × (neopixel_set_pixel D i led c w ≡ (Err.invalid_arg, w))
      × (neopixel_set_range D i led count c w ≡ (Err.invalid_arg, w))
unfolding neopixel_set neopixel_set_pixel neopixel_set_range set_one put_pixel set_range
    neopixel_count
refused_lem D i led count c w h = elim (Option-cases (get_elem? w.strips i)) [
  | inl e ↦ simp e (refl, refl, refl)
  | inr (s, e) ↦
      let past : leb s.count led ≡ true = le→leb s.count led (simp e at h) in
      simp (e, past) (refl, refl, refl)
]

-- `neopixel_init` never makes more than 4 strips; when it succeeds, the new strip has the index that
-- it gives out and the length asked for, and the strips before are as they were.
pub neopixel_init_lem :
    (D : LedDriver) (gpio count : ℕ) (w : Strips D)
    → length w.strips ≤ neopixel_max_strips
    → (length (neopixel_init D gpio count w).2.strips ≤ neopixel_max_strips)
      × ((is_ok (neopixel_init D gpio count w).0 ≡ false)
            × ((neopixel_init D gpio count w).1 ≡ none)
            × ((neopixel_init D gpio count w).2.strips ≡ w.strips)
          ⊎ ((neopixel_init D gpio count w).1 ≡ some (length w.strips))
            × (neopixel_count D (length w.strips) (neopixel_init D gpio count w).2 ≡ count)
            × (take (length w.strips) (neopixel_init D gpio count w).2.strips ≡ w.strips))
unfolding neopixel_init neopixel_count
neopixel_init_lem D gpio count w h = elim (Bool-cases (leb 4 (length w.strips))) [
  | inl full ↦ simp full (h, inl (refl, refl, refl))
  | inr room ↦ elim (Bool-cases (is_ok (D.new_rmt_device w.dev gpio count).0)) [
    | inr bad ↦ simp (room, bad) (h, inl (refl, refl, refl))
    | inl e ↦
        let strip : Strip = record {
          handle = (D.new_rmt_device w.dev gpio count).1;
          count = count;
        } in
        let less = leb→lt _ _ room in
        simp (room, e, get_elem?-append_last w.strips)
          (
            omega (arith, length-append w.strips (strip ∷ [])),
            inr (
              refl,
              refl,
              take-append_left (length w.strips) w.strips (strip ∷ []) (omega arith)
                  ∙ take-all _ w.strips (omega arith),
            ),
          )
  ]
]
