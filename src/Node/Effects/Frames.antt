-- ===== src/Node/Effects/Frames.antt =====
-- What rendering a zone paints: its own pixels, and no other.
use klippylink.Common.{
  ℕ, zero, suc, ◌+◌, ◌-◌, ◌≤◌, ◌<◌, ◌≡◌, refl, sym, ap, ◌∙◌, inl, inr, Bool, false, ◌&&◌, some,
  arith, ltb, leb, ◌==◌, if◌then◌else◌, leb→le, leb→lt, le→leb, lt→leb, ==_iff, Bool-cases,
  get_elem?,
}
use klippylink.Node.Neopixel.Driver.{Color, LedDriver, PixelLaws}
use klippylink.Node.Neopixel.{Strip, Strips, neopixel_set_pixel, put_pixel}
use klippylink.Node.Neopixel.Fill.{within}
use klippylink.Node.Effects.Zone.{ZoneCfg}
use klippylink.Node.Effects.{put, paint}

past_end :
    (t : Bool) (a j n : ℕ) (x y : Color) → n ≤ a → y ≡ (if (t && a == j) && ltb j n then x else y)
past_end t a j n x y h = ground arith

before_end :
    (t : Bool) (a j n : ℕ) (x y : Color)
    → a < n
    → (if t && a == j then x else y) ≡ (if (t && a == j) && ltb j n then x else y)
before_end t a j n x y h = ground arith

none_painted :
    (t : Bool) (a j n : ℕ) (x y : Color) → y ≡ (if t && (within a 0 j && ltb j n) then x else y)
none_painted t a j n x y = ground arith

same_color :
    (t : Bool) (start i k j n : ℕ) (x y : Color)
    → (if t && (within (start + suc i) k j && ltb j n)
        then x
        else (if (t && start + i == j) && ltb j n then x else y))
      ≡ (if t && (within (start + i) (suc k) j && ltb j n) then x else y)
same_color t start i k j n x y = ground arith

other_pixel :
    (t : Bool) (start i k j n : ℕ) (x x' y : Color)
    → (start + i == j) ≡ false
    → (if t && (within (start + suc i) k j && ltb j n)
        then x
        else (if (t && false) && ltb j n then x' else y))
      ≡ (if t && (within (start + i) (suc k) j && ltb j n) then x else y)
other_pixel t start i k j n x x' y e = ground arith

one_more :
    (t : Bool) (f : ℕ → Color) (start i k j n : ℕ) (y : Color)
    → (if t && (within (start + suc i) k j && ltb j n)
        then f (j - start)
        else (if (t && start + i == j) && ltb j n then f i else y))
      ≡ (if t && (within (start + i) (suc k) j && ltb j n) then f (j - start) else y)
one_more t f start i k j n y = elim (Bool-cases (start + i == j)) [
  | inl e ↦
      let q : i ≡ j - start = let z = (==_iff (start + i) j).0 e in omega arith in
      rw (ap f q) (same_color t start i k j n (f (j - start)) y)
  | inr e ↦ rw e (other_pixel t start i k j n (f (j - start)) (f i) y e)
]

module _ (D : LedDriver) (L : PixelLaws D) where
  -- The strip that a zone is on is there, with the driver's buffer as long as the strip.
  pub record OnStrip (c : ZoneCfg) (s : Strip) (w : Strips D) : Type 0 where
    pub there : get_elem? w.strips c.strip_idx ≡ some s
    pub sized : s.count ≡ L.size w.dev s.handle

  abbrev pub pixel : Strips D → ℕ → ℕ → Color
  pixel w h j = L.pixel w.dev h j

  put-past :
      (c : ZoneCfg) (i : ℕ) (color : Color) (w : Strips D) (s : Strip)
      → get_elem? w.strips c.strip_idx ≡ some s
      → s.count ≤ c.start + i
      → put D c i color w ≡ w
  unfolding neopixel_set_pixel put_pixel
  put-past c i color w s there past = rw (there, put) (rw (le→leb s.count (c.start + i) past) refl)

  put-inside :
      (c : ZoneCfg) (i : ℕ) (color : Color) (w : Strips D) (s : Strip)
      → get_elem? w.strips c.strip_idx ≡ some s
      → c.start + i < s.count
      → put D c i color w ≡ record w { dev = (D.set_pixel w.dev s.handle (c.start + i) color).1 }
  unfolding neopixel_set_pixel put_pixel
  put-inside c i color w s there lt = rw (there, put) (rw (lt→leb s.count (c.start + i) lt) refl)

  pub put_lem :
      (c : ZoneCfg) (i : ℕ) (color : Color) (w : Strips D) (s : Strip)
      → OnStrip c s w
      → OnStrip c s (put D c i color w)
        × ((h j : ℕ)
            → pixel (put D c i color w) h j ≡ (
                if (s.handle == h && c.start + i == j) && ltb j s.count
                then color
                else pixel w h j))
  put_lem c i color w s o = elim (Bool-cases (leb s.count (c.start + i))) [
    | inl e ↦
        let past = leb→le _ _ e in
        rw (put-past c i color w s o.there past)
          (o, (λ h j. past_end (s.handle == h) (c.start + i) j s.count color _ past))
    | inr e ↦
        let inside = leb→lt _ _ e in
        let lt : c.start + i < L.size w.dev s.handle = omega (arith, o.sized) in
        rw (put-inside c i color w s o.there inside) (
          record {
            there = o.there;
            sized = o.sized ∙ sym (L.set_pixel_size w.dev s.handle (c.start + i) color s.handle);
          },
          (λ h j.
              L.set_pixel_writes w.dev s.handle (c.start + i) color h j lt
              ∙ before_end (s.handle == h) (c.start + i) j s.count color _ inside),
        )
  ]

  -- The pixels that `k` rounds from `i` on paint, each with its color; all others stay.
  abbrev pub PaintedBy : ZoneCfg → Strip → (ℕ → Color) → ℕ → ℕ → Strips D → Strips D → Type 0
  PaintedBy c s f i k w w' =
      (h j : ℕ)
      → pixel w' h j ≡ (
          if s.handle == h && (within (c.start + i) k j && ltb j s.count)
          then f (j - c.start)
          else pixel w h j)

  pub paint_lem :
      (c : ZoneCfg) (f : ℕ → Color) (i k : ℕ) (w : Strips D) (s : Strip)
      → OnStrip c s w
      → OnStrip c s (paint D c f i k w) × PaintedBy c s f i k w (paint D c f i k w)
  unfolding paint
  paint_lem c f i zero w s o = (o, (λ h j. none_painted (s.handle == h) (c.start + i) j _ _ _))
  paint_lem c f i (suc k) w s o =
      let (o', one) = put_lem c i (f i) w s o in
      let (o'', rest) = paint_lem c f (suc i) k (put D c i (f i) w) s o' in
      (
        o'',
        (λ h j.
            rest h j
            ∙ rw (one h j) (one_more (s.handle == h) f c.start i k j s.count (pixel w h j))),
      )
