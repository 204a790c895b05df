-- ===== src/Node/Neopixel.antt =====
-- node/main/neopixel.c: LED strips over the led_strip driver.
-- `s_strips[0..s_count)` is a list; a strip index is an `int` that no caller makes negative.
pub mod Driver
pub mod Fill
pub mod Paint
use klippylink.Common.{
  ℕ, zero, suc, ◌+◌, ◌-◌, ◌*◌, ◌/◌, ◌%◌, ◌^◌, ◌≤◌, ◌<◌, min, ◌≡◌, refl, sym, ap, ap₂, ◌∙◌, subst,
  ◌≢◌, ◌↔◌, ◌⊎◌, inl, inr, Bool, true, false, not, ◌&&◌, ◌||◌, Option, none, some, List, [], ◌∷◌,
  ◌++◌, map, append-nil, append_assoc, arith, ltb, leb, ◌==◌, if◌then◌else◌, ltb→lt, ltb→le, lt→ltb,
  le→ltb, leb→le, leb→lt, le→leb, lt→leb, ==_iff, ==_refl, ==_ne, ==→ne, Bool-cases, Option-cases,
  length, get_elem?, get_or, set, take, drop, replicate, length-append, length-set,
  get_elem?-set_self, get_elem?-set_ne, get_elem?-none, take-append-drop, length-take, length-drop,
  length-replicate, take-all, take-append_left, take-suc-set, take-take, get_or-take,
  get_or-append_left, All, All-append,
}
use klippylink.Esp.{Err, is_ok}
use Driver.{Color, LedDriver}

abbrev pub neopixel_max_strips : ℕ
neopixel_max_strips = 4

-- `strip_t`
pub record Strip : Type 0 where
  pub handle : ℕ
  pub count : ℕ

-- `uint32_t end = start + count`, held to the strip
unfoldable pub range_end : ℕ → ℕ → ℕ → ℕ
range_end start count total =
    if ltb total ((start + count) % 2 ^ 32) then total else (start + count) % 2 ^ 32

module _ (D : LedDriver) where
  open D use {Dev}

  pub record Strips : Type 0 where
    pub strips : List Strip
    pub dev : Dev

  -- The last part of the result is `*strip_idx_out`, which is written only on success.
  unfoldable pub neopixel_init : ℕ → ℕ → Strips → Err × Option ℕ × Strips
  neopixel_init gpio_num led_count w =
      if leb neopixel_max_strips (length w.strips)
      then (Err.no_mem, none, w)
      else (let (e, h, d) = D.new_rmt_device w.dev gpio_num led_count in
          if is_ok e
          then (
            Err.esp_ok,
            some (length w.strips),
            record {
              strips = w.strips ++ record { handle = h; count = led_count } ∷ [];
              dev = (D.clear d h).1;
            },
          )
          else (e, none, record w { dev = d }))

  -- A call that only works on the driver's state, put back into the world.
  abbrev pub on_dev : Strips → Err × Dev → Err × Strips
  on_dev w (e, d) = (e, record w { dev = d })

  -- The call for a strip, or the refusal of an index that has none.
  abbrev at_strip : Option Strip → (Strip → Dev → Err × Dev) → Strips → Err × Strips
  at_strip none f w = (Err.invalid_arg, w)
  at_strip (some s) f w = on_dev w (f s w.dev)

  abbrev pub with_strip : ℕ → (Strip → Dev → Err × Dev) → Strips → Err × Strips
  with_strip i f w = at_strip (get_elem? w.strips i) f w

  -- The second call is made if the first succeeds.
  abbrev pub then_refresh : ℕ → Err × Dev → Err × Dev
  then_refresh h (e, d) = if is_ok e then D.refresh d h else (e, d)

  unfoldable pub set_one : ℕ → Color → Strip → Dev → Err × Dev
  set_one led_idx c s d =
      if leb s.count led_idx
      then (Err.invalid_arg, d)
      else then_refresh s.handle (D.set_pixel d s.handle led_idx c)

  unfoldable pub neopixel_set : ℕ → ℕ → Color → Strips → Err × Strips
  neopixel_set strip_idx led_idx c w = with_strip strip_idx (set_one led_idx c) w

  -- The loop `for (i = …; i < end; i++)`, with the rounds that are left.
  unfoldable pub fill : ℕ → ℕ → ℕ → Color → Dev → Err × Dev
  fill h i zero c d = (Err.esp_ok, d)
  fill h i (suc k) c d =
      let (e, d') = D.set_pixel d h i c in
      let rest = fill h (suc i) k c d' in if is_ok e then rest else (e, d')

  unfoldable pub neopixel_set_all : ℕ → Color → Strips → Err × Strips
  neopixel_set_all strip_idx c w =
      with_strip strip_idx (λ s d. then_refresh s.handle (fill s.handle 0 s.count c d)) w

  unfoldable pub set_range : ℕ → ℕ → Color → Strip → Dev → Err × Dev
  set_range start count c s d =
      if leb s.count start
      then (Err.invalid_arg, d)
      else then_refresh s.handle (fill s.handle start (range_end start count s.count - start) c d)

  unfoldable pub neopixel_set_range : ℕ → ℕ → ℕ → Color → Strips → Err × Strips
  neopixel_set_range strip_idx start count c w = with_strip strip_idx (set_range start count c) w

  unfoldable pub neopixel_clear : ℕ → Strips → Err × Strips
  neopixel_clear strip_idx w = with_strip strip_idx (λ s d. D.clear d s.handle) w

  unfoldable pub put_pixel : ℕ → Color → Strip → Dev → Err × Dev
  put_pixel led_idx c s d =
      if leb s.count led_idx then (Err.invalid_arg, d) else D.set_pixel d s.handle led_idx c

  unfoldable pub neopixel_set_pixel : ℕ → ℕ → Color → Strips → Err × Strips
  neopixel_set_pixel strip_idx led_idx c w = with_strip strip_idx (put_pixel led_idx c) w

  unfoldable pub neopixel_flush : ℕ → Strips → Err × Strips
  neopixel_flush strip_idx w = with_strip strip_idx (λ s d. D.refresh d s.handle) w

  abbrev count_of : Option Strip → ℕ
  count_of none = 0
  count_of (some s) = s.count

  unfoldable pub neopixel_count : ℕ → Strips → ℕ
  neopixel_count strip_idx w = count_of (get_elem? w.strips strip_idx)
