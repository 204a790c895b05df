-- ===== src/Node/Config/Saved.antt =====
-- What was saved is what is loaded.
use klippylink.Common.{
  ℕ, zero, suc, ◌-◌, ◌≤◌, ◌<◌, min, ◌≡◌, refl, sym, ap, ◌∙◌, subst, Option, some, List, [], ◌∷◌,
  ◌++◌, map, append_assoc, arith, length, set, take, drop, replicate, length-append,
  take-append-drop, length-take, take-all, All,
}
use klippylink.Protocol.{u8}
use klippylink.Json.{Json}
use klippylink.Json.Doc.{Doc, docs, size, Shows, ShowsAt}
use klippylink.Node.Config.{
  NeopixelCfg, EndstopCfg, DeviceCfg, blank_neopixel_cfg, blank_endstop_cfg, default_cfg,
  config_max_name_len, set_name, parse_neopixel, parse_endstop, fill_slots, parse_neopixels,
  parse_endstops, parse_root, neopixel_doc, endstop_doc, config_doc,
}
use klippylink.Node.Config.Bounds.{NeopixelFits, EndstopFits, IsBounded}

pub set-append :
    {A : Type 0} (pre : List A) (x : A) (xs : List A) (y : A)
    → set (pre ++ x ∷ xs) (length pre) y ≡ (pre ++ y ∷ []) ++ xs
set-append [] x xs y = refl
set-append (p ∷ pre) x xs y = ap (λ l. p ∷ l) (set-append pre x xs y)

pub size-docs : {A : Type 0} (doc : A → Doc) (xs : List A) → size (docs (map doc xs)) ≡ length xs
size-docs doc [] = refl
size-docs doc (x ∷ xs) = ap suc (size-docs doc xs)

replicate_split :
    {A : Type 0} (n m : ℕ) (a : A) → n ≤ m → replicate m a ≡ replicate n a ++ replicate (m - n) a
replicate_split zero m a h = let e : m - 0 ≡ m = omega arith in rw e refl
replicate_split (suc n) zero a h = absurd (omega arith)
replicate_split (suc n) (suc m) a h =
    let e : suc m - suc n ≡ m - n = omega arith in
    rw e (ap (λ l. a ∷ l) (replicate_split n m a (omega arith)))

pub All-take : {A : Type 0} (P : A → Type 0) (n : ℕ) (xs : List A) → All P xs → All P (take n xs)
All-take P zero xs h = tt
All-take P (suc n) [] h = tt
All-take P (suc n) (x ∷ xs) h = (h.0, All-take P n xs h.1)

-- The slots behind those in use are blank.
pub record IsTrimmed (c : DeviceCfg) : Type 0 where
  pub neopixels_trimmed :
      drop c.neopixel_count c.neopixels ≡ replicate (4 - c.neopixel_count) blank_neopixel_cfg
  pub endstops_trimmed :
      drop c.endstop_count c.endstops ≡ replicate (8 - c.endstop_count) blank_endstop_cfg

module _ (J : Json) where
  pub set_name-Shows :
      (v : J.Value) (s old : List ℕ)
      → Shows J (Doc.text s) v
      → length s < config_max_name_len
      → set_name J (some v) old ≡ some s
  set_name-Shows v s old (is, has) short = rw (is, has) (ap some (take-all 31 s (omega arith)))

  parse_neopixel-Shows :
      (v : J.Value) (n : NeopixelCfg) (old : NeopixelCfg)
      → Shows J (neopixel_doc n) v
      → NeopixelFits n
      → parse_neopixel J v old ≡ some n
  unfolding parse_neopixel
  parse_neopixel-Shows v n old ((a, ea, sa), ((b, eb, sb), ((c, ec, sc), _))) fits =
      let byte : u8 n.gpio ≡ n.gpio = let lt = fits.pin_fits in omega arith in
      rw (ea, eb, ec)
        (rw (set_name-Shows a n.name old.name sa fits.name_fits, sb.0, sb.1, sc.0, sc.1, byte) refl)

  parse_endstop-Shows :
      (v : J.Value) (n : EndstopCfg) (old : EndstopCfg)
      → Shows J (endstop_doc n) v
      → EndstopFits n
      → parse_endstop J v old ≡ some n
  unfolding parse_endstop
  parse_endstop-Shows v n old ((a, ea, sa), ((b, eb, sb), ((c, ec, sc), ((d, ed, sd), _)))) fits =
      let byte : u8 n.gpio ≡ n.gpio = let lt = fits.pin_fits in omega arith in
      rw (ea, eb, ec, ed)
        (rw (set_name-Shows a n.name old.name sa fits.name_fits, sb.0, sb.1, sc, sd, byte) refl)

  -- The loop over the items of an array that shows the documents of `ys`: the slots behind those
  -- that are written already become `ys`.
  fill_slots-Shows :
      {A : Type 0} (P : A → Type 0) (doc : A → Doc) (f : J.Value → A → Option A) (blank : A)
      (arr : J.Value) (ys pre rest : List A)
      → ((v : J.Value) (y old : A) → Shows J (doc y) v → P y → f v old ≡ some y)
      → All P ys
      → ShowsAt J (docs (map doc ys)) (length pre) arr
      → fill_slots J f blank arr
          (length ys)
          (length pre)
          (pre ++ (replicate (length ys) blank ++ rest))
        ≡ some (pre ++ (ys ++ rest))
  unfolding fill_slots
  fill_slots-Shows P doc f blank arr [] pre rest step all shown = refl
  fill_slots-Shows P doc f blank arr (y ∷ ys) pre rest step all (sh, shown) =
      let next : length (pre ++ y ∷ []) ≡ suc (length pre) =
        omega (arith, length-append pre (y ∷ [])) in
      let ih =
        fill_slots-Shows P doc f blank arr ys (pre ++ y ∷ []) rest step all.1
          (subst (λ k. ShowsAt J (docs (map doc ys)) k arr) (sym next) shown) in
      rw (step (J.get_array_item arr (length pre)) y _ sh all.0) (
        rw (set-append pre blank (replicate (length ys) blank ++ rest) y) (
          subst
            (λ k.
              fill_slots J f blank arr (length ys) k
                ((pre ++ y ∷ []) ++ (replicate (length ys) blank ++ rest))
              ≡ some ((pre ++ y ∷ []) ++ (ys ++ rest)))
            next ih
          ∙ ap some (append_assoc pre (y ∷ []) (ys ++ rest))))

  -- A full loop over an array that shows the first `n` slots of `xs`, from blank slots.
  slots_lem :
      {A : Type 0} (P : A → Type 0) (doc : A → Doc) (f : J.Value → A → Option A) (blank : A)
      (arr : J.Value) (n size : ℕ) (xs : List A)
      → ((v : J.Value) (y old : A) → Shows J (doc y) v → P y → f v old ≡ some y)
      → All P xs
      → length xs ≡ size
      → n ≤ size
      → drop n xs ≡ replicate (size - n) blank
      → Shows J (Doc.array (docs (map doc (take n xs)))) arr
      → (min (J.get_array_size arr) size ≡ n)
        × (fill_slots J f blank arr n 0 (replicate size blank) ≡ some xs)
  slots_lem P doc f blank arr n size xs step all len le trimmed (is, count, shown) =
      let taken : length (take n xs) ≡ n = omega (arith, length-take n xs) in
      let sized : J.get_array_size arr ≡ n = count ∙ (size-docs doc (take n xs) ∙ taken) in
      let blanks : replicate size blank ≡ replicate n blank ++ replicate (size - n) blank =
        replicate_split n size blank le in
      let filled =
        fill_slots-Shows P doc f blank arr (take n xs) [] (drop n xs) step (All-take P n xs all)
          shown in
      (
        omega (arith, sized),
        rw blanks (
            subst
              (λ k.
                fill_slots J f blank arr k 0 (replicate k blank ++ replicate (size - n) blank)
                ≡ some xs)
              taken
              (subst
                (λ r.
                  fill_slots J f blank arr (length (take n xs)) 0
                    (replicate (length (take n xs)) blank ++ r)
                  ≡ some xs)
                trimmed (filled ∙ ap some (take-append-drop n xs)))),
      )

  pub parse_root-Shows :
      (root : J.Value) (c : DeviceCfg)
      → Shows J (config_doc c) root
      → IsBounded c
      → IsTrimmed c
      → parse_root J root default_cfg ≡ some c
  unfolding parse_root parse_neopixels parse_endstops
  parse_root-Shows root c ((d, ed, ((m, em, sm), _)), ((n, en, sn), ((e, ee, se), _))) b t =
      let name = set_name-Shows m c.device_name default_cfg.device_name sm b.name_fits in
      let (an, fn) =
        slots_lem NeopixelFits neopixel_doc (parse_neopixel J) blank_neopixel_cfg n c.neopixel_count
          4 c.neopixels parse_neopixel-Shows b.neopixels_fit b.neopixels_size b.neopixels_used
          t.neopixels_trimmed sn in
      let (ae, fe) =
        slots_lem EndstopFits endstop_doc (parse_endstop J) blank_endstop_cfg e c.endstop_count 8
          c.endstops parse_endstop-Shows b.endstops_fit b.endstops_size b.endstops_used
          t.endstops_trimmed se in
      rw (ed, em, name, en, sn.0, an, fn) (rw (ee, se.0, ae, fe) refl)
