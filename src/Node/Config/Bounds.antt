-- ===== src/Node/Config/Bounds.antt =====
-- Whatever the configuration file holds, the configuration keeps its bounds.
pub mod Loaded
use klippylink.Common.{
  ℕ, zero, suc, ◌+◌, ◌-◌, ◌*◌, ◌/◌, ◌%◌, ◌^◌, ◌≤◌, ◌<◌, min, ◌≡◌, refl, sym, ap, ap₂, ◌∙◌, subst,
  ◌≢◌, ◌↔◌, ◌⊎◌, inl, inr, Bool, true, false, not, ◌&&◌, ◌||◌, Option, none, some, List, [], ◌∷◌,
  ◌++◌, map, append-nil, append_assoc, arith, ltb, leb, ◌==◌, if◌then◌else◌, ltb→lt, ltb→le, lt→ltb,
  le→ltb, leb→le, leb→lt, le→leb, lt→leb, ==_iff, ==_refl, ==_ne, ==→ne, Bool-cases, Option-cases,
  length, get_elem?, get_or, set, take, drop, replicate, length-append, length-set,
  get_elem?-set_self, get_elem?-set_ne, get_elem?-none, take-append-drop, length-take, length-drop,
  length-replicate, take-all, take-append_left, take-suc-set, take-take, get_or-take,
  get_or-append_left, All, All-append, get_elem?-append_last,
}
use klippylink.Esp.{Err, is_ok}
use klippylink.Json.{Json, strlcpy, c_string, ◌>>=◌}
use klippylink.Router.Registry.Info.{key_name, key_count, key_neopixels, key_endstops}
use klippylink.Node.Config.{
  NeopixelCfg, EndstopCfg, DeviceCfg, Files, Loader, blank_neopixel_cfg, blank_endstop_cfg,
  default_cfg, config_max_name_len, set_name, set_byte, set_number, true_at, parse_neopixel,
  parse_endstop, fill_slots, parse_neopixels, parse_endstops, if_array, parse_device, parse_root,
  read_file, mount_spiffs, config_loader_init, key_device, key_pin, buf_size, key_pull_up,
  key_active_low,
}

-- A name fits its buffer with its terminating zero, and a pin is a byte.
pub record NeopixelFits (n : NeopixelCfg) : Type 0 where
  pub name_fits : length n.name < config_max_name_len
  pub pin_fits : n.gpio < 256

pub record EndstopFits (e : EndstopCfg) : Type 0 where
  pub name_fits : length e.name < config_max_name_len
  pub pin_fits : e.gpio < 256

-- The arrays have their C size with all slots in bounds, and the counts index inside them.
pub record IsBounded (c : DeviceCfg) : Type 0 where
  pub name_fits : length c.device_name < config_max_name_len
  pub neopixels_size : length c.neopixels ≡ 4
  pub neopixels_fit : All NeopixelFits c.neopixels
  pub neopixels_used : c.neopixel_count ≤ 4
  pub endstops_size : length c.endstops ≡ 8
  pub endstops_fit : All EndstopFits c.endstops
  pub endstops_used : c.endstop_count ≤ 8

-- The step gives a result, of which a property holds.
abbrev pub Gives : {A : Type 0} → (A → Type 0) → Option A → Type 0
Gives {A} P o = (a : A) × (o ≡ some a) × P a

pub Gives-bind :
    {A B : Type 0} {P : A → Type 0} {Q : B → Type 0} (m : Option A) (f : A → Option B)
    → Gives P m
    → ((a : A) → P a → Gives Q (f a))
    → Gives Q (m >>= f)
Gives-bind m f (a, e, p) k = rw e (k a p)

All-get_or :
    {A : Type 0} (P : A → Type 0) (xs : List A) (i : ℕ) (d : A) → All P xs → P d → P (get_or xs i d)
All-get_or P [] i d h k = k
All-get_or P (x ∷ xs) zero d h k = h.0
All-get_or P (x ∷ xs) (suc i) d h k = All-get_or P xs i d h.1 k

All-set :
    {A : Type 0} (P : A → Type 0) (xs : List A) (i : ℕ) (a : A)
    → All P xs
    → P a
    → All P (set xs i a)
All-set P [] i a h k = h
All-set P (x ∷ xs) zero a h k = (k, h.1)
All-set P (x ∷ xs) (suc i) a h k = (h.0, All-set P xs i a h.1 k)

pub length-strlcpy : (s : List ℕ) → length (strlcpy s config_max_name_len) < config_max_name_len
length-strlcpy s = omega (arith, length-take 31 s)

-- cJSON's string items have a text.
abbrev pub HasTexts : Json → Type 0
HasTexts J = (v : J.Value) → J.is_string v ≡ true → (s : List ℕ) × (J.valuestring v ≡ some s)

module _ (J : Json) (T : HasTexts J) where
  abbrev pub ShortName : List ℕ → Type 0
  ShortName s = length s < config_max_name_len

  pub set_name-Gives :
      (o : Option J.Value) (old : List ℕ) → ShortName old → Gives ShortName (set_name J o old)
  set_name-Gives none old h = (old, refl, h)
  set_name-Gives (some j) old h = elim (Bool-cases (J.is_string j)) [
    | inr e ↦ rw e (old, refl, h)
    | inl e ↦
        let (s, q) = T j e in rw (e, q) (strlcpy s config_max_name_len, refl, length-strlcpy s)
  ]

  set_byte-lt : (o : Option J.Value) (old : ℕ) → old < 256 → set_byte J o old < 256
  set_byte-lt none old h = h
  set_byte-lt (some j) old h = ground arith

  pub parse_neopixel-Gives :
      (v : J.Value) (n : NeopixelCfg) → NeopixelFits n → Gives NeopixelFits (parse_neopixel J v n)
  unfolding parse_neopixel
  parse_neopixel-Gives v n h =
      Gives-bind (set_name J (J.get_object_item v key_name) n.name) _
        (set_name-Gives (J.get_object_item v key_name) n.name h.name_fits)
        (λ s k. (
          record {
            name = s;
            gpio = set_byte J (J.get_object_item v key_pin) n.gpio;
            count = set_number J (J.get_object_item v key_count) n.count;
          },
          refl,
          record {
            name_fits = k;
            pin_fits = set_byte-lt (J.get_object_item v key_pin) n.gpio h.pin_fits;
          },
        ))

  pub parse_endstop-Gives :
      (v : J.Value) (n : EndstopCfg) → EndstopFits n → Gives EndstopFits (parse_endstop J v n)
  unfolding parse_endstop
  parse_endstop-Gives v n h =
      Gives-bind (set_name J (J.get_object_item v key_name) n.name) _
        (set_name-Gives (J.get_object_item v key_name) n.name h.name_fits)
        (λ s k. (
          record {
            name = s;
            gpio = set_byte J (J.get_object_item v key_pin) n.gpio;
            pull_up = true_at J (J.get_object_item v key_pull_up);
            active_low = true_at J (J.get_object_item v key_active_low);
          },
          refl,
          record {
            name_fits = k;
            pin_fits = set_byte-lt (J.get_object_item v key_pin) n.gpio h.pin_fits;
          },
        ))

  -- The loop keeps the length of the list and a property of its slots that one round keeps.
  pub fill_slots-Gives :
      {A : Type 0} (P : A → Type 0) (f : J.Value → A → Option A) (blank : A) (arr : J.Value)
      (k i : ℕ) (xs : List A)
      → ((v : J.Value) (a : A) → P a → Gives P (f v a))
      → P blank
      → All P xs
      → Gives (λ ys. All P ys × (length ys ≡ length xs)) (fill_slots J f blank arr k i xs)
  unfolding fill_slots
  fill_slots-Gives P f blank arr zero i xs step b h = (xs, refl, (h, refl))
  fill_slots-Gives P f blank arr (suc k) i xs step b h =
      Gives-bind (f (J.get_array_item arr i) (get_or xs i blank)) _
        (step (J.get_array_item arr i) (get_or xs i blank) (All-get_or P xs i blank h b))
        (λ x p.
          let (ys, e, (all, len)) =
            fill_slots-Gives P f blank arr k (suc i) (set xs i x) step b (All-set P xs i x h p) in
          (ys, e, (all, len ∙ length-set xs i x)))
