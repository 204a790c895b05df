-- ===== src/Node/Config/Bounds/Loaded.antt =====
-- A configuration that was loaded is within its bounds.
use klippylink.Common.{
  ℕ, ◌-◌, min, ◌≡◌, refl, ◌∙◌, inl, inr, Option, none, some, List, arith, Bool-cases, Option-cases,
  take,
}
use klippylink.Esp.{Err, is_ok}
use klippylink.Json.{Json, c_string}
use klippylink.Router.Registry.Info.{key_name, key_neopixels, key_endstops}
use klippylink.Node.Config.{
  DeviceCfg, Files, Loader, blank_neopixel_cfg, blank_endstop_cfg, default_cfg, set_name,
  parse_neopixel, parse_endstop, parse_neopixels, parse_endstops, if_array, parse_device,
  parse_root, read_file, mount_spiffs, config_loader_init, key_device, buf_size,
}
use klippylink.Node.Config.Bounds.{
  NeopixelFits, EndstopFits, IsBounded, HasTexts, Gives, Gives-bind, set_name-Gives,
  parse_neopixel-Gives, parse_endstop-Gives, fill_slots-Gives,
}

module _ (J : Json) (T : HasTexts J) where
  parse_neopixels-Gives :
      (v : J.Value) (c : DeviceCfg) → IsBounded c → Gives IsBounded (parse_neopixels J v c)
  unfolding parse_neopixels
  parse_neopixels-Gives v c h =
      let n = min (J.get_array_size v) 4 in
      let (ys, e, (all, len)) =
        fill_slots-Gives J T NeopixelFits (parse_neopixel J) blank_neopixel_cfg v n 0 c.neopixels
          (parse_neopixel-Gives J T) (record { name_fits = omega arith; pin_fits = omega arith })
          h.neopixels_fit in
      rw e (
        record c { neopixels = ys; neopixel_count = n },
        refl,
        record {
          name_fits = h.name_fits;
          neopixels_size = len ∙ h.neopixels_size;
          neopixels_fit = all;
          neopixels_used = omega arith;
          endstops_size = h.endstops_size;
          endstops_fit = h.endstops_fit;
          endstops_used = h.endstops_used;
        },
      )

  parse_endstops-Gives :
      (v : J.Value) (c : DeviceCfg) → IsBounded c → Gives IsBounded (parse_endstops J v c)
  unfolding parse_endstops
  parse_endstops-Gives v c h =
      let n = min (J.get_array_size v) 8 in
      let (ys, e, (all, len)) =
        fill_slots-Gives J T EndstopFits (parse_endstop J) blank_endstop_cfg v n 0 c.endstops
          (parse_endstop-Gives J T) (record { name_fits = omega arith; pin_fits = omega arith })
          h.endstops_fit in
      rw e (
        record c { endstops = ys; endstop_count = n },
        refl,
        record {
          name_fits = h.name_fits;
          neopixels_size = h.neopixels_size;
          neopixels_fit = h.neopixels_fit;
          neopixels_used = h.neopixels_used;
          endstops_size = len ∙ h.endstops_size;
          endstops_fit = all;
          endstops_used = omega arith;
        },
      )

  if_array-Gives :
      (o : Option J.Value) (f : J.Value → DeviceCfg → Option DeviceCfg) (c : DeviceCfg)
      → ((v : J.Value) (d : DeviceCfg) → IsBounded d → Gives IsBounded (f v d))
      → IsBounded c
      → Gives IsBounded (if_array J o f c)
  if_array-Gives none f c step h = (c, refl, h)
  if_array-Gives (some a) f c step h = elim (Bool-cases (J.is_array a)) [
    | inl e ↦ rw e (step a c h)
    | inr e ↦ rw e (c, refl, h)
  ]

  parse_device-Gives :
      (o : Option J.Value) (c : DeviceCfg) → IsBounded c → Gives IsBounded (parse_device J o c)
  parse_device-Gives none c h = (c, refl, h)
  parse_device-Gives (some dev) c h =
      Gives-bind (set_name J (J.get_object_item dev key_name) c.device_name) _
        (set_name-Gives J T (J.get_object_item dev key_name) c.device_name h.name_fits)
        (λ s k. (
          record c { device_name = s },
          refl,
          record {
            name_fits = k;
            neopixels_size = h.neopixels_size;
            neopixels_fit = h.neopixels_fit;
            neopixels_used = h.neopixels_used;
            endstops_size = h.endstops_size;
            endstops_fit = h.endstops_fit;
            endstops_used = h.endstops_used;
          },
        ))

  parse_root-Gives :
      (root : J.Value) (c : DeviceCfg) → IsBounded c → Gives IsBounded (parse_root J root c)
  unfolding parse_root
  parse_root-Gives root c h =
      Gives-bind (parse_device J (J.get_object_item root key_device) c) _
        (parse_device-Gives (J.get_object_item root key_device) c h)
        (λ c₁ h₁.
          Gives-bind (if_array J (J.get_object_item root key_neopixels) (parse_neopixels J) c₁) _
            (if_array-Gives (J.get_object_item root key_neopixels) (parse_neopixels J) c₁
              parse_neopixels-Gives h₁)
            (λ c₂ h₂.
              if_array-Gives (J.get_object_item root key_endstops) (parse_endstops J) c₂
                parse_endstops-Gives h₂))

default_cfg-IsBounded : IsBounded default_cfg
default_cfg-IsBounded = record {
  name_fits = omega arith;
  neopixels_size = refl;
  neopixels_fit = omega arith;
  neopixels_used = omega arith;
  endstops_size = refl;
  endstops_fit = omega arith;
  endstops_used = omega arith;
}

module _ (F : Files) (J : Json) (T : HasTexts J) where
  read_file-Gives :
      (o : Option (List ℕ)) (l : Loader F) → Gives (λ out. IsBounded out.1) (read_file F J o l)
  unfolding read_file
  read_file-Gives none l = ((Err.not_found, default_cfg), refl, default_cfg-IsBounded)
  read_file-Gives (some bytes) l = elim (Bool-cases (F.malloc_ok l.disk)) [
    | inr e ↦ rw e ((Err.no_mem, default_cfg), refl, default_cfg-IsBounded)
    | inl e ↦ elim (Option-cases (J.parse (c_string (take (buf_size - 1) bytes)))) [
      | inl q ↦ rw (e, q, read_file) ((Err.invalid_arg, default_cfg), refl, default_cfg-IsBounded)
      | inr (root, q) ↦
          let (cfg, p, b) = parse_root-Gives J T root default_cfg default_cfg-IsBounded in
          rw (e, q, p, read_file) ((Err.esp_ok, cfg), refl, b)
    ]
  ]

  -- Loading the configuration always comes to an end without a fault, whatever the disk and the file
  -- are, and whatever it returns the configuration is within its bounds: at most 4 strips and 8
  -- endstops, names that fit their buffers, pins that are bytes.
  pub config_loader_init-IsBounded :
      (l : Loader F)
      → (out : Err × DeviceCfg × Loader F) × (config_loader_init F J l ≡ some out) × IsBounded out.1
  unfolding config_loader_init
  config_loader_init-IsBounded l = elim (Bool-cases (is_ok (mount_spiffs F l).0)) [
    | inr e ↦
        rw e
          (((mount_spiffs F l).0, default_cfg, (mount_spiffs F l).1), refl, default_cfg-IsBounded)
    | inl e ↦
        let m = (mount_spiffs F l).1 in
        let (out, q, b) = read_file-Gives (F.content m.disk) m in
        rw (e, q) ((out.0, out.1, m), refl, b)
  ]
