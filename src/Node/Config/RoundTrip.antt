-- ===== src/Node/Config/RoundTrip.antt =====
-- `config_loader_save`, then `config_loader_init`.
use klippylink.Common.{
  ℕ, ◌-◌, ◌<◌, ◌≡◌, refl, sym, ap, ◌∙◌, ◌≢◌, inl, inr, true, false, Option, some, List, arith,
  Bool-cases, Option-cases, length, take, take-all,
}
use klippylink.Esp.{Err, is_ok}
use klippylink.Json.{Json, c_string}
use klippylink.Json.Doc.{Doc, Shows}
use klippylink.Node.Config.{
  DeviceCfg, Files, Loader, default_cfg, parse_root, read_file, mount_spiffs, config_loader_init,
  buf_size, config_doc, config_loader_save, is_mounted_err,
}
use klippylink.Node.Config.Bounds.{IsBounded}
use klippylink.Node.Config.Saved.{IsTrimmed, parse_root-Shows}

module _ (F : Files) where
  mounted-mount_spiffs :
      (l : Loader F) → is_ok (mount_spiffs F l).0 ≡ true → (mount_spiffs F l).1.mounted ≡ true
  unfolding mount_spiffs
  mounted-mount_spiffs l h = elim (Bool-cases l.mounted) [
    | inl e ↦ simp e refl
    | inr e ↦ elim (Bool-cases (is_mounted_err (F.register l.disk).0)) [
      | inl m ↦ simp (e, m) refl
      | inr m ↦ let z = simp (e, m) at h in absurd (bad_mount (F.register l.disk).0 m z)
    ]
  ]
    where
      bad_mount : (e : Err) → is_mounted_err e ≡ false → is_ok e ≢ true
      bad_mount Err.esp_ok m h = cc
      bad_mount _ m h = cc

  mount_spiffs-mounted : (l : Loader F) → l.mounted ≡ true → mount_spiffs F l ≡ (Err.esp_ok, l)
  unfolding mount_spiffs
  mount_spiffs-mounted l h = simp h refl

  -- What a save that succeeds has done.
  saved :
      (print : Doc → Option (List ℕ)) (cfg : DeviceCfg) (l l' : Loader F) (bytes : List ℕ)
      → print (config_doc cfg) ≡ some bytes
      → config_loader_save F print cfg l ≡ (Err.esp_ok, l')
      → (l'.mounted ≡ true) × (F.put (mount_spiffs F l).1.disk bytes ≡ some l'.disk)
  unfolding config_loader_save
  saved print cfg l l' bytes p h = elim (Bool-cases (is_ok (mount_spiffs F l).0)) [
    | inr e ↦
        let z : (mount_spiffs F l).0 ≡ Err.esp_ok =
          ap (λ o. o.0) (rw (e, config_loader_save) at h) in
        let k : is_ok (mount_spiffs F l).0 ≡ true = ap is_ok z in cc
    | inl e ↦ elim (Option-cases (F.put (mount_spiffs F l).1.disk bytes)) [
      | inl q ↦
          let z : Err.esp_fail ≡ Err.esp_ok =
            ap (λ o. o.0) (rw (e, p, q, config_loader_save) at h) in
          cc
      | inr (d, q) ↦
          let z : record ((mount_spiffs F l).1) { disk = d } ≡ l' =
            ap (λ o. o.1) (rw (e, p, q, config_loader_save) at h) in
          (sym (ap (λ x. x.mounted) z) ∙ mounted-mount_spiffs l e, q ∙ ap (λ x. some (x.disk)) z)
    ]
  ]

  module _ (J : Json) where
    read_file-parsed :
        (bytes : List ℕ) (root : J.Value) (l : Loader F) (cfg : DeviceCfg)
        → F.malloc_ok l.disk ≡ true
        → length bytes < buf_size
        → c_string bytes ≡ bytes
        → J.parse bytes ≡ some root
        → parse_root J root default_cfg ≡ some cfg
        → read_file F J (some bytes) l ≡ some (Err.esp_ok, cfg)
    unfolding read_file
    read_file-parsed bytes root l cfg memory short text parsed good =
        let whole : take (buf_size - 1) bytes ≡ bytes = take-all 4095 bytes (omega arith) in
        rw (memory, whole, text) (rw (parsed, read_file) (rw good refl))

    -- A configuration within its bounds, with blank slots behind those in use, that is saved with
    -- success, is loaded again as it was: provided that a file that was put is what is read, that its
    -- text is shorter than 4096 bytes and shows the document that was printed, and that there is
    -- memory for the buffer.
    pub config_loader_init-config_loader_save :
        (print : Doc → Option (List ℕ)) (cfg : DeviceCfg) (l l' : Loader F) (bytes : List ℕ)
        (root : J.Value)
        → ((d d' : F.Disk) (b : List ℕ) → F.put d b ≡ some d' → F.content d' ≡ some b)
        → print (config_doc cfg) ≡ some bytes
        → length bytes < buf_size
        → c_string bytes ≡ bytes
        → J.parse bytes ≡ some root
        → Shows J (config_doc cfg) root
        → F.malloc_ok l'.disk ≡ true
        → IsBounded cfg
        → IsTrimmed cfg
        → config_loader_save F print cfg l ≡ (Err.esp_ok, l')
        → config_loader_init F J l' ≡ some (Err.esp_ok, cfg, l')
    unfolding config_loader_init
    config_loader_init-config_loader_save print cfg l l' bytes root files p short text parsed shown
          memory b t h =
        let (mounted, put) = saved print cfg l l' bytes p h in
        let read =
          read_file-parsed bytes root l' cfg memory short text parsed
            (parse_root-Shows J root cfg shown b t) in
        rw (mount_spiffs-mounted l' mounted)
          (rw (files (mount_spiffs F l).1.disk l'.disk bytes put) (rw read refl))
