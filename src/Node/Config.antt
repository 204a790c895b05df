-- ===== src/Node/Config.antt =====
-- node/main/config_loader.c and config_loader.h: the node's configuration in its JSON file.
-- A `device_cfg_t` is a record with its arrays as lists of their full length.
pub mod Bounds
pub mod Saved
pub mod RoundTrip
use klippylink.Common.{
  ℕ, zero, suc, ◌+◌, ◌-◌, ◌*◌, ◌/◌, ◌%◌, ◌^◌, ◌≤◌, ◌<◌, min, ◌≡◌, refl, sym, ap, ap₂, ◌∙◌, subst,
  ◌≢◌, ◌↔◌, ◌⊎◌, inl, inr, Bool, true, false, not, ◌&&◌, ◌||◌, Option, none, some, List, [], ◌∷◌,
  ◌++◌, map, append-nil, append_assoc, arith, ltb, leb, ◌==◌, if◌then◌else◌, ltb→lt, ltb→le, lt→ltb,
  le→ltb, leb→le, leb→lt, le→leb, lt→leb, ==_iff, ==_refl, ==_ne, ==→ne, Bool-cases, Option-cases,
  length, get_elem?, get_or, set, take, drop, replicate, length-append, length-set,
  get_elem?-set_self, get_elem?-set_ne, get_elem?-none, take-append-drop, length-take, length-drop,
  length-replicate, take-all, take-append_left, take-suc-set, take-take, get_or-take,
  get_or-append_left, All, All-append, get_elem?-append_last,
}
use klippylink.Esp.{Err, is_ok}
use klippylink.Protocol.{u8}
use klippylink.Json.{Json, c_string, strlcpy, ◌>>=◌}
use klippylink.Json.Doc.{Doc, Fields, docs}
use klippylink.Router.Registry.Info.{key_name, key_count, key_neopixels, key_endstops}

abbrev pub config_max_name_len : ℕ
config_max_name_len = 32

abbrev pub config_max_neopixels : ℕ
config_max_neopixels = 4

abbrev pub config_max_endstops : ℕ
config_max_endstops = 8

abbrev pub buf_size : ℕ
buf_size = 4096

pub record NeopixelCfg : Type 0 where
  pub name : List ℕ
  pub gpio : ℕ
  pub count : ℕ

pub record EndstopCfg : Type 0 where
  pub name : List ℕ
  pub gpio : ℕ
  pub pull_up : Bool
  pub active_low : Bool

pub record DeviceCfg : Type 0 where
  pub device_name : List ℕ
  pub neopixels : List NeopixelCfg
  pub neopixel_count : ℕ
  pub endstops : List EndstopCfg
  pub endstop_count : ℕ

abbrev pub key_device : List ℕ
key_device = b'd' ∷ b'e' ∷ b'v' ∷ b'i' ∷ b'c' ∷ b'e' ∷ []

abbrev pub key_pin : List ℕ
key_pin = b'p' ∷ b'i' ∷ b'n' ∷ []

abbrev pub key_pull_up : List ℕ
key_pull_up = b'p' ∷ b'u' ∷ b'l' ∷ b'l' ∷ b'_' ∷ b'u' ∷ b'p' ∷ []

abbrev pub key_active_low : List ℕ
key_active_low = b'a' ∷ b'c' ∷ b't' ∷ b'i' ∷ b'v' ∷ b'e' ∷ b'_' ∷ b'l' ∷ b'o' ∷ b'w' ∷ []

-- `"klippylink_node"`
abbrev pub default_device_name : List ℕ
default_device_name =
    b'k' ∷ b'l' ∷ b'i' ∷ b'p' ∷ b'p' ∷ b'y' ∷ b'l' ∷ b'i' ∷ b'n' ∷ b'k' ∷ b'_' ∷ b'n' ∷ b'o' ∷ b'd'
    ∷ b'e' ∷ []

abbrev pub blank_neopixel_cfg : NeopixelCfg
blank_neopixel_cfg = record { name = []; gpio = 0; count = 0 }

abbrev pub blank_endstop_cfg : EndstopCfg
blank_endstop_cfg = record { name = []; gpio = 0; pull_up = false; active_low = false }

-- `memset`, then the default name.
abbrev pub default_cfg : DeviceCfg
default_cfg = record {
  device_name = strlcpy default_device_name config_max_name_len;
  neopixels = replicate config_max_neopixels blank_neopixel_cfg;
  neopixel_count = 0;
  endstops = replicate config_max_endstops blank_endstop_cfg;
  endstop_count = 0;
}

-- What config_loader.c calls of SPIFFS, the C library and the allocator.
pub record Files : Type 1 where
  pub Disk : Type 0
  -- `esp_vfs_spiffs_register`
  pub register : Disk → Err × Disk
  -- The file's content, if `fopen(…, "r")` succeeds.
  pub content : Disk → Option (List ℕ)
  -- `fopen(…, "w")`, `fputs`, `fclose`; `none` if the file does not open.
  pub put : Disk → List ℕ → Option Disk
  pub malloc_ok : Disk → Bool

module _ (J : Json) where
  open J use {
    Value, parse, get_object_item, is_string, is_array, is_number, is_true, get_array_size,
    get_array_item, valuestring, valueint,
  }

  -- `if (j && cJSON_IsString(j)) strlcpy(dst, j->valuestring, …)`; a string has its text.
  abbrev pub set_name : Option Value → List ℕ → Option (List ℕ)
  set_name none old = some old
  set_name (some j) old =
      if is_string j
      then (valuestring j >>= λ s. some (strlcpy s config_max_name_len))
      else some old

  -- `if (j && cJSON_IsNumber(j)) dst = j->valueint`
  abbrev pub set_number : Option Value → ℕ → ℕ
  set_number none old = old
  set_number (some j) old = if is_number j then valueint j else old

  abbrev pub set_byte : Option Value → ℕ → ℕ
  set_byte none old = old
  set_byte (some j) old = if is_number j then u8 (valueint j) else old

  -- `cJSON_IsTrue(…)` is false of the null pointer.
  abbrev pub true_at : Option Value → Bool
  true_at none = false
  true_at (some j) = is_true j

  unfoldable pub parse_neopixel : Value → NeopixelCfg → Option NeopixelCfg
  parse_neopixel item nc = set_name (get_object_item item key_name) nc.name >>= λ s. some (record {
    name = s;
    gpio = set_byte (get_object_item item key_pin) nc.gpio;
    count = set_number (get_object_item item key_count) nc.count;
  })

  unfoldable pub parse_endstop : Value → EndstopCfg → Option EndstopCfg
  parse_endstop item ec = set_name (get_object_item item key_name) ec.name >>= λ s. some (record {
    name = s;
    gpio = set_byte (get_object_item item key_pin) ec.gpio;
    pull_up = true_at (get_object_item item key_pull_up);
    active_low = true_at (get_object_item item key_active_low);
  })

  -- A loop over the items of an array, with the rounds that are left and the index: slot `i` of the
  -- list is written by `f` from item `i` and the slot before.
  unfoldable pub fill_slots :
      {A : Type 0} → (Value → A → Option A) → A → Value → ℕ → ℕ → List A → Option (List A)
  fill_slots f blank arr zero i xs = some xs
  fill_slots f blank arr (suc k) i xs = f (get_array_item arr i) (get_or xs i blank) >>= λ x.
      fill_slots f blank arr k (suc i) (set xs i x)

  unfoldable pub parse_neopixels : Value → DeviceCfg → Option DeviceCfg
  parse_neopixels arr cfg =
      let n = min (get_array_size arr) config_max_neopixels in
      fill_slots parse_neopixel blank_neopixel_cfg arr n 0 cfg.neopixels >>= λ xs.
      some (record cfg { neopixels = xs; neopixel_count = n })

  unfoldable pub parse_endstops : Value → DeviceCfg → Option DeviceCfg
  parse_endstops arr cfg =
      let n = min (get_array_size arr) config_max_endstops in
      fill_slots parse_endstop blank_endstop_cfg arr n 0 cfg.endstops >>= λ xs.
      some (record cfg { endstops = xs; endstop_count = n })

  -- `if (x && cJSON_IsArray(x)) parse(x, cfg)`
  abbrev pub if_array :
      Option Value → (Value → DeviceCfg → Option DeviceCfg) → DeviceCfg → Option DeviceCfg
  if_array none f cfg = some cfg
  if_array (some a) f cfg = if is_array a then f a cfg else some cfg

  -- The name in the object "device", if there is one.
  abbrev pub parse_device : Option Value → DeviceCfg → Option DeviceCfg
  parse_device none cfg = some cfg
  parse_device (some dev) cfg = set_name (get_object_item dev key_name) cfg.device_name >>= λ s.
      some (record cfg { device_name = s })

  -- What `config_loader_init` reads from a parsed file.
  unfoldable pub parse_root : Value → DeviceCfg → Option DeviceCfg
  parse_root root cfg = parse_device (get_object_item root key_device) cfg >>= λ c₁.
      if_array (get_object_item root key_neopixels) parse_neopixels c₁ >>= λ c₂.
      if_array (get_object_item root key_endstops) parse_endstops c₂

-- The objects of `config_loader_save`.
abbrev pub neopixel_doc : NeopixelCfg → Doc
neopixel_doc nc = Doc.object (
    Fields.field key_name (Doc.text nc.name) (
      Fields.field key_pin (Doc.number nc.gpio)
        (Fields.field key_count (Doc.number nc.count) Fields.end)))

abbrev pub endstop_doc : EndstopCfg → Doc
endstop_doc ec = Doc.object (
    Fields.field key_name (Doc.text ec.name) (
      Fields.field key_pin (Doc.number ec.gpio) (
        Fields.field key_pull_up (Doc.flag ec.pull_up)
          (Fields.field key_active_low (Doc.flag ec.active_low) Fields.end))))

abbrev pub config_doc : DeviceCfg → Doc
config_doc cfg = Doc.object (
    Fields.field key_device
      (Doc.object (Fields.field key_name (Doc.text cfg.device_name) Fields.end))
      (Fields.field key_neopixels
        (Doc.array (docs (map neopixel_doc (take cfg.neopixel_count cfg.neopixels))))
        (Fields.field key_endstops
          (Doc.array (docs (map endstop_doc (take cfg.endstop_count cfg.endstops)))) Fields.end)))

abbrev pub is_mounted_err : Err → Bool
is_mounted_err Err.esp_ok = true
is_mounted_err Err.invalid_state = true
is_mounted_err _ = false

module _ (F : Files) where
  -- `s_mounted` and the disk.
  pub record Loader : Type 0 where
    pub mounted : Bool
    pub disk : F.Disk

  unfoldable pub mount_spiffs : Loader → Err × Loader
  mount_spiffs l =
      if l.mounted
      then (Err.esp_ok, l)
      else (let (e, d) = F.register l.disk in
          if is_mounted_err e
          then (Err.esp_ok, record { mounted = true; disk = d })
          else (e, record l { disk = d }))

  module _ (J : Json) where
    -- The buffer is one byte longer than what is read, for the terminating zero.
    unfoldable pub read_file : Option (List ℕ) → Loader → Option (Err × DeviceCfg)
    read_file none l = some (Err.not_found, default_cfg)
    read_file (some bytes) l =
        if F.malloc_ok l.disk
        then elim (J.parse (c_string (take (buf_size - 1) bytes))) [
          | none ↦ some (Err.invalid_arg, default_cfg)
          | some root ↦ parse_root J root default_cfg >>= λ cfg. some (Err.esp_ok, cfg)
        ]
        else some (Err.no_mem, default_cfg)

    -- `none` is a fault; the configuration is written on every branch, and starts as the default.
    unfoldable pub config_loader_init : Loader → Option (Err × DeviceCfg × Loader)
    config_loader_init l =
        let (e, m) = mount_spiffs l in
        if is_ok e
        then (read_file (F.content m.disk) m >>= λ out. some (out.0, out.1, m))
        else some (e, default_cfg, m)

  -- `print` is `cJSON_Print`, null when there is no memory.
  unfoldable pub config_loader_save : (Doc → Option (List ℕ)) → DeviceCfg → Loader → Err × Loader
  config_loader_save print cfg l =
      let (e, m) = mount_spiffs l in
      if is_ok e
      then elim (print (config_doc cfg)) [
        | none ↦ (Err.no_mem, m)
        | some json ↦ elim (F.put m.disk json) [
          | none ↦ (Err.esp_fail, m)
          | some d ↦ (Err.esp_ok, record m { disk = d })
        ]
      ]
      else (e, m)
