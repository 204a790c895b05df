-- ===== src/Bench.antt =====
-- A small node to run the code on: drivers that take every call, files that keep one text, numbers
-- for floats, and a parser that knows one document.
use klippylink.Common.{
  ℕ, zero, suc, ◌+◌, ◌-◌, ◌*◌, ◌%◌, refl, Bool, true, false, Option, none, some, List, [], ◌∷◌, ltb,
  leb, if◌then◌else◌, get_or, replicate,
}
use klippylink.Esp.{Err}
use klippylink.Json.{Json}
use klippylink.Json.Doc.{Doc, Docs, Fields, size}
use klippylink.Router.Registry.{bytes_eq}
use klippylink.Node.Neopixel.Driver.{LedDriver}
use klippylink.Node.Effects.Zone.{blank_zone}
use klippylink.Node.Effects.{Outside}
use klippylink.Node.Ota.{fresh}
use klippylink.Node.OtaTests.{flash}
use klippylink.Node.Config.{
  NeopixelCfg, EndstopCfg, DeviceCfg, Files, blank_neopixel_cfg, blank_endstop_cfg,
}
use klippylink.Node.Config.Bounds.{HasTexts}
use klippylink.Node.Heater.{Floats, heater_start}
use klippylink.Node.Gatt.{Board, Device}

abbrev pub leds : LedDriver
leds = record {
  Dev = ℕ;
  new_rmt_device = λ d gpio n. (Err.esp_ok, gpio, d);
  set_pixel = λ d h i c. (Err.esp_ok, d);
  refresh = λ d h. (Err.esp_ok, d);
  clear = λ d h. (Err.esp_ok, d);
}

abbrev pub outside : Outside
outside = record { Seed = ℕ; rand = λ s. (s, s + 1); breathe_level = λ a b c. a }

abbrev pub floats : Floats
floats = record {
  Float = ℕ;
  literal = λ n d. n;
  add = λ a b. a + b;
  sub = λ a b. a - b;
  mul = λ a b. a * b;
  div = λ a b. a;
  lt = λ a b. ltb a b;
  to_byte = λ a. a % 256;
  to_bytes = λ a. a ∷ 0 ∷ 0 ∷ 0 ∷ [];
  of_bytes = λ bs. get_or bs 0 0;
  neg = λ a. a;
  logf = λ a. a;
  le = λ a b. leb a b;
  of_int = λ n. n;
}

abbrev pub board : Board
board = record {
  leds = leds;
  outside = outside;
  platform = flash;
  floats = floats;
  print_unformatted = λ d. some (b'{' ∷ b'}' ∷ []);
  wifi_result = λ l c. Err.esp_ok;
  bt_result = λ a. Err.esp_ok;
  indicate_result = λ bytes. Err.esp_ok;
  full = true;
}

abbrev pub strip_cfg : NeopixelCfg
strip_cfg = record { name = b's' ∷ []; gpio = 5; count = 8 }

abbrev pub input_cfg : EndstopCfg
input_cfg = record { name = b'x' ∷ []; gpio = 4; pull_up = true; active_low = true }

-- One strip and one endstop.
abbrev pub device_cfg : DeviceCfg
device_cfg = record {
  device_name = b'n' ∷ b'1' ∷ [];
  neopixels = strip_cfg ∷ replicate 3 blank_neopixel_cfg;
  neopixel_count = 1;
  endstops = input_cfg ∷ replicate 7 blank_endstop_cfg;
  endstop_count = 1;
}

-- A node with a connection, before it has set anything up.
abbrev pub node : Device board
node = record {
  cfg = device_cfg;
  effects = record {
    zones = replicate 8 blank_zone;
    strips = record { strips = []; dev = 0 };
    seed = 0;
  };
  has_mutex = false;
  endstops = record { endstops = []; isr_service_installed = false; calls = [] };
  levels = λ gpio. 0;
  ota = fresh;
  flash = (0, [], none);
  wifi = record { netif_inited = false; has_ip_cb = false; calls = [] };
  heater = heater_start floats 0;
  gatts_if = 3;
  conn_id = 0;
  notify_enabled = true;
  handles = 40 ∷ 41 ∷ 42 ∷ 43 ∷ 44 ∷ 45 ∷ [];
  actions = [];
}

abbrev find_field : List ℕ → Fields → Option Doc
find_field key Fields.end = none
find_field key (Fields.field k d fs) =
    let rest = find_field key fs in if bytes_eq k key then some d else rest

abbrev nth_doc : Docs → ℕ → Doc
nth_doc Docs.nil i = Doc.flag false
nth_doc (Docs.cons d ds) zero = d
nth_doc (Docs.cons d ds) (suc i) = nth_doc ds i

abbrev item_of : Doc → List ℕ → Option Doc
item_of (Doc.object fs) key = find_field key fs
item_of _ key = none

abbrev string_of : Doc → Option (List ℕ)
string_of (Doc.text s) = some s
string_of _ = none

abbrev is_text : Doc → Bool
is_text (Doc.text s) = true
is_text _ = false

abbrev is_list : Doc → Bool
is_list (Doc.array ds) = true
is_list _ = false

abbrev is_count : Doc → Bool
is_count (Doc.number n) = true
is_count _ = false

abbrev is_set : Doc → Bool
is_set (Doc.flag b) = b
is_set _ = false

abbrev size_of : Doc → ℕ
size_of (Doc.array ds) = size ds
size_of _ = 0

abbrev at_of : Doc → ℕ → Doc
at_of (Doc.array ds) i = nth_doc ds i
at_of _ i = Doc.flag false

abbrev int_of : Doc → ℕ
int_of (Doc.number n) = n
int_of _ = 0

-- A parser that gives `root` for every text.
abbrev pub json_of : Doc → Json
json_of root = record {
  Value = Doc;
  parse = λ bytes. some root;
  get_object_item = item_of;
  is_string = is_text;
  is_array = is_list;
  is_number = is_count;
  is_true = is_set;
  get_array_size = size_of;
  get_array_item = at_of;
  valuestring = string_of;
  valueint = int_of;
}

pub json_of-HasTexts : (root : Doc) → HasTexts (json_of root)
json_of-HasTexts root (Doc.text s) h = (s, refl)
json_of-HasTexts root (Doc.number n) h = cc
json_of-HasTexts root (Doc.flag b) h = cc
json_of-HasTexts root (Doc.array ds) h = cc
json_of-HasTexts root (Doc.object fs) h = cc

-- The disk is the file's text, if there is one.
abbrev pub files : Files
files = record {
  Disk = Option (List ℕ);
  register = λ d. (Err.esp_ok, d);
  content = λ d. d;
  put = λ d bytes. some (some bytes);
  malloc_ok = λ d. true;
}
