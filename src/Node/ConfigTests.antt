-- ===== src/Node/ConfigTests.antt =====
-- The configuration of the bench's node, saved and loaded.
use klippylink.Common.{ℕ, ◌≡◌, refl, sym, true, false, none, some, List, [], ◌∷◌, arith}
use klippylink.Esp.{Err}
use klippylink.Json.{c_string, eq_of_some}
use klippylink.Json.Doc.{Shows}
use klippylink.Bench.{
  strip_cfg, input_cfg, device_cfg, json_of, json_of-HasTexts, files, board, node,
}
use klippylink.Router.Registry.{bytes_eq}
use klippylink.Node.Config.{
  DeviceCfg, Loader, blank_neopixel_cfg, blank_endstop_cfg, config_doc, config_loader_init,
  config_loader_save, mount_spiffs,
}
use klippylink.Node.Config.Bounds.{NeopixelFits, EndstopFits, IsBounded}
use klippylink.Node.Config.Bounds.Loaded.{config_loader_init-IsBounded}
use klippylink.Node.Config.Saved.{IsTrimmed}
use klippylink.Node.Config.RoundTrip.{config_loader_init-config_loader_save}
use klippylink.Node.Gatt.{Device}
use klippylink.Node.Boot.{app_main}
use klippylink.Node.Boot.Ready.{Drivers, IsReady, app_main-IsReady}

strip_fits : NeopixelFits strip_cfg
strip_fits = record { name_fits = omega arith; pin_fits = omega arith }

blank_strip : NeopixelFits blank_neopixel_cfg
blank_strip = record { name_fits = omega arith; pin_fits = omega arith }

input_fits : EndstopFits input_cfg
input_fits = record { name_fits = omega arith; pin_fits = omega arith }

blank_input : EndstopFits blank_endstop_cfg
blank_input = record { name_fits = omega arith; pin_fits = omega arith }

pub bounded : IsBounded device_cfg
bounded = record {
  name_fits = omega arith;
  neopixels_size = refl;
  neopixels_fit = (strip_fits, (blank_strip, (blank_strip, (blank_strip, tt))));
  neopixels_used = omega arith;
  endstops_size = refl;
  endstops_fit = (
    input_fits,
    (
      blank_input,
      (blank_input, (blank_input, (blank_input, (blank_input, (blank_input, (blank_input, tt)))))),
    ),
  );
  endstops_used = omega arith;
}

trimmed : IsTrimmed device_cfg
trimmed = record { neopixels_trimmed = refl; endstops_trimmed = refl }

abbrev text : List ℕ
text = b'{' ∷ b'}' ∷ []

abbrev empty : Loader files
empty = record { mounted = false; disk = none }

abbrev pub saved : Loader files
saved = record { mounted = true; disk = some text }

plain_text : c_string text ≡ text
unfolding c_string
plain_text = refl

shown : Shows (json_of (config_doc device_cfg)) (config_doc device_cfg) (config_doc device_cfg)
unfolding bytes_eq
shown = (
  (_, refl, ((_, refl, (refl, refl)), tt)),
  (
    (
      _,
      refl,
      (
        refl,
        refl,
        (((_, refl, (refl, refl)), ((_, refl, (refl, refl)), ((_, refl, (refl, refl)), tt))), tt),
      ),
    ),
    (
      (
        _,
        refl,
        (
          refl,
          refl,
          (
            (
              (_, refl, (refl, refl)),
              ((_, refl, (refl, refl)), ((_, refl, refl), ((_, refl, refl), tt))),
            ),
            tt,
          ),
        ),
      ),
      tt,
    ),
  ),
)

save_ok : config_loader_save files (λ d. some text) device_cfg empty ≡ (Err.esp_ok, saved)
unfolding config_loader_save mount_spiffs
save_ok = refl

config_loader_init-config_loader_save_example :
    config_loader_init files (json_of (config_doc device_cfg)) saved
    ≡ some (Err.esp_ok, device_cfg, saved)
config_loader_init-config_loader_save_example =
    config_loader_init-config_loader_save files (json_of (config_doc device_cfg)) (λ d. some text)
      device_cfg empty saved text (config_doc device_cfg) (λ d d' b e. sym (eq_of_some e)) refl
      (omega arith) plain_text refl shown refl bounded trimmed save_ok

config_loader_init-IsBounded_example :
    (out : Err × DeviceCfg × Loader files) × (config_loader_init files
        (json_of (config_doc device_cfg))
        saved
      ≡ some out)
    × IsBounded out.1
config_loader_init-IsBounded_example =
    config_loader_init-IsBounded files (json_of (config_doc device_cfg))
      (json_of-HasTexts (config_doc device_cfg)) saved

abbrev pub takes_all : Drivers board (λ gpio up cb. Err.esp_ok)
takes_all = record {
  strips = λ d gpio n. refl;
  pin_of = λ h. h;
  handles = λ d gpio n. refl;
  pins = λ gpio up cb. refl;
  stack = λ a. refl;
}

app_main-IsReady_example :
    (out : Device board × Loader files) × (app_main board files
        (json_of (config_doc device_cfg))
        (λ gpio up cb. Err.esp_ok)
        true
        saved
        node
      ≡ some out)
    × IsBounded out.0.cfg
    × IsReady board (λ gpio up cb. Err.esp_ok) takes_all out.0.cfg out.0
app_main-IsReady_example =
    app_main-IsReady board (λ gpio up cb. Err.esp_ok) takes_all files
      (json_of (config_doc device_cfg)) (json_of-HasTexts (config_doc device_cfg)) saved node refl
      refl
