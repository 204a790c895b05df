-- ===== src/Router/StartTests.antt =====
-- A start on a board where every call succeeds, but for the first start of the NVS.
use klippylink.Common.{◌≤◌, ◌≡◌, refl, true, false, some, List, [], ◌∷◌, ◌++◌, length}
use klippylink.Esp.{Err}
use klippylink.Router.Registry.History
use klippylink.Router.Central.Conns.{max_conns}
use klippylink.Router.Central.{on_connect}
use klippylink.Router.Central.Runs.{Handled, Run}
use klippylink.Router.Tests.{addr_b, json}
use klippylink.Router.CentralTests.{idle}
use klippylink.Router.Start.{
  StartCall, Boot, StartBoard, bluetooth_calls, nvs_start, app_main, ble_central_init,
  start_checked,
}
use klippylink.Router.Start.Ready.{app_main-Run}
use klippylink.Router.Serial.{serial_bridge_init}

-- The NVS has an old format until it is erased.
abbrev nvs_result : List StartCall → StartCall → Err
nvs_result [] StartCall.nvs_flash_init = Err.nvs_new_version_found
nvs_result before a = Err.esp_ok

abbrev start_board : StartBoard
start_board = record {
  result = nvs_result;
  installed = Err.esp_ok;
  configured = Err.esp_ok;
  mutex_ok = true;
}

abbrev powered : Boot
powered = record {
  central = idle;
  bridge = record { has_mutex = false; output = [] };
  has_response_cb = false;
  calls = [];
}

abbrev erased : List StartCall
erased = StartCall.nvs_flash_init ∷ StartCall.nvs_flash_erase ∷ StartCall.nvs_flash_init ∷ []

abbrev started : Boot
started = record {
  central = idle;
  bridge = record { has_mutex = true; output = [] };
  has_response_cb = true;
  calls = erased ++ StartCall.nvs_flash_init ∷ bluetooth_calls;
}

starts : app_main start_board powered ≡ some started
unfolding app_main nvs_start serial_bridge_init ble_central_init start_checked
starts = refl

app_main-Run_example :
    (true ≡ true)
    × (true ≡ true)
    × (started.calls
        ≡ erased
          ++ StartCall.nvs_flash_init
            ∷ StartCall.controller_init
            ∷ StartCall.controller_enable
            ∷ StartCall.bluedroid_init
            ∷ StartCall.bluedroid_enable
            ∷ StartCall.register_gap_callback
            ∷ StartCall.register_gattc_callback
            ∷ StartCall.app_register 0
            ∷ [])
    × History.IsValid (on_connect 1 7 addr_b started.central).registry
    × (length (on_connect 1 7 addr_b started.central).conns ≤ max_conns)
app_main-Run_example =
    app_main-Run start_board {J = json} powered started (on_connect 1 7 addr_b started.central) refl
      starts (Run.step Run.stay (Handled.connected 1 7 addr_b))
