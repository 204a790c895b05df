-- ===== src/Router/Start.antt =====
-- The start of the router: router/main/main.c and ble_central_init of ble_central.c; and
-- ota_self_update of ota_handler.c, which ends with another start.
pub mod Ready
use klippylink.Common.{
  ℕ, zero, suc, ◌+◌, ◌-◌, ◌*◌, ◌/◌, ◌%◌, ◌^◌, ◌≤◌, ◌<◌, min, ◌≡◌, refl, sym, ap, ap₂, ◌∙◌, subst,
  ◌≢◌, ◌↔◌, ◌⊎◌, inl, inr, Bool, true, false, not, ◌&&◌, ◌||◌, Option, none, some, List, [], ◌∷◌,
  ◌++◌, map, append-nil, append_assoc, arith, ltb, leb, ◌==◌, if◌then◌else◌, ltb→lt, ltb→le, lt→ltb,
  le→ltb, leb→le, leb→lt, le→leb, lt→leb, ==_iff, ==_refl, ==_ne, ==→ne, Bool-cases, Option-cases,
  length, get_elem?, get_or, set, take, drop, replicate, length-append, length-set,
  get_elem?-set_self, get_elem?-set_ne, get_elem?-none, take-append-drop, length-take, length-drop,
  length-replicate, take-all, take-append_left, take-suc-set, take-take, get_or-take,
  get_or-append_left, All, All-append, get_elem?-append_last,
}
use klippylink.Json.{◌>>=◌}
use klippylink.Esp.{Err, is_ok}
use klippylink.Router.Registry.{node_registry_init}
use klippylink.Router.Serial.{Bridge, serial_bridge_init}
use klippylink.Router.Central.{Central}

pub data StartCall : Type 0 where
  nvs_flash_init nvs_flash_erase : StartCall
  controller_init controller_enable bluedroid_init bluedroid_enable : StartCall
  register_gap_callback register_gattc_callback : StartCall
  app_register : ℕ → StartCall

-- The router's variables when it starts, whether `s_response_cb` is set, and the calls so far.
pub record Boot : Type 0 where
  pub central : Central
  pub bridge : Bridge
  pub has_response_cb : Bool
  pub calls : List StartCall

abbrev pub profile_a_app_id : ℕ
profile_a_app_id = 0

-- `on_node_packet`, the response callback: it does nothing with the packet.
unfoldable pub on_node_packet : ℕ → List ℕ → Central → Central
on_node_packet conn_id value c = c

-- What the start stands on: what a call returns after the calls before it, the two calls that set the
-- UART up, and whether there is memory for the mutex.
pub record StartBoard : Type 0 where
  pub result : List StartCall → StartCall → Err
  pub installed : Err
  pub configured : Err
  pub mutex_ok : Bool

abbrev pub start_call : StartCall → Boot → Boot
start_call a w = record w { calls = w.calls ++ a ∷ [] }

-- The two errors that ask for an empty NVS.
abbrev pub asks_erase : Err → Bool
asks_erase Err.nvs_no_free_pages = true
asks_erase Err.nvs_new_version_found = true
asks_erase _ = false

abbrev pub bluetooth_calls : List StartCall
bluetooth_calls =
    StartCall.controller_init
    ∷ StartCall.controller_enable
    ∷ StartCall.bluedroid_init
    ∷ StartCall.bluedroid_enable
    ∷ StartCall.register_gap_callback
    ∷ StartCall.register_gattc_callback
    ∷ StartCall.app_register profile_a_app_id
    ∷ []

abbrev pub empty_registry : Boot → Boot
empty_registry w = record w { central = record (w.central) { registry = node_registry_init } }

module _ (S : StartBoard) where
  -- `ESP_ERROR_CHECK(call)`, for calls in their order; `none` is an abort.
  unfoldable pub start_checked : List StartCall → Boot → Option Boot
  start_checked [] w = some w
  start_checked (a ∷ rest) w =
      if is_ok (S.result w.calls a) then start_checked rest (start_call a w) else none

  -- The result of `nvs_flash_init` is not looked at.
  unfoldable pub ble_central_init : Boot → Option Boot
  ble_central_init w =
      start_checked bluetooth_calls
        (start_call StartCall.nvs_flash_init (record w { has_response_cb = true }))

  unfoldable pub nvs_start : Boot → Boot
  nvs_start w =
      let w' = start_call StartCall.nvs_flash_init w in
      if asks_erase (S.result w.calls StartCall.nvs_flash_init)
      then start_call StartCall.nvs_flash_init (start_call StartCall.nvs_flash_erase w')
      else w'

  -- Up to the loop that logs the number of connected nodes.
  unfoldable pub app_main : Boot → Option Boot
  app_main w =
      let w' = empty_registry (nvs_start w) in
      serial_bridge_init S.installed S.configured S.mutex_ok w'.bridge >>= λ b.
      ble_central_init (record w' { bridge = b })
