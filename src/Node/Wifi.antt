-- ===== src/Node/Wifi.antt =====
-- node/main/wifi_node.c: a node joins a wireless network.
-- A call under ESP_ERROR_CHECK that fails aborts the program, which is the fault `none`.
use klippylink.Common.{ℕ, Bool, true, Option, none, some, List, [], ◌∷◌, ◌++◌, if◌then◌else◌}
use klippylink.Esp.{Err, is_ok}
use klippylink.Json.{strlcpy, ◌>>=◌}

pub data WifiCall : Type 0 where
  netif_init event_loop_create_default netif_create_default_wifi_sta wifi_init : WifiCall
  -- `esp_event_handler_register` for the events of the radio, and for the address.
  register_wifi_event register_ip_event : WifiCall
  set_mode_sta : WifiCall
  -- `esp_wifi_set_config` with the SSID and the password as C strings.
  set_config : List ℕ → List ℕ → WifiCall
  wifi_start wifi_connect wifi_disconnect wifi_stop wifi_deinit : WifiCall
  -- The callback with an address.
  ip_cb : ℕ → WifiCall

-- `s_netif_inited`, whether `s_ip_cb` is set, and the calls so far.
pub record Wifi : Type 0 where
  pub netif_inited : Bool
  pub has_ip_cb : Bool
  pub calls : List WifiCall

abbrev pub wifi_call : WifiCall → Wifi → Wifi
wifi_call c w = record w { calls = w.calls ++ c ∷ [] }

abbrev pub sta_ssid_size : ℕ
sta_ssid_size = 32

abbrev pub sta_password_size : ℕ
sta_password_size = 64

-- `WIFI_EVENT_STA_DISCONNECTED`
unfoldable pub on_sta_disconnected : Wifi → Wifi
on_sta_disconnected w = wifi_call WifiCall.wifi_connect w

-- `IP_EVENT_STA_GOT_IP`
unfoldable pub on_got_ip : ℕ → Wifi → Wifi
on_got_ip addr w = if w.has_ip_cb then wifi_call (WifiCall.ip_cb addr) w else w

unfoldable pub wifi_node_disable : Wifi → Wifi
wifi_node_disable w =
    wifi_call WifiCall.wifi_deinit
      (wifi_call WifiCall.wifi_stop (wifi_call WifiCall.wifi_disconnect w))

-- `result` is what the stack returns for a call after others.
module _ (result : List WifiCall → WifiCall → Err) where
  -- `ESP_ERROR_CHECK(call)`
  abbrev pub checked : WifiCall → Wifi → Option Wifi
  checked c w = if is_ok (result w.calls c) then some (wifi_call c w) else none

  unfoldable pub checked_all : List WifiCall → Wifi → Option Wifi
  checked_all [] w = some w
  checked_all (c ∷ cs) w = checked c w >>= λ w'. checked_all cs w'

  unfoldable pub init_netif : Wifi → Option Wifi
  init_netif w =
      if w.netif_inited
      then some w
      else (checked_all (WifiCall.netif_init ∷ WifiCall.event_loop_create_default ∷ []) w >>= λ w'.
          some
            (record (wifi_call WifiCall.netif_create_default_wifi_sta w') { netif_inited = true }))

  -- The calls after the network interface is there.
  abbrev pub join_calls : List ℕ → List ℕ → List WifiCall
  join_calls ssid pass =
      WifiCall.wifi_init
      ∷ WifiCall.register_wifi_event
      ∷ WifiCall.register_ip_event
      ∷ WifiCall.set_mode_sta
      ∷ WifiCall.set_config (strlcpy ssid sta_ssid_size) (strlcpy pass sta_password_size)
      ∷ WifiCall.wifi_start
      ∷ WifiCall.wifi_connect
      ∷ []

  unfoldable pub wifi_node_enable : List ℕ → List ℕ → Bool → Wifi → Option Wifi
  wifi_node_enable ssid pass cb w =
      init_netif (record w { has_ip_cb = cb }) >>= λ w'. checked_all (join_calls ssid pass) w'
