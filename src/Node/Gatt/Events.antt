-- ===== src/Node/Gatt/Events.antt =====
-- The callbacks of node/main/gatt_server.c.
use klippylink.Common.{
  ℕ, Bool, false, ◌&&◌, Option, none, some, List, [], ◌∷◌, ltb, leb, ◌==◌, if◌then◌else◌, length,
  get_or, take,
}
use klippylink.Esp.{Err, is_ok}
use klippylink.Json.{◌>>=◌}
use klippylink.Node.Config.{DeviceCfg}
use klippylink.Protocol.{klip_header_size, u16_le}
use klippylink.Node.Heater.{heater_emergency_off}
use klippylink.Node.Gatt.{
  Board, BtAction, Device, bt, no_conn, idx_svc, idx_cmd_val, idx_tel_cccd, idx_count,
}
use klippylink.Node.Gatt.Adv.{raw_adv}
use klippylink.Node.Gatt.Dispatch.{dispatch_packet}

module _ (B : Board) where
  -- `ESP_ERROR_CHECK(call)`, for calls in their order
  unfoldable pub bt_checked : List BtAction → Device B → Option (Device B)
  bt_checked [] d = some d
  bt_checked (a ∷ rest) d = if is_ok (B.bt_result a) then bt_checked rest (bt B a d) else none

  -- `gatt_server_init`; the flash of the settings is left out.
  unfoldable pub gatt_server_init : DeviceCfg → Device B → Option (Device B)
  gatt_server_init cfg d =
      bt_checked
        (BtAction.controller_init
          ∷ BtAction.controller_enable
          ∷ BtAction.bluedroid_init
          ∷ BtAction.bluedroid_enable
          ∷ BtAction.register_gatts_callback
          ∷ BtAction.register_gap_callback
          ∷ BtAction.app_register 0
          ∷ [])
        (record d { cfg = cfg })
      >>= λ d'. some (bt B (BtAction.set_device_name cfg.device_name) d')

  -- `ESP_GATTS_REG_EVT`
  unfoldable pub on_gatts_reg : ℕ → Device B → Device B
  on_gatts_reg gatts_if d =
      bt B (BtAction.create_attr_tab gatts_if) (record d { gatts_if = gatts_if })

  -- `ESP_GATTS_CREAT_ATTR_TAB_EVT` with its status and the handles
  unfoldable pub on_creat_attr_tab : Bool → List ℕ → Device B → Device B
  on_creat_attr_tab good handles d =
      if good
      then bt B (BtAction.start_service (get_or handles idx_svc 0))
          (record d { handles = take idx_count handles })
      else d

  -- `ESP_GATTS_START_EVT` with its status; `configured` is what setting the data returns.
  unfoldable pub on_gatts_start : Bool → Err → Device B → Device B
  on_gatts_start good configured d =
      let d' = bt B (BtAction.config_adv_data_raw (raw_adv d.cfg.device_name)) d in
      if good then (if is_ok configured then bt B BtAction.start_advertising d' else d') else d

  -- A write to the CCC descriptor of the telemetry: two bytes are read.
  unfoldable pub cccd_write : List ℕ → Device B → Option (Device B)
  cccd_write value d =
      if ltb (length value) 2 then none else some (record d { notify_enabled = u16_le value == 1 })

  -- `ESP_GATTS_WRITE_EVT`
  unfoldable pub on_gatts_write : ℕ → List ℕ → Device B → Option (Device B)
  on_gatts_write handle value d =
      if handle == get_or d.handles idx_tel_cccd 0
      then cccd_write value d
      else if handle == get_or d.handles idx_cmd_val 0 && leb klip_header_size (length value)
      then dispatch_packet B value d
      else some d

  -- `ESP_GATTS_CONNECT_EVT`
  unfoldable pub on_gatts_connect : ℕ → Device B → Device B
  on_gatts_connect conn_id d = record d { conn_id = conn_id }

  -- `ESP_GATTS_DISCONNECT_EVT`
  unfoldable pub on_gatts_disconnect : Device B → Device B
  on_gatts_disconnect d = bt B BtAction.start_advertising (record d {
    conn_id = no_conn;
    notify_enabled = false;
    heater = if B.full then heater_emergency_off B.floats d.heater else d.heater;
  })

  -- `ESP_GAP_BLE_ADV_DATA_SET_COMPLETE_EVT`
  unfoldable pub on_adv_data_set : Bool → Device B → Device B
  on_adv_data_set good d = if good then bt B BtAction.start_advertising d else d
