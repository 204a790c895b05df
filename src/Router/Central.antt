-- ===== src/Router/Central.antt =====
-- router/main/ble_central.c: the Bluetooth side of the router, and serial_bridge.c's frame to the host.
-- Each callback of the Bluetooth stack is a step on the tables, with the calls that it makes as a list
-- of actions; `none` is a read or a write out of bounds. Memory for a list of attributes is there, the
-- serial bridge is set up, and the response callback is set, as main.c does.
pub mod Conns
pub mod Events
pub mod Discovery
pub mod Notify
pub mod Updates
pub mod Tables
pub mod Runs
pub mod Faults
use klippylink.Common.{
  ℕ, zero, suc, ◌+◌, ◌-◌, ◌*◌, ◌/◌, ◌%◌, ◌^◌, ◌≤◌, ◌<◌, min, ◌≡◌, refl, sym, ap, ap₂, ◌∙◌, subst,
  ◌≢◌, ◌↔◌, ◌⊎◌, inl, inr, Bool, true, false, not, ◌&&◌, ◌||◌, Option, none, some, List, [], ◌∷◌,
  ◌++◌, map, append-nil, append_assoc, arith, ltb, leb, ◌==◌, if◌then◌else◌, ltb→lt, ltb→le, lt→ltb,
  le→ltb, leb→le, leb→lt, le→leb, lt→leb, ==_iff, ==_refl, ==_ne, ==→ne, Bool-cases, Option-cases,
  length, get_elem?, get_or, set, take, drop, replicate, length-append, length-set,
  get_elem?-set_self, get_elem?-set_ne, get_elem?-none, take-append-drop, length-take, length-drop,
  length-replicate, take-all, take-append_left, take-suc-set, take-take, get_or-take,
  get_or-append_left, All, All-append,
}
use klippylink.Esp.{Err}
use klippylink.Json.{Json, ◌>>=◌, c_string}
use klippylink.Protocol.{
  Command, header, command_code, klipproto_magic, klip_header_size, klip_max_payload_size, u8,
  packet_magic, packet_command, packet_length, packet_payload,
}
use klippylink.Protocol.Codes.{command_of}
use klippylink.Router.Registry.{
  Registry, Node, node_add, node_remove, node_by_conn_id, node_id_by_conn_id, node_set_endstop,
  modify,
}
use klippylink.Router.Registry.Info.{node_update_info}
use Conns.{Conn, find_conn, alloc_conn, free_conn, modify_conn}

pub data Action : Type 0 where
  -- `serial_bridge_emit(nid, bytes, len)`: the node id, then the bytes.
  emit : ℕ → List ℕ → Action
  set_scan_params start_scanning stop_scanning : Action
  search_service : ℕ → ℕ → Action
  gattc_open : ℕ → List ℕ → Action
  write_char : ℕ → ℕ → ℕ → List ℕ → Action
  write_char_descr : ℕ → ℕ → ℕ → List ℕ → Action
  -- `s_response_cb(conn_id, pkt, len)`
  response : ℕ → List ℕ → Action

-- `s_conns`, the node table, `s_gattc_if`, and the actions so far.
pub record Central : Type 0 where
  pub conns : List Conn
  pub registry : Registry
  pub gattc_if : ℕ
  pub actions : List Action

abbrev pub act : Action → Central → Central
act a c = record c { actions = c.actions ++ a ∷ [] }

-- What a node's attribute table answers: the handle of the first characteristic with a UUID, and of
-- the first CCC descriptor of a characteristic.
pub record GattDb : Type 0 where
  pub char_by_uuid : ℕ → ℕ → Option ℕ
  pub cccd_of : ℕ → ℕ → Option ℕ

abbrev pub klip_char_cmd_uuid : ℕ
klip_char_cmd_uuid = 0x4C01

abbrev pub klip_char_tel_uuid : ℕ
klip_char_tel_uuid = 0x4C02

abbrev pub klip_svc_uuid : ℕ
klip_svc_uuid = 0x4B4C

-- A frame with no payload for the host, if the connection has a node id.
abbrev pub tell_host : Option ℕ → Command → Central → Central
tell_host none cmd c = c
tell_host (some nid) cmd c = act (Action.emit (u8 nid) (header cmd 0)) c

-- `ESP_GATTC_REG_EVT`
unfoldable pub on_reg : ℕ → Central → Central
on_reg gattc_if c = act Action.set_scan_params (record c { gattc_if = gattc_if })

-- `ESP_GAP_BLE_SCAN_PARAM_SET_COMPLETE_EVT`
unfoldable pub on_scan_param_set : Central → Central
on_scan_param_set c = act Action.start_scanning c

-- What follows once the connection and the node have their slots.
abbrev pub greet : ℕ → ℕ → Central → Central
greet gattc_if conn_id c =
    act (Action.search_service gattc_if conn_id)
      (tell_host (node_id_by_conn_id conn_id c.registry) Command.ping c)

abbrev pub add_node : ℕ → ℕ → Option ℕ × Registry → Central → Central
add_node gattc_if conn_id (none, r) c = record c { registry = r }
add_node gattc_if conn_id (some i, r) c = greet gattc_if conn_id (record c { registry = r })

abbrev pub add_conn : ℕ → ℕ → List ℕ → Option (List Conn) → Central → Central
add_conn gattc_if conn_id bda none c = c
add_conn gattc_if conn_id bda (some conns) c =
    add_node gattc_if conn_id (node_add bda conn_id c.registry) (record c { conns = conns })

-- `ESP_GATTC_CONNECT_EVT`
unfoldable pub on_connect : ℕ → ℕ → List ℕ → Central → Central
on_connect gattc_if conn_id bda c =
    add_conn gattc_if conn_id bda (alloc_conn conn_id gattc_if c.conns) c

abbrev set_cmd : Option ℕ → Conn → Conn
set_cmd none k = k
set_cmd (some h) k = record k { cmd_handle = h; cmd_found = true }

abbrev set_cccd : Option ℕ → Conn → Conn
set_cccd none k = k
set_cccd (some h) k = record k { cccd_handle = h; cccd_found = true }

abbrev set_tel : GattDb → ℕ → Option ℕ → Conn → Conn
set_tel db conn_id none k = k
set_tel db conn_id (some h) k =
    set_cccd (db.cccd_of conn_id h) (record k { tel_handle = h; tel_found = true })

-- The handles that discovery finds for a connection.
abbrev pub discover : GattDb → ℕ → Conn → Conn
discover db conn_id k =
    set_tel db conn_id (db.char_by_uuid conn_id klip_char_tel_uuid)
      (set_cmd (db.char_by_uuid conn_id klip_char_cmd_uuid) k)

abbrev pub enable_notify : ℕ → ℕ → Conn → Central → Central
enable_notify gattc_if conn_id k c =
    if k.cccd_found
    then act (Action.write_char_descr gattc_if conn_id k.cccd_handle (0x01 ∷ 0x00 ∷ [])) c
    else c

abbrev pub request_info : ℕ → ℕ → Conn → Central → Central
request_info gattc_if conn_id k c =
    if k.cmd_found
    then act (Action.write_char gattc_if conn_id k.cmd_handle (header Command.device_info_req 0)) c
    else c

abbrev discovered : GattDb → ℕ → ℕ → Option ℕ → Central → Central
discovered db gattc_if conn_id none c = c
discovered db gattc_if conn_id (some i) c =
    let k = discover db conn_id (Conns.conn_at c.conns i) in
    request_info gattc_if conn_id k
      (enable_notify gattc_if conn_id k (record c { conns = modify_conn k i c.conns }))

-- `ESP_GATTC_SEARCH_CMPL_EVT`
unfoldable pub on_search_cmpl : GattDb → ℕ → ℕ → Central → Central
on_search_cmpl db gattc_if conn_id c = discovered db gattc_if conn_id (find_conn conn_id c.conns) c

-- `ESP_GATTC_DISCONNECT_EVT`
unfoldable pub on_disconnect : ℕ → Central → Central
on_disconnect conn_id c =
    let told = tell_host (node_id_by_conn_id conn_id c.registry) Command.error c in
    act Action.start_scanning
      (record told { registry = node_remove conn_id c.registry; conns = free_conn conn_id c.conns })

-- `ESP_GAP_BLE_SCAN_RESULT_EVT`: the advertised service UUIDs, if there are any, and the address.
unfoldable pub on_scan_result : Option (List ℕ) → List ℕ → Central → Central
on_scan_result none bda c = c
on_scan_result (some adv) bda c =
    if leb 2 (length adv) && packet_magic adv == klip_svc_uuid
    then act (Action.gattc_open c.gattc_if bda) (act Action.stop_scanning c)
    else c

abbrev pub writable : Option ℕ → List Conn → Option Conn
writable none conns = none
writable (some i) conns = let k = Conns.conn_at conns i in if k.cmd_found then some k else none

-- `ble_central_send_to_node`; `write` is what the stack's write call returns.
unfoldable pub ble_central_send_to_node :
    (ℕ → ℕ → ℕ → List ℕ → Err) → ℕ → List ℕ → Central → Err × Central
ble_central_send_to_node write conn_id bytes c =
    elim (writable (find_conn conn_id c.conns) c.conns) [
      | none ↦ (Err.not_found, c)
      | some k ↦ (
        write k.gattc_if conn_id k.cmd_handle bytes,
        act (Action.write_char k.gattc_if conn_id k.cmd_handle bytes) c,
      )
    ]

abbrev pub forward : Option ℕ → List ℕ → Central → Central
forward none value c = c
forward (some nid) value c = act (Action.emit (u8 nid) (take (u8 (length value)) value)) c

abbrev pub is_packet : List ℕ → Bool
is_packet value = leb klip_header_size (length value) && packet_magic value == klipproto_magic

module _ (J : Json) where
  -- The slot of the node after a notification; reads past the value, and a write past the end of
  -- `json[KLIP_MAX_PAYLOAD_SIZE + 1]`, are faults.
  unfoldable pub take_info : List ℕ → Node → Option Node
  take_info value n =
      let len = packet_length value in
      if len == 0
      then some n
      else if ltb klip_max_payload_size len || ltb (length value) (klip_header_size + len)
      then none
      else node_update_info J n (c_string (take len (packet_payload value)))

  unfoldable pub take_endstop : List ℕ → Node → Option Node
  take_endstop value n =
      if ltb (packet_length value) 2
      then some n
      else if ltb (length value) (klip_header_size + 2)
      then none
      else some (
          node_set_endstop (get_or (packet_payload value) 0 0)
            (not (get_or (packet_payload value) 1 0 == 0)) n)

  unfoldable pub take_command : Option Command → List ℕ → Node → Option Node
  take_command (some Command.device_info_resp) value n = take_info value n
  take_command (some Command.endstop_state) value n = take_endstop value n
  take_command _ value n = some n

  unfoldable pub update_node : Option ℕ → List ℕ → Registry → Option Registry
  update_node none value r = some r
  update_node (some i) value r = elim (get_elem? r i) [
    | none ↦ some r
    | some n ↦
        take_command (command_of (packet_command value)) value n >>= λ m. some (modify (λ _. m) i r)
  ]

  -- `ESP_GATTC_NOTIFY_EVT`
  unfoldable pub on_notify : ℕ → List ℕ → Central → Option Central
  on_notify conn_id value c =
      if is_packet value
      then (update_node (node_by_conn_id conn_id c.registry) value c.registry >>= λ r. some (
          act (Action.response conn_id (take (u8 (length value)) value))
            (forward (node_id_by_conn_id conn_id r) value (record c { registry = r }))))
      else some c
