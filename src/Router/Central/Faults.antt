-- ===== src/Router/Central/Faults.antt =====
-- Where a notification makes the router write past its buffer: `json[KLIP_MAX_PAYLOAD_SIZE + 1]` of
-- the case `ESP_GATTC_NOTIFY_EVT` takes a copy of as many bytes as the packet's length byte says.
use klippylink.Common.{
  ℕ, ◌<◌, ◌≡◌, refl, ap, true, none, some, List, arith, lt→ltb, ==_ne, get_elem?,
}
use klippylink.Json.{Json, ◌>>=◌}
use klippylink.Protocol.{
  Command, command_code, klip_max_payload_size, packet_command, packet_length,
}
use klippylink.Protocol.Codes.{command_of}
use klippylink.Router.Registry.{Node, Registry, node_by_conn_id, modify}
use klippylink.Router.Central.{Central, is_packet, on_notify, take_command, take_info, update_node}

module _ (J : Json) where
  take_info-overflow :
      (value : List ℕ) (n : Node)
      → klip_max_payload_size < packet_length value
      → take_info J value n ≡ none
  unfolding take_info
  take_info-overflow value n long =
      rw
        (
          ==_ne (packet_length value) 0 (λ e. omega arith),
          lt→ltb klip_max_payload_size (packet_length value) long,
        )
        refl

  take_command-overflow :
      (value : List ℕ) (n : Node)
      → packet_command value ≡ command_code Command.device_info_resp
      → klip_max_payload_size < packet_length value
      → take_command J (command_of (packet_command value)) value n ≡ none
  unfolding take_command
  take_command-overflow value n cmd long = rw cmd (take_info-overflow value n long)

  update_node-overflow :
      (value : List ℕ) (r : Registry) (i : ℕ) (n : Node)
      → packet_command value ≡ command_code Command.device_info_resp
      → klip_max_payload_size < packet_length value
      → get_elem? r i ≡ some n
      → update_node J (some i) value r ≡ none
  unfolding update_node
  update_node-overflow value r i n cmd long there =
      rw (there, update_node)
        (ap (λ o. o >>= λ m. some (modify (λ _. m) i r)) (take_command-overflow value n cmd long))

  -- A notification from a slot of the table that holds a DEVICE_INFO_RESP packet whose length byte is
  -- above 244 is a fault, whatever else it holds.
  pub on_notify-overflow :
      (conn_id : ℕ) (value : List ℕ) (c : Central) (i : ℕ) (n : Node)
      → is_packet value ≡ true
      → packet_command value ≡ command_code Command.device_info_resp
      → klip_max_payload_size < packet_length value
      → node_by_conn_id conn_id c.registry ≡ some i
      → get_elem? c.registry i ≡ some n
      → on_notify J conn_id value c ≡ none
  unfolding on_notify
  on_notify-overflow conn_id value c i n p cmd long at there =
      rw (p, at, update_node-overflow value c.registry i n cmd long there) refl
