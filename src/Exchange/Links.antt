-- ===== src/Exchange/Links.antt =====
-- A linked node: what reaches it, and what the router makes of a packet that it sends.
use klippylink.Common.{
  ℕ, ◌<◌, ◌≡◌, refl, sym, ap, ◌∙◌, ◌≢◌, inl, inr, true, false, not, ◌||◌, Option, some, List, [],
  ◌∷◌, ◌++◌, append-nil, arith, ◌==◌, ==_ne, Option-cases, length, get_elem?, get_or, take,
  take-all,
}
use klippylink.Esp.{Err}
use klippylink.Json.{Json}
use klippylink.Protocol.{u8, packet_command}
use klippylink.Protocol.Codes.{command_of}
use klippylink.Router.Registry.{Node, Registry, modify, node_by_conn_id, node_id_by_conn_id}
use klippylink.Router.Parser.{route, unicast}
use klippylink.Router.Parser.Bounds.{IsValid}
use klippylink.Router.Parser.Frames.{IsPacket, route-takers}
use klippylink.Router.Serial.{rx_task}
use klippylink.Router.Serial.Reads.{received, rx_task-wire}
use klippylink.Router.Central.Conns.{Conn, find_conn}
use klippylink.Router.Central.{
  Action, Central, act, writable, forward, ble_central_send_to_node, on_notify, update_node,
  take_command, is_packet,
}
use klippylink.Router.Central.Discovery.{send-writable}
use klippylink.Router.Central.Notify.{on_notify_lem}
use klippylink.Node.Gatt.{
  Board, BtAction, Device, idx_cmd_val, idx_tel_val, no_conn, gatt_server_notify, tell_central,
}
use klippylink.Update.{HasHandles}
use klippylink.Exchange.{System}

module _ (B : Board) where
  -- The router knows the node of slot `nid`, as `n`, under the connection `link`, and has found its
  -- command characteristic, as `k` says; the node has a connection and notifies; and the parser is in
  -- order and between frames.
  pub record IsLinked (nid link : ℕ) (n : Node) (k : Conn) (s : System B) : Type 0 where
    pub valid : IsValid s.parser
    pub idle : s.parser.rx_have_nid ≡ false
    pub one_node : nid < 255
    pub slot : get_elem? s.central.registry nid ≡ some n
    pub connected : n.connected ≡ true
    pub named : n.conn_id ≡ link
    pub by_link : node_by_conn_id link s.central.registry ≡ some nid
    pub id_by_link : node_id_by_conn_id link s.central.registry ≡ some nid
    pub usable : writable (find_conn link s.central.conns) s.central.conns ≡ some k
    pub handle : k.cmd_handle ≡ get_or s.device.handles idx_cmd_val 0
    pub handles : HasHandles B s.device
    pub has_conn : s.device.conn_id ≢ no_conn
    pub notifies : s.device.notify_enabled ≡ true

  -- The frame goes to the one node.
  pub sends :
      {nid link : ℕ} {n : Node} {k : Conn} {s : System B} (pkt : List ℕ)
      (reads : List (Option (List ℕ)))
      → IsLinked nid link n k s
      → IsPacket pkt
      → received reads ≡ nid ∷ pkt
      → ((rx_task s.central.registry reads s.parser).0.rx_have_nid ≡ false)
        × ((rx_task s.central.registry reads s.parser).1
            ≡ record { conn_id = link; bytes = pkt } ∷ [])
  unfolding route unicast
  sends {nid} {s = s} pkt reads l h e =
      let (idle, sent) =
        rx_task-wire s.central.registry s.parser ((nid, pkt) ∷ []) reads l.valid l.idle (h, tt)
          (e ∙ sym (append-nil (nid ∷ pkt))) in
      let small = l.one_node in
      let one = ==_ne nid 0xFF (omega arith) in
      (
        idle,
        sent
            ∙ ap (λ x. x ++ []) (sym (route-takers s.central.registry nid pkt))
            ∙ simp (one, l.slot, l.connected, l.named) refl,
      )

  -- The router writes it to the command characteristic.
  pub writes :
      (write : ℕ → ℕ → ℕ → List ℕ → Err) {nid link : ℕ} {n : Node} {k : Conn} {s : System B}
      (pkt : List ℕ)
      → IsLinked nid link n k s
      → (ble_central_send_to_node write link pkt s.central).1
        ≡ act (Action.write_char k.gattc_if link k.cmd_handle pkt) s.central
  writes write {link = link} {k = k} {s} pkt l =
      ap (λ t. t.1) (send-writable write link pkt s.central k l.usable)

  -- The node's answer, if it has a connection and notifies.
  pub tell_central_lem :
      (bytes : List ℕ) (d : Device B)
      → d.conn_id ≢ no_conn
      → d.notify_enabled ≡ true
      → length bytes < 256
      → tell_central B bytes d ≡ record d {
        actions =
            d.actions
            ++ BtAction.send_indicate d.gatts_if d.conn_id (get_or d.handles idx_tel_val 0) bytes
              ∷ [];
      }
  unfolding gatt_server_notify
  tell_central_lem bytes d c m small =
      let size : u8 (length bytes) ≡ length bytes = omega arith in
      let on : (d.conn_id == no_conn || not d.notify_enabled) ≡ false =
        simp (==_ne d.conn_id no_conn c, m) refl in
      rw (on, tell_central) (rw (size, take-all (length bytes) bytes (omega arith)) refl)

  -- What the router's tables and its calls are after a notification of a command that it takes.
  pub takes_answer :
      (J : Json) (link nid : ℕ) (value : List ℕ) (n m : Node) (c : Central)
      → is_packet value ≡ true
      → length value < 256
      → get_elem? c.registry nid ≡ some n
      → node_by_conn_id link c.registry ≡ some nid
      → node_id_by_conn_id link c.registry ≡ some nid
      → take_command J (command_of (packet_command value)) value n ≡ some m
      → (c' : Central) × (on_notify J link value c ≡ some c')
        × (c'.registry ≡ modify (λ _. m) nid c.registry)
        × (c'.actions
            ≡ (c.actions ++ Action.emit (u8 nid) value ∷ []) ++ Action.response link value ∷ [])
  unfolding on_notify update_node
  takes_answer J link nid value n m c p small slot by id t =
      let r' = modify (λ _. m) nid c.registry in
      let taken : update_node J (node_by_conn_id link c.registry) value c.registry ≡ some r' =
        rw (by, update_node) (rw (slot, t) refl) in
      let c' =
        act (Action.response link (take (u8 (length value)) value))
          (forward (node_id_by_conn_id link r') value (record c { registry = r' })) in
      let e : on_notify J link value c ≡ some c' = rw (p, taken) refl in
      let (calls, _, _) = on_notify_lem J link value c c' nid p small id e in
      (c', e, same_tables r', calls)
    where
      same_tables :
          (r : Registry)
          → (act
              (Action.response link (take (u8 (length value)) value))
              (forward (node_id_by_conn_id link r) value (record c { registry = r }))).registry
            ≡ r
      same_tables r = elim (Option-cases (node_id_by_conn_id link r)) [
        | inl o ↦ rw o refl
        | inr (i, o) ↦ rw o refl
      ]
