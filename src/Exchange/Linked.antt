-- ===== src/Exchange/Linked.antt =====
-- How a node becomes known to the router: it connects, and the router searches its attributes.
use klippylink.Common.{
  ℕ, suc, ◌≤◌, ◌<◌, ◌≡◌, true, false, some, List, [], ◌∷◌, length, get_elem?, get_or, drop,
}
use klippylink.Protocol.{Command, header}
use klippylink.Router.Registry.{Node, has_conn_id, node_add, node_max_count}
use klippylink.Esp.{is_ok}
use klippylink.Router.Parser.{Parser}
use klippylink.Router.Central.Conns.{max_conns}
use klippylink.Router.Central.Events.{IsUnused}
use klippylink.Router.Central.{Central, GattDb}
use klippylink.Node.Gatt.{
  Board, Device, idx_cmd_val, idx_tel_val, idx_tel_cccd, idx_count, send_device_info,
}
use klippylink.Node.Gatt.Table.{gatt_db, handle_of, descr_of, cccd_uuid}
use klippylink.Exchange.{Air}

-- The connection `conn` is new to the router, it has room for it, and its node gets the slot `nid`.
pub record IsNew (nid conn : ℕ) (bda : List ℕ) (c : Central) : Type 0 where
  pub room : length c.conns < max_conns
  pub unused : IsUnused conn c.conns
  pub unknown : (j : ℕ) (n : Node) → get_elem? c.registry j ≡ some n → has_conn_id conn n ≡ false
  pub added : (node_add bda conn c.registry).0 ≡ some nid
  pub small : nid < node_max_count

module _ (B : Board) where
  -- The stack searches the table of the node under the handles that it gave to it.
  pub record Serves (conn : ℕ) (db : GattDb) (d : Device B) : Type 0 where
    pub whole : length d.handles ≡ idx_count
    pub chars : (uuid : ℕ) → db.char_by_uuid conn uuid ≡ handle_of uuid gatt_db d.handles
    pub descr :
        db.cccd_of conn (get_or d.handles idx_tel_val 0)
        ≡ descr_of cccd_uuid (drop (suc idx_tel_val) gatt_db) (drop (suc idx_tel_val) d.handles)

  -- The two writes that the router makes then: notifications on, and a question for the description.
  abbrev joined : ℕ → Device B → Device B
  joined conn_id d = send_device_info B (record d { conn_id = conn_id; notify_enabled = true })

  -- The router's stack takes those two writes, with a handle for each, and they fit in the MTU.
  pub record TakesBoth (A : Air) (g conn : ℕ) (d : Device B) : Type 0 where
    pub switch : is_ok (A.write_descr g conn (get_or d.handles idx_tel_cccd 0) (1 ∷ 0 ∷ [])) ≡ true
    pub question :
        is_ok (A.write g conn (get_or d.handles idx_cmd_val 0) (header Command.device_info_req 0))
        ≡ true
    pub fits : 7 ≤ A.mtu
