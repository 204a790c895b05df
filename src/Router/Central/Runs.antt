-- ===== src/Router/Central/Runs.antt =====
-- The router over any run of Bluetooth events and writes.
use klippylink.Common.{ℕ, ◌≤◌, ◌≡◌, refl, Option, some, List, length}
use klippylink.Esp.{Err}
use klippylink.Json.{Json}
use klippylink.Router.Registry.History.{
  modify-IsValid, modify-Stable, Both, Stable, Step, Step-Both, Stable-refl, Stable-trans, add-Both,
  remove-Both,
}
use klippylink.Router.Registry.History
use klippylink.Router.Central.Conns.{max_conns}
use klippylink.Router.Central.{
  Central, GattDb, on_reg, on_connect, on_search_cmpl, on_disconnect, on_scan_result,
  on_scan_param_set, ble_central_send_to_node, on_notify,
}
use klippylink.Router.Central.Tables.{
  Sound, same_tables, on_connect-Sound, on_disconnect-Sound, on_search_cmpl-Sound,
  on_scan_result-Sound, send-Sound, on_notify-Sound,
}

-- One event of the Bluetooth stack that is handled without a fault, or one write to a node.
pub data Handled (J : Json) (c : Central) : Central → Type 0 where
  registered : (gattc_if : ℕ) → Handled J c (on_reg gattc_if c)
  scan_set : Handled J c (on_scan_param_set c)
  scanned : (adv : Option (List ℕ)) (bda : List ℕ) → Handled J c (on_scan_result adv bda c)
  connected :
      (gattc_if conn_id : ℕ) (bda : List ℕ) → Handled J c (on_connect gattc_if conn_id bda c)
  searched :
      (db : GattDb) (gattc_if conn_id : ℕ) → Handled J c (on_search_cmpl db gattc_if conn_id c)
  notified :
      (conn_id : ℕ) (value : List ℕ) (c' : Central)
      → on_notify J conn_id value c ≡ some c'
      → Handled J c c'
  disconnected : (conn_id : ℕ) → Handled J c (on_disconnect conn_id c)
  sent :
      (write : ℕ → ℕ → ℕ → List ℕ → Err) (conn_id : ℕ) (bytes : List ℕ)
      → Handled J c (ble_central_send_to_node write conn_id bytes c).1

pub data Run (J : Json) (c : Central) : Central → Type 0 where
  stay : Run J c c
  step : {d e : Central} → Run J c d → Handled J d e → Run J c e

module _ (J : Json) where
  Handled-Sound : {c d : Central} → Handled J c d → Sound c d
  unfolding on_reg on_scan_param_set
  Handled-Sound {c} (registered g) = same_tables c _ refl refl
  Handled-Sound {c} scan_set = same_tables c _ refl refl
  Handled-Sound {c} (scanned adv bda) = on_scan_result-Sound adv bda c
  Handled-Sound {c} (connected g conn_id bda) = on_connect-Sound g conn_id bda c
  Handled-Sound {c} (searched db g conn_id) = on_search_cmpl-Sound db g conn_id c
  Handled-Sound {c} (notified conn_id value c' h) = on_notify-Sound J conn_id value c c' h
  Handled-Sound {c} (disconnected conn_id) = on_disconnect-Sound conn_id c
  Handled-Sound {c} (sent write conn_id bytes) = send-Sound write conn_id bytes c

-- Over any run of events and writes of the router that meets no fault, from tables within their
-- bounds: the node table has at most 8 slots, all within their bounds, the connection table has at
-- most 8 connections, and every node slot in use stays in use at its index for the same address.
pub Run-Stable :
    {J : Json} {c d : Central}
    → History.IsValid c.registry
    → length c.conns ≤ max_conns
    → Run J c d
    → History.IsValid d.registry × (length d.conns ≤ max_conns) × Stable c.registry d.registry
Run-Stable {c = c} v room stay = (v, room, Stable-refl c.registry)
Run-Stable {J} v room (step run h) =
    let (w, k, f) = Run-Stable v room run in
    let s = Handled-Sound J h in let (g, keep) = s.nodes in (g w, s.room k, Stable-trans f keep)
