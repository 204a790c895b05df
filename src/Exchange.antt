-- ===== src/Exchange.antt =====
-- The host, the router and one node together: what the host writes goes through
-- router/main/serial_bridge.c, command_parser.c and ble_central.c to node/main/gatt_server.c, and what
-- the node indicates comes back to ble_central.c.
pub mod Answered
pub mod Commands
pub mod Linked
pub mod Links
mod Tests
use klippylink.Common.{
  ℕ, zero, suc, ◌+◌, ◌-◌, ◌*◌, ◌/◌, ◌%◌, ◌^◌, ◌≤◌, ◌<◌, min, ◌≡◌, refl, sym, ap, ap₂, ◌∙◌, subst,
  ◌≢◌, ◌↔◌, ◌⊎◌, inl, inr, Bool, true, false, not, ◌&&◌, ◌||◌, Option, none, some, List, [], ◌∷◌,
  ◌++◌, map, append-nil, append_assoc, arith, ltb, leb, ◌==◌, if◌then◌else◌, ltb→lt, ltb→le, lt→ltb,
  le→ltb, leb→le, leb→lt, le→leb, lt→leb, ==_iff, ==_refl, ==_ne, ==→ne, Bool-cases, Option-cases,
  length, get_elem?, get_or, set, take, drop, replicate, length-append, length-set,
  get_elem?-set_self, get_elem?-set_ne, get_elem?-none, take-append-drop, length-take, length-drop,
  length-replicate, take-all, take-append_left, take-suc-set, take-take, get_or-take,
  get_or-append_left, All, All-append, get_elem?-append_last,
}
use klippylink.Esp.{Err, is_ok}
use klippylink.Json.{Json, ◌>>=◌}
use klippylink.Router.Parser.{Parser, Send}
use klippylink.Router.Serial.{rx_task}
use klippylink.Router.Central.{Action, Central, ble_central_send_to_node, on_notify}
use klippylink.Node.Gatt.{Board, BtAction, Device}
use klippylink.Node.Gatt.Events.{on_gatts_write}

-- What an exchange has added to a list of actions.
abbrev pub since {ℓ} : {A : Type ℓ} → List A → List A → List A
since old new = drop (length old) new

pub drop-length {ℓ} : {A : Type ℓ} (xs ys : List A) → drop (length xs) (xs ++ ys) ≡ ys
drop-length [] ys = refl
drop-length (x ∷ xs) ys = drop-length xs ys

-- The Bluetooth stacks and the air between the router and a node: what the router's calls of
-- esp_ble_gattc_write_char and esp_ble_gattc_write_char_descr return, the MTU of the connection (a write
-- or a notification has 3 bytes of it for its own header), and whether the router's stack hands
-- notifications on, which it does only after esp_ble_gattc_register_for_notify.
pub record Air : Type 0 where
  pub write : ℕ → ℕ → ℕ → List ℕ → Err
  pub write_descr : ℕ → ℕ → ℕ → List ℕ → Err
  pub mtu : ℕ
  pub hands_on : Bool

-- A write that was answered with `e` gets through.
abbrev pub carried : Air → Err → List ℕ → Bool
carried A e bytes = is_ok e && leb (length bytes + 3) A.mtu

module _ (B : Board) where
  pub record System : Type 0 where
    pub parser : Parser
    pub central : Central
    pub device : Device B

  -- The link to the node that the router knows as connection `link`: a write of a characteristic or a
  -- descriptor that the router's stack takes and that fits in a packet comes to the node as one to the
  -- same handle; other writes are lost, and other actions do not concern it.
  unfoldable pub to_node : Air → ℕ → List Action → Device B → Option (Device B)
  to_node A link [] d = some d
  to_node A link (Action.write_char gattc_if conn_id handle bytes ∷ as_) d =
      if conn_id == link && carried A (A.write gattc_if conn_id handle bytes) bytes
      then (on_gatts_write B handle bytes d >>= λ d'. to_node A link as_ d')
      else to_node A link as_ d
  to_node A link (Action.write_char_descr gattc_if conn_id handle bytes ∷ as_) d =
      if conn_id == link && carried A (A.write_descr gattc_if conn_id handle bytes) bytes
      then (on_gatts_write B handle bytes d >>= λ d'. to_node A link as_ d')
      else to_node A link as_ d
  to_node A link (a ∷ as_) d = to_node A link as_ d

  module _ (J : Json) (A : Air) where
    -- And an indication that fits in a packet comes to the router as a notification, if its stack hands
    -- notifications on; else it is lost.
    unfoldable pub to_router : ℕ → List BtAction → Central → Option Central
    to_router link [] c = some c
    to_router link (BtAction.send_indicate gatts_if conn_id handle bytes ∷ as_) c =
        if A.hands_on && leb (length bytes + 3) A.mtu
        then (on_notify J link bytes c >>= λ c'. to_router link as_ c')
        else to_router link as_ c
    to_router link (a ∷ as_) c = to_router link as_ c

    unfoldable pub send_each : List Send → Central → Central
    send_each [] c = c
    send_each (s ∷ ss) c = send_each ss (ble_central_send_to_node A.write s.conn_id s.bytes c).1

    -- Some reads of `rx_task`, what they make the router send, what the node does, and what the router
    -- makes of its answers.
    unfoldable pub exchange : ℕ → List (Option (List ℕ)) → System → Option System
    exchange link reads s =
        let (p, sends) = rx_task s.central.registry reads s.parser in
        let c = send_each sends s.central in
        to_node A link (since s.central.actions c.actions) s.device >>= λ d.
        to_router link (since s.device.actions d.actions) c >>= λ c'.
        some (record { parser = p; central = c'; device = d })
