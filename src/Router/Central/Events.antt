-- ===== src/Router/Central/Events.antt =====
-- Connections over their life: found, discovered, written to, and gone.
use klippylink.Common.{
  ℕ, suc, ◌+◌, ◌≤◌, ◌<◌, ◌≡◌, refl, ap, ◌∙◌, false, Option, none, some, List, [], ◌∷◌, ◌++◌, arith,
  ◌==◌, lt→leb, ==_refl, length, length-append, All,
}
use klippylink.Protocol.{Command, header, u8}
use klippylink.Router.Registry.{Registry, node_add, node_id_by_conn_id}
use klippylink.Router.Registry.Ids.{IsFresh, node_id_by_conn_id-node_add}
use klippylink.Router.Central.Conns.{Conn, max_conns, new_conn, find_from, find_conn, alloc_conn}
use klippylink.Router.Central.{Action, Central, on_connect, add_node, add_conn}

-- No connection of the table has the id.
abbrev pub IsUnused : ℕ → List Conn → Type 0
IsUnused conn_id cs = All (λ c. (c.conn_id == conn_id) ≡ false) cs

find_from-IsUnused :
    (conn_id : ℕ) (cs : List Conn) (i : ℕ) → IsUnused conn_id cs → find_from conn_id cs i ≡ none
unfolding find_from
find_from-IsUnused conn_id [] i h = refl
find_from-IsUnused conn_id (c ∷ cs) i h = rw h.0 (find_from-IsUnused conn_id cs (suc i) h.1)

find_from-append :
    (conn_id gattc_if : ℕ) (cs : List Conn) (i : ℕ)
    → IsUnused conn_id cs
    → find_from conn_id (cs ++ new_conn conn_id gattc_if ∷ []) i ≡ some (i + length cs)
unfolding find_from
find_from-append conn_id g [] i h = rw ==_refl (ap some (omega arith))
find_from-append conn_id g (c ∷ cs) i h =
    rw h.0 (find_from-append conn_id g cs (suc i) h.1 ∙ ap some (omega arith))

-- The world in which the new connection has its place.
abbrev pub placed : ℕ → ℕ → Central → Central
placed gattc_if conn_id c = record c { conns = c.conns ++ new_conn conn_id gattc_if ∷ [] }

pub on_connect-room :
    (gattc_if conn_id : ℕ) (bda : List ℕ) (c : Central) (out : Option ℕ × Registry)
    → length c.conns < max_conns
    → node_add bda conn_id c.registry ≡ out
    → on_connect gattc_if conn_id bda c ≡ add_node gattc_if conn_id out (placed gattc_if conn_id c)
unfolding on_connect alloc_conn
on_connect-room g conn_id bda c out room e =
    rw (lt→leb 8 (length c.conns) room, add_conn)
      (ap (λ o. add_node g conn_id o (placed g conn_id c)) e)

-- A new connection, whose id no connected node and no open connection has, with room for it and a
-- slot `i` for its node: the host is sent a PING frame marked `i`, then the services are searched;
-- the connection is found in the table, and its node under `i`.
pub on_connect_lem :
    (gattc_if conn_id : ℕ) (bda : List ℕ) (c : Central) (i : ℕ)
    → length c.conns < max_conns
    → IsUnused conn_id c.conns
    → IsFresh conn_id c.registry
    → (node_add bda conn_id c.registry).0 ≡ some i
    → (let c' = on_connect gattc_if conn_id bda c in
        (c'.actions
          ≡ (c.actions ++ Action.emit (u8 i) (header Command.ping 0) ∷ [])
            ++ Action.search_service gattc_if conn_id ∷ [])
        × (find_conn conn_id c'.conns ≡ some (length c.conns))
        × (node_id_by_conn_id conn_id c'.registry ≡ some i)
        × (length c'.conns ≤ max_conns))
unfolding find_conn
on_connect_lem g conn_id bda c i room unused fresh added =
    let r = (node_add bda conn_id c.registry).1 in
    let id : node_id_by_conn_id conn_id r ≡ some i =
      node_id_by_conn_id-node_add bda conn_id c.registry i fresh added in
    rw (on_connect-room g conn_id bda c (some i, r) room (ap (λ o. (o, r)) added), id)
      (
        refl,
        find_from-append conn_id g c.conns 0 unused ∙ ap some (omega arith),
        id,
        omega (arith, length-append c.conns (new_conn conn_id g ∷ [])),
      )

-- When there is no slot for the node, its connection keeps its place in the table all the same, and
-- nothing is told to the host nor searched.
pub on_connect-refused :
    (gattc_if conn_id : ℕ) (bda : List ℕ) (c : Central)
    → length c.conns < max_conns
    → (node_add bda conn_id c.registry).0 ≡ none
    → (let c' = on_connect gattc_if conn_id bda c in
        (c'.actions ≡ c.actions) × (length c'.conns ≡ length c.conns + 1))
on_connect-refused g conn_id bda c room none_added =
    let r = (node_add bda conn_id c.registry).1 in
    rw (on_connect-room g conn_id bda c (none, r) room (ap (λ o. (o, r)) none_added))
      (refl, omega (arith, length-append c.conns (new_conn conn_id g ∷ [])))
