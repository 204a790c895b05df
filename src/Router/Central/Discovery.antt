-- ===== src/Router/Central/Discovery.antt =====
-- What the end of the service search leaves: a connection that packets can be written to.
use klippylink.Common.{
  ℕ, zero, suc, ◌+◌, ◌≤◌, ◌≡◌, refl, sym, ap, ap₂, ◌∙◌, inl, inr, true, false, Option, none, some,
  List, [], ◌∷◌, arith, ◌==◌, ==_iff, ==_refl, Bool-cases, Option-cases, get_or, set,
}
use klippylink.Json.{eq_of_some}
use klippylink.Esp.{Err}
use klippylink.Router.Central.Conns.{Conn, conn_at, find_from, find_conn, modify_conn, new_conn}
use klippylink.Router.Central.{
  Action, Central, GattDb, act, discover, set_cmd, set_tel, on_search_cmpl,
  ble_central_send_to_node, writable, klip_char_cmd_uuid, klip_char_tel_uuid,
}

find_from-le : (conn_id : ℕ) (cs : List Conn) (j m : ℕ) → find_from conn_id cs j ≡ some m → j ≤ m
unfolding find_from
find_from-le conn_id [] j m h = cc
find_from-le conn_id (c ∷ cs) j m h = elim (Bool-cases (c.conn_id == conn_id)) [
  | inl e ↦ let q : j ≡ m = eq_of_some (rw e at h) in omega arith
  | inr e ↦ let q = find_from-le conn_id cs (suc j) m (rw e at h) in omega arith
]

-- Writing the connection that a search finds, with its id kept, leaves the search as it is.
find_from-set :
    (conn_id : ℕ) (cs : List Conn) (j i : ℕ) (k d : Conn)
    → find_from conn_id cs j ≡ some (j + i)
    → k.conn_id ≡ conn_id
    → (find_from conn_id (set cs i k) j ≡ some (j + i)) × (get_or (set cs i k) i d ≡ k)
unfolding find_from
find_from-set conn_id [] j i k d h q = cc
find_from-set conn_id (c ∷ cs) j zero k d h q =
    (rw (q, ==_refl conn_id) (ap some (omega arith)), refl)
find_from-set conn_id (c ∷ cs) j (suc i) k d h q = elim (Bool-cases (c.conn_id == conn_id)) [
  | inl e ↦ let z : j ≡ j + suc i = eq_of_some (rw e at h) in absurd (omega arith)
  | inr e ↦
      let same : j + suc i ≡ suc j + i = omega arith in
      let (f, g) = find_from-set conn_id cs (suc j) i k d (rw e at h ∙ ap some same) q in
      (rw e (f ∙ ap some (sym same)), g)
]

find_from-conn_at :
    (conn_id : ℕ) (cs : List Conn) (j i : ℕ) (d : Conn)
    → find_from conn_id cs j ≡ some (j + i)
    → (get_or cs i d).conn_id ≡ conn_id
unfolding find_from
find_from-conn_at conn_id [] j i d h = cc
find_from-conn_at conn_id (c ∷ cs) j zero d h = elim (Bool-cases (c.conn_id == conn_id)) [
  | inl e ↦ (==_iff c.conn_id conn_id).0 e
  | inr e ↦ let q = find_from-le conn_id cs (suc j) (j + 0) (rw e at h) in absurd (omega arith)
]
find_from-conn_at conn_id (c ∷ cs) j (suc i) d h = elim (Bool-cases (c.conn_id == conn_id)) [
  | inl e ↦ let z : j ≡ j + suc i = eq_of_some (rw e at h) in absurd (omega arith)
  | inr e ↦
      let same : j + suc i ≡ suc j + i = omega arith in
      find_from-conn_at conn_id cs (suc j) i d (rw e at h ∙ ap some same)
]

set_tel-cmd :
    (db : GattDb) (conn_id : ℕ) (o : Option ℕ) (k : Conn)
    → ((set_tel db conn_id o k).conn_id ≡ k.conn_id)
      × ((set_tel db conn_id o k).gattc_if ≡ k.gattc_if)
      × ((set_tel db conn_id o k).cmd_handle ≡ k.cmd_handle)
      × ((set_tel db conn_id o k).cmd_found ≡ k.cmd_found)
set_tel-cmd db conn_id none k = (refl, refl, refl, refl)
set_tel-cmd db conn_id (some h) k = elim (Option-cases (db.cccd_of conn_id h)) [
  | inl e ↦ rw e (refl, refl, refl, refl)
  | inr (x, e) ↦ rw e (refl, refl, refl, refl)
]

-- The tables after a search: the found connection with the handles, and nothing else.
pub conns-on_search_cmpl :
    (db : GattDb) (gattc_if conn_id : ℕ) (c : Central) (i : ℕ)
    → find_conn conn_id c.conns ≡ some i
    → (on_search_cmpl db gattc_if conn_id c).conns
      ≡ set c.conns i (discover db conn_id (conn_at c.conns i))
unfolding on_search_cmpl modify_conn
conns-on_search_cmpl db g conn_id c i e =
    let k = discover db conn_id (conn_at c.conns i) in
    elim (Bool-cases k.cccd_found) [
      | inl a ↦ elim (Bool-cases k.cmd_found) [
        | inl b ↦ rw (e, a, b) refl
        | inr b ↦ rw (e, a, b) refl
      ]
      | inr a ↦ elim (Bool-cases k.cmd_found) [
        | inl b ↦ rw (e, a, b) refl
        | inr b ↦ rw (e, a, b) refl
      ]
    ]

pub writable-at :
    (i : ℕ) (k : Conn) (cs : List Conn)
    → conn_at cs i ≡ k
    → k.cmd_found ≡ true
    → writable (some i) cs ≡ some k
writable-at i k cs e on = rw (ap (λ x. x.cmd_found) e ∙ on) (ap some e)

pub send-writable :
    (write : ℕ → ℕ → ℕ → List ℕ → Err) (conn_id : ℕ) (bytes : List ℕ) (c : Central) (k : Conn)
    → writable (find_conn conn_id c.conns) c.conns ≡ some k
    → ble_central_send_to_node write conn_id bytes c ≡ (
      write k.gattc_if conn_id k.cmd_handle bytes,
      act (Action.write_char k.gattc_if conn_id k.cmd_handle bytes) c,
    )
unfolding ble_central_send_to_node
send-writable write conn_id bytes c k e = rw (e, ble_central_send_to_node) refl

send-unwritable :
    (write : ℕ → ℕ → ℕ → List ℕ → Err) (conn_id : ℕ) (bytes : List ℕ) (c : Central) (i : ℕ)
    → find_conn conn_id c.conns ≡ some i
    → (conn_at c.conns i).cmd_found ≡ false
    → ble_central_send_to_node write conn_id bytes c ≡ (Err.not_found, c)
unfolding ble_central_send_to_node
send-unwritable write conn_id bytes c i e off =
    let o : writable (find_conn conn_id c.conns) c.conns ≡ none =
      ap (λ x. writable x c.conns) e ∙ rw off refl in
    rw (o, ble_central_send_to_node) refl

-- The connection with its handles, when the command characteristic is found.
discover-cmd :
    (db : GattDb) (conn_id h : ℕ) (k : Conn)
    → db.char_by_uuid conn_id klip_char_cmd_uuid ≡ some h
    → (let k' = discover db conn_id k in
        (k'.conn_id ≡ k.conn_id)
        × (k'.gattc_if ≡ k.gattc_if)
        × (k'.cmd_handle ≡ h)
        × (k'.cmd_found ≡ true))
discover-cmd db conn_id h k found = rw found (set_tel-cmd db conn_id _ _)

conn_id-set_cmd : (o : Option ℕ) (k : Conn) → (set_cmd o k).conn_id ≡ k.conn_id
conn_id-set_cmd none k = refl
conn_id-set_cmd (some h) k = refl

conn_id-discover :
    (db : GattDb) (conn_id : ℕ) (k : Conn) → (discover db conn_id k).conn_id ≡ k.conn_id
conn_id-discover db conn_id k =
    (set_tel-cmd db conn_id (db.char_by_uuid conn_id klip_char_tel_uuid)
      (set_cmd (db.char_by_uuid conn_id klip_char_cmd_uuid) k)).0
    ∙ conn_id-set_cmd (db.char_by_uuid conn_id klip_char_cmd_uuid) k

-- The found connection after the search: at its place, and with the handle.
pub found-on_search_cmpl :
    (db : GattDb) (gattc_if conn_id i : ℕ) (c : Central)
    → find_conn conn_id c.conns ≡ some i
    → (let c' = on_search_cmpl db gattc_if conn_id c in
        (find_conn conn_id c'.conns ≡ some i)
        × (conn_at c'.conns i ≡ discover db conn_id (conn_at c.conns i)))
unfolding find_conn
found-on_search_cmpl db g conn_id i c e =
    let zero_add : 0 + i ≡ i = omega arith in
    let e' : find_from conn_id c.conns 0 ≡ some (0 + i) = e ∙ ap some (sym zero_add) in
    let id =
      conn_id-discover db conn_id (conn_at c.conns i)
      ∙ find_from-conn_at conn_id c.conns 0 i (new_conn 0 0) e' in
    let (f, there) =
      find_from-set conn_id c.conns 0 i (discover db conn_id (conn_at c.conns i)) (new_conn 0 0) e'
        id in
    rw (conns-on_search_cmpl db g conn_id c i e) (f ∙ ap some zero_add, there)

-- Once the search of an open connection has ended and its command characteristic was among the
-- attributes, a packet for the connection is written to the handle found there, over the interface
-- that the connection was made with, and the result is that of the write; before, with no handle
-- found, it was ESP_ERR_NOT_FOUND.
pub ble_central_send_to_node_lem :
    (db : GattDb) (write : ℕ → ℕ → ℕ → List ℕ → Err) (gattc_if conn_id i h : ℕ) (bytes : List ℕ)
    (c : Central)
    → find_conn conn_id c.conns ≡ some i
    → db.char_by_uuid conn_id klip_char_cmd_uuid ≡ some h
    → (conn_at c.conns i).cmd_found ≡ false
    → (let c' = on_search_cmpl db gattc_if conn_id c in
        let used = (conn_at c.conns i).gattc_if in
        ble_central_send_to_node write conn_id bytes c'
        ≡ (write used conn_id h bytes, act (Action.write_char used conn_id h bytes) c'))
      × (ble_central_send_to_node write conn_id bytes c ≡ (Err.not_found, c))
ble_central_send_to_node_lem db write g conn_id i h bytes c e found off =
    let c' = on_search_cmpl db g conn_id c in
    let k = discover db conn_id (conn_at c.conns i) in
    let (same, there) = found-on_search_cmpl db g conn_id i c e in
    let (_, used, handle, on) = discover-cmd db conn_id h (conn_at c.conns i) found in
    let w : writable (find_conn conn_id c'.conns) c'.conns ≡ some k =
      ap (λ o. writable o c'.conns) same ∙ writable-at i k c'.conns there on in
    (
      send-writable write conn_id bytes c' k w
          ∙ ap₂ (λ a b. (write a conn_id b bytes, act (Action.write_char a conn_id b bytes) c'))
              used handle,
      send-unwritable write conn_id bytes c i e off,
    )
