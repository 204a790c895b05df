-- ===== src/Router/Central/Tables.antt =====
-- What each event of the Bluetooth stack does to the node table and the connection table.
use klippylink.Common.{
  ℕ, ◌≤◌, ◌≡◌, refl, sym, ap, ◌∙◌, subst, inl, inr, ◌&&◌, Option, none, some, List, [], ◌∷◌, ◌++◌,
  arith, leb, ◌==◌, leb→lt, Bool-cases, Option-cases, length, get_elem?, length-append, length-set,
}
use klippylink.Esp.{Err}
use klippylink.Json.{Json, >>=-eq-some, eq_of_some}
use klippylink.Protocol.{Command, packet_command, packet_magic}
use klippylink.Protocol.Codes.{command_of}
use klippylink.Router.Registry.{
  Node, Registry, node_add, node_by_conn_id, node_id_by_conn_id, modify,
}
use klippylink.Router.Registry.History.{
  modify-IsValid, modify-Stable, Both, Stable-refl, add-Both, remove-Both,
}
use klippylink.Router.Central.Conns.{
  Conn, max_conns, new_conn, find_conn, alloc_conn, free_conn, conn_at,
}
use klippylink.Router.Central.{
  Central, GattDb, on_connect, add_conn, add_node, tell_host, on_search_cmpl, discover,
  on_disconnect, on_scan_result, ble_central_send_to_node, writable, is_packet, forward, on_notify,
  update_node, take_command,
}
use klippylink.Router.Registry.Bounds.{IsBounded}
use klippylink.Router.Central.Updates.{Kept, take_command-Kept}
use klippylink.Router.Central.Discovery.{conns-on_search_cmpl}

-- What a step does to the two tables.
pub record Sound (c d : Central) : Type 0 where
  pub nodes : Both c.registry d.registry
  pub room : length c.conns ≤ max_conns → length d.conns ≤ max_conns

Both-refl : (r : Registry) → Both r r
Both-refl r = ((λ v. v), Stable-refl r)

-- A step that changes neither table.
pub same_tables : (c d : Central) → d.registry ≡ c.registry → d.conns ≡ c.conns → Sound c d
same_tables c d r k = record { nodes = rw r (Both-refl c.registry); room = λ h. rw k h }

tables-tell_host :
    (o : Option ℕ) (cmd : Command) (c : Central)
    → ((tell_host o cmd c).registry ≡ c.registry) × ((tell_host o cmd c).conns ≡ c.conns)
tables-tell_host none cmd c = (refl, refl)
tables-tell_host (some i) cmd c = (refl, refl)

tables-add_node :
    (g conn_id : ℕ) (out : Option ℕ × Registry) (c : Central)
    → ((add_node g conn_id out c).registry ≡ out.1) × ((add_node g conn_id out c).conns ≡ c.conns)
tables-add_node g conn_id (none, r) c = (refl, refl)
tables-add_node g conn_id (some i, r) c =
    tables-tell_host (node_id_by_conn_id conn_id r) Command.ping (record c { registry = r })

pub on_connect-Sound :
    (g conn_id : ℕ) (bda : List ℕ) (c : Central) → Sound c (on_connect g conn_id bda c)
unfolding on_connect alloc_conn
on_connect-Sound g conn_id bda c = elim (Bool-cases (leb 8 (length c.conns))) [
  | inl full ↦ rw (full, add_conn) (same_tables c c refl refl)
  | inr space ↦
      let out = node_add bda conn_id c.registry in
      let c₁ : Central = record c { conns = c.conns ++ new_conn conn_id g ∷ [] } in
      let (r, k) = tables-add_node g conn_id out c₁ in
      let less = leb→lt _ _ space in
      rw (space, add_conn)
        (record {
          nodes = rw r (add-Both bda conn_id c.registry);
          room = λ h. rw k (omega (arith, length-append c.conns (new_conn conn_id g ∷ [])));
        })
]

length-free_conn : (conn_id : ℕ) (cs : List Conn) → length (free_conn conn_id cs) ≤ length cs
unfolding free_conn
length-free_conn conn_id [] = omega arith
length-free_conn conn_id (k ∷ cs) = elim (Bool-cases (k.conn_id == conn_id)) [
  | inl e ↦ rw e (omega arith)
  | inr e ↦ rw e (omega (arith, length-free_conn conn_id cs))
]

pub on_disconnect-Sound : (conn_id : ℕ) (c : Central) → Sound c (on_disconnect conn_id c)
unfolding on_disconnect
on_disconnect-Sound conn_id c = record {
  nodes = remove-Both conn_id c.registry;
  room = λ h. omega (arith, length-free_conn conn_id c.conns);
}

search_none :
    (db : GattDb) (g conn_id : ℕ) (c : Central)
    → find_conn conn_id c.conns ≡ none
    → on_search_cmpl db g conn_id c ≡ c
unfolding on_search_cmpl
search_none db g conn_id c e = rw e refl

registry-on_search_cmpl :
    (db : GattDb) (g conn_id : ℕ) (c : Central) (i : ℕ)
    → find_conn conn_id c.conns ≡ some i
    → (on_search_cmpl db g conn_id c).registry ≡ c.registry
unfolding on_search_cmpl
registry-on_search_cmpl db g conn_id c i e =
    let k = discover db conn_id (conn_at c.conns i) in
    elim (Bool-cases k.cccd_found) [
      | inl a ↦ elim (Bool-cases k.cmd_found) [
        | inl b ↦ rw (e, a, b) refl
        | inr b ↦ rw (e, a, b) refl
      ]
      | inr a ↦ elim (Bool-cases k.cmd_found) [
        | inl b ↦ rw (e, a, b) refl
        | inr b ↦ rw (e, a, b) refl
      ]
    ]

pub on_search_cmpl-Sound :
    (db : GattDb) (g conn_id : ℕ) (c : Central) → Sound c (on_search_cmpl db g conn_id c)
on_search_cmpl-Sound db g conn_id c = elim (Option-cases (find_conn conn_id c.conns)) [
  | inl e ↦
      let same : on_search_cmpl db g conn_id c ≡ c = search_none db g conn_id c e in
      rw same (same_tables c c refl refl)
  | inr (i, e) ↦ record {
    nodes = rw (registry-on_search_cmpl db g conn_id c i e) (Both-refl c.registry);
    room = λ h.
        rw (conns-on_search_cmpl db g conn_id c i e)
          (omega (arith, length-set c.conns i (discover db conn_id (conn_at c.conns i))));
  }
]

pub on_scan_result-Sound :
    (adv : Option (List ℕ)) (bda : List ℕ) (c : Central) → Sound c (on_scan_result adv bda c)
unfolding on_scan_result
on_scan_result-Sound none bda c = same_tables c c refl refl
on_scan_result-Sound (some adv) bda c =
    elim (Bool-cases (leb 2 (length adv) && packet_magic adv == 0x4B4C)) [
      | inl e ↦ rw e (same_tables c _ refl refl)
      | inr e ↦ rw e (same_tables c c refl refl)
    ]

pub send-Sound :
    (write : ℕ → ℕ → ℕ → List ℕ → Err) (conn_id : ℕ) (bytes : List ℕ) (c : Central)
    → Sound c (ble_central_send_to_node write conn_id bytes c).1
unfolding ble_central_send_to_node
send-Sound write conn_id bytes c =
    elim (Option-cases (writable (find_conn conn_id c.conns) c.conns)) [
      | inl e ↦ rw (e, ble_central_send_to_node) (same_tables c c refl refl)
      | inr (k, e) ↦ rw (e, ble_central_send_to_node) (same_tables c _ refl refl)
    ]

Kept-Both :
    (i : ℕ) (n m : Node) (r : Registry)
    → get_elem? r i ≡ some n
    → Kept n m
    → Both r (modify (λ _. m) i r)
Kept-Both i n m r at (f, q) = (
  modify-IsValid (λ _. m) i r (λ k e b. f (subst IsBounded (eq_of_some (sym e ∙ at)) b)),
  modify-Stable (λ _. m) i r (λ k e. q.same_bda ∙ ap (λ x. x.bda) (eq_of_some (sym at ∙ e))),
)

module _ (J : Json) where
  update_node-Both :
      (o : Option ℕ) (value : List ℕ) (r r' : Registry)
      → update_node J o value r ≡ some r'
      → Both r r'
  unfolding update_node
  update_node-Both none value r r' h = subst (Both r) (eq_of_some h) (Both-refl r)
  update_node-Both (some i) value r r' h = elim (Option-cases (get_elem? r i)) [
    | inl e ↦ subst (Both r) (eq_of_some (rw (e, update_node) at h)) (Both-refl r)
    | inr (n, e) ↦
        let (m, em, er) =
          >>=-eq-some (take_command J (command_of (packet_command value)) value n) _
            (rw (e, update_node) at h) in
        subst (Both r) (eq_of_some er) (
          Kept-Both i n m r e
            (take_command-Kept J (command_of (packet_command value)) value n m em))
  ]

  tables-forward :
      (o : Option ℕ) (value : List ℕ) (c : Central)
      → ((forward o value c).registry ≡ c.registry) × ((forward o value c).conns ≡ c.conns)
  tables-forward none value c = (refl, refl)
  tables-forward (some i) value c = (refl, refl)

  pub on_notify-Sound :
      (conn_id : ℕ) (value : List ℕ) (c c' : Central)
      → on_notify J conn_id value c ≡ some c'
      → Sound c c'
  unfolding on_notify
  on_notify-Sound conn_id value c c' h = elim (Bool-cases (is_packet value)) [
    | inr off ↦ subst (Sound c) (eq_of_some (rw off at h)) (same_tables c c refl refl)
    | inl p ↦
        let (r, er, ec) =
          >>=-eq-some (update_node J (node_by_conn_id conn_id c.registry) value c.registry) _
            (rw p at h) in
        let (fr, fk) =
          tables-forward (node_id_by_conn_id conn_id r) value (record c { registry = r }) in
        subst (Sound c) (eq_of_some ec) (record {
          nodes =
              rw fr (update_node-Both (node_by_conn_id conn_id c.registry) value c.registry r er);
          room = λ k. rw fk k;
        })
  ]
