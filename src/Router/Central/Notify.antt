-- ===== src/Router/Central/Notify.antt =====
-- What the router does with a notification of a node: the callback's case `ESP_GATTC_NOTIFY_EVT`.
use klippylink.Common.{
  ℕ, zero, suc, ◌<◌, ◌≡◌, refl, sym, ap, ap₂, ◌∙◌, subst, inl, inr, Bool, true, ◌&&◌, Option, none,
  some, List, [], ◌∷◌, ◌++◌, arith, ◌==◌, Option-cases, length, get_elem?, take, take-all,
}
use klippylink.Json.{Json, >>=-eq-some, eq_of_some}
use klippylink.Protocol.{u8, packet_command}
use klippylink.Protocol.Codes.{command_of}
use klippylink.Router.Registry.{
  Node, Registry, find_slot, modify, is_live, node_by_conn_id, node_id_by_conn_id,
}
use klippylink.Router.Registry.Bounds.{Keeps}
use klippylink.Router.Central.Updates.{take_command-Kept}
use klippylink.Router.Central.{Action, Central, is_packet, on_notify, take_command, update_node}

-- A write that does not change a test's answer does not change a search by it.
find_slot-modify :
    (p : Node → Bool) (f : Node → Node) (i : ℕ) (r : Registry) (j : ℕ) (n : Node)
    → get_elem? r i ≡ some n
    → p (f n) ≡ p n
    → find_slot p (modify f i r) j ≡ find_slot p r j
unfolding find_slot modify
find_slot-modify p f i [] j n e h = refl
find_slot-modify p f zero (m ∷ r) j n e h =
    let q : n ≡ m = sym (eq_of_some e) in rw (subst (λ x. p (f x) ≡ p x) q h) refl
find_slot-modify p f (suc i) (m ∷ r) j n e h = rw (find_slot-modify p f i r (suc j) n e h) refl

module _ (J : Json) where
  Keeps-is_live : (conn_id : ℕ) {n m : Node} → Keeps n m → is_live conn_id m ≡ is_live conn_id n
  Keeps-is_live conn_id k = ap₂ (λ a b. a == conn_id && b) k.same_conn_id k.same_connected

  -- The update behind a notification leaves every connected node under its id.
  update_node-same_id :
      (o : Option ℕ) (conn_id : ℕ) (value : List ℕ) (r r' : Registry)
      → update_node J o value r ≡ some r'
      → node_id_by_conn_id conn_id r' ≡ node_id_by_conn_id conn_id r
  unfolding update_node node_id_by_conn_id
  update_node-same_id none conn_id value r r' h =
      ap (λ s. find_slot (is_live conn_id) s 0) (sym (eq_of_some h))
  update_node-same_id (some i) conn_id value r r' h = elim (Option-cases (get_elem? r i)) [
    | inl e ↦
        ap (λ s. find_slot (is_live conn_id) s 0) (sym (eq_of_some (rw (e, update_node) at h)))
    | inr (n, e) ↦
        let (m, em, er) =
          >>=-eq-some (take_command J (command_of (packet_command value)) value n) _
            (rw (e, update_node) at h) in
        subst (λ s. find_slot (is_live conn_id) s 0 ≡ find_slot (is_live conn_id) r 0)
          (eq_of_some er)
          (find_slot-modify (is_live conn_id) (λ x. m) i r 0 n e
            (Keeps-is_live conn_id
              (take_command-Kept J (command_of (packet_command value)) value n m em).1))
  ]

  -- A notification of a connected node that holds a packet, is shorter than 256 bytes, and is taken
  -- without a fault: it is sent to the host as it is, marked with the node's id, then given to the
  -- response callback, and nothing else is called; the node keeps its id, and the connections are
  -- as they were.
  pub on_notify_lem :
      (conn_id : ℕ) (value : List ℕ) (c c' : Central) (nid : ℕ)
      → is_packet value ≡ true
      → length value < 256
      → node_id_by_conn_id conn_id c.registry ≡ some nid
      → on_notify J conn_id value c ≡ some c'
      → (c'.actions
          ≡ (c.actions ++ Action.emit (u8 nid) value ∷ []) ++ Action.response conn_id value ∷ [])
        × (node_id_by_conn_id conn_id c'.registry ≡ some nid)
        × (c'.conns ≡ c.conns)
  unfolding on_notify
  on_notify_lem conn_id value c c' nid p short known h =
      let (r, er, ec) =
        >>=-eq-some (update_node J (node_by_conn_id conn_id c.registry) value c.registry) _
          (rw p at h) in
      let id : node_id_by_conn_id conn_id r ≡ some nid =
        update_node-same_id _ conn_id value c.registry r er ∙ known in
      let whole : take (u8 (length value)) value ≡ value =
        take-all (u8 (length value)) value (omega arith) in
      subst
        (λ x.
          (x.actions
            ≡ (c.actions ++ Action.emit (u8 nid) value ∷ []) ++ Action.response conn_id value ∷ [])
          × (node_id_by_conn_id conn_id x.registry ≡ some nid)
          × (x.conns ≡ c.conns))
        (eq_of_some ec) (rw (id, whole) (refl, id, refl))
