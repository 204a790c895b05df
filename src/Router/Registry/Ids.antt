-- ===== src/Router/Registry/Ids.antt =====
-- Connection ids: how the lookups by connection agree with the table, with a fresh id and with an
-- id that a disconnected slot still carries.
use klippylink.Common.{
  ℕ, zero, suc, ◌+◌, ◌≡◌, sym, ap, ◌∙◌, ◌≢◌, inl, inr, true, false, none, some, List, [], ◌∷◌,
  arith, ◌==◌, ==_iff, ==_refl, ==_ne, Bool-cases, length, get_elem?,
}
use native.Mathlib.Decide.{ℕ_discrete}
use klippylink.Router.Registry.{
  Node, Registry, node_add, node_remove, find_slot, modify, disconnect, has_conn_id, is_live,
  node_id_by_conn_id, node_count_connected,
}
use klippylink.Router.Registry.Slots.{
  IsFirst, find-cases, IsFirst-find, length-modify, get_elem?-modify_self, get_elem?-modify_ne,
}
use klippylink.Router.Registry.Lookup.{Added, node_add-Added}

-- No connected slot carries the connection id.
abbrev pub IsFresh : ℕ → Registry → Type 0
IsFresh conn_id r = (j : ℕ) (n : Node) → get_elem? r j ≡ some n → is_live conn_id n ≡ false

Added-IsFirst :
    {bda : List ℕ} {conn_id : ℕ} {r s : Registry} {i : ℕ}
    → IsFresh conn_id r
    → Added bda conn_id r i s
    → IsFirst (is_live conn_id) s i
Added-IsFirst {conn_id = c} {r} {s} {i} fresh a = record {
  slot = a.slot;
  there = a.there;
  passes = rw (a.of_conn, a.live, ==_refl);
  earlier = λ j n lt e. fresh j n (sym (a.others j (omega arith)) ∙ e);
}

-- When no connected slot carries the id before the call, the slot that `node_add` returns is the one
-- that `node_id_by_conn_id` reports for the connection afterwards.
pub node_id_by_conn_id-node_add :
    (bda : List ℕ) (conn_id : ℕ) (r : Registry) (i : ℕ)
    → IsFresh conn_id r
    → (node_add bda conn_id r).0 ≡ some i
    → node_id_by_conn_id conn_id (node_add bda conn_id r).1 ≡ some i
unfolding node_id_by_conn_id
node_id_by_conn_id-node_add bda conn_id r i fresh h =
    IsFirst-find (is_live conn_id) _ i (Added-IsFirst fresh (node_add-Added bda conn_id r i h))

-- Slot `i` is the only one that carries the connection id, and it is connected.
pub record Owns (conn_id : ℕ) (r : Registry) (i : ℕ) : Type 0 where
  pub slot : Node
  pub there : get_elem? r i ≡ some slot
  pub of_conn : slot.conn_id ≡ conn_id
  pub live : slot.connected ≡ true
  pub alone : (j : ℕ) (n : Node) → get_elem? r j ≡ some n → n.conn_id ≡ conn_id → j ≡ i

pub Owns-IsFirst :
    {conn_id : ℕ} {r : Registry} {i : ℕ} → Owns conn_id r i → IsFirst (has_conn_id conn_id) r i
Owns-IsFirst {conn_id = c} {r} {i} o = record {
  slot = o.slot;
  there = o.there;
  passes = rw (o.of_conn) (==_refl c);
  earlier =
      λ j n lt e. ==_ne n.conn_id c (λ q. absurd (let z : j ≡ i = o.alone j n e q in omega arith));
}

count-modify :
    (i : ℕ) (r : Registry) (n : Node)
    → get_elem? r i ≡ some n
    → n.connected ≡ true
    → node_count_connected (modify disconnect i r) + 1 ≡ node_count_connected r
unfolding modify node_count_connected
count-modify i [] n e h = cc
count-modify zero (m ∷ r) n e h = ground arith
count-modify (suc i) (m ∷ r) n e h = ground (arith, count-modify i r n e h)

pub node_remove-eq :
    (conn_id : ℕ) (r : Registry) (i : ℕ)
    → IsFirst (has_conn_id conn_id) r i
    → node_remove conn_id r ≡ modify disconnect i r
unfolding node_remove
node_remove-eq conn_id r i f = rw (IsFirst-find (has_conn_id conn_id) r i f, node_remove)

not_live_after :
    (conn_id : ℕ) (r : Registry) (i : ℕ) (o : Owns conn_id r i) (j : ℕ) (n : Node)
    → Dec (i ≡ j)
    → get_elem? (modify disconnect i r) j ≡ some n
    → is_live conn_id n ≡ false
not_live_after c r i o j n (yes q) e =
    let e' : some (disconnect o.slot) ≡ some n =
      sym (get_elem?-modify_self disconnect i r o.slot o.there)
      ∙ ap (λ k. get_elem? (modify disconnect i r) k) q
      ∙ e in
    ground arith
not_live_after c r i o j n (no ne) e = elim (Bool-cases (n.conn_id == c)) [
  | inl h ↦ absurd (
      ne (
        sym (
          o.alone j n (sym (get_elem?-modify_ne disconnect i j r ne) ∙ e)
            ((==_iff n.conn_id c).0 h))))
  | inr h ↦ rw h
]

-- When exactly one slot carries the id of a connection and it is connected, `node_remove` of the
-- connection leaves no connected slot for it, lowers the number of connected nodes by one, and keeps
-- every other slot and the number of slots.
pub node_remove_lem :
    (conn_id : ℕ) (r : Registry) (i : ℕ)
    → Owns conn_id r i
    → (node_id_by_conn_id conn_id (node_remove conn_id r) ≡ none)
      × (node_count_connected (node_remove conn_id r) + 1 ≡ node_count_connected r)
      × ((j : ℕ) → i ≢ j → get_elem? (node_remove conn_id r) j ≡ get_elem? r j)
      × (length (node_remove conn_id r) ≡ length r)
unfolding node_id_by_conn_id
node_remove_lem conn_id r i o = rw (node_remove-eq conn_id r i (Owns-IsFirst o)) (
  none_live,
  count-modify i r o.slot o.there o.live,
  (λ j ne. get_elem?-modify_ne disconnect i j r ne),
  length-modify disconnect i r,
)
  where
    none_live : find_slot (is_live conn_id) (modify disconnect i r) 0 ≡ none
    none_live = elim (find-cases (is_live conn_id) (modify disconnect i r)) [
      | inl (j, e, f) ↦
          let l : is_live conn_id f.slot ≡ false =
            not_live_after conn_id r i o j f.slot (ℕ_discrete i j) f.there in
          absurd (let p = f.passes in ground arith)
      | inr (e, all) ↦ e
    ]
