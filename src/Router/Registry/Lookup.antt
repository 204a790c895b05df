-- ===== src/Router/Registry/Lookup.antt =====
-- What `node_add` and `node_remove` do to the table, and what the lookups find afterwards.
use klippylink.Common.{
  ℕ, zero, suc, ◌≤◌, ◌<◌, ◌≡◌, refl, sym, ap, ◌≢◌, inl, inr, true, false, none, some, List, [], ◌∷◌,
  ◌++◌, arith, ltb, ltb→lt, ltb→le, Bool-cases, length, get_elem?, get_elem?-append_last,
}
use klippylink.Router.Registry.{
  Node, Registry, node_add, new_node, modify, reconnect, is_reusable, node_max_count,
}
use klippylink.Router.Registry.Slots.{
  IsFirst, find-cases, get_elem?-modify_self, get_elem?-modify_ne, eq_of_bytes_eq,
}

-- The three branches of `node_add`.
pub data Branch (bda : List ℕ) (conn_id : ℕ) (r : Registry) : Type 0 where
  reused :
      (i : ℕ)
      → IsFirst (is_reusable bda) r i
      → node_add bda conn_id r ≡ (some i, modify (reconnect conn_id) i r)
      → Branch bda conn_id r
  appended :
      ((j : ℕ) (n : Node) → get_elem? r j ≡ some n → is_reusable bda n ≡ false)
      → length r < node_max_count
      → node_add bda conn_id r ≡ (some (length r), r ++ (new_node bda conn_id ∷ []))
      → Branch bda conn_id r
  refused :
      ((j : ℕ) (n : Node) → get_elem? r j ≡ some n → is_reusable bda n ≡ false)
      → node_max_count ≤ length r
      → node_add bda conn_id r ≡ (none, r)
      → Branch bda conn_id r

pub node_add-cases : (bda : List ℕ) (conn_id : ℕ) (r : Registry) → Branch bda conn_id r
unfolding node_add
node_add-cases bda conn_id r = elim (find-cases (is_reusable bda) r) [
  | inl (i, e, f) ↦ Branch.reused i f (rw (e, node_add))
  | inr (e, all) ↦ elim (Bool-cases (ltb (length r) node_max_count)) [
    | inl h ↦ Branch.appended all (ltb→lt _ _ h) (rw (e, node_add) (rw h))
    | inr h ↦ Branch.refused all (ltb→le _ _ h) (rw (e, node_add) (rw h))
  ]
]

-- Slot `i` belongs to the address and the connection, and every other slot is as it was.
pub record Added (bda : List ℕ) (conn_id : ℕ) (r : Registry) (i : ℕ) (s : Registry) : Type 0 where
  pub slot : Node
  pub there : get_elem? s i ≡ some slot
  pub of_bda : slot.bda ≡ bda
  pub of_conn : slot.conn_id ≡ conn_id
  pub live : slot.connected ≡ true
  pub others : (j : ℕ) → j ≢ i → get_elem? s j ≡ get_elem? r j

is_reusable-bda : (bda : List ℕ) (n : Node) → is_reusable bda n ≡ true → n.bda ≡ bda
is_reusable-bda bda n h = eq_of_bytes_eq n.bda bda (ground arith)

get_elem?-append_ne :
    (r : Registry) (n : Node) (j : ℕ) → j ≢ length r → get_elem? (r ++ (n ∷ [])) j ≡ get_elem? r j
get_elem?-append_ne [] n zero h = absurd (h refl)
get_elem?-append_ne [] n (suc j) h = refl
get_elem?-append_ne (m ∷ r) n zero h = refl
get_elem?-append_ne (m ∷ r) n (suc j) h = get_elem?-append_ne r n j (λ e. h (ap suc e))

reused-Added :
    (bda : List ℕ) (conn_id : ℕ) (r : Registry) (i : ℕ)
    → IsFirst (is_reusable bda) r i
    → Added bda conn_id r i (modify (reconnect conn_id) i r)
reused-Added bda conn_id r i f = record {
  slot = reconnect conn_id f.slot;
  there = get_elem?-modify_self (reconnect conn_id) i r f.slot f.there;
  of_bda = is_reusable-bda bda f.slot f.passes;
  of_conn = refl;
  live = refl;
  others = λ j ne. get_elem?-modify_ne (reconnect conn_id) i j r (λ e. ne (sym e));
}

appended-Added :
    (bda : List ℕ) (conn_id : ℕ) (r : Registry)
    → Added bda conn_id r (length r) (r ++ (new_node bda conn_id ∷ []))
unfolding new_node
appended-Added bda conn_id r = record {
  slot = new_node bda conn_id;
  there = get_elem?-append_last r (new_node bda conn_id);
  of_bda = refl;
  of_conn = refl;
  live = refl;
  others = λ j ne. get_elem?-append_ne r (new_node bda conn_id) j ne;
}

-- When `node_add` returns a slot, that slot carries the address and the connection and is connected,
-- and no other slot has changed.
pub node_add-Added :
    (bda : List ℕ) (conn_id : ℕ) (r : Registry) (i : ℕ)
    → (node_add bda conn_id r).0 ≡ some i
    → Added bda conn_id r i (node_add bda conn_id r).1
node_add-Added bda conn_id r i h = elim (node_add-cases bda conn_id r) [
  | Branch.reused j f e ↦
      let q : j ≡ i = ground arith in rw (e, ← q) (reused-Added bda conn_id r j f)
  | Branch.appended all lt e ↦
      let q : length r ≡ i = ground arith in rw (e, ← q) (appended-Added bda conn_id r)
  | Branch.refused all ge e ↦ absurd (ground arith)
]
