-- ===== src/Router/Registry/History.antt =====
-- The node table over any history of its operations.
use klippylink.Common.{
  ℕ, zero, suc, ◌≤◌, ◌<◌, ◌≡◌, refl, sym, ap, ◌∙◌, subst, ◌≢◌, inl, inr, Bool, false, none, some,
  List, [], ◌∷◌, ◌++◌, arith, Option-cases, length, get_elem?, length-append,
}
use klippylink.Json.{Json}
use native.Mathlib.Decide.{ℕ_discrete}
use klippylink.Router.Registry.{
  Node, Registry, node_registry_init, node_add, node_remove, new_node, find_slot, modify, reconnect,
  disconnect, is_reusable, has_conn_id, node_max_count, node_set_endstop,
}
use klippylink.Router.Registry.Info.{node_update_info}
use klippylink.Router.Registry.Bounds.{
  IsBounded, new_node-IsBounded, node_set_endstop-IsBounded, node_set_endstop-Keeps,
  node_update_info-IsBounded, node_update_info-Keeps,
}
use klippylink.Router.Registry.Slots.{
  IsFirst, find-cases, IsFirst-find, lt_of_get_elem?, length-modify, get_elem?-modify_self,
  get_elem?-modify_ne, get_elem?-append_left, get_elem?-append_cases, bytes_eq_refl,
}
use klippylink.Router.Registry.Lookup.{Branch, node_add-cases}
use klippylink.Router.Registry.Ids.{Owns, Owns-IsFirst, node_remove-eq}

-- One call of node_registry.c that changes the table. A slot is written only where it is in use.
pub data Step (J : Json) (r : Registry) : Registry → Type 1 where
  add : (bda : List ℕ) (conn_id : ℕ) → Step J r (node_add bda conn_id r).1
  remove : (conn_id : ℕ) → Step J r (node_remove conn_id r)
  endstop : (i idx : ℕ) (t : Bool) → Step J r (modify (node_set_endstop idx t) i r)
  info :
      (i : ℕ) (n m : Node) (json : List ℕ)
      → get_elem? r i ≡ some n
      → node_update_info J n json ≡ some m
      → Step J r (modify (λ _. m) i r)

pub data Reach (J : Json) (r : Registry) : Registry → Type 1 where
  here : Reach J r r
  next : {s t : Registry} → Reach J r s → Step J s t → Reach J r t

-- The table is not over-full and each slot is within its bounds.
pub record IsValid (r : Registry) : Type 0 where
  pub room : length r ≤ node_max_count
  pub slots : (i : ℕ) (n : Node) → get_elem? r i ≡ some n → IsBounded n

-- Every slot in use stays in use, at its index and for its address.
pub record Stable (r s : Registry) : Type 0 where
  pub grows : length r ≤ length s
  pub keeps :
      (i : ℕ) (n : Node)
      → get_elem? r i ≡ some n
      → (m : Node) × (get_elem? s i ≡ some m) × (m.bda ≡ n.bda)

pub Stable-refl : (r : Registry) → Stable r r
Stable-refl r = record { grows = omega arith; keeps = λ i n e. (n, e, refl) }

pub Stable-trans : {r s t : Registry} → Stable r s → Stable s t → Stable r t
Stable-trans {r} {s} {t} f g = record { grows = omega (arith, f.grows, g.grows); keeps = go }
  where
    go :
        (i : ℕ) (n : Node)
        → get_elem? r i ≡ some n
        → (m : Node) × (get_elem? t i ≡ some m) × (m.bda ≡ n.bda)
    go i n e =
        let (m, e₁, q₁) = f.keeps i n e in let (k, e₂, q₂) = g.keeps i m e₁ in (k, e₂, q₂ ∙ q₁)

-- A write that keeps the address of its slot.
pub modify-Stable :
    (f : Node → Node) (i : ℕ) (r : Registry)
    → ((n : Node) → get_elem? r i ≡ some n → (f n).bda ≡ n.bda)
    → Stable r (modify f i r)
modify-Stable f i r h = record { grows = omega (arith, length-modify f i r); keeps = go }
  where
    at :
        (j : ℕ) (n : Node)
        → Dec (i ≡ j)
        → get_elem? r j ≡ some n
        → (m : Node) × (get_elem? (modify f i r) j ≡ some m) × (m.bda ≡ n.bda)
    at j n (yes q) e =
        let e' : get_elem? r i ≡ some n = rw q e in
        (f n, rw (← q) (get_elem?-modify_self f i r n e'), h n e')
    at j n (no ne) e = (n, get_elem?-modify_ne f i j r ne ∙ e, refl)

    go :
        (j : ℕ) (n : Node)
        → get_elem? r j ≡ some n
        → (m : Node) × (get_elem? (modify f i r) j ≡ some m) × (m.bda ≡ n.bda)
    go j n e = at j n (ℕ_discrete i j) e

pub modify-IsValid :
    (f : Node → Node) (i : ℕ) (r : Registry)
    → ((n : Node) → get_elem? r i ≡ some n → IsBounded n → IsBounded (f n))
    → IsValid r
    → IsValid (modify f i r)
modify-IsValid f i r h v = record { room = omega (arith, length-modify f i r, v.room); slots = go }
  where
    at : (j : ℕ) (m : Node) → Dec (i ≡ j) → get_elem? (modify f i r) j ≡ some m → IsBounded m
    at j m (no ne) e = v.slots j m (sym (get_elem?-modify_ne f i j r ne) ∙ e)
    at j m (yes q) e = elim (Option-cases (get_elem? r i)) [
      | inl none_there ↦ absurd (
          let z = lt_of_get_elem? (modify f i r) j m e in
          let y : i < length r = omega (arith, length-modify f i r) in present r i y none_there)
      | inr (n, there) ↦
          let p : some (f n) ≡ some m =
            sym (get_elem?-modify_self f i r n there)
            ∙ (ap (λ k. get_elem? (modify f i r) k) q ∙ e) in
          subst IsBounded (ground arith) (h n there (v.slots i n there))
    ]
      where
        present : (r : Registry) (i : ℕ) → i < length r → get_elem? r i ≢ none
        present [] i lt = elim lt [ ]
        present (x ∷ xs) zero lt = λ e. cc
        present (x ∷ xs) (suc i) lt = present xs i (omega arith)

    go : (j : ℕ) (m : Node) → get_elem? (modify f i r) j ≡ some m → IsBounded m
    go j m e = at j m (ℕ_discrete i j) e

reconnect-IsBounded : (conn_id : ℕ) (n : Node) → IsBounded n → IsBounded (reconnect conn_id n)
reconnect-IsBounded conn_id n b = record {
  name_fits = b.name_fits;
  neopixels_size = b.neopixels_size;
  endstops_size = b.endstops_size;
  neopixels_used = b.neopixels_used;
  endstops_used = b.endstops_used;
}

disconnect-IsBounded : (n : Node) → IsBounded n → IsBounded (disconnect n)
disconnect-IsBounded n b = record {
  name_fits = b.name_fits;
  neopixels_size = b.neopixels_size;
  endstops_size = b.endstops_size;
  neopixels_used = b.neopixels_used;
  endstops_used = b.endstops_used;
}

append-Stable : (r : Registry) (n : Node) → Stable r (r ++ (n ∷ []))
append-Stable r n = record {
  grows = omega (arith, length-append r (n ∷ []));
  keeps = λ i m e. (m, get_elem?-append_left r (n ∷ []) i m e, refl);
}

append-IsValid :
    (r : Registry) (n : Node)
    → length r < node_max_count
    → IsBounded n
    → IsValid r
    → IsValid (r ++ (n ∷ []))
append-IsValid r n h b v = record {
  room = omega (arith, length-append r (n ∷ []));
  slots = λ i m e. elim (get_elem?-append_cases r n m i e) [
    | inl old ↦ v.slots i m old
    | inr (_, q) ↦ subst IsBounded (sym q) b
  ];
}

-- What each operation does to a table that keeps its invariant.
abbrev pub Both : Registry → Registry → Type 0
Both r s = (IsValid r → IsValid s) × Stable r s

pub add-Both : (bda : List ℕ) (conn_id : ℕ) (r : Registry) → Both r (node_add bda conn_id r).1
add-Both bda conn_id r = elim (node_add-cases bda conn_id r) [
  | Branch.reused i f e ↦ rw e (
    modify-IsValid (reconnect conn_id) i r (λ n _ b. reconnect-IsBounded conn_id n b),
    modify-Stable (reconnect conn_id) i r (λ n _. refl),
  )
  | Branch.appended all lt e ↦ rw e (
    append-IsValid r (new_node bda conn_id) lt (new_node-IsBounded bda conn_id),
    append-Stable r (new_node bda conn_id),
  )
  | Branch.refused all ge e ↦ rw e ((λ v. v), Stable-refl r)
]

pub remove-Both : (conn_id : ℕ) (r : Registry) → Both r (node_remove conn_id r)
unfolding node_remove
remove-Both conn_id r = elim (find-cases (has_conn_id conn_id) r) [
  | inl (i, e, f) ↦
      rw (e, node_remove)
        (
          modify-IsValid disconnect i r (λ n _ b. disconnect-IsBounded n b),
          modify-Stable disconnect i r (λ n _. refl),
        )
  | inr (e, all) ↦ rw (e, node_remove) ((λ v. v), Stable-refl r)
]

pub Step-Both : {J : Json} {r s : Registry} → Step J r s → Both r s
Step-Both {r = r} (add bda conn_id) = add-Both bda conn_id r
Step-Both {r = r} (remove conn_id) = remove-Both conn_id r
Step-Both {r = r} (endstop i idx t) = (
  modify-IsValid (node_set_endstop idx t) i r (λ n _ b. node_set_endstop-IsBounded idx t n b),
  modify-Stable (node_set_endstop idx t) i r (λ n _. (node_set_endstop-Keeps idx t n).same_bda),
)
Step-Both {J} {r} (info i n m json there e) = (
  modify-IsValid (λ _. m) i r
      (λ k at b. (node_update_info-IsBounded J k json b (rw (same k at) e)).0),
  modify-Stable (λ _. m) i r (λ k at. kept k at),
)
  where
    same : (k : Node) → get_elem? r i ≡ some k → k ≡ n
    same k at = ground arith

    kept : (k : Node) → get_elem? r i ≡ some k → m.bda ≡ k.bda
    kept k at = rw (same k at) ((node_update_info-Keeps J n json e).same_bda)

-- Over any history of operations the table keeps at most 8 slots, all within their bounds, and every
-- slot in use stays in use at its index for the same address.
pub Reach-Stable : {J : Json} {r s : Registry} → IsValid r → Reach J r s → IsValid s × Stable r s
Reach-Stable {r = r} v here = (v, Stable-refl r)
Reach-Stable v (next h st) =
    let (w, f) = Reach-Stable v h in let (g, k) = Step-Both st in (g w, Stable-trans f k)

pub node_registry_init-IsValid : IsValid node_registry_init
unfolding node_registry_init
node_registry_init-IsValid = record { room = omega arith; slots = λ i n e. cc }

-- A node that is connected in slot `i`, the only slot with its connection id, and disconnects, gets
-- slot `i` back when its address connects again under any id, if no earlier slot is a disconnected
-- one of that address.
pub node_add-node_remove :
    (bda : List ℕ) (conn_id other : ℕ) (r : Registry) (i : ℕ) (o : Owns conn_id r i)
    → o.slot.bda ≡ bda
    → ((j : ℕ) (n : Node) → j < i → get_elem? r j ≡ some n → is_reusable bda n ≡ false)
    → (node_add bda other (node_remove conn_id r)).0 ≡ some i
unfolding node_add
node_add-node_remove bda c other r i o q before =
    rw (node_remove-eq c r i (Owns-IsFirst o)) (rw (found, node_add))
  where
    first : IsFirst (is_reusable bda) (modify disconnect i r) i
    first = record {
      slot = disconnect o.slot;
      there = get_elem?-modify_self disconnect i r o.slot o.there;
      passes = rw q (bytes_eq_refl bda);
      earlier =
          λ j n lt e. before j n lt (sym (get_elem?-modify_ne disconnect i j r (omega arith)) ∙ e);
    }

    found : find_slot (is_reusable bda) (modify disconnect i r) 0 ≡ some i
    found = IsFirst-find (is_reusable bda) (modify disconnect i r) i first
