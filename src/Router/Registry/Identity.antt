-- ===== src/Router/Registry/Identity.antt =====
-- A node id of node_registry.c belongs to one device for good.
use klippylink.Common.{
  ℕ, ◌≡◌, sym, ap, ◌∙◌, ◌≢◌, ◌⊎◌, inl, inr, some, List, Option-cases, get_elem?,
}
use native.Mathlib.Decide.{ℕ_discrete}
use klippylink.Json.{Json, eq_of_some, none≢some}
use klippylink.Router.Registry.{Node, Registry, node_add}
use klippylink.Router.Registry.Lookup.{node_add-Added}
use klippylink.Router.Registry.History.{
  Reach, IsValid, Stable, Stable-trans, add-Both, Reach-Stable,
}

-- A slot that `node_add` gives out, and the address that it was given out for before.
same_bda :
    (s : Registry) {i : ℕ} {bda : List ℕ} (bda' : List ℕ) (conn' : ℕ) (n : Node)
    → get_elem? s i ≡ some n
    → n.bda ≡ bda
    → (node_add bda' conn' s).0 ≡ some i
    → bda' ≡ bda
same_bda s {i} bda' conn' n there of h =
    let a = node_add-Added bda' conn' s i h in
    let (m, e, q) = (add-Both bda' conn' s).1.keeps i n there in
    let same : m ≡ a.slot = eq_of_some (sym e ∙ a.there) in
    sym a.of_bda ∙ ap (λ x. x.bda) (sym same) ∙ q ∙ of

-- Once `node_add` has given the slot `i` to an address, on a table in order, then over any history of
-- operations the table keeps at most 8 slots, all within their bounds, and every slot in use stays in
-- use for its address; and after it `node_add` gives slot `i` to no other address: a node id never
-- changes its node.
pub Reach-node_add :
    {J : Json} {r s : Registry} (bda : List ℕ) (conn i : ℕ)
    → IsValid r
    → (node_add bda conn r).0 ≡ some i
    → Reach J (node_add bda conn r).1 s
    → IsValid s
      × Stable r s
      × ((bda' : List ℕ) (conn' : ℕ) → ((node_add bda' conn' s).0 ≢ some i) ⊎ (bda' ≡ bda))
Reach-node_add {r = r} {s} bda conn i v h run =
    let a = node_add-Added bda conn r i h in
    let (keep, first) = add-Both bda conn r in
    let (w, stable) = Reach-Stable (keep v) run in
    let (n, there, of) = stable.keeps i a.slot a.there in
    (w, Stable-trans first stable, λ bda' conn'. owner n there (of ∙ a.of_bda) bda' conn')
  where
    owner :
        (n : Node)
        → get_elem? s i ≡ some n
        → n.bda ≡ bda
        → (bda' : List ℕ) (conn' : ℕ) → ((node_add bda' conn' s).0 ≢ some i) ⊎ (bda' ≡ bda)
    owner n there of bda' conn' = elim (Option-cases (node_add bda' conn' s).0) [
      | inl e ↦ inl (λ q. none≢some (sym e ∙ q))
      | inr (k, e) ↦ elim (ℕ_discrete k i) [
        | yes q ↦ inr (same_bda s bda' conn' n there of (e ∙ ap some q))
        | no ne ↦ inl (λ q. ne (eq_of_some (sym e ∙ q)))
      ]
    ]
