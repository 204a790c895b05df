-- ===== src/Router/Registry/Bounds.antt =====
-- The bounds of a slot, and that an info answer and an endstop report keep them.
use klippylink.Common.{
  ℕ, zero, suc, ◌≤◌, ◌<◌, ◌≡◌, refl, ◌∙◌, subst, inl, inr, Bool, true, Option, none, some, List,
  arith, if◌then◌else◌, Bool-cases, Option-cases, length, get_or, set, length-set, length-take,
}
use klippylink.Json.{Json, eq_of_some, >>=-eq-some, eq_of_some, strlcpy}
use klippylink.Router.Registry.{
  Node, NodeNeopixel, NodeEndstop, new_node, default_name, node_set_endstop, blank_endstop,
  node_name_len,
}
use klippylink.Router.Registry.Info.{
  info_name, info_neopixel, info_endstop, info_neopixels, info_endstops, info_neopixel_part,
  info_endstop_part, node_update_info,
}

-- The arrays have their C size, the counts index inside them, and every name fits its buffer with
-- its terminating zero.
pub record IsBounded (n : Node) : Type 0 where
  pub name_fits : length n.name < node_name_len
  pub neopixels_size : length n.neopixels ≡ 4
  pub endstops_size : length n.endstops ≡ 8
  pub neopixels_used : n.neopixel_count ≤ 4
  pub endstops_used : n.endstop_count ≤ 8

-- The fields by which the table finds a slot stay as they are.
pub record Keeps (n m : Node) : Type 0 where
  pub same_bda : m.bda ≡ n.bda
  pub same_conn_id : m.conn_id ≡ n.conn_id
  pub same_connected : m.connected ≡ n.connected

pub new_node-IsBounded : (bda : List ℕ) (conn_id : ℕ) → IsBounded (new_node bda conn_id)
unfolding new_node default_name
new_node-IsBounded bda conn_id = record {
  name_fits = omega arith;
  neopixels_size = refl;
  endstops_size = refl;
  neopixels_used = omega arith;
  endstops_used = omega arith;
}

pub node_set_endstop-IsBounded :
    (idx : ℕ) (t : Bool) (n : Node) → IsBounded n → IsBounded (node_set_endstop idx t n)
unfolding node_set_endstop
node_set_endstop-IsBounded idx t n b = ground (
  arith,
  length-set n.endstops idx (record (get_or n.endstops idx blank_endstop) { triggered = t }),
)

pub node_set_endstop-Keeps : (idx : ℕ) (t : Bool) (n : Node) → Keeps n (node_set_endstop idx t n)
unfolding node_set_endstop
node_set_endstop-Keeps idx t n = ground arith

length-strlcpy-lt : (s : List ℕ) → length (strlcpy s node_name_len) < node_name_len
length-strlcpy-lt s = omega (arith, length-take 31 s)

-- What each part of an update does to a slot.
record Fine (n m : Node) : Type 0 where
  keeps : Keeps n m
  bounded : IsBounded n → IsBounded m

Fine-trans : {n m o : Node} → Fine n m → Fine m o → Fine n o
Fine-trans f g = record {
  keeps = record {
    same_bda = g.keeps.same_bda ∙ f.keeps.same_bda;
    same_conn_id = g.keeps.same_conn_id ∙ f.keeps.same_conn_id;
    same_connected = g.keeps.same_connected ∙ f.keeps.same_connected;
  };
  bounded = λ b. g.bounded (f.bounded b);
}

Fine-refl : (n : Node) → Fine n n
Fine-refl n = record {
  keeps = record { same_bda = refl; same_conn_id = refl; same_connected = refl };
  bounded = λ b. b;
}

name-Fine : (n : Node) (s : List ℕ) → Fine n (record n { name = strlcpy s node_name_len })
name-Fine n s = record {
  keeps = record { same_bda = refl; same_conn_id = refl; same_connected = refl };
  bounded = λ b. record {
    name_fits = length-strlcpy-lt s;
    neopixels_size = b.neopixels_size;
    endstops_size = b.endstops_size;
    neopixels_used = b.neopixels_used;
    endstops_used = b.endstops_used;
  };
}

neopixels-Fine :
    (n : Node) (ps : List NodeNeopixel) (k : ℕ)
    → length ps ≡ length n.neopixels
    → k ≤ 4
    → Fine n (record n { neopixels = ps; neopixel_count = k })
neopixels-Fine n ps k e h = record {
  keeps = record { same_bda = refl; same_conn_id = refl; same_connected = refl };
  bounded = λ b. record {
    name_fits = b.name_fits;
    neopixels_size = e ∙ b.neopixels_size;
    endstops_size = b.endstops_size;
    neopixels_used = h;
    endstops_used = b.endstops_used;
  };
}

endstops-Fine :
    (n : Node) (ps : List NodeEndstop) (k : ℕ)
    → length ps ≡ length n.endstops
    → k ≤ 8
    → Fine n (record n { endstops = ps; endstop_count = k })
endstops-Fine n ps k e h = record {
  keeps = record { same_bda = refl; same_conn_id = refl; same_connected = refl };
  bounded = λ b. record {
    name_fits = b.name_fits;
    neopixels_size = b.neopixels_size;
    endstops_size = e ∙ b.endstops_size;
    neopixels_used = b.neopixels_used;
    endstops_used = h;
  };
}

module _ (J : Json) where
  length-info_neopixels :
      (neo : J.Value) (k i : ℕ) (ps : List NodeNeopixel) {qs : List NodeNeopixel}
      → info_neopixels J neo k i ps ≡ some qs
      → length qs ≡ length ps
  unfolding info_neopixels
  length-info_neopixels neo zero i ps e = ground arith
  length-info_neopixels neo (suc k) i ps e =
      let (p, _, e') = >>=-eq-some (info_neopixel J _ _) _ e in
      length-info_neopixels neo k (suc i) (set ps i p) e' ∙ length-set ps i p

  length-info_endstops :
      (es : J.Value) (k i : ℕ) (ps : List NodeEndstop) {qs : List NodeEndstop}
      → info_endstops J es k i ps ≡ some qs
      → length qs ≡ length ps
  unfolding info_endstops
  length-info_endstops es zero i ps e = ground arith
  length-info_endstops es (suc k) i ps e =
      let (p, _, e') = >>=-eq-some (info_endstop J _ _) _ e in
      length-info_endstops es k (suc i) (set ps i p) e' ∙ length-set ps i p

  info_name-Fine : (v : Option J.Value) (n : Node) {m : Node} → info_name J v n ≡ some m → Fine n m
  unfolding info_name
  info_name-Fine none n e = subst (Fine n) (eq_of_some e) (Fine-refl n)
  info_name-Fine (some v) n e = elim (Bool-cases (J.is_string v)) [
    | inl h ↦
        let (s, _, e') = >>=-eq-some (J.valuestring v) _ (rw (h, if◌then◌else◌) at e) in
        subst (Fine n) (eq_of_some e') (name-Fine n s)
    | inr h ↦ subst (Fine n) (eq_of_some (rw h at e)) (Fine-refl n)
  ]

  info_neopixel_part-Fine :
      (v : Option J.Value) (n : Node) {m : Node} → info_neopixel_part J v n ≡ some m → Fine n m
  unfolding info_neopixel_part
  info_neopixel_part-Fine none n e = subst (Fine n) (eq_of_some e) (Fine-refl n)
  info_neopixel_part-Fine (some v) n e = elim (Bool-cases (J.is_array v)) [
    | inl h ↦
        let (ps, f, e') = >>=-eq-some (info_neopixels J v _ 0 n.neopixels) _ (rw h at e) in
        subst (Fine n) (eq_of_some e')
          (neopixels-Fine n ps _ (length-info_neopixels v _ 0 n.neopixels f) (omega arith))
    | inr h ↦ subst (Fine n) (eq_of_some (rw h at e)) (Fine-refl n)
  ]

  info_endstop_part-Fine :
      (v : Option J.Value) (n : Node) {m : Node} → info_endstop_part J v n ≡ some m → Fine n m
  unfolding info_endstop_part
  info_endstop_part-Fine none n e = subst (Fine n) (eq_of_some e) (Fine-refl n)
  info_endstop_part-Fine (some v) n e = elim (Bool-cases (J.is_array v)) [
    | inl h ↦
        let (ps, f, e') = >>=-eq-some (info_endstops J v _ 0 n.endstops) _ (rw h at e) in
        subst (Fine n) (eq_of_some e')
          (endstops-Fine n ps _ (length-info_endstops v _ 0 n.endstops f) (omega arith))
    | inr h ↦ subst (Fine n) (eq_of_some (rw h at e)) (Fine-refl n)
  ]

  received-Fine : (n : Node) → Fine n (record n { info_received = true })
  received-Fine n = record {
    keeps = record { same_bda = refl; same_conn_id = refl; same_connected = refl };
    bounded = λ b. record {
      name_fits = b.name_fits;
      neopixels_size = b.neopixels_size;
      endstops_size = b.endstops_size;
      neopixels_used = b.neopixels_used;
      endstops_used = b.endstops_used;
    };
  }

  update-Fine :
      (n : Node) (json : List ℕ) {m : Node} → node_update_info J n json ≡ some m → Fine n m
  unfolding node_update_info
  update-Fine n json {m} e = elim (Option-cases (J.parse json)) [
    | inl h ↦ subst (Fine n) (eq_of_some (rw (h, node_update_info) at e)) (Fine-refl n)
    | inr (root, h) ↦
        let e₀ = rw (h, node_update_info) at e in
        let (n₁, f₁, e₁) = >>=-eq-some (info_name J _ n) _ e₀ in
        let (n₂, f₂, e₂) = >>=-eq-some (info_neopixel_part J _ n₁) _ e₁ in
        let (n₃, f₃, e₃) = >>=-eq-some (info_endstop_part J _ n₂) _ e₂ in
        subst (Fine n) (eq_of_some e₃) (
          Fine-trans (info_name-Fine _ n f₁) (
            Fine-trans (info_neopixel_part-Fine _ n₁ f₂)
              (Fine-trans (info_endstop_part-Fine _ n₂ f₃) (received-Fine n₃))))
  ]

  pub node_update_info-IsBounded :
      (n : Node) (json : List ℕ) {m : Node}
      → IsBounded n
      → node_update_info J n json ≡ some m
      → IsBounded m × Keeps n m
  node_update_info-IsBounded n json b e = let f = update-Fine n json e in (f.bounded b, f.keeps)

  pub node_update_info-Keeps :
      (n : Node) (json : List ℕ) {m : Node} → node_update_info J n json ≡ some m → Keeps n m
  node_update_info-Keeps n json e = (update-Fine n json e).keeps
