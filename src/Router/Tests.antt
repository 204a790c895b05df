-- ===== src/Router/Tests.antt =====
-- The router on concrete tables, frames and images.
use klippylink.Common.{
  ℕ, zero, suc, ◌≡◌, refl, sym, ap, subst, ◌≢◌, ◌⊎◌, inr, Bool, true, false, Option, none, some,
  List, [], ◌∷◌, arith, ◌==◌, if◌then◌else◌, length, get_elem?, replicate,
}
use klippylink.Json.{Json, eq_of_some}
use klippylink.Router.Registry.{
  Node, Registry, node_registry_init, node_add, node_remove, blank_neopixel, blank_endstop,
  find_slot, bytes_eq, is_live,
}
use klippylink.Router.Registry.Ids.{IsFresh}
use klippylink.Router.Registry.History.{Step, Reach, Stable, node_registry_init-IsValid}
use klippylink.Router.Registry.History
use klippylink.Router.Registry.Identity.{Reach-node_add}

-- Two slots: a connected node with id 3, and one that had id 5 and is gone.
abbrev pub addr_a : List ℕ
addr_a = 1 ∷ 2 ∷ 3 ∷ 4 ∷ 5 ∷ 6 ∷ []

abbrev pub addr_b : List ℕ
addr_b = 1 ∷ 2 ∷ 3 ∷ 4 ∷ 5 ∷ 7 ∷ []

abbrev slot_of : List ℕ → ℕ → Bool → Node
slot_of bda conn_id live = record {
  name = b'n' ∷ [];
  bda = bda;
  conn_id = conn_id;
  connected = live;
  info_received = false;
  neopixels = replicate 4 blank_neopixel;
  neopixel_count = 0;
  endstops = replicate 8 blank_endstop;
  endstop_count = 0;
}

abbrev pub node_a : Node
node_a = slot_of addr_a 3 true

abbrev node_b : Node
node_b = slot_of addr_b 5 false

abbrev pub table : Registry
table = node_a ∷ node_b ∷ []

-- A table in which the id 5 was given out again.
abbrev reused : Registry
reused = node_b ∷ slot_of addr_a 5 true ∷ []

pub add_b : (node_add addr_b 7 table).0 ≡ some 1
unfolding node_add find_slot bytes_eq
add_b = refl

pub table-IsFresh : IsFresh 7 table
table-IsFresh zero n e =
    let q : node_a ≡ n = eq_of_some e in subst (λ x. is_live 7 x ≡ false) q refl
table-IsFresh (suc zero) n e =
    let q : node_b ≡ n = eq_of_some e in subst (λ x. is_live 7 x ≡ false) q refl
table-IsFresh (suc (suc j)) n e = cc

alone_a : (j : ℕ) (n : Node) → get_elem? table j ≡ some n → n.conn_id ≡ 3 → j ≡ 0
alone_a zero n e h = refl
alone_a (suc zero) n e h =
    let other : (suc zero ≡ zero) ⊎ (n.conn_id ≡ 5) =
      inr (ap (λ x. x.conn_id) (sym (eq_of_some e))) in
    omega arith
alone_a (suc (suc j)) n e h = cc

-- A parsed answer with a name and one strip.
pub data Item : Type 0 where
  root text strips strip count : Item

abbrev pub item_of : Item → List ℕ → Option Item
item_of Item.root key =
    if length key == 4 then some Item.text else if length key == 9 then some Item.strips else none
item_of Item.strip key = if length key == 4 then some Item.text else some Item.count
item_of _ key = none

abbrev pub text_of : Item → Option (List ℕ)
text_of Item.text = some (b'l' ∷ b'e' ∷ b'd' ∷ [])
text_of _ = none

abbrev pub is_text : Item → Bool
is_text Item.text = true
is_text _ = false

abbrev pub is_strips : Item → Bool
is_strips Item.strips = true
is_strips _ = false

abbrev pub json : Json
json = record {
  Value = Item;
  parse = λ bs. some Item.root;
  get_object_item = item_of;
  is_string = is_text;
  is_array = is_strips;
  is_number = λ v. false;
  is_true = λ v. false;
  get_array_size = λ v. 1;
  get_array_item = λ v i. Item.strip;
  valuestring = text_of;
  valueint = λ v. 30;
}

abbrev node_c : Node
node_c = record node_a {
  name = b'l' ∷ b'e' ∷ b'd' ∷ [];
  info_received = true;
  neopixels = record { name = b'l' ∷ b'e' ∷ b'd' ∷ []; count = 30 } ∷ replicate 3 blank_neopixel;
  neopixel_count = 1;
}

abbrev after_add : Registry
after_add = (node_add addr_a 3 node_registry_init).1

add_first : (node_add addr_a 3 node_registry_init).0 ≡ some 0
unfolding node_add node_registry_init find_slot
add_first = refl

removed : Reach json after_add (node_remove 3 after_add)
removed = Reach.next Reach.here (Step.remove 3)

Reach-node_add_example :
    History.IsValid (node_remove 3 after_add)
    × Stable node_registry_init (node_remove 3 after_add)
    × ((bda' : List ℕ) (conn' : ℕ)
        → ((node_add bda' conn' (node_remove 3 after_add)).0 ≢ some 0) ⊎ (bda' ≡ addr_a))
Reach-node_add_example = Reach-node_add addr_a 3 0 node_registry_init-IsValid add_first removed
