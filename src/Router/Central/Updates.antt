-- ===== src/Router/Central/Updates.antt =====
-- What a notification does to the slot that it is for.
use klippylink.Common.{
  ℕ, ◌+◌, ◌≡◌, refl, subst, inl, inr, ◌||◌, Option, some, List, ltb, ◌==◌, Bool-cases, length,
}
use klippylink.Json.{Json, eq_of_some, none≢some}
use klippylink.Protocol.{Command, packet_length, klip_max_payload_size, klip_header_size}
use klippylink.Router.Registry.{Node}
use klippylink.Router.Registry.Bounds.{
  IsBounded, Keeps, node_update_info-IsBounded, node_update_info-Keeps, node_set_endstop-IsBounded,
  node_set_endstop-Keeps,
}
use klippylink.Router.Central.{take_command, take_endstop, take_info}

-- A slot written with its bounds and all that the table is searched by kept.
abbrev pub Kept : Node → Node → Type 0
Kept n m = (IsBounded n → IsBounded m) × Keeps n m

Kept-eq : {n m : Node} → n ≡ m → Kept n m
Kept-eq {n} e =
    subst (Kept n) e
      ((λ b. b), record { same_bda = refl; same_conn_id = refl; same_connected = refl })

module _ (J : Json) where
  take_info-Kept : (value : List ℕ) (n m : Node) → take_info J value n ≡ some m → Kept n m
  unfolding take_info
  take_info-Kept value n m h = elim (Bool-cases (packet_length value == 0)) [
    | inl e ↦ Kept-eq (eq_of_some (rw e at h))
    | inr e ↦
        elim (Bool-cases (
          ltb klip_max_payload_size (packet_length value)
          || ltb (length value) (klip_header_size + packet_length value))) [
            | inl f ↦ absurd (none≢some (rw (e, f) at h))
            | inr f ↦
                let u = rw (e, f) at h in
                ((λ b. (node_update_info-IsBounded J n _ b u).0), node_update_info-Keeps J n _ u)
          ]
  ]

  take_endstop-Kept : (value : List ℕ) (n m : Node) → take_endstop J value n ≡ some m → Kept n m
  unfolding take_endstop
  take_endstop-Kept value n m h = elim (Bool-cases (ltb (packet_length value) 2)) [
    | inl e ↦ Kept-eq (eq_of_some (rw e at h))
    | inr e ↦ elim (Bool-cases (ltb (length value) (klip_header_size + 2))) [
      | inl f ↦ absurd (none≢some (rw (e, f) at h))
      | inr f ↦
          subst (Kept n) (eq_of_some (rw (e, f) at h))
            ((λ b. node_set_endstop-IsBounded _ _ n b), node_set_endstop-Keeps _ _ n)
    ]
  ]

  pub take_command-Kept :
      (cmd : Option Command) (value : List ℕ) (n m : Node)
      → take_command J cmd value n ≡ some m
      → Kept n m
  unfolding take_command
  take_command-Kept (some Command.device_info_resp) value n m h = take_info-Kept value n m h
  take_command-Kept (some Command.endstop_state) value n m h = take_endstop-Kept value n m h
  take_command-Kept _ value n m h = Kept-eq (eq_of_some h)
