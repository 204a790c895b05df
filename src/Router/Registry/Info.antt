-- ===== src/Router/Registry/Info.antt =====
-- `node_update_info` of router/main/node_registry.c: the device-info answer put into a slot.
use klippylink.Common.{
  ℕ, zero, suc, min, true, Option, none, some, List, [], ◌∷◌, if◌then◌else◌, get_or, set,
}
use klippylink.Json.{Json, ◌>>=◌, strlcpy}
use klippylink.Router.Registry.{
  Node, NodeNeopixel, NodeEndstop, node_name_len, node_max_neopixels, node_max_endstops,
  blank_neopixel, blank_endstop,
}

abbrev pub key_name : List ℕ
key_name = b'n' ∷ b'a' ∷ b'm' ∷ b'e' ∷ []

abbrev pub key_count : List ℕ
key_count = b'c' ∷ b'o' ∷ b'u' ∷ b'n' ∷ b't' ∷ []

abbrev pub key_neopixels : List ℕ
key_neopixels = b'n' ∷ b'e' ∷ b'o' ∷ b'p' ∷ b'i' ∷ b'x' ∷ b'e' ∷ b'l' ∷ b's' ∷ []

abbrev pub key_endstops : List ℕ
key_endstops = b'e' ∷ b'n' ∷ b'd' ∷ b's' ∷ b't' ∷ b'o' ∷ b'p' ∷ b's' ∷ []

module _ (J : Json) where
  open J use {
    Value, parse, get_object_item, is_string, is_array, get_array_size, get_array_item, valuestring,
    valueint,
  }

  -- The top-level name is taken if it is a string.
  unfoldable pub info_name : Option Value → Node → Option Node
  info_name none n = some n
  info_name (some j) n =
      if is_string j
      then (valuestring j >>= λ s. some (record n { name = strlcpy s node_name_len }))
      else some n

  -- `if (n) strlcpy(dst, n->valuestring, NODE_NAME_LEN)`: the type of the item is not asked for.
  unfoldable pub item_name : Option Value → List ℕ → Option (List ℕ)
  item_name none old = some old
  item_name (some j) old = valuestring j >>= λ s. some (strlcpy s node_name_len)

  unfoldable pub item_count : Option Value → ℕ → ℕ
  item_count none old = old
  item_count (some j) old = valueint j

  unfoldable pub info_neopixel : Value → NodeNeopixel → Option NodeNeopixel
  unfolding item_name item_count
  info_neopixel item p = item_name (get_object_item item key_name) p.name >>= λ s.
      some (record { name = s; count = item_count (get_object_item item key_count) p.count })

  unfoldable pub info_endstop : Value → NodeEndstop → Option NodeEndstop
  unfolding item_name
  info_endstop item p =
      item_name (get_object_item item key_name) p.name >>= λ s. some (record p { name = s })

  -- The two loops, with the rounds that are left and the index.
  unfoldable pub info_neopixels : Value → ℕ → ℕ → List NodeNeopixel → Option (List NodeNeopixel)
  info_neopixels neo zero i ps = some ps
  info_neopixels neo (suc k) i ps =
      info_neopixel (get_array_item neo i) (get_or ps i blank_neopixel) >>= λ p.
      info_neopixels neo k (suc i) (set ps i p)

  unfoldable pub info_endstops : Value → ℕ → ℕ → List NodeEndstop → Option (List NodeEndstop)
  info_endstops es zero i ps = some ps
  info_endstops es (suc k) i ps =
      info_endstop (get_array_item es i) (get_or ps i blank_endstop) >>= λ p.
      info_endstops es k (suc i) (set ps i p)

  unfoldable pub info_neopixel_part : Option Value → Node → Option Node
  info_neopixel_part none n = some n
  info_neopixel_part (some neo) n =
      if is_array neo
      then (let cnt = min (get_array_size neo) node_max_neopixels in
          (info_neopixels neo cnt 0 n.neopixels >>= λ ps.
          some (record n { neopixels = ps; neopixel_count = cnt })))
      else some n

  unfoldable pub info_endstop_part : Option Value → Node → Option Node
  info_endstop_part none n = some n
  info_endstop_part (some es) n =
      if is_array es
      then (let cnt = min (get_array_size es) node_max_endstops in
          (info_endstops es cnt 0 n.endstops >>= λ ps.
          some (record n { endstops = ps; endstop_count = cnt })))
      else some n

  unfoldable pub node_update_info : Node → List ℕ → Option Node
  node_update_info n json = elim (parse json) [
    | none ↦ some n
    | some root ↦ info_name (get_object_item root key_name) n >>= λ n₁.
        info_neopixel_part (get_object_item root key_neopixels) n₁ >>= λ n₂.
        info_endstop_part (get_object_item root key_endstops) n₂ >>= λ n₃.
        some (record n₃ { info_received = true })
  ]
