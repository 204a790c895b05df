-- ===== src/Router/Registry.antt =====
-- router/main/node_registry.c and node_registry.h: the table of nodes.
-- `s_nodes[0..s_count)` is a list, whose length is `s_count`; the slots past it are never read,
-- and `node_add` clears a slot before it is counted. A `node_t *` is the index of its slot.
-- A C string is the list of its bytes, without the terminating zero.
pub mod Info
pub mod Bounds
pub mod Slots
pub mod Lookup
pub mod Identity
pub mod Ids
pub mod History
use klippylink.Common.{
  ℕ, zero, suc, ◌+◌, ◌-◌, ◌/◌, ◌%◌, ◌≤◌, ◌<◌, ◌≡◌, Bool, true, false, not, ◌&&◌, Option, none, some,
  List, [], ◌∷◌, ◌++◌, map, if◌then◌else◌, ◌==◌, ltb, length, get_elem?, get_or, set, take,
  replicate, min,
}

abbrev pub node_max_count : ℕ
node_max_count = 8

abbrev pub node_name_len : ℕ
node_name_len = 32

abbrev pub node_max_neopixels : ℕ
node_max_neopixels = 4

abbrev pub node_max_endstops : ℕ
node_max_endstops = 8

pub record NodeNeopixel : Type 0 where
  pub name : List ℕ
  pub count : ℕ

pub record NodeEndstop : Type 0 where
  pub name : List ℕ
  pub triggered : Bool

-- `node_t`; the two arrays are lists of their full length.
pub record Node : Type 0 where
  pub name : List ℕ
  pub bda : List ℕ
  pub conn_id : ℕ
  pub connected : Bool
  pub info_received : Bool
  pub neopixels : List NodeNeopixel
  pub neopixel_count : ℕ
  pub endstops : List NodeEndstop
  pub endstop_count : ℕ

-- `s_nodes` and `s_count`
abbrev pub Registry : Type 0
Registry = List Node

unfoldable pub node_registry_init : Registry
node_registry_init = []

-- `memcmp(a, b, n) == 0`, and `strcmp(a, b) == 0`
unfoldable pub bytes_eq : List ℕ → List ℕ → Bool
bytes_eq [] [] = true
bytes_eq [] (y ∷ ys) = false
bytes_eq (x ∷ xs) [] = false
bytes_eq (x ∷ xs) (y ∷ ys) = x == y && bytes_eq xs ys

-- `%X` of one digit
abbrev hex_digit : ℕ → ℕ
hex_digit d = if ltb d 10 then b'0' + d else b'A' + (d - 10)

abbrev hex_byte : ℕ → List ℕ
hex_byte b = hex_digit (b / 16) ∷ hex_digit (b % 16) ∷ []

-- `"node_%02X%02X"` of the last two bytes of an address
unfoldable pub default_name : List ℕ → List ℕ
default_name bda =
    b'n' ∷ b'o' ∷ b'd' ∷ b'e' ∷ b'_' ∷ (hex_byte (get_or bda 4 0) ++ hex_byte (get_or bda 5 0))

abbrev pub blank_neopixel : NodeNeopixel
blank_neopixel = record { name = []; count = 0 }

abbrev pub blank_endstop : NodeEndstop
blank_endstop = record { name = []; triggered = false }

unfoldable pub new_node : List ℕ → ℕ → Node
new_node bda conn_id = record {
  name = default_name bda;
  bda = bda;
  conn_id = conn_id;
  connected = true;
  info_received = false;
  neopixels = replicate node_max_neopixels blank_neopixel;
  neopixel_count = 0;
  endstops = replicate node_max_endstops blank_endstop;
  endstop_count = 0;
}

-- The first slot from `i` on that passes a test: the shape of every search of this file.
unfoldable pub find_slot : (Node → Bool) → Registry → ℕ → Option ℕ
find_slot p [] i = none
find_slot p (n ∷ ns) i = if p n then some i else find_slot p ns (suc i)

-- The slot that a connecting address gets back: disconnected, and of the same address.
abbrev pub is_reusable : List ℕ → Node → Bool
is_reusable bda n = not n.connected && bytes_eq n.bda bda

abbrev pub has_conn_id : ℕ → Node → Bool
has_conn_id conn_id n = n.conn_id == conn_id

abbrev pub is_live : ℕ → Node → Bool
is_live conn_id n = n.conn_id == conn_id && n.connected

-- A write to the fields of one slot.
unfoldable pub modify : (Node → Node) → ℕ → Registry → Registry
modify f i [] = []
modify f zero (n ∷ ns) = f n ∷ ns
modify f (suc i) (n ∷ ns) = n ∷ modify f i ns

abbrev pub reconnect : ℕ → Node → Node
reconnect conn_id n = record n { conn_id = conn_id; connected = true }

abbrev pub disconnect : Node → Node
disconnect n = record n { connected = false }

unfoldable pub node_add : List ℕ → ℕ → Registry → Option ℕ × Registry
node_add bda conn_id r = elim (find_slot (is_reusable bda) r 0) [
  | some i ↦ (some i, modify (reconnect conn_id) i r)
  | none ↦
      if ltb (length r) node_max_count
      then (some (length r), r ++ (new_node bda conn_id ∷ []))
      else (none, r)
]

unfoldable pub node_remove : ℕ → Registry → Registry
node_remove conn_id r = elim (find_slot (has_conn_id conn_id) r 0) [
  | some i ↦ modify disconnect i r
  | none ↦ r
]

unfoldable pub node_by_conn_id : ℕ → Registry → Option ℕ
node_by_conn_id conn_id r = find_slot (has_conn_id conn_id) r 0

unfoldable pub node_by_name : List ℕ → Registry → Option ℕ
node_by_name name r = find_slot (λ n. bytes_eq n.name name) r 0

abbrev pub node_count : Registry → ℕ
node_count r = length r

abbrev pub node_get : Registry → ℕ → Option Node
node_get r i = get_elem? r i

unfoldable pub node_count_connected : Registry → ℕ
node_count_connected [] = 0
node_count_connected (n ∷ ns) = (if n.connected then 1 else 0) + node_count_connected ns

-- `none` is the result -1.
unfoldable pub node_id_by_conn_id : ℕ → Registry → Option ℕ
node_id_by_conn_id conn_id r = find_slot (is_live conn_id) r 0

unfoldable pub node_set_endstop : ℕ → Bool → Node → Node
node_set_endstop idx triggered n =
    if ltb idx n.endstop_count
    then record n {
      endstops =
          set n.endstops idx
            (record (get_or n.endstops idx blank_endstop) { triggered = triggered });
    }
    else n
