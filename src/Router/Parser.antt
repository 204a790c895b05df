-- ===== src/Router/Parser.antt =====
-- router/main/command_parser.c: frames from the serial line, handed to the nodes that they name.
pub mod Spec
pub mod Bounds
pub mod Refine
pub mod Frames
pub mod Desync
use klippylink.Common.{
  ℕ, zero, suc, ◌+◌, ◌-◌, ◌*◌, ◌/◌, ◌%◌, ◌^◌, ◌≤◌, ◌<◌, min, ◌≡◌, refl, sym, ap, ap₂, ◌∙◌, subst,
  ◌≢◌, ◌↔◌, ◌⊎◌, inl, inr, Bool, true, false, not, ◌&&◌, ◌||◌, Option, none, some, List, [], ◌∷◌,
  ◌++◌, map, append-nil, append_assoc, arith, ltb, leb, ◌==◌, if◌then◌else◌, ltb→lt, ltb→le, lt→ltb,
  le→ltb, leb→le, leb→lt, le→leb, lt→leb, ==_iff, ==_refl, ==_ne, ==→ne, Bool-cases, Option-cases,
  length, get_elem?, get_or, set, take, drop, replicate, length-append, length-set,
  get_elem?-set_self, get_elem?-set_ne, get_elem?-none, take-append-drop, length-take, length-drop,
  length-replicate, take-all, take-append_left, take-suc-set, take-take, get_or-take, All,
  All-append,
}
use klippylink.Protocol.{
  klipproto_magic, klip_header_size, klip_max_packet_size, u8, packet_magic, packet_length,
}
use klippylink.Router.Registry.{Registry, Node, node_get}

-- `rx_buffer`, `rx_offset`, `rx_node_id` and `rx_have_nid`
pub record Parser : Type 0 where
  pub rx_buffer : List ℕ
  pub rx_offset : ℕ
  pub rx_node_id : ℕ
  pub rx_have_nid : Bool

-- A call `ble_central_send_to_node(conn_id, bytes, total_len)`; its result is not looked at.
pub record Send : Type 0 where
  pub conn_id : ℕ
  pub bytes : List ℕ

-- The static variables before the first call.
abbrev pub start : Parser
start = record {
  rx_buffer = replicate klip_max_packet_size 0;
  rx_offset = 0;
  rx_node_id = 0xFF;
  rx_have_nid = false;
}

unfoldable pub command_parser_init : Parser → Parser
command_parser_init p = record p { rx_offset = 0; rx_have_nid = false }

-- The loop over `node_count()`.
unfoldable pub broadcast : List ℕ → Registry → List Send
broadcast bytes [] = []
broadcast bytes (n ∷ ns) =
    let rest = broadcast bytes ns in
    if n.connected then record { conn_id = n.conn_id; bytes = bytes } ∷ rest else rest

unfoldable pub unicast : List ℕ → Option Node → List Send
unicast bytes none = []
unicast bytes (some n) =
    if n.connected then record { conn_id = n.conn_id; bytes = bytes } ∷ [] else []

-- Node id 0xFF is every connected node.
unfoldable pub route : Registry → ℕ → List ℕ → List Send
route r nid bytes = if nid == 0xFF then broadcast bytes r else unicast bytes (node_get r nid)

-- `uint8_t total_len = KLIP_HEADER_SIZE + pkt->length`
abbrev pub total_len : List ℕ → ℕ
total_len buffer = u8 (klip_header_size + packet_length buffer)

-- `memmove(rx_buffer, rx_buffer + 1, --rx_offset)`
unfoldable pub shift_left : ℕ → List ℕ → List ℕ
shift_left n buffer = take (n - 1) (drop 1 buffer) ++ drop (n - 1) buffer

unfoldable pub complete : Registry → Parser → Parser × List Send
complete r p =
    if leb (total_len p.rx_buffer) p.rx_offset
    then (
      record p { rx_offset = 0; rx_have_nid = false },
      route r p.rx_node_id (take (total_len p.rx_buffer) p.rx_buffer),
    )
    else (p, [])

unfoldable pub discard : Parser → Parser
discard p = record p { rx_buffer = shift_left p.rx_offset p.rx_buffer; rx_offset = p.rx_offset - 1 }

unfoldable pub check : Registry → Parser → Parser × List Send
check r p =
    if leb klip_header_size p.rx_offset
    then (if packet_magic p.rx_buffer == klipproto_magic then complete r p else (discard p, []))
    else (p, [])

unfoldable pub store : ℕ → Parser → Parser
store b p = record p { rx_buffer = set p.rx_buffer p.rx_offset b; rx_offset = p.rx_offset + 1 }

-- One round of the loop of `command_parser_feed`.
unfoldable pub feed_byte : Registry → Parser → ℕ → Parser × List Send
feed_byte r p b =
    if not p.rx_have_nid
    then (record p { rx_node_id = b; rx_have_nid = true; rx_offset = 0 }, [])
    else if leb klip_max_packet_size p.rx_offset
    then (record p { rx_offset = 0; rx_have_nid = false }, [])
    else check r (store b p)

unfoldable pub command_parser_feed : Registry → Parser → List ℕ → Parser × List Send
command_parser_feed r p [] = (p, [])
command_parser_feed r p (b ∷ bs) =
    let (q, sent) = feed_byte r p b in
    let (q', more) = command_parser_feed r q bs in (q', sent ++ more)
