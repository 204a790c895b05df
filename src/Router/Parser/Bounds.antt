-- ===== src/Router/Parser/Bounds.antt =====
-- The buffer of the parser is never written or read out of bounds.
use klippylink.Common.{
  ℕ, ◌-◌, ◌≤◌, ◌<◌, ◌≡◌, refl, ◌∙◌, inl, inr, Option, none, some, List, [], ◌∷◌, arith, leb, ◌==◌,
  leb→le, leb→lt, Bool-cases, length, take, drop, length-append, length-set, length-take,
  length-drop, All, All-append,
}
use klippylink.Protocol.{klip_max_packet_size, klipproto_magic, packet_magic}
use klippylink.Router.Registry.{Registry, Node}
use klippylink.Router.Parser.{
  Parser, Send, start, broadcast, unicast, route, total_len, shift_left, store, discard, check,
  complete, feed_byte, command_parser_feed,
}

-- The array keeps its size and the offset stays inside it.
pub record IsValid (p : Parser) : Type 0 where
  pub size : length p.rx_buffer ≡ klip_max_packet_size
  pub within : p.rx_offset ≤ klip_max_packet_size

-- The packet of each send fits the buffer.
abbrev pub Fits : Send → Type 0
Fits s = length s.bytes ≤ klip_max_packet_size

length-shift_left :
    (n : ℕ) (xs : List ℕ) → 1 ≤ n → n ≤ length xs → length (shift_left n xs) ≡ length xs
unfolding shift_left
length-shift_left n xs h k = omega (
  arith,
  length-append (take (n - 1) (drop 1 xs)) (drop (n - 1) xs),
  length-take (n - 1) (drop 1 xs),
  length-drop 1 xs,
  length-drop (n - 1) xs,
)

broadcast-Fits :
    (bytes : List ℕ) (r : Registry)
    → length bytes ≤ klip_max_packet_size
    → All Fits (broadcast bytes r)
unfolding broadcast
broadcast-Fits bytes [] h = tt
broadcast-Fits bytes (n ∷ r) h = elim (Bool-cases n.connected) [
  | inl e ↦ rw e (h, broadcast-Fits bytes r h)
  | inr e ↦ rw e (broadcast-Fits bytes r h)
]

unicast-Fits :
    (bytes : List ℕ) (n : Option Node)
    → length bytes ≤ klip_max_packet_size
    → All Fits (unicast bytes n)
unfolding unicast
unicast-Fits bytes none h = tt
unicast-Fits bytes (some n) h = elim (Bool-cases n.connected) [
  | inl e ↦ rw e (h, tt)
  | inr e ↦ rw e tt
]

pub route-Fits :
    (r : Registry) (nid : ℕ) (bytes : List ℕ)
    → length bytes ≤ klip_max_packet_size
    → All Fits (route r nid bytes)
unfolding route
route-Fits r nid bytes h = elim (Bool-cases (nid == 0xFF)) [
  | inl e ↦ rw e (broadcast-Fits bytes r h)
  | inr e ↦ rw e (unicast-Fits bytes _ h)
]

-- What one step does: it keeps the invariant, and what it sends fits.
abbrev pub Keeps : Parser × List Send → Type 0
Keeps out = IsValid out.0 × All Fits out.1

complete-Keeps : (r : Registry) (p : Parser) → IsValid p → Keeps (complete r p)
unfolding complete
complete-Keeps r p v = elim (Bool-cases (leb (total_len p.rx_buffer) p.rx_offset)) [
  | inr e ↦ rw e (v, tt)
  | inl e ↦ rw e (
    record { size = v.size; within = omega arith },
    route-Fits r p.rx_node_id (take (total_len p.rx_buffer) p.rx_buffer)
        (omega (arith, length-take (total_len p.rx_buffer) p.rx_buffer, v.size)),
  )
]

discard-IsValid : (p : Parser) → IsValid p → 1 ≤ p.rx_offset → IsValid (discard p)
unfolding discard
discard-IsValid p v h = record {
  size = length-shift_left p.rx_offset p.rx_buffer h (omega (arith, v.size, v.within)) ∙ v.size;
  within = omega arith;
}

pub check-Keeps : (r : Registry) (p : Parser) → IsValid p → Keeps (check r p)
unfolding check
check-Keeps r p v = elim (Bool-cases (leb 4 p.rx_offset)) [
  | inr e ↦ rw e (v, tt)
  | inl e ↦ elim (Bool-cases (packet_magic p.rx_buffer == klipproto_magic)) [
    | inl m ↦ rw e (rw m (complete-Keeps r p v))
    | inr m ↦
        let h : 4 ≤ p.rx_offset = leb→le _ _ e in
        rw e (rw m (discard-IsValid p v (omega arith), tt))
  ]
]

pub store-IsValid : (b : ℕ) (p : Parser) → IsValid p → p.rx_offset < 248 → IsValid (store b p)
unfolding store
store-IsValid b p v h = record {
  size = length-set p.rx_buffer p.rx_offset b ∙ v.size;
  within = omega arith;
}

pub feed_byte-Keeps : (r : Registry) (p : Parser) (b : ℕ) → IsValid p → Keeps (feed_byte r p b)
unfolding feed_byte
feed_byte-Keeps r p b v = elim (Bool-cases p.rx_have_nid) [
  | inr e ↦ simp e (record { size = v.size; within = omega arith }, tt)
  | inl e ↦ elim (Bool-cases (leb 248 p.rx_offset)) [
    | inl h ↦ simp e (simp h (record { size = v.size; within = omega arith }, tt))
    | inr h ↦ simp e (simp h (check-Keeps r (store b p) (store-IsValid b p v (leb→lt _ _ h))))
  ]
]

-- Whatever bytes come, the parser keeps its buffer at 248 bytes and its offset inside it, so every
-- write is in bounds, and every packet that it sends on is at most 248 bytes long.
pub command_parser_feed-IsValid :
    (r : Registry) (p : Parser) (bs : List ℕ)
    → IsValid p
    → IsValid (command_parser_feed r p bs).0 × All Fits (command_parser_feed r p bs).1
unfolding command_parser_feed
command_parser_feed-IsValid r p [] v = (v, tt)
command_parser_feed-IsValid r p (b ∷ bs) v =
    let (w, f) = feed_byte-Keeps r p b v in
    let (w', f') = command_parser_feed-IsValid r (feed_byte r p b).0 bs w in
    (w', All-append Fits _ _ f f')

pub start-IsValid : IsValid start
start-IsValid = record { size = refl; within = omega arith }
