-- ===== src/Router/Parser/Frames.antt =====
-- Well-formed frames come through the parser, whole and in order.
use klippylink.Common.{
  ℕ, zero, suc, ◌+◌, ◌≤◌, ◌<◌, ◌≡◌, refl, sym, ap, ◌∙◌, ◌≢◌, inl, inr, true, false, ◌&&◌, ◌||◌,
  List, [], ◌∷◌, ◌++◌, map, append-nil, append_assoc, arith, leb, ◌==◌, if◌then◌else◌, leb→le,
  le→leb, lt→leb, ==_ne, Bool-cases, length, get_elem?, length-append, take-all, get_or-append_left,
  All,
}
use klippylink.Protocol.{
  Command, packet, klipproto_magic, klip_header_size, klip_max_payload_size, packet_magic,
  packet_length,
}
use klippylink.Router.Registry.{Registry}
use native.Mathlib.Decide.{ℕ_discrete}
use klippylink.Router.Parser.{
  Parser, Send, broadcast, unicast, route, total_len, feed_byte, command_parser_feed,
}
use klippylink.Router.Parser.Bounds.{IsValid}
use klippylink.Router.Parser.Refine.{view, command_parser_feed_refines}
use klippylink.Router.Parser.Spec.{View, settle, accept, accept_all}

-- A packet as the protocol has it: magic, at most 244 bytes of payload, and as many as it says.
pub record IsPacket (bs : List ℕ) : Type 0 where
  pub magic : packet_magic bs ≡ klipproto_magic
  pub small : packet_length bs ≤ klip_max_payload_size
  pub size : length bs ≡ klip_header_size + packet_length bs

pub packet-IsPacket :
    (c : Command) (payload : List ℕ)
    → length payload ≤ klip_max_payload_size
    → IsPacket (packet c payload)
packet-IsPacket c payload h = record { magic = refl; small = omega arith; size = omega arith }

-- The last byte of a packet sends it on.
settle-whole :
    (r : Registry) (nid : ℕ) (pkt : List ℕ)
    → IsPacket pkt
    → settle r nid pkt ≡ (View.idle, route r nid pkt)
unfolding settle
settle-whole r nid pkt h =
    let size = h.size in
    let small = h.small in
    let total : total_len pkt ≡ length pkt = omega arith in
    simp
      (
        le→leb 4 (length pkt) (omega arith),
        h.magic,
        total,
        le→leb (length pkt) (length pkt) (omega arith),
        take-all (length pkt) pkt (omega arith),
      )
      refl

-- Any earlier byte leaves it pending.
settle-part :
    (r : Registry) (nid : ℕ) (q : List ℕ) (c : ℕ) (cs : List ℕ)
    → IsPacket (q ++ c ∷ cs)
    → settle r nid q ≡ (View.pending nid q, [])
unfolding settle
settle-part r nid q c cs h = elim (Bool-cases (leb 4 (length q))) [
  | inr e ↦ simp e refl
  | inl e ↦
      let l = leb→le _ _ e in
      let m₀ = get_or-append_left 0 q (c ∷ cs) 0 (omega arith) in
      let m₁ = get_or-append_left 1 q (c ∷ cs) 0 (omega arith) in
      let m₃ = get_or-append_left 3 q (c ∷ cs) 0 (omega arith) in
      let magic : packet_magic q ≡ klipproto_magic = omega (arith, h.magic) in
      let more : length q < total_len q =
        omega (arith, h.size, h.small, length-append q (c ∷ cs)) in
      simp (e, magic, lt→leb (total_len q) (length q) more) refl
]

pub collect :
    (r : Registry) (nid : ℕ) (b : ℕ) (bs q : List ℕ)
    → IsPacket (q ++ b ∷ bs)
    → accept_all r (View.pending nid q) (b ∷ bs) ≡ (View.idle, route r nid (q ++ b ∷ bs))
unfolding accept_all accept
collect r nid b [] q h =
    let room : length q < 248 = omega (arith, h.size, h.small, length-append q (b ∷ [])) in
    simp (lt→leb 248 (length q) room, settle-whole r nid (q ++ b ∷ []) h, append-nil) refl
collect r nid b (c ∷ cs) q h =
    let room : length q < 248 = omega (arith, h.size, h.small, length-append q (b ∷ c ∷ cs)) in
    let same : (q ++ b ∷ []) ++ c ∷ cs ≡ q ++ b ∷ c ∷ cs = append_assoc q (b ∷ []) (c ∷ cs) in
    let h' : IsPacket ((q ++ b ∷ []) ++ c ∷ cs) = rw same h in
    simp (lt→leb 248 (length q) room, settle-part r nid (q ++ b ∷ []) c cs h')
      (rw (← same) (collect r nid c cs (q ++ b ∷ []) h'))

pub accept_all-append :
    (r : Registry) (v : View) (xs ys : List ℕ)
    → accept_all r v (xs ++ ys) ≡ (
        let (w, sent) = accept_all r v xs in
        let (w', more) = accept_all r w ys in (w', sent ++ more))
unfolding accept_all
accept_all-append r v [] ys = refl
accept_all-append r v (x ∷ xs) ys =
    simp (accept_all-append r (accept r v x).0 xs ys, append_assoc) refl

pub accept_all-packet :
    (r : Registry) (nid : ℕ) (pkt : List ℕ)
    → IsPacket pkt
    → accept_all r View.idle (nid ∷ pkt) ≡ (View.idle, route r nid pkt)
unfolding accept_all accept
accept_all-packet r nid [] h = absurd (omega (arith, h.size))
accept_all-packet r nid (b ∷ bs) h = collect r nid b bs [] h

-- The bytes on the line for some frames, each a node id and a packet.
abbrev pub wire : List (ℕ × List ℕ) → List ℕ
wire [] = []
wire ((nid, pkt) ∷ fs) = (nid ∷ pkt) ++ wire fs

-- The connections that a frame for `nid` is to go to, for the slots from `i` on: those of the slots in
-- use that are connected, all of them for 0xFF, else only that of slot `nid`.
abbrev pub takers : ℕ → ℕ → Registry → List ℕ
takers nid i [] = []
takers nid i (n ∷ ns) =
    let rest = takers nid (suc i) ns in
    if n.connected && (nid == 0xFF || nid == i) then n.conn_id ∷ rest else rest

abbrev pub sends_to : List ℕ → ℕ → Send
sends_to bytes conn_id = record { conn_id = conn_id; bytes = bytes }

-- Where some frames are to go, in order.
abbrev pub deliveries : Registry → List (ℕ × List ℕ) → List Send
deliveries r [] = []
deliveries r ((nid, pkt) ∷ fs) = map (sends_to pkt) (takers nid 0 r) ++ deliveries r fs

broadcast-takers :
    (bytes : List ℕ) (i : ℕ) (r : Registry)
    → broadcast bytes r ≡ map (sends_to bytes) (takers 0xFF i r)
unfolding broadcast
broadcast-takers bytes i [] = refl
broadcast-takers bytes i (n ∷ ns) = elim (Bool-cases n.connected) [
  | inl c ↦ simp (c, broadcast-takers bytes (suc i) ns) refl
  | inr c ↦ simp (c, broadcast-takers bytes (suc i) ns) refl
]

takers-past : (nid i : ℕ) (r : Registry) → nid ≢ 0xFF → nid < i → takers nid i r ≡ []
takers-past nid i [] ne lt = refl
takers-past nid i (n ∷ ns) ne lt =
    let other : (n.connected && (nid == 0xFF || nid == i)) ≡ false = ground arith in
    simp (other, takers-past nid (suc i) ns ne (omega arith)) refl

unicast-takers :
    (bytes : List ℕ) (k i : ℕ) (r : Registry)
    → i + k ≢ 0xFF
    → unicast bytes (get_elem? r k) ≡ map (sends_to bytes) (takers (i + k) i r)
unfolding unicast
unicast-takers bytes k i [] ne = refl
unicast-takers bytes zero i (n ∷ ns) ne =
    let past = takers-past (i + 0) (suc i) ns ne (omega arith) in
    elim (Bool-cases n.connected) [
      | inl c ↦
          let this : (i + 0 == 0xFF || i + 0 == i) ≡ true = ground arith in
          simp (c, this, past) refl
      | inr c ↦ simp (c, past) refl
    ]
unicast-takers bytes (suc k) i (n ∷ ns) ne =
    let other : (n.connected && (i + suc k == 0xFF || i + suc k == i)) ≡ false = ground arith in
    let same : i + suc k ≡ suc i + k = omega arith in
    simp other (
      unicast-takers bytes k (suc i) ns (λ e. ne (same ∙ e))
      ∙ ap (λ m. map (sends_to bytes) (takers m (suc i) ns)) (sym same))

-- The program's routing goes where a frame is to go.
pub route-takers :
    (r : Registry) (nid : ℕ) (bytes : List ℕ)
    → route r nid bytes ≡ map (sends_to bytes) (takers nid 0 r)
unfolding route
route-takers r nid bytes = elim (ℕ_discrete nid 0xFF) [
  | yes e ↦ rw e (broadcast-takers bytes 0 r)
  | no ne ↦
      let same : 0 + nid ≡ nid = omega arith in
      simp (==_ne nid 0xFF ne) (
        unicast-takers bytes nid 0 r (λ e. ne (sym same ∙ e))
        ∙ ap (λ m. map (sends_to bytes) (takers m 0 r)) same)
]

abbrev pub IsFrame : ℕ × List ℕ → Type 0
IsFrame f = IsPacket f.1

accept_all-nil : (r : Registry) (v : View) → accept_all r v [] ≡ (v, [])
unfolding accept_all
accept_all-nil r v = refl

accept_all-wire :
    (r : Registry) (fs : List (ℕ × List ℕ))
    → All IsFrame fs
    → accept_all r View.idle (wire fs) ≡ (View.idle, deliveries r fs)
accept_all-wire r [] h = accept_all-nil r View.idle
accept_all-wire r ((nid, pkt) ∷ fs) h =
    accept_all-append r View.idle (nid ∷ pkt) (wire fs)
    ∙ simp (accept_all-packet r nid pkt h.0, accept_all-wire r fs h.1, route-takers r nid pkt) refl

idle_of_view : (p : Parser) → view p ≡ View.idle → p.rx_have_nid ≡ false
idle_of_view p e = elim (Bool-cases p.rx_have_nid) [ inl h ↦ cc (rw h at e) | inr h ↦ h ]

-- Any number of well-formed frames, one after the other, leave a parser that was between frames
-- between frames, and send exactly the packet of each to the nodes that its id names, in order.
pub command_parser_feed-wire :
    (r : Registry) (p : Parser) (fs : List (ℕ × List ℕ))
    → IsValid p
    → p.rx_have_nid ≡ false
    → All IsFrame fs
    → ((command_parser_feed r p (wire fs)).0.rx_have_nid ≡ false)
      × ((command_parser_feed r p (wire fs)).1 ≡ deliveries r fs)
command_parser_feed-wire r p fs v idle h =
    let e = command_parser_feed_refines r p (wire fs) v ∙ simp idle (accept_all-wire r fs h) in
    (idle_of_view (command_parser_feed r p (wire fs)).0 (ap (λ t. t.0) e), ap (λ t. t.1) e)

-- How the bytes are cut into calls makes no difference.
pub command_parser_feed-append :
    (r : Registry) (p : Parser) (xs ys : List ℕ)
    → command_parser_feed r p (xs ++ ys) ≡ (
        let (q, sent) = command_parser_feed r p xs in
        let (q', more) = command_parser_feed r q ys in (q', sent ++ more))
unfolding command_parser_feed
command_parser_feed-append r p [] ys = refl
command_parser_feed-append r p (x ∷ xs) ys =
    simp (command_parser_feed-append r (feed_byte r p x).0 xs ys, append_assoc) refl
