-- ===== src/Router/Parser/Desync.antt =====
-- What the parser does with frames that are not well formed: stray bytes and wrong lengths.
use klippylink.Common.{
  ℕ, suc, ◌+◌, ◌-◌, ◌*◌, ◌%◌, ◌≤◌, ◌<◌, ◌≡◌, refl, ap, ◌∙◌, false, List, [], ◌∷◌, ◌++◌, append-nil,
  append_assoc, arith, ◌==◌, le→leb, lt→leb, ==_ne, length, take, length-append,
}
use klippylink.Protocol.{
  Command, command_code, packet, header, klipproto_magic, klip_max_payload_size,
}
use klippylink.Router.Registry.{Registry}
use klippylink.Router.Parser.{Parser, route, command_parser_feed}
use klippylink.Router.Parser.Spec.{View, settle, accept, accept_all}
use klippylink.Router.Parser.Bounds.{IsValid}
use klippylink.Router.Parser.Refine.{view, command_parser_feed_refines}
use klippylink.Router.Parser.Frames.{packet-IsPacket, collect, accept_all-append}

accept_all-stray :
    (r : Registry) (stray nid : ℕ) (c : Command) (payload : List ℕ)
    → length payload ≤ klip_max_payload_size
    → accept_all r View.idle (stray ∷ nid ∷ packet c payload)
      ≡ (View.idle, route r stray (packet c payload))
unfolding accept_all accept settle
accept_all-stray r stray nid c payload h =
    let ne : (nid + 256 * 0x4C == klipproto_magic) ≡ false = ==_ne _ _ (omega arith) in
    simp ne (
      collect r stray (length payload % 256) payload (0x4C ∷ 0x4B ∷ command_code c ∷ [])
        (packet-IsPacket c payload h))

-- One stray byte in front of a well-formed frame takes the place of its node id: the packet goes,
-- whole, to the nodes that the stray byte names, whatever id the frame itself has.
pub command_parser_feed-stray :
    (r : Registry) (p : Parser) (stray nid : ℕ) (c : Command) (payload : List ℕ)
    → IsValid p
    → p.rx_have_nid ≡ false
    → length payload ≤ klip_max_payload_size
    → (command_parser_feed r p (stray ∷ nid ∷ packet c payload)).1
      ≡ route r stray (packet c payload)
command_parser_feed-stray r p stray nid c payload v idle h =
    let e : accept_all r (view p) (stray ∷ nid ∷ packet c payload)
        ≡ (View.idle, route r stray (packet c payload)) =
      simp idle (accept_all-stray r stray nid c payload h) in
    ap (λ t. t.1) (command_parser_feed_refines r p (stray ∷ nid ∷ packet c payload) v ∙ e)

accept_all-wrapped :
    (r : Registry) (nid : ℕ) (c : Command) (len : ℕ)
    → 252 ≤ len
    → len < 256
    → accept_all r View.idle (nid ∷ header c len)
      ≡ (View.idle, route r nid (take (len - 252) (header c len)))
unfolding accept_all accept settle
accept_all-wrapped r nid c len h k =
    let t : (4 + len) % 256 ≡ len - 252 = omega arith in
    simp (t, le→leb (len - 252) 4 (omega arith), append-nil) refl

-- A header whose length is 252 or more ends the frame at once, since the total length wraps in its
-- byte: what goes out is the first length - 252 bytes of the header, fewer than four.
pub command_parser_feed-wrapped :
    (r : Registry) (p : Parser) (nid : ℕ) (c : Command) (len : ℕ)
    → IsValid p
    → p.rx_have_nid ≡ false
    → 252 ≤ len
    → len < 256
    → (view (command_parser_feed r p (nid ∷ header c len)).0 ≡ View.idle)
      × ((command_parser_feed r p (nid ∷ header c len)).1
          ≡ route r nid (take (len - 252) (header c len)))
command_parser_feed-wrapped r p nid c len v idle h k =
    let e =
      command_parser_feed_refines r p (nid ∷ header c len) v
      ∙ simp idle (accept_all-wrapped r nid c len h k) in
    (ap (λ t. t.0) e, ap (λ t. t.1) e)

-- Bytes pile up behind a header that wants more than the buffer holds.
stall :
    (r : Registry) (nid : ℕ) (c : Command) (len : ℕ) (q bs : List ℕ)
    → 245 ≤ len
    → len < 252
    → length q + length bs ≤ 244
    → accept_all r (View.pending nid (header c len ++ q)) bs
      ≡ (View.pending nid (header c len ++ (q ++ bs)), [])
unfolding accept_all accept settle
stall r nid c len q [] h k room = rw append-nil
stall r nid c len q (b ∷ bs) h k room =
    let l = length-append q (b ∷ []) in
    simp
      (
        lt→leb 248 (suc (suc (suc (suc (length q))))) (omega arith),
        le→leb 4 (suc (suc (suc (suc (length (q ++ b ∷ [])))))) (omega arith),
        lt→leb ((4 + len) % 256) (suc (suc (suc (suc (length (q ++ b ∷ [])))))) (omega arith),
      )
      (stall r nid c len (q ++ b ∷ []) bs h k (omega arith)
        ∙ ap (λ z. (View.pending nid (header c len ++ z), [])) (append_assoc q (b ∷ []) bs))

accept_all-long_header :
    (r : Registry) (nid : ℕ) (c : Command) (len : ℕ)
    → 245 ≤ len
    → len < 252
    → accept_all r View.idle (nid ∷ header c len) ≡ (View.pending nid (header c len), [])
unfolding accept_all accept settle
accept_all-long_header r nid c len h k = simp (lt→leb ((4 + len) % 256) 4 (omega arith)) refl

accept_all-full :
    (r : Registry) (nid : ℕ) (q : List ℕ) (last : ℕ)
    → 248 ≤ length q
    → accept_all r (View.pending nid q) (last ∷ []) ≡ (View.idle, [])
unfolding accept_all accept
accept_all-full r nid q last h = simp (le→leb 248 (length q) h) refl

accept_all-too_long :
    (r : Registry) (nid : ℕ) (c : Command) (len last : ℕ) (body : List ℕ)
    → 245 ≤ len
    → len < 252
    → length body ≡ 244
    → accept_all r View.idle ((nid ∷ header c len) ++ (body ++ last ∷ [])) ≡ (View.idle, [])
accept_all-too_long r nid c len last body h k size =
    accept_all-append r View.idle (nid ∷ header c len) (body ++ last ∷ [])
    ∙ rw (accept_all-long_header r nid c len h k, accept_all-append r _ body (last ∷ []))
        (rw (
          stall r nid c len [] body h k (omega arith),
          accept_all-full r nid (header c len ++ body) last (omega arith),
        ))

-- A frame whose length is from 245 to 251 is never sent on: its header, 244 bytes and one more leave
-- the parser between frames with nothing sent.
pub command_parser_feed-too_long :
    (r : Registry) (p : Parser) (nid : ℕ) (c : Command) (len last : ℕ) (body : List ℕ)
    → IsValid p
    → p.rx_have_nid ≡ false
    → 245 ≤ len
    → len < 252
    → length body ≡ klip_max_payload_size
    → (view (command_parser_feed r p ((nid ∷ header c len) ++ (body ++ last ∷ []))).0 ≡ View.idle)
      × ((command_parser_feed r p ((nid ∷ header c len) ++ (body ++ last ∷ []))).1 ≡ [])
command_parser_feed-too_long r p nid c len last body v idle h k size =
    let e =
      command_parser_feed_refines r p ((nid ∷ header c len) ++ (body ++ last ∷ [])) v
      ∙ simp idle (accept_all-too_long r nid c len last body h k size) in
    (ap (λ t. t.0) e, ap (λ t. t.1) e)
