-- ===== src/Exchange/Answered.antt =====
-- A frame that the host writes, from the serial line to the node's answer in the host's hands.
use klippylink.Common.{
  ℕ, ◌+◌, ◌≤◌, ◌<◌, ◌≡◌, refl, sym, ap, ◌∙◌, inl, inr, true, false, Option, some, List, [], ◌∷◌,
  ◌++◌, append-nil, append_assoc, arith, if◌then◌else◌, le→leb, ==_refl, Bool-cases, length,
  get_elem?, get_or,
}
use klippylink.Esp.{is_ok}
use klippylink.Json.{Json}
use klippylink.Protocol.{Command, packet, u8, packet_command, klip_max_payload_size}
use klippylink.Protocol.Codes.{command_of}
use klippylink.Router.Registry.{Node, modify, node_by_conn_id, node_id_by_conn_id}
use klippylink.Router.Parser.Frames.{packet-IsPacket}
use klippylink.Router.Serial.{rx_task}
use klippylink.Router.Serial.Reads.{received}
use klippylink.Router.Central.Conns.{Conn}
use klippylink.Router.Central.{Action, Central, act, take_command, is_packet}
use klippylink.Node.Gatt.{Board, BtAction, Device, idx_tel_val, tell_central}
use klippylink.Node.Gatt.Events.{on_gatts_write}
use klippylink.Node.Gatt.Dispatch.{dispatch_command}
use klippylink.Update.Packets.{on_gatts_write-command}
use klippylink.Exchange.{Air, drop-length, since, System, to_node, to_router, send_each, exchange}
use klippylink.Exchange.Links.{IsLinked, sends, writes, tell_central_lem, takes_answer}

module _ (B : Board) where
  -- The link carries a frame and its answer: the router's stack takes the write, and both fit in the
  -- MTU.
  pub record Carries (A : Air) (link : ℕ) (k : Conn) (frame reply : List ℕ) : Type 0 where
    pub taken : is_ok (A.write k.gattc_if link k.cmd_handle frame) ≡ true
    pub frame_fits : length frame + 3 ≤ A.mtu
    pub reply_fits : length reply + 3 ≤ A.mtu

  -- The exchange went through: the parser is between frames, the router has written the frame to the
  -- node, and the node has said the reply. If the router's stack hands notifications on, the router has
  -- then given the host the reply under the node's id and the callback the reply, and the node's slot
  -- is `m`; if not, it has done nothing more.
  pub record Answered (J : Json) (A : Air) (link : ℕ) (reads : List (Option (List ℕ))) (nid : ℕ)
      (frame reply : List ℕ) (m : Node) (k : Conn) (s : System B) : Type 0 where
    pub after : System B
    pub result : exchange B J A link reads s ≡ some after
    pub between_frames : after.parser.rx_have_nid ≡ false
    pub calls :
        after.central.actions
        ≡ (s.central.actions ++ Action.write_char k.gattc_if link k.cmd_handle frame ∷ [])
          ++ (if A.hands_on then Action.emit nid reply ∷ Action.response link reply ∷ [] else [])
    pub node : after.device ≡ tell_central B reply s.device
    pub nodes :
        after.central.registry
        ≡ (if A.hands_on then modify (λ _. m) nid s.central.registry else s.central.registry)

  -- What the router makes of the reply.
  hears :
      (J : Json) (A : Air) (link nid gatts_if conn_id handle : ℕ) (reply : List ℕ) (n m : Node)
      (c : Central)
      → nid < 255
      → length reply + 3 ≤ A.mtu
      → is_packet reply ≡ true
      → length reply < 256
      → get_elem? c.registry nid ≡ some n
      → node_by_conn_id link c.registry ≡ some nid
      → node_id_by_conn_id link c.registry ≡ some nid
      → take_command J (command_of (packet_command reply)) reply n ≡ some m
      → (c' : Central) × (to_router B J A link
            (BtAction.send_indicate gatts_if conn_id handle reply ∷ [])
            c
          ≡ some c')
        × (c'.registry ≡ (if A.hands_on then modify (λ _. m) nid c.registry else c.registry))
        × (c'.actions
            ≡ c.actions
              ++ (if A.hands_on
                  then Action.emit nid reply ∷ Action.response link reply ∷ []
                  else []))
  unfolding to_router
  hears J A link nid gatts_if conn_id handle reply n m c small fits p short slot by id t =
      let room = le→leb (length reply + 3) A.mtu fits in
      elim (Bool-cases A.hands_on) [
        | inl on ↦
            let (c', heard, nodes, calls) =
              takes_answer B J link nid reply n m c p short slot by id t in
            let same : u8 nid ≡ nid = omega arith in
            simp (on, room, heard)
              (
                c',
                refl,
                nodes,
                calls
                    ∙ append_assoc c.actions (Action.emit (u8 nid) reply ∷ [])
                        (Action.response link reply ∷ [])
                    ∙ ap (λ i. c.actions ++ Action.emit i reply ∷ Action.response link reply ∷ [])
                        same,
              )
        | inr off ↦ simp off (c, refl, refl, sym (append-nil c.actions))
      ]

  -- The node does what the command does.
  node_takes :
      (A : Air) {nid link : ℕ} {n : Node} {k : Conn} {s : System B} (c : Command)
      (payload reply : List ℕ) (d' : Device B)
      → IsLinked B nid link n k s
      → Carries A link k (packet c payload) reply
      → dispatch_command B (some c) (packet c payload) s.device ≡ some d'
      → to_node B A link
          (Action.write_char k.gattc_if link k.cmd_handle (packet c payload) ∷ [])
          s.device
        ≡ some d'
  unfolding to_node
  node_takes A {link = link} {k = k} {s} c payload reply d' l a e =
      let took : on_gatts_write B k.cmd_handle (packet c payload) s.device ≡ some d' =
        ap (λ h. on_gatts_write B h (packet c payload) s.device) l.handle
        ∙ on_gatts_write-command B c (u8 (length payload)) payload s.device l.handles
        ∙ e in
      rw (==_refl link, a.taken, le→leb (length (packet c payload) + 3) A.mtu a.frame_fits, took)
        refl

  -- A frame that makes the node say one thing, and the router take that.
  pub asks :
      (J : Json) (A : Air) {nid link : ℕ} {n : Node} {k : Conn} {s : System B} (c : Command)
      (payload reply : List ℕ) (m : Node) (reads : List (Option (List ℕ)))
      → IsLinked B nid link n k s
      → Carries A link k (packet c payload) reply
      → length payload ≤ klip_max_payload_size
      → received reads ≡ nid ∷ packet c payload
      → dispatch_command B (some c) (packet c payload) s.device
        ≡ some (tell_central B reply s.device)
      → is_packet reply ≡ true
      → length reply < 256
      → take_command J (command_of (packet_command reply)) reply n ≡ some m
      → Answered J A link reads nid (packet c payload) reply m k s
  unfolding exchange send_each
  asks J A {nid} {link} {n} {k} {s} c payload reply m reads l a fits e d p short t =
      let frame = packet c payload in
      let call = Action.write_char k.gattc_if link k.cmd_handle frame in
      let c₁ = act call s.central in
      let d₁ = tell_central B reply s.device in
      let (idle, sent) = sends B frame reads l (packet-IsPacket c payload fits) e in
      let wrote : send_each B J A (rx_task s.central.registry reads s.parser).1 s.central ≡ c₁ =
        ap (λ ss. send_each B J A ss s.central) sent ∙ writes B A.write frame l in
      let (c₂, heard, nodes, calls) =
        hears J A link nid s.device.gatts_if s.device.conn_id
          (get_or s.device.handles idx_tel_val 0) reply n m c₁ l.one_node a.reply_fits p short
          l.slot l.by_link l.id_by_link t in
      let said = tell_central_lem B reply s.device l.has_conn l.notifies short in
      let back : to_router B J A link (since s.device.actions d₁.actions) c₁ ≡ some c₂ =
        ap (λ x. to_router B J A link (since s.device.actions x.actions) c₁) said
        ∙ rw (drop-length s.device.actions) heard in
      record {
        after = record {
          parser = (rx_task s.central.registry reads s.parser).0;
          central = c₂;
          device = d₁;
        };
        result =
            rw (wrote, drop-length s.central.actions, node_takes A c payload reply d₁ l a d, back)
              refl;
        between_frames = idle;
        calls = calls;
        node = refl;
        nodes = nodes;
      }
