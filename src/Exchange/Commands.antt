-- ===== src/Exchange/Commands.antt =====
-- What the host gets in answer to the commands that a node answers.
use klippylink.Common.{
  ℕ, ◌<◌, ◌≡◌, refl, true, Option, some, List, [], ◌∷◌, arith, if◌then◌else◌, le→leb, length,
  length-take,
}
use klippylink.Json.{Json, c_string}
use klippylink.Json.Doc.{Shows}
use klippylink.Protocol.{Command, packet, packet_command, klip_max_payload_size}
use klippylink.Protocol.Codes.{command_of}
use klippylink.Router.Registry.{Node}
use klippylink.Router.Serial.Reads.{received}
use klippylink.Router.Central.Conns.{Conn}
use klippylink.Router.Central.{is_packet, take_command, take_info}
use klippylink.Node.Endstop.{endstop_read}
use klippylink.Node.Config.Bounds.{IsBounded}
use klippylink.Node.Gatt.{Board, send_device_info}
use klippylink.Node.Gatt.Info.{info_doc, info_packet, info_len}
use klippylink.Node.Gatt.Dispatch.{dispatch_command}
use klippylink.Discovery.{Learnt}
use klippylink.Discovery.Described.{take_info-info_packet}
use klippylink.Exchange.{Air, System}
use klippylink.Exchange.Links.{IsLinked}
use klippylink.Exchange.Answered.{Answered, Carries, asks}

module _ (B : Board) (J : Json) (A : Air) where
  -- A HEARTBEAT that the host writes to a linked node (one that the router knows with its command
  -- handle, that is connected and has notifications on, while the router's parser is between frames),
  -- when the router's stack takes the write and both packets fit in the MTU, reaches the node, however
  -- the line cuts the frame into reads; the node says a HEARTBEAT and does nothing else. If the
  -- router's stack hands notifications on, the host gets that HEARTBEAT under the node's id, and the
  -- node table has the same slots; if it does not (no code calls esp_ble_gattc_register_for_notify),
  -- the router does nothing after its write.
  pub exchange-heartbeat :
      {nid link : ℕ} {n : Node} {k : Conn} {s : System B} (reads : List (Option (List ℕ)))
      → IsLinked B nid link n k s
      → Carries B A link k (packet Command.heartbeat []) (packet Command.heartbeat [])
      → received reads ≡ nid ∷ packet Command.heartbeat []
      → Answered B J A link reads nid
          (packet Command.heartbeat [])
          (packet Command.heartbeat [])
          n
          k
          s
  unfolding dispatch_command take_command
  exchange-heartbeat {n = n} reads l a e =
      asks B J A Command.heartbeat [] (packet Command.heartbeat []) n reads l a (omega arith) e refl
        refl (omega arith) refl

  abbrev pub state_of : (s : System B) → ℕ → List ℕ
  state_of s idx =
      packet Command.endstop_state
        (idx ∷ (if endstop_read s.device.levels idx s.device.endstops then 1 else 0) ∷ [])

  info_packet-is_packet : (json : List ℕ) → is_packet (info_packet json) ≡ true
  unfolding info_packet
  info_packet-is_packet json =
      let h = le→leb 4 (length (info_packet json)) (omega arith) in rw h refl

  info_packet-short :
      (json : List ℕ) → length json < klip_max_payload_size → length (info_packet json) < 256
  unfolding info_packet
  info_packet-short json small = let h = length-take (info_len (length json)) json in omega arith

  takes_info :
      (json : List ℕ) (n n' : Node)
      → take_info J (info_packet json) n ≡ some n'
      → take_command J (command_of (packet_command (info_packet json))) (info_packet json) n
        ≡ some n'
  unfolding take_command info_packet
  takes_info json n n' h = h

  -- A DEVICE_INFO_REQ that the host writes to a linked node, when the router's stack takes the write and
  -- both packets fit in the MTU, makes the node say the description of its configuration, without a zero
  -- byte at its end. If the router's stack hands notifications on, the host gets that packet under the
  -- node's id, and the router's slot of the node has learnt the configuration: its name, its strips
  -- with their numbers of LEDs and the names of its endstops; if it does not, the router does nothing
  -- after its write. The configuration is in its bounds, the description is a text without a zero byte
  -- that is not empty, is shorter than 244 bytes and shows it when parsed, and the slot has its arrays
  -- of 4 and 8.
  pub exchange-device_info :
      {nid link : ℕ} {n : Node} {k : Conn} {s : System B} (json : List ℕ) (root : J.Value)
      (reads : List (Option (List ℕ)))
      → IsLinked B nid link n k s
      → Carries B A link k (packet Command.device_info_req []) (info_packet json)
      → received reads ≡ nid ∷ packet Command.device_info_req []
      → B.print_unformatted (info_doc s.device.cfg) ≡ some json
      → 0 < length json
      → length json < klip_max_payload_size
      → c_string json ≡ json
      → J.parse json ≡ some root
      → Shows J (info_doc s.device.cfg) root
      → IsBounded s.device.cfg
      → length n.neopixels ≡ 4
      → length n.endstops ≡ 8
      → (n' : Node) × Learnt s.device.cfg n n'
        × Answered B J A link reads nid
            (packet Command.device_info_req [])
            (info_packet json)
            n'
            k
            s
  unfolding dispatch_command send_device_info take_command
  exchange-device_info {n = n} {s = s} json root reads l a e printed pos small text p shown b ls
        le =
      let (n', took, learnt) =
        take_info-info_packet J s.device.cfg n json root pos small text p shown b ls le in
      (
        n',
        learnt,
        asks B J A Command.device_info_req [] (info_packet json) n' reads l a (omega arith) e
            (rw (printed, send_device_info) refl) (info_packet-is_packet json)
            (info_packet-short json small) (takes_info json n n' took),
      )
