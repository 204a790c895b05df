-- ===== src/Exchange/Tests.antt =====
-- Exchanges between the bench's node and a router that knows it as connection 3.
use klippylink.Common.{ℕ, ◌≡◌, refl, true, Option, some, List, [], ◌∷◌, arith}
use klippylink.Protocol.{Command, packet}
use klippylink.Router.Registry.{Node}
use klippylink.Router.Parser.{start}
use klippylink.Router.Parser.Bounds.{start-IsValid}
use klippylink.Router.Central.Conns.{Conn, new_conn, find_conn, find_from}
use klippylink.Router.Central.{writable}
use klippylink.Router.Tests.{node_a, json}
use klippylink.Router.CentralTests.{central, known_a, by_conn_a, take_all}
use klippylink.Node.ConfigTests.{bounded}
use klippylink.Node.Gatt.Info.{info_doc, info_packet, info_len}
use klippylink.Bench.{board, device_cfg, json_of, node}
use klippylink.Discovery.{Learnt}
use klippylink.Discovery.Tests.{text, plain_text, shown}
use klippylink.Esp.{Err}
use klippylink.Exchange.{Air, System}
use klippylink.Node.Gatt.Table.{gatt_db, handle_of}
use klippylink.Router.Central.{GattDb}
use klippylink.Exchange.Links.{IsLinked}
use klippylink.Exchange.Answered.{Answered, Carries}
use klippylink.Exchange.Commands.{exchange-heartbeat, exchange-device_info}

abbrev conn : Conn
conn = record (new_conn 3 1) { cmd_handle = 42; cmd_found = true }

-- Links that take every write and hand notifications on, with the least MTU and a larger one.
abbrev air : Air
air = record {
  write = take_all;
  write_descr = λ g conn handle bytes. Err.esp_ok;
  mtu = 23;
  hands_on = true;
}

abbrev wide_air : Air
wide_air = record air { mtu = 247 }

abbrev system : System board
system = record { parser = start; central = record central { conns = conn ∷ [] }; device = node }

usable : writable (find_conn 3 (conn ∷ [])) (conn ∷ []) ≡ some conn
unfolding find_conn find_from
usable = refl

linked : IsLinked board 0 3 node_a conn system
linked = record {
  valid = start-IsValid;
  idle = refl;
  one_node = omega arith;
  slot = refl;
  connected = refl;
  named = refl;
  by_link = by_conn_a;
  id_by_link = known_a;
  usable = usable;
  handle = refl;
  handles = omega arith;
  has_conn = omega arith;
  notifies = refl;
}

-- Two reads with a timeout between them.
abbrev two_reads : List ℕ → List (Option (List ℕ))
two_reads rest = some (0 ∷ 0x4C ∷ []) ∷ some [] ∷ some (0x4B ∷ rest) ∷ []

exchange-heartbeat_example :
    Answered board json air 3
      (two_reads (0xC0 ∷ 0 ∷ []))
      0
      (packet Command.heartbeat [])
      (packet Command.heartbeat [])
      node_a
      conn
      system
exchange-heartbeat_example =
    exchange-heartbeat board json air (two_reads (0xC0 ∷ 0 ∷ [])) linked
      (record { taken = refl; frame_fits = omega arith; reply_fits = omega arith }) refl

info_carried : Carries board wide_air 3 conn (packet Command.device_info_req []) (info_packet text)
unfolding info_packet info_len
info_carried = record { taken = refl; frame_fits = omega arith; reply_fits = omega arith }

exchange-device_info_example :
    (n' : Node) × Learnt device_cfg node_a n'
    × Answered board
        (json_of (info_doc device_cfg))
        wide_air
        3
        (two_reads (0x70 ∷ 0 ∷ []))
        0
        (packet Command.device_info_req [])
        (info_packet text)
        n'
        conn
        system
exchange-device_info_example =
    exchange-device_info board (json_of (info_doc device_cfg)) wide_air text (info_doc device_cfg)
      (two_reads (0x70 ∷ 0 ∷ [])) linked info_carried refl refl (omega arith) (omega arith)
      plain_text refl shown bounded refl refl

-- The stack's view of the node's table under its handles 40 to 45.
abbrev found_db : GattDb
found_db = record {
  char_by_uuid = λ conn uuid. handle_of uuid gatt_db node.handles;
  cccd_of = λ conn handle. some 45;
}
