-- ===== src/Router/FrameTests.antt =====
-- The router's frames and the node's image on their way, on concrete bytes.
use klippylink.Common.{ℕ, ◌+◌, ◌-◌, ◌≡◌, refl, List, [], ◌∷◌, arith, take, replicate, All}
use klippylink.Esp.{Err}
use klippylink.Protocol.{Command, header, packet}
use klippylink.Router.Parser.{start, route, command_parser_feed}
use klippylink.Router.Parser.Spec.{View, accept_all}
use klippylink.Router.Parser.Bounds.{IsValid, Fits, start-IsValid, command_parser_feed-IsValid}
use klippylink.Router.Parser.Refine.{view, command_parser_feed_refines}
use klippylink.Router.Parser.Desync.{command_parser_feed-stray, command_parser_feed-wrapped}
use klippylink.Router.OtaPush.Ends.{stream_enough}
use klippylink.Router.OtaPush.{stream}
use klippylink.Router.Tests.{table}

abbrev bytes : List ℕ
bytes = 0 ∷ header Command.ping 0

command_parser_feed_refines_example :
    (let (q, sent) = command_parser_feed table start bytes in (view q, sent))
    ≡ accept_all table (view start) bytes
command_parser_feed_refines_example = command_parser_feed_refines table start bytes start-IsValid

command_parser_feed-IsValid_example :
    IsValid (command_parser_feed table start bytes).0
    × All Fits (command_parser_feed table start bytes).1
command_parser_feed-IsValid_example = command_parser_feed-IsValid table start bytes start-IsValid

abbrev color : List ℕ
color = 0 ∷ 255 ∷ 128 ∷ 0 ∷ []

command_parser_feed-stray_example :
    (command_parser_feed table start (1 ∷ 0 ∷ packet Command.neopixel_set color)).1
    ≡ route table 1 (packet Command.neopixel_set color)
command_parser_feed-stray_example =
    command_parser_feed-stray table start 1 0 Command.neopixel_set color start-IsValid refl
      (omega arith)

command_parser_feed-wrapped_example :
    (view (command_parser_feed table start (0 ∷ header Command.ota_data 254)).0 ≡ View.idle)
    × ((command_parser_feed table start (0 ∷ header Command.ota_data 254)).1
        ≡ route table 0 (take (254 - 252) (header Command.ota_data 254)))
command_parser_feed-wrapped_example =
    command_parser_feed-wrapped table start 0 Command.ota_data 254 start-IsValid refl (omega arith)
      (omega arith)

abbrev body : List ℕ
body = replicate 244 7

abbrev sum_of : ℕ → List ℕ → ℕ
sum_of c [] = c
sum_of c (x ∷ xs) = sum_of (c + x) xs

-- A sender that counts the packets.
abbrev count_packet : List ℕ → ℕ → Err × ℕ
count_packet p n = (Err.esp_ok, n + 1)

stream_enough_example :
    stream count_packet (3 + 7) (1 ∷ 2 ∷ 3 ∷ []) 0 0 ≡ stream count_packet 3 (1 ∷ 2 ∷ 3 ∷ []) 0 0
stream_enough_example = stream_enough count_packet 3 7 (1 ∷ 2 ∷ 3 ∷ []) 0 0 (omega arith)
