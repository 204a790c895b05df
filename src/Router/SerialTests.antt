-- ===== src/Router/SerialTests.antt =====
-- The serial line of the router, in pieces and with two tasks.
use klippylink.Common.{ℕ, ◌≡◌, refl, true, false, Option, none, some, List, [], ◌∷◌, ◌++◌, arith}
use klippylink.Protocol.{Command, packet, header}
use klippylink.Router.Parser.{start}
use klippylink.Router.Parser.Bounds.{start-IsValid}
use klippylink.Router.Parser.Frames.{packet-IsPacket, wire, deliveries}
use klippylink.Router.Serial.{emit_id, emit_data, rx_task}
use klippylink.Router.Serial.Reads.{rx_task-wire}
use klippylink.Router.Serial.Writes.{Line, Holder, EmitStep, EmitRun, started, EmitRun-wire}
use klippylink.Router.Tests.{table}

-- A PING for every node, which comes in two reads with a timeout and an error in between.
abbrev frames : List (ℕ × List ℕ)
frames = (255, packet Command.ping []) ∷ []

abbrev reads : List (Option (List ℕ))
reads = some (255 ∷ 0x4C ∷ []) ∷ some [] ∷ none ∷ some (0x4B ∷ 1 ∷ 0 ∷ []) ∷ []

rx_task-wire_example :
    ((rx_task table reads start).0.rx_have_nid ≡ false)
    × ((rx_task table reads start).1 ≡ deliveries table frames)
rx_task-wire_example =
    rx_task-wire table start frames reads start-IsValid refl
      (packet-IsPacket Command.ping [] (omega arith), tt) refl

abbrev line : Line
line = record { bridge = record { has_mutex = true; output = [] }; holder = Holder.nobody }

abbrev beat : List ℕ
beat = header Command.heartbeat 0

-- After a call with a heartbeat of node 1.
abbrev sent : Line
sent = record { bridge = record { has_mutex = true; output = 1 ∷ beat }; holder = Holder.nobody }

one_call : EmitRun line sent
unfolding emit_id emit_data
one_call =
    EmitRun.step
      (EmitRun.step
        (EmitRun.step (EmitRun.step EmitRun.stay (EmitStep.takes 1 beat refl refl))
          (EmitStep.writes_id 1 beat refl))
        (EmitStep.writes_data 1 beat refl))
      (EmitStep.gives 1 beat refl)

EmitRun-wire_example : 1 ∷ beat ≡ [] ++ wire (started one_call)
EmitRun-wire_example = EmitRun-wire refl one_call refl
