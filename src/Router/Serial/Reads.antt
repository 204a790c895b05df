-- ===== src/Router/Serial/Reads.antt =====
-- What the host writes, in whatever pieces the line hands it over.
use klippylink.Common.{
  ℕ, ◌≡◌, refl, sym, true, false, Option, none, some, List, [], ◌∷◌, ◌++◌, arith, ltb, lt→ltb,
  length, All,
}
use klippylink.Router.Registry.{Registry}
use klippylink.Router.Parser.{Parser, command_parser_feed}
use klippylink.Router.Parser.Bounds.{IsValid}
use klippylink.Router.Parser.Frames.{
  IsFrame, wire, deliveries, command_parser_feed-append, command_parser_feed-wire,
}
use klippylink.Router.Serial.{rx_round, rx_task}

-- All bytes that were read.
abbrev pub received : List (Option (List ℕ)) → List ℕ
received [] = []
received (none ∷ xs) = received xs
received (some bytes ∷ xs) = bytes ++ received xs

feed_nil : (r : Registry) (p : Parser) → (p, []) ≡ command_parser_feed r p []
unfolding command_parser_feed
feed_nil r p = refl

rx_task-feed :
    (r : Registry) (xs : List (Option (List ℕ))) (p : Parser)
    → rx_task r xs p ≡ command_parser_feed r p (received xs)
unfolding rx_task rx_round
rx_task-feed r [] p = feed_nil r p
rx_task-feed r (none ∷ xs) p = rx_task-feed r xs p
rx_task-feed r (some [] ∷ xs) p = rx_task-feed r xs p
rx_task-feed r (some (b ∷ bs) ∷ xs) p =
    let some_bytes : ltb 0 (length (b ∷ bs)) ≡ true = lt→ltb 0 (length (b ∷ bs)) (omega arith) in
    simp (some_bytes, rx_task-feed r xs (command_parser_feed r p (b ∷ bs)).0)
      (sym (command_parser_feed-append r p (b ∷ bs) (received xs)))

-- Well-formed frames that the host writes while the registry stays, to a parser that is in order
-- and between frames, are sent on whole, in order and to nobody else: a frame for 0xFF once to the
-- connection of each connected slot, in the order of the slots, and any other to the connection of the
-- slot that it names if that is connected, however the line cuts the frames into reads and whatever
-- reads fail or time out in between; and the parser is between frames again.
pub rx_task-wire :
    (r : Registry) (p : Parser) (fs : List (ℕ × List ℕ)) (xs : List (Option (List ℕ)))
    → IsValid p
    → p.rx_have_nid ≡ false
    → All IsFrame fs
    → received xs ≡ wire fs
    → ((rx_task r xs p).0.rx_have_nid ≡ false) × ((rx_task r xs p).1 ≡ deliveries r fs)
rx_task-wire r p fs xs v idle h e =
    rw (rx_task-feed r xs p, e) (command_parser_feed-wire r p fs v idle h)
