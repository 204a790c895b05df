-- ===== src/Router/Parser/Spec.antt =====
-- What the parser promises, over the bytes that are pending rather than a buffer and an offset.
use klippylink.Common.{ℕ, List, [], ◌∷◌, ◌++◌, leb, ◌==◌, if◌then◌else◌, length, take, drop}
use klippylink.Protocol.{klipproto_magic, klip_header_size, klip_max_packet_size, packet_magic}
use klippylink.Router.Registry.{Registry}
use klippylink.Router.Parser.{Send, route, total_len}

-- Between frames, or inside one for a node with the bytes that have come.
pub data View : Type 0 where
  idle : View
  pending : ℕ → List ℕ → View

-- Frames: a finished packet goes out, a wrong first pair of bytes costs one byte.
unfoldable pub settle : Registry → ℕ → List ℕ → View × List Send
settle r nid q =
    if leb klip_header_size (length q)
    then (if packet_magic q == klipproto_magic
        then (if leb (total_len q) (length q)
            then (View.idle, route r nid (take (total_len q) q))
            else (View.pending nid q, []))
        else (View.pending nid (drop 1 q), []))
    else (View.pending nid q, [])

unfoldable pub accept : Registry → View → ℕ → View × List Send
accept r View.idle b = (View.pending b [], [])
accept r (View.pending nid q) b =
    if leb klip_max_packet_size (length q) then (View.idle, []) else settle r nid (q ++ (b ∷ []))

unfoldable pub accept_all : Registry → View → List ℕ → View × List Send
accept_all r v [] = (v, [])
accept_all r v (b ∷ bs) =
    let (w, sent) = accept r v b in let (w', more) = accept_all r w bs in (w', sent ++ more)
