-- ===== src/Router/OtaPush/Sent.antt =====
-- What a push that is never refused has sent.
use klippylink.Common.{
  ℕ, ◌<◌, ◌≡◌, refl, ap, ◌∙◌, some, List, [], ◌∷◌, ◌++◌, append-nil, append_assoc, length, All,
}
use klippylink.Esp.{Err}
use klippylink.Protocol.{Command, header}
use klippylink.Node.Ota.Transfer.{join}
use klippylink.Router.OtaPush.{begin_packet, ota_push_to_node}
use klippylink.Router.OtaPush.Chunks.{
  IsPiece, data_packets, packets, pieces, send_all, ota_push-send_all, join-pieces,
}

-- A sender that takes every packet and keeps them in order.
abbrev pub log_packet : List ℕ → List (List ℕ) → Err × List (List ℕ)
log_packet p log = (Err.esp_ok, log ++ p ∷ [])

send_all-log : (ps log : List (List ℕ)) → send_all log_packet ps log ≡ (Err.esp_ok, log ++ ps)
unfolding send_all
send_all-log [] log = rw append-nil refl
send_all-log (p ∷ ps) log =
    send_all-log ps (log ++ p ∷ []) ∙ ap (λ l. (Err.esp_ok, l)) (append_assoc log (p ∷ []) ps)

-- When every packet is taken, pushing an image that is not empty succeeds, and what has been sent is
-- OTA_BEGIN, OTA_DATA packets of 1 to 244 bytes that joined are the image, and OTA_END.
pub ota_push-log :
    (crc32 : ℕ → List ℕ → ℕ) (bytes : List ℕ)
    → 0 < length bytes
    → (cs : List (List ℕ)) × (ota_push_to_node crc32 log_packet (some bytes) [] ≡ (
      Err.esp_ok,
      begin_packet crc32 bytes ∷ (data_packets cs ++ header Command.ota_end 0 ∷ []),
    ))
      × (join cs ≡ bytes)
      × All IsPiece cs
ota_push-log crc32 bytes h =
    let (whole, sizes) = join-pieces bytes in
    (
      pieces bytes,
      ota_push-send_all crc32 log_packet bytes [] h ∙ send_all-log (packets crc32 bytes) [],
      whole,
      sizes,
    )
