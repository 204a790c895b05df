-- ===== src/Node/Gatt/Answers/Packets.antt =====
-- Every packet is answered to the central, or not at all.
use klippylink.Common.{ℕ, ◌≡◌, refl, some, List}
use klippylink.Node.Gatt.{Board, Device}
use klippylink.Node.Gatt.Dispatch.{dispatch_packet}
use klippylink.Node.Gatt.Cases.{Respects, dispatch_packet-Gives}
use klippylink.Node.Gatt.Answers.{
  Answers, silent, tell_central-Answers, run_ota-Answers, send_device_info-Answers,
}

module _ (B : Board) where
  Answers-Respects : (value : List ℕ) → Respects B value (Answers B)
  Answers-Respects value = record {
    stays = λ d. silent B refl refl;
    tells = λ bytes d. tell_central-Answers B bytes d;
    describes = λ d. send_device_info-Answers B d;
    updates = λ f d. run_ota-Answers B f d;
    joins = λ w d. silent B refl refl;
    heats = λ h d. silent B refl refl;
    lights = λ i c d. silent B refl refl;
    fills = λ c d. silent B refl refl;
    ranges = λ start count c d. silent B refl refl;
    zones = λ p d e q. silent B refl refl;
    clears = λ id d. silent B refl refl;
  }

  -- Whatever packet a node takes, its link and its configuration stay, and all it hands to the stack is
  -- restarts and notifications of less than 256 bytes on the telemetry, the latter only while a
  -- central is connected and has turned notifications on.
  pub dispatch_packet-Answers :
      (value : List ℕ) (d d' : Device B) → dispatch_packet B value d ≡ some d' → Answers B d d'
  dispatch_packet-Answers value = dispatch_packet-Gives B value (Answers B) (Answers-Respects value)
