-- ===== src/Discovery/Tests.antt =====
-- The description of the bench's node.
use klippylink.Common.{ℕ, ◌≡◌, refl, List, [], ◌∷◌}
use klippylink.Json.{c_string}
use klippylink.Json.Doc.{Shows}
use klippylink.Bench.{device_cfg, json_of}
use klippylink.Node.Gatt.Info.{info_doc}
use klippylink.Router.Registry.{bytes_eq}

abbrev pub text : List ℕ
text = b'{' ∷ b'}' ∷ []

pub plain_text : c_string text ≡ text
unfolding c_string
plain_text = refl

pub shown : Shows (json_of (info_doc device_cfg)) (info_doc device_cfg) (info_doc device_cfg)
unfolding bytes_eq
shown = (
  (_, refl, (refl, refl)),
  (
    (_, refl, (refl, refl)),
    (
      (_, refl, (refl, refl, (((_, refl, (refl, refl)), ((_, refl, (refl, refl)), tt)), tt))),
      ((_, refl, (refl, refl, (((_, refl, (refl, refl)), tt), tt))), tt),
    ),
  ),
)
