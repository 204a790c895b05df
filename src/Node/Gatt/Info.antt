-- ===== src/Node/Gatt/Info.antt =====
-- `send_device_info` of node/main/gatt_server.c: the packet that describes a node.
use klippylink.Common.{ℕ, ◌-◌, List, [], ◌∷◌, ◌++◌, map, ltb, if◌then◌else◌, length, take}
use klippylink.Protocol.{Command, header, klip_max_payload_size, u8}
use klippylink.Json.Doc.{Doc, Fields, docs}
use klippylink.Router.Registry.Info.{key_name, key_count, key_neopixels, key_endstops}
use klippylink.Node.Config.{NeopixelCfg, EndstopCfg, DeviceCfg}

abbrev pub key_role : List ℕ
key_role = b'r' ∷ b'o' ∷ b'l' ∷ b'e' ∷ []

-- `"node"`
abbrev pub role_node : List ℕ
role_node = b'n' ∷ b'o' ∷ b'd' ∷ b'e' ∷ []

abbrev pub strip_doc : NeopixelCfg → Doc
strip_doc n = Doc.object (
    Fields.field key_name (Doc.text n.name)
      (Fields.field key_count (Doc.number n.count) Fields.end))

abbrev pub input_doc : EndstopCfg → Doc
input_doc e = Doc.object (Fields.field key_name (Doc.text e.name) Fields.end)

abbrev pub info_doc : DeviceCfg → Doc
info_doc c = Doc.object (
    Fields.field key_name (Doc.text c.device_name) (
      Fields.field key_role (Doc.text role_node) (
        Fields.field key_neopixels
          (Doc.array (docs (map strip_doc (take c.neopixel_count c.neopixels))))
          (Fields.field key_endstops
            (Doc.array (docs (map input_doc (take c.endstop_count c.endstops)))) Fields.end))))

-- The length of the payload: a text of 244 bytes or more is cut after 243.
unfoldable pub info_len : ℕ → ℕ
info_len jlen = if ltb jlen klip_max_payload_size then jlen else klip_max_payload_size - 1

-- The packet with a printed text.
unfoldable pub info_packet : List ℕ → List ℕ
info_packet json =
    let n = info_len (length json) in header Command.device_info_resp (u8 n) ++ take n json
