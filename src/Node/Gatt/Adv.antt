-- ===== src/Node/Gatt/Adv.antt =====
-- The advertising data of node/main/gatt_server.c: flags, the service, and the name if it fits.
use klippylink.Common.{ℕ, ◌+◌, ◌/◌, ◌%◌, List, [], ◌∷◌, ◌++◌, leb, if◌then◌else◌, length, take}
use klippylink.Protocol.{u8}

abbrev pub raw_adv_size : ℕ
raw_adv_size = 31

-- `SVC_UUID`
abbrev pub svc_uuid : ℕ
svc_uuid = 0x4B4C

-- Flags 0x06 are ESP_BLE_ADV_FLAG_GEN_DISC and ESP_BLE_ADV_FLAG_BREDR_NOT_SPT.
abbrev pub adv_head : List ℕ
adv_head = 0x02 ∷ 0x01 ∷ 0x06 ∷ 3 ∷ 0x03 ∷ svc_uuid % 256 ∷ svc_uuid / 256 ∷ []

-- `raw_adv[0..pos)`
unfoldable pub raw_adv : List ℕ → List ℕ
raw_adv dev_name =
    let name_len = u8 (length dev_name) in
    if leb (length adv_head + 2 + name_len) raw_adv_size
    then adv_head ++ ((1 + name_len) ∷ 0x09 ∷ take name_len dev_name)
    else adv_head
