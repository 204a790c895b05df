-- ===== src/Node/Gatt/Table.antt =====
-- The attribute table that node/main/gatt_server.c hands to the Bluetooth stack.
use klippylink.Common.{
  ℕ, suc, ◌+◌, ◌/◌, ◌%◌, ◌≡◌, refl, Bool, true, false, Option, none, some, List, [], ◌∷◌, arith,
  ◌==◌, if◌then◌else◌, length, get_or, drop,
}
use klippylink.Protocol.{klip_max_packet_size}
use klippylink.Node.Gatt.{idx_cmd_val, idx_tel_val, idx_tel_cccd, idx_count}

-- `esp_gatts_attr_db_t`, as far as the source fills it in; `value` is what the attribute starts with.
pub record Attr : Type 0 where
  pub uuid : ℕ
  pub readable : Bool
  pub writable : Bool
  pub max_length : ℕ
  pub value : List ℕ

-- The assigned numbers of Bluetooth that ESP-IDF names ESP_GATT_UUID_* and ESP_GATT_CHAR_PROP_BIT_*.
abbrev primary_svc_uuid : ℕ
primary_svc_uuid = 0x2800

abbrev pub char_decl_uuid : ℕ
char_decl_uuid = 0x2803

abbrev pub cccd_uuid : ℕ
cccd_uuid = 0x2902

abbrev char_prop_write : ℕ
char_prop_write = 0x08 + 0x04

abbrev char_prop_notify : ℕ
char_prop_notify = 0x10

abbrev pub svc_uuid : ℕ
svc_uuid = 0x4B4C

abbrev pub char_cmd_uuid : ℕ
char_cmd_uuid = 0x4C01

abbrev pub char_tel_uuid : ℕ
char_tel_uuid = 0x4C02

abbrev pub gatt_db : List Attr
gatt_db =
    record {
      uuid = primary_svc_uuid;
      readable = true;
      writable = false;
      max_length = 2;
      value = svc_uuid % 256 ∷ svc_uuid / 256 ∷ [];
    }
    ∷ record {
      uuid = char_decl_uuid;
      readable = true;
      writable = false;
      max_length = 1;
      value = char_prop_write ∷ [];
    }
    ∷ record {
      uuid = char_cmd_uuid;
      readable = false;
      writable = true;
      max_length = klip_max_packet_size;
      value = [];
    }
    ∷ record {
      uuid = char_decl_uuid;
      readable = true;
      writable = false;
      max_length = 1;
      value = char_prop_notify ∷ [];
    }
    ∷ record {
      uuid = char_tel_uuid;
      readable = true;
      writable = false;
      max_length = klip_max_packet_size;
      value = [];
    }
    ∷ record {
      uuid = cccd_uuid;
      readable = true;
      writable = true;
      max_length = 2;
      value = 0 ∷ 0 ∷ [];
    }
    ∷ []

-- How a table is searched: the handle of the first attribute with a UUID.
abbrev pub handle_of : ℕ → List Attr → List ℕ → Option ℕ
handle_of uuid [] hs = none
handle_of uuid (a ∷ db) [] = none
handle_of uuid (a ∷ db) (h ∷ hs) =
    let rest = handle_of uuid db hs in if a.uuid == uuid then some h else rest

-- And of the first descriptor with a UUID, before the next declaration.
abbrev pub descr_of : ℕ → List Attr → List ℕ → Option ℕ
descr_of uuid [] hs = none
descr_of uuid (a ∷ db) [] = none
descr_of uuid (a ∷ db) (h ∷ hs) =
    let rest = descr_of uuid db hs in
    if a.uuid == char_decl_uuid then none else if a.uuid == uuid then some h else rest

-- The two characteristics and the descriptor stand at the indices that the callbacks use.
pub handle_of-gatt_db :
    (hs : List ℕ)
    → length hs ≡ idx_count
    → (handle_of char_cmd_uuid gatt_db hs ≡ some (get_or hs idx_cmd_val 0))
      × (handle_of char_tel_uuid gatt_db hs ≡ some (get_or hs idx_tel_val 0))
      × (descr_of cccd_uuid (drop (suc idx_tel_val) gatt_db) (drop (suc idx_tel_val) hs)
          ≡ some (get_or hs idx_tel_cccd 0))
handle_of-gatt_db [] e = absurd (omega arith)
handle_of-gatt_db (a ∷ []) e = absurd (omega arith)
handle_of-gatt_db (a ∷ b ∷ []) e = absurd (omega arith)
handle_of-gatt_db (a ∷ b ∷ c ∷ []) e = absurd (omega arith)
handle_of-gatt_db (a ∷ b ∷ c ∷ d ∷ []) e = absurd (omega arith)
handle_of-gatt_db (a ∷ b ∷ c ∷ d ∷ f ∷ []) e = absurd (omega arith)
handle_of-gatt_db (a ∷ b ∷ c ∷ d ∷ f ∷ g ∷ hs) e = (refl, refl, refl)
