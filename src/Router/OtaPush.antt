-- ===== src/Router/OtaPush.antt =====
-- router/main/ota_handler.c: a firmware image pushed to a node in packets.
-- `ble_central_send_to_node` and the CRC in ROM are arguments; of a buffer that is sent the model
-- has the bytes that are sent.
pub mod Chunks
pub mod Sent
pub mod Ends
use klippylink.Common.{
  ℕ, zero, suc, ◌+◌, ◌-◌, ◌*◌, ◌/◌, ◌%◌, ◌^◌, ◌≤◌, ◌<◌, min, ◌≡◌, refl, sym, ap, ap₂, ◌∙◌, subst,
  ◌≢◌, ◌↔◌, ◌⊎◌, inl, inr, Bool, true, false, not, ◌&&◌, ◌||◌, Option, none, some, List, [], ◌∷◌,
  ◌++◌, map, append-nil, append_assoc, arith, ltb, leb, ◌==◌, if◌then◌else◌, ltb→lt, ltb→le, lt→ltb,
  le→ltb, leb→le, leb→lt, le→leb, lt→leb, ==_iff, ==_refl, ==_ne, ==→ne, Bool-cases, Option-cases,
  length, get_elem?, get_or, set, take, drop, replicate, length-append, length-set,
  get_elem?-set_self, get_elem?-set_ne, get_elem?-none, take-append-drop, length-take, length-drop,
  length-replicate, take-all, take-append_left, take-suc-set, take-take, get_or-take,
  get_or-append_left, All, All-append,
}
use klippylink.Esp.{Err, is_ok}
use klippylink.Protocol.{Command, header, u8, u32_bytes, klip_max_payload_size}

-- `chunk` at a number of bytes that are left
unfoldable pub chunk_len : ℕ → ℕ
chunk_len left = if ltb klip_max_payload_size left then klip_max_payload_size else left

-- OTA_DATA with the chunk at an offset.
unfoldable pub data_packet : List ℕ → ℕ → List ℕ
data_packet bytes offset =
    let chunk = chunk_len (length bytes - offset) in
    header Command.ota_data (u8 chunk) ++ take chunk (drop offset bytes)

module _ (crc32 : ℕ → List ℕ → ℕ) where
  -- OTA_BEGIN with `klip_ota_begin_t`: the size and the CRC.
  unfoldable pub begin_packet : List ℕ → List ℕ
  begin_packet bytes =
      header Command.ota_begin 8 ++ (u32_bytes (length bytes) ++ u32_bytes (crc32 0 bytes))

module _ {S : Type 0} (send : List ℕ → S → Err × S) where
  -- The loop over the chunks: one unit of fuel for each round.
  unfoldable pub stream : ℕ → List ℕ → ℕ → S → Err × S
  stream zero bytes offset s = (Err.esp_ok, s)
  stream (suc fuel) bytes offset s =
      let (e, s') = send (data_packet bytes offset) s in
      let rest = stream fuel bytes (offset + chunk_len (length bytes - offset)) s' in
      let sent = if is_ok e then rest else (e, s') in
      if ltb offset (length bytes) then sent else (Err.esp_ok, s)

  unfoldable pub finish : Err × S → Err × S
  finish (e, s) =
      if is_ok e
      then (let (e', s') = send (header Command.ota_end 0) s in
          if is_ok e' then (Err.esp_ok, s') else (e', s'))
      else (e, s)

module _ {S : Type 0} (crc32 : ℕ → List ℕ → ℕ) (send : List ℕ → S → Err × S) where
  -- The image may be the null pointer.
  unfoldable pub ota_push_to_node : Option (List ℕ) → S → Err × S
  ota_push_to_node none s = (Err.invalid_arg, s)
  ota_push_to_node (some bytes) s =
      if length bytes == 0
      then (Err.invalid_arg, s)
      else (let (e, s') = send (begin_packet crc32 bytes) s in
          if is_ok e then finish send (stream send (length bytes) bytes 0 s') else (e, s'))

-- A restart, which does not come back, or a returned error.
pub data SelfUpdate : Type 0 where
  restarts : SelfUpdate
  returns : Err → SelfUpdate

-- `ota_self_update`; `https_ota` is what `esp_https_ota` returns for a URL.
unfoldable pub ota_self_update : (List ℕ → Err) → List ℕ → SelfUpdate
ota_self_update https_ota firmware_url =
    let ret = https_ota firmware_url in
    if is_ok ret then SelfUpdate.restarts else SelfUpdate.returns ret
