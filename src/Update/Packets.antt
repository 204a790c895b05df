-- ===== src/Update/Packets.antt =====
-- What each packet of an update does to a node that it is delivered to.
use klippylink.Common.{
  ℕ, ◌+◌, ◌^◌, ◌<◌, ◌≡◌, refl, ap, ◌∙◌, inl, inr, true, not, ◌||◌, some, List, [], ◌∷◌, ◌++◌, arith,
  leb, ◌==◌, le→leb, ==_refl, ==_ne, Bool-cases, length, get_or, take-all,
}
use klippylink.Esp.{Err}
use klippylink.Protocol.{
  klip_header_size, Command, header, packet, u8, u32_le, u32_bytes, status_code,
}
use klippylink.Protocol.Codes.{u32_le-u32_bytes, command_of-command_code}
use klippylink.Node.Ota.{Event, ota_begin, ota_write, ota_end}
use klippylink.Node.Gatt.{
  Board, Device, idx_cmd_val, idx_tel_cccd, gatt_server_notify, payload_bytes, with_payload,
  no_conn, tell_central, ota_event, ota_events, run_ota,
}
use klippylink.Node.Gatt.Dispatch.{dispatch_packet, dispatch_command, ota_begin_case, ota_data_case}
use klippylink.Node.Gatt.Events.{on_gatts_write}
use klippylink.Router.OtaPush.{begin_packet}
use klippylink.Update.{deliver, HasHandles}

module _ (B : Board) where
  -- The OTA handler's state, the flash and the handles.
  abbrev pub Kept : Device B → Device B → Type 0
  Kept d d' = (d'.ota ≡ d.ota) × (d'.flash ≡ d.flash) × (d'.handles ≡ d.handles)

  tell_central-Kept : (bytes : List ℕ) (d : Device B) → Kept d (tell_central B bytes d)
  unfolding gatt_server_notify
  tell_central-Kept bytes d = elim (Bool-cases (d.conn_id == no_conn || not d.notify_enabled)) [
    | inl e ↦ rw (e, tell_central) (refl, refl, refl)
    | inr e ↦ rw (e, tell_central) (refl, refl, refl)
  ]

  pub ota_events-Kept : (es : List Event) (d : Device B) → Kept d (ota_events B es d)
  unfolding ota_events
  ota_events-Kept [] d = (refl, refl, refl)
  ota_events-Kept (Event.restart ∷ es) d = ota_events-Kept es (ota_event B Event.restart d)
  ota_events-Kept (Event.status st ∷ es) d =
      let (o, f, h) = tell_central-Kept (packet Command.ota_status (status_code st ∷ [])) d in
      let (o', f', h') = ota_events-Kept es (ota_event B (Event.status st) d) in
      (o' ∙ o, f' ∙ f, h' ∙ h)

module _ (B : Board) where
  pub on_gatts_write-command :
      (c : Command) (n : ℕ) (p : List ℕ) (d : Device B)
      → HasHandles B d
      → on_gatts_write B (get_or d.handles idx_cmd_val 0) (header c n ++ p) d
        ≡ dispatch_command B (some c) (header c n ++ p) d
  unfolding on_gatts_write dispatch_packet
  on_gatts_write-command c n p d hs =
      let q = ==_ne (get_or d.handles idx_cmd_val 0) (get_or d.handles idx_tel_cccd 0) hs in
      let r = ==_refl (get_or d.handles idx_cmd_val 0) in
      let k : leb klip_header_size (length (header c n ++ p)) ≡ true =
        le→leb klip_header_size (length (header c n ++ p)) (omega arith) in
      simp (q, r, k)
        (ap (λ o. dispatch_command B o (header c n ++ p) d) (command_of-command_code c))

  deliver_lem :
      (c : Command) (n : ℕ) (p : List ℕ) (d d' : Device B)
      → HasHandles B d
      → dispatch_command B (some c) (header c n ++ p) d ≡ some d'
      → deliver B (header c n ++ p) d ≡ (Err.esp_ok, d')
  unfolding deliver
  deliver_lem c n p d d' hs e = rw (on_gatts_write-command c n p d hs ∙ e, deliver) refl

  payload_bytes-packet :
      (c : Command) (p : List ℕ) → payload_bytes 0 (length p) (header c (length p) ++ p) ≡ some p
  unfolding payload_bytes
  payload_bytes-packet c p =
      let fits : leb (4 + 0 + length p) (length (header c (length p) ++ p)) ≡ true =
        le→leb (4 + 0 + length p) (length (header c (length p) ++ p)) (omega arith) in
      simp (fits, take-all (length p) p (omega arith)) refl

  pub deliver-ota_data :
      (c : List ℕ) (d : Device B)
      → HasHandles B d
      → length c < 256
      → d.ota.active ≡ true
      → deliver B (packet Command.ota_data c) d ≡ (Err.esp_ok, run_ota B (ota_write B.platform c) d)
  unfolding dispatch_command ota_data_case
  deliver-ota_data c d hs small a =
      let size : u8 (length c) ≡ length c = omega arith in
      rw size (
        deliver_lem Command.ota_data (length c) c d _ hs
          (rw (a, payload_bytes-packet Command.ota_data c) refl))

  pub deliver-ota_end :
      (d : Device B)
      → HasHandles B d
      → deliver B (header Command.ota_end 0) d ≡ (Err.esp_ok, run_ota B (ota_end B.platform) d)
  unfolding dispatch_command
  deliver-ota_end d hs = deliver_lem Command.ota_end 0 [] d _ hs refl

  pub deliver-ota_begin :
      (crc32 : ℕ → List ℕ → ℕ) (bytes : List ℕ) (d : Device B)
      → HasHandles B d
      → length bytes < 2 ^ 32
      → crc32 0 bytes < 2 ^ 32
      → deliver B (begin_packet crc32 bytes) d
        ≡ (Err.esp_ok, run_ota B (ota_begin B.platform (length bytes) (crc32 0 bytes) true) d)
  unfolding begin_packet dispatch_command with_payload ota_begin_case payload_bytes
  deliver-ota_begin crc32 bytes d hs small crc_small =
      let s : u32_le (u32_bytes (length bytes)) ≡ length bytes =
        u32_le-u32_bytes (length bytes) small in
      let k : u32_le (u32_bytes (crc32 0 bytes)) ≡ crc32 0 bytes =
        u32_le-u32_bytes (crc32 0 bytes) crc_small in
      deliver_lem Command.ota_begin 8 (u32_bytes (length bytes) ++ u32_bytes (crc32 0 bytes)) d _ hs
        (rw (s, k) refl)
