-- ===== src/Node/Ota/Session.antt =====
-- How an update that was written whole is checked at its end.
use klippylink.Common.{
  ℕ, ◌^◌, ◌<◌, ◌≡◌, refl, sym, ap, ◌∙◌, ◌≢◌, ◌⊎◌, Bool, true, false, not, ◌&&◌, List, [], ◌∷◌, ◌++◌,
  arith, ◌==◌, ==_ne, length,
}
use klippylink.Esp.{Err, is_ok}
use klippylink.Protocol.{OtaStatus}
use klippylink.Node.Ota.Driver.{Platform, Laws}
use klippylink.Node.Ota.{
  Event, World, tell, ota_begin, ota_end, close, boot, stop_failed, crc_rejects, actual_crc,
}
use klippylink.Node.Ota.ReadBack.{actual_crc_lem}
use klippylink.Node.Ota.Transfer.{
  join, write_all, IsReceiving, ota_begin-IsReceiving, write_all-IsReceiving,
}

module _ (P : Platform) (L : Laws P) where
  -- The check compares the CRC of the bytes that came with the one announced.
  pub crc_rejects-IsReceiving :
      {crc32 : ℕ} {cb : Bool} {part : ℕ} {bytes : List ℕ} {w : World P}
      → IsReceiving P L crc32 cb part bytes w
      → P.malloc_ok w.dev ≡ true
      → crc_rejects P w ≡ (not (crc32 == 0) && not (P.crc 0 bytes == crc32))
  unfolding crc_rejects
  crc_rejects-IsReceiving {part = part} {w = w} v m =
      let size = v.counted ∙ ap length (sym v.holds) in
      simp (actual_crc_lem P L w part v.to_part m size, v.holds, v.expects) refl

  -- The world after an update was started and its pieces written.
  abbrev pub written : ℕ → ℕ → Bool → List (List ℕ) → World P → World P
  written size crc32 cb chunks w = (write_all P chunks (ota_begin P size crc32 cb w).1).1

  -- Every call that started and wrote the update succeeded, the image is below 4 GiB, and there is
  -- memory for the read-back.
  pub record IsWritten (size crc32 : ℕ) (cb : Bool) (chunks : List (List ℕ)) (w : World P)
      : Type 0 where
    pub started : is_ok (ota_begin P size crc32 cb w).0 ≡ true
    pub took : is_ok (write_all P chunks (ota_begin P size crc32 cb w).1).0 ≡ true
    pub small : length (join chunks) < 2 ^ 32
    pub memory : P.malloc_ok (written size crc32 cb chunks w).dev ≡ true

  pub written-IsReceiving :
      {size crc32 : ℕ} {cb : Bool} {chunks : List (List ℕ)} {w : World P}
      → IsWritten size crc32 cb chunks w
      → (part : ℕ) × IsReceiving P L crc32 cb part (join chunks) (written size crc32 cb chunks w)
  written-IsReceiving {size} {crc32} {cb} {chunks} {w} h =
      let (part, v) = ota_begin-IsReceiving P L size crc32 cb w h.started in
      (part, write_all-IsReceiving P L chunks v h.small h.took)

  -- An update that was started and whose writes all succeeded, of an image below 4 GiB, with memory
  -- for the read-back at its end, whose bytes do not have the announced CRC, which is not 0: its end
  -- returns ESP_ERR_INVALID_CRC and the update is over, and the only thing that it reports is
  -- OTA_FAILED, through the status callback if one was set; there is no restart.
  pub ota_end-corrupt :
      (size crc32 : ℕ) (cb : Bool) (chunks : List (List ℕ)) (w : World P)
      → IsWritten size crc32 cb chunks w
      → crc32 ≢ 0
      → P.crc 0 (join chunks) ≢ crc32
      → (let w' = written size crc32 cb chunks w in
          ((ota_end P w').0 ≡ Err.invalid_crc)
          × ((ota_end P w').1.ota.active ≡ false)
          × ((ota_end P w').1.log ≡ tell cb OtaStatus.failed w'.log))
  unfolding ota_end stop_failed
  ota_end-corrupt size crc32 cb chunks w h nz ne =
      let (part, v) = written-IsReceiving h in
      let bad : crc_rejects P (written size crc32 cb chunks w) ≡ true =
        rw (crc_rejects-IsReceiving v h.memory)
          (simp (==_ne crc32 0 nz, ==_ne (P.crc 0 (join chunks)) crc32 ne) refl) in
      simp (v.active, bad, v.callback) (refl, refl, refl)

  -- An update whose pieces have the announced CRC, or for which CRC 0 was announced, is booted at its
  -- end if the driver closes it and takes it as boot partition: ESP_OK, the host is told, and the node
  -- restarts.
  pub ota_end-intact :
      (size crc32 : ℕ) (cb : Bool) (chunks : List (List ℕ)) (w : World P)
      → IsWritten size crc32 cb chunks w
      → (crc32 ≡ 0) ⊎ (P.crc 0 (join chunks) ≡ crc32)
      → (let w' = written size crc32 cb chunks w in
          let closed = P.finish w'.dev w'.ota.handle in
          (is_ok closed.0 ≡ true) × (is_ok (P.set_boot closed.1 w'.ota.part).0 ≡ true))
      → (let w' = written size crc32 cb chunks w in
          ((ota_end P w').0 ≡ Err.esp_ok)
          × ((ota_end P w').1.ota.active ≡ false)
          × ((ota_end P w').1.log ≡ tell cb OtaStatus.done w'.log ++ Event.restart ∷ []))
  unfolding ota_end close boot
  ota_end-intact size crc32 cb chunks w h right driver =
      let (part, v) = written-IsReceiving h in
      let good = crc_rejects-IsReceiving v h.memory ∙ passes right in
      simp (v.active, good, driver.0, driver.1, v.callback) (refl, refl, refl)
    where
      passes :
          (crc32 ≡ 0) ⊎ (P.crc 0 (join chunks) ≡ crc32)
          → (not (crc32 == 0) && not (P.crc 0 (join chunks) == crc32)) ≡ false
      passes x = ground arith

-- The size that the host announced is never compared with what came: with another `s_total_bytes`
-- the end of an update has the same result and leaves the same flash and the same events.
pub ota_end-total_bytes :
    (P : Platform) (w : World P) (n : ℕ)
    → (let w' = record w { ota = record (w.ota) { total_bytes = n } } in
        ((ota_end P w').0 ≡ (ota_end P w).0)
        × ((ota_end P w').1.dev ≡ (ota_end P w).1.dev)
        × ((ota_end P w').1.log ≡ (ota_end P w).1.log))
unfolding ota_end close boot stop_failed crc_rejects actual_crc
ota_end-total_bytes P w n = ground arith
