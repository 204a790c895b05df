-- ===== src/Node/Ota/Branches.antt =====
-- Every branch of the operations of ota_handler.c.
use klippylink.Common.{
  ℕ, ◌+◌, ◌%◌, ◌^◌, ◌≡◌, refl, ap, ◌⊎◌, inl, inr, Bool, true, false, List, [], ◌∷◌, ◌++◌, arith,
  Bool-cases, Option-cases, length,
}
use klippylink.Esp.{Err, is_ok}
use klippylink.Protocol.{OtaStatus}
use klippylink.Node.Ota.Driver.{Platform}
use klippylink.Node.Ota.{
  Event, World, tell, ota_abort, ota_begin, start, ota_write, ota_end, close, boot, stop_failed,
  crc_rejects,
}

module _ (P : Platform) where
  -- Outside an update a piece, an end and an abort change nothing; the first two are refused.
  pub inactive_refused :
      (bytes : List ℕ) (w : World P)
      → w.ota.active ≡ false
      → (ota_write P bytes w ≡ (Err.invalid_state, w))
        × (ota_end P w ≡ (Err.invalid_state, w))
        × (ota_abort P w ≡ w)
  unfolding ota_write ota_end ota_abort
  inactive_refused bytes w h = (simp h refl, simp h refl, simp h refl)

  pub ota_abort-active : (w : World P) → (ota_abort P w).ota.active ≡ false
  unfolding ota_abort
  ota_abort-active w = elim (Bool-cases w.ota.active) [ inl e ↦ simp e refl | inr e ↦ simp e refl ]

  -- How an attempt to finish an update comes out: booted, with the check passed, the host told and
  -- the restart asked for; or an error, with the host told and no restart.
  pub data Finished (w : World P) (out : Err × World P) : Type 0 where
    booted :
        out.0 ≡ Err.esp_ok
        → crc_rejects P w ≡ false
        → out.1.log ≡ tell w.ota.cb OtaStatus.done w.log ++ Event.restart ∷ []
        → Finished w out
    failed : is_ok out.0 ≡ false → out.1.log ≡ tell w.ota.cb OtaStatus.failed w.log → Finished w out

  boot_lem :
      (w : World P)
      → ((boot P w).1.ota.active ≡ false)
        × (((boot P w).0 ≡ Err.esp_ok)
              × ((boot P w).1.log ≡ tell w.ota.cb OtaStatus.done w.log ++ Event.restart ∷ [])
            ⊎ (is_ok (boot P w).0 ≡ false)
              × ((boot P w).1.log ≡ tell w.ota.cb OtaStatus.failed w.log))
  unfolding boot stop_failed
  boot_lem w = elim (Bool-cases (is_ok (P.set_boot w.dev w.ota.part).0)) [
    | inl e ↦ rw e (refl, inl (refl, refl))
    | inr e ↦ rw e (refl, inr (e, refl))
  ]

  close_lem :
      (w : World P)
      → ((close P w).1.ota.active ≡ false)
        × (((close P w).0 ≡ Err.esp_ok)
              × ((close P w).1.log ≡ tell w.ota.cb OtaStatus.done w.log ++ Event.restart ∷ [])
            ⊎ (is_ok (close P w).0 ≡ false)
              × ((close P w).1.log ≡ tell w.ota.cb OtaStatus.failed w.log))
  unfolding close stop_failed
  close_lem w = elim (Bool-cases (is_ok (P.finish w.dev w.ota.handle).0)) [
    | inl e ↦ rw e (boot_lem (record w { dev = (P.finish w.dev w.ota.handle).1 }))
    | inr e ↦ rw e (refl, inr (e, refl))
  ]

  -- `ota_end` during an update ends it on every branch. The node restarts only with the result
  -- ESP_OK and after the CRC check has passed or was not asked for; on every other branch the result
  -- is an error, the host is told of it, and there is no restart.
  pub ota_end_lem :
      (w : World P)
      → w.ota.active ≡ true
      → ((ota_end P w).1.ota.active ≡ false) × Finished w (ota_end P w)
  unfolding ota_end stop_failed
  ota_end_lem w h = elim (Bool-cases (crc_rejects P w)) [
    | inl e ↦ simp (h, e) (refl, failed refl refl)
    | inr e ↦
        simp (h, e)
          (let (a, c) = close_lem w in
            (a, elim c [ inl (ok, log) ↦ booted ok e log | inr (bad, log) ↦ failed bad log ]))
  ]

  -- A piece taken during an update keeps it going and is counted modulo 2^32; a piece that the driver
  -- refuses gives its error back, ends the update, and the host is told.
  pub ota_write_lem :
      (bytes : List ℕ) (w : World P)
      → w.ota.active ≡ true
      → ((ota_write P bytes w).0 ≡ Err.esp_ok)
          × ((ota_write P bytes w).1.ota.active ≡ true)
          × ((ota_write P bytes w).1.ota.received_bytes
              ≡ (w.ota.received_bytes + length bytes) % 2 ^ 32)
          × ((ota_write P bytes w).1.log ≡ w.log)
        ⊎ ((ota_write P bytes w).0 ≡ (P.write w.dev w.ota.handle bytes).0)
          × (is_ok (ota_write P bytes w).0 ≡ false)
          × ((ota_write P bytes w).1.ota.active ≡ false)
          × ((ota_write P bytes w).1.log ≡ tell w.ota.cb OtaStatus.failed w.log)
  unfolding ota_write ota_abort
  ota_write_lem bytes w h = elim (Bool-cases (is_ok (P.write w.dev w.ota.handle bytes).0)) [
    | inl e ↦ simp (h, e) (inl (refl, refl, refl, refl))
    | inr e ↦ simp (h, e) (inr (refl, refl, refl, refl))
  ]

  -- What a request to start an update leaves: a new update from nothing, or none at all.
  pub data Begun (size crc32 : ℕ) (cb : Bool) (w : World P) (out : Err × World P) : Type 0 where
    begun :
        out.0 ≡ Err.esp_ok
        → out.1.ota.active ≡ true
        → out.1.ota.received_bytes ≡ 0
        → out.1.ota.expected_crc ≡ crc32
        → out.1.ota.total_bytes ≡ size
        → out.1.log ≡ tell cb OtaStatus.in_progress w.log
        → Begun size crc32 cb w out
    refused :
        is_ok out.0 ≡ false
        → out.1.ota.active ≡ false
        → out.1.log ≡ w.log
        → Begun size crc32 cb w out

  pub log-ota_abort : (w : World P) → (ota_abort P w).log ≡ w.log
  unfolding ota_abort
  log-ota_abort w = ground arith

  -- `ota_begin` gives up the update before, if any, and starts one with nothing received and the
  -- expected size and CRC, telling the host; or it gives an error with no update under way, and
  -- tells nobody.
  pub ota_begin_lem :
      (size crc32 : ℕ) (cb : Bool) (w : World P)
      → Begun size crc32 cb w (ota_begin P size crc32 cb w)
  unfolding ota_begin start
  ota_begin_lem size crc32 cb w =
      let w₁ = ota_abort P w in
      elim (Option-cases (P.next_partition w₁.dev)) [
        | inl e ↦ rw (e, ota_begin) (refused refl (ota_abort-active w) (log-ota_abort w))
        | inr (part, e) ↦
            rw (e, ota_begin)
              (elim (Bool-cases (is_ok (P.begin w₁.dev part w₁.ota.handle).0)) [
                | inl ok ↦ rw ok (
                    begun refl refl refl refl refl
                      (ap (tell cb OtaStatus.in_progress) (log-ota_abort w)))
                | inr bad ↦ rw bad (refused bad (ota_abort-active w) (log-ota_abort w))
              ])
      ]
