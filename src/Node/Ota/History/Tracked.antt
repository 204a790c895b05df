-- ===== src/Node/Ota/History/Tracked.antt =====
-- The handler of node/main/ota_handler.c stays with the machine that knows only the bytes.
use klippylink.Common.{
  ℕ, ◌^◌, ◌<◌, ◌≡◌, sym, ap, ◌∙◌, subst, inl, inr, true, false, not, ◌&&◌, Option, none, some, List,
  [], ◌∷◌, ◌++◌, arith, ◌==◌, Bool-cases, length,
}
use klippylink.Esp.{is_ok}
use klippylink.Protocol.{OtaStatus}
use klippylink.Node.Ota.Driver.{Platform, Laws}
use klippylink.Node.Ota.{
  Event, World, tell, ota_abort, ota_begin, ota_write, ota_end, crc_rejects, actual_crc,
}
use klippylink.Node.Ota.Branches.{
  ota_abort-active, log-ota_abort, inactive_refused, Begun, Finished, ota_begin_lem, ota_write_lem,
  ota_end_lem,
}
use klippylink.Node.Ota.Transfer.{
  driver_ok, IsReceiving, ota_begin-IsReceiving, ota_write-IsReceiving,
}
use klippylink.Node.Ota.Session.{crc_rejects-IsReceiving}
use klippylink.Node.Ota.History.{
  Call, Spec, may_start, advance, restarts, restarts-append, restarts-tell, perform, perform_all,
  track_all,
}

module _ (P : Platform) (L : Laws P) where
  abbrev pub Matches : Option (ℕ × List ℕ) → World P → Type 0
  Matches none w = w.ota.active ≡ false
  Matches (some (crc32, bytes)) w = (part : ℕ) × IsReceiving P L crc32 true part bytes w

  -- The handler's variables, the flash and the events are what the machine says.
  pub record Tracks (s : Spec) (w : World P) : Type 0 where
    pub update : Matches s.update w
    pub count : restarts w.log ≡ s.restarts

  begin-Tracks :
      (size crc32 : ℕ) (s : Spec) (w : World P)
      → Tracks s w
      → Tracks
          (advance (P.crc 0) (Call.begin size crc32) (is_ok (ota_begin P size crc32 true w).0) s)
          (ota_begin P size crc32 true w).1
  begin-Tracks size crc32 s w t = elim (ota_begin_lem P size crc32 true w) [
    | Begun.begun ok a r e n log ↦
        let good : is_ok (ota_begin P size crc32 true w).0 ≡ true = ap is_ok ok in
        simp good (record {
          update = ota_begin-IsReceiving P L size crc32 true w good;
          count = ap restarts log ∙ restarts-tell true OtaStatus.in_progress w.log ∙ t.count;
        })
    | Begun.refused bad a log ↦ simp bad (record { update = a; count = ap restarts log ∙ t.count })
  ]

  write-inactive :
      (bytes : List ℕ) (s : Spec) (w : World P)
      → w.ota.active ≡ false
      → restarts w.log ≡ s.restarts
      → Tracks
          (advance (P.crc 0) (Call.write bytes) (is_ok (ota_write P bytes w).0) s)
          (ota_write P bytes w).1
  write-inactive bytes s w a n =
      rw (inactive_refused P bytes w a).0 (record { update = a; count = n })

  -- The flash holds images below 4 GiB only.
  abbrev pub HasSmallImages : Type 0
  HasSmallImages = (d : P.Dev) (part : ℕ) → length (L.image d part) < 2 ^ 32

  write_fits :
      {crc32 part : ℕ} {old : List ℕ} {w : World P} (bytes : List ℕ)
      → IsReceiving P L crc32 true part old w
      → HasSmallImages
      → is_ok (P.write w.dev w.ota.handle bytes).0 ≡ true
      → length (old ++ bytes) < 2 ^ 32
  write_fits {part = part} {old} {w} bytes v small ok =
      let (grown, kept) = L.write_appends w.dev w.ota.handle bytes ok in
      let whole : L.image (P.write w.dev w.ota.handle bytes).1 part ≡ old ++ bytes =
        ap (L.image (P.write w.dev w.ota.handle bytes).1) (sym v.aimed)
        ∙ grown
        ∙ ap (λ k. k ++ bytes) (ap (L.image w.dev) v.aimed ∙ v.holds) in
      subst (λ k. length k < 2 ^ 32) whole (small (P.write w.dev w.ota.handle bytes).1 part)

  write-Tracks :
      (bytes : List ℕ) (o : Option (ℕ × List ℕ)) (n : ℕ) (w : World P)
      → HasSmallImages
      → Tracks (record { update = o; restarts = n }) w
      → Tracks
          (advance
            (P.crc 0)
            (Call.write bytes)
            (is_ok (ota_write P bytes w).0)
            (record { update = o; restarts = n }))
          (ota_write P bytes w).1
  write-Tracks bytes none n w small t =
      write-inactive bytes (record { update = none; restarts = n }) w t.update t.count
  write-Tracks bytes (some (crc32, old)) n w small t =
      let (part, v) = t.update in
      elim (ota_write_lem P bytes w v.active) [
        | inl (ok, a, c, log) ↦
            let good : is_ok (ota_write P bytes w).0 ≡ true = ap is_ok ok in
            simp good (record {
              update = (
                part,
                ota_write-IsReceiving P L bytes v
                    (write_fits bytes v small (driver_ok P L bytes w v.active good)) good,
              );
              count = ap restarts log ∙ t.count;
            })
        | inr (e, bad, a, log) ↦ simp bad (record {
          update = a;
          count = ap restarts log ∙ restarts-tell w.ota.cb OtaStatus.failed w.log ∙ t.count;
        })
      ]

  -- The check at the end lets pass only what may be started.
  crc_rejects-may_start :
      {crc32 part : ℕ} {bytes : List ℕ} {w : World P}
      → IsReceiving P L crc32 true part bytes w
      → crc_rejects P w ≡ false
      → may_start (P.crc 0) (some (crc32, bytes)) ≡ true
  unfolding crc_rejects actual_crc
  crc_rejects-may_start {crc32} {part} {bytes} {w} v h = elim (Bool-cases (P.malloc_ok w.dev)) [
    | inl m ↦
        let same = crc_rejects-IsReceiving P L v m in
        let z : (not (crc32 == 0) && not (P.crc 0 bytes == crc32)) ≡ false = sym same ∙ h in
        ground arith
    | inr m ↦ let z = simp (m, v.expects) at h in ground arith
  ]

  finish-Tracks :
      (o : Option (ℕ × List ℕ)) (n : ℕ) (w : World P)
      → Tracks (record { update = o; restarts = n }) w
      → Tracks
          (advance
            (P.crc 0)
            Call.finish
            (is_ok (ota_end P w).0)
            (record { update = o; restarts = n }))
          (ota_end P w).1
  finish-Tracks none n w t =
      rw (inactive_refused P [] w t.update).1 (record { update = t.update; count = t.count })
  finish-Tracks (some (crc32, bytes)) n w t =
      let (part, v) = t.update in
      let (over, out) = ota_end_lem P w v.active in
      elim out [
        | Finished.booted ok pass log ↦
            let good : is_ok (ota_end P w).0 ≡ true = ap is_ok ok in
            let old = restarts-tell w.ota.cb OtaStatus.done w.log in
            let whole = restarts-append (tell w.ota.cb OtaStatus.done w.log) (Event.restart ∷ []) in
            let count = t.count in
            simp (good, crc_rejects-may_start v pass)
              (record { update = over; count = ap restarts log ∙ omega arith })
        | Finished.failed bad log ↦ simp bad (record {
          update = over;
          count = ap restarts log ∙ restarts-tell w.ota.cb OtaStatus.failed w.log ∙ t.count;
        })
      ]

  abort-Tracks :
      (s : Spec) (w : World P)
      → Tracks s w
      → Tracks (advance (P.crc 0) Call.abort true s) (ota_abort P w)
  abort-Tracks s w t = record {
    update = ota_abort-active P w;
    count = ap restarts (log-ota_abort P w) ∙ t.count;
  }

  perform-Tracks :
      (c : Call) (s : Spec) (w : World P)
      → HasSmallImages
      → Tracks s w
      → Tracks (advance (P.crc 0) c (is_ok (perform P c w).0) s) (perform P c w).1
  perform-Tracks (Call.begin size crc32) s w small t = begin-Tracks size crc32 s w t
  perform-Tracks (Call.write bytes) s w small t = write-Tracks bytes s.update s.restarts w small t
  perform-Tracks Call.finish s w small t = finish-Tracks s.update s.restarts w t
  perform-Tracks Call.abort s w small t = abort-Tracks s w t

  track_all-Tracks :
      (cs : List Call) (s : Spec) (w : World P)
      → HasSmallImages
      → Tracks s w
      → Tracks (track_all P cs w s) (perform_all P cs w)
  unfolding perform_all track_all
  track_all-Tracks [] s w small t = t
  track_all-Tracks (c ∷ cs) s w small t =
      track_all-Tracks cs (advance (P.crc 0) c (is_ok (perform P c w).0) s) (perform P c w).1 small
        (perform-Tracks c s w small t)

-- Over any sequence of calls, successful or not, the OTA handler does what a machine does that only
-- knows the announced CRC and the bytes: an update is under way just when the machine has one, the
-- flash then holds its bytes and the handler expects its CRC, and the node has asked for as many
-- restarts as updates have been finished with the announced CRC or with none announced. The handler
-- starts with no update and an empty log, and images are below 4 GiB.
pub perform_all-Tracks :
    (P : Platform) (L : Laws P) (cs : List Call) (w : World P)
    → HasSmallImages P L
    → w.ota.active ≡ false
    → w.log ≡ []
    → Tracks P L (track_all P cs w (record { update = none; restarts = 0 })) (perform_all P cs w)
perform_all-Tracks P L cs w small idle quiet =
    track_all-Tracks P L cs (record { update = none; restarts = 0 }) w small
      (record { update = idle; count = ap restarts quiet })
