-- ===== src/Update/Whole.antt =====
-- A push over a link that loses nothing, to a node whose flash works.
use klippylink.Common.{
  ℕ, ◌^◌, ◌<◌, ◌≡◌, refl, sym, ap, ap₂, ◌∙◌, subst, ◌≢◌, Bool, true, false, not, ◌&&◌, some, List,
  [], ◌∷◌, ◌++◌, append-nil, append_assoc, arith, ◌==◌, length, get_or, length-append, All,
}
use klippylink.Esp.{Err, is_ok}
use klippylink.Protocol.{Command, header, OtaStatus}
use klippylink.Node.Ota.Driver.{Platform, Laws}
use klippylink.Node.Ota.{
  Event, World, tell, ota_abort, start, ota_begin, ota_write, ota_end, close, boot, crc_rejects,
}
use klippylink.Node.Ota.Transfer.{join, IsReceiving, ota_begin-IsReceiving, ota_write-IsReceiving}
use klippylink.Node.Ota.Session.{crc_rejects-IsReceiving}
use klippylink.Node.Gatt.{
  Board, idx_cmd_val, idx_tel_cccd, BtAction, Device, ota_event, ota_events, ota_world, run_ota,
}
use klippylink.Router.OtaPush.{ota_push_to_node}
use klippylink.Router.OtaPush.Chunks.{
  IsPiece, pieces, send_all, data_packets, ota_push-send_all, join-pieces,
}
use klippylink.Update.{Works, deliver, HasHandles}
use klippylink.Update.Packets.{
  Kept, ota_events-Kept, deliver-ota_data, deliver-ota_end, deliver-ota_begin,
}

-- The driver and the handler of a node that works.
module _ (P : Platform) (L : Laws P) (W : Works P L) where
  ota_begin-works :
      (size crc32 : ℕ) (cb : Bool) (w : World P) → is_ok (ota_begin P size crc32 cb w).0 ≡ true
  unfolding ota_begin start
  ota_begin-works size crc32 cb w =
      let d = (ota_abort P w).dev in
      let (part, e) = W.partition d in
      rw (e, ota_begin) (simp (W.begins d part (ota_abort P w).ota.handle) refl)

  ota_write-works :
      (bytes : List ℕ) (w : World P) → w.ota.active ≡ true → is_ok (ota_write P bytes w).0 ≡ true
  unfolding ota_write
  ota_write-works bytes w a = simp (a, W.writes w.dev w.ota.handle bytes) refl

  -- An update that has all its bytes ends with the restart, the image as it came.
  ota_end-works :
      {part : ℕ} {bytes : List ℕ} {w : World P}
      → IsReceiving P L (P.crc 0 bytes) true part bytes w
      → (let w' = (ota_end P w).1 in
          (w'.ota.active ≡ false)
          × (w'.ota.part ≡ some part)
          × (W.next_start w'.dev ≡ some part)
          × (L.image w'.dev part ≡ bytes)
          × (w'.log ≡ tell true OtaStatus.done w.log ++ Event.restart ∷ []))
  unfolding ota_end close boot
  ota_end-works {part} {bytes} {w} v =
      let good : crc_rejects P w ≡ false =
        crc_rejects-IsReceiving P L v (W.memory w.dev) ∙ passes (P.crc 0 bytes) in
      let fin = P.finish w.dev w.ota.handle in
      simp (v.active, good, W.finishes w.dev w.ota.handle, W.boots fin.1 w.ota.part, v.callback)
        (
          refl,
          v.to_part,
          W.boot_chooses fin.1 w.ota.part ∙ v.to_part,
          W.boot_keeps fin.1 w.ota.part part ∙ W.finish_keeps w.dev w.ota.handle part ∙ v.holds,
          refl,
        )
    where
      passes : (c : ℕ) → (not (c == 0) && not (c == c)) ≡ false
      passes c = ground arith

  IsReceiving-moved :
      {crc32 : ℕ} {part : ℕ} {bytes : List ℕ} {w w' : World P}
      → w'.ota ≡ w.ota
      → w'.dev ≡ w.dev
      → IsReceiving P L crc32 true part bytes w
      → IsReceiving P L crc32 true part bytes w'
  IsReceiving-moved {part = part} e f v = record {
    active = ap (λ o. o.active) e ∙ v.active;
    to_part = ap (λ o. o.part) e ∙ v.to_part;
    aimed = ap₂ (λ d o. L.target d o.handle) f e ∙ v.aimed;
    holds = ap (λ d. L.image d part) f ∙ v.holds;
    counted = ap (λ o. o.received_bytes) e ∙ v.counted;
    expects = ap (λ o. o.expected_crc) e ∙ v.expects;
    callback = ap (λ o. o.cb) e ∙ v.callback;
  }

module _ (B : Board) (L : Laws B.platform) (W : Works B.platform L) where
  -- The node takes an update and has the bytes so far.
  record Receiving (crc32 part : ℕ) (bytes : List ℕ) (d : Device B) : Type 0 where
    handles : HasHandles B d
    update : IsReceiving B.platform L crc32 true part bytes (ota_world B d)

  -- The push ended with ESP_OK; the partition that the flash starts
  -- next has the bytes, no update is under way, and
  -- the last thing that the node does is to restart.
  pub record Updated (bytes : List ℕ) (out : Err × Device B) : Type 0 where
    pub result : out.0 ≡ Err.esp_ok
    pub part : ℕ
    pub chosen : W.next_start out.1.flash ≡ some part
    pub image : L.image out.1.flash part ≡ bytes
    pub over : out.1.ota.active ≡ false
    pub before : List BtAction
    pub restarts : out.1.actions ≡ before ++ BtAction.restart ∷ []

  Kept-HasHandles : (d d' : Device B) → Kept B d d' → HasHandles B d → HasHandles B d'
  Kept-HasHandles d d' k hs =
      subst (λ h. get_or h idx_cmd_val 0 ≢ get_or h idx_tel_cccd 0) (sym k.2) hs

  run_ota-Receiving :
      {crc32 part : ℕ} {bytes : List ℕ} (d : Device B)
      (f : World B.platform → Err × World B.platform)
      → HasHandles B d
      → IsReceiving B.platform L crc32 true part bytes (f (ota_world B d)).1
      → Receiving crc32 part bytes (run_ota B f d)
  unfolding run_ota
  run_ota-Receiving d f hs v =
      let w = (f (ota_world B d)).1 in
      let d' = record d { ota = w.ota; flash = w.dev } in
      let k = ota_events-Kept B w.log d' in
      record {
        handles = Kept-HasHandles d' (ota_events B w.log d') k hs;
        update = IsReceiving-moved B.platform L W k.0 k.1 v;
      }

  deliver_end-Updated :
      {part : ℕ} {bytes : List ℕ} (d : Device B)
      → Receiving (B.platform.crc 0 bytes) part bytes d
      → Updated bytes (deliver B (header Command.ota_end 0) d)
  unfolding run_ota ota_events
  deliver_end-Updated {part} {bytes} d r =
      let w = (ota_end B.platform (ota_world B d)).1 in
      let (over, _, chosen, image, log) = ota_end-works B.platform L W r.update in
      let d' = record d { ota = w.ota; flash = w.dev } in
      let k = ota_events-Kept B w.log d' in
      rw (deliver-ota_end B d r.handles) (record {
        result = refl;
        part = part;
        chosen = ap (λ m. W.next_start m) k.1 ∙ chosen;
        image = ap (λ m. L.image m part) k.1 ∙ image;
        over = ap (λ o. o.active) k.0 ∙ over;
        before = (ota_event B (Event.status OtaStatus.done) d').actions;
        restarts = ap (λ l. (ota_events B l d').actions) log;
      })

  send_all-Updated :
      {part : ℕ} (all : List ℕ) (cs : List (List ℕ)) (bytes : List ℕ) (d : Device B)
      → bytes ++ join cs ≡ all
      → All IsPiece cs
      → length all < 2 ^ 32
      → Receiving (B.platform.crc 0 all) part bytes d
      → Updated all (send_all (deliver B) (data_packets cs ++ header Command.ota_end 0 ∷ []) d)
  unfolding send_all
  send_all-Updated {part} all [] bytes d e ps small r =
      let same : bytes ≡ all = sym (append-nil bytes) ∙ e in
      let u =
        deliver_end-Updated d (subst (λ k. Receiving (B.platform.crc 0 all) part k d) same r) in
      simp u.result (record {
        result = refl;
        part = u.part;
        chosen = u.chosen;
        image = u.image;
        over = u.over;
        before = u.before;
        restarts = u.restarts;
      })
  send_all-Updated {part} all (c ∷ cs) bytes d e (p, ps) small r =
      let whole : (bytes ++ c) ++ join cs ≡ all = append_assoc bytes c (join cs) ∙ e in
      let fits = length-append (bytes ++ c) (join cs) in
      let size = ap length whole in
      let took = ota_write-works B.platform L W c (ota_world B d) r.update.active in
      let next =
        run_ota-Receiving d (ota_write B.platform c) r.handles
          (ota_write-IsReceiving B.platform L c r.update (omega arith) took) in
      simp (deliver-ota_data B c d r.handles (omega arith) r.update.active) (
        send_all-Updated all cs (bytes ++ c) (run_ota B (ota_write B.platform c) d) whole ps small
          next)

  -- Over a link that loses nothing and to a node whose flash works and whose handles for commands
  -- and for the CCC descriptor differ, a push of an image that is not empty and below 4 GiB, with
  -- a 32-bit CRC, ends with ESP_OK, with exactly the image in the partition that the flash then
  -- has set as the one to start next, and with the node's restart, whatever the node did before.
  pub ota_push_to_node-Updated :
      (bytes : List ℕ) (d : Device B)
      → HasHandles B d
      → 0 < length bytes
      → length bytes < 2 ^ 32
      → B.platform.crc 0 bytes < 2 ^ 32
      → Updated bytes (ota_push_to_node B.platform.crc (deliver B) (some bytes) d)
  unfolding send_all
  ota_push_to_node-Updated bytes d hs pos small crc_small =
      let begin = ota_begin B.platform (length bytes) (B.platform.crc 0 bytes) true in
      let (part, v) =
        ota_begin-IsReceiving B.platform L (length bytes) (B.platform.crc 0 bytes) true
          (ota_world B d) (ota_begin-works B.platform L W _ _ true (ota_world B d)) in
      let (whole, ps) = join-pieces bytes in
      rw (ota_push-send_all B.platform.crc (deliver B) bytes d pos) (
        simp (deliver-ota_begin B B.platform.crc bytes d hs small crc_small) (
          send_all-Updated bytes (pieces bytes) [] (run_ota B begin d) whole ps small
            (run_ota-Receiving d begin hs v)))
