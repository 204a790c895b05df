-- ===== src/Node/Gatt/Runs/Start.antt =====
-- The callbacks of a node that was started by node/main/main.c.
use klippylink.Common.{
  ℕ, ◌+◌, ◌≤◌, ◌<◌, ◌≡◌, refl, ap, ◌∙◌, subst, inl, inr, Bool, true, false, ◌&&◌, some, List, arith,
  leb, ◌==◌, lt→ltb, le→ltb, leb→le, Bool-cases, length, get_or,
}
use klippylink.Esp.{Err, is_ok}
use klippylink.Protocol.{klip_header_size, packet_length}
use klippylink.Node.Wifi.{WifiCall}
use klippylink.Node.Config.{DeviceCfg}
use klippylink.Node.Gatt.{Board, Device, idx_tel_cccd, idx_cmd_val}
use klippylink.Node.Gatt.Events.{
  on_gatts_reg, on_creat_attr_tab, on_gatts_start, cccd_write, on_gatts_write, on_gatts_connect,
  on_gatts_disconnect, on_adv_data_set,
}
use klippylink.Node.Gatt.Faults.{dispatch_packet-Total}
use klippylink.Node.Boot.Ready.{Drivers, IsReady}
use klippylink.Node.Gatt.Runs.{Offline, Callback, Callbacks, on_gatts_write-cases}

module _ (B : Board) where
  abbrev Kept : Device B → Device B → Type 0
  Kept d d' = (d'.cfg ≡ d.cfg) × (d'.has_mutex ≡ d.has_mutex)

  Callback-Kept : {d d' : Device B} → Callback B d d' → Kept d d'
  unfolding on_gatts_reg on_creat_attr_tab on_gatts_start on_gatts_connect on_gatts_disconnect
      on_adv_data_set
  Callback-Kept (Callback.connected conn_id) = (refl, refl)
  Callback-Kept (Callback.otherwise (Offline.registered gatts_if)) = (refl, refl)
  Callback-Kept (Callback.otherwise (Offline.tabled true handles)) = (refl, refl)
  Callback-Kept (Callback.otherwise (Offline.tabled false handles)) = (refl, refl)
  Callback-Kept (Callback.otherwise (Offline.started false configured)) = (refl, refl)
  Callback-Kept (Callback.otherwise (Offline.started true configured)) =
      elim (Bool-cases (is_ok configured)) [
        | inl e ↦ simp e (refl, refl)
        | inr e ↦ simp e (refl, refl)
      ]
  Callback-Kept {d} {d'} (Callback.otherwise (Offline.wrote handle value h)) =
      elim (on_gatts_write-cases B handle value d d' h) [
        | inl (b, e) ↦ subst (Kept d) e (refl, refl)
        | inr a ↦ (ap (λ l. l.cfg) a.same, ap (λ l. l.has_mutex) a.same)
      ]
  Callback-Kept (Callback.otherwise Offline.disconnected) = (refl, refl)
  Callback-Kept (Callback.otherwise (Offline.adv_set true)) = (refl, refl)
  Callback-Kept (Callback.otherwise (Offline.adv_set false)) = (refl, refl)

  Callbacks-Kept : {d d' : Device B} → Callbacks B d d' → Kept d d'
  Callbacks-Kept Callbacks.stay = (refl, refl)
  Callbacks-Kept (Callbacks.step run c) =
      let (a, b) = Callbacks-Kept run in let (a', b') = Callback-Kept c in (a' ∙ a, b' ∙ b)

  -- A write that is complete: two bytes for the flag, and for a packet at least what it announces.
  pub record IsWhole (value : List ℕ) : Type 0 where
    pub flag : 2 ≤ length value
    pub packet :
        klip_header_size ≤ length value → klip_header_size + packet_length value ≤ length value

  -- A node that has started with at least one strip never faults on a complete write, to whatever
  -- handle and whatever it holds, after any sequence of callbacks, if the calls for the wireless
  -- network succeed.
  pub Callbacks-on_gatts_write :
      (configure : ℕ → Bool → Bool → Err) (W : Drivers B configure) (cfg : DeviceCfg)
      (d d' : Device B) (handle : ℕ) (value : List ℕ)
      → IsReady B configure W cfg d
      → 0 < cfg.neopixel_count
      → ((l : List WifiCall) (c : WifiCall) → is_ok (B.wifi_result l c) ≡ true)
      → Callbacks B d d'
      → IsWhole value
      → (e : Device B) × (on_gatts_write B handle value d' ≡ some e)
  unfolding on_gatts_write cccd_write
  Callbacks-on_gatts_write configure W cfg d d' handle value ready strip network run w =
      let engine : d'.has_mutex ≡ true =
        (Callbacks-Kept run).1 ∙ ready.engine ∙ lt→ltb 0 cfg.neopixel_count strip in
      elim (Bool-cases (handle == get_or d'.handles idx_tel_cccd 0)) [
        | inl e ↦ simp (e, le→ltb (length value) 2 w.flag) (_, refl)
        | inr e ↦
            elim (Bool-cases
              (handle == get_or d'.handles idx_cmd_val 0 && leb klip_header_size (length value))) [
                | inr q ↦ simp (e, q) (d', refl)
                | inl q ↦
                    let long : leb klip_header_size (length value) ≡ true = ground arith in
                    simp (e, q)
                      (dispatch_packet-Total B value d' (record {
                        whole = w.packet (leb→le klip_header_size (length value) long);
                        engine = engine;
                        network = network;
                      }))
              ]
      ]
