-- ===== src/Node/Gatt/Runs.antt =====
-- Any sequence of callbacks of the Bluetooth stack.
pub mod Start
use klippylink.Common.{
  ℕ, zero, suc, ◌+◌, ◌-◌, ◌*◌, ◌/◌, ◌%◌, ◌^◌, ◌≤◌, ◌<◌, min, ◌≡◌, refl, sym, ap, ap₂, ◌∙◌, subst,
  ◌≢◌, ◌↔◌, ◌⊎◌, inl, inr, Bool, true, false, not, ◌&&◌, ◌||◌, Option, none, some, List, [], ◌∷◌,
  ◌++◌, map, append-nil, append_assoc, arith, ltb, leb, ◌==◌, if◌then◌else◌, ltb→lt, ltb→le, lt→ltb,
  le→ltb, leb→le, leb→lt, le→leb, lt→leb, ==_iff, ==_refl, ==_ne, ==→ne, Bool-cases, Option-cases,
  length, get_elem?, get_or, set, take, drop, replicate, length-append, length-set,
  get_elem?-set_self, get_elem?-set_ne, get_elem?-none, take-append-drop, length-take, length-drop,
  length-replicate, take-all, take-append_left, take-suc-set, take-take, get_or-take,
  get_or-append_left, All, All-append, get_elem?-append_last,
}
use klippylink.Esp.{Err, is_ok}
use klippylink.Json.{eq_of_some, none≢some}
use klippylink.Protocol.{klip_header_size, packet_length}
use klippylink.Node.Wifi.{WifiCall}
use klippylink.Node.Config.{DeviceCfg}
use klippylink.Node.Gatt.{Board, BtAction, Device, idx_tel_cccd, idx_cmd_val, no_conn}
use klippylink.Node.Gatt.Adv.{raw_adv}
use klippylink.Node.Gatt.Events.{
  on_gatts_reg, on_creat_attr_tab, on_gatts_start, cccd_write, on_gatts_write, on_gatts_connect,
  on_gatts_disconnect, on_adv_data_set,
}
use klippylink.Node.Gatt.Answers.{IsAnswer, Answers, link}
use klippylink.Node.Gatt.Answers.Packets.{dispatch_packet-Answers}
use klippylink.Node.Gatt.Faults.{dispatch_packet-Total}
use klippylink.Node.Boot.Ready.{Drivers, IsReady}

-- The action is not a notification.
abbrev pub is_indicate : BtAction → Bool
is_indicate (BtAction.send_indicate gatts_if conn_id handle bytes) = true
is_indicate _ = false

abbrev pub IsQuiet : BtAction → Type 0
IsQuiet a = is_indicate a ≡ false

module _ (B : Board) where
  -- A callback that is not a connection.
  pub data Offline (d : Device B) : Device B → Type 0 where
    registered : (gatts_if : ℕ) → Offline d (on_gatts_reg B gatts_if d)
    tabled : (good : Bool) (handles : List ℕ) → Offline d (on_creat_attr_tab B good handles d)
    started : (good : Bool) (configured : Err) → Offline d (on_gatts_start B good configured d)
    wrote :
        {d' : Device B} (handle : ℕ) (value : List ℕ)
        → on_gatts_write B handle value d ≡ some d'
        → Offline d d'
    disconnected : Offline d (on_gatts_disconnect B d)
    adv_set : (good : Bool) → Offline d (on_adv_data_set B good d)

  pub data Callback (d : Device B) : Device B → Type 0 where
    connected : (conn_id : ℕ) → Callback d (on_gatts_connect B conn_id d)
    otherwise : {d' : Device B} → Offline d d' → Callback d d'

  pub data Callbacks (d : Device B) : Device B → Type 0 where
    stay : Callbacks d d
    step : {e f : Device B} → Callbacks d e → Callback e f → Callbacks d f

  pub data OfflineRun (d : Device B) : Device B → Type 0 where
    stay : OfflineRun d d
    step : {e f : Device B} → OfflineRun d e → Offline e f → OfflineRun d f

  -- A write sets the flag for notifications, or leaves the node alone, or hands a packet on.
  pub on_gatts_write-cases :
      (handle : ℕ) (value : List ℕ) (d d' : Device B)
      → on_gatts_write B handle value d ≡ some d'
      → ((b : Bool) × (record d { notify_enabled = b } ≡ d')) ⊎ (Answers B d d')
  unfolding on_gatts_write cccd_write
  on_gatts_write-cases handle value d d' h =
      elim (Bool-cases (handle == get_or d.handles idx_tel_cccd 0)) [
        | inl e ↦ elim (Bool-cases (ltb (length value) 2)) [
          | inl q ↦ absurd (none≢some (simp (e, q) at h))
          | inr q ↦ inl (_, eq_of_some (simp (e, q) at h))
        ]
        | inr e ↦
            elim (Bool-cases
              (handle == get_or d.handles idx_cmd_val 0 && leb klip_header_size (length value))) [
                | inl q ↦ inr (dispatch_packet-Answers B value d d' (simp (e, q) at h))
                | inr q ↦ inl (d.notify_enabled, eq_of_some (simp (e, q) at h))
              ]
      ]

  -- Without a connection, and with no notification since `d`.
  pub record Quiet (d d' : Device B) : Type 0 where
    pub offline : d'.conn_id ≡ no_conn
    pub done : List BtAction
    pub since : d'.actions ≡ d.actions ++ done
    pub quiet : All IsQuiet done

  nothing_done : {d d' : Device B} → d'.conn_id ≡ no_conn → d'.actions ≡ d.actions → Quiet d d'
  nothing_done {d} c a = record {
    offline = c;
    done = [];
    since = a ∙ sym (append-nil d.actions);
    quiet = tt;
  }

  one_done :
      {d d' : Device B} (a : BtAction)
      → d'.conn_id ≡ no_conn
      → d'.actions ≡ d.actions ++ a ∷ []
      → IsQuiet a
      → Quiet d d'
  one_done a c e q = record { offline = c; done = a ∷ []; since = e; quiet = (q, tt) }

  joined : {d e f : Device B} → Quiet d e → Quiet e f → Quiet d f
  joined {d} x y = record {
    offline = y.offline;
    done = x.done ++ y.done;
    since = y.since ∙ ap (λ k. k ++ y.done) x.since ∙ append_assoc d.actions x.done y.done;
    quiet = All-append IsQuiet x.done y.done x.quiet y.quiet;
  }

  IsAnswer-IsQuiet :
      (d : Device B) (done : List BtAction)
      → d.conn_id ≡ no_conn
      → All (IsAnswer (link B d)) done
      → All IsQuiet done
  IsAnswer-IsQuiet d [] c all = tt
  IsAnswer-IsQuiet d (a ∷ rest) c (h, all) = (quiet_answer h, IsAnswer-IsQuiet d rest c all)
    where
      quiet_answer : {a : BtAction} → IsAnswer (link B d) a → IsQuiet a
      quiet_answer IsAnswer.restarts = refl
      quiet_answer (IsAnswer.indicates bytes conn on small) = absurd (conn c)

  Answers-Quiet : {d d' : Device B} → d.conn_id ≡ no_conn → Answers B d d' → Quiet d d'
  Answers-Quiet {d} c a = record {
    offline = ap (λ l. l.conn_id) a.same ∙ c;
    done = a.done;
    since = a.since;
    quiet = IsAnswer-IsQuiet d a.done c a.answers;
  }

  Offline-Quiet : {d d' : Device B} → d.conn_id ≡ no_conn → Offline d d' → Quiet d d'
  unfolding on_gatts_reg on_creat_attr_tab on_gatts_start on_gatts_disconnect on_adv_data_set
  Offline-Quiet c (registered gatts_if) = one_done (BtAction.create_attr_tab gatts_if) c refl refl
  Offline-Quiet c (tabled true handles) = one_done _ c refl refl
  Offline-Quiet c (tabled false handles) = nothing_done c refl
  Offline-Quiet c (started false configured) = nothing_done c refl
  Offline-Quiet {d} c (started true configured) = elim (Bool-cases (is_ok configured)) [
    | inl e ↦ simp e (record {
      offline = c;
      done =
          BtAction.config_adv_data_raw (raw_adv d.cfg.device_name)
          ∷ BtAction.start_advertising
          ∷ [];
      since =
          append_assoc d.actions (BtAction.config_adv_data_raw (raw_adv d.cfg.device_name) ∷ [])
            (BtAction.start_advertising ∷ []);
      quiet = (refl, (refl, tt));
    })
    | inr e ↦ simp e (one_done _ c refl refl)
  ]
  Offline-Quiet {d} {d'} c (wrote handle value h) =
      elim (on_gatts_write-cases handle value d d' h) [
        | inl (b, e) ↦ subst (Quiet d) e (nothing_done c refl)
        | inr a ↦ Answers-Quiet c a
      ]
  Offline-Quiet c disconnected = one_done BtAction.start_advertising refl refl refl
  Offline-Quiet c (adv_set true) = one_done BtAction.start_advertising c refl refl
  Offline-Quiet c (adv_set false) = nothing_done c refl

  -- From a disconnection until the next connection, whatever is written to the node and whatever else
  -- the stack reports, the node has no connection and hands no notification to the stack.
  pub OfflineRun-Quiet :
      (d : Device B) {d' : Device B}
      → OfflineRun (on_gatts_disconnect B d) d'
      → Quiet (on_gatts_disconnect B d) d'
  unfolding on_gatts_disconnect
  OfflineRun-Quiet d stay = nothing_done refl refl
  OfflineRun-Quiet d (step run o) =
      let q = OfflineRun-Quiet d run in joined q (Offline-Quiet q.offline o)
