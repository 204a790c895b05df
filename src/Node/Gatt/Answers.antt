-- ===== src/Node/Gatt/Answers.antt =====
-- What a node does in answer to a command: it only talks to the central that is connected.
pub mod Packets
use klippylink.Common.{
  ℕ, zero, suc, ◌+◌, ◌-◌, ◌*◌, ◌/◌, ◌%◌, ◌^◌, ◌≤◌, ◌<◌, min, ◌≡◌, refl, sym, ap, ap₂, ◌∙◌, subst,
  ◌≢◌, ◌↔◌, ◌⊎◌, inl, inr, Bool, true, false, not, ◌&&◌, ◌||◌, Option, none, some, List, [], ◌∷◌,
  ◌++◌, map, append-nil, append_assoc, arith, ltb, leb, ◌==◌, if◌then◌else◌, ltb→lt, ltb→le, lt→ltb,
  le→ltb, leb→le, leb→lt, le→leb, lt→leb, ==_iff, ==_refl, ==_ne, ==→ne, Bool-cases, Option-cases,
  length, get_elem?, get_or, set, take, drop, replicate, length-append, length-set,
  get_elem?-set_self, get_elem?-set_ne, get_elem?-none, take-append-drop, length-take, length-drop,
  length-replicate, take-all, take-append_left, take-suc-set, take-take, get_or-take,
  get_or-append_left, All, All-append, get_elem?-append_last,
}
use klippylink.Node.Wifi.{wifi_node_enable}
use klippylink.Node.Effects.{Effects}
use klippylink.Json.{c_string, ◌>>=◌, eq_of_some, none≢some}
use klippylink.Protocol.{Command, u8, packet_magic, packet_command, packet_length, klipproto_magic}
use klippylink.Protocol.Codes.{command_of}
use klippylink.Node.Ota.{Event, World}
use klippylink.Node.Config.{DeviceCfg}
use klippylink.Node.Effects.{led_max_zones}
use klippylink.Esp.{Err}
use klippylink.Node.Gatt.{
  ota_world, Board, BtAction, Device, bt, no_conn, idx_tel_val, gatt_server_notify, tell_central,
  endstop_change_cb, ota_events, run_ota, send_device_info, with_payload, payload_bytes, on_zone,
  byte,
}
use klippylink.Node.Gatt.Info.{info_doc, info_packet}
use klippylink.Node.Gatt.Dispatch.{
  dispatch_packet, dispatch_command, neopixel_set_case, neopixel_set_all_case,
  neopixel_set_range_case, endstop_query_case, ota_begin_case, ota_data_case, wifi_enable_case,
  wifi_pass, wifi_join, heater_set_case,
}

-- What the stack has said of the connection, the configuration, and whether the effects engine was
-- started.
pub record Link : Type 0 where
  pub cfg : DeviceCfg
  pub gatts_if : ℕ
  pub conn_id : ℕ
  pub notify_enabled : Bool
  pub handles : List ℕ
  pub has_mutex : Bool

-- A restart, or a notification of less than 256 bytes on the telemetry to the central that is
-- connected and wants notifications.
pub data IsAnswer (l : Link) : BtAction → Type 0 where
  restarts : IsAnswer l BtAction.restart
  indicates :
      (bytes : List ℕ)
      → l.conn_id ≢ no_conn
      → l.notify_enabled ≡ true
      → length bytes < 256
      → IsAnswer l
          (BtAction.send_indicate l.gatts_if l.conn_id (get_or l.handles idx_tel_val 0) bytes)

module _ (B : Board) where
  abbrev pub link : Device B → Link
  link d = record {
    cfg = d.cfg;
    gatts_if = d.gatts_if;
    conn_id = d.conn_id;
    notify_enabled = d.notify_enabled;
    handles = d.handles;
    has_mutex = d.has_mutex;
  }

  -- From `d` to `d'` the link has stayed, and what was done is answers.
  pub record Answers (d d' : Device B) : Type 0 where
    pub same : link d' ≡ link d
    pub done : List BtAction
    pub since : d'.actions ≡ d.actions ++ done
    pub answers : All (IsAnswer (link d)) done

  pub silent : {d d' : Device B} → link d' ≡ link d → d'.actions ≡ d.actions → Answers d d'
  silent {d} {d'} l a = record {
    same = l;
    done = [];
    since = a ∙ sym (append-nil d.actions);
    answers = tt;
  }

  pub chained : {d e f : Device B} → Answers d e → Answers e f → Answers d f
  chained {d} {e} {f} x y = record {
    same = y.same ∙ x.same;
    done = x.done ++ y.done;
    since = y.since ∙ ap (λ k. k ++ y.done) x.since ∙ append_assoc d.actions x.done y.done;
    answers =
        All-append (IsAnswer (link d)) x.done y.done x.answers
          (subst (λ l. All (IsAnswer l) y.done) x.same y.answers);
  }

  notify-Answers :
      (bytes : List ℕ) (d : Device B)
      → (b : Bool) → (d.conn_id == no_conn || not d.notify_enabled) ≡ b
      → Answers d (
          if b
          then d
          else bt B
              (BtAction.send_indicate d.gatts_if d.conn_id
                (get_or d.handles idx_tel_val 0)
                (take (u8 (length bytes)) bytes))
              d)
  notify-Answers bytes d true e = silent refl refl
  notify-Answers bytes d false e = record {
    same = refl;
    done =
        BtAction.send_indicate d.gatts_if d.conn_id (get_or d.handles idx_tel_val 0)
          (take (u8 (length bytes)) bytes)
        ∷ [];
    since = refl;
    answers = (
      IsAnswer.indicates (take (u8 (length bytes)) bytes) (==→ne d.conn_id no_conn (ground arith))
          (ground arith) (omega (arith, length-take (u8 (length bytes)) bytes)),
      tt,
    );
  }

  pub tell_central-Answers : (bytes : List ℕ) (d : Device B) → Answers d (tell_central B bytes d)
  unfolding gatt_server_notify
  tell_central-Answers bytes d = elim (Bool-cases (d.conn_id == no_conn || not d.notify_enabled)) [
    | inl e ↦ rw (e, tell_central) (notify-Answers bytes d true e)
    | inr e ↦ rw (e, tell_central) (notify-Answers bytes d false e)
  ]

  ota_events-Answers : (es : List Event) (d : Device B) → Answers d (ota_events B es d)
  unfolding ota_events
  ota_events-Answers [] d = silent refl refl
  ota_events-Answers (Event.status st ∷ es) d =
      chained (tell_central-Answers _ d) (ota_events-Answers es _)
  ota_events-Answers (Event.restart ∷ es) d =
      chained
        (record {
          same = refl;
          done = BtAction.restart ∷ [];
          since = refl;
          answers = (IsAnswer.restarts, tt);
        })
        (ota_events-Answers es _)

  pub run_ota-Answers :
      (f : World B.platform → Err × World B.platform) (d : Device B) → Answers d (run_ota B f d)
  unfolding run_ota
  run_ota-Answers f d =
      let w = (f (ota_world B d)).1 in
      chained (silent refl refl)
        (ota_events-Answers w.log (record d { ota = w.ota; flash = w.dev }))

  pub send_device_info-Answers : (d : Device B) → Answers d (send_device_info B d)
  unfolding send_device_info
  send_device_info-Answers d = elim (Option-cases (B.print_unformatted (info_doc d.cfg))) [
    | inl e ↦ rw (e, send_device_info) (silent refl refl)
    | inr (json, e) ↦ rw (e, send_device_info) (tell_central-Answers (info_packet json) d)
  ]
