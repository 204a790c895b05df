-- ===== src/Router/CentralTests.antt =====
-- Connections and notifications of the router on concrete tables.
use klippylink.Common.{
  ℕ, zero, suc, ◌+◌, ◌-◌, ◌≤◌, ◌≡◌, refl, ap, ◌∙◌, ◌≢◌, Option, none, some, List, [], ◌∷◌, ◌++◌,
  arith, ◌==◌, if◌then◌else◌, ==_ne, length, take, drop, length-append, take-all, take-append_left,
  All,
}
use klippylink.Protocol.{Command, header, packet, u8}
use klippylink.Router.Registry.{
  node_id_by_conn_id, node_by_conn_id, find_slot, modify, node_set_endstop,
}
use klippylink.Router.Central.Conns.{new_conn, find_conn, max_conns}
use klippylink.Router.Central.{
  Action, Central, on_connect, on_notify, update_node, take_command, take_endstop,
}
use klippylink.Esp.{Err}
use klippylink.Router.Central.{GattDb, act, on_search_cmpl}
use klippylink.Router.Registry.{node_registry_init}
use klippylink.Router.Registry.History.{Stable, node_registry_init-IsValid}
use klippylink.Router.Registry.History
use klippylink.Router.Central.{on_disconnect}
use klippylink.Router.Central.Runs.{Handled, Run, Run-Stable}
use klippylink.Router.Central.Events.{on_connect_lem}
use klippylink.Router.Central.Notify.{on_notify_lem}
use klippylink.Router.Central.Faults.{on_notify-overflow}
use klippylink.Router.Central.{on_scan_result}
use klippylink.Node.Gatt.Adv.{raw_adv}
use klippylink.Node.Gatt.Advert.{Resolves, ad_bytes, on_scan_result-raw_adv}
use klippylink.Router.Tests.{addr_b, node_a, table, json, add_b, table-IsFresh}

-- One node, connected as 3.
abbrev pub central : Central
central = record { conns = new_conn 3 1 ∷ []; registry = table; gattc_if = 1; actions = [] }

on_connect_lem_example :
    (let c' = on_connect 1 7 addr_b central in
      (c'.actions
        ≡ ([] ++ Action.emit (u8 1) (header Command.ping 0) ∷ []) ++ Action.search_service 1 7 ∷ [])
      × (find_conn 7 c'.conns ≡ some 1)
      × (node_id_by_conn_id 7 c'.registry ≡ some 1)
      × (length c'.conns ≤ max_conns))
on_connect_lem_example =
    on_connect_lem 1 7 addr_b central 1 (omega arith) (refl, tt) table-IsFresh add_b

abbrev endstop_report : List ℕ
endstop_report = packet Command.endstop_state (0 ∷ 1 ∷ [])

pub known_a : node_id_by_conn_id 3 table ≡ some 0
unfolding node_id_by_conn_id find_slot
known_a = refl

pub by_conn_a : node_by_conn_id 3 table ≡ some 0
unfolding node_by_conn_id find_slot
by_conn_a = refl

abbrev reported : Central
reported = record central {
  actions = Action.emit 0 endstop_report ∷ Action.response 3 endstop_report ∷ [];
}

report : on_notify json 3 endstop_report central ≡ some reported
unfolding on_notify update_node take_command take_endstop node_by_conn_id node_id_by_conn_id
    find_slot modify node_set_endstop
report = refl

on_notify_lem_example :
    (reported.actions
      ≡ ([] ++ Action.emit (u8 0) endstop_report ∷ []) ++ Action.response 3 endstop_report ∷ [])
    × (node_id_by_conn_id 3 reported.registry ≡ some 0)
    × (reported.conns ≡ central.conns)
on_notify_lem_example =
    on_notify_lem json 3 endstop_report central reported 0 refl (omega arith) known_a report

-- A DEVICE_INFO_RESP with length byte 250.
abbrev long_info : List ℕ
long_info = header Command.device_info_resp 250

on_notify-overflow_example : on_notify json 3 long_info central ≡ none
on_notify-overflow_example =
    on_notify-overflow json 3 long_info central 0 node_a refl refl (omega arith) by_conn_a refl

-- A command characteristic with handle 42, and no other attribute.
abbrev gatt_db : GattDb
gatt_db = record {
  char_by_uuid = λ conn_id uuid. if uuid == 0x4C01 then some 42 else none;
  cccd_of = λ conn_id handle. none;
}

abbrev pub take_all : ℕ → ℕ → ℕ → List ℕ → Err
take_all gattc_if conn_id handle bytes = Err.esp_ok

-- Nothing connected.
abbrev pub idle : Central
idle = record { conns = []; registry = node_registry_init; gattc_if = 1; actions = [] }

-- A node connects, is searched, and is lost.
abbrev lost : Central
lost = on_disconnect 7 (on_search_cmpl gatt_db 1 7 (on_connect 1 7 addr_b idle))

visit : Run json idle lost
visit =
    Run.step
      (Run.step (Run.step Run.stay (Handled.connected 1 7 addr_b)) (Handled.searched gatt_db 1 7))
      (Handled.disconnected 7)

Run-Stable_example :
    History.IsValid lost.registry
    × (length lost.conns ≤ max_conns)
    × Stable node_registry_init lost.registry
Run-Stable_example = Run-Stable node_registry_init-IsValid (omega arith) visit

-- A search through the structures.
abbrev resolve_in : ℕ → List ℕ → Option (List ℕ)
resolve_in zero bs = none
resolve_in (suc fuel) [] = none
resolve_in (suc fuel) (len ∷ []) = none
resolve_in (suc fuel) (len ∷ kind ∷ bs) =
    let rest = resolve_in fuel (drop (len - 1) bs) in
    if kind == 0x03 then some (take (len - 1) bs) else rest

abbrev resolve : List ℕ → Option (List ℕ)
resolve bs = resolve_in (length bs) bs

resolve_in-first :
    (fuel : ℕ) (before : List (ℕ × List ℕ)) (content : List ℕ) (after : List (ℕ × List ℕ))
    → length (ad_bytes (before ++ (0x03, content) ∷ after)) ≤ fuel
    → All (λ s. s.0 ≢ 0x03) before
    → resolve_in fuel (ad_bytes (before ++ (0x03, content) ∷ after)) ≡ some content
resolve_in-first zero [] content after h all = absurd (omega arith)
resolve_in-first (suc fuel) [] content after h all =
    let len : (1 + length content) - 1 ≡ length content = omega arith in
    rw len (
      ap some (
        take-append_left (length content) content (ad_bytes after) (omega arith)
        ∙ take-all (length content) content (omega arith)))
resolve_in-first zero ((kind, c) ∷ before) content after h all = absurd (omega arith)
resolve_in-first (suc fuel) ((kind, c) ∷ before) content after h all =
    let len : (1 + length c) - 1 ≡ length c = omega arith in
    let rest = ad_bytes (before ++ (0x03, content) ∷ after) in
    let size = length-append c rest in
    rw (len, ==_ne kind 0x03 all.0, drop_front c rest)
      (resolve_in-first fuel before content after (omega arith) all.1)
  where
    drop_front : (xs ys : List ℕ) → drop (length xs) (xs ++ ys) ≡ ys
    drop_front [] ys = refl
    drop_front (x ∷ xs) ys = drop_front xs ys

resolve-Resolves : Resolves resolve
resolve-Resolves before content after all =
    resolve_in-first _ before content after (omega arith) all

on_scan_result-raw_adv_example :
    on_scan_result (resolve (raw_adv (b'n' ∷ []))) addr_b central
    ≡ act (Action.gattc_open 1 addr_b) (act Action.stop_scanning central)
on_scan_result-raw_adv_example =
    on_scan_result-raw_adv resolve (b'n' ∷ []) addr_b central resolve-Resolves (omega arith)
