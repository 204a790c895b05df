-- ===== src/Node/Gatt/Faults.antt =====
-- When `dispatch_packet` of node/main/gatt_server.c goes through, and when it faults.
pub mod Causes
use klippylink.Common.{
  ℕ, zero, suc, ◌+◌, ◌-◌, ◌*◌, ◌/◌, ◌%◌, ◌^◌, ◌≤◌, ◌<◌, min, ◌≡◌, refl, sym, ap, ap₂, ◌∙◌, subst,
  ◌≢◌, ◌↔◌, ◌⊎◌, inl, inr, Bool, true, false, not, ◌&&◌, ◌||◌, Option, none, some, List, [], ◌∷◌,
  ◌++◌, map, append-nil, append_assoc, arith, ltb, leb, ◌==◌, if◌then◌else◌, ltb→lt, ltb→le, lt→ltb,
  le→ltb, leb→le, leb→lt, le→leb, lt→leb, ==_iff, ==_refl, ==_ne, ==→ne, Bool-cases, Option-cases,
  length, get_elem?, get_or, set, take, drop, replicate, length-append, length-set,
  get_elem?-set_self, get_elem?-set_ne, get_elem?-none, take-append-drop, length-take, length-drop,
  length-replicate, take-all, take-append_left, take-suc-set, take-take, get_or-take,
  get_or-append_left, All, All-append, get_elem?-append_last,
}
use klippylink.Esp.{Err, is_ok}
use klippylink.Json.{c_string, ◌>>=◌}
use klippylink.Protocol.{
  Command, command_code, klip_header_size, klipproto_magic, packet_magic, packet_command,
  packet_length,
}
use klippylink.Protocol.Codes.{command_of, command_of-command_code}
use klippylink.Node.Effects.{Effects, led_max_zones}
use klippylink.Node.Wifi.{Wifi, WifiCall, checked_all, init_netif, wifi_node_enable}
use klippylink.Node.Gatt.{Board, Device, payload_bytes, with_payload, on_zone, byte}
use klippylink.Node.Gatt.Dispatch.{
  dispatch_packet, dispatch_command, ota_data_case, wifi_enable_case, wifi_pass, wifi_join,
}

pub head-drop : (n : ℕ) (xs : List ℕ) (d : ℕ) → get_or (drop n xs) 0 d ≡ get_or xs n d
head-drop zero xs d = refl
head-drop (suc n) [] d = refl
head-drop (suc n) (x ∷ xs) d = head-drop n xs d

-- The bytes of a payload are there if they were written.
pub payload_bytes_lem :
    (i n : ℕ) (value : List ℕ)
    → klip_header_size + i + n ≤ length value
    → payload_bytes i n value ≡ some (take n (drop (klip_header_size + i) value))
unfolding payload_bytes
payload_bytes_lem i n value h = simp (le→leb (klip_header_size + i + n) (length value) h) refl

pub payload_bytes-none :
    (i n : ℕ) (value : List ℕ)
    → length value < klip_header_size + i + n
    → payload_bytes i n value ≡ none
unfolding payload_bytes
payload_bytes-none i n value h = simp (lt→leb (klip_header_size + i + n) (length value) h) refl

-- The step gives a result.
abbrev Total : {A : Type 0} → Option A → Type 0
Total {A} o = (a : A) × (o ≡ some a)

Total-bind :
    {A B : Type 0} (m : Option A) (f : A → Option B)
    → Total m
    → ((a : A) → Total (f a))
    → Total (m >>= f)
Total-bind m f (a, e) k = rw e (k a)

Total-if :
    {A : Type 0} (b : Bool) (x : A) (o : Option A)
    → (b ≡ false → Total o)
    → Total (if b then some x else o)
Total-if true x o h = (x, refl)
Total-if false x o h = h refl

checked_all-Total :
    (result : List WifiCall → WifiCall → Err) (cs : List WifiCall) (w : Wifi)
    → ((l : List WifiCall) (c : WifiCall) → is_ok (result l c) ≡ true)
    → Total (checked_all result cs w)
unfolding checked_all
checked_all-Total result [] w ok = (w, refl)
checked_all-Total result (c ∷ cs) w ok = simp (ok w.calls c) (checked_all-Total result cs _ ok)

wifi_node_enable-Total :
    (result : List WifiCall → WifiCall → Err) (ssid pass : List ℕ) (cb : Bool) (w : Wifi)
    → ((l : List WifiCall) (c : WifiCall) → is_ok (result l c) ≡ true)
    → Total (wifi_node_enable result ssid pass cb w)
unfolding wifi_node_enable init_netif
wifi_node_enable-Total result ssid pass cb w ok =
    Total-bind (init_netif result (record w { has_ip_cb = cb })) _
      (Total-if w.netif_inited _ _
        (λ e. Total-bind _ _ (checked_all-Total result _ _ ok) (λ w'. (_, refl))))
      (λ w'. checked_all-Total result _ w' ok)

module _ (B : Board) where
  -- Every byte that the packet announces was written, the effects engine was started, and the calls for
  -- the wireless network succeed.
  pub record IsTaken (value : List ℕ) (d : Device B) : Type 0 where
    pub whole : klip_header_size + packet_length value ≤ length value
    pub engine : d.has_mutex ≡ true
    pub network : (l : List WifiCall) (c : WifiCall) → is_ok (B.wifi_result l c) ≡ true

  with_payload-Total :
      (n : ℕ) (value : List ℕ) (f : List ℕ → Option (Device B)) (d : Device B)
      → klip_header_size + packet_length value ≤ length value
      → ((p : List ℕ) → Total (f p))
      → Total (with_payload B n value f d)
  unfolding with_payload
  with_payload-Total n value f d h k = Total-if (ltb (packet_length value) n) d _ (λ e.
      let le = ltb→le (packet_length value) n e in
      Total-bind (payload_bytes 0 n value) f (_, payload_bytes_lem 0 n value (omega arith)) k)

  on_zone-Total :
      (zone_id : ℕ) (f : Effects B.leds B.outside → Err × Effects B.leds B.outside) (d : Device B)
      → d.has_mutex ≡ true
      → Total (on_zone B zone_id f d)
  unfolding on_zone
  on_zone-Total zone_id f d m =
      let e : (ltb zone_id led_max_zones && not d.has_mutex) ≡ false = ground arith in
      simp e (_, refl)

  wifi_enable_case-Total :
      (value : List ℕ) (d : Device B) → IsTaken value d → Total (wifi_enable_case B value d)
  unfolding wifi_enable_case wifi_pass wifi_join
  wifi_enable_case-Total value d t =
      let whole = t.whole in
      Total-if (ltb (packet_length value) 2) d _ (λ e₁.
        let l₁ = ltb→le (packet_length value) 2 e₁ in
        Total-bind (payload_bytes 0 1 value) _ (_, payload_bytes_lem 0 1 value (omega arith))
          (λ q.
            let m = byte B q 0 in
            Total-if (ltb (packet_length value) (1 + m + 1)) d _ (λ e₂.
              let l₂ = ltb→le (packet_length value) (1 + m + 1) e₂ in
              Total-bind (payload_bytes (1 + m) 1 value) _
                (_, payload_bytes_lem (1 + m) 1 value (omega arith))
                (λ q'.
                  let n = byte B q' 0 in
                  Total-if (ltb (packet_length value) (1 + m + 1 + n)) d _ (λ e₃.
                    let l₃ = ltb→le (packet_length value) (1 + m + 1 + n) e₃ in
                    Total-bind (payload_bytes 1 (min m 32) value) _
                      (_, payload_bytes_lem 1 (min m 32) value (omega arith))
                      (λ ssid.
                        Total-bind (payload_bytes (2 + m) (min n 64) value) _
                          (_, payload_bytes_lem (2 + m) (min n 64) value (omega arith))
                          (λ pass.
                            Total-bind
                              (wifi_node_enable B.wifi_result (c_string ssid) (c_string pass) false
                                d.wifi)
                              _ (wifi_node_enable-Total B.wifi_result _ _ false d.wifi t.network)
                              (λ w. (_, refl)))))))))

  ota_data_case-Total :
      (value : List ℕ) (d : Device B) → IsTaken value d → Total (ota_data_case B value d)
  unfolding ota_data_case
  ota_data_case-Total value d t = elim (Bool-cases d.ota.active) [
    | inr e ↦ simp e (d, refl)
    | inl e ↦
        let whole = t.whole in
        simp e (
          Total-bind (payload_bytes 0 (packet_length value) value) _
            (_, payload_bytes_lem 0 (packet_length value) value (omega arith)) (λ p. (_, refl)))
  ]

  dispatch_command-Total :
      (c : Option Command) (value : List ℕ) (d : Device B)
      → IsTaken value d
      → Total (dispatch_command B c value d)
  unfolding dispatch_command
  dispatch_command-Total (some Command.neopixel_set) value d t =
      with_payload-Total 4 value _ d t.whole (λ p. (_, refl))
  dispatch_command-Total (some Command.neopixel_set_all) value d t =
      with_payload-Total 3 value _ d t.whole (λ p. (_, refl))
  dispatch_command-Total (some Command.neopixel_set_range) value d t =
      with_payload-Total 5 value _ d t.whole (λ p. (_, refl))
  dispatch_command-Total (some Command.led_zone_set) value d t =
      with_payload-Total 13 value _ d t.whole (λ p. on_zone-Total (byte B p 0) _ d t.engine)
  dispatch_command-Total (some Command.led_zone_clr) value d t =
      with_payload-Total 1 value _ d t.whole (λ p. on_zone-Total (byte B p 0) _ d t.engine)
  dispatch_command-Total (some Command.endstop_query) value d t =
      with_payload-Total 1 value _ d t.whole (λ p. (_, refl))
  dispatch_command-Total (some Command.ota_begin) value d t =
      with_payload-Total 8 value _ d t.whole (λ p. (_, refl))
  dispatch_command-Total (some Command.ota_data) value d t = ota_data_case-Total value d t
  dispatch_command-Total (some Command.wifi_enable) value d t = wifi_enable_case-Total value d t
  dispatch_command-Total (some Command.heater_set) value d t = elim (Bool-cases B.full) [
    | inl e ↦ rw e (with_payload-Total 16 value _ d t.whole (λ p. (_, refl)))
    | inr e ↦ rw e (d, refl)
  ]
  dispatch_command-Total _ value d t = (_, refl)

  -- A packet whose announced payload was written whole is handled without a fault, whatever its
  -- command and its payload are and in whatever state the node is, if the effects engine was started
  -- and the calls for the wireless network succeed.
  pub dispatch_packet-Total :
      (value : List ℕ) (d : Device B)
      → IsTaken value d
      → (d' : Device B) × (dispatch_packet B value d ≡ some d')
  unfolding dispatch_packet
  dispatch_packet-Total value d t = elim (Bool-cases (packet_magic value == klipproto_magic)) [
    | inl e ↦ simp e (dispatch_command-Total (command_of (packet_command value)) value d t)
    | inr e ↦ simp e (d, refl)
  ]
