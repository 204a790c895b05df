-- ===== src/Router/Start/Ready.antt =====
-- A router that has started: the serial line and the Bluetooth stack are set up, and its tables are
-- empty.
use klippylink.Common.{
  ◌≤◌, ◌≡◌, refl, sym, ap, ◌∙◌, subst, inl, inr, true, ◌&&◌, some, List, [], ◌∷◌, ◌++◌, append-nil,
  append_assoc, arith, if◌then◌else◌, Bool-cases, length,
}
use klippylink.Esp.{Err, is_ok}
use klippylink.Json.{Json, >>=-eq-some, eq_of_some, none≢some}
use klippylink.Router.Registry.History.{node_registry_init-IsValid}
use klippylink.Router.Registry.History
use klippylink.Router.Serial.{Bridge, serial_bridge_init}
use klippylink.Router.Central.Conns.{max_conns}
use klippylink.Router.Central.{Central}
use klippylink.Router.Central.Runs.{Run, Run-Stable}
use klippylink.Router.Start.{
  StartCall, Boot, StartBoard, start_call, asks_erase, start_checked, bluetooth_calls,
  ble_central_init, nvs_start, empty_registry, app_main,
}

module _ (S : StartBoard) where
  start_checked-same :
      (cs : List StartCall) (w w' : Boot)
      → start_checked S cs w ≡ some w'
      → (w'.central ≡ w.central)
        × (w'.bridge ≡ w.bridge)
        × (w'.has_response_cb ≡ w.has_response_cb)
        × (w'.calls ≡ w.calls ++ cs)
  unfolding start_checked
  start_checked-same [] w w' h =
      let e = eq_of_some h in
      (
        ap (λ x. x.central) (sym e),
        ap (λ x. x.bridge) (sym e),
        ap (λ x. x.has_response_cb) (sym e),
        ap (λ x. x.calls) (sym e) ∙ sym (append-nil w.calls),
      )
  start_checked-same (a ∷ rest) w w' h = elim (Bool-cases (is_ok (S.result w.calls a))) [
    | inl ok ↦
        let (c, b, r, l) = start_checked-same rest (start_call a w) w' (simp ok at h) in
        (c, b, r, l ∙ append_assoc w.calls (a ∷ []) rest)
    | inr bad ↦ absurd (none≢some (simp bad at h))
  ]

  start_checked-works :
      (cs : List StartCall) (w : Boot)
      → ((before : List StartCall) (a : StartCall) → is_ok (S.result before a) ≡ true)
      → (w' : Boot) × (start_checked S cs w ≡ some w')
  unfolding start_checked
  start_checked-works [] w works = (w, refl)
  start_checked-works (a ∷ rest) w works =
      let (w', e) = start_checked-works rest (start_call a w) works in
      (w', simp (works w.calls a) e)

  nvs_start-same :
      (w : Boot) → ((nvs_start S w).central ≡ w.central) × ((nvs_start S w).bridge ≡ w.bridge)
  unfolding nvs_start
  nvs_start-same w = elim (Bool-cases (asks_erase (S.result w.calls StartCall.nvs_flash_init))) [
    | inl e ↦ rw e (refl, refl)
    | inr e ↦ rw e (refl, refl)
  ]

  -- The calls that set the flash storage up: again from an empty one after two errors.
  abbrev pub storage_calls : Err → List StartCall
  storage_calls Err.nvs_no_free_pages =
      StartCall.nvs_flash_init ∷ StartCall.nvs_flash_erase ∷ StartCall.nvs_flash_init ∷ []
  storage_calls Err.nvs_new_version_found =
      StartCall.nvs_flash_init ∷ StartCall.nvs_flash_erase ∷ StartCall.nvs_flash_init ∷ []
  storage_calls _ = StartCall.nvs_flash_init ∷ []

  storage_calls-asks_erase :
      (e : Err)
      → storage_calls e ≡ (
          if asks_erase e
          then StartCall.nvs_flash_init ∷ StartCall.nvs_flash_erase ∷ StartCall.nvs_flash_init ∷ []
          else StartCall.nvs_flash_init ∷ [])
  storage_calls-asks_erase Err.nvs_no_free_pages = refl
  storage_calls-asks_erase Err.nvs_new_version_found = refl
  storage_calls-asks_erase Err.esp_ok = refl
  storage_calls-asks_erase Err.esp_fail = refl
  storage_calls-asks_erase Err.no_mem = refl
  storage_calls-asks_erase Err.invalid_arg = refl
  storage_calls-asks_erase Err.invalid_state = refl
  storage_calls-asks_erase Err.not_found = refl
  storage_calls-asks_erase Err.invalid_crc = refl
  storage_calls-asks_erase (Err.other n) = refl

  nvs_start-calls :
      (w : Boot)
      → (nvs_start S w).calls ≡ w.calls ++ storage_calls (S.result w.calls StartCall.nvs_flash_init)
  unfolding nvs_start
  nvs_start-calls w =
      let result = S.result w.calls StartCall.nvs_flash_init in
      rw (storage_calls-asks_erase result) (elim (Bool-cases (asks_erase result)) [
        | inl e ↦ simp (e, append_assoc) refl
        | inr e ↦ simp e refl
      ])

  serial_bridge_init-mutex :
      (b b' : Bridge)
      → serial_bridge_init S.installed S.configured S.mutex_ok b ≡ some b'
      → b'.has_mutex ≡ true
  unfolding serial_bridge_init
  serial_bridge_init-mutex b b' h =
      elim (Bool-cases (is_ok S.installed && is_ok S.configured && S.mutex_ok)) [
        | inl ok ↦ ap (λ x. x.has_mutex) (sym (eq_of_some (rw ok at h)))
        | inr bad ↦ absurd (none≢some (rw bad at h))
      ]

  -- Every call is answered with ESP_OK, and there is memory for the mutex.
  pub record WorksAll : Type 0 where
    pub calls : (before : List StartCall) (a : StartCall) → is_ok (S.result before a) ≡ true
    pub installed : is_ok S.installed ≡ true
    pub configured : is_ok S.configured ≡ true
    pub memory : S.mutex_ok ≡ true

  -- Then the start comes to its end.
  pub app_main-works : (w : Boot) → WorksAll → (w' : Boot) × (app_main S w ≡ some w')
  unfolding app_main serial_bridge_init ble_central_init
  app_main-works w h =
      let (w', e) =
        start_checked-works bluetooth_calls
          (start_call StartCall.nvs_flash_init (record (empty_registry (nvs_start S w)) {
            bridge = record ((nvs_start S w).bridge) { has_mutex = true };
            has_response_cb = true;
          }))
          h.calls in
      (w', simp (h.installed, h.configured, h.memory) e)

  -- A start that comes to its end, with no connection in the table before it, has made just these
  -- calls of the storage and the Bluetooth stack, in this order: nvs_flash_init, and after each of its
  -- two errors for a storage that has to be emptied also nvs_flash_erase and nvs_flash_init; then
  -- nvs_flash_init once more, the controller's and Bluedroid's init and enable, the two callbacks, and
  -- app_register for app 0. The mutex of the serial line and the response callback are set, and over
  -- any run of events and writes that follows and meets no fault the node table has at most 8 slots,
  -- all within their bounds, and the connection table has at most 8 connections.
  pub app_main-Run :
      {J : Json} (w w' : Boot) (c : Central)
      → w.central.conns ≡ []
      → app_main S w ≡ some w'
      → Run J w'.central c
      → (w'.bridge.has_mutex ≡ true)
        × (w'.has_response_cb ≡ true)
        × (w'.calls
            ≡ (w.calls ++ storage_calls (S.result w.calls StartCall.nvs_flash_init))
              ++ StartCall.nvs_flash_init
                ∷ StartCall.controller_init
                ∷ StartCall.controller_enable
                ∷ StartCall.bluedroid_init
                ∷ StartCall.bluedroid_enable
                ∷ StartCall.register_gap_callback
                ∷ StartCall.register_gattc_callback
                ∷ StartCall.app_register 0
                ∷ [])
        × History.IsValid c.registry
        × (length c.conns ≤ max_conns)
  unfolding app_main serial_bridge_init ble_central_init
  app_main-Run w w' c empty h run =
      let w₁ = empty_registry (nvs_start S w) in
      let (b, set_up, started) =
        >>=-eq-some (serial_bridge_init S.installed S.configured S.mutex_ok w₁.bridge) _ h in
      let (same, bridge, cb, calls) =
        start_checked-same bluetooth_calls
          (start_call StartCall.nvs_flash_init (record w₁ { bridge = b; has_response_cb = true }))
          w' started in
      let none_yet : w'.central.conns ≡ [] =
        ap (λ x. x.conns) same ∙ ap (λ x. x.conns) (nvs_start-same w).0 ∙ empty in
      let (v, room, _) =
        Run-Stable
          (subst History.IsValid (ap (λ x. x.registry) (sym same)) node_registry_init-IsValid)
          (omega (arith, ap length none_yet)) run in
      (
        ap (λ x. x.has_mutex) bridge ∙ serial_bridge_init-mutex w₁.bridge b set_up,
        cb,
        calls
            ∙ append_assoc (nvs_start S w).calls (StartCall.nvs_flash_init ∷ []) bluetooth_calls
            ∙ ap (λ l. l ++ StartCall.nvs_flash_init ∷ bluetooth_calls) (nvs_start-calls w),
        v,
        room,
      )
