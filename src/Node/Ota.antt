-- ===== src/Node/Ota.antt =====
-- node/main/ota_handler.c: a firmware image taken in pieces, checked and booted.
pub mod Driver
pub mod ReadBack
pub mod Branches
pub mod Transfer
pub mod Session
pub mod History
use klippylink.Common.{
  ℕ, zero, suc, ◌+◌, ◌-◌, ◌*◌, ◌/◌, ◌%◌, ◌^◌, ◌≤◌, ◌<◌, min, ◌≡◌, refl, sym, ap, ap₂, ◌∙◌, subst,
  ◌≢◌, ◌↔◌, ◌⊎◌, inl, inr, Bool, true, false, not, ◌&&◌, ◌||◌, Option, none, some, List, [], ◌∷◌,
  ◌++◌, map, append-nil, append_assoc, arith, ltb, leb, ◌==◌, if◌then◌else◌, ltb→lt, ltb→le, lt→ltb,
  le→ltb, leb→le, leb→lt, le→leb, lt→leb, ==_iff, ==_refl, ==_ne, ==→ne, Bool-cases, Option-cases,
  length, get_elem?, get_or, set, take, drop, replicate, length-append, length-set,
  get_elem?-set_self, get_elem?-set_ne, get_elem?-none, take-append-drop, length-take, length-drop,
  length-replicate, take-all, take-append_left, take-suc-set, take-take, get_or-take,
  get_or-append_left, All, All-append,
}
use klippylink.Esp.{Err, is_ok}
use klippylink.Protocol.{OtaStatus}
use Driver.{Platform}

-- What the outside sees: a call of the status callback, and the restart.
pub data Event : Type 0 where
  status : OtaStatus → Event
  restart : Event

-- The static variables, `s_handle` to `s_active`. A partition is a pointer that may be null, and of
-- the callback only whether it is set.
pub record Ota : Type 0 where
  pub handle : ℕ
  pub part : Option ℕ
  pub expected_crc : ℕ
  pub received_bytes : ℕ
  pub total_bytes : ℕ
  pub cb : Bool
  pub active : Bool

abbrev pub fresh : Ota
fresh = record {
  handle = 0;
  part = none;
  expected_crc = 0;
  received_bytes = 0;
  total_bytes = 0;
  cb = false;
  active = false;
}

-- `if (s_cb) s_cb(st)`
abbrev pub tell : Bool → OtaStatus → List Event → List Event
tell true st log = log ++ Event.status st ∷ []
tell false st log = log

module _ (P : Platform) where
  open P use {Dev}

  -- The handler's variables, the flash and its driver, and the events so far.
  pub record World : Type 0 where
    pub ota : Ota
    pub dev : Dev
    pub log : List Event

  unfoldable pub ota_abort : World → World
  ota_abort w =
      if w.ota.active
      then record w { ota = record (w.ota) { active = false }; dev = P.abort w.dev w.ota.handle }
      else w

  -- The update that starts once a partition is found.
  unfoldable pub start : ℕ → ℕ → Bool → ℕ → World → Err × World
  start size crc32 cb part w =
      let (e, h, d) = P.begin w.dev part w.ota.handle in
      if is_ok e
      then (
        Err.esp_ok,
        record w {
          ota = record {
            handle = h;
            part = some part;
            expected_crc = crc32;
            received_bytes = 0;
            total_bytes = size;
            cb = cb;
            active = true;
          };
          dev = d;
          log = tell cb OtaStatus.in_progress w.log;
        },
      )
      else (e, record w { ota = record (w.ota) { handle = h; part = some part }; dev = d })

  unfoldable pub ota_begin : ℕ → ℕ → Bool → World → Err × World
  ota_begin size crc32 cb w =
      let w₁ = ota_abort w in
      elim (P.next_partition w₁.dev) [
        | none ↦ (Err.not_found, record w₁ { ota = record (w₁.ota) { part = none } })
        | some part ↦ start size crc32 cb part w₁
      ]

  unfoldable pub ota_write : List ℕ → World → Err × World
  ota_write bytes w =
      if w.ota.active
      then (let (e, d) = P.write w.dev w.ota.handle bytes in
          if is_ok e
          then (
            Err.esp_ok,
            record w {
              ota = record (w.ota) {
                received_bytes = (w.ota.received_bytes + length bytes) % 2 ^ 32;
              };
              dev = d;
            },
          )
          else (let w₁ = ota_abort (record w { dev = d }) in
              (e, record w₁ { log = tell w₁.ota.cb OtaStatus.failed w₁.log })))
      else (Err.invalid_state, w)

  -- The loop that reads the image back; one unit of fuel is one chunk.
  unfoldable pub read_back : ℕ → Dev → Option ℕ → ℕ → ℕ → ℕ → ℕ
  read_back zero d part received offset crc = crc
  read_back (suc fuel) d part received offset crc =
      let chunk = if ltb (received - offset) 256 then received - offset else 256 in
      let rest =
        read_back fuel d part received (offset + chunk) (P.crc crc (P.read d part offset chunk)) in
      if ltb offset received then rest else crc

  -- `actual_crc`; it stays 0 when there is no memory for the buffer.
  unfoldable pub actual_crc : World → ℕ
  actual_crc w =
      if P.malloc_ok w.dev
      then read_back w.ota.received_bytes w.dev w.ota.part w.ota.received_bytes 0 0
      else 0

  unfoldable pub stop_failed : Err → Dev → World → Err × World
  stop_failed e d w = (
    e,
    record w {
      ota = record (w.ota) { active = false };
      dev = d;
      log = tell w.ota.cb OtaStatus.failed w.log;
    },
  )

  unfoldable pub boot : World → Err × World
  boot w =
      let (e, d) = P.set_boot w.dev w.ota.part in
      if is_ok e
      then (
        Err.esp_ok,
        record w {
          ota = record (w.ota) { active = false };
          dev = d;
          log = tell w.ota.cb OtaStatus.done w.log ++ Event.restart ∷ [];
        },
      )
      else stop_failed e d w

  unfoldable pub close : World → Err × World
  close w =
      let (e, d) = P.finish w.dev w.ota.handle in
      if is_ok e then boot (record w { dev = d }) else stop_failed e d w

  unfoldable pub crc_rejects : World → Bool
  crc_rejects w = not (w.ota.expected_crc == 0) && not (actual_crc w == w.ota.expected_crc)

  unfoldable pub ota_end : World → Err × World
  ota_end w =
      if w.ota.active
      then (if crc_rejects w
          then stop_failed Err.invalid_crc (P.abort w.dev w.ota.handle) w
          else close w)
      else (Err.invalid_state, w)
