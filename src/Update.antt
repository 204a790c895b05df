-- ===== src/Update.antt =====
-- A firmware update from end to end: router/main/ota_handler.c pushes the image, each packet is
-- written to the command characteristic of the node, and node/main/gatt_server.c and
-- node/main/ota_handler.c take it.
pub mod Packets
pub mod Whole
mod Tests
use klippylink.Common.{
  ℕ, zero, suc, ◌+◌, ◌-◌, ◌*◌, ◌/◌, ◌%◌, ◌^◌, ◌≤◌, ◌<◌, min, ◌≡◌, refl, sym, ap, ap₂, ◌∙◌, subst,
  ◌≢◌, ◌↔◌, ◌⊎◌, inl, inr, Bool, true, false, not, ◌&&◌, ◌||◌, Option, none, some, List, [], ◌∷◌,
  ◌++◌, map, append-nil, append_assoc, arith, ltb, leb, ◌==◌, if◌then◌else◌, ltb→lt, ltb→le, lt→ltb,
  le→ltb, leb→le, leb→lt, le→leb, lt→leb, ==_iff, ==_refl, ==_ne, ==→ne, Bool-cases, Option-cases,
  length, get_elem?, get_or, set, take, drop, replicate, length-append, length-set,
  get_elem?-set_self, get_elem?-set_ne, get_elem?-none, take-append-drop, length-take, length-drop,
  length-replicate, take-all, take-append_left, take-suc-set, take-take, get_or-take,
  get_or-append_left, All, All-append, get_elem?-append_last,
}
use klippylink.Esp.{Err}
use klippylink.Node.Ota.Driver.{Platform, Laws}
use klippylink.Esp.{is_ok}
use klippylink.Node.Gatt.{Board, Device, idx_cmd_val, idx_tel_cccd}
use klippylink.Node.Gatt.Events.{on_gatts_write}

-- A driver that does what it is asked for: there is a partition and memory, no call fails, and to
-- close an image and to choose it for the next start leave its bytes alone. `next_start` is the
-- partition that the flash says is started next: the one that was last chosen.
pub record Works (P : Platform) (L : Laws P) : Type 0 where
  pub partition : (d : P.Dev) → (part : ℕ) × (P.next_partition d ≡ some part)
  pub begins : (d : P.Dev) (part h : ℕ) → is_ok (P.begin d part h).0 ≡ true
  pub writes : (d : P.Dev) (h : ℕ) (bytes : List ℕ) → is_ok (P.write d h bytes).0 ≡ true
  pub finishes : (d : P.Dev) (h : ℕ) → is_ok (P.finish d h).0 ≡ true
  pub boots : (d : P.Dev) (part : Option ℕ) → is_ok (P.set_boot d part).0 ≡ true
  pub next_start : P.Dev → Option ℕ
  pub boot_chooses : (d : P.Dev) (part : Option ℕ) → next_start (P.set_boot d part).1 ≡ part
  pub memory : (d : P.Dev) → P.malloc_ok d ≡ true
  pub finish_keeps : (d : P.Dev) (h part : ℕ) → L.image (P.finish d h).1 part ≡ L.image d part
  pub boot_keeps :
      (d : P.Dev) (p : Option ℕ) (part : ℕ) → L.image (P.set_boot d p).1 part ≡ L.image d part

module _ (B : Board) where
  -- A link that loses nothing: what is written arrives at the handle of the commands, and the write
  -- fails if the node does.
  unfoldable pub deliver : List ℕ → Device B → Err × Device B
  deliver bytes d = elim (on_gatts_write B (get_or d.handles idx_cmd_val 0) bytes d) [
    | none ↦ (Err.esp_fail, d)
    | some d' ↦ (Err.esp_ok, d')
  ]

  -- The handles of the two characteristics that are written to differ.
  abbrev pub HasHandles : Device B → Type 0
  HasHandles d = get_or d.handles idx_cmd_val 0 ≢ get_or d.handles idx_tel_cccd 0
