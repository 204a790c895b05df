-- ===== src/Node/Endstop.antt =====
-- node/main/endstop.c: the endstop inputs of a node.
-- `s_endstops[0..s_count)` is a list. A call of `endstop_init` is one step: an interrupt that comes
-- before `s_count` is raised is dropped by the handler's own test.
pub mod Inputs
use klippylink.Common.{
  ℕ, zero, suc, ◌+◌, ◌-◌, ◌*◌, ◌/◌, ◌%◌, ◌^◌, ◌≤◌, ◌<◌, min, ◌≡◌, refl, sym, ap, ap₂, ◌∙◌, subst,
  ◌≢◌, ◌↔◌, ◌⊎◌, inl, inr, Bool, true, false, not, ◌&&◌, ◌||◌, Option, none, some, List, [], ◌∷◌,
  ◌++◌, map, append-nil, append_assoc, arith, ltb, leb, ◌==◌, if◌then◌else◌, ltb→lt, ltb→le, lt→ltb,
  le→ltb, leb→le, leb→lt, le→leb, lt→leb, ==_iff, ==_refl, ==_ne, ==→ne, Bool-cases, Option-cases,
  length, get_elem?, get_or, set, take, drop, replicate, length-append, length-set,
  get_elem?-set_self, get_elem?-set_ne, get_elem?-none, take-append-drop, length-take, length-drop,
  length-replicate, take-all, take-append_left, take-suc-set, take-take, get_or-take,
  get_or-append_left, All, All-append,
}
use klippylink.Esp.{Err, is_ok}

abbrev pub endstop_max : ℕ
endstop_max = 8

-- `endstop_t`; of the callback only whether it is set.
pub record Endstop : Type 0 where
  pub gpio : ℕ
  pub active_low : Bool
  pub cb : Bool

pub data GpioCall : Type 0 where
  -- `gpio_config` of a pin, with its pull-up, and interrupts on any edge or none.
  config : ℕ → Bool → Bool → GpioCall
  install_isr_service : GpioCall
  -- `gpio_isr_handler_add` of a pin, with the index that the handler gets.
  isr_handler_add : ℕ → ℕ → GpioCall

-- The static variables, and the calls of the GPIO driver so far.
pub record Endstops : Type 0 where
  pub endstops : List Endstop
  pub isr_service_installed : Bool
  pub calls : List GpioCall

abbrev pub call : GpioCall → Endstops → Endstops
call g w = record w { calls = w.calls ++ g ∷ [] }

abbrev pub install_service : Endstops → Endstops
install_service w =
    if w.isr_service_installed
    then w
    else call GpioCall.install_isr_service (record w { isr_service_installed = true })

-- The handler for a new endstop, if it has a callback.
abbrev pub hook : ℕ → ℕ → Bool → Endstops → Endstops
hook gpio_num idx true w = call (GpioCall.isr_handler_add gpio_num idx) (install_service w)
hook gpio_num idx false w = w

-- `configure` is what `gpio_config` returns. The middle part of the result is `*idx_out`, which is
-- written only on success.
unfoldable pub endstop_init :
    (ℕ → Bool → Bool → Err) → ℕ → Bool → Bool → Bool → Endstops → Err × Option ℕ × Endstops
endstop_init configure gpio_num pull_up active_low cb w =
    if leb endstop_max (length w.endstops)
    then (Err.no_mem, none, w)
    else (let w₁ = call (GpioCall.config gpio_num pull_up cb) w in
        if is_ok (configure gpio_num pull_up cb)
        then (
          Err.esp_ok,
          some (length w.endstops),
          hook gpio_num (length w.endstops) cb (record w₁ {
            endstops =
                w.endstops ++ record { gpio = gpio_num; active_low = active_low; cb = cb } ∷ [];
          }),
        )
        else (configure gpio_num pull_up cb, none, w₁))

abbrev isr_of : ℕ → (ℕ → ℕ) → Option Endstop → Option (ℕ × Bool)
isr_of idx level none = none
isr_of idx level (some e) =
    if e.cb
    then some (idx, (if e.active_low then level e.gpio == 0 else level e.gpio == 1))
    else none

-- The call of the callback that the interrupt makes, if it makes one; `level` is `gpio_get_level`.
unfoldable pub endstop_isr_handler : (ℕ → ℕ) → ℕ → Endstops → Option (ℕ × Bool)
endstop_isr_handler level idx w = isr_of idx level (get_elem? w.endstops idx)

abbrev read_of : (ℕ → ℕ) → Option Endstop → Bool
read_of level none = false
read_of level (some e) = if e.active_low then level e.gpio == 0 else not (level e.gpio == 0)

unfoldable pub endstop_read : (ℕ → ℕ) → ℕ → Endstops → Bool
endstop_read level idx w = read_of level (get_elem? w.endstops idx)

abbrev gpio_of : Option Endstop → ℕ
gpio_of none = 0
gpio_of (some e) = e.gpio

unfoldable pub endstop_gpio : ℕ → Endstops → ℕ
endstop_gpio idx w = gpio_of (get_elem? w.endstops idx)

abbrev pub endstop_count : Endstops → ℕ
endstop_count w = length w.endstops
