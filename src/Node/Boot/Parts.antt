-- ===== src/Node/Boot/Parts.antt =====
-- The strips and the inputs that a node sets up at its start.
use klippylink.Common.{
  ℕ, suc, ◌+◌, ◌≤◌, ◌<◌, ◌≡◌, refl, sym, ap, ap₂, ◌∙◌, inl, inr, Bool, true, false, List, [], ◌∷◌,
  ◌++◌, map, append-nil, append_assoc, arith, leb, lt→leb, Bool-cases, length, length-append,
}
use mathlib.Core.List.{map-append}
use klippylink.Esp.{Err, is_ok}
use klippylink.Node.Neopixel.Driver.{LedDriver}
use klippylink.Node.Neopixel.{Strip, Strips, neopixel_init}
use klippylink.Node.Endstop.{Endstop, Endstops, GpioCall, endstop_init}
use klippylink.Node.Endstop.Inputs.{endstops-hook}
use klippylink.Node.Config.{NeopixelCfg, EndstopCfg}
use klippylink.Node.Boot.{init_strips, init_endstops}

-- The pins and the numbers of LEDs of strips, where a handle stands for a pin.
abbrev pub pins_of : (ℕ → ℕ) → List Strip → List (ℕ × ℕ)
pins_of pin_of ss = map (λ s. (pin_of s.handle, s.count)) ss

pub init_strips_lem :
    (D : LedDriver) (pin_of : ℕ → ℕ) (ns : List NeopixelCfg) (w : Strips D)
    → ((d : D.Dev) (gpio n : ℕ) → is_ok (D.new_rmt_device d gpio n).0 ≡ true)
    → ((d : D.Dev) (gpio n : ℕ) → pin_of (D.new_rmt_device d gpio n).1 ≡ gpio)
    → length w.strips + length ns ≤ 4
    → pins_of pin_of (init_strips D ns w).strips
      ≡ pins_of pin_of w.strips ++ map (λ n. (n.gpio, n.count)) ns
unfolding init_strips neopixel_init
init_strips_lem D pin_of [] w works pins h = sym (append-nil (pins_of pin_of w.strips))
init_strips_lem D pin_of (n ∷ ns) w works pins h =
    let room : leb 4 (length w.strips) ≡ false = lt→leb 4 (length w.strips) (omega arith) in
    let s : Strip = record {
      handle = (D.new_rmt_device w.dev n.gpio n.count).1;
      count = n.count;
    } in
    let w' = (neopixel_init D n.gpio n.count w).2 in
    let grown : w'.strips ≡ w.strips ++ s ∷ [] = simp (room, works w.dev n.gpio n.count) refl in
    let size = length-append w.strips (s ∷ []) in
    let size' = ap length grown in
    let rest = map (λ n. (n.gpio, n.count)) ns in
    init_strips_lem D pin_of ns w' works pins (omega arith)
    ∙ ap (λ l. pins_of pin_of l ++ rest) grown
    ∙ ap (λ l. l ++ rest) (map-append (λ k. (pin_of k.handle, k.count)) w.strips (s ∷ []))
    ∙ append_assoc (pins_of pin_of w.strips) ((pin_of s.handle, n.count) ∷ []) rest
    ∙ ap (λ p. pins_of pin_of w.strips ++ (p, n.count) ∷ rest) (pins w.dev n.gpio n.count)

-- The endstop that a configuration asks for.
abbrev pub endstop_of : EndstopCfg → Endstop
endstop_of e = record { gpio = e.gpio; active_low = e.active_low; cb = true }

pub init_endstops_lem :
    (configure : ℕ → Bool → Bool → Err) (es : List EndstopCfg) (w : Endstops)
    → ((gpio : ℕ) (up cb : Bool) → is_ok (configure gpio up cb) ≡ true)
    → length w.endstops + length es ≤ 8
    → (init_endstops configure es w).endstops ≡ w.endstops ++ map endstop_of es
unfolding init_endstops endstop_init
init_endstops_lem configure [] w works h = sym (append-nil w.endstops)
init_endstops_lem configure (e ∷ es) w works h =
    let room : leb 8 (length w.endstops) ≡ false = lt→leb 8 (length w.endstops) (omega arith) in
    let w' = (endstop_init configure e.gpio e.pull_up e.active_low true w).2 in
    let grown : w'.endstops ≡ w.endstops ++ endstop_of e ∷ [] =
      simp (room, works e.gpio e.pull_up true, endstops-hook) refl in
    let size = length-append w.endstops (endstop_of e ∷ []) in
    let size' = ap length grown in
    init_endstops_lem configure es w' works (omega arith)
    ∙ ap (λ l. l ++ map endstop_of es) grown
    ∙ append_assoc w.endstops (endstop_of e ∷ []) (map endstop_of es)

-- The calls that set pins up, for the endstops of a configuration from index `i` on: each pin as the
-- configuration has it, with interrupts, and the handler with the endstop's index.
abbrev pub input_calls : ℕ → List EndstopCfg → List GpioCall
input_calls i [] = []
input_calls i (e ∷ es) =
    GpioCall.config e.gpio e.pull_up true
    ∷ GpioCall.isr_handler_add e.gpio i
    ∷ input_calls (suc i) es

-- The calls for pins among those of the GPIO driver.
abbrev pub pin_calls : List GpioCall → List GpioCall
pin_calls [] = []
pin_calls (GpioCall.config gpio up cb ∷ cs) = GpioCall.config gpio up cb ∷ pin_calls cs
pin_calls (GpioCall.install_isr_service ∷ cs) = pin_calls cs
pin_calls (GpioCall.isr_handler_add gpio i ∷ cs) = GpioCall.isr_handler_add gpio i ∷ pin_calls cs

pin_calls-append : (xs ys : List GpioCall) → pin_calls (xs ++ ys) ≡ pin_calls xs ++ pin_calls ys
pin_calls-append [] ys = refl
pin_calls-append (GpioCall.config gpio up cb ∷ cs) ys =
    ap (λ l. GpioCall.config gpio up cb ∷ l) (pin_calls-append cs ys)
pin_calls-append (GpioCall.install_isr_service ∷ cs) ys = pin_calls-append cs ys
pin_calls-append (GpioCall.isr_handler_add gpio i ∷ cs) ys =
    ap (λ l. GpioCall.isr_handler_add gpio i ∷ l) (pin_calls-append cs ys)

-- One endstop more.
endstop_init-calls :
    (configure : ℕ → Bool → Bool → Err) (e : EndstopCfg) (w : Endstops)
    → is_ok (configure e.gpio e.pull_up true) ≡ true
    → length w.endstops < 8
    → (let w' = (endstop_init configure e.gpio e.pull_up e.active_low true w).2 in
        (w'.endstops ≡ w.endstops ++ endstop_of e ∷ [])
        × (pin_calls w'.calls ≡ pin_calls w.calls ++ input_calls (length w.endstops) (e ∷ [])))
unfolding endstop_init
endstop_init-calls configure e w works lt =
    let room : leb 8 (length w.endstops) ≡ false = lt→leb 8 (length w.endstops) lt in
    let config = GpioCall.config e.gpio e.pull_up true in
    let add = GpioCall.isr_handler_add e.gpio (length w.endstops) in
    let once = pin_calls-append w.calls (config ∷ []) in
    elim (Bool-cases w.isr_service_installed) [
      | inl on ↦
          simp (room, works, on)
            (
              refl,
              pin_calls-append (w.calls ++ config ∷ []) (add ∷ [])
                  ∙ ap (λ l. l ++ add ∷ []) once
                  ∙ append_assoc (pin_calls w.calls) (config ∷ []) (add ∷ []),
            )
      | inr off ↦
          simp (room, works, off)
            (
              refl,
              pin_calls-append ((w.calls ++ config ∷ []) ++ GpioCall.install_isr_service ∷ [])
                    (add ∷ [])
                  ∙ ap (λ l. l ++ add ∷ [])
                      (pin_calls-append (w.calls ++ config ∷ []) (GpioCall.install_isr_service ∷ [])
                        ∙ append-nil (pin_calls (w.calls ++ config ∷ []))
                        ∙ once)
                  ∙ append_assoc (pin_calls w.calls) (config ∷ []) (add ∷ []),
            )
    ]

pub init_endstops-calls :
    (configure : ℕ → Bool → Bool → Err) (es : List EndstopCfg) (w : Endstops)
    → ((gpio : ℕ) (up cb : Bool) → is_ok (configure gpio up cb) ≡ true)
    → length w.endstops + length es ≤ 8
    → pin_calls (init_endstops configure es w).calls
      ≡ pin_calls w.calls ++ input_calls (length w.endstops) es
unfolding init_endstops
init_endstops-calls configure [] w works h = sym (append-nil (pin_calls w.calls))
init_endstops-calls configure (e ∷ es) w works h =
    let w' = (endstop_init configure e.gpio e.pull_up e.active_low true w).2 in
    let (grown, called) =
      endstop_init-calls configure e w (works e.gpio e.pull_up true) (omega arith) in
    let size' = ap length grown in
    let size : length w'.endstops ≡ suc (length w.endstops) =
      omega (arith, length-append w.endstops (endstop_of e ∷ [])) in
    init_endstops-calls configure es w' works (omega arith)
    ∙ ap₂ (λ l i. l ++ input_calls i es) called size
    ∙ append_assoc (pin_calls w.calls) (input_calls (length w.endstops) (e ∷ []))
        (input_calls (suc (length w.endstops)) es)
