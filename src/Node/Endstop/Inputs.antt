-- ===== src/Node/Endstop/Inputs.antt =====
-- The table of inputs: registering one, reading it, and its interrupt.
use klippylink.Common.{
  ℕ, ◌+◌, ◌≤◌, ◌<◌, ◌≡◌, refl, ap, ◌∙◌, ◌⊎◌, inl, inr, Bool, true, false, not, none, some, [], ◌∷◌,
  arith, leb, ◌==◌, if◌then◌else◌, leb→lt, Bool-cases, Option-cases, length, get_elem?, take,
  length-append, take-all, take-append_left, get_elem?-append_last,
}
use klippylink.Esp.{Err, is_ok}
use klippylink.Node.Endstop.{
  Endstop, Endstops, hook, endstop_max, endstop_init, endstop_isr_handler, endstop_read,
  endstop_gpio, endstop_count,
}

-- Setting up the interrupt registers nothing.
pub endstops-hook :
    (gpio idx : ℕ) (cb : Bool) (w : Endstops) → (hook gpio idx cb w).endstops ≡ w.endstops
endstops-hook gpio idx false w = refl
endstops-hook gpio idx true w = elim (Bool-cases w.isr_service_installed) [
  | inl e ↦ simp e refl
  | inr e ↦ simp e refl
]

-- `endstop_init` never registers more than 8 endstops. It either fails, gives no index out and
-- registers nothing; or it succeeds, the endstop has the next index and its pin there, and those
-- before it are as they were.
pub endstop_init_lem :
    (configure : ℕ → Bool → Bool → Err) (gpio_num : ℕ) (pull_up active_low cb : Bool) (w : Endstops)
    → endstop_count w ≤ endstop_max
    → (let out = endstop_init configure gpio_num pull_up active_low cb w in
        (endstop_count out.2 ≤ endstop_max)
        × ((is_ok out.0 ≡ false) × (out.1 ≡ none) × (out.2.endstops ≡ w.endstops)
            ⊎ (out.0 ≡ Err.esp_ok)
              × (out.1 ≡ some (endstop_count w))
              × (endstop_gpio (endstop_count w) out.2 ≡ gpio_num)
              × (endstop_count out.2 ≡ endstop_count w + 1)
              × (take (endstop_count w) out.2.endstops ≡ w.endstops)))
unfolding endstop_init endstop_gpio
endstop_init_lem configure g up low cb w h = elim (Bool-cases (leb 8 (length w.endstops))) [
  | inl full ↦ simp full (h, inl (refl, refl, refl))
  | inr room ↦ elim (Bool-cases (is_ok (configure g up cb))) [
    | inr bad ↦ simp (room, bad) (h, inl (refl, refl, refl))
    | inl ok ↦
        let e : Endstop = record { gpio = g; active_low = low; cb = cb } in
        let less = leb→lt _ _ room in
        let size = length-append w.endstops (e ∷ []) in
        simp (room, ok, endstops-hook, get_elem?-append_last)
          (
            omega (arith, size),
            inr (
              refl,
              refl,
              refl,
              omega (arith, size),
              take-append_left (length w.endstops) w.endstops (e ∷ []) (omega arith)
                  ∙ take-all _ w.endstops (omega arith),
            ),
          )
  ]
]

-- On a pin that reads 0 or 1, the interrupt of an endstop that has a callback reports to it the very
-- state that `endstop_read` gives; without a callback, or past the last endstop, it reports nothing.
pub endstop_isr_handler_lem :
    (level : ℕ → ℕ) (idx : ℕ) (w : Endstops)
    → ((gpio : ℕ) → level gpio < 2)
    → ((e : Endstop) × (get_elem? w.endstops idx ≡ some e)
        × (e.cb ≡ true)
        × (endstop_isr_handler level idx w ≡ some (idx, endstop_read level idx w)))
      ⊎ (endstop_isr_handler level idx w ≡ none)
unfolding endstop_isr_handler endstop_read
endstop_isr_handler_lem level idx w bit = elim (Option-cases (get_elem? w.endstops idx)) [
  | inl e ↦ simp e (inr refl)
  | inr (s, e) ↦ elim (Bool-cases s.cb) [
    | inr off ↦ simp (e, off) (inr refl)
    | inl on ↦
        let b = bit s.gpio in
        let same : (if s.active_low then level s.gpio == 0 else level s.gpio == 1)
            ≡ (if s.active_low then level s.gpio == 0 else not (level s.gpio == 0)) =
          ground arith in
        inl (s, e, on, simp (e, on) (ap (λ t. some (idx, t)) same))
  ]
]
