-- ===== src/Node/Heater/Stop.antt =====
-- The emergency stop of the heater, and the round of the task that it can come into.
use klippylink.Common.{
  ℕ, ◌+◌, ◌-◌, ◌*◌, ◌%◌, ◌^◌, ◌≡◌, refl, sym, ◌∙◌, inl, inr, true, none, some, List, [], ◌∷◌, ◌++◌,
  append_assoc, leb, Bool-cases, All, All-append,
}
use klippylink.Node.Heater.{
  Floats, Heater, HeaterCall, Sampled, sample, commit, heater_set_pid, heater_emergency_off,
  heater_state, notify_interval_ms,
}

module _ (F : Floats) (tick_ms : ℕ) where
  -- What can happen while no new target is set: the task's two steps, each in its turn, new
  -- coefficients, and another stop.
  pub data Untargeted (h : Heater F) : Heater F → Type 0 where
    sampled : (raw : ℕ) → h.sampled ≡ none → Untargeted h (sample F raw h)
    committed :
        (now : ℕ) (s : Sampled F) → h.sampled ≡ some s → Untargeted h (commit F tick_ms now h)
    tuned : (kp ki kd : F.Float) → Untargeted h (heater_set_pid F kp ki kd h)
    stopped : Untargeted h (heater_emergency_off F h)

  pub data UntargetedRun (h : Heater F) : Heater F → Type 0 where
    stay : UntargetedRun h h
    step : {g k : Heater F} → UntargetedRun h g → Untargeted g k → UntargetedRun h k

  -- The call writes the duty 0.
  abbrev pub IsOff : HeaterCall F → Type 0
  IsOff c = c ≡ HeaterCall.set_duty 0

  -- Stopped, at the task's wait, and nothing but duty 0 written since `h`.
  pub record Off (h k : Heater F) : Type 0 where
    pub stop : k.emergency ≡ true
    pub waits : k.sampled ≡ none
    pub written : List (HeaterCall F)
    pub all_off : All IsOff written
    pub since : k.calls ≡ h.calls ++ written

  Off-write :
      (h k : Heater F)
      → Off h k
      → (w : List (HeaterCall F)) × All IsOff w
        × (k.calls ++ HeaterCall.set_duty 0 ∷ [] ≡ h.calls ++ w)
  Off-write h k o = (
    o.written ++ HeaterCall.set_duty 0 ∷ [],
    All-append IsOff o.written (HeaterCall.set_duty 0 ∷ []) o.all_off (refl, tt),
    rw o.since (append_assoc h.calls o.written (HeaterCall.set_duty 0 ∷ [])),
  )

  Untargeted-Off : {h g k : Heater F} → Off h g → Untargeted g k → Off h k
  unfolding sample heater_set_pid heater_emergency_off
  Untargeted-Off {h} {g} o (sampled raw e) =
      let (w, a, q) = Off-write h g o in
      simp o.stop (record { stop = refl; waits = refl; written = w; all_off = a; since = q })
  Untargeted-Off o (committed now s e) = let z = sym o.waits ∙ e in cc
  Untargeted-Off o (tuned kp ki kd) = record {
    stop = o.stop;
    waits = o.waits;
    written = o.written;
    all_off = o.all_off;
    since = o.since;
  }
  Untargeted-Off {h} {g} o stopped =
      let (w, a, q) = Off-write h g o in
      record { stop = refl; waits = o.waits; written = w; all_off = a; since = q }

  -- After an emergency stop that finds the task waiting, and until a new target is set, the task goes
  -- on and every duty that is written is 0, with nothing else written or sent.
  pub heater_emergency_off-Off :
      {h k : Heater F} → h.sampled ≡ none → UntargetedRun (heater_emergency_off F h) k → Off h k
  unfolding heater_emergency_off
  heater_emergency_off-Off {h} waits stay = record {
    stop = refl;
    waits = waits;
    written = HeaterCall.set_duty 0 ∷ [];
    all_off = (refl, tt);
    since = refl;
  }
  heater_emergency_off-Off waits (step run u) =
      Untargeted-Off (heater_emergency_off-Off waits run) u

  -- An emergency stop that comes between the two halves of the task's round is overruled: the duty
  -- that the task has computed before is written after the 0 of the stop, and then the next reading
  -- writes 0 again.
  pub heater_emergency_off-race :
      (h : Heater F) (s : Sampled F) (now raw : ℕ)
      → h.sampled ≡ some s
      → (let k = commit F tick_ms now (heater_emergency_off F h) in
          (rest : List (HeaterCall F)) × (k.calls
            ≡ (h.calls ++ HeaterCall.set_duty 0 ∷ []) ++ (HeaterCall.set_duty s.duty ∷ rest))
          × ((sample F raw k).calls ≡ k.calls ++ HeaterCall.set_duty 0 ∷ []))
  unfolding heater_emergency_off commit sample
  heater_emergency_off-race h s now raw e =
      elim (Bool-cases
        (leb notify_interval_ms ((((now + 2 ^ 32) - h.last_notify) % 2 ^ 32 * tick_ms) % 2 ^ 32))) [
          | inl q ↦
              let sent = HeaterCall.notify (heater_state F s h) ∷ [] in
              let same =
                append_assoc (h.calls ++ HeaterCall.set_duty 0 ∷ [])
                  (HeaterCall.set_duty s.duty ∷ []) sent in
              simp (e, q) (sent, same, refl)
          | inr q ↦ simp (e, q) ([], refl, refl)
        ]
