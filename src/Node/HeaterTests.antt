-- ===== src/Node/HeaterTests.antt =====
-- The heater of the bench's node.
use klippylink.Common.{◌≡◌, refl, some, List, [], ◌∷◌, ◌++◌}
use klippylink.Bench.{floats}
use klippylink.Node.Heater.{
  Heater, HeaterCall, Sampled, heater_start, heater_emergency_off, commit, sample,
}
use klippylink.Node.Heater.Stop.{
  UntargetedRun, Untargeted, Off, heater_emergency_off-Off, heater_emergency_off-race,
}

abbrev cold : Heater floats
cold = heater_start floats 0

-- The task has computed a duty of 90.
abbrev reading : Sampled floats
reading = record { temp = 20; duty = 90 }

abbrev heating : Heater floats
heating = record cold { target = 60; sampled = some reading }

-- The task takes a reading after the stop.
one_reading :
    UntargetedRun floats 10
      (heater_emergency_off floats cold)
      (sample floats 20 (heater_emergency_off floats cold))
unfolding heater_emergency_off
one_reading = UntargetedRun.step UntargetedRun.stay (Untargeted.sampled 20 refl)

heater_emergency_off-Off_example :
    Off floats 10 cold (sample floats 20 (heater_emergency_off floats cold))
heater_emergency_off-Off_example = heater_emergency_off-Off floats 10 refl one_reading

heater_emergency_off-race_example :
    (let k = commit floats 10 100 (heater_emergency_off floats heating) in
      (rest : List (HeaterCall floats)) × (k.calls
        ≡ (heating.calls ++ HeaterCall.set_duty 0 ∷ []) ++ (HeaterCall.set_duty 90 ∷ rest))
      × ((sample floats 20 k).calls ≡ k.calls ++ HeaterCall.set_duty 0 ∷ []))
heater_emergency_off-race_example = heater_emergency_off-race floats 10 heating reading 100 20 refl
