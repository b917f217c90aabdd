-- ===== src/Tests/Engine/Location.antt =====
-- The theorems on positions, for a device that is held in Paris.
use maps_main.Shared.{ℕ, ◌≡◌, ◌⊎◌, true, none, some, [], ◌∷◌, arith}
use maps_main.Domain.{LatLon, running}
use maps_main.Engine.Location.{push_history}
use maps_main.Engine.Location.History.{IsHistory, push_history-IsHistory}
use maps_main.Engine.Drift.{report_real_location}
use maps_main.Engine.Drift.Shield.{S, IsIdle, Acted, report-cooldown}
use maps_main.Engine.Drift.Anchor.{held_place, relance_times, relance_times-held}
use maps_main.Tests.Engine.World.{good, paris_stamp, lyon, at}

abbrev paris : LatLon ℕ
paris = record { lat = 48; lon = 2 }

push_history-IsHistory_example : IsHistory good (push_history good lyon "Lyon" 9 (paris_stamp ∷ []))
push_history-IsHistory_example =
    push_history-IsHistory good lyon "Lyon" 9 (paris_stamp ∷ [])
      (record { short = omega arith; no_repeats = tt })

-- Held in Paris and reported in Lyon once before.
abbrev drifting : S good
drifting = let s = at true running none in record s { eng = record s.eng { drift_failures = 1 } }

report-cooldown_example :
    let t = (report_real_location good lyon drifting).1 in
    IsIdle good drifting t ⊎ Acted good drifting t
report-cooldown_example = report-cooldown good lyon drifting (λ w. omega arith)

relance_times-held_example :
    held_place good (relance_times good 3 (at true running none)) ≡ some (paris, "Paris")
relance_times-held_example = relance_times-held good 3 (at true running none)
