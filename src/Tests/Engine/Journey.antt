-- ===== src/Tests/Engine/Journey.antt =====
-- The theorems on simulations, for a journey of two points.
use maps_main.Shared.{
  ℕ, refl, inl, inr, true, false, none, some, List, [], ◌∷◌, arith, ltb, Bool-cases,
}
use maps_main.Domain.{moving, circle}
use maps_main.Engine.Geometry.{Plan}
use maps_main.Engine.Simulation.{going, route_ticks}
use maps_main.Engine.Simulation.Journey.{IsOver, journey_ends}
use maps_main.Engine.Routes.Sole.{
  IsSole, Command, stop, pause, play, patrol, execute_all, execute_all-IsSole,
}
use maps_main.Tests.Engine.World.{good, bad, lyon, at}

abbrev plan : Plan ℕ
plan = record { points = record { lat = 48; lon = 2 } ∷ lyon ∷ []; looping = false; speed = 5 }

journey_ends_example :
    IsOver bad plan
      (at true moving (some 0))
      (route_ticks bad plan 3 (going 0) (at true moving (some 0)))
journey_ends_example = journey_ends bad plan (at true moving (some 0)) refl refl

-- A first journey, a pause, a patrol and a stop.
abbrev commands : List (Command good)
commands =
    play lyon 5 "driving"
    ∷ pause
    ∷ patrol
        (record { type = circle; center = some lyon; radius = 9; bounds = none; active = true })
    ∷ stop
    ∷ []

at-IsSole : IsSole (at true moving (some 0)).eng
at-IsSole i = elim (Bool-cases (ltb i 1)) [
  | inl less ↦ inl (ground arith, inr (ground arith))
  | inr more ↦ inr (ground arith, refl, ground arith)
]

execute_all-IsSole_example : IsSole (execute_all good commands (at true moving (some 0))).eng
execute_all-IsSole_example = execute_all-IsSole good commands (at true moving (some 0)) at-IsSole
