-- ===== src/Engine/Routes/Control.antt =====
-- What the commands of engine_routes.go make of the goroutine of a simulation.
use maps_main.Shared.{ℕ, ◌≡◌, false, none, some, [], arith}
use maps_main.Domain.{nav_running, ready, moving, paused}
use maps_main.Engine.Model.{Env, State}
use maps_main.Engine.Geometry.{Plan}
use maps_main.Engine.Simulation.{going, route_begin, route_tick}
use maps_main.Engine.Routes.{navigate, stop_route, pause_route, resume_route}

module _ (env : Env) where
  open env use {Real, World}

  abbrev pub S : Type 0
  S = State Real World

  -- A stop wins over a journey whose goroutine has not started: it finds its context cancelled and
  -- writes nothing, so the state stays ready with nothing of a journey shown.
  stop-route_begin :
      (s : S) (i : ℕ) (plan : Plan Real)
      → s.eng.sim ≡ some i
      → let t = (stop_route env s).1 in
        (route_begin env i plan t ≡ (false, t))
        × (t.eng.st.state ≡ ready)
        × (t.eng.st.navigation ≡ none)
        × (t.eng.st.progress ≡ none)
        × (t.eng.st.current_sequence_preview ≡ [])
        × (t.eng.sim ≡ none)
  unfolding stop_route route_begin
  stop-route_begin s i plan h = ground arith

  -- A journey that is paused keeps its index and the device its position, tick after tick, and a resume
  -- lets it go on from there: only the state shown has changed, and it is moving again.
  pause-route_tick-resume :
      (s : S) (i index : ℕ) (plan : Plan Real)
      → s.eng.sim ≡ some i
      → let p = (pause_route env s).1 in
        let r = (resume_route env p).1 in
        (route_tick env plan index p ≡ (going index, p))
        × (p.eng.st.state ≡ paused)
        × (p.world ≡ s.world)
        × (r.eng.st.state ≡ moving)
        × (r.eng.sim_paused ≡ false)
        × (r.eng.sim ≡ some i)
        × (r.eng.st.navigation ≡ navigate nav_running s.eng.st.navigation)
        × (r.eng.st.progress ≡ s.eng.st.progress)
        × (r.world ≡ s.world)
  unfolding pause_route resume_route route_tick
  pause-route_tick-resume s i index plan h = ground arith
