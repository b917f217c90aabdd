-- ===== src/Engine/Routes.antt =====
-- engine/internal/engine/engine_routes.go: the commands that start, stop, pause and resume a
-- simulation. A command that starts a goroutine answers its number and what it runs.
pub mod Control
pub mod Sole
use maps_main.Shared.{
  ℕ, zero, suc, ◌+◌, ◌≡◌, String, Bool, true, false, not, Option, none, some, List, [], ◌∷◌, ◌++◌,
  if◌then◌else◌, is_some, pure, ◌>>=◌, ◌>>◌,
}
use maps_main.Domain.{
  LatLon, Favorite, NavigationState, nav_running, nav_paused, NavigationStatus, PatrolZone,
  EngineState, ready, moving, paused, Status, LegType, leg_start, leg_drive, leg_walk, leg_flight,
  leg_wait, RouteLeg,
}
use maps_main.Engine.Model.{
  Env, Except, ok, err, Engine, State, Em, get, put, modify_st, emit_status, log_event, outside,
}
use maps_main.Engine.Tunnel.{stop_active_simulation}
use maps_main.Engine.Geometry.{Plan, interpolate, path_plan, gpx_plan}
use maps_main.Engine.Simulation.{held_position}

-- `Navigation.Status.State = state`, where the status is still there.
abbrev pub navigate : NavigationState → Option NavigationStatus → Option NavigationStatus
navigate state none = none
navigate state (some n) = some (record n { state = state })

module _ (env : Env) where
  open env use {Real, World, route, parse_gpx}

  abbrev pub Coord : Type 0
  Coord = LatLon Real

  -- `StopRoute`
  unfoldable pub stop_route : Em env (Unit {0})
  stop_route = do
    stop_active_simulation env
    modify_st env (λ st. record st {
      state = ready;
      navigation = none;
      progress = none;
      current_sequence_preview = [];
    })
    emit_status env
    log_event env "info" "simulation" "route" "stop"

  -- `PauseRoute`
  unfoldable pub pause_route : Em env (Unit {0})
  pause_route = do
    e ← get env
    if not (is_some e.sim) then pure tt else (do
      put env (record e { sim_paused = true })
      modify_st env
          (λ st. record st { state = paused; navigation = navigate nav_paused st.navigation })
      emit_status env
      log_event env "info" "simulation" "route" "pause")

  -- `ResumeRoute`
  unfoldable pub resume_route : Em env (Unit {0})
  resume_route = do
    e ← get env
    if not (is_some e.sim) then pure tt else (do
      put env (record e { sim_paused = false })
      modify_st env
          (λ st. record st { state = moving; navigation = navigate nav_running st.navigation })
      emit_status env
      log_event env "info" "simulation" "route" "resume")

  -- The cancel function of a new goroutine becomes the engine's.
  unfoldable pub launch : Em env ℕ
  launch = do
    e ← get env
    put env (record e { sim = some e.next_sim; next_sim = e.next_sim + 1 })
    pure e.next_sim

  -- The route that was found, else the straight line.
  unfoldable pub routed : String → Coord → Coord → Except (List Coord) → Em env (List Coord)
  routed action from to (ok points) = do
    log_event env "info" "routing" "provider" "selected"
    pure points
  routed action from to (err e) = do
    log_event env "warn" "simulation" action "fallback"
    pure (from ∷ to ∷ [])

  -- `PlayRoute`, whose plan never fails.
  unfoldable pub play_route : Coord → Real → String → Em env (ℕ × Plan Real)
  play_route to speed profile = do
    stop_active_simulation env
    log_event env "info" "simulation" "route" "play"
    e ← get env
    let from = held_position env e.st.last_injected_location
    answer ← outside env (route from to profile)
    points ← routed "route" from to answer
    log_event env "info" "simulation" "route" "prepared"
    i ← launch
    pure (i, path_plan env points speed)

  -- The points of a leg that is driven or walked.
  unfoldable pub leg_route : String → RouteLeg Real → Em env (List Coord)
  leg_route profile leg = do
    answer ← outside env (route leg.start leg.end profile)
    points ← routed "sequence" leg.start leg.end answer
    pure (interpolate env points leg.speed)

  unfoldable pub leg_points_of : LegType → RouteLeg Real → Em env (List Coord)
  leg_points_of leg_drive leg = leg_route "driving" leg
  leg_points_of leg_walk leg = leg_route "walking" leg
  leg_points_of leg_flight leg = pure (interpolate env (leg.start ∷ leg.end ∷ []) leg.speed)
  leg_points_of leg_start leg = pure []
  leg_points_of leg_wait leg = pure []

  unfoldable pub legs_points : List (RouteLeg Real) → Em env (List Coord)
  legs_points [] = pure []
  legs_points (leg ∷ legs) = do
    points ← leg_points_of leg.type leg
    rest ← legs_points legs
    pure (points ++ rest)

  unfoldable pub start_sequence : List Coord → Bool → Em env (Except (ℕ × Plan Real))
  start_sequence [] looping = do
    log_event env "error" "simulation" "sequence" "play"
    pure (err "no points to play")
  start_sequence (p ∷ points) looping = do
    log_event env "info" "simulation" "sequence" "prepared"
    i ← launch
    pure (ok (i, record { points = p ∷ points; looping = looping; speed = env.floats.decimal 0 0 }))

  -- `PlaySequence`
  unfoldable pub play_sequence : List (RouteLeg Real) → Bool → Em env (Except (ℕ × Plan Real))
  play_sequence legs looping = do
    stop_active_simulation env
    log_event env "info" "simulation" "sequence" "play"
    points ← legs_points legs
    start_sequence points looping

  unfoldable pub start_gpx : List Coord → String → Real → Em env (Except (ℕ × Plan Real))
  start_gpx [] content speed = do
    log_event env "error" "simulation" "gpx" "parse"
    pure (err "no GPX points parsed")
  start_gpx (p ∷ points) content speed = do
    log_event env "info" "simulation" "gpx" "prepared"
    i ← launch
    pure (ok (i, gpx_plan env content speed))

  -- `PlayCustomGpx`
  unfoldable pub play_custom_gpx : String → Real → Em env (Except (ℕ × Plan Real))
  play_custom_gpx content speed = do
    stop_active_simulation env
    log_event env "info" "simulation" "gpx" "play"
    start_gpx (parse_gpx content) content speed

  unfoldable pub start_patrol : Bool → Em env (Option ℕ)
  start_patrol true = do
    log_event env "info" "simulation" "patrol" "start"
    i ← launch
    pure (some i)
  start_patrol false = do log_event env "info" "simulation" "patrol" "stop"; pure none

  -- `PatrolUpdate`
  unfoldable pub patrol_update : PatrolZone Real → Em env (Option ℕ)
  patrol_update zone = do
    stop_active_simulation env
    modify_st env (λ st. record st { patrol_zone = some zone })
    emit_status env
    start_patrol zone.active
