-- ===== src/Engine/Patrol.antt =====
-- engine/internal/engine/simulation.go: the goroutine of a patrol, `startPatrolSimulation`, one tick of
-- the second at a time.
pub mod Stale
use maps_main.Shared.{
  ℕ, String, Bool, true, false, not, Option, none, some, List, if◌then◌else◌, pure, ◌>>=◌, ◌>>◌,
}
use maps_main.Domain.{
  LatLon, Favorite, PatrolBounds, ZoneType, circle, rectangle, other_zone, PatrolZone, EngineState,
  ready, moving, Status,
}
use maps_main.Engine.Model.{Env, Engine, State, Em, get, modify_st, emit_status, log_if, outside}
use maps_main.Engine.Location.{distance, sim_set_location}
use maps_main.Engine.Geometry.{along}
use maps_main.Engine.Simulation.{is_cancelled, failed, held_position, noisy}

-- The goroutine's own variables: `targetPos` where `hasTarget`.
pub record Patrol (R : Type 0) : Type 0 where
  pub current_pos : LatLon R
  pub target_pos : Option (LatLon R)

module _ (env : Env) where
  open env use {
    Real, World, at_most, decimal, plus, minus, times, over, sine, cosine, root, pi, minimum,
    maximum, random,
  }

  abbrev pub Coord : Type 0
  Coord = LatLon Real

  -- Before the loop: the patrol that starts, or none if it is already cancelled.
  unfoldable patrol_begin : ℕ → Em env (Option (Patrol Real))
  patrol_begin i = do
    e ← get env
    if is_cancelled i e then pure none else (do
      modify_st env (λ st. record st { state = moving })
      emit_status env
      pure (
          some (record {
            current_pos = held_position env e.st.last_injected_location;
            target_pos = none;
          })))

  -- The cancelled context's case of the loop.
  unfoldable pub patrol_end : Em env (Unit {0})
  patrol_end = do modify_st env (λ st. record st { state = ready }); emit_status env

  abbrev radius_or : Real → Real
  radius_or r = if at_most r (decimal 0 0) then decimal 100 0 else r

  -- A point of the disc around `center`, at this angle and distance.
  abbrev pub around : Coord → Real → Real → Coord
  around center angle meters =
      let degree : Real = decimal 111000 0 in
      let rad : Real = over (times center.lat pi) (decimal 180 0) in
      record {
        lat = plus center.lat (over (times meters (cosine angle)) degree);
        lon = plus center.lon (over (times meters (sine angle)) (times degree (cosine rad)));
      }

  unfoldable circle_target : Coord → Real → Em env Coord
  circle_target center radius = do
    r1 ← outside env random
    r2 ← outside env random
    pure (around center (times (times r1 (decimal 2 0)) pi) (radius_or (times (root r2) radius)))

  unfoldable rectangle_target : PatrolBounds Real → Em env Coord
  rectangle_target b = do
    r1 ← outside env random
    r2 ← outside env random
    let min_lat = minimum b.sw.lat b.ne.lat
    let max_lat = maximum b.sw.lat b.ne.lat
    let min_lon = minimum b.sw.lon b.ne.lon
    let max_lon = maximum b.sw.lon b.ne.lon
    pure (record {
      lat = plus min_lat (times r1 (minus max_lat min_lat));
      lon = plus min_lon (times r2 (minus max_lon min_lon));
    })

  abbrev wander : Real → Real → Real
  wander x r = plus x (times (minus r (decimal 5 1)) (decimal 5 3))

  unfoldable free_target : Coord → Em env Coord
  free_target p = do
    r1 ← outside env random
    r2 ← outside env random
    pure (record { lat = wander p.lat r1; lon = wander p.lon r2 })

  unfoldable new_target :
      ZoneType → Option Coord → Option (PatrolBounds Real) → Real → Coord → Em env Coord
  new_target circle (some center) bounds radius p = circle_target center radius
  new_target circle none bounds radius p = free_target p
  new_target rectangle center (some b) radius p = rectangle_target b
  new_target rectangle center none radius p = free_target p
  new_target other_zone center bounds radius p = free_target p

  unfoldable target_of : PatrolZone Real → Coord → Option Coord → Em env Coord
  target_of zone p none = new_target zone.type zone.center zone.bounds zone.radius p
  target_of zone p (some t) = pure t

  -- One step towards the target, at 5 km/h: on arrival the target is dropped.
  unfoldable step_to : Coord → Coord → Patrol Real
  step_to p t =
      let dist = distance env p t in
      let speed_ms : Real = over (decimal 5 0) (decimal 36 1) in
      if at_most dist speed_ms
      then record { current_pos = t; target_pos = none }
      else record { current_pos = along env p t (over speed_ms dist); target_pos = some t }

  unfoldable patrol_move : PatrolZone Real → Patrol Real → Em env (Patrol Real)
  patrol_move zone patrol = do
    target ← target_of zone patrol.current_pos patrol.target_pos
    let moved = step_to patrol.current_pos target
    e ← get env
    p ← noisy env e.st.jitter_enabled moved.current_pos
    failure ← sim_set_location env p "Patrol Mode"
    log_if env (failed failure) "error" "simulation" "location" "set"
    pure moved

  -- The ticker's case of the loop.
  unfoldable patrol_tick : PatrolZone Real → Patrol Real → Em env (Patrol Real)
  patrol_tick zone patrol = do
    e ← get env
    if e.sim_paused then pure patrol else patrol_move zone patrol
