-- ===== src/Engine/Simulation.antt =====
-- engine/internal/engine/simulation.go: the goroutines of a journey and of a patrol, one tick of the
-- second at a time. A goroutine is known by its number.
pub mod Journey
use maps_main.Shared.{
  ℕ, zero, suc, ◌+◌, ◌≡◌, String, Bool, true, false, not, ◌||◌, Option, none, some, List, [], ◌∷◌,
  map, leb, ◌==◌, if◌then◌else◌, pure, ◌>>=◌, ◌>>◌, length, get_elem?,
}
use maps_main.Domain.{
  LatLon, Favorite, NavigationState, nav_running, nav_stopped, NavigationProgress, NavigationStatus,
  PatrolBounds, ZoneType, circle, rectangle, PatrolZone, EngineState, ready, moving, Status,
}
use maps_main.Engine.Model.{
  Env, Event, status, route_finished, Engine, State, Em, get, modify_st, emit, emit_status,
  log_event, log_if, outside,
}
use maps_main.Engine.Location.{distance, sim_set_location}
use maps_main.Engine.Geometry.{Plan, along}

-- `ctx.Err() != nil` of the goroutine's context.
abbrev pub member : ℕ → List ℕ → Bool
member i [] = false
member i (j ∷ l) = i == j || member i l

abbrev pub is_cancelled : {R : Type 0} → ℕ → Engine R → Bool
is_cancelled i e = member i e.cancelled

-- How a tick ends: the goroutine goes on, returns, or indexes a point that does not exist.
pub data Turn : Type 0 where
  going : ℕ → Turn
  finished crashed : Turn

-- `Navigation.Status.Index = index`, where the status is still there.
abbrev pub index_at : ℕ → Option NavigationStatus → Option NavigationStatus
index_at index none = none
index_at index (some n) = some (record n { index = index })

abbrev pub failed : Option String → Bool
failed none = false
failed (some e) = true

abbrev pub paris : (env : Env) → LatLon env.Real
paris env = record { lat = env.decimal 488566 4; lon = env.decimal 23522 4 }

-- The last injected position, else the centre of Paris.
abbrev pub held_position : (env : Env) → Option (Favorite env.Real) → LatLon env.Real
held_position env none = paris env
held_position env (some loc) = record { lat = loc.lat; lon = loc.lon }

module _ (env : Env) where
  open env use {
    Real, World, equal, at_most, decimal, plus, minus, times, over, sine, cosine, root, pi, minimum,
    maximum, now_ms, random,
  }

  abbrev pub Coord : Type 0
  Coord = LatLon Real

  -- `startRouteSimulation` before its loop: whether the loop is entered.
  unfoldable pub route_begin : ℕ → Plan Real → Em env Bool
  route_begin i plan = do
    e ← get env
    if length plan.points == 0 || is_cancelled i e then pure false else (do
      modify_st env (λ st. record st {
        current_sequence_preview = plan.points;
        state = moving;
        navigation = some (record { state = nav_running; index = 0; total = length plan.points });
      })
      emit_status env
      pure true)

  -- The end of a journey that does not loop.
  unfoldable pub route_end : Plan Real → ℕ → Em env Turn
  route_end plan index = do
    modify_st env (λ st. record st {
      state = ready;
      navigation = some (record { state = nav_stopped; index = index; total = length plan.points });
      progress = none;
      current_sequence_preview = [];
    })
    e ← get env
    now ← outside env now_ms
    emit env (route_finished now)
    emit env (status e.st)
    pure finished

  abbrev pub offset : Real → Real → Real
  offset x r = plus x (times (minus r (decimal 5 1)) (decimal 1 5))

  -- The noise that the settings ask for.
  unfoldable pub noisy : Bool → Coord → Em env Coord
  noisy false p = pure p
  noisy true p = do
    r1 ← outside env random
    r2 ← outside env random
    pure (record { lat = offset p.lat r1; lon = offset p.lon r2 })

  abbrev pub progress_at : Plan Real → ℕ → Coord → NavigationProgress Real
  progress_at plan index p = record {
    index = index;
    total = length plan.points;
    lat = p.lat;
    lon = p.lon;
    speed = plan.speed;
  }

  -- What a tick writes once its injection is over, whatever happened meanwhile.
  unfoldable pub route_record : Plan Real → ℕ → Coord → Option String → Em env Turn
  route_record plan index p failure = do
    log_if env (failed failure) "error" "simulation" "location" "set"
    modify_st env (λ st. record st {
      progress = some (progress_at plan index p);
      navigation = index_at index st.navigation;
    })
    emit_status env
    pure (going (index + 1))

  unfoldable pub route_move : Plan Real → ℕ → Option Coord → Em env Turn
  route_move plan index none = pure crashed
  route_move plan index (some point) = do
    e ← get env
    p ← noisy e.st.jitter_enabled point
    failure ← sim_set_location env p "Route simulation"
    route_record plan index p failure

  unfoldable pub route_advance : Plan Real → ℕ → Em env Turn
  route_advance plan index =
      if leb (length plan.points) index
      then if plan.looping
        then route_move plan 0 (get_elem? plan.points 0)
        else route_end plan index
      else route_move plan index (get_elem? plan.points index)

  -- The ticker's case of the loop of `startRouteSimulation`. The other case, a cancelled context,
  -- returns and writes nothing; when both are ready, either may be taken.
  unfoldable pub route_tick : Plan Real → ℕ → Em env Turn
  route_tick plan index = do
    e ← get env
    if e.sim_paused then pure (going index) else route_advance plan index

  -- A number of ticks in a row, with nothing in between.
  unfoldable pub route_ticks : Plan Real → ℕ → Turn → Em env Turn
  route_ticks plan zero turn = pure turn
  route_ticks plan (suc n) (going index) = do turn ← route_tick plan index; route_ticks plan n turn
  route_ticks plan (suc n) finished = pure finished
  route_ticks plan (suc n) crashed = pure crashed
