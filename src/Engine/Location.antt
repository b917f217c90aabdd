-- ===== src/Engine/Location.antt =====
-- engine/internal/engine/engine.go: injecting, clearing, holding and verifying a position; and
-- engine/internal/simulation/geometry.go: the distance between two points.
pub mod History
pub mod Injection
use maps_main.Shared.{
  ℕ, suc, ◌+◌, ◌-◌, ◌≡◌, String, Bool, true, false, not, ◌&&◌, Option, none, some, List, [], ◌∷◌,
  take, ltb, leb, if◌then◌else◌, M, pure, ◌>>=◌, ◌>>◌,
}
use maps_main.Domain.{
  LatLon, Favorite, RealLocation, TunnelHealth, EngineState, idle, ready, starting, running, Status,
}
use maps_main.Engine.Model.{
  Floats, Env, Metrics, Event, ack, location, status, log, Engine, State, Em, get, put, modify_st,
  modify_metrics, emit, emit_status, log_event, log_if, outside, update_tunnel_health,
}

abbrev pub is_starting : EngineState → Bool
is_starting starting = true
is_starting _ = false

abbrev pub max_history_entries : ℕ
max_history_entries = 20

abbrev pub starting_error : String
starting_error = "tunnel en cours de demarrage, reessayez dans quelques secondes"

-- One injection's effect on the health block and on the counters.
abbrev note_injection : Option String → ℕ → TunnelHealth → TunnelHealth
note_injection none now th = record th {
  last_injection_ok_at = now;
  consecutive_inject_failures = 0;
}
note_injection (some e) now th = record th {
  consecutive_inject_failures = th.consecutive_inject_failures + 1;
}

abbrev count_injection : Option String → Metrics → Metrics
count_injection none m = record m { injections_ok = m.injections_ok + 1 }
count_injection (some e) m = record m { injections_failed = m.injections_failed + 1 }

module _ (env : Env) where
  open env use {
    Real, World, floats, equal, less, decimal, plus, minus, times, over, sine, cosine, root,
    arc_tangent, pi, now_ms, random, set_location, clear_location,
  }

  abbrev pub Coord : Type 0
  Coord = LatLon Real

  -- `Distance`, the haversine formula.
  unfoldable pub distance : LatLon Real → LatLon Real → Real
  distance p1 p2 =
      let rad = λ (x : Real). over (times x pi) (decimal 180 0) in
      let half = λ (x : Real). over x (decimal 2 0) in
      let d_lat = rad (minus p2.lat p1.lat) in
      let d_lon = rad (minus p2.lon p1.lon) in
      let a : Real = plus (times (sine (half d_lat)) (sine (half d_lat))) (
        times (times (times (sine (half d_lon)) (sine (half d_lon))) (cosine (rad p1.lat)))
          (cosine (rad p2.lat))) in
      let c : Real = times (decimal 2 0) (arc_tangent (root a) (root (minus (decimal 1 0) a))) in
      times (decimal 6371000 0) c

  abbrev pub same_place : Favorite Real → LatLon Real → Bool
  same_place f p = equal f.lat p.lat && equal f.lon p.lon

  abbrev pub stamp : LatLon Real → String → ℕ → Favorite Real
  stamp p name now = record { lat = p.lat; lon = p.lon; name = name; timestamp = now }

  -- The cut of the list to its cap.
  abbrev capped : List (Favorite Real) → List (Favorite Real)
  capped l = take max_history_entries l

  -- `pushHistory`
  unfoldable pub push_history :
      LatLon Real → String → ℕ → List (Favorite Real) → List (Favorite Real)
  push_history p name now [] = capped (stamp p name now ∷ [])
  push_history p name now (last ∷ rest) =
      if same_place last p then last ∷ rest else capped (stamp p name now ∷ last ∷ rest)

  -- `driverSetLocation`
  unfoldable pub driver_set_location : LatLon Real → Em env (Option String)
  driver_set_location p = do
    e ← get env
    failure ← outside env (set_location e.drv p)
    modify_metrics env (count_injection failure)
    now ← outside env now_ms
    modify_st env (update_tunnel_health (note_injection failure now))
    pure failure

  -- What `injectLocation` and `reinjectAnchor` record of a position that the device took.
  abbrev pub record_injected : Favorite Real → Status Real → Status Real
  record_injected at st = record st { last_injected_location = some at; state = running }

  abbrev refuse_injection : Em env (Option String)
  refuse_injection = do log_event env "warn" "engine" "location" "set"; pure (some starting_error)

  unfoldable finish_injection : LatLon Real → String → Bool → Option String → Em env (Option String)
  finish_injection p name record_history (some e) = do
    log_event env "error" "engine" "location" "set"
    pure (some e)
  finish_injection p name record_history none = do
    now ← outside env now_ms
    modify_st env (record_injected (stamp p name now))
    modify_st env (λ st.
        if record_history
        then record st { recent_history = push_history p name now st.recent_history }
        else st)
    emit env (ack (some p) now)
    emit env (location p name)
    emit_status env
    log_if env record_history "info" "engine" "location" "set"
    pure none

  -- `injectLocation`
  unfoldable pub inject_location : LatLon Real → String → Bool → Em env (Option String)
  unfolding finish_injection driver_set_location
  inject_location p name record_history = do
    e ← get env
    if is_starting e.st.state && not e.st.tunnel_active
        then refuse_injection
        else (do failure ← driver_set_location p; finish_injection p name record_history failure)

  -- `SetLocation` and `simSetLocation`
  abbrev pub user_set_location : LatLon Real → String → Em env (Option String)
  user_set_location p name = inject_location p name true

  abbrev pub sim_set_location : LatLon Real → String → Em env (Option String)
  sim_set_location p name = inject_location p name false

  unfoldable finish_clear : Option String → Em env (Option String)
  finish_clear (some e) = do log_event env "error" "engine" "location" "clear"; pure (some e)
  finish_clear none = do
    modify_st env (λ st. record st {
      last_injected_location = none;
      state = if st.tunnel_active then ready else idle;
    })
    now ← outside env now_ms
    emit env (ack none now)
    emit_status env
    log_event env "info" "engine" "location" "clear"
    pure none

  -- `ClearLocation`
  unfoldable pub clear : Em env (Option String)
  unfolding finish_clear
  clear = do e ← get env; failure ← outside env (clear_location e.drv); finish_clear failure

  -- `Heartbeat`: the time of the PONG.
  unfoldable pub heartbeat : Bool → Em env ℕ
  heartbeat is_maintaining = do
    now ← outside env now_ms
    modify_st env (λ st. record st { maintain_active = is_maintaining; last_heartbeat = now })
    outside env now_ms
