-- ===== src/Engine/Location/Injection.antt =====
-- What `injectLocation` and `ClearLocation` of engine.go do on each branch.
use maps_main.Shared.{
  ℕ, ◌+◌, ◌≡◌, ◌≢◌, ◌⊎◌, String, Bool, true, false, Option, none, some, ◌∷◌, arith, if◌then◌else◌,
}
use maps_main.Domain.{LatLon, idle, ready, running}
use maps_main.Engine.Model.{Env, State, log, health_or_new}
use maps_main.Engine.Location.{
  is_starting, starting_error, stamp, push_history, inject_location, clear,
}

module _ (env : Env) where
  open env use {Real, World, now_ms, set_location, clear_location}

  abbrev pub S : Type 0
  S = State Real World

  -- The driver's answer to the injection that starts in this state.
  abbrev injection_answer : LatLon Real → S → Option String
  injection_answer p s = (set_location s.eng.drv p s.world).0

  -- The clock's reading that stamps it: the second after the driver's answer.
  abbrev injection_time : LatLon Real → S → ℕ
  injection_time p s = (now_ms (now_ms (set_location s.eng.drv p s.world).1).1).0

  -- While the tunnel is starting nothing is sent to the device and nothing changes but the log.
  inject_location_starting :
      (p : LatLon Real) (name : String) (history : Bool) (s : S)
      → is_starting s.eng.st.state ≡ true
      → s.eng.st.tunnel_active ≡ false
      → inject_location env p name history s
        ≡ (some starting_error, record s { out = log "warn" "engine" "location" "set" ∷ s.out })
  unfolding inject_location
  inject_location_starting p name history s h k = ground arith

  -- A failed injection keeps the position, the engine's state and the history. It counts one failure.
  inject_location_failed :
      (p : LatLon Real) (name : String) (history : Bool) (s : S) {e : String}
      → is_starting s.eng.st.state ≡ false
      → injection_answer p s ≡ some e
      → let (r, t) = inject_location env p name history s in
        (r ≡ some e)
        × (t.eng.st.last_injected_location ≡ s.eng.st.last_injected_location)
        × (t.eng.st.state ≡ s.eng.st.state)
        × (t.eng.st.recent_history ≡ s.eng.st.recent_history)
        × ((health_or_new t.eng.st.tunnel_health).consecutive_inject_failures
            ≡ (health_or_new s.eng.st.tunnel_health).consecutive_inject_failures + 1)
        × (t.eng.metrics.injections_failed ≡ s.eng.metrics.injections_failed + 1)
  unfolding inject_location
  inject_location_failed p name history s h a = ground arith

  -- A successful injection makes the place the held position, sets the state to running, clears the
  -- run of failures, and pushes the place on the history exactly if asked to.
  inject_location_done :
      (p : LatLon Real) (name : String) (history : Bool) (s : S)
      → is_starting s.eng.st.state ≡ false
      → injection_answer p s ≡ none
      → let (r, t) = inject_location env p name history s in
        (r ≡ none)
        × (t.eng.st.last_injected_location ≡ some (stamp env p name (injection_time p s)))
        × (t.eng.st.recent_history ≡ (
            if history
            then push_history env p name (injection_time p s) s.eng.st.recent_history
            else s.eng.st.recent_history))
        × (t.eng.st.state ≡ running)
        × ((health_or_new t.eng.st.tunnel_health).consecutive_inject_failures ≡ 0)
        × (t.eng.metrics.injections_ok ≡ s.eng.metrics.injections_ok + 1)
  unfolding inject_location
  inject_location_done p name history s h a = ground arith

  -- Clearing a position that the device lets go of leaves the engine ready if the tunnel is up and
  -- idle if not, with no position held. If the device refuses, the engine stays as it was.
  clear_lem :
      (s : S)
      → let (r, t) = clear env s in
        let answer = (clear_location s.eng.drv s.world).0 in
        ((answer ≡ none)
          × (r ≡ none)
          × (t.eng.st.last_injected_location ≡ none)
          × (t.eng.st.state ≡ (if s.eng.st.tunnel_active then ready else idle)))
        ⊎ ((r ≡ answer) × (r ≢ none) × (t.eng ≡ s.eng))
  unfolding clear
  clear_lem s = ground arith
