-- ===== src/Engine/Health/Recovery.antt =====
-- How `healthLoop` of engine_health.go recovers a tunnel, and what the keep-alive does.
use maps_main.Shared.{ℕ, ◌≡◌, Bool, true, false, not, ◌&&◌, arith}
use maps_main.Domain.{TunnelInfo}
use maps_main.Engine.Model.{Env, Reresolved, found, missing, State, health_or_new, log_if}
use maps_main.Engine.Health.{
  Watch, tunnel_retry_interval, injection_stalled, record_health_rtt, apply_tunnel_update, recover,
  pursue, probe_tunnel, take_reset, health_tick,
}

module _ (env : Env) where
  open env use {
    Real, World, check_health, reresolve_tunnel, stop_tunnel, start_tunnel as driver_start,
  }

  abbrev pub S : Type 0
  S = State Real World

  -- What the tunnel's probe answers in an iteration from this state, and then the driver.
  abbrev probe_answer : S → Bool
  probe_answer s = (check_health s.eng.drv s.world).0.0

  abbrev reresolve_answer : S → Reresolved × World
  reresolve_answer s = reresolve_tunnel s.eng.drv (check_health s.eng.drv s.world).1

  -- The state once a pending reset is taken and the tunnel is probed.
  abbrev pub quiet : S → S
  quiet s = record s {
    eng = record s.eng { health_reset = false };
    world = (check_health s.eng.drv s.world).1;
  }

  -- Whether the iteration looks for the device again.
  abbrev IsUnhealthy : S → Type 0
  IsUnhealthy s = (probe_answer s && not (injection_stalled s.eng.st)) ≡ false

  -- A tunnel that answers, without three failed injections in a row, is left alone: the endpoint, the
  -- state, the driver and the counters stay, and no search is shown.
  health_tick_healthy :
      (w : Watch) (s : S)
      → s.eng.st.tunnel_active ≡ true
      → probe_answer s ≡ true
      → injection_stalled s.eng.st ≡ false
      → let t = (health_tick env w s).1 in
        (t.eng.st.tunnel_active ≡ true)
        × (t.eng.st.rsd_address ≡ s.eng.st.rsd_address)
        × (t.eng.st.rsd_port ≡ s.eng.st.rsd_port)
        × (t.eng.st.state ≡ s.eng.st.state)
        × (t.eng.metrics ≡ s.eng.metrics)
        × ((health_or_new t.eng.st.tunnel_health).searching ≡ false)
        × (t.out ≡ s.out)
  unfolding health_tick probe_tunnel record_health_rtt
  health_tick_healthy w s up answers works = ground arith

  -- What the publication of an endpoint leaves in the state.
  abbrev IsFoundAgain : TunnelInfo → S → S → Type 0
  IsFoundAgain info s t =
      (t.eng.st.tunnel_active ≡ true)
      × (t.eng.st.rsd_address ≡ info.address)
      × (t.eng.st.rsd_port ≡ info.port)
      × (t.eng.st.connection_type ≡ info.type)
      × (t.eng.st.state ≡ s.eng.st.state)
      × (t.eng.st.last_injected_location ≡ s.eng.st.last_injected_location)
      × (t.eng.metrics.tunnel_restarts ≡ s.eng.metrics.tunnel_restarts)
      × ((health_or_new t.eng.st.tunnel_health).searching ≡ false)

  apply_tunnel_update-IsFoundAgain :
      (info : TunnelInfo) (s : S) → IsFoundAgain info s (apply_tunnel_update env info s).1
  unfolding apply_tunnel_update
  apply_tunnel_update-IsFoundAgain info s = ground arith

  recover-found :
      (drv : ℕ) (w : Watch) (answer : Reresolved) (s : S) (info : TunnelInfo)
      → answer ≡ found info
      → IsFoundAgain info s (recover env drv w answer s).1
  unfolding recover
  recover-found drv w (found x) s info a =
      let h = apply_tunnel_update-IsFoundAgain x s in ground (arith, h)
  recover-found drv w (missing b) s info a = ground arith

  pursue-found :
      (drv : ℕ) (reachable : Bool) (w : Watch) (s : S) (info : TunnelInfo)
      → (reresolve_tunnel drv s.world).0 ≡ found info
      → IsFoundAgain info s (pursue env drv reachable w s).1
  unfolding pursue
  pursue-found drv reachable w s info a =
      recover-found drv _ _
        (record s {
          world = (reresolve_tunnel drv s.world).1;
          out =
              (log_if env (reachable && not w.warned_injection) "warn" "tunnel" "tunnel" "health"
                s).1.out;
        })
        info a

  -- A tunnel that does not answer, or whose injections stall, and that the daemon finds again is
  -- published at its new endpoint without a restart.
  health_tick_found :
      (w : Watch) (s : S) (info : TunnelInfo)
      → s.eng.st.tunnel_active ≡ true
      → IsUnhealthy s
      → (reresolve_answer s).0 ≡ found info
      → IsFoundAgain info s (health_tick env w s).1
  unfolding health_tick probe_tunnel
  health_tick_found w s info up bad a =
      let v = take_reset env s.eng.health_reset w in
      let h =
        pursue-found s.eng.drv (probe_answer s)
          (record v { retry_interval = tunnel_retry_interval }) (quiet s) info a in
      ground (arith, h)
