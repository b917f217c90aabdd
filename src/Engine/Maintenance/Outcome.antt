-- ===== src/Engine/Maintenance/Outcome.antt =====
-- What the maintenance actions of engine_maintenance.go leave behind.
use maps_main.Shared.{
  ◌≡◌, String, true, false, Option, none, some, List, [], ◌∷◌, ◌++◌, map, arith, is_some, not, ap,
  ◌∙◌, sym, refl,
}
use maps_main.Domain.{TunnelInfo}
use maps_main.Engine.Model.{Env, Except, ok, err, State}
use maps_main.Engine.Tunnel.{mark_tunnel_lost, start_tunnel}
use maps_main.Engine.Health.{reset_health_backoff}
use maps_main.Engine.Maintenance.{
  MaintenanceStep, tunnel_stop, process_stop, mdns_restart, tunnel_restart, clean_up,
  restart_services, halt, restart_tunnel,
}

module _ (env : Env) where
  open env use {
    Real, World, stop_tunnel, kill_processes, restart_mdns_service, start_tunnel as driver_start,
  }

  abbrev pub S : Type 0
  S = State Real World

  abbrev failure_of : Except TunnelInfo → Option String
  failure_of (ok ti) = none
  failure_of (err e) = some e

  start_tunnel_up :
      (s : S)
      → s.eng.st.tunnel_active ≡ false
      → let (e, t) = start_tunnel env s in
        (e ≡ failure_of (driver_start s.eng.drv s.world).0)
        × (t.eng.st.tunnel_active ≡ not (is_some e))
        × (t.eng.sim ≡ s.eng.sim)
        × (t.eng.health_reset ≡ s.eng.health_reset)
  unfolding start_tunnel
  start_tunnel_up s h = ground arith

  -- The error of the last step.
  abbrev pub last_error : List MaintenanceStep → Option String
  last_error [] = none
  last_error (x ∷ []) = x.error
  last_error (x ∷ y ∷ xs) = last_error (y ∷ xs)

  last_error_lem :
      (xs : List MaintenanceStep) (x : MaintenanceStep) → last_error (xs ++ x ∷ []) ≡ x.error
  last_error_lem [] x = refl
  last_error_lem (y ∷ []) x = refl
  last_error_lem (y ∷ z ∷ xs) x = last_error_lem (z ∷ xs) x

  abbrev names_of : List MaintenanceStep → List String
  names_of xs = map (λ (x : MaintenanceStep). x.name) xs

  names_of-append :
      (xs : List MaintenanceStep) (x : MaintenanceStep)
      → names_of (xs ++ x ∷ []) ≡ names_of xs ++ x.name ∷ []
  names_of-append [] x = refl
  names_of-append (y ∷ xs) x = ap (λ l. y.name ∷ l) (names_of-append xs x)

  -- The world once the three steps that clean up are made.
  abbrev cleaned : S → World
  cleaned s = (restart_mdns_service (kill_processes (stop_tunnel s.eng.drv s.world).1).1).1

  clean_up_down :
      (s : S)
      → let (steps, t) = clean_up env s in
        (t.eng.st.tunnel_active ≡ false)
        × (t.eng.drv ≡ s.eng.drv)
        × (t.world ≡ cleaned s)
        × (t.eng.sim ≡ none)
        × (names_of steps ≡ tunnel_stop ∷ process_stop ∷ mdns_restart ∷ [])
  unfolding clean_up mark_tunnel_lost
  clean_up_down s = ground arith

  -- A restart of the services takes its four steps in order, whichever of them fail, and always asks
  -- the driver for a tunnel after the three that clean up, also if the tunnel was up. Its error is the
  -- last step's alone, which is the driver's, and the tunnel is up afterwards exactly if there is none.
  -- No simulation is left.
  pub restart_services_lem :
      (s : S)
      → let ((steps, e), t) = restart_services env s in
        (names_of steps ≡ tunnel_stop ∷ process_stop ∷ mdns_restart ∷ tunnel_restart ∷ [])
        × (e ≡ last_error steps)
        × (e ≡ failure_of (driver_start s.eng.drv (cleaned s)).0)
        × (t.eng.st.tunnel_active ≡ not (is_some e))
        × (t.eng.sim ≡ none)
  unfolding restart_services
  restart_services_lem s =
      let (down, drv, world, sim, names) = clean_up_down s in
      let (error, up, kept, reset) = start_tunnel_up (clean_up env s).1 down in
      let last : MaintenanceStep = record {
        name = tunnel_restart;
        error = (start_tunnel env (clean_up env s).1).0;
      } in
      let four : names_of ((clean_up env s).0 ++ last ∷ [])
          ≡ tunnel_stop ∷ process_stop ∷ mdns_restart ∷ tunnel_restart ∷ [] =
        names_of-append (clean_up env s).0 last ∙ ap (λ l. l ++ tunnel_restart ∷ []) names in
      let asked : failure_of (driver_start (clean_up env s).1.eng.drv (clean_up env s).1.world).0
          ≡ failure_of (driver_start s.eng.drv (cleaned s)).0 =
        rw (drv, world) refl in
      (four, sym (last_error_lem (clean_up env s).0 last), error ∙ asked, up, kept ∙ sim)

  halt_down :
      (s : S)
      → let t = (halt env s).1 in
        (t.eng.st.tunnel_active ≡ false)
        × (t.eng.drv ≡ s.eng.drv)
        × (t.world ≡ (stop_tunnel s.eng.drv s.world).1)
        × (t.eng.sim ≡ none)
        × (t.eng.health_reset ≡ true)
  unfolding halt mark_tunnel_lost reset_health_backoff
  halt_down s = ground arith

  -- A forced restart of the tunnel always asks the driver for a tunnel once the old one is stopped, also
  -- if the tunnel was up; it ends with the tunnel up exactly if it gives no error, no simulation is
  -- left, and the watchdog is told to begin its intervals anew.
  restart_tunnel_lem :
      (s : S)
      → let (e, t) = restart_tunnel env s in
        (e ≡ failure_of (driver_start s.eng.drv (stop_tunnel s.eng.drv s.world).1).0)
        × (t.eng.st.tunnel_active ≡ not (is_some e))
        × (t.eng.sim ≡ none)
        × (t.eng.health_reset ≡ true)
  unfolding restart_tunnel
  restart_tunnel_lem s =
      let (down, drv, world, sim, reset) = halt_down s in
      let (error, up, kept, kept') = start_tunnel_up (halt env s).1 down in
      let asked : failure_of (driver_start (halt env s).1.eng.drv (halt env s).1.world).0
          ≡ failure_of (driver_start s.eng.drv (stop_tunnel s.eng.drv s.world).1).0 =
        rw (drv, world) refl in
      (error ∙ asked, up, kept ∙ sim, kept' ∙ reset)
