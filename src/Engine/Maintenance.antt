-- ===== src/Engine/Maintenance.antt =====
-- engine/internal/engine/engine_maintenance.go: the actions that restart the tunnel, the processes of
-- pymobiledevice3 and the mDNS responder. The errors of steps are kept, their messages left out.
pub mod Outcome
use maps_main.Shared.{String, Bool, Option, none, some, List, [], ◌∷◌, ◌++◌, pure, ◌>>=◌, ◌>>◌}
use maps_main.Engine.Model.{Env, Em, get, log_event, outside}
use maps_main.Engine.Tunnel.{stop_active_simulation, mark_tunnel_lost, start_tunnel}
use maps_main.Engine.Health.{reset_health_backoff}

-- `MaintenanceStep`, whose `ok` is that there is no error.
pub record MaintenanceStep : Type 0 where
  pub name : String
  pub error : Option String

abbrev pub tunnel_stop : String
tunnel_stop = "Arrêt du tunnel"

abbrev pub process_stop : String
process_stop = "Arrêt des process pymobiledevice3"

abbrev pub mdns_restart : String
mdns_restart = "Redémarrage du service Bonjour/mDNS"

abbrev pub tunnel_restart : String
tunnel_restart = "Redémarrage du tunnel"

abbrev level_of : Option String → String → String → String
level_of none good bad = good
level_of (some e) good bad = bad

module _ (env : Env) where
  open env use {stop_tunnel, kill_processes, restart_mdns_service, start_mdns_wake}

  -- `addStep`
  abbrev add_step : String → Option String → Em env MaintenanceStep
  add_step name error = do
    log_event env (level_of error "info" "warn") "admin" "maintenance" "restart-services"
    pure (record { name = name; error = error })

  -- The steps of `RestartServices` that clean up.
  unfoldable pub clean_up : Em env (List MaintenanceStep)
  clean_up = do
    stop_active_simulation env
    e ← get env
    mark_tunnel_lost env
    stopped ← outside env (stop_tunnel e.drv)
    first ← add_step tunnel_stop stopped
    killed ← outside env kill_processes
    second ← add_step process_stop killed
    restarted ← outside env restart_mdns_service
    third ← add_step mdns_restart restarted
    pure (first ∷ second ∷ third ∷ [])

  -- `RestartServices`: the steps, and the error of the last one.
  unfoldable pub restart_services : Em env (List MaintenanceStep × Option String)
  restart_services = do
    steps ← clean_up
    started ← start_tunnel env
    fourth ← add_step tunnel_restart started
    pure (steps ++ fourth ∷ [], started)

  -- What `RestartTunnel` does before it starts the tunnel.
  unfoldable pub halt : Em env (Unit {0})
  halt = do
    stop_active_simulation env
    mark_tunnel_lost env
    reset_health_backoff env
    e ← get env
    outside env (stop_tunnel e.drv)
    log_event env "info" "admin" "maintenance" "restart-tunnel"

  -- `RestartTunnel`
  unfoldable pub restart_tunnel : Em env (Option String)
  restart_tunnel = do
    halt
    started ← start_tunnel env
    log_event env (level_of started "info" "error") "admin" "maintenance" "restart-tunnel"
    pure started

  -- `RestartMdns`
  unfoldable pub restart_mdns : Em env (Option String)
  restart_mdns = do
    log_event env "info" "admin" "maintenance" "restart-mdns"
    restarted ← outside env restart_mdns_service
    log_event env (level_of restarted "info" "warn") "admin" "maintenance" "restart-mdns"
    reset_health_backoff env
    outside env start_mdns_wake
    pure restarted
