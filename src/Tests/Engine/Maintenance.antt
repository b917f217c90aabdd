-- ===== src/Tests/Engine/Maintenance.antt =====
-- The theorem on the restart of the services at a concrete engine, whose tunnel is up.
use maps_main.Shared.{◌≡◌, not, is_some, true, none, some, [], ◌∷◌, map}
use maps_main.Domain.{running}
use maps_main.Engine.Maintenance.{
  MaintenanceStep, tunnel_stop, process_stop, mdns_restart, tunnel_restart, restart_services,
}
use maps_main.Engine.Maintenance.Outcome.{last_error, restart_services_lem}
use maps_main.Tests.Engine.World.{bad, at}

restart_services_lem_example :
    let ((steps, e), t) = restart_services bad (at true running (some 0)) in
    (map (λ (x : MaintenanceStep). x.name) steps
      ≡ tunnel_stop ∷ process_stop ∷ mdns_restart ∷ tunnel_restart ∷ [])
    × (e ≡ last_error bad steps)
    × (e ≡ some "no device")
    × (t.eng.st.tunnel_active ≡ not (is_some e))
    × (t.eng.sim ≡ none)
restart_services_lem_example = restart_services_lem bad (at true running (some 0))
