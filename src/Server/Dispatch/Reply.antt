-- ===== src/Server/Dispatch/Reply.antt =====
-- The results that dispatch.go sends to a client that has gone meanwhile.
use maps_main.Shared.{ℕ, ◌≡◌, ◌⊎◌, true}
use maps_main.Server.Hub.{Hub, member}
use maps_main.Server.Hub.Invariant.{among, Step}
use maps_main.Server.Dispatch.{Action, restart_services, restart_tunnel, restart_mdns}

-- What happens to the hub from a state on.
pub data Since (h : Hub) : Hub → Type 0 where
  here : Since h h
  more : {f g : Hub} → Since h f → Step f g → Since h g

-- A client that was registered is still there, or its channel was closed.
abbrev IsKnown : ℕ → Hub → Type 0
IsKnown i h = (member i h.clients ≡ true) ⊎ (among i h.closed ≡ true)

abbrev IsRestart : Action → Type 0
IsRestart a = (a ≡ restart_services) ⊎ (a ≡ restart_tunnel) ⊎ (a ≡ restart_mdns)
