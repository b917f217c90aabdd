-- ===== src/Lib.antt =====
-- The engine of GPS-Mock (engine/, in Go): it holds a simulated position on an iPhone over a tunnel,
-- plays journeys, and shares the device with other nodes in a cluster. This library models the parts of
-- engine/internal/ that decide what happens; processes, sockets and files are parameters.
--
-- The parts and the files that model them:
-- * Cluster (engine/internal/cluster/): Cluster.Model has the state of `Manager`, its configuration,
--   the addresses of peers and the quorum; Cluster.Heartbeat has the pings (`checkPeers`), the health of
--   the master, `Takeover`, `handleTakeover` and `handleDiscovered`. A peer's answer to a ping is an
--   argument. Proofs: Cluster.Quorum, Cluster.Fencing, Cluster.Polling, Cluster.Failover.
--   Cluster.CertSync is the exchange of pairing records (cluster_certsync.go), the folder a map.
-- * Server (engine/internal/server/): Server.Hub has the event loop of `hub`, one case at a time;
--   Server.RateLimiter the `rateLimiter` of a connection; Server.PairThrottle the `pairThrottle`. Tokens
--   are float64 in the source and exact multiples of a nanosecond's refill here. Server.Access is
--   `checkOrigin` and `checkAuth`, Server.Pairing is `handlePair`, which joins the guard of the origin, the
--   throttle and the store of devices, Server.Manage the handlers that manage the devices, with
--   Server.Manage.Calls for the address of a caller and the calls one after another,
--   Server.Dispatch the table of the actions with their counts and the results of the background ones
--   (dispatch.go, metrics.go).
-- * Auth (engine/internal/auth/): Auth.Totp the rotating pairing code of totp.go, Auth.Store the tables of
--   store.go, whose abstract view, a hash for each device, is in Auth.Store.Spec.
-- * Drivers (engine/internal/driver/): Drivers.Mount is `TunnelMount` with its daemon, and
--   `ReresolveActiveTunnel`; Drivers.Session the session with the location worker of pymobiledevice3
--   (pmd3/location_session.go). Exits of processes, lines and timeouts are steps or arguments.
--   Drivers.Gate is mountgate.go with `mountDeveloperImage`; Drivers.Pmd3 the backend of pymobiledevice3
--   (pmd3/tunnel.go, userspace.go, location.go), built on the mount and the gate, its worker a process;
--   Drivers.Native the backend that has go-ios as a library (goiosnative/), its managers numbers.
-- * Discovery (engine/internal/discovery/wake.go): the passive browses, their delays and their warnings.
-- * Settings (engine/internal/settings/): Settings.Schema and Settings.Store the settings, the document they
--   are stored as and the secrets; Settings.RoutingConfig the part on routing; Settings.Live
--   `SaveSettings`, the export and the reading at start of engine/internal/engine/ (engine_settings.go, engine_persistence.go, engine.go).
-- * Api (engine/internal/api/validate.go) the bounds on messages, with `dispatchUnmarshal` of
--   server/dispatch.go; Diagnostics (engine/internal/diagnostics/readiness.go) the check before an injection;
--   Logging (engine/internal/logging/service.go) the log buffer.
-- * Domain (engine/internal/domain/, api/status.go): the shared data. A coordinate's type is a parameter.
-- * Engine (engine/internal/engine/): Engine.Model has the state of `Engine` and `Env`, the outside: the
--   clock, the random source, the drivers, the router, the GPX parser and float64. A method is a function
--   on the state; the events it emits are kept in order. Engine.Location injects and clears
--   positions, Engine.Drift is the anti-drift shield and `Relance`, Engine.Tunnel is `StartTunnel` and
--   `SwitchDriver`, cut at the calls and locks where other methods may run, Engine.Health the loops of the
--   watchdog, one iteration at a time, Engine.Geometry the interpolation of a journey
--   (engine/internal/simulation/), Engine.Simulation its goroutine and Engine.Patrol that of a patrol, one
--   tick at a time, Engine.Routes the commands, Engine.Favorites the favourites, and Engine.Maintenance
--   the restarts of engine_maintenance.go. A goroutine is known
--   by a number, and its context is cancelled when the number is in `cancelled`. The proofs about a file are
--   in its child modules.
-- * Routing (engine/internal/routing/registry.go): the order in which the route providers are asked and the
--   answer taken. The engine sees it as `Env.route`. Routing.Polyline decodes polylines (geometry.go).
-- * Shared has the names, tests and lists that all use; Tests applies the theorems at concrete states.
--
-- How they interact: clients' commands reach Engine.Routes and Engine.Location, the watchdog calls
-- Engine.Tunnel and Engine.Drift, the goroutine of a journey calls Engine.Location, and every change of the
-- status is an event that Server.Hub sends to all clients. The cluster is told of the tunnel by a callback.
-- A request passes Server.Access, a message Api.Validate, before it reaches the engine; the engine's driver
-- is built on Drivers.Mount.
--
-- Bounds and fuel: every loop is a structural recursion over a list or over a number of ticks. Native
-- integers that only count do not wrap here; the cluster's epoch wraps at int64, the worker's request ids and
-- the counter of the pairing code at uint64, as the source's do. The loop of `TunnelMount.Start` takes the list
-- of its turns and says so if they end without an outcome; the loop of `decodeEncodedPolyline` takes as much
-- fuel as there are bytes, of which each turn takes two at least, and running out of it is an outcome of its
-- own. Text is a list of runes where the source takes it apart; letters are folded to lower case in ASCII only.
--
-- Not modelled: JSON, HTTP and WebSocket framing, mDNS, the commands that the drivers run, cryptography and
-- SQLite (parameters), go-ios as a command, the requests of the routing providers, the wiring of the
-- programs in engine/cmd/, and the applications in other languages.
pub mod Shared
pub mod Cluster
pub mod Server
pub mod Settings
pub mod Auth
pub mod Discovery
pub mod Drivers
pub mod Diagnostics
pub mod Api
pub mod Logging
pub mod Domain
pub mod Routing
pub mod Engine
pub mod Tests
