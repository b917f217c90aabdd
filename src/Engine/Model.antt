-- ===== src/Engine/Model.antt =====
-- engine/internal/engine/engine.go: the engine's state, what it takes from outside, and the helpers
-- that every operation uses (engine_status.go, engine_logging.go, engine_metrics.go).
use maps_main.Shared.{ℕ, ◌+◌, String, Bool, false, Option, none, some, List, ◌∷◌, M, if◌then◌else◌}
use maps_main.Domain.{LatLon, TunnelHealth, TunnelInfo, Status}

-- Float64 with the operations of it that the engine uses. `decimal m e` is m / 10^e.
pub record Floats : Type 1 where
  pub Real : Type 0
  pub equal : Real → Real → Bool
  pub less : Real → Real → Bool
  pub at_most : Real → Real → Bool
  pub decimal : ℕ → ℕ → Real
  pub plus : Real → Real → Real
  pub minus : Real → Real → Real
  pub times : Real → Real → Real
  pub over : Real → Real → Real
  pub sine : Real → Real
  pub cosine : Real → Real
  pub root : Real → Real
  pub arc_tangent : Real → Real → Real
  pub pi : Real
  pub minimum : Real → Real → Real
  pub maximum : Real → Real → Real
  pub floor : Real → ℕ

-- A result of a driver's call, or of another fallible call: Go's pair of a value and an error.
pub data Except (A : Type 0) : Type 0 where
  ok : A → Except A
  err : String → Except A

-- `ReresolveTunnel`: the endpoint if it is found, else whether the daemon still runs.
pub data Reresolved : Type 0 where
  found : TunnelInfo → Reresolved
  missing : (daemon_alive : Bool) → Reresolved

pub data TransportKind : Type 0 where
  transport_auto transport_usb transport_wifi : TransportKind

-- driver.Config: the fields that the engine reads or writes.
pub record DriverConfig : Type 0 where
  pub transport : TransportKind
  pub manual_address : String
  pub target_udid : String

-- The outside: `World` holds the devices, the clock and the source of random numbers, and each call
-- returns it changed. A driver is known by the number of its instance, as `e.drv` is by its pointer.
pub record Env : Type 1 where
  pub floats : Floats
  pub open floats use *
  pub World : Type 0
  pub now_ms : World → ℕ × World
  pub random : World → Real × World
  pub set_location : ℕ → LatLon Real → World → Option String × World
  pub clear_location : ℕ → World → Option String × World
  pub start_tunnel : ℕ → World → Except TunnelInfo × World
  pub stop_tunnel : ℕ → World → Option String × World
  pub check_health : ℕ → World → (Bool × ℕ) × World
  pub reresolve_tunnel : ℕ → World → Reresolved × World
  pub driver_id : ℕ → String
  pub new_driver : String → DriverConfig → World → Except ℕ × World
  pub kill_processes : World → Option String × World
  pub restart_mdns_service : World → Option String × World
  pub start_mdns_wake : World → Unit {0} × World
  pub route : LatLon Real → LatLon Real → String → World → Except (List (LatLon Real)) × World
  pub parse_gpx : String → List (LatLon Real)
  pub trim_space : String → String

pub record Metrics : Type 0 where
  pub injections_ok : ℕ
  pub injections_failed : ℕ
  pub tunnel_starts : ℕ
  pub tunnel_start_failures : ℕ
  pub tunnel_reresolves : ℕ
  pub tunnel_restarts : ℕ

-- An outbound event. A log event carries its level and the three words that place it; its message is
-- made of them for people and is left out.
pub data Event (R : Type 0) : Type 0 where
  ack : Option (LatLon R) → ℕ → Event R
  location : LatLon R → String → Event R
  status : Status R → Event R
  route_finished : ℕ → Event R
  log : (level source category action : String) → Event R

-- A simulation's goroutine has a number: `sim` is that of the one whose cancel function `cancelSim`
-- holds, `cancelled` those whose context is cancelled, and `next_sim` the number of the next one.
pub record Engine (R : Type 0) : Type 0 where
  pub drv : ℕ
  pub st : Status R
  pub sim : Option ℕ
  pub cancelled : List ℕ
  pub next_sim : ℕ
  pub sim_paused : Bool
  pub driver_generation : ℕ
  pub start_cancel : Option ℕ
  pub drift_failures : ℕ
  pub last_reinjection : ℕ
  pub health_reset : Bool
  pub metrics : Metrics
  pub driver_cfg_base : DriverConfig

-- The state of a method: the engine, the outside, and the events emitted, the last one first.
-- `persisted` counts the snapshots saved to the settings store.
pub record State (R W : Type 0) : Type 0 where
  pub eng : Engine R
  pub world : W
  pub out : List (Event R)
  pub persisted : ℕ

abbrev pub Em : Env → Type 0 → Type 0
Em env A = M (State env.Real env.World) A

module _ (env : Env) where
  open env use {Real, World}

  abbrev pub get : Em env (Engine Real)
  get s = (s.eng, s)

  abbrev pub put : Engine Real → Em env (Unit {0})
  put e s = (tt, record s { eng = e })

  -- Change the status under the mutex.
  abbrev pub modify_st : (Status Real → Status Real) → Em env (Unit {0})
  modify_st f s = (tt, record s { eng = record s.eng { st = f s.eng.st } })

  abbrev pub modify_metrics : (Metrics → Metrics) → Em env (Unit {0})
  modify_metrics f s = (tt, record s { eng = record s.eng { metrics = f s.eng.metrics } })

  abbrev pub emit : Event Real → Em env (Unit {0})
  emit ev s = (tt, record s { out = ev ∷ s.out })

  -- `statusSnapshotLocked` followed by the broadcast: STATUS carries the status as it is.
  abbrev pub emit_status : Em env (Unit {0})
  emit_status s = (tt, record s { out = status s.eng.st ∷ s.out })

  abbrev pub log_event : (level source category action : String) → Em env (Unit {0})
  log_event level source category action = emit (log level source category action)

  -- The same under a condition.
  abbrev pub log_if : Bool → (level source category action : String) → Em env (Unit {0})
  log_if b level source category action s =
      (tt, record s { out = if b then log level source category action ∷ s.out else s.out })

  -- A call of the outside.
  abbrev pub outside : {A : Type 0} → (World → A × World) → Em env A
  outside f s = ((f s.world).0, record s { world = (f s.world).1 })

  abbrev pub persist : Em env (Unit {0})
  persist s = (tt, record s { persisted = s.persisted + 1 })

abbrev no_health : TunnelHealth
no_health = record {
  established_at = 0;
  last_injection_ok_at = 0;
  consecutive_inject_failures = 0;
  last_reresolve_at = 0;
  last_check_rtt_ms = 0;
  searching = false;
}

abbrev pub health_or_new : Option TunnelHealth → TunnelHealth
health_or_new none = no_health
health_or_new (some th) = th

-- `updateTunnelHealthLocked`
abbrev pub update_tunnel_health : {R : Type 0} → (TunnelHealth → TunnelHealth) → Status R → Status R
update_tunnel_health f st = record st { tunnel_health = some (f (health_or_new st.tunnel_health)) }
