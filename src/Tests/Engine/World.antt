-- ===== src/Tests/Engine/World.antt =====
-- A world for the tests: numbers for coordinates, a clock that ticks when it is read, and one device.
use maps_main.Shared.{
  ℕ, ◌+◌, ◌-◌, ◌*◌, ◌/◌, ◌^◌, min, String, Bool, true, false, Option, none, some, [], ◌∷◌, ltb, leb,
  ◌==◌, if◌then◌else◌,
}
use maps_main.Domain.{conn_usb, LatLon, Favorite, TunnelInfo, EngineState, nav_running, Status}
use maps_main.Engine.{Floats, Except, ok, err, found, transport_auto, Env, Engine, State}

abbrev pub numbers : Floats
numbers = record {
  Real = ℕ;
  equal = λ a b. a == b;
  less = λ a b. ltb a b;
  at_most = λ a b. leb a b;
  decimal = λ m e. m / 10 ^ e;
  plus = λ a b. a + b;
  minus = λ a b. a - b;
  times = λ a b. a * b;
  over = λ a b. a / b;
  sine = λ a. a;
  cosine = λ a. a;
  root = λ a. a;
  arc_tangent = λ a b. a;
  pi = 180;
  minimum = λ a b. min a b;
  maximum = λ a b. if ltb a b then b else a;
  floor = λ a. a;
}

abbrev pub endpoint : TunnelInfo
endpoint = record { address = "fd00::1"; port = 5000; type = conn_usb; userspace_port = 0 }

-- What the device and the drivers answer.
abbrev pub world : Option String → Except TunnelInfo → Except ℕ → Bool → Env
world injection tunnel driver healthy = record {
  floats = numbers;
  World = ℕ;
  now_ms = λ w. (w, w + 1);
  random = λ w. (0, w);
  set_location = λ d p w. (injection, w);
  clear_location = λ d w. (injection, w);
  start_tunnel = λ d w. (tunnel, w);
  stop_tunnel = λ d w. (none, w);
  check_health = λ d w. ((healthy, 7), w);
  reresolve_tunnel = λ d w. (found endpoint, w);
  driver_id = λ d. "pymobiledevice";
  new_driver = λ id cfg w. (driver, w);
  kill_processes = λ w. (none, w);
  restart_mdns_service = λ w. (none, w);
  start_mdns_wake = λ w. (tt, w);
  route = λ a b profile w. (err "no provider", w);
  parse_gpx = λ s. [];
  trim_space = λ s. s;
}

abbrev pub good : Env
good = world none (ok endpoint) (ok 1) true

abbrev pub bad : Env
bad = world (some "no device") (err "no device") (err "unknown driver") false

abbrev pub paris_stamp : Favorite ℕ
paris_stamp = record { lat = 48; lon = 2; name = "Paris"; timestamp = 5 }

abbrev pub lyon : LatLon ℕ
lyon = record { lat = 45; lon = 4 }

abbrev pub status_of : Bool → EngineState → Status ℕ
status_of up state = record {
  state = state;
  tunnel_active = up;
  rsd_address = "";
  rsd_port = 0;
  connection_type = conn_usb;
  device_info = none;
  last_injected_location = some paris_stamp;
  last_verified_location = none;
  last_real_location = none;
  tunnel_health = none;
  maintain_active = false;
  last_heartbeat = 0;
  usb_driver = "";
  wifi_driver = "";
  jitter_enabled = true;
  favorites = [];
  recent_history = paris_stamp ∷ [];
  current_sequence_preview = [];
  patrol_zone = none;
  progress = none;
  navigation = some (record { state = nav_running; index = 0; total = 2 });
}

-- An engine with or without a tunnel, in a state, running a simulation or none.
abbrev pub engine : Bool → EngineState → Option ℕ → Engine ℕ
engine up state sim = record {
  drv = 0;
  st = status_of up state;
  sim = sim;
  cancelled = [];
  next_sim = 1;
  sim_paused = false;
  driver_generation = 4;
  start_cancel = none;
  drift_failures = 0;
  last_reinjection = 0;
  health_reset = false;
  metrics = record {
    injections_ok = 0;
    injections_failed = 0;
    tunnel_starts = 0;
    tunnel_start_failures = 0;
    tunnel_reresolves = 0;
    tunnel_restarts = 0;
  };
  driver_cfg_base = record { transport = transport_auto; manual_address = ""; target_udid = "" };
}

abbrev pub at : Bool → EngineState → Option ℕ → State ℕ ℕ
at up state sim = record { eng = engine up state sim; world = 40000; out = []; persisted = 0 }
