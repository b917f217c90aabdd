-- ===== src/Engine/Health.antt =====
-- engine/internal/engine/engine_health.go: the watchdog of the tunnel and the keep-alive of a position
-- at rest, one iteration of each loop at a time. Intervals are in milliseconds.
pub mod Backoff
pub mod Recovery
use maps_main.Shared.{
  ℕ, suc, ◌+◌, ◌-◌, ◌*◌, String, Bool, true, false, not, ◌&&◌, ◌||◌, Option, none, some, ltb, leb,
  ◌==◌, str_eq, is_some, if◌then◌else◌, pure, ◌>>=◌, ◌>>◌,
}
use maps_main.Domain.{
  ConnectionType, conn_usb, conn_wifi, conn_manual, conn_unknown, TunnelHealth, TunnelInfo,
  EngineState, running, Status,
}
use maps_main.Engine.Model.{
  Env, Reresolved, found, missing, Engine, State, Em, get, put, modify_st, modify_metrics,
  emit_status, log_event, log_if, outside, update_tunnel_health,
}
use maps_main.Engine.Drift.{relance}
use maps_main.Engine.Tunnel.{mark_tunnel_lost, start_tunnel}

abbrev pub tunnel_retry_interval : ℕ
tunnel_retry_interval = 30000

abbrev pub tunnel_retry_max : ℕ
tunnel_retry_max = 300000

abbrev inject_failure_threshold : ℕ
inject_failure_threshold = 3

-- The loop's own variables.
pub record Watch : Type 0 where
  pub warned_searching : Bool
  pub warned_injection : Bool
  pub last_retry : ℕ
  pub retry_interval : ℕ

abbrev same_type : ConnectionType → ConnectionType → Bool
same_type conn_usb conn_usb = true
same_type conn_wifi conn_wifi = true
same_type conn_manual conn_manual = true
same_type conn_unknown conn_unknown = true
same_type _ _ = false

abbrev is_running : EngineState → Bool
is_running running = true
is_running _ = false

-- `injectionStalled`
abbrev stalled_health : Option TunnelHealth → Bool
stalled_health none = false
stalled_health (some th) = leb inject_failure_threshold th.consecutive_inject_failures

abbrev pub injection_stalled : {R : Type 0} → Status R → Bool
injection_stalled st = stalled_health st.tunnel_health

abbrev searching_is : Bool → Option TunnelHealth → Bool
searching_is b none = false
searching_is true (some th) = th.searching
searching_is false (some th) = not th.searching

-- `min(retryInterval*2, tunnelRetryMax)`
abbrev pub backed_off : ℕ → ℕ
backed_off n = if ltb tunnel_retry_max (n * 2) then tunnel_retry_max else n * 2

abbrev next_interval : Option String → ℕ → ℕ
next_interval none n = tunnel_retry_interval
next_interval (some e) n = backed_off n

-- Whether an endpoint differs from the one in the status.
abbrev pub moved : {R : Type 0} → TunnelInfo → Status R → Bool
moved info st =
    not (str_eq st.rsd_address info.address)
    || not (st.rsd_port == info.port)
    || not (same_type st.connection_type info.type)

module _ (env : Env) where
  open env use {Real, World, now_ms, check_health, reresolve_tunnel, stop_tunnel}

  -- `recordHealthRTT`
  unfoldable pub record_health_rtt : ℕ → Em env (Unit {0})
  record_health_rtt rtt =
      modify_st env
        (update_tunnel_health (λ th. record th { last_check_rtt_ms = rtt; searching = false }))

  -- `setTunnelSearching`
  unfoldable pub set_tunnel_searching : Bool → Em env (Unit {0})
  set_tunnel_searching searching = do
    e ← get env
    if searching_is searching e.st.tunnel_health then pure tt else (do
      modify_st env (update_tunnel_health (λ th. record th { searching = searching }))
      emit_status env)

  -- `applyTunnelUpdate`
  unfoldable pub apply_tunnel_update : TunnelInfo → Em env (Unit {0})
  apply_tunnel_update info = do
    e ← get env
    let changed = moved info e.st
    modify_st env (λ st. record st {
      tunnel_active = true;
      rsd_address = info.address;
      rsd_port = info.port;
      connection_type = info.type;
    })
    at ← (if changed then outside env now_ms else pure 0)
    modify_st env (
        update_tunnel_health (λ th. record th {
          searching = false;
          last_reresolve_at = if changed then at else th.last_reresolve_at;
        }))
    modify_metrics env
        (λ m. if changed then record m { tunnel_reresolves = m.tunnel_reresolves + 1 } else m)
    emit_status env
    log_if env changed "info" "tunnel" "tunnel" "reconnect"

  -- The branch of a tunnel that is down: a start at the end of each interval.
  unfoldable pub retry_start : Watch → Em env Watch
  retry_start w = do
    now ← outside env now_ms
    if leb w.retry_interval (now - w.last_retry)
        then (do
          at ← outside env now_ms
          failure ← start_tunnel env
          pure (record w {
            warned_searching = false;
            last_retry = at;
            retry_interval = next_interval failure w.retry_interval;
          }))
        else pure (record w { warned_searching = false })

  abbrev pub log_failure : Option String → Em env (Unit {0})
  log_failure none = pure tt
  log_failure (some e) = log_event env "error" "tunnel" "tunnel" "reconnect"

  -- The daemon is gone: the tunnel is marked lost before it is started again.
  unfoldable pub restart_lost : ℕ → Watch → Em env Watch
  restart_lost drv w = do
    log_event env "warn" "tunnel" "tunnel" "reconnect"
    modify_metrics env (λ m. record m { tunnel_restarts = m.tunnel_restarts + 1 })
    mark_tunnel_lost env
    outside env (stop_tunnel drv)
    failure ← start_tunnel env
    log_failure failure
    pure (record w { warned_searching = false })

  unfoldable pub recover : ℕ → Watch → Reresolved → Em env Watch
  recover drv w (found info) = do
    apply_tunnel_update info
    pure (record w { warned_searching = false; warned_injection = false })
  recover drv w (missing false) = restart_lost drv w
  recover drv w (missing true) = do
    set_tunnel_searching true
    log_if env (not w.warned_searching) "warn" "tunnel" "tunnel" "reconnect"
    pure (record w { warned_searching = true })

  -- The tunnel does not answer, or its injections stall: the daemon is asked for the device.
  unfoldable pub pursue : ℕ → Bool → Watch → Em env Watch
  pursue drv reachable w = do
    let warn = reachable && not w.warned_injection
    log_if env warn "warn" "tunnel" "tunnel" "health"
    answer ← outside env (reresolve_tunnel drv)
    recover drv (record w { warned_injection = warn || w.warned_injection }) answer

  -- The branch of a tunnel that is up.
  unfoldable pub probe_tunnel : Watch → Em env Watch
  probe_tunnel w = do
    e ← get env
    (reachable, rtt) ← outside env (check_health e.drv)
    if reachable && not (injection_stalled e.st)
        then (do
          record_health_rtt rtt
          pure (record w { warned_searching = false; warned_injection = false }))
        else pursue e.drv reachable w

  -- A pending `resetHealthBackoff` signal is taken first.
  abbrev pub take_reset : Bool → Watch → Watch
  take_reset true w = record w { last_retry = 0; retry_interval = tunnel_retry_interval }
  take_reset false w = w

  -- One iteration of `healthLoop`.
  unfoldable pub health_tick : Watch → Em env Watch
  health_tick w = do
    e ← get env
    put env (record e { health_reset = false })
    let v = take_reset e.health_reset w
    if e.st.tunnel_active
        then probe_tunnel (record v { retry_interval = tunnel_retry_interval })
        else retry_start v

  -- `ResetHealthBackoff`: the channel holds one signal.
  unfoldable pub reset_health_backoff : Em env (Unit {0})
  reset_health_backoff = do e ← get env; put env (record e { health_reset = true })

  -- `simulationActive`
  abbrev simulation_active : Engine Real → Bool
  simulation_active e = is_some e.sim

  abbrev holds_position : Status Real → Bool
  holds_position st = st.tunnel_active && is_some st.last_injected_location && is_running st.state

  -- One iteration of `keepaliveLoop`.
  unfoldable keepalive_tick : Em env (Unit {0})
  keepalive_tick = do
    e ← get env
    if simulation_active e
        then pure tt
        else (if holds_position e.st then (do relance env; pure tt) else pure tt)
