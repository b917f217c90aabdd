-- ===== src/Engine/Tunnel.antt =====
-- engine/internal/engine/engine_tunnel.go: bringing the tunnel up, losing it and switching the
-- driver; and `stopActiveSimulation` of engine_routes.go. A method that fails returns its error's
-- text, and `none` for nil. The hint that a failed start adds to its message is left out.
pub mod Stale
pub mod Start
pub mod Switch
use maps_main.Shared.{
  ℕ, suc, ◌+◌, ◌*◌, String, Bool, true, false, not, ◌&&◌, Option, none, some, List, ◌∷◌, ltb, ◌==◌,
  str_eq, if◌then◌else◌, pure, ◌>>=◌, ◌>>◌,
}
use maps_main.Domain.{
  TunnelHealth, TunnelInfo, DeviceInfo, EngineState, idle, ready, starting, running, moving, paused,
  Status,
}
use maps_main.Engine.Model.{
  Env, Except, ok, err, TransportKind, transport_auto, transport_usb, transport_wifi, DriverConfig,
  Metrics, Engine, State, Em, get, put, modify_st, modify_metrics, emit_status, log_event, outside,
  persist, update_tunnel_health,
}
use maps_main.Engine.Location.{is_starting}

abbrev is_idle : EngineState → Bool
is_idle idle = true
is_idle _ = false

-- engine/internal/driver/budget.go, in seconds: `StartBudget`, with Go's zero for "not configured".
unfoldable start_budget : ℕ → ℕ
start_budget per_attempt = 75 + 2 * (if ltb 0 per_attempt then per_attempt else 60)

-- A start in progress: the driver that it uses, and the generation it was made under.
pub record Attempt : Type 0 where
  pub drv : ℕ
  pub generation : ℕ

-- `isCurrentDriverGeneration`
abbrev pub is_current : {R : Type 0} → Attempt → Engine R → Bool
is_current a e = e.driver_generation == a.generation && e.drv == a.drv

abbrev pub ready_if_resting : EngineState → EngineState
ready_if_resting idle = ready
ready_if_resting starting = ready
ready_if_resting s = s

abbrev idle_if_up : EngineState → EngineState
idle_if_up ready = idle
idle_if_up running = idle
idle_if_up s = s

abbrev fresh_health : ℕ → TunnelHealth → TunnelHealth
fresh_health now th = record th {
  established_at = now;
  consecutive_inject_failures = 0;
  searching = false;
}

-- The status once a start has succeeded.
abbrev tunnel_up : {R : Type 0} → String → TunnelInfo → ℕ → Status R → Status R
tunnel_up driver ti now st = update_tunnel_health (fresh_health now) (record st {
  tunnel_active = true;
  rsd_address = ti.address;
  rsd_port = ti.port;
  connection_type = ti.type;
  device_info = some (record { name = "iPhone"; driver = driver });
  state = ready_if_resting st.state;
})

-- The status once the tunnel is lost.
abbrev tunnel_down : {R : Type 0} → Status R → Status R
tunnel_down st = record st {
  tunnel_active = false;
  rsd_address = "";
  rsd_port = 0;
  tunnel_health = none;
  state = idle_if_up st.state;
}

-- The status once another driver has been chosen.
abbrev switched : {R : Type 0} → TransportKind → String → Status R → Status R
switched kind driver st = drivers kind (record st {
  tunnel_active = false;
  rsd_address = "";
  rsd_port = 0;
  state = idle;
  device_info = none;
})
  where
    drivers : {R : Type 0} → TransportKind → Status R → Status R
    drivers transport_usb u = record u { usb_driver = driver }
    drivers transport_wifi u = record u { wifi_driver = driver }
    drivers transport_auto u = record u { usb_driver = driver; wifi_driver = driver }

-- The configuration of a switch. `transport_auto` stands for every transport but "usb" and "wifi".
unfoldable pub switch_config : TransportKind → String → String → DriverConfig → DriverConfig
switch_config transport_usb wifi udid base = record base {
  transport = transport_usb;
  manual_address = "";
  target_udid = "";
}
switch_config transport_wifi wifi udid base = record base {
  transport = transport_wifi;
  manual_address = if str_eq wifi "" then base.manual_address else wifi;
  target_udid = "";
}
switch_config transport_auto wifi udid base = record base {
  transport = transport_auto;
  manual_address = "";
  target_udid = udid;
}

-- A cancel function that is called, if there is one.
abbrev pub cancel : Option ℕ → List ℕ → List ℕ
cancel none l = l
cancel (some i) l = i ∷ l

module _ (env : Env) where
  open env use {
    Real, World, now_ms, start_tunnel as driver_start, stop_tunnel, driver_id, new_driver,
    trim_space,
  }

  -- `stopActiveSimulation`: the running goroutine, if any, is cancelled.
  abbrev pub stop_active_simulation : Em env (Unit {0})
  stop_active_simulation = do
    e ← get env
    put env (record e { sim = none; cancelled = cancel e.sim e.cancelled; sim_paused = false })

  -- `markTunnelLost`
  unfoldable pub mark_tunnel_lost : Em env (Unit {0})
  mark_tunnel_lost = do
    e ← get env
    if e.st.tunnel_active then (do modify_st env tunnel_down; emit_status env) else pure tt

  -- `clearActiveStart`
  unfoldable clear_active_start : ℕ → Em env (Unit {0})
  clear_active_start generation = do
    e ← get env
    put env (if e.driver_generation == generation then record e { start_cancel = none } else e)

  -- The critical section that opens `StartTunnel`, when no tunnel is up.
  unfoldable pub begin_start : Em env Attempt
  begin_start = do
    e ← get env
    put env (record e { start_cancel = some e.driver_generation })
    if is_idle e.st.state
        then (do modify_st env (λ st. record st { state = starting }); emit_status env)
        else pure tt
    log_event env "info" "tunnel" "tunnel" "start"
    pure (record { drv = e.drv; generation = e.driver_generation })

  -- What `StartTunnel` does with the driver's answer, other calls having run meanwhile.
  unfoldable pub finish_start : Attempt → Except TunnelInfo → Em env (Option String)
  finish_start a (err e) = do
    modify_metrics env (λ m. record m { tunnel_start_failures = m.tunnel_start_failures + 1 })
    now ← get env
    if is_current a now
        then (do
          log_event env "error" "tunnel" "tunnel" "start"
          if is_starting now.st.state
              then (do modify_st env (λ st. record st { state = idle }); emit_status env)
              else pure tt
          pure (some e))
        else pure none
  finish_start a (ok ti) = do
    now ← get env
    if is_current a now
        then (do
          modify_metrics env (λ m. record m { tunnel_starts = m.tunnel_starts + 1 })
          log_event env "info" "tunnel" "tunnel" "start"
          at ← outside env now_ms
          modify_st env (tunnel_up (driver_id a.drv) ti at)
          emit_status env
          pure none)
        else (do outside env (stop_tunnel a.drv); pure none)

  -- `StartTunnel`, when nothing else runs while the driver starts.
  unfoldable pub start_tunnel : Em env (Option String)
  unfolding begin_start finish_start clear_active_start
  start_tunnel = do
    e ← get env
    if e.st.tunnel_active then pure none else (do
      a ← begin_start
      answer ← outside env (driver_start a.drv)
      failure ← finish_start a answer
      clear_active_start a.generation
      pure failure)

  -- The first critical section of `SwitchDriver`: it makes every start in progress stale.
  unfoldable pub claim_switch : Em env (Unit {0})
  claim_switch = do
    stop_active_simulation
    e ← get env
    put env (record e { driver_generation = e.driver_generation + 1 })

  abbrev pub log_failure : Option String → Em env (Unit {0})
  log_failure none = pure tt
  log_failure (some e) = log_event env "error" "tunnel" "tunnel" "start"

  abbrev warn_if_blind : TransportKind → DriverConfig → Em env (Unit {0})
  warn_if_blind transport_wifi cfg =
      if str_eq cfg.manual_address ""
      then log_event env "warn" "admin" "driver" "switch"
      else pure tt
  warn_if_blind _ cfg = pure tt

  unfoldable pub publish_switch : String → TransportKind → DriverConfig → ℕ → Em env (Unit {0})
  publish_switch driver kind cfg drv = do
    now ← get env
    put env (record now { drv = drv; st = switched kind driver now.st })
    emit_status env
    persist env
    warn_if_blind kind cfg
    log_event env "info" "admin" "driver" "switch"

  -- The second one, with the driver that `driver.New` made or its error.
  unfoldable pub finish_switch :
      String → TransportKind → DriverConfig → Except ℕ → Em env (Option String)
  finish_switch driver kind cfg (err e) = do
    now ← get env
    put env (record now { start_cancel = none })
    if is_starting now.st.state
        then (do modify_st env (λ st. record st { state = idle }); emit_status env)
        else pure tt
    log_event env "error" "admin" "driver" "switch"
    pure (some e)
  finish_switch driver kind cfg (ok drv) = do
    publish_switch driver kind cfg drv
    failure ← start_tunnel
    log_failure failure
    pure failure

  -- `SwitchDriver`
  unfoldable pub switch_driver : String → TransportKind → String → String → Em env (Option String)
  unfolding claim_switch
  switch_driver driver kind wifi udid = do
    claim_switch
    e ← get env
    outside env (stop_tunnel e.drv)
    let cfg = switch_config kind (trim_space wifi) (trim_space udid) e.driver_cfg_base
    answer ← outside env (new_driver driver cfg)
    finish_switch driver kind cfg answer
