-- ===== src/Engine/Tunnel/Start.antt =====
-- The outcomes of `StartTunnel` and `markTunnelLost` of engine_tunnel.go, when nothing else runs
-- while the driver starts.
use maps_main.Shared.{◌+◌, ◌≡◌, String, true, false, none, some, arith}
use maps_main.Domain.{TunnelInfo, EngineState, idle, starting}
use maps_main.Engine.Model.{Env, Except, ok, err, State, health_or_new}
use maps_main.Engine.Tunnel.{ready_if_resting, mark_tunnel_lost, start_tunnel}

module _ (env : Env) where
  open env use {Real, World, start_tunnel as driver_start}

  abbrev pub S : Type 0
  S = State Real World

  abbrev pub start_answer : S → Except TunnelInfo
  start_answer s = (driver_start s.eng.drv s.world).0

  -- The states that a start goes through fall back to idle.
  abbrev pub idle_if_resting : EngineState → EngineState
  idle_if_resting starting = idle
  idle_if_resting s = s

  -- A start with the tunnel up does nothing at all.
  pub start_tunnel_again : (s : S) → s.eng.st.tunnel_active ≡ true → start_tunnel env s ≡ (none, s)
  unfolding start_tunnel
  start_tunnel_again s h = ground arith

  -- A start that the driver fails returns its error, leaves the tunnel down and counts the failure. The
  -- state that showed the start, or was idle, is idle again, and any other state stays. The position and
  -- the endpoint are untouched.
  start_tunnel_failed :
      (s : S) (e : String)
      → s.eng.st.tunnel_active ≡ false
      → start_answer s ≡ err e
      → let (r, t) = start_tunnel env s in
        (r ≡ some e)
        × (t.eng.st ≡ record s.eng.st { state = idle_if_resting s.eng.st.state })
        × (t.eng.metrics.tunnel_start_failures ≡ s.eng.metrics.tunnel_start_failures + 1)
        × (t.eng.start_cancel ≡ none)
  unfolding start_tunnel
  start_tunnel_failed s e h a = ground arith

  -- A start that the driver makes publishes its endpoint, with the tunnel up, no run of failures and no
  -- search. A state that was idle or starting is ready, any other stays. The held position is kept.
  pub start_tunnel_done :
      (s : S) (ti : TunnelInfo)
      → s.eng.st.tunnel_active ≡ false
      → start_answer s ≡ ok ti
      → let (r, t) = start_tunnel env s in
        (r ≡ none)
        × (t.eng.st.tunnel_active ≡ true)
        × (t.eng.st.rsd_address ≡ ti.address)
        × (t.eng.st.rsd_port ≡ ti.port)
        × (t.eng.st.connection_type ≡ ti.type)
        × (t.eng.st.state ≡ ready_if_resting s.eng.st.state)
        × ((health_or_new t.eng.st.tunnel_health).consecutive_inject_failures ≡ 0)
        × ((health_or_new t.eng.st.tunnel_health).searching ≡ false)
        × (t.eng.st.last_injected_location ≡ s.eng.st.last_injected_location)
        × (t.eng.metrics.tunnel_starts ≡ s.eng.metrics.tunnel_starts + 1)
  unfolding start_tunnel
  start_tunnel_done s ti h a = ground arith

  -- After a loss a start is never refused as already made: when the driver starts, the tunnel is up. The
  -- held position survives both.
  start-mark_tunnel_lost :
      (s : S) (ti : TunnelInfo)
      → start_answer (mark_tunnel_lost env s).1 ≡ ok ti
      → let lost = (mark_tunnel_lost env s).1 in
        (lost.eng.st.tunnel_active ≡ false)
        × ((start_tunnel env lost).1.eng.st.last_injected_location
            ≡ s.eng.st.last_injected_location)
        × ((start_tunnel env lost).1.eng.st.tunnel_active ≡ true)
  unfolding mark_tunnel_lost start_tunnel
  start-mark_tunnel_lost s ti a = (ground arith, ground arith, ground arith)
