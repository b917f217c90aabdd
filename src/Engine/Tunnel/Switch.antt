-- ===== src/Engine/Tunnel/Switch.antt =====
-- The outcomes of `SwitchDriver` of engine_tunnel.go, when nothing else runs meanwhile.
use maps_main.Shared.{
  ℕ, ◌+◌, ◌≡◌, String, true, false, Option, none, some, arith, pure, ap, ◌∙◌, ◌>>=◌, ◌>>◌,
}
use maps_main.Domain.{TunnelInfo, idle, ready, Status}
use maps_main.Engine.Model.{Env, Except, ok, err, TransportKind, transport_auto, State}
use maps_main.Engine.Tunnel.{
  ready_if_resting, switch_config, claim_switch, publish_switch, finish_switch, log_failure,
  start_tunnel, switch_driver,
}
use maps_main.Engine.Tunnel.Start.{
  start_answer, idle_if_resting, start_tunnel_again, start_tunnel_done,
}

module _ (env : Env) where
  open env use {Real, World, stop_tunnel, new_driver, trim_space, start_tunnel as driver_start}

  abbrev pub S : Type 0
  S = State Real World

  -- The answer of `driver.New` in a switch from this state: the old tunnel has been stopped.
  abbrev new_answer : String → TransportKind → String → String → S → Except ℕ × World
  new_answer driver kind wifi udid s =
      new_driver driver
        (switch_config kind (trim_space wifi) (trim_space udid) s.eng.driver_cfg_base)
        (stop_tunnel s.eng.drv s.world).1

  switch_driver_refused :
      (driver wifi udid : String) (kind : TransportKind) (s : S) (e : String)
      → (new_answer driver kind wifi udid s).0 ≡ err e
      → let (r, t) = switch_driver env driver kind wifi udid s in
        (r ≡ some e)
        × (t.eng.drv ≡ s.eng.drv)
        × (t.world ≡ (new_answer driver kind wifi udid s).1)
        × (t.eng.st ≡ record s.eng.st { state = idle_if_resting env s.eng.st.state })
  unfolding switch_driver finish_switch
  switch_driver_refused driver wifi udid kind s e h = ground arith

  -- A switch, while the tunnel is up, to a driver that cannot be made has stopped the old tunnel, and
  -- leaves the status as it was, but for a start in progress, which falls back to idle. So the status
  -- still says that the tunnel is up, and a start that follows does nothing.
  pub switch_driver_failed :
      (driver wifi udid : String) (kind : TransportKind) (s : S) (e : String)
      → (new_answer driver kind wifi udid s).0 ≡ err e
      → s.eng.st.tunnel_active ≡ true
      → let (r, t) = switch_driver env driver kind wifi udid s in
        (r ≡ some e)
        × (t.eng.drv ≡ s.eng.drv)
        × (t.world ≡ (new_answer driver kind wifi udid s).1)
        × (t.eng.st ≡ record s.eng.st { state = idle_if_resting env s.eng.st.state })
        × (start_tunnel env t ≡ (none, t))
  switch_driver_failed driver wifi udid kind s e h up =
      let (r, d, w, st) = switch_driver_refused driver wifi udid kind s e h in
      (
        r,
        d,
        w,
        st,
        start_tunnel_again env (switch_driver env driver kind wifi udid s).1
            (ap (λ (x : Status Real). x.tunnel_active) st ∙ up),
      )

  -- The state in which a switch starts the tunnel of the new driver.
  prepared : String → TransportKind → String → String → ℕ → S → S
  prepared driver kind wifi udid drv s =
      let claimed = (claim_switch env s).1 in
      let cfg = switch_config kind (trim_space wifi) (trim_space udid) s.eng.driver_cfg_base in
      (publish_switch env driver kind cfg drv
        (record claimed { world = (new_answer driver kind wifi udid s).1 })).1

  prepared_lem :
      (driver wifi udid : String) (kind : TransportKind) (s : S) (drv : ℕ)
      → let t = prepared driver kind wifi udid drv s in
        (t.eng.drv ≡ drv)
        × (t.eng.sim ≡ none)
        × (t.eng.driver_generation ≡ s.eng.driver_generation + 1)
        × (t.eng.st.tunnel_active ≡ false)
        × (t.eng.st.state ≡ idle)
        × (t.eng.st.last_injected_location ≡ s.eng.st.last_injected_location)
        × (t.world ≡ (new_answer driver kind wifi udid s).1)
  unfolding prepared claim_switch publish_switch
  prepared_lem driver wifi udid transport_auto s drv = ground arith
  prepared_lem driver wifi udid _ s drv = ground arith

  start_tunnel-eng :
      (s : S)
      → let t = (start_tunnel env s).1 in
        (t.eng.drv ≡ s.eng.drv)
        × (t.eng.sim ≡ s.eng.sim)
        × (t.eng.driver_generation ≡ s.eng.driver_generation)
  unfolding start_tunnel
  start_tunnel-eng s = ground arith

  after_start : S → Option String × S
  after_start p = (do failure ← start_tunnel env; log_failure env failure; pure failure) p

  after_start_done :
      (p : S) (ti : TunnelInfo)
      → p.eng.st.tunnel_active ≡ false
      → start_answer env p ≡ ok ti
      → let (r, t) = after_start p in
        (r ≡ none)
        × (t.eng.drv ≡ p.eng.drv)
        × (t.eng.sim ≡ p.eng.sim)
        × (t.eng.driver_generation ≡ p.eng.driver_generation)
        × (t.eng.st.tunnel_active ≡ true)
        × (t.eng.st.rsd_address ≡ ti.address)
        × (t.eng.st.state ≡ ready_if_resting p.eng.st.state)
        × (t.eng.st.last_injected_location ≡ p.eng.st.last_injected_location)
  unfolding after_start
  after_start_done p ti down a =
      ground (arith, start_tunnel_done env p ti down a, start_tunnel-eng p)

  switch_driver-prepared :
      (driver wifi udid : String) (kind : TransportKind) (s : S) (drv : ℕ)
      → (new_answer driver kind wifi udid s).0 ≡ ok drv
      → switch_driver env driver kind wifi udid s
        ≡ after_start (prepared driver kind wifi udid drv s)
  unfolding switch_driver prepared after_start finish_switch
  switch_driver-prepared driver wifi udid kind s drv h = ground arith

  -- A switch to a driver that is made and then starts runs on that driver, with its endpoint published,
  -- no simulation, and the state ready, whatever the state was before.
  switch_driver_done :
      (driver wifi udid : String) (kind : TransportKind) (s : S) (drv : ℕ) (ti : TunnelInfo)
      → let (answer, w) = new_answer driver kind wifi udid s in
        answer ≡ ok drv
        → (driver_start drv w).0 ≡ ok ti
        → let (r, t) = switch_driver env driver kind wifi udid s in
          (r ≡ none)
          × (t.eng.drv ≡ drv)
          × (t.eng.sim ≡ none)
          × (t.eng.driver_generation ≡ s.eng.driver_generation + 1)
          × (t.eng.st.tunnel_active ≡ true)
          × (t.eng.st.rsd_address ≡ ti.address)
          × (t.eng.st.state ≡ ready)
          × (t.eng.st.last_injected_location ≡ s.eng.st.last_injected_location)
  switch_driver_done driver wifi udid kind s drv ti h a =
      let p = prepared driver kind wifi udid drv s in
      let (d, sim, gen, down, idle', held, w) = prepared_lem driver wifi udid kind s drv in
      let answer : start_answer env p ≡ ok ti = rw (d, w) a in
      let (r, d', sim', gen', up, addr, state, held') = after_start_done p ti down answer in
      rw (switch_driver-prepared driver wifi udid kind s drv h) (
        r,
        d' ∙ d,
        sim' ∙ sim,
        gen' ∙ gen,
        up,
        addr,
        state ∙ ap ready_if_resting idle',
        held' ∙ held,
      )
