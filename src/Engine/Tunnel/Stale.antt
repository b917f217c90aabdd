-- ===== src/Engine/Tunnel/Stale.antt =====
-- A start of the tunnel that a switch of the driver overtakes. `StartTunnel` of engine_tunnel.go holds
-- `tunnelMu` while its driver starts, so that a switch gets no further than its first critical section,
-- but that section and all else that only takes `mu` may run meanwhile.
use maps_main.Shared.{ℕ, ◌+◌, ◌≤◌, ◌<◌, ◌≡◌, refl, String, Bool, false, none, arith}
use maps_main.Domain.{LatLon, TunnelInfo}
use maps_main.Engine.Model.{Env, Except, ok, err, State}
use maps_main.Engine.Location.{inject_location, clear, heartbeat}
use maps_main.Engine.Tunnel.{
  Attempt, is_current, mark_tunnel_lost, begin_start, finish_start, claim_switch,
}

module _ (env : Env) where
  open env use {Real, World, stop_tunnel}

  abbrev pub S : Type 0
  S = State Real World

  -- A tunnel that came up is stopped.
  abbrev world_after : Except TunnelInfo → ℕ → World → World
  world_after (ok ti) drv w = (stop_tunnel drv w).1
  world_after (err e) drv w = w

  -- What may run while a driver starts.
  pub data Step : S → S → Type 0 where
    injected :
        {s : S} (p : LatLon Real) (name : String) (history : Bool)
        → Step s (inject_location env p name history s).1
    cleared : {s : S} → Step s (clear env s).1
    beat : {s : S} (maintaining : Bool) → Step s (heartbeat env maintaining s).1
    lost : {s : S} → Step s (mark_tunnel_lost env s).1
    claimed : {s : S} → Step s (claim_switch env s).1

  pub data Steps (s : S) : S → Type 0 where
    here : Steps s s
    next : {t u : S} → Steps s t → Step t u → Steps s u

  Step-generation : {s t : S} → Step s t → s.eng.driver_generation ≤ t.eng.driver_generation
  unfolding inject_location clear heartbeat mark_tunnel_lost claim_switch
  Step-generation (injected {s} p name history) = ground arith
  Step-generation (cleared {s}) = ground arith
  Step-generation (beat {s} maintaining) = ground arith
  Step-generation (lost {s}) = ground arith
  Step-generation (claimed {s}) = ground arith

  Steps-generation : {s t : S} → Steps s t → s.eng.driver_generation ≤ t.eng.driver_generation
  Steps-generation here = omega arith
  Steps-generation (next r st) = omega (arith, Steps-generation r, Step-generation st)

  stale :
      (a : Attempt) (s : S) → a.generation < s.eng.driver_generation → is_current a s.eng ≡ false
  stale a s h = ground arith

  begin_start-generation :
      (s : S) → (begin_start env s).0.generation ≡ (begin_start env s).1.eng.driver_generation
  unfolding begin_start
  begin_start-generation s = ground arith

  claim_switch-generation :
      (s : S) → (claim_switch env s).1.eng.driver_generation ≡ s.eng.driver_generation + 1
  unfolding claim_switch
  claim_switch-generation s = refl

  finish_start-stale :
      (a : Attempt) (answer : Except TunnelInfo) (u : S)
      → is_current a u.eng ≡ false
      → let (r, v) = finish_start env a answer u in
        (r ≡ none)
        × (v.eng.st ≡ u.eng.st)
        × (v.eng.metrics.tunnel_starts ≡ u.eng.metrics.tunnel_starts)
        × (v.out ≡ u.out)
        × (v.world ≡ world_after answer a.drv u.world)
  unfolding finish_start
  finish_start-stale a (ok ti) u h = rw h (refl, refl, refl, refl, refl)
  finish_start-stale a (err e) u h = rw h (refl, refl, refl, refl, refl)

  -- A start begins, and a switch claims the engine before the driver answers. Before and after the claim
  -- there may be injections, clears, heartbeats, losses of the tunnel and other claims. Then the start
  -- publishes nothing: it returns nil, the status and the events stay as they were found, and a tunnel
  -- that the old driver did bring up is stopped.
  pub stale_start_publishes_nothing :
      (s t u : S) (answer : Except TunnelInfo)
      → let (a, begun) = begin_start env s in
        Steps begun t
        → Steps (claim_switch env t).1 u
        → let (r, v) = finish_start env a answer u in
          (r ≡ none)
          × (v.eng.st ≡ u.eng.st)
          × (v.eng.metrics.tunnel_starts ≡ u.eng.metrics.tunnel_starts)
          × (v.out ≡ u.out)
          × (v.world ≡ world_after answer a.drv u.world)
  stale_start_publishes_nothing s t u answer before after =
      finish_start-stale (begin_start env s).0 answer u (
        stale (begin_start env s).0 u (
          omega (
            arith,
            begin_start-generation s,
            Steps-generation before,
            claim_switch-generation t,
            Steps-generation after,
          )))
