-- ===== src/Engine/Health/Backoff.antt =====
-- The pace of the retries of `healthLoop` in engine_health.go.
use native.Mathlib.Nat.{pow-suc}
use maps_main.Shared.{
  ℕ, zero, suc, ◌-◌, ◌*◌, ◌^◌, ◌≤◌, ◌<◌, ◌≡◌, refl, ◌⊎◌, Bool, true, false, arith, min,
}
use maps_main.Engine.Model.{Env, Reresolved, found, missing, State}
use maps_main.Engine.Health.{
  Watch, tunnel_retry_interval, tunnel_retry_max, backed_off, retry_start, restart_lost, recover,
  pursue, probe_tunnel, health_tick, take_reset, record_health_rtt,
}

-- The interval between retries lies between thirty seconds and five minutes.
abbrev pub IsPaced : Watch → Type 0
IsPaced w = (tunnel_retry_interval ≤ w.retry_interval) × (w.retry_interval ≤ tunnel_retry_max)

-- The interval after a run of failures.
unfoldable after_failures : ℕ → ℕ
after_failures zero = tunnel_retry_interval
after_failures (suc n) = backed_off (after_failures n)

-- A run of failures doubles the interval each time, up to the cap: it is 30 s, 1 min, 2 min, 4 min and
-- then 5 min.
after_failures-min : (n : ℕ) → after_failures n ≡ min (30000 * 2 ^ n) 300000
unfolding after_failures
after_failures-min zero = refl
after_failures-min (suc zero) = refl
after_failures-min (suc (suc zero)) = refl
after_failures-min (suc (suc (suc zero))) = refl
after_failures-min (suc (suc (suc (suc zero)))) = refl
after_failures-min (suc (suc (suc (suc (suc n))))) =
    let h = after_failures-min (suc (suc (suc (suc n)))) in
    let e = pow-suc 2 (suc (suc (suc (suc n)))) in ground (arith, h, e)

module _ (env : Env) where
  open env use {Real, World, now_ms, check_health}

  abbrev pub S : Type 0
  S = State Real World

  recover-interval :
      (drv : ℕ) (w : Watch) (answer : Reresolved) (s : S)
      → (recover env drv w answer s).0.retry_interval ≡ w.retry_interval
  unfolding recover restart_lost
  recover-interval drv w (found info) s = refl
  recover-interval drv w (missing true) s = refl
  recover-interval drv w (missing false) s = refl

  pursue-interval :
      (drv : ℕ) (reachable : Bool) (w : Watch) (s : S)
      → (pursue env drv reachable w s).0.retry_interval ≡ w.retry_interval
  unfolding pursue
  pursue-interval drv reachable w s = recover-interval drv _ _ _

  probe_tunnel-interval :
      (w : Watch) (s : S) → (probe_tunnel env w s).0.retry_interval ≡ w.retry_interval
  unfolding probe_tunnel record_health_rtt
  probe_tunnel-interval w s =
      let reachable = (check_health s.eng.drv s.world).0.0 in
      let h =
        pursue-interval s.eng.drv reachable w
          (record s { world = (check_health s.eng.drv s.world).1 }) in
      ground (arith, h)

  retry_start-IsPaced : (w : Watch) (s : S) → IsPaced w → IsPaced (retry_start env w s).0
  unfolding retry_start
  retry_start-IsPaced w s h = ground arith

  take_reset-IsPaced : (b : Bool) (w : Watch) → IsPaced w → IsPaced (take_reset env b w)
  take_reset-IsPaced true w h = ground arith
  take_reset-IsPaced false w h = h

  -- Every iteration of the loop keeps the interval between thirty seconds and five minutes, and an
  -- iteration that finds the tunnel up brings it back to thirty seconds.
  pub health_tick-IsPaced :
      (w : Watch) (s : S)
      → IsPaced w
      → IsPaced (health_tick env w s).0
        × ((s.eng.st.tunnel_active ≡ false)
            ⊎ ((health_tick env w s).0.retry_interval ≡ tunnel_retry_interval))
  unfolding health_tick
  health_tick-IsPaced w s h =
      let v = take_reset env s.eng.health_reset w in
      let t = record s { eng = record s.eng { health_reset = false } } in
      let up = probe_tunnel-interval (record v { retry_interval = tunnel_retry_interval }) t in
      let down = retry_start-IsPaced v t (take_reset-IsPaced s.eng.health_reset w h) in
      (ground (arith, up, down), ground (arith, up))

  -- With the tunnel down and no reset pending, nothing is tried before the interval is over: the
  -- iteration only reads the clock.
  health_tick_early :
      (w : Watch) (s : S)
      → s.eng.st.tunnel_active ≡ false
      → s.eng.health_reset ≡ false
      → (now_ms s.world).0 - w.last_retry < w.retry_interval
      → health_tick env w s
        ≡ (record w { warned_searching = false }, record s { world = (now_ms s.world).1 })
  unfolding health_tick retry_start
  health_tick_early w s down quiet early = ground arith
