-- ===== src/Tests/Engine/Tunnel.antt =====
-- The theorems on the tunnel and its watchdog.
use maps_main.Shared.{◌≡◌, refl, ◌⊎◌, String, true, false, none, some, arith}
use maps_main.Domain.{idle, running}
use maps_main.Engine.{ok, transport_auto}
use maps_main.Engine.Tunnel.{begin_start, claim_switch, finish_start, start_tunnel, switch_driver}
use maps_main.Engine.Tunnel.Switch.{switch_driver_failed}
use maps_main.Engine.Tunnel.Stale.{beat, here, next, stale_start_publishes_nothing}
use maps_main.Engine.Location.{heartbeat}
use maps_main.Engine.Health.{Watch, tunnel_retry_interval, health_tick}
use maps_main.Engine.Health.Backoff.{IsPaced, health_tick-IsPaced}
use maps_main.Tests.Engine.World.{endpoint, good, bad, status_of, at}

abbrev driver : String
driver = "go-ios"

switch_driver_failed_example :
    let (r, t) = switch_driver bad driver transport_auto "" "" (at true running none) in
    (r ≡ some "unknown driver")
    × (t.eng.drv ≡ 0)
    × (t.world ≡ 40000)
    × (t.eng.st ≡ status_of true running)
    × (start_tunnel bad t ≡ (none, t))
switch_driver_failed_example =
    switch_driver_failed bad driver "" "" transport_auto (at true running none) "unknown driver"
      refl refl

-- A heartbeat, then the switch, then another heartbeat, while the driver starts.
stale_start_publishes_nothing_example :
    let (a, s) = begin_start good (at false idle none) in
    let t = (heartbeat good true s).1 in
    let u = (heartbeat good false (claim_switch good t).1).1 in
    let (r, v) = finish_start good a (ok endpoint) u in
    (r ≡ none)
    × (v.eng.st ≡ u.eng.st)
    × (v.eng.metrics.tunnel_starts ≡ u.eng.metrics.tunnel_starts)
    × (v.out ≡ u.out)
    × (v.world ≡ u.world)
stale_start_publishes_nothing_example =
    stale_start_publishes_nothing good (at false idle none)
      (heartbeat good true (begin_start good (at false idle none)).1).1
      (heartbeat good false
        (claim_switch good (heartbeat good true (begin_start good (at false idle none)).1).1).1).1
      (ok endpoint) (next here (beat true)) (next here (beat false))

abbrev watch : Watch
watch = record {
  warned_searching = false;
  warned_injection = false;
  last_retry = 30000;
  retry_interval = 60000;
}

health_tick-IsPaced_example :
    IsPaced (health_tick bad watch (at true running none)).0
    × ((true ≡ false)
        ⊎ ((health_tick bad watch (at true running none)).0.retry_interval ≡ tunnel_retry_interval))
health_tick-IsPaced_example = health_tick-IsPaced bad watch (at true running none) (omega arith)
