-- ===== src/Cluster/Failover.antt =====
-- The automatic failover of cluster.go, `heartbeatLoop`: a beat pings the peers, then checks the
-- master's health.
use maps_main.Shared.{ℕ, ◌+◌, ◌≤◌, ◌≡◌, ◌≢◌, ◌⊎◌, none, [], arith}
use maps_main.Shared.Int.{pos}
use maps_main.Cluster.Model.{nobody, me, Peer, Manager, Net}
use maps_main.Cluster.Heartbeat.{
  Ping, Found, settle_master, check_peers, poll, check_master_health, heartbeat,
}

settle_master_cases :
    (now : ℕ) (f : Found) (m : Manager)
    → m.current_master ≢ me
    → let s = settle_master now f m in
      (s.role ≡ m.role) × ((s.current_master ≡ nobody) ⊎ (s.last_master_seen ≡ now))
unfolding settle_master
settle_master_cases now f m h = ground arith

-- A beat of the heartbeat never takes over, unless this slave had recorded "me" as the master. The
-- clock may run on between the two halves of the beat by no more than the configured delay. A
-- master that stops answering is forgotten by the pings before its health is looked at.
pub heartbeat_never_promotes :
    (net : Net) (ping : Peer → Ping) (dead_after now later : ℕ) (m : Manager)
    → m.current_master ≢ me
    → later ≤ now + dead_after
    → ((heartbeat net ping dead_after now later m).0.role ≡ m.role)
      × ((heartbeat net ping dead_after now later m).1 ≡ [])
unfolding heartbeat check_master_health check_peers
heartbeat_never_promotes net ping dead_after now later m h soon = ground (
  arith,
  settle_master_cases now (poll net ping now m.peers (record { key = none; epoch = pos 0 })).1
      (record m { peers = (poll net ping now m.peers (record { key = none; epoch = pos 0 })).0 }) h,
)
