-- ===== src/Tests/Cluster.antt =====
-- The theorems on cluster.go at a cluster of three nodes.
use maps_main.Shared.{ℕ, ◌≡◌, refl, ◌⊎◌, String, Bool, true, false, some, [], ◌∷◌, arith}
use maps_main.Shared.Int.{pos, max_int64, ◌≤ℤ◌}
use maps_main.Cluster.{
  auto, Role, master, slave, unknown, MasterRef, nobody, node, Peer, Manager, Net, has_quorum,
  count_online,
}
use maps_main.Cluster.{Ping, failed, answered, check_peers, heartbeat, takeover, handle_takeover}
use maps_main.Cluster.Quorum.{quorum_exclusive}
use maps_main.Cluster.Fencing.{
  takeover_fences_old_master, pinged, told, Reach, here, next, Reach-epoch,
}
use maps_main.Cluster.Failover.{heartbeat_never_promotes}

abbrev net : Net
net = record {
  key = λ a p. a;
  split_host_port = λ s. some (s, "8000");
  atoi = λ s. some (pos 8000);
  is_loopback_ip = λ s. false;
}

abbrev peer : String → Bool → Peer
peer address online = record {
  address = address;
  port = pos 8000;
  online = online;
  role = unknown;
  name = address;
  discovered = false;
  epoch = pos 0;
  last_seen = 0;
}

abbrev manager : Bool → Bool → Role → ℕ → MasterRef → Manager
manager b c role epoch current = record {
  mode = auto;
  role = role;
  server_name = "a";
  self_port = pos 8000;
  epoch = pos epoch;
  peers = peer "b" b ∷ peer "c" c ∷ [];
  current_master = current;
  last_master_seen = 0;
  self_addrs = [];
  sync_certs = false;
  initial_synced = false;
}

-- One node sees another, the third sees none.
abbrev majority : Manager
majority = manager true false slave 3 (node "c")

abbrev alone : Manager
alone = manager false false master 3 nobody

-- Every configured peer answers as a master at epoch 7.
abbrev answers : Peer → Ping
answers p = elim p.discovered [ true ↦ failed | false ↦ answered master "b" (pos 7) ]

quorum_exclusive_example : has_quorum alone ≡ false
unfolding has_quorum count_online
quorum_exclusive_example = quorum_exclusive majority alone (omega arith) refl (omega arith) refl

takeover_fences_old_master_example :
    let won = (takeover 50 majority).0 in
    let old = (handle_takeover 60 "me" won.epoch alone).0 in
    (won.role ≡ master)
    × (old.role ≡ slave)
    × (old.epoch ≡ won.epoch)
    × (handle_takeover 60 "c" (pos 3) won ≡ (won, false))
unfolding has_quorum count_online
takeover_fences_old_master_example =
    takeover_fences_old_master 50 60 majority alone "c" refl (ground arith) (omega arith)

Reach-epoch_example :
    ((t : Manager) × Reach net alone t × (t.epoch ≡ pos max_int64))
    ⊎ (pos 3 ≤ℤ (check_peers net answers 70 (handle_takeover 60 "b" (pos 4) alone).0).epoch)
Reach-epoch_example = Reach-epoch (next (next here (told 60 "b" (pos 4))) (pinged answers 70))

heartbeat_never_promotes_example :
    ((heartbeat net (λ p. failed) 30 100 101 majority).0.role ≡ slave)
    × ((heartbeat net (λ p. failed) 30 100 101 majority).1 ≡ [])
heartbeat_never_promotes_example =
    heartbeat_never_promotes net (λ p. failed) 30 100 101 majority (ground arith) (omega arith)
