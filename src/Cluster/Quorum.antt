-- ===== src/Cluster/Quorum.antt =====
-- The quorum of cluster.go: two sides of a partition cannot both elect a master.
use maps_main.Shared.{◌+◌, ◌≤◌, ◌≡◌, true, false, List, [], ◌∷◌, arith}
use maps_main.Cluster.Model.{Peer, Manager, count_online, count_peers, has_quorum}

count_online-le : (ps : List Peer) → count_online ps ≤ count_peers ps
unfolding count_online
count_online-le [] = omega arith
count_online-le (p ∷ ps) = ground (arith, count_online-le ps)

-- Two members of one cluster of at least three nodes, each counting itself and the peers that it
-- sees online: if no node is counted on both sides, they do not both have a quorum.
pub quorum_exclusive :
    (a b : Manager)
    → 2 ≤ count_peers a.peers
    → count_peers a.peers ≡ count_peers b.peers
    → (1 + count_online a.peers) + (1 + count_online b.peers) ≤ 1 + count_peers a.peers
    → has_quorum a ≡ true
    → has_quorum b ≡ false
unfolding has_quorum
quorum_exclusive a b big same apart qa = ground arith

-- A node that sees every peer online has a quorum, whatever the size of the cluster.
quorum_when_connected :
    (m : Manager) → count_online m.peers ≡ count_peers m.peers → has_quorum m ≡ true
unfolding has_quorum
quorum_when_connected m all = ground arith
