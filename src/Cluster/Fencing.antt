-- ===== src/Cluster/Fencing.antt =====
-- The fencing of claims by epochs in cluster.go and cluster_http.go.
use maps_main.Shared.{
  ℕ, ◌≡◌, ◌≢◌, refl, ◌⊎◌, inl, inr, String, Bool, true, false, List, [], ◌∷◌, All, arith,
  Bool-cases,
}
use maps_main.Shared.Int.{ℤ, pos, negsuc, ◌≤ℤ◌, ◌<ℤ◌, max_int64, int64_succ}
use maps_main.Cluster.Model.{
  Mode, master, slave, Peer, Manager, Net, has_quorum, update_config, release, valid_peer_host_port,
  master_ref,
}
use maps_main.Cluster.Heartbeat.{
  Ping, settle_master, check_peers, Notice, notices, takeover, check_master_health, handle_takeover,
  Entry, handle_discovered,
}

int64_succ-lt : (e : ℤ) → e ≢ pos max_int64 → e <ℤ int64_succ e
unfolding int64_succ
int64_succ-lt (pos n) h = ground arith
int64_succ-lt (negsuc n) h = ground arith

-- A claim of a takeover is taken exactly if its epoch is above this node's: then the node becomes a
-- slave at that epoch under that master. Any other claim changes nothing.
handle_takeover_fences :
    (now : ℕ) (new_master : String) (claim : ℤ) (m : Manager)
    → let (s, success) = handle_takeover now new_master claim m in
      ((claim ≤ℤ m.epoch) × (success ≡ false) × (s ≡ m))
      ⊎ ((m.epoch <ℤ claim)
          × (success ≡ true)
          × (s.epoch ≡ claim)
          × (s.role ≡ slave)
          × (s.current_master ≡ master_ref new_master)
          × (s.last_master_seen ≡ now)
          × (s.peers ≡ m.peers))
unfolding handle_takeover
handle_takeover_fences now new_master claim m = ground arith

-- A takeover that passes the quorum makes this node master at a higher epoch, below the int64
-- limit. A node at most at the old epoch that gets the notice becomes a slave at the new epoch, and
-- its own claim at its old epoch is then refused by the new master.
pub takeover_fences_old_master :
    (now then : ℕ) (new old : Manager) (name : String)
    → has_quorum new ≡ true
    → new.epoch ≢ pos max_int64
    → old.epoch ≤ℤ new.epoch
    → let won = (takeover now new).0 in
      let told = (handle_takeover then "me" won.epoch old).0 in
      (won.role ≡ master)
      × (told.role ≡ slave)
      × (told.epoch ≡ won.epoch)
      × (handle_takeover then name old.epoch won ≡ (won, false))
unfolding takeover handle_takeover
takeover_fences_old_master now then new old name q small le =
    ground (arith, int64_succ-lt new.epoch)

notices-All :
    (e : ℤ) (ps : List Peer)
    → All
        (λ (n : Notice). (n.claim ≡ e) × (valid_peer_host_port n.to_address n.to_port ≡ true))
        (notices e ps)
unfolding notices
notices-All e [] = tt
notices-All e (p ∷ ps) = elim (Bool-cases (valid_peer_host_port p.address p.port)) [
  | inl ok ↦ rw (ok, notices) ((refl, ok), notices-All e ps)
  | inr bad ↦ rw (bad, notices) (notices-All e ps)
]

-- Without a quorum a takeover does nothing. With one, every notice carries the new epoch and goes to
-- an address that makes a valid URL.
takeover_notices :
    (now : ℕ) (m : Manager)
    → ((has_quorum m ≡ false) × (takeover now m ≡ (m, [])))
      ⊎ ((has_quorum m ≡ true)
          × All
              (λ (n : Notice).
                (n.claim ≡ (takeover now m).0.epoch)
                × (valid_peer_host_port n.to_address n.to_port ≡ true))
              (takeover now m).1)
unfolding takeover
takeover_notices now m = elim (Bool-cases (has_quorum m)) [
  | inl q ↦ inr (q, rw q (notices-All (int64_succ m.epoch) m.peers))
  | inr n ↦ inl (n, rw n)
]

-- What may happen to a manager.
pub data Step (net : Net) : Manager → Manager → Type 0 where
  pinged : {m : Manager} (ping : Peer → Ping) (now : ℕ) → Step net m (check_peers net ping now m)
  checked : {m : Manager} (dead_after now : ℕ) → Step net m (check_master_health dead_after now m).0
  took_over : {m : Manager} (now : ℕ) → Step net m (takeover now m).0
  told :
      {m : Manager} (now : ℕ) (name : String) (claim : ℤ)
      → Step net m (handle_takeover now name claim m).0
  released : {m : Manager} → Step net m (release m)
  found : {m : Manager} (e : Entry) → Step net m (handle_discovered e m)
  configured :
      {m : Manager} (mode : Mode) (nodes : List String) (sync : Bool)
      → Step net m (update_config net mode nodes sync m)

pub data Reach (net : Net) (m : Manager) : Manager → Type 0 where
  here : Reach net m m
  next : {s t : Manager} → Reach net m s → Step net s t → Reach net m t

check_peers-epoch :
    (net : Net) (ping : Peer → Ping) (now : ℕ) (m : Manager)
    → m.epoch ≤ℤ (check_peers net ping now m).epoch
unfolding check_peers settle_master
check_peers-epoch net ping now m = ground arith

takeover-epoch :
    (now : ℕ) (m : Manager) → (m.epoch ≡ pos max_int64) ⊎ (m.epoch ≤ℤ (takeover now m).0.epoch)
unfolding takeover
takeover-epoch now m = ground (arith, int64_succ-lt m.epoch)

Step-epoch :
    {net : Net} {m s : Manager} → Step net m s → (m.epoch ≡ pos max_int64) ⊎ (m.epoch ≤ℤ s.epoch)
unfolding check_master_health handle_takeover release handle_discovered update_config
Step-epoch (pinged {m} ping now) = inr (check_peers-epoch _ ping now m)
Step-epoch (checked {m} dead_after now) = ground (arith, takeover-epoch now m)
Step-epoch (took_over {m} now) = takeover-epoch now m
Step-epoch (told {m} now name claim) = inr (ground arith)
Step-epoch (released {m}) = inr (ground arith)
Step-epoch (found {m} e) = inr (ground arith)
Step-epoch (configured {m} mode nodes sync) = inr (omega arith)

-- Whatever pings, takeovers, claims, discoveries and settings a manager goes through, its epoch
-- never falls, unless on the way it held the largest int64.
pub Reach-epoch :
    {net : Net} {m s : Manager}
    → Reach net m s
    → ((t : Manager) × Reach net m t × (t.epoch ≡ pos max_int64)) ⊎ (m.epoch ≤ℤ s.epoch)
Reach-epoch here = inr (omega arith)
Reach-epoch (next {s} {t} r st) = elim (Reach-epoch r) [
  | inl hit ↦ inl hit
  | inr le ↦ elim (Step-epoch st) [ inl top ↦ inl (s, r, top) | inr le' ↦ inr (omega arith) ]
]
