-- ===== src/Cluster/Heartbeat.antt =====
-- cluster.go, cluster_http.go, cluster_discovery.go: pings, takeovers and discovered peers.
use maps_main.Shared.{
  ℕ, ◌-◌, String, Bool, true, false, not, ◌&&◌, ◌||◌, Option, none, some, List, [], ◌∷◌, ltb,
  if◌then◌else◌, str_eq,
}
use maps_main.Shared.Int.{ℤ, pos, leb_ℤ, ltb_ℤ, int64_succ}
use maps_main.Cluster.Model.{
  Mode, auto, Role, master, slave, MasterRef, nobody, me, node, master_ref, Peer, Manager, Net,
  valid_peer_host_port, new_peer, same_key, has_quorum,
}

-- The answer to one ping. A body that does not decode is an answer with an unknown role, an empty
-- name and epoch 0.
pub data Ping : Type 0 where
  failed : Ping
  answered : (role : Role) (name : String) (epoch : ℤ) → Ping

abbrev pub is_master : Role → Bool
is_master master = true
is_master _ = false

-- What one round of pings has found so far: the master's key and epoch.
pub record Found : Type 0 where
  pub key : Option String
  pub epoch : ℤ

unfoldable pub mark_answer : ℕ → Ping → Peer → Peer
mark_answer now failed p = record p { online = false }
mark_answer now (answered role name epoch) p = record p {
  online = true;
  role = role;
  epoch = epoch;
  name = if str_eq name "" then p.name else name;
  last_seen = now;
}

unfoldable pub note_master : Net → Peer → Ping → Found → Found
note_master net p failed f = f
note_master net p (answered role name epoch) f =
    if is_master role && leb_ℤ f.epoch epoch
    then record { key = some (net.key p.address p.port); epoch = epoch }
    else f

-- A peer whose address makes no URL is not asked.
abbrev pub ping_of : (Peer → Ping) → Peer → Ping
ping_of ping p = if valid_peer_host_port p.address p.port then ping p else failed

-- The loop of `checkPeers`.
unfoldable pub poll : Net → (Peer → Ping) → ℕ → List Peer → Found → List Peer × Found
poll net ping now [] f = ([], f)
poll net ping now (p ∷ ps) f =
    let (qs, g) = poll net ping now ps (note_master net p (ping_of ping p) f) in
    (mark_answer now (ping_of ping p) p ∷ qs, g)

-- The critical section that ends `checkPeers`.
unfoldable pub settle_master : ℕ → Found → Manager → Manager
settle_master now f m = settle f.key
  where
    forget : MasterRef → MasterRef
    forget (node k) = nobody
    forget r = r

    settle : Option String → Manager
    settle (some k) = record m {
      current_master = node k;
      last_master_seen = now;
      epoch = if ltb_ℤ m.epoch f.epoch then f.epoch else m.epoch;
    }
    settle none = record m { current_master = forget m.current_master }

abbrev pub no_master : Found
no_master = record { key = none; epoch = pos 0 }

unfoldable pub check_peers : Net → (Peer → Ping) → ℕ → Manager → Manager
check_peers net ping now m =
    let (ps, f) = poll net ping now m.peers no_master in
    settle_master now f (record m { peers = ps })

-- A takeover notice to one peer: the new master is always sent as "me".
pub record Notice : Type 0 where
  pub to_address : String
  pub to_port : ℤ
  pub claim : ℤ

unfoldable pub notices : ℤ → List Peer → List Notice
notices e [] = []
notices e (p ∷ ps) =
    if valid_peer_host_port p.address p.port
    then record { to_address = p.address; to_port = p.port; claim = e } ∷ notices e ps
    else notices e ps

-- `Takeover`: the new state, and the notices sent.
unfoldable pub takeover : ℕ → Manager → Manager × List Notice
takeover now m =
    let e = int64_succ m.epoch in
    if has_quorum m
    then (
      record m { epoch = e; role = master; current_master = me; last_master_seen = now },
      notices e m.peers,
    )
    else (m, [])

abbrev is_auto : Mode → Bool
is_auto auto = true
is_auto _ = false

abbrev is_slave : Role → Bool
is_slave slave = true
is_slave _ = false

abbrev is_nobody : MasterRef → Bool
is_nobody nobody = true
is_nobody _ = false

-- `checkMasterHealth`, at time `now` with the configured delay `dead_after`.
unfoldable pub check_master_health : ℕ → ℕ → Manager → Manager × List Notice
check_master_health dead_after now m =
    if is_auto m.mode
      && is_slave m.role
      && not (is_nobody m.current_master)
      && ltb dead_after (now - m.last_master_seen)
    then takeover now m
    else (m, [])

-- One beat of `heartbeatLoop`: the pings end at time `now`, the health check reads `later`.
unfoldable pub heartbeat : Net → (Peer → Ping) → ℕ → ℕ → ℕ → Manager → Manager × List Notice
heartbeat net ping dead_after now later m =
    check_master_health dead_after later (check_peers net ping now m)

-- `handleTakeover`: the new state, and the "success" of the answer.
unfoldable pub handle_takeover : ℕ → String → ℤ → Manager → Manager × Bool
handle_takeover now new_master claim m = if leb_ℤ claim m.epoch then (m, false) else (
  record m {
    epoch = claim;
    role = slave;
    current_master = master_ref new_master;
    last_master_seen = now;
    initial_synced = false;
  },
  true,
)

abbrev has_address : String → List Peer → Bool
has_address a [] = false
has_address a (p ∷ ps) = str_eq p.address a || has_address a ps

-- `isAuthorizedPeerAddr`
unfoldable is_authorized_peer_addr : Net → String → Manager → Bool
is_authorized_peer_addr net remote m =
    let host = host_of (net.split_host_port remote) in
    if net.is_loopback_ip host then true else has_address host m.peers
  where
    host_of : Option (String × String) → String
    host_of none = remote
    host_of (some (h, p)) = h

-- An mDNS entry: its port, instance name (trimmed of the service type) and addresses.
pub record Entry : Type 0 where
  pub port : ℤ
  pub name : String
  pub ipv4 : List String
  pub ipv6 : List String

abbrev contains : String → List String → Bool
contains s [] = false
contains s (t ∷ ts) = str_eq s t || contains s ts

abbrev any_in : List String → List String → Bool
any_in [] ts = false
any_in (s ∷ ss) ts = contains s ts || any_in ss ts

unfoldable pub is_self_host : Entry → Manager → Bool
is_self_host e m = any_in e.ipv4 m.self_addrs || any_in e.ipv6 m.self_addrs

abbrev first_address : List String → List String → Option String
first_address (a ∷ _) _ = some a
first_address [] (a ∷ _) = some a
first_address [] [] = none

unfoldable pub discover : String → ℤ → String → List Peer → List Peer
discover a port name [] = record (new_peer a port) { name = name; discovered = true } ∷ []
discover a port name (q ∷ qs) =
    if same_key a port q
    then record q { name = if str_eq name "" then q.name else name } ∷ qs
    else q ∷ discover a port name qs

unfoldable pub handle_discovered : Entry → Manager → Manager
handle_discovered e m =
    if leb_ℤ e.port m.self_port && leb_ℤ m.self_port e.port && is_self_host e m
    then m
    else add (first_address e.ipv4 e.ipv6)
  where
    add : Option String → Manager
    add none = m
    add (some a) = record m { peers = discover a e.port e.name m.peers }
