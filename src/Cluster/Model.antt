-- ===== src/Cluster/Model.antt =====
-- cluster.go: the manager's state, its configuration and peer addresses.
use Prim.Native.Char.{code}
use maps_main.Shared.{
  ℕ, suc, ◌+◌, ◌*◌, String, Bool, true, false, not, ◌&&◌, ◌||◌, Option, none, some, List, [], ◌∷◌,
  ltb, leb, ◌==◌, if◌then◌else◌, str_eq,
}
use maps_main.Shared.Int.{ℤ, pos, negsuc, leb_ℤ, ltb_ℤ}

-- Durations that the web interface may change.
pub record Tuning : Type 0 where
  pub heartbeat : ℕ
  pub master_dead : ℕ
  pub peer_timeout : ℕ

-- A non-positive value leaves its field unchanged.
unfoldable set_tuning : ℤ → ℤ → ℤ → Tuning → Tuning
set_tuning h d p t = record {
  heartbeat = positive_or h t.heartbeat;
  master_dead = positive_or d t.master_dead;
  peer_timeout = positive_or p t.peer_timeout;
}
  where
    positive_or : ℤ → ℕ → ℕ
    positive_or (pos n) old = if ltb 0 n then n else old
    positive_or (negsuc n) old = old

pub data Mode : Type 0 where
  off manual auto other : Mode

-- `unknown` stands for every text but the three roles, such as the empty one of a bad answer.
pub data Role : Type 0 where
  master slave standalone unknown : Role

-- `currentMaster`: "", "me" or the key of a peer.
pub data MasterRef : Type 0 where
  nobody me : MasterRef
  node : String → MasterRef

-- The reading of a `currentMaster` text that came over the network.
unfoldable pub master_ref : String → MasterRef
master_ref s = if str_eq s "" then nobody else if str_eq s "me" then me else node s

pub record Peer : Type 0 where
  pub address : String
  pub port : ℤ
  pub online : Bool
  pub role : Role
  pub name : String
  pub discovered : Bool
  pub epoch : ℤ
  pub last_seen : ℕ

pub record Manager : Type 0 where
  pub mode : Mode
  pub role : Role
  pub server_name : String
  pub self_port : ℤ
  pub epoch : ℤ
  pub peers : List Peer
  pub current_master : MasterRef
  pub last_master_seen : ℕ
  pub self_addrs : List String
  pub sync_certs : Bool
  pub initial_synced : Bool

-- What the source takes from Go's packages: `fmt.Sprintf("%s:%d")`, `net.SplitHostPort`,
-- `strconv.Atoi`, and whether `net.ParseIP` reads a loopback address.
pub record Net : Type 0 where
  pub key : String → ℤ → String
  pub split_host_port : String → Option (String × String)
  pub atoi : String → Option ℤ
  pub is_loopback_ip : String → Bool

-- One byte of hostCharsRe, `[a-zA-Z0-9.:_%-]`.
unfoldable pub is_host_char : ℕ → Bool
is_host_char c =
    (leb b'a' c && leb c b'z')
    || (leb b'A' c && leb c b'Z')
    || (leb b'0' c && leb c b'9')
    || c == b'.'
    || c == b':'
    || c == b'_'
    || c == b'%'
    || c == b'-'

unfoldable pub matches_host_chars : String → Bool
matches_host_chars String.[] = true
matches_host_chars (String.◌∷◌ c s) = is_host_char (code c) && matches_host_chars s

unfoldable pub valid_peer_host_port : String → ℤ → Bool
valid_peer_host_port host port =
    not (str_eq host "") && matches_host_chars host && ltb_ℤ (pos 0) port && leb_ℤ port (pos 65535)

abbrev pub new_peer : String → ℤ → Peer
new_peer host port = record {
  address = host;
  port = port;
  online = false;
  role = unknown;
  name = "";
  discovered = false;
  epoch = pos 0;
  last_seen = 0;
}

unfoldable parse_port : String → Option ℤ → Option Peer
parse_port host none = none
parse_port host (some port) =
    if valid_peer_host_port host port then some (new_peer host port) else none

unfoldable parse_split : Net → Option (String × String) → Option Peer
parse_split net none = none
parse_split net (some (host, port)) = parse_port host (net.atoi port)

unfoldable pub parse_peer_addr : Net → String → Option Peer
unfolding parse_split parse_port
parse_peer_addr net addr = parse_split net (net.split_host_port addr)

abbrev pub same_key : String → ℤ → Peer → Bool
same_key a p q = str_eq a q.address && leb_ℤ p q.port && leb_ℤ q.port p

-- `m.peers[p.key()] = p`
unfoldable pub put_peer : Peer → List Peer → List Peer
put_peer p [] = p ∷ []
put_peer p (q ∷ qs) = if same_key p.address p.port q then p ∷ qs else q ∷ put_peer p qs

unfoldable put_parsed : Option Peer → List Peer → List Peer
put_parsed none ps = ps
put_parsed (some p) ps = put_peer p ps

unfoldable pub add_nodes : Net → List String → List Peer → List Peer
unfolding put_parsed
add_nodes net [] ps = ps
add_nodes net (n ∷ ns) ps = add_nodes net ns (put_parsed (parse_peer_addr net n) ps)

abbrev is_clustered : Mode → Bool
is_clustered manual = true
is_clustered auto = true
is_clustered _ = false

-- `New`, with the host name and the local addresses already looked up.
unfoldable pub new : Net → Mode → List String → String → ℤ → List String → Bool → Manager
new net mode nodes server_name self_port self_addrs sync_certs = record {
  mode = mode;
  role = if is_clustered mode then slave else standalone;
  server_name = server_name;
  self_port = self_port;
  epoch = pos 0;
  peers = add_nodes net nodes [];
  current_master = nobody;
  last_master_seen = 0;
  self_addrs = self_addrs;
  sync_certs = sync_certs;
  initial_synced = false;
}

abbrev is_off : Mode → Bool
is_off off = true
is_off _ = false

abbrev is_standalone : Role → Bool
is_standalone standalone = true
is_standalone _ = false

-- The state change of `UpdateConfig`, between its `Stop` and its `Start`. The role is never "".
unfoldable pub update_config : Net → Mode → List String → Bool → Manager → Manager
update_config net mode nodes sync_certs m = record m {
  mode = mode;
  sync_certs = sync_certs;
  initial_synced = false;
  role = if is_off mode then standalone else if is_standalone m.role then slave else m.role;
  current_master = if is_off mode then nobody else m.current_master;
  peers = add_nodes net nodes [];
}

-- `hasQuorumLocked`
unfoldable pub count_online : List Peer → ℕ
count_online [] = 0
count_online (p ∷ ps) = if p.online then suc (count_online ps) else count_online ps

abbrev pub count_peers : List Peer → ℕ
count_peers [] = 0
count_peers (p ∷ ps) = suc (count_peers ps)

unfoldable pub has_quorum : Manager → Bool
has_quorum m =
    if ltb (count_peers m.peers + 1) 3
    then true
    else ltb (count_peers m.peers + 1) ((1 + count_online m.peers) * 2)

-- `Release`
unfoldable pub release : Manager → Manager
release m = if is_master m.role then record m { role = slave } else m
  where
    is_master : Role → Bool
    is_master master = true
    is_master _ = false
