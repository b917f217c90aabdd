-- ===== src/Server/Manage/Calls.antt =====
-- engine/internal/server/auth.go, pair.go and websocket.go: the calls that manage the paired devices, one
-- after another, each with the address that its connection came from.
use maps_main.Shared.{ℕ, Text, Bool, false, Option, none, some, List, [], ◌∷◌}
use maps_main.Auth.Store.{Store}
use maps_main.Server.Manage.{
  Answer, no_route, handle_pair_code, dispatch_get_pair_code, handle_list_devices,
  dispatch_list_paired_devices, handle_revoke_device, dispatch_revoke_paired_device,
}

-- What the source takes from Go's `net`: the host of `SplitHostPort`, `ParseIP` and `IsLoopback`.
pub record GoNet : Type 1 where
  pub Ip : Type 0
  pub split_host_port : Text → Option Text
  pub parse_ip : Text → Option Ip
  pub is_loopback_ip : Ip → Bool

pub data Request : Type 0 where
  get_code list_devices : Request
  revoke_device : (id : Text) → Request
  ws_get_code ws_list_devices : Request
  ws_revoke_device : (payload : Option Text) → Request

-- `remote_addr` is `RemoteAddr` of the request, or of the handshake that opened the WebSocket. The
-- statements on the database succeed or not (`db`, `list_db`), and a new seed would be `seed`.
pub record Call : Type 0 where
  pub remote_addr : Text
  pub request : Request
  pub at : ℕ
  pub db : Bool
  pub list_db : Bool
  pub seed : Text

module _ (net : GoNet) where
  open net use {Ip, split_host_port, parse_ip, is_loopback_ip}

  -- `clientIP`
  abbrev host_or : Text → Option Text → Text
  host_or addr none = addr
  host_or addr (some host) = host

  unfoldable pub client_ip : Text → Text
  client_ip addr = host_or addr (split_host_port addr)

  -- `isLoopback`
  abbrev parsed_loopback : Option Ip → Bool
  parsed_loopback none = false
  parsed_loopback (some ip) = is_loopback_ip ip

  unfoldable pub is_loopback : Text → Bool
  is_loopback addr = parsed_loopback (parse_ip (client_ip addr))

module _ (net : GoNet) (decode_seed : Text → Option (List ℕ))
    (hmac_sha1 : List ℕ → List ℕ → ℕ → ℕ) where
  abbrev kept : Answer × Store → Answer × Option Store
  kept (a, s) = (a, some s)

  -- The requests over HTTP, which have a route where there is a store, and those over the WebSocket.
  abbrev pub route : Bool → Call → Request → Option Store → Answer × Option Store
  route local c ws_get_code auth =
      dispatch_get_pair_code decode_seed hmac_sha1 local c.db c.seed c.at auth
  route local c ws_list_devices auth = (dispatch_list_paired_devices local c.db auth, auth)
  route local c (ws_revoke_device p) auth =
      dispatch_revoke_paired_device local c.db c.list_db p auth
  route local c get_code none = (no_route, none)
  route local c get_code (some s) =
      kept (handle_pair_code decode_seed hmac_sha1 local c.db c.seed c.at s)
  route local c list_devices none = (no_route, none)
  route local c list_devices (some s) = (handle_list_devices local c.db s, some s)
  route local c (revoke_device id) none = (no_route, none)
  route local c (revoke_device id) (some s) = kept (handle_revoke_device local c.db id s)

  unfoldable pub manage : Call → Option Store → Answer × Option Store
  manage c auth = route (is_loopback net c.remote_addr) c c.request auth

  -- The calls one after another: what each was answered, and the store that they leave.
  abbrev pub manage_all : List Call → Option Store → List (Call × Answer) × Option Store
  manage_all [] auth = ([], auth)
  manage_all (c ∷ cs) auth =
      let done = manage c auth in
      let later = manage_all cs done.1 in ((c, done.0) ∷ later.0, later.1)
