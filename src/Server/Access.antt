-- ===== src/Server/Access.antt =====
-- engine/internal/server/auth.go and origin.go: who may act on the engine. A request is held as
-- net/http, net/url and net read it: the origin with what url.Parse makes of it, the peer with whether
-- its address parses and is a loopback one. The environment is an argument.
pub mod Guard
use maps_main.Shared.{
  ℕ, ◌+◌, String, Text, runes, text_eq, lower, equal_fold, has_suffix, trim_suffix, trim_space,
  after_prefix, split, Bool, true, false, not, ◌&&◌, ◌||◌, Option, none, some, List, [], ◌∷◌,
  if◌then◌else◌,
}
use maps_main.Auth.Store.{Store, verify_token, is_empty}

-- What url.Parse reads, the host without its port (`hostnameOf`), and whether that host is the text of
-- a loopback address.
pub record Url : Type 0 where
  pub scheme : Text
  pub host : Text
  pub hostname : Text
  pub loopback_address : Bool

pub record Request : Type 0 where
  pub origin : Text
  pub origin_url : Option Url
  pub host : Text
  pub authorization : Text
  pub subprotocols : Text
  pub query_token : Text
  pub client_ip : String
  pub peer_loopback : Bool

-- GPSMOCK_API_KEY and GPSMOCK_ALLOWED_ORIGINS; an empty one is as good as unset.
pub record Environment : Type 0 where
  pub api_key : Text
  pub allowed_origins : Text

-- nativeOriginSchemes
abbrev native_scheme : Text → Bool
native_scheme s =
    text_eq s (runes "tauri")
    || text_eq s (runes "capacitor")
    || text_eq s (runes "ionic")
    || text_eq s (runes "file")

-- `configuredOrigins`
abbrev tidy_origins : List Text → List Text
tidy_origins [] = []
tidy_origins (p ∷ ps) =
    let rest = tidy_origins ps in
    if is_empty (trim_space p) then rest else trim_suffix (runes "/") (trim_space p) ∷ rest

abbrev configured_origins : Environment → List Text
configured_origins env =
    if is_empty env.allowed_origins then [] else tidy_origins (split 44 env.allowed_origins)

abbrev any_fold : List Text → Text → Bool
any_fold [] o = false
any_fold (a ∷ rest) o = equal_fold a o || any_fold rest o

-- `isLoopbackHost`
unfoldable is_loopback_host : Url → Bool
is_loopback_host u =
    let host = lower (trim_suffix (runes ".") u.hostname) in
    text_eq host (runes "localhost") || has_suffix host (runes ".localhost") || u.loopback_address

abbrev pub url_allowed : Environment → Request → Option Url → Bool
unfolding is_loopback_host
url_allowed env r none = false
url_allowed env r (some u) =
    if is_empty u.host
    then native_scheme (lower u.scheme)
    else native_scheme (lower u.scheme)
      || equal_fold u.host r.host
      || is_loopback_host u
      || any_fold (configured_origins env) r.origin

-- `checkOrigin`
unfoldable pub check_origin : Environment → Request → Bool
check_origin env r =
    if is_empty r.origin
    then true
    else not (equal_fold r.origin (runes "null")) && url_allowed env r r.origin_url

-- `subprotocolToken`
unfoldable pub subprotocol_token : Text → Text
subprotocol_token raw = elim (split 44 raw) [
  | p ∷ q ∷ [] ↦ if equal_fold (trim_space p) (runes "bearer") then trim_space q else []
  | _ ↦ []
]

-- `bearerOrQueryToken`
unfoldable pub bearer_or_query_token : Request → Text
bearer_or_query_token r = elim (after_prefix (runes "Bearer ") r.authorization) [
  | some token ↦ trim_space token
  | none ↦
      let offered = subprotocol_token r.subprotocols in
      if is_empty offered then r.query_token else offered
]

-- How `checkAuth` ends.
pub data Verdict : Type 0 where
  allowed : Verdict
  forbidden_origin : Verdict
  unauthorized : Verdict

module _ (hash_secret : Text → Text) where
  -- The test of a paired token, where an auth store is attached; a hit refreshes last_seen.
  unfoldable pub paired_token : Bool → Bool → Text → ℕ → Option Store → Bool × Option Store
  paired_token read wrote token now none = (false, none)
  paired_token read wrote token now (some s) =
      if is_empty token
      then (false, some s)
      else let seen = verify_token hash_secret read wrote token now s in (seen.0, some seen.1)

  -- `checkAuth`
  unfoldable pub check_auth :
      Environment → Bool → Bool → ℕ → Request → Option Store → Verdict × Option Store
  check_auth env read wrote now r auth =
      let token = bearer_or_query_token r in
      let paired = paired_token read wrote token now auth in
      if not (check_origin env r)
      then (forbidden_origin, auth)
      else if paired.0
      then (allowed, paired.1)
      else (
        (if is_empty env.api_key
            then (if r.peer_loopback then allowed else unauthorized)
            else (if text_eq token env.api_key then allowed else unauthorized)),
        paired.1,
      )
