-- ===== src/Server/Manage.antt =====
-- engine/internal/server/pair.go: the handlers that manage the paired devices, over HTTP and over the
-- WebSocket. `loopback` says whether the caller is on the machine itself.
pub mod Calls
pub mod Local
use maps_main.Shared.{
  ℕ, ◌-◌, ◌%◌, Text, Bool, true, false, not, Option, none, some, List, [], ◌∷◌, if◌then◌else◌,
}
use maps_main.Auth.Totp.{code_at}
use maps_main.Auth.Store.{
  Store, Device, Revoked, revoked, unknown_device, failed, ensure_seed, list_devices, revoke,
}

-- What a handler answers: a refusal, an error, or what was asked for. Without an auth store the
-- handlers have no route over HTTP.
pub data Answer : Type 0 where
  no_route : Answer
  not_configured : Answer
  forbidden : Answer
  not_found : Answer
  error : Answer
  ok : Answer
  pair_code : (code : Text) (seconds_remaining : ℕ) → Answer
  devices : List Device → Answer

-- `30 - (time.Now().Unix() % 30)`
abbrev seconds_remaining : ℕ → ℕ
seconds_remaining t = 30 - t % 30

abbrev code_answer : Option Text → ℕ → Answer
code_answer none t = error
code_answer (some code) t = pair_code code (seconds_remaining t)

abbrev devices_answer : Option (List Device) → Answer
devices_answer none = error
devices_answer (some ds) = devices ds

-- A revocation of a device that is not there is an answer of its own over HTTP only.
abbrev revoked_answer : Revoked → Answer
revoked_answer revoked = ok
revoked_answer unknown_device = not_found
revoked_answer failed = error

module _ (decode_seed : Text → Option (List ℕ)) (hmac_sha1 : List ℕ → List ℕ → ℕ → ℕ) where
  -- `CurrentCode` of store.go
  abbrev code_with : Option Text → ℕ → Option Text
  code_with none t = none
  code_with (some seed) t = code_at decode_seed hmac_sha1 seed t

  unfoldable pub current_code : Bool → Text → ℕ → Store → Option Text × Store
  current_code db raw t s = let seeded = ensure_seed db raw s in (code_with seeded.0 t, seeded.1)

  -- `handlePairCode`
  unfoldable pub handle_pair_code : Bool → Bool → Text → ℕ → Store → Answer × Store
  handle_pair_code loopback db raw t s =
      let made = current_code db raw t s in
      if loopback then (code_answer made.0 t, made.1) else (forbidden, s)

  -- `guardPairWS` before `dispatchGetPairCode`; without an auth store there is no access to configure.
  unfoldable pub dispatch_get_pair_code :
      Bool → Bool → Text → ℕ → Option Store → Answer × Option Store
  dispatch_get_pair_code loopback db raw t none = (not_configured, none)
  dispatch_get_pair_code loopback db raw t (some s) =
      let made = current_code db raw t s in
      if loopback then (code_answer made.0 t, some made.1) else (forbidden, some s)

-- `handleListDevices`
unfoldable pub handle_list_devices : Bool → Bool → Store → Answer
handle_list_devices loopback db s =
    if loopback then devices_answer (list_devices db s) else forbidden

-- `dispatchListPairedDevices`
unfoldable pub dispatch_list_paired_devices : Bool → Bool → Option Store → Answer
dispatch_list_paired_devices loopback db none = not_configured
dispatch_list_paired_devices loopback db (some s) =
    if loopback then devices_answer (list_devices db s) else forbidden

-- `handleRevokeDevice`
unfoldable pub handle_revoke_device : Bool → Bool → Text → Store → Answer × Store
handle_revoke_device loopback db id s =
    let done = revoke db id s in
    if loopback then (revoked_answer done.0, done.1) else (forbidden, s)

-- `dispatchRevokePairedDevice`: it answers with the list that is left; `id` is the payload as it decodes.
abbrev list_after : Bool → Revoked × Store → Answer × Option Store
list_after db (revoked, s) = (devices_answer (list_devices db s), some s)
list_after db (unknown_device, s) = (devices_answer (list_devices db s), some s)
list_after db (failed, s) = (error, some s)

unfoldable pub dispatch_revoke_paired_device :
    Bool → Bool → Bool → Option Text → Option Store → Answer × Option Store
dispatch_revoke_paired_device loopback db list_db id none = (not_configured, none)
dispatch_revoke_paired_device loopback db list_db none (some s) =
    if loopback then (error, some s) else (forbidden, some s)
dispatch_revoke_paired_device loopback db list_db (some id) (some s) =
    if loopback then list_after list_db (revoke db id s) else (forbidden, some s)
