-- ===== src/Drivers/Native.antt =====
-- engine/internal/driver/goiosnative/: go-ios used as a library. A tunnel manager is known by its
-- number, and `open_managers` holds those that are not closed. What the library answers is an argument,
-- and a tunnel of it is its device with what `endpointFrom` makes of it.
pub mod Handle
use maps_main.Shared.{
  ℕ, suc, Text, Bool, true, false, not, ◌||◌, Option, none, some, List, [], ◌∷◌, if◌then◌else◌,
}
use maps_main.Domain.{TunnelInfo}
use maps_main.Auth.Store.{is_empty}
use maps_main.Drivers.Pmd3.{without, same_endpoint}

pub record Tunnel : Type 0 where
  pub udid : Text
  pub endpoint : Option TunnelInfo

-- What the manager answers to `FindTunnel` and to `ListTunnels`; an error is `none`.
pub record Answers : Type 0 where
  pub find : Text → Option Tunnel
  pub list : Option (List Tunnel)

-- The driver: `active` is `info` where `on` is set, and `bound` the endpoint of the device handle that
-- is kept, where `hasDev` is set.
pub record Driver : Type 0 where
  pub target_udid : Text
  pub manual : Option (Option TunnelInfo)
  pub manager : Option ℕ
  pub active : Option TunnelInfo
  pub udid : Text
  pub bound : Option TunnelInfo
  pub open_managers : List ℕ
  pub next_manager : ℕ

-- `New`
unfoldable pub new : Text → Option (Option TunnelInfo) → Driver
new udid manual = record {
  target_udid = udid;
  manual = manual;
  manager = none;
  active = none;
  udid = udid;
  bound = none;
  open_managers = [];
  next_manager = 0;
}

-- `resolveUDID`, with the first device that usbmux lists.
abbrev first_udid : Option Text → Text
first_udid none = []
first_udid (some u) = u

unfoldable pub resolve_udid : Option Text → Driver → Text × Driver
resolve_udid listed d =
    if not (is_empty d.target_udid)
    then (d.target_udid, d)
    else if not (is_empty d.udid)
    then (d.udid, d)
    else (first_udid listed, record d { udid = first_udid listed })

-- `findTunnel`
abbrev endpoint_of : Option Tunnel → Option TunnelInfo
endpoint_of none = none
endpoint_of (some t) = t.endpoint

abbrev or_later : Option TunnelInfo → Option TunnelInfo → Option TunnelInfo
or_later none later = later
or_later (some ti) later = some ti

abbrev first_usable : List Tunnel → Option TunnelInfo
first_usable [] = none
first_usable (t ∷ ts) = or_later t.endpoint (first_usable ts)

abbrev usable_of : Option (List Tunnel) → Option TunnelInfo
usable_of none = none
usable_of (some ts) = first_usable ts

unfoldable pub find_tunnel : Text → Answers → Option TunnelInfo
find_tunnel udid a = if not (is_empty udid) then endpoint_of (a.find udid) else usable_of a.list

-- `awaitTunnel`, over the polls that are made before the deadline or the end of the context.
abbrev pub await_tunnel : Text → List Answers → Option TunnelInfo
await_tunnel udid [] = none
await_tunnel udid (a ∷ later) = or_later (find_tunnel udid a) (await_tunnel udid later)

-- `teardown`
abbrev pub closed : Option ℕ → List ℕ → List ℕ
closed none ms = ms
closed (some m) ms = without m ms

unfoldable pub teardown : Driver → Driver
teardown d = record d {
  manager = none;
  active = none;
  bound = none;
  open_managers = closed d.manager d.open_managers;
}

-- How an attempt goes: whether the pair records can be read, the device that usbmux lists first, and
-- the polls.
pub record Attempt : Type 0 where
  pub pair_records : Bool
  pub listed : Option Text
  pub polls : List Answers

-- `startMode`: the endpoint, if the attempt succeeds.
abbrev pub settle : Option TunnelInfo → Driver → Option TunnelInfo × Driver
settle none d = (none, teardown d)
settle (some ti) d = (some ti, record d { active = some ti })

abbrev pub with_manager : Driver → Driver
with_manager d = record d {
  manager = some d.next_manager;
  open_managers = d.next_manager ∷ d.open_managers;
  next_manager = suc d.next_manager;
}

unfoldable pub start_mode : Attempt → Driver → Option TunnelInfo × Driver
start_mode a d =
    let known = resolve_udid a.listed d in
    if a.pair_records
    then settle (await_tunnel known.0 a.polls) (with_manager known.1)
    else (none, known.1)

-- `StartTunnel`: the two attempts, and whether the context has ended after the first.
abbrev pub second_mode : Bool → Attempt → Option TunnelInfo → Driver → Option TunnelInfo × Driver
second_mode over a (some ti) d = (some ti, d)
second_mode over a none d = if over then (none, d) else start_mode a d

abbrev from_manual : Option TunnelInfo → Driver → Option TunnelInfo × Driver
from_manual none d = (none, d)
from_manual (some ti) d = (some ti, record d { active = some ti })

abbrev pub start_with :
    Option (Option TunnelInfo) → Attempt → Bool → Attempt → Driver → Option TunnelInfo × Driver
start_with (some address) kernel over userspace d = from_manual address d
start_with none kernel over userspace d =
    let first = start_mode kernel d in second_mode over userspace first.0 first.1

abbrev pub start_unless :
    Option TunnelInfo → Attempt → Bool → Attempt → Driver → Option TunnelInfo × Driver
start_unless (some ti) kernel over userspace d = (some ti, d)
start_unless none kernel over userspace d = start_with d.manual kernel over userspace d

unfoldable pub start_tunnel : Attempt → Bool → Attempt → Driver → Option TunnelInfo × Driver
start_tunnel kernel over userspace d = start_unless d.active kernel over userspace d

-- `ReresolveTunnel`: the endpoint, whether the daemon lives, and the driver.
abbrev pub follow : Option TunnelInfo → Driver → Option TunnelInfo × Bool × Driver
follow none d = (none, true, d)
follow (some ti) d = (some ti, true, record d { active = some ti })

abbrev pub follow_managed : Option ℕ → Answers → Driver → Option TunnelInfo × Bool × Driver
follow_managed none a d = (none, false, d)
follow_managed (some m) a d = follow (find_tunnel d.udid a) d

abbrev pub follow_unless :
    Option (Option TunnelInfo) → Answers → Driver → Option TunnelInfo × Bool × Driver
follow_unless (some address) a d = (none, true, d)
follow_unless none a d = follow_managed d.manager a d

unfoldable pub reresolve_tunnel : Answers → Driver → Option TunnelInfo × Bool × Driver
reresolve_tunnel a d = follow_unless d.manual a d

-- `deviceHandle`, with whether a handle can be built: the endpoint that the handle is bound to.
abbrev pub rebuilt : Bool → TunnelInfo → Driver → Option TunnelInfo × Driver
rebuilt builds ti d = if builds then (some ti, record d { bound = some ti }) else (none, d)

abbrev pub handle_for : Bool → TunnelInfo → Option TunnelInfo → Driver → Option TunnelInfo × Driver
handle_for builds ti none d = rebuilt builds ti d
handle_for builds ti (some b) d = if same_endpoint b ti then (some b, d) else rebuilt builds ti d

abbrev pub handle_at : Bool → Option TunnelInfo → Driver → Option TunnelInfo × Driver
handle_at builds none d = (none, d)
handle_at builds (some ti) d = handle_for builds ti d.bound d

unfoldable pub device_handle : Bool → Driver → Option TunnelInfo × Driver
device_handle builds d = handle_at builds d.active d

-- `SetLocation` and `ClearLocation`: the endpoint that the call reached, if it succeeded; a handle that
-- fails is dropped (`invalidateDevice`).
abbrev pub settle_call : Bool → Option TunnelInfo × Driver → Option TunnelInfo × Driver
settle_call fails (none, d) = (none, d)
settle_call fails (some b, d) = if fails then (none, record d { bound = none }) else (some b, d)

unfoldable pub set_location : Bool → Bool → Driver → Option TunnelInfo × Driver
set_location builds fails d = settle_call fails (device_handle builds d)
