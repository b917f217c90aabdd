-- ===== src/Drivers/Pmd3.antt =====
-- engine/internal/driver/pmd3/tunnel.go, userspace.go and location.go: the backend of pymobiledevice3,
-- built on the mount, its gate and the location worker. A worker is known by the number of its process
-- and `running` holds those that live; what the outside answers is an argument. Killing a worker and
-- asking it to stop both end its process, since `stop` kills one that does not exit in time.
pub mod Sole
pub mod Mode
use maps_main.Shared.{
  ℕ, suc, String, Text, Bool, true, false, not, ◌&&◌, ◌||◌, Option, none, some, is_some, List, [],
  ◌∷◌, ◌==◌, str_eq, if◌then◌else◌,
}
use maps_main.Domain.{TunnelInfo, conn_usb}
use maps_main.Drivers.Mount.{
  TunnelMount, Host, set_active, stop, check_health as dial_health, Turn, Started, up, failed,
  waiting, StartConfig, start, NetworkDevice, reresolve_active_tunnel,
}
use maps_main.Drivers.Gate.{MountGate, ImageRun, mount_developer_image}

pub record Worker : Type 0 where
  pub pid : ℕ
  pub endpoint : TunnelInfo

-- The driver, with the machine its mount stands on. `manual` is the manual address, with what
-- ParseManual makes of it.
pub record Driver : Type 0 where
  pub host : Host
  pub gate : MountGate
  pub target_udid : Text
  pub manual : Option (Option TunnelInfo)
  pub userspace : Bool
  pub location : Option Worker
  pub running : List ℕ
  pub next_worker : ℕ

-- `userspaceEndpoint`
abbrev pub userspace_endpoint : TunnelInfo
userspace_endpoint = record {
  address = "in-process";
  port = 0;
  type = conn_usb;
  userspace_port = 0;
}

abbrev pub without : ℕ → List ℕ → List ℕ
without p [] = []
without p (q ∷ qs) = let rest = without p qs in if q == p then rest else q ∷ rest

-- `forceKill` and `stop` of a session.
unfoldable pub end_worker : Worker → Driver → Driver
end_worker w d = record d { running = without w.pid d.running }

-- `takeLocationSession`, and the end of the session that was taken, if there was one.
unfoldable pub take_location_session : Driver → Driver
take_location_session d = record d { location = none }

abbrev end_taken : Option Worker → Driver → Driver
end_taken none d = d
end_taken (some w) d = end_worker w d

unfoldable pub drop_session : Driver → Driver
drop_session d = end_taken d.location (take_location_session d)

-- `newLocationSession`, kept as `d.location`: a worker that does not get ready is killed at once.
unfoldable pub open_session : Bool → TunnelInfo → Driver → Option Worker × Driver
open_session gets_ready ti d =
    let w : Worker = record { pid = d.next_worker; endpoint = ti } in
    let later : Driver = record d { next_worker = suc d.next_worker } in
    if gets_ready
    then (some w, record later { location = some w; running = d.next_worker ∷ d.running })
    else (none, later)

-- How a start goes: the interpreter, the run that mounts the image, the start of the daemon and the
-- turns of its poll, whether the caller's context has ended by then, and the worker of the fallback.
pub record StartRun : Type 0 where
  pub python : Bool
  pub image : ImageRun
  pub daemon_starts : Bool
  pub turns : List Turn
  pub context_over : Bool
  pub worker_ready : Bool

-- `startTunneld`
unfoldable pub start_tunneld : StartRun → Driver → Started × Driver
start_tunneld r d =
    let cfg : StartConfig = record {
      manual = d.manual;
      before_start = true;
      daemon_starts = r.python && r.daemon_starts;
    } in
    let answer = start cfg r.turns d.host in (answer.0, record d { host = answer.1 })

-- `startUserspaceTunnel`: the mode and the mount once the worker has answered.
abbrev enter_userspace : Option Worker × Driver → Started × Driver
enter_userspace (none, d) = (failed, d)
enter_userspace (some w, d) = (
  up userspace_endpoint,
  record d {
    userspace = true;
    host = record d.host { mount = set_active userspace_endpoint d.target_udid d.host.mount };
  },
)

unfoldable pub start_userspace_tunnel : StartRun → Driver → Started × Driver
start_userspace_tunnel r d =
    if r.python
    then enter_userspace (open_session r.worker_ready userspace_endpoint (drop_session d))
    else (failed, d)

-- `mountDeveloperImage` on the driver's gate.
unfoldable pub mount_image : ImageRun → Driver → Driver
mount_image i d = record d { gate = (mount_developer_image d.target_udid i d.gate).1 }

-- `StartTunnel`. A poll that has not ended is passed on as it is.
abbrev pub fall_back : StartRun → Started → Driver → Started × Driver
fall_back r (up ti) d = (up ti, d)
fall_back r waiting d = (waiting, d)
fall_back r failed d =
    if is_some d.manual || r.context_over then (failed, d) else start_userspace_tunnel r d

unfoldable pub start_tunnel : StartRun → Driver → Started × Driver
start_tunnel r d =
    let first = start_tunneld r (mount_image r.image (record d { userspace = false })) in
    fall_back r first.0 first.1

-- `StopTunnel`: the worker first, then the mount, whatever the worker says. The error is the daemon's,
-- or else the worker's.
abbrev or_error : Option String → Option String → Option String
or_error none e = e
or_error (some e) f = some e

unfoldable pub stop_tunnel : Bool → Option String → Option String → Driver → Option String × Driver
stop_tunnel reaped kill_error worker_error d =
    let worker = if is_some d.location then worker_error else none in
    let killed = if d.host.mount.on && is_some d.host.mount.cmd then kill_error else none in
    (
      or_error killed worker,
      record (drop_session d) { userspace = false; host = stop reaped d.host },
    )

-- `checkUserspaceHealth`, with whether the worker answers a ping, and `CheckHealth`.
abbrev check_userspace_health : Bool → Driver → Bool
check_userspace_health pongs d = is_some d.location && pongs

unfoldable pub check_health : Bool → (String × ℕ → Bool) → Driver → Bool
check_health pongs dial d =
    if d.userspace then check_userspace_health pongs d else dial_health dial d.host.mount

-- `Tunnel`
abbrev pub tunnel : Driver → Option TunnelInfo
tunnel d = if d.host.mount.on then d.host.mount.info else none

-- `ReresolveTunnel`: the endpoint, whether the daemon lives, and the driver.
unfoldable pub reresolve_tunnel :
    Bool → Option (List NetworkDevice) → Driver → Option TunnelInfo × Bool × Driver
reresolve_tunnel pongs listed d =
    let moved = reresolve_active_tunnel listed d.host.mount in
    if d.userspace
    then if check_userspace_health pongs d then (tunnel d, true, d) else (none, false, d)
    else (moved.0, moved.1, record d { host = record d.host { mount = moved.2 } })

-- `sameEndpoint`
abbrev pub same_endpoint : TunnelInfo → TunnelInfo → Bool
same_endpoint a b = str_eq a.address b.address && a.port == b.port

-- `locationSession`: the worker for the endpoint of the tunnel, opened anew if the tunnel has moved.
abbrev pub session_for : Bool → Bool → TunnelInfo → Option Worker → Driver → Option Worker × Driver
session_for python gets_ready ti none d = if python then open_session gets_ready ti d else (none, d)
session_for python gets_ready ti (some w) d =
    let moved = drop_session d in
    if same_endpoint w.endpoint ti
    then (some w, d)
    else if python
    then open_session gets_ready ti moved
    else (none, moved)

abbrev pub session_of : Bool → Bool → Option TunnelInfo → Driver → Option Worker × Driver
session_of python gets_ready none d = (none, d)
session_of python gets_ready (some ti) d =
    if d.userspace then (d.location, d) else session_for python gets_ready ti d.location d

unfoldable pub location_session : Bool → Bool → Driver → Option Worker × Driver
location_session python gets_ready d = session_of python gets_ready (tunnel d) d

-- What a request to a worker ends with.
pub data Reply : Type 0 where
  done : Reply
  context_over : Reply
  broken : Reply

-- `SetLocation`: only a broken worker is given up. The result is the worker that carried the position
-- out, if one did.
abbrev pub settle_set : Reply → Option Worker × Driver → Option Worker × Driver
settle_set reply (none, d) = (none, d)
settle_set done (some w, d) = (some w, d)
settle_set context_over (some w, d) = (none, d)
settle_set broken (some w, d) = (none, drop_session d)

unfoldable pub set_location : Bool → Bool → Reply → Driver → Option Worker × Driver
set_location python gets_ready reply d = settle_set reply (location_session python gets_ready d)

-- `ClearLocation`: whatever the worker answers, it is taken out of the driver and its process ends.
unfoldable pub clear_location : Bool → Bool → Driver → Driver
clear_location python gets_ready d =
    if is_some d.location
    then drop_session d
    else drop_session (location_session python gets_ready d).1
