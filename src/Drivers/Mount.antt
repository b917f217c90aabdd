-- ===== src/Drivers/Mount.antt =====
-- engine/internal/driver/tunnel_mount.go and endpoint.go: the active tunnel and its daemon. A process is
-- a number. What the operating system knows, which processes are gone and which were told to go, is
-- kept beside the mount. How a poll of `Start` goes, the daemon's exit included, is an argument.
pub mod State
pub mod Daemon
pub mod Follow
use maps_main.Shared.{
  ℕ, suc, ◌+◌, ◌-◌, String, Text, text_eq, trim_space, Bool, true, false, not, ◌&&◌, Option, none,
  some, is_some, List, [], ◌∷◌, ◌++◌, length, drop, ltb, ◌==◌, if◌then◌else◌,
}
use maps_main.Domain.{TunnelInfo, ConnectionType}
use maps_main.Auth.Store.{is_empty}

pub record TunnelMount : Type 0 where
  pub info : Option TunnelInfo
  pub on : Bool
  pub cmd : Option ℕ
  pub udid : Text
  pub daemon_exited : Bool

abbrev pub no_mount : TunnelMount
no_mount = record { info = none; on = false; cmd = none; udid = []; daemon_exited = false }

-- The machine: the mount, the number of the next process, those that were reaped and those for which
-- a kill was asked.
pub record Host : Type 0 where
  pub mount : TunnelMount
  pub next_pid : ℕ
  pub dead : ℕ → Bool
  pub killed : ℕ → Bool

abbrev pub mark : ℕ → (ℕ → Bool) → ℕ → Bool
mark p f q = if q == p then true else f q

-- `set`
unfoldable pub set : TunnelInfo → Option ℕ → Text → TunnelMount → TunnelMount
set ti c udid m = record {
  info = some ti;
  on = true;
  cmd = c;
  udid = trim_space udid;
  daemon_exited = false;
}

-- `SetActive`
unfoldable pub set_active : TunnelInfo → Text → TunnelMount → TunnelMount
unfolding set
set_active ti udid m = set ti none udid m

abbrev pub is_cmd : ℕ → Option ℕ → Bool
is_cmd p none = false
is_cmd p (some q) = p == q

-- `onDaemonExit`
unfoldable pub on_daemon_exit : ℕ → TunnelMount → TunnelMount
on_daemon_exit p m = record m { daemon_exited = if is_cmd p m.cmd then true else m.daemon_exited }

-- `UpdateInfo`
unfoldable pub update_info : TunnelInfo → TunnelMount → TunnelMount
update_info ti m = record m { info = if m.on then some ti else m.info }

-- `DaemonRunning` and `IsManual`
unfoldable pub daemon_running : TunnelMount → Bool
daemon_running m = m.on && is_some m.cmd && not m.daemon_exited

unfoldable pub is_manual : TunnelMount → Bool
is_manual m = m.on && not (is_some m.cmd)

-- The goroutine that waits for a daemon: it is reaped, and the mount is told.
unfoldable pub reap : ℕ → Host → Host
unfolding on_daemon_exit
reap p h = record h { mount = on_daemon_exit p h.mount; dead = mark p h.dead }

abbrev pub reap_if : Bool → ℕ → Host → Host
reap_if b p h = if b then reap p h else h

-- `killProcess`, and whether the daemon is reaped within the time that is allowed for it.
unfoldable pub kill_and_reap : Bool → ℕ → Host → Host
kill_and_reap in_time p h = reap_if in_time p (record h { killed = mark p h.killed })

unfoldable pub kill_daemon : Bool → Option ℕ → Host → Host
kill_daemon in_time none h = h
kill_daemon in_time (some p) h = kill_and_reap in_time p h

-- `Stop`
unfoldable pub stop : Bool → Host → Host
stop in_time h =
    let off = record h { mount = no_mount } in
    if h.mount.on then kill_daemon in_time h.mount.cmd off else off

-- `healthDialTarget` and `CheckHealth`, with what a dial answers.
unfoldable pub health_dial_target : TunnelInfo → String × ℕ
health_dial_target ti =
    if ltb 0 ti.userspace_port then ("127.0.0.1", ti.userspace_port) else (ti.address, ti.port)

abbrev pub dial_answers : (String × ℕ → Bool) → Option TunnelInfo → Bool
unfolding health_dial_target
dial_answers dial none = false
dial_answers dial (some ti) = dial (health_dial_target ti)

unfoldable pub check_health : (String × ℕ → Bool) → TunnelMount → Bool
check_health dial m = m.on && not m.daemon_exited && dial_answers dial m.info

-- `appendTail`
abbrev tunnel_tail_lines : ℕ
tunnel_tail_lines = 20

unfoldable append_tail : (String → Bool) → String → List String → List String
append_tail keep line tail =
    let longer = tail ++ line ∷ [] in
    if not (keep line)
    then tail
    else if ltb tunnel_tail_lines (length longer)
    then drop (length longer - tunnel_tail_lines) longer
    else longer

-- What wakes the loop of `Start` once an endpoint could not be resolved.
pub data Wake : Type 0 where
  daemon_gone : Wake
  deadline : (in_time : Bool) → Wake
  cancelled : (in_time : Bool) → Wake
  ticked : Wake

-- One turn of that loop. The daemon may exit before the turn, or between the answer of `Resolve` and
-- the call of `set`.
pub record Turn : Type 0 where
  pub exits_before : Bool
  pub resolved : Option (TunnelInfo × Text)
  pub exits_between : Bool
  pub wake : Wake

pub data Started : Type 0 where
  up : TunnelInfo → Started
  failed : Started
  waiting : Started

abbrev pub wake_up : ℕ → Wake → Started × Host → Host → Started × Host
wake_up p daemon_gone rest h = (failed, reap p h)
wake_up p (deadline in_time) rest h = (failed, kill_and_reap in_time p h)
wake_up p (cancelled in_time) rest h = (failed, kill_and_reap in_time p h)
wake_up p ticked rest h = rest

-- The loop, over the turns that it takes; `waiting` if they end without an outcome.
unfoldable pub poll : ℕ → List Turn → Host → Started × Host
poll p [] h = (waiting, h)
poll p (t ∷ turns) h =
    let h' = reap_if t.exits_before p h in
    let rest = poll p turns h' in
    elim (t.resolved) [
      | some (ti, udid) ↦
          let h'' = reap_if t.exits_between p h' in
          (up ti, record h'' { mount = set ti (some p) udid h''.mount })
      | none ↦ wake_up p t.wake rest h'
    ]

-- The parts of the configuration that decide: what ParseManual makes of a manual address, whether
-- BeforeStart and the start of the daemon succeed.
pub record StartConfig : Type 0 where
  pub manual : Option (Option TunnelInfo)
  pub before_start : Bool
  pub daemon_starts : Bool

-- `Start`
unfoldable pub start : StartConfig → List Turn → Host → Started × Host
unfolding set_active
start cfg turns h =
    let p = h.next_pid in
    let launched = poll p turns (record h { next_pid = suc p }) in
    if h.mount.on
    then elim (h.mount.info) [ some ti ↦ (up ti, h) | none ↦ (failed, h) ]
    else elim (cfg.manual) [
      | some none ↦ (failed, h)
      | some (some ti) ↦ (up ti, record h { mount = set_active ti [] h.mount })
      | none ↦ if cfg.before_start && cfg.daemon_starts then launched else (failed, h)
    ]

-- A device as ListNetworkDevices reports it, with what Classify makes of its address.
pub record NetworkDevice : Type 0 where
  pub udid : Text
  pub address : String
  pub port : ℕ
  pub type : ConnectionType
  pub userspace_port : ℕ

abbrev pub info_of : NetworkDevice → TunnelInfo
info_of d = record {
  address = d.address;
  port = d.port;
  type = d.type;
  userspace_port = d.userspace_port;
}

-- The loop of `ReresolveActiveTunnel`: the first device that is the wanted one.
abbrev pub first_wanted : Text → List NetworkDevice → Option NetworkDevice
first_wanted want [] = none
first_wanted want (d ∷ ds) =
    let rest = first_wanted want ds in
    if not (is_empty want) && not (text_eq d.udid want) then rest else some d

-- `ReresolveActiveTunnel`: the endpoint that was found, whether the daemon lives, and the mount.
unfoldable pub reresolve_active_tunnel :
    Option (List NetworkDevice) → TunnelMount → Option TunnelInfo × Bool × TunnelMount
reresolve_active_tunnel listed m = if is_manual m then (none, true, m) else elim listed [
  | none ↦ (none, daemon_running m, m)
  | some devices ↦ elim (first_wanted m.udid devices) [
    | none ↦ (none, daemon_running m, m)
    | some d ↦ (some (info_of d), true, update_info (info_of d) m)
  ]
]
