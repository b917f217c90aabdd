-- ===== src/Drivers/Pmd3/Sole.antt =====
-- The worker processes of the pymobiledevice3 backend, and the mode its tunnel is in.
use maps_main.Shared.{
  ℕ, ◌≡◌, refl, Text, String, Bool, true, false, Option, none, some, List, [], ◌∷◌, arith, ◌⊎◌, inl,
  inr, Option-cases, if◌then◌else◌,
}
use maps_main.Domain.{TunnelInfo}
use maps_main.Drivers.Gate.{no_observation}
use maps_main.Drivers.Mount.{
  TunnelMount, no_mount, set_active, reap, on_daemon_exit, Started, up, failed, waiting,
  NetworkDevice,
}
use maps_main.Drivers.Pmd3.{
  Worker, Driver, userspace_endpoint, without, end_worker, take_location_session, drop_session,
  open_session, StartRun, start_tunneld, start_userspace_tunnel, mount_image, fall_back,
  start_tunnel, stop_tunnel, tunnel, reresolve_tunnel, session_for, same_endpoint, session_of,
  location_session, Reply, done, context_over, broken, settle_set, set_location, clear_location,
}

abbrev numbers_of : Option Worker → List ℕ
numbers_of none = []
numbers_of (some w) = w.pid ∷ []

-- The mount of an in-process tunnel: up on its endpoint, with no daemon.
abbrev IsInProcess : TunnelMount → Type 0
IsInProcess m = (m.on ≡ true) × (m.info ≡ some userspace_endpoint) × (m.cmd ≡ none)

abbrev IsWorkerless : Driver → Type 0
IsWorkerless d = (d.location ≡ none) × (d.running ≡ [])

-- No worker lives, or the driver's own one alone; in userspace mode the mount is that of an
-- in-process tunnel, and the worker, if it is there, is the one that holds it.
abbrev pub IsSole : Driver → Type 0
IsSole d =
    ((d.running ≡ []) ⊎ (d.running ≡ numbers_of d.location))
    × (d.userspace ≡ true → IsInProcess d.host.mount)
    × (d.userspace ≡ true → (w : Worker) → d.location ≡ some w → w.endpoint ≡ userspace_endpoint)

without_self : (p : ℕ) → without p (p ∷ []) ≡ []
without_self p = ground arith

pub drop_session-IsWorkerless : (d : Driver) → IsSole d → IsWorkerless (drop_session d)
unfolding drop_session take_location_session end_worker
drop_session-IsWorkerless d s =
    let gone = without_self in
    elim (Option-cases d.location) [
      | inl nobody ↦ ground (arith, s.0, nobody)
      | inr (w, is) ↦ ground (arith, s.0, is, gone w.pid)
    ]

pub drop_session_mode :
    (d : Driver)
    → ((drop_session d).userspace ≡ d.userspace)
      × ((drop_session d).host ≡ d.host)
      × ((drop_session d).next_worker ≡ d.next_worker)
unfolding drop_session take_location_session end_worker
drop_session_mode d = elim (Option-cases d.location) [
  | inl nobody ↦ ground (arith, nobody)
  | inr (w, is) ↦ ground (arith, is)
]

drop_session-IsSole : (d : Driver) → IsSole d → IsSole (drop_session d)
drop_session-IsSole d s = ground (arith, s, drop_session-IsWorkerless d s, drop_session_mode d)

-- A worker is opened where none lives, and not in userspace mode, unless for its own endpoint.
open_session-IsSole :
    (b : Bool) (ti : TunnelInfo) (d : Driver)
    → IsWorkerless d
    → d.userspace ≡ false
    → IsSole (open_session b ti d).1
unfolding open_session
open_session-IsSole b ti d s off = ground (arith, s, off)

if-IsSole :
    (b : Bool) (x y : Option Worker × Driver)
    → (b ≡ true → IsSole x.1)
    → (b ≡ false → IsSole y.1)
    → IsSole (if b then x else y).1
if-IsSole true x y s t = s refl
if-IsSole false x y s t = t refl

session_for-IsSole :
    (python gets_ready : Bool) (ti : TunnelInfo) (o : Option Worker) (d : Driver)
    → o ≡ d.location
    → d.userspace ≡ false
    → IsSole d
    → IsSole (session_for python gets_ready ti o d).1
session_for-IsSole python gets_ready ti none d o off s =
    let alone : IsWorkerless d = ground (arith, o, s) in
    if-IsSole python (open_session gets_ready ti d) (none, d)
      (λ h. open_session-IsSole gets_ready ti d alone off) (λ h. s)
session_for-IsSole python gets_ready ti (some w) d o off s =
    let moved = drop_session d in
    let mode = drop_session_mode d in
    let alone = drop_session-IsWorkerless d s in
    let off' : moved.userspace ≡ false = ground (arith, mode, off) in
    let opened = open_session gets_ready ti moved in
    if-IsSole (same_endpoint w.endpoint ti) (some w, d) (if python then opened else (none, moved))
      (λ h. s)
      (λ h.
        if-IsSole python opened (none, moved)
          (λ k. open_session-IsSole gets_ready ti moved alone off') (λ k. drop_session-IsSole d s))

session_of-IsSole :
    (python gets_ready : Bool) (o : Option TunnelInfo) (d : Driver)
    → IsSole d
    → IsSole (session_of python gets_ready o d).1
session_of-IsSole python gets_ready none d s = s
session_of-IsSole python gets_ready (some ti) d s =
    if-IsSole d.userspace (d.location, d) (session_for python gets_ready ti d.location d) (λ h. s)
      (λ h. session_for-IsSole python gets_ready ti d.location d refl h s)

location_session-IsSole :
    (python gets_ready : Bool) (d : Driver)
    → IsSole d
    → IsSole (location_session python gets_ready d).1
unfolding location_session
location_session-IsSole python gets_ready d s = session_of-IsSole python gets_ready (tunnel d) d s

settle_set-IsSole :
    (reply : Reply) (o : Option Worker) (d : Driver) → IsSole d → IsSole (settle_set reply (o, d)).1
settle_set-IsSole reply none d s = s
settle_set-IsSole done (some w) d s = s
settle_set-IsSole context_over (some w) d s = s
settle_set-IsSole broken (some w) d s = drop_session-IsSole d s

set_location-IsSole :
    (python gets_ready : Bool) (reply : Reply) (d : Driver)
    → IsSole d
    → IsSole (set_location python gets_ready reply d).1
unfolding set_location
set_location-IsSole python gets_ready reply d s =
    let asked = location_session python gets_ready d in
    settle_set-IsSole reply asked.0 asked.1 (location_session-IsSole python gets_ready d s)

clear_location-IsSole :
    (python gets_ready : Bool) (d : Driver) → IsSole d → IsSole (clear_location python gets_ready d)
unfolding clear_location
clear_location-IsSole python gets_ready d s =
    let asked = (location_session python gets_ready d).1 in
    let held = drop_session-IsSole d s in
    let opened = drop_session-IsSole asked (location_session-IsSole python gets_ready d s) in
    ground (arith, held, opened)

start_userspace_tunnel-IsSole :
    (r : StartRun) (d : Driver)
    → d.userspace ≡ false
    → IsSole d
    → IsSole (start_userspace_tunnel r d).1
unfolding start_userspace_tunnel open_session set_active
start_userspace_tunnel-IsSole r d off s =
    let alone = drop_session-IsWorkerless d s in
    let mode = drop_session_mode d in ground (arith, s, off, alone, mode)

fall_back-IsSole :
    (r : StartRun) (first : Started) (d : Driver)
    → d.userspace ≡ false
    → IsSole d
    → IsSole (fall_back r first d).1
fall_back-IsSole r (up ti) d off s = s
fall_back-IsSole r waiting d off s = s
fall_back-IsSole r failed d off s =
    let user = start_userspace_tunnel-IsSole r d off s in ground (arith, s, user)

start_tunnel-IsSole : (r : StartRun) (d : Driver) → IsSole d → IsSole (start_tunnel r d).1
unfolding start_tunnel start_tunneld mount_image
start_tunnel-IsSole r d s =
    let first = start_tunneld r (mount_image r.image (record d { userspace = false })) in
    fall_back-IsSole r first.0 first.1 refl (ground (arith, s))

stop_tunnel-IsSole :
    (reaped : Bool) (kill_error worker_error : Option String) (d : Driver)
    → IsSole d
    → IsSole (stop_tunnel reaped kill_error worker_error d).1
unfolding stop_tunnel
stop_tunnel-IsSole reaped kill_error worker_error d s =
    let dropped = drop_session-IsWorkerless d s in ground (arith, dropped)

reresolve_tunnel-IsSole :
    (pongs : Bool) (listed : Option (List NetworkDevice)) (d : Driver)
    → IsSole d
    → IsSole (reresolve_tunnel pongs listed d).2
unfolding reresolve_tunnel
reresolve_tunnel-IsSole pongs listed d s = ground (arith, s)

-- A process exits on its own: a daemon, or a worker.
unfoldable pub daemon_exits : ℕ → Driver → Driver
daemon_exits p d = record d { host = reap p d.host }

unfoldable pub worker_exits : ℕ → Driver → Driver
worker_exits p d = record d { running = without p d.running }

daemon_exits-IsSole : (p : ℕ) (d : Driver) → IsSole d → IsSole (daemon_exits p d)
unfolding daemon_exits reap on_daemon_exit
daemon_exits-IsSole p d s = ground (arith, s)

worker_exits-IsSole : (p : ℕ) (d : Driver) → IsSole d → IsSole (worker_exits p d)
unfolding worker_exits
worker_exits-IsSole p d s = elim (Option-cases d.location) [
  | inl nobody ↦ ground (arith, s, nobody)
  | inr (w, is) ↦ ground (arith, s, is)
]

-- What happens to a driver: its calls, and exits of processes.
pub data Step : Driver → Driver → Type 0 where
  started : (r : StartRun) {d : Driver} → Step d (start_tunnel r d).1
  stopped :
      (reaped : Bool) (kill_error worker_error : Option String) {d : Driver}
      → Step d (stop_tunnel reaped kill_error worker_error d).1
  followed :
      (pongs : Bool) (listed : Option (List NetworkDevice)) {d : Driver}
      → Step d (reresolve_tunnel pongs listed d).2
  located :
      (python gets_ready : Bool) (reply : Reply) {d : Driver}
      → Step d (set_location python gets_ready reply d).1
  cleared : (python gets_ready : Bool) {d : Driver} → Step d (clear_location python gets_ready d)
  lost_daemon : (p : ℕ) {d : Driver} → Step d (daemon_exits p d)
  lost_worker : (p : ℕ) {d : Driver} → Step d (worker_exits p d)

-- `New`
unfoldable pub new : Text → Option (Option TunnelInfo) → Driver
new udid manual = record {
  host = record { mount = no_mount; next_pid = 0; dead = λ p. false; killed = λ p. false };
  gate = no_observation;
  target_udid = udid;
  manual = manual;
  userspace = false;
  location = none;
  running = [];
  next_worker = 0;
}

pub data Reach : Driver → Type 0 where
  fresh : (udid : Text) (manual : Option (Option TunnelInfo)) → Reach (new udid manual)
  next : {c d : Driver} → Reach c → Step c d → Reach d

new-IsSole : (udid : Text) (manual : Option (Option TunnelInfo)) → IsSole (new udid manual)
unfolding new
new-IsSole udid manual = ground arith

Step-IsSole : {c d : Driver} → IsSole c → Step c d → IsSole d
Step-IsSole {c} s (started r) = start_tunnel-IsSole r c s
Step-IsSole {c} s (stopped reaped kill_error worker_error) =
    stop_tunnel-IsSole reaped kill_error worker_error c s
Step-IsSole {c} s (followed pongs listed) = reresolve_tunnel-IsSole pongs listed c s
Step-IsSole {c} s (located python gets_ready reply) =
    set_location-IsSole python gets_ready reply c s
Step-IsSole {c} s (cleared python gets_ready) = clear_location-IsSole python gets_ready c s
Step-IsSole {c} s (lost_daemon p) = daemon_exits-IsSole p c s
Step-IsSole {c} s (lost_worker p) = worker_exits-IsSole p c s

-- Through any starts, stops, searches, injections, clearings and exits of processes, in any order, at
-- most one worker process lives and it is the driver's own; and while the driver is in userspace mode
-- its mount is up on the in-process endpoint with no daemon, and its worker, if it has one, holds it.
pub Reach-IsSole : {d : Driver} → Reach d → IsSole d
Reach-IsSole (fresh udid manual) = new-IsSole udid manual
Reach-IsSole (next r step) = Step-IsSole (Reach-IsSole r) step
